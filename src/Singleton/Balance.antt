-- ===== src/Singleton/Balance.antt =====
-- The users of an allocator of src/gjalloc.hh share it: what they allocate and free goes to one
-- allocator, which is made for the first of them and given back after the last.
use gjalloc.Base.{
  ℕ, ◌+◌, ◌-◌, ◌^◌, ◌≤◌, ◌<◌, ◌≡◌, refl, ap, Bool-cases, inl, inr, Option, Option-cases, none, some,
  List, [], ◌∷◌, arith, ltb, ltb→lt, sub64, if◌then◌else◌, ne→==,
}
use gjalloc.Memory.{Memory, M, pure, ◌>>=◌}
use gjalloc.Allocator.{Allocator}
use gjalloc.Allocator.Init.{ba_init}
use gjalloc.Global.Blocks.{ba_alloc, ba_free}
use gjalloc.Global.Whole.{ba_destroy}
use gjalloc.Singleton.{Mv, register_alloc, unregister_alloc, mv_allocate, mv_deallocate}

-- A `GJAlloc` is constructed or destroyed, or one of them takes a block or gives one back.
pub data Use : Type 0 where
  enter : Use
  leave : Use
  get : Use
  put : ℕ → Use

-- How many users there are at the end, if there is always one and their number fits its word.
abbrev pub users : ℕ → List Use → Option ℕ
users c [] = some c
users c (enter ∷ es) = if ltb (c + 1) (2 ^ 64) then users (c + 1) es else none
users c (leave ∷ es) = if ltb 1 c then users (c - 1) es else none
users c (get ∷ es) = users c es
users c (put p ∷ es) = users c es

module _ (malloc : ℕ → M ℕ) (free : ℕ → M (Unit {0})) where
  -- The blocks that are taken and given back, of one allocator that no one makes or gives back:
  -- the allocator at the end and the blocks in the order in which they were handed out.
  unfoldable pub work : List Use → Allocator → M (Allocator × List ℕ)
  work [] a = pure (a, [])
  work (enter ∷ es) a = work es a
  work (leave ∷ es) a = work es a
  work (get ∷ es) a = do s ← ba_alloc malloc free a; r ← work es (s.0); pure (r.0, s.1 ∷ r.1)
  work (put p ∷ es) a = do a' ← ba_free free a p; work es a'

  module _ (ba_n blocks : ℕ) where
    unfoldable pub use_all : List Use → Mv → M (Mv × List ℕ)
    use_all [] mv = pure (mv, [])
    use_all (enter ∷ es) mv = do mv' ← register_alloc ba_n blocks mv; use_all es mv'
    use_all (leave ∷ es) mv = do mv' ← unregister_alloc free mv; use_all es mv'
    use_all (get ∷ es) mv = do
      s ← mv_allocate malloc free mv
      r ← use_all es (s.0)
      pure (r.0, s.1 ∷ r.1)
    use_all (put p ∷ es) mv = do mv' ← mv_deallocate free mv p; use_all es mv'

    enter_more :
        (a : Allocator) (c : ℕ) (m : Memory)
        → 1 ≤ c
        → c + 1 < 2 ^ 64
        → register_alloc ba_n blocks (record { allocator = a; cnt = c }) m
          ≡ some (record { allocator = a; cnt = c + 1 }, m)
    unfolding register_alloc
    enter_more a c m some_users fits =
        rw (ne→== c 0 (omega arith))
          (ap (λ t. some (record { allocator = a; cnt = t }, m)) (omega arith))

    leave_some :
        (a : Allocator) (c : ℕ) (m : Memory)
        → 1 < c
        → c < 2 ^ 64
        → unregister_alloc free (record { allocator = a; cnt = c }) m
          ≡ some (record { allocator = a; cnt = c - 1 }, m)
    unfolding unregister_alloc
    leave_some a c m more fits =
        rw (ne→== (sub64 c 1) 0 (omega arith))
          (ap (λ t. some (record { allocator = a; cnt = t }, m)) (omega arith))

    -- The users' run, from `c` users on, is that of the one allocator.
    abbrev Shared : List Use → Allocator → ℕ → ℕ → Memory → Type 0
    Shared es a c d m =
        use_all es (record { allocator = a; cnt = c }) m
        ≡ (do r ← work es a; pure (record { allocator = r.0; cnt = d }, r.1)) m

    Shared-get :
        (es : List Use) (a : Allocator) (c d : ℕ) (m : Memory)
        → ((a' : Allocator) (m' : Memory) → Shared es a' c d m')
        → Shared (get ∷ es) a c d m
    unfolding use_all work mv_allocate
    Shared-get es a c d m rest = elim (Option-cases (ba_alloc malloc free a m)) [
      | inl fault ↦ rw fault refl
      | inr (((a', b), m'), ran) ↦ elim (Option-cases (work es a' m')) [
        | inl fault ↦ (let e = rest a' m' in rw ran (let e' = rw fault at e in rw (e', fault) refl))
        | inr ((s, m''), worked) ↦
            (let e = rest a' m' in rw ran (let e' = rw worked at e in rw (e', worked) refl))
      ]
    ]

    Shared-put :
        (p : ℕ) (es : List Use) (a : Allocator) (c d : ℕ) (m : Memory)
        → ((a' : Allocator) (m' : Memory) → Shared es a' c d m')
        → Shared (put p ∷ es) a c d m
    unfolding use_all work mv_deallocate
    Shared-put p es a c d m rest = elim (Option-cases (ba_free free a p m)) [
      | inl fault ↦ rw fault refl
      | inr ((a', m'), ran) ↦ rw ran (rest a' m')
    ]

    use_all-users :
        (es : List Use) (c d : ℕ)
        → users c es ≡ some d
        → 1 ≤ c
        → c < 2 ^ 64
        → (a : Allocator) (m : Memory) → Shared es a c d m
    unfolding use_all work
    use_all-users [] c d count some_users fits a m = cc
    use_all-users (enter ∷ es) c d count some_users fits a m =
        elim (Bool-cases (ltb (c + 1) (2 ^ 64))) [
          | inl room ↦
              let lt = ltb→lt (c + 1) (2 ^ 64) room in
              rw (enter_more a c m some_users lt)
                (use_all-users es (c + 1) d (rw room at count) (omega arith) lt a m)
          | inr no_room ↦ cc
        ]
    use_all-users (leave ∷ es) c d count some_users fits a m = elim (Bool-cases (ltb 1 c)) [
      | inl more ↦
          let lt = ltb→lt 1 c more in
          rw (leave_some a c m lt fits)
            (use_all-users es (c - 1) d (rw more at count) (omega arith) (omega arith) a m)
      | inr last ↦ cc
    ]
    use_all-users (get ∷ es) c d count some_users fits a m =
        Shared-get es a c d m (use_all-users es c d count some_users fits)
    use_all-users (put p ∷ es) c d count some_users fits a m =
        Shared-put p es a c d m (use_all-users es c d count some_users fits)

    first_user :
        (mv : Mv) (a : Allocator) (m : Memory)
        → mv.cnt ≡ 0
        → ba_init mv.allocator ba_n blocks ≡ some a
        → register_alloc ba_n blocks mv m ≡ some (record { allocator = a; cnt = 1 }, m)
    unfolding register_alloc
    first_user mv a m none_yet made = rw (none_yet, made) refl

    leave_last :
        (a : Allocator) (m : Memory)
        → unregister_alloc free (record { allocator = a; cnt = 1 }) m
          ≡ (do a' ← ba_destroy free a; pure (record { allocator = a'; cnt = 0 })) m
    unfolding unregister_alloc
    leave_last a m = refl

    -- Given an allocator without users that `ba_init` can make, and users that come and go, take
    -- blocks and give them back, while there is always one of them, and one at the end: the blocks and
    -- the memory are those of the same requests to one allocator, made once by `ba_init`
    -- before all of them, and faults are the same; when the last one leaves, that allocator is
    -- given back by one call of `ba_destroy`.
    pub use_all-once :
        (es : List Use) (mv : Mv) (a : Allocator) (m : Memory)
        → mv.cnt ≡ 0
        → ba_init mv.allocator ba_n blocks ≡ some a
        → users 1 es ≡ some 1
        → (use_all (enter ∷ es) mv m
            ≡ (do r ← work es a; pure (record { allocator = r.0; cnt = 1 }, r.1)) m)
          × ((do s ← use_all (enter ∷ es) mv; unregister_alloc free (s.0)) m
              ≡ (do
                r ← work es a
                a' ← ba_destroy free (r.0)
                pure (record { allocator = a'; cnt = 0 }))
                  m)
    unfolding use_all
    use_all-once es mv a m none_yet made count =
        let ran = use_all-users es 1 1 count (omega arith) (omega arith) a m in
        let first = first_user mv a m none_yet made in
        (
          rw first ran,
          rw (first, ran)
              (elim (Option-cases (work es a m)) [
                | inl fault ↦ rw fault refl
                | inr (((a', bs), m'), worked) ↦ rw worked (leave_last a' m')
              ]),
        )
