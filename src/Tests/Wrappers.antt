-- ===== src/Tests/Wrappers.antt =====
-- The users of an allocator and the owners of an object, on concrete inputs.
use gjalloc.Base.{
  ℕ, ◌≤◌, ◌≡◌, ◌≢◌, refl, arith, none, some, [], ◌∷◌, ◌⊎◌, inl, inr, ◌==◌, if◌then◌else◌,
  Bool-cases, List, ap, sym, ◌∙◌, ==→eq, eq→==,
}
use mathlib.Core.Option
use mathlib.Core.Option.{some-injective}
use gjalloc.Memory.{Memory, M, pure, ◌>>=◌, ◌>>◌, null, load, store, update}
use gjalloc.Allocator.{Allocator}
use gjalloc.Allocator.Init.{ba_init, initial}
use gjalloc.Global.Whole.{ba_destroy}
use gjalloc.Singleton.{Mv, unregister_alloc, deallocate, mv_deallocate}
use gjalloc.Global.Blocks.{ba_alloc, ba_free}
use gjalloc.Page.{ba_unshift}
use gjalloc.Htable.{ba_check_ptr}
use gjalloc.Singleton.Balance.{Use, enter, leave, get, put, work, use_all, use_all-once}
use gjalloc.SmartPointer.{SmartPointer, release, assign}
use gjalloc.SmartPointer.Owners.{counted, owners, IsCounted, give_back, release-IsCounted}
use gjalloc.SmartPointer.Assign.{assign-IsCounted, assign_self}
use gjalloc.Tests.{blank, ready, words}
use gjalloc.Tests.Running.{after, bare, give_4096}

abbrev nobody : Mv
nobody = record { allocator = blank; cnt = 0 }

abbrev keep : ℕ → M (Unit {0})
keep p m = some (tt, m)

-- What `ba_init` makes of `blank` for four blocks of 16 bytes.
abbrev made : Allocator
made = initial blank 16 4

-- Two pointers with the cell at 1056, whose count is 2 then.
abbrev shared : SmartPointer
shared = record { t = 1072; refs = 1056 }

abbrev two_owners : Memory
two_owners = record { word = λ a. if a == 1056 then some 2 else none; page = λ p. none }

two_owners-IsCounted : IsCounted two_owners (shared ∷ shared ∷ [])
two_owners-IsCounted = record { counts = counts; few = omega arith }
  where
    counts :
        (r : ℕ)
        → r ≢ 0
        → 1 ≤ owners r (shared ∷ shared ∷ [])
        → two_owners.word r ≡ some (owners r (shared ∷ shared ∷ []))
    counts r ne owned = elim (Bool-cases (r == 1056)) [
      | inl here ↦ rw here refl
      | inr other ↦ (let out = rw other at owned in absurd (omega arith))
    ]

-- A second user comes, a block is taken, and the second user leaves, while another block is taken
-- and the first one given back.
abbrev visits : List Use
visits = get ∷ enter ∷ get ∷ leave ∷ put 4136 ∷ []

use_all-once_example :
    (use_all give_4096 keep 16 4 (enter ∷ visits) nobody bare
      ≡ (do r ← work give_4096 keep visits made; pure (record { allocator = r.0; cnt = 1 }, r.1))
          bare)
    × ((do s ← use_all give_4096 keep 16 4 (enter ∷ visits) nobody; unregister_alloc keep (s.0))
          bare
        ≡ (do
          r ← work give_4096 keep visits made
          a' ← ba_destroy keep (r.0)
          pure (record { allocator = a'; cnt = 0 }))
            bare)
unfolding ba_init
use_all-once_example = use_all-once give_4096 keep 16 4 visits nobody made bare refl refl refl

-- The two blocks are the first ones of one page.
visits_run :
    Option.map (λ z. z.0.1) (work give_4096 keep visits made bare) ≡ some (4136 ∷ 4152 ∷ [])
unfolding work ba_alloc ba_free ba_unshift ba_check_ptr load store initial
    gjalloc.Layout.ba_align_layout gjalloc.Layout.ba_init_layout gjalloc.Layout.round_up32
    gjalloc.Layout.round_up32_ gjalloc.Layout.magnitude gjalloc.Layout.count_zeros
    gjalloc.Global.Get.ba_global_get_page gjalloc.Global.Get.ba_get_page
    gjalloc.Global.Get.ba_alloc_page gjalloc.Global.Get.clear_next gjalloc.Global.Get.ba_pagesize
    gjalloc.Global.Update.page_list gjalloc.Global.Update.set_header gjalloc.Htable.ba_htable_insert
    gjalloc.Htable.bucket_of gjalloc.Htable.hash1 gjalloc.Htable.masked_hash gjalloc.Htable.mix
    gjalloc.Memory.load_page gjalloc.Memory.store_page gjalloc.Page.ba_free_page
    gjalloc.Page.ba_shift gjalloc.Page.ba_empty
visits_run = refl

release-IsCounted_example :
    (m' : Memory) × IsCounted m' (shared ∷ [])
    × (m'.page ≡ two_owners.page)
    × ((r : ℕ) → r ≢ 1056 → m'.word r ≡ two_owners.word r)
    × ((((1056 ≡ null) ⊎ (1 ≤ owners 1056 (shared ∷ [])))
          × (release keep keep nobody shared two_owners ≡ some (nobody, m')))
        ⊎ ((1056 ≢ null)
            × (owners 1056 (shared ∷ []) ≡ 0)
            × (release keep keep nobody shared two_owners ≡ give_back keep keep nobody shared m')))
release-IsCounted_example =
    release-IsCounted keep keep nobody shared (shared ∷ []) two_owners two_owners-IsCounted

assign-IsCounted_example :
    (m' : Memory) × (assign keep keep nobody shared shared two_owners ≡ some ((nobody, shared), m'))
    × IsCounted m' (shared ∷ shared ∷ [])
    × (m'.page ≡ two_owners.page)
assign-IsCounted_example =
    assign-IsCounted keep keep nobody shared shared (shared ∷ []) two_owners two_owners-IsCounted
      (inr (omega arith)) (inr (omega arith))

-- One pointer alone: the object is the block at 1040 of the page at 1000, and the cell at 5000
-- holds 1.
abbrev alone : SmartPointer
alone = record { t = 1040; refs = 5000 }

abbrev one_used : Mv
one_used = record {
  allocator = record ready { alloc = 1000; h = record { first = 1056; used = 1; flags = 1 } };
  cnt = 1;
}

abbrev one_owner : Memory
one_owner = record { word = update words 5000 (some 1); page = λ p. none }

one_owner-IsCounted : IsCounted one_owner (alone ∷ [])
one_owner-IsCounted = record { counts = counts; few = omega arith }
  where
    counts :
        (r : ℕ)
        → r ≢ 0
        → 1 ≤ owners r (alone ∷ [])
        → one_owner.word r ≡ some (owners r (alone ∷ []))
    counts r ne owned = elim (Bool-cases (r == 5000)) [
      | inl here ↦ rw (here, ==→eq r 5000 here) refl
      | inr other ↦ (let out = rw other at owned in absurd (omega arith))
    ]

-- `delete` unmaps the cell.
abbrev unmap : ℕ → M (Unit {0})
unmap r m = some (tt, record m { word = update m.word r none })

unmaps : (r : ℕ) (m1 m2 : Memory) → unmap r m1 ≡ some (tt, m2) → m2.word r ≡ none
unmaps r m1 m2 ran =
    let e = some-injective (tt, record m1 { word = update m1.word r none }) (tt, m2) ran in
    ap (λ z. z.1.word r) (sym e) ∙ rw (eq→== r r refl) refl

abbrev given_back : Mv × Memory
given_back =
    after one_used one_owner (give_back keep unmap one_used alone (counted one_owner 5000 0))

gives_back :
    give_back keep unmap one_used alone (counted one_owner 5000 0)
    ≡ some (given_back.0, given_back.1)
unfolding deallocate mv_deallocate ba_free ba_unshift ba_check_ptr load store
gives_back = refl

assign_self_example :
    (release keep unmap one_used alone one_owner ≡ some (given_back.0, given_back.1))
    × (given_back.1.word 5000 ≡ none)
    × (assign keep unmap one_used alone alone one_owner ≡ none)
assign_self_example =
    assign_self keep unmap one_used alone [] one_owner one_owner-IsCounted (omega arith) refl unmaps
      given_back.0 given_back.1 gives_back
