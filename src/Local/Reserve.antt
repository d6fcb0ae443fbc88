-- ===== src/Local/Reserve.antt =====
-- `ba_lreserve` of src/gjalloc.h doubles the number of blocks until it is enough.
use native.Mathlib.Nat.{pow-suc, pow-le-pow_right}
use gjalloc.Base.{
  ℕ, zero, suc, ◌+◌, ◌*◌, ◌^◌, ◌<◌, ◌≡◌, refl, sym, ap, ◌∙◌, arith, none, some, Bool-cases, inl,
  inr, ◌⊎◌, ltb, ltb→lt, ltb→le, lt→ltb, le→ltb, u32, dec_lt, ◌≤◌, leb, leb→le, leb→lt, Option,
}
use mathlib.Core.Path.{subst}
use gjalloc.Layout.{ba_init_layout, ba_align_layout}
use gjalloc.Memory.{Memory, M, ◌>>=◌}
use gjalloc.Allocator.{Allocator}
use gjalloc.Local.{Local}
use gjalloc.Local.Grow.{grow_to, transform, double_until, ba_local_grow, ba_lreserve}

double_pow : (blocks j : ℕ) → blocks * 2 * 2 ^ j ≡ blocks * 2 ^ suc j
double_pow blocks j = grind (arith, pow-suc 2 j)

twice : (blocks n : ℕ) → blocks < n → n ≤ 2 ^ 31 → u32 (blocks * 2) ≡ blocks * 2
twice blocks n lt small = omega arith

least :
    (blocks n j : ℕ)
    → blocks < n
    → (j ≡ 0) ⊎ (blocks * 2 * 2 ^ j < 2 * n)
    → blocks * 2 ^ suc j < 2 * n
least blocks n j lt (inl e) =
    omega (arith, sym (double_pow blocks j), ap (λ t. blocks * 2 * 2 ^ t) e)
least blocks n j lt (inr h) = omega (arith, double_pow blocks j)

double_until-ends :
    (fuel blocks n : ℕ)
    → 1 ≤ blocks
    → n ≤ blocks * 2 ^ fuel
    → n ≤ 2 ^ 31
    → (j : ℕ) × (double_until (suc fuel) blocks n ≡ some (blocks * 2 ^ j))
      × (n ≤ blocks * 2 ^ j)
      × ((j ≡ 0) ⊎ (blocks * 2 ^ j < 2 * n))
unfolding double_until
double_until-ends zero blocks n some_blocks enough small =
    (0, rw (le→ltb blocks n (omega arith)) (ap some (omega arith)), omega arith, inl refl)
double_until-ends (suc fuel) blocks n some_blocks enough small = elim (Bool-cases (ltb blocks n)) [
  | inr stop ↦ (0, rw stop (ap some (omega arith)), omega (arith, ltb→le blocks n stop), inl refl)
  | inl more ↦
      let lt = ltb→lt blocks n more in
      let (j, ran, le, or) =
        double_until-ends fuel (blocks * 2) n (omega arith) (omega (arith, double_pow blocks fuel))
          small in
      let e = double_pow blocks j in
      (
        suc j,
        rw more (ap (λ t. double_until (suc fuel) t n) (twice blocks n lt small) ∙ ran ∙ ap some e),
        omega (arith, le, e),
        inr (least blocks n j lt or),
      )
]

-- From 0 the loop never ends.
double_until-zero : (fuel n : ℕ) → 1 ≤ n → double_until fuel 0 n ≡ none
unfolding double_until
double_until-zero zero n h = refl
double_until-zero (suc fuel) n h = rw (lt→ltb 0 n h) (double_until-zero fuel n h)

double_until-diverges : (fuel k n : ℕ) → k ≤ 31 → 2 ^ 31 < n → double_until fuel (2 ^ k) n ≡ none
unfolding double_until
double_until-diverges zero k n le big = refl
double_until-diverges (suc fuel) k n le big = elim (dec_lt k 31) [
  | yes lt ↦
      let small : 2 ^ suc k ≤ 2 ^ 31 = pow-le-pow_right (omega arith) lt in
      rw (lt→ltb (2 ^ k) n (omega (arith, small, pow-suc 2 k))) (
        ap (λ t. double_until fuel t n) (omega (arith, small, pow-suc 2 k))
        ∙ double_until-diverges fuel (suc k) n lt big)
  | no ge ↦
      let e : k ≡ 31 = omega arith in
      rw (lt→ltb (2 ^ k) n (omega (arith, ap (λ t. 2 ^ t) e)))
        (ap (λ t. double_until fuel (u32 (2 ^ t * 2)) n) e ∙ double_until-zero fuel n (omega arith))
]

below : (k : ℕ) → k ≤ 31 → 2 ^ k ≤ 2 ^ 31
below k le = pow-le-pow_right (omega arith) le

after_first :
    (blocks k n : ℕ)
    → blocks ≡ 2 ^ k
    → k ≤ 31
    → 2 ^ 31 < n
    → (fuel : ℕ) → double_until fuel (u32 (blocks * 2)) n ≡ none
unfolding double_until
after_first blocks k n power le big fuel =
    rw (lt→ltb blocks n (omega (arith, power, below k le))) at
      (ap (λ t. double_until (suc fuel) t n) power ∙ double_until-diverges (suc fuel) k n le big)

module _ (blank : Allocator) (realloc : ℕ → ℕ → M ℕ) (simple : ℕ → ℕ → ℕ → M (Unit {0})) where
  -- With `r` blocks the page grows to that number below `max_blocks`; from there on it grows to
  -- the aligned layout for `max_blocks` and becomes the first page of a global allocator.
  abbrev pub GrowsTo : Local → ℕ → Option (Local × Memory) → Memory → Type 0
  GrowsTo a r run m =
      ((r < a.max_blocks)
        × (run ≡ grow_to blank realloc simple a (ba_init_layout a.l.block_size r) m))
      ⊎ ((a.max_blocks ≤ r)
          × (run
              ≡ (do
                a' ←
                    grow_to blank realloc simple a
                      (ba_align_layout (ba_init_layout a.l.block_size a.max_blocks))
                transform blank realloc simple a')
                  m))

  local_grow-GrowsTo :
      (a : Local) (r : ℕ) (m : Memory) → GrowsTo a r (ba_local_grow blank realloc simple a r m) m
  unfolding ba_local_grow
  local_grow-GrowsTo a r m = elim (Bool-cases (leb a.max_blocks r)) [
    | inl many ↦ inr (leb→le a.max_blocks r many, rw many refl)
    | inr few ↦ inl (leb→lt a.max_blocks r few, rw few refl)
  ]

  -- Given a local allocator without a global one behind it, with at least one block, and at most
  -- 2 ^ 31 blocks wanted with those that are used, more than it has: the loop of `ba_lreserve` ends
  -- with a number `r`, that of the blocks of the page doubled until it is enough, and no further;
  -- `ba_lreserve` then does what `ba_local_grow` does for `r` blocks, which is to grow the page to `r`
  -- blocks if that is less than `max_blocks`, and otherwise to grow it to the aligned layout for
  -- `max_blocks` and make a global allocator of it.
  pub ba_lreserve-ends :
      (a : Local) (n : ℕ) (m : Memory)
      → a.a ≡ none
      → 1 ≤ a.l.blocks
      → a.l.blocks < n + a.h.used
      → n + a.h.used ≤ 2 ^ 31
      → (r j : ℕ) × (ba_lreserve blank realloc simple a n m
          ≡ ba_local_grow blank realloc simple a r m)
        × (r ≡ a.l.blocks * 2 ^ suc j)
        × (n + a.h.used ≤ r)
        × (r < 2 * (n + a.h.used))
        × GrowsTo a r (ba_lreserve blank realloc simple a n m) m
  unfolding ba_lreserve
  ba_lreserve-ends a n m alone some_blocks more small =
      let wanted : u32 (n + a.h.used) ≡ n + a.h.used = omega arith in
      let (j, ran, le, or) =
        double_until-ends 32 (a.l.blocks * 2) (n + a.h.used) (omega arith) (omega arith) small in
      let found : double_until 33 (u32 (a.l.blocks * 2)) (u32 (n + a.h.used))
          ≡ some (a.l.blocks * 2 * 2 ^ j) =
        ap (double_until 33 (u32 (a.l.blocks * 2))) wanted
        ∙ ap (λ t. double_until 33 t (n + a.h.used)) (twice a.l.blocks (n + a.h.used) more small)
        ∙ ran in
      let r = a.l.blocks * 2 * 2 ^ j in
      let runs : ba_lreserve blank realloc simple a n m ≡ ba_local_grow blank realloc simple a r m =
        rw (alone, lt→ltb a.l.blocks (u32 (n + a.h.used)) (omega (arith, wanted)), found) refl in
      (
        r,
        j,
        runs,
        double_pow a.l.blocks j,
        le,
        omega (arith, double_pow a.l.blocks j, least a.l.blocks (n + a.h.used) j more or),
        subst (λ z. GrowsTo a r z m) (sym runs) (local_grow-GrowsTo a r m),
      )

  -- Given a local allocator without a global one behind it, with a power of two blocks, and more
  -- than 2 ^ 31 but less than 2 ^ 32 blocks wanted with those that are used, the loop of
  -- `ba_lreserve` does not end.
  pub ba_lreserve-diverges :
      (a : Local) (k n : ℕ) (m : Memory)
      → a.a ≡ none
      → a.l.blocks ≡ 2 ^ k
      → k ≤ 31
      → 2 ^ 31 < n + a.h.used
      → n + a.h.used < 2 ^ 32
      → ((fuel : ℕ) → double_until fuel (u32 (a.l.blocks * 2)) (u32 (n + a.h.used)) ≡ none)
        × (ba_lreserve blank realloc simple a n m ≡ none)
  unfolding ba_lreserve
  ba_lreserve-diverges a k n m alone power le big word =
      let wanted : u32 (n + a.h.used) ≡ n + a.h.used = omega arith in
      let never = after_first a.l.blocks k (n + a.h.used) power le big in
      (
        λ fuel. ap (double_until fuel (u32 (a.l.blocks * 2))) wanted ∙ never fuel,
        rw
            (
              alone,
              lt→ltb a.l.blocks (u32 (n + a.h.used)) (omega (arith, wanted, power, below k le)),
              wanted,
              never 33,
            )
            refl,
      )
