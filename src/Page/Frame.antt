-- ===== src/Page/Frame.antt =====
-- What the free list of a page depends on, and the addresses of its blocks.
use mathlib.Core.Bool.{false≢true}
use gjalloc.Base.{
  inl, inr, ◌⊎◌, Bool-cases, ==→eq, ne→==, eq→==, ℕ, zero, suc, ◌+◌, ◌*◌, ◌≤◌, ◌<◌, ◌^◌, ◌≡◌, ◌≢◌,
  refl, sym, ap, ◌∙◌, true, false, Option, List, [], ◌∷◌, ◌==◌, arith, dec_lt,
}
use gjalloc.Layout.{Layout}
use gjalloc.Memory.{null, ba_one, update}
use gjalloc.Page.{block}
use gjalloc.Page.FreeList.{run_of, mem, IsPlaced, FreeList, nil, run, cons}

pub mul_step : (i j s : ℕ) → i < j → i * s + s ≤ j * s
mul_step i j s h = grind arith

pub mem_head : (i : ℕ) (xs : List ℕ) → mem i (i ∷ xs) ≡ true
mem_head i xs = rw (eq→== i i refl) refl

pub mem_tail : (j i : ℕ) (xs : List ℕ) → mem j xs ≡ true → mem j (i ∷ xs) ≡ true
mem_tail j i xs h = ground arith

pub mem_ne : (i j : ℕ) (xs : List ℕ) → mem i xs ≡ false → mem j xs ≡ true → i ≢ j
mem_ne i j xs out h e = ground (arith, ap (λ t. mem t xs) e)

pub mem-run_of : (j n i : ℕ) → mem j (run_of n i) ≡ true → (i ≤ j) × (j < i + n)
mem-run_of j zero i h = absurd (false≢true h)
mem-run_of j (suc n) i h = elim (Bool-cases (j == i)) [
  | inl here ↦ (omega (arith, ==→eq j i here), omega (arith, ==→eq j i here))
  | inr other ↦ let (lo, hi) = mem-run_of j n (suc i) (rw other at h) in (omega arith, omega arith)
]

pub mem-run_of_outside : (j n i : ℕ) → (j < i) ⊎ (i + n ≤ j) → mem j (run_of n i) ≡ false
mem-run_of_outside j n i out = elim (Bool-cases (mem j (run_of n i))) [
  | inl is ↦ absurd (omega (arith, mem-run_of j n i is))
  | inr isnt ↦ isnt
]

pub mem-run_of_inside : (j n i : ℕ) → i ≤ j → j < i + n → mem j (run_of n i) ≡ true
mem-run_of_inside j zero i lo hi = absurd (omega arith)
mem-run_of_inside j (suc n) i lo hi = elim (Bool-cases (j == i)) [
  | inl here ↦ rw here refl
  | inr other ↦ rw other (mem-run_of_inside j n (suc i) (ground arith) (omega arith))
]

module _ {l : Layout} {p : ℕ} (placed : IsPlaced l p) where
  -- Blocks do not overlap: a later one starts at least a block size further on.
  pub block-lt : (i j : ℕ) → i < j → block l p i + l.block_size ≤ block l p j
  block-lt i j h = omega (arith, mul_step i j l.block_size h)

  pub block-injective : (i j : ℕ) → block l p i ≡ block l p j → i ≡ j
  block-injective i j e = elim (dec_lt i j) [
    | yes lt ↦ absurd (omega (arith, block-lt i j lt, placed.wide))
    | no ge ↦ elim (dec_lt j i) [
      | yes gt ↦ absurd (omega (arith, block-lt j i gt, placed.wide))
      | no le ↦ omega arith
    ]
  ]

  pub block_inside : (i : ℕ) → i < l.blocks → block l p i + l.block_size < 2 ^ 64
  block_inside i h = omega (arith, mul_step i l.blocks l.block_size h, placed.ends)

  -- `BA_LASTBLOCK` is the block with the highest number.
  pub last-block : (i : ℕ) → suc i ≡ l.blocks → p + l.offset ≡ block l p i
  last-block i e = omega (arith, placed.last, ap (λ (t : ℕ). t * l.block_size) e)

  pub last-block_ne : (i : ℕ) → suc i < l.blocks → p + l.offset ≢ block l p i
  last-block_ne i h e =
      omega (arith, placed.last, placed.wide, mul_step (suc i) l.blocks l.block_size h)

  module _ {gap : ℕ} where
    pub first-ne-one :
        {w : ℕ → Option ℕ} {first : ℕ} {xs : List ℕ} → FreeList l p gap w first xs → first ≢ ba_one
    first-ne-one (nil e) h = omega arith
    first-ne-one (run i n lt g e r x) h = omega arith
    first-ne-one (cons i next lt e r ne rest) h = omega arith

    pub first_null :
        {w : ℕ → Option ℕ} {first : ℕ} {xs : List ℕ}
        → FreeList l p gap w first xs
        → first ≡ null
        → xs ≡ []
    first_null (nil e) h = refl
    first_null (run i n lt g e r x) h = absurd (omega arith)
    first_null (cons i next lt e r ne rest) h = absurd (omega arith)

    -- Only numbers of blocks stand in a free list.
    pub mem-lt :
        {w : ℕ → Option ℕ} {first : ℕ} {xs : List ℕ} (j : ℕ)
        → FreeList l p gap w first xs
        → mem j xs ≡ true
        → j < l.blocks
    mem-lt j (nil e) h = absurd (false≢true h)
    mem-lt j (run i n lt g e r x) h = omega (arith, mem-run_of j (suc n) i (ap (mem j) (sym x) ∙ h))
    mem-lt j (cons {xs} i next lt e r ne rest) h = elim (Bool-cases (j == i)) [
      | inl here ↦ omega (arith, ==→eq j i here)
      | inr other ↦ mem-lt j rest (rw other at h)
    ]

    -- The list depends on the words of its own blocks alone.
    pub frame :
        {w w' : ℕ → Option ℕ} {first : ℕ} {xs : List ℕ}
        → FreeList l p gap w first xs
        → ((j : ℕ) → mem j xs ≡ true → w' (block l p j) ≡ w (block l p j))
        → FreeList l p gap w' first xs
    frame (nil e) same = nil e
    frame (run i n lt g e r x) same = run i n lt g e (same i (ap (mem i) x ∙ mem_head i _) ∙ r) x
    frame (cons {xs} i next lt e r ne rest) same =
        cons i next lt e (same i (mem_head i xs) ∙ r) ne
          (frame rest (λ j h. same j (mem_tail j i xs h)))

    -- A write to a block outside the list leaves it.
    pub frame-update :
        {w : ℕ → Option ℕ} {first : ℕ} {xs : List ℕ} (i : ℕ) (v : Option ℕ)
        → FreeList l p gap w first xs
        → mem i xs ≡ false
        → FreeList l p gap (update w (block l p i) v) first xs
    frame-update {w} {xs} i v f out = frame f (λ j h.
        let ne : block l p i ≢ block l p j = λ e. mem_ne i j xs out h (block-injective i j e) in
        rw (ne→== (block l p i) (block l p j) ne) refl)
