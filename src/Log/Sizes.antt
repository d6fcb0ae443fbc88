-- ===== src/Log/Sizes.antt =====
-- The sizes of the pages of a log allocator of src/gjalloc.c, each twice that of the one before.
use mathlib.Core.Path.{subst}
use native.Mathlib.Nat.{pow-suc}
use gjalloc.Base.{
  ℕ, zero, suc, ◌*◌, ◌/◌, ◌^◌, ◌≤◌, ◌<◌, ◌≡◌, refl, sym, ap, ◌∙◌, arith, true, false, some, List,
  get_elem?, ◌<◌, dec_lt,
}
use gjalloc.Layout.{Layout}
use gjalloc.Memory.{Memory}
use gjalloc.Htable.{ba_check_ptr}
use gjalloc.Log.{log_layout, log_page, find_log_page, ba_double_layout, ba_half_layout}

-- The layout of the page `i`, when the first one has `blocks` blocks.
abbrev pub layout_at : ℕ → ℕ → ℕ → Layout
layout_at block_size blocks i = log_layout block_size (blocks * 2 ^ i)

halved : (blocks i : ℕ) → blocks * 2 ^ suc i / 2 ≡ blocks * 2 ^ i
halved blocks i =
    let e : blocks * 2 ^ suc i ≡ blocks * 2 ^ i * 2 = grind (arith, pow-suc 2 i) in omega (arith, e)

half-layout_at : (s b i : ℕ) → ba_half_layout (layout_at s b (suc i)) ≡ layout_at s b i
unfolding ba_half_layout log_layout
half-layout_at s b i = ap (log_layout s) (halved b i)

double-layout_at :
    (s b i : ℕ)
    → b * 2 ^ suc i < 2 ^ 32
    → ba_double_layout (layout_at s b i) ≡ layout_at s b (suc i)
unfolding ba_double_layout log_layout
double-layout_at s b i small =
    let e : b * 2 ^ suc i ≡ b * 2 ^ i * 2 = grind (arith, pow-suc 2 i) in
    ap (log_layout s) (omega (arith, e))

-- Given a page of `b` blocks and `i` pages behind it, each of twice the blocks of the one before,
-- which fit 32 bits, `ba_double_layout` gives the layout of the next page, and `ba_half_layout`
-- gives the old one back.
pub half-double_layout :
    (s b i : ℕ)
    → b * 2 ^ suc i < 2 ^ 32
    → (ba_double_layout (layout_at s b i) ≡ layout_at s b (suc i))
      × (ba_half_layout (ba_double_layout (layout_at s b i)) ≡ layout_at s b i)
half-double_layout s b i small =
    let twice = double-layout_at s b i small in
    (twice, ap ba_half_layout twice ∙ half-layout_at s b i)

module _ (pages : List ℕ) (page : ℕ → ℕ) (s b ptr : ℕ) (m : Memory) where
  -- The pages up to `n` are there.
  abbrev pub Stands : ℕ → Type 0
  Stands n = (j : ℕ) → j ≤ n → get_elem? pages j ≡ some (page j)

  Stands-pred : (n : ℕ) → Stands (suc n) → Stands n
  Stands-pred n h j le = h j (omega arith)

  found_here :
      (n : ℕ)
      → Stands n
      → ba_check_ptr (layout_at s b n) (page n) ptr ≡ true
      → find_log_page pages (layout_at s b n) ptr n m ≡ some ((page n, n), m)
  unfolding find_log_page log_page
  found_here zero stand holds = rw (stand 0 (omega arith), holds) refl
  found_here (suc n) stand holds = rw (stand (suc n) (omega arith), holds) refl

  found_at :
      (n i : ℕ)
      → i ≡ n
      → Stands n
      → ba_check_ptr (layout_at s b i) (page i) ptr ≡ true
      → find_log_page pages (layout_at s b n) ptr n m ≡ some ((page i, i), m)
  found_at n i e stand holds =
      subst (λ k. find_log_page pages (layout_at s b n) ptr n m ≡ some ((page k, k), m)) (sym e)
        (found_here n stand
          (subst (λ k. ba_check_ptr (layout_at s b k) (page k) ptr ≡ true) e holds))

  found_below :
      (n : ℕ)
      → Stands (suc n)
      → ba_check_ptr (layout_at s b (suc n)) (page (suc n)) ptr ≡ false
      → find_log_page pages (layout_at s b (suc n)) ptr (suc n) m
        ≡ find_log_page pages (layout_at s b n) ptr n m
  unfolding find_log_page log_page
  found_below n stand no_block =
      rw (stand (suc n) (omega arith), no_block)
        (ap (λ l. find_log_page pages l ptr n m) (half-layout_at s b n))

  -- Given the pages up to `n`, and a pointer into the page `i` but into none behind it, each page with
  -- twice the blocks of the one before, the search of `ba_log_free`, which starts with the layout
  -- of the page `n` and halves it, ends at the page `i`.
  pub find_log_page-finds :
      (n i : ℕ)
      → Stands n
      → i ≤ n
      → ba_check_ptr (layout_at s b i) (page i) ptr ≡ true
      → ((j : ℕ) → i < j → j ≤ n → ba_check_ptr (layout_at s b j) (page j) ptr ≡ false)
      → find_log_page pages (layout_at s b n) ptr n m ≡ some ((page i, i), m)
  find_log_page-finds zero i stand le holds others = found_at zero i (omega arith) stand holds
  find_log_page-finds (suc n) i stand le holds others = elim (dec_lt i (suc n)) [
    | yes lt ↦
        found_below n stand (others (suc n) lt (omega arith))
        ∙ find_log_page-finds n i (Stands-pred n stand) (omega arith) holds
            (λ j more less. others j more (omega arith))
    | no ge ↦ found_at (suc n) i (omega arith) stand holds
  ]
