-- ===== src/Page/FreeList.antt =====
-- The free list of a page as the list of the numbers of its free blocks.
use gjalloc.Base.{
  ℕ, zero, suc, ◌+◌, ◌*◌, ◌≤◌, ◌<◌, ◌^◌, ◌≡◌, ◌≢◌, ◌||◌, Bool, true, false, Option, some, List, [],
  ◌∷◌, length, ◌==◌,
}
use gjalloc.Layout.{Layout}
use gjalloc.Memory.{Header, Memory, null, ba_one}
use gjalloc.Base.Bits.{bit}
use gjalloc.Page.{block}

-- `i, i + 1, ..., i + n - 1`
abbrev pub run_of : ℕ → ℕ → List ℕ
run_of zero i = []
run_of (suc n) i = i ∷ run_of n (suc i)

abbrev pub mem : ℕ → List ℕ → Bool
mem j [] = false
mem j (x ∷ xs) = (j == x) || mem j xs

-- No number stands in the list twice.
abbrev pub Distinct : List ℕ → Type 0
Distinct [] = Unit {0}
Distinct (x ∷ xs) = (mem x xs ≡ false) × Distinct xs

-- Each number is less than the one behind it.
abbrev pub IsAscending : List ℕ → Type 0
IsAscending [] = Unit {0}
IsAscending (x ∷ []) = Unit {0}
IsAscending (x ∷ y ∷ xs) = (x < y) × IsAscending (y ∷ xs)

-- A layout as `ba_init_layout` makes it, and a page of it that ends within the address space.
pub record IsPlaced (l : Layout) (p : ℕ) : Type 0 where
  pub last : l.offset + l.block_size ≡ 40 + l.blocks * l.block_size
  pub wide : 8 ≤ l.block_size
  pub some_blocks : 1 ≤ l.blocks
  pub few : l.blocks < 2 ^ 32
  pub ends : p + 40 + l.blocks * l.block_size < 2 ^ 64

-- From `first` the words lead through the free blocks `xs`: each holds the address of the
-- next, or NULL at the end, or BA_ONE if it and all behind it up to the last are free. With
-- `gap` 1 BA_ONE never stands in the last block, with `gap` 0 it may.
pub data FreeList (l : Layout) (p gap : ℕ) (word : ℕ → Option ℕ) : ℕ → List ℕ → Type 0 where
  nil : {first : ℕ} → first ≡ null → FreeList l p gap word first []
  run :
      {first : ℕ} {xs : List ℕ} (i n : ℕ)
      → i + suc n ≡ l.blocks
      → gap ≤ n
      → first ≡ block l p i
      → word (block l p i) ≡ some ba_one
      → xs ≡ run_of (suc n) i
      → FreeList l p gap word first xs
  cons :
      {first : ℕ} {xs : List ℕ} (i next : ℕ)
      → i < l.blocks
      → first ≡ block l p i
      → word (block l p i) ≡ some next
      → next ≢ ba_one
      → FreeList l p gap word next xs
      → FreeList l p gap word first (i ∷ xs)

-- Every block of the page is memory that can be read and written.
pub record IsThere (l : Layout) (p : ℕ) (word : ℕ → Option ℕ) : Type 0 where
  pub value : (j : ℕ) → j < l.blocks → (v : ℕ) × (word (block l p j) ≡ some v)

-- A page with the free blocks `xs`, in the order in which they will be handed out: `used` is
-- the number of the others, and the sorted flag is set only if the list is ascending.
pub record IsPage (l : Layout) (p : ℕ) (h : Header) (m : Memory) (xs : List ℕ) : Type 0 where
  pub list : FreeList l p 1 m.word h.first xs
  pub distinct : Distinct xs
  pub count : h.used + length xs ≡ l.blocks
  pub sorted : bit h.flags 0 ≡ 1 → IsAscending xs
  pub there : IsThere l p m.word

-- `m'` differs from `m` at most in the words of the blocks `xs` of the page.
pub record SameOutside (l : Layout) (p : ℕ) (xs : List ℕ) (m m' : Memory) : Type 0 where
  pub pages : m'.page ≡ m.page
  pub words : (a : ℕ) → ((j : ℕ) → mem j xs ≡ true → a ≢ block l p j) → m'.word a ≡ m.word a
