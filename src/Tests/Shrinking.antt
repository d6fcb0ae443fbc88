-- ===== src/Tests/Shrinking.antt =====
-- A page that an allocator of src/gjalloc.c with a sparse hash table gives back.
use mathlib.Core.Path.{subst}
use gjalloc.Base.{
  ℕ, ◌+◌, ◌≤◌, ◌<◌, ◌≡◌, refl, sym, ap, ◌∙◌, arith, true, some, List, [], ◌∷◌, ◌&&◌, not, ◌==◌,
  get_elem?, replicate, get_elem?-replicate, set, get_elem?-set_ne, if◌then◌else◌, Bool-cases, inl,
  inr, ==→eq, ==→ne,
}
use gjalloc.Memory.{Memory, M}
use gjalloc.Page.FreeList.{mem}
use gjalloc.Links.Linked
use gjalloc.Allocator.{Allocator}
use gjalloc.Htable.{bucket_of, masked_hash, hash1, mix}
use gjalloc.Htable.Chain.{Chain, nil, cons, IsTable}
use gjalloc.Global.Update.{ba_remove_page}
use gjalloc.Global.Paged.{IsPaged, in_table}
use gjalloc.Global.Paged.Remove.{FreesPage, ba_remove_page-IsPaged}
use gjalloc.Tests.{page_1000, heap, ready}

-- One empty page in a table of 16 buckets.
abbrev sparse : Allocator
sparse = record ready {
  pages = 0 ∷ 0 ∷ 1000 ∷ [];
  htable = set (replicate 16 0) 8 1000;
  allocated = 16;
  empty_pages = 1;
}

abbrev sparse_bucket : ℕ → List ℕ
sparse_bucket n = if n == 8 then 1000 ∷ [] else []

bucket_8 : bucket_of sparse 1000 ≡ 8
unfolding bucket_of masked_hash hash1 mix
bucket_8 = refl

sparse_bucket_only : (n q : ℕ) → mem q (sparse_bucket n) ≡ true → (q ≡ 1000) × (n ≡ 8)
sparse_bucket_only n q h = (ground arith, ground arith)

sparse-IsTable : IsTable sparse heap sparse_bucket
sparse-IsTable = record {
  chains = chains;
  homes = λ n q h.
      let (at, here) = sparse_bucket_only n q h in ap (bucket_of sparse) at ∙ bucket_8 ∙ sym here;
  distinct =
      λ n. elim (Bool-cases (n == 8)) [ inl here ↦ rw here (refl, tt) | inr other ↦ rw other tt ];
  few = λ n. ground arith;
  some_buckets = omega arith;
  word = omega arith;
}
  where
    Leads_to : ℕ → Type 0
    Leads_to n =
        (q : ℕ) × (get_elem? sparse.htable n ≡ some q) × Chain heap.page q (sparse_bucket n)

    at_8 : Leads_to 8
    at_8 = (1000, refl, cons page_1000 refl (omega arith) refl (nil refl))

    chains : (n : ℕ) → n < 16 → Leads_to n
    chains n lt = elim (Bool-cases (n == 8)) [
      | inl here ↦ subst Leads_to (sym (==→eq n 8 here)) at_8
      | inr other ↦ (
        0,
        get_elem?-set_ne (replicate 16 0) 8 n 1000 (λ e. ==→ne n 8 other (sym e))
            ∙ get_elem?-replicate 16 n 0 lt,
        rw other (nil refl),
      )
    ]

sparse-IsPaged : IsPaged sparse heap sparse_bucket
sparse-IsPaged = record {
  table = sparse-IsTable;
  size = refl;
  width = 4;
  power = refl;
  total = refl;
  load = omega arith;
}

-- `free` leaves the memory as it is.
abbrev pub keep_all : ℕ → M (Unit {0})
keep_all p m = some (tt, m)

pub frees_none : (p : ℕ) (m : Memory) → FreesPage keep_all p m
frees_none p m = record { after = m; runs = refl; same = λ r ne. refl }

the_empty : Linked.Linked heap.page 0 1000 (1000 ∷ [])
the_empty = Linked.cons page_1000 refl (omega arith) refl refl (Linked.nil refl)

empty_held : (r : ℕ) → mem r (1000 ∷ []) ≡ true → in_table sparse sparse_bucket r ≡ true
empty_held r h =
    let e : r ≡ 1000 = ground arith in
    ap (in_table sparse sparse_bucket) e ∙ ap (λ z. mem 1000 (sparse_bucket z)) bucket_8

ba_remove_page-IsPaged_example :
    (p : ℕ) × (a' : Allocator) × (m' : Memory) × (t' : ℕ → List ℕ) × (ba_remove_page keep_all sparse
        heap
      ≡ some (a', m'))
    × (mem p (1000 ∷ []) ≡ true)
    × ((r : ℕ) → mem r (1000 ∷ []) ≡ true → r ≤ p)
    × IsPaged a' m' t'
    × (a'.num_pages + 1 ≡ 1)
    × ((r : ℕ) → in_table a' t' r ≡ (not (r == p) && in_table sparse sparse_bucket r))
ba_remove_page-IsPaged_example =
    ba_remove_page-IsPaged keep_all frees_none sparse heap sparse_bucket sparse-IsPaged
      (omega arith) 1000 (1000 ∷ []) refl the_empty (refl, tt) (omega arith) (omega arith)
      empty_held
