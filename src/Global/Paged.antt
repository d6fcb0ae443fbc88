-- ===== src/Global/Paged.antt =====
-- The page table of an allocator of src/gjalloc.c: `ba_alloc_page` keeps it.
pub mod Room
pub mod Alloc
pub mod Highest
pub mod Fewer
pub mod Remove
pub mod Commands
pub mod Keeps
pub mod Runs
use native.Mathlib.Nat.{pow-suc}
use mathlib.Core.Bool.{false≢true}
use mathlib.Core.Option.{some-injective}
use mathlib.Core.Path.{subst}
use gjalloc.Base.{
  ℕ, zero, suc, ◌+◌, ◌*◌, ◌^◌, ◌≤◌, ◌<◌, ◌≡◌, ◌≢◌, refl, sym, ap, ◌∙◌, true, false, Bool,
  Bool-cases, inl, inr, ◌⊎◌, some, List, [], ◌∷◌, length, arith, ◌==◌, ◌||◌, if◌then◌else◌, ==→eq,
  ==→ne, eq→==, ne→==, u32, leb, leb→le, leb→lt, lt→leb, le→leb, get_elem?, set, length-set,
}
use gjalloc.Layout.{Layout}
use gjalloc.Memory.{Page, Memory, null, M, update, load_page, store_page}
use gjalloc.Page.FreeList.{mem}
use gjalloc.Page.Frame.{mem_ne}
use gjalloc.Allocator.{Allocator}
use gjalloc.Htable.{bucket_of, hash1, masked_hash, ba_htable_insert}
use gjalloc.Htable.Hash.{bucket_of-lt}
use gjalloc.Htable.Chain.{Chain, Chain-frame, IsTable}
use gjalloc.Htable.Insert.{inserted, ba_htable_insert-IsTable}
use gjalloc.Htable.Resize.{ba_htable_grow}
use gjalloc.Htable.Resize.Mask.{wider}
use gjalloc.Htable.Resize.Buckets.{grown}
use gjalloc.Htable.Resize.Table.{ba_htable_grow-IsTable}
use gjalloc.Htable.Resize.Shrunk.{page_total}
use gjalloc.Htable.Total.{page_total-grown, page_total-inserted}
use gjalloc.Global.Get.{ba_grow, ba_low_alloc_page, ba_alloc_page}
use gjalloc.Doubling.Order.{GivesPage, ba_low_alloc_page-IsPage}

-- The buckets `t` hold the `num_pages` pages of the allocator, in an array of a power of two
-- heads, and there are at most twice as many pages as heads.
pub record IsPaged (a : Allocator) (m : Memory) (t : ℕ → List ℕ) : Type 0 where
  pub table : IsTable a m t
  pub size : length a.htable ≡ a.allocated
  pub width : ℕ
  pub power : a.allocated ≡ 2 ^ width
  pub total : page_total t a.allocated ≡ a.num_pages
  pub load : a.num_pages ≤ 2 * a.allocated

-- Whether the page `r` is in the table.
abbrev pub in_table : Allocator → (ℕ → List ℕ) → ℕ → Bool
in_table a t r = mem r (t (bucket_of a r))

pub IsTable-out :
    {a : Allocator} {m : Memory} {t : ℕ → List ℕ}
    → IsTable a m t
    → (p : ℕ) → in_table a t p ≡ false
    → (n : ℕ) → mem p (t n) ≡ false
IsTable-out {t} table p out n = elim (Bool-cases (mem p (t n))) [
  | inl here ↦ absurd (false≢true (sym out ∙ ap (λ z. mem p (t z)) (table.homes n p here) ∙ here))
  | inr isnt ↦ isnt
]

-- More pages may be counted, and another page may change.
pub IsTable-more :
    (a : Allocator) (k p : ℕ) {m m' : Memory} {t : ℕ → List ℕ}
    → IsTable a m t
    → a.num_pages ≤ k
    → ((n : ℕ) → mem p (t n) ≡ false)
    → ((r : ℕ) → r ≢ p → m'.page r ≡ m.page r)
    → IsTable (record a { num_pages = k }) m' t
IsTable-more a k p {m} {m'} {t} table le out same = record {
  chains = λ n lt.
      let (q, at, chain) = table.chains n lt in
      (q, at, Chain-frame chain (λ r h. same r (λ e. mem_ne p r (t n) (out n) h (sym e))));
  homes = unfold bucket_of hash1 masked_hash in table.homes;
  distinct = table.distinct;
  few = λ n. omega (arith, table.few n);
  some_buckets = table.some_buckets;
  word = table.word;
}

pub in_table-inserted :
    (a : Allocator) (p r : ℕ) (t : ℕ → List ℕ)
    → in_table a (inserted a p t) r ≡ ((r == p) || in_table a t r)
in_table-inserted a p r t = elim (Bool-cases (r == p)) [
  | inl new ↦
      let here : (bucket_of a p == bucket_of a r) ≡ true =
        eq→== (bucket_of a p) (bucket_of a r) (ap (bucket_of a) (sym (==→eq r p new))) in
      rw (here, new) refl
  | inr old ↦ elim (Bool-cases (bucket_of a p == bucket_of a r)) [
    | inl here ↦ rw (here, old) refl
    | inr there ↦ rw (there, old) refl
  ]
]

insert_run :
    (a : Allocator) (m : Memory) (p q : ℕ) (pg : Page)
    → get_elem? a.htable (bucket_of a p) ≡ some q
    → m.page p ≡ some pg
    → ba_htable_insert a p m
      ≡ some (
        set a.htable (bucket_of a p) p,
        record m { page = update m.page p (some (record pg { hchain = q })) },
      )
unfolding ba_htable_insert load_page store_page
insert_run a m p q pg at is = rw (at, is) (rw is refl)

pub length-insert :
    {a : Allocator} {m m' : Memory} {t : ℕ → List ℕ} {heads : List ℕ}
    → IsTable a m t
    → (p : ℕ) (pg : Page) → m.page p ≡ some pg
    → ba_htable_insert a p m ≡ some (heads, m')
    → length heads ≡ length a.htable
length-insert {a} {m} {m'} {t} {heads} table p pg is ran =
    let (q, at, chain) =
      table.chains (bucket_of a p) (bucket_of-lt a p table.some_buckets table.word) in
    let e = some-injective _ _ (sym ran ∙ insert_run a m p q pg at is) in
    ap (λ z. length z.0) e ∙ length-set a.htable (bucket_of a p) p
