-- ===== src/Global/Paged/Fewer.antt =====
-- The page table of src/gjalloc.c without one page, before and after `ba_remove_page` halves it.
use native.Mathlib.Nat.{pow-suc}
use mathlib.Core.Bool.{false≢true}
use mathlib.Core.Path.{subst}
use gjalloc.Base.{
  ℕ, zero, suc, ◌+◌, ◌/◌, ◌^◌, ◌≤◌, ◌<◌, ◌≡◌, ◌≢◌, refl, sym, ap, ◌∙◌, true, false, Bool,
  Bool-cases, inl, inr, some, List, [], ◌∷◌, length, arith, ◌==◌, ◌&&◌, not, if◌then◌else◌, ==→eq,
  ==→ne, ltb, ltb→lt, leb, leb→le, dec_lt,
}
use gjalloc.Memory.{Memory}
use gjalloc.Page.FreeList.{mem}
use gjalloc.Page.Frame.{mem_head, mem_ne}
use gjalloc.Links.Linked.{OnlyLinks}
use gjalloc.Allocator.{Allocator}
use gjalloc.Allocator.Init.{ba_alloc_initial}
use gjalloc.Htable.{bucket_of, hash1, masked_hash}
use gjalloc.Htable.Hash.{bucket_of-lt}
use gjalloc.Htable.Chain.{Chain-frame, IsTable, IsTable-same}
use gjalloc.Htable.Unlink.{without}
use gjalloc.Htable.Delete.{mem-without_other}
use gjalloc.Htable.Resize.{ba_htable_shrink}
use gjalloc.Htable.Resize.Shrunk.{
  narrower, shrunk, page_total, one-page_total, ba_htable_shrink-IsTable,
}
use gjalloc.Htable.Total.{page_total-shrunk}
use gjalloc.Global.Paged.{IsPaged, in_table}

-- The table does not depend on the links of the lists.
pub IsTable-links :
    {a : Allocator} {m m' : Memory} {t : ℕ → List ℕ} {es : List ℕ}
    → OnlyLinks es m m'
    → IsTable a m t
    → IsTable a m' t
IsTable-links o table =
    IsTable-same (λ r pg is. let (pg', is', same) = o.inside r pg is in (pg', is', same.chain))
      table

no_member : (xs : List ℕ) → ((r : ℕ) → mem r xs ≡ false) → length xs ≡ 0
no_member [] out = refl
no_member (x ∷ xs) out = absurd (false≢true (sym (out x) ∙ mem_head x xs))

pub in_table-without :
    (a : Allocator) (t : ℕ → List ℕ) (p : ℕ)
    → ((n : ℕ) → mem p (without p (t n)) ≡ false)
    → (r : ℕ) → in_table a (λ n. without p (t n)) r ≡ (not (r == p) && in_table a t r)
in_table-without a t p gone r = elim (Bool-cases (r == p)) [
  | inl same ↦
      let e = ==→eq r p same in
      rw same (ap (λ z. mem z (without p (t (bucket_of a r)))) e ∙ gone (bucket_of a r))
  | inr other ↦ rw other (mem-without_other p r (t (bucket_of a r)) (==→ne r p other))
]

module _ (a : Allocator) (pages heads : List ℕ) (empty k : ℕ) where
  -- The allocator without one page.
  abbrev pub fewer : Allocator
  fewer = record a { pages = pages; htable = heads; empty_pages = empty; num_pages = k }

  -- A table of `k` pages, when another page has gone.
  pub IsTable-fewer :
      (p : ℕ) {m m' : Memory} {t : ℕ → List ℕ}
      → IsTable (record a { htable = heads }) m t
      → page_total t a.allocated ≡ k
      → ((n : ℕ) → mem p (t n) ≡ false)
      → ((r : ℕ) → r ≢ p → m'.page r ≡ m.page r)
      → IsTable fewer m' t
  IsTable-fewer p {m} {m'} {t} table total out same = record {
    chains = λ n lt.
        let (q, at, chain) = table.chains n lt in
        (q, at, Chain-frame chain (λ r h. same r (λ e. mem_ne p r (t n) (out n) h (sym e))));
    homes = unfold bucket_of hash1 masked_hash in table.homes;
    distinct = table.distinct;
    few = λ n. elim (dec_lt n a.allocated) [
      | yes lt ↦ omega (arith, one-page_total t n a.allocated lt, total)
      | no ge ↦ omega (arith, no_member (t n) (λ r. elsewhere n r ge))
    ];
    some_buckets = table.some_buckets;
    word = table.word;
  }
    where
      elsewhere : (n r : ℕ) → ¬ (n < a.allocated) → mem r (t n) ≡ false
      elsewhere n r ge = elim (Bool-cases (mem r (t n))) [
        | inl is ↦ absurd (
            ge (
              subst (λ z. z < a.allocated) (table.homes n r is)
                (bucket_of-lt (record a { htable = heads }) r table.some_buckets table.word)))
        | inr isnt ↦ isnt
      ]

width_suc : (w n : ℕ) → n ≡ 2 ^ w → 1 < n → (v : ℕ) × (w ≡ suc v)
width_suc zero n e lt = absurd (omega arith)
width_suc (suc v) n e lt = (v, refl)

-- Whether the table is to be halved, and the allocator after that.
abbrev pub is_sparse : Allocator → Bool
is_sparse a = ltb ba_alloc_initial a.allocated && leb a.num_pages (a.allocated / 4)

abbrev pub ShrinksIf : Allocator → Memory → (ℕ → List ℕ) → Type 0
ShrinksIf a m t =
    (a' : Allocator) × (m' : Memory) × (t' : ℕ → List ℕ) × ((if is_sparse a
          then ba_htable_shrink a
          else (λ z. some (a, z)))
        m
      ≡ some (a', m'))
    × IsPaged a' m' t'
    × (a'.num_pages ≡ a.num_pages)
    × ((r : ℕ) → in_table a' t' r ≡ in_table a t r)

module _ (a : Allocator) (m : Memory) (t : ℕ → List ℕ) (s : IsPaged a m t) where
  ShrinksIf-sparse : is_sparse a ≡ true → ShrinksIf a m t
  unfolding bucket_of hash1 masked_hash
  ShrinksIf-sparse sparse =
      let many : 8 < a.allocated = ltb→lt 8 a.allocated (ground (arith, sparse)) in
      let few : a.num_pages ≤ a.allocated / 4 =
        leb→le a.num_pages (a.allocated / 4) (ground (arith, sparse)) in
      let (v, e) = width_suc s.width a.allocated s.power (omega arith) in
      let power : a.allocated ≡ 2 ^ suc v = s.power ∙ ap (λ z. 2 ^ z) e in
      let halves : a.allocated ≡ a.allocated / 2 + a.allocated / 2 =
        omega (arith, power, pow-suc 2 v) in
      let (heads, m', ran, table, twice, size, same, outside, words) =
        ba_htable_shrink-IsTable a t m v s.table power (omega (arith, s.total)) s.size in
      (
        record (narrower a) { htable = heads },
        m',
        shrunk a t,
        rw sparse ran,
        record {
          table = table;
          size = size;
          width = v;
          power = omega (arith, power, pow-suc 2 v);
          total = page_total-shrunk a t halves ∙ s.total;
          load = omega (arith, few);
        },
        refl,
        same,
      )

  pub shrinks_if : ShrinksIf a m t
  shrinks_if = elim (Bool-cases (is_sparse a)) [
    | inl sparse ↦ ShrinksIf-sparse sparse
    | inr dense ↦ (a, m, t, rw dense refl, s, refl, λ r. refl)
  ]
