-- ===== src/Htable/Resize/Table.antt =====
-- `ba_htable_grow` of src/gjalloc.c doubles the table and keeps its pages.
use mathlib.Core.Path.{subst}
use gjalloc.Base.{
  ℕ, ◌+◌, ◌*◌, ◌^◌, ◌<◌, ◌≡◌, ◌≢◌, refl, sym, ◌∙◌, false, inl, inr, some, List, length,
  length-append, length-replicate, arith, replicate, ◌++◌, get_elem?-append_left,
  get_elem?-append_right, get_elem?-replicate,
}
use gjalloc.Memory.{Memory, null}
use gjalloc.Page.FreeList.{mem}
use gjalloc.Allocator.{Allocator}
use gjalloc.Htable.{bucket_of, masked_hash, hash1}
use gjalloc.Htable.Chain.{IsTable, Leads}
use gjalloc.Htable.Resize.{ba_htable_grow}
use gjalloc.Htable.Resize.Mask.{wider}
use gjalloc.Htable.Resize.Halfway.{Halfway, grow_loop-Halfway}
use gjalloc.Htable.Resize.Buckets.{
  grown, Pages-IsTable, grown-cases, twice, homes_grown, Distinct-grown, few_grown, same_pages,
}

module _ (a : Allocator) (t : ℕ → List ℕ) where
  Halfway-start :
      (m : Memory)
      → IsTable a m t
      → length a.htable ≡ a.allocated
      → Halfway a t 0 (a.htable ++ replicate a.allocated null) m m
  Halfway-start m table size = record {
    low_done = λ k lt. absurd (omega arith);
    high_done = λ k lt. absurd (omega arith);
    low_todo = λ k from lt.
        let (q, at, chain) = table.chains k lt in
        (
          q,
          get_elem?-append_left a.htable (replicate a.allocated null) k (omega (arith, size)) ∙ at,
          chain,
        );
    high_todo = λ k from lt.
        get_elem?-append_right a.htable (replicate a.allocated null) a.allocated k (sym size)
        ∙ get_elem?-replicate a.allocated k null lt;
    size =
        length-append a.htable (replicate a.allocated null)
        ∙ omega (arith, size, length-replicate a.allocated null);
    outside = λ r ne out. refl;
    words = refl;
  }

  module _ (m : Memory) (w : ℕ) (table : IsTable a m t) (power : a.allocated ≡ 2 ^ w)
      (word : a.allocated < 2 ^ 31) where
    IsTable-grown :
        (heads : List ℕ) (m' : Memory)
        → Halfway a t a.allocated heads m m'
        → IsTable (record (wider a) { htable = heads }) m' (grown a t)
    unfolding bucket_of hash1 masked_hash
    IsTable-grown heads m' s = record {
      chains = λ k lt. elim (grown-cases a t k) [
        | inl (low, e) ↦ subst (Leads heads m' k) (sym e) (s.low_done k low)
        | inr (inl (j, is, low, e)) ↦
            subst (λ z. Leads heads m' z (grown a t k)) (sym is)
              (subst (Leads heads m' (j + a.allocated)) (sym e) (s.high_done j low))
        | inr (inr (ge, e)) ↦ absurd (omega (arith, lt, twice a t m w table power word, ge))
      ];
      homes = λ k p h. homes_grown a t m w table power word k p h;
      distinct = Distinct-grown a t m w table power word;
      few = few_grown a t m w table power word;
      some_buckets = omega (arith, twice a t m w table power word, table.some_buckets);
      word = omega (arith, twice a t m w table power word, word);
    }

    -- For a hash table with a power of two buckets, fewer than 2 ^ 31, and an array of that size,
    -- `ba_htable_grow` runs and gives a hash table with twice as many buckets and an array of that
    -- size, in which each page is in the bucket of its new hash if and only if it was in the bucket
    -- of its old one; no page outside the buckets and no word of a block has changed.
    pub ba_htable_grow-IsTable :
        length a.htable ≡ a.allocated
        → (heads : List ℕ) × (m' : Memory) × (ba_htable_grow a m
            ≡ some (record (wider a) { htable = heads }, m'))
          × IsTable (record (wider a) { htable = heads }) m' (grown a t)
          × ((wider a).allocated ≡ 2 * a.allocated)
          × (length heads ≡ 2 * a.allocated)
          × ((p : ℕ) → mem p (grown a t (bucket_of (wider a) p)) ≡ mem p (t (bucket_of a p)))
          × ((r : ℕ) → r ≢ null → ((k : ℕ) → mem r (t k) ≡ false) → m'.page r ≡ m.page r)
          × (m'.word ≡ m.word)
    unfolding ba_htable_grow
    ba_htable_grow-IsTable size =
        let pages = Pages-IsTable a t m w table power word in
        let (heads, m', ran, s) =
          grow_loop-Halfway a t pages a.allocated 0 (a.htable ++ replicate a.allocated null) m m
            (Halfway-start m table size) (omega arith) in
        (
          heads,
          m',
          rw ran refl,
          IsTable-grown heads m' s,
          omega (arith, twice a t m w table power word),
          omega (arith, s.size),
          same_pages a t m w table power word,
          s.outside,
          s.words,
        )
