-- ===== src/Htable/Resize/Halfway.antt =====
-- The buckets of src/gjalloc.c while `ba_htable_grow` splits one after the other.
use mathlib.Core.Path.{subst}
use gjalloc.Base.{
  ℕ, zero, suc, ◌+◌, ◌≤◌, ◌<◌, ◌≡◌, ◌≢◌, refl, sym, ◌∙◌, true, false, inl, ◌⊎◌, Option, some, List,
  [], length, arith, ◌==◌, get_elem?, dec_lt,
}
use gjalloc.Memory.{Page, Memory, null}
use gjalloc.Page.FreeList.{mem, Distinct}
use gjalloc.Page.Frame.{mem_ne}
use gjalloc.Allocator.{Allocator}
use gjalloc.Htable.{bucket_of}
use gjalloc.Htable.Chain.{Leads, Chain, nil, Chain-frame}
use gjalloc.Htable.Resize.{grow_chain, grow_loop}
use gjalloc.Htable.Resize.Mask.{wider}
use gjalloc.Htable.Resize.Split.{staying, going, mem-staying, mem-going}
use gjalloc.Htable.Resize.Link.{Link, head, behind}
use gjalloc.Htable.Resize.Stands.{Grown, Stands}
use gjalloc.Htable.Resize.Move.{bucket_splits}

Link-head :
    {t : List ℕ} {page : ℕ → Option Page} {n q : ℕ} → Link t page n null q → get_elem? t n ≡ some q
Link-head (head e at) = at
Link-head (behind pg ne is e) = absurd (ne refl)

module _ (a : Allocator) (t : ℕ → List ℕ) where
  abbrev pub old : ℕ
  old = a.allocated

  -- What stays in the bucket `k`, and what goes to the one `old` further on.
  abbrev pub kept : ℕ → List ℕ
  kept k = staying (λ p. bucket_of (wider a) p == k) (t k)

  abbrev pub sent : ℕ → List ℕ
  sent k = going (λ p. bucket_of (wider a) p == k) (t k) []

  -- The first `n` buckets have been split.
  pub record Halfway (n : ℕ) (heads : List ℕ) (m m' : Memory) : Type 0 where
    pub low_done : (k : ℕ) → k < n → Leads heads m' k (kept k)
    pub high_done : (k : ℕ) → k < n → Leads heads m' (k + old) (sent k)
    pub low_todo : (k : ℕ) → n ≤ k → k < old → Leads heads m' k (t k)
    pub high_todo : (k : ℕ) → n ≤ k → k < old → get_elem? heads (k + old) ≡ some null
    pub size : length heads ≡ old + old
    pub outside : (r : ℕ) → r ≢ null → ((k : ℕ) → mem r (t k) ≡ false) → m'.page r ≡ m.page r
    pub words : m'.word ≡ m.word

  -- The pages of the table: no page in two buckets, none NULL, and where each may go.
  pub record Pages : Type 0 where
    pub apart : (j k p : ℕ) → mem p (t j) ≡ true → j ≢ k → mem p (t k) ≡ false
    pub proper : (k : ℕ) → k < old → mem 0 (t k) ≡ false
    pub law :
        (k p : ℕ)
        → mem p (t k) ≡ true
        → (bucket_of (wider a) p ≡ k) ⊎ (bucket_of (wider a) p ≡ k + old)
    pub distinct : (k : ℕ) → Distinct (t k)
    pub few : (k : ℕ) → length (t k) ≤ a.num_pages
    pub some_buckets : 1 ≤ old

  module _ (pages : Pages) (n : ℕ) (heads : List ℕ) (m m1 : Memory) (s : Halfway n heads m m1)
      (lt : n < old) where
    start :
        (q : ℕ)
        → get_elem? heads n ≡ some q
        → Chain m1.page q (t n)
        → Stands (wider a) n (n + old) null heads m1 q null (t n) []
    start q at chain = record {
      link = head refl at;
      chain = chain;
      other_at = s.high_todo n (omega arith) lt;
      moved = nil refl;
      apart = omega (arith, pages.some_buckets);
      homes = pages.law n;
      distinct = pages.distinct n;
      disjoint = λ p h. refl;
      behind_out = pages.proper n lt;
      moved_out = refl;
    }

    -- A bucket that the step does not touch.
    Leads-kept :
        (heads' : List ℕ) (m2 : Memory) (i k : ℕ) (ps : List ℕ)
        → ((r : ℕ) → r ≢ null → mem r (t n) ≡ false → m2.page r ≡ m1.page r)
        → get_elem? heads' i ≡ get_elem? heads i
        → k < old
        → k ≢ n
        → ((p : ℕ) → mem p ps ≡ true → mem p (t k) ≡ true)
        → Leads heads m1 i ps
        → Leads heads' m2 i ps
    Leads-kept heads' m2 i k ps same at k_lt ne within (q, is, chain) = (
      q,
      at ∙ is,
      Chain-frame chain (λ p h.
          same p (λ z. mem_ne 0 p (t k) (pages.proper k k_lt) (within p h) (sym z))
            (pages.apart k n p (within p h) ne)),
    )

    within_kept : (k p : ℕ) → mem p (kept k) ≡ true → mem p (t k) ≡ true
    within_kept k p h = ground (arith, h, mem-staying (λ r. bucket_of (wider a) r == k) p (t k))

    within_sent : (k p : ℕ) → mem p (sent k) ≡ true → mem p (t k) ≡ true
    within_sent k p h = ground (arith, h, mem-going (λ r. bucket_of (wider a) r == k) p (t k) [])

    Halfway-Grown :
        (heads' : List ℕ) (m2 : Memory)
        → Grown (wider a) n (n + old) null heads heads' m1 m2 (t n) []
        → Halfway (suc n) heads' m m2
    Halfway-Grown heads' m2 r = record {
      low_done = λ k k_lt. elim (dec_lt k n) [
        | yes done ↦
            Leads-kept heads' m2 k k (kept k) r.pages
              (r.heads k (inl (λ e. omega arith)) (λ e. omega arith)) (omega arith)
              (λ e. omega arith) (within_kept k) (s.low_done k done)
        | no here ↦
            let e : n ≡ k = omega arith in
            subst (λ z. Leads heads' m2 z (kept z)) e (r.first, Link-head r.link, r.stay)
      ];
      high_done = λ k k_lt. elim (dec_lt k n) [
        | yes done ↦
            Leads-kept heads' m2 (k + old) k (sent k) r.pages
              (r.heads (k + old) (inl (λ e. omega arith)) (λ e. omega arith)) (omega arith)
              (λ e. omega arith) (within_sent k) (s.high_done k done)
        | no here ↦
            let e : n ≡ k = omega arith in
            subst (λ z. Leads heads' m2 (z + old) (sent z)) e (r.top, r.other_at, r.gone)
      ];
      low_todo = λ k from k_lt.
          Leads-kept heads' m2 k k (t k) r.pages
            (r.heads k (inl (λ e. omega arith)) (λ e. omega arith)) k_lt (λ e. omega arith)
            (λ p h. h) (s.low_todo k (omega arith) k_lt);
      high_todo = λ k from k_lt.
          r.heads (k + old) (inl (λ e. omega arith)) (λ e. omega arith)
          ∙ s.high_todo k (omega arith) k_lt;
      size = r.size ∙ s.size;
      outside = λ p ne out. r.pages p ne (out n) ∙ s.outside p ne out;
      words = r.words ∙ s.words;
    }

    Halfway-suc :
        (heads' : List ℕ) × (m2 : Memory) × (grow_chain (wider a) n (a.num_pages + 1) heads null m1
          ≡ some (heads', m2))
        × Halfway (suc n) heads' m m2
    Halfway-suc =
        let (q, at, chain) = s.low_todo n (omega arith) lt in
        let (heads', m2, ran, r) =
          bucket_splits (a.num_pages + 1) (wider a) n (n + old) null heads m1 null [] chain
            (start q at chain) (omega (arith, pages.few n)) in
        (heads', m2, ran, Halfway-Grown heads' m2 r)

  -- Every bucket from `n` on is split.
  pub grow_loop-Halfway :
      Pages
      → (count n : ℕ) (heads : List ℕ) (m m1 : Memory) → Halfway n heads m m1
      → n + count ≡ old
      → (heads' : List ℕ) × (m' : Memory) × (grow_loop (wider a) count n heads m1
          ≡ some (heads', m'))
        × Halfway old heads' m m'
  unfolding grow_loop
  grow_loop-Halfway pages zero n heads m m1 s e =
      (heads, m1, refl, subst (λ z. Halfway z heads m m1) (omega arith) s)
  grow_loop-Halfway pages (suc count) n heads m m1 s e =
      let (h2, m2, ran, s') = Halfway-suc pages n heads m m1 s (omega arith) in
      let (h3, m3, ran', s'') = grow_loop-Halfway pages count (suc n) h2 m m2 s' (omega arith) in
      (h3, m3, rw ran ran', s'')
