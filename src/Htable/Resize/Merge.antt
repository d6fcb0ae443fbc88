-- ===== src/Htable/Resize/Merge.antt =====
-- The buckets of src/gjalloc.c while `ba_htable_shrink` merges one pair after the other.
use mathlib.Core.Path.{subst}
use gjalloc.Base.{
  ℕ, zero, suc, ◌+◌, ◌≤◌, ◌<◌, ◌≡◌, ◌≢◌, refl, sym, ◌∙◌, true, false, Bool-cases, inl, inr, some,
  List, ◌++◌, length, arith, ◌==◌, ==→eq, ==→ne, eq→==, ne→==, get_elem?, set, get_elem?-set_self,
  get_elem?-set_ne, lt-length_of_get_elem?, length-set, dec_lt,
}
use gjalloc.Memory.{Memory, null}
use gjalloc.Page.FreeList.{mem, Distinct}
use gjalloc.Allocator.{Allocator}
use gjalloc.Htable.{read_bucket}
use gjalloc.Htable.Chain.{Chain, Chain-frame, Leads}
use gjalloc.Htable.Resize.{append_chain, shrink_step, shrink_loop}
use gjalloc.Htable.Resize.Append.{mem-append, Chain-null, puts_behind}

module _ (a : Allocator) (t : ℕ → List ℕ) where
  -- The two buckets that become the bucket `k`.
  abbrev pub joint : ℕ → List ℕ
  joint k = t (a.allocated + k) ++ t k

  -- The first `n` pairs have been merged.
  pub record Merging (n : ℕ) (heads : List ℕ) (m m' : Memory) : Type 0 where
    pub done : (k : ℕ) → k < n → Leads heads m' k (joint k)
    pub low : (k : ℕ) → n ≤ k → k < a.allocated → Leads heads m' k (t k)
    pub high :
        (k : ℕ) → n ≤ k → k < a.allocated → Leads heads m' (a.allocated + k) (t (a.allocated + k))
    pub size : length heads ≡ a.allocated + a.allocated
    pub outside : (r : ℕ) → ((k : ℕ) → mem r (t k) ≡ false) → m'.page r ≡ m.page r
    pub words : m'.word ≡ m.word

  -- No page stands in two buckets.
  pub record Apart : Type 0 where
    pub apart : (j k p : ℕ) → mem p (t j) ≡ true → j ≢ k → mem p (t k) ≡ false
    pub distinct : (k : ℕ) → Distinct (t k)
    pub few : (k : ℕ) → length (t k) ≤ a.num_pages

  shrink_step-null :
      (n q : ℕ) (heads : List ℕ) (m : Memory)
      → get_elem? heads (a.allocated + n) ≡ some q
      → q ≡ null
      → shrink_step a n heads m ≡ some (heads, m)
  unfolding shrink_step read_bucket
  shrink_step-null n q heads m at e = rw (at, eq→== q null e) refl

  shrink_step-joins :
      (n p head : ℕ) (heads : List ℕ) (m m' : Memory)
      → get_elem? heads (a.allocated + n) ≡ some p
      → p ≢ null
      → get_elem? heads n ≡ some head
      → append_chain (a.num_pages + 1) p head m ≡ some (tt, m')
      → shrink_step a n heads m ≡ some (set heads n p, m')
  unfolding shrink_step read_bucket
  shrink_step-joins n p head heads m m' at ne at_low ran =
      rw (at, ne→== p null ne, at_low, ran) refl

  module _ (buckets : Apart) (n : ℕ) (heads : List ℕ) (m m1 : Memory) (s : Merging n heads m m1)
      (lt : n < a.allocated) where
    -- A bucket whose pages are in neither of the pair.
    Leads-kept :
        (heads' : List ℕ) (m2 : Memory) (i : ℕ) (ps : List ℕ)
        → ((r : ℕ) → mem r (t (a.allocated + n)) ≡ false → m2.page r ≡ m1.page r)
        → get_elem? heads' i ≡ get_elem? heads i
        → ((p : ℕ) → mem p ps ≡ true → mem p (t (a.allocated + n)) ≡ false)
        → Leads heads m1 i ps
        → Leads heads' m2 i ps
    Leads-kept heads' m2 i ps same at out (q, is, chain) =
        (q, at ∙ is, Chain-frame chain (λ p h. same p (out p h)))

    joint_out :
        (k : ℕ) → k < n → (p : ℕ) → mem p (joint k) ≡ true → mem p (t (a.allocated + n)) ≡ false
    joint_out k k_lt p h = elim (Bool-cases (mem p (t k))) [
      | inl here ↦ buckets.apart k (a.allocated + n) p here (λ e. omega arith)
      | inr isnt ↦
          buckets.apart (a.allocated + k) (a.allocated + n) p
            (ground (arith, h, isnt, mem-append p (t (a.allocated + k)) (t k))) (λ e. omega arith)
    ]

    -- The pair `n` is merged in the array `heads'`, which differs at `n` alone.
    Merging-joined :
        (heads' : List ℕ) (m2 : Memory)
        → Leads heads' m2 n (joint n)
        → ((k : ℕ) → k ≢ n → get_elem? heads' k ≡ get_elem? heads k)
        → length heads' ≡ length heads
        → ((r : ℕ) → mem r (t (a.allocated + n)) ≡ false → m2.page r ≡ m1.page r)
        → m2.word ≡ m1.word
        → Merging (suc n) heads' m m2
    Merging-joined heads' m2 new kept size same words = record {
      done = λ k k_lt. elim (dec_lt k n) [
        | yes before ↦
            Leads-kept heads' m2 k (joint k) same (kept k (λ e. omega arith)) (joint_out k before)
              (s.done k before)
        | no here ↦ let e : n ≡ k = omega arith in subst (λ z. Leads heads' m2 z (joint z)) e new
      ];
      low = λ k from k_lt.
          Leads-kept heads' m2 k (t k) same (kept k (λ e. omega arith))
            (λ p h. buckets.apart k (a.allocated + n) p h (λ e. omega arith))
            (s.low k (omega arith) k_lt);
      high = λ k from k_lt.
          Leads-kept heads' m2 (a.allocated + k) (t (a.allocated + k)) same
            (kept (a.allocated + k) (λ e. omega arith))
            (λ p h. buckets.apart (a.allocated + k) (a.allocated + n) p h (λ e. omega arith))
            (s.high k (omega arith) k_lt);
      size = size ∙ s.size;
      outside = λ r out. same r (out (a.allocated + n)) ∙ s.outside r out;
      words = words ∙ s.words;
    }

    Merging-suc :
        (heads' : List ℕ) × (m2 : Memory) × (shrink_step a n heads m1 ≡ some (heads', m2))
        × Merging (suc n) heads' m m2
    Merging-suc =
        let (p, at, front) = s.high n (omega arith) lt in
        let (head, at_low, back) = s.low n (omega arith) lt in
        elim (Bool-cases (p == null)) [
          | inl none_there ↦
              let e = ==→eq p null none_there in
              (
                heads,
                m1,
                shrink_step-null n p heads m1 at e,
                Merging-joined heads m1
                    (
                      head,
                      at_low,
                      subst (λ z. Chain m1.page head (z ++ t n)) (sym (Chain-null front e)) back,
                    )
                    (λ k ne. refl) refl (λ r out. refl) refl,
              )
          | inr some_there ↦
              let ne = ==→ne p null some_there in
              let r =
                puts_behind (a.num_pages + 1) p head (t (a.allocated + n)) (t n) m1 front back ne
                  (omega (arith, buckets.few (a.allocated + n)))
                  (buckets.distinct (a.allocated + n))
                  (λ q h. buckets.apart (a.allocated + n) n q h (λ e. omega arith)) in
              (
                set heads n p,
                r.after,
                shrink_step-joins n p head heads m1 r.after at ne at_low r.runs,
                Merging-joined (set heads n p) r.after
                    (
                      p,
                      get_elem?-set_self heads n p (lt-length_of_get_elem? heads n at_low),
                      r.joined,
                    )
                    (λ k k_ne. get_elem?-set_ne heads n k p (λ z. k_ne (sym z)))
                    (length-set heads n p) r.others r.words,
              )
        ]

  pub shrink_loop-Merging :
      Apart
      → (count n : ℕ) (heads : List ℕ) (m m1 : Memory) → Merging n heads m m1
      → n + count ≡ a.allocated
      → (heads' : List ℕ) × (m' : Memory) × (shrink_loop a count n heads m1 ≡ some (heads', m'))
        × Merging a.allocated heads' m m'
  unfolding shrink_loop
  shrink_loop-Merging buckets zero n heads m m1 s e =
      (heads, m1, refl, subst (λ z. Merging z heads m m1) (omega arith) s)
  shrink_loop-Merging buckets (suc count) n heads m m1 s e =
      let (h2, m2, ran, s') = Merging-suc buckets n heads m m1 s (omega arith) in
      let (h3, m3, ran', s'') =
        shrink_loop-Merging buckets count (suc n) h2 m m2 s' (omega arith) in
      (h3, m3, rw ran ran', s'')
