-- ===== src/Htable/Delete.antt =====
-- `ba_htable_delete` of src/gjalloc.c takes a page out of its bucket.
use mathlib.Core.Path.{subst}
use gjalloc.Base.{
  ℕ, ◌≤◌, ◌<◌, ◌≡◌, ◌≢◌, refl, sym, ap, ◌∙◌, true, false, some, List, [], ◌∷◌, length, arith, ◌==◌,
  get_elem?, set, Bool-cases, inl, inr, ==→eq, ==→ne, eq→==, ne→==, lt-length_of_get_elem?,
  get_elem?-set_self, get_elem?-set_ne, length-set,
}
use gjalloc.Memory.{Page, Memory, null, update, load_page}
use gjalloc.Page.FreeList.{mem, Distinct}
use gjalloc.Allocator.{Allocator}
use gjalloc.Htable.{bucket_of, masked_hash, hash1, read_bucket, ba_htable_delete}
use gjalloc.Htable.Chain.{Chain, nil, cons, Chain-update, Chain-frame, IsTable}
use gjalloc.Htable.Hash.{bucket_of-lt}
use gjalloc.Htable.Unlink.{
  without, without_absent, mem-without, length-without, Distinct-without, without-gone,
  set_hchain-runs, mem-cons_false, delete_loop-Unlinked,
}

-- The bucket `b`, which held the pages `ps`, has lost `p`; no other bucket and no page outside it
-- has changed.
record Cut (a : Allocator) (m m' : Memory) (p b : ℕ) (ps heads : List ℕ) : Type 0 where
  head : ℕ
  at : get_elem? heads b ≡ some head
  elsewhere : (n : ℕ) → n ≢ b → get_elem? heads n ≡ get_elem? a.htable n
  size : length heads ≡ length a.htable
  chain : Chain m'.page head (without p ps)
  words : m'.word ≡ m.word
  others : (r : ℕ) → mem r ps ≡ false → m'.page r ≡ m.page r

abbrev Cuts : Allocator → Memory → ℕ → List ℕ → Type 0
Cuts a m p ps =
    (heads : List ℕ) × (m' : Memory) × (ba_htable_delete a p m ≡ some (heads, m'))
    × Cut a m m' p (bucket_of a p) ps heads

module _ (a : Allocator) (m : Memory) (p q : ℕ)
    (at : get_elem? a.htable (bucket_of a p) ≡ some q) where
  Cuts-empty : q ≡ null → Cuts a m p []
  unfolding ba_htable_delete read_bucket
  Cuts-empty e = (
    a.htable,
    m,
    rw (at, eq→== q null e) refl,
    record {
      head = q;
      at = at;
      elsewhere = λ n ne. refl;
      size = refl;
      chain = nil e;
      words = refl;
      others = λ r out. refl;
    },
  )

  Cuts-first :
      (v : Page) {ps : List ℕ}
      → q ≡ p
      → q ≢ null
      → m.page q ≡ some v
      → Chain m.page v.hchain ps
      → Distinct (p ∷ ps)
      → Cuts a m p (p ∷ ps)
  unfolding ba_htable_delete read_bucket load_page
  Cuts-first v {ps} e ne is c d = (
    set a.htable (bucket_of a p) v.hchain,
    record m { page = update m.page p (some (record v { hchain = 0 })) },
    rw (at, ne→== q null ne, is, eq→== q p e, set_hchain-runs p 0 m v (ap m.page (sym e) ∙ is))
        refl,
    record {
      head = v.hchain;
      at =
          get_elem?-set_self a.htable (bucket_of a p) v.hchain
            (lt-length_of_get_elem? a.htable (bucket_of a p) at);
      elsewhere =
          λ n n_ne. get_elem?-set_ne a.htable (bucket_of a p) n v.hchain (λ z. n_ne (sym z));
      size = length-set a.htable (bucket_of a p) v.hchain;
      chain = rw (eq→== p p refl) (Chain-update p _ c d.0);
      words = refl;
      others = λ r out. rw (ne→== p r (λ z. (mem-cons_false r p ps out).0 (sym z))) refl;
    },
  )

  Cuts-behind :
      (v : Page) {ps : List ℕ}
      → q ≢ p
      → q ≢ null
      → m.page q ≡ some v
      → Chain m.page v.hchain ps
      → Distinct (q ∷ ps)
      → length ps < a.num_pages
      → Cuts a m p (q ∷ ps)
  unfolding ba_htable_delete read_bucket load_page
  Cuts-behind v {ps} other ne is c d enough =
      let (m', ran, u) = delete_loop-Unlinked p a.num_pages q v m is c d enough in
      (
        a.htable,
        m',
        rw (at, ne→== q null ne, is, ne→== q p other, ran) refl,
        record {
          head = q;
          at = at;
          elsewhere = λ n n_ne. refl;
          size = refl;
          chain = rw (ne→== q p other) (cons (record v { hchain = u.head }) refl ne u.link u.chain);
          words = u.words;
          others = λ r out. u.others r (mem-cons_false r q ps out).0 (mem-cons_false r q ps out).1;
        },
      )

  ba_htable_delete-Cuts :
      {ps : List ℕ} → Chain m.page q ps → Distinct ps → length ps ≤ a.num_pages → Cuts a m p ps
  ba_htable_delete-Cuts (nil e) d enough = Cuts-empty e
  ba_htable_delete-Cuts (cons {x} {ps} v e ne is rest) d enough =
      subst (λ y. Cuts a m p (y ∷ ps)) e
        (elim (Bool-cases (q == p)) [
          | inl here ↦
              let same = ==→eq q p here in
              subst (λ y. Cuts a m p (y ∷ ps)) (sym same)
                (Cuts-first v same ne is rest (subst (λ y. Distinct (y ∷ ps)) (sym e ∙ same) d))
          | inr other ↦
              Cuts-behind v (==→ne q p other) ne is rest (subst (λ y. Distinct (y ∷ ps)) (sym e) d)
                (omega arith)
        ])

pub mem-without_other : (p r : ℕ) (xs : List ℕ) → r ≢ p → mem r (without p xs) ≡ mem r xs
mem-without_other p r [] ne = refl
mem-without_other p r (x ∷ xs) ne = ground (arith, mem-without_other p r xs ne)

module _ {a : Allocator} {m : Memory} {t : ℕ → List ℕ} (table : IsTable a m t) (p : ℕ) where
  -- A page of another bucket is not one of the bucket of `p`.
  elsewhere_out :
      (n r : ℕ) → n ≢ bucket_of a p → mem r (t n) ≡ true → mem r (t (bucket_of a p)) ≡ false
  elsewhere_out n r ne h = elim (Bool-cases (mem r (t (bucket_of a p)))) [
    | inl is ↦ absurd (ne (sym (table.homes n r h) ∙ table.homes (bucket_of a p) r is))
    | inr isnt ↦ isnt
  ]

  other_bucket : (n : ℕ) → n ≢ bucket_of a p → without p (t n) ≡ t n
  other_bucket n ne = elim (Bool-cases (mem p (t n))) [
    | inl is ↦ absurd (ne (sym (table.homes n p is)))
    | inr isnt ↦ without_absent p (t n) isnt
  ]

  Cut-IsTable :
      (m' : Memory) (heads : List ℕ)
      → Cut a m m' p (bucket_of a p) (t (bucket_of a p)) heads
      → IsTable (record a { htable = heads }) m' (λ n. without p (t n))
  Cut-IsTable m' heads c = record {
    chains = λ n lt. elim (Bool-cases (n == bucket_of a p)) [
      | inl here ↦
          subst (λ k. (q : ℕ) × (get_elem? heads k ≡ some q) × Chain m'.page q (without p (t k)))
            (sym (==→eq n (bucket_of a p) here)) (c.head, c.at, c.chain)
      | inr other ↦
          let ne = ==→ne n (bucket_of a p) other in
          let (q, at, chain) = table.chains n lt in
          (
            q,
            c.elsewhere n ne ∙ at,
            subst (Chain m'.page q) (sym (other_bucket n ne))
                (Chain-frame chain (λ r h. c.others r (elsewhere_out n r ne h))),
          )
    ];
    homes =
        unfold bucket_of hash1 masked_hash in λ n r h. table.homes n r (mem-without p r (t n) h);
    distinct = λ n. Distinct-without p (t n) (table.distinct n);
    few = λ n. omega (arith, length-without p (t n), table.few n);
    some_buckets = table.some_buckets;
    word = table.word;
  }

  -- The pages that are left, as lists, and the length of the array.
  pub ba_htable_delete-without :
      (heads : List ℕ) × (m' : Memory) × (ba_htable_delete a p m ≡ some (heads, m'))
      × IsTable (record a { htable = heads }) m' (λ n. without p (t n))
      × (length heads ≡ length a.htable)
      × (m'.word ≡ m.word)
      × ((r : ℕ) → ((n : ℕ) → mem r (t n) ≡ false) → m'.page r ≡ m.page r)
  ba_htable_delete-without =
      let b = bucket_of a p in
      let (q, at, chain) = table.chains b (bucket_of-lt a p table.some_buckets table.word) in
      let (heads, m', ran, cut) =
        ba_htable_delete-Cuts a m p q at chain (table.distinct b) (table.few b) in
      (heads, m', ran, Cut-IsTable m' heads cut, cut.size, cut.words, λ r out. cut.others r (out b))

  -- Given a table, `ba_htable_delete` ends without a fault; afterwards the table is one of the same
  -- pages without `p`, whether `p` was in it or not, the words are unchanged, and so is every page
  -- that was not in the table.
  pub ba_htable_delete-IsTable :
      (heads : List ℕ) × (m' : Memory) × (t' : ℕ → List ℕ) × (ba_htable_delete a p m
        ≡ some (heads, m'))
      × IsTable (record a { htable = heads }) m' t'
      × ((n : ℕ) → mem p (t' n) ≡ false)
      × ((n r : ℕ) → r ≢ p → mem r (t' n) ≡ mem r (t n))
      × (m'.word ≡ m.word)
      × ((r : ℕ) → ((n : ℕ) → mem r (t n) ≡ false) → m'.page r ≡ m.page r)
  ba_htable_delete-IsTable =
      let (heads, m', ran, after, size, words, others) = ba_htable_delete-without in
      (
        heads,
        m',
        λ n. without p (t n),
        ran,
        after,
        λ n. without-gone p (t n) (table.distinct n),
        λ n r ne. mem-without_other p r (t n) ne,
        words,
        others,
      )
