-- ===== src/Htable/Insert.antt =====
-- `ba_htable_insert` of src/gjalloc.c puts a page in front of its bucket.
use mathlib.Core.Path.{subst}
use gjalloc.Base.{
  ℕ, ◌<◌, ◌≡◌, ◌≢◌, refl, sym, ap, ◌∙◌, true, false, Option, some, List, ◌∷◌, length, arith, ◌==◌,
  get_elem?, set, if◌then◌else◌, Bool-cases, inl, inr, ==→eq, ==→ne, eq→==, ne→==,
  lt-length_of_get_elem?, get_elem?-set_self, get_elem?-set_ne,
}
use gjalloc.Memory.{Page, Memory, null, update, load_page, store_page}
use gjalloc.Page.FreeList.{mem}
use gjalloc.Allocator.{Allocator}
use gjalloc.Htable.{bucket_of, masked_hash, hash1, ba_htable_insert}
use gjalloc.Htable.Chain.{Chain, cons, Chain-update, IsTable}
use gjalloc.Htable.Hash.{bucket_of-lt}

-- The table with `p` in front of its bucket.
abbrev pub inserted : Allocator → ℕ → (ℕ → List ℕ) → ℕ → List ℕ
inserted a p t n = if bucket_of a p == n then p ∷ t n else t n

module _ {a : Allocator} {m : Memory} {t : ℕ → List ℕ} (table : IsTable a m t) where
  -- Given a page that is not in the table, and room in `num_pages`, the page is put in front of
  -- the bucket of its hash; every other chain, and every other page, stays as it is.
  pub ba_htable_insert-IsTable :
      (p : ℕ) (pg : Page)
      → p ≢ null
      → m.page p ≡ some pg
      → ((n : ℕ) → mem p (t n) ≡ false)
      → ((n : ℕ) → length (t n) < a.num_pages)
      → (heads : List ℕ) × (m' : Memory) × (ba_htable_insert a p m ≡ some (heads, m'))
        × IsTable (record a { htable = heads }) m' (inserted a p t)
        × (m'.word ≡ m.word)
        × ((r : ℕ) → r ≢ p → m'.page r ≡ m.page r)
        × ((q : ℕ) × (m'.page p ≡ some (record pg { hchain = q })))
  ba_htable_insert-IsTable p pg ne is out room =
      let b = bucket_of a p in
      let (q, at, chain) = table.chains b (bucket_of-lt a p table.some_buckets table.word) in
      let m' : Memory = record m { page = update m.page p (some (record pg { hchain = q })) } in
      let heads = set a.htable b p in
      let runs : ba_htable_insert a p m ≡ some (heads, m') =
        unfold ba_htable_insert load_page store_page in rw (at, is) (rw is refl) in
      (
        heads,
        m',
        runs,
        after,
        refl,
        λ r r_ne. rw (ne→== p r (λ e. r_ne (sym e))) refl,
        (q, rw (eq→== p p refl) refl),
      )
    where
      q' : ℕ
      q' = (table.chains (bucket_of a p) (bucket_of-lt a p table.some_buckets table.word)).0

      page' : ℕ → Option Page
      page' = update m.page p (some (record pg { hchain = q' }))

      heads' : List ℕ
      heads' = set a.htable (bucket_of a p) p

      linked : Chain page' p (p ∷ t (bucket_of a p))
      linked =
          let (q, at, chain) =
            table.chains (bucket_of a p) (bucket_of-lt a p table.some_buckets table.word) in
          cons (record pg { hchain = q }) refl ne (rw (eq→== p p refl) refl)
            (Chain-update p _ chain (out (bucket_of a p)))

      chains' :
          (n : ℕ)
          → n < a.allocated
          → (r : ℕ) × (get_elem? heads' n ≡ some r) × Chain page' r (inserted a p t n)
      chains' n lt = elim (Bool-cases (bucket_of a p == n)) [
        | inl here ↦
            let e = ==→eq (bucket_of a p) n here in
            let (q, at, chain) =
              table.chains (bucket_of a p) (bucket_of-lt a p table.some_buckets table.word) in
            let wide = lt-length_of_get_elem? a.htable (bucket_of a p) at in
            (
              p,
              ap (get_elem? heads') (sym e) ∙ get_elem?-set_self a.htable (bucket_of a p) p wide,
              rw here (subst (λ k. Chain page' p (p ∷ t k)) e linked),
            )
        | inr other ↦
            let (r, at, chain) = table.chains n lt in
            (
              r,
              get_elem?-set_ne a.htable (bucket_of a p) n p (==→ne (bucket_of a p) n other) ∙ at,
              rw other (Chain-update p _ chain (out n)),
            )
      ]

      homes' : (n r : ℕ) → mem r (inserted a p t n) ≡ true → bucket_of a r ≡ n
      homes' n r h = elim (Bool-cases (bucket_of a p == n)) [
        | inl here ↦ elim (Bool-cases (r == p)) [
          | inl new ↦ ap (bucket_of a) (==→eq r p new) ∙ ==→eq (bucket_of a p) n here
          | inr old ↦ table.homes n r (rw (here, old) at h)
        ]
        | inr other ↦ table.homes n r (rw other at h)
      ]

      after : IsTable (record a { htable = heads' }) (record m { page = page' }) (inserted a p t)
      after = record {
        chains = chains';
        homes = unfold bucket_of hash1 masked_hash in homes';
        distinct = λ n. elim (Bool-cases (bucket_of a p == n)) [
          | inl here ↦ rw here (out n, table.distinct n)
          | inr other ↦ rw other (table.distinct n)
        ];
        few = λ n. ground (arith, room n);
        some_buckets = table.some_buckets;
        word = table.word;
      }
