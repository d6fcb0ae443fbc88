-- ===== src/Htable/Lookup.antt =====
-- `ba_htable_lookup` of src/gjalloc.c finds the page of a block.
use mathlib.Core.Bool.{false≢true}
use mathlib.Core.Path.{subst}
use gjalloc.Base.{
  ℕ, zero, suc, ◌+◌, ◌^◌, ◌≤◌, ◌<◌, ◌≡◌, ◌≢◌, refl, sym, ap, ◌∙◌, true, ◌||◌, some, List, [], ◌∷◌,
  length, arith, ◌==◌, if◌then◌else◌, Bool-cases, inl, inr, ◌⊎◌, eq→==, ne→==, sub64, le→leb,
}
use gjalloc.Layout.{Layout}
use gjalloc.Memory.{Memory, null, load_page, ◌>>=◌}
use gjalloc.Page.FreeList.{mem}
use gjalloc.Allocator.{Allocator}
use gjalloc.Htable.{
  ba_check_ptr, hash1, hash2, masked_hash, bucket_of, chain_lookup, ba_htable_lookup, read_bucket,
}
use gjalloc.Htable.Chain.{Chain, nil, cons, IsTable}
use gjalloc.Htable.Hash.{masked_hash-lt, bucket_of-hash}

-- The first page of a list that holds `ptr`, or 0.
unfoldable pub holder : Layout → ℕ → List ℕ → ℕ
holder l ptr [] = 0
holder l ptr (p ∷ ps) = if ba_check_ptr l p ptr then p else holder l ptr ps

-- With a unit of fuel for each page and one more, the walk ends at the first page that holds
-- the pointer.
chain_lookup-holder :
    (l : Layout) (ptr fuel : ℕ) (m : Memory) {q : ℕ} {ps : List ℕ}
    → length ps < fuel
    → Chain m.page q ps
    → chain_lookup l ptr fuel q m ≡ some (holder l ptr ps, m)
unfolding chain_lookup holder load_page
chain_lookup-holder l ptr zero m enough c = absurd (omega arith)
chain_lookup-holder l ptr (suc fuel) m enough (nil e) = rw e refl
chain_lookup-holder l ptr (suc fuel) m {q} enough (cons {x} {ps} pg e ne is rest) =
    rw (ne→== q null ne, e)
      (elim (Bool-cases (ba_check_ptr l x ptr)) [
        | inl here ↦ rw here refl
        | inr other ↦
            let at_x : m.page x ≡ some pg = ap m.page (sym e) ∙ is in
            rw (other, at_x) (chain_lookup-holder l ptr fuel m (omega arith) rest)
      ])

-- A page that alone holds the pointer is the holder.
holder-eq :
    (l : Layout) (ptr p : ℕ) (ps : List ℕ)
    → mem p ps ≡ true
    → ba_check_ptr l p ptr ≡ true
    → ((q : ℕ) → mem q ps ≡ true → ba_check_ptr l q ptr ≡ true → q ≡ p)
    → holder l ptr ps ≡ p
unfolding holder
holder-eq l ptr p [] here holds alone = absurd (false≢true here)
holder-eq l ptr p (x ∷ ps) here holds alone = elim (Bool-cases (ba_check_ptr l x ptr)) [
  | inl is ↦ rw is (alone x (rw (eq→== x x refl) refl) is)
  | inr isnt ↦
      let ne : p ≢ x =
        λ e. false≢true (sym isnt ∙ ap (λ t. ba_check_ptr l t ptr) (sym e) ∙ holds) in
      let behind : mem p ps ≡ true = ap (λ t. t || mem p ps) (sym (ne→== p x ne)) ∙ here in
      rw isnt (holder-eq l ptr p ps behind holds (λ q h. alone q (ground arith)))
]

-- Nothing, or a page of the list that holds the pointer.
abbrev pub Holds : Layout → ℕ → List ℕ → ℕ → Type 0
Holds l ptr ps r = (r ≡ 0) ⊎ ((mem r ps ≡ true) × (ba_check_ptr l r ptr ≡ true))

pub holder-Holds : (l : Layout) (ptr : ℕ) (ps : List ℕ) → Holds l ptr ps (holder l ptr ps)
unfolding holder
holder-Holds l ptr [] = inl refl
holder-Holds l ptr (x ∷ ps) = elim (Bool-cases (ba_check_ptr l x ptr)) [
  | inl is ↦
      let here : Holds l ptr (x ∷ ps) x = inr (rw (eq→== x x refl) refl, is) in
      subst (Holds l ptr (x ∷ ps)) (rw is refl) here
  | inr isnt ↦
      subst (Holds l ptr (x ∷ ps)) (rw isnt refl) (widen (holder l ptr ps) (holder-Holds l ptr ps))
]
  where
    widen : (r : ℕ) → Holds l ptr ps r → Holds l ptr (x ∷ ps) r
    widen r (inl none_here) = inl none_here
    widen r (inr (is, holds)) = inr (ground arith, holds)

module _ {a : Allocator} {m : Memory} {t : ℕ → List ℕ} (table : IsTable a m t) (ptr : ℕ) where
  -- One bucket of the table.
  bucket-holder :
      (h : ℕ)
      → (read_bucket a.htable (masked_hash a h) >>= chain_lookup a.l ptr (a.num_pages + 1)) m
        ≡ some (holder a.l ptr (t (masked_hash a h)), m)
  unfolding read_bucket
  bucket-holder h =
      let n = masked_hash a h in
      let (q, at, chain) = table.chains n (masked_hash-lt a h table.some_buckets table.word) in
      rw at (chain_lookup-holder a.l ptr (a.num_pages + 1) m (omega (arith, table.few n)) chain)

  -- What the lookup returns: the holder in the second bucket if the hashes agree, and else that
  -- in the first if there is one.
  answer : ℕ
  answer =
      if hash1 a ptr == hash2 a ptr
      then holder a.l ptr (t (masked_hash a (hash2 a ptr)))
      else if holder a.l ptr (t (masked_hash a (hash1 a ptr))) == 0
      then holder a.l ptr (t (masked_hash a (hash2 a ptr)))
      else holder a.l ptr (t (masked_hash a (hash1 a ptr)))

  lookup-answer : ba_htable_lookup a ptr m ≡ some (answer, m)
  unfolding ba_htable_lookup answer
  lookup-answer = elim (Bool-cases (hash1 a ptr == hash2 a ptr)) [
    | inl one ↦ rw one (bucket-holder (hash2 a ptr))
    | inr two ↦
        rw (two, bucket-holder (hash1 a ptr))
          (elim (Bool-cases (holder a.l ptr (t (masked_hash a (hash1 a ptr))) == 0)) [
            | inl missed ↦ rw missed (bucket-holder (hash2 a ptr))
            | inr hit ↦ rw hit refl
          ])
  ]

  Answers : ℕ → Type 0
  Answers r = (r ≡ 0) ⊎ ((n : ℕ) × (mem r (t n) ≡ true) × (ba_check_ptr a.l r ptr ≡ true))

  second : (h : ℕ) → Answers (holder a.l ptr (t (masked_hash a h)))
  unfolding Answers
  second h = elim (holder-Holds a.l ptr (t (masked_hash a h))) [
    | inl none_here ↦ inl none_here
    | inr (is, holds) ↦ inr (masked_hash a h, is, holds)
  ]

  -- The lookup ends. It returns NULL, or a page of the table that holds the pointer.
  pub ba_htable_lookup_sound :
      (r : ℕ) × (ba_htable_lookup a ptr m ≡ some (r, m))
      × ((r ≡ 0) ⊎ ((n : ℕ) × (mem r (t n) ≡ true) × (ba_check_ptr a.l r ptr ≡ true)))
  unfolding Answers answer
  ba_htable_lookup_sound = (
    answer,
    lookup-answer,
    elim (Bool-cases (hash1 a ptr == hash2 a ptr)) [
      | inl one ↦ subst Answers (rw (one, answer) refl) (second (hash2 a ptr))
      | inr two ↦ elim (Bool-cases (holder a.l ptr (t (masked_hash a (hash1 a ptr))) == 0)) [
        | inl missed ↦ subst Answers (rw (two, missed, answer) refl) (second (hash2 a ptr))
        | inr hit ↦ subst Answers (rw (two, hit, answer) refl) (second (hash1 a ptr))
      ]
    ],
  )

  -- Given the table, a pointer between a page `p` of it and its last block, pages whose last block is
  -- less than 2 ^ `magnitude` behind their start and which end below 2 ^ 64, and no other page of
  -- the table that holds the pointer, the lookup returns `p` and changes nothing.
  pub ba_htable_lookup-finds :
      (p : ℕ)
      → mem p (t (bucket_of a p)) ≡ true
      → p ≢ 0
      → p ≤ ptr
      → ptr ≤ p + a.l.offset
      → a.l.offset < 2 ^ a.magnitude
      → p + a.l.offset < 2 ^ 64
      → ((n q : ℕ) → mem q (t n) ≡ true → ba_check_ptr a.l q ptr ≡ true → q ≡ p)
      → ba_htable_lookup a ptr m ≡ some (p, m)
  unfolding answer
  ba_htable_lookup-finds p is ne lo hi small inside alone =
      lookup-answer
      ∙ ap (λ r. some (r, m))
          (elim (bucket_of-hash a p ptr lo hi small inside) [
            | inl first ↦
                let at_first = at_home (hash1 a ptr) first in
                let agree = λ (e : hash1 a ptr ≡ hash2 a ptr).
                  ap (λ h. holder a.l ptr (t (masked_hash a h))) e in
                ground (arith, agree)
            | inr other ↦
                let at_other = at_home (hash2 a ptr) other in
                let maybe = only (hash1 a ptr) in ground arith
          ])
    where
      holds : ba_check_ptr a.l p ptr ≡ true
      holds = unfold ba_check_ptr in le→leb (sub64 ptr p) a.l.offset (omega arith)

      at_home : (h : ℕ) → bucket_of a p ≡ masked_hash a h → holder a.l ptr (t (masked_hash a h)) ≡ p
      at_home h e =
          holder-eq a.l ptr p (t (masked_hash a h)) (ap (λ n. mem p (t n)) (sym e) ∙ is) holds
            (λ q. alone (masked_hash a h) q)

      only :
          (h : ℕ)
          → (holder a.l ptr (t (masked_hash a h)) ≡ 0) ⊎ (holder a.l ptr (t (masked_hash a h)) ≡ p)
      only h = elim (holder-Holds a.l ptr (t (masked_hash a h))) [
        | inl none_here ↦ inl none_here
        | inr (there, is_held) ↦ inr (alone (masked_hash a h) _ there is_held)
      ]
