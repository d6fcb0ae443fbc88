-- ===== src/Htable/Unlink.antt =====
-- The loop of `ba_htable_delete` in src/gjalloc.c takes a page out of a hash chain.
use mathlib.Core.Bool.{false≢true}
use mathlib.Core.Path.{subst}
use gjalloc.Base.{
  ℕ, zero, suc, ◌≤◌, ◌<◌, ◌≡◌, ◌≢◌, refl, sym, ap, ◌∙◌, true, false, some, List, [], ◌∷◌, length,
  arith, ◌==◌, if◌then◌else◌, eq→==, ne→==, ==→eq, ==→ne, Bool-cases, inl, inr,
}
use gjalloc.Memory.{Page, Memory, null, update, load_page, store_page, ◌>>◌}
use gjalloc.Page.FreeList.{mem, Distinct}
use gjalloc.Htable.{delete_loop, set_hchain}
use gjalloc.Htable.Chain.{Chain, nil, cons, Chain-update}

abbrev pub without : ℕ → List ℕ → List ℕ
without p [] = []
without p (x ∷ xs) = if x == p then xs else x ∷ without p xs

pub without_absent : (p : ℕ) (xs : List ℕ) → mem p xs ≡ false → without p xs ≡ xs
without_absent p [] h = refl
without_absent p (x ∷ xs) h = ground (arith, without_absent p xs)

pub mem-without : (p r : ℕ) (xs : List ℕ) → mem r (without p xs) ≡ true → mem r xs ≡ true
mem-without p r [] h = h
mem-without p r (x ∷ xs) h = ground (arith, mem-without p r xs)

pub length-without : (p : ℕ) (xs : List ℕ) → length (without p xs) ≤ length xs
length-without p [] = omega arith
length-without p (x ∷ xs) = ground (arith, length-without p xs)

pub Distinct-without : (p : ℕ) (xs : List ℕ) → Distinct xs → Distinct (without p xs)
Distinct-without p [] d = d
Distinct-without p (x ∷ xs) d = elim (Bool-cases (x == p)) [
  | inl here ↦ rw here (d.1)
  | inr other ↦ rw other (
    elim (Bool-cases (mem x (without p xs))) [
      | inl is ↦ absurd (false≢true (sym d.0 ∙ mem-without p x xs is))
      | inr isnt ↦ isnt
    ],
    Distinct-without p xs d.1,
  )
]

pub without-gone : (p : ℕ) (xs : List ℕ) → Distinct xs → mem p (without p xs) ≡ false
without-gone p [] d = refl
without-gone p (x ∷ xs) d = elim (Bool-cases (x == p)) [
  | inl here ↦ rw here (ap (λ t. mem t xs) (sym (==→eq x p here)) ∙ d.0)
  | inr other ↦ rw other (ground (arith, without-gone p xs d.1))
]

-- Behind the page `prev` the chain has lost `p`; no page but `prev` and those of `ps` has changed.
pub record Unlinked (m m' : Memory) (p prev : ℕ) (pg : Page) (ps : List ℕ) : Type 0 where
  pub head : ℕ
  pub link : m'.page prev ≡ some (record pg { hchain = head })
  pub chain : Chain m'.page head (without p ps)
  pub words : m'.word ≡ m.word
  pub others : (r : ℕ) → r ≢ prev → mem r ps ≡ false → m'.page r ≡ m.page r

pub set_hchain-runs :
    (p q : ℕ) (m : Memory) (pg : Page)
    → m.page p ≡ some pg
    → set_hchain p q m
      ≡ some (tt, record m { page = update m.page p (some (record pg { hchain = q })) })
unfolding set_hchain load_page store_page
set_hchain-runs p q m pg is = rw is (rw is refl)

-- The step that finds `p` behind `prev`.
unlink_here :
    (p prev : ℕ) (m : Memory) (before pg : Page)
    → prev ≢ p
    → m.page prev ≡ some before
    → m.page p ≡ some pg
    → (m' : Memory) × ((set_hchain prev pg.hchain >> set_hchain p 0) m ≡ some (tt, m'))
      × (m'.word ≡ m.word)
      × (m'.page
          ≡ update
              (update m.page prev (some (record before { hchain = pg.hchain })))
              p
              (some (record pg { hchain = 0 })))
unlink_here p prev m before pg ne at is =
    let m1 : Memory = record m {
      page = update m.page prev (some (record before { hchain = pg.hchain }));
    } in
    let still : m1.page p ≡ some pg = rw (ne→== prev p ne) is in
    (
      record m1 { page = update m1.page p (some (record pg { hchain = 0 })) },
      rw (set_hchain-runs prev pg.hchain m before at, set_hchain-runs p 0 m1 pg still) refl,
      refl,
      refl,
    )

module _ (p fuel prev q : ℕ) (m : Memory) (v : Page) (ne : q ≢ null) (is : m.page q ≡ some v) where
  step_here :
      q ≡ p → delete_loop p (suc fuel) prev q m ≡ (set_hchain prev v.hchain >> set_hchain p 0) m
  unfolding delete_loop load_page
  step_here e = rw (ne→== q null ne, is, eq→== q p e) refl

  step_other : q ≢ p → delete_loop p (suc fuel) prev q m ≡ delete_loop p fuel q v.hchain m
  unfolding delete_loop load_page
  step_other other = rw (ne→== q null ne, is, ne→== q p other) refl

-- What the loop does behind `prev`.
abbrev Deletes : ℕ → ℕ → ℕ → Page → Memory → List ℕ → Type 0
Deletes p fuel prev pg m ps =
    (m' : Memory) × (delete_loop p fuel prev pg.hchain m ≡ some (tt, m'))
    × Unlinked m m' p prev pg ps

pub mem-cons_false : (r x : ℕ) (ps : List ℕ) → mem r (x ∷ ps) ≡ false → (r ≢ x) × (mem r ps ≡ false)
mem-cons_false r x ps h = (λ e. ground arith, ground arith)

Distinct-head_ne : (x y : ℕ) (ps : List ℕ) → Distinct (x ∷ y ∷ ps) → x ≢ y
Distinct-head_ne x y ps d = (mem-cons_false x y ps d.0).0

Unlinked-here :
    (p fuel prev : ℕ) (pg v : Page) {ps : List ℕ} (m : Memory)
    → m.page prev ≡ some pg
    → pg.hchain ≡ p
    → p ≢ null
    → m.page p ≡ some v
    → Chain m.page v.hchain ps
    → Distinct (prev ∷ p ∷ ps)
    → Deletes p (suc fuel) prev pg m (p ∷ ps)
Unlinked-here p fuel prev pg v {ps} m at e ne is c d =
    let differ = Distinct-head_ne prev p ps d in
    let (m', ran, words, pages) = unlink_here p prev m pg v differ at is in
    (
      m',
      step_here p fuel prev pg.hchain m v (λ z. ne (sym e ∙ z)) (ap m.page e ∙ is) e ∙ ran,
      record {
        head = v.hchain;
        link =
            ap (λ t. t prev) pages
            ∙ rw (ne→== p prev (λ z. differ (sym z)), eq→== prev prev refl) refl;
        chain = rw (eq→== p p refl) (
            subst (λ g. Chain g v.hchain ps) (sym pages)
              (Chain-update p _ (Chain-update prev _ c (mem-cons_false prev p ps d.0).1) d.1.0));
        words = words;
        others = λ r r_ne out.
            ap (λ t. t r) pages
            ∙ rw
                (
                  ne→== p r (λ z. (mem-cons_false r p ps out).0 (sym z)),
                  ne→== prev r (λ z. r_ne (sym z)),
                )
                refl;
      },
    )

Unlinked-other :
    (p fuel prev q : ℕ) (pg v : Page) {ps : List ℕ} (m : Memory)
    → m.page prev ≡ some pg
    → pg.hchain ≡ q
    → q ≢ null
    → q ≢ p
    → m.page q ≡ some v
    → Distinct (prev ∷ q ∷ ps)
    → Deletes p fuel q v m ps
    → Deletes p (suc fuel) prev pg m (q ∷ ps)
Unlinked-other p fuel prev q pg v {ps} m at e ne other is d (m', ran, u) = (
  m',
  step_other p fuel prev pg.hchain m v (λ z. ne (sym e ∙ z)) (ap m.page e ∙ is)
        (λ z. other (sym e ∙ z))
      ∙ ap (λ t. delete_loop p fuel t v.hchain m) e
      ∙ ran,
  record {
    head = q;
    link =
        u.others prev (mem-cons_false prev q ps d.0).0 (mem-cons_false prev q ps d.0).1
        ∙ at
        ∙ ap (λ t. some (record pg { hchain = t })) e;
    chain = rw (ne→== q p other) (cons (record v { hchain = u.head }) refl ne u.link u.chain);
    words = u.words;
    others = λ r r_ne out. u.others r (mem-cons_false r q ps out).0 (mem-cons_false r q ps out).1;
  },
)

pub delete_loop-Unlinked :
    (p fuel prev : ℕ) (pg : Page) {ps : List ℕ} (m : Memory)
    → m.page prev ≡ some pg
    → Chain m.page pg.hchain ps
    → Distinct (prev ∷ ps)
    → length ps < fuel
    → Deletes p fuel prev pg m ps
unfolding delete_loop
delete_loop-Unlinked p zero prev pg m at c d enough = absurd (omega arith)
delete_loop-Unlinked p (suc fuel) prev pg m at (nil e) d enough = (
  m,
  rw (eq→== pg.hchain null e) refl,
  record { head = pg.hchain; link = at; chain = nil e; words = refl; others = λ r ne out. refl },
)
delete_loop-Unlinked p (suc fuel) prev pg m at (cons {x} {ps} v e ne is rest) d enough =
    elim (Bool-cases (x == p)) [
      | inl here ↦
          let same = sym (==→eq x p here) in
          subst (λ y. Deletes p (suc fuel) prev pg m (y ∷ ps)) same
            (Unlinked-here p fuel prev pg v m at (e ∙ sym same) (λ z. ne (e ∙ sym same ∙ z))
              (ap m.page (same ∙ sym e) ∙ is) rest
              (subst (λ y. Distinct (prev ∷ y ∷ ps)) (sym same) d))
      | inr other ↦
          Unlinked-other p fuel prev x pg v m at e (λ z. ne (e ∙ z)) (==→ne x p other)
            (ap m.page (sym e) ∙ is) d
            (delete_loop-Unlinked p fuel x v m (ap m.page (sym e) ∙ is) rest d.1 (omega arith))
    ]
