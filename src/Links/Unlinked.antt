-- ===== src/Links/Unlinked.antt =====
-- `DOUBLE_UNLINK` of src/gjalloc.h takes a page out of a list, wherever it stands.
use mathlib.Core.Path.{subst}
use gjalloc.Base.{
  ℕ, ◌≡◌, ◌≢◌, refl, sym, ap, ◌∙◌, true, some, List, ◌∷◌, ◌==◌, eq→==, ne→==, inl, inr, Bool-cases,
  ==→eq, ==→ne, arith,
}
use gjalloc.Memory.{Page, Memory, null, update, load_page, store_page, pure, ◌>>=◌, ◌>>◌}
use gjalloc.Page.FreeList.{mem, Distinct}
use gjalloc.Htable.Unlink.{without}
use gjalloc.Links.{set_prev_of, unlink_before, double_unlink}
use gjalloc.Links.Linked.{
  Linked, nil, cons, OnlyLinks, OnlyLinks-trans, OnlyLinks-cons, OnlyLinks-update, Linked-update,
  set_prev_of_lem, mem_apart,
}

-- The page `p` has been taken out of the list behind the page `prev`.
record Taken (m m' : Memory) (p prev : ℕ) (before : Page) (ps : List ℕ) : Type 0 where
  next' : ℕ
  link : m'.page prev ≡ some (record before { next = next' })
  list : Linked m'.page prev next' (without p ps)
  only : OnlyLinks (prev ∷ ps) m m'

-- The last two steps: the page behind `p` gets its `prev`, and `p` no links.
tail_steps :
    (head' : ℕ) (m : Memory) (p : ℕ) (pg : Page) (ps : List ℕ)
    → m.page p ≡ some pg
    → Linked m.page p pg.next ps
    → Distinct (p ∷ ps)
    → (m' : Memory) × ((do
      pg' ← load_page p
      set_prev_of pg'.next pg'.prev
      pg'' ← load_page p
      store_page p (record pg'' { next = null; prev = null })
      pure head')
          m
        ≡ some (head', m'))
      × Linked m'.page pg.prev pg.next ps
      × OnlyLinks (p ∷ ps) m m'
unfolding load_page store_page
tail_steps head' m p pg ps is list d =
    let (m1, ran, linked, only) = set_prev_of_lem m pg.prev list d.1 in
    let still : m1.page p ≡ some pg = only.outside p d.0 ∙ is in
    let cleared : Page = record pg { next = null; prev = null } in
    (
      record m1 { page = update m1.page p (some cleared) },
      rw is (rw ran (rw still (rw still refl))),
      Linked-update p (some cleared) linked d.0,
      OnlyLinks-trans (OnlyLinks-cons p only)
          (OnlyLinks-update m1 p ps pg cleared still (record { header = refl; chain = refl })),
    )

load_page-some :
    (m : Memory) (p : ℕ) (pg : Page) → m.page p ≡ some pg → load_page p m ≡ some (pg, m)
unfolding load_page
load_page-some m p pg is = rw is refl

-- The three parts of `DOUBLE_UNLINK` together.
unlink_run :
    (head head' : ℕ) (m m1 m2 : Memory) (p : ℕ) (pg : Page)
    → m.page p ≡ some pg
    → unlink_before head pg m ≡ some (head', m1)
    → (do
      pg' ← load_page p
      set_prev_of pg'.next pg'.prev
      pg'' ← load_page p
      store_page p (record pg'' { next = null; prev = null })
      pure head')
        m1
      ≡ some (head', m2)
    → double_unlink head p m ≡ some (head', m2)
unfolding double_unlink
unlink_run head head' m m1 m2 p pg is before behind = rw (load_page-some m p pg is, before) behind

before_run :
    (head : ℕ) (m : Memory) (prev : ℕ) (before pg : Page)
    → m.page prev ≡ some before
    → prev ≢ null
    → pg.prev ≡ prev
    → unlink_before head pg m
      ≡ some
          (head, record m { page = update m.page prev (some (record before { next = pg.next })) })
unfolding unlink_before load_page store_page
before_run head m prev before pg at ne back = rw (back, ne→== prev null ne, at, at) refl

first_run :
    (head : ℕ) (m : Memory) (pg : Page)
    → pg.prev ≡ null
    → unlink_before head pg m ≡ some (pg.next, m)
unfolding unlink_before
first_run head m pg back = rw (eq→== pg.prev null back) refl

-- What `DOUBLE_UNLINK` of `p` does behind `prev`, whatever the head is.
abbrev Takes : ℕ → ℕ → Memory → ℕ → Page → List ℕ → Type 0
Takes head p m prev before ps =
    (m' : Memory) × (double_unlink head p m ≡ some (head, m')) × Taken m m' p prev before ps

-- `p` is the page behind `prev`.
take_here :
    (head : ℕ) (m : Memory) (p prev : ℕ) (before pg : Page) (qs : List ℕ)
    → m.page prev ≡ some before
    → prev ≢ null
    → m.page p ≡ some pg
    → pg.prev ≡ prev
    → Linked m.page p pg.next qs
    → Distinct (prev ∷ p ∷ qs)
    → Takes head p m prev before (p ∷ qs)
take_here head m p prev before pg qs at ne is back list d =
    let (apart, out) = mem_apart prev p qs d.0 in
    let before' : Page = record before { next = pg.next } in
    let m1 : Memory = record m { page = update m.page prev (some before') } in
    let still : m1.page p ≡ some pg = rw (ne→== prev p apart) is in
    let (m2, ran, linked, only) =
      tail_steps head m1 p pg qs still (Linked-update prev (some before') list out) d.1 in
    let kept : m2.page prev ≡ some before' =
      only.outside prev d.0 ∙ rw (eq→== prev prev refl) refl in
    (
      m2,
      unlink_run head head m m1 m2 p pg is (before_run head m prev before pg at ne back) ran,
      record {
        next' = pg.next;
        link = kept;
        list = rw (eq→== p p refl) (subst (λ t. Linked m2.page t pg.next qs) back linked);
        only =
            OnlyLinks-trans
              (OnlyLinks-update m prev (p ∷ qs) before before' at
                (record { header = refl; chain = refl }))
              (OnlyLinks-cons prev only);
      },
    )

-- `p` stands behind the page `x`, which `prev` leads to.
take_behind :
    (head : ℕ) (m : Memory) (p prev x : ℕ) (before pg : Page) (qs : List ℕ)
    → m.page prev ≡ some before
    → before.next ≡ x
    → x ≢ null
    → x ≢ p
    → pg.prev ≡ prev
    → Distinct (prev ∷ x ∷ qs)
    → Takes head p m x pg qs
    → Takes head p m prev before (x ∷ qs)
take_behind head m p prev x before pg qs at leads ne other back d (m', ran, t) = (
  m',
  ran,
  record {
    next' = x;
    link = t.only.outside prev d.0 ∙ at ∙ ap (λ n. some (record before { next = n })) leads;
    list = rw (ne→== x p other) (cons (record pg { next = t.next' }) refl ne t.link back t.list);
    only = OnlyLinks-cons prev t.only;
  },
)

mem_behind : (p x : ℕ) (ps : List ℕ) → x ≢ p → mem p (x ∷ ps) ≡ true → mem p ps ≡ true
mem_behind p x ps ne h = ground arith

take_out :
    (head : ℕ) (m : Memory) (p prev : ℕ) (before : Page) {ps : List ℕ}
    → m.page prev ≡ some before
    → prev ≢ null
    → Linked m.page prev before.next ps
    → Distinct (prev ∷ ps)
    → mem p ps ≡ true
    → Takes head p m prev before ps
take_out head m p prev before at prev_ne (nil e) d here = cc
take_out head m p prev before at prev_ne (cons {p = x} {ps} pg e ne is back rest) d here =
    elim (Bool-cases (x == p)) [
      | inl same ↦
          let eq = sym (==→eq x p same) in
          subst (λ y. Takes head p m prev before (y ∷ ps)) eq
            (take_here head m p prev before pg ps at prev_ne (ap m.page eq ∙ is) back
              (subst (λ y. Linked m.page y pg.next ps) (sym eq) rest)
              (subst (λ y. Distinct (prev ∷ y ∷ ps)) (sym eq) d))
      | inr other ↦
          take_behind head m p prev x before pg ps at e ne (==→ne x p other) back d
            (take_out head m p x pg is ne rest d.1 (mem_behind p x ps (==→ne x p other) here))
    ]

-- What `DOUBLE_UNLINK` does to a list.
abbrev Unlinks : Memory → ℕ → ℕ → List ℕ → Type 0
Unlinks m head p ps =
    (head' : ℕ) × (m' : Memory) × (double_unlink head p m ≡ some (head', m'))
    × Linked m'.page null head' (without p ps)
    × OnlyLinks ps m m'

unlink_first :
    (m : Memory) (head p : ℕ) (pg : Page) (ps : List ℕ)
    → m.page p ≡ some pg
    → pg.prev ≡ null
    → Linked m.page p pg.next ps
    → Distinct (p ∷ ps)
    → Unlinks m head p (p ∷ ps)
unlink_first m head p pg ps is back list d =
    let (m1, ran, linked, only) = tail_steps pg.next m p pg ps is list d in
    (
      pg.next,
      m1,
      unlink_run head pg.next m m m1 p pg is (first_run head m pg back) ran,
      rw (eq→== p p refl) (subst (λ t. Linked m1.page t pg.next ps) back linked),
      only,
    )

-- Given a page of a list, `DOUBLE_UNLINK` takes it out, wherever it stands: the pages before and
-- behind it are linked, no page has changed but in its links, and none outside the list.
pub double_unlink-Linked :
    (m : Memory) (head p : ℕ) (ps : List ℕ)
    → Linked m.page null head ps
    → Distinct ps
    → mem p ps ≡ true
    → Unlinks m head p ps
double_unlink-Linked m head p ps (nil e) d here = cc
double_unlink-Linked m head p ps (cons {p = x} {ps = qs} pg e ne is back rest) d here =
    elim (Bool-cases (x == p)) [
      | inl same ↦
          let eq = sym (==→eq x p same) in
          subst (λ y. Unlinks m head p (y ∷ qs)) eq
            (unlink_first m head p pg qs (ap m.page eq ∙ is) back
              (subst (λ y. Linked m.page y pg.next qs) (sym eq) rest)
              (subst (λ y. Distinct (y ∷ qs)) (sym eq) d))
      | inr other ↦
          let (m', ran, t) =
            take_out head m p x pg is ne rest d (mem_behind p x qs (==→ne x p other) here) in
          (
            head,
            m',
            ran,
            rw (ne→== x p (==→ne x p other))
                (cons (record pg { next = t.next' }) e ne t.link back t.list),
            t.only,
          )
    ]
