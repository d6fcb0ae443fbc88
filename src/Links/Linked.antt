-- ===== src/Links/Linked.antt =====
-- Doubly linked lists of pages, and that `DOUBLE_LINK` and `DOUBLE_SHIFT` of src/gjalloc.h
-- keep them.
use gjalloc.Base.{
  ℕ, ◌≡◌, ◌≢◌, refl, sym, ap, ◌∙◌, false, Option, some, List, [], ◌∷◌, ◌==◌, eq→==, ne→==, inl, inr,
  Bool-cases, ==→eq, arith,
}
use mathlib.Core.Option.{some-injective}
use gjalloc.Memory.{Page, Memory, null, update, load_page, store_page}
use gjalloc.Page.FreeList.{mem, Distinct}
use gjalloc.Links.{set_prev_of, double_link, double_shift}

-- From `head` the pages `ps` are linked by `next`, each with the one before it, and first
-- `prev`, as its `prev`.
pub data Linked (page : ℕ → Option Page) : ℕ → ℕ → List ℕ → Type 0 where
  nil : {prev head : ℕ} → head ≡ null → Linked page prev head []
  cons :
      {prev head : ℕ} {p : ℕ} {ps : List ℕ} (pg : Page)
      → head ≡ p
      → p ≢ null
      → page p ≡ some pg
      → pg.prev ≡ prev
      → Linked page p pg.next ps
      → Linked page prev head (p ∷ ps)

-- The pages `p` and `q` hold the same but for their links.
pub record SameBlocks (p q : Page) : Type 0 where
  pub header : p.h ≡ q.h
  pub chain : p.hchain ≡ q.hchain

-- No page but those of the list `ps` has changed, and these at most in their links.
pub record OnlyLinks (ps : List ℕ) (m m' : Memory) : Type 0 where
  pub words : m'.word ≡ m.word
  pub outside : (r : ℕ) → mem r ps ≡ false → m'.page r ≡ m.page r
  pub inside :
      (r : ℕ) (pg : Page)
      → m.page r ≡ some pg
      → (pg' : Page) × (m'.page r ≡ some pg') × SameBlocks pg' pg

pub mem_apart : (r p : ℕ) (ps : List ℕ) → mem r (p ∷ ps) ≡ false → (r ≢ p) × (mem r ps ≡ false)
mem_apart r p ps out = ground arith

OnlyLinks-refl : (ps : List ℕ) (m : Memory) → OnlyLinks ps m m
OnlyLinks-refl ps m = record {
  words = refl;
  outside = λ r out. refl;
  inside = λ r pg is. (pg, is, record { header = refl; chain = refl });
}

pub OnlyLinks-trans :
    {ps : List ℕ} {m m' m'' : Memory} → OnlyLinks ps m m' → OnlyLinks ps m' m'' → OnlyLinks ps m m''
OnlyLinks-trans s t = record {
  words = t.words ∙ s.words;
  outside = λ r out. t.outside r out ∙ s.outside r out;
  inside = λ r pg is.
      let (pg', is', same') = s.inside r pg is in
      let (pg'', is'', same'') = t.inside r pg' is' in
      (
        pg'',
        is'',
        record { header = same''.header ∙ same'.header; chain = same''.chain ∙ same'.chain },
      );
}

pub OnlyLinks-cons :
    {ps : List ℕ} {m m' : Memory} (o : ℕ) → OnlyLinks ps m m' → OnlyLinks (o ∷ ps) m m'
OnlyLinks-cons {ps} o s = record {
  words = s.words;
  outside = λ r out. s.outside r ((mem_apart r o ps out).1);
  inside = s.inside;
}

-- A page stored with new links.
pub OnlyLinks-update :
    (m : Memory) (p : ℕ) (ps : List ℕ) (pg pg' : Page)
    → m.page p ≡ some pg
    → SameBlocks pg' pg
    → OnlyLinks (p ∷ ps) m (record m { page = update m.page p (some pg') })
OnlyLinks-update m p ps pg pg' is same = record {
  words = refl;
  outside = λ r out. rw (ne→== p r (λ e. (mem_apart r p ps out).0 (sym e))) refl;
  inside = λ r at_r r_is. elim (Bool-cases (p == r)) [
    | inl here ↦
        let e : pg ≡ at_r = some-injective pg at_r (sym is ∙ ap m.page (==→eq p r here) ∙ r_is) in
        (
          pg',
          rw here refl,
          record {
            header = same.header ∙ ap (λ t. t.h) e;
            chain = same.chain ∙ ap (λ t. t.hchain) e;
          },
        )
    | inr other ↦ (at_r, rw other r_is, record { header = refl; chain = refl })
  ];
}

pub Linked-update :
    {page : ℕ → Option Page} {prev head : ℕ} {ps : List ℕ} (r : ℕ) (v : Option Page)
    → Linked page prev head ps
    → mem r ps ≡ false
    → Linked (update page r v) prev head ps
Linked-update r v (nil e) out = nil e
Linked-update r v (cons {p} {ps} pg e ne is back rest) out =
    let (apart, behind) = mem_apart r p ps out in
    cons pg e ne (rw (ne→== r p apart) is) back (Linked-update r v rest behind)

-- `set_prev_of` on the head of a list.
pub set_prev_of_lem :
    (m : Memory) {prev head : ℕ} {ps : List ℕ} (q : ℕ)
    → Linked m.page prev head ps
    → Distinct ps
    → (m' : Memory) × (set_prev_of head q m ≡ some (tt, m'))
      × Linked m'.page q head ps
      × OnlyLinks ps m m'
unfolding set_prev_of load_page store_page
set_prev_of_lem m q (nil e) d = (m, rw e refl, nil e, OnlyLinks-refl [] m)
set_prev_of_lem m q (cons {p} {ps} pg e ne is back rest) d =
    let pg' : Page = record pg { prev = q } in
    (
      record m { page = update m.page p (some pg') },
      rw (e, ne→== p null ne, is) (rw is refl),
      cons pg' e ne (rw (eq→== p p refl) refl) refl (Linked-update p (some pg') rest (d.0)),
      OnlyLinks-update m p ps pg pg' is (record { header = refl; chain = refl }),
    )

-- Given a page that is not in the list, `DOUBLE_LINK` puts it in front; no page has changed but
-- in its links, and none outside the list but the new one.
pub double_link-Linked :
    (m : Memory) (head o : ℕ) (pg : Page) (ps : List ℕ)
    → Linked m.page null head ps
    → Distinct ps
    → o ≢ null
    → m.page o ≡ some pg
    → mem o ps ≡ false
    → (m' : Memory) × (double_link head o m ≡ some (o, m'))
      × Linked m'.page null o (o ∷ ps)
      × OnlyLinks (o ∷ ps) m m'
unfolding double_link load_page store_page
double_link-Linked m head o pg ps list d ne is out =
    let pg' : Page = record pg { prev = null; next = head } in
    let m1 : Memory = record m { page = update m.page o (some pg') } in
    let (m2, runs, behind, only) = set_prev_of_lem m1 o (Linked-update o (some pg') list out) d in
    (
      m2,
      rw is (rw is (rw runs refl)),
      cons pg' refl ne (only.outside o out ∙ rw (eq→== o o refl) refl) refl behind,
      OnlyLinks-trans (OnlyLinks-update m o ps pg pg' is (record { header = refl; chain = refl }))
          (OnlyLinks-cons o only),
    )

-- `DOUBLE_SHIFT` takes the first page off a list; no page has changed but in its links.
pub double_shift-Linked :
    (m : Memory) (head p : ℕ) (ps : List ℕ)
    → Linked m.page null head (p ∷ ps)
    → Distinct (p ∷ ps)
    → (head' : ℕ) × (m' : Memory) × (double_shift head m ≡ some (head', m'))
      × Linked m'.page null head' ps
      × OnlyLinks (p ∷ ps) m m'
unfolding double_shift load_page store_page
double_shift-Linked m head p ps (cons pg e ne is back rest) d =
    let pg' : Page = record pg { prev = null } in
    let m1 : Memory = record m { page = update m.page p (some pg') } in
    let (m2, runs, behind, only) =
      set_prev_of_lem m1 null (Linked-update p (some pg') rest (d.0)) (d.1) in
    (
      pg.next,
      m2,
      rw (e, is) (rw is (rw runs refl)),
      behind,
      OnlyLinks-trans (OnlyLinks-update m p ps pg pg' is (record { header = refl; chain = refl }))
          (OnlyLinks-cons p only),
    )
