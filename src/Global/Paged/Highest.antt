-- ===== src/Global/Paged/Highest.antt =====
-- Which page the loop of `ba_remove_page` in src/gjalloc.c finds.
use mathlib.Core.Bool.{false≢true}
use gjalloc.Base.{
  ℕ, zero, suc, ◌≤◌, ◌≡◌, ◌≢◌, refl, sym, ap, ◌∙◌, true, Bool-cases, inl, inr, ◌⊎◌, Option, some,
  List, [], ◌∷◌, length, arith, ◌==◌, if◌then◌else◌, ==→eq, ==→ne, eq→==, ne→==, ltb, ltb→lt,
  ltb→le,
}
use gjalloc.Memory.{Page, Memory, null, load_page}
use gjalloc.Page.FreeList.{mem}
use gjalloc.Page.Frame.{mem_tail}
use gjalloc.Links.Linked.{Linked, nil, cons}
use gjalloc.Global.Update.{highest_page}

-- The one of two pages that `ba_remove_page` goes on with.
abbrev higher : ℕ → ℕ → ℕ
higher p t = if ltb p t then t else p

higher-bounds : (p t : ℕ) → (p ≤ higher p t) × (t ≤ higher p t)
higher-bounds p t = elim (Bool-cases (ltb p t)) [
  | inl below ↦ rw below (omega (arith, ltb→lt p t below), omega arith)
  | inr above ↦ rw above (omega arith, omega (arith, ltb→le p t above))
]

higher-cases : (p t : ℕ) → (higher p t ≡ p) ⊎ (higher p t ≡ t)
higher-cases p t = elim (Bool-cases (ltb p t)) [
  | inl below ↦ inr (rw below refl)
  | inr above ↦ inl (rw above refl)
]

highest_end :
    (fuel p t : ℕ) (m : Memory) (pg : Page)
    → m.page t ≡ some pg
    → pg.next ≡ null
    → highest_page (suc fuel) p t m ≡ some (higher p t, m)
unfolding highest_page load_page
highest_end fuel p t m pg is e = rw (is, eq→== pg.next null e) refl

highest_next :
    (fuel p t : ℕ) (m : Memory) (pg : Page)
    → m.page t ≡ some pg
    → pg.next ≢ null
    → highest_page (suc fuel) p t m ≡ highest_page fuel (higher p t) pg.next m
unfolding highest_page load_page
highest_next fuel p t m pg is ne = rw (is, ne→== pg.next null ne) refl

Linked-null :
    {page : ℕ → Option Page} {prev head : ℕ} {ps : List ℕ}
    → Linked page prev head ps
    → head ≡ null
    → ps ≡ []
Linked-null (nil e) is = refl
Linked-null (cons pg e ne at back rest) is = absurd (ne (sym e ∙ is))

pub Linked-first :
    {page : ℕ → Option Page} {prev head : ℕ} {ps : List ℕ}
    → Linked page prev head ps
    → head ≢ null
    → mem head ps ≡ true
Linked-first (nil e) ne = absurd (ne e)
Linked-first (cons {prev} {head} {p} {ps} pg e n is back rest) ne = rw (eq→== head p e) refl

-- The highest of `p` and the pages of the list.
pub record IsHighest (fuel p t : ℕ) (ps : List ℕ) (m : Memory) : Type 0 where
  pub top : ℕ
  pub runs : highest_page fuel p t m ≡ some (top, m)
  pub one_of : (top ≡ p) ⊎ (mem top ps ≡ true)
  pub start : p ≤ top
  pub above : (r : ℕ) → mem r ps ≡ true → r ≤ top

one_of_here : (p x q : ℕ) (qs : List ℕ) → q ≡ higher p x → (q ≡ p) ⊎ (mem q (x ∷ qs) ≡ true)
one_of_here p x q qs e = elim (higher-cases p x) [
  | inl same ↦ inl (e ∙ same)
  | inr new ↦ inr (rw (eq→== q x (e ∙ new)) refl)
]

pub walks_to_top :
    (m : Memory) (fuel p : ℕ) {prev t : ℕ} {ps : List ℕ}
    → Linked m.page prev t ps
    → t ≢ null
    → length ps ≤ fuel
    → IsHighest fuel p t ps m
walks_to_top m fuel p (nil e) ne enough = absurd (ne e)
walks_to_top m zero p (cons pg e n is back rest) ne enough = absurd (omega arith)
walks_to_top m (suc fuel) p {t} (cons {p = x} {ps = qs} pg e n is back rest) ne enough =
    let at : m.page t ≡ some pg = ap m.page e ∙ is in
    let (lo, hi) = higher-bounds p t in
    elim (Bool-cases (pg.next == null)) [
      | inl ends ↦
          let last = ==→eq pg.next null ends in
          record {
            top = higher p t;
            runs = highest_end fuel p t m pg at last;
            one_of = one_of_here p x (higher p t) qs (ap (higher p) e);
            start = lo;
            above = λ r h. elim (Bool-cases (r == x)) [
              | inl here ↦ omega (arith, ==→eq r x here, hi, e)
              | inr other ↦
                  absurd (false≢true (sym (ap (mem r) (Linked-null rest last)) ∙ (rw other at h)))
            ];
          }
      | inr more ↦
          let on = ==→ne pg.next null more in
          let s = walks_to_top m fuel (higher p t) rest on (omega arith) in
          record {
            top = s.top;
            runs = highest_next fuel p t m pg at on ∙ s.runs;
            one_of = elim s.one_of [
              | inl same ↦ one_of_here p x s.top qs (same ∙ ap (higher p) e)
              | inr here ↦ inr (mem_tail s.top x qs here)
            ];
            start = omega (arith, lo, s.start);
            above = λ r h. elim (Bool-cases (r == x)) [
              | inl here ↦ omega (arith, ==→eq r x here, hi, e, s.start)
              | inr other ↦ s.above r (rw other at h)
            ];
          }
    ]
