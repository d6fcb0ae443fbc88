-- ===== src/Htable/Resize/Append.antt =====
-- `ba_htable_shrink` of src/gjalloc.c puts one hash chain in front of another.
use mathlib.Core.Path.{subst}
use gjalloc.Base.{
  ℕ, zero, suc, ◌≤◌, ◌≡◌, ◌≢◌, refl, sym, ap, ◌∙◌, true, false, Bool-cases, inl, inr, Option, some,
  List, [], ◌∷◌, ◌++◌, append_nil, length, arith, ◌==◌, ◌||◌, ==→eq, ==→ne, eq→==, ne→==,
}
use gjalloc.Memory.{Page, Memory, null, update, load_page}
use gjalloc.Page.FreeList.{mem, Distinct}
use gjalloc.Page.Frame.{mem_head, mem_tail, mem_ne}
use gjalloc.Htable.Chain.{Chain, nil, cons, Chain-update}
use gjalloc.Htable.Unlink.{set_hchain-runs}
use gjalloc.Htable.Resize.{chain_end, append_chain}

pub mem-append : (r : ℕ) (xs ys : List ℕ) → mem r (xs ++ ys) ≡ (mem r xs || mem r ys)
mem-append r [] ys = refl
mem-append r (x ∷ xs) ys = ground (arith, mem-append r xs ys)

pub Distinct-append :
    (xs ys : List ℕ)
    → Distinct xs
    → Distinct ys
    → ((r : ℕ) → mem r xs ≡ true → mem r ys ≡ false)
    → Distinct (xs ++ ys)
Distinct-append [] ys d e apart = e
Distinct-append (x ∷ xs) ys d e apart = (
  ground (arith, mem-append x xs ys, d.0, apart x (mem_head x xs)),
  Distinct-append xs ys d.1 e (λ r h. apart r (mem_tail r x xs h)),
)

pub Chain-null :
    {page : ℕ → Option Page} {q : ℕ} {ps : List ℕ} → Chain page q ps → q ≡ null → ps ≡ []
Chain-null (nil e) is = refl
Chain-null (cons pg e ne at rest) is = absurd (ne is)

module _ (page : ℕ → Option Page) (head : ℕ) (qs : List ℕ) (behind : Chain page head qs) where
  -- The last page of a chain, whose `hchain` is then made to lead on to `head`.
  record IsEnd (fuel p : ℕ) (ps : List ℕ) (m : Memory) : Type 0 where
    last : ℕ
    pg : Page
    runs : chain_end fuel p m ≡ some (last, m)
    at : page last ≡ some pg
    inside : mem last ps ≡ true
    joined : Chain (update page last (some (record pg { hchain = head }))) p (ps ++ qs)

  chain_end_here :
      (fuel p : ℕ) (m : Memory) (pg : Page)
      → m.page p ≡ some pg
      → pg.hchain ≡ null
      → chain_end (suc fuel) p m ≡ some (p, m)
  unfolding chain_end load_page
  chain_end_here fuel p m pg is e = rw (is, eq→== pg.hchain null e) refl

  chain_end_next :
      (fuel p : ℕ) (m : Memory) (pg : Page)
      → m.page p ≡ some pg
      → pg.hchain ≢ null
      → chain_end (suc fuel) p m ≡ chain_end fuel pg.hchain m
  unfolding chain_end load_page
  chain_end_next fuel p m pg is ne = rw (is, ne→== pg.hchain null ne) refl

  walks_to_last :
      (fuel : ℕ) (m : Memory) {p : ℕ} {ps : List ℕ}
      → m.page ≡ page
      → Chain page p ps
      → p ≢ null
      → length ps ≤ fuel
      → Distinct ps
      → ((r : ℕ) → mem r ps ≡ true → mem r qs ≡ false)
      → IsEnd fuel p ps m
  walks_to_last fuel m same (nil e) ne enough d apart = absurd (ne e)
  walks_to_last zero m same (cons pg e n is rest) ne enough d apart = absurd (omega arith)
  walks_to_last (suc fuel) m {p} same (cons {x} pg e n is (nil e')) ne enough d apart = record {
    last = p;
    pg = pg;
    runs = chain_end_here fuel p m pg (ap (λ f. f p) same ∙ is) e';
    at = is;
    inside = rw (eq→== p x e) refl;
    joined =
        cons (record pg { hchain = head }) e n (rw (eq→== p p refl) refl)
          (Chain-update p _ behind (apart p (rw (eq→== p x e) refl)));
  }
  walks_to_last (suc fuel) m {p} same (cons {x} {ps} pg e n is rest) ne enough d apart =
      elim (Bool-cases (pg.hchain == null)) [
        | inl ends ↦ let none_left = Chain-null rest (==→eq pg.hchain null ends) in absurd (cc)
        | inr more ↦
            let r =
              walks_to_last fuel m same rest (==→ne pg.hchain null more) (omega arith) d.1
                (λ r h. apart r (mem_tail r x ps h)) in
            record {
              last = r.last;
              pg = r.pg;
              runs =
                  chain_end_next fuel p m pg (ap (λ f. f p) same ∙ is) (==→ne pg.hchain null more)
                  ∙ r.runs;
              at = r.at;
              inside = mem_tail r.last x ps r.inside;
              joined =
                  cons pg e n
                    (rw (ne→== r.last p (λ z. mem_ne x r.last ps d.0 r.inside (sym (z ∙ e)))) is)
                    r.joined;
            }
      ]

-- The chain of `p` now goes on with that of `head`.
pub record Joined (fuel p head : ℕ) (ps qs : List ℕ) (m : Memory) : Type 0 where
  pub after : Memory
  pub runs : append_chain fuel p head m ≡ some (tt, after)
  pub joined : Chain after.page p (ps ++ qs)
  pub others : (r : ℕ) → mem r ps ≡ false → after.page r ≡ m.page r
  pub words : after.word ≡ m.word

append_chain-end :
    (fuel p head last : ℕ) (m : Memory) (pg : Page)
    → head ≢ null
    → chain_end fuel p m ≡ some (last, m)
    → m.page last ≡ some pg
    → append_chain fuel p head m
      ≡ some (tt, record m { page = update m.page last (some (record pg { hchain = head })) })
unfolding append_chain
append_chain-end fuel p head last m pg ne ran is =
    rw (ne→== head null ne, ran, set_hchain-runs last head m pg is) refl

append_chain-null :
    (fuel p head : ℕ) (m : Memory) → head ≡ null → append_chain fuel p head m ≡ some (tt, m)
unfolding append_chain
append_chain-null fuel p head m e = rw (eq→== head null e) refl

pub puts_behind :
    (fuel p head : ℕ) (ps qs : List ℕ) (m : Memory)
    → Chain m.page p ps
    → Chain m.page head qs
    → p ≢ null
    → length ps ≤ fuel
    → Distinct ps
    → ((r : ℕ) → mem r ps ≡ true → mem r qs ≡ false)
    → Joined fuel p head ps qs m
puts_behind fuel p head ps qs m front back ne enough d apart = elim (Bool-cases (head == null)) [
  | inl no_head ↦
      let e = ==→eq head null no_head in
      record {
        after = m;
        runs = append_chain-null fuel p head m e;
        joined =
            subst (Chain m.page p)
              (sym (append_nil ps) ∙ ap (λ z. ps ++ z) (sym (Chain-null back e))) front;
        others = λ r out. refl;
        words = refl;
      }
  | inr some_head ↦
      let r = walks_to_last m.page head qs back fuel m refl front ne enough d apart in
      record {
        after = record m { page = update m.page r.last (some (record r.pg { hchain = head })) };
        runs = append_chain-end fuel p head r.last m r.pg (==→ne head null some_head) r.runs r.at;
        joined = r.joined;
        others = λ q out. rw (ne→== r.last q (λ z. mem_ne q r.last ps out r.inside (sym z))) refl;
        words = refl;
      }
]
