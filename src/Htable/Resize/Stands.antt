-- ===== src/Htable/Resize/Stands.antt =====
-- Where the inner loop of `ba_htable_grow` in src/gjalloc.c stands, and what it leaves.
use gjalloc.Base.{
  ℕ, ◌≡◌, ◌≢◌, refl, sym, ◌∙◌, true, false, inl, ◌⊎◌, some, List, ◌∷◌, length, ◌==◌, eq→==, ne→==,
  get_elem?, set, get_elem?-set_self, get_elem?-set_ne, lt-length_of_get_elem?,
}
use gjalloc.Memory.{Page, Memory, null, update}
use gjalloc.Page.FreeList.{mem, Distinct}
use gjalloc.Page.Frame.{mem_head, mem_tail, mem_ne}
use gjalloc.Allocator.{Allocator}
use gjalloc.Htable.{bucket_of}
use gjalloc.Htable.Chain.{Chain, cons, Chain-update, Chain-frame}
use gjalloc.Htable.Unlink.{mem-cons_false}
use gjalloc.Htable.Resize.{grow_chain}
use gjalloc.Htable.Resize.Split.{staying, going}
use gjalloc.Htable.Resize.Link.{Link, behind, Written, Link-kept}

-- The bucket `n` has been split from `*b` on: `ps` were behind it, and `ms` in the bucket `other`.
pub record Grown (a : Allocator) (n other b : ℕ) (t t' : List ℕ) (m m' : Memory) (ps ms : List ℕ)
    : Type 0 where
  pub first : ℕ
  pub link : Link t' m'.page n b first
  pub stay : Chain m'.page first (staying (λ p. bucket_of a p == n) ps)
  pub top : ℕ
  pub other_at : get_elem? t' other ≡ some top
  pub gone : Chain m'.page top (going (λ p. bucket_of a p == n) ps ms)
  pub heads : (k : ℕ) → (k ≢ n) ⊎ (b ≢ null) → k ≢ other → get_elem? t' k ≡ get_elem? t k
  pub size : length t' ≡ length t
  pub pages : (r : ℕ) → r ≢ b → mem r ps ≡ false → m'.page r ≡ m.page r
  pub words : m'.word ≡ m.word

-- Where the loop stands before it looks at `ps`.
pub record Stands (a : Allocator) (n other b : ℕ) (t : List ℕ) (m : Memory) (q g : ℕ)
    (ps ms : List ℕ) : Type 0 where
  pub link : Link t m.page n b q
  pub chain : Chain m.page q ps
  pub other_at : get_elem? t other ≡ some g
  pub moved : Chain m.page g ms
  pub apart : n ≢ other
  pub homes : (p : ℕ) → mem p ps ≡ true → (bucket_of a p ≡ n) ⊎ (bucket_of a p ≡ other)
  pub distinct : Distinct ps
  pub disjoint : (p : ℕ) → mem p ps ≡ true → mem p ms ≡ false
  pub behind_out : mem b ps ≡ false
  pub moved_out : mem b ms ≡ false

abbrev pub Grows : ℕ → Allocator → ℕ → ℕ → ℕ → List ℕ → Memory → List ℕ → List ℕ → Type 0
Grows fuel a n other b t m ps ms =
    (t' : List ℕ) × (m' : Memory) × (grow_chain a n fuel t b m ≡ some (t', m'))
    × Grown a n other b t t' m m' ps ms

outside_cons : (r x : ℕ) (ps : List ℕ) → r ≢ x → mem r ps ≡ false → mem r (x ∷ ps) ≡ false
outside_cons r x ps ne out = rw (ne→== r x ne) out

-- The loop stands behind `*b` again, with `x` moved.
pub Stands-go :
    (a : Allocator) (n other b : ℕ) (t t1 : List ℕ) (m m1 : Memory) (q g x : ℕ) (pg : Page)
    (ps ms : List ℕ)
    → Stands a n other b t m q g (x ∷ ps) ms
    → Written t t1 m m1 n b pg.hchain
    → x ≢ null
    → m.page x ≡ some pg
    → Chain m.page pg.hchain ps
    → Stands a n other b
        (set t1 other x)
        (record m1 { page = update m1.page x (some (record pg { hchain = g })) })
        pg.hchain
        x
        ps
        (x ∷ ms)
Stands-go a n other b t t1 m m1 q g x pg ps ms s w ne is rest =
    let (b_ne, b_out) = mem-cons_false b x ps s.behind_out in
    let x_out = s.disjoint x (mem_head x ps) in
    let at : get_elem? t1 other ≡ some g =
      w.heads other (inl (λ z. s.apart (sym z))) ∙ s.other_at in
    record {
      link =
          Link-kept w.link (λ z. get_elem?-set_ne t1 other n x (λ e. s.apart (sym e)))
            (rw (ne→== x b (λ e. b_ne (sym e))) refl);
      chain =
          Chain-update x _
            (Chain-frame rest (λ p h. w.pages p (λ e. mem_ne b p ps b_out h (sym e)))) s.distinct.0;
      other_at = get_elem?-set_self t1 other x (lt-length_of_get_elem? t1 other at);
      moved =
          cons (record pg { hchain = g }) refl ne (rw (eq→== x x refl) refl)
            (Chain-update x _
              (Chain-frame s.moved (λ p h. w.pages p (λ e. mem_ne b p ms s.moved_out h (sym e))))
              x_out);
      apart = s.apart;
      homes = λ p h. s.homes p (mem_tail p x ps h);
      distinct = s.distinct.1;
      disjoint = λ p h.
          outside_cons p x ms (λ e. mem_ne x p ps s.distinct.0 h (sym e))
            (s.disjoint p (mem_tail p x ps h));
      behind_out = b_out;
      moved_out = outside_cons b x ms b_ne s.moved_out;
    }

-- The loop stands behind the page `x`, which has stayed.
pub Stands-stay :
    (a : Allocator) (n other b : ℕ) (t : List ℕ) (m : Memory) (q g x : ℕ) (pg : Page)
    (ps ms : List ℕ)
    → Stands a n other b t m q g (x ∷ ps) ms
    → x ≢ null
    → m.page x ≡ some pg
    → Chain m.page pg.hchain ps
    → Stands a n other x t m pg.hchain g ps ms
Stands-stay a n other b t m q g x pg ps ms s ne is rest = record {
  link = behind pg ne is refl;
  chain = rest;
  other_at = s.other_at;
  moved = s.moved;
  apart = s.apart;
  homes = λ p h. s.homes p (mem_tail p x ps h);
  distinct = s.distinct.1;
  disjoint = λ p h. s.disjoint p (mem_tail p x ps h);
  behind_out = s.distinct.0;
  moved_out = s.disjoint x (mem_head x ps);
}
