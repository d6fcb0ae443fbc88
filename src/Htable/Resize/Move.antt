-- ===== src/Htable/Resize/Move.antt =====
-- The inner loop of `ba_htable_grow` in src/gjalloc.c splits one bucket in place.
use mathlib.Core.Path.{subst}
use gjalloc.Base.{
  ℕ, zero, suc, ◌<◌, ◌≡◌, ◌≢◌, refl, sym, ap, ◌∙◌, inl, inr, some, List, [], ◌∷◌, length, arith,
  eq→==, ne→==, get_elem?, set, get_elem?-set_ne, length-set,
}
use gjalloc.Memory.{Page, Memory, null, update, load_page}
use gjalloc.Page.Frame.{mem_head}
use gjalloc.Allocator.{Allocator}
use gjalloc.Htable.{bucket_of, read_bucket}
use gjalloc.Htable.Chain.{Chain, nil, cons}
use gjalloc.Htable.Unlink.{set_hchain-runs, mem-cons_false}
use gjalloc.Htable.Resize.{write_link, grow_step, grow_chain}
use gjalloc.Htable.Resize.Stands.{Stands, Grows, Stands-go, Stands-stay}
use gjalloc.Htable.Resize.Link.{
  Link, Written, read_link-runs, write_link-Written, Chain-of-Link, Link-kept,
}

Grows-nil :
    (fuel : ℕ) (a : Allocator) (n other b : ℕ) (t : List ℕ) (m : Memory) (q g : ℕ) (ms : List ℕ)
    → Stands a n other b t m q g [] ms
    → q ≡ null
    → Grows (suc fuel) a n other b t m [] ms
unfolding grow_chain
Grows-nil fuel a n other b t m q g ms s e = (
  t,
  m,
  rw (read_link-runs t m n b q s.link, eq→== q null e) refl,
  record {
    first = q;
    link = s.link;
    stay = nil e;
    top = g;
    other_at = s.other_at;
    gone = s.moved;
    heads = λ k apart ne. refl;
    size = refl;
    pages = λ r ne out. refl;
    words = refl;
  },
)

chain_step :
    (fuel : ℕ) (a : Allocator) (n b q : ℕ) (t t1 : List ℕ) (b1 : ℕ) (m m1 : Memory)
    → Link t m.page n b q
    → q ≢ null
    → grow_step a n q t b m ≡ some ((t1, b1), m1)
    → grow_chain a n (suc fuel) t b m ≡ grow_chain a n fuel t1 b1 m1
unfolding grow_chain
chain_step fuel a n b q t t1 b1 m m1 link ne step =
    rw (read_link-runs t m n b q link, ne→== q null ne, step) refl

step_stay :
    (a : Allocator) (n b q : ℕ) (t : List ℕ) (m : Memory)
    → bucket_of a q ≡ n
    → grow_step a n q t b m ≡ some ((t, q), m)
unfolding grow_step
step_stay a n b q t m home = rw (eq→== (bucket_of a q) n home) refl

-- The page `x` stays: it is behind it that the loop goes on.
Grows-stay :
    (fuel : ℕ) (a : Allocator) (n other b : ℕ) (t : List ℕ) (m : Memory) (q g x : ℕ) (pg : Page)
    (ps ms : List ℕ)
    → Stands a n other b t m q g (x ∷ ps) ms
    → q ≡ x
    → x ≢ null
    → m.page x ≡ some pg
    → bucket_of a x ≡ n
    → Grows fuel a n other x t m ps ms
    → Grows (suc fuel) a n other b t m (x ∷ ps) ms
Grows-stay fuel a n other b t m q g x pg ps ms s e ne is home (t', m', ran, r) =
    let (b_ne, b_out) = mem-cons_false b x ps s.behind_out in
    let link : Link t m.page n b x = subst (Link t m.page n b) e s.link in
    (
      t',
      m',
      chain_step fuel a n b x t t x m m link ne (step_stay a n b x t m home) ∙ ran,
      record {
        first = x;
        link = Link-kept link (λ z. r.heads n (inr ne) s.apart) (r.pages b b_ne b_out);
        stay = rw (eq→== (bucket_of a x) n home) (Chain-of-Link r.link ne r.stay);
        top = r.top;
        other_at = r.other_at;
        gone = rw (eq→== (bucket_of a x) n home) r.gone;
        heads = λ k apart k_ne. r.heads k (inr ne) k_ne;
        size = r.size;
        pages = λ p p_ne out. r.pages p (mem-cons_false p x ps out).0 (mem-cons_false p x ps out).1;
        words = r.words;
      },
    )

step_go :
    (a : Allocator) (n other b q g : ℕ) (t t1 : List ℕ) (m m1 : Memory) (pg : Page)
    → bucket_of a q ≡ other
    → n ≢ other
    → m.page q ≡ some pg
    → write_link t n b pg.hchain m ≡ some (t1, m1)
    → get_elem? t1 other ≡ some g
    → m1.page q ≡ some pg
    → grow_step a n q t b m
      ≡ some (
        (set t1 other q, b),
        record m1 { page = update m1.page q (some (record pg { hchain = g })) },
      )
unfolding grow_step read_bucket load_page
step_go a n other b q g t t1 m m1 pg home apart is wrote at still =
    rw (home, ne→== other n (λ z. apart (sym z)), is, wrote, at, set_hchain-runs q g m1 pg still)
      refl

Grows-go :
    (fuel : ℕ) (a : Allocator) (n other b : ℕ) (t : List ℕ) (m : Memory) (q g x : ℕ) (pg : Page)
    (ps ms : List ℕ)
    → Stands a n other b t m q g (x ∷ ps) ms
    → q ≡ x
    → x ≢ null
    → m.page x ≡ some pg
    → bucket_of a x ≡ other
    → (t1 : List ℕ) (m1 : Memory) → write_link t n b pg.hchain m ≡ some (t1, m1)
    → Written t t1 m m1 n b pg.hchain
    → Grows fuel a n other b
        (set t1 other x)
        (record m1 { page = update m1.page x (some (record pg { hchain = g })) })
        ps
        (x ∷ ms)
    → Grows (suc fuel) a n other b t m (x ∷ ps) ms
Grows-go fuel a n other b t m q g x pg ps ms s e ne is home t1 m1 wrote w (t', m', ran, r) =
    let (b_ne, b_out) = mem-cons_false b x ps s.behind_out in
    let x_ne : x ≢ b = λ z. b_ne (sym z) in
    let at : get_elem? t1 other ≡ some g =
      w.heads other (inl (λ z. s.apart (sym z))) ∙ s.other_at in
    let leaves : bucket_of a x ≢ n = λ z. s.apart (sym z ∙ home) in
    let link : Link t m.page n b x = subst (Link t m.page n b) e s.link in
    (
      t',
      m',
      chain_step fuel a n b x t _ b m _ link ne
            (step_go a n other b x g t t1 m m1 pg home s.apart is wrote at (w.pages x x_ne ∙ is))
          ∙ ran,
      record {
        first = r.first;
        link = r.link;
        stay = rw (ne→== (bucket_of a x) n leaves) r.stay;
        top = r.top;
        other_at = r.other_at;
        gone = rw (ne→== (bucket_of a x) n leaves) r.gone;
        heads = λ k apart k_ne.
            r.heads k apart k_ne
            ∙ get_elem?-set_ne t1 other k x (λ z. k_ne (sym z))
            ∙ w.heads k apart;
        size = r.size ∙ length-set t1 other x ∙ w.size;
        pages = λ p p_ne out.
            let (p_x, p_out) = mem-cons_false p x ps out in
            r.pages p p_ne p_out ∙ rw (ne→== x p (λ z. p_x (sym z))) (w.pages p p_ne);
        words = r.words ∙ w.words;
      },
    )

pub bucket_splits :
    (fuel : ℕ) (a : Allocator) (n other b : ℕ) (t : List ℕ) (m : Memory) {q : ℕ} (g : ℕ)
    {ps : List ℕ} (ms : List ℕ)
    → Chain m.page q ps
    → Stands a n other b t m q g ps ms
    → length ps < fuel
    → Grows fuel a n other b t m ps ms
bucket_splits zero a n other b t m g ms c s enough = absurd (omega arith)
bucket_splits (suc fuel) a n other b t m {q} g ms (nil e) s enough =
    Grows-nil fuel a n other b t m q g ms s e
bucket_splits (suc fuel) a n other b t m {q} g ms (cons {x} {ps} pg e ne is rest) s enough =
    let x_ne : x ≢ null = λ z. ne (e ∙ z) in
    let at_x : m.page x ≡ some pg = ap m.page (sym e) ∙ is in
    elim (s.homes x (mem_head x ps)) [
      | inl home ↦ Grows-stay fuel a n other b t m q g x pg ps ms s e x_ne at_x home (
          bucket_splits fuel a n other x t m g ms rest
            (Stands-stay a n other b t m q g x pg ps ms s x_ne at_x rest) (omega arith))
      | inr home ↦
          let (t1, m1, wrote, w) = write_link-Written t m n b q pg.hchain s.link in
          let s' = Stands-go a n other b t t1 m m1 q g x pg ps ms s w x_ne at_x rest in
          Grows-go fuel a n other b t m q g x pg ps ms s e x_ne at_x home t1 m1 wrote w
            (bucket_splits fuel a n other b _ _ x (x ∷ ms) s'.chain s' (omega arith))
    ]
