-- ===== src/Htable/Resize/Link.antt =====
-- The pointer `*b` of `ba_htable_grow` in src/gjalloc.c: the head of a bucket, or the `hchain` of a page.
use mathlib.Core.Path.{subst}
use gjalloc.Base.{
  ℕ, ◌≡◌, ◌≢◌, refl, sym, ap, ◌∙◌, inl, inr, ◌⊎◌, Option, some, List, ◌∷◌, length, eq→==, ne→==,
  get_elem?, set, get_elem?-set_self, get_elem?-set_ne, lt-length_of_get_elem?, length-set,
}
use gjalloc.Memory.{Page, Memory, null, update, load_page}
use gjalloc.Htable.{read_bucket}
use gjalloc.Htable.Chain.{Chain, cons}
use gjalloc.Htable.Unlink.{set_hchain-runs}
use gjalloc.Htable.Resize.{read_link, write_link}

-- What `*b` is, for the head of the bucket `n` (0) or the page `b`.
pub data Link (t : List ℕ) (page : ℕ → Option Page) (n : ℕ) : ℕ → ℕ → Type 0 where
  head : {b q : ℕ} → b ≡ null → get_elem? t n ≡ some q → Link t page n b q
  behind : {b q : ℕ} (pg : Page) → b ≢ null → page b ≡ some pg → pg.hchain ≡ q → Link t page n b q

pub read_link-runs :
    (t : List ℕ) (m : Memory) (n b q : ℕ) → Link t m.page n b q → read_link t n b m ≡ some (q, m)
unfolding read_link read_bucket load_page
read_link-runs t m n b q (head e at) = rw (eq→== b null e, at) refl
read_link-runs t m n b q (behind pg ne is e) = rw (ne→== b null ne, is) (ap (λ z. some (z, m)) e)

-- `*b` has been written: no other head and no other page has changed.
pub record Written (t t' : List ℕ) (m m' : Memory) (n b q : ℕ) : Type 0 where
  pub link : Link t' m'.page n b q
  pub heads : (k : ℕ) → (k ≢ n) ⊎ (b ≢ null) → get_elem? t' k ≡ get_elem? t k
  pub size : length t' ≡ length t
  pub pages : (r : ℕ) → r ≢ b → m'.page r ≡ m.page r
  pub words : m'.word ≡ m.word

other_head : (k n b : ℕ) → b ≡ null → (k ≢ n) ⊎ (b ≢ null) → k ≢ n
other_head k n b e (inl ne) = ne
other_head k n b e (inr ne) = absurd (ne e)

pub write_link-Written :
    (t : List ℕ) (m : Memory) (n b p q : ℕ)
    → Link t m.page n b p
    → (t' : List ℕ) × (m' : Memory) × (write_link t n b q m ≡ some (t', m'))
      × Written t t' m m' n b q
unfolding write_link
write_link-Written t m n b p q (head e at) = (
  set t n q,
  m,
  rw (eq→== b null e) refl,
  record {
    link = head e (get_elem?-set_self t n q (lt-length_of_get_elem? t n at));
    heads = λ k apart. get_elem?-set_ne t n k q (λ z. other_head k n b e apart (sym z));
    size = length-set t n q;
    pages = λ r ne. refl;
    words = refl;
  },
)
write_link-Written t m n b p q (behind pg ne is e) = (
  t,
  record m { page = update m.page b (some (record pg { hchain = q })) },
  rw (ne→== b null ne, set_hchain-runs b q m pg is) refl,
  record {
    link = behind (record pg { hchain = q }) ne (rw (eq→== b b refl) refl) refl;
    heads = λ k apart. refl;
    size = refl;
    pages = λ r r_ne. rw (ne→== b r (λ z. r_ne (sym z))) refl;
    words = refl;
  },
)

-- A page is a link, and its chain goes on with it.
pub Chain-of-Link :
    {t : List ℕ} {page : ℕ → Option Page} {n x q : ℕ} {ps : List ℕ}
    → Link t page n x q
    → x ≢ null
    → Chain page q ps
    → Chain page x (x ∷ ps)
Chain-of-Link (head e at) ne c = absurd (ne e)
Chain-of-Link {page} {ps} (behind pg n is e) ne c =
    cons pg refl ne is (subst (λ z. Chain page z ps) (sym e) c)

-- A link that the loop leaves.
pub Link-kept :
    {t t' : List ℕ} {page page' : ℕ → Option Page} {n b q : ℕ}
    → Link t page n b q
    → (b ≡ null → get_elem? t' n ≡ get_elem? t n)
    → page' b ≡ page b
    → Link t' page' n b q
Link-kept (head e at) heads pages = head e (heads e ∙ at)
Link-kept (behind pg ne is e) heads pages = behind pg ne (pages ∙ is) e
