-- ===== src/Htable/Chain.antt =====
-- A hash chain as the list of its pages, and the table as a list for each bucket.
use mathlib.Core.Bool.{false≢true}
use mathlib.Core.Option.{some-injective}
use mathlib.Core.Path.{subst}
use gjalloc.Base.{
  ℕ, ◌≤◌, ◌<◌, ◌^◌, ◌≡◌, ◌≢◌, refl, sym, ap, ◌∙◌, true, false, Option, some, List, [], ◌∷◌, length,
  arith, get_elem?, lt-length_of_get_elem?, replicate, get_elem?-replicate, eq→==, ne→==,
}
use gjalloc.Memory.{Page, Memory, null, update}
use gjalloc.Page.FreeList.{mem, Distinct}
use gjalloc.Allocator.{Allocator}
use gjalloc.Htable.{bucket_of}

-- From the page `q` the `hchain` pointers lead through the pages `ps` to NULL.
pub data Chain (page : ℕ → Option Page) : ℕ → List ℕ → Type 0 where
  nil : {q : ℕ} → q ≡ null → Chain page q []
  cons :
      {q x : ℕ} {ps : List ℕ} (pg : Page)
      → q ≡ x
      → q ≢ null
      → page q ≡ some pg
      → Chain page pg.hchain ps
      → Chain page q (x ∷ ps)

-- The chain depends on its own pages alone.
pub Chain-frame :
    {page page' : ℕ → Option Page} {q : ℕ} {ps : List ℕ}
    → Chain page q ps
    → ((p : ℕ) → mem p ps ≡ true → page' p ≡ page p)
    → Chain page' q ps
Chain-frame (nil e) same = nil e
Chain-frame (cons {q} {x} {ps} pg e ne is rest) same =
    cons pg e ne (same q (rw (eq→== q x e) refl) ∙ is)
      (Chain-frame rest (λ p h. same p (ground arith)))

-- A write to a page outside the chain leaves it.
pub Chain-update :
    {page : ℕ → Option Page} {q : ℕ} {ps : List ℕ} (p : ℕ) (v : Option Page)
    → Chain page q ps
    → mem p ps ≡ false
    → Chain (update page p v) q ps
Chain-update {page} {ps} p v c out = Chain-frame c (λ r h.
    let ne : p ≢ r = λ e. false≢true (sym out ∙ ap (λ t. mem t ps) e ∙ h) in rw (ne→== p r ne) refl)

-- The buckets hold the pages `t`, each page in the bucket that its hash names and once.
pub record IsTable (a : Allocator) (m : Memory) (t : ℕ → List ℕ) : Type 0 where
  pub chains :
      (n : ℕ) → n < a.allocated → (q : ℕ) × (get_elem? a.htable n ≡ some q) × Chain m.page q (t n)
  pub homes : (n p : ℕ) → mem p (t n) ≡ true → bucket_of a p ≡ n
  pub distinct : (n : ℕ) → Distinct (t n)
  pub few : (n : ℕ) → length (t n) ≤ a.num_pages
  pub some_buckets : 1 ≤ a.allocated
  pub word : a.allocated < 2 ^ 32

-- An array of NULLs is a table with no page.
pub IsTable-empty :
    (a : Allocator) (m : Memory)
    → a.htable ≡ replicate a.allocated null
    → 1 ≤ a.allocated
    → a.allocated < 2 ^ 32
    → IsTable a m (λ n. [])
IsTable-empty a m nulls some_buckets word = record {
  chains = λ i lt.
      (null, ap (λ t. get_elem? t i) nulls ∙ get_elem?-replicate a.allocated i null lt, nil refl);
  homes = λ i p h. cc;
  distinct = λ i. tt;
  few = λ i. omega arith;
  some_buckets = some_buckets;
  word = word;
}

-- Every head of an array of `allocated` heads leads through its bucket.
pub IsTable-heads :
    {a : Allocator} {m : Memory} {t : ℕ → List ℕ}
    → IsTable a m t
    → length a.htable ≡ a.allocated
    → (k q : ℕ) → get_elem? a.htable k ≡ some q
    → Chain m.page q (t k)
IsTable-heads {a} {m} {t} table size k q at =
    let (r, at', chain) =
      table.chains k (omega (arith, lt-length_of_get_elem? a.htable k at, size)) in
    subst (λ z. Chain m.page z (t k)) (some-injective r q (sym at' ∙ at)) chain

-- NULL is in no chain.
pub Chain-proper :
    {page : ℕ → Option Page} {q : ℕ} {ps : List ℕ} → Chain page q ps → mem 0 ps ≡ false
Chain-proper (nil e) = refl
Chain-proper (cons {q} {x} {ps} pg e ne is rest) =
    rw (ne→== 0 x (λ z. ne (e ∙ sym z))) (Chain-proper rest)

-- A head that leads through the pages of a list.
abbrev pub Leads : List ℕ → Memory → ℕ → List ℕ → Type 0
Leads t m k ps = (q : ℕ) × (get_elem? t k ≡ some q) × Chain m.page q ps

-- No page has gone, and none has another successor in its hash chain.
abbrev pub SameChains : Memory → Memory → Type 0
SameChains m m' =
    (r : ℕ) (pg : Page)
    → m.page r ≡ some pg
    → (pg' : Page) × (m'.page r ≡ some pg') × (pg'.hchain ≡ pg.hchain)

pub Chain-same :
    (m m' : Memory) {q : ℕ} {ps : List ℕ} → SameChains m m' → Chain m.page q ps → Chain m'.page q ps
Chain-same m m' same (nil e) = nil e
Chain-same m m' same (cons {q} {x} {ps} pg e ne is rest) =
    let (pg', is', h) = same q pg is in
    cons pg' e ne is' (subst (λ z. Chain m'.page z ps) (sym h) (Chain-same m m' same rest))

pub IsTable-same :
    {a : Allocator} {m m' : Memory} {t : ℕ → List ℕ}
    → SameChains m m'
    → IsTable a m t
    → IsTable a m' t
IsTable-same {a} {m} {m'} {t} same table = record {
  chains = λ n lt. let (q, at, chain) = table.chains n lt in (q, at, Chain-same m m' same chain);
  homes = table.homes;
  distinct = table.distinct;
  few = table.few;
  some_buckets = table.some_buckets;
  word = table.word;
}
