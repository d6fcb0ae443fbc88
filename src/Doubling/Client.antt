-- ===== src/Doubling/Client.antt =====
-- A client of the doubling allocator of src/gjalloc.h: what `ba_dalloc` and `ba_dfree` do on any
-- sequence of requests is what the abstract pool does.
use gjalloc.Base.{
  ℕ, ◌+◌, ◌<◌, ◌≡◌, refl, Option, none, some, List, [], ◌∷◌, map, arith, if◌then◌else◌, get_elem?,
  ne→==, eq→==, ltb, Option-cases, inl, inr,
}
use gjalloc.Layout.{Layout}
use gjalloc.Memory.{Header, Memory, null, M, pure, ◌>>=◌}
use gjalloc.Page.{block, ba_empty}
use gjalloc.Page.FreeList.{FreeList, nil, run, IsPlaced, IsPage}
use gjalloc.Page.Shift.{ba_shift-IsPage}
use gjalloc.Page.Unshift.{ba_unshift-IsPage}
use gjalloc.Global.Blocks.Trip.{first-ne-null}
use gjalloc.Doubling.{Doubling, ba_dalloc, ba_dfree}
use gjalloc.Spec.{
  Request, get, give, pool_of, with_block, times, remove_at, Step, taken, refused, returned,
  missing, Steps, done, next, mem_of_times, times-remove_at, get_elem?-map, get_elem?-map-none,
  map-remove_at,
}

-- A request, for a client that holds the blocks at `held`. It asks `ba_empty` before it
-- allocates, as `ba_dalloc` does not.
unfoldable pub serve_one : Request → Doubling → List ℕ → M (Doubling × List ℕ)
serve_one get a held =
    if ba_empty a.h then pure (a, held) else do s ← ba_dalloc a; pure (s.0, s.1 ∷ held)
serve_one (give k) a held = elim (get_elem? held k) [
  | none ↦ pure (a, held)
  | some ptr ↦ do a' ← ba_dfree a ptr; pure (a', remove_at held k)
]

unfoldable pub serve : List Request → Doubling → List ℕ → M (Doubling × List ℕ)
serve [] a held = pure (a, held)
serve (r ∷ rs) a held = do s ← serve_one r a held; serve rs (s.0) (s.1)

-- The page of `a` has the free blocks `xs` and the client holds the blocks `ys`, each block of
-- the page being in one of the two, once.
pub record Serves (a : Doubling) (m : Memory) (xs ys : List ℕ) : Type 0 where
  pub placed : IsPlaced a.l a.p
  pub page : IsPage a.l a.p a.h m xs
  pub once : (j : ℕ) → times j xs + times j ys ≡ (if ltb j a.l.blocks then 1 else 0)

-- What one request does.
abbrev Served : Request → Doubling → Memory → List ℕ → List ℕ → Type 0
Served r a m xs ys =
    (h' : Header) × (m' : Memory) × (xs' ys' : List ℕ) × (serve_one r a (map (block a.l a.p) ys) m
      ≡ some ((record a { h = h' }, map (block a.l a.p) ys'), m'))
    × Serves (record a { h = h' }) m' xs' ys'
    × Step (pool_of xs) ys r (pool_of xs') ys'

pub first_of_nil :
    {l : Layout} {p : ℕ} {w : ℕ → Option ℕ} {first : ℕ} → FreeList l p 1 w first [] → first ≡ null
first_of_nil (nil e) = e
first_of_nil (run i n lt g e r x) = absurd (cc)

-- Of a page with a free block the first one is taken.
pub serve_one-take :
    (a : Doubling) (m : Memory) (i : ℕ) (xs ys : List ℕ)
    → Serves a m (i ∷ xs) ys
    → (h' : Header) × (m' : Memory) × (serve_one get a (map (block a.l a.p) ys) m
        ≡ some ((record a { h = h' }, map (block a.l a.p) (i ∷ ys)), m'))
      × Serves (record a { h = h' }) m' xs (i ∷ ys)
unfolding serve_one ba_empty ba_dalloc
serve_one-take a m i xs ys s =
    let (h', m', took, v, same, used) = ba_shift-IsPage s.placed a.h m s.page.there i xs s.page in
    (
      h',
      m',
      rw (ne→== a.h.first null (first-ne-null s.page.list), took) refl,
      record { placed = s.placed; page = v; once = λ j. omega (arith, s.once j) },
    )

serve-get : (a : Doubling) (m : Memory) (xs ys : List ℕ) → Serves a m xs ys → Served get a m xs ys
unfolding serve_one ba_empty with_block
serve-get a m [] ys s =
    let empty = first_of_nil s.page.list in
    (a.h, m, [], ys, rw (eq→== a.h.first null empty) refl, s, refused refl)
serve-get a m (i ∷ xs) ys s =
    let (h', m', ran, after) = serve_one-take a m i xs ys s in
    (h', m', xs, i ∷ ys, ran, after, taken i refl)

serve-give :
    (k : ℕ) (a : Doubling) (m : Memory) (xs ys : List ℕ)
    → Serves a m xs ys
    → Served (give k) a m xs ys
unfolding serve_one ba_dfree with_block
serve-give k a m xs ys s = elim (Option-cases (get_elem? ys k)) [
  | inl gone ↦ (
    a.h,
    m,
    xs,
    ys,
    rw (get_elem?-map-none (block a.l a.p) ys k gone, serve_one) refl,
    s,
    missing gone,
  )
  | inr (i, is) ↦
      let total = s.once i in
      let lost = times-remove_at i i k ys is in
      let out = mem_of_times i xs (ground arith) in
      let here : i < a.l.blocks = ground arith in
      let (h', m', put_back, v, same, used) =
        ba_unshift-IsPage s.placed a.h m i xs here out s.page in
      (
        h',
        m',
        i ∷ xs,
        remove_at ys k,
        rw (get_elem?-map (block a.l a.p) ys k i is, serve_one)
            (rw put_back (rw map-remove_at refl)),
        record {
          placed = s.placed;
          page = v;
          once = λ j. omega (arith, s.once j, times-remove_at j i k ys is);
        },
        returned i is,
      )
]

serve_one-Served :
    (r : Request) (a : Doubling) (m : Memory) (xs ys : List ℕ)
    → Serves a m xs ys
    → Served r a m xs ys
serve_one-Served get a m xs ys s = serve-get a m xs ys s
serve_one-Served (give k) a m xs ys s = serve-give k a m xs ys s

-- Given a page each of whose blocks is either free or held by the client, any sequence of requests
-- is served without a fault, each block is still either free or held, once, and the pool of
-- the specification can make the same steps, from the bag of the free blocks to that of those
-- that are free then.
pub serve-Refines :
    (rs : List Request) (a : Doubling) (m : Memory) (xs ys : List ℕ)
    → Serves a m xs ys
    → (h' : Header) × (m' : Memory) × (xs' ys' : List ℕ) × (serve rs a (map (block a.l a.p) ys) m
        ≡ some ((record a { h = h' }, map (block a.l a.p) ys'), m'))
      × Serves (record a { h = h' }) m' xs' ys'
      × Steps (pool_of xs) ys rs (pool_of xs') ys'
unfolding serve
serve-Refines [] a m xs ys s = (a.h, m, xs, ys, refl, s, done)
serve-Refines (r ∷ rs) a m xs ys s =
    let (h1, m1, xs1, ys1, ran, s1, step) = serve_one-Served r a m xs ys s in
    let (h2, m2, xs2, ys2, rest, s2, steps) =
      serve-Refines rs (record a { h = h1 }) m1 xs1 ys1 s1 in
    (h2, m2, xs2, ys2, rw ran rest, s2, next step steps)
