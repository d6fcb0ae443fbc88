-- ===== src/Doubling/Progress.antt =====
-- A doubling allocator of src/gjalloc.h hands out every block that it has.
use gjalloc.Base.{
  ℕ, ◌<◌, ◌≡◌, refl, true, some, List, [], ◌∷◌, map, length, arith, replicate, eq→==,
}
use gjalloc.Memory.{Header, Memory, null}
use gjalloc.Page.{block, ba_empty}
use gjalloc.Doubling.{Doubling}
use gjalloc.Doubling.Client.{serve, Serves, serve_one-take, first_of_nil}
use gjalloc.Spec.{get, times}

-- Given a page each of whose blocks is either free or held, as many calls of `ba_dalloc` as there
-- are free blocks end without a fault, after them the client holds each block of the page, once, and
-- the allocator says that it is empty.
pub serve-gets :
    (xs : List ℕ) (a : Doubling) (m : Memory) (ys : List ℕ)
    → Serves a m xs ys
    → (h' : Header) × (m' : Memory) × (held : List ℕ) × (serve
          (replicate (length xs) get)
          a
          (map (block a.l a.p) ys)
          m
        ≡ some ((record a { h = h' }, map (block a.l a.p) held), m'))
      × ((j : ℕ) → j < a.l.blocks → times j held ≡ 1)
      × (ba_empty h' ≡ true)
unfolding serve
serve-gets [] a m ys s = (
  a.h,
  m,
  ys,
  refl,
  λ j lt. ground (arith, s.once j),
  unfold ba_empty in eq→== a.h.first null (first_of_nil s.page.list),
)
serve-gets (i ∷ xs) a m ys s =
    let (h1, m1, ran, s1) = serve_one-take a m i xs ys s in
    let (h', m', held, rest, all, empty) = serve-gets xs (record a { h = h1 }) m1 (i ∷ ys) s1 in
    (h', m', held, rw ran rest, all, empty)
