-- ===== src/Htable/Resize.antt =====
-- `ba_htable_grow` and `ba_htable_shrink` of src/gjalloc.c.
-- A chain is walked on fuel, `num_pages + 1` units: each page of it is passed once.
pub mod Mask
pub mod Split
pub mod Link
pub mod Stands
pub mod Move
pub mod Halfway
pub mod Append
pub mod Merge
pub mod Shrunk
pub mod Buckets
pub mod Table
use gjalloc.Base.{
  ℕ, zero, suc, ◌+◌, ◌*◌, ◌/◌, u32, ◌==◌, if◌then◌else◌, none, List, ◌++◌, set, replicate, take,
}
use gjalloc.Memory.{null, M, pure, ◌>>=◌, ◌>>◌, load_page}
use gjalloc.Allocator.{Allocator}
use gjalloc.Htable.{bucket_of, read_bucket, set_hchain}

-- `*b`, where `b` is the head of the bucket `n` (0) or the `hchain` of a page.
pub read_link : List ℕ → ℕ → ℕ → M ℕ
unfolding read_bucket
read_link t n b = if b == null then read_bucket t n else do pg ← load_page b; pure pg.hchain

-- `*b = q`
pub write_link : List ℕ → ℕ → ℕ → ℕ → M (List ℕ)
unfolding set_hchain
write_link t n b q = if b == null then pure (set t n q) else do set_hchain b q; pure t

-- The body of the inner loop, for the page `p`: the heads and the next `b`.
pub grow_step : Allocator → ℕ → ℕ → List ℕ → ℕ → M (List ℕ × ℕ)
unfolding read_link write_link read_bucket set_hchain
grow_step a n p t b = if bucket_of a p == n then pure (t, p) else do
  pg ← load_page p
  t' ← write_link t n b pg.hchain
  head ← read_bucket t' (bucket_of a p)
  set_hchain p head
  pure (set t' (bucket_of a p) p, b)

pub grow_chain : Allocator → ℕ → ℕ → List ℕ → ℕ → M (List ℕ)
unfolding grow_step
grow_chain a n zero t b = λ _. none
grow_chain a n (suc fuel) t b = do
  p ← read_link t n b
  if p == null then pure t else do s ← grow_step a n p t b; grow_chain a n fuel s.0 s.1

-- The buckets from `n` on, `count` of them.
pub grow_loop : Allocator → ℕ → ℕ → List ℕ → M (List ℕ)
unfolding grow_chain
grow_loop a zero n t = pure t
grow_loop a (suc count) n t = do
  t' ← grow_chain a n (a.num_pages + 1) t null
  grow_loop a count (suc n) t'

unfoldable pub ba_htable_grow : Allocator → M Allocator
unfolding grow_loop
ba_htable_grow a = do
  let old = a.allocated
  let a' = record a { allocated = u32 (2 * a.allocated) }
  t ← grow_loop a' old 0 (a.htable ++ replicate old null)
  pure (record a' { htable = t })

-- `while (t->hchain) t = t->hchain;`
pub chain_end : ℕ → ℕ → M ℕ
chain_end zero p = λ _. none
chain_end (suc fuel) p = do
  pg ← load_page p
  if pg.hchain == null then pure p else chain_end fuel pg.hchain

-- The chain of `p` goes in front of that of `head`.
pub append_chain : ℕ → ℕ → ℕ → M (Unit {0})
unfolding chain_end set_hchain
append_chain fuel p head =
    if head == null then pure tt else do last ← chain_end fuel p; set_hchain last head

pub shrink_step : Allocator → ℕ → List ℕ → M (List ℕ)
unfolding append_chain read_bucket
shrink_step a n t = do
  p ← read_bucket t (a.allocated + n)
  if p == null
      then pure t
      else do head ← read_bucket t n; append_chain (a.num_pages + 1) p head; pure (set t n p)

pub shrink_loop : Allocator → ℕ → ℕ → List ℕ → M (List ℕ)
unfolding shrink_step
shrink_loop a zero n t = pure t
shrink_loop a (suc count) n t = do t' ← shrink_step a n t; shrink_loop a count (suc n) t'

unfoldable pub ba_htable_shrink : Allocator → M Allocator
unfolding shrink_loop
ba_htable_shrink a = do
  let a' = record a { allocated = a.allocated / 2 }
  t ← shrink_loop a' a'.allocated 0 a.htable
  pure (record a' { htable = take a'.allocated t })
