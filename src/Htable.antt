-- ===== src/Htable.antt =====
-- The hash table of src/gjalloc.c that finds the page of a block: chains of pages, linked by
-- `hchain`, behind an array of `allocated` heads.
-- A walk along a chain takes fuel, one unit for each page and one for the end; a table of
-- `num_pages` pages is walked with `num_pages + 1` units. Without fuel the walk is a fault.
pub mod Chain
pub mod Hash
pub mod Lookup
pub mod Insert
pub mod Resize
pub mod Total
pub mod Unlink
pub mod Delete
pub mod Linear
use mathlib.Core.Option
use gjalloc.Base.{
  ℕ, zero, suc, ◌+◌, ◌-◌, ◌*◌, ◌/◌, ◌^◌, bit_and, bit_xor, u32, u64, sub32, sub64, leb, ltb, ◌==◌,
  if◌then◌else◌, Bool, not, Option, none, some, List, [], ◌∷◌, ◌++◌, get_elem?, set, replicate,
  take,
}
use gjalloc.Layout.{Layout}
use gjalloc.Memory.{Header, Page, Memory, null, M, pure, ◌>>=◌, ◌>>◌, load_page, store_page}
use gjalloc.Page.{last_block}
use gjalloc.Allocator.{Allocator}

-- `BA_CHECK_PTR`: the difference is one of `size_t`.
unfoldable pub ba_check_ptr : Layout → ℕ → ℕ → Bool
ba_check_ptr l p ptr = leb (sub64 ptr p) l.offset

-- `MIX`
abbrev mix_step : ℕ → ℕ → ℕ → ℕ
mix_step t a b = bit_xor t (bit_xor (t / 2 ^ a) (t / 2 ^ b))

unfoldable pub mix : ℕ → ℕ
mix t = mix_step (mix_step t 20 12) 7 4

unfoldable pub hash1 : Allocator → ℕ → ℕ
hash1 a ptr = u32 (mix (ptr / 2 ^ a.magnitude))

unfoldable pub hash2 : Allocator → ℕ → ℕ
hash2 a ptr = u32 (mix (u64 (ptr / 2 ^ a.magnitude + 1)))

-- `hval & BA_HASH_MASK(a)`
unfoldable pub masked_hash : Allocator → ℕ → ℕ
masked_hash a hval = bit_and hval (sub32 a.allocated 1)

-- The bucket of a page: that of its last block.
unfoldable pub bucket_of : Allocator → ℕ → ℕ
bucket_of a p = masked_hash a (hash1 a (last_block a.l p))

-- `a->htable[n]`
unfoldable pub read_bucket : List ℕ → ℕ → M ℕ
read_bucket t n m = Option.map (λ p. (p, m)) (get_elem? t n)

-- `p->hchain = q`
unfoldable pub set_hchain : ℕ → ℕ → M (Unit {0})
set_hchain p q = do pg ← load_page p; store_page p (record pg { hchain = q })

unfoldable pub ba_htable_insert : Allocator → ℕ → M (List ℕ)
unfolding read_bucket set_hchain
ba_htable_insert a p = do
  let n = bucket_of a p
  head ← read_bucket a.htable n
  set_hchain p head
  pure (set a.htable n p)

-- The loop of `ba_htable_delete` behind the page `prev`, whose `hchain` is `q`.
unfoldable pub delete_loop : ℕ → ℕ → ℕ → ℕ → M (Unit {0})
delete_loop p zero prev q = λ _. none
delete_loop p (suc fuel) prev q = if q == null then pure tt else do
  pg ← load_page q
  if q == p then (set_hchain prev pg.hchain >> set_hchain p 0) else delete_loop p fuel q pg.hchain

unfoldable pub ba_htable_delete : Allocator → ℕ → M (List ℕ)
unfolding read_bucket set_hchain delete_loop
ba_htable_delete a p = do
  let n = bucket_of a p
  head ← read_bucket a.htable n
  if head == null then pure a.htable else do
    pg ← load_page head
    if head == p
        then (do set_hchain p 0; pure (set a.htable n pg.hchain))
        else (do delete_loop p a.num_pages head pg.hchain; pure a.htable)

-- The inner loop of `ba_htable_lookup`; 0 if no page of the chain holds `ptr`.
chain_lookup : Layout → ℕ → ℕ → ℕ → M ℕ
chain_lookup l ptr zero p = λ _. none
chain_lookup l ptr (suc fuel) p =
    if p == null
    then pure 0
    else if ba_check_ptr l p ptr
    then pure p
    else do pg ← load_page p; chain_lookup l ptr fuel pg.hchain

-- `b` starts as 1, and one bucket is searched, if the two hashes are equal.
unfoldable pub ba_htable_lookup : Allocator → ℕ → M ℕ
unfolding read_bucket chain_lookup
ba_htable_lookup a ptr = do
  let search_bucket = λ (h : ℕ). (do
    head ← read_bucket a.htable (masked_hash a h)
    chain_lookup a.l ptr (a.num_pages + 1) head)
  if hash1 a ptr == hash2 a ptr then search_bucket (hash2 a ptr) else do
    p ← search_bucket (hash1 a ptr)
    if p == null then search_bucket (hash2 a ptr) else pure p
