-- ===== src/Global/Check.antt =====
-- `ba_check_allocator` of src/gjalloc.c, which the debug build runs, and the chain lengths of
-- `ba_print_hashstats`. What they print is left out, but for the numbers of the latter. A chain
-- is walked on fuel, `num_pages + 1` units.
pub mod Sound
use gjalloc.Base.{
  ℕ, zero, suc, ◌+◌, ltb, ◌==◌, if◌then◌else◌, Bool, not, ◌&&◌, ◌||◌, none, List, [], ◌∷◌, ◌<◌,
}
use gjalloc.Memory.{Page, null, M, pure, ◌>>=◌, ◌>>◌, load_page}
use gjalloc.Allocator.{Allocator}
use gjalloc.Htable.{bucket_of}
use gjalloc.Global.Update.{set_header}

-- Whether the page `p`, found in the bucket `n`, is bad: it is full and in a list, or its count of
-- used blocks is wrong, or it stands in the wrong bucket.
unfoldable pub is_bad_page : Allocator → ℕ → ℕ → Page → Bool
is_bad_page a n p pg =
    (not (p == a.alloc)
      && (pg.h.first == null
          && (not (pg.prev == null) || (not (pg.next == null) || not (pg.h.used == a.l.blocks)))))
    || not (bucket_of a p == n)

unfoldable pub check_chain : Allocator → ℕ → ℕ → ℕ → Bool → M Bool
check_chain a n zero p bad = λ _. none
check_chain a n (suc fuel) p bad =
    if p == null
    then pure bad
    else do pg ← load_page p; check_chain a n fuel pg.hchain (bad || is_bad_page a n p pg)

unfoldable pub check_table : Allocator → ℕ → List ℕ → Bool → M Bool
unfolding check_chain
check_table a n [] bad = pure bad
check_table a n (head ∷ t) bad = do
  bad' ← check_chain a n (a.num_pages + 1) head bad
  check_table a (suc n) t bad'

-- A bad allocator is an error, which does not return.
unfoldable pub ba_check_allocator : Allocator → M (Unit {0})
unfolding check_table
ba_check_allocator a = do
  (if a.alloc == null then pure tt else set_header a.alloc a.h)
  bad ← check_table a 0 a.htable (ltb a.num_pages a.empty_pages)
  if bad then (λ _. none) else pure tt

chain_length : ℕ → ℕ → ℕ → M ℕ
chain_length zero j p = λ _. none
chain_length (suc fuel) j p =
    if p == null then pure j else do pg ← load_page p; chain_length fuel (suc j) pg.hchain

-- The line of each bucket: its number and how many pages it has.
stats_table : ℕ → ℕ → List ℕ → M (List (ℕ × ℕ))
unfolding chain_length
stats_table fuel i [] = pure []
stats_table fuel i (head ∷ t) = do
  j ← chain_length fuel 0 head
  rest ← stats_table fuel (suc i) t
  pure ((i, j) ∷ rest)

unfoldable pub ba_print_hashstats : Allocator → M (List (ℕ × ℕ))
unfolding stats_table
ba_print_hashstats a = stats_table (a.num_pages + 1) 0 a.htable
