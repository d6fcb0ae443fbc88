-- ===== src/Links.antt =====
-- The macros `DOUBLE_LINK`, `DOUBLE_UNLINK` and `DOUBLE_SHIFT` of src/gjalloc.h on the pages
-- that `next` and `prev` link. Each takes the head of the list and returns the new one.
pub mod Linked
pub mod Unlinked
use gjalloc.Base.{ℕ, ◌==◌, if◌then◌else◌}
use gjalloc.Memory.{Page, null, M, pure, ◌>>=◌, ◌>>◌, load_page, store_page}

-- `p->prev = q`, and nothing if `p` is NULL.
unfoldable pub set_prev_of : ℕ → ℕ → M (Unit {0})
set_prev_of p q =
    if p == null then pure tt else do pg ← load_page p; store_page p (record pg { prev = q })

unfoldable pub double_link : ℕ → ℕ → M ℕ
double_link head o = do
  pg ← load_page o
  store_page o (record pg { prev = null; next = head })
  set_prev_of head o
  pure o

-- `if (o->prev) o->prev->next = o->next; else head = o->next;`
unfoldable pub unlink_before : ℕ → Page → M ℕ
unlink_before head pg = if pg.prev == null then pure pg.next else do
  before ← load_page pg.prev
  store_page pg.prev (record before { next = pg.next })
  pure head

unfoldable pub double_unlink : ℕ → ℕ → M ℕ
double_unlink head o = do
  pg ← load_page o
  head' ← unlink_before head pg
  pg' ← load_page o
  set_prev_of pg'.next pg'.prev
  pg'' ← load_page o
  store_page o (record pg'' { next = null; prev = null })
  pure head'

unfoldable pub double_shift : ℕ → M ℕ
double_shift head = do
  pg ← load_page head
  store_page head (record pg { prev = null })
  set_prev_of pg.next null
  pure pg.next
