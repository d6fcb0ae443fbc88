-- ===== src/SmartPointer.antt =====
-- `SmartPointer` of src/smartpointer.hh: an object in a block of the allocator for its type, with a
-- count of the pointers to it in a cell of its own. The cell is a word of the memory, an `int` in
-- two's complement. `new int` and `delete` of the runtime and the constructor of the object are
-- parameters, as are the system's `malloc` and `free`.
pub mod Owners
pub mod Assign
use gjalloc.Base.{ℕ, ◌+◌, ◌-◌, ◌^◌, u32, sub32, ◌==◌, if◌then◌else◌}
use gjalloc.Memory.{null, M, pure, ◌>>=◌, ◌>>◌, load, store}
use gjalloc.Singleton.{Mv, allocate, deallocate}

pub record SmartPointer : Type 0 where
  pub t : ℕ
  pub refs : ℕ

-- `SmartPointer(T *tt)`: the cell starts with 1.
unfoldable pub from_pointer : (new_int : ℕ → M ℕ) → ℕ → M SmartPointer
from_pointer new_int tt' = do refs ← new_int 1; pure (record { t = tt'; refs = refs })

unfoldable pub init :
    (malloc : ℕ → M ℕ) (free : ℕ → M (Unit {0})) (construct : ℕ → M (Unit {0})) (new_int : ℕ → M ℕ)
    → Mv
    → M (Mv × SmartPointer)
init malloc free construct new_int mv = do
  s ← allocate malloc free mv 1
  construct (s.1)
  sp ← from_pointer new_int (s.1)
  pure (s.0, sp)

-- `if (refs != NULL) (*refs)++;`
unfoldable pub add_owner : ℕ → M (Unit {0})
add_owner refs = if refs == null then pure tt else do n ← load refs; store refs (u32 (n + 1))

module _ (free delete : ℕ → M (Unit {0})) where
  unfoldable pub release : Mv → SmartPointer → M Mv
  release mv sp = if sp.refs == null then pure mv else do
    n ← load sp.refs
    store sp.refs (sub32 n 1)
    if sub32 n 1 == 0
        then (do mv' ← deallocate free mv sp.t 1; delete sp.refs; pure mv')
        else pure mv

  -- `operator=`
  unfoldable pub assign : Mv → SmartPointer → SmartPointer → M (Mv × SmartPointer)
  unfolding release add_owner
  assign mv self other = do mv' ← release mv self; add_owner other.refs; pure (mv', other)

  -- `SmartPointer(const SmartPointer<T> &pt)`
  unfoldable pub copy : Mv → SmartPointer → M (Mv × SmartPointer)
  copy mv pt = assign mv (record { t = null; refs = null }) pt

-- `num`: -255 without a cell.
unfoldable pub num : SmartPointer → M ℕ
num sp = if sp.refs == null then pure (2 ^ 32 - 255) else load sp.refs
