-- ===== src/Singleton.antt =====
-- `GJAlloc_Singleton` and `GJAlloc` of src/gjalloc.hh: one allocator for each size, made for the
-- first user and given back after the last one. The system's `malloc` and `free` are parameters;
-- an `assert` that does not hold is a fault. `cnt` is a 64-bit word.
pub mod Balance
use mathlib.Core.Option
use gjalloc.Base.{ℕ, ◌+◌, u64, sub64, ◌==◌, if◌then◌else◌, Bool, none}
use gjalloc.Memory.{M, pure, ◌>>=◌, ◌>>◌, Memory}
use gjalloc.Allocator.{Allocator}
use gjalloc.Allocator.Init.{ba_init}
use gjalloc.Global.Blocks.{ba_alloc, ba_free}
use gjalloc.Global.Whole.{ba_count_all, ba_destroy}

pub record Mv : Type 0 where
  pub allocator : Allocator
  pub cnt : ℕ

-- `BA_N` and `BLOCKS` are the parameters of the template.
unfoldable pub register_alloc : ℕ → ℕ → Mv → M Mv
register_alloc ba_n blocks mv =
    if mv.cnt == 0
    then (λ m.
        Option.map (λ a. (record { allocator = a; cnt = u64 (mv.cnt + 1) }, m))
          (ba_init mv.allocator ba_n blocks))
    else pure (record mv { cnt = u64 (mv.cnt + 1) })

unfoldable pub unregister_alloc : (free : ℕ → M (Unit {0})) → Mv → M Mv
unregister_alloc free mv =
    if sub64 mv.cnt 1 == 0
    then (do
      a ← ba_destroy free mv.allocator
      pure (record { allocator = a; cnt = sub64 mv.cnt 1 }))
    else pure (record mv { cnt = sub64 mv.cnt 1 })

unfoldable pub mv_allocate : (malloc : ℕ → M ℕ) (free : ℕ → M (Unit {0})) → Mv → M (Mv × ℕ)
mv_allocate malloc free mv = do
  s ← ba_alloc malloc free mv.allocator
  pure (record mv { allocator = s.0 }, s.1)

unfoldable pub mv_deallocate : (free : ℕ → M (Unit {0})) → Mv → ℕ → M Mv
mv_deallocate free mv p = do a ← ba_free free mv.allocator p; pure (record mv { allocator = a })

unfoldable pub allocate : (malloc : ℕ → M ℕ) (free : ℕ → M (Unit {0})) → Mv → ℕ → M (Mv × ℕ)
allocate malloc free mv n = if n == 1 then mv_allocate malloc free mv else λ _. none

unfoldable pub deallocate : (free : ℕ → M (Unit {0})) → Mv → ℕ → ℕ → M Mv
deallocate free mv p n = if n == 1 then mv_deallocate free mv p else λ _. none

unfoldable pub mv_num_pages : Mv → ℕ
mv_num_pages mv = mv.allocator.num_pages

unfoldable pub count_blocks : (free : ℕ → M (Unit {0})) → Mv → M (Mv × ℕ)
count_blocks free mv = do
  r ← ba_count_all free mv.allocator
  pure (record mv { allocator = r.0 }, r.1)

unfoldable pub count_bytes : (free : ℕ → M (Unit {0})) → Mv → M (Mv × ℕ)
count_bytes free mv = do
  r ← ba_count_all free mv.allocator
  pure (record mv { allocator = r.0 }, r.2)

unfoldable pub max_size : ℕ
max_size = 1

-- Two allocators are equal if their types have one size.
unfoldable pub same_allocator : ℕ → ℕ → Bool
same_allocator size1 size2 = size1 == size2
