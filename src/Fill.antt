-- ===== src/Fill.antt =====
-- `cmemset` of src/gjalloc.c, which fills a buffer with copies of its first `s` bytes by
-- copying ever longer pieces. A buffer is a function from offsets to bytes.
-- The loop takes fuel, one unit for each block: `n` falls by `s` or more in each round.
pub mod Periodic
use gjalloc.Base.{
  ℕ, zero, suc, ◌+◌, ◌-◌, ◌*◌, u64, sub64, ltb, leb, ◌==◌, if◌then◌else◌, ◌&&◌, Option, none, some,
}

-- `memcpy(dst + to, src, len)`
unfoldable pub memcpy : (ℕ → ℕ) → ℕ → (ℕ → ℕ) → ℕ → ℕ → ℕ
memcpy dst to src len i = if leb to i && ltb i (to + len) then src (i - to) else dst i

-- The loop and the copy behind it.
fill_loop : ℕ → (ℕ → ℕ) → ℕ → ℕ → Option (ℕ → ℕ)
fill_loop zero dst s n = none
fill_loop (suc fuel) dst s n =
    let rest = fill_loop fuel (memcpy dst s dst s) (u64 (s * 2)) (sub64 n s) in
    if leb s n then rest else some (if n == 0 then dst else memcpy dst s dst n)

unfoldable pub cmemset : (ℕ → ℕ) → (ℕ → ℕ) → ℕ → ℕ → Option (ℕ → ℕ)
unfolding fill_loop
cmemset dst src s n = fill_loop (n + 1) (memcpy dst 0 src s) s (u64 (sub64 n 1 * s))
