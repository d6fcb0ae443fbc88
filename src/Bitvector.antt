-- ===== src/Bitvector.antt =====
-- `struct bitvector` and the `bv_` functions of src/gjalloc.h, for words of 32 bits: no build
-- file of the repository defines `SIZEOF_LONG`, so `BV_LENGTH` is 32.
-- An access behind the words that were allocated is a fault, `none`. The lengths are numbers
-- of blocks (`uint32_t`), so no `size_t` here wraps.
pub mod Digits
pub mod Access
pub mod Least
pub mod Words
use gjalloc.Base.{
  ℕ, ◌+◌, ◌-◌, ◌*◌, ◌/◌, ◌%◌, ◌^◌, bit_and, bit_or, u32, ltb, leb, ◌==◌, if◌then◌else◌, Bool, not,
  Option, none, some, List, [], ◌∷◌, drop, get_elem?, set,
}
use gjalloc.Layout.{count_zeros}

abbrev pub bv_length : ℕ
bv_length = 32

-- `(size_t)-1`
abbrev pub minus_one : ℕ
minus_one = 2 ^ 64 - 1

pub record Bitvector : Type 0 where
  pub length : ℕ
  pub v : List ℕ

-- Twice a rounding up: to bytes, and then to a multiple of `BV_LENGTH` bytes.
unfoldable pub bv_byte_length : Bitvector → ℕ
bv_byte_length bv =
    let bytes = bv.length / 8 + (if bv.length % 8 == 0 then 0 else 1) in
    if bytes % bv_length == 0 then bytes else bytes + (bv_length - bytes % bv_length)

unfoldable pub bv_set : Bitvector → ℕ → Bool → Option Bitvector
bv_set bv n value = elim (get_elem? bv.v (n / bv_length)) [
  | none ↦ none
  | some w ↦
      let one = 2 ^ (n % bv_length) in
      let w' = if value then bit_or w one else bit_and w (2 ^ 32 - 1 - one) in
      some (record bv { v = set bv.v (n / bv_length) w' })
]

unfoldable pub bv_get : Bitvector → ℕ → Option Bool
bv_get bv n = elim (get_elem? bv.v (n / bv_length)) [
  | none ↦ none
  | some w ↦ some (not (bit_and w (2 ^ (n % bv_length)) == 0))
]

-- The end of `bv_ctz`, with a word that is not zero.
bv_ctz_found : ℕ → ℕ → ℕ → ℕ
bv_ctz_found len word bit =
    let r = bit + count_zeros bv_length word in if leb len r then minus_one else r

-- The loop of `bv_ctz`, over the words behind the current one.
bv_ctz_loop : ℕ → List ℕ → ℕ → ℕ → Option ℕ
bv_ctz_loop len [] word bit =
    if word == 0
    then (if leb len bit then some minus_one else none)
    else some (bv_ctz_found len word bit)
bv_ctz_loop len (w ∷ ws) word bit =
    let rest = bv_ctz_loop len ws w (bit + bv_length) in
    if word == 0
    then (if leb len bit then some minus_one else rest)
    else some (bv_ctz_found len word bit)

unfoldable pub bv_ctz : Bitvector → ℕ → Option ℕ
unfolding bv_ctz_found bv_ctz_loop
bv_ctz bv n = elim (drop (n / bv_length) bv.v) [
  | [] ↦ none
  | w ∷ ws ↦
      bv_ctz_loop bv.length ws (bit_and w (u32 ((2 ^ 32 - 1) * 2 ^ (n % bv_length))))
        (n / bv_length * bv_length)
]
