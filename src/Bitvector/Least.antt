-- ===== src/Bitvector/Least.antt =====
-- `bv_ctz` of src/gjalloc.h finds the least digit that is set.
use mathlib.Core.Path.{subst}
use gjalloc.Base.{
  ℕ, zero, suc, ◌+◌, ◌-◌, ◌*◌, ◌/◌, ◌%◌, ◌^◌, ◌≤◌, ◌<◌, bit_and, ◌≡◌, refl, ap, sym, ◌∙◌, inl, inr,
  arith, true, some, List, [], ◌∷◌, length, drop, get_or, ◌==◌, if◌then◌else◌, leb, ltb, lt→ltb,
  le→ltb, Bool-cases, leb→le, leb→lt, le→leb, ==→eq, u32, dec_lt,
}
use gjalloc.Base.Bits.{bit, bit-le-one, bit-bit_and, bit_and-le}
use gjalloc.Layout.{count_zeros}
use gjalloc.Bitvector.{Bitvector, minus_one, bv_ctz, bv_ctz_loop, bv_ctz_found}
use gjalloc.Bitvector.Digits.{
  bit-zero, bit-mask_low, bit-mask_high, shifted_ones, count_zeros_one, count_zeros_zeros, digit,
  digit-skip, digit-here,
}

-- The answer of `bv_ctz` on the digits `d` from `n` up to `len`: the least that is set, or -1.
pub data IsLeast (d : ℕ → ℕ) (n len : ℕ) : ℕ → Type 0 where
  found :
      {r : ℕ} → n ≤ r → r < len → d r ≡ 1 → ((j : ℕ) → n ≤ j → j < r → d j ≡ 0) → IsLeast d n len r
  absent : {r : ℕ} → r ≡ minus_one → ((j : ℕ) → n ≤ j → j < len → d j ≡ 0) → IsLeast d n len r

abbrev pub All32 : List ℕ → Type 0
All32 [] = Unit {0}
All32 (w ∷ ws) = (w < 2 ^ 32) × All32 ws

-- `d` reads the words from the position `start` on.
record Reads (d : ℕ → ℕ) (start : ℕ) (ws : List ℕ) : Type 0 where
  place : (j : ℕ) → d (start + j) ≡ digit ws j

Reads-at :
    {d : ℕ → ℕ} {start : ℕ} {w : ℕ} {ws : List ℕ} (j : ℕ)
    → Reads d start (w ∷ ws)
    → start ≤ j
    → j < start + 32
    → d j ≡ bit w (j - start)
Reads-at {d} {start} {w} {ws} j same lo hi =
    let back : start + (j - start) ≡ j = omega arith in
    ap d (sym back) ∙ same.place (j - start) ∙ digit-here w ws (j - start) (omega arith)

Reads-tail :
    {d : ℕ → ℕ} {start : ℕ} {w : ℕ} {ws : List ℕ} → Reads d start (w ∷ ws) → Reads d (start + 32) ws
Reads-tail {d} {start} {w} {ws} same = record {
  place = λ j.
      let back : start + 32 + j ≡ start + (32 + j) = omega arith in
      ap d back ∙ same.place (32 + j) ∙ digit-skip w ws j;
}

module _ (len : ℕ) {d : ℕ → ℕ} where
  -- A word that is not zero ends the loop.
  found-IsLeast :
      (ws : List ℕ) (word start : ℕ)
      → word < 2 ^ 32
      → 0 < word
      → Reads d start (word ∷ ws)
      → IsLeast d start len (bv_ctz_found len word start)
  unfolding bv_ctz_found
  found-IsLeast ws word start small pos same =
      let (lt, one) = count_zeros_one 32 word pos small in
      let c = count_zeros 32 word in
      let here : start + c - start ≡ c = omega arith in
      let below : (j : ℕ) → start ≤ j → j < start + c → d j ≡ 0 = λ j lo hi.
        Reads-at j same lo (omega arith) ∙ count_zeros_zeros 32 word (j - start) (omega arith) in
      elim (Bool-cases (leb len (start + c))) [
        | inl out ↦
            rw out (absent refl (λ j lo hi. below j lo (omega (arith, leb→le len (start + c) out))))
        | inr within ↦ rw within (
            found {r = start + c} (omega arith) (leb→lt len (start + c) within)
              (Reads-at (start + c) same (omega arith) (omega arith) ∙ ap (bit word) here ∙ one)
              below)
      ]

  -- A word that is zero is passed over.
  IsLeast-skip :
      {start r : ℕ}
      → ((j : ℕ) → start ≤ j → j < start + 32 → d j ≡ 0)
      → IsLeast d (start + 32) len r
      → IsLeast d start len r
  IsLeast-skip {start} zeros (found lo hi one below) = found (omega arith) hi one (λ j p q.
      elim (dec_lt j (start + 32)) [ yes h ↦ zeros j p h | no h ↦ below j (omega arith) q ])
  IsLeast-skip {start} zeros (absent e below) = absent e (λ j p q. elim (dec_lt j (start + 32)) [
    | yes h ↦ zeros j p h
    | no h ↦ below j (omega arith) q
  ])

  zero_word :
      {start : ℕ} {word : ℕ} {ws : List ℕ}
      → (word == 0) ≡ true
      → Reads d start (word ∷ ws)
      → (j : ℕ) → start ≤ j
      → j < start + 32
      → d j ≡ 0
  zero_word {start} {word} e same j lo hi =
      let none_set : word ≡ 0 = ==→eq word 0 e in
      Reads-at j same lo hi ∙ ap (λ w. bit w (j - start)) none_set ∙ bit-zero (j - start)

  -- The loop, from a word at the position `start` on.
  loop-IsLeast :
      (ws : List ℕ) (word start : ℕ)
      → word < 2 ^ 32
      → All32 ws
      → len ≤ start + 32 * length ws
      → Reads d start (word ∷ ws)
      → (r : ℕ) × (bv_ctz_loop len ws word start ≡ some r) × IsLeast d start len r
  unfolding bv_ctz_loop
  loop-IsLeast [] word start small smalls room same = elim (Bool-cases (word == 0)) [
    | inl stop ↦ (
      minus_one,
      rw (stop, le→leb len start (omega arith)),
      absent refl (λ j lo hi. absurd (omega arith)),
    )
    | inr go ↦
        (bv_ctz_found len word start, rw go, found-IsLeast [] word start small (ground arith) same)
  ]
  loop-IsLeast (w ∷ ws) word start small smalls room same = elim (Bool-cases (word == 0)) [
    | inl stop ↦ elim (Bool-cases (leb len start)) [
      | inl out ↦ (
        minus_one,
        rw (stop, out),
        absent refl (λ j lo hi. absurd (omega (arith, leb→le len start out))),
      )
      | inr within ↦
          let (r, is, least) =
            loop-IsLeast ws w (start + 32) smalls.0 smalls.1 (omega arith) (Reads-tail same) in
          (r, rw (stop, within) is, IsLeast-skip (zero_word stop same) least)
    ]
    | inr go ↦ (
      bv_ctz_found len word start,
      rw go,
      found-IsLeast (w ∷ ws) word start small (ground arith) same,
    )
  ]

drop-cons : (ws : List ℕ) (c : ℕ) → c < length ws → drop c ws ≡ get_or ws c 0 ∷ drop (suc c) ws
drop-cons [] c h = absurd (omega arith)
drop-cons (w ∷ ws) zero h = refl
drop-cons (w ∷ ws) (suc c) h = drop-cons ws c (omega arith)

length-drop : (ws : List ℕ) (c : ℕ) → length (drop c ws) ≡ length ws - c
length-drop ws zero = omega arith
length-drop [] (suc c) = omega arith
length-drop (w ∷ ws) (suc c) = omega (arith, length-drop ws c)

All32-drop : (ws : List ℕ) (c : ℕ) → All32 ws → All32 (drop c ws)
All32-drop ws zero all = all
All32-drop [] (suc c) all = all
All32-drop (w ∷ ws) (suc c) all = All32-drop ws c all.1

pub All32-get_or : (ws : List ℕ) (c : ℕ) → All32 ws → get_or ws c 0 < 2 ^ 32
All32-get_or [] c all = omega arith
All32-get_or (w ∷ ws) zero all = all.0
All32-get_or (w ∷ ws) (suc c) all = All32-get_or ws c all.1

digit-drop : (ws : List ℕ) (c j : ℕ) → digit ws (c * 32 + j) ≡ digit (drop c ws) j
digit-drop ws zero j = let e : 0 * 32 + j ≡ j = omega arith in ap (digit ws) e
digit-drop [] (suc c) j = bit-zero ((suc c * 32 + j) % 32) ∙ sym (bit-zero (j % 32))
digit-drop (w ∷ ws) (suc c) j =
    let e : suc c * 32 + j ≡ 32 + (c * 32 + j) = omega arith in
    ap (digit (w ∷ ws)) e ∙ digit-skip w ws (c * 32 + j) ∙ digit-drop ws c j

-- The digits from `n` on.
from : ℕ → (ℕ → ℕ) → ℕ → ℕ
from n d j = if ltb j n then 0 else d j

from-low : (n : ℕ) (d : ℕ → ℕ) (j : ℕ) → j < n → from n d j ≡ 0
unfolding from
from-low n d j h = rw (lt→ltb j n h)

from-high : (n : ℕ) (d : ℕ → ℕ) (j : ℕ) → n ≤ j → from n d j ≡ d j
unfolding from
from-high n d j h = rw (le→ltb j n h)

-- `*_v & (~0 << bit)`: the digits of the first word from `b` on.
masked : ℕ → ℕ → ℕ
masked w b = bit_and w (u32 ((2 ^ 32 - 1) * 2 ^ b))

masked-digit : (w b j : ℕ) → b < 32 → j < 32 → bit (masked w b) j ≡ from b (bit w) j
unfolding masked from
masked-digit w b j hb hj = rw (shifted_ones b hb) (elim (dec_lt j b) [
  | yes p ↦ omega (
    arith,
    from-low b (bit w) j p,
    bit-bit_and w (2 ^ 32 - 2 ^ b) j,
    bit-mask_low 32 b j (omega arith) p,
  )
  | no p ↦ omega (
    arith,
    from-high b (bit w) j (omega arith),
    bit-bit_and w (2 ^ 32 - 2 ^ b) j,
    bit-mask_high 32 b j (omega arith) hj,
    bit-le-one w j,
  )
])

masked-lt : (w b : ℕ) → w < 2 ^ 32 → masked w b < 2 ^ 32
unfolding masked
masked-lt w b h = omega (arith, bit_and-le w (u32 ((2 ^ 32 - 1) * 2 ^ b)))

module _ (v : List ℕ) (n : ℕ) (inside : n / 32 < length v) where
  abbrev c : ℕ
  c = n / 32

  abbrev tail : List ℕ
  tail = drop (suc c) v

  digit-cut : (j : ℕ) → digit v (c * 32 + j) ≡ digit (get_or v c 0 ∷ tail) j
  digit-cut j = digit-drop v c j ∙ ap (λ ws. digit ws j) (drop-cons v c inside)

  masked-low :
      (j : ℕ)
      → j < 32
      → from n (digit v) (c * 32 + j) ≡ digit (masked (get_or v c 0) (n % 32) ∷ tail) j
  masked-low j h =
      let w = get_or v c 0 in
      let here = digit-here (masked w (n % 32)) tail j h in
      let cut = masked-digit w (n % 32) j (omega arith) h in
      elim (dec_lt j (n % 32)) [
        | yes p ↦
            from-low n (digit v) (c * 32 + j) (omega arith)
            ∙ sym (here ∙ cut ∙ from-low (n % 32) (bit w) j p)
        | no p ↦
            from-high n (digit v) (c * 32 + j) (omega arith)
            ∙ digit-cut j
            ∙ digit-here w tail j h
            ∙ sym (here ∙ cut ∙ from-high (n % 32) (bit w) j (omega arith))
      ]

  masked-high :
      (j : ℕ)
      → from n (digit v) (c * 32 + (32 + j))
        ≡ digit (masked (get_or v c 0) (n % 32) ∷ tail) (32 + j)
  masked-high j =
      from-high n (digit v) (c * 32 + (32 + j)) (omega arith)
      ∙ digit-cut (32 + j)
      ∙ digit-skip (get_or v c 0) tail j
      ∙ sym (digit-skip (masked (get_or v c 0) (n % 32)) tail j)

  masked-Reads : Reads (from n (digit v)) (c * 32) (masked (get_or v c 0) (n % 32) ∷ tail)
  masked-Reads = record {
    place = λ j. elim (dec_lt j 32) [
      | yes p ↦ masked-low j p
      | no p ↦
          let e : 32 + (j - 32) ≡ j = omega arith in
          subst
            (λ t. from n (digit v) (c * 32 + t) ≡ digit (masked (get_or v c 0) (n % 32) ∷ tail) t) e
            (masked-high (j - 32))
    ];
  }

-- From digits cut off below `n` to the digits themselves.
IsLeast-from :
    {d : ℕ → ℕ} {n len start r : ℕ} → start ≤ n → IsLeast (from n d) start len r → IsLeast d n len r
IsLeast-from {d} {n} {r} le (found lo hi one below) = elim (dec_lt r n) [
  | yes p ↦ absurd (omega (arith, from-low n d r p))
  | no p ↦
      found (omega arith) hi (sym (from-high n d r (omega arith)) ∙ one)
        (λ j q h. sym (from-high n d j q) ∙ below j (omega arith) h)
]
IsLeast-from {d} {n} le (absent e below) =
    absent e (λ j q h. sym (from-high n d j q) ∙ below j (omega arith) h)

-- Given one word more than the length needs, `bv_ctz` reads nothing behind the vector and
-- returns the least place from `n` on that is set, or -1 if there is none.
pub bv_ctz-IsLeast :
    (bv : Bitvector) (n : ℕ)
    → All32 bv.v
    → bv.length + 32 ≤ 32 * length bv.v
    → n ≤ bv.length
    → (r : ℕ) × (bv_ctz bv n ≡ some r) × IsLeast (digit bv.v) n bv.length r
unfolding bv_ctz masked
bv_ctz-IsLeast bv n all room le =
    let c = n / 32 in
    let w = get_or bv.v c 0 in
    let ws = drop (suc c) bv.v in
    let cut = drop-cons bv.v c (omega arith) in
    let reads = masked-Reads bv.v n (omega arith) in
    let (r, is, least) =
      loop-IsLeast bv.length ws (masked w (n % 32)) (c * 32)
        (masked-lt w (n % 32) (All32-get_or bv.v c all)) (All32-drop bv.v (suc c) all)
        (omega (arith, length-drop bv.v (suc c))) reads in
    (r, rw (cut, bv_ctz) is, IsLeast-from (omega arith) least)
