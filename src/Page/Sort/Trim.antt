-- ===== src/Page/Sort/Trim.antt =====
-- The second loop of `ba_sort_list` in src/gjalloc.c leaves out the free blocks at the end.
use gjalloc.Base.{
  ℕ, zero, suc, ◌+◌, ◌-◌, ◌*◌, ◌≤◌, ◌<◌, ◌≡◌, ◌≢◌, refl, sym, ap, ◌∙◌, arith, Bool, true, false,
  some, List, length, if◌then◌else◌, ne→==, dec_lt,
}
use gjalloc.Bitvector.{Bitvector, bv_get}
use gjalloc.Bitvector.Digits.{digit}
use gjalloc.Bitvector.Access.{bv_get-digit, digit_of}
use gjalloc.Page.FreeList.{mem}
use gjalloc.Page.Sort.{trim, trim_length}
use gjalloc.Page.Sort.Mark.{Marks}

trim_lem :
    (v : Bitvector) (i : ℕ)
    → i < 32 * length v.v
    → (r : ℕ) × (trim v i ≡ some r) × (r ≤ i) × ((j : ℕ) → r < j → j ≤ i → digit v.v j ≡ 1)
unfolding trim
trim_lem v zero room = (0, refl, omega arith, λ j lo hi. absurd (omega arith))
trim_lem v (suc i) room =
    let (b, is, same) = bv_get-digit v (suc i) room in
    let (r, rest, le, ones) = trim_lem v i (omega arith) in trim_cases b is same r rest le ones
  where
    trim_cases :
        (b : Bool)
        → bv_get v (suc i) ≡ some b
        → digit_of b ≡ digit v.v (suc i)
        → (r : ℕ) → trim v i ≡ some r
        → r ≤ i
        → ((j : ℕ) → r < j → j ≤ i → digit v.v j ≡ 1)
        → (r' : ℕ) × (trim v (suc i) ≡ some r')
          × (r' ≤ suc i)
          × ((j : ℕ) → r' < j → j ≤ suc i → digit v.v j ≡ 1)
    trim_cases true is same r rest le ones = (
      r,
      rw (is, trim) rest,
      omega arith,
      λ j lo hi. elim (dec_lt i j) [
        | yes top ↦ let e : suc i ≡ j = omega arith in ap (digit v.v) (sym e) ∙ sym same
        | no low ↦ ones j lo (omega arith)
      ],
    )
    trim_cases false is same r rest le ones =
        (suc i, rw (is, trim) refl, omega arith, λ j lo hi. absurd (omega arith))

-- The shortened vector still shows which blocks are free.
pub trim_length-Marks :
    (blocks : ℕ) (zero_vector v : Bitvector) (xs : List ℕ)
    → ((j : ℕ) → digit zero_vector.v j ≡ 0)
    → blocks ≤ 32 * length zero_vector.v
    → Marks blocks zero_vector v xs
    → (v' : Bitvector) × (trim_length v ≡ some v')
      × (v'.length ≤ v.length)
      × Marks blocks zero_vector v' xs
unfolding trim_length
trim_length-Marks blocks zero_vector v xs zeros room marks =
    let (r, is, le, ones) =
      trim_lem v (v.length - 1)
        (omega (arith, marks.same_words, marks.bounded, marks.some_length)) in
    let positive : v.length ≢ 0 = omega (arith, marks.some_length) in
    (
      record v { length = r + 1 },
      rw (ne→== v.length 0 positive, is) refl,
      omega (arith, marks.some_length),
      record {
        digits = λ j lt. marks.digits j (omega (arith, marks.some_length));
        behind = λ j ge lt. elim (dec_lt j v.length) [
          | yes inside ↦
              marked j (ones j (omega arith) (omega arith)) (marks.digits j inside) (zeros j)
          | no out ↦ marks.behind j (omega arith) lt
        ];
        some_length = omega arith;
        bounded = omega (arith, marks.bounded, marks.some_length);
        same_words = marks.same_words;
        all32 = marks.all32;
      },
    )
  where
    marked :
        (j : ℕ)
        → digit v.v j ≡ 1
        → digit v.v j ≡ (if mem j xs then 1 else digit zero_vector.v j)
        → digit zero_vector.v j ≡ 0
        → mem j xs ≡ true
    marked j one same none_set = ground arith
