-- ===== src/Page/Sort/Mark.antt =====
-- The first loop of `ba_sort_list` in src/gjalloc.c sets the bits of the free blocks. All blocks
-- that the shortened length leaves out are free.
use native.Mathlib.Nat.{mul-div_cancel}
use gjalloc.Base.{
  ℕ, zero, suc, ◌+◌, ◌*◌, ◌/◌, ◌≤◌, ◌<◌, ◌≡◌, ◌≢◌, refl, ap, ◌∙◌, arith, true, some, List, ◌∷◌,
  length, ◌==◌, if◌then◌else◌, ne→==, sub64,
}
use gjalloc.Layout.{Layout}
use gjalloc.Memory.{Memory, null, ba_one, load}
use gjalloc.Bitvector.{Bitvector, bv_set}
use gjalloc.Bitvector.Digits.{digit}
use gjalloc.Bitvector.Access.{bv_set-digit}
use gjalloc.Bitvector.Least.{All32}
use gjalloc.Bitvector.Words.{bv_set-All32}
use gjalloc.Page.{block}
use gjalloc.Page.FreeList.{mem, FreeList, nil, run, cons, IsPlaced}
use gjalloc.Page.Frame.{mem-run_of_outside, mem-run_of_inside, block_inside, mem_tail}
use gjalloc.Page.Sort.{mark_free, ba_nblock, from_vector}

-- The vector `v'` has the digits of `v`, and those of the members of `xs` that its length has
-- not left out.
pub record Marks (blocks : ℕ) (v v' : Bitvector) (xs : List ℕ) : Type 0 where
  pub digits : (j : ℕ) → j < v'.length → digit v'.v j ≡ (if mem j xs then 1 else digit v.v j)
  pub behind : (j : ℕ) → v'.length ≤ j → j < blocks → mem j xs ≡ true
  pub some_length : 1 ≤ v'.length
  pub bounded : v'.length ≤ blocks
  pub same_words : length v'.v ≡ length v.v
  pub all32 : All32 v'.v

-- One more member.
two_tests :
    (j i : ℕ) (xs : List ℕ) (d1 d : ℕ)
    → d1 ≡ (if j == i then 1 else d)
    → (if mem j xs then 1 else d1) ≡ (if mem j (i ∷ xs) then 1 else d)
two_tests j i xs d1 d e = ground arith

module _ {l : Layout} {p : ℕ} (placed : IsPlaced l p) where
  ba_nblock-block : (i : ℕ) → i < l.blocks → ba_nblock l p (block l p i) ≡ i
  unfolding ba_nblock
  ba_nblock-block i lt =
      let off : sub64 (block l p i) (p + 40) ≡ i * l.block_size =
        omega (arith, block_inside placed i lt) in
      ap (λ t. t / l.block_size) off
      ∙ mul-div_cancel i {n = l.block_size} (omega (arith, placed.wide))

  -- A round of the loop, and the last one.
  mark_free-next :
      (fuel : ℕ) (v : Bitvector) (m : Memory) {first i next : ℕ} {v1 : Bitvector}
      → first ≢ null
      → ba_nblock l p first ≡ i
      → bv_set v i true ≡ some v1
      → m.word first ≡ some next
      → next ≢ ba_one
      → mark_free l p (suc fuel) first v m ≡ mark_free l p fuel next v1 m
  unfolding mark_free from_vector load
  mark_free-next fuel v m {first} {next = next} some_first number stored at ne =
      rw (ne→== first null some_first, number) (rw (stored, at) (rw (ne→== next ba_one ne) refl))

  mark_free-last :
      (fuel : ℕ) (v : Bitvector) (m : Memory) {first i : ℕ} {v1 : Bitvector}
      → first ≢ null
      → ba_nblock l p first ≡ i
      → bv_set v i true ≡ some v1
      → m.word first ≡ some ba_one
      → mark_free l p (suc fuel) first v m ≡ some (record v1 { length = i + 1 }, m)
  unfolding mark_free from_vector load
  mark_free-last fuel v m {first} some_first number stored at =
      rw (ne→== first null some_first, number) (rw (stored, at) refl)

  pub mark_free-Marks :
      (fuel : ℕ) {first : ℕ} {xs : List ℕ} (v : Bitvector) (m : Memory)
      → FreeList l p 1 m.word first xs
      → length xs < fuel
      → v.length ≡ l.blocks
      → l.blocks ≤ 32 * length v.v
      → All32 v.v
      → (v' : Bitvector) × (mark_free l p fuel first v m ≡ some (v', m)) × Marks l.blocks v v' xs
  unfolding mark_free from_vector load
  mark_free-Marks zero v m list enough e room all = absurd (omega arith)
  mark_free-Marks (suc fuel) v m (nil none_free) enough e room all = (
    v,
    rw none_free refl,
    record {
      digits = λ j lt. refl;
      behind = λ j ge lt. absurd (omega arith);
      some_length = omega (arith, placed.some_blocks);
      bounded = omega arith;
      same_words = refl;
      all32 = all;
    },
  )
  mark_free-Marks (suc fuel) {first} {xs} v m (run i n ends gap start word items) enough e room
        all =
      let (v1, set_it, len1, words1, digits1) = bv_set-digit v i true (omega arith) in
      let at : m.word first ≡ some 1 = ap m.word start ∙ word in
      let number : ba_nblock l p first ≡ i =
        ap (ba_nblock l p) start ∙ ba_nblock-block i (omega arith) in
      (
        record v1 { length = i + 1 },
        mark_free-last fuel v m (omega arith) number set_it at,
        record {
          digits = λ j lt. grind (arith, digits1, mem-run_of_outside j n (suc i));
          behind = λ j ge lt.
              ap (mem j) items ∙ mem-run_of_inside j (suc n) i (omega arith) (omega arith);
          some_length = omega arith;
          bounded = omega arith;
          same_words = words1;
          all32 = bv_set-All32 v v1 i (omega arith) set_it all;
        },
      )
  mark_free-Marks (suc fuel) {first} v m (cons {xs} i next lt start word ne rest) enough e room
        all =
      let (v1, set_it, len1, words1, digits1) = bv_set-digit v i true (omega arith) in
      let at : m.word first ≡ some next = ap m.word start ∙ word in
      let number : ba_nblock l p first ≡ i = ap (ba_nblock l p) start ∙ ba_nblock-block i lt in
      let (v2, runs, marks) =
        mark_free-Marks fuel v1 m rest (omega arith) (len1 ∙ e) (omega arith)
          (bv_set-All32 v v1 i (omega arith) set_it all) in
      (
        v2,
        mark_free-next fuel v m (omega arith) number set_it at ne ∙ runs,
        record {
          digits = λ j small.
              marks.digits j small ∙ two_tests j i xs (digit v1.v j) (digit v.v j) (digits1 j);
          behind = λ j ge small. mem_tail j i xs (marks.behind j ge small);
          some_length = marks.some_length;
          bounded = marks.bounded;
          same_words = marks.same_words ∙ words1;
          all32 = marks.all32;
        },
      )
