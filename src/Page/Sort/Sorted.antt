-- ===== src/Page/Sort/Sorted.antt =====
-- `ba_sort` of src/gjalloc.c puts the free list in the order of the addresses.
use mathlib.Core.Path.{subst}
use gjalloc.Base.{
  ℕ, ◌+◌, ◌*◌, ◌/◌, ◌%◌, ◌≤◌, ◌<◌, ◌≡◌, ◌≢◌, refl, sym, ◌∙◌, arith, Option, some, List, length,
  replicate, ◌==◌, Bool-cases, inl, inr, ==→ne, bit_and, bit_or, dec_lt,
}
use gjalloc.Base.Bits.{bit, bit-bit_and, bit-bit_or, bit_and-le_right}
use gjalloc.Layout.{Layout}
use gjalloc.Memory.{Header, Memory, null}
use gjalloc.Bitvector.{Bitvector, bv_byte_length}
use gjalloc.Bitvector.Access.{bv_byte_length-covers}
use gjalloc.Bitvector.Words.{zeros, All32-replicate, length-replicate, digit-replicate}
use gjalloc.Page.FreeList.{
  mem, IsAscending, FreeList, nil, run, cons, IsPlaced, IsThere, IsPage, SameOutside,
}
use gjalloc.Page.Frame.{mem-lt}
use gjalloc.Page.Sort.{ba_sort_list, ba_sort, from_vector}
use gjalloc.Page.Sort.Mark.{mark_free-Marks}
use gjalloc.Page.Sort.Trim.{trim_length-Marks}
use gjalloc.Page.Sort.Chain.{rechain-Chained, absent_below}

FreeList-gap :
    {l : Layout} {p : ℕ} {w : ℕ → Option ℕ} {first : ℕ} {xs : List ℕ}
    → FreeList l p 1 w first xs
    → FreeList l p 0 w first xs
FreeList-gap (nil e) = nil e
FreeList-gap (run i n ends gap start word items) = run i n ends (omega arith) start word items
FreeList-gap (cons i next lt start word ne rest) = cons i next lt start word ne (FreeList-gap rest)

-- The flag is the lowest digit.
flag_set : (f : ℕ) → bit_and f 1 ≢ 0 → bit f 0 ≡ 1
flag_set f ne = omega (arith, bit-bit_and f 1 0, bit_and-le_right f 1)

-- The same free blocks in the order of their addresses, with the header `h'`.
pub record IsSorting (l : Layout) (p : ℕ) (xs zs : List ℕ) (first : ℕ) (m m' : Memory)
    : Type 0 where
  pub list : FreeList l p 0 m'.word first zs
  pub order : IsAscending zs
  pub members : (n : ℕ) → mem n zs ≡ mem n xs
  pub same : SameOutside l p xs m m'
  pub there : IsThere l p m'.word

module _ {l : Layout} {p : ℕ} (placed : IsPlaced l p) (lo : 1 ≤ l.blocks % 256)
    (hi : l.blocks % 256 ≤ 224) where
  abbrev empty : Bitvector
  empty = record { length = l.blocks; v = replicate 0 0 }

  abbrev zero_vector : Bitvector
  zero_vector = record { length = l.blocks; v = zeros (bv_byte_length empty / 4) }

  room : l.blocks + 32 ≤ 32 * length zero_vector.v
  room =
      let covers = bv_byte_length-covers empty in
      omega (arith, covers.2.1 (lo, hi), covers.1, length-replicate (bv_byte_length empty / 4))

  ba_sort_list-IsSorting :
      (first : ℕ) (m : Memory) (xs : List ℕ)
      → FreeList l p 1 m.word first xs
      → length xs ≤ l.blocks
      → IsThere l p m.word
      → (first' : ℕ) × (m' : Memory) × (zs : List ℕ) × (ba_sort_list p first l m
          ≡ some (first', m'))
        × IsSorting l p xs zs first' m m'
  unfolding ba_sort_list from_vector
  ba_sort_list-IsSorting first m xs list few there =
      let clear = digit-replicate (bv_byte_length empty / 4) in
      let (marked, ran1, marks1) =
        mark_free-Marks placed (l.blocks + 1) zero_vector m list (omega arith) refl
          (omega (arith, room)) (All32-replicate (bv_byte_length empty / 4)) in
      let (v, ran2, le, marks2) =
        trim_length-Marks l.blocks zero_vector marked xs clear (omega (arith, room)) marks1 in
      let space : v.length + 32 ≤ 32 * length v.v =
        omega (arith, room, marks2.bounded, marks2.same_words) in
      let (first', m', ran3, c) =
        rechain-Chained placed v zero_vector xs marks2 clear space (l.blocks + 1) 0 first null m
          (inl refl) there (omega arith) (omega (arith, marks2.bounded)) in
      (
        first',
        m',
        c.zs,
        rw ran1 (rw ran2 ran3),
        record {
          list = subst (λ a. FreeList l p 0 m'.word a c.zs) (sym c.value) c.list;
          order = c.order;
          members = members c.zs c.list c.members;
          same = record {
            pages = c.pages;
            words = λ a outside.
                c.others a (λ ne. absurd (ne refl))
                  (λ n h. outside n (sym (members c.zs c.list c.members n) ∙ h));
          };
          there = c.there;
        },
      )
    where
      members :
          (zs : List ℕ) {w : ℕ → Option ℕ} {addr : ℕ}
          → FreeList l p 0 w addr zs
          → ((n : ℕ) → 0 ≤ n → n < l.blocks → mem n zs ≡ mem n xs)
          → (n : ℕ) → mem n zs ≡ mem n xs
      members zs sorted same n = elim (dec_lt n l.blocks) [
        | yes lt ↦ same n (omega arith) lt
        | no out ↦
            absent_below n zs (λ h. out (mem-lt placed n sorted h))
            ∙ sym (absent_below n xs (λ h. out (mem-lt placed n list h)))
      ]

  -- Given a page whose blocks number 1 to 224 modulo 256, `ba_sort` leaves its free list in the
  -- order of the addresses, with the same blocks, and the flag set; no word outside the free
  -- blocks has changed.
  pub ba_sort-IsSorting :
      (h : Header) (m : Memory) (xs : List ℕ)
      → IsPage l p h m xs
      → (h' : Header) × (m' : Memory) × (zs : List ℕ) × (ba_sort p h l m ≡ some (h', m'))
        × IsSorting l p xs zs h'.first m m'
        × (h'.used ≡ h.used)
        × (bit h'.flags 0 ≡ 1)
  unfolding ba_sort
  ba_sort-IsSorting h m xs v = elim (Bool-cases (bit_and h.flags 1 == 0)) [
    | inl unsorted ↦
        let few : length xs ≤ l.blocks = omega (arith, v.count) in
        let (first', m', zs, ran, s) = ba_sort_list-IsSorting h.first m xs v.list few v.there in
        (
          record h { first = first'; flags = bit_or h.flags 1 },
          m',
          zs,
          rw (unsorted, ran) refl,
          s,
          refl,
          omega (arith, bit-bit_or h.flags 1 0),
        )
    | inr flagged ↦
        let flag : bit h.flags 0 ≡ 1 = flag_set h.flags (==→ne (bit_and h.flags 1) 0 flagged) in
        (
          h,
          m,
          xs,
          rw flagged refl,
          record {
            list = FreeList-gap v.list;
            order = v.sorted flag;
            members = λ n. refl;
            same = record { pages = refl; words = λ a outside. refl };
            there = v.there;
          },
          refl,
          flag,
        )
  ]
