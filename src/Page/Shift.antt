-- ===== src/Page/Shift.antt =====
-- `ba_shift` of src/gjalloc.h takes the first block off the free list.
use mathlib.Core.Path.{ap₂}
use gjalloc.Base.{
  ℕ, zero, suc, ◌+◌, ◌<◌, ◌^◌, ◌≡◌, ◌≢◌, refl, sym, ap, ◌∙◌, true, false, Option, none, some, List,
  [], ◌∷◌, ◌==◌, arith, u32, u64, bit_or, if◌then◌else◌, eq→==, ne→==, Bool-cases, inl, inr, ◌⊎◌,
}
use gjalloc.Base.Bits.{bit}
use gjalloc.Layout.{Layout}
use gjalloc.Memory.{Header, Memory, null, ba_one, update, load, load-some, store-some}
use gjalloc.Page.{block, last_block, ba_shift}
use gjalloc.Page.FreeList.{
  run_of, mem, IsAscending, IsPlaced, FreeList, nil, run, cons, IsThere, IsPage, SameOutside,
}
use gjalloc.Page.Frame.{block_inside, last-block, last-block_ne}

-- The header after `ba_shift`, on its two branches.
abbrev next_header : Header → ℕ → Header
next_header h next = record h { first = next; used = u32 (h.used + 1) }

abbrev run_header : Header → ℕ → Header
run_header h first' = record { first = first'; used = u32 (h.used + 1); flags = bit_or h.flags 1 }

-- The two branches of `ba_shift`, computed.
shift-next :
    (h : Header) (p : ℕ) (l : Layout) (m : Memory) (next : ℕ)
    → m.word h.first ≡ some next
    → next ≢ ba_one
    → ba_shift h p l m ≡ some ((h.first, next_header h next), m)
unfolding ba_shift
shift-next h p l m next e ne = rw (load-some h.first next m e, ne→== next 1 ne) refl

shift-run :
    (h : Header) (p : ℕ) (l : Layout) (m : Memory) (v : ℕ)
    → m.word h.first ≡ some ba_one
    → let b = u64 (h.first + l.block_size) in
      m.word b ≡ some v
      → ba_shift h p l m
        ≡ some (
          (h.first, run_header h b),
          record m { word = update m.word b (some (if b == last_block l p then 0 else 1)) },
        )
unfolding ba_shift
shift-run h p l m v e there =
    let b = u64 (h.first + l.block_size) in
    rw (load-some h.first 1 m e, store-some b (if b == last_block l p then 0 else 1) v m there) refl

pub IsAscending-run : (n i : ℕ) → IsAscending (run_of n i)
IsAscending-run zero i = tt
IsAscending-run (suc zero) i = tt
IsAscending-run (suc (suc n)) i = (omega arith, IsAscending-run (suc n) (suc i))

pub IsAscending-tail : (i : ℕ) (xs : List ℕ) → IsAscending (i ∷ xs) → IsAscending xs
IsAscending-tail i [] a = tt
IsAscending-tail i (x ∷ xs) a = a.1

pub IsThere-update :
    {l : Layout} {p : ℕ} {w : ℕ → Option ℕ} (b v : ℕ)
    → IsThere l p w
    → IsThere l p (update w b (some v))
IsThere-update {l} {p} {w} b v t = record {
  value = λ j h.
      let (u, is) = t.value j h in
      elim (Bool-cases (b == block l p j)) [
        | inl here ↦ (v, rw here refl)
        | inr other ↦ (u, rw other is)
      ];
}

-- What taking the block `i` leaves: the rest of the list, and every word but its own.
record IsShifted (l : Layout) (p : ℕ) (h : Header) (m : Memory) (rest : List ℕ) (h' : Header)
    (m' : Memory) : Type 0 where
  list : FreeList l p 1 m'.word h'.first rest
  used : h'.used ≡ u32 (h.used + 1)
  flags : (h'.flags ≡ h.flags) ⊎ IsAscending rest
  there : IsThere l p m'.word
  same : SameOutside l p rest m m'

module _ {l : Layout} {p : ℕ} (placed : IsPlaced l p) (h : Header) (m : Memory)
    (there : IsThere l p m.word) where
  -- The word that the branch for BA_ONE stores: BA_ONE again, unless the last block is reached.
  run_end : (i : ℕ) → ℕ
  run_end i = if block l p i == last_block l p then 0 else 1

  run_memory : (i : ℕ) → Memory
  run_memory i = record m { word = update m.word (block l p i) (some (run_end i)) }

  abbrev shifted_to : ℕ → ℕ → Option ((ℕ × Header) × Memory)
  shifted_to a b = some (
    (a, run_header h b),
    record m { word = update m.word b (some (if b == last_block l p then 0 else 1)) },
  )

  run_rest :
      (i n : ℕ)
      → i + suc n ≡ l.blocks
      → FreeList l p 1 (run_memory i).word (block l p i) (run_of (suc n) i)
  unfolding run_memory run_end
  run_rest i zero e =
      let at_end : (block l p i == last_block l p) ≡ true =
        eq→== (block l p i) (last_block l p) (sym (last-block placed i (omega arith))) in
      cons i 0 (omega arith) refl (rw (eq→== (block l p i) (block l p i) refl, at_end) refl)
        (omega arith) (nil refl)
  run_rest i (suc n) e =
      let not_yet : (block l p i == last_block l p) ≡ false =
        ne→== (block l p i) (last_block l p) (λ q. last-block_ne placed i (omega arith) (sym q)) in
      run i (suc n) e (omega arith) refl (rw (eq→== (block l p i) (block l p i) refl, not_yet) refl)
        refl

  run_same : (i n : ℕ) → SameOutside l p (run_of (suc n) i) m (run_memory i)
  unfolding run_memory
  run_same i n = record {
    pages = refl;
    words = λ a out.
        let here : mem i (run_of (suc n) i) ≡ true = rw (eq→== i i refl) refl in
        rw (ne→== (block l p i) a (λ e. out i here (sym e))) refl;
  }

  shift_lem :
      {first i : ℕ} {rest : List ℕ}
      → h.first ≡ first
      → FreeList l p 1 m.word first (i ∷ rest)
      → (h' : Header) × (m' : Memory) × (ba_shift h p l m ≡ some ((block l p i, h'), m'))
        × IsShifted l p h m rest h' m'
  unfolding run_memory run_end
  shift_lem at (run i zero e gap start one xs) = absurd (omega arith)
  shift_lem {i = k} {rest} at (run i (suc n) e gap start one xs) =
      let b = block l p (suc i) in
      let first_is : k ≡ i = cc in
      let rest_is : rest ≡ run_of (suc n) (suc i) = cc in
      let next : u64 (h.first + l.block_size) ≡ b =
        omega (arith, at, start, block_inside placed i (omega arith)) in
      let (v, is) = there.value (suc i) (omega arith) in
      let step = shift-run h p l m v (ap m.word (at ∙ start) ∙ one) (ap m.word next ∙ is) in
      (
        run_header h b,
        run_memory (suc i),
        step ∙ ap₂ shifted_to (at ∙ start ∙ ap (block l p) (sym first_is)) next,
        record {
          list = rw rest_is (run_rest (suc i) n (omega arith));
          used = refl;
          flags = inr (rw rest_is (IsAscending-run (suc n) (suc i)));
          there = IsThere-update b (run_end (suc i)) there;
          same = rw rest_is (run_same (suc i) n);
        },
      )
  shift_lem at (cons i next lt start is ne rest) =
      let here = at ∙ start in
      (
        next_header h next,
        m,
        shift-next h p l m next (ap m.word here ∙ is) ne
            ∙ ap (λ t. some ((t, next_header h next), m)) here,
        record {
          list = rest;
          used = refl;
          flags = inl refl;
          there = there;
          same = record { pages = refl; words = λ a out. refl };
        },
      )

  -- The first block of the list is handed out, the rest of the list is what remains, no word
  -- outside the remaining free blocks is written, and the page invariant is kept.
  pub ba_shift-IsPage :
      (i : ℕ) (rest : List ℕ)
      → IsPage l p h m (i ∷ rest)
      → (h' : Header) × (m' : Memory) × (ba_shift h p l m ≡ some ((block l p i, h'), m'))
        × IsPage l p h' m' rest
        × SameOutside l p rest m m'
        × (h'.used ≡ h.used + 1)
  ba_shift-IsPage i rest v =
      let (h', m', is, s) = shift_lem refl v.list in
      let room : h.used + 1 < 2 ^ 32 = omega (arith, v.count, placed.few) in
      (
        h',
        m',
        is,
        record {
          list = s.list;
          distinct = v.distinct.1;
          count = omega (arith, s.used, v.count);
          sorted = λ f. elim s.flags [
            | inl e ↦ IsAscending-tail i rest (v.sorted (ap (λ t. bit t 0) (sym e) ∙ f))
            | inr a ↦ a
          ];
          there = s.there;
        },
        s.same,
        omega (arith, s.used),
      )

  -- On a page with no free block `ba_shift` reads through NULL.
  pub ba_shift_full : m.word null ≡ none → IsPage l p h m [] → ba_shift h p l m ≡ none
  unfolding ba_shift load
  ba_shift_full unmapped v =
      let at_null : h.first ≡ null = null_first refl v.list in rw (at_null, unmapped) refl
    where
      null_first :
          {first : ℕ} {xs : List ℕ} → xs ≡ [] → FreeList l p 1 m.word first xs → first ≡ null
      null_first e (nil n) = n
      null_first e (run i n q g s r x) = cc
      null_first e (cons i n lt s r ne rest) = cc
