-- ===== src/Tests.antt =====
-- Runs of the model on small inputs, and the theorems at inputs that meet their hypotheses.
mod Allocators
mod Pages
mod Tables
mod Wrappers
mod Counts
mod PageLists
mod Checks
mod Growing
mod Shrinking
mod Running
use gjalloc.Base.{
  ℕ, zero, suc, ◌+◌, ◌*◌, ◌%◌, ◌^◌, ◌-◌, ◌≤◌, ◌<◌, ◌≡◌, ◌≢◌, refl, ap, arith, Option, none, some,
  List, [], ◌∷◌, ◌↔◌, ◌⊎◌, Bool, true, replicate, get_elem?-replicate, get_elem?, sym, ◌∙◌, length,
  ◌==◌, if◌then◌else◌, u32,
}
use gjalloc.Layout.{
  Layout, page_size, round_up32, round_up32_, ba_init_layout, ba_align_layout, magnitude,
}
use gjalloc.Layout.Align.{IsSmall, IsAligned, ba_align_layout-IsAligned, ba_align_layout-idempotent}
use gjalloc.Layout.RoundUp.{round_up32_lem}
use gjalloc.Bitvector.{Bitvector, bv_byte_length, bv_set, bv_get, bv_ctz}
use gjalloc.Bitvector.Digits.{digit}
use gjalloc.Bitvector.Access.{digit_of, bv_set-digit, bv_get-digit, bv_byte_length-covers}
use gjalloc.Bitvector.Least.{IsLeast, bv_ctz-IsLeast}
use gjalloc.Memory.{Header, Page, Memory, update}
use gjalloc.Page.{block, ba_shift, ba_unshift, ba_free_page}
use gjalloc.Page.FreeList.{mem, Distinct, IsPlaced, IsPage, IsThere, SameOutside, run, run_of}
use gjalloc.Page.Shift.{ba_shift-IsPage}
use gjalloc.Page.Unshift.{ba_unshift-IsPage, ba_free_page-IsPage}
use gjalloc.Allocator.{Allocator}
use gjalloc.Allocator.Init.{ba_init, IsReady, ba_init-IsReady}
use gjalloc.Htable.{
  bucket_of, masked_hash, hash1, mix, ba_htable_insert, ba_htable_lookup, ba_check_ptr,
}
use gjalloc.Htable.Chain.{Chain, nil, cons, IsTable, IsTable-empty}
use gjalloc.Htable.Insert.{ba_htable_insert-IsTable, inserted}
use gjalloc.Htable.Lookup.{ba_htable_lookup-finds, ba_htable_lookup_sound}

round_up32_runs : (round_up32 5 ≡ 8) × (round_up32 8 ≡ 16) × (round_up32 0xffff_ffff ≡ 0)
unfolding round_up32 round_up32_
round_up32_runs = (refl, refl, refl)

-- Blocks of 24 bytes: 128 of them do not fit 2 ^ 11, so the page grows to 2 ^ 12.
align_runs : (ba_align_layout (ba_init_layout 24 128)).blocks ≡ 168
unfolding ba_align_layout ba_init_layout round_up32 round_up32_
align_runs = refl

layout24-IsSmall : IsSmall 24 128
layout24-IsSmall = record { some_size = omega arith; some_blocks = omega arith; fits = omega arith }

round_up32_lem_example : round_up32 5 ≡ u32 (2 ^ 3)
round_up32_lem_example = round_up32_lem 2 5 (omega arith) (omega arith) (omega arith)

ba_align_layout-IsAligned_example :
    let l = ba_align_layout (ba_init_layout 24 128) in
    (k : ℕ) × IsAligned k l × (l.block_size ≡ 24) × (128 ≤ l.blocks)
ba_align_layout-IsAligned_example = ba_align_layout-IsAligned 24 128 layout24-IsSmall

abbrev bits : Bitvector
bits = record { length = 40; v = 0 ∷ 0x80 ∷ 0 ∷ [] }

bv_runs :
    (bv_ctz bits 3 ≡ some 39) × (bv_ctz bits 40 ≡ some (2 ^ 64 - 1)) × (bv_byte_length bits ≡ 32)
unfolding bv_ctz bv_byte_length gjalloc.Layout.count_zeros
bv_runs = (refl, refl, refl)

bv_ctz-IsLeast_example : (r : ℕ) × (bv_ctz bits 3 ≡ some r) × IsLeast (digit bits.v) 3 40 r
bv_ctz-IsLeast_example = bv_ctz-IsLeast bits 3 (omega arith) (omega arith) (omega arith)

bv_byte_length-covers_example :
    (40 ≤ 8 * bv_byte_length bits)
    × (bv_byte_length bits % 4 ≡ 0)
    × ((40 + 32 ≤ 8 * bv_byte_length bits) ↔ ((1 ≤ 40 % 256) × (40 % 256 ≤ 224)))
bv_byte_length-covers_example = bv_byte_length-covers bits

-- A page of four blocks of 16 bytes at the address 1000.
abbrev pub four : Layout
four = record { offset = 88; block_size = 16; blocks = 4 }

abbrev pub words : ℕ → Option ℕ
words =
    update (update (update (update (λ a. none) 1040 (some 1)) 1056 (some 7)) 1072 (some 7)) 1088
      (some 7)

abbrev pub memory : Memory
memory = record { word = words; page = λ p. none }

abbrev pub fresh : Header
fresh = record { first = 1040; used = 0; flags = 1 }

pub four-IsPlaced : IsPlaced four 1000
four-IsPlaced = record {
  last = refl;
  wide = omega arith;
  some_blocks = omega arith;
  few = omega arith;
  ends = omega arith;
}

pub words-IsThere : IsThere four 1000 words
words-IsThere = record { value = value }
  where
    value : (j : ℕ) → j < 4 → (v : ℕ) × (words (block four 1000 j) ≡ some v)
    value zero h = (1, refl)
    value (suc zero) h = (7, refl)
    value (suc (suc zero)) h = (7, refl)
    value (suc (suc (suc zero))) h = (7, refl)
    value (suc (suc (suc (suc j)))) h = absurd (omega arith)

pub fresh-IsPage : IsPage four 1000 fresh memory (0 ∷ 1 ∷ 2 ∷ 3 ∷ [])
fresh-IsPage = record {
  list = run 0 3 refl (omega arith) refl refl refl;
  distinct = (refl, (refl, (refl, (refl, tt))));
  count = refl;
  sorted = λ h. omega arith;
  there = words-IsThere;
}

ba_shift-IsPage_example :
    (h' : Header) × (m' : Memory) × (ba_shift fresh 1000 four memory ≡ some ((1040, h'), m'))
    × IsPage four 1000 h' m' (1 ∷ 2 ∷ 3 ∷ [])
    × SameOutside four 1000 (1 ∷ 2 ∷ 3 ∷ []) memory m'
    × (h'.used ≡ 0 + 1)
ba_shift-IsPage_example =
    ba_shift-IsPage four-IsPlaced fresh memory words-IsThere 0 (1 ∷ 2 ∷ 3 ∷ []) fresh-IsPage

-- Blocks 0 and 1 are in use.
abbrev partly : Header
partly = record { first = 1072; used = 2; flags = 1 }

abbrev partly_memory : Memory
partly_memory = record { word = update words 1072 (some 1); page = λ p. none }

partly-IsThere : IsThere four 1000 partly_memory.word
partly-IsThere = record { value = value }
  where
    value : (j : ℕ) → j < 4 → (v : ℕ) × (partly_memory.word (block four 1000 j) ≡ some v)
    value zero h = (1, refl)
    value (suc zero) h = (7, refl)
    value (suc (suc zero)) h = (1, refl)
    value (suc (suc (suc zero))) h = (7, refl)
    value (suc (suc (suc (suc j)))) h = absurd (omega arith)

partly-IsPage : IsPage four 1000 partly partly_memory (2 ∷ 3 ∷ [])
partly-IsPage = record {
  list = run 2 1 refl (omega arith) refl refl refl;
  distinct = (refl, (refl, tt));
  count = refl;
  sorted = λ h. omega arith;
  there = partly-IsThere;
}

ba_unshift-IsPage_example :
    (h' : Header) × (m' : Memory) × (ba_unshift partly 1040 partly_memory ≡ some (h', m'))
    × IsPage four 1000 h' m' (0 ∷ 2 ∷ 3 ∷ [])
    × SameOutside four 1000 (0 ∷ []) partly_memory m'
    × (2 ≡ h'.used + 1)
ba_unshift-IsPage_example =
    ba_unshift-IsPage four-IsPlaced partly partly_memory 0 (2 ∷ 3 ∷ []) (omega arith) refl
      partly-IsPage

ba_free_page-IsPage_example :
    (h : Header) × (m' : Memory) × (ba_free_page four 1000 memory ≡ some (h, m'))
    × IsPage four 1000 h m' (run_of 4 0)
    × SameOutside four 1000 (0 ∷ []) memory m'
    × (h.used ≡ 0)
ba_free_page-IsPage_example = ba_free_page-IsPage four-IsPlaced memory (omega arith) words-IsThere

-- An allocator with that layout, and the page at 1000 put into its empty table.
abbrev pub blank : Allocator
blank = record {
  l = record { offset = 0; block_size = 0; blocks = 0 };
  h = fresh;
  alloc = 0;
  last_free = 0;
  hf = fresh;
  pages = [];
  htable = [];
  magnitude = 0;
  empty_pages = 0;
  max_empty_pages = 0;
  allocated = 0;
  num_pages = 0;
}

ba_init-IsReady_example :
    (a' : Allocator) × (ba_init blank 24 128 ≡ some a') × IsReady a' memory 24 128
ba_init-IsReady_example =
    ba_init-IsReady blank memory 24 128 (omega arith)
      (record { some_size = omega arith; some_blocks = omega arith; fits = omega arith })

abbrev pub page_1000 : Page
page_1000 = record { h = fresh; next = 0; prev = 0; hchain = 0 }

abbrev pub heap : Memory
heap = record { word = words; page = update (λ p. none) 1000 (some page_1000) }

abbrev pub ready : Allocator
ready = record blank {
  l = four;
  htable = replicate 8 0;
  magnitude = 7;
  allocated = 8;
  num_pages = 1;
}

ready-IsTable : IsTable ready heap (λ n. [])
ready-IsTable = IsTable-empty ready heap refl (omega arith) (omega arith)

ba_htable_insert-IsTable_example :
    (heads : List ℕ) × (m' : Memory) × (ba_htable_insert ready 1000 heap ≡ some (heads, m'))
    × IsTable (record ready { htable = heads }) m' (inserted ready 1000 (λ n. []))
    × (m'.word ≡ heap.word)
    × ((r : ℕ) → r ≢ 1000 → m'.page r ≡ heap.page r)
    × ((q : ℕ) × (m'.page 1000 ≡ some (record page_1000 { hchain = q })))
ba_htable_insert-IsTable_example =
    ba_htable_insert-IsTable ready-IsTable 1000 page_1000 (omega arith) refl (λ n. refl)
      (λ n. omega arith)

bucket_1000 : bucket_of ready 1000 ≡ 0
unfolding bucket_of masked_hash hash1 mix
bucket_1000 = refl

abbrev pub one_page : Allocator
one_page = record ready { htable = 1000 ∷ 0 ∷ 0 ∷ 0 ∷ 0 ∷ 0 ∷ 0 ∷ 0 ∷ [] }

abbrev pub in_bucket : ℕ → List ℕ
in_bucket zero = 1000 ∷ []
in_bucket (suc n) = []

pub in_bucket_only : (n q : ℕ) → mem q (in_bucket n) ≡ true → (q ≡ 1000) × (n ≡ 0)
in_bucket_only zero q h = ground arith
in_bucket_only (suc n) q h = cc

pub one_page-IsTable : IsTable one_page heap in_bucket
one_page-IsTable = record {
  chains = chains;
  homes = λ n q h.
      let (at, first) = in_bucket_only n q h in
      ap (bucket_of one_page) at ∙ unfold bucket_of masked_hash hash1 mix in sym first;
  distinct = distinct;
  few = few;
  some_buckets = omega arith;
  word = omega arith;
}
  where
    chains :
        (n : ℕ)
        → n < 8
        → (q : ℕ) × (get_elem? one_page.htable n ≡ some q) × Chain heap.page q (in_bucket n)
    chains zero h = (1000, refl, cons page_1000 refl (omega arith) refl (nil refl))
    chains (suc n) h = (0, get_elem?-replicate 7 n 0 (omega arith), nil refl)

    distinct : (n : ℕ) → Distinct (in_bucket n)
    distinct zero = (refl, tt)
    distinct (suc n) = tt

    few : (n : ℕ) → length (in_bucket n) ≤ 1
    few zero = omega arith
    few (suc n) = omega arith

ba_htable_lookup_sound_example :
    (r : ℕ) × (ba_htable_lookup one_page 5000 heap ≡ some (r, heap))
    × ((r ≡ 0) ⊎ ((n : ℕ) × (mem r (in_bucket n) ≡ true) × (ba_check_ptr four r 5000 ≡ true)))
ba_htable_lookup_sound_example = ba_htable_lookup_sound one_page-IsTable 5000

ba_htable_lookup-finds_example : ba_htable_lookup one_page 1056 heap ≡ some (1000, heap)
unfolding bucket_of masked_hash hash1 mix
ba_htable_lookup-finds_example =
    ba_htable_lookup-finds one_page-IsTable 1056 1000 refl (omega arith) (omega arith) (omega arith)
      (omega arith) (omega arith) (λ n q h c. (in_bucket_only n q h).0)
