-- ===== src/Tests/Growing.antt =====
-- A new page for an allocator of src/gjalloc.c whose hash table is full.
use mathlib.Core.Path.{subst}
use gjalloc.Base.{
  ℕ, zero, suc, ◌+◌, ◌≤◌, ◌<◌, ◌≡◌, refl, sym, ap, arith, true, false, some, none, List, [], ◌∷◌,
  ◌||◌, ◌==◌, get_elem?, length, ne→==,
}
use gjalloc.Memory.{Memory, M, update}
use gjalloc.Page.FreeList.{mem, Distinct, IsThere}
use gjalloc.Allocator.{Allocator}
use gjalloc.Htable.{bucket_of}
use gjalloc.Htable.Hash.{bucket_of-lt}
use gjalloc.Htable.Chain.{Chain, nil, cons, IsTable}
use gjalloc.Global.Get.{ba_alloc_page}
use gjalloc.Global.Paged.{IsPaged, in_table}
use gjalloc.Global.Paged.Alloc.{AlwaysGives, ba_alloc_page-IsPaged}
use gjalloc.Tests.{four, words, page_1000, ready, four-IsPlaced, words-IsThere}

-- Two pages in the one bucket that there is.
abbrev crowd : Memory
crowd = record {
  word = words;
  page =
      update (update (λ p. none) 2000 (some (record page_1000 { hchain = 3000 }))) 3000
        (some page_1000);
}

abbrev crowded : Allocator
crowded = record ready { htable = 2000 ∷ []; allocated = 1; num_pages = 2 }

abbrev crowded_bucket : ℕ → List ℕ
crowded_bucket zero = 2000 ∷ 3000 ∷ []
crowded_bucket (suc n) = []

crowded-IsTable : IsTable crowded crowd crowded_bucket
crowded-IsTable = record {
  chains = chains;
  homes = homes;
  distinct = distinct;
  few = few;
  some_buckets = omega arith;
  word = omega arith;
}
  where
    chains :
        (n : ℕ)
        → n < 1
        → (q : ℕ) × (get_elem? crowded.htable n ≡ some q) × Chain crowd.page q (crowded_bucket n)
    chains zero h = (
      2000,
      refl,
      cons (record page_1000 { hchain = 3000 }) refl (omega arith) refl
          (cons page_1000 refl (omega arith) refl (nil refl)),
    )
    chains (suc n) h = absurd (omega arith)

    homes : (n p : ℕ) → mem p (crowded_bucket n) ≡ true → bucket_of crowded p ≡ n
    homes zero p h = omega (arith, bucket_of-lt crowded p (omega arith) (omega arith))
    homes (suc n) p h = cc

    distinct : (n : ℕ) → Distinct (crowded_bucket n)
    distinct zero = (refl, (refl, tt))
    distinct (suc n) = tt

    few : (n : ℕ) → length (crowded_bucket n) ≤ 2
    few zero = omega arith
    few (suc n) = omega arith

crowded-IsPaged : IsPaged crowded crowd crowded_bucket
crowded-IsPaged = record {
  table = crowded-IsTable;
  size = refl;
  width = 0;
  power = refl;
  total = refl;
  load = omega arith;
}

-- `malloc` gives the address 1000, and leaves the other pages.
abbrev give_room : ℕ → M ℕ
give_room n m = some (1000, record m { page = update m.page 1000 (some page_1000) })

give_room-AlwaysGives : AlwaysGives give_room four crowd 1000
give_room-AlwaysGives = record {
  gives = λ m1 e. record {
    given = record m1 { page = update m1.page 1000 (some page_1000) };
    header = page_1000;
    runs = refl;
    has_header = refl;
    there = subst (IsThere four 1000) (sym e) words-IsThere;
    placed = four-IsPlaced;
  };
  same = λ m1 e r ne. rw (ne→== 1000 r (λ z. ne (sym z))) refl;
}

not_there : in_table crowded crowded_bucket 1000 ≡ false
not_there =
    let home : bucket_of crowded 1000 ≡ 0 =
      omega (arith, bucket_of-lt crowded 1000 (omega arith) (omega arith)) in
    ap (λ z. mem 1000 (crowded_bucket z)) home

ba_alloc_page-IsPaged_example :
    (a' : Allocator) × (m' : Memory) × (t' : ℕ → List ℕ) × (ba_alloc_page give_room crowded crowd
      ≡ some ((a', 1000), m'))
    × IsPaged a' m' t'
    × (a'.num_pages ≡ 2 + 1)
    × ((r : ℕ) → in_table a' t' r ≡ ((r == 1000) || in_table crowded crowded_bucket r))
ba_alloc_page-IsPaged_example =
    ba_alloc_page-IsPaged give_room crowded crowd crowded_bucket crowded-IsPaged (omega arith)
      (omega arith) 1000 give_room-AlwaysGives (omega arith) (omega arith) not_there
