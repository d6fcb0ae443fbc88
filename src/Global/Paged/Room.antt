-- ===== src/Global/Paged/Room.antt =====
-- `ba_alloc_page` of src/gjalloc.c doubles the hash table when it is full.
use native.Mathlib.Nat.{pow-suc}
use gjalloc.Base.{
  ℕ, suc, ◌+◌, ◌*◌, ◌^◌, ◌≤◌, ◌<◌, ◌≡◌, refl, ap, ◌∙◌, true, false, Bool-cases, inl, inr, some,
  List, arith, if◌then◌else◌, ne→==, u32, leb, leb→lt, lt→leb,
}
use gjalloc.Memory.{Memory}
use gjalloc.Allocator.{Allocator}
use gjalloc.Htable.{bucket_of, hash1, masked_hash}
use gjalloc.Htable.Resize.{ba_htable_grow}
use gjalloc.Htable.Resize.Mask.{wider}
use gjalloc.Htable.Resize.Buckets.{grown}
use gjalloc.Htable.Resize.Table.{ba_htable_grow-IsTable}
use gjalloc.Htable.Resize.Shrunk.{page_total}
use gjalloc.Htable.Total.{page_total-grown}
use gjalloc.Global.Get.{ba_grow}
use gjalloc.Global.Paged.{IsPaged, in_table}

-- What `ba_alloc_page` does before it makes the page, on any memory that it leaves.
pub record Roomy (a a1 : Allocator) (m m1 : Memory) (t t1 : ℕ → List ℕ) : Type 0 where
  pub paged : IsPaged a1 m1 t1
  pub layout : a1.l ≡ a.l
  pub pages : a1.num_pages ≡ a.num_pages
  pub space : a1.num_pages + 1 ≤ 2 * a1.allocated
  pub same : (r : ℕ) → in_table a1 t1 r ≡ in_table a t r
  pub words : m1.word ≡ m.word
  pub runs :
      (if leb (u32 (2 * a.allocated)) a.num_pages then ba_grow a else (λ s. some (a, s))) m
      ≡ some (a1, m1)

abbrev pub MakesRoom : Allocator → Memory → (ℕ → List ℕ) → Type 0
MakesRoom a m t = (a1 : Allocator) × (m1 : Memory) × (t1 : ℕ → List ℕ) × Roomy a a1 m m1 t t1

module _ (a : Allocator) (m : Memory) (t : ℕ → List ℕ) (s : IsPaged a m t)
    (few_buckets : a.allocated < 2 ^ 31) where
  Roomy-stay : leb (u32 (2 * a.allocated)) a.num_pages ≡ false → MakesRoom a m t
  Roomy-stay enough = (
    a,
    m,
    t,
    record {
      paged = s;
      layout = refl;
      pages = refl;
      space = omega (arith, leb→lt (u32 (2 * a.allocated)) a.num_pages enough);
      same = λ r. refl;
      words = refl;
      runs = rw enough refl;
    },
  )

  grow_run :
      (heads : List ℕ) (m1 : Memory)
      → leb (u32 (2 * a.allocated)) a.num_pages ≡ true
      → ba_htable_grow a m ≡ some (record (wider a) { htable = heads }, m1)
      → (if leb (u32 (2 * a.allocated)) a.num_pages then ba_grow a else (λ s. some (a, s))) m
        ≡ some (record (wider a) { htable = heads }, m1)
  unfolding ba_grow
  grow_run heads m1 full ran =
      rw
        (
          full,
          ne→== a.allocated 0 (λ e. omega (arith, s.table.some_buckets)),
          lt→leb (2 ^ 31) a.allocated few_buckets,
        )
        ran

  Roomy-grow : leb (u32 (2 * a.allocated)) a.num_pages ≡ true → MakesRoom a m t
  Roomy-grow full =
      let (heads, m1, ran, table, twice, size, same, outside, words) =
        ba_htable_grow-IsTable a t m s.width s.table s.power few_buckets s.size in
      let double : (wider a).allocated ≡ a.allocated + a.allocated = omega (arith, twice) in
      (
        record (wider a) { htable = heads },
        m1,
        grown a t,
        record {
          paged = record {
            table = table;
            size = omega (arith, size, twice);
            width = suc s.width;
            power = omega (arith, twice, s.power, pow-suc 2 s.width);
            total = ap (page_total (grown a t)) double ∙ page_total-grown a t ∙ s.total;
            load = omega (arith, s.load, twice);
          };
          layout = refl;
          pages = refl;
          space = omega (arith, s.load, twice, s.table.some_buckets);
          same = unfold bucket_of hash1 masked_hash in same;
          words = words;
          runs = grow_run heads m1 full ran;
        },
      )

  pub makes_room : MakesRoom a m t
  makes_room = elim (Bool-cases (leb (u32 (2 * a.allocated)) a.num_pages)) [
    | inl full ↦ Roomy-grow full
    | inr enough ↦ Roomy-stay enough
  ]
