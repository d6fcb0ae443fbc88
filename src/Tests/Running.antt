-- ===== src/Tests/Running.antt =====
-- A page of src/gjalloc.c from `ba_init` to `ba_remove_page`, as a run.
use mathlib.Core.Path.{subst}
use gjalloc.Base.{
  ℕ, ◌+◌, ◌≡◌, refl, sym, ap, arith, false, some, none, Option, [], ◌||◌, ◌==◌, ne→==, leb, u32,
  get_elem?, not, ◌&&◌, ◌∷◌,
}
use gjalloc.Layout.{
  magnitude, count_zeros, Layout, ba_init_layout, ba_align_layout, round_up32, round_up32_,
}
use gjalloc.Memory.{Header, Memory, M, update, load_page, store_page, load, store}
use gjalloc.Page.FreeList.{IsThere, IsPlaced}
use gjalloc.Page.{ba_free_page}
use gjalloc.Htable.{ba_htable_delete, bucket_of, hash1, masked_hash, mix, ba_htable_insert}
use gjalloc.Allocator.{Allocator}
use gjalloc.Allocator.Init.{ba_init, initial}
use gjalloc.Links.Linked.{cons, nil}
use gjalloc.Links.{set_prev_of, double_link, double_unlink, unlink_before}
use gjalloc.Global.Get.{ba_alloc_page}
use gjalloc.Global.Slot.{ba_get_slot}
use gjalloc.Global.Update.{set_header, ba_update_slot, ba_remove_page}
use gjalloc.Global.Paged.Alloc.{AlwaysGives}
use gjalloc.Global.Paged.Runs.{
  MayAdd, MayRemove, made, added, written, updated, removed, Holds, Reached-Holds,
}
use gjalloc.Tests.{page_1000, blank}
use gjalloc.Tests.Shrinking.{keep_all, frees_none}

abbrev made_one : Allocator
made_one = initial blank 16 4

layout_is : made_one.l ≡ record { offset = 104; block_size = 16; blocks = 5 }
unfolding initial ba_init_layout ba_align_layout round_up32 round_up32_
layout_is = refl

abbrev pub bare : Memory
bare = record { word = λ p. some 7; page = λ p. none }

-- `malloc` gives the address 4096, and leaves the other pages.
abbrev pub give_4096 : ℕ → M ℕ
give_4096 n m = some (4096, record m { page = update m.page 4096 (some page_1000) })

five-IsPlaced : IsPlaced (record { offset = 104; block_size = 16; blocks = 5 }) 4096
five-IsPlaced = record {
  last = refl;
  wide = omega arith;
  some_blocks = omega arith;
  few = omega arith;
  ends = omega arith;
}

give_4096-AlwaysGives : (l : Layout) → IsPlaced l 4096 → AlwaysGives give_4096 l bare 4096
give_4096-AlwaysGives l placed = record {
  gives = λ m1 e. record {
    given = record m1 { page = update m1.page 4096 (some page_1000) };
    header = page_1000;
    runs = refl;
    has_header = refl;
    there = subst (IsThere l 4096) (sym e) (record { value = λ j lt. (7, refl) });
    placed = placed;
  };
  same = λ m1 e r ne. rw (ne→== 4096 r (λ z. ne (sym z))) refl;
}

may_add : MayAdd give_4096 made_one bare (λ r. false) 4096
unfolding initial
may_add = record {
  few_buckets = omega arith;
  few_pages = omega arith;
  gives =
      give_4096-AlwaysGives made_one.l (subst (λ l. IsPlaced l 4096) (sym layout_is) five-IsPlaced);
  two = omega (arith, ap (λ l. l.blocks) layout_is);
  proper = λ e. omega arith;
  fresh = refl;
}

init_runs : ba_init blank 16 4 ≡ some made_one
unfolding ba_init
init_runs = refl

-- What a command leaves, or the values that are given if it faults.
abbrev pub after : {A : Type 0} → A → Memory → Option (A × Memory) → A × Memory
after x m none = (x, m)
after x m (some r) = r

-- The first page after `ba_init`.
abbrev with_page : (Allocator × ℕ) × Memory
with_page = after (made_one, 0) bare (ba_alloc_page give_4096 made_one bare)

-- All its blocks are taken.
abbrev all_used : Header
all_used = record { first = 0; used = 5; flags = 1 }

abbrev with_full : Unit {0} × Memory
with_full = after tt bare (set_header 4096 all_used with_page.1)

-- All of them have been freed, so the page goes to the list of the empty pages.
abbrev all_freed : Header
all_freed = record { first = 4136; used = 0; flags = 1 }

abbrev with_empty : (Allocator × Header) × Memory
with_empty =
    after (made_one, all_freed) bare
      (ba_update_slot keep_all with_page.0.0 4096 all_freed with_full.1)

abbrev with_none : Allocator × Memory
with_none = after made_one bare (ba_remove_page keep_all with_empty.0.0 with_empty.1)

-- The run of the four, and what the list of the empty pages is before the last.
the_run :
    (ba_alloc_page give_4096 made_one bare ≡ some ((with_page.0.0, 4096), with_page.1))
    × (set_header 4096 all_used with_page.1 ≡ some (tt, with_full.1))
    × (leb with_page.0.0.max_empty_pages (u32 (with_page.0.0.empty_pages + 1)) ≡ false)
    × (ba_update_slot keep_all with_page.0.0 4096 all_freed with_full.1
        ≡ some (with_empty.0, with_empty.1))
    × (with_empty.0.0.num_pages ≡ 1)
    × (with_empty.0.0.empty_pages ≡ 1)
    × (get_elem? with_empty.0.0.pages 2 ≡ some 4096)
    × (with_empty.1.page 4096 ≡ some (record page_1000 { h = all_freed }))
    × (ba_remove_page keep_all with_empty.0.0 with_empty.1 ≡ some (with_none.0, with_none.1))
unfolding ba_alloc_page ba_free_page load_page store_page load store ba_htable_insert bucket_of
    hash1 masked_hash mix initial ba_init_layout ba_align_layout round_up32 round_up32_ magnitude
    count_zeros set_header ba_update_slot ba_get_slot double_link set_prev_of ba_remove_page
    double_unlink unlink_before ba_htable_delete
the_run = (refl, refl, refl, refl, refl, refl, refl, refl, refl)

may_remove : MayRemove with_empty.0.0 with_empty.1 (λ r. (r == 4096) || false) (4096 ∷ [])
may_remove =
    let (made_it, full, room, emptied, pages, empty, at, here, gone) = the_run in
    record {
      few_pages = omega (arith, pages);
      first = 4096;
      at = at;
      list = cons (record page_1000 { h = all_freed }) refl (omega arith) here refl (nil refl);
      distinct = (refl, tt);
      some_page = omega arith;
      enough = omega (arith, empty);
      all_held = λ r h. ground (arith, h);
    }

Reached-Holds_example :
    Holds with_none.0 with_none.1 (λ r. not (r == 4096) && ((r == 4096) || false))
Reached-Holds_example = Reached-Holds give_4096 keep_all frees_none (
    removed with_empty.0.0 with_empty.1 (λ r. (r == 4096) || false) 4096 (4096 ∷ [])
      (updated with_page.0.0 with_full.1 4096 all_freed with_empty.0.1
        (written with_page.0.0 with_page.1 4096 all_used
          (added made_one bare (λ r. false) 4096 (made blank 16 4 init_runs) may_add the_run.0)
          the_run.1)
        the_run.2 the_run.3)
      may_remove refl (λ r h. ground (arith, h)) the_run.8)
