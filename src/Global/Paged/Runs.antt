-- ===== src/Global/Paged/Runs.antt =====
-- The page table of src/gjalloc.c, through any sequence of new, updated and removed pages after
-- `ba_init`, is the set of the pages that were made and not removed.
use mathlib.Core.Option.{some-injective}
use mathlib.Core.Path.{subst}
use gjalloc.Base.{
  ℕ, ◌+◌, ◌^◌, ◌≤◌, ◌<◌, ◌≡◌, ◌≢◌, refl, sym, ap, ◌∙◌, arith, true, false, Bool, some, List, [],
  length, ◌==◌, ◌||◌, ◌&&◌, not, get_elem?, Bool-cases, inl, inr, leb, u32,
}
use gjalloc.Memory.{Header, Memory, null, M}
use gjalloc.Page.FreeList.{mem, Distinct}
use gjalloc.Links.Linked.{Linked}
use gjalloc.Allocator.{Allocator}
use gjalloc.Allocator.Init.{ba_init, initial}
use gjalloc.Htable.Chain.{IsTable-empty}
use gjalloc.Global.Get.{ba_alloc_page}
use gjalloc.Global.Update.{set_header, ba_update_slot, ba_remove_page}
use gjalloc.Global.Paged.{IsPaged, in_table}
use gjalloc.Global.Paged.Alloc.{AlwaysGives, ba_alloc_page-IsPaged}
use gjalloc.Global.Paged.Commands.{keeps_header}
use gjalloc.Global.Paged.Keeps.{keeps_update, IsPaged-relisted, in_table-relisted}
use gjalloc.Global.Paged.Remove.{FreesPage, ba_remove_page-IsPaged}

-- When a page may be made at `p`: the counts have room, and `malloc` finds memory that no page has.
pub record MayAdd (malloc : ℕ → M ℕ) (a : Allocator) (m : Memory) (held : ℕ → Bool) (p : ℕ)
    : Type 0 where
  pub few_buckets : a.allocated < 2 ^ 31
  pub few_pages : a.num_pages + 1 < 2 ^ 32
  pub gives : AlwaysGives malloc a.l m p
  pub two : 2 ≤ a.l.blocks
  pub proper : p ≢ null
  pub fresh : held p ≡ false

-- When a page may be removed: `es` are the pages of the list of empty pages, all of them held.
pub record MayRemove (a : Allocator) (m : Memory) (held : ℕ → Bool) (es : List ℕ) : Type 0 where
  pub few_pages : a.num_pages < 2 ^ 32
  pub first : ℕ
  pub at : get_elem? a.pages 2 ≡ some first
  pub list : Linked m.page null first es
  pub distinct : Distinct es
  pub some_page : first ≢ null
  pub enough : length es ≤ a.empty_pages
  pub all_held : (r : ℕ) → mem r es ≡ true → held r ≡ true

-- The states that these operations reach after `ba_init`, with the pages that are held.
pub data Reached (malloc : ℕ → M ℕ) (free : ℕ → M (Unit {0}))
    : Allocator → Memory → (ℕ → Bool) → Type 0 where
  made :
      {a : Allocator} {m : Memory} (a0 : Allocator) (block_size blocks : ℕ)
      → ba_init a0 block_size blocks ≡ some a
      → Reached malloc free a m (λ r. false)
  added :
      {a' : Allocator} {m' : Memory} (a : Allocator) (m : Memory) (held : ℕ → Bool) (p : ℕ)
      → Reached malloc free a m held
      → MayAdd malloc a m held p
      → ba_alloc_page malloc a m ≡ some ((a', p), m')
      → Reached malloc free a' m' (λ r. (r == p) || held r)
  -- `p->h = h`
  written :
      {m' : Memory} {held : ℕ → Bool} (a : Allocator) (m : Memory) (p : ℕ) (h : Header)
      → Reached malloc free a m held
      → set_header p h m ≡ some (tt, m')
      → Reached malloc free a m' held
  -- The page goes from one list to another, and one more empty page may be kept.
  updated :
      {a' : Allocator} {m' : Memory} {held : ℕ → Bool} (a : Allocator) (m : Memory) (p : ℕ)
      (h h' : Header)
      → Reached malloc free a m held
      → leb a.max_empty_pages (u32 (a.empty_pages + 1)) ≡ false
      → ba_update_slot free a p h m ≡ some ((a', h'), m')
      → Reached malloc free a' m' held
  removed :
      {a' : Allocator} {m' : Memory} (a : Allocator) (m : Memory) (held : ℕ → Bool) (p : ℕ)
      (es : List ℕ)
      → Reached malloc free a m held
      → MayRemove a m held es
      → mem p es ≡ true
      → ((r : ℕ) → mem r es ≡ true → r ≤ p)
      → ba_remove_page free a m ≡ some (a', m')
      → Reached malloc free a' m' (λ r. not (r == p) && held r)

-- The buckets hold the pages `held`, each in the bucket of its hash.
abbrev pub Holds : Allocator → Memory → (ℕ → Bool) → Type 0
Holds a m held = (t : ℕ → List ℕ) × IsPaged a m t × ((r : ℕ) → in_table a t r ≡ held r)

-- `ba_init` makes an allocator without pages.
pub initial-IsPaged : (a : Allocator) (m : Memory) (s n : ℕ) → IsPaged (initial a s n) m (λ k. [])
unfolding initial
initial-IsPaged a m s n = record {
  table = IsTable-empty (initial a s n) m refl (omega arith) (omega arith);
  size = refl;
  width = 3;
  power = refl;
  total = refl;
  load = omega arith;
}

initial_of : (a0 a : Allocator) (s n : ℕ) → ba_init a0 s n ≡ some a → initial a0 s n ≡ a
unfolding ba_init
initial_of a0 a s n is = elim (Bool-cases (s == 0)) [
  | inl zero_size ↦ absurd (let e = rw zero_size at is in cc)
  | inr sized ↦ some-injective (initial a0 s n) a (rw sized at is)
]

module _ (malloc : ℕ → M ℕ) (free : ℕ → M (Unit {0}))
    (frees : (p : ℕ) (m : Memory) → FreesPage free p m) where
  Holds-added :
      (a a' : Allocator) (m m' : Memory) (held : ℕ → Bool) (p : ℕ)
      → Holds a m held
      → MayAdd malloc a m held p
      → ba_alloc_page malloc a m ≡ some ((a', p), m')
      → Holds a' m' (λ r. (r == p) || held r)
  Holds-added a a' m m' held p (t, paged, same) may ran =
      let (a1, m1, t1, ran1, after, count, more) =
        ba_alloc_page-IsPaged malloc a m t paged may.few_buckets may.few_pages p may.gives may.two
          may.proper (same p ∙ may.fresh) in
      let e = some-injective ((a1, p), m1) ((a', p), m') (sym ran1 ∙ ran) in
      subst (λ z. Holds z.0.0 z.1 (λ r. (r == p) || held r)) e
        (t1, after, λ r. more r ∙ ap (λ b. (r == p) || b) (same r))

  Holds-removed :
      (a a' : Allocator) (m m' : Memory) (held : ℕ → Bool) (p : ℕ) (es : List ℕ)
      → Holds a m held
      → MayRemove a m held es
      → mem p es ≡ true
      → ((r : ℕ) → mem r es ≡ true → r ≤ p)
      → ba_remove_page free a m ≡ some (a', m')
      → Holds a' m' (λ r. not (r == p) && held r)
  Holds-removed a a' m m' held p es (t, paged, same) may listed highest ran =
      let (q, a1, m1, t1, ran1, q_listed, q_highest, after, count, less) =
        ba_remove_page-IsPaged free frees a m t paged may.few_pages may.first es may.at may.list
          may.distinct may.some_page may.enough (λ r h. same r ∙ may.all_held r h) in
      let top : q ≡ p = omega (arith, highest q q_listed, q_highest p listed) in
      let e = some-injective (a1, m1) (a', m') (sym ran1 ∙ ran) in
      subst (λ z. Holds z.0 z.1 (λ r. not (r == p) && held r)) e
        (
          t1,
          after,
          λ r.
              less r
              ∙ ap (λ z. not (r == z) && in_table a t r) top
              ∙ ap (λ b. not (r == p) && b) (same r),
        )

  Holds-written :
      (a : Allocator) (m m' : Memory) (held : ℕ → Bool) (p : ℕ) (h : Header)
      → Holds a m held
      → set_header p h m ≡ some (tt, m')
      → Holds a m' held
  Holds-written a m m' held p h (t, paged, same) ran =
      let (chains, any) = keeps_header p h m tt m' ran in
      (t, IsPaged-relisted a.pages a.empty_pages chains paged, same)

  Holds-updated :
      (a a' : Allocator) (m m' : Memory) (held : ℕ → Bool) (p : ℕ) (h h' : Header)
      → Holds a m held
      → leb a.max_empty_pages (u32 (a.empty_pages + 1)) ≡ false
      → ba_update_slot free a p h m ≡ some ((a', h'), m')
      → Holds a' m' held
  Holds-updated a a' m m' held p h h' (t, paged, same) room ran =
      let (chains, (pages, empty, e)) = keeps_update free a room p h m (a', h') m' ran in
      subst (λ z. Holds z m' held) (sym e)
        (
          t,
          IsPaged-relisted pages empty chains paged,
          λ r. in_table-relisted a t pages empty r ∙ same r,
        )

  -- Given a `free` that leaves the other pages: after `ba_init` and any sequence of `ba_alloc_page`,
  -- writes of the header of a page, `ba_update_slot` with room for one more empty page, and
  -- `ba_remove_page` of the highest empty page, the hash table holds exactly the pages that
  -- were made and not removed since, and at most two for each bucket.
  pub Reached-Holds :
      {a : Allocator} {m : Memory} {held : ℕ → Bool} → Reached malloc free a m held → Holds a m held
  Reached-Holds (made {a} {m} a0 s n is) =
      subst (λ z. Holds z m (λ r. false)) (initial_of a0 a s n is)
        ((λ k. []), initial-IsPaged a0 m s n, λ r. refl)
  Reached-Holds (added {a'} {m'} a m held p before may ran) =
      Holds-added a a' m m' held p (Reached-Holds before) may ran
  Reached-Holds (written {m'} {held} a m p h before ran) =
      Holds-written a m m' held p h (Reached-Holds before) ran
  Reached-Holds (updated {a'} {m'} {held} a m p h h' before room ran) =
      Holds-updated a a' m m' held p h h' (Reached-Holds before) room ran
  Reached-Holds (removed {a'} {m'} a m held p es before may listed highest ran) =
      Holds-removed a a' m m' held p es (Reached-Holds before) may listed highest ran
