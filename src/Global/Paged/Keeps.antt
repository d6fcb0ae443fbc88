-- ===== src/Global/Paged/Keeps.antt =====
-- `ba_update_slot` of src/gjalloc.c keeps the page table.
use gjalloc.Base.{
  ℕ, ◌+◌, ◌≡◌, refl, false, Bool-cases, inl, inr, Option, none, some, List, ◌==◌, if◌then◌else◌,
  leb, u32, set,
}
use gjalloc.Memory.{Header, Page, Memory, M, pure, ◌>>=◌, ◌>>◌}
use gjalloc.Allocator.{Allocator}
use gjalloc.Htable.{bucket_of, hash1, masked_hash}
use gjalloc.Htable.Chain.{IsTable, SameChains, IsTable-same}
use gjalloc.Global.Slot.{ba_get_slot}
use gjalloc.Global.Update.{
  set_header, unlink_slot, link_slot, same_slot, reset_page, ba_update_slot,
}
use gjalloc.Global.Paged.{IsPaged, in_table}
use gjalloc.Global.Paged.Commands.{
  Keeps, Any, keeps_pure, keeps_bind, keeps_load, keeps_store, keeps_list, keeps_header, keeps_link,
  keeps_unlink,
}

keeps_unlink_slot :
    (pages : List ℕ) (slot : Option ℕ) (p : ℕ) → Keeps (unlink_slot pages slot p) (Any (List ℕ))
unfolding unlink_slot
keeps_unlink_slot pages none p = keeps_pure pages (Any (List ℕ)) tt
keeps_unlink_slot pages (some i) p = keeps_bind (keeps_list pages i) (λ head _.
    keeps_bind (keeps_unlink head p) (λ head' _. keeps_pure (set pages i head') (Any (List ℕ)) tt))

keeps_link_slot :
    (pages : List ℕ) (slot : Option ℕ) (p : ℕ) → Keeps (link_slot pages slot p) (Any (List ℕ))
unfolding link_slot
keeps_link_slot pages none p = keeps_pure pages (Any (List ℕ)) tt
keeps_link_slot pages (some i) p = keeps_bind (keeps_list pages i) (λ head _.
    keeps_bind (keeps_link head p) (λ head' _. keeps_pure (set pages i head') (Any (List ℕ)) tt))

-- Only the lists of pages, and how many pages are empty, have changed.
abbrev pub Relisted : Allocator → Allocator → Type 0
Relisted a a' =
    (pages : List ℕ) × (empty : ℕ) × (a' ≡ record a { pages = pages; empty_pages = empty })

abbrev pub Updated : Allocator → Allocator × Header → Type 0
Updated a r = Relisted a (r.0)

module _ (free : ℕ → M (Unit {0})) (a : Allocator)
    (room : leb a.max_empty_pages (u32 (a.empty_pages + 1)) ≡ false) where
  keeps_reset :
      (pages : List ℕ) (p : ℕ) (h : Header)
      → Keeps (reset_page free (record a { pages = pages }) p h) (Updated a)
  unfolding reset_page
  keeps_reset pages p h = rw room (
      keeps_bind (keeps_store _ _) (λ x _. keeps_bind (keeps_header p _) (λ y _.
        keeps_pure (record a { pages = pages; empty_pages = u32 (a.empty_pages + 1) }, _)
          (Updated a) (pages, u32 (a.empty_pages + 1), refl))))

  keeps_rest :
      (pages : List ℕ) (p : ℕ) (h : Header)
      → Keeps
          (if h.used == 0
            then reset_page free (record a { pages = pages }) p h
            else do set_header p h; pure (record a { pages = pages }, h))
          (Updated a)
  keeps_rest pages p h m x m' ran = elim (Bool-cases (h.used == 0)) [
    | inl empty ↦ keeps_reset pages p h m x m' (rw empty at ran)
    | inr used ↦
        keeps_bind (keeps_header p h)
          (λ y _.
            keeps_pure (record a { pages = pages }, h) (Updated a) (pages, a.empty_pages, refl))
          m x m' (rw used at ran)
  ]

  -- As long as one more empty page is kept.
  pub keeps_update : (p : ℕ) (h : Header) → Keeps (ba_update_slot free a p h) (Updated a)
  unfolding ba_update_slot
  keeps_update p h = keeps_bind (keeps_load p) (λ pg _. changed pg)
    where
      changed :
          (pg : Page)
          → Keeps
              (if same_slot (ba_get_slot a pg.h) (ba_get_slot a h) then pure (a, h) else do
                less ← unlink_slot a.pages (ba_get_slot a pg.h) p
                pages' ← link_slot less (ba_get_slot a h) p
                (if h.used == 0
                    then reset_page free (record a { pages = pages' }) p h
                    else do set_header p h; pure (record a { pages = pages' }, h)))
              (Updated a)
      changed pg m x m' ran = elim (Bool-cases (same_slot (ba_get_slot a pg.h) (ba_get_slot a h))) [
        | inl same ↦
            keeps_pure (a, h) (Updated a) (a.pages, a.empty_pages, refl) m x m' (rw same at ran)
        | inr other ↦
            keeps_bind (keeps_unlink_slot a.pages (ba_get_slot a pg.h) p)
              (λ less _.
                keeps_bind (keeps_link_slot less (ba_get_slot a h) p)
                  (λ pages' _. keeps_rest pages' p h))
              m x m' (rw other at ran)
      ]

-- The page table stays when only the lists of pages change.
pub IsPaged-relisted :
    {a : Allocator} {m m' : Memory} {t : ℕ → List ℕ} (pages : List ℕ) (empty : ℕ)
    → SameChains m m'
    → IsPaged a m t
    → IsPaged (record a { pages = pages; empty_pages = empty }) m' t
unfolding bucket_of hash1 masked_hash
IsPaged-relisted {a} {m} {m'} {t} pages empty same s =
    let table : IsTable a m' t = IsTable-same same s.table in
    record {
      table = record {
        chains = table.chains;
        homes = table.homes;
        distinct = table.distinct;
        few = table.few;
        some_buckets = table.some_buckets;
        word = table.word;
      };
      size = s.size;
      width = s.width;
      power = s.power;
      total = s.total;
      load = s.load;
    }

pub in_table-relisted :
    (a : Allocator) (t : ℕ → List ℕ) (pages : List ℕ) (empty r : ℕ)
    → in_table (record a { pages = pages; empty_pages = empty }) t r ≡ in_table a t r
unfolding bucket_of hash1 masked_hash
in_table-relisted a t pages empty r = refl
