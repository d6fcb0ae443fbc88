-- ===== src/Global/Slot.antt =====
-- The list of `pages` that a page belongs to: `ba_get_slot`, `ba_is_low` and `ba_is_high` of
-- src/gjalloc.h, without `BA_ALLOC_FROM_FULL`.
use gjalloc.Base.{
  ℕ, ◌+◌, ◌*◌, ◌/◌, ◌≤◌, ◌<◌, ◌≡◌, ◌≢◌, arith, ltb, leb, ◌==◌, if◌then◌else◌, Bool, true, false,
  not, ◌&&◌, Option, none, some, ◌⊎◌, inl, inr, refl, Bool-cases, ==→eq, ==→ne, lt→leb, lt→ltb,
  le→ltb, leb→le, leb→lt,
}
use gjalloc.Layout.{Layout}
use gjalloc.Memory.{Header, null}
use gjalloc.Allocator.{Allocator}

unfoldable pub ba_is_low : Layout → Header → Bool
ba_is_low l h = ltb h.used (l.blocks / 2)

unfoldable pub ba_is_high : Layout → Header → Bool
ba_is_high l h = not (h.first == null) && leb (l.blocks / 2) h.used

-- The place in `pages`; `none` is NULL, for a full page.
unfoldable pub ba_get_slot : Allocator → Header → Option ℕ
ba_get_slot a h =
    if h.first == null
    then none
    else some ((if leb (a.l.blocks / 2) h.used then 1 else 0) + 2 * (if h.used == 0 then 1 else 0))

-- For pages of at least two blocks: a full page (no first block) is in no list; one of which no
-- block is used is in the third, and is low; one in use is in the second if it is high, and in
-- the first if it is low, and it is never both.
pub ba_get_slot_lem :
    (a : Allocator) (h : Header)
    → 2 ≤ a.l.blocks
    → ((h.first ≡ null) × (ba_get_slot a h ≡ none) × (ba_is_high a.l h ≡ false))
      ⊎ ((h.first ≢ null)
          × (((h.used ≡ 0)
                × (ba_get_slot a h ≡ some 2)
                × (ba_is_low a.l h ≡ true)
                × (ba_is_high a.l h ≡ false))
              ⊎ ((h.used ≢ 0)
                  × (((ba_get_slot a h ≡ some 1)
                        × (ba_is_low a.l h ≡ false)
                        × (ba_is_high a.l h ≡ true))
                      ⊎ ((ba_get_slot a h ≡ some 0)
                          × (ba_is_low a.l h ≡ true)
                          × (ba_is_high a.l h ≡ false))))))
unfolding ba_get_slot ba_is_low ba_is_high
ba_get_slot_lem a h two = elim (Bool-cases (h.first == null)) [
  | inl full ↦ inl (==→eq h.first null full, rw full refl, rw full refl)
  | inr free ↦ inr (
    ==→ne h.first null free,
    elim (Bool-cases (h.used == 0)) [
      | inl e ↦
          let z = ==→eq h.used 0 e in
          let low : h.used < a.l.blocks / 2 = omega arith in
          inl (
            z,
            rw (free, e, lt→leb (a.l.blocks / 2) h.used low) refl,
            lt→ltb h.used (a.l.blocks / 2) low,
            rw (free, lt→leb (a.l.blocks / 2) h.used low) refl,
          )
      | inr ne ↦ inr (
        ==→ne h.used 0 ne,
        elim (Bool-cases (leb (a.l.blocks / 2) h.used)) [
          | inl high ↦ inl (
            rw (free, ne, high) refl,
            le→ltb h.used (a.l.blocks / 2) (leb→le (a.l.blocks / 2) h.used high),
            rw (free, high) refl,
          )
          | inr low ↦ inr (
            rw (free, ne, low) refl,
            lt→ltb h.used (a.l.blocks / 2) (leb→lt (a.l.blocks / 2) h.used low),
            rw (free, low) refl,
          )
        ],
      )
    ],
  )
]
