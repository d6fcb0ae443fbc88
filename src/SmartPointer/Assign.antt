-- ===== src/SmartPointer/Assign.antt =====
-- `operator=` of a `SmartPointer` in src/smartpointer.hh.
use mathlib.Core.Option.{some-injective, none-ne-some}
use gjalloc.Base.{
  ℕ, ◌+◌, ◌^◌, ◌≤◌, ◌<◌, ◌≡◌, ◌≢◌, refl, ◌∙◌, Bool-cases, inl, inr, ◌⊎◌, some, List, ◌∷◌, length,
  arith, ◌==◌, none, Option-cases, sym, ap, ==→eq, ==→ne, ne→==, u32,
}
use gjalloc.Memory.{Memory, null, M, ◌>>◌, load, store}
use gjalloc.Singleton.{Mv, deallocate}
use gjalloc.SmartPointer.{SmartPointer, release, add_owner, assign}
use gjalloc.SmartPointer.Owners.{
  owners, IsCounted, counted, give_back, owners-le-length, IsCounted-cons, cons_null,
  release-IsCounted, release_only,
}

-- The pointer has no cell, or shares it with one of `ps`.
abbrev pub Shares : SmartPointer → List SmartPointer → Type 0
Shares sp ps = (sp.refs ≡ null) ⊎ (1 ≤ owners sp.refs ps)

shared_count :
    (sp : SmartPointer) (ps : List SmartPointer)
    → sp.refs ≢ null
    → Shares sp ps
    → 1 ≤ owners sp.refs ps
shared_count sp ps ne (inl e) = absurd (ne e)
shared_count sp ps ne (inr h) = h

add_owner-counted :
    (r n : ℕ) (m : Memory)
    → r ≢ null
    → m.word r ≡ some n
    → n + 1 < 2 ^ 31
    → add_owner r m ≡ some (tt, counted m r (n + 1))
unfolding add_owner load store
add_owner-counted r n m ne is small =
    let e : u32 (n + 1) ≡ n + 1 = omega arith in rw (ne→== r null ne, is, is, e) refl

when_shared :
    {P Q : Type 0} (sp : SmartPointer) (ps : List SmartPointer)
    → Shares sp ps
    → (Shares sp ps × P) ⊎ ((sp.refs ≢ null) × (owners sp.refs ps ≡ 0) × Q)
    → P
when_shared sp ps s (inl (t, p)) = p
when_shared sp ps s (inr (ne, last, q)) = absurd (omega (arith, shared_count sp ps ne s, last))

add_owner-IsCounted :
    (sp : SmartPointer) (ps : List SmartPointer) (m : Memory)
    → IsCounted m ps
    → length ps + 1 < 2 ^ 31
    → Shares sp ps
    → (m' : Memory) × (add_owner sp.refs m ≡ some (tt, m'))
      × IsCounted m' (sp ∷ ps)
      × (m'.page ≡ m.page)
unfolding add_owner
add_owner-IsCounted sp ps m c room shares = elim (Bool-cases (sp.refs == null)) [
  | inl empty ↦ (m, rw empty refl, cons_null sp ps m (==→eq sp.refs null empty) c room, refl)
  | inr other ↦
      let ne = ==→ne sp.refs null other in
      let is = c.counts sp.refs ne (shared_count sp ps ne shares) in
      (
        counted m sp.refs (owners sp.refs ps + 1),
        add_owner-counted sp.refs (owners sp.refs ps) m ne is
            (omega (arith, owners-le-length sp.refs ps, room)),
        IsCounted-cons m sp ps c room,
        refl,
      )
]

add_owner-gone :
    {B : Type 0} (k : M B) (r : ℕ) (m : Memory)
    → r ≢ null
    → m.word r ≡ none
    → (add_owner r >> k) m ≡ none
unfolding add_owner load
add_owner-gone k r m ne gone = rw (ne→== r null ne, gone) refl

module _ (free delete : ℕ → M (Unit {0})) (mv : Mv) where
  give_back_deletes :
      (sp : SmartPointer) (mv' : Mv) (m m' : Memory)
      → ((r : ℕ) (m1 m2 : Memory) → delete r m1 ≡ some (tt, m2) → m2.word r ≡ none)
      → give_back free delete mv sp m ≡ some (mv', m')
      → m'.word sp.refs ≡ none
  give_back_deletes sp mv' m m' deletes ran = elim (Option-cases (deallocate free mv sp.t 1 m)) [
    | inl fault ↦ absurd (none-ne-some (mv', m') (rw fault at ran))
    | inr ((mv1, m1), e) ↦ elim (Option-cases (delete sp.refs m1)) [
      | inl fault ↦ absurd (none-ne-some (mv', m') (rw (e, fault) at ran))
      | inr ((u, m2), d) ↦
          let last = some-injective (mv1, m2) (mv', m') (rw (e, d) at ran) in
          ap (λ z. z.1.word sp.refs) (sym last) ∙ deletes sp.refs m1 m2 d
    ]
  ]

  -- Given cells that count the owners, when a pointer that has no cell or shares it with one of `ps`
  -- is assigned one that has no cell or shares it with one of `ps`, nothing is given back, and
  -- afterwards the cells count the owners with the one pointer in place of the other.
  pub assign-IsCounted :
      (self other : SmartPointer) (ps : List SmartPointer) (m : Memory)
      → IsCounted m (self ∷ ps)
      → Shares self ps
      → Shares other ps
      → (m' : Memory) × (assign free delete mv self other m ≡ some ((mv, other), m'))
        × IsCounted m' (other ∷ ps)
        × (m'.page ≡ m.page)
  unfolding assign
  assign-IsCounted self other ps m c shared alive =
      let (m1, c1, pages, words, cases) = release-IsCounted free delete mv self ps m c in
      let (m2, ran2, c2, pages2) =
        add_owner-IsCounted other ps m1 c1 (omega (arith, c.few)) alive in
      let ran1 : release free delete mv self m ≡ some (mv, m1) = when_shared self ps shared cases in
      (m2, rw (ran1, ran2) refl, c2, pages2 ∙ pages)

  -- Given cells that count the owners, a pointer that is the only owner of its cell, a `delete` after
  -- which the cell is no memory, and that the object and the cell can be given back once the count is
  -- 0: destroying the pointer gives them back, and assigning the pointer to itself is a fault, an
  -- access to the cell that was given back.
  pub assign_self :
      (self : SmartPointer) (ps : List SmartPointer) (m : Memory)
      → IsCounted m (self ∷ ps)
      → self.refs ≢ null
      → owners self.refs ps ≡ 0
      → ((r : ℕ) (m1 m2 : Memory) → delete r m1 ≡ some (tt, m2) → m2.word r ≡ none)
      → (mv' : Mv) (m' : Memory)
      → give_back free delete mv self (counted m self.refs 0) ≡ some (mv', m')
      → (release free delete mv self m ≡ some (mv', m'))
        × (m'.word self.refs ≡ none)
        × (assign free delete mv self self m ≡ none)
  unfolding assign
  assign_self self ps m c ne last deletes mv' m' given =
      let ran = release_only free delete mv self ps m c ne last ∙ given in
      let gone = give_back_deletes self mv' (counted m self.refs 0) m' deletes given in
      (ran, gone, rw ran (add_owner-gone _ self.refs m' ne gone))
