-- ===== src/SmartPointer/Owners.antt =====
-- The count in the cell of a `SmartPointer` of src/smartpointer.hh is the number of its owners.
use gjalloc.Base.{
  ℕ, suc, ◌+◌, ◌^◌, ◌≤◌, ◌<◌, ◌≡◌, ◌≢◌, refl, sym, ap, ◌∙◌, Bool-cases, inl, inr, ◌⊎◌, some, List,
  [], ◌∷◌, length, arith, ◌==◌, ==→eq, ==→ne, eq→==, ne→==, if◌then◌else◌, sub32,
}
use gjalloc.Memory.{Memory, null, M, pure, ◌>>=◌, ◌>>◌, load, store, update}
use gjalloc.Singleton.{Mv, deallocate}
use gjalloc.SmartPointer.{SmartPointer, release}

-- How many of the pointers share the cell `r`.
abbrev pub owners : ℕ → List SmartPointer → ℕ
owners r [] = 0
owners r (sp ∷ ps) = (if r == sp.refs then 1 else 0) + owners r ps

-- `ps` are the pointers that are alive: every cell that one of them has counts its owners, and they
-- are not too many for an `int`.
pub record IsCounted (m : Memory) (ps : List SmartPointer) : Type 0 where
  pub counts : (r : ℕ) → r ≢ null → 1 ≤ owners r ps → m.word r ≡ some (owners r ps)
  pub few : length ps < 2 ^ 31

pub owners-le-length : (r : ℕ) (ps : List SmartPointer) → owners r ps ≤ length ps
owners-le-length r [] = omega arith
owners-le-length r (sp ∷ ps) = ground (arith, owners-le-length r ps)

-- The memory after a count has been written.
abbrev pub counted : Memory → ℕ → ℕ → Memory
counted m r n = record m { word = update m.word r (some n) }

owners_head :
    (sp : SmartPointer) (ps : List SmartPointer)
    → owners sp.refs (sp ∷ ps) ≡ suc (owners sp.refs ps)
owners_head sp ps = rw (eq→== sp.refs sp.refs refl) (omega arith)

owners_tail :
    (r : ℕ) (sp : SmartPointer) (ps : List SmartPointer)
    → r ≢ sp.refs
    → owners r (sp ∷ ps) ≡ owners r ps
owners_tail r sp ps ne = rw (ne→== r sp.refs ne) (omega arith)

written_ne : (m : Memory) (r n s : ℕ) → s ≢ r → (counted m r n).word s ≡ m.word s
written_ne m r n s ne = rw (ne→== r s (λ e. ne (sym e))) refl

some_left : (n : ℕ) → n ≢ 0 → 1 ≤ n
some_left n ne = omega arith

head_count :
    (m : Memory) (sp : SmartPointer) (ps : List SmartPointer)
    → IsCounted m (sp ∷ ps)
    → sp.refs ≢ null
    → m.word sp.refs ≡ some (suc (owners sp.refs ps))
head_count m sp ps c ne =
    c.counts sp.refs ne (omega (arith, owners_head sp ps)) ∙ ap some (owners_head sp ps)

few_others :
    (m : Memory) (sp : SmartPointer) (ps : List SmartPointer)
    → IsCounted m (sp ∷ ps)
    → owners sp.refs ps < 2 ^ 31
few_others m sp ps c = omega (arith, owners-le-length sp.refs ps, c.few)

-- A pointer without a cell is no owner.
without_cell :
    (sp : SmartPointer) (ps : List SmartPointer) (m : Memory)
    → sp.refs ≡ null
    → IsCounted m (sp ∷ ps)
    → IsCounted m ps
without_cell sp ps m e c = record {
  counts = λ r ne owned.
      let tail = owners_tail r sp ps (λ z. ne (z ∙ e)) in
      c.counts r ne (omega (arith, owned, tail)) ∙ ap some tail;
  few = omega (arith, c.few);
}

pub cons_null :
    (sp : SmartPointer) (ps : List SmartPointer) (m : Memory)
    → sp.refs ≡ null
    → IsCounted m ps
    → length ps + 1 < 2 ^ 31
    → IsCounted m (sp ∷ ps)
cons_null sp ps m e c room = record {
  counts = λ r ne owned.
      let tail = owners_tail r sp ps (λ z. ne (z ∙ e)) in
      c.counts r ne (omega (arith, owned, tail)) ∙ ap some (sym tail);
  few = omega (arith, room);
}

-- One owner less.
IsCounted-tail :
    (m : Memory) (sp : SmartPointer) (ps : List SmartPointer)
    → IsCounted m (sp ∷ ps)
    → IsCounted (counted m sp.refs (owners sp.refs ps)) ps
IsCounted-tail m sp ps c = record { counts = counts; few = omega (arith, c.few) }
  where
    counts :
        (r : ℕ)
        → r ≢ null
        → 1 ≤ owners r ps
        → update m.word sp.refs (some (owners sp.refs ps)) r ≡ some (owners r ps)
    counts r ne owned = elim (Bool-cases (sp.refs == r)) [
      | inl here ↦ rw here (ap (λ t. some (owners t ps)) (==→eq sp.refs r here))
      | inr other ↦
          let r_ne : r ≢ sp.refs = λ e. ==→ne sp.refs r other (sym e) in
          rw other (
            c.counts r ne (omega (arith, owners_tail r sp ps r_ne))
            ∙ ap some (owners_tail r sp ps r_ne))
    ]

-- One owner more.
pub IsCounted-cons :
    (m : Memory) (sp : SmartPointer) (ps : List SmartPointer)
    → IsCounted m ps
    → length ps + 1 < 2 ^ 31
    → IsCounted (counted m sp.refs (owners sp.refs ps + 1)) (sp ∷ ps)
IsCounted-cons m sp ps c room = record { counts = counts; few = room' }
  where
    room' : length (sp ∷ ps) < 2 ^ 31
    room' = omega (arith, room)

    counts :
        (r : ℕ)
        → r ≢ null
        → 1 ≤ owners r (sp ∷ ps)
        → update m.word sp.refs (some (owners sp.refs ps + 1)) r ≡ some (owners r (sp ∷ ps))
    counts r ne owned = elim (Bool-cases (sp.refs == r)) [
      | inl here ↦ rw here (
          ap some (omega (arith, owners_head sp ps))
          ∙ ap (λ t. some (owners t (sp ∷ ps))) (==→eq sp.refs r here))
      | inr other ↦
          let r_ne : r ≢ sp.refs = λ e. ==→ne sp.refs r other (sym e) in
          rw other (
            c.counts r ne (omega (arith, owned, owners_tail r sp ps r_ne))
            ∙ ap some (sym (owners_tail r sp ps r_ne)))
    ]

module _ (free delete : ℕ → M (Unit {0})) (mv : Mv) where
  -- What `release` does when the count has reached 0.
  abbrev pub give_back : SmartPointer → M Mv
  give_back sp = do mv' ← deallocate free mv sp.t 1; delete sp.refs; pure mv'

  release-null :
      (sp : SmartPointer) (m : Memory) → sp.refs ≡ null → release free delete mv sp m ≡ some (mv, m)
  unfolding release
  release-null sp m e = rw (eq→== sp.refs null e) refl

  -- With `n` other owners.
  module _ (sp : SmartPointer) (n : ℕ) (m : Memory) (ne : sp.refs ≢ null)
      (is : m.word sp.refs ≡ some (suc n)) (small : n < 2 ^ 31) where
    less : sub32 (suc n) 1 ≡ n
    less = omega arith

    release-shared : 1 ≤ n → release free delete mv sp m ≡ some (mv, counted m sp.refs n)
    unfolding release load store
    release-shared more = rw (ne→== sp.refs null ne, is, is, less, ne→== n 0 (omega arith)) refl

    release-last : n ≡ 0 → release free delete mv sp m ≡ give_back sp (counted m sp.refs n)
    unfolding release load store
    release-last last = rw (ne→== sp.refs null ne, is, is, less, eq→== n 0 last) refl

  -- Given cells that count the owners, when a pointer is destroyed the cells count the others; if it
  -- has no cell or shares it nothing else happens, and if it was the only owner, then and only
  -- then, the object is given back, and the cell deleted, in the memory with these counts.
  pub release-IsCounted :
      (sp : SmartPointer) (ps : List SmartPointer) (m : Memory)
      → IsCounted m (sp ∷ ps)
      → (m' : Memory) × IsCounted m' ps
        × (m'.page ≡ m.page)
        × ((r : ℕ) → r ≢ sp.refs → m'.word r ≡ m.word r)
        × ((((sp.refs ≡ null) ⊎ (1 ≤ owners sp.refs ps))
              × (release free delete mv sp m ≡ some (mv, m')))
            ⊎ ((sp.refs ≢ null)
                × (owners sp.refs ps ≡ 0)
                × (release free delete mv sp m ≡ give_back sp m')))
  release-IsCounted sp ps m c = elim (Bool-cases (sp.refs == null)) [
    | inl empty ↦
        let e = ==→eq sp.refs null empty in
        (m, without_cell sp ps m e c, refl, λ r ne. refl, inl (inl e, release-null sp m e))
    | inr other ↦
        let ne = ==→ne sp.refs null other in
        let is = head_count m sp ps c ne in
        let small = few_others m sp ps c in
        elim (Bool-cases (owners sp.refs ps == 0)) [
          | inl last ↦
              let zero_left = ==→eq (owners sp.refs ps) 0 last in
              (
                counted m sp.refs (owners sp.refs ps),
                IsCounted-tail m sp ps c,
                refl,
                written_ne m sp.refs (owners sp.refs ps),
                inr (ne, zero_left, release-last sp (owners sp.refs ps) m ne is small zero_left),
              )
          | inr shared ↦
              let more = some_left (owners sp.refs ps) (==→ne (owners sp.refs ps) 0 shared) in
              (
                counted m sp.refs (owners sp.refs ps),
                IsCounted-tail m sp ps c,
                refl,
                written_ne m sp.refs (owners sp.refs ps),
                inl (inr more, release-shared sp (owners sp.refs ps) m ne is small more),
              )
        ]
  ]

  -- The last owner leaves: the count is 0 when the object is given back.
  pub release_only :
      (sp : SmartPointer) (ps : List SmartPointer) (m : Memory)
      → IsCounted m (sp ∷ ps)
      → sp.refs ≢ null
      → owners sp.refs ps ≡ 0
      → release free delete mv sp m ≡ give_back sp (counted m sp.refs 0)
  release_only sp ps m c ne last =
      let is = head_count m sp ps c ne in
      let small = few_others m sp ps c in
      release-last sp (owners sp.refs ps) m ne is small last
      ∙ ap (λ n. give_back sp (counted m sp.refs n)) last
