-- ===== src/Htable/Resize/Split.antt =====
-- A bucket of the hash table of src/gjalloc.c is split in two: the pages that stay, in their order,
-- and those that go, each in front of the one before.
use mathlib.Core.Bool.{false≢true}
use gjalloc.Base.{
  ℕ, ◌+◌, ◌≤◌, ◌≡◌, sym, ap, ◌∙◌, true, false, Bool, Bool-cases, inl, inr, List, [], ◌∷◌, length,
  arith, ◌==◌, if◌then◌else◌, ◌&&◌, ◌||◌, not, ==→eq,
}
use gjalloc.Page.FreeList.{mem, Distinct}
use gjalloc.Page.Frame.{mem_head, mem_tail}

module _ (stays : ℕ → Bool) where
  abbrev pub staying : List ℕ → List ℕ
  staying [] = []
  staying (p ∷ ps) = let rest = staying ps in if stays p then p ∷ rest else rest

  abbrev pub going : List ℕ → List ℕ → List ℕ
  going [] ms = ms
  going (p ∷ ps) ms = if stays p then going ps ms else going ps (p ∷ ms)

  pub mem-staying : (r : ℕ) (ps : List ℕ) → mem r (staying ps) ≡ (stays r && mem r ps)
  mem-staying r [] = ground arith
  mem-staying r (p ∷ ps) = ground (arith, mem-staying r ps)

  pub mem-going :
      (r : ℕ) (ps ms : List ℕ) → mem r (going ps ms) ≡ ((not (stays r) && mem r ps) || mem r ms)
  mem-going r [] ms = ground arith
  mem-going r (p ∷ ps) ms = ground (arith, mem-going r ps ms, mem-going r ps (p ∷ ms))

  pub length-staying : (ps : List ℕ) → length (staying ps) ≤ length ps
  length-staying [] = omega arith
  length-staying (p ∷ ps) = ground (arith, length-staying ps)

  pub length-going : (ps ms : List ℕ) → length (going ps ms) ≤ length ps + length ms
  length-going [] ms = omega arith
  length-going (p ∷ ps) ms = ground (arith, length-going ps ms, length-going ps (p ∷ ms))

  pub Distinct-staying : (ps : List ℕ) → Distinct ps → Distinct (staying ps)
  Distinct-staying [] d = tt
  Distinct-staying (p ∷ ps) d = elim (Bool-cases (stays p)) [
    | inl stay ↦ rw stay (ground (arith, mem-staying p ps, d.0), Distinct-staying ps d.1)
    | inr go ↦ rw go (Distinct-staying ps d.1)
  ]

  pub Distinct-going :
      (ps ms : List ℕ)
      → Distinct ps
      → Distinct ms
      → ((r : ℕ) → mem r ps ≡ true → mem r ms ≡ false)
      → Distinct (going ps ms)
  Distinct-going [] ms d e apart = e
  Distinct-going (p ∷ ps) ms d e apart = elim (Bool-cases (stays p)) [
    | inl stay ↦ rw stay (Distinct-going ps ms d.1 e (λ r h. apart r (ground arith)))
    | inr go ↦
        rw go (Distinct-going ps (p ∷ ms) d.1 (apart p (mem_head p ps), e) (λ r h. outside r h))
  ]
    where
      outside : (r : ℕ) → mem r ps ≡ true → mem r (p ∷ ms) ≡ false
      outside r h = elim (Bool-cases (r == p)) [
        | inl same ↦ absurd (false≢true (sym d.0 ∙ ap (λ z. mem z ps) (sym (==→eq r p same)) ∙ h))
        | inr other ↦ rw other (apart r (mem_tail r p ps h))
      ]
