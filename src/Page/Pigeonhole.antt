-- ===== src/Page/Pigeonhole.antt =====
-- Distinct numbers below a bound are at most as many as the bound.
use mathlib.Core.Bool.{false≢true}
use gjalloc.Base.{
  ℕ, zero, suc, ◌≤◌, ◌<◌, ◌≡◌, ◌≢◌, refl, true, false, List, [], ◌∷◌, length, arith, ◌==◌,
  if◌then◌else◌, Bool-cases, inl, inr, ==→eq, eq→==,
}
use gjalloc.Page.FreeList.{mem, Distinct}

without : ℕ → List ℕ → List ℕ
without n [] = []
without n (x ∷ xs) = if n == x then without n xs else x ∷ without n xs

mem-without : (j n : ℕ) (xs : List ℕ) → mem j (without n xs) ≡ true → (mem j xs ≡ true) × (j ≢ n)
unfolding without
mem-without j n [] h = absurd (false≢true h)
mem-without j n (x ∷ xs) h = ground (arith, mem-without j n xs)

without_absent : (n : ℕ) (xs : List ℕ) → mem n xs ≡ false → length (without n xs) ≡ length xs
unfolding without
without_absent n [] h = refl
without_absent n (x ∷ xs) h = ground (arith, without_absent n xs)

length-without : (n : ℕ) (xs : List ℕ) → Distinct xs → length xs ≤ suc (length (without n xs))
unfolding without
length-without n [] d = omega arith
length-without n (x ∷ xs) d = elim (Bool-cases (n == x)) [
  | inl here ↦
      let e = ==→eq n x here in
      let out : mem n xs ≡ false = rw e d.0 in rw here (omega (arith, without_absent n xs out))
  | inr other ↦ rw other (omega (arith, length-without n xs d.1))
]

Distinct-without : (n : ℕ) (xs : List ℕ) → Distinct xs → Distinct (without n xs)
unfolding without
Distinct-without n [] d = tt
Distinct-without n (x ∷ xs) d = elim (Bool-cases (n == x)) [
  | inl here ↦ rw here (Distinct-without n xs d.1)
  | inr other ↦ rw other (elim (Bool-cases (mem x (without n xs))) [
    | inl is ↦ absurd (ground (arith, d.0, mem-without x n xs is))
    | inr isnt ↦ (isnt, Distinct-without n xs d.1)
  ])
]

pub length-le :
    (n : ℕ) (xs : List ℕ) → Distinct xs → ((j : ℕ) → mem j xs ≡ true → j < n) → length xs ≤ n
length-le zero [] d h = omega arith
length-le zero (x ∷ xs) d h =
    let here : mem x (x ∷ xs) ≡ true = rw (eq→== x x refl) refl in absurd (omega (arith, h x here))
length-le (suc n) xs d h =
    let rest =
      length-le n (without n xs) (Distinct-without n xs d)
        (λ j is. let (was, ne) = mem-without j n xs is in omega (arith, h j was)) in
    omega (arith, length-without n xs d)
