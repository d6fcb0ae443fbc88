-- ===== src/Page/Walk/Chunks.antt =====
-- The chunks that a walk over a page of src/gjalloc.c has to visit: the gaps between the free
-- blocks.
use gjalloc.Base.{
  ℕ, zero, suc, ◌+◌, ◌≤◌, ◌<◌, ◌≡◌, refl, ◌∙◌, arith, true, List, [], ◌∷◌, ltb, leb, ◌&&◌, not,
  le→leb, if◌then◌else◌,
}
use gjalloc.Page.FreeList.{run_of, mem, IsAscending}
use gjalloc.Page.Frame.{mem_head, mem_tail}
use gjalloc.Page.Shift.{IsAscending-tail}

-- The gap from `a` up to `b`, if there is one, in front of `cs`.
abbrev pub gap : ℕ → ℕ → List (ℕ × ℕ) → List (ℕ × ℕ)
gap a b cs = if ltb a b then (a, b) ∷ cs else cs

-- The gaps behind and between the ascending numbers `zs`, from `start` up to `blocks`.
abbrev pub chunks : ℕ → ℕ → List ℕ → List (ℕ × ℕ)
chunks blocks start [] = gap start blocks []
chunks blocks start (z ∷ zs) = gap start z (chunks blocks (suc z) zs)

-- How many chunks hold the block `j`.
abbrev pub visits : ℕ → List (ℕ × ℕ) → ℕ
visits j [] = 0
visits j ((a, b) ∷ cs) = (if leb a j && ltb j b then 1 else 0) + visits j cs

visits-gap :
    (j a b : ℕ) (cs : List (ℕ × ℕ))
    → visits j (gap a b cs) ≡ (if leb a j && ltb j b then 1 else 0) + visits j cs
visits-gap j a b cs = ground arith

pub IsAscending-first :
    {z : ℕ} (zs : List ℕ) → IsAscending (z ∷ zs) → (j : ℕ) → mem j zs ≡ true → z < j
IsAscending-first [] order j h = absurd (cc)
IsAscending-first (y ∷ zs) order j h = let rest = IsAscending-first zs order.1 j in ground arith

-- Every number from `start` on below `blocks` that is not in the list is in one chunk, and no
-- other number is.
pub visits-chunks :
    (blocks start : ℕ) (zs : List ℕ) (j : ℕ)
    → IsAscending zs
    → ((k : ℕ) → mem k zs ≡ true → start ≤ k)
    → ((k : ℕ) → mem k zs ≡ true → k < blocks)
    → visits j (chunks blocks start zs)
      ≡ (if leb start j && (ltb j blocks && not (mem j zs)) then 1 else 0)
visits-chunks blocks start [] j order low high = visits-gap j start blocks [] ∙ ground arith
visits-chunks blocks start (z ∷ zs) j order low high =
    let ih =
      visits-chunks blocks (suc z) zs j (IsAscending-tail z zs order)
        (λ k h. IsAscending-first zs order k h) (λ k h. high k (mem_tail k z zs h)) in
    visits-gap j start z (chunks blocks (suc z) zs)
    ∙ ground (
      arith,
      ih,
      low z (mem_head z zs),
      high z (mem_head z zs),
      low j,
      IsAscending-first zs order j,
    )

-- All behind a run of free blocks is free.
pub chunks-run_of : (blocks n i : ℕ) → i + n ≡ blocks → chunks blocks i (run_of n i) ≡ []
chunks-run_of blocks zero i e = ground arith
chunks-run_of blocks (suc n) i e = ground (arith, chunks-run_of blocks n (suc i) (omega arith))

-- From the start of a page on, for a list with the same numbers as `xs`.
pub visits-page :
    (blocks : ℕ) (zs xs : List ℕ)
    → IsAscending zs
    → ((k : ℕ) → mem k zs ≡ true → k < blocks)
    → ((k : ℕ) → mem k zs ≡ mem k xs)
    → (j : ℕ) → visits j (chunks blocks 0 zs) ≡ (if ltb j blocks && not (mem j xs) then 1 else 0)
visits-page blocks zs xs order high same j =
    visits-chunks blocks 0 zs j order (λ k h. omega arith) high
    ∙ rw (le→leb 0 j (omega arith), same j) refl
