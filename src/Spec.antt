-- ===== src/Spec.antt =====
-- What the allocators of src/gjalloc.h promise to a client: a pool of blocks. The free blocks are
-- a bag, whose order is forgotten; which of them a request gets is not determined.
use mathlib.Core.Quot
use mathlib.Core.Quot.{Quot, Quot-set}
use gjalloc.Base.{
  ℕ, zero, suc, ◌+◌, ◌≡◌, refl, ap, false, none, some, List, [], ◌∷◌, map, arith, ◌==◌,
  if◌then◌else◌, get_elem?,
}
use gjalloc.Page.FreeList.{mem}

abbrev pub times : ℕ → List ℕ → ℕ
times j [] = 0
times j (x ∷ xs) = (if j == x then 1 else 0) + times j xs

abbrev pub Pool : Type 0
Pool = Quot (λ (xs ys : List ℕ). (j : ℕ) → times j xs ≡ times j ys)

-- The pool with the blocks of a list, whose order it forgets.
abbrev pub pool_of : List ℕ → Pool
pool_of xs = Quot.mk xs

unfoldable pub with_block : Pool → ℕ → Pool
with_block free i = Quot.lift Quot-set (λ zs. pool_of (i ∷ zs)) (same_times i) free
  where
    same_times :
        (i : ℕ) (xs ys : List ℕ)
        → ((j : ℕ) → times j xs ≡ times j ys)
        → pool_of (i ∷ xs) ≡ pool_of (i ∷ ys)
    same_times i xs ys same = Quot.sound (λ j. ap (λ t. (if j == i then 1 else 0) + t) (same j))

abbrev pub remove_at {ℓ} : {A : Type ℓ} → List A → ℕ → List A
remove_at [] k = []
remove_at (x ∷ xs) zero = xs
remove_at (x ∷ xs) (suc k) = x ∷ remove_at xs k

-- A client asks for a block, or gives back the `k`-th that it holds.
pub data Request : Type 0 where
  get : Request
  give : ℕ → Request

-- A pool with the free blocks of a bag, and the blocks that the client holds, the newest first.
pub data Step (free : Pool) (held : List ℕ) : Request → Pool → List ℕ → Type 0 where
  taken : {free' : Pool} (i : ℕ) → free ≡ with_block free' i → Step free held get free' (i ∷ held)
  refused : free ≡ pool_of [] → Step free held get free held
  returned :
      {k : ℕ} (i : ℕ)
      → get_elem? held k ≡ some i
      → Step free held (give k) (with_block free i) (remove_at held k)
  missing : {k : ℕ} → get_elem? held k ≡ none → Step free held (give k) free held

pub data Steps : Pool → List ℕ → List Request → Pool → List ℕ → Type 0 where
  done : {free : Pool} {held : List ℕ} → Steps free held [] free held
  next :
      {free free' free'' : Pool} {held held' held'' : List ℕ} {r : Request} {rs : List Request}
      → Step free held r free' held'
      → Steps free' held' rs free'' held''
      → Steps free held (r ∷ rs) free'' held''

pub mem_of_times : (j : ℕ) (xs : List ℕ) → times j xs ≡ 0 → mem j xs ≡ false
mem_of_times j [] h = refl
mem_of_times j (x ∷ xs) h = ground (arith, mem_of_times j xs)

pub times-remove_at :
    (j i k : ℕ) (xs : List ℕ)
    → get_elem? xs k ≡ some i
    → times j xs ≡ (if j == i then 1 else 0) + times j (remove_at xs k)
times-remove_at j i k [] h = cc
times-remove_at j i zero (x ∷ xs) h = ground arith
times-remove_at j i (suc k) (x ∷ xs) h = omega (arith, times-remove_at j i k xs h)

pub get_elem?-map {ℓ κ} :
    {A : Type ℓ} {B : Type κ} (f : A → B) (xs : List A) (k : ℕ) (x : A)
    → get_elem? xs k ≡ some x
    → get_elem? (map f xs) k ≡ some (f x)
get_elem?-map f [] k x h = cc
get_elem?-map f (y ∷ xs) zero x h = cc
get_elem?-map f (y ∷ xs) (suc k) x h = get_elem?-map f xs k x h

pub get_elem?-map-none {ℓ κ} :
    {A : Type ℓ} {B : Type κ} (f : A → B) (xs : List A) (k : ℕ)
    → get_elem? xs k ≡ none
    → get_elem? (map f xs) k ≡ none
get_elem?-map-none f [] k h = refl
get_elem?-map-none f (y ∷ xs) zero h = cc
get_elem?-map-none f (y ∷ xs) (suc k) h = get_elem?-map-none f xs k h

pub map-remove_at {ℓ κ} :
    {A : Type ℓ} {B : Type κ} (f : A → B) (xs : List A) (k : ℕ)
    → remove_at (map f xs) k ≡ map f (remove_at xs k)
map-remove_at f [] k = refl
map-remove_at f (x ∷ xs) zero = refl
map-remove_at f (x ∷ xs) (suc k) = ap (λ t. f x ∷ t) (map-remove_at f xs k)
