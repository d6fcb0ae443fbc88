-- ===== src/Memory.antt =====
-- The memory that src/gjalloc.c works on: the first word of each block of a page (its `next`
-- pointer while it is free) and the `struct ba_page` at the head of each page, by address.
-- An access to memory that is not there is a fault, `none`.
use mathlib.Core.Option
use gjalloc.Base.{ℕ, ◌≡◌, ◌==◌, if◌then◌else◌, Option, none, some}

-- `struct ba_page_header`
pub record Header : Type 0 where
  pub first : ℕ
  pub used : ℕ
  pub flags : ℕ

-- `struct ba_page`
pub record Page : Type 0 where
  pub h : Header
  pub next : ℕ
  pub prev : ℕ
  pub hchain : ℕ

pub record Memory : Type 0 where
  pub word : ℕ → Option ℕ
  pub page : ℕ → Option Page

abbrev pub null : ℕ
null = 0

-- `BA_ONE`: this block and all behind it are free.
abbrev pub ba_one : ℕ
ba_one = 1

abbrev pub M : Type 0 → Type 0
M A = Memory → Option (A × Memory)

abbrev pub pure : {A : Type 0} → A → M A
pure a m = some (a, m)

-- What is done with the result of a command that did not fault.
abbrev pub proceed : {A B : Type 0} → Option (A × Memory) → (A → M B) → Option (B × Memory)
proceed none f = none
proceed (some (a, m)) f = f a m

infixl 5 ◌>>=◌ ◌>>◌
abbrev pub ◌>>=◌ : {A B : Type 0} → M A → (A → M B) → M B
◌>>=◌ c f m = proceed (c m) f

abbrev pub ◌>>◌ : {B : Type 0} → M (Unit {0}) → M B → M B
c >> k = c >>= λ _. k

abbrev pub update {ℓ} : {A : Type ℓ} → (ℕ → A) → ℕ → A → ℕ → A
update f a v b = if a == b then v else f b

unfoldable pub load : ℕ → M ℕ
load a m = Option.map (λ v. (v, m)) (m.word a)

unfoldable pub store : ℕ → ℕ → M (Unit {0})
store a v m = Option.map (λ _. (tt, record m { word = update m.word a (some v) })) (m.word a)

unfoldable pub load_page : ℕ → M Page
load_page p m = Option.map (λ v. (v, m)) (m.page p)

unfoldable pub store_page : ℕ → Page → M (Unit {0})
store_page p v m = Option.map (λ _. (tt, record m { page = update m.page p (some v) })) (m.page p)

-- An access to a word that is there.
pub load-some : (a v : ℕ) (m : Memory) → m.word a ≡ some v → load a m ≡ some (v, m)
unfolding load
load-some a v m h = rw h

pub store-some :
    (a v w : ℕ) (m : Memory)
    → m.word a ≡ some w
    → store a v m ≡ some (tt, record m { word = update m.word a (some v) })
unfolding store
store-some a v w m h = rw h
