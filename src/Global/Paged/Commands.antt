-- ===== src/Global/Paged/Commands.antt =====
-- Commands of src/gjalloc.c on headers and on the lists of pages leave the hash chains.
use mathlib.Core.Option.{some-injective, none-ne-some}
use mathlib.Core.Path.{subst}
use gjalloc.Base.{
  ℕ, ◌≡◌, refl, sym, ap, ◌∙◌, Bool-cases, inl, inr, Option-cases, some, List, ◌==◌, ==→eq,
  get_elem?,
}
use gjalloc.Memory.{
  Header, Page, Memory, null, M, update, pure, ◌>>=◌, ◌>>◌, load_page, store_page, store,
}
use gjalloc.Links.{set_prev_of, double_link, unlink_before, double_unlink}
use gjalloc.Htable.Chain.{SameChains}
use gjalloc.Global.Update.{page_list, set_header}

-- What a command gives satisfies `P`, and it leaves the hash chains, whenever it does not fault.
abbrev pub Keeps : {A : Type 0} → M A → (A → Type 0) → Type 0
Keeps {A} c P = (m : Memory) (x : A) (m' : Memory) → c m ≡ some (x, m') → SameChains m m' × P x

pub keeps_pure : {A : Type 0} (x : A) (P : A → Type 0) → P x → Keeps (pure x) P
keeps_pure x P h m y m' ran =
    let e = some-injective (x, m) (y, m') ran in
    (subst (λ z. SameChains m z.1) e (λ r pg is. (pg, is, refl)), subst (λ z. P z.0) e h)

module _ {A B : Type 0} where
  pub keeps_bind :
      {c : M A} {f : A → M B} {P : A → Type 0} {Q : B → Type 0}
      → Keeps c P
      → ((x : A) → P x → Keeps (f x) Q)
      → Keeps (c >>= f) Q
  keeps_bind {c} {f} keep next m y m' ran = elim (Option-cases (c m)) [
    | inl fault ↦ absurd (none-ne-some (y, m') (rw fault at ran))
    | inr ((x, m1), e) ↦
        let (first, p) = keep m x m1 e in
        let (second, q) = next x p m1 y m' (rw e at ran) in
        (
          λ r pg is.
              let (pg1, is1, h1) = first r pg is in
              let (pg2, is2, h2) = second r pg1 is1 in (pg2, is2, h2 ∙ h1),
          q,
        )
  ]

-- Nothing is asked of the result.
abbrev pub Any : (A : Type 0) → A → Type 0
Any A x = Unit {0}

pub keeps_load : (p : ℕ) → Keeps (load_page p) (Any Page)
unfolding load_page
keeps_load p m x m' ran = elim (Option-cases (m.page p)) [
  | inl gone ↦ absurd (none-ne-some (x, m') (rw gone at ran))
  | inr (pg, is) ↦
      let e = some-injective (pg, m) (x, m') (rw is at ran) in
      (subst (λ z. SameChains m z.1) e (λ r v at. (v, at, refl)), tt)
]

pub keeps_store : (a v : ℕ) → Keeps (store a v) (Any (Unit {0}))
unfolding store
keeps_store a v m x m' ran = elim (Option-cases (m.word a)) [
  | inl gone ↦ absurd (none-ne-some (x, m') (rw gone at ran))
  | inr (w, is) ↦
      let e =
        some-injective (tt, record m { word = update m.word a (some v) }) (x, m') (rw is at ran) in
      (subst (λ z. SameChains m z.1) e (λ r pg at. (pg, at, refl)), tt)
]

pub keeps_list : (pages : List ℕ) (i : ℕ) → Keeps (page_list pages i) (Any ℕ)
unfolding page_list
keeps_list pages i m x m' ran = elim (Option-cases (get_elem? pages i)) [
  | inl gone ↦ absurd (none-ne-some (x, m') (rw gone at ran))
  | inr (p, is) ↦
      let e = some-injective (p, m) (x, m') (rw is at ran) in
      (subst (λ z. SameChains m z.1) e (λ r v at. (v, at, refl)), tt)
]

-- A page that is read and written back with the same `hchain`.
written_page :
    (m : Memory) (p : ℕ) (pg pg' : Page)
    → m.page p ≡ some pg
    → pg'.hchain ≡ pg.hchain
    → SameChains m (record m { page = update m.page p (some pg') })
written_page m p pg pg' is same r v at = elim (Bool-cases (p == r)) [
  | inl here ↦
      let e = some-injective pg v (sym is ∙ ap m.page (==→eq p r here) ∙ at) in
      (pg', rw here refl, same ∙ ap (λ z. z.hchain) e)
  | inr other ↦ (v, rw other at, refl)
]

keeps_write :
    {B : Type 0} {Q : B → Type 0} (p : ℕ) (f : Page → Page) {k : Page → M B}
    → ((pg : Page) → (f pg).hchain ≡ pg.hchain)
    → ((pg : Page) → Keeps (k pg) Q)
    → Keeps (do pg ← load_page p; store_page p (f pg); k pg) Q
unfolding load_page store_page
keeps_write p f {k} same next m y m' ran = elim (Option-cases (m.page p)) [
  | inl gone ↦ absurd (none-ne-some (y, m') (rw gone at ran))
  | inr (pg, is) ↦
      let m1 = record m { page = update m.page p (some (f pg)) } in
      let (second, q) = next pg m1 y m' (rw (is, is) at ran) in
      (
        λ r v at.
            let (pg1, is1, h1) = written_page m p pg (f pg) is (same pg) r v at in
            let (pg2, is2, h2) = second r pg1 is1 in (pg2, is2, h2 ∙ h1),
        q,
      )
]

keeps_modify :
    (p : ℕ) (f : Page → Page)
    → ((pg : Page) → (f pg).hchain ≡ pg.hchain)
    → Keeps (do pg ← load_page p; store_page p (f pg)) (Any (Unit {0}))
unfolding load_page store_page
keeps_modify p f same m y m' ran = elim (Option-cases (m.page p)) [
  | inl gone ↦ absurd (none-ne-some (y, m') (rw gone at ran))
  | inr (pg, is) ↦
      let m1 = record m { page = update m.page p (some (f pg)) } in
      let e = some-injective (tt, m1) (y, m') (rw (is, is) at ran) in
      (subst (λ z. SameChains m z.1) e (written_page m p pg (f pg) is (same pg)), tt)
]

pub keeps_header : (p : ℕ) (h : Header) → Keeps (set_header p h) (Any (Unit {0}))
unfolding set_header
keeps_header p h = keeps_modify p (λ pg. record pg { h = h }) (λ pg. refl)

keeps_prev : (p q : ℕ) → Keeps (set_prev_of p q) (Any (Unit {0}))
unfolding set_prev_of
keeps_prev p q m x m' ran = elim (Bool-cases (p == null)) [
  | inl no_page ↦ keeps_pure tt (Any (Unit {0})) tt m x m' (rw no_page at ran)
  | inr page ↦ keeps_modify p (λ pg. record pg { prev = q }) (λ pg. refl) m x m' (rw page at ran)
]

pub keeps_link : (head o : ℕ) → Keeps (double_link head o) (Any ℕ)
unfolding double_link
keeps_link head o =
    keeps_write o (λ pg. record pg { prev = null; next = head }) (λ pg. refl)
      (λ pg. keeps_bind (keeps_prev head o) (λ x _. keeps_pure o (Any ℕ) tt))

keeps_before : (head : ℕ) (pg : Page) → Keeps (unlink_before head pg) (Any ℕ)
unfolding unlink_before
keeps_before head pg m x m' ran = elim (Bool-cases (pg.prev == null)) [
  | inl first ↦ keeps_pure pg.next (Any ℕ) tt m x m' (rw first at ran)
  | inr behind ↦
      keeps_write pg.prev (λ before. record before { next = pg.next }) (λ before. refl)
        (λ before. keeps_pure head (Any ℕ) tt) m x m' (rw behind at ran)
]

pub keeps_unlink : (head o : ℕ) → Keeps (double_unlink head o) (Any ℕ)
unfolding double_unlink
keeps_unlink head o = keeps_bind (keeps_load o) (λ pg _.
    keeps_bind (keeps_before head pg) (λ head' _. keeps_bind (keeps_load o) (λ pg' _.
      keeps_bind (keeps_prev pg'.next pg'.prev) (λ x _.
        keeps_write o (λ v. record v { next = null; prev = null }) (λ v. refl)
          (λ v. keeps_pure head' (Any ℕ) tt)))))
