-- ===== src/Tests/PageLists.antt =====
-- A page is taken out of a list of three.
use gjalloc.Base.{ℕ, ◌≡◌, refl, arith, none, some, [], ◌∷◌}
use gjalloc.Memory.{Page, Memory, update}
use gjalloc.Htable.Unlink.{without}
use gjalloc.Links.{double_unlink}
use gjalloc.Links.Linked.{Linked, nil, cons, OnlyLinks}
use gjalloc.Links.Unlinked.{double_unlink-Linked}
use gjalloc.Tests.{words, fresh}

abbrev page_linked : ℕ → ℕ → Page
page_linked prev next = record { h = fresh; next = next; prev = prev; hchain = 0 }

abbrev three : Memory
three = record {
  word = words;
  page =
      update
        (update (update (λ p. none) 1000 (some (page_linked 0 2000))) 2000
          (some (page_linked 1000 3000)))
        3000 (some (page_linked 2000 0));
}

three-Linked : Linked three.page 0 1000 (1000 ∷ 2000 ∷ 3000 ∷ [])
three-Linked = cons (page_linked 0 2000) refl (omega arith) refl refl (
    cons (page_linked 1000 3000) refl (omega arith) refl refl
      (cons (page_linked 2000 0) refl (omega arith) refl refl (nil refl)))

double_unlink-Linked_example :
    (head' : ℕ) × (m' : Memory) × (double_unlink 1000 2000 three ≡ some (head', m'))
    × Linked m'.page 0 head' (without 2000 (1000 ∷ 2000 ∷ 3000 ∷ []))
    × OnlyLinks (1000 ∷ 2000 ∷ 3000 ∷ []) three m'
double_unlink-Linked_example =
    double_unlink-Linked three 1000 2000 (1000 ∷ 2000 ∷ 3000 ∷ []) three-Linked
      (refl, (refl, (refl, tt))) refl
