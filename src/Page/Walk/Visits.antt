-- ===== src/Page/Walk/Visits.antt =====
-- `BA_WALK_CHUNKS` of src/gjalloc.c visits every used block of a page once, and no free block.
use mathlib.Core.Path.{subst}
use gjalloc.Base.{
  ℕ, zero, suc, ◌+◌, ◌%◌, ◌≤◌, ◌<◌, ◌≡◌, ◌≢◌, refl, sym, ap, ◌∙◌, arith, Bool, true, false, some,
  List, [], ◌∷◌, length, ltb, if◌then◌else◌, Bool-cases, inl, inr, ne→==, ltb→lt, ltb→le, lt→ltb,
  le→ltb, lt→leb, u64, sub64, dec_lt, lt→leb, ◌&&◌, not,
}
use gjalloc.Layout.{Layout}
use gjalloc.Memory.{
  Header, Page, Memory, null, ba_one, M, pure, update, load, load_page, store_page,
}
use gjalloc.Htable.{ba_check_ptr}
use gjalloc.Page.{block}
use gjalloc.Page.FreeList.{Distinct, mem, IsAscending, FreeList, nil, run, cons, IsPlaced, IsPage}
use gjalloc.Page.Frame.{mem-lt, block-lt, block_inside}
use gjalloc.Page.Pigeonhole.{length-le}
use gjalloc.Page.Shift.{IsAscending-tail}
use gjalloc.Page.Sort.Sorted.{ba_sort-IsSorting}
use gjalloc.Page.Walk.{chunk_body, chunk_stop, chunk_loop, walk_chunks}
use gjalloc.Page.Walk.Chunks.{gap, chunks, visits, visits-page, chunks-run_of, IsAscending-first}
use gjalloc.Global.Blocks.Trip.{ba_check_ptr-block}

same_number : (a b : ℕ) → ¬ (b < a) → b ≤ a → a ≡ b
same_number a b ge le = omega arith

IsAscending-Distinct : (zs : List ℕ) → IsAscending zs → Distinct zs
IsAscending-Distinct [] order = tt
IsAscending-Distinct (z ∷ zs) order = (
  ground (arith, IsAscending-first zs order z),
  IsAscending-Distinct zs (IsAscending-tail z zs order),
)

module _ {S : Type 0} (f : ℕ → ℕ → S → S) (l : Layout) (p : ℕ) where
  -- What the body does to the state, for each chunk in turn.
  abbrev pub visit_all : List (ℕ × ℕ) → S → S
  visit_all [] s = s
  visit_all ((a, b) ∷ cs) s = visit_all cs (f (block l p a) (block l p b) s)

  abbrev pub body : ℕ → ℕ → S → M (S × Bool)
  body start stop s = pure (f start stop s, false)

  module _ (placed : IsPlaced l p) where
    block_le : (a b : ℕ) → b ≤ a → block l p b ≤ block l p a
    block_le a b le = elim (dec_lt b a) [
      | yes lt ↦ omega (arith, block-lt placed b a lt)
      | no ge ↦ omega (arith, ap (block l p) (same_number a b ge le))
    ]

    -- The body runs if the chunk is not empty.
    chunk_body_lem :
        (a b : ℕ) (s : S) (m : Memory) (cs : List (ℕ × ℕ))
        → (s' : S) × (chunk_body body l p (block l p a) (block l p b) s m ≡ some ((s', false), m))
          × (visit_all (gap a b cs) s ≡ visit_all cs s')
    unfolding chunk_body
    chunk_body_lem a b s m cs = elim (Bool-cases (ltb a b)) [
      | inl some_gap ↦
          let lt = block-lt placed a b (ltb→lt a b some_gap) in
          (
            f (block l p a) (block l p b) s,
            rw (lt→ltb (block l p a) (block l p b) (omega (arith, lt, placed.wide))) refl,
            rw some_gap refl,
          )
      | inr no_gap ↦
          let ge = block_le a b (ltb→le a b no_gap) in
          (s, rw (le→ltb (block l p a) (block l p b) ge) refl, rw no_gap refl)
    ]

    end_stop : chunk_stop body l p null ≡ block l p l.blocks
    unfolding chunk_stop
    end_stop = omega (arith, placed.last, placed.ends)

    first_stop : (n : ℕ) → n ≢ null → chunk_stop body l p n ≡ n
    unfolding chunk_stop
    first_stop n ne = rw (ne→== n null ne) refl

    outside : ba_check_ptr l p (block l p l.blocks) ≡ false
    unfolding ba_check_ptr
    outside =
        lt→leb (sub64 (block l p l.blocks) p) l.offset
          (omega (arith, placed.last, placed.ends, placed.wide))

    module _ (fuel start stop : ℕ) (s s' : S) (m : Memory)
        (ran : chunk_body body l p start stop s m ≡ some ((s', false), m)) where
      step_end :
          ba_check_ptr l p stop ≡ false
          → chunk_loop body l p (suc fuel) start stop s m ≡ some (s', m)
      unfolding chunk_loop
      step_end out = rw (ran, out) refl

      step_one :
          ba_check_ptr l p stop ≡ true
          → m.word stop ≡ some ba_one
          → chunk_loop body l p (suc fuel) start stop s m ≡ some (s', m)
      unfolding chunk_loop load
      step_one inside word = rw (ran, inside, word) refl

      step_more :
          (next : ℕ)
          → ba_check_ptr l p stop ≡ true
          → m.word stop ≡ some next
          → next ≢ ba_one
          → chunk_loop body l p (suc fuel) start stop s m
            ≡ chunk_loop body l p fuel (u64 (stop + l.block_size)) (chunk_stop body l p next) s' m
      unfolding chunk_loop load
      step_more next inside word ne = rw (ran, inside, word, ne→== next ba_one ne) refl

    behind : (i : ℕ) → i < l.blocks → u64 (block l p i + l.block_size) ≡ block l p (suc i)
    behind i lt = omega (arith, block_inside placed i lt)

    stop_at : (i : ℕ) {first : ℕ} → first ≡ block l p i → chunk_stop body l p first ≡ block l p i
    stop_at i e = first_stop _ (λ z. omega (arith, e, z)) ∙ e

    chunk_loop-visits :
        (fuel start : ℕ) {first : ℕ} {zs : List ℕ} (m : Memory) (s : S)
        → FreeList l p 0 m.word first zs
        → length zs < fuel
        → IsAscending zs
        → chunk_loop body l p fuel (block l p start) (chunk_stop body l p first) s m
          ≡ some (visit_all (chunks l.blocks start zs) s, m)
    chunk_loop-visits zero start m s list enough order = absurd (omega arith)
    chunk_loop-visits (suc fuel) start m s (nil e) enough order =
        let (s', ran, same) = chunk_body_lem start l.blocks s m [] in
        ap (λ t. chunk_loop body l p (suc fuel) (block l p start) t s m)
          (ap (chunk_stop body l p) e ∙ end_stop)
        ∙ step_end fuel (block l p start) (block l p l.blocks) s s' m ran outside
        ∙ ap (λ t. some (t, m)) (sym same)
    chunk_loop-visits (suc fuel) start m s (run i n ends g first_is word items) enough order =
        let (s', ran, same) = chunk_body_lem start i s m [] in
        ap (λ t. chunk_loop body l p (suc fuel) (block l p start) t s m) (stop_at i first_is)
        ∙ step_one fuel (block l p start) (block l p i) s s' m ran
            (ba_check_ptr-block placed i (omega arith)) word
        ∙ ap (λ t. some (t, m))
            (sym same
              ∙ ap (λ cs. visit_all (gap start i cs) s)
                  (sym (chunks-run_of l.blocks n (suc i) (omega arith)))
              ∙ ap (λ t. visit_all (chunks l.blocks start t) s) (sym items))
    chunk_loop-visits (suc fuel) start m s (cons {xs = zs} i next lt first_is word ne rest) enough
          order =
        let (s', ran, same) = chunk_body_lem start i s m (chunks l.blocks (suc i) zs) in
        ap (λ t. chunk_loop body l p (suc fuel) (block l p start) t s m) (stop_at i first_is)
        ∙ step_more fuel (block l p start) (block l p i) s s' m ran next
            (ba_check_ptr-block placed i lt) word ne
        ∙ ap (λ t. chunk_loop body l p fuel t (chunk_stop body l p next) s' m) (behind i lt)
        ∙ chunk_loop-visits fuel (suc i) m s' rest (omega arith) (IsAscending-tail i zs order)
        ∙ ap (λ t. some (t, m)) (sym same)

    store_header :
        (m : Memory) (pg : Page) (h : Header)
        → m.page p ≡ some pg
        → (m' : Memory) × (store_page p (record pg { h = h }) m ≡ some (tt, m'))
          × (m'.word ≡ m.word)
    unfolding store_page
    store_header m pg h is =
        (record m { page = update m.page p (some (record pg { h = h })) }, rw is refl, refl)

    -- Given a page whose blocks number 1 to 224 modulo 256, with the free blocks `xs`, and a body that
    -- does not break off and leaves the memory as it is, a walk ends without a fault, and the chunks that it calls the body on
    -- hold each used block of the page once, no free block, and nothing behind the page.
    pub walk_chunks-visits :
        1 ≤ l.blocks % 256
        → l.blocks % 256 ≤ 224
        → (m : Memory) (pg : Page) (xs : List ℕ) (s : S) → m.page p ≡ some pg
        → IsPage l p pg.h m xs
        → (m' : Memory) × (cs : List (ℕ × ℕ)) × (walk_chunks body l p s m
            ≡ some (visit_all cs s, m'))
          × ((j : ℕ) → visits j cs ≡ (if ltb j l.blocks && not (mem j xs) then 1 else 0))
    unfolding walk_chunks load_page
    walk_chunks-visits lo hi m pg xs s is v =
        let (h', m1, zs, ran, sorting, used, flag) = ba_sort-IsSorting placed lo hi pg.h m xs v in
        let still : m1.page p ≡ some pg = ap (λ t. t p) sorting.same.pages ∙ is in
        let (m2, stored, words) = store_header m1 pg h' still in
        let list2 = subst (λ w. FreeList l p 0 w h'.first zs) (sym words) sorting.list in
        let few =
          length-le l.blocks zs (IsAscending-Distinct zs sorting.order)
            (λ k h. mem-lt placed k list2 h) in
        let visited =
          chunk_loop-visits (l.blocks + 1) 0 m2 s list2 (omega (arith, few)) sorting.order in
        (
          m2,
          chunks l.blocks 0 zs,
          rw is (rw ran (rw still (rw stored visited))),
          visits-page l.blocks zs xs sorting.order (λ k h. mem-lt placed k list2 h) sorting.members,
        )
