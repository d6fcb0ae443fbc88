-- ===== src/Page/Sort/Chain.antt =====
-- The last loop of `ba_sort_list` in src/gjalloc.c, and what stands behind it, link the marked
-- blocks in the order of their addresses.
use gjalloc.Base.{
  ℕ, zero, suc, ◌+◌, ◌-◌, ◌*◌, ◌^◌, ◌≤◌, ◌<◌, ◌≡◌, ◌≢◌, refl, sym, ap, ◌∙◌, arith, true, false,
  Option, some, List, [], ◌∷◌, length, ◌==◌, if◌then◌else◌, Bool-cases, inl, inr, ◌⊎◌, eq→==, ne→==,
  ==→eq, ltb, ltb→lt, ltb→le, dec_lt,
}
use gjalloc.Layout.{Layout}
use gjalloc.Memory.{Memory, null, ba_one, update, store-some, ◌>>=◌}
use gjalloc.Bitvector.{Bitvector, bv_ctz, minus_one}
use gjalloc.Bitvector.Digits.{digit}
use gjalloc.Bitvector.Least.{IsLeast, found, absent, bv_ctz-IsLeast}
use gjalloc.Page.{block}
use gjalloc.Page.FreeList.{run_of, mem, IsAscending, FreeList, nil, run, cons, IsPlaced, IsThere}
use gjalloc.Page.Frame.{
  block-injective, first-ne-one, mem-run_of, mem-run_of_inside, mem-run_of_outside, mem_tail,
  mem_head,
}
use gjalloc.Page.Shift.{IsAscending-run, IsThere-update}
use gjalloc.Page.Sort.{rechain, finish, write_next, from_vector}
use gjalloc.Page.Sort.Mark.{Marks}

if_ne : (b x y : ℕ) → b ≢ null → (if b == null then x else y) ≡ y
if_ne b x y ne = rw (ne→== b null ne) refl

pub absent_below : (n : ℕ) (zs : List ℕ) → (mem n zs ≡ true → ⊥) → mem n zs ≡ false
absent_below n zs out = elim (Bool-cases (mem n zs)) [ inl is ↦ absurd (out is) | inr isnt ↦ isnt ]

IsAscending-front :
    (r : ℕ) (zs : List ℕ)
    → ((n : ℕ) → mem n zs ≡ true → r < n)
    → IsAscending zs
    → IsAscending (r ∷ zs)
IsAscending-front r [] above order = tt
IsAscending-front r (z ∷ zs) above order = (above z (mem_head z zs), order)

IsLeast-le : {d : ℕ → ℕ} {n len r : ℕ} → IsLeast d n len r → r < len → len < 2 ^ 32 → n ≤ r
IsLeast-le (found lo hi one below) lt small = lo
IsLeast-le (absent e clear) lt small = omega arith

module _ {l : Layout} {p : ℕ} (placed : IsPlaced l p) where
  -- Where the next address goes: into the variable, or into a block before `j`.
  abbrev Target : ℕ → ℕ → Type 0
  Target t j = (t ≡ null) ⊎ ((k : ℕ) × (t ≡ block l p k) × (k < j) × (k < l.blocks))

  Target-ne : {t j : ℕ} → Target t j → t ≢ null → (n : ℕ) → j ≤ n → t ≢ block l p n
  Target-ne (inl e) ne n le q = ne e
  Target-ne (inr (k, e, lt, inside)) ne n le q =
      let same = block-injective placed k n (sym e ∙ q) in omega arith

  -- A word at most, that at `t`, has changed.
  record Wrote (first t b : ℕ) (m : Memory) (first' : ℕ) (m' : Memory) : Type 0 where
    runs : write_next first t b m ≡ some (first', m')
    value : first' ≡ (if t == null then b else first)
    word : t ≢ null → m'.word t ≡ some b
    others : (a : ℕ) → (t ≢ null → a ≢ t) → m'.word a ≡ m.word a
    pages : m'.page ≡ m.page
    there : IsThere l p m'.word

  write_next_lem :
      (first t b j : ℕ) (m : Memory)
      → Target t j
      → IsThere l p m.word
      → (first' : ℕ) × (m' : Memory) × Wrote first t b m first' m'
  unfolding write_next
  write_next_lem first t b j m (inl e) there = (
    b,
    m,
    record {
      runs = rw e refl;
      value = rw e refl;
      word = λ ne. absurd (ne e);
      others = λ a ne. refl;
      pages = refl;
      there = there;
    },
  )
  write_next_lem first t b j m (inr (k, e, lt, inside)) there =
      let (u, is) = there.value k inside in
      let at : m.word t ≡ some u = ap m.word e ∙ is in
      let ne : t ≢ null = omega arith in
      (
        first,
        record m { word = update m.word t (some b) },
        record {
          runs = rw (ne→== t null ne, store-some t b u m at) refl;
          value = rw (ne→== t null ne) refl;
          word = λ h. rw (eq→== t t refl) refl;
          others = λ a a_ne. rw (ne→== t a (λ q. a_ne ne (sym q))) refl;
          pages = refl;
          there = IsThere-update t b there;
        },
      )

  module _ (v zero_vector : Bitvector) (xs : List ℕ) (marks : Marks l.blocks zero_vector v xs)
      (zeros : (j : ℕ) → digit zero_vector.v j ≡ 0) (room : v.length + 32 ≤ 32 * length v.v) where
    -- The list that is linked from the block `j` on, at `addr`.
    pub record Chained (j first t : ℕ) (m : Memory) (first' : ℕ) (m' : Memory) : Type 0 where
      pub addr : ℕ
      pub zs : List ℕ
      pub value : first' ≡ (if t == null then addr else first)
      pub list : FreeList l p 0 m'.word addr zs
      pub word : t ≢ null → m'.word t ≡ some addr
      pub order : IsAscending zs
      pub lower : (n : ℕ) → mem n zs ≡ true → j ≤ n
      pub members : (n : ℕ) → j ≤ n → n < l.blocks → mem n zs ≡ mem n xs
      pub others :
          (a : ℕ)
          → (t ≢ null → a ≢ t)
          → ((n : ℕ) → mem n zs ≡ true → a ≢ block l p n)
          → m'.word a ≡ m.word a
      pub pages : m'.page ≡ m.page
      pub there : IsThere l p m'.word

    marked : (j : ℕ) → j < v.length → digit v.v j ≡ 1 → mem j xs ≡ true
    marked j lt one = ground (arith, marks.digits j lt, zeros j)

    unmarked : (j : ℕ) → j < v.length → digit v.v j ≡ 0 → mem j xs ≡ false
    unmarked j lt none_set = ground (arith, marks.digits j lt)

    finish_lem :
        (j first t : ℕ) (m : Memory)
        → Target t j
        → IsThere l p m.word
        → j ≤ v.length
        → ((n : ℕ) → j ≤ n → n < v.length → digit v.v n ≡ 0)
        → (first' : ℕ) × (m' : Memory) × (finish l p v first t m ≡ some (first', m'))
          × Chained j first t m first' m'
    unfolding finish
    finish_lem j first t m target there le clear = elim (Bool-cases (ltb v.length l.blocks)) [
      | inr full ↦
          let (first1, m1, w) = write_next_lem first t null j m target there in
          (
            first1,
            m1,
            rw full (w.runs),
            record {
              addr = null;
              zs = [];
              value = w.value;
              list = nil refl;
              word = w.word;
              order = tt;
              lower = λ n h. absurd (cc);
              members = λ n lo hi. sym (
                  unmarked n (omega (arith, ltb→le v.length l.blocks full))
                    (clear n lo (omega (arith, ltb→le v.length l.blocks full))));
              others = λ a ne out. w.others a ne;
              pages = w.pages;
              there = w.there;
            },
          )
      | inl rest ↦
          let lt = ltb→lt v.length l.blocks rest in
          let end = block l p v.length in
          let (first1, m1, w) = write_next_lem first t end j m target there in
          let (u, is) = w.there.value v.length lt in
          let count = l.blocks - v.length - 1 in
          (
            first1,
            record m1 { word = update m1.word end (some ba_one) },
            rw rest (rw (w.runs) (rw (store-some end ba_one u m1 is) refl)),
            record {
              addr = end;
              zs = run_of (suc count) v.length;
              value = w.value;
              list =
                  run v.length count (omega arith) (omega arith) refl (rw (eq→== end end refl) refl)
                    refl;
              word =
                  λ ne. rw (ne→== end t (λ e. Target-ne target ne v.length le (sym e))) (w.word ne);
              order = IsAscending-run (suc count) v.length;
              lower = λ n h. omega (arith, mem-run_of n (suc count) v.length h);
              members = λ n lo hi. elim (dec_lt n v.length) [
                | yes before ↦
                    mem-run_of_outside n (suc count) v.length (inl before)
                    ∙ sym (unmarked n before (clear n lo before))
                | no after ↦
                    mem-run_of_inside n (suc count) v.length (omega arith) (omega arith)
                    ∙ sym (marks.behind n (omega arith) hi)
              ];
              others = λ a ne out.
                  let ne_end : end ≢ a = λ e. out v.length (mem_head v.length _) (sym e) in
                  rw (ne→== end a ne_end) (w.others a ne);
              pages = w.pages;
              there = IsThere-update end ba_one w.there;
            },
          )
    ]

    abbrev pub rechain_finish : ℕ → ℕ → ℕ → ℕ → Memory → Option (ℕ × Memory)
    rechain_finish fuel j first t m =
        (rechain l p v fuel j first t >>= (λ s. finish l p v (s.0) (s.1))) m

    -- What the rest of the loop does from `j` on.
    abbrev Continues : ℕ → ℕ → ℕ → ℕ → Memory → Type 0
    Continues fuel j first t m =
        (first' : ℕ) × (m' : Memory) × (rechain_finish fuel j first t m ≡ some (first', m'))
        × Chained j first t m first' m'

    -- The block `r` is the next one.
    link_found :
        (j first t r : ℕ) (m : Memory) {first1 first' : ℕ} {m1 m' : Memory}
        → Target t j
        → j ≤ r
        → r < v.length
        → digit v.v r ≡ 1
        → ((n : ℕ) → j ≤ n → n < r → digit v.v n ≡ 0)
        → Wrote first t (block l p r) m first1 m1
        → Chained (r + 1) first1 (block l p r) m1 first' m'
        → Chained j first t m first' m'
    link_found j first t r m {first1} {first'} {m1} {m'} target lo hi one below w c =
        let b = block l p r in
        let some_block : b ≢ null = omega arith in
        record {
          addr = b;
          zs = r ∷ c.zs;
          value = c.value ∙ (if_ne b c.addr first1 some_block ∙ w.value);
          list =
              cons r c.addr (omega (arith, marks.bounded)) refl (c.word some_block)
                (first-ne-one placed c.list) c.list;
          word = λ ne.
              c.others t (λ _. Target-ne target ne r lo)
                (λ n h. Target-ne target ne n (omega (arith, c.lower n h)))
              ∙ w.word ne;
          order = IsAscending-front r c.zs (λ n h. omega (arith, c.lower n h)) c.order;
          lower = λ n h. elim (Bool-cases (n == r)) [
            | inl here ↦ omega (arith, ==→eq n r here)
            | inr other ↦ omega (arith, c.lower n (rw other at h))
          ];
          members = λ n low high. elim (Bool-cases (n == r)) [
            | inl here ↦
                let e = ==→eq n r here in rw here (sym (ap (λ k. mem k xs) e ∙ marked r hi one))
            | inr other ↦ rw other (elim (dec_lt n r) [
              | yes before ↦
                  absent_below n c.zs (λ h. omega (arith, c.lower n h))
                  ∙ sym (unmarked n (omega arith) (below n low before))
              | no after ↦ c.members n (ground arith) high
            ])
          ];
          others = λ a ne out.
              c.others a (λ _. out r (mem_head r c.zs)) (λ n h. out n (mem_tail n r c.zs h))
              ∙ w.others a ne;
          pages = c.pages ∙ w.pages;
          there = c.there;
        }

    next_block :
        (fuel j first t : ℕ) (m : Memory)
        → Target t j
        → IsThere l p m.word
        → j ≤ v.length
        → (r : ℕ) → bv_ctz v j ≡ some r
        → IsLeast (digit v.v) j v.length r
        → (r < v.length
            → (first1 : ℕ) (m1 : Memory) → IsThere l p m1.word
            → Continues fuel (r + 1) first1 (block l p r) m1)
        → Continues (suc fuel) j first t m
    unfolding rechain from_vector
    next_block fuel j first t m target there le r is (absent e clear) rest =
        let (first', m', ran, chained) = finish_lem j first t m target there le clear in
        (first', m', rw is (rw (eq→== r minus_one e) ran), chained)
    next_block fuel j first t m target there le r is (found lo hi one below) rest =
        let (first1, m1, w) = write_next_lem first t (block l p r) j m target there in
        let (first', m', ran, c) = rest hi first1 m1 w.there in
        let number : r ≢ minus_one = omega (arith, marks.bounded, placed.few) in
        (
          first',
          m',
          rw is (rw (ne→== r minus_one number) (rw (w.runs) ran)),
          link_found j first t r m target lo hi one below w c,
        )

    -- With a unit of fuel for each place from `j` on, and one more, the marked blocks are linked.
    pub rechain-Chained :
        (fuel j first t : ℕ) (m : Memory)
        → Target t j
        → IsThere l p m.word
        → j ≤ v.length
        → v.length < fuel + j
        → (first' : ℕ) × (m' : Memory) × (rechain_finish fuel j first t m ≡ some (first', m'))
          × Chained j first t m first' m'
    unfolding rechain from_vector
    rechain-Chained zero j first t m target there le enough = absurd (omega arith)
    rechain-Chained (suc fuel) j first t m target there le enough =
        let (r, is, least) = bv_ctz-IsLeast v j marks.all32 room le in
        next_block fuel j first t m target there le r is least (λ hi first1 m1 there1.
          rechain-Chained fuel (r + 1) first1 (block l p r) m1
            (inr (r, refl, omega arith, omega (arith, marks.bounded))) there1 (omega arith)
            (omega (arith, IsLeast-le least hi (omega (arith, marks.bounded, placed.few)))))
