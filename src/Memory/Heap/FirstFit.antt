-- ===== src/Memory/Heap/FirstFit.antt =====
use native.Mathlib.Decide.{ℕ_discrete}
-- Where `heap_get_start_block` looks: first fit, or the short run at the table's end.
use cos.Prelude.{
  ℕ, zero, suc, ◌+◌, ◌-◌, ◌≤◌, ◌<◌, ◌≡◌, refl, sym, ap, ◌∙◌, Option, none, some, List, [], ◌∷◌,
  arith, length, ◌⊎◌, inl, inr, take, take-length, ok, err, enomem,
}
use cos.Memory.Heap.{
  Heap, start_block_loop, heap_table_entry_type, entry_free, block_start, heap_get_start_block,
}
use cos.Memory.Heap.Scan.{
  FreeRun, FreeRun-cons, FreeRun-tail, FreeRun-grow, FreeRun-shrink, loop-taken, loop-full,
  loop-more,
}

-- `bc` counts blocks only once `bs` is set.
abbrev Agrees : Option ℕ → ℕ → Type 0
Agrees none bc = bc ≡ 0
Agrees (some b) bc = Unit {0}

abbrev Found : List ℕ → (n i bc : ℕ) → Option ℕ → ℕ → Type 0
Found es n i bc bs r =
    ((bs ≡ some r) × FreeRun es 0 (n - bc))
    ⊎ ((c : ℕ) × (r ≡ i + c) × (c < length es) × FreeRun es c n)

Found-cons :
    (e : ℕ) (es : List ℕ) (n i r : ℕ) (c : ℕ)
    → r ≡ i + 1 + c
    → c < length es
    → FreeRun es c n
    → (d : ℕ) × (r ≡ i + d) × (d < length (e ∷ es)) × FreeRun (e ∷ es) d n
Found-cons e es n i r c eq lt f = (suc c, omega arith, omega arith, FreeRun-cons e es c n f)

-- The head is free, and the loop settled on the run that it belongs to.
Found-here :
    (e : ℕ) (es : List ℕ) (n i bc : ℕ) (bs : Option ℕ) (r : ℕ)
    → heap_table_entry_type e ≡ entry_free
    → Agrees bs bc
    → bc < n
    → FreeRun es 0 (n - (bc + 1))
    → some (block_start bs i) ≡ some r
    → Found (e ∷ es) n i bc bs r
Found-here e es n i bc none r f ag lt run eq =
    inr (0, ground arith, omega arith, FreeRun-grow e es (n - (bc + 1)) n f run (omega arith))
Found-here e es n i bc (some b) r f ag lt run eq =
    inl (eq, FreeRun-grow e es (n - (bc + 1)) (n - bc) f run (omega arith))

loop-Found :
    (es : List ℕ) (n i bc : ℕ) (bs : Option ℕ) (r : ℕ)
    → bc < n
    → Agrees bs bc
    → start_block_loop es n i bc bs ≡ some r
    → Found es n i bc bs r
loop-Found [] n i bc bs r lt ag eq =
    inl (unfold start_block_loop in eq, λ k _. unfold heap_table_entry_type in refl)
loop-Found (e ∷ es) n i bc bs r lt ag eq = elim (ℕ_discrete (heap_table_entry_type e) entry_free) [
  | no taken ↦
      let eq' = sym (loop-taken e es n i bc bs taken) ∙ eq in
      elim (loop-Found es n (i + 1) 0 none r (omega arith) refl eq') [
        | inl (h, _) ↦ cc
        | inr (c, h, lc, f) ↦ inr (Found-cons e es n i r c h lc f)
      ]
  | yes free ↦ elim (ℕ_discrete (bc + 1) n) [
    | yes full ↦
        Found-here e es n i bc bs r free ag lt (λ k kl. absurd (omega arith))
          (sym (loop-full e es n i bc bs free full) ∙ eq)
    | no more ↦
        let eq' = sym (loop-more e es n i bc bs free more) ∙ eq in
        elim (loop-Found es n (i + 1) (bc + 1) (some (block_start bs i)) r (omega arith) tt eq') [
          | inl (h, run) ↦ Found-here e es n i bc bs r free ag lt run h
          | inr (c, h, lc, f) ↦ inr (Found-cons e es n i r c h lc f)
        ]
  ]
]

-- With a run of `bc` free blocks behind it that starts at `b`, and enough free blocks in front,
-- the loop settles on that run.
loop-settles :
    (es : List ℕ) (n i bc b : ℕ)
    → bc < n
    → FreeRun es 0 (n - bc)
    → n - bc ≤ length es
    → start_block_loop es n i bc (some b) ≡ some b
loop-settles [] n i bc b lt free fits = absurd (omega arith)
loop-settles (e ∷ es) n i bc b lt free fits = elim (ℕ_discrete (bc + 1) n) [
  | yes full ↦ loop-full e es n i bc (some b) (free 0 (omega arith)) full
  | no more ↦
      loop-more e es n i bc (some b) (free 0 (omega arith)) more
      ∙ loop-settles es n (i + 1) (bc + 1) b (omega arith)
          (FreeRun-shrink e es (n - bc) (n - (bc + 1)) free (omega arith)) (omega arith)
]

-- The loop returns `r`, and it is the run at hand or one no later than `c`, inside the table.
abbrev Fits : List ℕ → (n i bc : ℕ) → Option ℕ → ℕ → ℕ → Type 0
Fits es n i bc bs c r =
    (start_block_loop es n i bc bs ≡ some r)
    × (((bs ≡ some r) × (n - bc ≤ length es))
        ⊎ ((d : ℕ) × (r ≡ i + d) × (d ≤ c) × (d + n ≤ length es)))

Fits-here :
    (e : ℕ) (es : List ℕ) (n i bc c : ℕ) (bs : Option ℕ)
    → Agrees bs bc
    → bc < n
    → n - bc ≤ length es + 1
    → start_block_loop (e ∷ es) n i bc bs ≡ some (block_start bs i)
    → Fits (e ∷ es) n i bc bs c (block_start bs i)
Fits-here e es n i bc c none ag lt le eq = (eq, inr (0, omega arith, omega arith, omega arith))
Fits-here e es n i bc c (some b) ag lt le eq = (eq, inl (refl, omega arith))

Fits-later :
    (e : ℕ) (es : List ℕ) (n i bc c r d : ℕ) (bs : Option ℕ)
    → start_block_loop (e ∷ es) n i bc bs ≡ some r
    → r ≡ i + 1 + d
    → d ≤ c
    → d + n ≤ length es
    → Fits (e ∷ es) n i bc bs (suc c) r
Fits-later e es n i bc c r d bs eq h le fit =
    (eq, inr (suc d, omega arith, omega arith, omega arith))

loop-Fits :
    (es : List ℕ) (n i bc : ℕ) (bs : Option ℕ) (c : ℕ)
    → bc < n
    → Agrees bs bc
    → FreeRun es c n
    → c + n ≤ length es
    → (r : ℕ) × Fits es n i bc bs c r
loop-Fits [] n i bc bs c lt ag free fits = absurd (omega arith)
loop-Fits (e ∷ es) n i bc bs zero lt ag free fits =
    let head = free 0 (omega arith) in
    elim (ℕ_discrete (bc + 1) n) [
      | yes full ↦
          (_, Fits-here e es n i bc 0 bs ag lt (omega arith) (loop-full e es n i bc bs head full))
      | no more ↦ (
        _,
        Fits-here e es n i bc 0 bs ag lt (omega arith) (
            loop-more e es n i bc bs head more
            ∙ loop-settles es n (i + 1) (bc + 1) (block_start bs i) (omega arith)
                (FreeRun-shrink e es n (n - (bc + 1)) free (omega arith)) (omega arith)),
      )
    ]
loop-Fits (e ∷ es) n i bc bs (suc c) lt ag free fits =
    let free' = FreeRun-tail e es c n free in
    elim (ℕ_discrete (heap_table_entry_type e) entry_free) [
      | no taken ↦
          let (r, fitting) =
            loop-Fits es n (i + 1) 0 none c (omega arith) refl free' (omega arith) in
          let (eq, settled) = fitting in
          elim settled [
            | inl (h, _) ↦ cc
            | inr (d, h, le, fit) ↦
                (r, Fits-later e es n i bc c r d bs (loop-taken e es n i bc bs taken ∙ eq) h le fit)
          ]
      | yes head ↦ elim (ℕ_discrete (bc + 1) n) [
        | yes full ↦ (
          _,
          Fits-here e es n i bc (suc c) bs ag lt (omega arith) (loop-full e es n i bc bs head full),
        )
        | no more ↦
            let (r, fitting) =
              loop-Fits es n (i + 1) (bc + 1) (some (block_start bs i)) c (omega arith) tt free'
                (omega arith) in
            let (eq, settled) = fitting in
            let eq' = loop-more e es n i bc bs head more ∙ eq in
            elim settled [
              | inl (h, le) ↦
                  (_, Fits-here e es n i bc (suc c) bs ag lt (omega arith) (eq' ∙ sym h))
              | inr (d, h, le, fit) ↦ (r, Fits-later e es n i bc c r d bs eq' h le fit)
            ]
      ]
    ]

module _ (heap : Heap) (whole : heap.table.total ≡ length heap.table.entries) where
  table_whole : take heap.table.total heap.table.entries ≡ heap.table.entries
  table_whole = rw whole (take-length heap.table.entries)

  pub get_start_block-none :
      (n : ℕ)
      → start_block_loop heap.table.entries n 0 0 none ≡ none
      → heap_get_start_block heap n ≡ err enomem
  unfolding heap_get_start_block
  get_start_block-none n h =
      let e = ap (λ l. start_block_loop l n 0 0 none) table_whole ∙ h in ground arith

  pub get_start_block-some :
      (n b : ℕ)
      → start_block_loop heap.table.entries n 0 0 none ≡ some b
      → heap_get_start_block heap n ≡ ok b
  unfolding heap_get_start_block
  get_start_block-some n b h =
      let e = ap (λ l. start_block_loop l n 0 0 none) table_whole ∙ h in ground arith

  loop_of_ok :
      (n b : ℕ) (o : Option ℕ)
      → start_block_loop heap.table.entries n 0 0 none ≡ o
      → heap_get_start_block heap n ≡ ok b
      → o ≡ some b
  loop_of_ok n b none h eq = let e = sym eq ∙ get_start_block-none n h in cc
  loop_of_ok n b (some c) h eq = let e = sym (get_start_block-some n c h) ∙ eq in cc

  -- What `heap_get_start_block` returns is a block of the table, and the blocks asked for from
  -- there on are free, as many of them as the table still has.
  pub get_start_block-FreeRun :
      (n b : ℕ)
      → 0 < n
      → heap_get_start_block heap n ≡ ok b
      → (b < length heap.table.entries) × FreeRun heap.table.entries b n
  get_start_block-FreeRun n b pos eq =
      elim (loop-Found heap.table.entries n 0 0 none b pos refl (loop_of_ok n b _ refl eq)) [
        | inl (h, _) ↦ cc
        | inr (c, h, lt, run) ↦ let e : b ≡ c = omega arith in rw e (lt, run)
      ]

  -- If some run of `n` blocks is free, `heap_get_start_block` finds one inside the table, and none
  -- starts earlier.
  pub get_start_block-fits :
      (n c : ℕ)
      → 0 < n
      → FreeRun heap.table.entries c n
      → c + n ≤ length heap.table.entries
      → (b : ℕ) × (heap_get_start_block heap n ≡ ok b)
        × (b ≤ c)
        × (b + n ≤ length heap.table.entries)
  get_start_block-fits n c pos free fits =
      let (r, fitting) = loop-Fits heap.table.entries n 0 0 none c pos refl free fits in
      let (eq, settled) = fitting in
      elim settled [
        | inl (h, _) ↦ cc
        | inr (d, h, le, fit) ↦ (r, get_start_block-some n r eq, omega arith, omega arith)
      ]
