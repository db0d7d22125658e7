-- ===== src/Processes/Resources.antt =====
-- What `process_free` gives back of a process, and what it leaves of the table.
use cos.Prelude.{
  ℕ, ◌<◌, ◌≡◌, ◌≢◌, refl, ap, ap₂, ◌∙◌, arith, true, false, ◌==◌, Bool-cases, inl, inr, ◌⊎◌, List,
  [], ◌∷◌, set, Run, done, ◌>>=◌,
}
use Prim.Native.Nat.{bit_and}
use cos.Processes.{
  Process, Call, Processes, call, kfree_of, task_free_of, video_free_of, process_free_data,
  free_allocations_loop, process_free_allocations, free_video, use_parent_video_memory,
  unpause_parent, unpause_parent_on_death, leave_table, free_resources, process_wake,
}

free_allocations-calls :
    (xs : List ℕ) (s : Processes)
    → (cs : List Call) × (free_allocations_loop s xs ≡ record s { calls = cs })
unfolding free_allocations_loop
free_allocations-calls [] s = (s.calls, refl)
free_allocations-calls (a ∷ xs) s = elim (Bool-cases (a == 0)) [
  | inl t ↦ let (cs, e) = free_allocations-calls xs s in (cs, rw t e)
  | inr f ↦ let (cs, e) = free_allocations-calls xs (call s (kfree_of a)) in (cs, rw f e)
]

free_data-calls :
    (s : Processes) (process : ℕ)
    → (s.process process).filetype < 2
    → (cs : List Call) × (process_free_data s process ≡ done (record s { calls = cs }))
unfolding process_free_data
free_data-calls s process lt = elim (Bool-cases ((s.process process).filetype == 0)) [
  | inl t ↦ ((call s (kfree_of (s.process process).ptr)).calls, rw t refl)
  | inr f ↦
      let g : ((s.process process).filetype == 1) ≡ true = ground arith in (s.calls, rw (f, g) refl)
]

-- The parent that a process wakes when it ends, if it does.
abbrev pub HasParent : Process → Type 0
HasParent x = (bit_and x.flags unpause_parent_on_death ≡ 0) ⊎ (x.parent ≢ 0)

free_video-calls :
    (s : Processes) (process : ℕ)
    → (cs : List Call) × (free_video s process ≡ record s { calls = cs })
free_video-calls s process =
    elim (Bool-cases (bit_and (s.process process).flags use_parent_video_memory == 0)) [
      | inl t ↦ ((call s (video_free_of (s.process process).video)).calls, rw t refl)
      | inr f ↦ (s.calls, rw f refl)
    ]

wake-processes : (s : Processes) (p : ℕ) → (process_wake s p).processes ≡ s.processes
unfolding process_wake
wake-processes s p = refl

wake-current : (s : Processes) (p : ℕ) → (process_wake s p).current_process ≡ s.current_process
unfolding process_wake
wake-current s p = refl

wake-id : (s : Processes) (p q : ℕ) → ((process_wake s p).process q).id ≡ (s.process q).id
unfolding process_wake
wake-id s p q = elim (Bool-cases (p == q)) [
  | inl t ↦ let e : p ≡ q = ground arith in rw t (ap (λ r. (s.process r).id) e)
  | inr f ↦ rw f refl
]

unpause-table :
    (s : Processes) (process : ℕ)
    → HasParent (s.process process)
    → (s' : Processes) × (unpause_parent s process ≡ done s')
      × (s'.processes ≡ s.processes)
      × (s'.current_process ≡ s.current_process)
      × ((s'.process process).id ≡ (s.process process).id)
unpause-table s process h =
    elim (Bool-cases (bit_and (s.process process).flags unpause_parent_on_death == 0)) [
      | inl t ↦ (s, rw t refl, refl, refl, refl)
      | inr f ↦
          let parent = (s.process process).parent in
          let some_parent : (parent == 0) ≡ false = woken h f in
          (
            process_wake s parent,
            rw (f, some_parent) refl,
            wake-processes s parent,
            wake-current s parent,
            wake-id s parent process,
          )
    ]
  where
    woken :
        HasParent (s.process process)
        → (bit_and (s.process process).flags unpause_parent_on_death == 0) ≡ false
        → ((s.process process).parent == 0) ≡ false
    woken (inl e) f = absurd (ground arith)
    woken (inr ne) f = ground arith

-- What is left of the process is given back, and its slot of the table is cleared.
pub free_resources-table :
    (s : Processes) (process : ℕ)
    → (s.process process).filetype < 2
    → HasParent (s.process process)
    → (s' : Processes) × (free_resources s process ≡ done s')
      × (s'.processes ≡ set s.processes (s.process process).id 0)
      × (s'.current_process ≡ s.current_process)
unfolding free_resources process_free_allocations
free_resources-table s process lt h =
    let task = (s.process process).task in
    let H : Processes → Run Processes = λ s3. done (leave_table s3 process) in
    let G : Processes → Run Processes =
      λ s2. unpause_parent (free_video s2 process) process >>= H in
    let (cs1, e1) = free_allocations-calls (s.process process).allocations s in
    let (cs2, e2) =
      free_data-calls (call (record s { calls = cs1 }) (task_free_of task)) process lt in
    let (cs3, e3) = free_video-calls (record s { calls = cs2 }) process in
    let (s', e4, ps, cur, same_id) = unpause-table (record s { calls = cs3 }) process h in
    (
      leave_table s' process,
      ap (λ s1. process_free_data (call s1 (task_free_of task)) process >>= G) e1
          ∙ ap (λ r. r >>= G) e2
          ∙ ap (λ x. unpause_parent x process >>= H) e3
          ∙ ap (λ r. r >>= H) e4,
      ap₂ (λ l i. set l i 0) ps same_id,
      cur,
    )
