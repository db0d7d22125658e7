-- ===== src/Processes/End.antt =====
-- `process_free` of a process that is nobody's parent.
use cos.Prelude.{
  ℕ, zero, suc, ◌<◌, ◌≡◌, ◌≢◌, refl, sym, ap, ap₂, ◌∙◌, subst, arith, ◌&&◌, false, not, ◌==◌,
  if◌then◌else◌, Bool-cases, inl, inr, List, get_or, set, get_or-set_ne, Run, done, ◌>>=◌,
}
use cos.Processes.Switch.{IsIn, first_ignore-IsIn, IsSwitched, switch-IsSwitched}
use cos.Processes.{
  Processes, process_switch, first_ignore_loop, process_get_first_ignore, free_resources,
  process_terminate_subprocesses, free_process, free_nested, process_free, max_processes,
}
use cos.Processes.Resources.{HasParent, free_resources-table}

no_subprocess :
    (end : Processes → ℕ → Run Processes) (n i : ℕ) (s : Processes) (process : ℕ)
    → ((p : ℕ) → IsIn p s.processes → (s.process p).parent ≢ process)
    → process_terminate_subprocesses end n i s process ≡ done s
unfolding process_terminate_subprocesses
no_subprocess end zero i s process none_of = refl
no_subprocess end (suc n) i s process none_of =
    let p = get_or s.processes i 0 in
    let f : (not (p == 0) && (s.process p).parent == process) ≡ false = elim (Bool-cases (p == 0)) [
      | inl z ↦ rw z refl
      | inr nz ↦
          let in_table : IsIn p s.processes = (ground arith, (i, refl)) in
          let other : (s.process p).parent ≢ process = none_of p in_table in ground arith
    ] in
    rw (f, process_terminate_subprocesses) (no_subprocess end n (suc i) s process none_of)

-- The process that runs when another is about to end.
abbrev other_current : Processes → ℕ → Processes
other_current s process =
    if s.current_process == process
    then process_switch s (process_get_first_ignore s process)
    else s

other_current-IsIn :
    (s : Processes) (process : ℕ)
    → process_get_first_ignore s process ≢ 0
    → IsIn s.current_process s.processes
    → IsSwitched s (other_current s process)
      × (IsIn (other_current s process).current_process s.processes
          × ((other_current s process).current_process ≢ process))
unfolding process_get_first_ignore
other_current-IsIn s process ne live = elim (Bool-cases (s.current_process == process)) [
  | inl t ↦
      let next = first_ignore_loop s.processes process in
      let (same, cur) = switch-IsSwitched s next in
      rw t (
        same,
        subst (λ c. IsIn c s.processes × (c ≢ process)) (sym cur)
            (first_ignore-IsIn s.processes process ne),
      )
  | inr f ↦
      let other : s.current_process ≢ process = ground arith in rw f ((refl, refl), (live, other))
]

-- Another process that is in the table stays in it.
stays : (ps : List ℕ) (p q id : ℕ) → get_or ps id 0 ≡ p → q ≢ p → IsIn q ps → IsIn q (set ps id 0)
stays ps p q id e ne (nz, (i, g)) =
    let apart : id ≢ i = λ x. ne (sym g ∙ ap (λ j. get_or ps j 0) (sym x) ∙ e) in
    (nz, (i, get_or-set_ne ps id i 0 0 apart ∙ g))

free_process-live :
    (end : Processes → ℕ → Run Processes) (s : Processes) (process : ℕ)
    → get_or s.processes (s.process process).id 0 ≡ process
    → process_get_first_ignore s process ≢ 0
    → IsIn s.current_process s.processes
    → ((p : ℕ) → IsIn p s.processes → (s.process p).parent ≢ process)
    → (s.process process).filetype < 2
    → HasParent (s.process process)
    → (s' : Processes) × (free_process end s process ≡ done s')
      × (s'.processes ≡ set s.processes (s.process process).id 0)
      × (IsIn s'.current_process s'.processes)
      × (s'.current_process ≢ process)
unfolding free_process
free_process-live end s process slot ne live none_of lt h =
    let s1 = other_current s process in
    let ((ps, proc), (live1, ne1)) = other_current-IsIn s process ne live in
    let z : (process_get_first_ignore s process == 0) ≡ false = ground arith in
    let none1 : (p : ℕ) → IsIn p s1.processes → (s1.process p).parent ≢ process =
      λ p l e. none_of p (subst (IsIn p) ps l) (sym (ap (λ f. (f p).parent) proc) ∙ e) in
    let e1 = no_subprocess end max_processes 0 s1 process none1 in
    let (s', e2, ps', cur) =
      free_resources-table s1 process (subst (λ f. (f process).filetype < 2) (sym proc) lt)
        (subst (λ f. HasParent (f process)) (sym proc) h) in
    let table : s'.processes ≡ set s.processes (s.process process).id 0 =
      ps' ∙ ap₂ (λ l f. set l (f process).id 0) ps proc in
    (
      s',
      rw (z, free_process) (ap (λ r. r >>= λ s2. free_resources s2 process) e1 ∙ e2),
      table,
      subst (IsIn s'.current_process) (sym table) (
          subst (λ c. IsIn c (set s.processes (s.process process).id 0)) (sym cur)
            (stays s.processes process s1.current_process (s.process process).id slot ne1 live1)),
      λ e. ne1 (sym cur ∙ e),
    )

-- A process that is nobody's parent ends, where another is in the table, and leaves the table, in which
-- nothing else changes; the current process is then another than it and in the table, if it was in the
-- table before. The process is in the slot of its id, of a known type, and has a parent if it wakes one.
pub process_free-live :
    (s : Processes) (process : ℕ)
    → get_or s.processes (s.process process).id 0 ≡ process
    → process_get_first_ignore s process ≢ 0
    → IsIn s.current_process s.processes
    → ((p : ℕ) → IsIn p s.processes → (s.process p).parent ≢ process)
    → (s.process process).filetype < 2
    → HasParent (s.process process)
    → (s' : Processes) × (process_free s process ≡ done s')
      × (s'.processes ≡ set s.processes (s.process process).id 0)
      × (IsIn s'.current_process s'.processes)
      × (s'.current_process ≢ process)
unfolding process_free free_nested
process_free-live s process slot ne live none_of lt h =
    free_process-live (free_nested max_processes) s process slot ne live none_of lt h
