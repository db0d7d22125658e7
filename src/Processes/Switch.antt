-- ===== src/Processes/Switch.antt =====
-- The switch between processes, and the other process that one switches to.
use cos.Prelude.{
  ℕ, suc, ◌≡◌, ◌≢◌, refl, sym, ◌∙◌, subst, arith, ◌&&◌, not, ◌==◌, Bool-cases, inl, inr, List, [],
  ◌∷◌, get_or,
}
use cos.Processes.{
  Processes, process_switch, process_restore, process_save, map_current, first_ignore_loop,
}

-- The process stands in the table.
abbrev pub IsIn : ℕ → List ℕ → Type 0
IsIn p ps = (p ≢ 0) × ((i : ℕ) × (get_or ps i 0 ≡ p))

-- The first other process of a table is in it and another.
pub first_ignore-IsIn :
    (ps : List ℕ) (process : ℕ)
    → first_ignore_loop ps process ≢ 0
    → IsIn (first_ignore_loop ps process) ps × (first_ignore_loop ps process ≢ process)
unfolding first_ignore_loop
first_ignore-IsIn [] process ne = absurd (ne refl)
first_ignore-IsIn (p ∷ ps) process ne =
    let P : ℕ → Type 0 = λ q. IsIn q (p ∷ ps) × (q ≢ process) in
    elim (Bool-cases (not (p == 0) && not (p == process))) [
      | inl t ↦
          let e : first_ignore_loop (p ∷ ps) process ≡ p = rw t refl in
          let a : p ≢ 0 = ground arith in
          let b : p ≢ process = ground arith in subst P (sym e) ((a, (0, refl)), b)
      | inr f ↦
          let e : first_ignore_loop (p ∷ ps) process ≡ first_ignore_loop ps process = rw f refl in
          let ne' : first_ignore_loop ps process ≢ 0 = λ z. ne (e ∙ z) in
          let ((a, (i, g)), b) = first_ignore-IsIn ps process ne' in
          subst P (sym e) ((a, (suc i, g)), b)
    ]

-- Only the current process changes, besides the calls made.
abbrev pub IsSwitched : Processes → Processes → Type 0
IsSwitched s s' = (s'.processes ≡ s.processes) × (s'.process ≡ s.process)

map_current-IsSwitched : (s : Processes) → IsSwitched s (map_current s)
map_current-IsSwitched s = elim (Bool-cases (s.current_process == 0)) [
  | inl t ↦ rw t (refl, refl)
  | inr f ↦ rw f (refl, refl)
]

restore-IsSwitched :
    (s : Processes) (process : ℕ)
    → IsSwitched s (process_restore s process)
      × ((process_restore s process).current_process ≡ process)
unfolding process_restore
restore-IsSwitched s process = (map_current-IsSwitched s, refl)

pub switch-IsSwitched :
    (s : Processes) (process : ℕ)
    → IsSwitched s (process_switch s process)
      × ((process_switch s process).current_process ≡ process)
unfolding process_switch process_save
switch-IsSwitched s process = elim (Bool-cases (s.current_process == 0)) [
  | inl t ↦ rw t (restore-IsSwitched s process)
  | inr f ↦ rw f (restore-IsSwitched (process_save s s.current_process) process)
]
