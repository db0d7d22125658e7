-- ===== src/Memory/Paging/Faults/Live.antt =====
-- A fault as it happens: which handlers are asked.
use cos.Prelude.{
  ℕ, ◌≡◌, ◌≢◌, refl, ap, Bool, true, false, List, [], ◌∷◌, ◌++◌, arith, ◌==◌, length, set-append,
  done, ok,
}
use cos.Memory.Paging.Faults.{
  live_loop, paging_process_live_fault, paging_find_free_handler_slot_index,
  paging_register_fault_handler,
}

-- Handlers that are there and do not handle the fault.
abbrev pub Decline : (ℕ → Bool) → List ℕ → Type 0
Decline handles [] = Unit {0}
Decline handles (h ∷ hs) = (h ≢ 0) × (handles h ≡ false) × Decline handles hs

live_loop-first :
    (handles : ℕ → Bool) (pre : List ℕ) (h : ℕ) (post : List ℕ)
    → Decline handles pre
    → h ≢ 0
    → handles h ≡ true
    → live_loop handles (pre ++ (h ∷ post)) ≡ (pre ++ (h ∷ []), true)
unfolding live_loop
live_loop-first handles [] h post d nz yes' =
    let t : (h == 0) ≡ false = ground arith in rw (t, yes')
live_loop-first handles (p ∷ pre) h post (pz, no', d) nz yes' =
    let t : (p == 0) ≡ false = ground arith in
    rw (t, no', live_loop-first handles pre h post d nz yes')

free_slot-first :
    (handles : ℕ → Bool) (pre post : List ℕ)
    → Decline handles pre
    → paging_find_free_handler_slot_index (pre ++ (0 ∷ post)) ≡ ok (length pre)
unfolding paging_find_free_handler_slot_index
free_slot-first handles [] post d = refl
free_slot-first handles (p ∷ pre) post (pz, _, d) =
    let t : (p == 0) ≡ false = ground arith in rw (t, free_slot-first handles pre post d)

-- A handler that handles a fault is registered in the first free slot of the table, where the ones
-- before it do not handle the fault: then the fault is handled, by all of these asked in order and
-- this handler last; the ones behind are not asked.
pub register_handler-handled :
    (handles : ℕ → ℕ → Bool) (fault : ℕ) (pre : List ℕ) (h : ℕ) (post : List ℕ)
    → Decline (handles fault) pre
    → h ≢ 0
    → handles fault h ≡ true
    → (paging_register_fault_handler (pre ++ (0 ∷ post)) h ≡ done (pre ++ (h ∷ post)))
      × (paging_process_live_fault handles (pre ++ (h ∷ post)) fault ≡ (pre ++ (h ∷ []), true))
unfolding paging_register_fault_handler paging_process_live_fault
register_handler-handled handles fault pre h post d nz yes' = (
  rw (free_slot-first (handles fault) pre post d, paging_register_fault_handler)
      (ap done (set-append pre post 0 h)),
  live_loop-first (handles fault) pre h post d nz yes',
)
