-- ===== src/Memory/Paging/Faults/Tests.antt =====
-- A chunk at 4 with the faults 8 and 16, and the theorems at it.
use cos.Prelude.{◌≡◌, refl, true, some, [], ◌∷◌, ◌++◌, arith, ◌==◌, if◌then◌else◌, done}
use cos.Memory.Paging.Faults.{
  Faults, paging_register_fault, paging_process_fault_queue, paging_process_live_fault,
  paging_register_fault_handler,
}
use cos.Memory.Paging.Faults.Queue.{IsQueue, told, process_fault_queue-told, register_fault-IsQueue}
use cos.Memory.Paging.Faults.Live.{register_handler-handled}

abbrev faults : Faults
faults = record {
  chunk = λ c. record { directory_entry = 4096; faults = 8; last_fault = 16 };
  fault = λ p. record { address = 0x1000; chunk = 4; next = if p == 8 then 16 else 0 };
}

faults-IsQueue : IsQueue faults 4 (8 ∷ 16 ∷ [])
faults-IsQueue = record {
  linked = (refl, omega arith, (refl, omega arith, refl));
  last = refl;
  distinct = ((omega arith, tt), (tt, tt));
}

process_fault_queue-told_test :
    paging_process_fault_queue 3 faults (0 ∷ 32 ∷ []) 4 ≡ some (told (0 ∷ 32 ∷ []) (8 ∷ 16 ∷ []))
process_fault_queue-told_test =
    process_fault_queue-told 3 faults (0 ∷ 32 ∷ []) 4 (8 ∷ 16 ∷ []) faults-IsQueue (omega arith)

register_fault-IsQueue_example :
    (s' : Faults) × (paging_register_fault faults 24 4 0x2000 ≡ (24, s'))
    × IsQueue s' 4 ((8 ∷ 16 ∷ []) ++ (24 ∷ []))
    × ((s'.fault 24).address ≡ 0x2000)
register_fault-IsQueue_example =
    register_fault-IsQueue faults 24 4 0x2000 (8 ∷ 16 ∷ []) faults-IsQueue
      (omega arith, (omega arith, tt)) (omega arith)

-- The handler at 40 handles every fault.
register_handler-handled_test :
    (paging_register_fault_handler ((32 ∷ []) ++ (0 ∷ 0 ∷ [])) 40
      ≡ done ((32 ∷ []) ++ (40 ∷ 0 ∷ [])))
    × (paging_process_live_fault (λ fault h. h == 40) ((32 ∷ []) ++ (40 ∷ 0 ∷ [])) 8
        ≡ ((32 ∷ []) ++ (40 ∷ []), true))
register_handler-handled_test =
    register_handler-handled (λ fault h. h == 40) 8 (32 ∷ []) 40 (0 ∷ []) (omega arith, refl, tt)
      (omega arith) refl
