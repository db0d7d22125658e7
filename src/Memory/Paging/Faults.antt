-- ===== src/Memory/Paging/Faults.antt =====
-- The faults of memory/paging/paging.c: the queue of a chunk, and the handlers. Faults, chunks and
-- handlers are addresses, and null is 0.
pub mod Queue
pub mod Live
mod Tests
use cos.Prelude.{
  ℕ, zero, suc, ◌≡◌, Bool, true, false, Option, none, some, List, [], ◌∷◌, ◌++◌, ◌==◌,
  if◌then◌else◌, Run, done, panic, ◌>>=◌, Result, ok, err, eio, set,
}

pub record Fault : Type 0 where
  pub address : ℕ
  pub chunk : ℕ
  pub next : ℕ

pub record Chunk : Type 0 where
  pub directory_entry : ℕ
  pub faults : ℕ
  pub last_fault : ℕ

pub record Faults : Type 0 where
  pub chunk : ℕ → Chunk
  pub fault : ℕ → Fault

unfoldable pub set_fault : Faults → ℕ → Fault → Faults
set_fault s p f = record s { fault = λ q. if p == q then f else s.fault q }

unfoldable pub set_chunk : Faults → ℕ → Chunk → Faults
set_chunk s p c = record s { chunk = λ q. if p == q then c else s.chunk q }

-- `new` is the address that `kzalloc` gives, with the bytes there zero.
unfoldable pub paging_new_fault : Faults → (new chunk : ℕ) → Faults
paging_new_fault s new chunk = set_fault s new (record { address = 0; chunk = chunk; next = 0 })

-- The new fault with its address, behind the last one of the queue.
unfoldable pub enqueue : Faults → (new chunk : ℕ) → Faults
enqueue s new chunk =
    let c = s.chunk chunk in
    if c.faults == 0
    then set_chunk s chunk (record c { faults = new; last_fault = new })
    else set_chunk (set_fault s c.last_fault (record (s.fault c.last_fault) { next = new })) chunk
        (record c { last_fault = new })

-- NULL where `kzalloc` gives NULL.
unfoldable pub paging_register_fault : Faults → (new chunk address : ℕ) → ℕ × Faults
paging_register_fault s new chunk address =
    let s' = paging_new_fault s new chunk in
    if new == 0
    then (0, s)
    else (new, enqueue (set_fault s' new (record (s'.fault new) { address = address })) new chunk)

-- The handlers called, in order, and whether one handled the fault; `handles` is what a handler says.
unfoldable pub live_loop : (handles : ℕ → Bool) → List ℕ → List ℕ × Bool
live_loop handles [] = ([], false)
live_loop handles (h ∷ hs) =
    let (called, res) = live_loop handles hs in
    if h == 0 then (called, res) else if handles h then (h ∷ [], true) else (h ∷ called, res)

unfoldable pub paging_process_live_fault :
    (handles : ℕ → ℕ → Bool) → (fault_handlers : List ℕ) → (fault : ℕ) → List ℕ × Bool
paging_process_live_fault handles fault_handlers fault = live_loop (handles fault) fault_handlers

-- The handlers that are told of a fault that has passed.
unfoldable pub paging_process_past_fault : (fault_handlers : List ℕ) → List ℕ
paging_process_past_fault [] = []
paging_process_past_fault (h ∷ hs) =
    let told = paging_process_past_fault hs in if h == 0 then told else h ∷ told

abbrev pub tell : ℕ → List ℕ → Option (List (ℕ × List ℕ)) → Option (List (ℕ × List ℕ))
tell fault hs none = none
tell fault hs (some rest) = some ((fault, hs) ∷ rest)

-- The faults of the queue, each with the handlers told of it; `none` when the fuel runs out.
unfoldable pub queue_loop :
    (fuel : ℕ) → Faults → (fault_handlers : List ℕ) → (fault : ℕ) → Option (List (ℕ × List ℕ))
queue_loop zero s fault_handlers fault = none
queue_loop (suc k) s fault_handlers fault =
    let rest = queue_loop k s fault_handlers (s.fault fault).next in
    if fault == 0 then some [] else tell fault (paging_process_past_fault fault_handlers) rest

unfoldable pub paging_process_fault_queue :
    (fuel : ℕ) → Faults → (fault_handlers : List ℕ) → (chunk : ℕ) → Option (List (ℕ × List ℕ))
paging_process_fault_queue fuel s fault_handlers chunk =
    queue_loop fuel s fault_handlers (s.chunk chunk).faults

abbrev pub next_slot : Result ℕ → Result ℕ
next_slot (err e) = err e
next_slot (ok i) = ok (suc i)

unfoldable pub paging_find_free_handler_slot_index : List ℕ → Result ℕ
paging_find_free_handler_slot_index [] = err eio
paging_find_free_handler_slot_index (h ∷ hs) =
    let rest = next_slot (paging_find_free_handler_slot_index hs) in if h == 0 then ok 0 else rest

unfoldable pub paging_register_fault_handler : List ℕ → (handler : ℕ) → Run (List ℕ)
paging_register_fault_handler fault_handlers handler =
    elim (paging_find_free_handler_slot_index fault_handlers) [
      | err _ ↦ panic
      | ok i ↦ done (set fault_handlers i handler)
    ]
