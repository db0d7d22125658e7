-- ===== src/Processes.antt =====
-- task/process.c: the table of processes, the switch between them, and the end of a process. A process
-- is the address of its `struct process` and null is 0. What the file asks of tasks, the video memory
-- and the heap is a list of calls in their order. The bytes of a process stay after it has been freed,
-- until the next allocation, and its id is read from them.
pub mod Switch
pub mod Resources
pub mod End
pub mod Arguments
mod Tests
use cos.Prelude.{
  ℕ, zero, suc, ◌&&◌, Bool, true, false, not, Option, none, some, List, [], ◌∷◌, ◌++◌, leb, ◌==◌,
  if◌then◌else◌, get_or, set, Result, ok, err, Run, done, panic, wild, ◌>>=◌, eio,
}
use Prim.Native.Nat.{bit_and}

-- COS32_MAX_PROCESSES and COS32_MAX_PROGRAM_ALLOCATIONS.
abbrev pub max_processes : ℕ
max_processes = 12

abbrev pub max_program_allocations : ℕ
max_program_allocations = 1024

abbrev pub use_parent_video_memory : ℕ
use_parent_video_memory = 0b00000001

abbrev pub unpause_parent_on_death : ℕ
unpause_parent_on_death = 0b00000010

-- The fields of `struct process` that this part of the file reads and writes. `filetype` is 0 for a
-- binary and 1 for an ELF file.
pub record Process : Type 0 where
  pub id : ℕ
  pub task : ℕ
  pub allocations : List ℕ
  pub filetype : ℕ
  pub flags : ℕ
  pub parent : ℕ
  pub ptr : ℕ
  pub started : Bool
  pub awake : Bool
  pub video : ℕ

pub data Call : Type 0 where
  kfree_of : ℕ → Call
  task_free_of : ℕ → Call
  task_wake_of : ℕ → Call
  task_pause_of : ℕ → Call
  task_map_video_memory_of : ℕ → Call
  task_unmap_video_memory_of : ℕ → Call
  video_save_of : ℕ → Call
  video_restore_of : ℕ → Call
  video_free_of : ℕ → Call

pub record Processes : Type 0 where
  pub current_process : ℕ
  pub process_is_running : Bool
  pub processes : List ℕ
  pub process : ℕ → Process
  pub calls : List Call

abbrev pub call : Processes → Call → Processes
call s c = record s { calls = s.calls ++ (c ∷ []) }

abbrev pub with_process : Processes → ℕ → Process → Processes
with_process s p x = record s { process = λ q. if p == q then x else s.process q }

unfoldable pub process_current : Processes → ℕ
process_current s = s.current_process

unfoldable pub process_mark_running : Processes → Bool → Processes
process_mark_running s running = record s { process_is_running = running }

unfoldable pub process_save : Processes → ℕ → Processes
process_save s process = call s (video_save_of (s.process process).video)

-- The video memory of the process that was current.
abbrev pub map_current : Processes → Processes
map_current s =
    if s.current_process == 0
    then s
    else call s (task_map_video_memory_of (s.process s.current_process).task)

unfoldable pub process_restore : Processes → ℕ → Processes
process_restore s process =
    let s1 = record (map_current s) { current_process = process; process_is_running = true } in
    let s2 = call s1 (task_unmap_video_memory_of (s.process process).task) in
    call s2 (video_restore_of (s.process process).video)

unfoldable pub process_switch : Processes → ℕ → Processes
process_switch s process =
    process_restore (if s.current_process == 0 then s else process_save s s.current_process) process

unfoldable pub process_start : Processes → ℕ → Result (Unit {0}) × Processes
process_start s process = if (s.process process).started then (err eio, s) else (
  ok tt,
  process_switch (with_process s process (record (s.process process) { started = true })) process,
)

-- The first slot of a table that is null, from slot `i` on.
unfoldable pub free_slot_loop : (slots : List ℕ) → (i : ℕ) → Option ℕ
free_slot_loop [] i = none
free_slot_loop (p ∷ ps) i = if p == 0 then some i else free_slot_loop ps (suc i)

unfoldable pub process_get_free_slot : Processes → Option ℕ
process_get_free_slot s = free_slot_loop s.processes 0

-- The index is an `int`, of which the negative ones are left out: they give NULL.
unfoldable pub process_get : Processes → ℕ → ℕ
process_get s index = if leb max_processes index then 0 else get_or s.processes index 0

unfoldable pub first_ignore_loop : List ℕ → ℕ → ℕ
first_ignore_loop [] process = 0
first_ignore_loop (p ∷ ps) process =
    if not (p == 0) && not (p == process) then p else first_ignore_loop ps process

unfoldable pub process_get_first_ignore : Processes → ℕ → ℕ
process_get_first_ignore s process = first_ignore_loop s.processes process

unfoldable pub process_get_first : Processes → ℕ
process_get_first s = process_get_first_ignore s 0

-- The index in the table of allocations of the process.
unfoldable pub process_get_free_heap_allocation_slot : Processes → ℕ → Option ℕ
process_get_free_heap_allocation_slot s process = free_slot_loop (s.process process).allocations 0

unfoldable pub process_wake : Processes → ℕ → Processes
process_wake s process =
    let s1 = with_process s process (record (s.process process) { awake = true }) in
    call s1 (task_wake_of (s.process process).task)

unfoldable pub process_pause : Processes → ℕ → Processes
process_pause s process =
    let s1 = with_process s process (record (s.process process) { awake = false }) in
    call s1 (task_pause_of (s.process process).task)

-- A binary has its data freed, and an ELF file is kept.
unfoldable pub process_free_data : Processes → ℕ → Run Processes
process_free_data s process =
    if (s.process process).filetype == 0
    then done (call s (kfree_of (s.process process).ptr))
    else if (s.process process).filetype == 1
    then done s
    else panic

unfoldable pub free_allocations_loop : Processes → List ℕ → Processes
free_allocations_loop s [] = s
free_allocations_loop s (a ∷ rest) =
    free_allocations_loop (if a == 0 then s else call s (kfree_of a)) rest

unfoldable pub process_free_allocations : Processes → ℕ → Processes
process_free_allocations s process = free_allocations_loop s (s.process process).allocations

-- The video memory, when it is not the parent's.
abbrev pub free_video : Processes → ℕ → Processes
free_video s process =
    if bit_and (s.process process).flags use_parent_video_memory == 0
    then call s (video_free_of (s.process process).video)
    else s

-- A parent that is NULL is written to.
abbrev pub unpause_parent : Processes → ℕ → Run Processes
unpause_parent s process =
    if bit_and (s.process process).flags unpause_parent_on_death == 0
    then done s
    else if (s.process process).parent == 0
    then wild
    else done (process_wake s (s.process process).parent)

-- The last two lines of `process_free`.
abbrev pub leave_table : Processes → ℕ → Processes
leave_table s process =
    let s1 = call s (kfree_of process) in
    record s1 { processes = set s.processes (s.process process).id 0 }

-- `process_free` behind the end of the subprocesses.
unfoldable pub free_resources : Processes → ℕ → Run Processes
free_resources s process = do
  let s1 = process_free_allocations s process
  s2 ← process_free_data (call s1 (task_free_of (s.process process).task)) process
  s3 ← unpause_parent (free_video s2 process) process
  done (leave_table s3 process)

-- The loop over the slots from `i` on, with the end of one process given.
unfoldable pub process_terminate_subprocesses :
    (Processes → ℕ → Run Processes) → (slots : ℕ) → (i : ℕ) → Processes → ℕ → Run Processes
process_terminate_subprocesses end zero i s process = done s
process_terminate_subprocesses end (suc n) i s process =
    let p = get_or s.processes i 0 in
    elim (not (p == 0) && (s.process p).parent == process) [
      | true ↦ end s p >>= λ s'. process_terminate_subprocesses end n (suc i) s' process
      | false ↦ process_terminate_subprocesses end n (suc i) s process
    ]

-- One call with the calls for the subprocesses given.
unfoldable pub free_process : (Processes → ℕ → Run Processes) → Processes → ℕ → Run Processes
free_process end s process =
    let next = process_get_first_ignore s process in
    let s1 = if s.current_process == process then process_switch s next else s in
    elim (next == 0) [
      | true ↦ panic
      | false ↦ process_terminate_subprocesses end max_processes 0 s1 process >>= λ s2.
          free_resources s2 process
    ]

-- The nesting of the calls is that of the processes, at most one for each of the table; a deeper one
-- has no end, since a parent is then below itself.
unfoldable pub free_nested : (fuel : ℕ) → Processes → ℕ → Run Processes
free_nested zero s process = wild
free_nested (suc k) s process = free_process (free_nested k) s process

unfoldable pub process_free : Processes → ℕ → Run Processes
process_free s process = free_nested (suc max_processes) s process

unfoldable pub process_terminate : Processes → ℕ → (error_code : ℕ) → Run Processes
process_terminate s process error_code = process_free s process
