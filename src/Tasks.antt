-- ===== src/Tasks.antt =====
-- task/task.c: the list of tasks and the scheduler. A task is the address of its `struct task`, and
-- null is 0, an address like any other to the kernel, which maps it.
pub mod Links
pub mod Leave
pub mod Next
pub mod Wake
mod Tests
use cos.Prelude.{
  ℕ, zero, suc, ◌+◌, ◌-◌, ◌%◌, ◌^◌, ◌&&◌, ◌||◌, Bool, true, false, not, Option, none, some, ltb,
  leb, ◌==◌, if◌then◌else◌, Run, done, panic, wild, ◌>>=◌, ◌>>◌, assert, ℤ, pos, negsuc,
}

-- What is kept of a task while it does not run, in the order of `struct registers`.
pub record Registers : Type 0 where
  pub edi : ℕ
  pub esi : ℕ
  pub ebp : ℕ
  pub ebx : ℕ
  pub edx : ℕ
  pub ecx : ℕ
  pub eax : ℕ
  pub ip : ℕ
  pub cs : ℕ
  pub flags : ℕ
  pub esp : ℕ
  pub ss : ℕ

pub record Task : Type 0 where
  pub page_directory : ℕ
  pub registers : Registers
  pub awake : Bool
  pub awake_at : ℤ
  pub next : ℕ
  pub prev : ℕ

-- The globals, the tasks by address, the directory that is loaded, and `pit_get_millis`, which is
-- not negative.
pub record Tasks : Type 0 where
  pub current_task : ℕ
  pub task_tail : ℕ
  pub task_head : ℕ
  pub task : ℕ → Task
  pub directory : ℕ
  pub millis : ℕ

abbrev pub with_task : Tasks → ℕ → Task → Tasks
with_task s p t = record s { task = λ q. if p == q then t else s.task q }

-- `awake_at = -1`.
unfoldable pub task_wake : Tasks → ℕ → Tasks
task_wake s p = with_task s p (record (s.task p) { awake = true; awake_at = negsuc 0 })

unfoldable pub task_pause : Tasks → ℕ → Tasks
task_pause s p = with_task s p (record (s.task p) { awake = false; awake_at = negsuc 0 })

-- `awake || awake_at == -1`, and `pit_get_millis() > awake_at`.
abbrev pub not_waiting : Task → Bool
not_waiting t = t.awake || elim (t.awake_at) [ pos _ ↦ false | negsuc n ↦ n == 0 ]

abbrev pub is_due : ℕ → Task → Bool
is_due millis t = elim (t.awake_at) [ pos n ↦ ltb n millis | negsuc _ ↦ true ]

-- One round of the loop of `task_wake_tasks`.
unfoldable pub wake_due : Tasks → ℕ → Tasks
wake_due s p =
    if not_waiting (s.task p) then s else if is_due s.millis (s.task p) then task_wake s p else s

-- The loops over the list have fuel; `none` says that it ran out.
unfoldable pub wake_loop : (fuel : ℕ) → Tasks → ℕ → Option Tasks
wake_loop zero s current = none
wake_loop (suc k) s current =
    let s' = wake_due s current in
    let rest = wake_loop k s' (s'.task current).next in if current == 0 then some s else rest

unfoldable pub task_wake_tasks : (fuel : ℕ) → Tasks → Option Tasks
task_wake_tasks fuel s = wake_loop fuel s s.task_head

unfoldable pub task_switch : Tasks → ℕ → Run Tasks
task_switch s p =
    if (s.task p).page_directory == 0
    then panic
    else done (record s { current_task = p; directory = (s.task p).page_directory })

unfoldable pub task_save_state : Tasks → ℕ → (frame : Registers) → Tasks
task_save_state s p frame = with_task s p (record (s.task p) { registers = frame })

-- Asserts that the kernel's directory is loaded and that there is a current task.
unfoldable pub task_current_save_state : (kernel_directory : ℕ) → Tasks → Registers → Run Tasks
task_current_save_state kernel_directory s frame = do
  assert (s.directory == kernel_directory)
  assert (not (s.current_task == 0))
  done (task_save_state s s.current_task frame)

unfoldable pub task_get_next_to : Tasks → ℕ → ℕ
task_get_next_to s p = if (s.task p).next == 0 then s.task_head else (s.task p).next

abbrev pub one_more : Option ℕ → Option ℕ
one_more none = none
one_more (some n) = some (suc n)

unfoldable pub count_loop : (fuel : ℕ) → Tasks → ℕ → Option ℕ
count_loop zero s p = none
count_loop (suc k) s p =
    let rest = one_more (count_loop k s (s.task p).next) in if p == 0 then some 0 else rest

unfoldable pub task_get_count : (fuel : ℕ) → Tasks → Option ℕ
task_get_count fuel s = count_loop fuel s s.task_head

-- `while (task != 0 && task->awake)`.
unfoldable pub awake_loop : (fuel : ℕ) → Tasks → ℕ → Option ℕ
awake_loop zero s p = none
awake_loop (suc k) s p =
    let rest = one_more (awake_loop k s (s.task p).next) in
    if p == 0 then some 0 else if (s.task p).awake then rest else some 0

unfoldable pub task_get_awake_count : (fuel : ℕ) → Tasks → Option ℕ
task_get_awake_count fuel s = awake_loop fuel s s.task_head

-- The task next in turn, woken if the count of the awake ones is zero.
abbrev pub force_awake : Option ℕ → Tasks → ℕ → Option Tasks
force_awake none s p = none
force_awake (some zero) s p = some (task_wake s p)
force_awake (some (suc n)) s p = some s

abbrev pub or_again : (Tasks → ℕ → Option (ℕ × Tasks)) → ℕ → Option Tasks → Option (ℕ × Tasks)
or_again again p none = none
or_again again p (some s) = if not (s.task p).awake then again s p else some (p, s)

-- `size` is the fuel of the count, and `fuel` bounds the recursion.
unfoldable pub task_get_next_active_task : (size fuel : ℕ) → Tasks → ℕ → Option (ℕ × Tasks)
task_get_next_active_task size zero s p = none
task_get_next_active_task size (suc k) s p =
    or_again (task_get_next_active_task size k) (task_get_next_to s p)
      (force_awake (task_get_awake_count size s) s (task_get_next_to s p))

unfoldable pub task_get_next : (size fuel : ℕ) → Tasks → Option (ℕ × Tasks)
task_get_next size fuel s = task_get_next_active_task size fuel s s.current_task

abbrev pub switch_to : Option (ℕ × Tasks) → Option (Run Tasks)
switch_to none = none
switch_to (some (p, s)) = some (task_switch s p)

-- The state with which the next task runs on.
unfoldable pub task_next : (size fuel : ℕ) → Tasks → Option (Run Tasks)
task_next size fuel s = switch_to (task_get_next size fuel s)

-- A 32-bit sum as a `long`.
abbrev pub long_of : ℕ → ℤ
long_of w = if ltb w (2 ^ 31) then pos w else negsuc (2 ^ 32 - 1 - w)

unfoldable pub task_usleep : (size fuel : ℕ) → Tasks → ℕ → (millis : ℕ) → Option (Run Tasks)
task_usleep size fuel s p millis =
    let asleep =
      with_task s p
        (record (s.task p) { awake = false; awake_at = long_of ((s.millis + millis) % 2 ^ 32) }) in
    if p == s.current_task then task_next size fuel asleep else some (done asleep)

-- `p->next = v` and `p->prev = v`.
unfoldable pub set_next : Tasks → (p v : ℕ) → Tasks
set_next s p v = with_task s p (record (s.task p) { next = v })

unfoldable pub set_prev : Tasks → (p v : ℕ) → Tasks
set_prev s p v = with_task s p (record (s.task p) { prev = v })

-- The end of `task_new`: a task that `task_init` has cleared joins the list.
unfoldable pub task_link : Tasks → ℕ → Tasks
task_link s p =
    if s.task_head == 0
    then record s { task_head = p; task_tail = p }
    else record (set_prev (set_next s s.task_tail p) p s.task_tail) { task_tail = p }

-- The first three tests of `task_list_remove`, on `task` with the links that it has at the start of
-- each.
abbrev pub unlink_prev : Tasks → ℕ → Tasks
unlink_prev s p = if (s.task p).prev == 0 then s else set_next s (s.task p).prev (s.task p).next

abbrev pub unlink_head : Tasks → ℕ → Tasks
unlink_head s p = if p == s.task_head then record s { task_head = (s.task p).next } else s

abbrev pub unlink_tail : Tasks → ℕ → Tasks
unlink_tail s p = if p == s.task_tail then record s { task_tail = (s.task p).prev } else s

unfoldable pub unlink : Tasks → ℕ → Tasks
unlink s p = unlink_tail (unlink_head (unlink_prev s p) p) p

abbrev pub make_current : Option (ℕ × Tasks) → Option Tasks
make_current none = none
make_current (some (p, s)) = some (record s { current_task = p })

unfoldable pub task_list_remove : (size fuel : ℕ) → Tasks → ℕ → Option Tasks
task_list_remove size fuel s p =
    let s' = unlink s p in
    if p == s'.current_task then make_current (task_get_next size fuel s') else some s'

unfoldable pub task_run_first_ever_task : Tasks → Run Tasks
task_run_first_ever_task s = do
  assert (s.current_task == 0)
  assert (not (s.task_head == 0))
  task_switch s s.task_head
