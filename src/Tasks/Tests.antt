-- ===== src/Tasks/Tests.antt =====
-- Three tasks at 8, 16 and 24, and the theorems at them.
use cos.Prelude.{
  ℕ, ◌≡◌, refl, true, false, some, [], ◌∷◌, ◌++◌, arith, ◌==◌, if◌then◌else◌, pos, negsuc,
}
use cos.Prelude.Chains.{Linked}
use cos.Tasks.{
  Registers, Task, Tasks, task_wake, task_wake_tasks, task_get_next_to, task_get_next, task_link,
  unlink,
}
use cos.Tasks.Next.{next_of, task_get_next-first_awake, task_get_next-forced}
use cos.Tasks.Links.{IsTaskList, task_link-IsTaskList}
use cos.Tasks.Leave.{unlink-Linked, unlink-stale}
use cos.Tasks.Wake.{woken, wake_all, task_wake_tasks-woken}

abbrev registers : Registers
registers = record {
  edi = 0;
  esi = 0;
  ebp = 0;
  ebx = 0;
  edx = 0;
  ecx = 0;
  eax = 0;
  ip = 0;
  cs = 0;
  flags = 0;
  esp = 0;
  ss = 0;
}

abbrev awake_task : (next prev : ℕ) → Task
awake_task next prev = record {
  page_directory = 4096;
  registers = registers;
  awake = true;
  awake_at = negsuc 0;
  next = next;
  prev = prev;
}

-- The second sleeps until 50, and it is 60.
abbrev tasks : Tasks
tasks = record {
  current_task = 8;
  task_tail = 24;
  task_head = 8;
  task = λ q.
      if q == 8
      then awake_task 16 0
      else if q == 16
      then record (awake_task 24 8) { awake = false; awake_at = pos 50 }
      else awake_task 0 16;
  directory = 4096;
  millis = 60;
}

tasks-IsTaskList : IsTaskList tasks (8 ∷ 16 ∷ 24 ∷ [])
tasks-IsTaskList = record {
  linked = (refl, omega arith, (refl, omega arith, (refl, omega arith, refl)));
  last = refl;
  distinct = ((omega arith, (omega arith, tt)), ((omega arith, tt), (tt, tt)));
}

task_get_next-first_awake_example : task_get_next 5 5 tasks ≡ some (24, tasks)
task_get_next-first_awake_example =
    task_get_next-first_awake tasks 5 8 (16 ∷ 24 ∷ []) tasks-IsTaskList.linked (omega arith) 5
      (16 ∷ 24 ∷ []) refl (refl, omega arith, (refl, omega arith, refl)) (omega arith)

-- The first task asleep, too, while the last is awake and current.
abbrev head_asleep : Tasks
head_asleep = record tasks {
  current_task = 8;
  task = λ q. if q == 8 then record (awake_task 16 0) { awake = false } else tasks.task q;
}

in_turn : task_get_next_to head_asleep 8 ≡ 16
unfolding task_get_next_to
in_turn = refl

task_get_next-forced_test : task_get_next 5 1 head_asleep ≡ some (16, task_wake head_asleep 16)
task_get_next-forced_test =
    task_get_next-forced head_asleep 5 8 (16 ∷ 24 ∷ [])
      (refl, omega arith, (refl, omega arith, (refl, omega arith, refl))) (omega arith) 0 16 refl
      in_turn

-- A list without the third.
abbrev two : Tasks
two = record tasks {
  task_tail = 16;
  task =
      λ q. if q == 16 then awake_task 0 8 else if q == 8 then awake_task 16 0 else awake_task 0 0;
}

two-IsTaskList : IsTaskList two (8 ∷ 16 ∷ [])
two-IsTaskList = record {
  linked = (refl, omega arith, (refl, omega arith, refl));
  last = refl;
  distinct = ((omega arith, tt), (tt, tt));
}

task_link-IsTaskList_test : IsTaskList (task_link two 24) ((8 ∷ 16 ∷ []) ++ (24 ∷ []))
task_link-IsTaskList_test =
    task_link-IsTaskList two (8 ∷ 16 ∷ []) 24 two-IsTaskList (omega arith, (omega arith, tt))
      (omega arith) refl

unlink-Linked_test :
    Linked (next_of (unlink tasks 16)) (unlink tasks 16).task_head ([] ++ (8 ∷ 24 ∷ []))
unlink-Linked_test = unlink-Linked tasks [] 8 16 (24 ∷ []) tasks-IsTaskList refl

unlink-stale_test :
    Linked
      (next_of (unlink (unlink tasks 16) 24))
      (unlink (unlink tasks 16) 24).task_head
      (8 ∷ 24 ∷ [])
unlink-stale_test =
    unlink-stale tasks 8 16 24 (omega arith) (omega arith) (omega arith) (omega arith) (omega arith)
      tasks-IsTaskList refl refl

task_wake_tasks-woken_example :
    (task_wake_tasks 4 tasks ≡ some (wake_all tasks ((8 ∷ []) ++ (16 ∷ 24 ∷ []))))
    × ((wake_all tasks ((8 ∷ []) ++ (16 ∷ 24 ∷ []))).task 16 ≡ woken 60 (tasks.task 16))
    × ((wake_all tasks ((8 ∷ []) ++ (16 ∷ 24 ∷ []))).task 32 ≡ tasks.task 32)
task_wake_tasks-woken_example =
    task_wake_tasks-woken 4 tasks (8 ∷ []) 16 (24 ∷ []) 32 tasks-IsTaskList (omega arith)
      (omega arith, (omega arith, (omega arith, tt)))
