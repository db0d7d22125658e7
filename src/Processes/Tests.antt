-- ===== src/Processes/Tests.antt =====
-- Three processes: the one at 100 is current and ends, that at 200 is the next; and a process with a
-- child and nothing else.
use cos.Prelude.{
  ℕ, ◌+◌, ◌≡◌, ◌≢◌, refl, arith, true, List, [], ◌∷◌, ◌==◌, if◌then◌else◌, replicate, set, Run,
  done, some, inl,
}
use cos.Strings.Copy.{copied}
use cos.Processes.{
  Process, Processes, process_free, free_nested, free_process, process_terminate_subprocesses,
  free_resources, process_free_data, process_free_allocations, free_allocations_loop,
  process_switch, process_restore, process_save, first_ignore_loop, process_get_first_ignore,
}
use cos.Processes.Switch.{IsIn}
use cos.Processes.End.{process_free-live}
use cos.Processes.Arguments.{Arguments, process_arguments_add, run_path, argument_size}
use cos.Processes.Arguments.Path.{run_path_lem}
use cos.Processes.Arguments.Chain.{IsList, add-IsList}

abbrev process_of : (id parent : ℕ) → Process
process_of id parent = record {
  id = id;
  task = 1000 + id;
  allocations = 7000 ∷ 0 ∷ [];
  filetype = 1;
  flags = 0;
  parent = parent;
  ptr = 0;
  started = true;
  awake = true;
  video = 2000 + id;
}

abbrev three : Processes
three = record {
  current_process = 100;
  process_is_running = true;
  processes = 100 ∷ 200 ∷ 300 ∷ replicate 9 0;
  process = λ p.
      if p == 100 then process_of 0 0 else if p == 200 then process_of 1 0 else process_of 2 200;
  calls = [];
}

no_child : (p : ℕ) → IsIn p three.processes → (three.process p).parent ≢ 100
no_child p l e = ground arith

process_free-live_example :
    (s' : Processes) × (process_free three 100 ≡ done s')
    × (s'.processes ≡ set three.processes 0 0)
    × (IsIn s'.current_process s'.processes)
    × (s'.current_process ≢ 100)
unfolding process_get_first_ignore first_ignore_loop
process_free-live_example =
    process_free-live three 100 refl (λ e. absurd (omega (arith, e)))
      ((λ e. absurd (omega (arith, e))), (0, refl)) no_child (omega arith) (inl refl)

abbrev family : Processes
family = record three {
  processes = 100 ∷ 200 ∷ replicate 10 0;
  process = λ p. if p == 100 then process_of 0 0 else process_of 1 100;
}

abbrev current_of : Run Processes → ℕ
current_of (done s) = s.current_process
current_of _ = 0

abbrev table_of : Run Processes → List ℕ
table_of (done s) = s.processes
table_of _ = []

-- When a process ends and there is but its child, the child is ended too, and the process that has ended
-- is the current one.
ends_with_its_child :
    (table_of (process_free family 100) ≡ replicate 12 0)
    × (current_of (process_free family 100) ≡ 100)
unfolding process_free free_nested free_process process_terminate_subprocesses free_resources
    process_free_data process_free_allocations free_allocations_loop process_switch process_restore
    process_save process_get_first_ignore first_ignore_loop
ends_with_its_child = (refl, refl)

abbrev one : Arguments
one p = record { argument = replicate 512 1; next = 0 }

-- An argument `a` behind the one at 10.
add-IsList_test :
    (m : Arguments) × (process_arguments_add 2 one 20 10 (97 ∷ 0 ∷ []) ≡ some (done (20, m)))
    × (IsList m 10 (10 ∷ 20 ∷ []))
    × ((m 20).argument ≡ copied (replicate argument_size 0) (97 ∷ []) argument_size)
add-IsList_test =
    add-IsList 2 one 20 10 10 [] (97 ∷ []) [] (omega arith)
      (refl, (λ e. absurd (omega (arith, e))), refl) (tt, tt) (λ e. absurd (omega (arith, e)))
      ((λ e. absurd (omega (arith, e))), tt) ((λ e. absurd (omega (arith, e))), tt)

-- The program `a`.
run_path_lem_example :
    run_path (replicate 108 1) (97 ∷ 0 ∷ []) ≡ done (48 ∷ 58 ∷ 47 ∷ 97 ∷ 0 ∷ replicate 103 1)
run_path_lem_example =
    run_path_lem (replicate 108 1) (97 ∷ []) [] refl ((λ e. absurd (omega (arith, e))), tt)
