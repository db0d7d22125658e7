-- ===== src/Tasks/Wake.antt =====
-- `task_wake_tasks` of task/task.c: which tasks the timer wakes.
use native.Mathlib.Decide.{ℕ_discrete}
use cos.Prelude.{
  ℕ, zero, suc, ◌<◌, ◌≡◌, ◌≢◌, refl, sym, ap, subst, ◌∙◌, Bool, true, false, some, List, [], ◌∷◌,
  ◌++◌, arith, ◌==◌, if◌then◌else◌, if-both, length, ℤ, pos, negsuc, ltb, ◌||◌,
}
use cos.Prelude.Chains.{Linked, NotIn, Distinct}
use cos.Tasks.{Task, Tasks, task_wake, not_waiting, is_due, wake_due, wake_loop, task_wake_tasks}
use cos.Tasks.Next.{next_of}
use cos.Tasks.Links.{IsTaskList}
use cos.Tasks.Leave.{NotIn-middle}

-- A task sleeps, and the time until which it does is past: -1 stands for no time, and below it every
-- time is past.
abbrev pub has_slept : (millis : ℕ) → (awake : Bool) → (awake_at : ℤ) → Bool
has_slept millis true at = false
has_slept millis false (pos n) = ltb n millis
has_slept millis false (negsuc zero) = false
has_slept millis false (negsuc (suc n)) = true

-- What the timer makes of a task.
abbrev pub woken : (millis : ℕ) → Task → Task
woken millis t =
    if has_slept millis t.awake t.awake_at
    then record t { awake = true; awake_at = negsuc 0 }
    else t

-- The two tests of the loop.
guards-has_slept :
    (millis : ℕ) (awake : Bool) (awake_at : ℤ) (t w : Task)
    → (if awake || elim awake_at [ pos _ ↦ false | negsuc n ↦ n == 0 ]
        then t
        else if elim awake_at [ pos n ↦ ltb n millis | negsuc _ ↦ true ]
        then w
        else t)
      ≡ (if has_slept millis awake awake_at then w else t)
guards-has_slept millis true at t w = refl
guards-has_slept millis false (pos n) t w = refl
guards-has_slept millis false (negsuc zero) t w = refl
guards-has_slept millis false (negsuc (suc n)) t w =
    let e : (suc n == 0) ≡ false = ground arith in rw e

-- The rounds of the loop over the tasks `ps`.
abbrev pub wake_all : Tasks → List ℕ → Tasks
wake_all s [] = s
wake_all s (p ∷ ps) = wake_all (wake_due s p) ps

task_wake_self :
    (s : Tasks) (p : ℕ)
    → (task_wake s p).task p ≡ record (s.task p) { awake = true; awake_at = negsuc 0 }
unfolding task_wake
task_wake_self s p = let t : (p == p) ≡ true = ground arith in rw t

task_wake_ne : (s : Tasks) (p x : ℕ) → p ≢ x → (task_wake s p).task x ≡ s.task x
unfolding task_wake
task_wake_ne s p x ne = let t : (p == x) ≡ false = ground arith in rw t

wake_due_self : (s : Tasks) (p : ℕ) → (wake_due s p).task p ≡ woken s.millis (s.task p)
unfolding wake_due
wake_due_self s p =
    branches (not_waiting (s.task p)) (is_due s.millis (s.task p))
    ∙ guards-has_slept s.millis (s.task p).awake (s.task p).awake_at (s.task p) _
  where
    branches :
        (b c : Bool)
        → (if b then s else if c then task_wake s p else s).task p ≡ (
            if b
            then s.task p
            else if c
            then record (s.task p) { awake = true; awake_at = negsuc 0 }
            else s.task p)
    branches true c = refl
    branches false true = task_wake_self s p
    branches false false = refl

wake_due_ne : (s : Tasks) (p x : ℕ) → p ≢ x → (wake_due s p).task x ≡ s.task x
unfolding wake_due
wake_due_ne s p x ne =
    if-both (λ (r : Tasks). r.task x ≡ s.task x) (not_waiting (s.task p)) _ _ refl
      (if-both (λ (r : Tasks). r.task x ≡ s.task x) (is_due s.millis (s.task p)) _ _
        (task_wake_ne s p x ne) refl)

wake_due-millis : (s : Tasks) (p : ℕ) → (wake_due s p).millis ≡ s.millis
unfolding wake_due task_wake
wake_due-millis s p =
    if-both (λ (r : Tasks). r.millis ≡ s.millis) (not_waiting (s.task p)) _ _ refl
      (if-both (λ (r : Tasks). r.millis ≡ s.millis) (is_due s.millis (s.task p)) _ _ refl refl)

woken-next : (millis : ℕ) (t : Task) → (woken millis t).next ≡ t.next
woken-next millis t =
    if-both (λ (r : Task). r.next ≡ t.next) (has_slept millis t.awake t.awake_at) _ _ refl refl

wake_due-next_of : (s : Tasks) (p x : ℕ) → next_of (wake_due s p) x ≡ next_of s x
wake_due-next_of s p x = elim (ℕ_discrete p x) [
  | yes e ↦
      subst (λ y. next_of (wake_due s p) y ≡ next_of s y) e
        (ap (λ (t : Task). t.next) (wake_due_self s p) ∙ woken-next s.millis (s.task p))
  | no ne ↦ ap (λ (t : Task). t.next) (wake_due_ne s p x ne)
]

Linked-ext :
    (f g : ℕ → ℕ) (p : ℕ) (ps : List ℕ) → ((x : ℕ) → g x ≡ f x) → Linked f p ps → Linked g p ps
Linked-ext f g p [] same l = l
Linked-ext f g p (q ∷ ps) same (e, nz, l) =
    (e, nz, subst (λ y. Linked g y ps) (sym (same q)) (Linked-ext f g (f q) ps same l))

wake_loop-wake_all :
    (fuel : ℕ) (s : Tasks) (p : ℕ) (ps : List ℕ)
    → Linked (next_of s) p ps
    → length ps < fuel
    → wake_loop fuel s p ≡ some (wake_all s ps)
unfolding wake_loop
wake_loop-wake_all zero s p ps l lt = absurd (omega arith)
wake_loop-wake_all (suc k) s p [] l lt = let t : (p == 0) ≡ true = ground arith in rw t
wake_loop-wake_all (suc k) s p (q ∷ ps) (e, nz, l) lt =
    let t : (p == 0) ≡ false = ground arith in
    let l' =
      Linked-ext (next_of s) (next_of (wake_due s q)) (next_of s q) ps (wake_due-next_of s q) l in
    let again = wake_loop-wake_all k (wake_due s q) (next_of s q) ps l' (omega arith) in
    rw t (
      ap (λ x. wake_loop k (wake_due s x) (next_of (wake_due s x) x)) e
      ∙ ap (wake_loop k (wake_due s q)) (wake_due-next_of s q q)
      ∙ again)

wake_all-out : (ps : List ℕ) (s : Tasks) (x : ℕ) → NotIn x ps → (wake_all s ps).task x ≡ s.task x
wake_all-out [] s x n = refl
wake_all-out (p ∷ ps) s x (ne, n) =
    wake_all-out ps (wake_due s p) x n ∙ wake_due_ne s p x (λ z. ne (sym z))

wake_all-in :
    (pre : List ℕ) (s : Tasks) (x : ℕ) (post : List ℕ)
    → Distinct (pre ++ (x ∷ post))
    → (wake_all s (pre ++ (x ∷ post))).task x ≡ woken s.millis (s.task x)
wake_all-in [] s x post (n, d) = wake_all-out post (wake_due s x) x n ∙ wake_due_self s x
wake_all-in (p ∷ pre) s x post (n, d) =
    wake_all-in pre (wake_due s p) x post d
    ∙ ap (λ m. woken m ((wake_due s p).task x)) (wake_due-millis s p)
    ∙ ap (woken s.millis) (wake_due_ne s p x (NotIn-middle p pre x post n))

-- The loop ends, for fuel above the number of tasks in the list: then every task `x` of the list
-- that is not awake and whose time, not -1, is now past is woken, one whose time is 0 too, every other task `x` of the list is as before, and so is
-- every address `y` outside the list.
pub task_wake_tasks-woken :
    (fuel : ℕ) (s : Tasks) (pre : List ℕ) (x : ℕ) (post : List ℕ) (y : ℕ)
    → IsTaskList s (pre ++ (x ∷ post))
    → length (pre ++ (x ∷ post)) < fuel
    → NotIn y (pre ++ (x ∷ post))
    → (task_wake_tasks fuel s ≡ some (wake_all s (pre ++ (x ∷ post))))
      × ((wake_all s (pre ++ (x ∷ post))).task x ≡ woken s.millis (s.task x))
      × ((wake_all s (pre ++ (x ∷ post))).task y ≡ s.task y)
unfolding task_wake_tasks
task_wake_tasks-woken fuel s pre x post y list lt out = (
  wake_loop-wake_all fuel s s.task_head (pre ++ (x ∷ post)) list.linked lt,
  wake_all-in pre s x post list.distinct,
  wake_all-out (pre ++ (x ∷ post)) s y out,
)
