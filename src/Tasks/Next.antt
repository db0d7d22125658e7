-- ===== src/Tasks/Next.antt =====
-- Which task the scheduler of task/task.c chooses.
use cos.Prelude.{
  ℕ, zero, suc, ◌<◌, ◌≡◌, ◌≢◌, refl, ap, ◌∙◌, Bool, true, false, not, Option, some, List, [], ◌∷◌,
  arith, ◌==◌, if◌then◌else◌, length,
}
use cos.Prelude.Chains.{Linked}
use cos.Tasks.{
  Tasks, task_wake, task_get_next_to, awake_loop, task_get_awake_count, task_get_next_active_task,
  task_get_next,
}

abbrev pub next_of : Tasks → ℕ → ℕ
next_of s p = (s.task p).next

-- What `task_get_awake_count` counts: the tasks before the first that sleeps.
abbrev pub leading : Tasks → List ℕ → ℕ
leading s [] = 0
leading s (p ∷ ps) = if (s.task p).awake then suc (leading s ps) else 0

-- The first of the tasks that is awake, or else the head.
abbrev pub first_awake : Tasks → List ℕ → ℕ → ℕ
first_awake s [] head = head
first_awake s (p ∷ ps) head = if (s.task p).awake then p else first_awake s ps head

abbrev choice : ℕ → Tasks → Option (ℕ × Tasks)
choice p s = some (p, s)

awake_loop-leading :
    (fuel : ℕ) (s : Tasks) (p : ℕ) (ps : List ℕ)
    → Linked (next_of s) p ps
    → length ps < fuel
    → awake_loop fuel s p ≡ some (leading s ps)
unfolding awake_loop
awake_loop-leading zero s p ps l lt = absurd (omega arith)
awake_loop-leading (suc k) s p [] l lt = let t : (p == 0) ≡ true = ground arith in rw t
awake_loop-leading (suc k) s p (q ∷ qs) (e, nz, l) lt =
    let t : (p == 0) ≡ false = ground arith in
    let rest = awake_loop-leading k s (next_of s q) qs l (omega arith) in
    rw (t, e, rest) (branches (s.task q).awake)
  where
    branches :
        (b : Bool)
        → (if b then some (suc (leading s qs)) else some 0)
          ≡ some (if b then suc (leading s qs) else 0)
    branches true = refl
    branches false = refl

module _ (s : Tasks) (size h : ℕ) (hs : List ℕ) (list : Linked (next_of s) s.task_head (h ∷ hs))
    (enough : length (h ∷ hs) < size) where
  count-leading : task_get_awake_count size s ≡ some (leading s (h ∷ hs))
  unfolding task_get_awake_count
  count-leading = awake_loop-leading size s s.task_head (h ∷ hs) list enough

  next_to-link : (p q : ℕ) → next_of s p ≡ q → q ≢ 0 → task_get_next_to s p ≡ q
  unfolding task_get_next_to
  next_to-link p q e nz = let t : ((s.task p).next == 0) ≡ false = ground arith in rw t e

  next_to-head : (p : ℕ) → next_of s p ≡ 0 → task_get_next_to s p ≡ h
  unfolding task_get_next_to
  next_to-head p e = let t : ((s.task p).next == 0) ≡ true = ground arith in rw t (list.0)

  -- One call, with the count known.
  step-awake :
      (k p q n : ℕ)
      → leading s (h ∷ hs) ≡ suc n
      → task_get_next_to s p ≡ q
      → task_get_next_active_task size (suc k) s p
        ≡ (if not (s.task q).awake then task_get_next_active_task size k s q else some (q, s))
  unfolding task_get_next_active_task
  step-awake k p q n some_awake e = rw (e, count-leading, some_awake)

  -- Where the head of the list is awake, the task that comes next is the first awake one behind the
  -- task `p`, or else the head; nothing changes. `rest` is what follows `p` in the list.
  next_active-first_awake :
      (fuel p : ℕ) (rest : List ℕ)
      → (s.task h).awake ≡ true
      → Linked (next_of s) (next_of s p) rest
      → length rest < fuel
      → task_get_next_active_task size fuel s p ≡ some (first_awake s rest h, s)
  next_active-first_awake zero p rest awake l lt = absurd (omega arith)
  next_active-first_awake (suc k) p [] awake l lt =
      let n : leading s (h ∷ hs) ≡ suc (leading s hs) =
        ap (λ b. if b then suc (leading s hs) else 0) awake in
      step-awake k p h (leading s hs) n (next_to-head p l) ∙ rw awake
  next_active-first_awake (suc k) p (q ∷ qs) awake (e, nz, l) lt =
      let n : leading s (h ∷ hs) ≡ suc (leading s hs) =
        ap (λ b. if b then suc (leading s hs) else 0) awake in
      let again = next_active-first_awake k q qs awake l (omega arith) in
      step-awake k p q (leading s hs) n (next_to-link p q e nz)
      ∙ rw again (branches (s.task q).awake)
    where
      branches :
          (b : Bool)
          → (if not b then choice (first_awake s qs h) s else choice q s)
            ≡ choice (if b then q else first_awake s qs h) s
      branches true = refl
      branches false = refl

  -- Where the head of the list is awake, the scheduler ends, for fuel above the tasks `rest`
  -- that follow the current one and a count above the tasks of the list, and chooses the first
  -- awake task of `rest`, or else the head; no task changes.
  pub task_get_next-first_awake :
      (fuel : ℕ) (rest : List ℕ)
      → (s.task h).awake ≡ true
      → Linked (next_of s) (next_of s s.current_task) rest
      → length rest < fuel
      → task_get_next size fuel s ≡ some (first_awake s rest h, s)
  unfolding task_get_next
  task_get_next-first_awake fuel rest awake l lt =
      next_active-first_awake fuel s.current_task rest awake l lt

  -- Where the head of the list sleeps, the task `q` that is next in turn is woken and chosen,
  -- whichever others are awake.
  pub task_get_next-forced :
      (fuel q : ℕ)
      → (s.task h).awake ≡ false
      → task_get_next_to s s.current_task ≡ q
      → task_get_next size (suc fuel) s ≡ some (q, task_wake s q)
  unfolding task_get_next task_get_next_active_task task_wake
  task_get_next-forced fuel q asleep e =
      let n : leading s (h ∷ hs) ≡ 0 = ap (λ b. if b then suc (leading s hs) else 0) asleep in
      let t : (q == q) ≡ true = ground arith in rw (e, count-leading, n, t)
