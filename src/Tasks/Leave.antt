-- ===== src/Tasks/Leave.antt =====
-- How a task leaves the list of task/task.c.
use native.Mathlib.Decide.{ℕ_discrete}
use cos.Prelude.{
  ℕ, ◌≡◌, ◌≢◌, refl, sym, ap, subst, ◌∙◌, true, false, List, [], ◌∷◌, ◌++◌, arith, ◌==◌, if-both,
}
use cos.Prelude.Chains.{Linked, NotIn, Distinct, Linked-elsewhere}
use cos.Tasks.{Task, Tasks, set_next, unlink, unlink_prev, unlink_head, unlink_tail}
use cos.Tasks.Next.{next_of}
use cos.Tasks.Links.{IsTaskList, set_next_self, set_next_ne}

set_next-prev : (s : Tasks) (p v x : ℕ) → ((set_next s p v).task x).prev ≡ (s.task x).prev
unfolding set_next
set_next-prev s p v x = elim (ℕ_discrete p x) [
  | yes e ↦ let t : (p == x) ≡ true = ground arith in rw t (ap (λ y. (s.task y).prev) e)
  | no d ↦ let t : (p == x) ≡ false = ground arith in rw t
]

unlink_head-task : (s : Tasks) (p : ℕ) → (unlink_head s p).task ≡ s.task
unlink_head-task s p = if-both (λ (r : Tasks). r.task ≡ s.task) (p == s.task_head) _ _ refl refl

unlink_tail-task : (s : Tasks) (p : ℕ) → (unlink_tail s p).task ≡ s.task
unlink_tail-task s p = if-both (λ (r : Tasks). r.task ≡ s.task) (p == s.task_tail) _ _ refl refl

unlink_tail-head : (s : Tasks) (p : ℕ) → (unlink_tail s p).task_head ≡ s.task_head
unlink_tail-head s p =
    if-both (λ (r : Tasks). r.task_head ≡ s.task_head) (p == s.task_tail) _ _ refl refl

unlink_head-ne : (s : Tasks) (p : ℕ) → p ≢ s.task_head → (unlink_head s p).task_head ≡ s.task_head
unlink_head-ne s p ne = let t : (p == s.task_head) ≡ false = ground arith in rw t

unlink_prev-some :
    (s : Tasks) (p q : ℕ)
    → (s.task p).prev ≡ q
    → q ≢ 0
    → unlink_prev s p ≡ set_next s q (next_of s p)
unlink_prev-some s p q e nz =
    let t : ((s.task p).prev == 0) ≡ false = ground arith in
    rw (t, unlink_prev) (ap (λ x. set_next s x (next_of s p)) e)

-- The task that `prev` of `p` leads to takes over the `next` of `p`, and the tasks have no other
-- change.
unlink-task :
    (s : Tasks) (p q : ℕ)
    → (s.task p).prev ≡ q
    → q ≢ 0
    → (unlink s p).task ≡ (set_next s q (next_of s p)).task
unfolding unlink
unlink-task s p q e nz =
    unlink_tail-task (unlink_head (unlink_prev s p) p) p
    ∙ unlink_head-task (unlink_prev s p) p
    ∙ ap (λ (r : Tasks). r.task) (unlink_prev-some s p q e nz)

unlink-task_head :
    (s : Tasks) (p q : ℕ)
    → (s.task p).prev ≡ q
    → q ≢ 0
    → p ≢ s.task_head
    → (unlink s p).task_head ≡ s.task_head
unfolding unlink set_next
unlink-task_head s p q e nz ne =
    let same = ap (λ (r : Tasks). r.task_head) (unlink_prev-some s p q e nz) in
    unlink_tail-head (unlink_head (unlink_prev s p) p) p
    ∙ unlink_head-ne (unlink_prev s p) p (λ z. ne (z ∙ same))
    ∙ same

module _ (s : Tasks) (p q : ℕ) (prev_p : (s.task p).prev ≡ q) (nz : q ≢ 0) where
  unlink-next_self : next_of (unlink s p) q ≡ next_of s p
  unlink-next_self =
      ap (λ (t : ℕ → Task). (t q).next) (unlink-task s p q prev_p nz)
      ∙ set_next_self s q (next_of s p)

  unlink-next_ne : (x : ℕ) → q ≢ x → next_of (unlink s p) x ≡ next_of s x
  unlink-next_ne x ne =
      ap (λ (t : ℕ → Task). (t x).next) (unlink-task s p q prev_p nz)
      ∙ set_next_ne s q (next_of s p) x ne

  unlink-prev : (x : ℕ) → ((unlink s p).task x).prev ≡ (s.task x).prev
  unlink-prev x =
      ap (λ (t : ℕ → Task). (t x).prev) (unlink-task s p q prev_p nz)
      ∙ set_next-prev s q (next_of s p) x

pub NotIn-middle : (x : ℕ) (pre : List ℕ) (q : ℕ) (qs : List ℕ) → NotIn x (pre ++ (q ∷ qs)) → x ≢ q
NotIn-middle x [] q qs n = n.0
NotIn-middle x (p ∷ pre) q qs n = NotIn-middle x pre q qs n.1

Linked-without :
    (f g : ℕ → ℕ) (p : ℕ) (pre : List ℕ) (q r : ℕ) (post : List ℕ)
    → Linked f p (pre ++ (q ∷ r ∷ post))
    → Distinct (pre ++ (q ∷ r ∷ post))
    → ((x : ℕ) → q ≢ x → g x ≡ f x)
    → g q ≡ f r
    → Linked g p (pre ++ (q ∷ post))
Linked-without f g p [] q r post (e, nz, (e', nz', l)) ((_, nq), _) same over =
    (e, nz, subst (λ y. Linked g y post) (sym over) (Linked-elsewhere f g (f r) q post l nq same))
Linked-without f g p (x ∷ pre) q r post (e, nz, l) (n, d) same over =
    let ne : q ≢ x = λ z. NotIn-middle x pre q (r ∷ post) n (sym z) in
    (
      e,
      nz,
      subst (λ y. Linked g y (pre ++ (q ∷ post))) (sym (same x ne))
          (Linked-without f g (f x) pre q r post l d same over),
    )

head-other :
    (f : ℕ → ℕ) (h : ℕ) (pre : List ℕ) (q p : ℕ) (post : List ℕ)
    → Linked f h (pre ++ (q ∷ p ∷ post))
    → Distinct (pre ++ (q ∷ p ∷ post))
    → p ≢ h
head-other f h [] q p post (e, _, _) ((ne, _), _) z = ne (sym (z ∙ e))
head-other f h (x ∷ pre) q p post (e, _, _) (n, _) z = second x pre q p post n (sym (z ∙ e))
  where
    second :
        (x : ℕ) (pre : List ℕ) (q p : ℕ) (post : List ℕ) → NotIn x (pre ++ (q ∷ p ∷ post)) → x ≢ p
    second x [] q p post n = n.1.0
    second x (y ∷ pre) q p post n = second x pre q p post n.1

previous-nonzero :
    (f : ℕ → ℕ) (h : ℕ) (pre : List ℕ) (q : ℕ) (qs : List ℕ) → Linked f h (pre ++ (q ∷ qs)) → q ≢ 0
previous-nonzero f h [] q qs l = l.1
previous-nonzero f h (x ∷ pre) q qs l = previous-nonzero f (f x) pre q qs l.2

-- A task that is not the first leaves the list, where its `prev` leads to the task before it: the list
-- leads through all the others, in order.
pub unlink-Linked :
    (s : Tasks) (pre : List ℕ) (q p : ℕ) (post : List ℕ)
    → IsTaskList s (pre ++ (q ∷ p ∷ post))
    → (s.task p).prev ≡ q
    → Linked (next_of (unlink s p)) (unlink s p).task_head (pre ++ (q ∷ post))
unlink-Linked s pre q p post list prev =
    let nz = previous-nonzero (next_of s) s.task_head pre q (p ∷ post) list.linked in
    let ne = head-other (next_of s) s.task_head pre q p post list.linked list.distinct in
    subst (λ h. Linked (next_of (unlink s p)) h (pre ++ (q ∷ post)))
      (sym (unlink-task_head s p q prev nz ne))
      (Linked-without (next_of s) (next_of (unlink s p)) s.task_head pre q p post list.linked
        list.distinct (unlink-next_ne s p q prev nz) (unlink-next_self s p q prev nz))

module _ (s : Tasks) (a b c : ℕ) (a0 : a ≢ 0) (c0 : c ≢ 0) (ab : a ≢ b) (ac : a ≢ c) (bc : b ≢ c)
    (list : IsTaskList s (a ∷ b ∷ c ∷ [])) (prev_b : (s.task b).prev ≡ a)
    (prev_c : (s.task c).prev ≡ b) where
  -- The list after the one in the middle has left it: the others, in order.
  middle : Linked (next_of (unlink s b)) (unlink s b).task_head (a ∷ c ∷ [])
  middle = (
    unlink-task_head s b a prev_b a0 (λ z. ab (sym (z ∙ list.linked.0))) ∙ list.linked.0,
    a0,
    (
      unlink-next_self s b a prev_b a0 ∙ list.linked.2.2.0,
      c0,
      unlink-next_ne s b a prev_b a0 c ac ∙ list.linked.2.2.2,
    ),
  )

  -- Of a list of three tasks, where `prev` of the second and the third leads to the one before:
  -- the second leaves it and then the third, and the list still leads from the first to the
  -- third.
  pub unlink-stale :
      Linked (next_of (unlink (unlink s b) c)) (unlink (unlink s b) c).task_head (a ∷ c ∷ [])
  unlink-stale =
      let b0 : b ≢ 0 = list.linked.2.1 in
      let prev = unlink-prev s b a prev_b a0 c ∙ prev_c in
      (
        unlink-task_head (unlink s b) c b prev b0 (λ z. ac (sym (z ∙ middle.0))) ∙ middle.0,
        a0,
        (
          unlink-next_ne (unlink s b) c b prev b0 a (λ z. ab (sym z)) ∙ middle.2.0,
          c0,
          unlink-next_ne (unlink s b) c b prev b0 c bc ∙ middle.2.2,
        ),
      )
