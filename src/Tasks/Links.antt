-- ===== src/Tasks/Links.antt =====
-- The list of tasks of task/task.c, and how a new task joins it.
use native.Mathlib.Decide.{ℕ_discrete}
use cos.Prelude.{
  ℕ, ◌≡◌, ◌≢◌, refl, sym, ap, subst, ◌∙◌, true, false, List, [], ◌∷◌, ◌++◌, arith, ◌==◌,
}
use cos.Prelude.Chains.{
  Linked, NotIn, Distinct, last_or, last_or-ne, Linked-snoc, last_or-snoc, Distinct-snoc,
}
use cos.Tasks.{Tasks, task_link, set_next, set_prev}
use cos.Tasks.Next.{next_of}

-- The tasks of the list, each once, from the head on; the tail is the last of them.
pub record IsTaskList (s : Tasks) (ps : List ℕ) : Type 0 where
  pub linked : Linked (next_of s) s.task_head ps
  pub last : s.task_tail ≡ last_or ps 0
  pub distinct : Distinct ps

pub set_next_self : (s : Tasks) (p v : ℕ) → next_of (set_next s p v) p ≡ v
unfolding set_next
set_next_self s p v = let t : (p == p) ≡ true = ground arith in rw (t, next_of)

pub set_next_ne : (s : Tasks) (p v x : ℕ) → p ≢ x → next_of (set_next s p v) x ≡ next_of s x
unfolding set_next
set_next_ne s p v x ne = let t : (p == x) ≡ false = ground arith in rw (t, next_of)

set_prev-next_of : (s : Tasks) (p v x : ℕ) → next_of (set_prev s p v) x ≡ next_of s x
unfolding set_prev
set_prev-next_of s p v x = elim (ℕ_discrete p x) [
  | yes e ↦ let t : (p == x) ≡ true = ground arith in rw (t, next_of) (ap (next_of s) e)
  | no d ↦ let t : (p == x) ≡ false = ground arith in rw (t, next_of)
]

set_prev-ends :
    (s : Tasks) (p v q w : ℕ) → ((set_prev (set_next s p v) q w).task_head ≡ s.task_head)
unfolding set_prev set_next
set_prev-ends s p v q w = refl

-- The state after `task_link` where the list is not empty.
task_link-joined :
    (s : Tasks) (p : ℕ)
    → s.task_head ≢ 0
    → task_link s p ≡ record (set_prev (set_next s s.task_tail p) p s.task_tail) { task_tail = p }
unfolding task_link
task_link-joined s p nz = let a : (s.task_head == 0) ≡ false = ground arith in rw a

-- A task at an address that is not null and not in the list, whose `next` is null, joins the
-- list at its end when `task_new` links it.
pub task_link-IsTaskList :
    (s : Tasks) (ps : List ℕ) (p : ℕ)
    → IsTaskList s ps
    → NotIn p ps
    → p ≢ 0
    → next_of s p ≡ 0
    → IsTaskList (task_link s p) (ps ++ (p ∷ []))
unfolding task_link
task_link-IsTaskList s [] p h n nz end =
    let a : (s.task_head == 0) ≡ true = let e = h.linked in ground arith in
    rw a (record { linked = (refl, nz, end); last = refl; distinct = (tt, tt) })
task_link-IsTaskList s (q ∷ qs) p h n nz end =
    let head : s.task_head ≢ 0 = λ e. h.linked.1 (sym (h.linked.0) ∙ e) in
    let e = h.last in
    let fresh : s.task_tail ≢ p = λ z. last_or-ne p q qs n (sym e ∙ z) in
    let joined = set_prev (set_next s s.task_tail p) p s.task_tail in
    let links : (x : ℕ) → next_of joined x ≡ next_of (set_next s s.task_tail p) x =
      set_prev-next_of (set_next s s.task_tail p) p s.task_tail in
    subst (λ s'. IsTaskList s' ((q ∷ qs) ++ (p ∷ []))) (sym (task_link-joined s p head))
      (record {
        linked =
            subst (λ x. Linked (next_of joined) x ((q ∷ qs) ++ (p ∷ [])))
              (sym (set_prev-ends s s.task_tail p p s.task_tail))
              (Linked-snoc (next_of s) (next_of joined) s.task_head q qs p h.linked h.distinct nz
                (λ x away. links x ∙ set_next_ne s s.task_tail p x (λ z. away (sym z ∙ e)))
                (ap (next_of joined) (sym e) ∙ links s.task_tail ∙ set_next_self s s.task_tail p)
                (links p ∙ set_next_ne s s.task_tail p p fresh ∙ end));
        last = sym (last_or-snoc qs q p);
        distinct = Distinct-snoc (q ∷ qs) p h.distinct n;
      })
