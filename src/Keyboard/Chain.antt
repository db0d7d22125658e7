-- ===== src/Keyboard/Chain.antt =====
-- Whom the listener lists of keyboard/listener.c tell of a key.
use cos.Prelude.{
  ℕ, zero, suc, ◌<◌, ◌≡◌, ◌≢◌, refl, sym, ap, subst, ◌∙◌, Bool, true, false, not, none, some, List,
  [], ◌∷◌, ◌++◌, arith, ◌==◌, same_branches, length,
}
use cos.Prelude.Chains.{
  Linked, NotIn, Distinct, last_or, last_or-nonzero, Linked-snoc, last_or-snoc, Distinct-snoc,
  last_or-ne,
}
use cos.Keyboard.Listener.{
  Registry, update, keyboard_listener_register, keyboard_listener_init, register_at_boot,
  notify_loop, keyboard_listener_keypressed, keyboard_listener_keyspecial,
}

abbrev pub All : (ℕ → Bool) → List ℕ → Type 0
All has [] = Unit {0}
All has (p ∷ ps) = (has p ≡ true) × All has ps

-- The registry chains the listeners `ps`, each once.
pub record IsChain (r : Registry) (ps : List ℕ) : Type 0 where
  pub linked : Linked r.next r.head ps
  pub last : r.last ≡ last_or ps 0
  pub distinct : Distinct ps

update_self : (f : ℕ → ℕ) (p v : ℕ) → update f p v p ≡ v
update_self f p v = let t : (p == p) ≡ true = ground arith in rw t

update_ne : (f : ℕ → ℕ) (p v q : ℕ) → p ≢ q → update f p v q ≡ f q
update_ne f p v q ne = let t : (p == q) ≡ false = ground arith in rw t

-- `keyboard_listener_register` of a listener that is not chained and whose `next` is null adds it at
-- the end of the chain.
pub register-IsChain :
    (r : Registry) (ps : List ℕ) (l : ℕ)
    → IsChain r ps
    → NotIn l ps
    → l ≢ 0
    → r.next l ≡ 0
    → IsChain (keyboard_listener_register r l) (ps ++ (l ∷ []))
unfolding keyboard_listener_register
register-IsChain r [] l c n nz end =
    let t : (r.last == 0) ≡ true = let e = c.last in ground arith in
    rw t (record { linked = (refl, nz, end); last = refl; distinct = (tt, tt) })
register-IsChain r (q ∷ qs) l c n nz end =
    let e = c.last in
    let ne = last_or-nonzero r.next r.head q qs c.linked in
    let t : (r.last == 0) ≡ false = ground arith in
    rw t (record {
      linked =
          subst (λ x. Linked (update r.next x l) r.head ((q ∷ qs) ++ (l ∷ []))) (sym e)
            (Linked-snoc r.next (update r.next (last_or qs q) l) r.head q qs l c.linked c.distinct
              nz (λ x away. update_ne r.next (last_or qs q) l x (λ z. away (sym z)))
              (update_self r.next (last_or qs q) l)
              (update_ne r.next (last_or qs q) l l (last_or-ne l q qs n) ∙ end));
      last = sym (last_or-snoc qs q l);
      distinct = Distinct-snoc (q ∷ qs) l c.distinct n;
    })

notify_loop-Linked :
    (fuel : ℕ) (has : ℕ → Bool) (next : ℕ → ℕ) (p : ℕ) (ps : List ℕ)
    → Linked next p ps
    → All has ps
    → length ps < fuel
    → notify_loop fuel has next p ≡ some ps
unfolding notify_loop
notify_loop-Linked zero has next p ps l a lt = absurd (omega arith)
notify_loop-Linked (suc k) has next p [] l a lt = let t : (p == 0) ≡ true = ground arith in rw t
notify_loop-Linked (suc k) has next p (q ∷ qs) (e, nz, l) (h, a) lt =
    let t : (p == 0) ≡ false = ground arith in
    let e' = ap next e in rw (t, e, h, notify_loop-Linked k has next (next q) qs l a (omega arith))

-- A special key is told to every listener of the chain once, in order of registration, where
-- each has a handler for it; fuel above their number is enough, and so the loop ends.
pub keyspecial-in_order :
    (r : Registry) (ps : List ℕ) (fuel : ℕ)
    → IsChain r ps
    → All r.has_special ps
    → length ps < fuel
    → keyboard_listener_keyspecial fuel r ≡ some ps
unfolding keyboard_listener_keyspecial
keyspecial-in_order r ps fuel c a lt =
    notify_loop-Linked fuel r.has_special r.next r.head ps c.linked a lt

pub keypressed-in_order :
    (r : Registry) (ps : List ℕ) (fuel : ℕ)
    → IsChain r ps
    → All r.has_keypress ps
    → length ps < fuel
    → keyboard_listener_keypressed fuel r ≡ some ps
unfolding keyboard_listener_keypressed
keypressed-in_order r ps fuel c a lt =
    notify_loop-Linked fuel r.has_keypress r.next r.head ps c.linked a lt

notify_loop-stuck :
    (fuel : ℕ) (has : ℕ → Bool) (next : ℕ → ℕ) (p : ℕ) (ps : List ℕ) (q : ℕ) (qs : List ℕ)
    → Linked next p (ps ++ (q ∷ qs))
    → has q ≡ false
    → notify_loop fuel has next p ≡ none
unfolding notify_loop
notify_loop-stuck zero has next p ps q qs l h = refl
notify_loop-stuck (suc k) has next p [] q qs l h =
    let nz = l.1 in
    let e = l.0 in
    let t : (p == 0) ≡ false = ground arith in
    let hp = ap has e ∙ h in rw (t, hp, notify_loop-stuck k has next p [] q qs l h)
notify_loop-stuck (suc k) has next p (s ∷ ps) q qs l h =
    let nz = l.1 in
    let e = l.0 in
    let t : (p == 0) ≡ false = ground arith in
    let l' = subst (λ x. Linked next (next x) (ps ++ (q ∷ qs))) (sym e) l.2 in
    rw
      (
        t,
        notify_loop-stuck k has next p (s ∷ ps) q qs l h,
        notify_loop-stuck k has next (next p) ps q qs l' h,
      )
      (same_branches (not (has p)) none)

-- With a listener in the chain that has no handler for special keys, no fuel is enough to end the
-- loop that tells of one: `continue` stays on that listener.
pub keyspecial-stuck :
    (r : Registry) (ps : List ℕ) (q : ℕ) (qs : List ℕ) (fuel : ℕ)
    → IsChain r (ps ++ (q ∷ qs))
    → r.has_special q ≡ false
    → keyboard_listener_keyspecial fuel r ≡ none
unfolding keyboard_listener_keyspecial
keyspecial-stuck r ps q qs fuel c h =
    notify_loop-stuck fuel r.has_special r.next r.head ps q qs c.linked h

-- The same of key presses.
pub keypressed-stuck :
    (r : Registry) (ps : List ℕ) (q : ℕ) (qs : List ℕ) (fuel : ℕ)
    → IsChain r (ps ++ (q ∷ qs))
    → r.has_keypress q ≡ false
    → keyboard_listener_keypressed fuel r ≡ none
unfolding keyboard_listener_keypressed
keypressed-stuck r ps q qs fuel c h =
    notify_loop-stuck fuel r.has_keypress r.next r.head ps q qs c.linked h

-- The registry before anything is registered, with both handlers in every listener.
abbrev pub fresh : Registry
fresh = record {
  head = 0;
  last = 0;
  next = λ _. 0;
  has_keypress = λ _. true;
  has_special = λ _. true;
}

-- After boot both default listeners, at different addresses that are not null, are told of a
-- special key; one more that is registered then takes the place of the scroll listener, which is
-- told of nothing any more.
pub register_at_boot-listeners :
    (fkey scroll l : ℕ)
    → fkey ≢ 0
    → scroll ≢ 0
    → l ≢ 0
    → fkey ≢ scroll
    → fkey ≢ l
    → (let r = register_at_boot fresh fkey scroll in
        (keyboard_listener_keyspecial 3 r ≡ some (fkey ∷ scroll ∷ []))
        × (keyboard_listener_keyspecial 3 (keyboard_listener_register r l) ≡ some (fkey ∷ l ∷ [])))
unfolding register_at_boot keyboard_listener_init keyboard_listener_register
    keyboard_listener_keyspecial notify_loop
register_at_boot-listeners fkey scroll l fz sz lz fs fl =
    let a : (fkey == 0) ≡ false = ground arith in
    let b : (scroll == 0) ≡ false = ground arith in
    let c : (l == 0) ≡ false = ground arith in
    let d : (fkey == scroll) ≡ false = ground arith in
    let e : (fkey == l) ≡ false = ground arith in
    let f : (fkey == fkey) ≡ true = ground arith in (simp (a, b, d, f), simp (a, c, e, f))
