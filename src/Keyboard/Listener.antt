-- ===== src/Keyboard/Listener.antt =====
-- keyboard/listener.c: listeners chained by pointers. A listener is an address; `null` is address 0.
use cos.Prelude.{ℕ, zero, suc, Bool, not, Option, none, some, List, [], ◌∷◌, ◌==◌, if◌then◌else◌}

-- The two globals, and for each listener its `next` and which handlers it has.
pub record Registry : Type 0 where
  pub head : ℕ
  pub last : ℕ
  pub next : ℕ → ℕ
  pub has_keypress : ℕ → Bool
  pub has_special : ℕ → Bool

abbrev pub update : (ℕ → ℕ) → ℕ → ℕ → ℕ → ℕ
update f p v q = if p == q then v else f q

unfoldable pub keyboard_listener_register : Registry → ℕ → Registry
keyboard_listener_register r listener =
    if not (r.last == 0)
    then record r { next = update r.next r.last listener; last = listener }
    else record r { head = listener; last = listener }

-- `fkey` is the listener of listeners/fkeylistener.c, whose `next` keeps what it was.
unfoldable pub keyboard_listener_init : Registry → (fkey : ℕ) → Registry
unfolding keyboard_listener_register
keyboard_listener_init r fkey = keyboard_listener_register (record r { head = 0; last = 0 }) fkey

abbrev pub tell : ℕ → Option (List ℕ) → Option (List ℕ)
tell p none = none
tell p (some ps) = some (p ∷ ps)

-- The loop of `keyboard_listener_keypressed` and of `keyboard_listener_keyspecial`, whose test of the
-- handler is `has`: the listeners called, in order; `none` when the fuel runs out first. `continue`
-- does not move on.
unfoldable pub notify_loop : (fuel : ℕ) → (has : ℕ → Bool) (next : ℕ → ℕ) → ℕ → Option (List ℕ)
notify_loop zero has next current = none
notify_loop (suc k) has next current =
    let stay = notify_loop k has next current in
    let on = tell current (notify_loop k has next (next current)) in
    if current == 0 then some [] else if not (has current) then stay else on

unfoldable pub keyboard_listener_keypressed : (fuel : ℕ) → Registry → Option (List ℕ)
keyboard_listener_keypressed fuel r = notify_loop fuel r.has_keypress r.next r.head

unfoldable pub keyboard_listener_keyspecial : (fuel : ℕ) → Registry → Option (List ℕ)
keyboard_listener_keyspecial fuel r = notify_loop fuel r.has_special r.next r.head

-- The listeners that `keyboard_init` registers, and then the call of `keyboard_listener_init` in
-- kernel.c; `scroll` is the listener of listeners/scrollkeylistener.c.
unfoldable pub register_at_boot : Registry → (fkey scroll : ℕ) → Registry
register_at_boot r fkey scroll =
    keyboard_listener_init (keyboard_listener_register (keyboard_listener_register r fkey) scroll)
      fkey
