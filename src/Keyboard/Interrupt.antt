-- ===== src/Keyboard/Interrupt.antt =====
-- `classic_keyboard_handle_interrupt` of keyboard/classic.c, from the scancode that the port gives.
use cos.Prelude.{
  ℕ, ◌%◌, Bool, not, Option, none, some, List, leb, ◌==◌, if◌then◌else◌, Run, done, wild, ◌>>=◌, ℤ,
  pos, negsuc,
}
use cos.Keyboard.Buffer.{KeyboardBuffer, keyboard_push}
use cos.Keyboard.Special.{
  caps_lock_key, keyboard_is_special_on, keyboard_special_on, keyboard_special_off,
}
use cos.Keyboard.Classic.{
  key_released, classic_keyboard_scancode_special, classic_keyboard_scancode_to_char,
}

-- Which page directory is loaded.
pub data Space : Type 0 where
  kernel_space : Space
  task_space : Space

-- What the handler tells the listeners of, as the last thing before it returns or loads the task's
-- pages.
pub data Event : Type 0 where
  nothing : Event
  key_pressed : ℕ → Event
  special_changed : ℕ → Event

-- The special keys, the key buffer of the current process if there is one, whether there is a current
-- task, and the pages.
pub record Machine : Type 0 where
  pub special_keys : List Bool
  pub process : Option KeyboardBuffer
  pub has_task : Bool
  pub space : Space

-- `scancode & ~CLASSIC_KEYBOARD_KEY_RELEASED`, and the test of that bit.
abbrev pub without_released : ℕ → ℕ
without_released scancode = scancode % key_released

abbrev pub is_released : ℕ → Bool
is_released scancode = leb key_released scancode

abbrev pub after_special : Machine → List Bool × Option ℕ → Machine × Event
after_special s (keys, none) = (record s { special_keys = keys }, nothing)
after_special s (keys, some c) = (record s { special_keys = keys }, special_changed c)

unfoldable pub special_on : Machine → ℕ → Run (Machine × Event)
special_on s c = do r ← keyboard_special_on s.special_keys c; done (after_special s r)

unfoldable pub special_off : Machine → ℕ → Run (Machine × Event)
special_off s c = do r ← keyboard_special_off s.special_keys c; done (after_special s r)

unfoldable pub classic_keyboard_handle_caps_lock_press : Machine → ℕ → Run (Machine × Event)
classic_keyboard_handle_caps_lock_press s scancode =
    if is_released scancode then done (s, nothing) else do
      on ← keyboard_is_special_on s.special_keys caps_lock_key
      if on then special_off s caps_lock_key else special_on s caps_lock_key

-- `task_page` reads the current task.
unfoldable pub task_page : Machine × Event → Run (Machine × Event)
task_page (s, e) = if s.has_task then done (record s { space = task_space }, e) else wild

abbrev pub after_push : Machine → Option KeyboardBuffer × Option ℕ → Machine × Event
after_push s (p, none) = (record s { process = p }, nothing)
after_push s (p, some c) = (record s { process = p }, key_pressed c)

unfoldable pub press_key : Machine → ℕ → Run (Machine × Event)
press_key s scancode = do
  c ← classic_keyboard_scancode_to_char s.special_keys scancode
  let r = if not (c == 0) then after_push s (keyboard_push s.process c) else (s, nothing)
  task_page r

-- The handler after `kernel_page`, given the special index.
unfoldable pub handle_scancode : Machine → (special_index : ℤ) → ℕ → Run (Machine × Event)
handle_scancode s (negsuc n) scancode =
    if is_released scancode then done (s, nothing) else press_key s scancode
handle_scancode s (pos i) scancode =
    if i == caps_lock_key
    then classic_keyboard_handle_caps_lock_press s scancode
    else if is_released scancode
    then special_off s i
    else special_on s i

unfoldable pub classic_keyboard_handle_interrupt : Machine → ℕ → Run (Machine × Event)
classic_keyboard_handle_interrupt s scancode =
    handle_scancode (record s { space = kernel_space })
      (classic_keyboard_scancode_special (without_released scancode)) scancode
