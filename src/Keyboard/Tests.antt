-- ===== src/Keyboard/Tests.antt =====
-- Runs of the keyboard, and the theorems at them.
use cos.Prelude.{
  ℕ, ◌+◌, ◌%◌, ◌≡◌, refl, true, false, none, some, [], ◌∷◌, ◌++◌, arith, replicate,
  length-replicate, get_or, get_or-replicate, set, done, wild, ltb, ◌==◌, if◌then◌else◌, pos,
  negsuc,
}
use cos.Strings.{tolower}
use cos.Keyboard.Buffer.{KeyboardBuffer, buffer_size, push_key, pop_key}
use cos.Keyboard.Queue.{Holds, push_key-Holds, pop_key-Holds}
use cos.Keyboard.Listener.{
  Registry, keyboard_listener_register, keyboard_listener_keyspecial, register_at_boot,
}
use cos.Keyboard.Chain.{
  IsChain, fresh, register-IsChain, keyspecial-in_order, keyspecial-stuck,
  register_at_boot-listeners,
}
use cos.Keyboard.Special.{caps_lock_key, keyboard_is_special_on, keyboard_assert_special_key_valid}
use cos.Keyboard.Classic.{
  keyboard_scan_set_one, classic_keyboard_scancode_special, scancode_loop,
  classic_keyboard_scancode_to_char,
}
use cos.Keyboard.Interrupt.{
  Machine, kernel_space, task_space, nothing, key_pressed, special_changed,
  classic_keyboard_handle_interrupt,
}
use cos.Keyboard.Press.{
  held, press-repeat-release, caps_lock-toggles, press-Holds, scancode_to_char_lem,
}

abbrev cleared : KeyboardBuffer
cleared = record { buffer = replicate 1024 0; tail = 0; head = 0 }

cleared-Holds : Holds cleared []
cleared-Holds = record {
  size = length-replicate {A = ℕ} 1024 0;
  fits = omega arith;
  tail = refl;
  slots = λ j lt. get_or-replicate {A = ℕ} 1024 ((0 + j) % buffer_size) 0;
  keys = tt;
}

push_key-Holds_test : Holds (push_key cleared 97) ([] ++ (97 ∷ []))
push_key-Holds_test = push_key-Holds cleared [] 97 cleared-Holds (omega arith) (omega arith)

pop_key-Holds_test :
    ((pop_key (push_key cleared 97)).0 ≡ 97) × Holds (pop_key (push_key cleared 97)).1 []
pop_key-Holds_test = pop_key-Holds (push_key cleared 97) 97 [] push_key-Holds_test

abbrev machine : Machine
machine = record {
  special_keys = replicate 17 false;
  process = some cleared;
  has_task = true;
  space = task_space;
}

f1_index : classic_keyboard_scancode_special 0x3b ≡ pos 0
unfolding classic_keyboard_scancode_special scancode_loop
f1_index = refl

a_index : classic_keyboard_scancode_special 0x1e ≡ negsuc 0
unfolding classic_keyboard_scancode_special scancode_loop
a_index = refl

a_char : classic_keyboard_scancode_to_char (replicate 17 false) 0x1e ≡ done 97
unfolding classic_keyboard_scancode_to_char keyboard_is_special_on keyboard_assert_special_key_valid
    tolower
a_char = refl

press-repeat-release_test :
    (classic_keyboard_handle_interrupt machine 0x3b ≡ done (held machine 0, special_changed 0))
    × (classic_keyboard_handle_interrupt (held machine 0) 0x3b ≡ done (held machine 0, nothing))
    × (classic_keyboard_handle_interrupt (held machine 0) (0x3b + 0x80)
        ≡ done (record machine { space = kernel_space }, special_changed 0))
press-repeat-release_test =
    press-repeat-release machine 0x3b 0 (omega arith) f1_index (omega arith) (omega arith) refl refl

caps_lock-toggles_test :
    (classic_keyboard_handle_interrupt machine 0x3a
      ≡ done (
        record machine {
          special_keys = set machine.special_keys caps_lock_key true;
          space = kernel_space;
        },
        special_changed caps_lock_key,
      ))
    × (classic_keyboard_handle_interrupt machine 0xba
        ≡ done (record machine { space = kernel_space }, nothing))
    × (classic_keyboard_handle_interrupt
          (record machine {
            special_keys = set machine.special_keys caps_lock_key true;
            space = kernel_space;
          })
          0x3a
        ≡ done (record machine { space = kernel_space }, special_changed caps_lock_key))
caps_lock-toggles_test = caps_lock-toggles machine refl refl

press-Holds_example :
    (classic_keyboard_handle_interrupt machine 0x1e
      ≡ done (
        record machine { process = some (push_key cleared 97); space = task_space },
        key_pressed 97,
      ))
    × Holds (push_key cleared 97) ([] ++ (97 ∷ []))
press-Holds_example =
    press-Holds machine cleared [] 0x1e 97 refl refl cleared-Holds (omega arith) (omega arith)
      a_index a_char (omega arith)

scancode_to_char_lem_test : classic_keyboard_scancode_to_char (replicate 17 false) 82 ≡ (
    if ltb 82 82
    then done (
        if get_or (replicate 17 false) caps_lock_key false
        then get_or keyboard_scan_set_one 82 0
        else tolower (get_or keyboard_scan_set_one 82 0))
    else if 82 == 82
    then wild
    else done 0)
scancode_to_char_lem_test = scancode_to_char_lem (replicate 17 false) 82

-- A press of the keypad's 0.
keypad_zero : classic_keyboard_handle_interrupt machine 82 ≡ wild
unfolding classic_keyboard_handle_interrupt cos.Keyboard.Interrupt.handle_scancode
    cos.Keyboard.Interrupt.press_key classic_keyboard_scancode_special scancode_loop
    classic_keyboard_scancode_to_char
keypad_zero = refl

fresh-IsChain : IsChain fresh []
fresh-IsChain = record { linked = refl; last = refl; distinct = tt }

abbrev one : Registry
one = keyboard_listener_register fresh 8

register-IsChain_test : IsChain (keyboard_listener_register fresh 8) ([] ++ (8 ∷ []))
register-IsChain_test = register-IsChain fresh [] 8 fresh-IsChain tt (omega arith) refl

abbrev chained : Registry
chained = record fresh { head = 8; last = 16; next = λ p. if p == 8 then 16 else 0 }

chained-IsChain : IsChain chained (8 ∷ 16 ∷ [])
chained-IsChain = record {
  linked = (refl, omega arith, (refl, omega arith, refl));
  last = refl;
  distinct = ((omega arith, tt), (tt, tt));
}

keyspecial-in_order_test : keyboard_listener_keyspecial 3 chained ≡ some (8 ∷ 16 ∷ [])
keyspecial-in_order_test =
    keyspecial-in_order chained (8 ∷ 16 ∷ []) 3 chained-IsChain (refl, (refl, tt)) (omega arith)

-- The second listener handles no special keys.
abbrev partial : Registry
partial = record chained { has_special = λ p. p == 8 }

partial-IsChain : IsChain partial ((8 ∷ []) ++ (16 ∷ []))
partial-IsChain = record {
  linked = (refl, omega arith, (refl, omega arith, refl));
  last = refl;
  distinct = ((omega arith, tt), (tt, tt));
}

keyspecial-stuck_example : keyboard_listener_keyspecial 1000 partial ≡ none
keyspecial-stuck_example = keyspecial-stuck partial (8 ∷ []) 16 [] 1000 partial-IsChain refl

register_at_boot-listeners_test :
    (keyboard_listener_keyspecial 3 (register_at_boot fresh 8 16) ≡ some (8 ∷ 16 ∷ []))
    × (keyboard_listener_keyspecial 3 (keyboard_listener_register (register_at_boot fresh 8 16) 24)
        ≡ some (8 ∷ 24 ∷ []))
register_at_boot-listeners_test =
    register_at_boot-listeners 8 16 24 (omega arith) (omega arith) (omega arith) (omega arith)
      (omega arith)
