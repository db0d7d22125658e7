-- ===== src/Keyboard/Special.antt =====
-- The special keys of keyboard/keyboard.c: a flag each, and the listeners told of every change.
use cos.Prelude.{
  ℕ, Bool, true, false, Option, none, some, List, ltb, if◌then◌else◌, get_or, set, not, Run, done,
  ◌>>◌, assert,
}

-- The order of `enum SpecialKeys`, and KEYBOARD_TOTAL_SPECIAL_KEYS.
abbrev pub f1_key : ℕ
f1_key = 0

abbrev pub f12_key : ℕ
f12_key = 11

abbrev pub caps_lock_key : ℕ
caps_lock_key = 12

abbrev pub up_key : ℕ
up_key = 15

abbrev pub down_key : ℕ
down_key = 16

abbrev pub total_special_keys : ℕ
total_special_keys = 17

unfoldable pub keyboard_assert_special_key_valid : ℕ → Run (Unit {0})
keyboard_assert_special_key_valid c = assert (ltb c total_special_keys)

-- The flags afterwards, and the key that the listeners are told of.
unfoldable pub keyboard_special_on : List Bool → ℕ → Run (List Bool × Option ℕ)
unfolding keyboard_assert_special_key_valid
keyboard_special_on keys c = do
  keyboard_assert_special_key_valid c
  done (if get_or keys c false then (keys, none) else (set keys c true, some c))

unfoldable pub keyboard_is_special_on : List Bool → ℕ → Run Bool
unfolding keyboard_assert_special_key_valid
keyboard_is_special_on keys c = do keyboard_assert_special_key_valid c; done (get_or keys c false)

unfoldable pub keyboard_special_off : List Bool → ℕ → Run (List Bool × Option ℕ)
unfolding keyboard_assert_special_key_valid
keyboard_special_off keys c = do
  keyboard_assert_special_key_valid c
  done (if not (get_or keys c false) then (keys, none) else (set keys c false, some c))
