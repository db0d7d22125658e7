-- ===== src/Keyboard/Classic.antt =====
-- keyboard/classic.c: the scancode tables of the classic driver and the look-ups in them. A scancode
-- is a byte.
use cos.Prelude.{
  ℕ, suc, Bool, not, none, some, List, [], ◌∷◌, ltb, ◌==◌, if◌then◌else◌, length, get_elem?, Run,
  done, wild, ◌>>=◌, ℤ, pos, negsuc,
}
use cos.Strings.{tolower}
use cos.Keyboard.Special.{caps_lock_key, keyboard_is_special_on}

-- CLASSIC_KEYBOARD_KEY_RELEASED.
abbrev pub key_released : ℕ
key_released = 0x80

abbrev pub keyboard_special_keys_set_one : List ℕ
keyboard_special_keys_set_one =
    0x3b ∷ 0x3c ∷ 0x3d ∷ 0x3e ∷ 0x3f ∷ 0x3f ∷ 0x40 ∷ 0x41 ∷ 0x43 ∷ 0x44 ∷ 0x57 ∷ 0x58 ∷ 0x3a ∷ 0x00
    ∷ 0x00 ∷ 0x48 ∷ 0x50 ∷ []

abbrev pub keyboard_scan_set_one : List ℕ
keyboard_scan_set_one =
    0 ∷ 0x1b ∷ 49 ∷ 50 ∷ 51 ∷ 52 ∷ 53 ∷ 54 ∷ 55 ∷ 56 ∷ 57 ∷ 48 ∷ 45 ∷ 61 ∷ 8 ∷ 9 ∷ 81 ∷ 87 ∷ 69 ∷ 82
    ∷ 84 ∷ 89 ∷ 85 ∷ 73 ∷ 79 ∷ 80 ∷ 91 ∷ 93 ∷ 0x0d ∷ 0 ∷ 65 ∷ 83 ∷ 68 ∷ 70 ∷ 71 ∷ 72 ∷ 74 ∷ 75 ∷ 76
    ∷ 59 ∷ 39 ∷ 96 ∷ 0 ∷ 39 ∷ 90 ∷ 88 ∷ 67 ∷ 86 ∷ 66 ∷ 78 ∷ 77 ∷ 44 ∷ 46 ∷ 47 ∷ 0 ∷ 42 ∷ 0 ∷ 0x20
    ∷ 0 ∷ 0 ∷ 0 ∷ 0 ∷ 0 ∷ 0 ∷ 0 ∷ 0 ∷ 0 ∷ 0 ∷ 0 ∷ 55 ∷ 56 ∷ 57 ∷ 45 ∷ 52 ∷ 53 ∷ 54 ∷ 43 ∷ 49 ∷ 50
    ∷ 51 ∷ 48 ∷ 46 ∷ []

-- The loop, on the rest of the table from index `i` on.
unfoldable pub scancode_loop : List ℕ → (i scancode : ℕ) → ℤ
scancode_loop [] i scancode = negsuc 0
scancode_loop (s ∷ ss) i scancode =
    if s == scancode then pos i else scancode_loop ss (suc i) scancode

unfoldable pub classic_keyboard_scancode_special : ℕ → ℤ
classic_keyboard_scancode_special scancode = scancode_loop keyboard_special_keys_set_one 0 scancode

-- The read of the table is `wild` past its end.
unfoldable pub classic_keyboard_scancode_to_char : List Bool → ℕ → Run ℕ
classic_keyboard_scancode_to_char special_keys scancode =
    if ltb (length keyboard_scan_set_one) scancode
    then done 0
    else elim (get_elem? keyboard_scan_set_one scancode) [
      | none ↦ wild
      | some c ↦ do
        caps ← keyboard_is_special_on special_keys caps_lock_key
        done (if not caps then tolower c else c)
    ]
