-- ===== src/Keyboard/Press.antt =====
-- What the interrupt handler of the classic keyboard does with presses, repeats and releases.
use cos.Prelude.{
  ℕ, ◌+◌, ◌%◌, ◌<◌, ◌≡◌, ◌≢◌, refl, sym, ap, ◌∙◌, Bool, true, false, not, none, some, List, [], ◌∷◌,
  ◌++◌, arith, ltb, leb, ◌==◌, if◌then◌else◌, length, set, get_or, get_elem?-beyond,
  get_elem?-within, get_or-set_self, set-set, set-get_or, done, wild, pos, negsuc, Bool-cases, inl,
  inr,
}
use cos.Strings.{tolower}
use cos.Keyboard.Buffer.{KeyboardBuffer, buffer_size, push_key, keyboard_push}
use cos.Keyboard.Queue.{Holds, push_key-Holds}
use cos.Keyboard.Special.{
  total_special_keys, caps_lock_key, keyboard_is_special_on, keyboard_special_on,
  keyboard_special_off, keyboard_assert_special_key_valid,
}
use cos.Keyboard.Classic.{
  key_released, keyboard_scan_set_one, classic_keyboard_scancode_special,
  classic_keyboard_scancode_to_char,
}
use cos.Keyboard.Interrupt.{
  Machine, kernel_space, task_space, nothing, key_pressed, special_changed, special_on, special_off,
  classic_keyboard_handle_caps_lock_press, task_page, press_key, handle_scancode,
  classic_keyboard_handle_interrupt,
}

special_on-off :
    (keys : List Bool) (i : ℕ)
    → i < total_special_keys
    → get_or keys i false ≡ false
    → keyboard_special_on keys i ≡ done (set keys i true, some i)
unfolding keyboard_special_on keyboard_assert_special_key_valid
special_on-off keys i lt off = let t : ltb i 17 ≡ true = ground arith in rw (t, off)

special_on-on :
    (keys : List Bool) (i : ℕ)
    → i < total_special_keys
    → get_or keys i false ≡ true
    → keyboard_special_on keys i ≡ done (keys, none)
unfolding keyboard_special_on keyboard_assert_special_key_valid
special_on-on keys i lt on = let t : ltb i 17 ≡ true = ground arith in rw (t, on)

special_off-on :
    (keys : List Bool) (i : ℕ)
    → i < total_special_keys
    → get_or keys i false ≡ true
    → keyboard_special_off keys i ≡ done (set keys i false, some i)
unfolding keyboard_special_off keyboard_assert_special_key_valid
special_off-on keys i lt on = let t : ltb i 17 ≡ true = ground arith in rw (t, on)

set_back :
    (keys : List Bool) (i : ℕ) → get_or keys i false ≡ false → set (set keys i true) i false ≡ keys
set_back keys i off =
    set-set keys i true false ∙ ap (λ v. set keys i v) (sym off) ∙ set-get_or keys i false

-- The machine while special key `i` is held.
abbrev pub held : Machine → ℕ → Machine
held s i = record s { special_keys = set s.special_keys i true; space = kernel_space }

module _ (s : Machine) (scancode i : ℕ) (low : scancode < key_released)
    (index : classic_keyboard_scancode_special scancode ≡ pos i) (other : i ≢ caps_lock_key)
    (valid : i < total_special_keys) (whole : length s.special_keys ≡ total_special_keys)
    (off : get_or s.special_keys i false ≡ false) where
  on_again : get_or (set s.special_keys i true) i false ≡ true
  on_again = get_or-set_self s.special_keys i true false (omega (arith, whole))

  -- The first press of a special key that is off, other than caps lock, turns it on and tells
  -- the listeners; a press that repeats it while it is held changes nothing and tells nobody;
  -- its release turns it off, tells the listeners and leaves all keys as they were.
  pub press-repeat-release :
      (classic_keyboard_handle_interrupt s scancode ≡ done (held s i, special_changed i))
      × (classic_keyboard_handle_interrupt (held s i) scancode ≡ done (held s i, nothing))
      × (classic_keyboard_handle_interrupt (held s i) (scancode + key_released)
          ≡ done (record s { space = kernel_space }, special_changed i))
  unfolding classic_keyboard_handle_interrupt handle_scancode special_on special_off
  press-repeat-release =
      let m : scancode % 128 ≡ scancode = omega arith in
      let m' : (scancode + 128) % 128 ≡ scancode = omega arith in
      let p : leb 128 scancode ≡ false = ground arith in
      let r : leb 128 (scancode + 128) ≡ true = ground arith in
      let o : (i == 12) ≡ false = ground arith in
      (
        rw (m, index, o, p, special_on-off s.special_keys i valid off),
        rw (m, index, o, p, special_on-on (set s.special_keys i true) i valid on_again),
        rw (
          m',
          index,
          o,
          r,
          special_off-on (set s.special_keys i true) i valid on_again,
          set_back s.special_keys i off,
        ),
      )

caps_code : classic_keyboard_scancode_special 0x3a ≡ pos caps_lock_key
unfolding classic_keyboard_scancode_special cos.Keyboard.Classic.scancode_loop
caps_code = refl

-- Caps lock is a toggle of presses: from off, a press turns it on, the release does nothing, the next
-- press turns it off again, and both presses tell the listeners.
pub caps_lock-toggles :
    (s : Machine)
    → length s.special_keys ≡ total_special_keys
    → get_or s.special_keys caps_lock_key false ≡ false
    → (classic_keyboard_handle_interrupt s 0x3a
        ≡ done (
          record s { special_keys = set s.special_keys caps_lock_key true; space = kernel_space },
          special_changed caps_lock_key,
        ))
      × (classic_keyboard_handle_interrupt s 0xba
          ≡ done (record s { space = kernel_space }, nothing))
      × (classic_keyboard_handle_interrupt
            (record s {
              special_keys = set s.special_keys caps_lock_key true;
              space = kernel_space;
            })
            0x3a
          ≡ done (record s { space = kernel_space }, special_changed caps_lock_key))
unfolding classic_keyboard_handle_interrupt handle_scancode classic_keyboard_handle_caps_lock_press
    special_on special_off keyboard_is_special_on keyboard_assert_special_key_valid
caps_lock-toggles s whole off =
    let on_again : get_or (set s.special_keys 12 true) 12 false ≡ true =
      get_or-set_self s.special_keys 12 true false (omega (arith, whole)) in
    (
      rw (caps_code, off, special_on-off s.special_keys 12 (omega arith) off),
      rw caps_code,
      rw (
        caps_code,
        on_again,
        special_off-on (set s.special_keys 12 true) 12 (omega arith) on_again,
        set_back s.special_keys 12 off,
      ),
    )

-- The press of a key that is not special, with the character `c`, not 0, for the caps lock as it
-- is, where there is a current task and the buffer of the current process holds a queue of fewer than
-- 1024 keys: the handler adds
-- `c` to the queue, tells the listeners and loads the pages of the current task.
pub press-Holds :
    (s : Machine) (k : KeyboardBuffer) (q : List ℕ) (scancode c : ℕ)
    → s.has_task ≡ true
    → s.process ≡ some k
    → Holds k q
    → length q < buffer_size
    → scancode < key_released
    → classic_keyboard_scancode_special scancode ≡ negsuc 0
    → classic_keyboard_scancode_to_char s.special_keys scancode ≡ done c
    → c ≢ 0
    → (classic_keyboard_handle_interrupt s scancode
        ≡ done (record s { process = some (push_key k c); space = task_space }, key_pressed c))
      × Holds (push_key k c) (q ++ (c ∷ []))
unfolding classic_keyboard_handle_interrupt handle_scancode press_key keyboard_push task_page
press-Holds s k q scancode c task process h room low index char nz =
    let m : scancode % 128 ≡ scancode = omega arith in
    let p : leb 128 scancode ≡ false = ground arith in
    let z : (c == 0) ≡ false = ground arith in
    (rw (m, index, p, char, z, process, task), push_key-Holds k q c h room nz)

-- The release of a key that is not special changes no key and no buffer and tells nobody.
pub release-nothing :
    (s : Machine) (scancode : ℕ)
    → scancode < key_released
    → classic_keyboard_scancode_special scancode ≡ negsuc 0
    → classic_keyboard_handle_interrupt s (scancode + key_released)
      ≡ done (record s { space = kernel_space }, nothing)
unfolding classic_keyboard_handle_interrupt handle_scancode
release-nothing s scancode low index =
    let m : (scancode + 128) % 128 ≡ scancode = omega arith in
    let r : leb 128 (scancode + 128) ≡ true = ground arith in rw (m, index, r)

caps_lem :
    (keys : List Bool)
    → keyboard_is_special_on keys caps_lock_key ≡ done (get_or keys caps_lock_key false)
unfolding keyboard_is_special_on keyboard_assert_special_key_valid
caps_lem keys = refl

-- The character of a scancode, for every byte: within the table its entry, in lower case unless caps
-- lock is on; above 82 it is 0; and for 82, the size of the table, the read is past its end.
pub scancode_to_char_lem :
    (keys : List Bool) (scancode : ℕ)
    → classic_keyboard_scancode_to_char keys scancode ≡ (
        if ltb scancode 82
        then done (
            if get_or keys caps_lock_key false
            then get_or keyboard_scan_set_one scancode 0
            else tolower (get_or keyboard_scan_set_one scancode 0))
        else if scancode == 82
        then wild
        else done 0)
unfolding classic_keyboard_scancode_to_char
scancode_to_char_lem keys scancode = elim (Bool-cases (ltb scancode 82)) [
  | inl t ↦
      let n : ltb 82 scancode ≡ false = ground arith in
      rw (t, n, get_elem?-within keyboard_scan_set_one scancode 0 (ground arith), caps_lem keys)
        (cases (get_or keys 12 false))
  | inr f ↦ elim (Bool-cases (scancode == 82)) [
    | inl e ↦
        let n : ltb 82 scancode ≡ false = ground arith in
        rw (f, e, n, get_elem?-beyond keyboard_scan_set_one scancode (ground arith))
    | inr d ↦ let n : ltb 82 scancode ≡ true = ground arith in rw (f, d, n)
  ]
]
  where
    cases :
        (b : Bool)
        → done (
            if not b
            then tolower (get_or keyboard_scan_set_one scancode 0)
            else get_or keyboard_scan_set_one scancode 0)
          ≡ done (
              if b
              then get_or keyboard_scan_set_one scancode 0
              else tolower (get_or keyboard_scan_set_one scancode 0))
    cases true = refl
    cases false = refl
