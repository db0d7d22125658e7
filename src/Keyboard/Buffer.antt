-- ===== src/Keyboard/Buffer.antt =====
-- The key buffer of task/process.h, and `keyboard_push`, `keyboard_pop` and `keyboard_backspace` of
-- keyboard/keyboard.c on it. `tail` and `head` are `int`s, kept as their bits; the remainder is taken
-- of a `size_t`.
use cos.Prelude.{ℕ, ◌+◌, ◌-◌, ◌%◌, ◌^◌, Option, none, some, List, ◌==◌, if◌then◌else◌, get_or, set}

-- COS32_KEYBOARD_BUFFER_SIZE.
abbrev pub buffer_size : ℕ
buffer_size = 1024

pub record KeyboardBuffer : Type 0 where
  pub buffer : List ℕ
  pub tail : ℕ
  pub head : ℕ

unfoldable pub keyboard_get_tail_index : KeyboardBuffer → ℕ
keyboard_get_tail_index k = k.tail % buffer_size

unfoldable pub keyboard_backspace : KeyboardBuffer → KeyboardBuffer
unfolding keyboard_get_tail_index
keyboard_backspace k =
    let k' = record k { tail = (k.tail + 2 ^ 32 - 1) % 2 ^ 32 } in
    record k' { buffer = set k'.buffer (keyboard_get_tail_index k') 0 }

-- The buffer of the process that has one.
unfoldable pub push_key : KeyboardBuffer → ℕ → KeyboardBuffer
unfolding keyboard_get_tail_index
push_key k c = record k {
  buffer = set k.buffer (keyboard_get_tail_index k) c;
  tail = (k.tail + 1) % 2 ^ 32;
}

unfoldable pub pop_key : KeyboardBuffer → ℕ × KeyboardBuffer
pop_key k =
    let real_index = k.head % buffer_size in
    let c = get_or k.buffer real_index 0 in
    if c == 0
    then (0, k)
    else (c, record k { buffer = set k.buffer real_index 0; head = (k.head + 1) % 2 ^ 32 })

-- `none` where no process runs. The option is the key that the listeners are told of.
unfoldable pub keyboard_push : Option KeyboardBuffer → ℕ → Option KeyboardBuffer × Option ℕ
unfolding push_key
keyboard_push none c = (none, none)
keyboard_push (some k) c = (some (push_key k c), some c)

unfoldable pub keyboard_pop : Option KeyboardBuffer → ℕ × Option KeyboardBuffer
unfolding pop_key
keyboard_pop none = (0, none)
keyboard_pop (some k) = let (c, k') = pop_key k in (c, some k')
