-- ===== src/Interrupts/Commands.antt =====
-- The system commands of idt/idt.c and isr80h/isr80h.c: registration, and which function a command calls.
use cos.Prelude.{
  ℕ, zero, suc, ◌+◌, ◌-◌, ◌≤◌, ◌<◌, ◌≡◌, refl, sym, ap, ◌∙◌, arith, ◌||◌, not, true, false, ltb,
  leb, ◌==◌, List, [], ◌∷◌, if◌then◌else◌, Bool-cases, inl, inr, Run, done, panic, ◌>>=◌, length,
  get_or, get_or-beyond, ℤ, pos, negsuc,
}

-- COS32_MAX_ISR80H_COMMANDS.
abbrev pub max_commands : ℕ
max_commands = 128

-- `isr80h_commands`, by command.
abbrev pub Commands : Type 0
Commands = ℕ → ℕ

-- A negative command is left out: it panics too.
unfoldable pub isr80h_register_command : Commands → (command_id command : ℕ) → Run Commands
isr80h_register_command s command_id command =
    if leb max_commands command_id
    then panic
    else if not (s command_id == 0)
    then panic
    else done (λ j. if command_id == j then command else s j)

-- The function called, or 0 for none.
unfoldable pub isr80h_handle_command : Commands → (command : ℤ) → ℕ
isr80h_handle_command s (negsuc n) = 0
isr80h_handle_command s (pos command) =
    if command == 0 || leb max_commands command then 0 else s command

-- The calls of `isr80h_register_all`, for the functions of the commands from `i` on.
unfoldable pub register_from : Commands → (i : ℕ) → List ℕ → Run Commands
register_from s i [] = done s
register_from s i (command ∷ rest) =
    isr80h_register_command s i command >>= λ (s' : Commands). register_from s' (suc i) rest

-- SYSTEM_COMMAND_PRINT is 1, the first that has a function.
unfoldable pub isr80h_register_all : Commands → List ℕ → Run Commands
isr80h_register_all s functions = register_from s 1 functions

register-free :
    (s : Commands) (i command : ℕ)
    → i < max_commands
    → s i ≡ 0
    → isr80h_register_command s i command ≡ done (λ j. if i == j then command else s j)
unfolding isr80h_register_command
register-free s i command lt e =
    let a : leb max_commands i ≡ false = ground arith in
    let b : (not (s i == 0)) ≡ false = ground arith in rw (a, b) refl

-- What a write at `i`, and the functions behind it, make of the table.
behind :
    (s : Commands) (i command : ℕ) (rest : List ℕ) (j : ℕ)
    → (if ltb j (suc i) then if i == j then command else s j else get_or rest (j - suc i) 0)
      ≡ (if ltb j i then s j else get_or (command ∷ rest) (j - i) 0)
behind s i command rest j = elim (Bool-cases (ltb j i)) [
  | inl t ↦
      let a : ltb j (suc i) ≡ true = ground arith in
      let b : (i == j) ≡ false = ground arith in rw (a, b, t) refl
  | inr f ↦ elim (Bool-cases (i == j)) [
    | inl t ↦
        let a : ltb j (suc i) ≡ true = ground arith in
        let e : 0 ≡ j - i = ground arith in rw (a, t, f) (ap (λ k. get_or (command ∷ rest) k 0) e)
    | inr g ↦
        let a : ltb j (suc i) ≡ false = ground arith in
        let e : suc (j - suc i) ≡ j - i = ground arith in
        rw (a, f) (ap (λ k. get_or (command ∷ rest) k 0) e)
  ]
]

register_from-functions :
    (s : Commands) (i : ℕ) (functions : List ℕ) (j : ℕ)
    → i + length functions ≤ max_commands
    → ((k : ℕ) → i ≤ k → s k ≡ 0)
    → (s' : Commands) × (register_from s i functions ≡ done s')
      × (s' j ≡ (if ltb j i then s j else get_or functions (j - i) 0))
unfolding register_from
register_from-functions s i [] j le free = elim (Bool-cases (ltb j i)) [
  | inl t ↦ (s, refl, rw t refl)
  | inr f ↦ let le' : i ≤ j = ground arith in (s, refl, rw f (free j le'))
]
register_from-functions s i (command ∷ rest) j le free =
    let s1 : Commands = λ k. if i == k then command else s k in
    let free1 : (k : ℕ) → suc i ≤ k → s1 k ≡ 0 =
      λ k le'. let f : (i == k) ≡ false = ground arith in rw f (free k (omega arith)) in
    let (s', e, at) = register_from-functions s1 (suc i) rest j (omega arith) free1 in
    (
      s',
      ap (λ r. r >>= λ (s' : Commands). register_from s' (suc i) rest)
            (register-free s i command (omega arith) (free i (omega arith)))
          ∙ e,
      at ∙ behind s i command rest j,
    )

-- The function given for a command.
abbrev pub function_of : List ℕ → ℤ → ℕ
function_of functions (negsuc n) = 0
function_of functions (pos zero) = 0
function_of functions (pos (suc c)) = get_or functions c 0

-- The functions of the commands from 1 on are registered in a table that is clear, if they are fewer than
-- 128: then a command calls the function that was given for it, and a command of 0, a negative one or
-- one that has no function calls none.
pub isr80h_register_all-handled :
    (functions : List ℕ) (command : ℤ)
    → length functions < max_commands
    → (s' : Commands) × (isr80h_register_all (λ j. 0) functions ≡ done s')
      × (isr80h_handle_command s' command ≡ function_of functions command)
unfolding isr80h_register_all isr80h_handle_command
isr80h_register_all-handled functions (negsuc n) lt =
    let (s', e, at) = register_from-functions (λ j. 0) 1 functions 0 (omega arith) (λ k le. refl) in
    (s', e, refl)
isr80h_register_all-handled functions (pos zero) lt =
    let (s', e, at) = register_from-functions (λ j. 0) 1 functions 0 (omega arith) (λ k le. refl) in
    (s', e, refl)
isr80h_register_all-handled functions (pos (suc c)) lt =
    let (s', e, at) =
      register_from-functions (λ j. 0) 1 functions (suc c) (omega arith) (λ k le. refl) in
    let value : s' (suc c) ≡ get_or functions c 0 =
      at
      ∙ (let f : ltb (suc c) 1 ≡ false = ground arith in
          let g : suc c - 1 ≡ c = omega arith in rw (f, g) refl) in
    (
      s',
      e,
      elim (Bool-cases (leb max_commands (suc c))) [
        | inl t ↦
            let beyond : length functions ≤ c = ground arith in
            let z : (suc c == 0) ≡ false = ground arith in
            rw (z, t) (sym (get_or-beyond functions c 0 beyond))
        | inr f ↦ let z : (suc c == 0) ≡ false = ground arith in rw (z, f) value
      ],
    )
