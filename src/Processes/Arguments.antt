-- ===== src/Processes/Arguments.antt =====
-- task/process.c: the list of command arguments, and the path made of the first of them. An argument is
-- the address of its `struct command_argument`, in a memory of these, and null is 0; `new` is what
-- `kzalloc` returns.
pub mod Path
pub mod Chain
use cos.Prelude.{
  ℕ, zero, suc, Option, none, some, List, [], ◌∷◌, ◌++◌, ◌==◌, if◌then◌else◌, take, drop, replicate,
  Run, done, wild, ◌>>=◌,
}
use cos.Strings.{strncpy}
use cos.Fs.PathParser.{max_path}

-- `sizeof` of the text of an argument.
abbrev pub argument_size : ℕ
argument_size = 512

pub record CommandArgument : Type 0 where
  pub argument : List ℕ
  pub next : ℕ

abbrev pub Arguments : Type 0
Arguments = ℕ → CommandArgument

abbrev pub with_argument : Arguments → ℕ → CommandArgument → Arguments
with_argument m p x q = if p == q then x else m q

abbrev pub one_more : Option ℕ → Option ℕ
one_more none = none
one_more (some n) = some (suc n)

abbrev pub freed_before : ℕ → Option (List ℕ) → Option (List ℕ)
freed_before p none = none
freed_before p (some ps) = some (p ∷ ps)

-- The loops over the list are on fuel, and `none` when it runs out, which `Chain` shows not to happen for
-- a list that ends.
unfoldable pub process_count_command_arguments : (fuel : ℕ) → Arguments → ℕ → Option ℕ
process_count_command_arguments zero m current = none
process_count_command_arguments (suc k) m current =
    let rest = one_more (process_count_command_arguments k m (m current).next) in
    if current == 0 then some 0 else rest

unfoldable pub process_arguments_get_last : (fuel : ℕ) → Arguments → ℕ → Option ℕ
process_arguments_get_last zero m current = none
process_arguments_get_last (suc k) m current =
    let rest = process_arguments_get_last k m (m current).next in
    if current == 0 then some 0 else if (m current).next == 0 then some current else rest

-- A new argument is zeroed.
unfoldable pub process_argument_create_one : Arguments → (new : ℕ) → Arguments
process_argument_create_one m new =
    with_argument m new (record { argument = replicate argument_size 0; next = 0 })

-- `strncpy` into the text of an argument.
abbrev pub copy_text : Arguments → ℕ → (text : List ℕ) → Run Arguments
copy_text m p text = strncpy (m p).argument text argument_size >>= λ (bytes : List ℕ).
    done (with_argument m p (record (m p) { argument = bytes }))

unfoldable pub process_arguments_create : Arguments → (new : ℕ) → List ℕ → Run (ℕ × Arguments)
process_arguments_create m new starting_argument =
    if new == 0
    then done (0, m)
    else copy_text (process_argument_create_one m new) new starting_argument >>= λ m'.
        done (new, m')

-- Behind the last one: neither it nor the new one may be NULL.
abbrev pub add_behind : Arguments → (new : ℕ) → List ℕ → ℕ → Run (ℕ × Arguments)
add_behind m new text last_arg =
    if last_arg == 0
    then wild
    else if new == 0
    then wild
    else let m1 = process_argument_create_one m new in
      let m2 = with_argument m1 last_arg (record (m1 last_arg) { next = new }) in
      copy_text m2 new text >>= λ m3. done (new, m3)

abbrev pub add_to : Arguments → (new : ℕ) → List ℕ → Option ℕ → Option (Run (ℕ × Arguments))
add_to m new text none = none
add_to m new text (some last_arg) = some (add_behind m new text last_arg)

unfoldable pub process_arguments_add :
    (fuel : ℕ) → Arguments → (new arguments : ℕ) → List ℕ → Option (Run (ℕ × Arguments))
process_arguments_add fuel m new arguments text =
    add_to m new text (process_arguments_get_last fuel m arguments)

-- What is freed, in order.
unfoldable pub process_arguments_destory : (fuel : ℕ) → Arguments → ℕ → Option (List ℕ)
process_arguments_destory zero m current = none
process_arguments_destory (suc k) m current =
    let rest = freed_before current (process_arguments_destory k m (m current).next) in
    if current == 0 then some [] else rest

-- The path of `process_run_for_argument`, from what its buffer of COS32_MAX_PATH bytes held.
unfoldable pub run_path : (buffer program_name : List ℕ) → Run (List ℕ)
run_path buffer program_name = do
  path ← strncpy buffer (48 ∷ 58 ∷ 47 ∷ 0 ∷ []) max_path
  rest ← strncpy (drop 3 path) program_name max_path
  done (take 3 path ++ rest)
