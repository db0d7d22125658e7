-- ===== src/Strings.antt =====
-- string/string.c and `memcmp` of memory/memory.c. A `char *` is the list of the bytes from where it
-- points to the end of its object; what reads or writes past that end is `wild`. A `char` is kept as
-- its bits.
pub mod Copy
pub mod Compare
pub mod Token
mod Tests
use cos.Prelude.{
  ℕ, zero, suc, ◌+◌, ◌-◌, ◌%◌, Bool, true, false, ◌&&◌, ◌||◌, not, List, [], ◌∷◌, ltb, leb, ◌==◌,
  if◌then◌else◌, Run, done, wild, ◌>>=◌, ℤ, pos, neg,
}

-- The rounds of a loop that count one further.
abbrev pub suc_run : Run ℕ → Run ℕ
suc_run r = r >>= λ n. done (suc n)

abbrev pub cons_run : ℕ → Run (List ℕ) → Run (List ℕ)
cons_run c r = r >>= λ cs. done (c ∷ cs)

-- `dest` afterwards. No terminator is written when `n` bytes have been copied.
unfoldable pub strncpy : (dest src : List ℕ) → ℕ → Run (List ℕ)
strncpy dest src zero = done dest
strncpy dest [] (suc n) = wild
strncpy [] (c ∷ src) (suc n) = wild
strncpy (d ∷ dest) (c ∷ src) (suc n) =
    if c == 0 then done (0 ∷ dest) else cons_run c (strncpy dest src n)

unfoldable pub strlen : List ℕ → Run ℕ
strlen [] = wild
strlen (c ∷ cs) = if c == 0 then done 0 else suc_run (strlen cs)

unfoldable pub tolower : ℕ → ℕ
tolower s1 = if leb 65 s1 && leb s1 90 then s1 + 32 else s1

-- The difference of two bytes, as an `int`.
unfoldable pub byte_sub : ℕ → ℕ → ℤ
byte_sub u1 u2 = if leb u2 u1 then pos (u1 - u2) else neg (u2 - u1)

unfoldable pub strcmp : (s1 s2 : List ℕ) → Run ℤ
unfolding byte_sub
strcmp [] s2 = wild
strcmp (u1 ∷ s1) [] = wild
strcmp (u1 ∷ s1) (u2 ∷ s2) =
    if not (u1 == u2) then done (byte_sub u1 u2) else if u1 == 0 then done (pos 0) else strcmp s1 s2

unfoldable pub strncmp : (s1 s2 : List ℕ) → ℕ → Run ℤ
unfolding byte_sub
strncmp s1 s2 zero = done (pos 0)
strncmp [] s2 (suc n) = wild
strncmp (u1 ∷ s1) [] (suc n) = wild
strncmp (u1 ∷ s1) (u2 ∷ s2) (suc n) =
    if not (u1 == u2)
    then done (byte_sub u1 u2)
    else if u1 == 0
    then done (pos 0)
    else strncmp s1 s2 n

unfoldable pub istrncmp : (s1 s2 : List ℕ) → ℕ → Run ℤ
unfolding byte_sub tolower
istrncmp s1 s2 zero = done (pos 0)
istrncmp [] s2 (suc n) = wild
istrncmp (u1 ∷ s1) [] (suc n) = wild
istrncmp (u1 ∷ s1) (u2 ∷ s2) (suc n) =
    if not (u1 == u2) && not (tolower u1 == tolower u2)
    then done (byte_sub u1 u2)
    else if u1 == 0
    then done (pos 0)
    else istrncmp s1 s2 n

unfoldable pub strnlen_terminator : List ℕ → (max terminator : ℕ) → Run ℕ
strnlen_terminator str zero terminator = done 0
strnlen_terminator [] (suc max) terminator = wild
strnlen_terminator (c ∷ cs) (suc max) terminator =
    if c == 0 || c == terminator then done 0 else suc_run (strnlen_terminator cs max terminator)

unfoldable pub strnlen : List ℕ → ℕ → Run ℕ
strnlen str zero = done 0
strnlen [] (suc max) = wild
strnlen (c ∷ cs) (suc max) = if c == 0 then done 0 else suc_run (strnlen cs max)

-- A `char` of 128 or more is negative, and no digit.
unfoldable pub isdigit : ℕ → Bool
isdigit c = leb 48 c && leb c 57

-- Called on digits only, so the difference is not negative.
unfoldable pub tonumericdigit : ℕ → ℕ
tonumericdigit c = c - 48

-- Bytes are compared as `char`, which is signed.
abbrev char_lt : ℕ → ℕ → Bool
char_lt a b = ltb ((a + 128) % 256) ((b + 128) % 256)

unfoldable pub memcmp : (s1 s2 : List ℕ) → ℕ → Run ℤ
memcmp s1 s2 zero = done (pos 0)
memcmp [] s2 (suc n) = wild
memcmp (a ∷ s1) [] (suc n) = wild
memcmp (a ∷ s1) (b ∷ s2) (suc n) =
    if not (a == b) then done (if char_lt a b then neg 1 else pos 1) else memcmp s1 s2 n
