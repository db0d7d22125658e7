-- ===== src/Prelude/Outcome.antt =====
-- How a kernel function ends, and what it returns.
use Prim.Native.Nat.{ℕ, zero, suc}
use mathlib.Core.Bool.{Bool, true, false}

-- An `int` result: `ok a` is a value or a status that is not negative, `err e` is `-e` for a code
-- of status.h.
pub data Result {ℓ} (A : Type ℓ) : Type ℓ where
  ok : A → Result A
  err : ℕ → Result A

-- A call returns, or ends in `panic` (a failed ASSERT too), which loops for ever, or touches
-- memory outside the object that it works on or does what is undefined (`wild`), after which C promises
-- nothing.
pub data Run {ℓ} (A : Type ℓ) : Type ℓ where
  done : A → Run A
  panic : Run A
  wild : Run A

infixl 5 ◌>>=◌ ◌>>◌
abbrev pub ◌>>=◌ {ℓ κ} : {A : Type ℓ} {B : Type κ} → Run A → (A → Run B) → Run B
done a >>= f = f a
panic >>= f = panic
wild >>= f = wild

abbrev pub ◌>>◌ {ℓ} : {B : Type ℓ} → Run (Unit {0}) → Run B → Run B
m >> k = m >>= λ _. k

-- The ASSERT of kernel.h.
abbrev pub assert : Bool → Run (Unit {0})
assert true = done tt
assert false = panic

-- A signed number, as the library's ℤ over the native numbers: `negsuc n` is -(n + 1).
pub data ℤ : Type 0 where
  pos : ℕ → ℤ
  negsuc : ℕ → ℤ

abbrev pub neg : ℕ → ℤ
neg zero = pos zero
neg (suc n) = negsuc n

-- The codes of status.h.
abbrev pub eio : ℕ
eio = 1

abbrev pub erdonly : ℕ
erdonly = 3

abbrev pub efsnotus : ℕ
efsnotus = 4

abbrev pub ebadpath : ℕ
ebadpath = 5

abbrev pub einvarg : ℕ
einvarg = 6

abbrev pub enomem : ℕ
enomem = 7

abbrev pub eunimp : ℕ
eunimp = 8

abbrev pub eistkn : ℕ
eistkn = 9

abbrev pub einformat : ℕ
einformat = 10
