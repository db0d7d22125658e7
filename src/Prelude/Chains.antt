-- ===== src/Prelude/Chains.antt =====
-- Chains of addresses: lists that hang together by `next` pointers and end in null.
use Prim.Native.Nat.{ℕ}
use mathlib.Core.Path.{◌≡◌, refl, sym, subst}
use mathlib.Core.Logic.{◌≢◌}
use mathlib.Core.List.{List, [], ◌∷◌, ◌++◌}

-- The pointers from `p` on pass through `ps` and end in null.
abbrev pub Linked : (ℕ → ℕ) → ℕ → List ℕ → Type 0
Linked next p [] = p ≡ 0
Linked next p (q ∷ qs) = (p ≡ q) × (q ≢ 0) × Linked next (next q) qs

abbrev pub NotIn : ℕ → List ℕ → Type 0
NotIn x [] = Unit {0}
NotIn x (y ∷ ys) = (x ≢ y) × NotIn x ys

abbrev pub Distinct : List ℕ → Type 0
Distinct [] = Unit {0}
Distinct (x ∷ xs) = NotIn x xs × Distinct xs

abbrev pub last_or : List ℕ → ℕ → ℕ
last_or [] d = d
last_or (p ∷ ps) d = last_or ps p

pub last_or-ne : (x y : ℕ) (ys : List ℕ) → NotIn x (y ∷ ys) → last_or ys y ≢ x
last_or-ne x y [] (h, _) e = h (sym e)
last_or-ne x y (z ∷ ys) (_, h) e = last_or-ne x z ys h e

pub last_or-nonzero :
    (next : ℕ → ℕ) (p q : ℕ) (qs : List ℕ) → Linked next p (q ∷ qs) → last_or qs q ≢ 0
last_or-nonzero next p q [] (_, nz, _) = nz
last_or-nonzero next p q (s ∷ qs) (_, _, l) = last_or-nonzero next (next q) s qs l

-- A chain with one more at the end: the pointer of the last now leads to it, and the others are as
-- they were.
pub Linked-snoc :
    (f g : ℕ → ℕ) (p q : ℕ) (qs : List ℕ) (l : ℕ)
    → Linked f p (q ∷ qs)
    → Distinct (q ∷ qs)
    → l ≢ 0
    → ((x : ℕ) → x ≢ last_or qs q → g x ≡ f x)
    → g (last_or qs q) ≡ l
    → g l ≡ 0
    → Linked g p ((q ∷ qs) ++ (l ∷ []))
Linked-snoc f g p q [] l (e, nz, _) d lz same new end = (e, nz, (new, lz, end))
Linked-snoc f g p q (s ∷ qs) l (e, nz, rest) (nq, d) lz same new end =
    let keep = same q (λ z. last_or-ne q s qs nq (sym z)) in
    (
      e,
      nz,
      subst (λ x. Linked g x ((s ∷ qs) ++ (l ∷ []))) (sym keep)
          (Linked-snoc f g (f q) s qs l rest d lz same new end),
    )

pub last_or-snoc : (ps : List ℕ) (d l : ℕ) → last_or (ps ++ (l ∷ [])) d ≡ l
last_or-snoc [] d l = refl
last_or-snoc (p ∷ ps) d l = last_or-snoc ps p l

pub NotIn-snoc : (x : ℕ) (ps : List ℕ) (l : ℕ) → NotIn x ps → x ≢ l → NotIn x (ps ++ (l ∷ []))
NotIn-snoc x [] l n ne = (ne, tt)
NotIn-snoc x (p ∷ ps) l (h, n) ne = (h, NotIn-snoc x ps l n ne)

pub Distinct-snoc : (ps : List ℕ) (l : ℕ) → Distinct ps → NotIn l ps → Distinct (ps ++ (l ∷ []))
Distinct-snoc [] l d n = (tt, tt)
Distinct-snoc (p ∷ ps) l (h, d) (ne, n) =
    (NotIn-snoc p ps l h (λ e. ne (sym e)), Distinct-snoc ps l d n)

-- A chain that `q` is not in does not depend on its pointer.
pub Linked-elsewhere :
    (f g : ℕ → ℕ) (p q : ℕ) (ps : List ℕ)
    → Linked f p ps
    → NotIn q ps
    → ((x : ℕ) → q ≢ x → g x ≡ f x)
    → Linked g p ps
Linked-elsewhere f g p q [] l n same = l
Linked-elsewhere f g p q (x ∷ ps) (e, nz, l) (ne, n) same =
    (e, nz, subst (λ y. Linked g y ps) (sym (same x ne)) (Linked-elsewhere f g (f x) q ps l n same))
