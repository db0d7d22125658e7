-- ===== src/Strings/Compare.antt =====
-- The comparisons of string/string.c decide equality of texts.
use cos.Prelude.{
  ℕ, zero, suc, ◌≡◌, ◌≢◌, ◌↔◌, refl, sym, ap, ◌∙◌, true, false, List, [], ◌∷◌, ◌++◌, arith, take,
  ◌==◌, not, Run, done, ℤ, pos, ◌&&◌,
}
use native.Mathlib.Decide.{ℕ_discrete}
use cos.Strings.{strcmp, strncmp, istrncmp, byte_sub, tolower}
use mathlib.Core.List.{map}
use cos.Strings.Copy.{IsText}

-- Two bytes that differ, differ by an `int` that is not zero.
byte_sub-ne : (a b : ℕ) → a ≢ b → byte_sub a b ≢ pos 0
unfolding byte_sub
byte_sub-ne a b ne e = ground arith

-- How a comparison ends, for a test of equality.
abbrev pub Decides : Run ℤ → Type 0 → Type 0
Decides r P = (v : ℤ) × (r ≡ done v) × ((v ≡ pos 0) ↔ P)

-- `strcmp` of two terminated strings returns, and returns 0 exactly if their texts are equal.
pub strcmp-Decides :
    (cs ds rest rest' : List ℕ)
    → IsText cs
    → IsText ds
    → Decides (strcmp (cs ++ (0 ∷ rest)) (ds ++ (0 ∷ rest'))) (cs ≡ ds)
unfolding strcmp
strcmp-Decides [] [] rest rest' tc td = (pos 0, refl, (λ _. refl, λ _. refl))
strcmp-Decides [] (d ∷ ds) rest rest' tc td =
    let e : (0 == d) ≡ false = ground arith in
    (byte_sub 0 d, rw e, (λ z. absurd (byte_sub-ne 0 d (λ q. td.0 (sym q)) z), λ z. cc))
strcmp-Decides (c ∷ cs) [] rest rest' tc td =
    let e : (c == 0) ≡ false = ground arith in
    (byte_sub c 0, rw e, (λ z. absurd (byte_sub-ne c 0 tc.0 z), λ z. cc))
strcmp-Decides (c ∷ cs) (d ∷ ds) rest rest' tc td = elim (ℕ_discrete c d) [
  | no ne ↦
      let e : (c == d) ≡ false = ground arith in
      (byte_sub c d, rw e, (λ z. absurd (byte_sub-ne c d ne z), λ z. absurd (ne (cc))))
  | yes eq ↦
      let (v, r, iff) = strcmp-Decides cs ds rest rest' tc.1 td.1 in
      let e : (c == d) ≡ true = ground arith in
      let z : (c == 0) ≡ false = ground arith in
      (v, rw (e, z) r, (λ h. let q = iff.0 h in cc, λ h. iff.1 (cc)))
]

-- `strncmp` of two terminated strings returns, and returns 0 exactly if their texts agree in the
-- first `n` bytes.
pub strncmp-Decides :
    (cs ds rest rest' : List ℕ) (n : ℕ)
    → IsText cs
    → IsText ds
    → Decides (strncmp (cs ++ (0 ∷ rest)) (ds ++ (0 ∷ rest')) n) (take n cs ≡ take n ds)
unfolding strncmp
strncmp-Decides cs ds rest rest' zero tc td = (pos 0, refl, (λ _. refl, λ _. refl))
strncmp-Decides [] [] rest rest' (suc n) tc td = (pos 0, refl, (λ _. refl, λ _. refl))
strncmp-Decides [] (d ∷ ds) rest rest' (suc n) tc td =
    let e : (0 == d) ≡ false = ground arith in
    (byte_sub 0 d, rw e, (λ z. absurd (byte_sub-ne 0 d (λ q. td.0 (sym q)) z), λ z. cc))
strncmp-Decides (c ∷ cs) [] rest rest' (suc n) tc td =
    let e : (c == 0) ≡ false = ground arith in
    (byte_sub c 0, rw e, (λ z. absurd (byte_sub-ne c 0 tc.0 z), λ z. cc))
strncmp-Decides (c ∷ cs) (d ∷ ds) rest rest' (suc n) tc td = elim (ℕ_discrete c d) [
  | no ne ↦
      let e : (c == d) ≡ false = ground arith in
      (byte_sub c d, rw e, (λ z. absurd (byte_sub-ne c d ne z), λ z. absurd (ne (cc))))
  | yes eq ↦
      let (v, r, iff) = strncmp-Decides cs ds rest rest' n tc.1 td.1 in
      let e : (c == d) ≡ true = ground arith in
      let z : (c == 0) ≡ false = ground arith in
      (v, rw (e, z) r, (λ h. let q = iff.0 h in cc, λ h. iff.1 (cc)))
]

tolower-eq_zero : (c : ℕ) → tolower c ≡ 0 → c ≡ 0
unfolding tolower
tolower-eq_zero c h = ground arith

tolower-zero : tolower 0 ≡ 0
unfolding tolower
tolower-zero = refl

-- One round of `istrncmp`.
istrncmp-ne :
    (c d : ℕ) (s1 s2 : List ℕ) (n : ℕ)
    → tolower c ≢ tolower d
    → istrncmp (c ∷ s1) (d ∷ s2) (suc n) ≡ done (byte_sub c d)
unfolding istrncmp
istrncmp-ne c d s1 s2 n ne =
    let e : (c == d) ≡ false = let q : c ≢ d = λ h. ne (ap tolower h) in ground arith in
    let l : (tolower c == tolower d) ≡ false = ground arith in rw (e, l)

istrncmp-eq :
    (c d : ℕ) (s1 s2 : List ℕ) (n : ℕ)
    → c ≢ 0
    → tolower c ≡ tolower d
    → istrncmp (c ∷ s1) (d ∷ s2) (suc n) ≡ istrncmp s1 s2 n
unfolding istrncmp
istrncmp-eq c d s1 s2 n nz eq =
    let t : (not (c == d) && not (tolower c == tolower d)) ≡ false = ground arith in
    let z : (c == 0) ≡ false = ground arith in rw (t, z)

-- `istrncmp` of two terminated strings returns, and returns 0 exactly if their texts agree in
-- the first `n` bytes up to the case of the letters.
pub istrncmp-Decides :
    (cs ds rest rest' : List ℕ) (n : ℕ)
    → IsText cs
    → IsText ds
    → Decides
        (istrncmp (cs ++ (0 ∷ rest)) (ds ++ (0 ∷ rest')) n)
        (map tolower (take n cs) ≡ map tolower (take n ds))
istrncmp-Decides cs ds rest rest' zero tc td =
    (pos 0, unfold istrncmp in refl, (λ _. refl, λ _. refl))
istrncmp-Decides [] [] rest rest' (suc n) tc td =
    (pos 0, unfold istrncmp in refl, (λ _. refl, λ _. refl))
istrncmp-Decides [] (d ∷ ds) rest rest' (suc n) tc td =
    let l : tolower 0 ≢ tolower d = λ q. td.0 (tolower-eq_zero d (sym q ∙ tolower-zero)) in
    (
      byte_sub 0 d,
      istrncmp-ne 0 d rest (ds ++ (0 ∷ rest')) n l,
      (λ z. absurd (byte_sub-ne 0 d (λ q. td.0 (sym q)) z), λ z. cc),
    )
istrncmp-Decides (c ∷ cs) [] rest rest' (suc n) tc td =
    let l : tolower c ≢ tolower 0 = λ q. tc.0 (tolower-eq_zero c (q ∙ tolower-zero)) in
    (
      byte_sub c 0,
      istrncmp-ne c 0 (cs ++ (0 ∷ rest)) rest' n l,
      (λ z. absurd (byte_sub-ne c 0 tc.0 z), λ z. cc),
    )
istrncmp-Decides (c ∷ cs) (d ∷ ds) rest rest' (suc n) tc td =
    elim (ℕ_discrete (tolower c) (tolower d)) [
      | no ne ↦ (
        byte_sub c d,
        istrncmp-ne c d (cs ++ (0 ∷ rest)) (ds ++ (0 ∷ rest')) n ne,
        (λ z. absurd (byte_sub-ne c d (λ q. ne (ap tolower q)) z), λ z. absurd (ne (cc))),
      )
      | yes eq ↦
          let (v, r, iff) = istrncmp-Decides cs ds rest rest' n tc.1 td.1 in
          (
            v,
            istrncmp-eq c d (cs ++ (0 ∷ rest)) (ds ++ (0 ∷ rest')) n tc.0 eq ∙ r,
            (λ h. let q = iff.0 h in cc, λ h. iff.1 (cc)),
          )
    ]
