-- ===== src/Processes/Arguments/Path.antt =====
-- Which program names fit in the path that is made of them.
use cos.Prelude.{
  ℕ, zero, suc, ◌-◌, ◌≤◌, ◌<◌, ◌≡◌, ◌≢◌, refl, ◌∙◌, arith, false, List, [], ◌∷◌, ◌++◌, ◌==◌,
  if◌then◌else◌, ltb, Bool-cases, inl, inr, length, drop, done, wild,
}
use cos.Strings.{strncpy}
use cos.Strings.Copy.{IsText}
use cos.Fs.PathParser.{max_path}
use cos.Processes.Arguments.{run_path}

-- A text that fits, and one that runs out of the buffer before `n` bytes are copied.
strncpy-fits :
    (dest cs rest : List ℕ) (n : ℕ)
    → IsText cs
    → length cs < length dest
    → length cs < n
    → strncpy dest (cs ++ (0 ∷ rest)) n ≡ done (cs ++ (0 ∷ drop (suc (length cs)) dest))
unfolding strncpy
strncpy-fits dest cs rest zero t fits lt = absurd (omega arith)
strncpy-fits [] cs rest (suc n) t fits lt = absurd (omega arith)
strncpy-fits (d ∷ dest) [] rest (suc n) t fits lt = refl
strncpy-fits (d ∷ dest) (c ∷ cs) rest (suc n) t fits lt =
    let e : (c == 0) ≡ false = ground arith in
    rw (e, strncpy-fits dest cs rest n t.1 (omega arith) (omega arith)) refl

strncpy-overrun :
    (dest cs rest : List ℕ) (n : ℕ)
    → IsText cs
    → length dest ≤ length cs
    → length dest < n
    → strncpy dest (cs ++ (0 ∷ rest)) n ≡ wild
unfolding strncpy
strncpy-overrun dest cs rest zero t le lt = absurd (omega arith)
strncpy-overrun [] [] rest (suc n) t le lt = refl
strncpy-overrun [] (c ∷ cs) rest (suc n) t le lt = refl
strncpy-overrun (d ∷ dest) [] rest (suc n) t le lt = absurd (omega arith)
strncpy-overrun (d ∷ dest) (c ∷ cs) rest (suc n) t le lt =
    let e : (c == 0) ≡ false = ground arith in
    rw (e, strncpy-overrun dest cs rest n t.1 (omega arith) (omega arith)) refl

length-drop : (dest : List ℕ) (n : ℕ) → length (drop n dest) ≡ length dest - n
length-drop dest zero = omega arith
length-drop [] (suc n) = omega arith
length-drop (d ∷ dest) (suc n) = length-drop dest n ∙ omega arith

prefix-copied :
    (buffer : List ℕ)
    → length buffer ≡ max_path
    → strncpy buffer (48 ∷ 58 ∷ 47 ∷ 0 ∷ []) max_path ≡ done (48 ∷ 58 ∷ 47 ∷ 0 ∷ drop 4 buffer)
prefix-copied buffer e =
    let ne : (c : ℕ) → 0 < c → c ≢ 0 = λ c lt z. absurd (omega arith) in
    strncpy-fits buffer (48 ∷ 58 ∷ 47 ∷ []) [] max_path
      (ne 48 (omega arith), (ne 58 (omega arith), (ne 47 (omega arith), tt))) (omega arith)
      (omega arith)

-- The path of a program is 0:/ and its name, where the name has fewer than 105 bytes; a longer one is
-- copied past the end of the buffer of 108 bytes.
pub run_path_lem :
    (buffer name rest : List ℕ)
    → length buffer ≡ max_path
    → IsText name
    → run_path buffer (name ++ (0 ∷ rest)) ≡ (
        if ltb (length name) 105
        then done (48 ∷ 58 ∷ 47 ∷ (name ++ (0 ∷ drop (suc (length name)) (0 ∷ drop 4 buffer))))
        else wild)
unfolding run_path
run_path_lem buffer name rest e t =
    let room : length (0 ∷ drop 4 buffer) ≡ 105 = omega (arith, length-drop buffer 4) in
    elim (Bool-cases (ltb (length name) 105)) [
      | inl lt ↦
          let fits : length name < 105 = ground arith in
          rw
            (
              lt,
              prefix-copied buffer e,
              strncpy-fits (0 ∷ drop 4 buffer) name rest max_path t (omega arith) (omega arith),
            )
            refl
      | inr ge ↦
          let over : 105 ≤ length name = ground arith in
          rw
            (
              ge,
              prefix-copied buffer e,
              strncpy-overrun (0 ∷ drop 4 buffer) name rest max_path t (omega arith) (omega arith),
            )
            refl
    ]
