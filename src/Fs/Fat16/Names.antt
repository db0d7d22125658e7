-- ===== src/Fs/Fat16/Names.antt =====
-- The name of a directory item as a string, `name.ext`.
pub mod Format
use cos.Prelude.{
  ℕ, ◌||◌, List, [], ◌∷◌, ◌++◌, ◌==◌, if◌then◌else◌, drop, replicate, Run, done, wild, ◌>>=◌,
}
use cos.Fs.Fat16.Private.{FatDirectoryItem, u8}

abbrev pub space : ℕ
space = 0x20

abbrev pub dot : ℕ
dot = 0x2E

abbrev pub end_name : List ℕ → Run (List ℕ × List ℕ)
end_name [] = wild
end_name (o ∷ out) = done ([], 0 ∷ out)

abbrev pub put : List ℕ → ℕ → (List ℕ → Run (List ℕ × List ℕ)) → Run (List ℕ × List ℕ)
put [] c rest = wild
put (o ∷ out) c rest = rest out >>= λ (p : List ℕ × List ℕ). done (c ∷ p.0, p.1)

-- The bytes written before where `*out` points afterwards, and those of the buffer from there on.
unfoldable pub fat16_to_proper_string : (out input : List ℕ) → Run (List ℕ × List ℕ)
fat16_to_proper_string out [] = wild
fat16_to_proper_string out (c ∷ input) =
    if c == 0
    then done ([], out)
    else if c == space
    then end_name out
    else put out c (λ out'. fat16_to_proper_string out' input)

-- The dot and the extension.
unfoldable pub extension : FatDirectoryItem → List ℕ → Run (List ℕ)
extension item [] = wild
extension item (o ∷ out) = do
  (ext, out') ← fat16_to_proper_string out (drop 8 item)
  done (dot ∷ ext ++ out')

-- `out` afterwards, from the bytes of the item to the end of the object that holds it.
unfoldable pub fat16_get_full_relative_filename : FatDirectoryItem → (max_len : ℕ) → Run (List ℕ)
fat16_get_full_relative_filename item max_len = do
  (name, out) ← fat16_to_proper_string (replicate max_len 0) item
  rest ← (if u8 item 8 == 0 || u8 item 8 == space then done out else extension item out)
  done (name ++ rest)
