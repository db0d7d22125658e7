-- ===== src/Libraries/Chain.antt =====
-- The libraries by name.
use cos.Prelude.{
  ℕ, zero, suc, ◌<◌, ◌≡◌, ◌≢◌, refl, ap, ◌∙◌, arith, false, Option, some, List, [], ◌∷◌, ◌++◌,
  length, ◌==◌, if◌then◌else◌, Run, done, panic, wild, ℤ, pos, negsuc,
}
use cos.Prelude.Chains.{Linked}
use cos.Strings.{strncmp}
use cos.Libraries.{Libraries, name_max, library_get_loop, library_get}
use cos.Libraries.Symbols.{IsName, Reads, names-Decides}

abbrev pub next_of : Libraries → ℕ → ℕ
next_of s p = (s.library p).next

-- Every library of the list has a name, and not this one.
abbrev pub OtherNames : Libraries → (name : List ℕ) → List ℕ → Type 0
OtherNames s name [] = Unit {0}
OtherNames s name (p ∷ ps) =
    ((cs : List ℕ) × IsName cs × Reads (s.library p).name cs × (cs ≢ name)) × OtherNames s name ps

-- One round of the loop, from the comparison on.
abbrev after : ℕ → Option (Run ℕ) → Run ℤ → Option (Run ℕ)
after current rest r = elim r [
  | done v ↦ elim v [ pos n ↦ if n == 0 then some (done current) else rest | negsuc n ↦ rest ]
  | panic ↦ some panic
  | wild ↦ some wild
]

after-ne :
    (current : ℕ) (rest : Option (Run ℕ)) (v : ℤ) → v ≢ pos 0 → after current rest (done v) ≡ rest
after-ne current rest (pos n) ne =
    let t : (n == 0) ≡ false = let q : n ≢ 0 = λ e. ne (ap pos e) in ground arith in rw t
after-ne current rest (negsuc n) ne = refl

get_loop-round :
    (k : ℕ) (s : Libraries) (name : List ℕ) (p : ℕ)
    → p ≢ 0
    → library_get_loop (suc k) s name p
      ≡ after p (library_get_loop k s name (next_of s p)) (strncmp (s.library p).name name name_max)
unfolding library_get_loop
get_loop-round k s name p ne = let t : (p == 0) ≡ false = ground arith in rw t

get_loop-named :
    (fuel : ℕ) (s : Libraries) (name rest : List ℕ) (current : ℕ) (pre : List ℕ) (p : ℕ)
    (post : List ℕ)
    → Linked (next_of s) current (pre ++ (p ∷ post))
    → length pre < fuel
    → IsName name
    → OtherNames s name pre
    → Reads (s.library p).name name
    → library_get_loop fuel s (name ++ (0 ∷ rest)) current ≡ some (done p)
get_loop-named zero s name rest current pre p post l lt n others reads = absurd (omega arith)
get_loop-named (suc k) s name rest current [] p post (e, nz, l) lt n others reads =
    let (v, run, iff) = names-Decides (s.library p).name name name rest n n reads in
    let further = library_get_loop k s (name ++ (0 ∷ rest)) (next_of s p) in
    ap (library_get_loop (suc k) s (name ++ (0 ∷ rest))) e
    ∙ get_loop-round k s (name ++ (0 ∷ rest)) p nz
    ∙ ap (after p further) run
    ∙ ap (λ w. after p further (done w)) (iff.1 refl)
get_loop-named (suc k) s name rest current (q ∷ pre) p post (e, nz, l) lt n (other, others) reads =
    let (cs, c, holds, ne) = other in
    let (v, run, iff) = names-Decides (s.library q).name cs name rest c n holds in
    let further = library_get_loop k s (name ++ (0 ∷ rest)) (next_of s q) in
    ap (library_get_loop (suc k) s (name ++ (0 ∷ rest))) e
    ∙ get_loop-round k s (name ++ (0 ∷ rest)) q nz
    ∙ ap (after q further) run
    ∙ after-ne q further v (λ z. ne (iff.0 z))
    ∙ get_loop-named k s name rest (next_of s q) pre p post l (omega arith) n others reads

-- Where the pointers from the head pass through the libraries `pre`, which have other names, and then
-- `p`, which has a name of fewer than 256 bytes, `library_get` of that name ends, for fuel above the
-- number of libraries before `p`, and returns `p`, whatever follows it.
pub library_get-first :
    (fuel : ℕ) (s : Libraries) (name rest pre : List ℕ) (p : ℕ) (post : List ℕ)
    → Linked (next_of s) s.library_head (pre ++ (p ∷ post))
    → length pre < fuel
    → IsName name
    → OtherNames s name pre
    → Reads (s.library p).name name
    → library_get fuel s (name ++ (0 ∷ rest)) ≡ some (done p)
unfolding library_get
library_get-first fuel s name rest pre p post =
    get_loop-named fuel s name rest s.library_head pre p post
