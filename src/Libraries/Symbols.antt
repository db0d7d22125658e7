-- ===== src/Libraries/Symbols.antt =====
-- The symbols of a library by name.
use cos.Prelude.{
  ℕ, zero, suc, ◌≤◌, ◌<◌, ◌≡◌, ◌≢◌, refl, sym, ap, ◌∙◌, arith, true, false, Option, some, List, [],
  ◌∷◌, ◌++◌, append_assoc, append-nil, length, take, drop, ltb, leb, ◌==◌, if◌then◌else◌, ok, Run,
  done, ◌>>=◌, ℤ, pos, negsuc,
}
use cos.Strings.{strncmp}
use cos.Strings.Copy.{IsText, strlen-length, strncpy-copied}
use cos.Strings.Compare.{Decides, strncmp-Decides}
use cos.Libraries.{
  Addr, Symbol, Library, name_max, library_insert_symbol, library_new_symbol, symbol_loop,
  library_get_symbol_by_name,
}

-- A name that fits the field of a struct with its terminator.
abbrev pub IsName : List ℕ → Type 0
IsName cs = IsText cs × (length cs < name_max)

-- The name that the bytes of a field hold.
abbrev pub Reads : (field cs : List ℕ) → Type 0
Reads field cs = (rest : List ℕ) × (field ≡ cs ++ (0 ∷ rest))

-- Every symbol has a name, and not this one.
abbrev pub IsNew : (name : List ℕ) → List Symbol → Type 0
IsNew name [] = Unit {0}
IsNew name (s ∷ ss) = ((cs : List ℕ) × IsName cs × Reads s.name cs × (cs ≢ name)) × IsNew name ss

-- The library with the symbols added one by one.
abbrev pub with_symbols : Library → List Symbol → Library
with_symbols l [] = l
with_symbols l (s ∷ ss) = with_symbols (library_insert_symbol l s) ss

take-whole : (n : ℕ) (xs : List ℕ) → length xs ≤ n → take n xs ≡ xs
take-whole zero [] le = refl
take-whole (suc n) [] le = refl
take-whole zero (x ∷ xs) le = absurd (omega arith)
take-whole (suc n) (x ∷ xs) le = ap (λ (t : List ℕ). x ∷ t) (take-whole n xs (omega arith))

-- A comparison of fields that hold names.
pub names-Decides :
    (field cs name rest : List ℕ)
    → IsName cs
    → IsName name
    → Reads field cs
    → Decides (strncmp field (name ++ (0 ∷ rest)) name_max) (cs ≡ name)
names-Decides field cs name rest (tc, lc) (tn, ln) (r, e) =
    let (v, run, iff) = strncmp-Decides cs name r rest name_max tc tn in
    let c = take-whole name_max cs (omega arith) in
    let n = take-whole name_max name (omega arith) in
    (
      v,
      ap (λ f. strncmp f (name ++ (0 ∷ rest)) name_max) e ∙ run,
      (λ z. sym c ∙ iff.0 z ∙ n, λ q. iff.1 (c ∙ q ∙ sym n)),
    )

abbrev chosen : Symbol → Run (Option Symbol) → ℤ → Run (Option Symbol)
chosen s further v = elim v [
  | pos n ↦ if n == 0 then done (some s) else further
  | negsuc n ↦ further
]

chosen-ne :
    (s : Symbol) (further : Run (Option Symbol)) (v : ℤ) → v ≢ pos 0 → chosen s further v ≡ further
chosen-ne s further (pos n) ne =
    let t : (n == 0) ≡ false = let q : n ≢ 0 = λ e. ne (ap pos e) in ground arith in rw t
chosen-ne s further (negsuc n) ne = refl

symbol_loop-new :
    (name rest : List ℕ) (pre post : List Symbol)
    → IsName name
    → IsNew name pre
    → symbol_loop (pre ++ post) (name ++ (0 ∷ rest)) ≡ symbol_loop post (name ++ (0 ∷ rest))
unfolding symbol_loop
symbol_loop-new name rest [] post n h = refl
symbol_loop-new name rest (s ∷ pre) post n ((cs, c, reads, ne), h) =
    let (v, run, iff) = names-Decides s.name cs name rest c n reads in
    let further = symbol_loop (pre ++ post) (name ++ (0 ∷ rest)) in
    ap (λ r. r >>= chosen s further) run
    ∙ chosen-ne s further v (λ z. ne (iff.0 z))
    ∙ symbol_loop-new name rest pre post n h

symbol_loop-named :
    (name rest : List ℕ) (s : Symbol) (post : List Symbol)
    → IsName name
    → Reads s.name name
    → symbol_loop (s ∷ post) (name ++ (0 ∷ rest)) ≡ done (some s)
unfolding symbol_loop
symbol_loop-named name rest s post n reads =
    let (v, run, iff) = names-Decides s.name name name rest n n reads in
    let further = symbol_loop post (name ++ (0 ∷ rest)) in
    ap (λ r. r >>= chosen s further) run ∙ ap (chosen s further) (iff.1 refl)

new_symbol_run :
    (l : Library) (self : ℕ) (stack name rest : List ℕ) (addr : Addr)
    → name_max ≤ length stack
    → IsName name
    → library_new_symbol l self stack (name ++ (0 ∷ rest)) addr
      ≡ done (
        ok tt,
        library_insert_symbol l (record {
          name = name ++ (0 ∷ drop (suc (length name)) stack);
          addr = addr;
          library = self;
        }),
      )
unfolding library_new_symbol
new_symbol_run l self stack name rest addr room (text, short) =
    let fits : leb name_max (length name) ≡ false = ground arith in
    let whole : ltb (length name) name_max ≡ true = ground arith in
    rw
      (strlen-length name rest text, fits, strncpy-copied stack name rest name_max text room, whole)

with_symbols-append :
    (l : Library) (ss : List Symbol) → (with_symbols l ss).symbols ≡ l.symbols ++ ss
unfolding library_insert_symbol
with_symbols-append l [] = sym (append-nil l.symbols)
with_symbols-append l (s ∷ ss) =
    with_symbols-append (library_insert_symbol l s) ss ∙ append_assoc l.symbols (s ∷ []) ss

-- A symbol that is added under a new name of fewer than 256 bytes is found by that name, with the
-- address that it was given, also when others are added later, whatever their names are.
pub library_new_symbol-found :
    (l : Library) (self : ℕ) (stack name rest rest' : List ℕ) (addr : Addr) (later : List Symbol)
    → name_max ≤ length stack
    → IsName name
    → IsNew name l.symbols
    → (s : Symbol) × (library_new_symbol l self stack (name ++ (0 ∷ rest)) addr
        ≡ done (ok tt, library_insert_symbol l s))
      × (library_get_symbol_by_name
            (with_symbols (library_insert_symbol l s) later)
            (name ++ (0 ∷ rest'))
          ≡ done (some s))
      × (s.addr ≡ addr)
unfolding library_get_symbol_by_name
library_new_symbol-found l self stack name rest rest' addr later room n new =
    let s : Symbol = record {
      name = name ++ (0 ∷ drop (suc (length name)) stack);
      addr = addr;
      library = self;
    } in
    (
      s,
      new_symbol_run l self stack name rest addr room n,
      ap (λ ss. symbol_loop ss (name ++ (0 ∷ rest'))) (with_symbols-append l (s ∷ later))
          ∙ symbol_loop-new name rest' l.symbols (s ∷ later) n new
          ∙ symbol_loop-named name rest' s later n (drop (suc (length name)) stack, refl),
      refl,
    )
