-- ===== src/Libraries/Tests.antt =====
-- A library with one symbol and one section, and the theorems at it.
use cos.Prelude.{
  ℕ, ◌≡◌, ◌≢◌, refl, List, [], ◌∷◌, ◌++◌, replicate, arith, ok, done, some, ◌==◌, if◌then◌else◌,
}
use cos.Libraries.{
  Addr, Symbol, Section, Library, library_insert_symbol, library_new_symbol,
  library_get_symbol_by_name, library_map, Libraries, library_get,
}
use cos.Libraries.Symbols.{IsNew, with_symbols, library_new_symbol-found}
use cos.Libraries.Chain.{library_get-first}
use cos.Libraries.Mapping.{reflagged, library_map-reflagged}

abbrev place : Addr
place = record { phys = 0x5000; virt = 0x400000 }

-- The name "a".
abbrev symbol : Symbol
symbol = record { name = 97 ∷ 0 ∷ []; addr = place; library = 8 }

abbrev section : Section
section = record { name = 46 ∷ 0 ∷ []; addr = place; size = 10; flags = 1; library = 8 }

abbrev library : Library
library = record { name = 108 ∷ 0 ∷ []; sections = section ∷ []; symbols = symbol ∷ []; next = 0 }

abbrev stack : List ℕ
stack = replicate 256 7

a_not_b : ◌≢◌ {A = List ℕ} (97 ∷ []) (98 ∷ [])
a_not_b e = ground arith

library-IsNew : IsNew (98 ∷ []) library.symbols
library-IsNew = ((97 ∷ [], ((omega arith, tt), omega arith), ([], refl), a_not_b), tt)

-- The name "b", and later another of that name.
library_new_symbol-found_test :
    (s : Symbol) × (library_new_symbol library 8 stack ((98 ∷ []) ++ (0 ∷ [])) place
      ≡ done (ok tt, library_insert_symbol library s))
    × (library_get_symbol_by_name
          (with_symbols
            (library_insert_symbol library s)
            (record symbol { name = 98 ∷ 0 ∷ [] } ∷ []))
          ((98 ∷ []) ++ (0 ∷ 5 ∷ []))
        ≡ done (some s))
    × (s.addr ≡ place)
library_new_symbol-found_test =
    library_new_symbol-found library 8 stack (98 ∷ []) [] (5 ∷ []) place
      (record symbol { name = 98 ∷ 0 ∷ [] } ∷ []) (omega arith) ((omega arith, tt), omega arith)
      library-IsNew

-- The section without a flag.
library_map-reflagged_example :
    library_map 0x1000 (record library { sections = reflagged (λ s. 0) library.sections }) (λ a. 0)
    ≡ library_map 0x1000 library (λ a. 0)
library_map-reflagged_example = library_map-reflagged 0x1000 (λ s. 0) library (λ a. 0)

-- Two libraries, "a" at 8 and "b" at 16.
abbrev libraries : Libraries
libraries = record {
  library_head = 8;
  library_tail = 16;
  library = λ q.
      if q == 8
      then record library { name = 97 ∷ 0 ∷ []; next = 16 }
      else record library { name = 98 ∷ 0 ∷ [] };
}

library_get-first_example : library_get 2 libraries ((98 ∷ []) ++ (0 ∷ [])) ≡ some (done 16)
library_get-first_example =
    library_get-first 2 libraries (98 ∷ []) [] (8 ∷ []) 16 []
      (refl, omega arith, (refl, omega arith, refl)) (omega arith) ((omega arith, tt), omega arith)
      ((97 ∷ [], ((omega arith, tt), omega arith), ([], refl), a_not_b), tt) ([], refl)
