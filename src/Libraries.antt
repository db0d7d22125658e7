-- ===== src/Libraries.antt =====
-- loader/library.c: the libraries that are loaded, with their sections and symbols. The array of each
-- is the list of its elements, a library is an address, and 0 is null.
pub mod Symbols
pub mod Mapping
pub mod Chain
mod Tests
use cos.Prelude.{
  ℕ, zero, suc, ◌+◌, ◌^◌, ◌%◌, bit_or, leb, ◌==◌, if◌then◌else◌, Option, none, some, List, [], ◌∷◌,
  ◌++◌, length, get_elem?, replicate, Result, ok, err, Run, done, panic, wild, ◌>>=◌, ℤ, pos,
  negsuc, einvarg,
}
use cos.Strings.{strlen, strncpy, strncmp}
use cos.Memory.Page.{word, paging_align_to_lower_page, paging_align_address}
use cos.Memory.KernelHeap.{Bytes}
use cos.Memory.Paging.{page_present, page_writeable, access_from_all, paging_map_to}

-- LIBRARY_NAME_MAX, SECTION_NAME_MAX and SYMBOL_NAME_MAX.
abbrev pub name_max : ℕ
name_max = 256

pub record Addr : Type 0 where
  pub phys : ℕ
  pub virt : ℕ

pub record Symbol : Type 0 where
  pub name : List ℕ
  pub addr : Addr
  pub library : ℕ

pub record Section : Type 0 where
  pub name : List ℕ
  pub addr : Addr
  pub size : ℕ
  pub flags : ℕ
  pub library : ℕ

pub record Library : Type 0 where
  pub name : List ℕ
  pub sections : List Section
  pub symbols : List Symbol
  pub next : ℕ

-- The two globals and the libraries by address.
pub record Libraries : Type 0 where
  pub library_head : ℕ
  pub library_tail : ℕ
  pub library : ℕ → Library

abbrev pub with_library : Libraries → ℕ → Library → Libraries
with_library s p l = record s { library = λ q. if p == q then l else s.library q }

unfoldable pub library_insert : Libraries → ℕ → Libraries
library_insert s p =
    if s.library_head == 0
    then record s { library_head = p; library_tail = p }
    else record (with_library s s.library_tail (record (s.library s.library_tail) { next = p })) {
      library_tail = p;
    }

-- `fresh` is the address that `kzalloc` gives for the library; the first write through NULL is `wild`.
unfoldable pub library_new : Libraries → (fresh : ℕ) → (name : List ℕ) → Run (ℕ × Libraries)
library_new s fresh name = do
  n ← strlen name
  if leb name_max n then done (0, s) else if fresh == 0 then wild else do
    copied ← strncpy (replicate name_max 0) name name_max
    done (
      fresh,
      library_insert
          (with_library s fresh (record { name = copied; sections = []; symbols = []; next = 0 }))
          fresh,
    )

-- The loop over the libraries has fuel; `none` says that it ran out.
unfoldable pub library_get_loop :
    (fuel : ℕ) → Libraries → (name : List ℕ) → (current : ℕ) → Option (Run ℕ)
library_get_loop zero s name current = none
library_get_loop (suc k) s name current =
    let rest = library_get_loop k s name (s.library current).next in
    if current == 0 then some (done 0) else elim (strncmp (s.library current).name name name_max) [
      | done v ↦ elim v [ pos n ↦ if n == 0 then some (done current) else rest | negsuc n ↦ rest ]
      | panic ↦ some panic
      | wild ↦ some wild
    ]

unfoldable pub library_get : (fuel : ℕ) → Libraries → (name : List ℕ) → Option (Run ℕ)
library_get fuel s name = library_get_loop fuel s name s.library_head

unfoldable pub library_insert_section : Library → Section → Library
library_insert_section l section = record l { sections = l.sections ++ (section ∷ []) }

unfoldable pub library_insert_symbol : Library → Symbol → Library
library_insert_symbol l sym = record l { symbols = l.symbols ++ (sym ∷ []) }

unfoldable pub library_build_address : (virt phys : ℕ) → Addr
library_build_address virt phys = record { phys = phys; virt = virt }

-- `stack` is what the name of the local struct holds before it is written, and `self` the address of
-- the library.
unfoldable pub library_new_section :
    Library → (self : ℕ) → (stack name : List ℕ) → Addr → (size flags : ℕ) → Run (ℤ × Library)
library_new_section l self stack name addr size flags = do
  copied ← strncpy stack name name_max
  done (
    pos 0,
    library_insert_section l
        (record { name = copied; addr = addr; size = size; flags = flags; library = self }),
  )

-- `index` as its bits; an index below zero passes the test, and is read before the first section.
unfoldable pub library_get_section : Library → (index : ℕ) → Run (Option Section)
library_get_section l index = if leb (2 ^ 31) index then wild else done (get_elem? l.sections index)

unfoldable pub library_sections_count : Library → ℕ
library_sections_count l = length l.sections

unfoldable pub library_new_symbol :
    Library → (self : ℕ) → (stack name : List ℕ) → Addr → Run (Result (Unit {0}) × Library)
library_new_symbol l self stack name addr = do
  n ← strlen name
  if leb name_max n then done (err einvarg, l) else do
    copied ← strncpy stack name name_max
    done (ok tt, library_insert_symbol l (record { name = copied; addr = addr; library = self }))

-- The loop over the symbols.
unfoldable pub symbol_loop : List Symbol → (name : List ℕ) → Run (Option Symbol)
symbol_loop [] name = done none
symbol_loop (sym ∷ rest) name =
    let further = symbol_loop rest name in
    strncmp sym.name name name_max >>= λ v. elim v [
      | pos n ↦ if n == 0 then done (some sym) else further
      | negsuc n ↦ further
    ]

unfoldable pub library_get_symbol_by_name : Library → (name : List ℕ) → Run (Option Symbol)
library_get_symbol_by_name l name = symbol_loop l.symbols name

-- LIBRARY_SECTION_WRITEABLE is the lowest bit.
unfoldable pub section_flags : Section → ℕ
section_flags section =
    let flags = bit_or (bit_or page_present access_from_all) page_writeable in
    if section.flags % 2 == 1 then bit_or flags page_writeable else flags

abbrev pub go_on :
    (Bytes → Run (Result (Unit {0}) × Bytes))
    → Result (Unit {0}) × Bytes
    → Run (Result (Unit {0}) × Bytes)
go_on rest (err e, m) = done (err e, m)
go_on rest (ok u, m) = rest m

-- The loop over the sections, in the page tables of `directory`.
unfoldable pub map_loop : (directory : ℕ) → List Section → Bytes → Run (Result (Unit {0}) × Bytes)
map_loop directory [] m = done (ok tt, m)
map_loop directory (section ∷ rest) m =
    if section.size == 0
    then map_loop directory rest m
    else paging_map_to m directory (paging_align_to_lower_page section.addr.virt)
        (paging_align_to_lower_page section.addr.phys)
        (paging_align_address ((section.addr.phys + section.size) % word)) (section_flags section)
      >>= go_on (map_loop directory rest)

unfoldable pub library_map : (directory : ℕ) → Library → Bytes → Run (Result (Unit {0}) × Bytes)
library_map directory l m = map_loop directory l.sections m

-- The loop over the libraries has fuel, too.
unfoldable pub map_all_loop :
    (fuel : ℕ)
    → Libraries
    → (directory current : ℕ) → Bytes
    → Option (Run (Result (Unit {0}) × Bytes))
map_all_loop zero s directory current m = none
map_all_loop (suc k) s directory current m =
    let rest = map_all_loop k s directory (s.library current).next in
    if current == 0
    then some (done (ok tt, m))
    else elim (library_map directory (s.library current) m) [
      | done r ↦ elim (r.0) [ err e ↦ some (done (err e, r.1)) | ok u ↦ rest r.1 ]
      | panic ↦ some panic
      | wild ↦ some wild
    ]

unfoldable pub library_map_all :
    (fuel : ℕ) → Libraries → (directory : ℕ) → Bytes → Option (Run (Result (Unit {0}) × Bytes))
library_map_all fuel s directory m = map_all_loop fuel s directory s.library_head m
