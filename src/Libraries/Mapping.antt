-- ===== src/Libraries/Mapping.antt =====
-- What the flags of a section do to its mapping.
use cos.Prelude.{
  ℕ, ◌≡◌, refl, sym, ap, ap₂, ◌∙◌, List, [], ◌∷◌, ◌==◌, ◌%◌, if◌then◌else◌, Result, ok, err, Run,
  done, panic, wild, ◌>>=◌, bit_or, ◌+◌, Bool, true, false,
}
use cos.Memory.Page.{word, paging_align_to_lower_page, paging_align_address}
use cos.Memory.KernelHeap.{Bytes}
use cos.Memory.Paging.{page_present, page_writeable, access_from_all, paging_map_to}
use cos.Libraries.{Section, Library, section_flags, go_on, map_loop, library_map}

-- The sections with other flags.
abbrev pub reflagged : (Section → ℕ) → List Section → List Section
reflagged f [] = []
reflagged f (s ∷ ss) = record s { flags = f s } ∷ reflagged f ss

-- Every section is mapped as writeable.
section_flags-all :
    (s : Section) → section_flags s ≡ bit_or (bit_or page_present access_from_all) page_writeable
unfolding section_flags
section_flags-all s = branches (s.flags % 2 == 1)
  where
    branches : (b : Bool) → ◌≡◌ {A = ℕ} (if b then 7 else 7) 7
    branches true = refl
    branches false = refl

go_on-ext :
    (r : Run (Result (Unit {0}) × Bytes)) (f g : Bytes → Run (Result (Unit {0}) × Bytes))
    → ((m : Bytes) → f m ≡ g m)
    → (r >>= go_on f) ≡ (r >>= go_on g)
go_on-ext (done (err e, m)) f g same = refl
go_on-ext (done (ok u, m)) f g same = same m
go_on-ext panic f g same = refl
go_on-ext wild f g same = refl

map_loop-reflagged :
    (directory : ℕ) (f : Section → ℕ) (ss : List Section) (m : Bytes)
    → map_loop directory (reflagged f ss) m ≡ map_loop directory ss m
unfolding map_loop
map_loop-reflagged directory f [] m = refl
map_loop-reflagged directory f (s ∷ ss) m =
    let with_flags : ℕ → Run (Result (Unit {0}) × Bytes) = λ flags.
      paging_map_to m directory (paging_align_to_lower_page s.addr.virt)
        (paging_align_to_lower_page s.addr.phys)
        (paging_align_address ((s.addr.phys + s.size) % word)) flags in
    let same = section_flags-all (record s { flags = f s }) ∙ sym (section_flags-all s) in
    ap₂ (λ (a b : Run (Result (Unit {0}) × Bytes)). if s.size == 0 then a else b)
      (map_loop-reflagged directory f ss m)
      (ap (λ flags. with_flags flags >>= go_on (map_loop directory (reflagged f ss))) same
        ∙ go_on-ext (with_flags (section_flags s)) (map_loop directory (reflagged f ss))
            (map_loop directory ss) (map_loop-reflagged directory f ss))

-- The pages that a library is mapped to do not depend on the flags of its sections: with any other
-- flags `library_map` has the same status and leaves the same page tables.
pub library_map-reflagged :
    (directory : ℕ) (f : Section → ℕ) (l : Library) (m : Bytes)
    → library_map directory (record l { sections = reflagged f l.sections }) m
      ≡ library_map directory l m
unfolding library_map
library_map-reflagged directory f l m = map_loop-reflagged directory f l.sections m
