-- ===== src/Fs/File/Slots.antt =====
-- The table of open files as slots: which one a new descriptor takes, and how many are used.
use cos.Prelude.{
  ℕ, zero, suc, ◌-◌, ◌≤◌, ◌<◌, ◌≡◌, ◌≢◌, refl, sym, ap, subst, arith, false, ◌||◌, Option, none,
  some, List, [], ◌∷◌, ltb, ◌==◌, length, get_or, set, get_or-set_ne, ℤ, pos, negsuc,
}
use cos.Fs.File.{FileDescriptor, next_index, free_slot, file_get_descriptor, max_file_descriptors}

-- How many descriptors are in use.
abbrev pub used : List (Option FileDescriptor) → ℕ
used [] = 0
used (none ∷ ds) = used ds
used (some d ∷ ds) = suc (used ds)

pub used-length : (ds : List (Option FileDescriptor)) → used ds ≤ length ds
used-length [] = omega arith
used-length (none ∷ ds) = omega (arith, used-length ds)
used-length (some d ∷ ds) = omega (arith, used-length ds)

-- What is known of the slot that `free_slot` gives.
pub record FreeSlot (ds : List (Option FileDescriptor)) (i : ℕ) : Type 0 where
  pub within : i < length ds
  pub null : get_or ds i none ≡ none
  pub more : (d : FileDescriptor) → used (set ds i (some d)) ≡ suc (used ds)

FreeSlot-cons :
    (e : FileDescriptor) (ds : List (Option FileDescriptor)) (i : ℕ)
    → FreeSlot ds i
    → FreeSlot (some e ∷ ds) (suc i)
FreeSlot-cons e ds i h = record {
  within = let w = h.within in omega arith;
  null = h.null;
  more = λ d. ap suc (h.more d);
}

pub next_index-some :
    (r : Option ℕ) (i : ℕ) → next_index r ≡ some i → (j : ℕ) × (r ≡ some j) × (suc j ≡ i)
next_index-some none i e = absurd (cc)
next_index-some (some j) i e = (j, refl, cc)

pub next_index-none : (r : Option ℕ) → next_index r ≡ none → r ≡ none
next_index-none none e = refl
next_index-none (some j) e = absurd (cc)

pub free_slot-FreeSlot :
    (ds : List (Option FileDescriptor)) (i : ℕ) → free_slot ds ≡ some i → FreeSlot ds i
unfolding free_slot
free_slot-FreeSlot [] i e = absurd (cc)
free_slot-FreeSlot (none ∷ ds) i e =
    let z : 0 ≡ i = cc in
    subst (FreeSlot (none ∷ ds)) z (record { within = omega arith; null = refl; more = λ d. refl })
free_slot-FreeSlot (some d ∷ ds) i e =
    let (j, h, z) = next_index-some (free_slot ds) i e in
    subst (FreeSlot (some d ∷ ds)) z (FreeSlot-cons d ds j (free_slot-FreeSlot ds j h))

pub free_slot-full : (ds : List (Option FileDescriptor)) → free_slot ds ≡ none → used ds ≡ length ds
unfolding free_slot
free_slot-full [] e = refl
free_slot-full (none ∷ ds) e = absurd (cc)
free_slot-full (some d ∷ ds) e = ap suc (free_slot-full ds (next_index-none (free_slot ds) e))

-- A descriptor number reads the slot before it.
pub get_descriptor-at :
    (ds : List (Option FileDescriptor)) (i : ℕ)
    → i < max_file_descriptors
    → file_get_descriptor ds (pos (suc i)) ≡ get_or ds i none
unfolding file_get_descriptor
get_descriptor-at ds i lt =
    let t : ((suc i == 0) || ltb 128 (suc i)) ≡ false = ground arith in
    let m : suc i - 1 ≡ i = omega arith in rw (t, m)

-- A write to slot `i` is seen by the number `suc i` only.
pub get_descriptor-set_ne :
    (ds : List (Option FileDescriptor)) (i : ℕ) (d : Option FileDescriptor) (fd : ℤ)
    → fd ≢ pos (suc i)
    → file_get_descriptor (set ds i d) fd ≡ file_get_descriptor ds fd
unfolding file_get_descriptor
get_descriptor-set_ne ds i d (negsuc n) ne = refl
get_descriptor-set_ne ds i d (pos zero) ne = refl
get_descriptor-set_ne ds i d (pos (suc n)) ne =
    let m : suc n - 1 ≡ n = omega arith in
    let apart : i ≢ n = λ e. ne (ap (λ k. pos (suc k)) (sym e)) in
    rw (m, get_or-set_ne ds i n d none apart)
