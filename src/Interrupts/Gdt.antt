-- ===== src/Interrupts/Gdt.antt =====
-- gdt/gdt.c: the eight bytes of a segment descriptor. A mask of low bits is a remainder.
use cos.Prelude.{
  ℕ, ◌+◌, ◌*◌, ◌/◌, ◌%◌, ◌^◌, ◌≤◌, ◌<◌, ◌≡◌, ◌⊎◌, inl, inr, refl, ap, ap₂, ◌∙◌, arith, ◌&&◌, true,
  false, not, List, [], ◌∷◌, ltb, leb, ◌==◌, if◌then◌else◌, Bool-cases, bit_or, bit_or-add_nibble,
  Run, done, panic, ◌>>=◌,
}

pub record GdtStructured : Type 0 where
  pub base : ℕ
  pub limit : ℕ
  pub segment_type : ℕ

abbrev pub high_flags : (limit flags : ℕ) → ℕ
high_flags limit flags = bit_or flags (limit / 2 ^ 16 % 2 ^ 4)

abbrev pub descriptor : GdtStructured → (limit flags : ℕ) → List ℕ
descriptor source limit flags =
    limit % 2 ^ 8
    ∷ limit / 2 ^ 8 % 2 ^ 8
    ∷ source.base % 2 ^ 8
    ∷ source.base / 2 ^ 8 % 2 ^ 8
    ∷ source.base / 2 ^ 16 % 2 ^ 8
    ∷ source.segment_type
    ∷ high_flags limit flags
    ∷ source.base / 2 ^ 24 % 2 ^ 8
    ∷ []

-- The eight bytes at `target`.
unfoldable pub encode_gdt_entry : GdtStructured → Run (List ℕ)
encode_gdt_entry source =
    if ltb 65536 source.limit && not (source.limit % 2 ^ 12 == 0xFFF)
    then panic
    else if ltb 65536 source.limit
    then done (descriptor source (source.limit / 2 ^ 12) 0xC0)
    else done (descriptor source source.limit 0x40)

unfoldable pub gdt_structured_to_gdt : List GdtStructured → Run (List (List ℕ))
gdt_structured_to_gdt [] = done []
gdt_structured_to_gdt (source ∷ sources) = encode_gdt_entry source >>= λ (entry : List ℕ).
    gdt_structured_to_gdt sources >>= λ (entries : List (List ℕ)). done (entry ∷ entries)

-- How the processor reads a descriptor: the base, the last byte of the segment, in pages of 4096 bytes
-- where the flag of granularity is set, and the type.
abbrev pub in_units : (flags limit : ℕ) → ℕ
in_units flags limit = if leb 128 flags then limit * 4096 + 4095 else limit

abbrev pub decoded : List ℕ → GdtStructured
decoded (b0 ∷ b1 ∷ b2 ∷ b3 ∷ b4 ∷ b5 ∷ b6 ∷ b7 ∷ []) = record {
  base = b2 + b3 * 2 ^ 8 + b4 * 2 ^ 16 + b7 * 2 ^ 24;
  limit = in_units b6 (b0 + b1 * 2 ^ 8 + b6 % 2 ^ 4 * 2 ^ 16);
  segment_type = b5;
}
decoded _ = record { base = 0; limit = 0; segment_type = 0 }

base_bytes :
    (b : ℕ)
    → b < 2 ^ 32
    → b % 2 ^ 8
        + b / 2 ^ 8 % 2 ^ 8 * 2 ^ 8
        + b / 2 ^ 16 % 2 ^ 8 * 2 ^ 16
        + b / 2 ^ 24 % 2 ^ 8 * 2 ^ 24
      ≡ b
base_bytes b lt = omega arith

limit_bits :
    (l flags : ℕ)
    → l < 2 ^ 20
    → flags % 2 ^ 4 ≡ 0
    → l % 2 ^ 8 + l / 2 ^ 8 % 2 ^ 8 * 2 ^ 8 + high_flags l flags % 2 ^ 4 * 2 ^ 16 ≡ l
limit_bits l flags lt e =
    let h : high_flags l flags ≡ flags + l / 2 ^ 16 % 2 ^ 4 =
      bit_or-add_nibble flags (l / 2 ^ 16 % 2 ^ 4) e (omega arith) in
    rw h (omega arith)

decoded-descriptor :
    (base limit segment_type l flags : ℕ)
    → base < 2 ^ 32
    → l < 2 ^ 20
    → flags % 2 ^ 4 ≡ 0
    → in_units (high_flags l flags) l ≡ limit
    → decoded
        (descriptor (record { base = base; limit = limit; segment_type = segment_type }) l flags)
      ≡ record { base = base; limit = limit; segment_type = segment_type }
decoded-descriptor base limit segment_type l flags b32 l20 e units =
    ap₂ (λ b x. record { base = b; limit = x; segment_type = segment_type }) (base_bytes base b32)
      (ap (in_units (high_flags l flags)) (limit_bits l flags l20 e) ∙ units)

in_units-pages : (l : ℕ) → in_units (high_flags l 0xC0) l ≡ l * 4096 + 4095
in_units-pages l =
    let h : high_flags l 0xC0 ≡ 0xC0 + l / 2 ^ 16 % 2 ^ 4 =
      bit_or-add_nibble 0xC0 (l / 2 ^ 16 % 2 ^ 4) refl (omega arith) in
    let t : leb 128 (high_flags l 0xC0) ≡ true = rw h (ground arith) in rw t refl

in_units-bytes : (l : ℕ) → in_units (high_flags l 0x40) l ≡ l
in_units-bytes l =
    let h : high_flags l 0x40 ≡ 0x40 + l / 2 ^ 16 % 2 ^ 4 =
      bit_or-add_nibble 0x40 (l / 2 ^ 16 % 2 ^ 4) refl (omega arith) in
    let t : leb 128 (high_flags l 0x40) ≡ false = rw h (ground arith) in rw t refl

page_end :
    (limit : ℕ)
    → (limit ≤ 65536) ⊎ (limit % 2 ^ 12 ≡ 0xFFF)
    → 65536 < limit
    → limit % 2 ^ 12 ≡ 0xFFF
page_end limit (inl le) lt = absurd (omega arith)
page_end limit (inr e) lt = e

-- What the processor reads of an entry is the segment that was encoded, for a base and a limit of 32
-- bits, where the limit is 65536 at most or ends a page.
pub encode_gdt_entry-decoded :
    (base limit segment_type : ℕ)
    → base < 2 ^ 32
    → limit < 2 ^ 32
    → (limit ≤ 65536) ⊎ (limit % 2 ^ 12 ≡ 0xFFF)
    → (encode_gdt_entry (record { base = base; limit = limit; segment_type = segment_type })
        >>= λ bytes. done (decoded bytes))
      ≡ done (record { base = base; limit = limit; segment_type = segment_type })
unfolding encode_gdt_entry
encode_gdt_entry-decoded base limit segment_type b32 l32 ends =
    elim (Bool-cases (ltb 65536 limit)) [
      | inl large ↦
          let lt : 65536 < limit = ground arith in
          let e : limit % 2 ^ 12 ≡ 0xFFF = page_end limit ends lt in
          let t : (limit % 2 ^ 12 == 0xFFF) ≡ true = ground arith in
          let units : limit / 2 ^ 12 * 4096 + 4095 ≡ limit = omega arith in
          rw (large, t)
            (ap (λ (d : GdtStructured). done d)
              (decoded-descriptor base limit segment_type (limit / 2 ^ 12) 0xC0 b32 (omega arith)
                refl (in_units-pages (limit / 2 ^ 12) ∙ units)))
      | inr small ↦
          let le : limit ≤ 65536 = ground arith in
          rw small (
            ap (λ (d : GdtStructured). done d)
              (decoded-descriptor base limit segment_type limit 0x40 b32 (omega arith) refl
                (in_units-bytes limit)))
    ]
