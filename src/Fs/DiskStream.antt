-- ===== src/Fs/DiskStream.antt =====
-- disk/disk.c and disk/streamer.c: reads of any length over a disk of 512-byte sectors. The drive is
-- hardware: `sector lba i` is byte `i` of sector `lba`, which the port reads of `disk_read_sector`
-- deliver, and `primary` is the address of the one `struct disk`. Allocation succeeds.
pub mod Read
mod Tests
use cos.Prelude.{
  ℕ, zero, suc, ◌+◌, ◌-◌, ◌/◌, ◌%◌, ◌^◌, Bool, not, Option, none, some, List, [], ◌∷◌, ◌++◌, leb,
  ◌==◌, if◌then◌else◌, Result, ok, err, Run, done, wild, ◌>>=◌, eio,
}

abbrev pub sector_size : ℕ
sector_size = 512

-- `struct disk_stream`. The position is an `int` that is not negative.
pub record DiskStream : Type 0 where
  pub pos : ℕ
  pub disk : ℕ

-- `none` is the fuel run out. A sum that leaves the `int` is `wild`, as signed overflow is undefined.
abbrev pub Reading : Type 0
Reading = Option (Run (Result (Unit {0}) × List ℕ × DiskStream))

-- The bytes of one sector before those of the call that reads the rest.
abbrev pub prepend : List ℕ → Reading → Reading
prepend bytes none = none
prepend bytes (some r) =
    some (r >>= λ (q : Result (Unit {0}) × List ℕ × DiskStream). done (q.0, bytes ++ q.1, q.2))

-- The copying loop, `rounds` bytes from index `i` of the buffer.
abbrev pub copy_out : (ℕ → ℕ) → (rounds i : ℕ) → List ℕ
copy_out buf zero i = []
copy_out buf (suc n) i = buf i ∷ copy_out buf n (i + 1)

unfoldable pub diskstreamer_seek : DiskStream → ℕ → DiskStream
diskstreamer_seek stream position = record stream { pos = position }

unfoldable pub disk_get : (primary index : ℕ) → Option ℕ
disk_get primary index = if not (index == 0) then none else some primary

abbrev pub out_of_int : ℕ → Bool
out_of_int n = leb (2 ^ 31) n

module _ (primary : ℕ) (sector : ℕ → ℕ → ℕ) where
  -- The status, and what `buf` holds: the sector, by offset.
  unfoldable pub disk_read_block : (idisk lba : ℕ) → Result (ℕ → ℕ)
  disk_read_block idisk lba = if not (idisk == primary) then err eio else ok (sector lba)

  unfoldable pub diskstreamer_new : ℕ → Option DiskStream
  diskstreamer_new disk_id = elim (disk_get primary disk_id) [
    | none ↦ none
    | some d ↦ some (record { pos = 0; disk = d })
  ]

  -- One call of `diskstreamer_read` with the recursive call given: the status, the bytes that went to
  -- `out`, and the stream.
  unfoldable pub read_step : (DiskStream → ℕ → Reading) → DiskStream → ℕ → Reading
  read_step again stream total =
      let offset = stream.pos % sector_size in
      let overflow = leb sector_size (offset + total) in
      let total_to_read = if overflow then total - (offset + total - sector_size) else total in
      let copied : Result (ℕ → ℕ) → Reading = λ block. elim block [
        | err e ↦ some (done (err e, [], stream))
        | ok buf ↦
            let stream' = record stream { pos = stream.pos + total_to_read } in
            let bytes = copy_out buf total_to_read offset in
            let more = prepend bytes (again stream' (total - total_to_read)) in
            let here : Reading = if overflow then more else some (done (ok tt, bytes, stream')) in
            if out_of_int (stream.pos + total_to_read) then some wild else here
      ] in
      let found : Reading = copied (disk_read_block stream.disk (stream.pos / sector_size)) in
      if out_of_int (offset + total) then some wild else found

  -- `none` when the fuel runs out, which `Read` shows not to happen.
  unfoldable pub diskstreamer_read : (fuel : ℕ) → DiskStream → ℕ → Reading
  diskstreamer_read zero stream total = none
  diskstreamer_read (suc k) stream total = read_step (diskstreamer_read k) stream total
