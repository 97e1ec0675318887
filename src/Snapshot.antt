-- ===== src/Snapshot.antt =====
-- What cache/snapshot.go writes: `newSnapshotHeader`, `encodeSnapshotEntry`, `writeFull` and the file
-- that `writeSnapshotAt` fills. `checksum` stands for `crc32.Checksum` with the Castagnoli table.
pub mod Load
pub mod Layout
pub mod Written
pub mod Loaded
pub mod Contents
pub mod Restored
mod Runs
use go.Prelude.{ℕ, zero, suc, ◌+◌, ◌-◌, Bool, true, false, ltb, if◌then◌else◌}
use go.Prelude.{List, [], ◌∷◌, ◌++◌, Option, none, some, length, take, drop, map, replicate}
use go.Prelude.Int.{to_uint64}
use go.Wire.{Bytes, put_le}
use go.Errors.{Result, ok, err, ◌>>=◌, short_write, os, io_failed}
use go.Shard.{Entry}
use go.Segment.{format_version}

-- 'C' 'S' 'N' 'P'
abbrev pub snapshot_magic : Bytes
snapshot_magic = 67 ∷ 83 ∷ 78 ∷ 80 ∷ []

abbrev pub snapshot_fixed_header_size : ℕ
snapshot_fixed_header_size = 12

abbrev pub snapshot_record_fixed_size : ℕ
snapshot_record_fixed_size = 26

-- The sequences behind the fixed header, eight bytes each.
unfoldable pub put_sequences : List ℕ → Bytes
put_sequences [] = []
put_sequences (s ∷ sequences) = put_le 8 s ++ put_sequences sequences

-- A header that has these sequences.
unfoldable pub snapshot_header : List ℕ → Bytes
unfolding put_sequences
snapshot_header sequences =
    snapshot_magic
    ++ (put_le 2 format_version
        ++ (0 ∷ 0 ∷ (put_le 4 (length sequences) ++ put_sequences sequences)))

-- The sequences are zero until they are filled in.
unfoldable pub new_snapshot_header : ℕ → Bytes
unfolding snapshot_header
new_snapshot_header shard_count = snapshot_header (replicate shard_count 0)

unfoldable pub entry_length : Entry → ℕ
entry_length e = snapshot_record_fixed_size + length e.key + length e.value

-- The record of an entry from `snapshotKeyLengthOffset` on: what the checksum covers.
unfoldable pub entry_body : Entry → Bytes
entry_body e =
    put_le 2 (length e.key)
    ++ (put_le 8 (to_uint64 e.deadline) ++ (put_le 8 e.sequence ++ (e.key ++ e.value)))

unfoldable pub encode_snapshot_entry : (Bytes → ℕ) → Entry → Bytes
unfolding entry_length entry_body
encode_snapshot_entry checksum e =
    let body = entry_body e in put_le 4 (entry_length e - 4) ++ (put_le 4 (checksum body) ++ body)

-- What a call of `file.Write` does, by the length of the file before it: it writes some of its bytes,
-- or it fails.
pub data Wrote : Type 0 where
  wrote : ℕ → Wrote
  failed : ℕ → Wrote

-- `writeFull`, with the file that it appends to. A round writes a byte at least; `none` says that the
-- fuel was not enough.
unfoldable pub write_full_loop : ℕ → (ℕ → Wrote) → Bytes → Bytes → Option (Result Bytes)
write_full_loop fuel write file [] = some (ok file)
write_full_loop zero write file (b ∷ value) = none
write_full_loop (suc fuel) write file (b ∷ value) = elim (write (length file)) [
  | failed n ↦ some (err (io_failed (os n)))
  | wrote zero ↦ some (err (io_failed short_write))
  | wrote (suc n) ↦
      write_full_loop fuel write (file ++ take (suc n) (b ∷ value)) (drop (suc n) (b ∷ value))
]

abbrev pub out_of_fuel : Option (Result Bytes) → Result Bytes
out_of_fuel none = err (io_failed short_write)
out_of_fuel (some r) = r

unfoldable pub write_full : (ℕ → Wrote) → Bytes → Bytes → Result Bytes
unfolding write_full_loop
write_full write file value = out_of_fuel (write_full_loop (length value) write file value)

unfoldable pub write_entries : (Bytes → ℕ) → (ℕ → Wrote) → Bytes → List Entry → Result Bytes
write_entries checksum write file [] = ok file
write_entries checksum write file (e ∷ entries) = do
  file' ← write_full write file (encode_snapshot_entry checksum e)
  write_entries checksum write file' entries

-- What the read lock of a shard shows: the sequence of the log, and the entries in the order of the
-- range.
pub record Visit : Type 0 where
  pub sequence : ℕ
  pub entries : List Entry

unfoldable pub write_visits : (Bytes → ℕ) → (ℕ → Wrote) → Bytes → List Visit → Result Bytes
unfolding write_entries
write_visits checksum write file [] = ok file
write_visits checksum write file (v ∷ visits) = do
  file' ← write_entries checksum write file v.entries
  write_visits checksum write file' visits

-- The loop that finds the lowest sequence, from the first one on.
unfoldable pub lowest_from : ℕ → List ℕ → ℕ
lowest_from lowest [] = lowest
lowest_from lowest (s ∷ sequences) = lowest_from (if ltb s lowest then s else lowest) sequences

unfoldable pub lowest_of : List ℕ → ℕ
unfolding lowest_from
lowest_of [] = 0
lowest_of (s ∷ sequences) = lowest_from s (s ∷ sequences)

-- `populate` of `writeSnapshotAt`, over the shards in their order: the lowest sequence and the file.
-- `finalize` is the error of the `WriteAt` that puts the header with the sequences over the first.
unfoldable pub write_snapshot_at :
    (Bytes → ℕ) → (ℕ → Wrote) → Option ℕ → List Visit → Result (ℕ × Bytes)
unfolding write_visits new_snapshot_header snapshot_header lowest_of
write_snapshot_at checksum write finalize visits = do
  file ← write_full write [] (new_snapshot_header (length visits))
  file' ← write_visits checksum write file visits
  let sequences = map (λ v. v.sequence) visits
  let header = snapshot_header sequences
  elim finalize [
    | some n ↦ err (io_failed (os n))
    | none ↦ ok (lowest_of sequences, header ++ drop (length header) file')
  ]

-- The file that a run without errors leaves.
unfoldable pub encode_entries : (Bytes → ℕ) → List Entry → Bytes
encode_entries checksum [] = []
encode_entries checksum (e ∷ entries) =
    encode_snapshot_entry checksum e ++ encode_entries checksum entries

abbrev pub entries_of : List Visit → List Entry
entries_of [] = []
entries_of (v ∷ visits) = v.entries ++ entries_of visits

unfoldable pub snapshot_bytes : (Bytes → ℕ) → List Visit → Bytes
unfolding encode_entries snapshot_header
snapshot_bytes checksum visits =
    snapshot_header (map (λ v. v.sequence) visits) ++ encode_entries checksum (entries_of visits)
