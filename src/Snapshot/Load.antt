-- ===== src/Snapshot/Load.antt =====
-- `loadSnapshot` of cache/snapshot.go on the bytes of the file that it chose, and `newSnapshotState` of
-- cache/recovery.go.
use go.Prelude.{
  ℕ, zero, suc, ◌+◌, ◌-◌, ◌*◌, ◌%◌, ◌^◌, bit_and, Bool, true, false, not, ◌||◌, ◌&&◌, ltb, ◌==◌,
  if◌then◌else◌,
}
use go.Prelude.{List, [], ◌∷◌, Option, none, some, length, take, drop, slice, get_elem?}
use go.Prelude.Int.{ℤ, of_uint64}
use go.Wire.{Bytes, le, read_full, bytes_eq}
use go.Errors.{
  Result, ok, err, ◌>>=◌, ◌>>◌, recover_at, unexpected_eof, unknown_magic, unsupported_version,
  unsupported_flags, invalid_shard_count, crc_mismatch, key_length_exceeds, entry_sequence_exceeds,
}
use go.Store.{Store, hash_key, shard_index, set_recovered, index_panic}
use go.Segment.{SnapshotState, format_version, check, opens, require, or_eof, in_recovery}
use go.Snapshot.{snapshot_magic, snapshot_fixed_header_size, lowest_from}

-- `none`: the call succeeds. The context is asked at each offset, and a read may fail at its own.
pub record SnapshotFaults : Type 0 where
  pub open_file : Option ℕ
  pub stat : Option ℕ
  pub context : ℕ → Option ℕ
  pub read : ℕ → Option ℕ

-- `file.ReadAt(buffer, at)` with a buffer of `n` bytes; an error is reported at `offset`.
unfoldable pub read_at : SnapshotFaults → Bytes → ℕ → ℕ → ℕ → Result Bytes
unfolding read_full
read_at faults contents offset n at = do
  check (faults.read at) offset
  (bytes, rest) ← or_eof (read_full n (drop at contents)) offset
  ok bytes

unfoldable pub highest_from : ℕ → List ℕ → ℕ
highest_from highest [] = highest
highest_from highest (s ∷ sequences) = highest_from (if ltb highest s then s else highest) sequences

unfoldable pub new_snapshot_state : ℕ → List ℕ → Bool → SnapshotState
unfolding lowest_from highest_from
new_snapshot_state first sequences per_shard_replay = record {
  loaded = true;
  replay_sequences = if per_shard_replay then some (first ∷ sequences) else none;
  lowest = lowest_from first sequences;
  highest = highest_from first sequences;
}

-- `count` numbers of eight bytes.
unfoldable pub sequences_of : ℕ → Bytes → List ℕ
sequences_of zero bytes = []
sequences_of (suc count) bytes = le (take 8 bytes) ∷ sequences_of count (drop 8 bytes)

-- A parsed entry.
pub record EntryFields : Type 0 where
  pub key_length : ℕ
  pub deadline : ℤ
  pub sequence : ℕ

unfoldable pub entry_fields : Bytes → EntryFields
entry_fields payload = record {
  key_length = le (slice 4 6 payload);
  deadline = of_uint64 (le (slice 6 14 payload));
  sequence = le (slice 14 22 payload);
}

-- From the key length on: what the loop does with a payload whose checksum is right. `sequences` has
-- `shard_count` numbers.
unfoldable pub load_payload : Store → List ℕ → ℕ → Bytes → Result Store
load_payload store sequences offset payload =
    let f = entry_fields payload in
    let key = slice 22 (22 + f.key_length) payload in
    let value = drop (22 + f.key_length) payload in
    let snapshot_shard = bit_and (hash_key key) (length sequences - 1) in
    if ltb (length payload - 22) f.key_length
    then err (recover_at offset (key_length_exceeds f.key_length))
    else (elim (get_elem? sequences snapshot_shard) [
      | none ↦ ok (index_panic store)
      | some limit ↦
          if ltb limit f.sequence
          then err (recover_at offset (entry_sequence_exceeds f.sequence limit))
          else ok (
              if in_recovery store.recovery_shard (shard_index store key)
              then set_recovered store key value f.deadline f.sequence
              else store)
    ])

-- The body of the loop, at an offset within the file: the store and the next offset.
unfoldable pub load_entry :
    (Bytes → ℕ) → SnapshotFaults → Bytes → List ℕ → Store → ℕ → Result (Store × ℕ)
load_entry checksum faults contents sequences store offset = do
  check (faults.context offset) offset
  require (not (ltb (length contents - offset) 4)) (recover_at offset unexpected_eof)
  length_bytes ← read_at faults contents offset 4 offset
  let size = le length_bytes
  let end = offset + 4 + size
  require (not (ltb size 22 || ltb (length contents) end)) (recover_at offset unexpected_eof)
  payload ← read_at faults contents offset size (offset + 4)
  require (checksum (drop 4 payload) == le (slice 0 4 payload)) (recover_at offset crc_mismatch)
  store' ← load_payload store sequences offset payload
  ok (store', end)

-- The loop. A round moves on by an entry; `none` says that the fuel was not enough.
unfoldable pub load_entries :
    (Bytes → ℕ) → SnapshotFaults → Bytes → List ℕ → ℕ → Store → ℕ → Option (Result Store)
load_entries checksum faults contents sequences zero store offset = none
load_entries checksum faults contents sequences (suc fuel) store offset =
    elim (ltb offset (length contents)) [
      | false ↦ some (ok store)
      | true ↦ elim (load_entry checksum faults contents sequences store offset) [
        | err e ↦ some (err e)
        | ok (store', end) ↦ load_entries checksum faults contents sequences fuel store' end
      ]
    ]

-- The checks of the header: the sequences, and where the entries start.
unfoldable pub read_snapshot_header : SnapshotFaults → Bytes → Result (List ℕ × ℕ)
read_snapshot_header faults contents = do
  require (not (ltb (length contents) snapshot_fixed_header_size)) (recover_at 0 unexpected_eof)
  fixed ← read_at faults contents 0 snapshot_fixed_header_size 0
  require (bytes_eq (take 4 fixed) snapshot_magic) (recover_at 0 unknown_magic)
  require (le (slice 4 6 fixed) == format_version)
      (recover_at 4 (unsupported_version (le (slice 4 6 fixed))))
  require (le (slice 6 8 fixed) == 0) (recover_at 6 unsupported_flags)
  let shard_count = le (slice 8 12 fixed)
  require (not (shard_count == 0) && (bit_and shard_count (shard_count - 1) == 0))
      (recover_at 8 (invalid_shard_count shard_count))
  let header_size = snapshot_fixed_header_size + shard_count * 8
  require (not (ltb (length contents) header_size))
      (recover_at snapshot_fixed_header_size unexpected_eof)
  sequence_bytes ←
      read_at faults contents snapshot_fixed_header_size (shard_count * 8)
        snapshot_fixed_header_size
  ok (sequences_of shard_count sequence_bytes, header_size)

-- `mismatchedShards` compares with the number of the store's shards as a `uint32`.
abbrev finish_load :
    Store → List ℕ → Option (Result Store) → Option (Result (Store × SnapshotState))
finish_load before [] r = none
finish_load before (s ∷ sequences) none = none
finish_load before (s ∷ sequences) (some (err e)) = some (err e)
finish_load before (s ∷ sequences) (some (ok store)) = some (
    ok (
      store,
      new_snapshot_state s sequences (suc (length sequences) == length before.shards % 2 ^ 32),
    ))

-- `loadSnapshot` from the opening of the file on. There is a sequence at least, since the number of
-- shards is not 0.
unfoldable pub load_snapshot :
    (Bytes → ℕ) → SnapshotFaults → Bytes → Store → Option (Result (Store × SnapshotState))
load_snapshot checksum faults contents store =
    elim (do opens faults.open_file; check faults.stat 0; read_snapshot_header faults contents) [
      | err e ↦ some (err e)
      | ok (sequences, header_size) ↦ finish_load store sequences (
          load_entries checksum faults contents sequences (suc (length contents)) store header_size)
    ]
