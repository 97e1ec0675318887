-- ===== src/Segment.antt =====
-- `recoverSegment` of cache/recovery.go on the bytes of a segment file. `checksum` stands for
-- `crc32.Checksum` with the Castagnoli table. What the file system and the context may refuse is an
-- argument, `SegmentFaults`.
pub mod Replay
pub mod Log
pub mod TornTail
pub mod Bounds
pub mod Requests
pub mod History
pub mod Whole
pub mod Gap
pub mod Crc
mod Runs
use go.Prelude.{ℕ, zero, suc, ◌+◌, ◌-◌, ◌*◌, ◌%◌, ◌^◌, bit_and, Bool, true, false, ◌&&◌, ◌||◌, not}
use go.Prelude.{
  List, [], ◌∷◌, ◌++◌, Option, none, some, length, take, drop, slice, get_elem?, ltb, ◌==◌,
  if◌then◌else◌,
}
use go.Prelude.Int.{ℤ, of_uint64, is_zero_ℤ}
use go.Wire.{Bytes, put_le, le, read_full, bytes_eq}
use go.Errors.{
  Cause, unexpected_eof, unknown_magic, unsupported_version, unsupported_flags, crc_mismatch,
  key_length_exceeds, sequence_gap, segment_starts_at, delete_with_deadline, delete_with_value,
  unknown_operation, os, Error, Result, ok, err, ◌>>=◌, ◌>>◌, recover_at, io_failed,
}
use go.Record.{op_set, op_delete, max_sequence}
use go.Options.{segment_header_size}
use go.Shard.{Key}
use go.Store.{Store, shard_index, set_recovered, delete_applied}

-- `snapshotState`; `replay_sequences` is nil where a snapshot has another number of shards.
pub record SnapshotState : Type 0 where
  pub loaded : Bool
  pub replay_sequences : Option (List ℕ)
  pub lowest : ℕ
  pub highest : ℕ

-- `none`: the call succeeds. The context is asked at each offset, a read by `io.ReadFull` at the
-- position in the file where it starts.
pub record SegmentFaults : Type 0 where
  pub open_file : Option ℕ
  pub stat : Option ℕ
  pub context : ℕ → Option ℕ
  pub read : ℕ → Option ℕ
  pub truncate : Option ℕ
  pub seek : Option ℕ

abbrev pub no_faults : SegmentFaults
no_faults = record {
  open_file = none;
  stat = none;
  context = λ _. none;
  read = λ _. none;
  truncate = none;
  seek = none;
}

abbrev pub check : Option ℕ → ℕ → Result (Unit {0})
check none offset = ok tt
check (some n) offset = err (recover_at offset (os n))

abbrev pub opens : Option ℕ → Result (Unit {0})
opens none = ok tt
opens (some n) = err (io_failed (os n))

abbrev pub require : Bool → Error → Result (Unit {0})
require true e = ok tt
require false e = err e

-- The variables of the loop; `rest` is what the buffered reader still holds.
pub record Cursor : Type 0 where
  pub rest : Bytes
  pub offset : ℕ
  pub sequence : ℕ
  pub first_record : Bool
  pub store : Store

-- What one turn of the loop does: go on, leave the loop at a record beyond `through`, or leave it at
-- a torn tail, which is truncated.
pub data Turn : Type 0 where
  next : Cursor → Turn
  beyond : Turn
  torn : Turn

-- A parsed payload.
pub record Fields : Type 0 where
  pub op : ℕ
  pub key_length : ℕ
  pub deadline : ℤ
  pub record_sequence : ℕ

unfoldable pub fields_of : Bytes → Fields
fields_of payload = record {
  op = le (slice 4 5 payload);
  key_length = le (slice 5 7 payload);
  deadline = of_uint64 (le (slice 7 15 payload));
  record_sequence = le (slice 15 23 payload);
}

-- `store.recoveryShard == nil || int(shardIndex) == *store.recoveryShard`
unfoldable pub in_recovery : Option ℕ → ℕ → Bool
in_recovery none index = true
in_recovery (some i) index = index == i

-- A snapshot with per-shard sequences has one for each shard of the store.
unfoldable pub is_newer : SnapshotState → ℕ → ℕ → Bool
is_newer snapshot index sequence = elim snapshot.replay_sequences [
  | some sequences ↦ elim (get_elem? sequences index) [ none ↦ false | some s ↦ ltb s sequence ]
  | none ↦ ltb snapshot.lowest sequence
]

-- `apply` of `recoverSegment`
unfoldable pub applies : Store → SnapshotState → Key → ℕ → Bool
applies store snapshot key sequence =
    let index = shard_index store key in
    let ours = in_recovery store.recovery_shard index in
    if snapshot.loaded then ours && is_newer snapshot index sequence else ours

-- The `switch op`.
unfoldable pub apply_operation : Store → ℕ → Bool → Fields → Key → Bytes → Result Store
apply_operation store offset apply f key value =
    if f.op == op_set
    then ok (if apply then set_recovered store key value f.deadline f.record_sequence else store)
    else if f.op == op_delete
    then (if not (is_zero_ℤ f.deadline)
        then err (recover_at offset delete_with_deadline)
        else if not (length value == 0)
        then err (recover_at offset delete_with_value)
        else ok (if apply then delete_applied store key f.record_sequence else store))
    else err (recover_at offset (unknown_operation f.op))

-- What `recoverSegment` is called with, next to the store.
pub record SegmentCall : Type 0 where
  pub first_sequence : ℕ
  pub final : Bool
  pub snapshot : SnapshotState
  pub through : ℕ

-- From the key length on: what the loop does with a payload whose checksum is right.
unfoldable pub replay_payload : SegmentCall → Cursor → ℕ → Bytes → Bytes → Result Turn
replay_payload call c end payload rest' =
    let f = fields_of payload in
    if ltb call.through f.record_sequence then ok beyond else do
      require (not (ltb (length payload - 23) f.key_length))
          (recover_at c.offset (key_length_exceeds f.key_length))
      require (not (c.sequence == max_sequence) && (f.record_sequence == c.sequence + 1))
          (recover_at c.offset (sequence_gap f.record_sequence c.sequence))
      require (not c.first_record || (f.record_sequence == call.first_sequence))
          (recover_at c.offset (segment_starts_at call.first_sequence f.record_sequence))
      let key = slice 23 (23 + f.key_length) payload
      let value = drop (23 + f.key_length) payload
      let apply = applies c.store call.snapshot key f.record_sequence
      store ← apply_operation c.store c.offset apply f key value
      ok (
          next (record {
            rest = rest';
            offset = end;
            sequence = f.record_sequence;
            first_record = false;
            store = store;
          }))

-- Where a record is cut off: a torn tail of the last segment, an error in any other.
unfoldable pub cut_off : Bool → ℕ → Result Turn
cut_off final offset = if final then ok torn else err (recover_at offset unexpected_eof)

abbrev pub or_eof : Option (Bytes × Bytes) → ℕ → Result (Bytes × Bytes)
or_eof none offset = err (recover_at offset unexpected_eof)
or_eof (some p) offset = ok p

-- The body of the loop; `size` is `info.Size()`.
unfoldable pub recover_turn : (Bytes → ℕ) → SegmentFaults → SegmentCall → ℕ → Cursor → Result Turn
recover_turn checksum faults call size c = do
  check (faults.context c.offset) c.offset
  if ltb (size - c.offset) 4 then cut_off call.final c.offset else do
    check (faults.read c.offset) c.offset
    (length_bytes, rest₁) ← or_eof (read_full 4 c.rest) c.offset
    let length = le length_bytes
    let end = c.offset + 4 + length
    if ltb length 23 || ltb size end then cut_off call.final c.offset else do
      check (faults.read (c.offset + 4)) c.offset
      (payload, rest₂) ← or_eof (read_full length rest₁) c.offset
      if not (checksum (drop 4 payload) == le (slice 0 4 payload))
          then (if call.final && (end == size)
              then ok torn
              else err (recover_at c.offset crc_mismatch))
          else replay_payload call c end payload rest₂

-- The end of `recoverSegment`: what it returns, and the size that it truncated the file to, if it did.
pub record Recovered : Type 0 where
  pub offset : ℕ
  pub sequence : ℕ
  pub store : Store
  pub truncated : Option ℕ

-- The loop. Each turn that goes on takes a record off `rest`, so as many turns as there are bytes are
-- enough; `none` says that they were not.
unfoldable pub recover_loop :
    (Bytes → ℕ) → SegmentFaults → SegmentCall → ℕ → ℕ → Cursor → Option (Result (Cursor × Option ℕ))
recover_loop checksum faults call size zero c = none
recover_loop checksum faults call size (suc fuel) c = elim (ltb c.offset size) [
  | false ↦ some (ok (c, none))
  | true ↦ elim (recover_turn checksum faults call size c) [
    | err e ↦ some (err e)
    | ok beyond ↦ some (ok (c, none))
    | ok torn ↦ some (do check faults.truncate c.offset; ok (c, some c.offset))
    | ok (next c') ↦ recover_loop checksum faults call size fuel c'
  ]
]

-- 'C' 'W' 'A' 'L'
abbrev pub segment_magic : Bytes
segment_magic = 67 ∷ 87 ∷ 65 ∷ 76 ∷ []

abbrev pub format_version : ℕ
format_version = 1

-- The header that `createSegment` of cache/wal.go writes: the flags stay zero.
unfoldable pub segment_header : Bytes
segment_header = segment_magic ++ (put_le 2 format_version ++ (0 ∷ 0 ∷ []))

-- The checks of the header; the result is what the reader holds behind it.
unfoldable pub read_header : SegmentFaults → Bytes → Result Bytes
read_header faults contents = do
  require (not (ltb (length contents) segment_header_size)) (recover_at 0 unexpected_eof)
  check (faults.read 0) 0
  (header, rest) ← or_eof (read_full segment_header_size contents) 0
  require (bytes_eq (take 4 header) segment_magic) (recover_at 0 unknown_magic)
  require (le (slice 4 6 header) == format_version)
      (recover_at 4 (unsupported_version (le (slice 4 6 header))))
  require (le (slice 6 8 header) == 0) (recover_at 6 unsupported_flags)
  ok rest

abbrev finish : SegmentFaults → Option (Result (Cursor × Option ℕ)) → Option (Result Recovered)
finish faults none = none
finish faults (some (err e)) = some (err e)
finish faults (some (ok (c, cut))) = some (do
  check faults.seek c.offset
  ok (record { offset = c.offset; sequence = c.sequence; store = c.store; truncated = cut }))

unfoldable pub recover_segment :
    (Bytes → ℕ) → SegmentFaults → SegmentCall → Bytes → ℕ → Store → Option (Result Recovered)
recover_segment checksum faults call contents previous store =
    let opened = (do opens faults.open_file; check faults.stat 0; read_header faults contents) in
    elim opened [
      | err e ↦ some (err e)
      | ok rest ↦ finish faults (
          recover_loop checksum faults call (length contents) (suc (length contents)) (record {
            rest = rest;
            offset = segment_header_size;
            sequence = previous;
            first_record = true;
            store = store;
          }))
    ]
