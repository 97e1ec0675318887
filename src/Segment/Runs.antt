-- ===== src/Segment/Runs.antt =====
-- Runs of the recovery with the checksum that the program uses, and the theorems at these inputs.
use go.Prelude.{ltb, if◌then◌else◌, ℕ, suc, ◌+◌, ◌^◌, ◌≤◌, ◌<◌, ◌≡◌, refl, arith, ◌⊎◌}
use go.Prelude.{List, [], ◌∷◌, ◌++◌, Option, none, some, length, take, false}
use go.Prelude.Int.{pos, of_uint64, to_uint64}
use go.Wire.{Bytes, put_le, le, read_full, bytes_eq}
use go.Errors
use go.Errors.{ok, err, recover_at, crc_mismatch, sequence_gap}
use go.Record.{
  WriteRequest, request_set, request_delete, op_of, record_body, record_size_for, encode_record,
}
use go.Shard.{
  key_eq, entry_size, find, unlink, mark_recent_locked, overwrite_entry, insert_entry,
  set_entry_locked, remove_entry_locked,
}
use go.Shard.Operations.{apply_recovered_set, apply_delete}
use go.Store.{
  Store, new_store_state, hash_key, shard_index, with_shard, set_recovered, delete_applied,
  set_ttl_request, validate_entry_size, validate_record_size, capacity_for, submit,
}
use go.Segment.{
  SegmentFaults, SnapshotState, no_faults, segment_header, fields_of, in_recovery, is_newer,
  applies, apply_operation, replay_payload, cut_off, recover_turn, recover_loop, read_header,
  recover_segment, Recovered,
}
use go.Segment.Crc.{crc_bits, crc_bytes, crc32c, crc32c-IsChecksum}
use go.Segment.Replay.{IsWritable}
use go.Segment.Log.{encode_log}
use go.Segment.TornTail.{last_segment, outcome, recover_segment-prefix}
use go.Segment.Requests.{set_ttl, request_of, Fits, request_of-IsWritable}
use go.Segment.Bounds.{Sound, recover_segment-Sound}

abbrev set_a : WriteRequest
set_a = record { kind = request_set; key = 97 ∷ []; value = 1 ∷ 2 ∷ []; deadline = pos 0 }

abbrev delete_a : WriteRequest
delete_a = record { kind = request_delete; key = 97 ∷ []; value = []; deadline = pos 0 }

abbrev requests : List WriteRequest
requests = set_a ∷ delete_a ∷ []

abbrev unloaded : SnapshotState
unloaded = record { loaded = false; replay_sequences = none; lowest = 0; highest = 0 }

abbrev empty : Store
empty = new_store_state 2 1000

program : Unit {0}
unfolding put_le le read_full bytes_eq op_of record_body record_size_for encode_record of_uint64
    to_uint64 key_eq entry_size find unlink mark_recent_locked overwrite_entry insert_entry
    set_entry_locked remove_entry_locked apply_recovered_set apply_delete new_store_state hash_key
    shard_index with_shard set_recovered delete_applied segment_header fields_of in_recovery
    is_newer applies apply_operation replay_payload cut_off recover_turn recover_loop read_header
    recover_segment encode_log crc32c crc_bytes crc_bits
program = tt

abbrev summary : Option (Errors.Result Recovered) → List ℕ
summary none = []
summary (some (err e)) = 999 ∷ []
summary (some (ok r)) = r.offset ∷ r.sequence ∷ r.store.totals.entries ∷ r.store.log_sequence ∷ []

-- A set and a delete, 30 and 28 bytes: all of them, and cut off inside the second record.
whole_run :
    summary (
      recover_segment crc32c no_faults
        (last_segment crc32c 0 9 empty unloaded)
        (segment_header ++ encode_log crc32c 1 requests)
        0
        empty)
    ≡ 66 ∷ 2 ∷ 0 ∷ 2 ∷ []
unfolding program last_segment
whole_run = refl

cut_run :
    summary (
      recover_segment crc32c no_faults
        (last_segment crc32c 0 9 empty unloaded)
        (segment_header ++ take 40 (encode_log crc32c 1 requests))
        0
        empty)
    ≡ 38 ∷ 1 ∷ 1 ∷ 0 ∷ []
unfolding program last_segment
cut_run = refl

set_a_short : record_size_for set_a < 2 ^ 32
unfolding record_size_for
set_a_short = omega arith

delete_a_short : record_size_for delete_a < 2 ^ 32
unfolding record_size_for
delete_a_short = omega arith

recover_segment-prefix_example :
    (k : ℕ) × (k ≤ 2)
    × ((k ≡ 2) ⊎ (40 < length (encode_log crc32c 1 (take (suc k) requests))))
    × (recover_segment crc32c no_faults
          (last_segment crc32c 0 9 empty unloaded)
          (segment_header ++ take 40 (encode_log crc32c 1 requests))
          0
          empty
        ≡ some (
            ok (
              outcome crc32c 0 9 empty unloaded
                (take k requests)
                (8 + length (take 40 (encode_log crc32c 1 requests))))))
recover_segment-prefix_example =
    recover_segment-prefix crc32c 0 9 empty unloaded requests 40 crc32c-IsChecksum
      (
        record {
          short_key = omega arith;
          short_record = set_a_short;
          dated = omega arith;
          operation = tt;
        },
        (
          record {
            short_key = omega arith;
            short_record = delete_a_short;
            dated = omega arith;
            operation = (refl, refl);
          },
          tt,
        ),
      )
      (omega arith) (omega arith)

-- Two whole records and three bytes more, which are cut off.
abbrev trailing : Bytes
trailing = segment_header ++ (encode_log crc32c 1 requests ++ 1 ∷ 2 ∷ 3 ∷ [])

trailing_run :
    summary
      (recover_segment crc32c no_faults (last_segment crc32c 0 9 empty unloaded) trailing 0 empty)
    ≡ 66 ∷ 2 ∷ 0 ∷ 2 ∷ []
unfolding program last_segment
trailing_run = refl

-- A read that fails at the second record.
abbrev bad_sector : SegmentFaults
bad_sector = record {
  open_file = none;
  stat = none;
  context = λ _. none;
  read = λ at. if ltb at 38 then none else some 5;
  truncate = none;
  seek = none;
}

bad_sector_run :
    recover_segment crc32c bad_sector (last_segment crc32c 0 9 empty unloaded) trailing 0 empty
    ≡ some (err (recover_at 38 (go.Errors.os 5)))
unfolding program last_segment
bad_sector_run = refl

recover_segment-Sound_example :
    Sound
      (length trailing)
      0
      (recover_segment crc32c no_faults (last_segment crc32c 0 9 empty unloaded) trailing 0 empty)
recover_segment-Sound_example =
    recover_segment-Sound crc32c no_faults (last_segment crc32c 0 9 empty unloaded) trailing 0 empty

abbrev set_later : WriteRequest
set_later = record { kind = request_set; key = 97 ∷ []; value = 1 ∷ 2 ∷ []; deadline = pos 70 }

accepts_set_later :
    request_of empty (set_ttl (97 ∷ []) (1 ∷ 2 ∷ []) (pos 50) (pos 70)) ≡ ok set_later
unfolding program request_of set_ttl_request validate_entry_size validate_record_size capacity_for
    submit
accepts_set_later = refl

request_of-IsWritable_example : IsWritable set_later × Fits empty set_later request_set
request_of-IsWritable_example =
    request_of-IsWritable empty (set_ttl (97 ∷ []) (1 ∷ 2 ∷ []) (pos 50) (pos 70)) set_later
      (omega arith, omega arith) accepts_set_later
