-- ===== src/Durability/Runs.antt =====
-- A batch of two in two segments, of which the second write fails, and the recovery behind it.
use go.Prelude.{zero, suc, ◌+◌, ◌^◌, ◌<◌, ◌≡◌, refl, sym, arith}
use go.Prelude.{List, [], ◌∷◌, Option, none, some, length, map, append-nil}
use go.Prelude.Int.{pos, to_uint64, of_uint64}
use go.Wire.{put_le, le, read_full, bytes_eq}
use go.Errors.{ok}
use go.Names.{
  decimal, segment_name, has_suffix, trim_suffix, parse_digits, parse_sequence_filename,
  parse_segment_filename, parse_snapshot_filename,
}
use go.Record.{
  WriteRequest, request_set, request_delete, op_of, record_body, record_size_for, encode_record,
  append_record,
}
use go.Shard.{
  key_eq, entry_size, find, unlink, mark_recent_locked, overwrite_entry, insert_entry,
  set_entry_locked, remove_entry_locked, deadline_passed,
}
use go.Shard.Operations.{apply_set, apply_delete, evict_loop, evict_to_capacity_locked}
use go.Store.{
  new_store_state, hash_key, shard_index, with_shard, set_applied, delete_applied, latch,
}
use go.Segment.{segment_header}
use go.Segment.Crc.{crc_bits, crc_bytes, crc32c, crc32c-IsChecksum}
use go.Segment.Log.{encode_log}
use go.Directory.{
  File, is_listed, is_seen, insert_file, sort_files, collect, list_files, list_segments,
  list_snapshots,
}
use go.Recovery.{RecoveredLog, recover_log}
use go.Recovery.Chain.{no_recovery_faults}
use go.Writer.{
  LogState, Environment, Writer, roll_segment, chunk_length, encode_batch, apply_request,
  apply_batch, respond_all, fail_rest, write_cause, failed_write, write_chunk, make_room,
  write_loop, write_batch,
}
use go.Durability.Segments.{as_file, segments_of}
use go.Durability.Left.{Holds}
use go.Durability.Reopened.{Survives, recover_log-write_batch}

abbrev set_a : WriteRequest
set_a = record { kind = request_set; key = 97 ∷ []; value = 1 ∷ []; deadline = pos 0 }

abbrev delete_a : WriteRequest
delete_a = record { kind = request_delete; key = 97 ∷ []; value = []; deadline = pos 0 }

abbrev full_disk : Environment
full_disk = record {
  checksum = crc32c;
  write = λ seq. elim seq [ zero ↦ none | suc n ↦ some (record { written = 5; error = some 28 }) ];
  roll = λ _. none;
  now = λ _. pos 0;
}

abbrev new_log : LogState
new_log = record {
  closed_segments = [];
  first_sequence = 1;
  contents = segment_header;
  orphans = [];
  offset = 8;
  seq = 0;
  bytes_since_snapshot = 0;
}

abbrev batch : Option Writer
batch = write_batch full_disk 20 (new_store_state 1 1000) new_log (set_a ∷ delete_a ∷ [])

abbrev ended : Option Writer → Writer
ended none = record { store = new_store_state 1 1000; log = new_log; answers = [] }
ended (some w) = w

abbrev directory : List File
directory = map (λ s. (as_file s).file) (segments_of (ended batch).log)

module _ (r : WriteRequest) (short : length r.key + length r.value < 100) where
  short_record : record_size_for r < 2 ^ 32
  unfolding record_size_for
  short_record = omega (arith, short)

program : Unit {0}
unfolding put_le le read_full bytes_eq op_of record_body record_size_for encode_record append_record
    of_uint64 to_uint64 key_eq entry_size find unlink mark_recent_locked overwrite_entry
    insert_entry set_entry_locked remove_entry_locked deadline_passed apply_set apply_delete
    evict_loop evict_to_capacity_locked new_store_state hash_key shard_index with_shard set_applied
    delete_applied latch segment_header crc_bits crc_bytes crc32c encode_log roll_segment
    chunk_length encode_batch apply_request apply_batch respond_all fail_rest write_cause
    failed_write write_chunk make_room write_loop write_batch
program = tt

listing : Unit {0}
unfolding program decimal segment_name has_suffix trim_suffix parse_digits parse_sequence_filename
    parse_segment_filename parse_snapshot_filename is_listed is_seen insert_file sort_files collect
    list_files list_segments list_snapshots bytes_eq
listing = tt

batch_ends : batch ≡ some (ended batch)
unfolding program
batch_ends = refl

two_segments : map (λ s. s.0) (segments_of (ended batch).log) ≡ 1 ∷ 2 ∷ []
unfolding program
two_segments = refl

no_snapshot : list_snapshots none directory ≡ ok []
unfolding listing
no_snapshot = refl

listed : list_segments none directory ≡ ok (map as_file (segments_of (ended batch).log))
unfolding listing
listed = refl

new_log-Holds : Holds crc32c new_log [] []
unfolding encode_log
new_log-Holds = record {
  closed = tt;
  first = refl;
  contents = sym (append-nil segment_header);
  numbered = refl;
  complete = refl;
}

recover_log-write_batch_example :
    (recovered : RecoveredLog) × (recover_log crc32c no_recovery_faults directory
        (new_store_state 1 1000)
      ≡ some (ok recovered))
    × Survives full_disk []
        (set_a ∷ delete_a ∷ [])
        (record { store = new_store_state 1 1000; log = new_log; answers = [] })
        (ended batch)
        recovered
unfolding new_store_state
recover_log-write_batch_example =
    recover_log-write_batch full_disk 20 (new_store_state 1 1000) new_log (set_a ∷ delete_a ∷ []) []
      [] (ended batch) directory 1 1000 crc32c-IsChecksum refl new_log-Holds
      (
        record {
          short_key = omega arith;
          short_record = short_record set_a (omega arith);
          dated = omega arith;
          operation = tt;
        },
        (
          record {
            short_key = omega arith;
            short_record = short_record delete_a (omega arith);
            dated = omega arith;
            operation = (refl, refl);
          },
          tt,
        ),
      )
      (omega arith) batch_ends no_snapshot listed (omega arith)
