-- ===== src/Recovery/Runs.antt =====
-- A log of three segments, the last one torn, with and without a snapshot.
mod Image
mod Hole
use go.Prelude.{
  true, ℕ, ◌+◌, ◌^◌, ◌≤◌, ◌<◌, ◌≡◌, refl, ap, arith, subst, bit_and, length, take, get_elem?,
}
use go.Prelude.{List, [], ◌∷◌, ◌++◌, Option, none, some, false}
use go.Prelude.Bits.{bit_and-le}
use go.Prelude.Int.{pos, to_uint64, of_uint64}
use go.Wire.{Bytes, put_le, le, read_full, bytes_eq}
use go.Errors.{Result, ok, err, gap_after_wal}
use go.Names.{
  has_suffix, segment_suffix, snapshot_suffix, trim_suffix, parse_digits, parse_sequence_filename,
  parse_segment_filename, parse_snapshot_filename,
}
use go.Record.{
  WriteRequest, request_set, request_delete, op_of, record_body, record_size_for, encode_record,
}
use go.Shard.{
  Key, find, key_eq, entry_size, unlink, mark_recent_locked, overwrite_entry, insert_entry,
  set_entry_locked, remove_entry_locked,
}
use go.Shard.Operations.{apply_recovered_set, apply_delete}
use go.Store.{new_store_state, hash_key, shard_index, with_shard, set_recovered, delete_applied}
use go.Segment.{
  SnapshotState, segment_header, fields_of, in_recovery, is_newer, applies, apply_operation,
  replay_payload, cut_off, recover_turn, recover_loop, read_header, recover_segment,
}
use go.Segment.Crc.{crc_bits, crc_bytes, crc32c, crc32c-IsChecksum}
use go.Segment.Replay.{IsWritable}
use go.Segment.Log.{encode_log}
use go.Segment.History.{state_of, final_state}
use go.Snapshot.{
  wrote, Visit, snapshot_header, new_snapshot_header, put_sequences, entry_length, entry_body,
  encode_snapshot_entry, write_full_loop, write_full, write_entries, write_visits, lowest_from,
  lowest_of, write_snapshot_at, snapshot_bytes, encode_entries,
}
use go.Snapshot.Load.{
  read_at, highest_from, new_snapshot_state, sequences_of, entry_fields, load_payload, load_entry,
  load_entries, read_snapshot_header, load_snapshot,
}
use go.Directory.{
  File, SequenceFile, is_listed, is_seen, insert_file, sort_files, collect, list_files,
  list_segments, list_snapshots,
}
use go.Recovery.{
  RecoveredLog, load_latest, first_required, start_from, recover_one, recover_from, recover_started,
  start_log, recover_segments, recover_log,
}
use go.Recovery.Chain.{no_recovery_faults}
use go.Recovery.Durable.{Reopens, recover_log-Reopens}
use go.Recovery.Resumed.{recover_log-resumed}
use go.Recovery.Compaction.{recover_durable_image}
use go.Recovery.Compacted.{recover_durable_image-fresh}
use go.Recovery.Extended.{recover_durable_image-extended}
use go.Store.{Store}
use go.Store.Peek.{peek}

abbrev set_a : WriteRequest
set_a = record { kind = request_set; key = 97 ∷ []; value = 1 ∷ []; deadline = pos 0 }

abbrev set_b : WriteRequest
set_b = record { kind = request_set; key = 98 ∷ []; value = []; deadline = pos 9 }

abbrev delete_a : WriteRequest
delete_a = record { kind = request_delete; key = 97 ∷ []; value = []; deadline = pos 0 }

abbrev last : List WriteRequest
last = delete_a ∷ set_a ∷ []

abbrev numbered : ℕ → Bytes → Bytes → SequenceFile
numbered n suffix contents = record {
  file = record {
    name = 48 ∷ 48 ∷ 48 ∷ 48 ∷ 48 ∷ 48 ∷ 48 ∷ (48 + n) ∷ suffix;
    is_dir = false;
    is_special = false;
    contents = contents;
  };
  sequence = n;
}

-- The delete and two bytes of what follows.
abbrev segment_a : SequenceFile
segment_a = numbered 1 segment_suffix (segment_header ++ encode_log crc32c 1 (set_a ∷ []))

abbrev segment_b : SequenceFile
segment_b = numbered 2 segment_suffix (segment_header ++ encode_log crc32c 2 (set_b ∷ []))

abbrev segment_c : SequenceFile
segment_c = numbered 3 segment_suffix (segment_header ++ take 30 (encode_log crc32c 3 last))

abbrev seen : Visit
seen = record {
  sequence = 2;
  entries =
      (record { key = 98 ∷ []; value = []; deadline = pos 9; sequence = 2 })
      ∷ (record { key = 97 ∷ []; value = 1 ∷ []; deadline = pos 0; sequence = 1 })
      ∷ [];
}

abbrev snapshot : SequenceFile
snapshot = numbered 2 snapshot_suffix (snapshot_bytes crc32c (seen ∷ []))

abbrev fresh : List File
fresh = segment_c.file ∷ segment_a.file ∷ segment_b.file ∷ []

abbrev pruned : List File
pruned = segment_c.file ∷ snapshot.file ∷ segment_b.file ∷ []

program : Unit {0}
unfolding put_le le read_full bytes_eq op_of record_body record_size_for encode_record of_uint64
    to_uint64 key_eq entry_size find unlink mark_recent_locked overwrite_entry insert_entry
    set_entry_locked remove_entry_locked apply_recovered_set apply_delete new_store_state hash_key
    shard_index with_shard set_recovered delete_applied segment_header fields_of in_recovery
    is_newer applies apply_operation replay_payload cut_off recover_turn recover_loop read_header
    recover_segment encode_log crc32c crc_bytes crc_bits has_suffix trim_suffix parse_digits
    parse_sequence_filename parse_segment_filename parse_snapshot_filename is_listed is_seen
    insert_file sort_files collect list_files list_segments list_snapshots snapshot_header
    new_snapshot_header put_sequences entry_length entry_body encode_snapshot_entry write_full_loop
    write_full write_entries write_visits lowest_from lowest_of write_snapshot_at encode_entries
    snapshot_bytes read_at highest_from new_snapshot_state sequences_of entry_fields load_payload
    load_entry load_entries read_snapshot_header load_snapshot load_latest first_required start_from
    recover_one recover_from recover_started start_log recover_segments recover_log
program = tt

abbrev summary : Option (Result RecoveredLog) → List ℕ
summary none = []
summary (some (err e)) = 999 ∷ []
summary (some (ok log)) = log.seq ∷ log.offset ∷ log.first_sequence ∷ log.store.totals.entries ∷ []

-- Three records are there, "b" is left, and the segment is cut to the header and the delete.
fresh_run :
    summary (recover_log crc32c no_recovery_faults fresh (new_store_state 2 1000))
    ≡ 3 ∷ 36 ∷ 3 ∷ 1 ∷ []
unfolding program
fresh_run = refl

resumed_run :
    summary (recover_log crc32c no_recovery_faults pruned (new_store_state 1 1000))
    ≡ 3 ∷ 36 ∷ 3 ∷ 1 ∷ []
unfolding program
resumed_run = refl

module _ (r : WriteRequest) (short : length r.key + length r.value < 100) where
  short_record : record_size_for r < 2 ^ 32
  unfolding record_size_for
  short_record = omega (arith, short)

set_a-IsWritable : IsWritable set_a
set_a-IsWritable = record {
  short_key = omega arith;
  short_record = short_record set_a (omega arith);
  dated = omega arith;
  operation = tt;
}

set_b-IsWritable : IsWritable set_b
set_b-IsWritable = record {
  short_key = omega arith;
  short_record = short_record set_b (omega arith);
  dated = omega arith;
  operation = tt;
}

delete_a-IsWritable : IsWritable delete_a
delete_a-IsWritable = record {
  short_key = omega arith;
  short_record = short_record delete_a (omega arith);
  dated = omega arith;
  operation = (refl, refl);
}

fresh_listed : list_segments none fresh ≡ ok (segment_a ∷ segment_b ∷ segment_c ∷ [])
unfolding program
fresh_listed = refl

fresh_snapshots : list_snapshots none fresh ≡ ok []
unfolding program
fresh_snapshots = refl

pruned_listed : list_segments none pruned ≡ ok (segment_b ∷ segment_c ∷ [])
unfolding program
pruned_listed = refl

pruned_snapshots : list_snapshots none pruned ≡ ok (snapshot ∷ [])
unfolding program
pruned_snapshots = refl

recover_log-Reopens_example :
    (log : RecoveredLog) × (recover_log crc32c no_recovery_faults fresh (new_store_state 2 1000)
      ≡ some (ok log))
    × Reopens crc32c (set_a ∷ set_b ∷ []) last 30 log
recover_log-Reopens_example =
    recover_log-Reopens crc32c crc32c-IsChecksum fresh segment_a (segment_b ∷ segment_c ∷ [])
      ((set_a ∷ []) ∷ (set_b ∷ []) ∷ []) last 30 2 1000 fresh_snapshots fresh_listed
      (set_a-IsWritable, (set_b-IsWritable, (delete_a-IsWritable, (set_a-IsWritable, tt))))
      (omega arith) (omega arith) (refl, refl, (refl, refl, (refl, refl)))

written :
    write_snapshot_at crc32c (λ n. wrote 5) none (seen ∷ [])
    ≡ ok (2, snapshot_bytes crc32c (seen ∷ []))
unfolding program
written = refl

one_shard : (q : Key) → bit_and (hash_key q) 0 ≡ 0
one_shard q = omega (arith, bit_and-le (hash_key q) 0)

seen_pictures :
    (q : Key) (limit : ℕ)
    → get_elem? (2 ∷ []) (bit_and (hash_key q) 0) ≡ some limit
    → find q seen.entries ≡ final_state q (take limit (set_a ∷ set_b ∷ delete_a ∷ set_a ∷ []))
unfolding find state_of
seen_pictures q limit h =
    let at : get_elem? (2 ∷ []) 0 ≡ some limit =
      subst (λ i. get_elem? (2 ∷ []) i ≡ some limit) (one_shard q) h in
    let same : 2 ≡ limit = ap (λ o. elim o [ none ↦ 0 | some s ↦ s ]) at in
    subst
      (λ l. find q seen.entries ≡ final_state q (take l (set_a ∷ set_b ∷ delete_a ∷ set_a ∷ [])))
      same refl

first_there : length (encode_log crc32c 3 (take 1 last)) ≤ 30
unfolding program
first_there = omega arith

recover_log-resumed_example :
    (log : RecoveredLog) × (recover_log crc32c no_recovery_faults pruned (new_store_state 1 1000)
      ≡ some (ok log))
    × Reopens crc32c (set_a ∷ set_b ∷ []) last 30 log
unfolding entry_length find key_eq hash_key
recover_log-resumed_example =
    recover_log-resumed crc32c crc32c-IsChecksum (set_a ∷ []) ((set_b ∷ []) ∷ []) last 30
      (λ n. wrote 5) none seen [] 1000 2 1 pruned snapshot [] segment_b (segment_c ∷ [])
      pruned_snapshots written
      (record { positive = omega arith; short = omega arith; power = refl })
      (
        (
          record {
            short_key = omega arith;
            short_entry = omega arith;
            dated = omega arith;
            numbered = omega arith;
          },
          record { limit = 2; held = refl; covered = omega arith },
        ),
        (
          (
            record {
              short_key = omega arith;
              short_entry = omega arith;
              dated = omega arith;
              numbered = omega arith;
            },
            record { limit = 2; held = refl; covered = omega arith },
          ),
          tt,
        ),
      )
      (refl, (refl, tt)) seen_pictures (omega arith, tt) (omega arith) first_there pruned_listed
      (refl, refl, (refl, refl)) (omega arith)
      (set_b-IsWritable, (delete_a-IsWritable, (set_a-IsWritable, tt))) (omega arith)

-- A snapshot that saw the one shard at 7, and a log that ends at 3.
abbrev ahead : SnapshotState
ahead = record { loaded = true; replay_sequences = some (7 ∷ []); lowest = 2; highest = 7 }

refused_run :
    recover_segments crc32c no_recovery_faults ahead
      (new_store_state 1 1000)
      (segment_b ∷ segment_c ∷ [])
    ≡ some (err (gap_after_wal 3 7))
unfolding program
refused_run = refl
