-- ===== src/Snapshot/Runs.antt =====
-- A snapshot of two shards with an entry each, written five bytes at a time and loaded again.
use go.Prelude.{ℕ, ◌≤◌, ◌≡◌, refl, arith, All, length}
use go.Prelude.{List, [], ◌∷◌, Option, none, some}
use go.Prelude.Int.{pos, to_uint64, of_uint64}
use go.Wire.{put_le, le, read_full, bytes_eq}
use go.Errors.{Result, ok, err}
use go.Shard.{
  Entry, find, key_eq, entry_size, unlink, mark_recent_locked, overwrite_entry, insert_entry,
  set_entry_locked,
}
use go.Shard.Operations.{apply_recovered_set}
use go.Store.{Store, new_store_state, hash_key, shard_index, with_shard, set_recovered}
use go.Segment.{SnapshotState, in_recovery}
use go.Segment.Crc.{crc_bits, crc_bytes, crc32c, crc32c-IsChecksum}
use go.Snapshot.{
  Wrote, wrote, Visit, snapshot_header, new_snapshot_header, put_sequences, entry_length,
  entry_body, encode_snapshot_entry, write_full_loop, write_full, write_entries, write_visits,
  lowest_from, lowest_of, write_snapshot_at, encode_entries, snapshot_bytes,
}
use go.Snapshot.Load.{
  read_at, highest_from, new_snapshot_state, sequences_of, entry_fields, load_payload, load_entry,
  load_entries, read_snapshot_header, load_snapshot,
}
use go.Snapshot.Written.{OkIs, write_snapshot_at-snapshot_bytes}
use go.Snapshot.Loaded.{no_snapshot_faults}
use go.Snapshot.Restored.{Restores, load_snapshot-write_snapshot_at}

abbrev entry_a : Entry
entry_a = record { key = 97 ∷ []; value = 1 ∷ []; deadline = pos 0; sequence = 3 }

abbrev entry_b : Entry
entry_b = record { key = 98 ∷ []; value = []; deadline = pos 9; sequence = 1 }

abbrev first : Visit
first = record { sequence = 4; entries = entry_a ∷ [] }

abbrev second : Visit
second = record { sequence = 5; entries = entry_b ∷ [] }

abbrev slowly : ℕ → Wrote
slowly n = wrote 5

program : Unit {0}
unfolding put_le le read_full bytes_eq to_uint64 of_uint64 find key_eq entry_size unlink
    mark_recent_locked overwrite_entry insert_entry set_entry_locked apply_recovered_set
    new_store_state hash_key shard_index with_shard set_recovered in_recovery crc_bits crc_bytes
    crc32c snapshot_header new_snapshot_header put_sequences entry_length entry_body
    encode_snapshot_entry write_full_loop write_full write_entries write_visits lowest_from
    lowest_of write_snapshot_at encode_entries snapshot_bytes read_at highest_from
    new_snapshot_state sequences_of entry_fields load_payload load_entry load_entries
    read_snapshot_header load_snapshot
program = tt

abbrev summary : Option (Result (Store × SnapshotState)) → List ℕ
summary none = []
summary (some (err e)) = 999 ∷ []
summary (some (ok (store, state))) = store.totals.entries ∷ state.lowest ∷ state.highest ∷ []

file_size : length (snapshot_bytes crc32c (first ∷ second ∷ [])) ≡ 83
unfolding program
file_size = refl

written_run :
    write_snapshot_at crc32c slowly none (first ∷ second ∷ [])
    ≡ ok (4, snapshot_bytes crc32c (first ∷ second ∷ []))
unfolding program
written_run = refl

loaded_run :
    summary (
      load_snapshot crc32c no_snapshot_faults
        (snapshot_bytes crc32c (first ∷ second ∷ []))
        (new_store_state 2 1000))
    ≡ 2 ∷ 4 ∷ 5 ∷ []
unfolding program
loaded_run = refl

write_snapshot_at-snapshot_bytes_example :
    OkIs
      (write_snapshot_at crc32c slowly none (first ∷ second ∷ []))
      (lowest_of (4 ∷ 5 ∷ []), snapshot_bytes crc32c (first ∷ second ∷ []))
    × All (λ v. lowest_of (4 ∷ 5 ∷ []) ≤ v.sequence) (first ∷ second ∷ [])
write_snapshot_at-snapshot_bytes_example =
    write_snapshot_at-snapshot_bytes crc32c slowly none (first ∷ second ∷ [])

load_snapshot-write_snapshot_at_example :
    (store : Store) × (state : SnapshotState) × (load_snapshot crc32c no_snapshot_faults
        (snapshot_bytes crc32c (first ∷ second ∷ []))
        (new_store_state 2 1000)
      ≡ some (ok (store, state)))
    × Restores (first ∷ second ∷ []) 4 store state
unfolding find key_eq hash_key entry_length
load_snapshot-write_snapshot_at_example =
    load_snapshot-write_snapshot_at crc32c slowly none first (second ∷ []) 1000 4
      (snapshot_bytes crc32c (first ∷ second ∷ [])) crc32c-IsChecksum
      (record { positive = omega arith; short = omega arith; power = refl })
      (omega arith, (omega arith, tt))
      (
        (
          record {
            short_key = omega arith;
            short_entry = omega arith;
            dated = omega arith;
            numbered = omega arith;
          },
          record { limit = 4; held = refl; covered = omega arith },
        ),
        (
          (
            record {
              short_key = omega arith;
              short_entry = omega arith;
              dated = omega arith;
              numbered = omega arith;
            },
            record { limit = 5; held = refl; covered = omega arith },
          ),
          tt,
        ),
      )
      (refl, (refl, tt)) written_run
