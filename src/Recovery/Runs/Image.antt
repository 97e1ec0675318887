-- ===== src/Recovery/Runs/Image.antt =====
-- The compaction of the first two of the three segments, with and without a snapshot.
use go.Prelude.{ℕ, ◌≡◌, refl, ap, arith, subst, bit_and, take, get_elem?}
use go.Prelude.{List, [], ◌∷◌, ◌++◌, none, some}
use go.Prelude.Int.{pos}
use go.Errors.{ok}
use go.Names.{segment_suffix, snapshot_suffix}
use go.Record.{}
use go.Shard.{Key, find, key_eq}
use go.Store.{new_store_state, hash_key}
use go.Segment.{segment_header}
use go.Segment.Crc.{crc32c, crc32c-IsChecksum}
use go.Segment.History.{state_of, final_state}
use go.Snapshot.{wrote, Visit, entry_length, write_snapshot_at, snapshot_bytes}
use go.Snapshot.Load.{}
use go.Directory.{File, SequenceFile, list_segments, list_snapshots}
use go.Recovery.{}
use go.Recovery.Chain.{no_recovery_faults}
use go.Recovery.Compaction.{recover_durable_image}
use go.Recovery.Compacted.{recover_durable_image-fresh}
use go.Recovery.Extended.{recover_durable_image-extended}
use go.Store.{Store}
use go.Store.Peek.{peek}
use go.Recovery.Runs.{
  set_a, set_b, numbered, segment_a, segment_b, program, set_a-IsWritable, set_b-IsWritable,
  one_shard,
}

abbrev open_segment : SequenceFile
open_segment = numbered 3 segment_suffix segment_header

abbrev rolled : List File
rolled = open_segment.file ∷ segment_a.file ∷ segment_b.file ∷ []

-- The snapshot is behind segment 1, and segment 2 is there in whole.
abbrev seen_a : Visit
seen_a = record {
  sequence = 1;
  entries = (record { key = 97 ∷ []; value = 1 ∷ []; deadline = pos 0; sequence = 1 }) ∷ [];
}

abbrev snapshot_a : SequenceFile
snapshot_a = numbered 1 snapshot_suffix (snapshot_bytes crc32c (seen_a ∷ []))

abbrev rolled_pruned : List File
rolled_pruned = open_segment.file ∷ snapshot_a.file ∷ segment_b.file ∷ []

rolled_snapshots : list_snapshots none rolled ≡ ok []
unfolding program
rolled_snapshots = refl

rolled_listed : list_segments none rolled ≡ ok (segment_a ∷ (segment_b ∷ []) ++ (open_segment ∷ []))
unfolding program
rolled_listed = refl

rolled_pruned_snapshots : list_snapshots none rolled_pruned ≡ ok (snapshot_a ∷ [])
unfolding program
rolled_pruned_snapshots = refl

rolled_pruned_listed : list_segments none rolled_pruned ≡ ok (segment_b ∷ [] ++ (open_segment ∷ []))
unfolding program
rolled_pruned_listed = refl

written_a :
    write_snapshot_at crc32c (λ n. wrote 5) none (seen_a ∷ [])
    ≡ ok (1, snapshot_bytes crc32c (seen_a ∷ []))
unfolding program
written_a = refl

seen_a_pictures :
    (q : Key) (limit : ℕ)
    → get_elem? (1 ∷ []) (bit_and (hash_key q) 0) ≡ some limit
    → find q seen_a.entries ≡ final_state q (take limit (set_a ∷ set_b ∷ []))
unfolding find state_of
seen_a_pictures q limit h =
    let at : get_elem? (1 ∷ []) 0 ≡ some limit =
      subst (λ i. get_elem? (1 ∷ []) i ≡ some limit) (one_shard q) h in
    let same : 1 ≡ limit = ap (λ o. elim o [ none ↦ 0 | some s ↦ s ]) at in
    subst (λ l. find q seen_a.entries ≡ final_state q (take l (set_a ∷ set_b ∷ []))) same refl

recover_durable_image-fresh_example :
    (store : Store) × (recover_durable_image crc32c no_recovery_faults rolled
        (new_store_state 2 1000)
        2
      ≡ some (ok store))
    × (store.log_sequence ≡ 2)
    × ((q : Key) → peek store q ≡ final_state q (set_a ∷ set_b ∷ []))
recover_durable_image-fresh_example =
    recover_durable_image-fresh crc32c rolled segment_a (segment_b ∷ []) (open_segment ∷ [])
      ((set_a ∷ []) ∷ (set_b ∷ []) ∷ []) 2 2 1000 crc32c-IsChecksum rolled_snapshots rolled_listed
      (refl, refl, (refl, refl, tt)) refl refl (set_a-IsWritable, (set_b-IsWritable, tt))
      (omega arith) (omega arith)

recover_durable_image-extended_example :
    (store : Store) × (recover_durable_image crc32c no_recovery_faults rolled_pruned
        (new_store_state 1 1000)
        2
      ≡ some (ok store))
    × (store.log_sequence ≡ 2)
    × ((q : Key) → peek store q ≡ final_state q (set_a ∷ set_b ∷ []))
unfolding entry_length find key_eq hash_key
recover_durable_image-extended_example =
    recover_durable_image-extended crc32c crc32c-IsChecksum (set_a ∷ []) ((set_b ∷ []) ∷ [])
      (λ n. wrote 5) none seen_a [] 1000 1 2 rolled_pruned snapshot_a [] segment_b []
      (open_segment ∷ []) rolled_pruned_snapshots written_a
      (record { positive = omega arith; short = omega arith; power = refl })
      (
        (
          record {
            short_key = omega arith;
            short_entry = omega arith;
            dated = omega arith;
            numbered = omega arith;
          },
          record { limit = 1; held = refl; covered = omega arith },
        ),
        tt,
      )
      (refl, tt) seen_a_pictures (omega arith, tt) rolled_pruned_listed (refl, refl, tt)
      (omega arith, tt) (omega arith) refl (set_b-IsWritable, tt) (omega arith)
