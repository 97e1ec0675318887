-- ===== src/Recovery/Compaction.antt =====
-- `recoverDurableImage` of cache/recovery.go on a directory.
use go.Prelude.{ℕ, Bool, true, false, ◌&&◌, ltb, ◌==◌, if◌then◌else◌}
use go.Prelude.{List, [], ◌∷◌, Option, none, some, drop}
use go.Wire.{Bytes}
use go.Errors.{Result, ok, err, io_failed, os, snapshot_newer, compaction_gap, compaction_short}
use go.Shard.{sub64}
use go.Store.{Store}
use go.Segment.{SnapshotState}
use go.Directory.{File, SequenceFile, list_segments}
use go.Recovery.{RecoveryFaults, first_required, start_from, load_latest, recover_one}

-- The loop of `recoverDurableImage`: every segment is read to its end, up to those beyond `through`.
unfoldable pub compact_from :
    (Bytes → ℕ)
    → RecoveryFaults
    → SnapshotState
    → ℕ
    → ℕ
    → Store
    → List SequenceFile
    → Option (Result (ℕ × Store))
compact_from checksum faults snapshot through last store [] = some (ok (last, store))
compact_from checksum faults snapshot through last store (f ∷ segments) =
    elim (ltb through f.sequence) [
      | true ↦ some (ok (last, store))
      | false ↦ elim (recover_one checksum faults snapshot through false f last store) [
        | none ↦ none
        | some (err e) ↦ some (err e)
        | some (ok r) ↦ elim (faults.close f.sequence) [
          | some n ↦ some (err (io_failed (os n)))
          | none ↦ compact_from checksum faults snapshot through r.sequence r.store segments
        ]
      ]
    ]

abbrev pub finish_compaction : ℕ → Option (Result (ℕ × Store)) → Option (Result Store)
finish_compaction through none = none
finish_compaction through (some (err e)) = some (err e)
finish_compaction through (some (ok (last, store))) =
    if last == through
    then some (ok (record store { log_sequence = through }))
    else some (err (compaction_short last through))

abbrev pub begins_beyond : ℕ → List SequenceFile → Bool
begins_beyond n [] = true
begins_beyond n (f ∷ segments) = ltb n f.sequence

abbrev pub sequence_before : List SequenceFile → ℕ
sequence_before [] = 0
sequence_before (f ∷ segments) = sub64 f.sequence 1

-- Behind the listing of the segments.
unfoldable pub compact_segments :
    (Bytes → ℕ)
    → RecoveryFaults
    → SnapshotState
    → ℕ
    → Store
    → List SequenceFile
    → Option (Result Store)
compact_segments checksum faults snapshot through store segments = elim snapshot.loaded [
  | true ↦
      let required = first_required snapshot in
      let started = drop (start_from required 0 0 segments) segments in
      if (snapshot.highest == through) && begins_beyond through segments
      then some (ok (record store { log_sequence = through }))
      else if begins_beyond required segments
      then some (err (compaction_gap through))
      else finish_compaction through
          (compact_from checksum faults snapshot through (sequence_before started) store started)
  | false ↦
      if begins_beyond 1 segments
      then some (err (compaction_gap through))
      else finish_compaction through
          (compact_from checksum faults snapshot through 0 store segments)
]

unfoldable pub recover_durable_image :
    (Bytes → ℕ) → RecoveryFaults → List File → Store → ℕ → Option (Result Store)
recover_durable_image checksum faults directory store through =
    elim (load_latest checksum faults directory store) [
      | none ↦ none
      | some (err e) ↦ some (err e)
      | some (ok (store', snapshot)) ↦
          if snapshot.loaded && ltb through snapshot.highest
          then some (err (snapshot_newer snapshot.highest through))
          else (elim (list_segments faults.list_segments directory) [
            | err e ↦ some (err e)
            | ok segments ↦ compact_segments checksum faults snapshot through store' segments
          ])
    ]
