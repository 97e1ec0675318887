-- ===== src/Recovery.antt =====
-- `recoverLog` of cache/recovery.go on a directory. What the file system and
-- the context refuse is an argument, by the first sequence number of a segment.
pub mod Chain
pub mod Durable
pub mod Start
pub mod Seen
pub mod Resumed
pub mod Compaction
pub mod Compacted
pub mod Extended
pub mod Gaps
mod Runs
use go.Prelude.{
  ℕ, zero, suc, ◌+◌, ◌-◌, Bool, true, false, not, ◌&&◌, ◌||◌, ltb, leb, ◌==◌, if◌then◌else◌,
}
use go.Prelude.{List, [], ◌∷◌, Option, none, some, length, drop}
use go.Wire.{Bytes}
use go.Errors.{
  Error, Result, ok, err, ◌>>=◌, ◌>>◌, io_failed, os, gap_after_snapshot, oldest_retained,
  gap_after_wal, snapshot_newer, compaction_gap, compaction_short, sequence_exhausted,
}
use go.Record.{max_sequence}
use go.Shard.{sub64}
use go.Store.{Store}
use go.Options.{segment_header_size}
use go.Segment.{SegmentFaults, SegmentCall, SnapshotState, Recovered, recover_segment, check}
use go.Snapshot.Load.{SnapshotFaults, load_snapshot}
use go.Directory.{File, SequenceFile, list_segments, list_snapshots}

-- `create` is the error of `createSegment`, `before` that of the context in front of a segment.
pub record RecoveryFaults : Type 0 where
  pub list_snapshots : Option ℕ
  pub snapshot : SnapshotFaults
  pub list_segments : Option ℕ
  pub create : Option Error
  pub before : ℕ → Option ℕ
  pub segment : ℕ → SegmentFaults
  pub close : ℕ → Option ℕ

-- The zero `snapshotState`.
abbrev pub not_loaded : SnapshotState
not_loaded = record { loaded = false; replay_sequences = none; lowest = 0; highest = 0 }

-- The last element of a list that has one.
abbrev pub last_of {ℓ} : {A : Type ℓ} → A → List A → A
last_of x [] = x
last_of x (y ∷ ys) = last_of y ys

-- `loadSnapshot`, from the listing on.
unfoldable pub load_latest :
    (Bytes → ℕ) → RecoveryFaults → List File → Store → Option (Result (Store × SnapshotState))
load_latest checksum faults directory store =
    elim (list_snapshots faults.list_snapshots directory) [
      | err e ↦ some (err e)
      | ok [] ↦ some (ok (store, not_loaded))
      | ok (f ∷ snapshots) ↦
          load_snapshot checksum faults.snapshot (last_of f snapshots).file.contents store
    ]

unfoldable pub first_required : SnapshotState → ℕ
first_required snapshot =
    if snapshot.lowest == max_sequence then snapshot.lowest else snapshot.lowest + 1

-- The loop that finds the segment to start with: the last one that starts at or below `required`.
unfoldable pub start_from : ℕ → ℕ → ℕ → List SequenceFile → ℕ
start_from required start index [] = start
start_from required start index (f ∷ segments) =
    start_from required (if leb f.sequence required then index else start) (index + 1) segments

-- The call of `recoverSegment` and what goes round it.
unfoldable pub recover_one :
    (Bytes → ℕ)
    → RecoveryFaults
    → SnapshotState
    → ℕ
    → Bool
    → SequenceFile
    → ℕ
    → Store
    → Option (Result Recovered)
recover_one checksum faults snapshot through final f last store = elim (faults.before f.sequence) [
  | some n ↦ some (err (io_failed (os n)))
  | none ↦
      recover_segment checksum (faults.segment f.sequence)
        (record {
          first_sequence = f.sequence;
          final = final;
          snapshot = snapshot;
          through = through;
        })
        f.file.contents last store
]

-- The loop of `recoverLog`, which stands at `f` with `segments` behind it.
unfoldable pub recover_from :
    (Bytes → ℕ)
    → RecoveryFaults
    → SnapshotState
    → ℕ
    → Store
    → SequenceFile
    → List SequenceFile
    → Option (Result Recovered)
recover_from checksum faults snapshot last store f [] =
    recover_one checksum faults snapshot max_sequence true f last store
recover_from checksum faults snapshot last store f (g ∷ segments) =
    elim (recover_one checksum faults snapshot max_sequence false f last store) [
      | none ↦ none
      | some (err e) ↦ some (err e)
      | some (ok r) ↦ elim (faults.close f.sequence) [
        | some n ↦ some (err (io_failed (os n)))
        | none ↦ recover_from checksum faults snapshot r.sequence r.store g segments
      ]
    ]

-- The `logState` that the writer starts with. `created` says that its segment is a new one, and
-- `truncated` to which size the last segment was cut, if it was.
pub record RecoveredLog : Type 0 where
  pub store : Store
  pub first_sequence : ℕ
  pub created : Bool
  pub offset : ℕ
  pub seq : ℕ
  pub truncated : Option ℕ

-- Where there is no segment: a new one behind the snapshot.
unfoldable pub start_log : RecoveryFaults → SnapshotState → Store → Result RecoveredLog
start_log faults snapshot store =
    if snapshot.loaded && not (snapshot.lowest == snapshot.highest)
    then err (gap_after_snapshot snapshot.lowest)
    else if snapshot.loaded && (snapshot.highest == max_sequence)
    then err sequence_exhausted
    else (elim faults.create [
      | some e ↦ err e
      | none ↦
          let next = if snapshot.loaded then snapshot.highest + 1 else 1 in
          ok (record {
            store = record store { log_sequence = next - 1 };
            first_sequence = next;
            created = true;
            offset = segment_header_size;
            seq = next - 1;
            truncated = none;
          })
    ])

abbrev pub finish_log : SnapshotState → ℕ → Recovered → Result RecoveredLog
finish_log snapshot first r =
    if snapshot.loaded && ltb r.sequence snapshot.highest
    then err (gap_after_wal r.sequence snapshot.highest)
    else (let store = r.store in
        ok (record {
          store = record store { log_sequence = r.sequence };
          first_sequence = first;
          created = false;
          offset = r.offset;
          seq = r.sequence;
          truncated = r.truncated;
        }))

abbrev pub finish_recovery :
    SnapshotState → ℕ → Option (Result Recovered) → Option (Result RecoveredLog)
finish_recovery snapshot first none = none
finish_recovery snapshot first (some (err e)) = some (err e)
finish_recovery snapshot first (some (ok r)) = some (finish_log snapshot first r)

-- The rest of the loop from the segment to start with; there is one, since `start` is an index.
unfoldable pub recover_started :
    (Bytes → ℕ)
    → RecoveryFaults
    → SnapshotState
    → Store
    → List SequenceFile
    → Option (Result RecoveredLog)
recover_started checksum faults snapshot store [] = none
recover_started checksum faults snapshot store (f ∷ segments) =
    let previous = if snapshot.loaded then sub64 f.sequence 1 else 0 in
    finish_recovery snapshot (last_of f segments).sequence
      (recover_from checksum faults snapshot previous store f segments)

-- From the listing of the segments on.
unfoldable pub recover_segments :
    (Bytes → ℕ)
    → RecoveryFaults
    → SnapshotState
    → Store
    → List SequenceFile
    → Option (Result RecoveredLog)
recover_segments checksum faults snapshot store [] = some (start_log faults snapshot store)
recover_segments checksum faults snapshot store (f ∷ segments) =
    let required = first_required snapshot in
    elim snapshot.loaded [
      | true ↦
          if ltb required f.sequence
          then some (err (gap_after_snapshot snapshot.lowest))
          else recover_started checksum faults snapshot store
              (drop (start_from required 0 0 (f ∷ segments)) (f ∷ segments))
      | false ↦
          if ltb 1 f.sequence
          then some (err (oldest_retained f.sequence))
          else recover_started checksum faults snapshot store (f ∷ segments)
    ]

unfoldable pub recover_log :
    (Bytes → ℕ) → RecoveryFaults → List File → Store → Option (Result RecoveredLog)
recover_log checksum faults directory store = elim (load_latest checksum faults directory store) [
  | none ↦ none
  | some (err e) ↦ some (err e)
  | some (ok (store', snapshot)) ↦ elim (list_segments faults.list_segments directory) [
    | err e ↦ some (err e)
    | ok segments ↦ recover_segments checksum faults snapshot store' segments
  ]
]
