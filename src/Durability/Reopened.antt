-- ===== src/Durability/Reopened.antt =====
-- A batch, and the recovery of what it left in the directory.
use go.Prelude.{ℕ, ◌+◌, ◌^◌, ◌≤◌, ◌<◌, ◌≡◌, refl, sym, ap, ◌∙◌, arith, subst}
use go.Prelude.{List, [], ◌∷◌, ◌++◌, none, some, length, length-append, map, take, All}
use go.Wire.{Bytes, put_le}
use go.Errors.{ok}
use go.Shard.{Key}
use go.Record.{WriteRequest}
use go.Store.{Store, new_store_state}
use go.Store.Peek.{peek}
use go.Segment.{segment_header}
use go.Segment.Replay.{IsChecksum, IsWritable}
use go.Segment.Log.{encode_log}
use go.Segment.History.{final_state}
use go.Directory.{File, SequenceFile, list_segments, list_snapshots}
use go.Recovery.{RecoveredLog, recover_log}
use go.Recovery.Chain.{no_recovery_faults, joined}
use go.Recovery.Start.{IsLogFrom}
use go.Recovery.Seen.{count-reached}
use go.Recovery.Durable.{recover_log-Reopens}
use go.Writer.{LogState, Environment, Writer, write_batch}
use go.Writer.Progress.{Progress}
use go.Writer.Answers.{write_batch_lem}
use go.Durability.Segments.{as_file, segments_of}
use go.Durability.Left.{Holds, Left}
use go.Durability.Rounds.{write_batch-Left}

-- What is known after the batch and the recovery: the first `accepted` of the requests were answered
-- with nil and are all in what was recovered.
pub record Survives (env : Environment) (history requests : List WriteRequest) (start w : Writer)
    (log : RecoveredLog) : Type 0 where
  pub progress : Progress env.checksum start w requests
  pub kept : length history + progress.count ≤ log.seq
  pub known : log.seq ≤ length (history ++ requests)
  pub contents : (q : Key) → peek log.store q ≡ final_state q (take log.seq (history ++ requests))

some_segment : (log : LogState) → 0 < length (map as_file (segments_of log))
some_segment log = go log.closed_segments
  where
    go :
        (closed : List (ℕ × Bytes))
        → 0 < length (map as_file (closed ++ (log.first_sequence, log.contents) ∷ log.orphans))
    go [] = omega arith
    go (s ∷ closed) = omega arith

-- The recovery of a log of which at least `l.k` records of the last segment are whole.
Left-Survives :
    (env : Environment) (history requests : List WriteRequest) (start w : Writer)
    (directory : List File) (files : List SequenceFile) (shard_count shard_capacity : ℕ)
    → IsChecksum env.checksum
    → Progress env.checksum start w requests
    → start.log.seq ≡ length history
    → (l : Left env.checksum history requests w.log) → 0 < length files
    → IsLogFrom env.checksum l.chunks l.last l.n 0 files
    → list_snapshots none directory ≡ ok []
    → list_segments none directory ≡ ok files
    → All IsWritable (history ++ requests)
    → length (history ++ requests) < 2 ^ 64
    → 0 < shard_count
    → (log : RecoveredLog) × (recover_log env.checksum no_recovery_faults directory
          (new_store_state shard_count shard_capacity)
        ≡ some (ok log))
      × Survives env history requests start w log
Left-Survives env history requests start w directory [] shard_count shard_capacity is p begun l
      some_file disk no_snapshot listed writable space positive =
    absurd (omega arith)
Left-Survives env history requests start w directory (f ∷ rest) shard_count shard_capacity is p
      begun l some_file disk no_snapshot listed writable space positive =
    let (log, recovers, r) =
      recover_log-Reopens env.checksum is directory f rest l.chunks l.last l.n shard_count
        shard_capacity no_snapshot listed (subst (All IsWritable) (sym l.whole) writable)
        (omega (arith, ap length l.whole, space)) positive disk in
    let enough =
      count-reached env.checksum (length (joined l.chunks) + 1) l.last l.n l.k r.count l.short
        l.there r.most in
    let all = length-append (joined l.chunks) l.last in
    (
      log,
      recovers,
      record {
        progress = p;
        kept = omega (arith, enough, r.sequence, l.reached, p.numbered, begun);
        known = omega (arith, r.sequence, r.within, ap length l.whole, all);
        contents = λ q. r.contents q ∙ ap (λ x. final_state q (take log.seq x)) l.whole;
      },
    )

header_length : length segment_header ≡ 8
unfolding segment_header put_le
header_length = refl

-- Where the segments of the writer hold a history from the first request on and nothing has failed
-- before: whatever calls of the file system fail during a batch, and whatever state writeBatch
-- then ends in, if the directory lists the segments that it left and no snapshot, recoverLog, when
-- nothing fails, gives a new store that counts every request answered with nil, and under every
-- key exactly what the history and a first part of the batch left in order. All requests passed
-- the checks, and their number is below 2^64.
pub recover_log-write_batch :
    (env : Environment) (segment_size : ℕ) (store : Store) (log : LogState)
    (requests : List WriteRequest) (chunks : List (List WriteRequest)) (last : List WriteRequest)
    (w : Writer) (directory : List File) (shard_count shard_capacity : ℕ)
    → IsChecksum env.checksum
    → store.last_error ≡ none
    → Holds env.checksum log chunks last
    → All IsWritable ((joined chunks ++ last) ++ requests)
    → length ((joined chunks ++ last) ++ requests) < 2 ^ 64
    → write_batch env segment_size store log requests ≡ some w
    → list_snapshots none directory ≡ ok []
    → list_segments none directory ≡ ok (map as_file (segments_of w.log))
    → 0 < shard_count
    → (recovered : RecoveredLog) × (recover_log env.checksum no_recovery_faults directory
          (new_store_state shard_count shard_capacity)
        ≡ some (ok recovered))
      × Survives env
          (joined chunks ++ last)
          requests
          (record { store = store; log = log; answers = [] })
          w
          recovered
recover_log-write_batch env segment_size store log requests chunks last w directory shard_count
      shard_capacity is unlatched h writable space ends no_snapshot listed positive =
    let history = joined chunks ++ last in
    let start : Writer = record { store = store; log = log; answers = [] } in
    let begun : log.seq ≡ length history = h.numbered ∙ sym (length-append (joined chunks) last) in
    let has_header : 8 ≤ length log.contents = omega (
      arith,
      ap length h.contents,
      header_length,
      length-append segment_header (encode_log env.checksum log.first_sequence last),
    ) in
    let (w', ends', progress) =
      write_batch_lem env segment_size store log requests unlatched has_header
        (omega (arith, begun, length-append history requests, space)) in
    let same : w' ≡ w = ap (λ o. elim o [ none ↦ w | some x ↦ x ]) (sym ends' ∙ ends) in
    let l = write_batch-Left env segment_size store log requests chunks last w h ends in
    Left-Survives env history requests start w directory (map as_file (segments_of w.log))
      shard_count shard_capacity is
      (subst (λ x. Progress env.checksum start x requests) same progress) begun l
      (some_segment w.log) l.disk no_snapshot listed writable space positive
