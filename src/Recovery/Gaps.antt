-- ===== src/Recovery/Gaps.antt =====
-- What `recoverLog` makes of a log with a hole: records behind it are refused.
use go.Prelude.{ℕ, ◌+◌, ◌^◌, ◌<◌, ◌≡◌, refl, ap, ◌∙◌, arith, Bool, true, false}
use go.Prelude.{List, [], ◌∷◌, ◌++◌, none, some, length, length-append, All}
use go.Wire.{Bytes}
use go.Errors.{Error, ok, err, recover_at, sequence_gap}
use go.Record.{WriteRequest, max_sequence, encode_record}
use go.Store.{Store}
use go.Segment.{SegmentCall, SnapshotState, no_faults, recover_segment, segment_header}
use go.Segment.Replay.{IsChecksum, IsWritable}
use go.Segment.Log.{encode_log, replay_all}
use go.Segment.Gap.{recover_segment-gap}
use go.Directory.{File, SequenceFile, list_segments, list_snapshots}
use go.Recovery.{
  not_loaded, recover_one, recover_from, recover_started, recover_segments, recover_log,
}
use go.Recovery.Chain.{no_recovery_faults, joined, All-front, All-behind, recover_one-whole}
use go.Recovery.Durable.{recover_log-loaded, load_latest-none}
use go.Recovery.Compacted.{Whole, Whole-first}

module _ (checksum : Bytes → ℕ) (is : IsChecksum checksum) where
  recover_one-gap :
      (snapshot : SnapshotState) (final : Bool) (previous : ℕ) (store : Store) (g : SequenceFile)
      (sequence : ℕ) (r : WriteRequest) (behind : Bytes)
      → g.file.contents ≡ segment_header ++ (encode_record checksum sequence r ++ behind)
      → IsWritable r
      → sequence < 2 ^ 64
      → ¬ (sequence ≡ previous + 1)
      → recover_one checksum no_recovery_faults snapshot max_sequence final g previous store
        ≡ some (err (recover_at 8 (sequence_gap sequence previous)))
  unfolding recover_one
  recover_one-gap snapshot final previous store g sequence r behind held w space other =
      let call : SegmentCall = record {
        first_sequence = g.sequence;
        final = final;
        snapshot = snapshot;
        through = max_sequence;
      } in
      ap (λ c. recover_segment checksum no_faults call c previous store) held
      ∙ recover_segment-gap checksum is call previous sequence store r behind w space (omega arith)
          other

  recover_from-gap :
      (snapshot : SnapshotState) (previous : ℕ) (store : Store) (g : SequenceFile)
      (rest : List SequenceFile) (sequence : ℕ) (r : WriteRequest) (behind : Bytes)
      → g.file.contents ≡ segment_header ++ (encode_record checksum sequence r ++ behind)
      → IsWritable r
      → sequence < 2 ^ 64
      → ¬ (sequence ≡ previous + 1)
      → recover_from checksum no_recovery_faults snapshot previous store g rest
        ≡ some (err (recover_at 8 (sequence_gap sequence previous)))
  unfolding recover_from
  recover_from-gap snapshot previous store g [] sequence r behind held w space other =
      recover_one-gap snapshot true previous store g sequence r behind held w space other
  recover_from-gap snapshot previous store g (x ∷ rest) sequence r behind held w space other =
      let one =
        recover_one-gap snapshot false previous store g sequence r behind held w space other in
      rw (one, recover_from) refl

  -- Behind a segment that holds whole records.
  recover_from-whole :
      (snapshot : SnapshotState) (previous : ℕ) (store : Store) (f : SequenceFile)
      (chunk : List WriteRequest) (x : SequenceFile) (rest : List SequenceFile)
      → All IsWritable chunk
      → previous + length chunk < 2 ^ 64
      → f.sequence ≡ previous + 1
      → f.file.contents ≡ segment_header ++ encode_log checksum (previous + 1) chunk
      → recover_from checksum no_recovery_faults snapshot previous store f (x ∷ rest)
        ≡ recover_from checksum no_recovery_faults snapshot
            (previous + length chunk)
            (replay_all snapshot store (previous + 1) chunk)
            x
            rest
  unfolding recover_from
  recover_from-whole snapshot previous store f chunk x rest w room first held =
      let one =
        recover_one-whole checksum is snapshot max_sequence previous store f chunk w room
          (omega arith) first held in
      rw (one, recover_from) refl

  recover_from-missing :
      (snapshot : SnapshotState) (previous : ℕ) (store : Store) (f : SequenceFile)
      (segments : List SequenceFile) (chunks : List (List WriteRequest)) (g : SequenceFile)
      (rest : List SequenceFile) (sequence : ℕ) (r : WriteRequest) (behind : Bytes)
      → All IsWritable (joined chunks)
      → previous + length (joined chunks) < 2 ^ 64
      → Whole checksum previous (f ∷ segments) chunks
      → g.file.contents ≡ segment_header ++ (encode_record checksum sequence r ++ behind)
      → IsWritable r
      → sequence < 2 ^ 64
      → ¬ (sequence ≡ previous + length (joined chunks) + 1)
      → recover_from checksum no_recovery_faults snapshot previous store f (segments ++ g ∷ rest)
        ≡ some (err (recover_at 8 (sequence_gap sequence (previous + length (joined chunks)))))
  recover_from-missing snapshot previous store f segments [] g rest sequence r behind w room whole
        held wr space other =
      absurd whole
  recover_from-missing snapshot previous store f [] (chunk ∷ []) g rest sequence r behind w room
        (first, here, whole) held wr space other =
      let size = length-append {A = WriteRequest} chunk [] in
      let at : previous + length chunk ≡ previous + length (chunk ++ []) = omega (arith, size) in
      recover_from-whole snapshot previous store f chunk g rest (All-front IsWritable chunk [] w)
        (omega (arith, room, size)) first here
      ∙ recover_from-gap snapshot (previous + length chunk) _ g rest sequence r behind held wr space
          (λ e. other (omega (arith, e, size)))
      ∙ ap (λ n. some (err (recover_at 8 (sequence_gap sequence n)))) at
  recover_from-missing snapshot previous store f [] (chunk ∷ chunk' ∷ chunks) g rest sequence r
        behind w room (first, here, whole) held wr space other =
      absurd whole
  recover_from-missing snapshot previous store f (x ∷ segments) (chunk ∷ chunks) g rest sequence r
        behind w room (first, here, whole) held wr space other =
      let size = length-append chunk (joined chunks) in
      let at : previous + length chunk + length (joined chunks)
          ≡ previous + length (chunk ++ joined chunks) =
        omega (arith, size) in
      recover_from-whole snapshot previous store f chunk x (segments ++ g ∷ rest)
        (All-front IsWritable chunk (joined chunks) w) (omega (arith, room, size)) first here
      ∙ recover_from-missing snapshot (previous + length chunk) _ x segments chunks g rest sequence
          r behind (All-behind IsWritable chunk (joined chunks) w) (omega (arith, room, size)) whole
          held wr space (λ e. other (omega (arith, e, size)))
      ∙ ap (λ n. some (err (recover_at 8 (sequence_gap sequence n)))) at

  recover_segments-missing :
      (store : Store) (f : SequenceFile) (files : List SequenceFile) (e : Error)
      → f.sequence ≡ 1
      → recover_from checksum no_recovery_faults not_loaded 0 store f files ≡ some (err e)
      → recover_segments checksum no_recovery_faults not_loaded store (f ∷ files) ≡ some (err e)
  unfolding recover_segments recover_started
  recover_segments-missing store f files e first h = ground (arith, first, h)

  -- A hole in the log with a record behind it: without a snapshot, where whole segments hold the log
  -- from its first request on and the first record of the next segment has any number but the one that
  -- follows, recoverLog, when nothing else fails, refuses the directory with the error that names
  -- these two numbers, whatever stands behind that record, in its segment and in later ones. The
  -- requests passed the checks, and the numbers fit into 64 bits.
  pub recover_log-missing :
      (directory : List File) (f : SequenceFile) (segments : List SequenceFile)
      (chunks : List (List WriteRequest)) (g : SequenceFile) (rest : List SequenceFile)
      (sequence : ℕ) (r : WriteRequest) (behind : Bytes) (store : Store)
      → list_snapshots none directory ≡ ok []
      → list_segments none directory ≡ ok (f ∷ segments ++ g ∷ rest)
      → Whole checksum 0 (f ∷ segments) chunks
      → g.file.contents ≡ segment_header ++ (encode_record checksum sequence r ++ behind)
      → ¬ (sequence ≡ length (joined chunks) + 1)
      → All IsWritable (joined chunks)
      → IsWritable r
      → length (joined chunks) < 2 ^ 64
      → sequence < 2 ^ 64
      → recover_log checksum no_recovery_faults directory store
        ≡ some (err (recover_at 8 (sequence_gap sequence (length (joined chunks)))))
  recover_log-missing directory f segments chunks g rest sequence r behind store no_snapshot listed
        whole held other w wr room space =
      let same : 0 + length (joined chunks) ≡ length (joined chunks) = omega arith in
      recover_log-loaded checksum directory store store not_loaded (f ∷ segments ++ g ∷ rest)
        (load_latest-none checksum directory store no_snapshot) listed
      ∙ recover_segments-missing store f (segments ++ g ∷ rest) _
          (Whole-first checksum 0 f segments chunks whole)
          (recover_from-missing not_loaded 0 store f segments chunks g rest sequence r behind w
            (omega (arith, room)) whole held wr space (λ e. other (omega (arith, e))))
      ∙ ap (λ n. some (err (recover_at 8 (sequence_gap sequence n)))) same
