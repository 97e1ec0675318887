-- ===== src/Recovery/Runs/Hole.antt =====
-- A log without its second segment.
use go.Prelude.{◌≡◌, refl, arith}
use go.Prelude.{List, [], ◌∷◌, ◌++◌, none, some}
use go.Errors.{ok, err, recover_at, sequence_gap}
use go.Names.{segment_suffix}
use go.Record.{encode_record}
use go.Store.{new_store_state}
use go.Segment.{segment_header}
use go.Segment.Crc.{crc32c, crc32c-IsChecksum}
use go.Directory.{File, SequenceFile, list_segments, list_snapshots}
use go.Recovery.{recover_log}
use go.Recovery.Chain.{no_recovery_faults}
use go.Recovery.Gaps.{recover_log-missing}
use go.Recovery.Runs.{
  set_a, delete_a, numbered, segment_a, program, summary, set_a-IsWritable, delete_a-IsWritable,
}

abbrev third : SequenceFile
third =
    numbered 3 segment_suffix (segment_header ++ (encode_record crc32c 3 delete_a ++ 1 ∷ 2 ∷ []))

abbrev holed : List File
holed = third.file ∷ segment_a.file ∷ []

holed_snapshots : list_snapshots none holed ≡ ok []
unfolding program
holed_snapshots = refl

holed_listed : list_segments none holed ≡ ok (segment_a ∷ [] ++ third ∷ [])
unfolding program
holed_listed = refl

recover_log-missing_example :
    recover_log crc32c no_recovery_faults holed (new_store_state 2 1000)
    ≡ some (err (recover_at 8 (sequence_gap 3 1)))
recover_log-missing_example =
    recover_log-missing crc32c crc32c-IsChecksum holed segment_a [] ((set_a ∷ []) ∷ []) third [] 3
      delete_a (1 ∷ 2 ∷ []) (new_store_state 2 1000) holed_snapshots holed_listed (refl, refl, tt)
      refl (λ e. ground (arith, e)) (set_a-IsWritable, tt) delete_a-IsWritable (omega arith)
      (omega arith)

-- A later segment without a record is taken as the end of the log, whatever its number: the log ends
-- at 1 and its segment is the one numbered 9.
abbrev trailing : List File
trailing = (numbered 9 segment_suffix segment_header).file ∷ segment_a.file ∷ []

trailing_run :
    summary (recover_log crc32c no_recovery_faults trailing (new_store_state 2 1000))
    ≡ 1 ∷ 8 ∷ 9 ∷ 1 ∷ []
unfolding program
trailing_run = refl
