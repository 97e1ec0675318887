-- ===== src/Directory/Runs.antt =====
-- A directory with two segments, a snapshot and a temporary file, and the theorems at it.
use go.Prelude.{◌≡◌, refl, List, [], ◌∷◌, ◌++◌, none, false, true}
use go.Wire.{Bytes, bytes_eq}
use go.Errors.{ok}
use go.Names.{
  has_suffix, segment_suffix, snapshot_suffix, trim_suffix, parse_digits, parse_sequence_filename,
  parse_segment_filename, parse_snapshot_filename,
}
use go.Directory.{
  File, SequenceFile, is_listed, is_seen, insert_file, sort_files, collect, list_files,
  list_segments, list_snapshots, segment_temporary, has_prefix, is_temporary, remove_file,
  remove_temporary_from, remove_temporary_files, remove_snapshots_from, remove_other_snapshots,
  delete_from, delete_segments_before,
}
use go.Directory.Listing.{Lists, list_segments-Lists}
use go.Directory.Leftovers.{Without, IsLeftover, IsOtherSnapshot, remove_temporary_files-Without}
use go.Directory.Pruning.{Pruned, delete_segments_before-Pruned}

abbrev file_named : Bytes → File
file_named name = record { name = name; is_dir = false; is_special = false; contents = [] }

-- "00000005.seg", "00000001.seg", "00000004.snap" and ".segment-7"
abbrev eight : Bytes → Bytes
eight last = 48 ∷ 48 ∷ 48 ∷ 48 ∷ 48 ∷ 48 ∷ 48 ∷ last

abbrev late : File
late = file_named (eight (53 ∷ segment_suffix))

abbrev early : File
early = file_named (eight (49 ∷ segment_suffix))

abbrev snapshot : File
snapshot = file_named (eight (52 ∷ snapshot_suffix))

abbrev temporary : File
temporary = file_named (segment_temporary ++ 55 ∷ [])

abbrev directory : List File
directory = late ∷ early ∷ snapshot ∷ temporary ∷ []

program : Unit {0}
unfolding bytes_eq has_suffix trim_suffix parse_digits parse_sequence_filename
    parse_segment_filename parse_snapshot_filename is_listed is_seen insert_file sort_files collect
    list_files list_segments list_snapshots has_prefix is_temporary remove_file
    remove_temporary_from remove_temporary_files remove_snapshots_from remove_other_snapshots
    delete_from delete_segments_before
program = tt

abbrev segments : List SequenceFile
segments = (record { file = early; sequence = 1 }) ∷ (record { file = late; sequence = 5 }) ∷ []

listing_run : list_segments none directory ≡ ok segments
unfolding program
listing_run = refl

pruning_run : delete_segments_before 4 none (λ _. none) directory ≡ (directory, ok tt)
unfolding program
pruning_run = refl

pruning_run_far :
    delete_segments_before 5 none (λ _. none) directory ≡ (late ∷ snapshot ∷ temporary ∷ [], ok tt)
unfolding program
pruning_run_far = refl

list_segments-Lists_example :
    Lists segment_suffix parse_segment_filename directory (list_segments none directory)
    × Lists snapshot_suffix parse_snapshot_filename directory (list_snapshots none directory)
list_segments-Lists_example = list_segments-Lists directory

delete_segments_before-Pruned_example :
    Pruned 5 segments directory (delete_segments_before 5 none (λ _. none) directory)
delete_segments_before-Pruned_example =
    delete_segments_before-Pruned 5 (λ _. none) directory segments listing_run

abbrev link : File
link = record {
  name = segment_temporary ++ 56 ∷ [];
  is_dir = false;
  is_special = true;
  contents = [];
}

-- A link with the name of a temporary file stays, and so does "LOCK".
abbrev with_link : List File
with_link = link ∷ file_named (76 ∷ 79 ∷ 67 ∷ 75 ∷ []) ∷ snapshot ∷ temporary ∷ []

cleanup_run :
    remove_temporary_files none (λ _. none) with_link
    ≡ (link ∷ file_named (76 ∷ 79 ∷ 67 ∷ 75 ∷ []) ∷ snapshot ∷ [], ok tt)
unfolding program
cleanup_run = refl

remove_temporary_files-Without_example :
    ((left : List File) × (remove_temporary_files none (λ _. none) with_link ≡ (left, ok tt))
      × Without IsLeftover with_link left)
    × ((left : List File) × (remove_other_snapshots snapshot.name none (λ _. none) with_link
          ≡ (left, ok tt))
        × Without (IsOtherSnapshot snapshot.name) with_link left)
unfolding program
remove_temporary_files-Without_example =
    remove_temporary_files-Without with_link (λ _. none) snapshot.name
      ((refl, (refl, (refl, tt))), ((refl, (refl, tt)), ((refl, tt), (tt, tt)))) (λ _. refl)
      ((λ h. cc), ((λ h. cc), ((λ h. (4, refl)), ((λ h. cc), tt))))
