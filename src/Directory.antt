-- ===== src/Directory.antt =====
-- The directory of a store as cache/ reads and cleans it: `listSegments` of cache/recovery.go,
-- `listSnapshots`, `removeOtherSnapshots` and `deleteSegmentsBefore` of cache/snapshot.go, and
-- `removeTemporaryFiles` of cache/store.go. A path stands for the file that it names.
pub mod Listing
pub mod Cleanup
pub mod Leftovers
pub mod Pruning
mod Runs
use go.Prelude.{ℕ, ◌+◌, Bool, true, false, not, ◌&&◌, ◌||◌, ltb, leb, ◌==◌, if◌then◌else◌}
use go.Prelude.{List, [], ◌∷◌, ◌++◌, Option, none, some, length, take}
use go.Wire.{Bytes, bytes_eq}
use go.Errors.{Result, ok, err, ◌>>=◌, ◌>>◌, invalid_name, duplicate_sequence, io_failed, os}
use go.Names.{
  has_suffix, segment_suffix, snapshot_suffix, parse_segment_filename, parse_snapshot_filename,
}

-- An entry of `os.ReadDir`; `is_special` is `item.Type()&os.ModeType != 0`, which a directory has too.
pub record File : Type 0 where
  pub name : Bytes
  pub is_dir : Bool
  pub is_special : Bool
  pub contents : Bytes

-- `segmentFile` and `snapshotFile`
pub record SequenceFile : Type 0 where
  pub file : File
  pub sequence : ℕ

abbrev pub read_dir : Option ℕ → List File → Result (List File)
read_dir none entries = ok entries
read_dir (some n) entries = err (io_failed (os n))

unfoldable pub is_listed : Bytes → File → Bool
is_listed suffix f = not f.is_dir && has_suffix f.name suffix

-- Whether `seen` holds a sequence number.
unfoldable pub is_seen : ℕ → List SequenceFile → Bool
is_seen sequence [] = false
is_seen sequence (f ∷ found) = f.sequence == sequence || is_seen sequence found

-- `sort.Slice` by the sequence number.
unfoldable pub insert_file : SequenceFile → List SequenceFile → List SequenceFile
insert_file f [] = f ∷ []
insert_file f (g ∷ files) =
    if ltb g.sequence f.sequence then g ∷ insert_file f files else f ∷ g ∷ files

unfoldable pub sort_files : List SequenceFile → List SequenceFile
sort_files [] = []
sort_files (f ∷ files) = insert_file f (sort_files files)

-- The loop over the entries; `found` is what it has appended.
unfoldable pub collect :
    Bytes → (Bytes → Option ℕ) → List SequenceFile → List File → Result (List SequenceFile)
collect suffix parse found [] = ok found
collect suffix parse found (f ∷ entries) = elim (is_listed suffix f) [
  | false ↦ collect suffix parse found entries
  | true ↦ elim (parse f.name) [
    | none ↦ err (invalid_name f.name)
    | some n ↦ elim (is_seen n found) [
      | true ↦ err (duplicate_sequence n)
      | false ↦ collect suffix parse (found ++ (record { file = f; sequence = n }) ∷ []) entries
    ]
  ]
]

unfoldable pub list_files :
    Bytes → (Bytes → Option ℕ) → Option ℕ → List File → Result (List SequenceFile)
list_files suffix parse fault directory = do
  entries ← read_dir fault directory
  found ← collect suffix parse [] entries
  ok (sort_files found)

unfoldable pub list_segments : Option ℕ → List File → Result (List SequenceFile)
unfolding list_files
list_segments fault directory = list_files segment_suffix parse_segment_filename fault directory

unfoldable pub list_snapshots : Option ℕ → List File → Result (List SequenceFile)
unfolding list_files
list_snapshots fault directory = list_files snapshot_suffix parse_snapshot_filename fault directory

-- `files.remove(path)`, as a removal from the directory.
unfoldable pub remove_file : Bytes → List File → List File
remove_file name [] = []
remove_file name (f ∷ directory) =
    let rest = remove_file name directory in if bytes_eq f.name name then rest else f ∷ rest

-- The state of a loop that removes files: the directory, and the error that ended the loop, if any.
abbrev pub Removal : Type 0
Removal = List File × Result (Unit {0})

-- `strings.HasPrefix`
unfoldable pub has_prefix : Bytes → Bytes → Bool
has_prefix name prefix =
    leb (length prefix) (length name) && bytes_eq (take (length prefix) name) prefix

-- ".segment-" and ".snapshot-"
abbrev pub segment_temporary : Bytes
segment_temporary = 46 ∷ 115 ∷ 101 ∷ 103 ∷ 109 ∷ 101 ∷ 110 ∷ 116 ∷ 45 ∷ []

abbrev pub snapshot_temporary : Bytes
snapshot_temporary = 46 ∷ 115 ∷ 110 ∷ 97 ∷ 112 ∷ 115 ∷ 104 ∷ 111 ∷ 116 ∷ 45 ∷ []

unfoldable pub is_temporary : File → Bool
unfolding has_prefix
is_temporary f =
    not (f.is_dir || f.is_special)
    && (has_prefix f.name segment_temporary || has_prefix f.name snapshot_temporary)

-- The loops run over the entries that were read and change the directory. `refuses` is the error of
-- a removal by name, if it fails.
unfoldable pub remove_temporary_from : (Bytes → Option ℕ) → List File → List File → Removal
remove_temporary_from refuses directory [] = (directory, ok tt)
remove_temporary_from refuses directory (f ∷ entries) = elim (is_temporary f) [
  | false ↦ remove_temporary_from refuses directory entries
  | true ↦ elim (refuses f.name) [
    | some n ↦ (directory, err (io_failed (os n)))
    | none ↦ remove_temporary_from refuses (remove_file f.name directory) entries
  ]
]

unfoldable pub remove_temporary_files : Option ℕ → (Bytes → Option ℕ) → List File → Removal
unfolding remove_temporary_from
remove_temporary_files (some n) refuses directory = (directory, err (io_failed (os n)))
remove_temporary_files none refuses directory = remove_temporary_from refuses directory directory

unfoldable pub remove_snapshots_from : Bytes → (Bytes → Option ℕ) → List File → List File → Removal
remove_snapshots_from retained refuses directory [] = (directory, ok tt)
remove_snapshots_from retained refuses directory (f ∷ entries) =
    elim (is_listed snapshot_suffix f) [
      | false ↦ remove_snapshots_from retained refuses directory entries
      | true ↦ elim (parse_snapshot_filename f.name) [
        | none ↦ (directory, err (invalid_name f.name))
        | some n ↦ elim (bytes_eq f.name retained) [
          | true ↦ remove_snapshots_from retained refuses directory entries
          | false ↦ elim (refuses f.name) [
            | some e ↦ (directory, err (io_failed (os e)))
            | none ↦ remove_snapshots_from retained refuses (remove_file f.name directory) entries
          ]
        ]
      ]
    ]

unfoldable pub remove_other_snapshots : Bytes → Option ℕ → (Bytes → Option ℕ) → List File → Removal
unfolding remove_snapshots_from
remove_other_snapshots retained (some n) refuses directory = (directory, err (io_failed (os n)))
remove_other_snapshots retained none refuses directory =
    remove_snapshots_from retained refuses directory directory

-- The loop over the sorted segments: one is superseded if the next starts at or below `lowest`.
unfoldable pub delete_from : ℕ → (Bytes → Option ℕ) → List File → List SequenceFile → Removal
delete_from lowest refuses directory [] = (directory, ok tt)
delete_from lowest refuses directory (f ∷ []) = (directory, ok tt)
delete_from lowest refuses directory (f ∷ g ∷ segments) = elim (ltb lowest g.sequence) [
  | true ↦ (directory, ok tt)
  | false ↦ elim (refuses f.file.name) [
    | some n ↦ (directory, err (io_failed (os n)))
    | none ↦ delete_from lowest refuses (remove_file f.file.name directory) (g ∷ segments)
  ]
]

unfoldable pub delete_segments_before : ℕ → Option ℕ → (Bytes → Option ℕ) → List File → Removal
unfolding delete_from
delete_segments_before lowest fault refuses directory = elim (list_segments fault directory) [
  | err e ↦ (directory, err e)
  | ok segments ↦ delete_from lowest refuses directory segments
]
