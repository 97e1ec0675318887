-- ===== src/Names.antt =====
-- The names of segment and snapshot files: `segmentName` of cache/wal.go, `snapshotName` of
-- cache/snapshot.go and `parseSequenceFilename` of cache/recovery.go.
pub mod RoundTrip
mod Runs
use go.Prelude.{ℕ, zero, suc, ◌+◌, ◌-◌, ◌*◌, ◌/◌, ◌%◌, ◌^◌, Bool, true, false, ◌&&◌, ◌||◌, not}
use go.Prelude.{
  List, [], ◌∷◌, ◌++◌, Option, none, some, length, take, drop, ltb, leb, ◌==◌, if◌then◌else◌,
}
use go.Wire.{Bytes, bytes_eq}

-- The last `width` decimal digits, as `%020d` writes them of a number that has no more.
unfoldable pub decimal : ℕ → ℕ → Bytes
decimal zero n = []
decimal (suc width) n = decimal width (n / 10) ++ (48 + n % 10) ∷ []

-- ".seg" and ".snap"
abbrev pub segment_suffix : Bytes
segment_suffix = 46 ∷ 115 ∷ 101 ∷ 103 ∷ []

abbrev pub snapshot_suffix : Bytes
snapshot_suffix = 46 ∷ 115 ∷ 110 ∷ 97 ∷ 112 ∷ []

unfoldable pub segment_name : ℕ → Bytes
segment_name first_sequence = decimal 20 first_sequence ++ segment_suffix

unfoldable pub snapshot_name : ℕ → Bytes
snapshot_name lowest_sequence = decimal 20 lowest_sequence ++ snapshot_suffix

-- `strings.HasSuffix`
unfoldable pub has_suffix : Bytes → Bytes → Bool
has_suffix name suffix =
    leb (length suffix) (length name) && bytes_eq (drop (length name - length suffix) name) suffix

-- `strings.TrimSuffix`
unfoldable pub trim_suffix : Bytes → Bytes → Bytes
trim_suffix name suffix =
    if has_suffix name suffix then take (length name - length suffix) name else name

-- `strconv.ParseUint` in base 10 and 64 bits, behind the digits whose value is `sum`.
unfoldable pub parse_digits : ℕ → Bytes → Option ℕ
parse_digits sum [] = some sum
parse_digits sum (b ∷ bs) =
    let rest = parse_digits (sum * 10 + (b - 48)) bs in
    if ltb b 48 || ltb 57 b || leb (2 ^ 64) (sum * 10 + (b - 48)) then none else rest

-- `none`: the name is refused as invalid. A stem that is not refused for its length is not empty.
unfoldable pub parse_sequence_filename : Bytes → Bytes → Bool → Option ℕ
parse_sequence_filename name suffix allow_zero =
    let stem = trim_suffix name suffix in
    if not (length stem == 8) && not (length stem == 20)
    then none
    else (elim (parse_digits 0 stem) [
      | none ↦ none
      | some sequence ↦ if not allow_zero && (sequence == 0) then none else some sequence
    ])

unfoldable pub parse_segment_filename : Bytes → Option ℕ
parse_segment_filename name = parse_sequence_filename name segment_suffix false

unfoldable pub parse_snapshot_filename : Bytes → Option ℕ
parse_snapshot_filename name = parse_sequence_filename name snapshot_suffix true
