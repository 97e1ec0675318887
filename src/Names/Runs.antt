-- ===== src/Names/Runs.antt =====
-- The names of the segment and of the snapshot 7, and the round trips at this number.
use go.Prelude.{◌≡◌, refl, arith, ◌∷◌, ◌++◌, none, some, replicate, true}
use go.Wire.{bytes_eq}
use go.Names.{
  decimal, segment_suffix, snapshot_suffix, segment_name, snapshot_name, has_suffix, trim_suffix,
  parse_digits, parse_sequence_filename, parse_segment_filename, parse_snapshot_filename,
}
use go.Names.RoundTrip.{parse_filename-name}

segment_name_run : segment_name 7 ≡ replicate 19 48 ++ 55 ∷ segment_suffix
unfolding segment_name decimal
segment_name_run = refl

-- "00000012.seg", the short form, and "12.seg"
short_run : parse_segment_filename (replicate 6 48 ++ 49 ∷ 50 ∷ segment_suffix) ≡ some 12
unfolding parse_segment_filename parse_sequence_filename trim_suffix has_suffix bytes_eq
    parse_digits
short_run = refl

refused_run : parse_segment_filename (49 ∷ 50 ∷ segment_suffix) ≡ none
unfolding parse_segment_filename parse_sequence_filename trim_suffix has_suffix bytes_eq
    parse_digits
refused_run = refl

parse_filename-name_example :
    (has_suffix (segment_name 7) segment_suffix ≡ true)
    × (parse_segment_filename (segment_name 7) ≡ some 7)
    × (has_suffix (snapshot_name 7) snapshot_suffix ≡ true)
    × (parse_snapshot_filename (snapshot_name 7) ≡ some 7)
parse_filename-name_example = parse_filename-name 7 (omega arith)
