-- ===== src/Names/RoundTrip.antt =====
-- The names of files, printed and read back.
use go.Prelude.{
  ℕ, zero, suc, ◌+◌, ◌-◌, ◌*◌, ◌/◌, ◌%◌, ◌^◌, ◌<◌, ◌≡◌, refl, sym, ap, ◌∙◌, arith, Bool, true,
  false, not, ◌&&◌,
}
use go.Prelude.{
  [], ◌∷◌, ◌++◌, none, some, length, length-append, append_assoc, append-nil, take-append,
  drop-append, leb, ◌==◌, if◌then◌else◌,
}
use go.Wire.{Bytes, bytes_eq_iff}
use go.Names.{
  decimal, segment_suffix, snapshot_suffix, segment_name, snapshot_name, has_suffix, trim_suffix,
  parse_digits, parse_sequence_filename, parse_segment_filename, parse_snapshot_filename,
}

abbrev power : ℕ → ℕ
power zero = 1
power (suc width) = 10 * power width

length-decimal : (width n : ℕ) → length (decimal width n) ≡ width
unfolding decimal
length-decimal zero n = refl
length-decimal (suc width) n = omega (
  arith,
  length-append (decimal width (n / 10)) ((48 + n % 10) ∷ []),
  length-decimal width (n / 10),
)

digit :
    (n : ℕ) (rest : Bytes)
    → n < 2 ^ 64
    → parse_digits (n / 10) ((48 + n % 10) ∷ rest) ≡ parse_digits n rest
unfolding parse_digits
digit n rest h =
    let e : n / 10 * 10 + (48 + n % 10 - 48) ≡ n = omega arith in
    ground (arith, ap (λ s. parse_digits s rest) e)

parse_digits-decimal :
    (width n : ℕ) (rest : Bytes)
    → n < power width
    → n < 2 ^ 64
    → parse_digits 0 (decimal width n ++ rest) ≡ parse_digits n rest
unfolding decimal
parse_digits-decimal zero n rest h k =
    let e : 0 ≡ n = omega (arith, h) in ap (λ s. parse_digits s rest) e
parse_digits-decimal (suc width) n rest h k =
    ap (parse_digits 0) (append_assoc (decimal width (n / 10)) ((48 + n % 10) ∷ []) rest)
    ∙ parse_digits-decimal width (n / 10) ((48 + n % 10) ∷ rest) (omega (arith, h))
        (omega (arith, k))
    ∙ digit n rest k

trim_suffix-append :
    (stem suffix : Bytes)
    → (has_suffix (stem ++ suffix) suffix ≡ true) × (trim_suffix (stem ++ suffix) suffix ≡ stem)
unfolding trim_suffix has_suffix
trim_suffix-append stem suffix =
    let same = (bytes_eq_iff suffix suffix).1 refl in
    let cut : length (stem ++ suffix) - length suffix ≡ length stem =
      omega (arith, length-append stem suffix) in
    let fits : leb (length suffix) (length (stem ++ suffix)) ≡ true =
      ground (arith, length-append stem suffix) in
    let behind = drop-append (length stem) stem suffix refl in
    (
      simp (cut, fits, behind, same) refl,
      simp (cut, fits, behind, take-append (length stem) stem suffix refl, same) refl,
    )

stem-parsed : (n : ℕ) → n < 2 ^ 64 → parse_digits 0 (decimal 20 n) ≡ some n
unfolding parse_digits
stem-parsed n h =
    ap (parse_digits 0) (sym (append-nil (decimal 20 n)))
    ∙ parse_digits-decimal 20 n [] (omega (arith, h)) h

parse_sequence_filename-decimal :
    (n : ℕ) (suffix : Bytes) (allow_zero : Bool)
    → n < 2 ^ 64
    → parse_sequence_filename (decimal 20 n ++ suffix) suffix allow_zero
      ≡ (if not allow_zero && (n == 0) then none else some n)
unfolding parse_sequence_filename
parse_sequence_filename-decimal n suffix allow_zero h =
    simp ((trim_suffix-append (decimal 20 n) suffix).1, length-decimal 20 n, stem-parsed n h) refl

-- For every 64-bit sequence number: the name of a segment has the suffix that the listing looks for
-- and is read back as the number, except that 0 is refused; the name of a snapshot has its suffix
-- and is read back as the number, 0 included.
pub parse_filename-name :
    (n : ℕ)
    → n < 2 ^ 64
    → (has_suffix (segment_name n) segment_suffix ≡ true)
      × (parse_segment_filename (segment_name n) ≡ (if n == 0 then none else some n))
      × (has_suffix (snapshot_name n) snapshot_suffix ≡ true)
      × (parse_snapshot_filename (snapshot_name n) ≡ some n)
unfolding segment_name snapshot_name parse_segment_filename parse_snapshot_filename
parse_filename-name n h = (
  (trim_suffix-append (decimal 20 n) segment_suffix).0,
  parse_sequence_filename-decimal n segment_suffix false h,
  (trim_suffix-append (decimal 20 n) snapshot_suffix).0,
  parse_sequence_filename-decimal n snapshot_suffix true h,
)
