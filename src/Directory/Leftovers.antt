-- ===== src/Directory/Leftovers.antt =====
-- Which files the removals take out of the directory.
use go.Prelude.{
  ℕ, ◌≡◌, refl, sym, ap, ◌∙◌, ◌⊎◌, arith, Bool, true, false, not, ◌&&◌, ◌||◌, ◌-◌, ◌+◌, Bool-cases,
  inl, inr,
}
use go.Prelude.{
  List, [], ◌∷◌, ◌++◌, Option, none, All, length, length-append, take, drop, take-append-drop,
  take-append, drop-append,
}
use go.Wire.{Bytes, bytes_eq, bytes_eq_iff}
use go.Errors.{ok}
use go.Names.{has_suffix, snapshot_suffix, parse_snapshot_filename}
use go.Directory.{
  has_prefix, segment_temporary, snapshot_temporary, File, is_listed, is_temporary,
  remove_temporary_files, remove_other_snapshots,
}
use go.Directory.Listing.{IsNamed}
use go.Directory.Cleanup.{
  OneName, retain, remove_temporary_from-retain, remove_snapshots_from-retain,
}

-- A name that begins with `prefix`.
abbrev pub Begins : Bytes → Bytes → Type 0
Begins prefix name = (rest : Bytes) × (name ≡ prefix ++ rest)

-- What the program may have left behind: an ordinary file, no directory, link or device, with the
-- name of a segment or snapshot that was not finished.
abbrev pub IsLeftover : File → Type 0
IsLeftover f =
    (f.is_dir ≡ false)
    × (f.is_special ≡ false)
    × (Begins segment_temporary f.name ⊎ Begins snapshot_temporary f.name)

has_prefix-Begins : (name prefix : Bytes) → has_prefix name prefix ≡ true → Begins prefix name
unfolding has_prefix
has_prefix-Begins name prefix h =
    let n = length prefix in
    let same : bytes_eq (take n name) prefix ≡ true = ground (arith, h) in
    (
      drop n name,
      sym (take-append-drop n name) ∙ ap (λ b. b ++ drop n name) ((bytes_eq_iff _ _).0 same),
    )

Begins-has_prefix : (name prefix : Bytes) → Begins prefix name → has_prefix name prefix ≡ true
unfolding has_prefix
Begins-has_prefix name prefix (rest, e) =
    let n = length prefix in
    let front : take n name ≡ prefix = ap (take n) e ∙ take-append n prefix rest refl in
    let same : bytes_eq (take n name) prefix ≡ true = (bytes_eq_iff _ _).1 front in
    let long = length-append prefix rest in
    let size = ap length e in ground (arith, same, long, size)

is_temporary-IsLeftover : (f : File) → is_temporary f ≡ true → IsLeftover f
unfolding is_temporary
is_temporary-IsLeftover f h = (
  ground (arith, h),
  ground (arith, h),
  elim (Bool-cases (has_prefix f.name segment_temporary)) [
    | inl segment ↦ inl (has_prefix-Begins f.name segment_temporary segment)
    | inr other ↦ inr (has_prefix-Begins f.name snapshot_temporary (ground (arith, h, other)))
  ],
)

IsLeftover-is_temporary : (f : File) → IsLeftover f → is_temporary f ≡ true
unfolding is_temporary
IsLeftover-is_temporary f (file, ordinary, inl b) =
    ground (arith, file, ordinary, Begins-has_prefix f.name segment_temporary b)
IsLeftover-is_temporary f (file, ordinary, inr b) =
    ground (arith, file, ordinary, Begins-has_prefix f.name snapshot_temporary b)

-- A name that ends in `suffix`.
abbrev pub Ends : Bytes → Bytes → Type 0
Ends suffix name = (stem : Bytes) × (name ≡ stem ++ suffix)

-- A snapshot that is not the retained one.
abbrev pub IsOtherSnapshot : Bytes → File → Type 0
IsOtherSnapshot retained f =
    (f.is_dir ≡ false) × Ends snapshot_suffix f.name × ¬ (f.name ≡ retained)

has_suffix-Ends : (name suffix : Bytes) → has_suffix name suffix ≡ true → Ends suffix name
unfolding has_suffix
has_suffix-Ends name suffix h =
    let n = length name - length suffix in
    let same : bytes_eq (drop n name) suffix ≡ true = ground (arith, h) in
    (
      take n name,
      sym (take-append-drop n name) ∙ ap (λ b. take n name ++ b) ((bytes_eq_iff _ _).0 same),
    )

Ends-has_suffix : (name suffix : Bytes) → Ends suffix name → has_suffix name suffix ≡ true
unfolding has_suffix
Ends-has_suffix name suffix (stem, e) =
    let n = length name - length suffix in
    let size : length name ≡ length stem + length suffix =
      ap length e ∙ length-append stem suffix in
    let back : drop n name ≡ suffix =
      ap (drop n) e ∙ drop-append n stem suffix (omega (arith, size)) in
    let same : bytes_eq (drop n name) suffix ≡ true = (bytes_eq_iff _ _).1 back in
    ground (arith, same, size)

abbrev drops_snapshot : Bytes → File → Bool
drops_snapshot retained f = is_listed snapshot_suffix f && not (bytes_eq f.name retained)

drops_snapshot-IsOtherSnapshot :
    (retained : Bytes) (f : File) → drops_snapshot retained f ≡ true → IsOtherSnapshot retained f
unfolding is_listed
drops_snapshot-IsOtherSnapshot retained f h = (
  ground (arith, h),
  has_suffix-Ends f.name snapshot_suffix (ground (arith, h)),
  λ e. let same = (bytes_eq_iff f.name retained).1 e in ground (arith, h, same),
)

IsOtherSnapshot-drops_snapshot :
    (retained : Bytes) (f : File) → IsOtherSnapshot retained f → drops_snapshot retained f ≡ true
unfolding is_listed
IsOtherSnapshot-drops_snapshot retained f (file, ends, differs) =
    elim (Bool-cases (bytes_eq f.name retained)) [
      | inl same ↦ absurd (differs ((bytes_eq_iff f.name retained).0 same))
      | inr other ↦ ground (arith, file, Ends-has_suffix f.name snapshot_suffix ends, other)
    ]

-- `left` is `files` without those that satisfy `P`, in their order.
abbrev pub Without : (File → Type 0) → List File → List File → Type 0
Without P [] left = left ≡ []
Without P (f ∷ files) left =
    (P f × Without P files left)
    ⊎ ((¬ P f) × (rest : List File) × (left ≡ f ∷ rest) × Without P files rest)

Without-retain :
    (P : File → Type 0) (drops : File → Bool)
    → ((f : File) → drops f ≡ true → P f)
    → ((f : File) → P f → drops f ≡ true)
    → (files : List File) → Without P files (retain (λ f. not (drops f)) files)
Without-retain P drops sound complete [] = refl
Without-retain P drops sound complete (f ∷ files) = elim (Bool-cases (drops f)) [
  | inl gone ↦ inl (sound f gone, rw gone (Without-retain P drops sound complete files))
  | inr stays ↦ inr (
    λ p. let gone = complete f p in cc,
    retain (λ g. not (drops g)) files,
    rw stays refl,
    Without-retain P drops sound complete files,
  )
]

-- In a directory where no two entries have the same name and no removal fails, removeTemporaryFiles
-- removes exactly the ordinary files whose names begin with ".segment-" or ".snapshot-", and no
-- directory, link or device; and removeOtherSnapshots, where every snapshot has a proper name, exactly
-- the snapshots but the retained one. What is left keeps its order.
pub remove_temporary_files-Without :
    (directory : List File) (refuses : Bytes → Option ℕ) (retained : Bytes)
    → OneName directory
    → ((name : Bytes) → refuses name ≡ none)
    → All (IsNamed snapshot_suffix parse_snapshot_filename) directory
    → ((left : List File) × (remove_temporary_files none refuses directory ≡ (left, ok tt))
        × Without IsLeftover directory left)
      × ((left : List File) × (remove_other_snapshots retained none refuses directory
            ≡ (left, ok tt))
          × Without (IsOtherSnapshot retained) directory left)
unfolding remove_temporary_files remove_other_snapshots
remove_temporary_files-Without directory refuses retained h willing named =
    let same : (f : File)
        → (not (is_listed snapshot_suffix f) || bytes_eq f.name retained)
          ≡ not (drops_snapshot retained f) =
      λ f. ground arith in
    (
      (
        retain (λ f. not (is_temporary f)) directory,
        remove_temporary_from-retain refuses willing [] directory h,
        Without-retain IsLeftover is_temporary is_temporary-IsLeftover IsLeftover-is_temporary
            directory,
      ),
      (
        retain (λ f. not (drops_snapshot retained f)) directory,
        remove_snapshots_from-retain refuses willing retained [] directory h named
            ∙ ap (λ k. (retain k directory, ok tt)) (λ i f. same f i),
        Without-retain (IsOtherSnapshot retained) (drops_snapshot retained)
            (drops_snapshot-IsOtherSnapshot retained) (IsOtherSnapshot-drops_snapshot retained)
            directory,
      ),
    )
