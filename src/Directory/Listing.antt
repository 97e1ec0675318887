-- ===== src/Directory/Listing.antt =====
-- What `listSegments` and `listSnapshots` return.
use go.Prelude.{
  ℕ, ◌<◌, ◌≡◌, refl, sym, ap, ◌∙◌, arith, Bool, true, false, ◌||◌, ◌==◌, ltb, dec_lt, Bool-cases,
  inl, inr, subst, lt→ltb, ge→ltb,
}
use go.Prelude.{List, [], ◌∷◌, ◌++◌, Option, none, some, append-nil, append_assoc, All}
use mathlib.Core.List.{Perm}
use mathlib.Core.List.Perm
use go.Wire.{Bytes}
use go.Errors.{Result, ok, err, ◌>>=◌, invalid_name, duplicate_sequence}
use go.Names.{segment_suffix, snapshot_suffix, parse_segment_filename, parse_snapshot_filename}
use go.Directory.{
  File, SequenceFile, is_listed, is_seen, insert_file, sort_files, collect, list_files,
  list_segments, list_snapshots,
}

-- The numbers ascend, so none stands twice.
abbrev pub Below : ℕ → SequenceFile → Type 0
Below n f = n < f.sequence

abbrev pub Ascending : List SequenceFile → Type 0
Ascending [] = Unit
Ascending (f ∷ files) = All (Below f.sequence) files × Ascending files

abbrev pub Distinct : List SequenceFile → Type 0
Distinct [] = Unit
Distinct (f ∷ files) = (is_seen f.sequence files ≡ false) × Distinct files

module _ (suffix : Bytes) (parse : Bytes → Option ℕ) where
  -- The entries that count, with the numbers in their names.
  abbrev pub numbered : List File → List SequenceFile
  numbered [] = []
  numbered (f ∷ entries) = elim (is_listed suffix f) [
    | false ↦ numbered entries
    | true ↦ elim (parse f.name) [
      | none ↦ numbered entries
      | some n ↦ (record { file = f; sequence = n }) ∷ numbered entries
    ]
  ]

  abbrev pub IsNamed : File → Type 0
  IsNamed f = is_listed suffix f ≡ true → (n : ℕ) × (parse f.name ≡ some n)

  abbrev Collected : List SequenceFile → List File → Result (List SequenceFile) → Type 0
  Collected found entries (ok out) =
      (out ≡ found ++ numbered entries) × All IsNamed entries × Distinct out
  Collected found entries (err e) = ¬ (All IsNamed entries × Distinct (found ++ numbered entries))

is_seen-append :
    (n : ℕ) (xs ys : List SequenceFile) → is_seen n (xs ++ ys) ≡ (is_seen n xs || is_seen n ys)
unfolding is_seen
is_seen-append n [] ys = refl
is_seen-append n (x ∷ xs) ys = ground (arith, is_seen-append n xs ys)

Distinct-snoc :
    (found : List SequenceFile) (f : SequenceFile)
    → Distinct found
    → is_seen f.sequence found ≡ false
    → Distinct (found ++ f ∷ [])
unfolding is_seen
Distinct-snoc [] f d h = (refl, tt)
Distinct-snoc (g ∷ found) f (new, d) h = (
  ground (arith, is_seen-append g.sequence found (f ∷ [])),
  Distinct-snoc found f d (ground arith),
)

seen_twice :
    (found rest : List SequenceFile) (f : SequenceFile)
    → is_seen f.sequence found ≡ true
    → ¬ Distinct (found ++ f ∷ rest)
unfolding is_seen
seen_twice [] rest f h d = cc
seen_twice (g ∷ found) rest f h (new, d) = elim (Bool-cases (is_seen f.sequence found)) [
  | inl again ↦ seen_twice found rest f again d
  | inr no_more ↦ ground (arith, is_seen-append g.sequence found (f ∷ rest))
]

module _ (suffix : Bytes) (parse : Bytes → Option ℕ) (f : File) (entries : List File) where
  abbrev numbered_file : ℕ → SequenceFile
  numbered_file n = record { file = f; sequence = n }

  numbered-skip :
      is_listed suffix f ≡ false
      → numbered suffix parse (f ∷ entries) ≡ numbered suffix parse entries
  numbered-skip l = rw (l, numbered)

  numbered-take :
      (n : ℕ)
      → is_listed suffix f ≡ true
      → parse f.name ≡ some n
      → numbered suffix parse (f ∷ entries) ≡ numbered_file n ∷ numbered suffix parse entries
  numbered-take n l p = rw (l, numbered) (rw p)

  Collected-skip :
      (found : List SequenceFile) (r : Result (List SequenceFile))
      → is_listed suffix f ≡ false
      → Collected suffix parse found entries r
      → Collected suffix parse found (f ∷ entries) r
  Collected-skip found (ok out) l (e, named, d) =
      (e ∙ ap (λ t. found ++ t) (sym (numbered-skip l)), (λ h. cc, named), d)
  Collected-skip found (err e) l refused =
      λ h. refused (h.0.1, subst (λ t. Distinct (found ++ t)) (numbered-skip l) h.1)

  Collected-take :
      (n : ℕ) (found : List SequenceFile) (r : Result (List SequenceFile))
      → is_listed suffix f ≡ true
      → parse f.name ≡ some n
      → Collected suffix parse (found ++ numbered_file n ∷ []) entries r
      → Collected suffix parse found (f ∷ entries) r
  Collected-take n found r l p c =
      let moved =
        append_assoc found (numbered_file n ∷ []) (numbered suffix parse entries)
        ∙ ap (λ t. found ++ t) (sym (numbered-take n l p)) in
      go r moved c
    where
      go :
          (r : Result (List SequenceFile))
          → (found ++ numbered_file n ∷ []) ++ numbered suffix parse entries
            ≡ found ++ numbered suffix parse (f ∷ entries)
          → Collected suffix parse (found ++ numbered_file n ∷ []) entries r
          → Collected suffix parse found (f ∷ entries) r
      go (ok out) moved (e, named, d) = (e ∙ moved, (λ h. (n, p), named), d)
      go (err e) moved refused = λ h. refused (h.0.1, subst Distinct (sym moved) h.1)

  collect-entry :
      (found : List SequenceFile) (listed : Bool) (parsed : Option ℕ)
      → is_listed suffix f ≡ listed
      → parse f.name ≡ parsed
      → Distinct found
      → ((found' : List SequenceFile)
          → Distinct found'
          → Collected suffix parse found' entries (collect suffix parse found' entries))
      → Collected suffix parse found (f ∷ entries) (collect suffix parse found (f ∷ entries))
  unfolding collect
  collect-entry found false parsed l p d rest =
      let same : collect suffix parse found (f ∷ entries) ≡ collect suffix parse found entries =
        rw (l, collect) refl in
      subst (Collected suffix parse found (f ∷ entries)) (sym same)
        (Collected-skip found _ l (rest found d))
  collect-entry found true none l p d rest =
      let same : collect suffix parse found (f ∷ entries) ≡ err (invalid_name f.name) =
        ground (arith, l, p) in
      subst (Collected suffix parse found (f ∷ entries)) (sym same) (λ h. unnamed (h.0.0 l))
    where
      unnamed : (n : ℕ) × (parse f.name ≡ some n) → ⊥
      unnamed (n, q) = cc
  collect-entry found true (some n) l p d rest = elim (Bool-cases (is_seen n found)) [
    | inl again ↦
        let same : collect suffix parse found (f ∷ entries) ≡ err (duplicate_sequence n) =
          ground (arith, l, p, again) in
        subst (Collected suffix parse found (f ∷ entries)) (sym same) (λ h.
          seen_twice found (numbered suffix parse entries) (numbered_file n) again
            (subst (λ t. Distinct (found ++ t)) (numbered-take n l p) h.1))
    | inr new ↦
        let same : collect suffix parse found (f ∷ entries)
            ≡ collect suffix parse (found ++ numbered_file n ∷ []) entries =
          ground (arith, l, p, new) in
        subst (Collected suffix parse found (f ∷ entries)) (sym same) (
          Collected-take n found _ l p
            (rest (found ++ numbered_file n ∷ []) (Distinct-snoc found (numbered_file n) d new)))
  ]

module _ (suffix : Bytes) (parse : Bytes → Option ℕ) where
  collect-Collected :
      (found : List SequenceFile) (entries : List File)
      → Distinct found
      → Collected suffix parse found entries (collect suffix parse found entries)
  unfolding collect
  collect-Collected found [] d = (sym (append-nil found), tt, d)
  collect-Collected found (f ∷ entries) d =
      collect-entry suffix parse f entries found (is_listed suffix f) (parse f.name) refl refl d
        (λ found' d'. collect-Collected found' entries d')

All-insert_file :
    (n : ℕ) (f : SequenceFile) (files : List SequenceFile)
    → n < f.sequence
    → All (Below n) files
    → All (Below n) (insert_file f files)
unfolding insert_file
All-insert_file n f [] h a = (h, tt)
All-insert_file n f (g ∷ files) h (hg, a) = ground (arith, All-insert_file n f files h a)

insert_file-Ascending :
    (f : SequenceFile) (files : List SequenceFile)
    → is_seen f.sequence files ≡ false
    → Ascending files
    → Ascending (insert_file f files)
unfolding insert_file is_seen
insert_file-Ascending f [] new a = (tt, tt)
insert_file-Ascending f (g ∷ files) new (below, a) = elim (dec_lt g.sequence f.sequence) [
  | yes h ↦
      rw (lt→ltb g.sequence f.sequence h, insert_file)
        (All-insert_file g.sequence f files h below, insert_file-Ascending f files (ground arith) a)
  | no h ↦
      let less : f.sequence < g.sequence = ground arith in
      rw (ge→ltb g.sequence f.sequence (omega arith), insert_file)
        ((less, further files below less), (below, a))
]
  where
    further :
        (rest : List SequenceFile)
        → All (Below g.sequence) rest
        → f.sequence < g.sequence
        → All (Below f.sequence) rest
    further [] below less = tt
    further (x ∷ rest) (h, below) less = (omega arith, further rest below less)

insert_file-perm :
    (f : SequenceFile) (files : List SequenceFile) → Perm (insert_file f files) (f ∷ files)
unfolding insert_file
insert_file-perm f [] = Perm.rfl
insert_file-perm f (g ∷ files) = elim (Bool-cases (ltb g.sequence f.sequence)) [
  | inl h ↦
      rw (h, insert_file)
        (Perm.trans (Perm.cons g (insert_file-perm f files)) (Perm.swap f g files))
  | inr h ↦ rw (h, insert_file) Perm.rfl
]

is_seen-insert_file :
    (n : ℕ) (f : SequenceFile) (files : List SequenceFile)
    → is_seen n (insert_file f files) ≡ is_seen n (f ∷ files)
unfolding is_seen insert_file
is_seen-insert_file n f [] = refl
is_seen-insert_file n f (g ∷ files) = ground (arith, is_seen-insert_file n f files)

is_seen-sort_files :
    (n : ℕ) (files : List SequenceFile) → is_seen n (sort_files files) ≡ is_seen n files
unfolding is_seen sort_files
is_seen-sort_files n [] = refl
is_seen-sort_files n (f ∷ files) =
    is_seen-insert_file n f (sort_files files)
    ∙ ap (λ b. f.sequence == n || b) (is_seen-sort_files n files)

sort_files-Ascending : (files : List SequenceFile) → Distinct files → Ascending (sort_files files)
unfolding sort_files
sort_files-Ascending [] d = tt
sort_files-Ascending (f ∷ files) (new, d) =
    insert_file-Ascending f (sort_files files) (is_seen-sort_files f.sequence files ∙ new)
      (sort_files-Ascending files d)

sort_files-perm : (files : List SequenceFile) → Perm (sort_files files) files
unfolding sort_files
sort_files-perm [] = Perm.rfl
sort_files-perm (f ∷ files) =
    Perm.trans (insert_file-perm f (sort_files files)) (Perm.cons f (sort_files-perm files))

-- What a listing says about the entries of the directory.
abbrev pub Lists : Bytes → (Bytes → Option ℕ) → List File → Result (List SequenceFile) → Type 0
Lists suffix parse entries (ok files) =
    Ascending files
    × Perm files (numbered suffix parse entries)
    × All (IsNamed suffix parse) entries
Lists suffix parse entries (err e) =
    ¬ (All (IsNamed suffix parse) entries × Distinct (numbered suffix parse entries))

list_files-Lists :
    (suffix : Bytes) (parse : Bytes → Option ℕ) (entries : List File)
    → Lists suffix parse entries (list_files suffix parse none entries)
unfolding list_files
list_files-Lists suffix parse entries =
    go (collect suffix parse [] entries) (collect-Collected suffix parse [] entries tt)
  where
    go :
        (r : Result (List SequenceFile))
        → Collected suffix parse [] entries r
        → Lists suffix parse entries (do found ← r; ok (sort_files found))
    go (ok found) (e, named, d) = (
      sort_files-Ascending found d,
      subst (Perm (sort_files found)) e (sort_files-perm found),
      named,
    )
    go (err e) c = c

-- `listSegments` and `listSnapshots` on a directory that can be read: the files with the suffix,
-- each with the number in its name, in ascending order and no number twice; and an error only if a
-- file with the suffix has another kind of name, or two of them have the same number.
pub list_segments-Lists :
    (entries : List File)
    → Lists segment_suffix parse_segment_filename entries (list_segments none entries)
      × Lists snapshot_suffix parse_snapshot_filename entries (list_snapshots none entries)
unfolding list_segments list_snapshots
list_segments-Lists entries = (
  list_files-Lists segment_suffix parse_segment_filename entries,
  list_files-Lists snapshot_suffix parse_snapshot_filename entries,
)
