-- ===== src/Directory/Cleanup.antt =====
-- What the removals of files leave in the directory.
use go.Prelude.{
  ℕ, ◌≡◌, refl, sym, ap, ◌∙◌, arith, Bool, true, false, not, ◌||◌, if◌then◌else◌, Bool-cases, inl,
  inr, subst,
}
use go.Prelude.{List, [], ◌∷◌, ◌++◌, Option, none, append_assoc, All}
use go.Wire.{Bytes, bytes_eq, bytes_eq_iff}
use go.Errors.{ok}
use go.Names.{snapshot_suffix, parse_snapshot_filename}
use go.Directory.{
  File, is_listed, is_temporary, remove_file, remove_temporary_from, remove_snapshots_from,
}
use go.Directory.Listing.{IsNamed}

-- No two entries of a directory have the same name.
abbrev pub NewName : Bytes → List File → Type 0
NewName name [] = Unit
NewName name (f ∷ files) = (bytes_eq f.name name ≡ false) × NewName name files

abbrev pub OneName : List File → Type 0
OneName [] = Unit
OneName (f ∷ files) = NewName f.name files × OneName files

-- The files that satisfy a test, in their order.
abbrev pub retain : (File → Bool) → List File → List File
retain keep [] = []
retain keep (f ∷ files) = let rest = retain keep files in if keep f then f ∷ rest else rest

remove_file-NewName :
    (name : Bytes) (files : List File) → NewName name files → remove_file name files ≡ files
unfolding remove_file
remove_file-NewName name [] h = refl
remove_file-NewName name (f ∷ files) (differs, h) =
    rw (differs, remove_file) (ap (◌∷◌ f) (remove_file-NewName name files h))

remove_file-middle :
    (done rest : List File) (f : File)
    → OneName (done ++ f ∷ rest)
    → remove_file f.name (done ++ f ∷ rest) ≡ done ++ rest
unfolding remove_file
remove_file-middle [] rest f (new, h) =
    let same = (bytes_eq_iff f.name f.name).1 refl in
    rw (same, remove_file) (remove_file-NewName f.name rest new)
remove_file-middle (g ∷ done) rest f (new, h) =
    rw (differs done new, remove_file) (ap (◌∷◌ g) (remove_file-middle done rest f h))
  where
    bytes_ne : (a b : Bytes) → bytes_eq a b ≡ false → bytes_eq b a ≡ false
    bytes_ne a b e = elim (Bool-cases (bytes_eq b a)) [
      | inl same ↦ let back = (bytes_eq_iff a b).1 (sym ((bytes_eq_iff b a).0 same)) in cc
      | inr other ↦ other
    ]

    differs :
        (done : List File) → NewName g.name (done ++ f ∷ rest) → bytes_eq g.name f.name ≡ false
    differs [] (e, h) = bytes_ne f.name g.name e
    differs (x ∷ done) (e, h) = differs done h

NewName-drop :
    (name : Bytes) (done rest : List File) (f : File)
    → NewName name (done ++ f ∷ rest)
    → NewName name (done ++ rest)
NewName-drop name [] rest f (e, h) = h
NewName-drop name (g ∷ done) rest f (e, h) = (e, NewName-drop name done rest f h)

OneName-drop :
    (done rest : List File) (f : File) → OneName (done ++ f ∷ rest) → OneName (done ++ rest)
OneName-drop [] rest f (e, h) = h
OneName-drop (g ∷ done) rest f (e, h) =
    (NewName-drop g.name done rest f e, OneName-drop done rest f h)

module _ (refuses : Bytes → Option ℕ) (willing : (name : Bytes) → refuses name ≡ none) where
  -- The entries before the loop are done, those behind it untouched.
  pub remove_temporary_from-retain :
      (done entries : List File)
      → OneName (done ++ entries)
      → remove_temporary_from refuses (done ++ entries) entries
        ≡ (done ++ retain (λ f. not (is_temporary f)) entries, ok tt)
  unfolding remove_temporary_from
  remove_temporary_from-retain done [] h = refl
  remove_temporary_from-retain done (f ∷ entries) h = elim (Bool-cases (is_temporary f)) [
    | inl temporary ↦
        rw (temporary, remove_temporary_from)
          (rw (willing f.name, remove_temporary_from)
            (rw (remove_file-middle done entries f h)
              (remove_temporary_from-retain done entries (OneName-drop done entries f h))))
    | inr other ↦
        let moved = sym (append_assoc done (f ∷ []) entries) in
        rw (other, remove_temporary_from)
          (ap (λ d. remove_temporary_from refuses d entries) moved
            ∙ remove_temporary_from-retain (done ++ f ∷ []) entries (subst OneName moved h)
            ∙ ap (λ d. (d, ok tt))
                (append_assoc done (f ∷ []) (retain (λ g. not (is_temporary g)) entries)))
  ]

  pub remove_snapshots_from-retain :
      (retained : Bytes) (done entries : List File)
      → OneName (done ++ entries)
      → All (IsNamed snapshot_suffix parse_snapshot_filename) entries
      → remove_snapshots_from retained refuses (done ++ entries) entries ≡ (
        done ++ retain (λ f. not (is_listed snapshot_suffix f) || bytes_eq f.name retained) entries,
        ok tt,
      )
  unfolding remove_snapshots_from
  remove_snapshots_from-retain retained done [] h named = refl
  remove_snapshots_from-retain retained done (f ∷ entries) h (named_f, named) =
      go (is_listed snapshot_suffix f) refl (bytes_eq f.name retained) refl
        (λ h'. remove_snapshots_from-retain retained done entries h' named)
        (λ h'. remove_snapshots_from-retain retained (done ++ f ∷ []) entries h' named)
    where
      keep : File → Bool
      keep g = not (is_listed snapshot_suffix g) || bytes_eq g.name retained

      stay :
          OneName (done ++ f ∷ entries)
          → (OneName ((done ++ f ∷ []) ++ entries)
              → remove_snapshots_from retained refuses ((done ++ f ∷ []) ++ entries) entries
                ≡ ((done ++ f ∷ []) ++ retain keep entries, ok tt))
          → remove_snapshots_from retained refuses (done ++ f ∷ entries) entries
            ≡ (done ++ f ∷ retain keep entries, ok tt)
      stay h later =
          let moved = sym (append_assoc done (f ∷ []) entries) in
          ap (λ d. remove_snapshots_from retained refuses d entries) moved
          ∙ later (subst OneName moved h)
          ∙ ap (λ d. (d, ok tt)) (append_assoc done (f ∷ []) (retain keep entries))

      go :
          (listed : Bool)
          → is_listed snapshot_suffix f ≡ listed
          → (same : Bool) → bytes_eq f.name retained ≡ same
          → (OneName (done ++ entries)
              → remove_snapshots_from retained refuses (done ++ entries) entries
                ≡ (done ++ retain keep entries, ok tt))
          → (OneName ((done ++ f ∷ []) ++ entries)
              → remove_snapshots_from retained refuses ((done ++ f ∷ []) ++ entries) entries
                ≡ ((done ++ f ∷ []) ++ retain keep entries, ok tt))
          → remove_snapshots_from retained refuses (done ++ f ∷ entries) (f ∷ entries)
            ≡ (done ++ retain keep (f ∷ entries), ok tt)
      go false l same b gone later = ground (arith, l, b, stay h later)
      go true l same b gone later =
          let (n, parsed) = named_f l in
          ground (
            arith,
            l,
            b,
            parsed,
            willing f.name,
            remove_file-middle done entries f h,
            stay h later,
            gone (OneName-drop done entries f h),
          )
