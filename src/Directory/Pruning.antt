-- ===== src/Directory/Pruning.antt =====
-- Which segments `deleteSegmentsBefore` removes.
use go.Prelude.{
  ℕ, ◌≤◌, ◌<◌, ◌≡◌, refl, sym, ap, ◌∙◌, Bool, true, false, ltb, ltb→lt, ltb→ge, inl, inr, ◌⊎◌,
}
use go.Prelude.{List, [], ◌∷◌, ◌++◌, Option, none, some}
use go.Wire.{Bytes}
use go.Errors.{ok, err, io_failed, os}
use go.Directory.{
  File, SequenceFile, Removal, remove_file, delete_from, delete_segments_before, list_segments,
}

abbrev pub remove_all : List SequenceFile → List File → List File
remove_all [] directory = directory
remove_all (f ∷ removed) directory = remove_all removed (remove_file f.file.name directory)

-- No further segment is superseded.
abbrev pub Stops : ℕ → List SequenceFile → Type 0
Stops lowest [] = Unit
Stops lowest (f ∷ []) = Unit
Stops lowest (f ∷ g ∷ segments) = lowest < g.sequence

-- The first segments are gone, the others are kept, and the first of these starts at or below
-- `lowest` unless all are kept.
pub record Pruned (lowest : ℕ) (segments : List SequenceFile) (directory : List File) (r : Removal)
    : Type 0 where
  pub removed : List SequenceFile
  pub kept : List SequenceFile
  pub split : segments ≡ removed ++ kept
  pub applied : r.0 ≡ remove_all removed directory
  pub covered :
      (removed ≡ [])
      ⊎ ((f : SequenceFile) × (rest : List SequenceFile) × (kept ≡ f ∷ rest)
          × (f.sequence ≤ lowest))
  pub outcome : ((r.1 ≡ ok tt) × Stops lowest kept) ⊎ ((n : ℕ) × (r.1 ≡ err (io_failed (os n))))

Pruned-none :
    (lowest : ℕ) (segments : List SequenceFile) (directory : List File) (r : Removal)
    → r.0 ≡ directory
    → ((r.1 ≡ ok tt) × Stops lowest segments) ⊎ ((n : ℕ) × (r.1 ≡ err (io_failed (os n))))
    → Pruned lowest segments directory r
Pruned-none lowest segments directory r same outcome = record {
  removed = [];
  kept = segments;
  split = refl;
  applied = same;
  covered = inl refl;
  outcome = outcome;
}

Pruned-cons :
    (lowest : ℕ) (f g : SequenceFile) (segments : List SequenceFile) (directory : List File)
    (r : Removal)
    → g.sequence ≤ lowest
    → Pruned lowest (g ∷ segments) (remove_file f.file.name directory) r
    → Pruned lowest (f ∷ g ∷ segments) directory r
Pruned-cons lowest f g segments directory r h p = record {
  removed = f ∷ p.removed;
  kept = p.kept;
  split = ap (◌∷◌ f) p.split;
  applied = p.applied;
  covered = covered p.removed p.kept p.split p.covered;
  outcome = p.outcome;
}
  where
    covered :
        (removed kept : List SequenceFile)
        → g ∷ segments ≡ removed ++ kept
        → ((removed ≡ [])
            ⊎ ((f : SequenceFile) × (rest : List SequenceFile) × (kept ≡ f ∷ rest)
                × (f.sequence ≤ lowest)))
        → (f ∷ removed ≡ [])
          ⊎ ((f : SequenceFile) × (rest : List SequenceFile) × (kept ≡ f ∷ rest)
              × (f.sequence ≤ lowest))
    covered removed kept split (inl none_gone) =
        inr (g, segments, sym (split ∙ ap (λ l. l ++ kept) none_gone), h)
    covered removed kept split (inr c) = inr c

delete_from-Pruned :
    (lowest : ℕ) (refuses : Bytes → Option ℕ) (directory : List File) (segments : List SequenceFile)
    → Pruned lowest segments directory (delete_from lowest refuses directory segments)
unfolding delete_from
delete_from-Pruned lowest refuses directory [] =
    Pruned-none lowest [] directory (directory, ok tt) refl (inl (refl, tt))
delete_from-Pruned lowest refuses directory (f ∷ []) =
    Pruned-none lowest (f ∷ []) directory (directory, ok tt) refl (inl (refl, tt))
delete_from-Pruned lowest refuses directory (f ∷ g ∷ segments) =
    go (ltb lowest g.sequence) refl (refuses f.file.name) refl
      (delete_from-Pruned lowest refuses (remove_file f.file.name directory) (g ∷ segments))
  where
    go :
        (beyond : Bool)
        → ltb lowest g.sequence ≡ beyond
        → (refusal : Option ℕ) → refuses f.file.name ≡ refusal
        → Pruned lowest
            (g ∷ segments)
            (remove_file f.file.name directory)
            (delete_from lowest refuses (remove_file f.file.name directory) (g ∷ segments))
        → Pruned lowest
            (f ∷ g ∷ segments)
            directory
            (delete_from lowest refuses directory (f ∷ g ∷ segments))
    go true b refusal r p =
        rw (b, delete_from)
          (Pruned-none lowest (f ∷ g ∷ segments) directory (directory, ok tt) refl
            (inl (refl, ltb→lt lowest g.sequence b)))
    go false b (some n) r p =
        rw (b, delete_from)
          (rw (r, delete_from)
            (Pruned-none lowest (f ∷ g ∷ segments) directory (directory, err (io_failed (os n)))
              refl (inr (n, refl))))
    go false b none r p =
        rw (b, delete_from)
          (rw (r, delete_from)
            (Pruned-cons lowest f g segments directory _ (ltb→ge lowest g.sequence b) p))

-- `deleteSegmentsBefore` on a directory whose segments are listed, whichever removals fail: it
-- removes a first part of the segments and nothing else, and what it keeps still starts at or below
-- `lowest` if it removed any; if it reports no error, no further segment could have been removed.
pub delete_segments_before-Pruned :
    (lowest : ℕ) (refuses : Bytes → Option ℕ) (directory : List File) (segments : List SequenceFile)
    → list_segments none directory ≡ ok segments
    → Pruned lowest segments directory (delete_segments_before lowest none refuses directory)
unfolding delete_segments_before
delete_segments_before-Pruned lowest refuses directory segments h =
    rw (h, delete_segments_before) (delete_from-Pruned lowest refuses directory segments)
