-- ===== src/Durability/Segments.antt =====
-- The segments of the writer as the files that a recovery lists.
use go.Prelude.{false, ℕ, ◌+◌, ◌<◌, ◌≡◌, sym, ap, ◌∙◌, arith}
use go.Prelude.{List, [], ◌∷◌, ◌++◌, length, length-append, take, map, append-nil, append_assoc}
use go.Wire.{Bytes}
use go.Names.{segment_name}
use go.Record.{WriteRequest}
use go.Segment.{segment_header}
use go.Segment.Log.{encode_log}
use go.Directory.{SequenceFile}
use go.Recovery.Chain.{joined}
use go.Recovery.Start.{IsLogFrom}
use go.Writer.{LogState}

abbrev pub as_file : ℕ × Bytes → SequenceFile
as_file (first, contents) = record {
  file = record {
    name = segment_name first;
    is_dir = false;
    is_special = false;
    contents = contents;
  };
  sequence = first;
}

-- In the order of their numbers: an orphan starts behind the last record.
abbrev pub segments_of : LogState → List (ℕ × Bytes)
segments_of log = log.closed_segments ++ (log.first_sequence, log.contents) ∷ log.orphans

-- Closed segments with the records of `chunks`, one chunk each, numbered on from `previous`.
abbrev pub Closed : (Bytes → ℕ) → ℕ → List (ℕ × Bytes) → List (List WriteRequest) → Type 0
Closed checksum previous [] [] = Unit
Closed checksum previous [] (chunk ∷ chunks) = ⊥
Closed checksum previous (s ∷ segments) [] = ⊥
Closed checksum previous ((first, contents) ∷ segments) (chunk ∷ chunks) =
    (first ≡ previous + 1)
    × (contents ≡ segment_header ++ encode_log checksum (previous + 1) chunk)
    × Closed checksum (previous + length chunk) segments chunks

pub joined-snoc :
    (chunks : List (List WriteRequest)) (last : List WriteRequest)
    → joined (chunks ++ last ∷ []) ≡ joined chunks ++ last
joined-snoc [] last = append-nil last
joined-snoc (chunk ∷ chunks) last =
    ap (λ l. chunk ++ l) (joined-snoc chunks last) ∙ sym (append_assoc chunk (joined chunks) last)

module _ (checksum : Bytes → ℕ) where
  pub Closed-snoc :
      (previous first : ℕ) (contents : Bytes) (segments : List (ℕ × Bytes))
      (chunks : List (List WriteRequest)) (last : List WriteRequest)
      → Closed checksum previous segments chunks
      → first ≡ previous + length (joined chunks) + 1
      → contents ≡ segment_header ++ encode_log checksum first last
      → Closed checksum previous (segments ++ (first, contents) ∷ []) (chunks ++ last ∷ [])
  Closed-snoc previous first contents [] [] last c e held =
      let at : first ≡ previous + 1 = e ∙ omega arith in
      (at, held ∙ ap (λ s. segment_header ++ encode_log checksum s last) at, tt)
  Closed-snoc previous first contents [] (chunk ∷ chunks) last c e held = absurd c
  Closed-snoc previous first contents (s ∷ segments) [] last c e held = absurd c
  Closed-snoc previous first contents (s ∷ segments) (chunk ∷ chunks) last (c₁, c₂, c₃) e held = (
    c₁,
    c₂,
    Closed-snoc (previous + length chunk) first contents segments chunks last c₃
        (e ∙ omega (arith, length-append chunk (joined chunks))) held,
  )

  IsLogFrom-cons :
      (previous : ℕ) (f : SequenceFile) (rest : List SequenceFile) (chunk : List WriteRequest)
      (chunks : List (List WriteRequest)) (last : List WriteRequest) (n : ℕ)
      → 0 < length rest
      → f.sequence ≡ previous + 1
      → f.file.contents ≡ segment_header ++ encode_log checksum (previous + 1) chunk
      → IsLogFrom checksum chunks last n (previous + length chunk) rest
      → IsLogFrom checksum (chunk ∷ chunks) last n previous (f ∷ rest)
  IsLogFrom-cons previous f [] chunk chunks last n some_rest e held l = absurd (omega arith)
  IsLogFrom-cons previous f (g ∷ rest) chunk chunks last n some_rest e held l = (e, held, l)

  some_file :
      (segments : List (ℕ × Bytes)) (s : ℕ × Bytes) → 0 < length (map as_file (segments ++ s ∷ []))
  some_file [] s = omega arith
  some_file (x ∷ segments) s = omega arith

  -- With an open segment behind them.
  pub Closed-IsLogFrom :
      (previous first : ℕ) (contents : Bytes) (segments : List (ℕ × Bytes))
      (chunks : List (List WriteRequest)) (last : List WriteRequest) (n : ℕ)
      → Closed checksum previous segments chunks
      → first ≡ previous + length (joined chunks) + 1
      → contents ≡ segment_header ++ take n (encode_log checksum first last)
      → IsLogFrom checksum chunks last n previous (map as_file (segments ++ (first, contents) ∷ []))
  Closed-IsLogFrom previous first contents [] [] last n c e held =
      let at : first ≡ previous + 1 = e ∙ omega arith in
      (at, held ∙ ap (λ s. segment_header ++ take n (encode_log checksum s last)) at)
  Closed-IsLogFrom previous first contents [] (chunk ∷ chunks) last n c e held = absurd c
  Closed-IsLogFrom previous first contents (s ∷ segments) [] last n c e held = absurd c
  Closed-IsLogFrom previous first contents (s ∷ segments) (chunk ∷ chunks) last n (c₁, c₂, c₃) e
        held =
      IsLogFrom-cons previous (as_file s) (map as_file (segments ++ (first, contents) ∷ [])) chunk
        chunks last n (some_file segments (first, contents)) c₁ c₂
        (Closed-IsLogFrom (previous + length chunk) first contents segments chunks last n c₃
          (e ∙ omega (arith, length-append chunk (joined chunks))) held)
