-- ===== src/Recovery/Start.antt =====
-- The segment that `recoverLog` starts with.
use go.Prelude.{
  ℕ, zero, suc, ◌+◌, ◌-◌, ◌^◌, ◌≤◌, ◌<◌, ◌≡◌, refl, sym, ap, ◌∙◌, arith, subst, ◌⊎◌, inl, inr, leb,
  leb→le, Bool-cases,
}
use go.Prelude.{List, [], ◌∷◌, ◌++◌, length, length-append, length-drop, drop, append_assoc}
use go.Wire.{Bytes}
use go.Record.{WriteRequest}
use go.Shard.{sub64}
use go.Directory.{SequenceFile}
use go.Recovery.{start_from}
use go.Recovery.Chain.{joined, IsLog}

-- What is left of a log from the segment `g` on.
pub record LeftFrom (checksum : Bytes → ℕ) (previous : ℕ) (g : SequenceFile)
    (rest : List SequenceFile) (chunks : List (List WriteRequest)) (last : List WriteRequest)
    (n : ℕ) : Type 0 where
  pub passed : List (List WriteRequest)
  pub left : List (List WriteRequest)
  pub split : joined chunks ≡ joined passed ++ joined left
  pub is_log : IsLog checksum (previous + length (joined passed)) g rest left last n

abbrev pub IsLogFrom :
    (Bytes → ℕ) → List (List WriteRequest) → List WriteRequest → ℕ → ℕ → List SequenceFile → Type 0
IsLogFrom checksum chunks last n previous [] = Unit
IsLogFrom checksum chunks last n previous (f ∷ rest) = IsLog checksum previous f rest chunks last n

pub IsLog-drop :
    (checksum : Bytes → ℕ) (previous j : ℕ) (f : SequenceFile) (rest : List SequenceFile)
    (g : SequenceFile) (tail : List SequenceFile) (chunks : List (List WriteRequest))
    (last : List WriteRequest) (n : ℕ)
    → IsLog checksum previous f rest chunks last n
    → drop j (f ∷ rest) ≡ g ∷ tail
    → LeftFrom checksum previous g tail chunks last n
IsLog-drop checksum previous zero f rest g tail chunks last n h e = record {
  passed = [];
  left = chunks;
  split = refl;
  is_log =
      let here : previous ≡ previous + 0 = omega arith in
      subst (IsLogFrom checksum chunks last n (previous + 0)) e
        (subst (λ p. IsLog checksum p f rest chunks last n) here h);
}
IsLog-drop checksum previous (suc j) f [] g tail chunks last n h e =
    absurd (omega (arith, ap length e, length-drop (suc j) (f ∷ [])))
IsLog-drop checksum previous (suc j) f (x ∷ rest) g tail [] last n h e = absurd h
IsLog-drop checksum previous (suc j) f (x ∷ rest) g tail (chunk ∷ chunks) last n
      (first, held, behind) e =
    let inner =
      IsLog-drop checksum (previous + length chunk) j x rest g tail chunks last n behind e in
    record {
      passed = chunk ∷ inner.passed;
      left = inner.left;
      split =
          ap (λ l. chunk ++ l) inner.split
          ∙ sym (append_assoc chunk (joined inner.passed) (joined inner.left));
      is_log =
          subst (λ p. IsLog checksum p g tail inner.left last n)
            (omega (arith, length-append chunk (joined inner.passed))) inner.is_log;
    }

-- Where the loop ends: at a segment that starts at or below `required`.
pub record StartsAt (required i : ℕ) (segments : List SequenceFile) : Type 0 where
  pub g : SequenceFile
  pub tail : List SequenceFile
  pub found : drop i segments ≡ g ∷ tail
  pub low : g.sequence ≤ required

start_from-later :
    (required start index : ℕ) (segments : List SequenceFile)
    → (start_from required start index segments ≡ start)
      ⊎ ((j : ℕ) × (start_from required start index segments ≡ index + j)
          × StartsAt required j segments)
unfolding start_from
start_from-later required start index [] = inl refl
start_from-later required start index (f ∷ segments) = elim (Bool-cases (leb f.sequence required)) [
  | inl low ↦ rw low (elim (start_from-later required index (index + 1) segments) [
    | inl e ↦
        inr (
          0,
          e ∙ omega arith,
          record { g = f; tail = segments; found = refl; low = leb→le _ _ low },
        )
    | inr (j, e, s) ↦
        inr
          (suc j, e ∙ omega arith, record { g = s.g; tail = s.tail; found = s.found; low = s.low })
  ])
  | inr high ↦ rw high (elim (start_from-later required start (index + 1) segments) [
    | inl e ↦ inl e
    | inr (j, e, s) ↦
        inr
          (suc j, e ∙ omega arith, record { g = s.g; tail = s.tail; found = s.found; low = s.low })
  ])
]

pub start_from-StartsAt :
    (required : ℕ) (f : SequenceFile) (segments : List SequenceFile)
    → f.sequence ≤ required
    → StartsAt required (start_from required 0 0 (f ∷ segments)) (f ∷ segments)
start_from-StartsAt required f segments low = elim (start_from-later required 0 0 (f ∷ segments)) [
  | inl e ↦
      subst (λ i. StartsAt required i (f ∷ segments)) (sym e)
        (record { g = f; tail = segments; found = refl; low = low })
  | inr (j, e, s) ↦ subst (λ i. StartsAt required i (f ∷ segments)) (omega (arith, e)) s
]

pub sub64-one : (a : ℕ) → 0 < a → a ≤ 2 ^ 64 → sub64 a 1 ≡ a - 1
sub64-one a h k = omega arith
