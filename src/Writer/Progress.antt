-- ===== src/Writer/Progress.antt =====
-- What a run of the loop of `writeBatch` has done, and how such runs follow one another.
use go.Prelude.{ℕ, zero, suc, ◌+◌, ◌≤◌, ◌≡◌, refl, sym, ap, ◌∙◌, arith, ◌⊎◌, inl, inr}
use go.Prelude.{
  List, [], ◌∷◌, ◌++◌, Option, none, some, length, length-drop, length-take, take, drop, map,
  append_assoc, drop-add,
}
use go.Wire.{Bytes}
use go.Errors.{Error}
use go.Record.{WriteRequest, encode_record}
use go.Segment.Log.{encode_log}
use go.Writer.{LogState, Writer, respond_all}

abbrev pub bodies_of : List (ℕ × Bytes) → Bytes
bodies_of [] = []
bodies_of ((first, contents) ∷ segments) = drop 8 contents ++ bodies_of segments

-- All records on disk: what stands behind the headers of the closed segments and of the open one.
unfoldable pub bodies : LogState → Bytes
bodies log = bodies_of log.closed_segments ++ drop 8 log.contents

abbrev pub accepted : List WriteRequest → List (Option Error)
accepted = map (λ _. none)

-- `w'` is `w` after the first `count` of the requests were written and accepted. Either these are
-- all, or the others were refused with the latched failure; then a part of their records may
-- stand at the end of the log.
pub record Progress (checksum : Bytes → ℕ) (w w' : Writer) (requests : List WriteRequest)
    : Type 0 where
  pub count : ℕ
  pub refusals : List (Option Error)
  pub tail : Bytes
  pub within : count ≤ length requests
  pub answered : w'.answers ≡ w.answers ++ (accepted (take count requests) ++ refusals)
  pub numbered : w'.log.seq ≡ w.log.seq + count
  pub logged :
      bodies w'.log
      ≡ bodies w.log ++ (encode_log checksum (w.log.seq + 1) (take count requests) ++ tail)
  pub torn :
      (m : ℕ) × (tail ≡ take m (encode_log checksum (w.log.seq + count + 1) (drop count requests)))
  pub ending :
      ((count ≡ length requests) × (refusals ≡ []) × (tail ≡ []))
      ⊎ ((e : Error) × (refusals ≡ respond_all (drop count requests) e)
          × (w'.store.last_error ≡ some e))

pub encode_log-append :
    (checksum : Bytes → ℕ) (sequence : ℕ) (xs ys : List WriteRequest)
    → encode_log checksum sequence (xs ++ ys)
      ≡ encode_log checksum sequence xs ++ encode_log checksum (sequence + length xs) ys
unfolding encode_log
encode_log-append checksum sequence [] ys =
    let e : sequence ≡ sequence + 0 = omega arith in ap (λ s. encode_log checksum s ys) e
encode_log-append checksum sequence (x ∷ xs) ys =
    let e : sequence + 1 + length xs ≡ sequence + suc (length xs) = omega arith in
    ap (λ b. encode_record checksum sequence x ++ b)
      (encode_log-append checksum (sequence + 1) xs ys
        ∙ ap (λ s. encode_log checksum (sequence + 1) xs ++ encode_log checksum s ys) e)
    ∙ sym
        (append_assoc (encode_record checksum sequence x) (encode_log checksum (sequence + 1) xs) _)

take_nil {ℓ} : {A : Type ℓ} (m : ℕ) → take {A = A} m [] ≡ []
take_nil zero = refl
take_nil (suc m) = refl

take-add {ℓ} :
    {A : Type ℓ} (n m : ℕ) (xs : List A) → take (n + m) xs ≡ take n xs ++ take m (drop n xs)
take-add zero m xs = let e : 0 + m ≡ m = omega arith in ap (λ k. take k xs) e
take-add (suc n) m [] = let e : suc n + m ≡ suc (n + m) = omega arith in rw e (sym (take_nil m))
take-add (suc n) m (x ∷ xs) =
    let e : suc n + m ≡ suc (n + m) = omega arith in rw e (ap (◌∷◌ x) (take-add n m xs))

accepted-append : (xs ys : List WriteRequest) → accepted (xs ++ ys) ≡ accepted xs ++ accepted ys
accepted-append [] ys = refl
accepted-append (x ∷ xs) ys = ap (◌∷◌ none) (accepted-append xs ys)

module _ (checksum : Bytes → ℕ) (w w' w'' : Writer) (requests : List WriteRequest) where
  -- A round that wrote the first `n` requests, and what happened to the others.
  pub Progress-trans :
      (n : ℕ)
      → n ≤ length requests
      → w'.answers ≡ w.answers ++ accepted (take n requests)
      → w'.log.seq ≡ w.log.seq + n
      → bodies w'.log ≡ bodies w.log ++ encode_log checksum (w.log.seq + 1) (take n requests)
      → Progress checksum w' w'' (drop n requests)
      → Progress checksum w w'' requests
  Progress-trans n le answered numbered logged p =
      let front = take n requests in
      let back = drop n requests in
      let split = take-add n p.count requests in
      let rest = length-drop n requests in
      let encoded = encode_log-append checksum (w.log.seq + 1) front (take p.count back) in
      let here : w.log.seq + 1 + length front ≡ w'.log.seq + 1 =
        omega (arith, numbered, length-take n requests) in
      let later : drop (n + p.count) requests ≡ drop p.count back = drop-add n p.count requests in
      let at : w'.log.seq + p.count + 1 ≡ w.log.seq + (n + p.count) + 1 = omega (arith, numbered) in
      record {
        count = n + p.count;
        refusals = p.refusals;
        tail = p.tail;
        within = omega (arith, p.within, rest, le);
        answered = simp (p.answered, answered, split, accepted-append, append_assoc);
        numbered = omega (arith, p.numbered, numbered);
        logged = simp (p.logged, logged, split, encoded, here, append_assoc);
        torn = (
          p.torn.0,
          p.torn.1
              ∙ ap (λ s. take p.torn.0 (encode_log checksum s (drop p.count back))) at
              ∙ ap (λ b. take p.torn.0 (encode_log checksum (w.log.seq + (n + p.count) + 1) b))
                  (sym later),
        );
        ending = ending p.ending;
      }
    where
      ending :
          ((p.count ≡ length (drop n requests)) × (p.refusals ≡ []) × (p.tail ≡ []))
            ⊎ ((e : Error) × (p.refusals ≡ respond_all (drop p.count (drop n requests)) e)
                × (w''.store.last_error ≡ some e))
          → ((n + p.count ≡ length requests) × (p.refusals ≡ []) × (p.tail ≡ []))
            ⊎ ((e : Error) × (p.refusals ≡ respond_all (drop (n + p.count) requests) e)
                × (w''.store.last_error ≡ some e))
      ending (inl (all, none_refused, none_left)) =
          inl (omega (arith, all, length-drop n requests, le), none_refused, none_left)
      ending (inr (e, refused, latched)) =
          inr (e, refused ∙ ap (λ l. respond_all l e) (sym (drop-add n p.count requests)), latched)
