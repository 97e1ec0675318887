-- ===== src/Writer/Chunk.antt =====
-- One write of `writeBatch`: which requests go into it, and what it does.
use go.Prelude.{ℕ, ◌+◌, ◌-◌, ◌≤◌, ◌<◌, ◌≡◌, refl, sym, ap, ◌∙◌, arith, Bool, true, false, dec_lt}
use go.Prelude.{
  List, [], ◌∷◌, ◌++◌, Option, none, some, length, length-append, length-take, take, drop,
  append-nil, append_assoc, take-append-drop, take-append,
}
use go.Wire.{Bytes}
use go.Record.{WriteRequest, max_sequence, record_size_for, append_record, encode_record}
use go.Segment.Log.{encode_log}
use go.Writer.Progress.{bodies, accepted, encode_log-append, Progress}
use go.Writer.Steps.{HasHeader, bodies-extend, apply_batch-last_error, fail_rest-Progress}
use go.Writer.{
  Environment, Writer, WriteFault, chunk_length, encode_batch, failed_write, write_chunk,
}

-- A chunk is not empty and no longer than the requests.
pub chunk_length-bounds :
    (seq offset segment_size count size : ℕ) (requests : List WriteRequest)
    → (count ≤ chunk_length seq offset segment_size count size requests)
      × (chunk_length seq offset segment_size count size requests ≤ count + length requests)
unfolding chunk_length
chunk_length-bounds seq offset segment_size count size [] = omega arith
chunk_length-bounds seq offset segment_size count size (r ∷ requests) = ground (
  arith,
  chunk_length-bounds seq offset segment_size (count + 1) (size + record_size_for r) requests,
)

-- The sequence numbers do not run out within a chunk.
pub chunk_length-space :
    (seq offset segment_size count size : ℕ) (requests : List WriteRequest)
    → count ≤ max_sequence - seq
    → chunk_length seq offset segment_size count size requests ≤ max_sequence - seq
unfolding chunk_length
chunk_length-space seq offset segment_size count size [] h = h
chunk_length-space seq offset segment_size count size (r ∷ requests) h =
    elim (dec_lt count (max_sequence - seq)) [
      | yes more ↦
          let rest =
            chunk_length-space seq offset segment_size (count + 1) (size + record_size_for r)
              requests (omega (arith, more)) in
          ground (arith, rest)
      | no full ↦ ground (arith, full)
    ]

pub chunk_length_pos :
    (seq offset segment_size : ℕ) (r : WriteRequest) (requests : List WriteRequest)
    → seq < max_sequence
    → 0 < chunk_length seq offset segment_size 0 0 (r ∷ requests)
unfolding chunk_length
chunk_length_pos seq offset segment_size r requests h =
    ground
      (arith, chunk_length-bounds seq offset segment_size (0 + 1) (0 + record_size_for r) requests)

-- The payload is the records of its requests.
encode_batch-encode_log :
    (checksum : Bytes → ℕ) (payload : Bytes) (seq : ℕ) (requests : List WriteRequest)
    → encode_batch checksum payload seq requests ≡ payload ++ encode_log checksum (seq + 1) requests
unfolding encode_batch encode_log append_record
encode_batch-encode_log checksum payload seq [] = sym (append-nil payload)
encode_batch-encode_log checksum payload seq (r ∷ requests) =
    encode_batch-encode_log checksum (payload ++ encode_record checksum (seq + 1) r) (seq + 1)
      requests
    ∙ append_assoc payload (encode_record checksum (seq + 1) r)
        (encode_log checksum (seq + 1 + 1) requests)

take-as-prefix {ℓ} :
    {A : Type ℓ} (m : ℕ) (xs ys : List A) → take m xs ≡ take (length (take m xs)) (xs ++ ys)
take-as-prefix m xs ys =
    let k = length (take m xs) in
    sym (take-append k (take m xs) (drop m xs ++ ys) refl)
    ∙ ap (take k)
        (sym (append_assoc (take m xs) (drop m xs) ys) ∙ ap (λ l. l ++ ys) (take-append-drop m xs))

-- The state between two rounds: nothing has failed yet, the open segment has its header, and the
-- sequence number fits into 64 bits.
pub record Open (w : Writer) : Type 0 where
  pub unlatched : w.store.last_error ≡ none
  pub has_header : HasHeader w.log
  pub in_space : w.log.seq ≤ max_sequence

-- A write that succeeded, before the next round.
pub record Accepts (checksum : Bytes → ℕ) (w w' : Writer) (n : ℕ) (requests : List WriteRequest)
    : Type 0 where
  pub is_open : Open w'
  pub answered : w'.answers ≡ w.answers ++ accepted (take n requests)
  pub numbered : w'.log.seq ≡ w.log.seq + n
  pub logged : bodies w'.log ≡ bodies w.log ++ encode_log checksum (w.log.seq + 1) (take n requests)

abbrev pub ChunkResult : (Bytes → ℕ) → Writer → ℕ → List WriteRequest → Writer × Bool → Type 0
ChunkResult checksum w n requests (w', true) = Accepts checksum w w' n requests
ChunkResult checksum w n requests (w', false) = Progress checksum w w' requests

module _ (env : Environment) (w : Writer) (n : ℕ) (requests : List WriteRequest) where
  abbrev chunk : List WriteRequest
  chunk = take n requests

  abbrev payload : Bytes
  payload = encode_batch env.checksum [] w.log.seq chunk

  pub payload-encode_log : payload ≡ encode_log env.checksum (w.log.seq + 1) chunk
  payload-encode_log = encode_batch-encode_log env.checksum [] w.log.seq chunk

  pub chunk_prefix :
      (m : ℕ)
      → (k : ℕ) × (take m payload ≡ take k (encode_log env.checksum (w.log.seq + 1) requests))
  chunk_prefix m =
      let sequence = w.log.seq + 1 in
      let records = encode_log env.checksum sequence chunk in
      let later = encode_log env.checksum (sequence + length chunk) (drop n requests) in
      let whole =
        sym (encode_log-append env.checksum sequence chunk (drop n requests))
        ∙ ap (encode_log env.checksum sequence) (take-append-drop n requests) in
      (
        length (take m records),
        ap (take m) payload-encode_log
            ∙ take-as-prefix m records later
            ∙ ap (take (length (take m records))) whole,
      )

  pub write_chunk-ChunkResult :
      Open w
      → n ≤ length requests
      → w.log.seq + n ≤ max_sequence
      → ChunkResult env.checksum w n requests (write_chunk env w n requests)
  unfolding write_chunk encode_batch bodies
  write_chunk-ChunkResult is_open le space =
      go (failed_write (env.write w.log.seq) (length payload)) refl
    where
      go :
          (fault : Option WriteFault)
          → failed_write (env.write w.log.seq) (length payload) ≡ fault
          → ChunkResult env.checksum w n requests (write_chunk env w n requests)
      go none h =
          rw (h, write_chunk)
            (record {
              is_open = record {
                unlatched = apply_batch-last_error env w.store w.log.seq chunk ∙ is_open.unlatched;
                has_header =
                    omega (arith, is_open.has_header, length-append w.log.contents payload);
                in_space = omega (arith, space, length-take n requests, le);
              };
              answered = refl;
              numbered = omega (arith, length-take n requests, le);
              logged =
                  bodies-extend w.log payload is_open.has_header
                  ∙ ap (λ b. bodies w.log ++ b) payload-encode_log;
            })
      go (some fault) h =
          let p = chunk_prefix fault.written in
          rw (h, write_chunk)
            (fail_rest-Progress env.checksum w _ requests _ p.0 is_open.unlatched refl refl (
              bodies-extend w.log (take fault.written payload) is_open.has_header
              ∙ ap (λ b. bodies w.log ++ b) p.1))
