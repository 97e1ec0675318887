-- ===== src/Segment/Log.antt =====
-- The loop of `recoverSegment` on a log that `writeBatch` wrote, cut off anywhere.
use go.Prelude.{
  ℕ, zero, suc, ◌+◌, ◌^◌, ◌≤◌, ◌<◌, ◌≡◌, refl, ap, ◌∙◌, arith, Bool, true, false, ◌⊎◌, inl, inr,
}
use go.Prelude.{
  List, [], ◌∷◌, ◌++◌, Option, none, some, length, length-append, take, All, lt→ltb, ge→ltb,
  if◌then◌else◌, append_assoc,
}
use go.Wire.{Bytes}
use go.Errors.{Result, ok, err, ◌>>◌, recover_at, unexpected_eof}
use go.Record.{WriteRequest, record_size_for, encode_record}
use go.Record.Layout.{length-encode_record}
use go.Store.{Store}
use go.Segment.{
  SegmentFaults, SegmentCall, SnapshotState, Cursor, next, recover_turn, recover_loop, cut_off,
  check,
}
use go.Segment.Replay.{
  IsChecksum, IsWritable, Follows, replay_one, recover_turn-written, recover_turn-cut,
}

-- The records of a list of requests, numbered from `sequence` on.
unfoldable pub encode_log : (Bytes → ℕ) → ℕ → List WriteRequest → Bytes
encode_log checksum sequence [] = []
encode_log checksum sequence (r ∷ requests) =
    encode_record checksum sequence r ++ encode_log checksum (sequence + 1) requests

unfoldable pub replay_all : SnapshotState → Store → ℕ → List WriteRequest → Store
replay_all snapshot store sequence [] = store
replay_all snapshot store sequence (r ∷ requests) =
    replay_all snapshot (replay_one snapshot store sequence r) (sequence + 1) requests

-- Nothing, or a proper prefix of a record.
abbrev pub IsTail : (Bytes → ℕ) → Bytes → Type 0
IsTail checksum tail =
    (tail ≡ [])
    ⊎ ((n sequence : ℕ) × (r : WriteRequest) × IsWritable r
        × (0 < n)
        × (n < record_size_for r)
        × (tail ≡ take n (encode_record checksum sequence r)))

-- Whether the segment is still at its first record after some requests.
abbrev pub still_first : List WriteRequest → Bool → Bool
still_first [] first = first
still_first (r ∷ requests) first = false

-- What holds of the file and the call when the loop stands at `c` in front of `requests` and `tail`.
pub record Ahead (checksum : Bytes → ℕ) (faults : SegmentFaults) (call : SegmentCall) (size : ℕ)
    (c : Cursor) (requests : List WriteRequest) (tail : Bytes) : Type 0 where
  pub is_checksum : IsChecksum checksum
  pub writable : All IsWritable requests
  pub is_tail : IsTail checksum tail
  pub held : c.rest ≡ encode_log checksum (c.sequence + 1) requests ++ tail
  pub sized : size ≡ c.offset + length c.rest
  pub calm : (offset : ℕ) → faults.context offset ≡ none
  pub calm_reads : (at : ℕ) → faults.read at ≡ none
  pub in_space : c.sequence + length requests < 2 ^ 64
  pub within : c.sequence + length requests ≤ call.through
  pub starts : c.first_record ≡ true → c.sequence + 1 ≡ call.first_sequence

module _ (checksum : Bytes → ℕ) (faults : SegmentFaults) (call : SegmentCall) (size : ℕ) where
  abbrev behind : Cursor → WriteRequest → Bytes → Cursor
  behind c r rest = record {
    rest = rest;
    offset = c.offset + record_size_for r;
    sequence = c.sequence + 1;
    first_record = false;
    store = replay_one call.snapshot c.store (c.sequence + 1) r;
  }

  Ahead-next :
      (c : Cursor) (r : WriteRequest) (requests : List WriteRequest) (tail : Bytes)
      → Ahead checksum faults call size c (r ∷ requests) tail
      → let rest = encode_log checksum (c.sequence + 1 + 1) requests ++ tail in
        (recover_turn checksum faults call size c ≡ ok (next (behind c r rest)))
        × (length rest + record_size_for r ≡ length c.rest)
        × (27 ≤ record_size_for r)
        × Ahead checksum faults call size (behind c r rest) requests tail
  unfolding encode_log record_size_for
  Ahead-next c r requests tail a =
      let rest = encode_log checksum (c.sequence + 1 + 1) requests ++ tail in
      let first = encode_record checksum (c.sequence + 1) r in
      let held =
        a.held ∙ append_assoc first (encode_log checksum (c.sequence + 1 + 1) requests) tail in
      let lengths : length rest + record_size_for r ≡ length c.rest = omega (
        arith,
        ap length held,
        length-append first rest,
        length-encode_record checksum (c.sequence + 1) r,
      ) in
      let follows : Follows checksum (c.sequence + 1) r call c = record {
        consecutive = refl;
        in_space = omega (arith, a.in_space);
        within = omega (arith, a.within);
        starts = a.starts;
      } in
      (
        recover_turn-written checksum (c.sequence + 1) r faults call size c rest a.is_checksum
            a.writable.0 follows (a.calm c.offset) a.calm_reads held a.sized,
        lengths,
        omega arith,
        record {
          is_checksum = a.is_checksum;
          writable = a.writable.1;
          is_tail = a.is_tail;
          held = refl;
          sized = omega (arith, a.sized, lengths);
          calm = a.calm;
          calm_reads = a.calm_reads;
          in_space = omega (arith, a.in_space);
          within = omega (arith, a.within);
          starts = λ e. cc;
        },
      )

  -- Where the loop stands behind the requests.
  abbrev pub landed : Cursor → List WriteRequest → Bytes → Cursor
  landed c requests tail = record {
    rest = tail;
    offset = c.offset + length (encode_log checksum (c.sequence + 1) requests);
    sequence = c.sequence + length requests;
    first_record = still_first requests c.first_record;
    store = replay_all call.snapshot c.store (c.sequence + 1) requests;
  }

  -- How it leaves: at the end of the file, or at a tail, which only the last segment may have.
  abbrev pub leave : Cursor → Bytes → Option (Result (Cursor × Option ℕ))
  leave c [] = some (ok (c, none))
  leave c (b ∷ bs) =
      if call.final
      then some (do check faults.truncate c.offset; ok (c, some c.offset))
      else some (err (recover_at c.offset unexpected_eof))

  recover_loop-next :
      (fuel : ℕ) (c c' : Cursor)
      → c.offset < size
      → recover_turn checksum faults call size c ≡ ok (next c')
      → recover_loop checksum faults call size (suc fuel) c
        ≡ recover_loop checksum faults call size fuel c'
  unfolding recover_loop
  recover_loop-next fuel c c' h e = rw (lt→ltb c.offset size h, recover_loop) (rw e)

  recover_loop-cut :
      (fuel : ℕ) (c : Cursor) (b : ℕ) (bs : Bytes)
      → c.offset < size
      → recover_turn checksum faults call size c ≡ cut_off call.final c.offset
      → recover_loop checksum faults call size (suc fuel) c ≡ leave c (b ∷ bs)
  unfolding recover_loop cut_off
  recover_loop-cut fuel c b bs h e = ground (arith, e)

  held-nil : (c : Cursor) (tail : Bytes) → Ahead checksum faults call size c [] tail → c.rest ≡ tail
  unfolding encode_log
  held-nil c tail a = a.held

  recover_loop-tail :
      (fuel : ℕ) (c : Cursor) (tail : Bytes)
      → Ahead checksum faults call size c [] tail
      → length c.rest < fuel
      → recover_loop checksum faults call size fuel c ≡ leave c tail
  recover_loop-tail zero c tail a f = absurd (omega arith)
  recover_loop-tail (suc fuel) c [] a f =
      let none_left : length c.rest ≡ 0 = ap length (held-nil c [] a) in
      unfold recover_loop in
      rw (ge→ltb c.offset size (omega (arith, a.sized, none_left)), recover_loop)
  recover_loop-tail (suc fuel) c (b ∷ bs) a f =
      let left : length c.rest ≡ suc (length bs) = ap length (held-nil c (b ∷ bs) a) in
      at_tail a.is_tail left
    where
      at_tail :
          IsTail checksum (b ∷ bs)
          → length c.rest ≡ suc (length bs)
          → recover_loop checksum faults call size (suc fuel) c ≡ leave c (b ∷ bs)
      at_tail (inl nil) left = cc
      at_tail (inr (n, sequence, r, w, some_bytes, short, cut)) left =
          recover_loop-cut fuel c b bs (omega (arith, a.sized, left)) (
            recover_turn-cut checksum sequence r faults call size n c w (a.calm c.offset)
              a.calm_reads short (held-nil c (b ∷ bs) a ∙ cut) a.sized)

  still_first-eq-false : (requests : List WriteRequest) → still_first requests false ≡ false
  still_first-eq-false [] = refl
  still_first-eq-false (r ∷ requests) = refl

  landed-nil :
      (c : Cursor) (tail : Bytes) → Ahead checksum faults call size c [] tail → c ≡ landed c [] tail
  unfolding encode_log replay_all
  landed-nil c tail a =
      let e₁ = held-nil c tail a in
      let e₂ : c.offset ≡ c.offset + 0 = omega arith in
      let e₃ : c.sequence ≡ c.sequence + 0 = omega arith in
      λ i. record {
        rest = e₁ i;
        offset = e₂ i;
        sequence = e₃ i;
        first_record = c.first_record;
        store = c.store;
      }

  landed-cons :
      (c : Cursor) (r : WriteRequest) (requests : List WriteRequest) (rest tail : Bytes)
      → landed (behind c r rest) requests tail ≡ landed c (r ∷ requests) tail
  unfolding encode_log replay_all
  landed-cons c r requests rest tail =
      let first = encode_record checksum (c.sequence + 1) r in
      let others = encode_log checksum (c.sequence + 1 + 1) requests in
      let e₁ : c.offset + record_size_for r + length others ≡ c.offset + length (first ++ others) =
        omega
          (arith, length-append first others, length-encode_record checksum (c.sequence + 1) r) in
      let e₂ : c.sequence + 1 + length requests ≡ c.sequence + suc (length requests) =
        omega arith in
      let e₃ = still_first-eq-false requests in
      λ i. record {
        rest = tail;
        offset = e₁ i;
        sequence = e₂ i;
        first_record = e₃ i;
        store =
            replay_all call.snapshot (replay_one call.snapshot c.store (c.sequence + 1) r)
              (c.sequence + 1 + 1) requests;
      }

  -- The loop replays every whole record in front of it, in order, and leaves at the tail.
  pub recover_loop-Ahead :
      (requests : List WriteRequest) (fuel : ℕ) (c : Cursor) (tail : Bytes)
      → Ahead checksum faults call size c requests tail
      → length c.rest < fuel
      → recover_loop checksum faults call size fuel c ≡ leave (landed c requests tail) tail
  recover_loop-Ahead [] fuel c tail a f =
      recover_loop-tail fuel c tail a f ∙ ap (λ x. leave x tail) (landed-nil c tail a)
  recover_loop-Ahead (r ∷ requests) zero c tail a f = absurd (omega arith)
  recover_loop-Ahead (r ∷ requests) (suc fuel) c tail a f =
      let (turn, lengths, minimal, ahead) = Ahead-next c r requests tail a in
      let c' = behind c r (encode_log checksum (c.sequence + 1 + 1) requests ++ tail) in
      recover_loop-next fuel c c' (omega (arith, a.sized, lengths)) turn
      ∙ recover_loop-Ahead requests fuel c' tail ahead (omega (arith, lengths))
      ∙ ap (λ x. leave x tail)
          (landed-cons c r requests (encode_log checksum (c.sequence + 1 + 1) requests ++ tail)
            tail)
