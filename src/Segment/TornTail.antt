-- ===== src/Segment/TornTail.antt =====
-- Crash safety of the last segment: `recoverSegment` on any prefix of what was written.
use go.Prelude.{
  ℕ, zero, suc, ◌+◌, ◌-◌, ◌^◌, ◌≤◌, ◌<◌, ◌≡◌, refl, sym, ap, ◌∙◌, arith, true, ◌⊎◌, inl, inr,
}
use go.Prelude.{
  List, [], ◌∷◌, ◌++◌, none, some, length, length-append, take, All, ◌==◌, if◌then◌else◌,
  length-take, append_assoc, dec_lt,
}
use go.Prelude.{take_whole, take-append_more, take-append_less}
use go.Wire.{Bytes, put_le, le, read_full, bytes_eq}
use go.Errors.{ok}
use go.Record.{WriteRequest, record_size_for, encode_record}
use go.Record.Layout.{length-encode_record}
use go.Store.{Store}
use go.Segment.{
  no_faults, SegmentCall, SnapshotState, Cursor, Recovered, finish, segment_header, read_header,
  recover_loop, recover_segment,
}
use go.Segment.Replay.{IsChecksum, IsWritable}
use go.Segment.Log.{encode_log, replay_all, IsTail, Ahead, landed, leave, recover_loop-Ahead}

-- The whole records in the first `n` bytes of a log.
record Prefix (checksum : Bytes → ℕ) (n sequence : ℕ) (requests : List WriteRequest) : Type 0 where
  whole : ℕ
  tail : Bytes
  within : whole ≤ length requests
  split :
      take n (encode_log checksum sequence requests)
      ≡ encode_log checksum sequence (take whole requests) ++ tail
  is_tail : IsTail checksum tail
  most :
      (whole ≡ length requests)
      ⊎ (n < length (encode_log checksum sequence (take (suc whole) requests)))

Prefix-encode_log :
    (checksum : Bytes → ℕ) (requests : List WriteRequest) (n sequence : ℕ)
    → All IsWritable requests
    → Prefix checksum n sequence requests
unfolding encode_log
Prefix-encode_log checksum [] n sequence w = record {
  whole = 0;
  tail = [];
  within = omega arith;
  split = take_whole n [] (omega arith);
  is_tail = inl refl;
  most = inl refl;
}
Prefix-encode_log checksum (r ∷ requests) n sequence (wr, w) =
    let first = encode_record checksum sequence r in
    let others = encode_log checksum (sequence + 1) requests in
    let size = length-encode_record checksum sequence r in
    elim (dec_lt n (record_size_for r)) [
      | yes short ↦ record {
        whole = 0;
        tail = take n first;
        within = omega arith;
        split = take-append_less n first others (omega (arith, size));
        is_tail = elim (dec_lt 0 n) [
          | yes some_bytes ↦ inr (n, sequence, r, wr, some_bytes, short, refl)
          | no nothing ↦
              let zero_bytes : n ≡ 0 = omega arith in inl (ap (λ k. take k first) zero_bytes)
        ];
        most = inr (omega (arith, size, length-append first []));
      }
      | no all ↦
          let p = Prefix-encode_log checksum requests (n - record_size_for r) (sequence + 1) w in
          record {
            whole = suc p.whole;
            tail = p.tail;
            within = omega (arith, p.within);
            split =
                ap (λ k. take k (first ++ others)) (back n all)
                ∙ take-append_more (record_size_for r) (n - record_size_for r) first others size
                ∙ ap (λ b. first ++ b) p.split
                ∙ sym (
                    append_assoc first (encode_log checksum (sequence + 1) (take p.whole requests))
                      p.tail);
            is_tail = p.is_tail;
            most = later p.whole p.most;
          }
    ]
  where
    back : (m : ℕ) → ¬ (m < record_size_for r) → m ≡ record_size_for r + (m - record_size_for r)
    back m h = omega arith

    later :
        (k : ℕ)
        → (k ≡ length requests)
          ⊎ (n - record_size_for r
              < length (encode_log checksum (sequence + 1) (take (suc k) requests)))
        → (suc k ≡ suc (length requests))
          ⊎ (n
              < length (
                  encode_record checksum sequence r
                  ++ encode_log checksum (sequence + 1) (take (suc k) requests)))
    later k (inl e) = inl (ap suc e)
    later k (inr h) = inr (
        omega (
          arith,
          h,
          length-encode_record checksum sequence r,
          length-append (encode_record checksum sequence r)
              (encode_log checksum (sequence + 1) (take (suc k) requests)),
        ))

-- The header that `createSegment` writes is accepted.
pub read_header-segment_header :
    (body : Bytes) → read_header no_faults (segment_header ++ body) ≡ ok body
unfolding read_header segment_header put_le le read_full bytes_eq
read_header-segment_header body = ground arith

All-take :
    (k : ℕ) (requests : List WriteRequest)
    → All IsWritable requests
    → All IsWritable (take k requests)
All-take zero requests w = tt
All-take (suc k) [] w = tt
All-take (suc k) (r ∷ requests) (wr, w) = (wr, All-take k requests w)

module _ (checksum : Bytes → ℕ) (previous through : ℕ) (store : Store)
    (snapshot : SnapshotState) where
  unfoldable pub last_segment : SegmentCall
  last_segment = record {
    first_sequence = previous + 1;
    final = true;
    snapshot = snapshot;
    through = through;
  }

  start : Bytes → Cursor
  start body = record {
    rest = body;
    offset = 8;
    sequence = previous;
    first_record = true;
    store = store;
  }

  recover_segment-loop :
      (body : Bytes)
      → recover_segment checksum no_faults last_segment (segment_header ++ body) previous store
        ≡ finish no_faults (
            recover_loop checksum no_faults last_segment
              (8 + length body)
              (suc (8 + length body))
              (start body))
  unfolding recover_segment start
  recover_segment-loop body =
      let size : length (segment_header ++ body) ≡ 8 + length body =
        unfold segment_header put_le in omega (arith, length-append segment_header body) in
      rw (read_header-segment_header body, recover_segment) (rw size)

  -- What is left of the segment behind its whole records, and what the recovery makes of it.
  unfoldable pub outcome : List WriteRequest → ℕ → Recovered
  outcome requests size =
      let end = 8 + length (encode_log checksum (previous + 1) requests) in
      record {
        offset = end;
        sequence = previous + length requests;
        store = replay_all snapshot store (previous + 1) requests;
        truncated = if end == size then none else some end;
      }

  finish-leave :
      (requests : List WriteRequest) (tail : Bytes) (size : ℕ)
      → size ≡ 8 + length (encode_log checksum (previous + 1) requests) + length tail
      → (body : Bytes)
      → finish no_faults (
          leave checksum no_faults last_segment size
            (landed checksum no_faults last_segment size (start body) requests tail)
            tail)
        ≡ some (ok (outcome requests size))
  unfolding outcome last_segment start
  finish-leave requests [] size h body = ground arith
  finish-leave requests (b ∷ bs) size h body = ground arith

  -- Crash safety. A last segment that holds any number `n` of the first bytes of what was written
  -- behind its header, for requests that passed the checks and sequence numbers that do not run out,
  -- is recovered without an error: the whole records in these bytes, the first `k` requests, are
  -- replayed in order, no further one is whole, the log goes on behind them, and the file is
  -- truncated there exactly if it holds more.
  pub recover_segment-prefix :
      (requests : List WriteRequest) (n : ℕ)
      → IsChecksum checksum
      → All IsWritable requests
      → previous + length requests < 2 ^ 64
      → previous + length requests ≤ through
      → let body = take n (encode_log checksum (previous + 1) requests) in
        (k : ℕ) × (k ≤ length requests)
        × ((k ≡ length requests)
            ⊎ (n < length (encode_log checksum (previous + 1) (take (suc k) requests))))
        × (recover_segment checksum no_faults last_segment (segment_header ++ body) previous store
            ≡ some (ok (outcome (take k requests) (8 + length body))))
  recover_segment-prefix requests n is w space within =
      let body = take n (encode_log checksum (previous + 1) requests) in
      let p = Prefix-encode_log checksum requests n (previous + 1) w in
      let kept = take p.whole requests in
      let count = length-take p.whole requests in
      let size = 8 + length body in
      let ahead : Ahead checksum no_faults last_segment size (start body) kept p.tail =
        unfold last_segment start in
        record {
          is_checksum = is;
          writable = All-take p.whole requests w;
          is_tail = p.is_tail;
          held = p.split;
          sized = refl;
          calm = λ offset. refl;
          calm_reads = λ at. refl;
          in_space = omega (arith, space, count, p.within);
          within = omega (arith, within, count, p.within);
          starts = λ e. refl;
        } in
      (
        p.whole,
        p.within,
        p.most,
        recover_segment-loop body
            ∙ ap (finish no_faults) (
                recover_loop-Ahead checksum no_faults last_segment size kept (suc size) (start body)
                  p.tail ahead (unfold start in omega arith))
            ∙ finish-leave kept p.tail size
                (omega (
                  arith,
                  ap length p.split,
                  length-append (encode_log checksum (previous + 1) kept) p.tail,
                ))
                body,
      )
