-- ===== src/Segment/Gap.antt =====
-- `recoverSegment` on a segment whose first record does not follow the one before.
use go.Prelude.{ℕ, suc, ◌+◌, ◌^◌, ◌≤◌, ◌<◌, ◌≡◌, refl, ◌∙◌, arith, lt→ltb}
use go.Prelude.{◌++◌, some, length, length-append}
use go.Wire.{Bytes}
use go.Errors.{Error, err, recover_at, sequence_gap}
use go.Record.{WriteRequest, encode_record, record_size_for}
use go.Record.Layout.{length-encode_record}
use go.Store.{Store}
use go.Segment.{
  SegmentCall, Cursor, no_faults, finish, recover_turn, recover_loop, recover_segment,
  segment_header,
}
use go.Segment.Replay.{IsChecksum, IsWritable, recover_turn-gap}
use go.Segment.Whole.{begin, loop-begin}

module _ (checksum : Bytes → ℕ) (is : IsChecksum checksum) where
  some_bytes :
      (sequence : ℕ) (r : WriteRequest) (behind : Bytes)
      → 0 < length (encode_record checksum sequence r ++ behind)
  some_bytes sequence r behind =
      let size = length-encode_record checksum sequence r in
      let whole = length-append (encode_record checksum sequence r) behind in
      let minimal : 27 ≤ record_size_for r = unfold record_size_for in omega arith in
      omega (arith, size, whole, minimal)

  loop-refused :
      (call : SegmentCall) (size fuel : ℕ) (c : Cursor) (e : Error)
      → c.offset < size
      → recover_turn checksum no_faults call size c ≡ err e
      → finish no_faults (recover_loop checksum no_faults call size (suc fuel) c) ≡ some (err e)
  unfolding recover_loop
  loop-refused call size fuel c e more h = rw (lt→ltb c.offset size more, recover_loop) (rw h refl)

  -- A segment whose first record has a number of its own.
  pub recover_segment-gap :
      (call : SegmentCall) (previous sequence : ℕ) (store : Store) (r : WriteRequest)
      (behind : Bytes)
      → IsWritable r
      → sequence < 2 ^ 64
      → sequence ≤ call.through
      → ¬ (sequence ≡ previous + 1)
      → recover_segment checksum no_faults call
          (segment_header ++ (encode_record checksum sequence r ++ behind))
          previous
          store
        ≡ some (err (recover_at 8 (sequence_gap sequence previous)))
  recover_segment-gap call previous sequence store r behind w space within other =
      let body = encode_record checksum sequence r ++ behind in
      loop-begin checksum call previous store body
      ∙ loop-refused call (8 + length body) (8 + length body)
          (begin checksum call previous store body) _ (omega (arith, some_bytes sequence r behind))
          (recover_turn-gap checksum sequence r no_faults call (8 + length body)
            (begin checksum call previous store body) behind is w space within other refl
            (λ at. refl) refl refl)
