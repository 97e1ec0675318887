-- ===== src/Segment/Whole.antt =====
-- `recoverSegment` on a segment that holds whole records only, the last one or another.
use go.Prelude.{ℕ, suc, ◌+◌, ◌^◌, ◌≤◌, ◌<◌, ◌≡◌, refl, sym, ap, ◌∙◌, arith, inl, true}
use go.Prelude.{List, [], ◌++◌, none, some, length, length-append, All, append-nil}
use go.Wire.{Bytes, put_le}
use go.Errors.{ok}
use go.Record.{WriteRequest}
use go.Store.{Store}
use go.Segment.{
  no_faults, SegmentCall, Cursor, finish, segment_header, recover_loop, recover_segment,
}
use go.Segment.Replay.{IsChecksum, IsWritable}
use go.Segment.Log.{encode_log, replay_all, Ahead, recover_loop-Ahead}
use go.Segment.TornTail.{read_header-segment_header}

module _ (checksum : Bytes → ℕ) (call : SegmentCall) (previous : ℕ) (store : Store) where
  abbrev pub begin : Bytes → Cursor
  begin body = record {
    rest = body;
    offset = 8;
    sequence = previous;
    first_record = true;
    store = store;
  }

  pub loop-begin :
      (body : Bytes)
      → recover_segment checksum no_faults call (segment_header ++ body) previous store
        ≡ finish no_faults (
            recover_loop checksum no_faults call
              (8 + length body)
              (suc (8 + length body))
              (begin body))
  unfolding recover_segment
  loop-begin body =
      let size : length (segment_header ++ body) ≡ 8 + length body =
        unfold segment_header put_le in omega (arith, length-append segment_header body) in
      rw (read_header-segment_header body, recover_segment) (rw size)

module _ (checksum : Bytes → ℕ) (call : SegmentCall) (previous : ℕ) (store : Store)
    (requests : List WriteRequest) where
  abbrev body : Bytes
  body = encode_log checksum (previous + 1) requests

  -- All records are replayed, and the file is not truncated.
  pub recover_segment-whole :
      IsChecksum checksum
      → All IsWritable requests
      → previous + length requests < 2 ^ 64
      → previous + length requests ≤ call.through
      → call.first_sequence ≡ previous + 1
      → recover_segment checksum no_faults call (segment_header ++ body) previous store
        ≡ some (
            ok (record {
              offset = 8 + length body;
              sequence = previous + length requests;
              store = replay_all call.snapshot store (previous + 1) requests;
              truncated = none;
            }))
  recover_segment-whole is w space within first =
      let ahead : Ahead checksum no_faults call (8 + length body)
          (begin checksum call previous store body) requests [] =
        record {
          is_checksum = is;
          writable = w;
          is_tail = inl refl;
          held = sym (append-nil body);
          sized = refl;
          calm = λ offset. refl;
          calm_reads = λ at. refl;
          in_space = space;
          within = within;
          starts = λ e. sym first;
        } in
      loop-begin checksum call previous store body
      ∙ ap (finish no_faults) (
          recover_loop-Ahead checksum no_faults call (8 + length body) requests
            (suc (8 + length body)) (begin checksum call previous store body) [] ahead
            (omega arith))
