-- ===== src/Segment/Replay.antt =====
-- What one turn of `recoverSegment` does on a record that `appendRecord` wrote, whole or cut off.
use go.Prelude.{ℕ, ◌+◌, ◌-◌, ◌^◌, ◌≤◌, ◌<◌, ◌≡◌, refl, sym, ap, ◌∙◌, arith, Bool, true, false}
use go.Prelude.{
  [], ◌∷◌, ◌++◌, none, length, length-append, take, drop, slice, if◌then◌else◌, length-take,
  append_assoc,
}
use go.Prelude.{take-append, drop-append, drop-add, take-append_more, dec_lt}
use go.Prelude.Int.{ℤ, pos, IsInt64, to_uint64, of_uint64, to_uint64-lt, of_uint64-to_uint64}
use go.Wire.{Bytes, le, put_le, read_full-append, length-put_le, le-put_le}
use go.Errors.{sequence_gap, recover_at, err, ok}
use go.Record.{
  WriteRequest, RequestKind, request_set, request_delete, request_sync, request_close, op_of,
  record_body, record_size_for, encode_record,
}
use go.Record.Layout.{
  payload_of, payload_slices, encode_record_lem, length-record_body, length-encode_record,
}
use go.Shard.{Key}
use go.Store.{Store, set_recovered, delete_applied}
use go.Segment.{
  SegmentFaults, SegmentCall, SnapshotState, Cursor, next, Fields, fields_of, applies,
  apply_operation, replay_payload, recover_turn, cut_off,
}

-- A `crc32` is a `uint32`.
abbrev pub IsChecksum : (Bytes → ℕ) → Type 0
IsChecksum checksum = (bs : Bytes) → checksum bs < 2 ^ 32

-- What passed `validateRecordSize`, with a deadline that is an `int64`; a delete has neither value
-- nor deadline.
abbrev pub IsOperation : RequestKind → Bytes → ℤ → Type 0
IsOperation request_set value deadline = Unit
IsOperation request_delete value deadline = (value ≡ []) × (deadline ≡ pos 0)
IsOperation _ value deadline = ⊥

pub record IsWritable (request : WriteRequest) : Type 0 where
  pub short_key : length request.key < 2 ^ 16
  pub short_record : record_size_for request < 2 ^ 32
  pub dated : IsInt64 request.deadline
  pub operation : IsOperation request.kind request.value request.deadline

-- What the recovery does with a record, if it applies.
unfoldable pub replay_one : SnapshotState → Store → ℕ → WriteRequest → Store
replay_one snapshot store sequence request =
    if applies store snapshot request.key sequence
    then (elim request.kind [
      | request_set ↦ set_recovered store request.key request.value request.deadline sequence
      | _ ↦ delete_applied store request.key sequence
    ])
    else store

apply_operation-written :
    (kind : RequestKind) (store : Store) (offset : ℕ) (apply : Bool) (key_length : ℕ) (deadline : ℤ)
    (sequence : ℕ) (key : Key) (value : Bytes)
    → IsOperation kind value deadline
    → let f : Fields = record {
      op = op_of kind;
      key_length = key_length;
      deadline = deadline;
      record_sequence = sequence;
    } in
      apply_operation store offset apply f key value
      ≡ ok (
          if apply
          then (elim kind [
            | request_set ↦ set_recovered store key value deadline sequence
            | _ ↦ delete_applied store key sequence
          ])
          else store)
unfolding apply_operation op_of
apply_operation-written request_set store offset apply key_length deadline sequence key value o =
    refl
apply_operation-written request_delete store offset apply key_length deadline sequence key value
      (v, d) =
    rw (v, d) refl
apply_operation-written request_sync store offset apply key_length deadline sequence key value o =
    absurd o
apply_operation-written request_close store offset apply key_length deadline sequence key value o =
    absurd o

module _ (checksum : Bytes → ℕ) (sequence : ℕ) (request : WriteRequest) where
  fields : Fields
  fields = record {
    op = op_of request.kind;
    key_length = length request.key;
    deadline = request.deadline;
    record_sequence = sequence;
  }

  fields_of-payload :
      IsWritable request
      → sequence < 2 ^ 64
      → fields_of (payload_of checksum sequence request) ≡ fields
  unfolding fields_of fields le
  fields_of-payload w h =
      let (crc, body, op, key_length, deadline, seq, rest) =
        payload_slices checksum sequence request in
      let op_path : le (op_of request.kind ∷ []) ≡ op_of request.kind = omega arith in
      let e₁ = ap le op ∙ op_path in
      let e₂ = ap le key_length ∙ le-put_le 2 (length request.key) (omega (arith, w.short_key)) in
      let e₃ =
        ap (λ b. of_uint64 (le b)) deadline
        ∙ ap of_uint64 (
            le-put_le 8 (to_uint64 request.deadline)
              (omega (arith, to_uint64-lt request.deadline w.dated)))
        ∙ of_uint64-to_uint64 request.deadline w.dated in
      let e₄ = ap le seq ∙ le-put_le 8 sequence (omega arith) in
      λ i. record { op = e₁ i; key_length = e₂ i; deadline = e₃ i; record_sequence = e₄ i }

  key-payload :
      slice 23 (23 + length request.key) (payload_of checksum sequence request) ≡ request.key
  key-payload =
      let e : 23 + length request.key - 23 ≡ length request.key = omega arith in
      let (crc, body, op, key_length, deadline, seq, rest) =
        payload_slices checksum sequence request in
      ap (λ n. take n (drop 23 (payload_of checksum sequence request))) e
      ∙ ap (take (length request.key)) rest
      ∙ take-append (length request.key) request.key request.value refl

  value-payload :
      drop (23 + length request.key) (payload_of checksum sequence request) ≡ request.value
  value-payload =
      let (crc, body, op, key_length, deadline, seq, rest) =
        payload_slices checksum sequence request in
      drop-add 23 (length request.key) (payload_of checksum sequence request)
      ∙ ap (drop (length request.key)) rest
      ∙ drop-append (length request.key) request.key request.value refl

  pub length-payload_of :
      length (payload_of checksum sequence request) + 4 ≡ record_size_for request
  unfolding payload_of put_le
  length-payload_of = omega (arith, length-record_body sequence request)

  -- The sequence number follows the last one, and starts the segment if the record is its first.
  pub record Follows (call : SegmentCall) (c : Cursor) : Type 0 where
    pub consecutive : sequence ≡ c.sequence + 1
    pub in_space : sequence < 2 ^ 64
    pub within : sequence ≤ call.through
    pub starts : c.first_record ≡ true → sequence ≡ call.first_sequence

  replay_payload-written :
      (call : SegmentCall) (c : Cursor) (end : ℕ) (rest : Bytes)
      → IsWritable request
      → Follows call c
      → replay_payload call c end (payload_of checksum sequence request) rest
        ≡ ok (
            next (record {
              rest = rest;
              offset = end;
              sequence = sequence;
              first_record = false;
              store = replay_one call.snapshot c.store sequence request;
            }))
  unfolding replay_payload replay_one fields record_size_for
  replay_payload-written call c end rest w f = ground (
    arith,
    fields_of-payload w f.in_space,
    key-payload,
    value-payload,
    length-payload_of,
    apply_operation-written request.kind c.store c.offset
        (applies c.store call.snapshot request.key sequence) (length request.key) request.deadline
        sequence request.key request.value w.operation,
  )

  replay_payload-gap :
      (call : SegmentCall) (c : Cursor) (end : ℕ) (rest : Bytes)
      → IsWritable request
      → sequence < 2 ^ 64
      → sequence ≤ call.through
      → ¬ (sequence ≡ c.sequence + 1)
      → replay_payload call c end (payload_of checksum sequence request) rest
        ≡ err (recover_at c.offset (sequence_gap sequence c.sequence))
  unfolding replay_payload fields record_size_for
  replay_payload-gap call c end rest w space within other =
      ground (arith, fields_of-payload w space, length-payload_of, other)

  length_field :
      IsWritable request → le (put_le 4 (record_size_for request - 4)) ≡ record_size_for request - 4
  length_field w = le-put_le 4 (record_size_for request - 4) (omega (arith, w.short_record))

  checksum_field :
      IsChecksum checksum
      → checksum (drop 4 (payload_of checksum sequence request))
        ≡ le (slice 0 4 (payload_of checksum sequence request))
  checksum_field is =
      let (crc, body, op, key_length, deadline, seq, rest) =
        payload_slices checksum sequence request in
      ap checksum body
      ∙ sym (
          le-put_le 4 (checksum (record_body sequence request))
            (omega (arith, is (record_body sequence request))))
      ∙ sym (ap le crc)

  -- A turn on a record that is all there comes to its payload, whatever its number is.
  recover_turn-payload :
      (faults : SegmentFaults) (call : SegmentCall) (size : ℕ) (c : Cursor) (behind : Bytes)
      → IsChecksum checksum
      → IsWritable request
      → faults.context c.offset ≡ none
      → ((at : ℕ) → faults.read at ≡ none)
      → c.rest ≡ encode_record checksum sequence request ++ behind
      → size ≡ c.offset + length c.rest
      → recover_turn checksum faults call size c
        ≡ replay_payload call c
            (c.offset + record_size_for request)
            (payload_of checksum sequence request)
            behind
  unfolding recover_turn
  recover_turn-payload faults call size c behind is w calm calm_reads held sized =
      let payload = payload_of checksum sequence request in
      let field = put_le 4 (record_size_for request - 4) in
      let bytes : c.rest ≡ field ++ (payload ++ behind) =
        held
        ∙ ap (λ b. b ++ behind) (encode_record_lem checksum sequence request)
        ∙ append_assoc field payload behind in
      let whole = ap length held ∙ length-append (encode_record checksum sequence request) behind in
      let end : c.offset + 4 + le field ≡ c.offset + record_size_for request =
        omega (arith, length_field w, minimal) in
      ground (
        arith,
        calm,
        calm_reads c.offset,
        calm_reads (c.offset + 4),
        whole,
        length-encode_record checksum sequence request,
        minimal,
        length_field w,
        read_full-append 4 field (payload ++ behind)
            (length-put_le 4 (record_size_for request - 4)),
        read_full-append (le field) payload behind
            (omega (arith, length_field w, length-payload_of)),
        checksum_field is,
        end,
      )
    where
      minimal : 27 ≤ record_size_for request
      minimal = unfold record_size_for in omega arith

  -- It replays a record that follows, and goes on behind it.
  pub recover_turn-written :
      (faults : SegmentFaults) (call : SegmentCall) (size : ℕ) (c : Cursor) (behind : Bytes)
      → IsChecksum checksum
      → IsWritable request
      → Follows call c
      → faults.context c.offset ≡ none
      → ((at : ℕ) → faults.read at ≡ none)
      → c.rest ≡ encode_record checksum sequence request ++ behind
      → size ≡ c.offset + length c.rest
      → recover_turn checksum faults call size c
        ≡ ok (
            next (record {
              rest = behind;
              offset = c.offset + record_size_for request;
              sequence = sequence;
              first_record = false;
              store = replay_one call.snapshot c.store sequence request;
            }))
  recover_turn-written faults call size c behind is w f calm calm_reads held sized =
      recover_turn-payload faults call size c behind is w calm calm_reads held sized
      ∙ replay_payload-written call c (c.offset + record_size_for request) behind w f

  -- It refuses one that does not.
  pub recover_turn-gap :
      (faults : SegmentFaults) (call : SegmentCall) (size : ℕ) (c : Cursor) (behind : Bytes)
      → IsChecksum checksum
      → IsWritable request
      → sequence < 2 ^ 64
      → sequence ≤ call.through
      → ¬ (sequence ≡ c.sequence + 1)
      → faults.context c.offset ≡ none
      → ((at : ℕ) → faults.read at ≡ none)
      → c.rest ≡ encode_record checksum sequence request ++ behind
      → size ≡ c.offset + length c.rest
      → recover_turn checksum faults call size c
        ≡ err (recover_at c.offset (sequence_gap sequence c.sequence))
  recover_turn-gap faults call size c behind is w space within other calm calm_reads held sized =
      recover_turn-payload faults call size c behind is w calm calm_reads held sized
      ∙ replay_payload-gap call c (c.offset + record_size_for request) behind w space within other

  -- A turn at a proper prefix of a record, which the file ends in, finds it cut off.
  pub recover_turn-cut :
      (faults : SegmentFaults) (call : SegmentCall) (size n : ℕ) (c : Cursor)
      → IsWritable request
      → faults.context c.offset ≡ none
      → ((at : ℕ) → faults.read at ≡ none)
      → n < record_size_for request
      → c.rest ≡ take n (encode_record checksum sequence request)
      → size ≡ c.offset + length c.rest
      → recover_turn checksum faults call size c ≡ cut_off call.final c.offset
  unfolding recover_turn
  recover_turn-cut faults call size n c w calm calm_reads short held sized = elim (dec_lt n 4) [
    | yes tiny ↦ ground (arith, calm, calm_reads c.offset, held_length)
    | no more ↦
        let rest = take (n - 4) payload in
        let split : c.rest ≡ field ++ rest =
          held
          ∙ ap (take n) (encode_record_lem checksum sequence request)
          ∙ ap (λ k. take k (field ++ payload)) (omega arith)
          ∙ take-append_more 4 (n - 4) field payload
              (length-put_le 4 (record_size_for request - 4)) in
        ground (
          arith,
          calm,
          calm_reads c.offset,
          calm_reads (c.offset + 4),
          held_length,
          length_field w,
          read_full-append 4 field rest (length-put_le 4 (record_size_for request - 4)),
        )
  ]
    where
      payload : Bytes
      payload = payload_of checksum sequence request

      field : Bytes
      field = put_le 4 (record_size_for request - 4)

      held_length : length c.rest ≡ n
      held_length =
          ap length held
          ∙ length-take n (encode_record checksum sequence request)
          ∙ omega (arith, length-encode_record checksum sequence request)
