-- ===== src/Record/Layout.antt =====
-- The fields of an encoded record, as slices of it read them.
use go.Prelude.{ℕ, ◌+◌, ◌-◌, ◌≡◌, refl, arith, [], ◌∷◌, ◌++◌, length, length-append}
use go.Prelude.{drop, slice}
use go.Prelude.Int.{to_uint64}
use go.Wire.{Bytes, put_le}
use go.Record.{WriteRequest, op_of, record_body, record_size_for, encode_record}

pub length-record_body :
    (sequence : ℕ) (request : WriteRequest)
    → length (record_body sequence request) + 8 ≡ record_size_for request
unfolding record_body record_size_for put_le
length-record_body sequence request = omega (arith, length-append request.key request.value)

pub length-encode_record :
    (checksum : Bytes → ℕ) (sequence : ℕ) (request : WriteRequest)
    → length (encode_record checksum sequence request) ≡ record_size_for request
unfolding encode_record put_le
length-encode_record checksum sequence request = omega (arith, length-record_body sequence request)

-- The bytes behind the length: what `recoverSegment` calls the payload.
unfoldable pub payload_of : (Bytes → ℕ) → ℕ → WriteRequest → Bytes
unfolding record_body
payload_of checksum sequence request =
    let body = record_body sequence request in put_le 4 (checksum body) ++ body

pub encode_record_lem :
    (checksum : Bytes → ℕ) (sequence : ℕ) (request : WriteRequest)
    → encode_record checksum sequence request
      ≡ put_le 4 (record_size_for request - 4) ++ payload_of checksum sequence request
unfolding encode_record payload_of
encode_record_lem checksum sequence request = refl

-- The slices that the recovery takes of a payload.
module _ (checksum : Bytes → ℕ) (sequence : ℕ) (request : WriteRequest) where
  abbrev pub payload : Bytes
  payload = payload_of checksum sequence request

  pub payload_slices :
      (slice 0 4 payload ≡ put_le 4 (checksum (record_body sequence request)))
      × (drop 4 payload ≡ record_body sequence request)
      × (slice 4 5 payload ≡ op_of request.kind ∷ [])
      × (slice 5 7 payload ≡ put_le 2 (length request.key))
      × (slice 7 15 payload ≡ put_le 8 (to_uint64 request.deadline))
      × (slice 15 23 payload ≡ put_le 8 sequence)
      × (drop 23 payload ≡ request.key ++ request.value)
  unfolding payload_of record_body put_le
  payload_slices = (refl, refl, refl, refl, refl, refl, refl)
