-- ===== src/Snapshot/Layout.antt =====
-- The fields of the record of an entry, as slices of it read them.
use go.Prelude.{ℕ, ◌+◌, ◌-◌, ◌^◌, ◌<◌, ◌≡◌, refl, ap, ◌∙◌, arith}
use go.Prelude.{◌++◌, length, length-append, take, drop, slice, drop-add, take-append, drop-append}
use go.Prelude.Int.{IsInt64, to_uint64, of_uint64, to_uint64-lt, of_uint64-to_uint64}
use go.Wire.{Bytes, put_le, le, le-put_le}
use go.Shard.{Entry}
use go.Snapshot.{entry_length, entry_body, encode_snapshot_entry}
use go.Snapshot.Load.{entry_fields}

pub length-entry_body : (e : Entry) → length (entry_body e) + 8 ≡ entry_length e
unfolding entry_body entry_length put_le
length-entry_body e = omega (arith, length-append e.key e.value)

pub length-encode_snapshot_entry :
    (checksum : Bytes → ℕ) (e : Entry) → length (encode_snapshot_entry checksum e) ≡ entry_length e
unfolding encode_snapshot_entry put_le
length-encode_snapshot_entry checksum e = omega (arith, length-entry_body e)

-- The bytes behind the length: what `loadSnapshot` calls the payload.
unfoldable pub entry_payload : (Bytes → ℕ) → Entry → Bytes
unfolding entry_body
entry_payload checksum e = let body = entry_body e in put_le 4 (checksum body) ++ body

pub encode_snapshot_entry_lem :
    (checksum : Bytes → ℕ) (e : Entry)
    → encode_snapshot_entry checksum e ≡ put_le 4 (entry_length e - 4) ++ entry_payload checksum e
unfolding encode_snapshot_entry entry_payload
encode_snapshot_entry_lem checksum e = refl

-- What an entry of a store is: its sizes passed `validateRecordSize`, and its numbers are words.
pub record IsStorable (e : Entry) : Type 0 where
  pub short_key : length e.key < 2 ^ 16
  pub short_entry : entry_length e < 2 ^ 32
  pub dated : IsInt64 e.deadline
  pub numbered : e.sequence < 2 ^ 64

module _ (checksum : Bytes → ℕ) (e : Entry) where
  payload_slices :
      (slice 4 6 (entry_payload checksum e) ≡ put_le 2 (length e.key))
      × (slice 6 14 (entry_payload checksum e) ≡ put_le 8 (to_uint64 e.deadline))
      × (slice 14 22 (entry_payload checksum e) ≡ put_le 8 e.sequence)
      × (drop 22 (entry_payload checksum e) ≡ e.key ++ e.value)
  unfolding entry_payload entry_body put_le
  payload_slices = (refl, refl, refl, refl)

  pub checksum_slices :
      (slice 0 4 (entry_payload checksum e) ≡ put_le 4 (checksum (entry_body e)))
      × (drop 4 (entry_payload checksum e) ≡ entry_body e)
  unfolding entry_payload entry_body put_le
  checksum_slices = (refl, refl)

  pub length-entry_payload : length (entry_payload checksum e) + 4 ≡ entry_length e
  unfolding entry_payload put_le
  length-entry_payload = omega (arith, length-entry_body e)

  pub entry_fields-payload :
      IsStorable e
      → entry_fields (entry_payload checksum e)
        ≡ record { key_length = length e.key; deadline = e.deadline; sequence = e.sequence }
  unfolding entry_fields
  entry_fields-payload s =
      let (key_length, deadline, sequence, rest) = payload_slices in
      let e₁ = ap le key_length ∙ le-put_le 2 (length e.key) (omega (arith, s.short_key)) in
      let e₂ =
        ap (λ b. of_uint64 (le b)) deadline
        ∙ ap of_uint64
            (le-put_le 8 (to_uint64 e.deadline) (omega (arith, to_uint64-lt e.deadline s.dated)))
        ∙ of_uint64-to_uint64 e.deadline s.dated in
      let e₃ = ap le sequence ∙ le-put_le 8 e.sequence (omega (arith, s.numbered)) in
      λ i. record { key_length = e₁ i; deadline = e₂ i; sequence = e₃ i }

  pub key-entry_payload : slice 22 (22 + length e.key) (entry_payload checksum e) ≡ e.key
  key-entry_payload =
      let n : 22 + length e.key - 22 ≡ length e.key = omega arith in
      ap (λ k. take k (drop 22 (entry_payload checksum e))) n
      ∙ ap (take (length e.key)) payload_slices.3
      ∙ take-append (length e.key) e.key e.value refl

  pub value-entry_payload : drop (22 + length e.key) (entry_payload checksum e) ≡ e.value
  value-entry_payload =
      drop-add 22 (length e.key) (entry_payload checksum e)
      ∙ ap (drop (length e.key)) payload_slices.3
      ∙ drop-append (length e.key) e.key e.value refl
