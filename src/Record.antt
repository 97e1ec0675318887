-- ===== src/Record.antt =====
-- The records of the write-ahead log: `writeRequest`, `recordSizeFor` and `appendRecord` of
-- cache/wal.go. `checksum` stands for `crc32.Checksum` with the Castagnoli table.
pub mod Layout
use go.Prelude.{ℕ, ◌+◌, ◌-◌, ◌^◌, List, [], ◌∷◌, ◌++◌, length}
use go.Prelude.Int.{ℤ, to_uint64}
use go.Wire.{Bytes, put_le}
use go.Shard.{Key}

pub data RequestKind : Type 0 where
  request_set request_delete request_sync request_close : RequestKind

-- The answer that goes to the channel `result` is a result of the writer's functions.
pub record WriteRequest : Type 0 where
  pub kind : RequestKind
  pub key : Key
  pub value : Bytes
  pub deadline : ℤ

abbrev pub record_fixed_size : ℕ
record_fixed_size = 27

abbrev pub op_set : ℕ
op_set = 1

abbrev pub op_delete : ℕ
op_delete = 2

abbrev pub max_sequence : ℕ
max_sequence = 2 ^ 64 - 1

unfoldable pub record_size_for : WriteRequest → ℕ
record_size_for request = record_fixed_size + length request.key + length request.value

unfoldable pub op_of : RequestKind → ℕ
op_of request_set = op_set
op_of _ = op_delete

-- The record from `recordOpOffset` on: what the checksum covers.
unfoldable pub record_body : ℕ → WriteRequest → Bytes
unfolding op_of
record_body sequence request =
    op_of request.kind
    ∷ (put_le 2 (length request.key)
        ++ (put_le 8 (to_uint64 request.deadline)
            ++ (put_le 8 sequence ++ (request.key ++ request.value))))

-- The fields at `recordCRCOffset` and before it are the length, without its own four bytes, and the
-- checksum.
unfoldable pub encode_record : (Bytes → ℕ) → ℕ → WriteRequest → Bytes
unfolding record_body
encode_record checksum sequence request =
    let body = record_body sequence request in
    put_le 4 (record_size_for request - 4) ++ (put_le 4 (checksum body) ++ body)

unfoldable pub append_record : (Bytes → ℕ) → Bytes → ℕ → WriteRequest → Bytes
unfolding encode_record
append_record checksum dst sequence request = dst ++ encode_record checksum sequence request
