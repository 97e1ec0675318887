-- ===== src/Errors.antt =====
-- The errors of cache/ as values. The file and the offset that a message names are kept, its text is
-- not. `os n` is an error that the operating system or a context returns; `n` tells such errors apart.
use go.Prelude.{ℕ}
use go.Wire.{Bytes}

pub data Cause : Type 0 where
  unexpected_eof : Cause
  short_write : Cause
  unknown_magic : Cause
  unsupported_version : ℕ → Cause
  unsupported_flags : Cause
  crc_mismatch : Cause
  key_length_exceeds : ℕ → Cause
  sequence_gap : ℕ → ℕ → Cause
  segment_starts_at : ℕ → ℕ → Cause
  delete_with_deadline : Cause
  delete_with_value : Cause
  unknown_operation : ℕ → Cause
  invalid_shard_count : ℕ → Cause
  entry_sequence_exceeds : ℕ → ℕ → Cause
  os : ℕ → Cause

pub data Error : Type 0 where
  closed : Error
  nil_context : Error
  nil_option : ℕ → Error
  invalid_option : ℕ → Error
  capacity_per_shard : Error
  ttl_not_positive : Error
  key_too_large : ℕ → Error
  record_too_large : Error
  entry_too_large : ℕ → ℕ → Error
  invalid_name : Bytes → Error
  duplicate_sequence : ℕ → Error
  gap_after_snapshot : ℕ → Error
  oldest_retained : ℕ → Error
  gap_after_wal : ℕ → ℕ → Error
  snapshot_newer : ℕ → ℕ → Error
  compaction_gap : ℕ → Error
  compaction_short : ℕ → ℕ → Error
  sequence_exhausted : Error
  after_eviction : ℕ → Error
  directory_locked : Error
  recover_at : ℕ → Cause → Error
  write_log : ℕ → Cause → Error
  io_failed : Cause → Error
  joined : Error → Error → Error

-- Go's `(value, error)`, where no value is used beside an error.
pub data Result {ℓ} (V : Type ℓ) : Type ℓ where
  ok : V → Result V
  err : Error → Result V

infixl 5 ◌>>=◌ ◌>>◌
-- `if err != nil { return err }`, and on with the value.
abbrev pub ◌>>=◌ {ℓ κ} : {V : Type ℓ} {W : Type κ} → Result V → (V → Result W) → Result W
err failure >>= rest = err failure
ok value >>= rest = rest value

abbrev pub ◌>>◌ {κ} : {W : Type κ} → Result (Unit {0}) → Result W → Result W
first >> rest = first >>= λ _. rest
