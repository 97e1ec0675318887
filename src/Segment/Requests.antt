-- ===== src/Segment/Requests.antt =====
-- The checks of `Set`, `SetTTL` and `Delete` of cache/store.go, against what the log and the shards
-- demand of a request.
use go.Prelude.{ℕ, ◌+◌, ◌^◌, ◌≤◌, ◌<◌, ◌≡◌, refl, arith, subst}
use go.Prelude.{[], length}
use go.Prelude.Int.{ℤ, pos, IsInt64}
use go.Wire.{Bytes}
use go.Errors.{Result, ok}
use go.Shard.{Key, entry_overhead}
use go.Record.{WriteRequest, RequestKind, request_set, request_delete, record_size_for}
use go.Store.{
  Store, capacity_for, set_request, set_ttl_request, delete_request, validate_entry_size,
  validate_record_size, submit,
}
use go.Segment.Replay.{IsWritable}

-- A call of a method that writes; `deadline` is what the clock and the TTL give.
pub data Call : Type 0 where
  set : Key → Bytes → Call
  set_ttl : Key → Bytes → ℤ → ℤ → Call
  delete : Key → Call

unfoldable pub request_of : Store → Call → Result WriteRequest
request_of store (set key value) = set_request store key value
request_of store (set_ttl key value ttl deadline) = set_ttl_request store key value ttl deadline
request_of store (delete key) = delete_request store key

-- Lengths and times are machine words.
abbrev pub InMachine : Call → Type 0
InMachine (set key value) = length value < 2 ^ 63
InMachine (set_ttl key value ttl deadline) = (length value < 2 ^ 63) × IsInt64 deadline
InMachine (delete key) = Unit

-- A set fits the shard of its key, a delete fits every shard.
abbrev pub Fits : Store → WriteRequest → RequestKind → Type 0
Fits store r request_set = entry_overhead + length r.key + length r.value ≤ capacity_for store r.key
Fits store r request_delete = r.value ≡ []
Fits store r _ = ⊥

abbrev made : RequestKind → Key → Bytes → ℤ → WriteRequest
made kind key value deadline = record { kind = kind; key = key; value = value; deadline = deadline }

set_ttl_request-ok :
    (store : Store) (key : Key) (value : Bytes) (ttl deadline : ℤ) (r : WriteRequest)
    → set_ttl_request store key value ttl deadline ≡ ok r
    → (made request_set key value deadline ≡ r)
      × (validate_entry_size (capacity_for store key) key (length value) ≡ ok tt)
unfolding set_ttl_request submit
set_ttl_request-ok store key value ttl deadline r e = (ground (arith, e), ground (arith, e))

set_request-ok :
    (store : Store) (key : Key) (value : Bytes) (r : WriteRequest)
    → set_request store key value ≡ ok r
    → (made request_set key value (pos 0) ≡ r)
      × (validate_entry_size (capacity_for store key) key (length value) ≡ ok tt)
unfolding set_request submit
set_request-ok store key value r e = (ground (arith, e), ground (arith, e))

delete_request-ok :
    (store : Store) (key : Key) (r : WriteRequest)
    → delete_request store key ≡ ok r
    → (made request_delete key [] (pos 0) ≡ r) × (length key < 2 ^ 16)
unfolding delete_request validate_record_size submit
delete_request-ok store key r e = (ground (arith, e), ground (arith, e))

validate_entry_size-ok :
    (capacity : ℕ) (key : Key) (n : ℕ)
    → n < 2 ^ 63
    → validate_entry_size capacity key n ≡ ok tt
    → (length key < 2 ^ 16)
      × (27 + length key + n < 2 ^ 32)
      × (entry_overhead + length key + n ≤ capacity)
unfolding validate_entry_size validate_record_size
validate_entry_size-ok capacity key n h e =
    (ground (arith, e), ground (arith, h, e), ground (arith, h, e))

abbrev Accepted : Store → WriteRequest → Type 0
Accepted store r = IsWritable r × Fits store r r.kind

made-Accepted :
    (store : Store) (key : Key) (value : Bytes) (deadline : ℤ)
    → length value < 2 ^ 63
    → IsInt64 deadline
    → validate_entry_size (capacity_for store key) key (length value) ≡ ok tt
    → Accepted store (made request_set key value deadline)
unfolding record_size_for
made-Accepted store key value deadline h d e =
    let checked = validate_entry_size-ok (capacity_for store key) key (length value) h e in
    (
      record { short_key = checked.0; short_record = checked.1; dated = d; operation = tt },
      checked.2,
    )

-- Whatever `Set`, `SetTTL` or `Delete` submits, called with a value and a deadline that fit the
-- machine, is a request that the log can hold and the recovery replays; a set takes no more than
-- the capacity of the shard of its key, and a delete has no value.
pub request_of-IsWritable :
    (store : Store) (call : Call) (r : WriteRequest)
    → InMachine call
    → request_of store call ≡ ok r
    → IsWritable r × Fits store r r.kind
unfolding request_of record_size_for
request_of-IsWritable store (set key value) r h e =
    let (same, checked) = set_request-ok store key value r e in
    subst (Accepted store) same (made-Accepted store key value (pos 0) h (omega arith) checked)
request_of-IsWritable store (set_ttl key value ttl deadline) r (h, d) e =
    let (same, checked) = set_ttl_request-ok store key value ttl deadline r e in
    subst (Accepted store) same (made-Accepted store key value deadline h d checked)
request_of-IsWritable store (delete key) r h e =
    let (same, short) = delete_request-ok store key r e in
    subst (Accepted store) same (
      record {
        short_key = short;
        short_record = omega (arith, short);
        dated = omega arith;
        operation = (refl, refl);
      },
      refl,
    )
