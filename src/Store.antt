-- ===== src/Store.antt =====
-- cache/store.go: the store as a value, its hash and its dispatch to shards, and what the public
-- methods check before they submit a request. Locks are not modelled: each function is what one
-- critical section does.
pub mod Dispatch
pub mod Schedule
pub mod Peek
mod Runs
use go.Prelude.{ℕ, ◌+◌, ◌-◌, ◌*◌, ◌%◌, ◌^◌, bit_and, bit_xor, Bool, true, false}
use go.Prelude.{
  List, [], ◌∷◌, Option, none, some, length, replicate, get_elem?, set, ltb, if◌then◌else◌,
}
use go.Prelude.Int.{ℤ, pos, leb_ℤ}
use go.Wire.{Bytes}
use go.Errors.{
  Error, Result, ok, err, ◌>>=◌, ◌>>◌, closed, ttl_not_positive, key_too_large, record_too_large,
  entry_too_large,
}
use go.Shard.{Key, Shard, Totals, Locked, entry_overhead}
use go.Shard.Operations.{
  get_into, apply_set, apply_recovered_set, apply_delete, enforce_shard, sweep_shard, SweepRound,
}
use go.Record.{WriteRequest, request_set, request_delete, request_sync, record_fixed_size}

-- `last_error` is the latch; `recovery_shard` restricts a recovery to one shard.
pub record Store : Type 0 where
  pub shards : List Shard
  pub shard_mask : ℕ
  pub totals : Totals
  pub records_written : ℕ
  pub bytes_written : ℕ
  pub fsyncs : ℕ
  pub snapshots : ℕ
  pub last_error : Option Error
  pub last_snapshot_error : Option Error
  pub is_closed : Bool
  pub log_sequence : ℕ
  pub snapshot_running : Bool
  pub recovery_shard : Option ℕ

abbrev pub no_totals : Totals
no_totals = record {
  entries = 0;
  bytes = 0;
  hits = 0;
  misses = 0;
  expiries = 0;
  evictions = 0;
  eviction_generation = 0;
  panicked = false;
}

unfoldable pub new_store_state : ℕ → ℕ → Store
new_store_state shard_count shard_capacity = record {
  shards = replicate shard_count (record { recency = []; bytes = 0; capacity = shard_capacity });
  shard_mask = shard_count - 1;
  totals = no_totals;
  records_written = 0;
  bytes_written = 0;
  fsyncs = 0;
  snapshots = 0;
  last_error = none;
  last_snapshot_error = none;
  is_closed = false;
  log_sequence = 0;
  snapshot_running = false;
  recovery_shard = none;
}

-- The loop of `hashKey` over the bytes of the key.
unfoldable pub hash_from : ℕ → Bytes → ℕ
hash_from hash [] = hash
hash_from hash (b ∷ bs) = hash_from (bit_xor hash b * 1099511628211 % 2 ^ 64) bs

unfoldable pub hash_key : Key → ℕ
unfolding hash_from
hash_key key = hash_from 14695981039346656037 key

-- `hashKey(key) & store.shardMask`
unfoldable pub shard_index : Store → Key → ℕ
shard_index store key = bit_and (hash_key key) store.shard_mask

unfoldable pub index_panic : Store → Store
index_panic store =
    let totals = store.totals in record store { totals = record totals { panicked = true } }

-- A critical section on the shard at an index; an index out of range panics.
unfoldable pub with_shard : Store → ℕ → (Locked → Locked) → Store
unfolding index_panic
with_shard store i f = elim (get_elem? store.shards i) [
  | none ↦ index_panic store
  | some shard ↦
      let l = f (record { shard = shard; totals = store.totals }) in
      record store { shards = set store.shards i l.shard; totals = l.totals }
]

unfoldable pub get : Store → Key → ℤ → Store × Option Bytes
unfolding with_shard shard_index
get store key now = elim (get_elem? store.shards (shard_index store key)) [
  | none ↦ (index_panic store, none)
  | some shard ↦
      let (l, value) = get_into (record { shard = shard; totals = store.totals }) key now in
      (
        record store {
          shards = set store.shards (shard_index store key) l.shard;
          totals = l.totals;
        },
        value,
      )
]

unfoldable pub set_applied : Store → Key → Bytes → ℤ → ℕ → ℤ → Store
set_applied store key value deadline sequence now =
    record (with_shard store (shard_index store key)
      (λ l. apply_set l key value deadline sequence now)) { log_sequence = sequence }

unfoldable pub set_recovered : Store → Key → Bytes → ℤ → ℕ → Store
set_recovered store key value deadline sequence =
    with_shard store (shard_index store key)
      (λ l. apply_recovered_set l key value deadline sequence)

unfoldable pub delete_applied : Store → Key → ℕ → Store
delete_applied store key sequence =
    record (with_shard store (shard_index store key) (λ l. apply_delete l key)) {
      log_sequence = sequence;
    }

-- `enforceRecoveredState`; `orders` holds the order in which each shard's map is walked.
unfoldable pub enforce_from : ℕ → Store → List (List Key) → ℤ → Store
enforce_from i store [] now = store
enforce_from i store (order ∷ orders) now =
    enforce_from (i + 1) (with_shard store i (λ l. enforce_shard l order now)) orders now

unfoldable pub enforce_recovered_state : Store → List (List Key) → ℤ → Store
unfolding enforce_from
enforce_recovered_state store orders now = enforce_from 0 store orders now

-- A tick of `runSweep`: the shard at the index is swept and the index moves on.
unfoldable pub sweep_tick : Store × ℕ → List SweepRound → Store × ℕ
sweep_tick (store, i) rounds =
    (with_shard store i (λ l. sweep_shard l rounds), bit_and (i + 1) store.shard_mask)

unfoldable pub validate_record_size : Key → ℕ → Result (Unit {0})
validate_record_size key value_length =
    if ltb (2 ^ 16 - 1) (length key)
    then err (key_too_large (length key))
    else if ltb (2 ^ 32 - 1) ((record_fixed_size + length key + value_length) % 2 ^ 64)
    then err record_too_large
    else ok tt

-- `capacity` is that of the shard of the key.
unfoldable pub validate_entry_size : ℕ → Key → ℕ → Result (Unit {0})
unfolding validate_record_size
validate_entry_size capacity key value_length = do
  validate_record_size key value_length
  let charged = (entry_overhead + length key + value_length) % 2 ^ 64
  if ltb capacity charged then err (entry_too_large charged capacity) else ok tt

-- The capacity of the shard of a key.
unfoldable pub capacity_for : Store → Key → ℕ
capacity_for store key = elim (get_elem? store.shards (shard_index store key)) [
  | none ↦ 0
  | some shard ↦ shard.capacity
]

-- What goes into the channel `requests`.
unfoldable pub submit : Store → WriteRequest → Result WriteRequest
submit store request = if store.is_closed then err closed else ok request

unfoldable pub set_request : Store → Key → Bytes → Result WriteRequest
unfolding validate_entry_size submit
set_request store key value = do
  validate_entry_size (capacity_for store key) key (length value)
  submit store (record { kind = request_set; key = key; value = value; deadline = pos 0 })

-- `deadline` is `time.Now().Add(ttl).UnixNano()`, read after the checks.
unfoldable pub set_ttl_request : Store → Key → Bytes → ℤ → ℤ → Result WriteRequest
unfolding validate_entry_size submit
set_ttl_request store key value ttl deadline =
    if leb_ℤ ttl (pos 0) then err ttl_not_positive else do
      validate_entry_size (capacity_for store key) key (length value)
      submit store (record { kind = request_set; key = key; value = value; deadline = deadline })

unfoldable pub delete_request : Store → Key → Result WriteRequest
unfolding validate_record_size submit
delete_request store key = do
  validate_record_size key 0
  submit store (record { kind = request_delete; key = key; value = []; deadline = pos 0 })

unfoldable pub sync_request : Store → Result WriteRequest
unfolding submit
sync_request store =
    submit store (record { kind = request_sync; key = []; value = []; deadline = pos 0 })

-- The first failure stays; later ones report it.
unfoldable pub latch : Store → Error → Store × Error
latch store e = elim store.last_error [
  | none ↦ (record store { last_error = some e }, e)
  | some first ↦ (store, first)
]

unfoldable pub reported_error : Store → Option Error
reported_error store = elim store.last_error [ some e ↦ some e | none ↦ store.last_snapshot_error ]
