-- ===== src/Shard.antt =====
-- cache/entries.go and the types of cache/store.go that it works on: one shard under its lock.
-- `recency` is the list that `recent`, `next` and `previous` thread, most recent first; the map
-- `entries` finds a key in it. `Totals` holds the fields of `Store` that the locked operations write.
pub mod Operations
pub mod Recency
pub mod Validity
pub mod Operate
pub mod Evict
pub mod Visible
pub mod Written
pub mod Reads
pub mod Session
pub mod Links
mod Runs
use go.Prelude.{ℕ, ◌+◌, ◌-◌, ◌%◌, ◌^◌, Bool, not, ◌&&◌, ite, ℕ_discrete}
use go.Prelude.{List, [], ◌∷◌, Option, none, some, length}
use go.Prelude.Int.{ℤ, leb_ℤ, is_zero_ℤ}
use go.Wire.{Bytes}

abbrev pub Key : Type 0
Key = Bytes

unfoldable pub key_eq : Discrete Key
unfolding ℕ_discrete
key_eq = hlevel ℕ_discrete

pub record Entry : Type 0 where
  pub key : Key
  pub value : Bytes
  pub deadline : ℤ
  pub sequence : ℕ

pub record Shard : Type 0 where
  pub recency : List Entry
  pub bytes : ℕ
  pub capacity : ℕ

-- `bytes` is the 64-bit pattern of the `atomic.Int64`. `panicked` is no field of the source: it is
-- set where the code would follow a nil pointer.
pub record Totals : Type 0 where
  pub entries : ℕ
  pub bytes : ℕ
  pub hits : ℕ
  pub misses : ℕ
  pub expiries : ℕ
  pub evictions : ℕ
  pub eviction_generation : ℕ
  pub panicked : Bool

pub record Locked : Type 0 where
  pub shard : Shard
  pub totals : Totals

pub data RemovalKind : Type 0 where
  removal_delete removal_expiry removal_eviction : RemovalKind

-- `unsafe.Sizeof(entry{})` on a 64-bit platform: a string, a slice, two words and two pointers.
abbrev pub entry_overhead : ℕ
entry_overhead = 72

-- Arithmetic of `uint64`.
abbrev pub add64 : ℕ → ℕ → ℕ
add64 a b = (a + b) % 2 ^ 64

abbrev pub sub64 : ℕ → ℕ → ℕ
sub64 a b = (a + (2 ^ 64 - b % 2 ^ 64)) % 2 ^ 64

unfoldable pub entry_size : Entry → ℕ
entry_size e = (entry_overhead + length e.key + length e.value) % 2 ^ 64

unfoldable pub deadline_passed : ℤ → ℤ → Bool
deadline_passed deadline now = not (is_zero_ℤ deadline) && leb_ℤ deadline now

-- `shard.entries[key]`
unfoldable pub find : Key → List Entry → Option Entry
find k [] = none
find k (e ∷ l) = ite (key_eq e.key k) (some e) (find k l)

-- The list without the entry of a key.
unfoldable pub unlink : Key → List Entry → List Entry
unlink k [] = []
unlink k (e ∷ l) = ite (key_eq e.key k) l (e ∷ unlink k l)

-- `shard.oldest`
unfoldable pub oldest : List Entry → Option Entry
oldest [] = none
oldest (e ∷ []) = some e
oldest (e ∷ f ∷ l) = oldest (f ∷ l)

unfoldable pub mark_recent_locked : Entry → List Entry → List Entry
mark_recent_locked current l = current ∷ unlink current.key l

unfoldable pub count_removal : RemovalKind → Totals → Totals
count_removal removal_delete t = t
count_removal removal_expiry t = record t { expiries = add64 t.expiries 1 }
count_removal removal_eviction t = record t {
  eviction_generation = add64 t.eviction_generation 1;
  evictions = add64 t.evictions 1;
}

unfoldable pub remove_entry_locked : Locked → Entry → RemovalKind → Locked
unfolding count_removal
remove_entry_locked l current kind =
    let size = entry_size current in
    let shard = l.shard in
    let totals = l.totals in
    record {
      shard = record shard {
        recency = unlink current.key shard.recency;
        bytes = sub64 shard.bytes size;
      };
      totals = count_removal kind (record totals {
        entries = add64 totals.entries (2 ^ 64 - 1);
        bytes = sub64 totals.bytes size;
      });
    }

-- The branch of `setEntryLocked` on a key that is there.
unfoldable pub overwrite_entry : Locked → Entry → Bytes → ℤ → ℕ → Locked
overwrite_entry l current value deadline sequence =
    let updated = record current { value = value; deadline = deadline; sequence = sequence } in
    let old_size = entry_size current in
    let new_size = entry_size updated in
    let shard = l.shard in
    let totals = l.totals in
    record {
      shard = record shard {
        recency = mark_recent_locked updated shard.recency;
        bytes = add64 (sub64 shard.bytes old_size) new_size;
      };
      totals = record totals { bytes = add64 totals.bytes (sub64 new_size old_size) };
    }

-- The branch on a key that is new.
unfoldable pub insert_entry : Locked → Entry → Locked
insert_entry l current =
    let size = entry_size current in
    let shard = l.shard in
    let totals = l.totals in
    record {
      shard = record shard {
        recency = mark_recent_locked current shard.recency;
        bytes = add64 shard.bytes size;
      };
      totals = record totals { entries = add64 totals.entries 1; bytes = add64 totals.bytes size };
    }

abbrev pub new_entry : Key → Bytes → ℤ → ℕ → Entry
new_entry key value deadline sequence = record {
  key = key;
  value = value;
  deadline = deadline;
  sequence = sequence;
}

-- The entry that `setEntryLocked` returns is the one now most recent.
unfoldable pub set_entry_locked : Locked → Key → Bytes → ℤ → ℕ → Locked × Entry
unfolding overwrite_entry insert_entry
set_entry_locked l key value deadline sequence =
    let made = new_entry key value deadline sequence in
    elim (find key l.shard.recency) [
      | some current ↦ (
        overwrite_entry l current value deadline sequence,
        record current { value = value; deadline = deadline; sequence = sequence },
      )
      | none ↦ (insert_entry l made, made)
    ]
