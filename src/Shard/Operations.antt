-- ===== src/Shard/Operations.antt =====
-- cache/entries.go: the operations that hold the lock of one shard, from lookups to the sweep. The
-- clock is an argument wherever the code reads it, and so is the order of a range over the map.
use go.Prelude.{ℕ, zero, suc, ◌+◌, ◌*◌, Bool, true, false, ◌||◌}
use go.Prelude.{List, [], ◌∷◌, Option, none, some, length, leb, ltb, ◌==◌, if◌then◌else◌}
use go.Prelude.Int.{ℤ}
use go.Wire.{Bytes}
use go.Shard.{
  Key, Entry, Locked, RemovalKind, removal_delete, removal_expiry, removal_eviction, add64,
  deadline_passed, find, oldest, mark_recent_locked, remove_entry_locked, set_entry_locked,
}

unfoldable pub count_miss : Locked → Locked
count_miss l =
    let totals = l.totals in record l { totals = record totals { misses = add64 totals.misses 1 } }

-- A hit moves the entry to the front; the copy of the value is the result.
unfoldable pub hit_entry : Locked → Entry → Locked
hit_entry l found =
    let shard = l.shard in
    let totals = l.totals in
    record {
      shard = record shard { recency = mark_recent_locked found shard.recency };
      totals = record totals { hits = add64 totals.hits 1 };
    }

unfoldable pub get_into : Locked → Key → ℤ → Locked × Option Bytes
unfolding count_miss hit_entry
get_into l key now = elim (find key l.shard.recency) [
  | none ↦ (count_miss l, none)
  | some found ↦
      if deadline_passed found.deadline now
      then (count_miss (remove_entry_locked l found removal_expiry), none)
      else (hit_entry l found, some found.value)
]

unfoldable pub panic : Locked → Locked
panic l = let totals = l.totals in record l { totals = record totals { panicked = true } }

-- `kind` in the body of `evictToCapacityLocked`
unfoldable pub eviction_kind : Entry → ℤ → RemovalKind
eviction_kind e now = if deadline_passed e.deadline now then removal_expiry else removal_eviction

-- The loop of `evictToCapacityLocked`. Each round removes an entry, so one round more than there are
-- entries is enough. `shard.oldest.deadline` of an empty shard is a nil dereference.
unfoldable pub evict_loop : ℕ → Locked → ℤ → Locked
unfolding panic eviction_kind
evict_loop zero l now = panic l
evict_loop (suc fuel) l now = elim (leb l.shard.bytes l.shard.capacity) [
  | true ↦ l
  | false ↦ elim (oldest l.shard.recency) [
    | none ↦ panic l
    | some e ↦ evict_loop fuel (remove_entry_locked l e (eviction_kind e now)) now
  ]
]

unfoldable pub evict_to_capacity_locked : Locked → ℤ → Locked
unfolding evict_loop
evict_to_capacity_locked l now = evict_loop (suc (length l.shard.recency)) l now

-- `now` is read after the entry is set.
unfoldable pub apply_set : Locked → Key → Bytes → ℤ → ℕ → ℤ → Locked
apply_set l key value deadline sequence now =
    let (l', current) = set_entry_locked l key value deadline sequence in
    if deadline_passed current.deadline now
    then remove_entry_locked l' current removal_expiry
    else if ltb l'.shard.capacity l'.shard.bytes
    then evict_to_capacity_locked l' now
    else l'

unfoldable pub apply_recovered_set : Locked → Key → Bytes → ℤ → ℕ → Locked
apply_recovered_set l key value deadline sequence =
    (set_entry_locked l key value deadline sequence).0

unfoldable pub apply_delete : Locked → Key → Locked
apply_delete l key = elim (find key l.shard.recency) [
  | some current ↦ remove_entry_locked l current removal_delete
  | none ↦ l
]

-- One turn of a range over the map that removes what has expired.
unfoldable pub reclaim_entry : Locked → Key → ℤ → Locked
reclaim_entry l key now = elim (find key l.shard.recency) [
  | some current ↦
      if deadline_passed current.deadline now
      then remove_entry_locked l current removal_expiry
      else l
  | none ↦ l
]

-- `order` is the order in which the range over the map meets the keys.
unfoldable pub reclaim_expired_locked : Locked → List Key → ℤ → Locked
unfolding reclaim_entry
reclaim_expired_locked l [] now = l
reclaim_expired_locked l (key ∷ order) now =
    reclaim_expired_locked (reclaim_entry l key now) order now

-- The body of `enforceRecoveredState` for one shard.
unfoldable pub enforce_shard : Locked → List Key → ℤ → Locked
enforce_shard l order now = evict_to_capacity_locked (reclaim_expired_locked l order now) now

abbrev pub sweep_sample_size : ℕ
sweep_sample_size = 20

abbrev pub sweep_repeat_divisor : ℕ
sweep_repeat_divisor = 4

-- One round of `sweepShard`, as the environment sets it: the clock, the order of the range, how
-- many keys it meets before the budget has passed, and whether it has passed at the end.
pub record SweepRound : Type 0 where
  pub now : ℤ
  pub order : List Key
  pub in_time : ℕ
  pub over : Bool

pub record Sample : Type 0 where
  pub swept : Locked
  pub sampled : ℕ
  pub reclaimed : ℕ

unfoldable pub sweep_entry : Sample → Key → ℤ → Sample
sweep_entry s key now = elim (find key s.swept.shard.recency) [
  | some current ↦
      if deadline_passed current.deadline now
      then record {
        swept = remove_entry_locked s.swept current removal_expiry;
        sampled = s.sampled + 1;
        reclaimed = s.reclaimed + 1;
      }
      else record s { sampled = s.sampled + 1 }
  | none ↦ s
]

unfoldable pub sample_entries : Sample → List Key → ℕ → ℤ → Sample
unfolding sweep_entry
sample_entries s [] in_time now = s
sample_entries s (key ∷ order) zero now = s
sample_entries s (key ∷ order) (suc in_time) now =
    let rest = sample_entries (sweep_entry s key now) order in_time now in
    if s.sampled == sweep_sample_size then s else rest

-- The loop runs over the rounds that the environment offers.
unfoldable pub sweep_shard : Locked → List SweepRound → Locked
unfolding sample_entries
sweep_shard l [] = l
sweep_shard l (round ∷ rounds) =
    let start : Sample = record { swept = l; sampled = 0; reclaimed = 0 } in
    let s = sample_entries start round.order round.in_time round.now in
    let again = sweep_shard s.swept rounds in
    if s.sampled == 0 || ltb (s.reclaimed * sweep_repeat_divisor) s.sampled || round.over
    then s.swept
    else again
