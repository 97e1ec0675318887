-- ===== src/Shard/Runs.antt =====
-- Runs of the operations of a shard, and the theorems at these inputs.
use go.Prelude.{◌+◌, ◌↔◌, ◌^◌, ◌≤◌, ◌<◌, ◌≡◌, ◌≢◌, refl, arith, false, ite, if◌then◌else◌}
use go.Prelude.{List, [], ◌∷◌, none, some}
use go.Prelude.Int.{pos}
use go.Shard.{
  Key, Entry, Locked, new_entry, key_eq, entry_size, deadline_passed, find, unlink, oldest,
  mark_recent_locked, count_removal, remove_entry_locked, overwrite_entry, insert_entry,
  set_entry_locked,
}
use go.Shard.Operations.{
  get_into, count_miss, hit_entry, panic, eviction_kind, evict_loop, evict_to_capacity_locked,
  apply_set, apply_delete, sweep_entry, sample_entries, sweep_shard, SweepRound, reclaim_entry,
  reclaim_expired_locked,
}
use go.Shard.Recency.{total_size}
use go.Shard.Validity.{IsValid}
use go.Shard.Evict.{Evicted, evict_to_capacity_locked_lem}
use go.Shard.Visible.{look}
use go.Shard.Written.{IsBounded, apply_set-IsBounded, look-apply_set_self, look-apply_set_ne}
use go.Shard.Reads.{
  OnlyExpired, OnlyExpired-get_into, OnlyExpired-sweep_shard, OnlyExpired-reclaim_expired_locked,
  look-apply_delete,
}
use go.Shard.Session.{IsLive, get_into-apply_set}
use go.Wire.{Bytes}

program : Unit {0}
unfolding key_eq entry_size deadline_passed find unlink oldest mark_recent_locked count_removal
    remove_entry_locked overwrite_entry insert_entry set_entry_locked get_into count_miss hit_entry
    panic eviction_kind evict_loop evict_to_capacity_locked apply_set apply_delete sweep_entry
    sample_entries sweep_shard reclaim_entry reclaim_expired_locked
program = tt

abbrev key_a : Key
key_a = 97 ∷ []

abbrev key_b : Key
key_b = 98 ∷ []

abbrev key_c : Key
key_c = 99 ∷ []

-- Two entries of 74 bytes, the older one with a deadline.
abbrev two : Locked
two = record {
  shard = record {
    recency = new_entry key_b (2 ∷ []) (pos 0) 2 ∷ new_entry key_a (1 ∷ []) (pos 50) 1 ∷ [];
    bytes = 148;
    capacity = 160;
  };
  totals = record {
    entries = 2;
    bytes = 148;
    hits = 0;
    misses = 0;
    expiries = 0;
    evictions = 0;
    eviction_generation = 0;
    panicked = false;
  };
}

two-IsValid : IsValid 0 0 two
unfolding program
two-IsValid = record {
  distinct = (refl, (refl, tt));
  charged = refl;
  counted = refl;
  charged_all = refl;
}

two-IsBounded : IsBounded two
unfolding program
two-IsBounded = record { ceiling = omega arith; sound = refl }

-- A third entry goes over the capacity and the oldest entry is evicted.
evicting_run :
    (apply_set two key_c (3 ∷ []) (pos 0) 3 (pos 10)).shard.recency
    ≡ new_entry key_c (3 ∷ []) (pos 0) 3 ∷ new_entry key_b (2 ∷ []) (pos 0) 2 ∷ []
unfolding program
evicting_run = refl

evicting_count : (apply_set two key_c (3 ∷ []) (pos 0) 3 (pos 10)).totals.eviction_generation ≡ 1
unfolding program
evicting_count = refl

expired_read : (get_into two key_a (pos 50)).1 ≡ none
unfolding program
expired_read = refl

small_entry : entry_size (new_entry key_c (3 ∷ []) (pos 0) 3) ≤ 160
unfolding program
small_entry = omega arith

room : total_size two.shard.recency + entry_size (new_entry key_c (3 ∷ []) (pos 0) 3) < 2 ^ 64
unfolding program
room = omega arith

b_stays :
    look key_b (apply_set two key_c (3 ∷ []) (pos 0) 3 (pos 10))
    ≡ some (new_entry key_b (2 ∷ []) (pos 0) 2)
unfolding program
b_stays = refl

b_is_not_c : key_b ≢ key_c
b_is_not_c e = ground arith

two_total : total_size two.shard.recency < 2 ^ 64
unfolding program
two_total = omega arith

evict_to_capacity_locked_lem_example :
    (gone : List Entry) × Evicted two (evict_to_capacity_locked two (pos 60)) gone
evict_to_capacity_locked_lem_example =
    evict_to_capacity_locked_lem two (pos 60) two-IsValid two_total

apply_set-IsBounded_example :
    IsBounded (apply_set two key_c (3 ∷ []) (pos 0) 3 (pos 10))
    × ((apply_set two key_c (3 ∷ []) (pos 0) 3 (pos 10)).shard.capacity ≡ 160)
apply_set-IsBounded_example =
    apply_set-IsBounded two key_c (3 ∷ []) (pos 0) 3 (pos 10) two-IsValid two-IsBounded room

look-apply_set_self_example :
    look key_c (apply_set two key_c (3 ∷ []) (pos 0) 3 (pos 10))
    ≡ (if deadline_passed (pos 0) (pos 10) then none else some (new_entry key_c (3 ∷ []) (pos 0) 3))
look-apply_set_self_example =
    look-apply_set_self two key_c (3 ∷ []) (pos 0) 3 (pos 10) two-IsValid room small_entry

look-apply_set_ne_example : look key_b two ≡ some (new_entry key_b (2 ∷ []) (pos 0) 2)
look-apply_set_ne_example =
    look-apply_set_ne two key_c (3 ∷ []) (pos 0) 3 (pos 10) key_b
      (new_entry key_b (2 ∷ []) (pos 0) 2) two-IsValid room b_is_not_c b_stays

set_later : entry_size (new_entry key_c (3 ∷ []) (pos 40) 3) ≤ 160
unfolding program
set_later = omega arith

room_later :
    total_size two.shard.recency + entry_size (new_entry key_c (3 ∷ []) (pos 40) 3) < 2 ^ 64
unfolding program
room_later = omega arith

-- A value that expires at 40, read at 39.
get_into-apply_set_example :
    ((w : Bytes)
      → ((get_into (apply_set two key_c (3 ∷ []) (pos 40) 3 (pos 10)) key_c (pos 39)).1 ≡ some w)
        ↔ ((3 ∷ [] ≡ w) × IsLive (pos 40) (pos 39)))
    × ((get_into (apply_delete two key_c) key_c (pos 39)).1 ≡ none)
get_into-apply_set_example =
    get_into-apply_set two key_c (3 ∷ []) (pos 40) 3 (pos 10) (pos 39) two-IsValid room_later
      set_later (omega arith)

OnlyExpired-get_into_example : OnlyExpired (pos 50) two (get_into two key_a (pos 50)).0
OnlyExpired-get_into_example = OnlyExpired-get_into two key_a (pos 50) two-IsValid

abbrev rounds : List SweepRound
rounds = record { now = pos 60; order = key_a ∷ key_b ∷ []; in_time = 9; over = false } ∷ []

OnlyExpired-sweep_shard_example : OnlyExpired (pos 70) two (sweep_shard two rounds)
OnlyExpired-sweep_shard_example =
    OnlyExpired-sweep_shard two rounds (pos 70) (omega arith, tt) two-IsValid

OnlyExpired-reclaim_expired_locked_example :
    OnlyExpired (pos 60) two (reclaim_expired_locked two (key_b ∷ key_a ∷ []) (pos 60))
OnlyExpired-reclaim_expired_locked_example =
    OnlyExpired-reclaim_expired_locked two (key_b ∷ key_a ∷ []) (pos 60) two-IsValid

look-apply_delete_example :
    look key_b (apply_delete two key_a) ≡ ite (key_eq key_a key_b) none (look key_b two)
look-apply_delete_example = look-apply_delete two key_a key_b two-IsValid
