-- ===== src/Store/Schedule.antt =====
-- Goroutines share a store through its critical sections: any interleaving is a list of them.
use go.Prelude.{ℕ, zero, suc, ◌+◌, ◌≡◌, refl, arith, inl, inr, Option-cases}
use go.Prelude.{List, [], ◌∷◌, get_elem?, replicate, All}
use go.Prelude.Int.{ℤ}
use go.Wire.{Bytes}
use go.Shard.{Key, Shard, Locked}
use go.Shard.Operations.{SweepRound, get_into, apply_recovered_set, enforce_shard}
use go.Shard.Validity.{IsValid, set_entry_locked-IsValid}
use go.Shard.Operate.{
  get_into-IsValid, apply_set-IsValid, apply_delete-IsValid, enforce_shard-IsValid,
  sweep_shard-IsValid,
}
use go.Store.{
  Store, new_store_state, with_shard, shard_index, get, set_applied, set_recovered, delete_applied,
  enforce_from, enforce_recovered_state, sweep_tick,
}
use go.Store.Dispatch.{StoreIsValid, with_shard-IsValid, IsCharged, total_entries, total_bytes}

pub data Section : Type 0 where
  read : Key → ℤ → Section
  write : Key → Bytes → ℤ → ℕ → ℤ → Section
  recover : Key → Bytes → ℤ → ℕ → Section
  erase : Key → ℕ → Section
  enforce : List (List Key) → ℤ → Section
  sweep : ℕ → List SweepRound → Section

unfoldable pub run_section : Store → Section → Store
run_section store (read key now) = (get store key now).0
run_section store (write key value deadline sequence now) =
    set_applied store key value deadline sequence now
run_section store (recover key value deadline sequence) =
    set_recovered store key value deadline sequence
run_section store (erase key sequence) = delete_applied store key sequence
run_section store (enforce orders now) = enforce_recovered_state store orders now
run_section store (sweep i rounds) = (sweep_tick (store, i) rounds).0

unfoldable pub run_sections : Store → List Section → Store
unfolding run_section
run_sections store [] = store
run_sections store (s ∷ sections) = run_sections (run_section store s) sections

-- A read is a critical section on the shard of its key.
get-with_shard :
    (store : Store) (key : Key) (now : ℤ)
    → (get store key now).0 ≡ with_shard store (shard_index store key) (λ l. (get_into l key now).0)
unfolding get with_shard
get-with_shard store key now =
    elim (Option-cases (get_elem? store.shards (shard_index store key))) [
      | inl out ↦ rw (out, get, with_shard)
      | inr (s, found) ↦ rw (found, get, with_shard)
    ]

pub apply_recovered_set-IsValid :
    (others rest : ℕ) (l : Locked) (key : Key) (value : Bytes) (deadline : ℤ) (sequence : ℕ)
    → IsValid others rest l
    → IsValid others rest (apply_recovered_set l key value deadline sequence)
unfolding apply_recovered_set
apply_recovered_set-IsValid others rest l key value deadline sequence v =
    set_entry_locked-IsValid l v key value deadline sequence

enforce_from-IsValid :
    (i : ℕ) (store : Store) (orders : List (List Key)) (now : ℤ)
    → StoreIsValid store
    → StoreIsValid (enforce_from i store orders now)
unfolding enforce_from
enforce_from-IsValid i store [] now v = v
enforce_from-IsValid i store (order ∷ orders) now v =
    enforce_from-IsValid (i + 1) (with_shard store i (λ l. enforce_shard l order now)) orders now
      (with_shard-IsValid store i _ (λ others rest l. enforce_shard-IsValid l order now) v)

-- A field that the invariant does not mention may change.
StoreIsValid-log_sequence :
    (store : Store) (sequence : ℕ)
    → StoreIsValid store
    → StoreIsValid (record store { log_sequence = sequence })
StoreIsValid-log_sequence store sequence v = record {
  charged = v.charged;
  counted = v.counted;
  charged_all = v.charged_all;
}

run_section-IsValid :
    (store : Store) (s : Section) → StoreIsValid store → StoreIsValid (run_section store s)
unfolding run_section
run_section-IsValid store (read key now) v =
    rw get-with_shard (with_shard-IsValid store _ _ (λ others rest l. get_into-IsValid l key now) v)
run_section-IsValid store (write key value deadline sequence now) v =
    unfold set_applied in
    StoreIsValid-log_sequence _ sequence (
      with_shard-IsValid store _ _
        (λ others rest l. apply_set-IsValid l key value deadline sequence now) v)
run_section-IsValid store (recover key value deadline sequence) v =
    unfold set_recovered in
    with_shard-IsValid store _ _
      (λ others rest l. apply_recovered_set-IsValid others rest l key value deadline sequence) v
run_section-IsValid store (erase key sequence) v =
    unfold delete_applied in
    StoreIsValid-log_sequence _ sequence
      (with_shard-IsValid store _ _ (λ others rest l. apply_delete-IsValid l key) v)
run_section-IsValid store (enforce orders now) v =
    unfold enforce_recovered_state in enforce_from-IsValid 0 store orders now v
run_section-IsValid store (sweep i rounds) v =
    unfold sweep_tick in
    with_shard-IsValid store i _ (λ others rest l. sweep_shard-IsValid l rounds) v

run_sections-IsValid :
    (store : Store) (sections : List Section)
    → StoreIsValid store
    → StoreIsValid (run_sections store sections)
unfolding run_sections
run_sections-IsValid store [] v = v
run_sections-IsValid store (s ∷ sections) v =
    run_sections-IsValid (run_section store s) sections (run_section-IsValid store s v)

empty-IsCharged :
    (n capacity : ℕ)
    → let shards =
        replicate {A = Shard} n (record { recency = []; bytes = 0; capacity = capacity }) in
      All IsCharged shards × (total_entries shards ≡ 0) × (total_bytes shards ≡ 0)
empty-IsCharged zero capacity = (tt, refl, refl)
empty-IsCharged (suc n) capacity =
    let (c, e, b) = empty-IsCharged n capacity in
    (((tt, refl), c), omega (arith, e), omega (arith, b))

pub new_store_state-IsValid :
    (shard_count shard_capacity : ℕ) → StoreIsValid (new_store_state shard_count shard_capacity)
unfolding new_store_state
new_store_state-IsValid shard_count shard_capacity =
    let (c, e, b) = empty-IsCharged shard_count shard_capacity in
    record { charged = c; counted = omega (arith, e); charged_all = omega (arith, b) }

-- Whatever critical sections run on a new store and in whatever order, no shard holds a key twice,
-- each shard is charged for exactly the entries that it holds, and `Len` and `Bytes` are the number
-- of the entries of all shards and their sizes, modulo 2^64.
pub run_sections-StoreIsValid :
    (shard_count shard_capacity : ℕ) (sections : List Section)
    → StoreIsValid (run_sections (new_store_state shard_count shard_capacity) sections)
run_sections-StoreIsValid shard_count shard_capacity sections =
    run_sections-IsValid (new_store_state shard_count shard_capacity) sections
      (new_store_state-IsValid shard_count shard_capacity)
