-- ===== src/Store/Peek.antt =====
-- What a store holds under each key, and what the operations without eviction do to it.
use go.Prelude.{
  ℕ, zero, suc, ◌-◌, ◌<◌, ◌≡◌, ◌≢◌, refl, ap, arith, subst, ite, if_neg, ℕ_discrete, inl, inr,
  Option-cases,
}
use go.Prelude.{
  List, [], ◌∷◌, Option, none, some, length, length-set, replicate, get_elem?, set,
  get_elem?-set_self, get_elem?-set_ne, All,
}
use go.Prelude.Bits.{bit_and-le}
use go.Prelude.Int.{ℤ}
use go.Wire.{Bytes}
use go.Shard.{Key, Entry, Shard, Locked, new_entry, key_eq, find}
use go.Shard.Operations.{apply_recovered_set, apply_delete}
use go.Shard.Visible.{look, look-set_entry_locked}
use go.Shard.Recency.{Distinct}
use go.Shard.Reads.{look-apply_delete-Distinct}
use go.Shard.Operate.{apply_delete-IsValid}
use go.Store.Dispatch.{StoreIsValid, IsCharged, All-get_elem?, with_shard-IsValid}
use go.Store.Schedule.{apply_recovered_set-IsValid, new_store_state-IsValid}
use go.Store.{
  Store, new_store_state, shard_index, hash_key, with_shard, set_recovered, delete_applied,
}

pub length-replicate {ℓ} : {A : Type ℓ} (n : ℕ) (a : A) → length (replicate n a) ≡ n
length-replicate zero a = refl
length-replicate (suc n) a = ap suc (length-replicate n a)

unfoldable pub peek : Store → Key → Option Entry
peek store key = elim (get_elem? store.shards (shard_index store key)) [
  | none ↦ none
  | some shard ↦ find key shard.recency
]

-- The mask covers the shards.
pub record IsIndexed (store : Store) : Type 0 where
  pub some_shard : 0 < length store.shards
  pub masked : store.shard_mask ≡ length store.shards - 1

pub get_elem?-lt {ℓ} :
    {A : Type ℓ} (xs : List A) (i : ℕ) → i < length xs → (a : A) × (get_elem? xs i ≡ some a)
get_elem?-lt [] i h = elim h [ ]
get_elem?-lt (x ∷ xs) zero h = (x, refl)
get_elem?-lt (x ∷ xs) (suc i) h = get_elem?-lt xs i (omega arith)

-- No key leads out of the shards.
pub shard_index-lt :
    (store : Store) (key : Key) → IsIndexed store → shard_index store key < length store.shards
unfolding shard_index
shard_index-lt store key x =
    omega (arith, bit_and-le (hash_key key) store.shard_mask, x.some_shard, x.masked)

-- A critical section on the shard of `key` that gives each key of that shard what `new` says at
-- `key` and leaves the others does so in the store.
peek-with_shard :
    (store : Store) (key q : Key) (f : Locked → Locked) (new : Option Entry)
    → IsIndexed store
    → All IsCharged store.shards
    → ((l : Locked) → Distinct l.shard.recency → look q (f l) ≡ ite (key_eq key q) new (look q l))
    → peek (with_shard store (shard_index store key) f) q ≡ ite (key_eq key q) new (peek store q)
unfolding peek with_shard shard_index
peek-with_shard store key q f new x charged h =
    let (shard, found) =
      get_elem?-lt store.shards (shard_index store key) (shard_index-lt store key x) in
    let own = All-get_elem? IsCharged store.shards (shard_index store key) shard charged found in
    let l : Locked = record { shard = shard; totals = store.totals } in
    elim (ℕ_discrete (shard_index store key) (shard_index store q)) [
      | yes same ↦
          let here = subst (λ i. get_elem? store.shards i ≡ some shard) same found in
          let written =
            get_elem?-set_self store.shards (shard_index store key) (f l).shard
              (shard_index-lt store key x) in
          let there =
            subst
              (λ i.
                get_elem? (set store.shards (shard_index store key) (f l).shard) i
                ≡ some (f l).shard)
              same written in
          rw (found, with_shard) (rw (there, peek) (rw (here, peek) (h l own.0)))
      | no other ↦
          let apart : key ≢ q = λ e. other (ap (shard_index store) e) in
          rw (found, with_shard)
            (rw (if_neg (key_eq key q) apart)
              (ap (λ o. found_in o) (get_elem?-set_ne store.shards (f l).shard other)))
    ]
  where
    found_in : Option Shard → Option Entry
    found_in o = elim o [ none ↦ none | some shard ↦ find q shard.recency ]

with_shard-IsIndexed :
    (store : Store) (i : ℕ) (f : Locked → Locked)
    → IsIndexed store
    → IsIndexed (with_shard store i f)
unfolding with_shard go.Store.index_panic
with_shard-IsIndexed store i f x = elim (Option-cases (get_elem? store.shards i)) [
  | inl out ↦ rw (out, with_shard) (record { some_shard = x.some_shard; masked = x.masked })
  | inr (shard, found) ↦
      let size =
        length-set store.shards i (f (record { shard = shard; totals = store.totals })).shard in
      rw (found, with_shard)
        (record {
          some_shard = omega (arith, size, x.some_shard);
          masked = omega (arith, size, x.masked);
        })
]

-- What a recovery relies on and keeps.
pub record IsReady (store : Store) : Type 0 where
  pub valid : StoreIsValid store
  pub indexed : IsIndexed store

pub set_recovered-IsReady :
    (store : Store) (key : Key) (value : Bytes) (deadline : ℤ) (sequence : ℕ)
    → IsReady store
    → IsReady (set_recovered store key value deadline sequence)
unfolding set_recovered
set_recovered-IsReady store key value deadline sequence r = record {
  valid =
      with_shard-IsValid store (shard_index store key)
        (λ l. apply_recovered_set l key value deadline sequence)
        (λ others rest l v. apply_recovered_set-IsValid others rest l key value deadline sequence v)
        r.valid;
  indexed = with_shard-IsIndexed store (shard_index store key) _ r.indexed;
}

pub delete_applied-IsReady :
    (store : Store) (key : Key) (sequence : ℕ)
    → IsReady store
    → IsReady (delete_applied store key sequence)
unfolding delete_applied
delete_applied-IsReady store key sequence r =
    let v =
      with_shard-IsValid store (shard_index store key) (λ l. apply_delete l key)
        (λ others rest l w. apply_delete-IsValid l key w) r.valid in
    let x =
      with_shard-IsIndexed store (shard_index store key) (λ l. apply_delete l key) r.indexed in
    record {
      valid = record { charged = v.charged; counted = v.counted; charged_all = v.charged_all };
      indexed = record { some_shard = x.some_shard; masked = x.masked };
    }

pub peek-set_recovered :
    (store : Store) (key : Key) (value : Bytes) (deadline : ℤ) (sequence : ℕ) (q : Key)
    → IsReady store
    → peek (set_recovered store key value deadline sequence) q
      ≡ ite (key_eq key q) (some (new_entry key value deadline sequence)) (peek store q)
unfolding set_recovered apply_recovered_set
peek-set_recovered store key value deadline sequence q r =
    peek-with_shard store key q (λ l. apply_recovered_set l key value deadline sequence)
      (some (new_entry key value deadline sequence)) r.indexed r.valid.charged
      (λ l d. look-set_entry_locked l key value deadline sequence q)

pub peek-delete_applied :
    (store : Store) (key : Key) (sequence : ℕ) (q : Key)
    → IsReady store
    → peek (delete_applied store key sequence) q ≡ ite (key_eq key q) none (peek store q)
unfolding delete_applied peek shard_index
peek-delete_applied store key sequence q r =
    peek-with_shard store key q (λ l. apply_delete l key) none r.indexed r.valid.charged
      (λ l d. look-apply_delete-Distinct l key q d)

-- The fields by which a recovery decides what concerns it.
pub record SameRouting (store store' : Store) : Type 0 where
  pub same_mask : store'.shard_mask ≡ store.shard_mask
  pub same_recovery : store'.recovery_shard ≡ store.recovery_shard

pub with_shard-SameRouting :
    (store : Store) (i : ℕ) (f : Locked → Locked) → SameRouting store (with_shard store i f)
unfolding with_shard go.Store.index_panic
with_shard-SameRouting store i f = record { same_mask = ground arith; same_recovery = ground arith }

-- A new store has nothing under any key.
pub new_store_state-IsReady :
    (shard_count shard_capacity : ℕ)
    → 0 < shard_count
    → IsReady (new_store_state shard_count shard_capacity)
unfolding new_store_state
new_store_state-IsReady shard_count shard_capacity h = record {
  valid = new_store_state-IsValid shard_count shard_capacity;
  indexed = record {
    some_shard = omega (arith, length-replicate shard_count fresh, h);
    masked = omega (arith, length-replicate shard_count fresh);
  };
}
  where
    fresh : Shard
    fresh = record { recency = []; bytes = 0; capacity = shard_capacity }

pub peek-new_store_state :
    (shard_count shard_capacity : ℕ) (q : Key)
    → peek (new_store_state shard_count shard_capacity) q ≡ none
unfolding peek new_store_state find
peek-new_store_state shard_count shard_capacity q =
    go shard_count (shard_index (new_store_state shard_count shard_capacity) q)
  where
    fresh : Shard
    fresh = record { recency = []; bytes = 0; capacity = shard_capacity }

    go :
        (n i : ℕ)
        → (elim (get_elem? (replicate n fresh) i) [
          | none ↦ none
          | some shard ↦ find q shard.recency
        ])
          ≡ none
    go zero i = refl
    go (suc n) zero = refl
    go (suc n) (suc i) = go n i
