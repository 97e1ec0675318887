-- ===== src/Snapshot/Restored.antt =====
-- A snapshot, written and loaded, as the contents of a store.
use go.Prelude.{
  ℕ, suc, ◌%◌, ◌^◌, ◌-◌, ◌≤◌, ◌<◌, ◌≡◌, refl, sym, ap, ◌∙◌, arith, subst, true, ◌==◌, ltb,
  if◌then◌else◌,
}
use go.Prelude.{List, [], ◌∷◌, Option, none, some, length, map, All}
use go.Wire.{Bytes}
use go.Errors.{Result, ok, err}
use go.Shard.{Shard, Key, find}
use go.Shard.Recency.{Distinct}
use go.Store.{Store, new_store_state}
use go.Store.Peek.{length-replicate, peek, IsReady, new_store_state-IsReady, peek-new_store_state}
use go.Segment.{SnapshotState}
use go.Segment.Replay.{IsChecksum}
use go.Snapshot.{
  Wrote, Visit, entries_of, write_snapshot_at, snapshot_bytes, lowest_of, lowest_from,
}
use go.Snapshot.Load.{new_snapshot_state, highest_from, load_snapshot}
use go.Snapshot.Layout.{IsStorable}
use go.Snapshot.Written.{OkIs, All-map, write_snapshot_at-snapshot_bytes}
use go.Snapshot.Loaded.{
  AtShard, IsShardCount, no_snapshot_faults, load_all, load_snapshot-snapshot_bytes,
}
use go.Snapshot.Contents.{
  latest, latest-Distinct, peek-load_all, load_all-IsReady, load_all-SameRouting,
}

OkIs-ok {ℓ} : {V : Type ℓ} (r : Result V) (v w : V) → OkIs r v → r ≡ ok w → w ≡ v
OkIs-ok (err e) v w h e' = cc
OkIs-ok (ok x) v w h e' = cc

length-visits {ℓ} : {A : Type ℓ} (f : A → ℕ) (xs : List A) → length (map f xs) ≡ length xs
length-visits f [] = refl
length-visits f (x ∷ xs) = ap suc (length-visits f xs)

new_store_state-mask :
    (shard_count shard_capacity : ℕ)
    → (new_store_state shard_count shard_capacity).shard_mask ≡ shard_count - 1
unfolding new_store_state
new_store_state-mask shard_count shard_capacity =
    let fresh : Shard = record { recency = []; bytes = 0; capacity = shard_capacity } in
    omega (arith, length-replicate shard_count fresh)

-- What a new store is after a snapshot was loaded into it.
pub record Restores (visits : List Visit) (lowest : ℕ) (store : Store) (state : SnapshotState)
    : Type 0 where
  pub contents : (q : Key) → peek store q ≡ find q (entries_of visits)
  pub ready : IsReady store
  pub loaded : state.loaded ≡ true
  pub replayed_beyond : state.replay_sequences ≡ some (map (λ v. v.sequence) visits)
  pub lowest_sequence : state.lowest ≡ lowest
  pub spanned : All (λ v. (lowest ≤ v.sequence) × (v.sequence ≤ state.highest)) visits
  pub highest_least : (bound : ℕ) → All (λ v. v.sequence ≤ bound) visits → state.highest ≤ bound
  pub routed : (store.shard_mask ≡ length visits - 1) × (store.recovery_shard ≡ none)

highest_from-ge :
    (highest : ℕ) (sequences : List ℕ)
    → (highest ≤ highest_from highest sequences)
      × All (λ s. s ≤ highest_from highest sequences) sequences
unfolding highest_from
highest_from-ge highest [] = (omega arith, tt)
highest_from-ge highest (s ∷ sequences) =
    let next = if ltb highest s then s else highest in
    let (ge, all) = highest_from-ge next sequences in
    let over_highest : highest ≤ next = ground arith in
    let over_s : s ≤ next = ground arith in
    (omega (arith, ge, over_highest), (omega (arith, ge, over_s), all))

highest_from-le :
    (highest bound : ℕ) (sequences : List ℕ)
    → highest ≤ bound
    → All (λ s. s ≤ bound) sequences
    → highest_from highest sequences ≤ bound
unfolding highest_from
highest_from-le highest bound [] h a = h
highest_from-le highest bound (s ∷ sequences) h (hs, a) =
    highest_from-le (if ltb highest s then s else highest) bound sequences (ground arith) a

All-both {κ μ} :
    (P : Visit → Type κ) (Q : Visit → Type μ) (visits : List Visit)
    → All P visits
    → All Q visits
    → All (λ v. P v × Q v) visits
All-both P Q [] h k = tt
All-both P Q (v ∷ visits) (hv, h) (kv, k) = ((hv, kv), All-both P Q visits h k)

All-visits {κ} :
    (P : ℕ → Type κ) (visits : List Visit)
    → All (λ v. P v.sequence) visits
    → All P (map (λ v. v.sequence) visits)
All-visits P [] h = tt
All-visits P (v ∷ visits) (hv, h) = (hv, All-visits P visits h)

state_replays :
    (s : ℕ) (sequences : List ℕ) (shard_capacity : ℕ)
    → suc (length sequences) < 2 ^ 32
    → (new_snapshot_state s sequences (
        suc (length sequences)
        == length (new_store_state (suc (length sequences)) shard_capacity).shards
          % 2 ^ 32)).replay_sequences
      ≡ some (s ∷ sequences)
unfolding new_snapshot_state new_store_state
state_replays s sequences shard_capacity short =
    let n = suc (length sequences) in
    let fresh : Shard = record { recency = []; bytes = 0; capacity = shard_capacity } in
    let size = length-replicate n fresh in ground (arith, size)

lowest_of-cons : (s : ℕ) (sequences : List ℕ) → lowest_of (s ∷ sequences) ≡ lowest_from s sequences
unfolding lowest_of lowest_from
lowest_of-cons s sequences =
    let same : (if ltb s s then s else s) ≡ s = ground arith in
    ap (λ l. lowest_from l sequences) same

-- Whatever the writes do, a file that `writeSnapshotAt` completes is loaded by a new store with as
-- many shards, with these contents: under every key exactly the entry that was seen, or nothing. The
-- state has the sequences seen at the shards and the lowest of them as it was reported. The number
-- of shards is a power of two below 2^32, no key was seen twice, and each entry had passed the size
-- checks and stood in the shard of its key at no higher sequence.
pub load_snapshot-write_snapshot_at :
    (checksum : Bytes → ℕ) (write : ℕ → Wrote) (finalize : Option ℕ) (first : Visit)
    (visits : List Visit) (shard_capacity lowest : ℕ) (file : Bytes)
    → IsChecksum checksum
    → IsShardCount (length (first ∷ visits))
    → All (λ v. v.sequence < 2 ^ 64) (first ∷ visits)
    → All
        (λ e. IsStorable e × AtShard (map (λ v. v.sequence) (first ∷ visits)) e)
        (entries_of (first ∷ visits))
    → Distinct (entries_of (first ∷ visits))
    → write_snapshot_at checksum write finalize (first ∷ visits) ≡ ok (lowest, file)
    → (store : Store) × (state : SnapshotState) × (load_snapshot checksum no_snapshot_faults file
          (new_store_state (length (first ∷ visits)) shard_capacity)
        ≡ some (ok (store, state)))
      × Restores (first ∷ visits) lowest store state
unfolding new_store_state new_snapshot_state
load_snapshot-write_snapshot_at checksum write finalize first visits shard_capacity lowest file is
      count words loadable distinct written =
    let sequences = map (λ v. v.sequence) (first ∷ visits) in
    let sizes = length-visits (λ v. v.sequence) visits in
    let new = new_store_state (suc (length visits)) shard_capacity in
    let whole =
      OkIs-ok (write_snapshot_at checksum write finalize (first ∷ visits))
        (lowest_of sequences, snapshot_bytes checksum (first ∷ visits)) (lowest, file)
        (write_snapshot_at-snapshot_bytes checksum write finalize (first ∷ visits)).0 written in
    let ready = new_store_state-IsReady (suc (length visits)) shard_capacity count.positive in
    let entries = entries_of (first ∷ visits) in
    let state =
      new_snapshot_state first.sequence (map (λ v. v.sequence) visits)
        (length sequences == length new.shards % 2 ^ 32) in
    (
      load_all new entries,
      state,
      ap (λ f. load_snapshot checksum no_snapshot_faults f new) (ap (λ p. p.1) whole)
          ∙ load_snapshot-snapshot_bytes checksum first visits new is
              (subst IsShardCount (ap suc (sym sizes)) count)
              (All-visits (λ s. s < 2 ^ 64) (first ∷ visits) words) loadable,
      record {
        contents = λ q.
            peek-load_all new entries q ready refl
            ∙ ap (latest q entries) (peek-new_store_state (suc (length visits)) shard_capacity q)
            ∙ latest-Distinct q entries distinct;
        ready = load_all-IsReady new entries ready;
        loaded = refl;
        replayed_beyond =
            ap
              (λ n.
                (new_snapshot_state first.sequence (map (λ v. v.sequence) visits) (
                  length sequences
                  == length (new_store_state n shard_capacity).shards % 2 ^ 32)).replay_sequences)
              (ap suc (sym sizes))
            ∙ state_replays first.sequence (map (λ v. v.sequence) visits) shard_capacity
                (omega (arith, count.short, sizes));
        lowest_sequence =
            sym (lowest_of-cons first.sequence (map (λ v. v.sequence) visits))
            ∙ sym (ap (λ p. p.0) whole);
        spanned =
            let reached = highest_from-ge first.sequence (map (λ v. v.sequence) visits) in
            All-both (λ v. lowest ≤ v.sequence) (λ v. v.sequence ≤ state.highest) (first ∷ visits)
              (subst (λ l. All (λ v. l ≤ v.sequence) (first ∷ visits)) (sym (ap (λ p. p.0) whole))
                (write_snapshot_at-snapshot_bytes checksum write finalize (first ∷ visits)).1)
              (reached.0, All-map (λ s. s ≤ state.highest) (λ v. v.sequence) visits reached.1);
        highest_least = λ bound a.
            highest_from-le first.sequence bound (map (λ v. v.sequence) visits) a.0
              (All-visits (λ s. s ≤ bound) visits a.1);
        routed =
            let same = load_all-SameRouting new entries in
            (
              same.same_mask ∙ new_store_state-mask (suc (length visits)) shard_capacity,
              same.same_recovery,
            );
      },
    )
