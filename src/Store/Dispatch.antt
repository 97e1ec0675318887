-- ===== src/Store/Dispatch.antt =====
-- What `with_shard` does to the counters and to the shards that it leaves alone.
use go.Prelude.{ℕ, zero, suc, ◌+◌, ◌%◌, ◌^◌, ◌≡◌, ap, subst, arith}
use go.Prelude.{List, [], ◌∷◌, some, length, get_elem?, set, All, inl, inr, Option-cases}
use go.Shard.{Shard, Locked}
use go.Shard.Recency.{Distinct, total_size}
use go.Shard.Validity.{IsValid}
use go.Store.{Store, with_shard, index_panic}

abbrev pub total_entries : List Shard → ℕ
total_entries [] = 0
total_entries (s ∷ shards) = length s.recency + total_entries shards

abbrev pub total_bytes : List Shard → ℕ
total_bytes [] = 0
total_bytes (s ∷ shards) = total_size s.recency + total_bytes shards

abbrev pub IsCharged : Shard → Type 0
IsCharged s = Distinct s.recency × (s.bytes ≡ total_size s.recency % 2 ^ 64)

-- Every shard is charged for its entries, and the counters of the store add all shards up.
pub record StoreIsValid (store : Store) : Type 0 where
  pub charged : All IsCharged store.shards
  pub counted : store.totals.entries ≡ total_entries store.shards % 2 ^ 64
  pub charged_all : store.totals.bytes ≡ total_bytes store.shards % 2 ^ 64

pub All-get_elem? :
    (P : Shard → Type 0) (shards : List Shard) (i : ℕ) (s : Shard)
    → All P shards
    → get_elem? shards i ≡ some s
    → P s
All-get_elem? P [] i s h e = cc
All-get_elem? P (x ∷ shards) zero s (hx, h) e = let same : x ≡ s = cc in subst P same hx
All-get_elem? P (x ∷ shards) (suc i) s (hx, h) e = All-get_elem? P shards i s h e

All-set :
    (P : Shard → Type 0) (shards : List Shard) (i : ℕ) (s : Shard)
    → All P shards
    → P s
    → All P (set shards i s)
All-set P [] i s h p = tt
All-set P (x ∷ shards) zero s (hx, h) p = (p, h)
All-set P (x ∷ shards) (suc i) s (hx, h) p = (hx, All-set P shards i s h p)

-- What the other shards hold: with `s` in place of the old shard only its own part changes.
others_split :
    (shards : List Shard) (i : ℕ) (old : Shard)
    → get_elem? shards i ≡ some old
    → (n : ℕ) × (b : ℕ) × (total_entries shards ≡ n + length old.recency)
      × (total_bytes shards ≡ b + total_size old.recency)
      × ((s : Shard)
          → (total_entries (set shards i s) ≡ n + length s.recency)
            × (total_bytes (set shards i s) ≡ b + total_size s.recency))
others_split [] i old e = cc
others_split (x ∷ shards) zero old e =
    let same : x ≡ old = cc in
    (
      total_entries shards,
      total_bytes shards,
      omega (arith, ap (λ (s : Shard). length s.recency) same),
      omega (arith, ap (λ (s : Shard). total_size s.recency) same),
      λ s. (omega arith, omega arith),
    )
others_split (x ∷ shards) (suc i) old e =
    let (n, b, en, eb, changed) = others_split shards i old e in
    (
      length x.recency + n,
      total_size x.recency + b,
      omega (arith, en),
      omega (arith, eb),
      λ s. (omega (arith, (changed s).0), omega (arith, (changed s).1)),
    )

-- A critical section that keeps the invariant of its shard keeps that of the store.
pub with_shard-IsValid :
    (store : Store) (i : ℕ) (f : Locked → Locked)
    → ((others rest : ℕ) (l : Locked) → IsValid others rest l → IsValid others rest (f l))
    → StoreIsValid store
    → StoreIsValid (with_shard store i f)
unfolding with_shard index_panic
with_shard-IsValid store i f keep v = elim (Option-cases (get_elem? store.shards i)) [
  | inl out ↦
      rw (out, with_shard)
        (record { charged = v.charged; counted = v.counted; charged_all = v.charged_all })
  | inr (old, found) ↦
      let (n, b, en, eb, changed) = others_split store.shards i old found in
      let own = All-get_elem? IsCharged store.shards i old v.charged found in
      let l : Locked = record { shard = old; totals = store.totals } in
      let k = keep n b l (record {
        distinct = own.0;
        charged = own.1;
        counted = omega (arith, v.counted, en);
        charged_all = omega (arith, v.charged_all, eb);
      }) in
      rw (found, with_shard)
        (record {
          charged = All-set IsCharged store.shards i (f l).shard v.charged (k.distinct, k.charged);
          counted = omega (arith, k.counted, (changed (f l).shard).0);
          charged_all = omega (arith, k.charged_all, (changed (f l).shard).1);
        })
]
