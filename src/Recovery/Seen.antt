-- ===== src/Recovery/Seen.antt =====
-- What was seen at the shard of a key, as a snapshot has it, and what applies of the log behind it.
use go.Prelude.{◌⊎◌, inl, inr, ℕ, zero, suc, ◌+◌, ◌-◌, ◌≤◌, ◌<◌, ◌≡◌, refl, ap, arith, bit_and, ltb}
use go.Prelude.{List, [], ◌∷◌, some, length, length-append, get_elem?, map, take, All}
use go.Wire.{Bytes}
use go.Record.{WriteRequest, max_sequence}
use go.Shard.{Key}
use go.Store.{Store, hash_key, shard_index}
use go.Store.Peek.{shard_index-lt}
use go.Segment.{SnapshotState, applies, in_recovery, is_newer}
use go.Segment.Log.{encode_log}
use go.Snapshot.{Visit}
use go.Snapshot.Restored.{Restores}
use go.Recovery.{}
use go.Recovery.Chain.{}

-- The shard of a key, the sequence it was seen at, and what applies of the log after that.
pub record SeenAt (visits : List Visit) (store : Store) (state : SnapshotState) (lowest : ℕ)
    (q : Key) : Type 0 where
  pub limit : ℕ
  pub seen :
      get_elem? (map (λ v. v.sequence) visits) (bit_and (hash_key q) (length visits - 1))
      ≡ some limit
  pub newer : (m : ℕ) → applies store state q m ≡ ltb limit m
  pub above : lowest ≤ limit
  pub below : limit ≤ state.highest

sequence_at :
    (visits : List Visit) (i : ℕ) (low high : ℕ)
    → i < length visits
    → All (λ v. (low ≤ v.sequence) × (v.sequence ≤ high)) visits
    → (s : ℕ) × (get_elem? (map (λ v. v.sequence) visits) i ≡ some s) × (low ≤ s) × (s ≤ high)
sequence_at [] i low high h a = absurd (omega arith)
sequence_at (v ∷ visits) zero low high h (here, a) = (v.sequence, refl, here.0, here.1)
sequence_at (v ∷ visits) (suc i) low high h (here, a) =
    sequence_at visits i low high (omega arith) a

pub Restores-SeenAt :
    (visits : List Visit) (lowest : ℕ) (store : Store) (state : SnapshotState) (q : Key)
    → 0 < length visits
    → Restores visits lowest store state
    → SeenAt visits store state lowest q
unfolding applies is_newer in_recovery shard_index
Restores-SeenAt visits lowest store state q some_visit r =
    let i = bit_and (hash_key q) (length visits - 1) in
    let same : shard_index store q ≡ i = ap (bit_and (hash_key q)) r.routed.0 in
    let inside : i < length visits = omega (
      arith,
      shard_index-lt store q r.ready.indexed,
      same,
      r.routed.0,
      r.ready.indexed.masked,
      r.ready.indexed.some_shard,
    ) in
    let (limit, seen, above, below) = sequence_at visits i lowest state.highest inside r.spanned in
    record {
      limit = limit;
      seen = seen;
      newer = λ m. ground (arith, r.routed.0, r.routed.1, r.loaded, r.replayed_beyond, seen);
      above = above;
      below = below;
    }

encode_log-length :
    (checksum : Bytes → ℕ) (sequence k m : ℕ) (requests : List WriteRequest)
    → k ≤ m
    → length (encode_log checksum sequence (take k requests))
      ≤ length (encode_log checksum sequence (take m requests))
unfolding encode_log
encode_log-length checksum sequence zero m requests h = omega arith
encode_log-length checksum sequence (suc k) zero requests h = absurd (omega arith)
encode_log-length checksum sequence (suc k) (suc m) [] h = omega arith
encode_log-length checksum sequence (suc k) (suc m) (r ∷ requests) h =
    let one = go.Record.encode_record checksum sequence r in
    omega (
      arith,
      encode_log-length checksum (sequence + 1) k m requests (omega arith),
      length-append one (encode_log checksum (sequence + 1) (take k requests)),
      length-append one (encode_log checksum (sequence + 1) (take m requests)),
    )

-- The records that are whole in `n` bytes are no fewer than any that fit into them.
pub count-reached :
    (checksum : Bytes → ℕ) (sequence : ℕ) (last : List WriteRequest) (n k count : ℕ)
    → k ≤ length last
    → length (encode_log checksum sequence (take k last)) ≤ n
    → ((count ≡ length last) ⊎ (n < length (encode_log checksum sequence (take (suc count) last))))
    → k ≤ count
count-reached checksum sequence last n k count short there (inl all) = omega (arith, all)
count-reached checksum sequence last n k count short there (inr cut) =
    let not_short : ¬ (suc count ≤ k) = λ less.
      omega (arith, encode_log-length checksum sequence (suc count) k last less, cut, there) in
    ground (arith, not_short)
