-- ===== src/Snapshot/Loaded.antt =====
-- `loadSnapshot` on a file that `writeSnapshotAt` wrote.
use go.Prelude.{
  ℕ, zero, suc, ◌+◌, ◌-◌, ◌*◌, ◌%◌, ◌^◌, ◌≤◌, ◌<◌, ◌≡◌, refl, sym, ap, ◌∙◌, arith, bit_and, true,
  ◌==◌, if◌then◌else◌, lt→ltb, ge→ltb,
}
use go.Prelude.{
  List, [], ◌∷◌, ◌++◌, none, some, length, length-append, take, drop, map, append-nil, append_assoc,
  drop-append, take-append, get_elem?, All, slice,
}
use go.Wire.{Bytes, put_le, le, le-put_le, length-put_le, bytes_eq, read_full-append}
use go.Errors.{ok}
use go.Shard.{Entry}
use go.Store.{Store, hash_key, shard_index, set_recovered}
use go.Segment.{in_recovery}
use go.Segment.Replay.{IsChecksum}
use go.Snapshot.{
  Visit, encode_snapshot_entry, entry_length, entry_body, encode_entries, entries_of, put_sequences,
  snapshot_header, snapshot_bytes, snapshot_magic,
}
use go.Snapshot.Load.{
  SnapshotFaults, read_at, new_snapshot_state, sequences_of, load_payload, load_entry, load_entries,
  read_snapshot_header, load_snapshot,
}
use go.Snapshot.Layout.{
  IsStorable, entry_payload, encode_snapshot_entry_lem, length-encode_snapshot_entry,
  length-entry_payload, checksum_slices, entry_fields-payload, key-entry_payload,
  value-entry_payload,
}

-- What the loading does with an entry.
unfoldable pub load_one : Store → Entry → Store
load_one store e =
    if in_recovery store.recovery_shard (shard_index store e.key)
    then set_recovered store e.key e.value e.deadline e.sequence
    else store

unfoldable pub load_all : Store → List Entry → Store
load_all store [] = store
load_all store (e ∷ entries) = load_all (load_one store e) entries

-- The shard of the entry was at a sequence no lower than the entry's.
pub record AtShard (sequences : List ℕ) (e : Entry) : Type 0 where
  pub limit : ℕ
  pub held : get_elem? sequences (bit_and (hash_key e.key) (length sequences - 1)) ≡ some limit
  pub covered : e.sequence ≤ limit

abbrev pub no_snapshot_faults : SnapshotFaults
no_snapshot_faults = record { open_file = none; stat = none; context = λ _. none; read = λ _. none }

read_at-append :
    (front piece behind : Bytes) (offset n at : ℕ)
    → length front ≡ at
    → length piece ≡ n
    → read_at no_snapshot_faults (front ++ (piece ++ behind)) offset n at ≡ ok piece
unfolding read_at
read_at-append front piece behind offset n at h k =
    ground (arith, drop-append at front (piece ++ behind) h, read_full-append n piece behind k)

module _ (checksum : Bytes → ℕ) (sequences : List ℕ) (store : Store) (e : Entry) where
  load_payload-written :
      (offset : ℕ)
      → IsStorable e
      → AtShard sequences e
      → load_payload store sequences offset (entry_payload checksum e) ≡ ok (load_one store e)
  unfolding load_payload load_one entry_length
  load_payload-written offset s a = ground (
    arith,
    entry_fields-payload checksum e s,
    key-entry_payload checksum e,
    value-entry_payload checksum e,
    length-entry_payload checksum e,
    a.held,
    a.covered,
  )

  load_entry-written :
      (front behind : Bytes)
      → IsChecksum checksum
      → IsStorable e
      → AtShard sequences e
      → load_entry checksum no_snapshot_faults
          (front ++ (encode_snapshot_entry checksum e ++ behind))
          sequences
          store
          (length front)
        ≡ ok (load_one store e, length front + entry_length e)
  unfolding load_entry
  load_entry-written front behind is s a =
      let payload = entry_payload checksum e in
      let field = put_le 4 (entry_length e - 4) in
      let whole = length-append front (encode_snapshot_entry checksum e ++ behind) in
      let inner = length-append (encode_snapshot_entry checksum e) behind in
      let bytes : front ++ (encode_snapshot_entry checksum e ++ behind)
          ≡ front ++ (field ++ (payload ++ behind)) =
        ap (λ b. front ++ b)
          (ap (λ b. b ++ behind) (encode_snapshot_entry_lem checksum e)
            ∙ append_assoc field payload behind) in
      let bytes' : front ++ (encode_snapshot_entry checksum e ++ behind)
          ≡ (front ++ field) ++ (payload ++ behind) =
        bytes ∙ sym (append_assoc front field (payload ++ behind)) in
      let contents = front ++ (encode_snapshot_entry checksum e ++ behind) in
      let length_field : le field ≡ entry_length e - 4 =
        le-put_le 4 (entry_length e - 4) (omega (arith, s.short_entry)) in
      let crc = checksum_slices checksum e in
      let read₁ : read_at no_snapshot_faults contents (length front) 4 (length front) ≡ ok field =
        ap (λ c. read_at no_snapshot_faults c (length front) 4 (length front)) bytes
        ∙ read_at-append front field (payload ++ behind) (length front) 4 (length front) refl
            (length-put_le 4 (entry_length e - 4)) in
      let read₂ : read_at no_snapshot_faults contents (length front) (le field) (length front + 4)
          ≡ ok payload =
        ap (λ c. read_at no_snapshot_faults c (length front) (le field) (length front + 4)) bytes'
        ∙ read_at-append (front ++ field) payload behind (length front) (le field)
            (length front + 4)
            (omega (arith, length-append front field, length-put_le 4 (entry_length e - 4)))
            (omega (arith, length_field, length-entry_payload checksum e)) in
      let crc_field : checksum (drop 4 payload) ≡ le (slice 0 4 payload) =
        ap checksum crc.1
        ∙ sym (le-put_le 4 (checksum (entry_body e)) (omega (arith, is (entry_body e))))
        ∙ sym (ap le crc.0) in
      let end : length front + 4 + le field ≡ length front + entry_length e =
        omega (arith, length_field, minimal) in
      ground (
        arith,
        whole,
        inner,
        length-encode_snapshot_entry checksum e,
        minimal,
        length_field,
        read₁,
        read₂,
        crc_field,
        load_payload-written (length front) s a,
        end,
      )
    where
      minimal : 26 ≤ entry_length e
      minimal = unfold entry_length in omega arith

module _ (checksum : Bytes → ℕ) (sequences : List ℕ) (is : IsChecksum checksum) where
  abbrev Loadable : Entry → Type 0
  Loadable e = IsStorable e × AtShard sequences e

  load_entries-end :
      (fuel : ℕ) (front : Bytes) (store : Store)
      → load_entries checksum no_snapshot_faults front sequences (suc fuel) store (length front)
        ≡ some (ok store)
  unfolding load_entries
  load_entries-end fuel front store =
      rw (ge→ltb (length front) (length front) (omega arith), load_entries)

  load_entries-next :
      (fuel : ℕ) (contents : Bytes) (store store' : Store) (offset end : ℕ)
      → offset < length contents
      → load_entry checksum no_snapshot_faults contents sequences store offset ≡ ok (store', end)
      → load_entries checksum no_snapshot_faults contents sequences (suc fuel) store offset
        ≡ load_entries checksum no_snapshot_faults contents sequences fuel store' end
  unfolding load_entries
  load_entries-next fuel contents store store' offset end h e =
      rw (lt→ltb offset (length contents) h, load_entries) (rw e)

  load_entries-written :
      (entries : List Entry) (fuel : ℕ) (front : Bytes) (store : Store)
      → All Loadable entries
      → length (encode_entries checksum entries) < fuel
      → load_entries checksum no_snapshot_faults
          (front ++ encode_entries checksum entries)
          sequences
          fuel
          store
          (length front)
        ≡ some (ok (load_all store entries))
  unfolding encode_entries load_all
  load_entries-written entries zero front store a f = absurd (omega arith)
  load_entries-written [] (suc fuel) front store a f =
      rw (append-nil front) (load_entries-end fuel front store)
  load_entries-written (e ∷ entries) (suc fuel) front store ((s, at), a) f =
      let first = encode_snapshot_entry checksum e in
      let behind = encode_entries checksum entries in
      let sizes = length-append first behind in
      let whole = length-append front (first ++ behind) in
      let size = length-encode_snapshot_entry checksum e in
      let minimal : 26 ≤ entry_length e = unfold entry_length in omega arith in
      let there : length front + entry_length e ≡ length (front ++ first) =
        omega (arith, length-append front first, size) in
      load_entries-next fuel (front ++ (first ++ behind)) store (load_one store e) (length front)
        (length front + entry_length e) (omega (arith, whole, sizes, size, minimal))
        (load_entry-written checksum sequences store e front behind is s at)
      ∙ ap
          (λ c.
            load_entries checksum no_snapshot_faults c sequences fuel (load_one store e)
              (length front + entry_length e))
          (sym (append_assoc front first behind))
      ∙ ap
          (λ n.
            load_entries checksum no_snapshot_faults ((front ++ first) ++ behind) sequences fuel
              (load_one store e) n)
          there
      ∙ load_entries-written entries fuel (front ++ first) (load_one store e) a
          (omega (arith, sizes, size, minimal, f))

abbrev IsWord : ℕ → Type 0
IsWord s = s < 2 ^ 64

sequences_of-put_sequences :
    (sequences : List ℕ)
    → All IsWord sequences
    → sequences_of (length sequences) (put_sequences sequences) ≡ sequences
unfolding sequences_of put_sequences
sequences_of-put_sequences [] w = refl
sequences_of-put_sequences (s ∷ sequences) (ws, w) = ground (
  arith,
  take-append 8 (put_le 8 s) (put_sequences sequences) (length-put_le 8 s),
  drop-append 8 (put_le 8 s) (put_sequences sequences) (length-put_le 8 s),
  le-put_le 8 s ws,
  sequences_of-put_sequences sequences w,
)

length-put_sequences :
    (sequences : List ℕ) → length (put_sequences sequences) ≡ length sequences * 8
unfolding put_sequences
length-put_sequences [] = omega arith
length-put_sequences (s ∷ sequences) = omega (
  arith,
  length-append (put_le 8 s) (put_sequences sequences),
  length-put_le 8 s,
  length-put_sequences sequences,
)

-- The first twelve bytes of a header for `n` shards.
fixed_header : ℕ → Bytes
fixed_header n = 67 ∷ 83 ∷ 78 ∷ 80 ∷ (put_le 2 1 ++ (0 ∷ 0 ∷ put_le 4 n))

fixed_header_fields :
    (n : ℕ)
    → n < 2 ^ 32
    → (length (fixed_header n) ≡ 12)
      × (bytes_eq (take 4 (fixed_header n)) snapshot_magic ≡ true)
      × (le (slice 4 6 (fixed_header n)) ≡ 1)
      × (le (slice 6 8 (fixed_header n)) ≡ 0)
      × (le (slice 8 12 (fixed_header n)) ≡ n)
unfolding fixed_header put_le bytes_eq le
fixed_header_fields n h = (refl, refl, refl, refl, le-put_le 4 n h)

-- A number of shards that the loading accepts: a power of two.
pub record IsShardCount (n : ℕ) : Type 0 where
  pub positive : 0 < n
  pub short : n < 2 ^ 32
  pub power : bit_and n (n - 1) ≡ 0

read_snapshot_header-written :
    (sequences : List ℕ) (behind : Bytes)
    → IsShardCount (length sequences)
    → All IsWord sequences
    → read_snapshot_header no_snapshot_faults
        (fixed_header (length sequences) ++ (put_sequences sequences ++ behind))
      ≡ ok (sequences, 12 + length sequences * 8)
unfolding read_snapshot_header
read_snapshot_header-written sequences behind c w =
    let n = length sequences in
    let fixed = fixed_header n in
    let contents = fixed ++ (put_sequences sequences ++ behind) in
    let (size, magic, version, flags, count) = fixed_header_fields n c.short in
    let sizes = length-append fixed (put_sequences sequences ++ behind) in
    let inner = length-append (put_sequences sequences) behind in
    let numbers = length-put_sequences sequences in
    ground (
      arith,
      c.positive,
      c.power,
      size,
      magic,
      version,
      flags,
      count,
      sizes,
      inner,
      numbers,
      read_at-append [] fixed (put_sequences sequences ++ behind) 0 12 0 refl size,
      read_at-append fixed (put_sequences sequences) behind 12 (n * 8) 12 size numbers,
      sequences_of-put_sequences sequences w,
    )

snapshot_bytes-split :
    (checksum : Bytes → ℕ) (visits : List Visit)
    → let sequences = map (λ v. v.sequence) visits in
      snapshot_bytes checksum visits
      ≡ fixed_header (length sequences)
        ++ (put_sequences sequences ++ encode_entries checksum (entries_of visits))
unfolding snapshot_bytes snapshot_header fixed_header put_le
snapshot_bytes-split checksum visits = refl

-- A snapshot that `writeSnapshotAt` wrote of shards, their number a power of two below 2^32, with
-- entries that passed the size checks and stood in the shard of their key at no higher sequence, is
-- loaded without an error: its entries are set one after the other, those of other shards left out
-- if the recovery is of one shard, and the sequences are those of the shards, kept for each shard
-- if the store has as many.
pub load_snapshot-snapshot_bytes :
    (checksum : Bytes → ℕ) (first : Visit) (visits : List Visit) (store : Store)
    → let sequences = first.sequence ∷ map (λ v. v.sequence) visits in
      IsChecksum checksum
      → IsShardCount (length sequences)
      → All IsWord sequences
      → All (λ e. IsStorable e × AtShard sequences e) (entries_of (first ∷ visits))
      → load_snapshot checksum no_snapshot_faults (snapshot_bytes checksum (first ∷ visits)) store
        ≡ some (
            ok (
              load_all store (entries_of (first ∷ visits)),
              new_snapshot_state first.sequence
                  (map (λ v. v.sequence) visits)
                  (length sequences == length store.shards % 2 ^ 32),
            ))
unfolding load_snapshot
load_snapshot-snapshot_bytes checksum first visits store is count words loadable =
    let sequences = first.sequence ∷ map (λ v. v.sequence) visits in
    let entries = entries_of (first ∷ visits) in
    let front = fixed_header (length sequences) ++ put_sequences sequences in
    let contents = front ++ encode_entries checksum entries in
    let split : snapshot_bytes checksum (first ∷ visits)
        ≡ fixed_header (length sequences)
          ++ (put_sequences sequences ++ encode_entries checksum entries) =
      snapshot_bytes-split checksum (first ∷ visits) in
    let split' : snapshot_bytes checksum (first ∷ visits) ≡ contents =
      split
      ∙ sym (
          append_assoc (fixed_header (length sequences)) (put_sequences sequences)
            (encode_entries checksum entries)) in
    let start : length front ≡ 12 + length sequences * 8 = omega (
      arith,
      length-append (fixed_header (length sequences)) (put_sequences sequences),
      length-put_sequences sequences,
      (fixed_header_fields (length sequences) count.short).0,
    ) in
    let header : read_snapshot_header no_snapshot_faults (snapshot_bytes checksum (first ∷ visits))
        ≡ ok (sequences, 12 + length sequences * 8) =
      ap (read_snapshot_header no_snapshot_faults) split
      ∙ read_snapshot_header-written sequences (encode_entries checksum entries) count words in
    let loaded : load_entries checksum no_snapshot_faults (snapshot_bytes checksum (first ∷ visits))
          sequences (suc (length (snapshot_bytes checksum (first ∷ visits)))) store
          (12 + length sequences * 8)
        ≡ some (ok (load_all store entries)) =
      ap
        (λ c.
          load_entries checksum no_snapshot_faults c sequences (suc (length c)) store
            (12 + length sequences * 8))
        split'
      ∙ ap
          (λ n.
            load_entries checksum no_snapshot_faults contents sequences (suc (length contents))
              store n)
          (sym start)
      ∙ load_entries-written checksum sequences is entries (suc (length contents)) front store
          loadable (omega (arith, length-append front (encode_entries checksum entries))) in
    rw (header, load_snapshot) (rw loaded)
