-- ===== src/Snapshot/Written.antt =====
-- What `writeFull` and `writeSnapshotAt` leave in the file.
use go.Prelude.{
  ℕ, zero, suc, ◌+◌, ◌*◌, ◌≤◌, ◌≡◌, refl, sym, ap, ◌∙◌, arith, subst, ltb, if◌then◌else◌,
}
use go.Prelude.{
  List, [], ◌∷◌, ◌++◌, Option, none, some, length, length-append, length-drop, take, drop, map,
  replicate, append-nil, append_assoc, take-append-drop, drop-append, All,
}
use go.Wire.{Bytes, put_le, length-put_le}
use go.Errors.{Result, ok, err, ◌>>=◌, io_failed, os}
use go.Shard.{Entry}
use go.Snapshot.{
  Wrote, wrote, failed, write_full_loop, write_full, write_entries, write_visits, Visit,
  encode_entries, encode_snapshot_entry, entries_of, put_sequences, snapshot_header,
  new_snapshot_header, snapshot_bytes, write_snapshot_at, lowest_of, lowest_from, out_of_fuel,
}

-- A result is an error, or this value.
abbrev pub OkIs {ℓ} : {V : Type ℓ} → Result V → V → Type ℓ
OkIs (err e) expected = Unit {ℓ}
OkIs (ok v) expected = v ≡ expected

abbrev Appends : Option (Result Bytes) → Bytes → Type 0
Appends none expected = ⊥
Appends (some r) expected = OkIs r expected

-- Fuel for every byte is enough.
write_full_loop-Appends :
    (fuel : ℕ) (write : ℕ → Wrote) (file value : Bytes)
    → length value ≤ fuel
    → Appends (write_full_loop fuel write file value) (file ++ value)
unfolding write_full_loop
write_full_loop-Appends fuel write file [] h = sym (append-nil file)
write_full_loop-Appends zero write file (b ∷ value) h = absurd (omega arith)
write_full_loop-Appends (suc fuel) write file (b ∷ value) h = go (write (length file)) refl (λ n.
    write_full_loop-Appends fuel write (file ++ take (suc n) (b ∷ value)) (drop (suc n) (b ∷ value))
      (omega (arith, length-drop n value)))
  where
    go :
        (w : Wrote)
        → write (length file) ≡ w
        → ((n : ℕ)
            → Appends
                (write_full_loop fuel write
                  (file ++ take (suc n) (b ∷ value))
                  (drop (suc n) (b ∷ value)))
                ((file ++ take (suc n) (b ∷ value)) ++ drop (suc n) (b ∷ value)))
        → Appends (write_full_loop (suc fuel) write file (b ∷ value)) (file ++ b ∷ value)
    go (failed n) e later = rw (e, write_full_loop) tt
    go (wrote zero) e later = rw (e, write_full_loop) tt
    go (wrote (suc n)) e later =
        let whole =
          append_assoc file (take (suc n) (b ∷ value)) (drop (suc n) (b ∷ value))
          ∙ ap (λ t. file ++ t) (take-append-drop (suc n) (b ∷ value)) in
        rw (e, write_full_loop)
          (subst
            (Appends (
              write_full_loop fuel write (file ++ take (suc n) (b ∷ value))
                (drop (suc n) (b ∷ value))))
            whole (later n))

write_full-OkIs :
    (write : ℕ → Wrote) (file value : Bytes) → OkIs (write_full write file value) (file ++ value)
unfolding write_full
write_full-OkIs write file value =
    go (write_full_loop (length value) write file value)
      (write_full_loop-Appends (length value) write file value (omega arith))
  where
    go :
        (o : Option (Result Bytes))
        → Appends o (file ++ value)
        → OkIs (out_of_fuel o) (file ++ value)
    go none a = absurd a
    go (some r) a = a

-- A step behind a step.
OkIs-bind {ℓ κ} :
    {V : Type ℓ} {W : Type κ} (r : Result V) (f : V → Result W) (v : V) (w : W)
    → OkIs r v
    → OkIs (f v) w
    → OkIs (r >>= f) w
OkIs-bind (err e) f v w h k = tt
OkIs-bind (ok x) f v w h k = subst (λ y. OkIs (f y) w) (sym h) k

write_entries-OkIs :
    (checksum : Bytes → ℕ) (write : ℕ → Wrote) (file : Bytes) (entries : List Entry)
    → OkIs (write_entries checksum write file entries) (file ++ encode_entries checksum entries)
unfolding write_entries encode_entries
write_entries-OkIs checksum write file [] = sym (append-nil file)
write_entries-OkIs checksum write file (e ∷ entries) =
    let first = encode_snapshot_entry checksum e in
    OkIs-bind (write_full write file first) (λ f. write_entries checksum write f entries)
      (file ++ first) _ (write_full-OkIs write file first)
      (subst (OkIs (write_entries checksum write (file ++ first) entries))
        (append_assoc file first (encode_entries checksum entries))
        (write_entries-OkIs checksum write (file ++ first) entries))

encode_entries-append :
    (checksum : Bytes → ℕ) (xs ys : List Entry)
    → encode_entries checksum (xs ++ ys) ≡ encode_entries checksum xs ++ encode_entries checksum ys
unfolding encode_entries
encode_entries-append checksum [] ys = refl
encode_entries-append checksum (x ∷ xs) ys =
    ap (λ b. encode_snapshot_entry checksum x ++ b) (encode_entries-append checksum xs ys)
    ∙ sym (append_assoc (encode_snapshot_entry checksum x) (encode_entries checksum xs) _)

write_visits-OkIs :
    (checksum : Bytes → ℕ) (write : ℕ → Wrote) (file : Bytes) (visits : List Visit)
    → OkIs
        (write_visits checksum write file visits)
        (file ++ encode_entries checksum (entries_of visits))
unfolding write_visits encode_entries
write_visits-OkIs checksum write file [] = sym (append-nil file)
write_visits-OkIs checksum write file (v ∷ visits) =
    let first = encode_entries checksum v.entries in
    let rest = encode_entries checksum (entries_of visits) in
    OkIs-bind (write_entries checksum write file v.entries)
      (λ f. write_visits checksum write f visits) (file ++ first) _
      (write_entries-OkIs checksum write file v.entries)
      (subst (OkIs (write_visits checksum write (file ++ first) visits))
        (append_assoc file first rest
          ∙ ap (λ b. file ++ b)
              (sym (encode_entries-append checksum v.entries (entries_of visits))))
        (write_visits-OkIs checksum write (file ++ first) visits))

length-put_sequences :
    (sequences : List ℕ) → length (put_sequences sequences) ≡ 8 * length sequences
unfolding put_sequences
length-put_sequences [] = omega arith
length-put_sequences (s ∷ sequences) = omega (
  arith,
  length-append (put_le 8 s) (put_sequences sequences),
  length-put_le 8 s,
  length-put_sequences sequences,
)

pub length-snapshot_header :
    (sequences : List ℕ) → length (snapshot_header sequences) ≡ 12 + 8 * length sequences
unfolding snapshot_header put_le
length-snapshot_header sequences = omega (arith, length-put_sequences sequences)

length-map {ℓ κ} :
    {A : Type ℓ} {B : Type κ} (f : A → B) (xs : List A) → length (map f xs) ≡ length xs
length-map f [] = refl
length-map f (x ∷ xs) = ap suc (length-map f xs)

length-replicate : (n a : ℕ) → length (replicate n a) ≡ n
length-replicate zero a = refl
length-replicate (suc n) a = ap suc (length-replicate n a)

lowest_from-le :
    (lowest : ℕ) (sequences : List ℕ)
    → (lowest_from lowest sequences ≤ lowest)
      × All (λ s. lowest_from lowest sequences ≤ s) sequences
unfolding lowest_from
lowest_from-le lowest [] = (omega arith, tt)
lowest_from-le lowest (s ∷ sequences) =
    let next = if ltb s lowest then s else lowest in
    let (le, all) = lowest_from-le next sequences in
    let under_lowest : next ≤ lowest = ground arith in
    let under_s : next ≤ s = ground arith in
    (omega (arith, le, under_lowest), (omega (arith, le, under_s), all))

pub All-map {ℓ κ μ} :
    {A : Type ℓ} {B : Type κ} (P : B → Type μ) (f : A → B) (xs : List A)
    → All P (map f xs)
    → All (λ x. P (f x)) xs
All-map P f [] h = tt
All-map P f (x ∷ xs) (hx, h) = (hx, All-map P f xs h)

lowest_of-le : (sequences : List ℕ) → All (λ s. lowest_of sequences ≤ s) sequences
unfolding lowest_of
lowest_of-le [] = tt
lowest_of-le (s ∷ sequences) = (lowest_from-le s (s ∷ sequences)).1

-- Whatever the writes do, `writeSnapshotAt` fails, or its file holds the header with the sequences
-- that it saw at the shards and then the record of every entry that it saw, in order, and nothing
-- else; and the sequence that it reports is no higher than that of any shard.
pub write_snapshot_at-snapshot_bytes :
    (checksum : Bytes → ℕ) (write : ℕ → Wrote) (finalize : Option ℕ) (visits : List Visit)
    → OkIs
        (write_snapshot_at checksum write finalize visits)
        (lowest_of (map (λ v. v.sequence) visits), snapshot_bytes checksum visits)
      × All (λ v. lowest_of (map (λ v. v.sequence) visits) ≤ v.sequence) visits
unfolding write_snapshot_at new_snapshot_header snapshot_bytes
write_snapshot_at-snapshot_bytes checksum write finalize visits = (
  OkIs-bind (write_full write [] zeros)
      (λ f. do f' ← write_visits checksum write f visits; finish finalize f') zeros _
      (write_full-OkIs write [] zeros)
      (OkIs-bind (write_visits checksum write zeros visits) (finish finalize) (zeros ++ body) _
        (write_visits-OkIs checksum write zeros visits) (finished finalize)),
  All-map (λ s. lowest_of sequences ≤ s) (λ v. v.sequence) visits (lowest_of-le sequences),
)
  where
    sequences : List ℕ
    sequences = map (λ v. v.sequence) visits

    zeros : Bytes
    zeros = snapshot_header (replicate (length visits) 0)

    body : Bytes
    body = encode_entries checksum (entries_of visits)

    finish : Option ℕ → Bytes → Result (ℕ × Bytes)
    finish finalize file = elim finalize [
      | some n ↦ err (io_failed (os n))
      | none ↦ ok (
        lowest_of sequences,
        snapshot_header sequences ++ drop (length (snapshot_header sequences)) file,
      )
    ]

    same_size : length zeros ≡ length (snapshot_header sequences)
    same_size =
        length-snapshot_header (replicate (length visits) 0)
        ∙ ap (λ n. 12 + 8 * n)
            (length-replicate (length visits) 0 ∙ sym (length-map (λ v. v.sequence) visits))
        ∙ sym (length-snapshot_header sequences)

    finished :
        (finalize : Option ℕ)
        → OkIs
            (finish finalize (zeros ++ body))
            (lowest_of sequences, snapshot_header sequences ++ body)
    finished (some n) = tt
    finished none =
        ap (λ b. (lowest_of sequences, snapshot_header sequences ++ b))
          (drop-append (length (snapshot_header sequences)) zeros body same_size)
