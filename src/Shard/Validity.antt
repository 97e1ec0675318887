-- ===== src/Shard/Validity.antt =====
-- The invariant of a shard, and that each locked operation keeps it.
use go.Prelude.{ℕ, ◌+◌, ◌%◌, ◌^◌, ◌≡◌, refl, arith, inl, inr, Option-cases}
use go.Prelude.{none, some, length}
use go.Prelude.Int.{ℤ}
use go.Wire.{Bytes}
use go.Shard.{
  Key, Entry, Locked, RemovalKind, removal_delete, entry_size, Totals, add64, sub64, count_removal,
  find, mark_recent_locked, remove_entry_locked, overwrite_entry, insert_entry, set_entry_locked,
}
use go.Shard.Recency.{
  Distinct, total_size, find-key-find, find-unlink_self, find-mark_recent_self, Distinct-unlink,
  unlink_absent, total_size-unlink, length-unlink,
}

-- No key stands twice, and the counters add up: those of the shard to the sizes of its entries, and
-- those of the store to these and to what the other shards hold, `others` entries of `rest` bytes.
pub record IsValid (others rest : ℕ) (l : Locked) : Type 0 where
  pub distinct : Distinct l.shard.recency
  pub charged : l.shard.bytes ≡ total_size l.shard.recency % 2 ^ 64
  pub counted : l.totals.entries ≡ (others + length l.shard.recency) % 2 ^ 64
  pub charged_all : l.totals.bytes ≡ (rest + total_size l.shard.recency) % 2 ^ 64

entries-count_removal :
    (kind : RemovalKind) (t : Totals) → (count_removal kind t).entries ≡ t.entries
unfolding count_removal
entries-count_removal removal_delete t = refl
entries-count_removal _ t = refl

bytes-count_removal : (kind : RemovalKind) (t : Totals) → (count_removal kind t).bytes ≡ t.bytes
unfolding count_removal
bytes-count_removal removal_delete t = refl
bytes-count_removal _ t = refl

-- `uint64` subtraction takes a summand off a sum.
sub64_summand : (n m k s x : ℕ) → x ≡ (n + m) % 2 ^ 64 → k + s ≡ m → sub64 x s ≡ (n + k) % 2 ^ 64
sub64_summand n m k s x h e = omega arith

add64_summand : (n m s x : ℕ) → x ≡ (n + m) % 2 ^ 64 → add64 x s ≡ (n + (s + m)) % 2 ^ 64
add64_summand n m s x h = omega arith

-- `setEntryLocked` returns the entry that its key now finds.
pub find-set_entry_locked :
    (l : Locked) (key : Key) (value : Bytes) (deadline : ℤ) (sequence : ℕ)
    → find
        (set_entry_locked l key value deadline sequence).1.key
        (set_entry_locked l key value deadline sequence).0.shard.recency
      ≡ some (set_entry_locked l key value deadline sequence).1
unfolding set_entry_locked overwrite_entry insert_entry
find-set_entry_locked l key value deadline sequence =
    elim (Option-cases (find key l.shard.recency)) [
      | inl new ↦ rw (new, set_entry_locked) (find-mark_recent_self _ l.shard.recency)
      | inr (e, old) ↦ rw (old, set_entry_locked) (find-mark_recent_self _ l.shard.recency)
    ]

module _ {others rest : ℕ} (l : Locked) (v : IsValid others rest l) where
  pub remove_entry_locked-IsValid :
      (e : Entry) (kind : RemovalKind)
      → find e.key l.shard.recency ≡ some e
      → IsValid others rest (remove_entry_locked l e kind)
  unfolding remove_entry_locked
  remove_entry_locked-IsValid e kind h =
      let sizes = total_size-unlink e.key l.shard.recency e h in
      let lengths = length-unlink e.key l.shard.recency e h in
      record {
        distinct = Distinct-unlink e.key l.shard.recency v.distinct;
        charged = omega (arith, v.charged, sizes);
        counted = rw entries-count_removal (omega (arith, v.counted, lengths));
        charged_all =
            rw bytes-count_removal
              (sub64_summand rest _ _ (entry_size e) l.totals.bytes v.charged_all sizes);
      }

  pub insert_entry-IsValid :
      (e : Entry) → find e.key l.shard.recency ≡ none → IsValid others rest (insert_entry l e)
  unfolding insert_entry mark_recent_locked
  insert_entry-IsValid e h = rw (unlink_absent e.key l.shard.recency h) (record {
    distinct = (h, v.distinct);
    charged = omega (arith, v.charged);
    counted = omega (arith, v.counted);
    charged_all = omega (arith, v.charged_all);
  })

  pub overwrite_entry-IsValid :
      (e : Entry) (value : Bytes) (deadline : ℤ) (sequence : ℕ)
      → find e.key l.shard.recency ≡ some e
      → IsValid others rest (overwrite_entry l e value deadline sequence)
  unfolding overwrite_entry mark_recent_locked
  overwrite_entry-IsValid e value deadline sequence h =
      let sizes = total_size-unlink e.key l.shard.recency e h in
      record {
        distinct = (find-unlink_self e.key _ v.distinct, Distinct-unlink e.key _ v.distinct);
        charged = omega (arith, v.charged, sizes);
        counted = omega (arith, v.counted, length-unlink e.key l.shard.recency e h);
        charged_all = omega (arith, v.charged_all, sizes);
      }

  -- A hit changes the order only.
  pub mark_recent_locked-IsValid :
      (e : Entry) (t : Totals)
      → find e.key l.shard.recency ≡ some e
      → t.entries ≡ l.totals.entries
      → t.bytes ≡ l.totals.bytes
      → IsValid others rest (record {
        shard = record (l.shard) { recency = mark_recent_locked e l.shard.recency };
        totals = t;
      })
  unfolding mark_recent_locked
  mark_recent_locked-IsValid e t h te tb =
      let sizes = total_size-unlink e.key l.shard.recency e h in
      record {
        distinct = (find-unlink_self e.key _ v.distinct, Distinct-unlink e.key _ v.distinct);
        charged = omega (arith, v.charged, sizes);
        counted = omega (arith, v.counted, te, length-unlink e.key l.shard.recency e h);
        charged_all = omega (arith, v.charged_all, tb, sizes);
      }

  pub set_entry_locked-IsValid :
      (key : Key) (value : Bytes) (deadline : ℤ) (sequence : ℕ)
      → IsValid others rest (set_entry_locked l key value deadline sequence).0
  unfolding set_entry_locked
  set_entry_locked-IsValid key value deadline sequence =
      elim (Option-cases (find key l.shard.recency)) [
        | inl new ↦ rw (new, set_entry_locked) (insert_entry-IsValid _ new)
        | inr (e, old) ↦
            rw (old, set_entry_locked)
              (overwrite_entry-IsValid e value deadline sequence (find-key-find key _ e old))
      ]
