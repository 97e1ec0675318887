-- ===== src/Shard/Operate.antt =====
-- The invariant under the operations of a shard.
use go.Prelude.{
  ℕ, zero, suc, inl, inr, Option-cases, Bool-cases, ltb, ◌==◌, ◌||◌, ◌*◌, length, if-either,
}
use go.Prelude.{List, [], ◌∷◌, refl, leb}
use go.Prelude.Int.{ℤ}
use go.Wire.{Bytes}
use go.Shard.{
  Key, Locked, removal_delete, removal_expiry, deadline_passed, find, oldest, set_entry_locked,
}
use go.Shard.Operations.{
  count_miss, get_into, panic, eviction_kind, evict_loop, evict_to_capacity_locked, apply_set,
  apply_delete, reclaim_entry, reclaim_expired_locked, enforce_shard, SweepRound, Sample,
  sweep_entry, sample_entries, sweep_shard, sweep_sample_size, sweep_repeat_divisor,
}
use go.Shard.Recency.{find-key-find, find-oldest}
use go.Shard.Validity.{
  IsValid, find-set_entry_locked, remove_entry_locked-IsValid, mark_recent_locked-IsValid,
  set_entry_locked-IsValid,
}

module _ {others rest : ℕ} where
  count_miss-IsValid : (l : Locked) → IsValid others rest l → IsValid others rest (count_miss l)
  unfolding count_miss
  count_miss-IsValid l v = record {
    distinct = v.distinct;
    charged = v.charged;
    counted = v.counted;
    charged_all = v.charged_all;
  }

  panic-IsValid : (l : Locked) → IsValid others rest l → IsValid others rest (panic l)
  unfolding panic
  panic-IsValid l v = record {
    distinct = v.distinct;
    charged = v.charged;
    counted = v.counted;
    charged_all = v.charged_all;
  }

  pub get_into-IsValid :
      (l : Locked) (key : Key) (now : ℤ)
      → IsValid others rest l
      → IsValid others rest (get_into l key now).0
  unfolding get_into
  get_into-IsValid l key now v = elim (Option-cases (find key l.shard.recency)) [
    | inl miss ↦ rw (miss, get_into) (count_miss-IsValid l v)
    | inr (e, hit) ↦
        let self = find-key-find key _ e hit in
        elim (Bool-cases (deadline_passed e.deadline now)) [
          | inl gone ↦
              rw (hit, get_into)
                (rw gone
                  (count_miss-IsValid _ (remove_entry_locked-IsValid l v e removal_expiry self)))
          | inr live ↦
              rw (hit, get_into) (rw live (mark_recent_locked-IsValid l v e _ self refl refl))
        ]
  ]

  evict_loop-IsValid :
      (fuel : ℕ) (l : Locked) (now : ℤ)
      → IsValid others rest l
      → IsValid others rest (evict_loop fuel l now)
  unfolding evict_loop
  evict_loop-IsValid zero l now v = panic-IsValid l v
  evict_loop-IsValid (suc fuel) l now v = elim (Bool-cases (leb l.shard.bytes l.shard.capacity)) [
    | inl fits ↦ rw (fits, evict_loop) v
    | inr over ↦ elim (Option-cases (oldest l.shard.recency)) [
      | inl empty ↦ rw (over, evict_loop) (rw empty (panic-IsValid l v))
      | inr (e, old) ↦
          rw (over, evict_loop)
            (rw old (
              evict_loop-IsValid fuel _ now (
                remove_entry_locked-IsValid l v e (eviction_kind e now)
                  (find-oldest _ e v.distinct old))))
    ]
  ]

  pub evict_to_capacity_locked-IsValid :
      (l : Locked) (now : ℤ)
      → IsValid others rest l
      → IsValid others rest (evict_to_capacity_locked l now)
  unfolding evict_to_capacity_locked
  evict_to_capacity_locked-IsValid l now v =
      evict_loop-IsValid (suc (length l.shard.recency)) l now v

  pub apply_set-IsValid :
      (l : Locked) (key : Key) (value : Bytes) (deadline : ℤ) (sequence : ℕ) (now : ℤ)
      → IsValid others rest l
      → IsValid others rest (apply_set l key value deadline sequence now)
  unfolding apply_set
  apply_set-IsValid l key value deadline sequence now v =
      let placed = set_entry_locked l key value deadline sequence in
      let kept = set_entry_locked-IsValid l v key value deadline sequence in
      elim (Bool-cases (deadline_passed placed.1.deadline now)) [
        | inl gone ↦ rw gone (
            remove_entry_locked-IsValid placed.0 kept placed.1 removal_expiry
              (find-set_entry_locked l key value deadline sequence))
        | inr live ↦ elim (Bool-cases (ltb placed.0.shard.capacity placed.0.shard.bytes)) [
          | inl over ↦ rw live (rw over (evict_to_capacity_locked-IsValid placed.0 now kept))
          | inr fits ↦ rw live (rw fits kept)
        ]
      ]

  pub apply_delete-IsValid :
      (l : Locked) (key : Key) → IsValid others rest l → IsValid others rest (apply_delete l key)
  unfolding apply_delete
  apply_delete-IsValid l key v = elim (Option-cases (find key l.shard.recency)) [
    | inl miss ↦ rw (miss, apply_delete) v
    | inr (e, hit) ↦
        rw (hit, apply_delete)
          (remove_entry_locked-IsValid l v e removal_delete (find-key-find key _ e hit))
  ]

  pub reclaim_entry-IsValid :
      (l : Locked) (key : Key) (now : ℤ)
      → IsValid others rest l
      → IsValid others rest (reclaim_entry l key now)
  unfolding reclaim_entry
  reclaim_entry-IsValid l key now v = elim (Option-cases (find key l.shard.recency)) [
    | inl miss ↦ rw (miss, reclaim_entry) v
    | inr (e, hit) ↦
        let gone = remove_entry_locked-IsValid l v e removal_expiry (find-key-find key _ e hit) in
        rw (hit, reclaim_entry)
          (if-either (deadline_passed e.deadline now) (IsValid others rest) gone v)
  ]

  pub reclaim_expired_locked-IsValid :
      (l : Locked) (order : List Key) (now : ℤ)
      → IsValid others rest l
      → IsValid others rest (reclaim_expired_locked l order now)
  unfolding reclaim_expired_locked
  reclaim_expired_locked-IsValid l [] now v = v
  reclaim_expired_locked-IsValid l (key ∷ order) now v =
      reclaim_expired_locked-IsValid (reclaim_entry l key now) order now
        (reclaim_entry-IsValid l key now v)

  pub enforce_shard-IsValid :
      (l : Locked) (order : List Key) (now : ℤ)
      → IsValid others rest l
      → IsValid others rest (enforce_shard l order now)
  unfolding enforce_shard
  enforce_shard-IsValid l order now v =
      evict_to_capacity_locked-IsValid _ now (reclaim_expired_locked-IsValid l order now v)

  pub sweep_entry-IsValid :
      (s : Sample) (key : Key) (now : ℤ)
      → IsValid others rest s.swept
      → IsValid others rest (sweep_entry s key now).swept
  unfolding sweep_entry
  sweep_entry-IsValid s key now v = elim (Option-cases (find key s.swept.shard.recency)) [
    | inl miss ↦ rw (miss, sweep_entry) v
    | inr (e, hit) ↦
        let self = find-key-find key _ e hit in
        let gone = remove_entry_locked-IsValid s.swept v e removal_expiry self in
        rw (hit, sweep_entry)
          (if-either {A = Sample} (deadline_passed e.deadline now)
            (λ (t : Sample). IsValid others rest t.swept) gone v)
  ]

  pub sample_entries-IsValid :
      (s : Sample) (order : List Key) (in_time : ℕ) (now : ℤ)
      → IsValid others rest s.swept
      → IsValid others rest (sample_entries s order in_time now).swept
  unfolding sample_entries
  sample_entries-IsValid s [] in_time now v = v
  sample_entries-IsValid s (key ∷ order) zero now v = v
  sample_entries-IsValid s (key ∷ order) (suc in_time) now v =
      if-either {A = Sample} (s.sampled == sweep_sample_size)
        (λ (t : Sample). IsValid others rest t.swept) v
        (sample_entries-IsValid (sweep_entry s key now) order in_time now
          (sweep_entry-IsValid s key now v))

  pub sweep_shard-IsValid :
      (l : Locked) (rounds : List SweepRound)
      → IsValid others rest l
      → IsValid others rest (sweep_shard l rounds)
  unfolding sweep_shard
  sweep_shard-IsValid l [] v = v
  sweep_shard-IsValid l (round ∷ rounds) v =
      let start : Sample = record { swept = l; sampled = 0; reclaimed = 0 } in
      let s = sample_entries start round.order round.in_time round.now in
      let kept = sample_entries-IsValid start round.order round.in_time round.now v in
      if-either (s.sampled == 0 || ltb (s.reclaimed * sweep_repeat_divisor) s.sampled || round.over)
        (IsValid others rest) kept (sweep_shard-IsValid s.swept rounds kept)
