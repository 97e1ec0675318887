-- ===== src/Shard/Written.antt =====
-- What `applySet`, `applyDelete`, `getInto` and the sweep leave visible, and the memory ceiling.
use go.Prelude.{ℕ, ◌+◌, ◌^◌, ◌≤◌, ◌<◌, ◌≡◌, ◌≢◌, refl, sym, ap, ◌∙◌, subst, arith, if_pos, if_neg}
use go.Prelude.{inl, inr, Bool-cases, true, false, ltb, ltb→ge, if◌then◌else◌}
use go.Prelude.{List, none, some}
use go.Prelude.Int.{ℤ}
use go.Wire.{Bytes}
use go.Shard.{
  Key, Entry, Locked, new_entry, removal_expiry, key_eq, entry_size, deadline_passed, find,
  remove_entry_locked, set_entry_locked,
}
use go.Shard.Operations.{apply_set}
use go.Shard.Recency.{total_size}
use go.Shard.Validity.{IsValid, set_entry_locked-IsValid, find-set_entry_locked}
use go.Shard.Evict.{
  Evicted, evict_to_capacity_locked_lem, panicked-remove_entry_locked, shrinks, bytes-exact,
}
use go.Shard.Visible.{
  look, look-remove_entry_locked, look-set_entry_locked, look-Evicted, front_survives,
  total_size-set_entry_locked, front-set_entry_locked,
}

-- The shard is at or below its capacity, and no nil pointer was followed.
pub record IsBounded (l : Locked) : Type 0 where
  pub ceiling : total_size l.shard.recency ≤ l.shard.capacity
  pub sound : l.totals.panicked ≡ false

module _ (l : Locked) (key : Key) (value : Bytes) (deadline : ℤ) (sequence : ℕ) (now : ℤ) where
  abbrev made : Entry
  made = new_entry key value deadline sequence

  abbrev placed : Locked × Entry
  placed = set_entry_locked l key value deadline sequence

  -- The three ways out of `applySet`.
  data SetOutcome (l' : Locked) : Type 0 where
    expired :
        deadline_passed deadline now ≡ true
        → l' ≡ remove_entry_locked placed.0 placed.1 removal_expiry
        → SetOutcome l'
    fitted :
        deadline_passed deadline now ≡ false
        → placed.0.shard.bytes ≤ placed.0.shard.capacity
        → l' ≡ placed.0
        → SetOutcome l'
    crowded :
        deadline_passed deadline now ≡ false
        → (gone : List Entry) → Evicted placed.0 l' gone
        → SetOutcome l'

  SetOutcome-apply_set :
      {others rest : ℕ}
      → IsValid others rest l
      → total_size l.shard.recency + entry_size made < 2 ^ 64
      → SetOutcome (apply_set l key value deadline sequence now)
  unfolding apply_set
  SetOutcome-apply_set v h =
      let front = front-set_entry_locked l key value deadline sequence in
      let kept = set_entry_locked-IsValid l v key value deadline sequence in
      let small = total_size-set_entry_locked l key value deadline sequence in
      let same : placed.1.deadline ≡ deadline = ap (λ (e : Entry). e.deadline) front.0 in
      elim (Bool-cases (deadline_passed deadline now)) [
        | inl gone ↦ rw (same, gone) (expired gone refl)
        | inr alive ↦ elim (Bool-cases (ltb placed.0.shard.capacity placed.0.shard.bytes)) [
          | inl over ↦
              let (gone, r) =
                evict_to_capacity_locked_lem placed.0 now kept (omega (arith, small)) in
              rw (same, alive) (rw over (crowded alive gone r))
          | inr fits ↦ rw (same, alive) (rw fits (fitted alive (ltb→ge _ _ fits) refl))
        ]
      ]

  removed-IsBounded :
      IsBounded l
      → let l' = remove_entry_locked placed.0 placed.1 removal_expiry in
        IsBounded l' × (l'.shard.capacity ≡ l.shard.capacity)
  unfolding remove_entry_locked
  removed-IsBounded b =
      let (same, front, capacity, sound) = front-set_entry_locked l key value deadline sequence in
      let small = total_size-set_entry_locked l key value deadline sequence in
      let self = find-set_entry_locked l key value deadline sequence in
      let less = (shrinks placed.0 placed.1 removal_expiry self).0 in
      (
        record {
          ceiling = omega (arith, b.ceiling, less, small, capacity, ap entry_size same);
          sound = panicked-remove_entry_locked placed.0 placed.1 removal_expiry ∙ sound ∙ b.sound;
        },
        capacity,
      )

  IsBounded-SetOutcome :
      {others rest : ℕ} (l' : Locked)
      → IsValid others rest l
      → IsBounded l
      → total_size l.shard.recency + entry_size made < 2 ^ 64
      → SetOutcome l'
      → IsBounded l' × (l'.shard.capacity ≡ l.shard.capacity)
  IsBounded-SetOutcome l' v b room (expired gone e) = rw e (removed-IsBounded b)
  IsBounded-SetOutcome l' v b room (fitted alive fits e) =
      let (same, front, capacity, sound) = front-set_entry_locked l key value deadline sequence in
      let more = total_size-set_entry_locked l key value deadline sequence in
      let kept = set_entry_locked-IsValid l v key value deadline sequence in
      rw e (
        record {
          ceiling = omega (arith, fits, bytes-exact placed.0 kept (omega (arith, more, room)));
          sound = sound ∙ b.sound;
        },
        capacity,
      )
  IsBounded-SetOutcome l' v b room (crowded alive gone r) =
      let (same, front, capacity, sound) = front-set_entry_locked l key value deadline sequence in
      (
        record {
          ceiling = omega (arith, r.fits, r.capacity);
          sound = r.panicked ∙ sound ∙ b.sound;
        },
        r.capacity ∙ capacity,
      )

  -- Applying a set keeps a valid shard at or below its capacity, whatever the capacity is, does not
  -- change the capacity and follows no nil pointer. Before it the shard was at or below its capacity,
  -- no nil pointer had been followed, and the entries together with the new one take fewer than 2^64
  -- bytes.
  pub apply_set-IsBounded :
      {others rest : ℕ}
      → IsValid others rest l
      → IsBounded l
      → total_size l.shard.recency + entry_size made < 2 ^ 64
      → IsBounded (apply_set l key value deadline sequence now)
        × ((apply_set l key value deadline sequence now).shard.capacity ≡ l.shard.capacity)
  apply_set-IsBounded v b room = IsBounded-SetOutcome _ v b room (SetOutcome-apply_set v room)

  look-SetOutcome :
      {others rest : ℕ} (l' : Locked)
      → IsValid others rest l
      → entry_size made ≤ l.shard.capacity
      → SetOutcome l'
      → look key l' ≡ (if deadline_passed deadline now then none else some made)
  look-SetOutcome l' v small (expired gone e) =
      let kept = set_entry_locked-IsValid l v key value deadline sequence in
      let same = (front-set_entry_locked l key value deadline sequence).0 in
      let own = ap (λ (x : Entry). x.key) same in
      rw (gone, e)
        (look-remove_entry_locked placed.0 placed.1 removal_expiry key kept.distinct
          ∙ if_pos (key_eq placed.1.key key) own none (look key placed.0))
  look-SetOutcome l' v small (fitted alive fits e) =
      rw (alive, e)
        (look-set_entry_locked l key value deadline sequence key
          ∙ if_pos (key_eq key key) refl (some made) (look key l))
  look-SetOutcome l' v small (crowded alive last r) =
      let (same, front, capacity, sound) = front-set_entry_locked l key value deadline sequence in
      let stays =
        front_survives placed.0.shard.capacity placed.1 _ l'.shard.recency last
          (sym front ∙ r.split) (omega (arith, small, capacity, ap entry_size same)) r.needed in
      rw alive (subst (λ (x : Entry). find x.key l'.shard.recency ≡ some x) same stays)

  look-placed_ne : (q : Key) → q ≢ key → look q placed.0 ≡ look q l
  look-placed_ne q ne =
      look-set_entry_locked l key value deadline sequence q
      ∙ if_neg (key_eq key q) (λ s. ne (sym s)) (some made) (look q l)

  look-SetOutcome_ne :
      {others rest : ℕ} (l' : Locked) (q : Key) (e : Entry)
      → IsValid others rest l
      → q ≢ key
      → SetOutcome l'
      → look q l' ≡ some e
      → look q l ≡ some e
  look-SetOutcome_ne l' q e v ne (expired gone p) h =
      let kept = set_entry_locked-IsValid l v key value deadline sequence in
      let own =
        ap (λ (x : Entry). x.key) (front-set_entry_locked l key value deadline sequence).0 in
      let distinct = λ (s : placed.1.key ≡ q). ne (sym s ∙ own) in
      sym (look-placed_ne q ne)
      ∙ sym (if_neg (key_eq placed.1.key q) distinct none (look q placed.0))
      ∙ sym (look-remove_entry_locked placed.0 placed.1 removal_expiry q kept.distinct)
      ∙ (rw p at h)
  look-SetOutcome_ne l' q e v ne (fitted alive fits p) h = sym (look-placed_ne q ne) ∙ (rw p at h)
  look-SetOutcome_ne l' q e v ne (crowded alive last r) h =
      sym (look-placed_ne q ne) ∙ look-Evicted q e r h

  -- After a set of an entry that takes no more than the capacity is applied to a valid shard, its key
  -- has the new value, deadline and sequence, or is absent if the deadline has passed. The entries of
  -- the shard together with the new one take fewer than 2^64 bytes.
  pub look-apply_set_self :
      {others rest : ℕ}
      → IsValid others rest l
      → total_size l.shard.recency + entry_size made < 2 ^ 64
      → entry_size made ≤ l.shard.capacity
      → look key (apply_set l key value deadline sequence now)
        ≡ (if deadline_passed deadline now then none else some made)
  look-apply_set_self v room small = look-SetOutcome _ v small (SetOutcome-apply_set v room)

  -- Applying a set to a valid shard gives no other key an entry that it did not have. The entries of
  -- the shard together with the new one take fewer than 2^64 bytes.
  pub look-apply_set_ne :
      {others rest : ℕ} (q : Key) (e : Entry)
      → IsValid others rest l
      → total_size l.shard.recency + entry_size made < 2 ^ 64
      → q ≢ key
      → look q (apply_set l key value deadline sequence now) ≡ some e
      → look q l ≡ some e
  look-apply_set_ne q e v room ne h = look-SetOutcome_ne _ q e v ne (SetOutcome-apply_set v room) h
