-- ===== src/Shard/Evict.antt =====
-- The loop of `evictToCapacityLocked`: what it removes, and when it ends.
use go.Prelude.{ℕ, zero, suc, ◌+◌, ◌^◌, ◌≤◌, ◌<◌, ◌≡◌, refl, sym, ap, ◌∙◌, arith}
use go.Prelude.{inl, inr, true, false, Option-cases, Bool-cases, leb, leb→le, leb→gt, length}
use go.Prelude.{List, [], ◌∷◌, ◌++◌, none, some, append-nil, append_assoc}
use go.Prelude.Int.{ℤ}
use go.Shard.{
  Entry, Locked, RemovalKind, removal_delete, Totals, entry_size, find, oldest, count_removal,
  remove_entry_locked,
}
use go.Shard.Operations.{eviction_kind, evict_loop, evict_to_capacity_locked}
use go.Shard.Recency.{
  Distinct, total_size, find-oldest, unlink-oldest, oldest-ne-none, total_size-unlink,
  length-unlink,
}
use go.Shard.Validity.{IsValid, remove_entry_locked-IsValid}

-- With the first of the removed entries still there the shard would be over its capacity.
abbrev pub Needed : ℕ → List Entry → List Entry → Type 0
Needed capacity kept [] = Unit
Needed capacity kept (e ∷ gone) = capacity < total_size kept + entry_size e

-- The entries of `l` that `l'` lacks are its oldest, no more of them than needed; `l'` fits its
-- capacity, and no nil pointer was followed.
pub record Evicted (l l' : Locked) (gone : List Entry) : Type 0 where
  pub split : l.shard.recency ≡ l'.shard.recency ++ gone
  pub capacity : l'.shard.capacity ≡ l.shard.capacity
  pub fits : total_size l'.shard.recency ≤ l.shard.capacity
  pub needed : Needed l.shard.capacity l'.shard.recency gone
  pub panicked : l'.totals.panicked ≡ l.totals.panicked

panicked-count_removal :
    (kind : RemovalKind) (t : Totals) → (count_removal kind t).panicked ≡ t.panicked
unfolding count_removal
panicked-count_removal removal_delete t = refl
panicked-count_removal _ t = refl

pub panicked-remove_entry_locked :
    (l : Locked) (e : Entry) (kind : RemovalKind)
    → (remove_entry_locked l e kind).totals.panicked ≡ l.totals.panicked
unfolding remove_entry_locked
panicked-remove_entry_locked l e kind = panicked-count_removal kind _

Needed-append :
    (capacity : ℕ) (kept gone : List Entry) (e : Entry)
    → capacity < total_size (kept ++ gone) + entry_size e
    → Needed capacity kept gone
    → Needed capacity kept (gone ++ e ∷ [])
Needed-append capacity kept [] e h n = rw append-nil at h
Needed-append capacity kept (x ∷ gone) e h n = n

oldest-none : (l : List Entry) → oldest l ≡ none → l ≡ []
oldest-none [] h = refl
oldest-none (x ∷ l) h = let (e, found) = oldest-ne-none x l in cc

evict_loop_stop :
    (fuel : ℕ) (l : Locked) (now : ℤ)
    → leb l.shard.bytes l.shard.capacity ≡ true
    → evict_loop (suc fuel) l now ≡ l
unfolding evict_loop
evict_loop_stop fuel l now fits = rw (fits, evict_loop)

evict_loop_step :
    (fuel : ℕ) (l : Locked) (now : ℤ) {e : Entry}
    → leb l.shard.bytes l.shard.capacity ≡ false
    → oldest l.shard.recency ≡ some e
    → evict_loop (suc fuel) l now
      ≡ evict_loop fuel (remove_entry_locked l e (eviction_kind e now)) now
unfolding evict_loop
evict_loop_step fuel l now over old = rw (over, evict_loop) (rw old)

module _ (l : Locked) (e : Entry) (kind : RemovalKind) where
  -- One round, and what the later rounds do.
  Evicted-remove :
      (l' : Locked) (gone : List Entry)
      → Distinct l.shard.recency
      → oldest l.shard.recency ≡ some e
      → l.shard.capacity < total_size l.shard.recency
      → Evicted (remove_entry_locked l e kind) l' gone
      → Evicted l l' (gone ++ e ∷ [])
  unfolding remove_entry_locked
  Evicted-remove l' gone d old over r =
      let kept = l'.shard.recency in
      let sizes = total_size-unlink e.key l.shard.recency e (find-oldest l.shard.recency e d old) in
      record {
        split =
            sym (unlink-oldest l.shard.recency e d old)
            ∙ ap (λ t. t ++ e ∷ []) r.split
            ∙ append_assoc kept gone (e ∷ []);
        capacity = r.capacity;
        fits = r.fits;
        needed =
            Needed-append l.shard.capacity kept gone e (rw (← r.split) (omega (arith, sizes)))
              r.needed;
        panicked = r.panicked ∙ panicked-remove_entry_locked l e kind;
      }

pub shrinks :
    (l : Locked) (e : Entry) (kind : RemovalKind)
    → find e.key l.shard.recency ≡ some e
    → (total_size (remove_entry_locked l e kind).shard.recency + entry_size e
        ≡ total_size l.shard.recency)
      × (length (remove_entry_locked l e kind).shard.recency + 1 ≡ length l.shard.recency)
unfolding remove_entry_locked
shrinks l e kind h =
    (total_size-unlink e.key l.shard.recency e h, length-unlink e.key l.shard.recency e h)

module _ {others rest : ℕ} where
  pub bytes-exact :
      (l : Locked)
      → IsValid others rest l
      → total_size l.shard.recency < 2 ^ 64
      → l.shard.bytes ≡ total_size l.shard.recency
  bytes-exact l v h = omega (arith, v.charged)

  evict_loop_lem :
      (fuel : ℕ) (l : Locked) (now : ℤ)
      → IsValid others rest l
      → total_size l.shard.recency < 2 ^ 64
      → length l.shard.recency < fuel
      → (gone : List Entry) × Evicted l (evict_loop fuel l now) gone
  evict_loop_lem zero l now v h f = absurd (omega arith)
  evict_loop_lem (suc fuel) l now v h f = elim (Bool-cases (leb l.shard.bytes l.shard.capacity)) [
    | inl fits ↦ ([], stop fits)
    | inr over ↦ elim (Option-cases (oldest l.shard.recency)) [
      | inl empty ↦ absurd (
          omega (
            arith,
            leb→gt _ _ over,
            bytes-exact l v h,
            ap total_size (oldest-none l.shard.recency empty),
          ))
      | inr (e, old) ↦
          let kind = eviction_kind e now in
          let self = find-oldest l.shard.recency e v.distinct old in
          let (smaller, shorter) = shrinks l e (eviction_kind e now) self in
          let next = remove_entry_locked l e kind in
          let (gone, r) =
            evict_loop_lem fuel next now (remove_entry_locked-IsValid l v e kind self)
              (omega (arith, smaller)) (omega (arith, shorter)) in
          (
            gone ++ e ∷ [],
            rw (evict_loop_step fuel l now over old) (
                Evicted-remove l e kind _ gone v.distinct old
                  (omega (arith, leb→gt _ _ over, bytes-exact l v h)) r),
          )
    ]
  ]
    where
      stop : leb l.shard.bytes l.shard.capacity ≡ true → Evicted l (evict_loop (suc fuel) l now) []
      stop fits = rw (evict_loop_stop fuel l now fits) (record {
        split = sym (append-nil l.shard.recency);
        capacity = refl;
        fits = omega (arith, leb→le _ _ fits, bytes-exact l v h);
        needed = tt;
        panicked = refl;
      })

  -- From a valid shard whose entries take fewer than 2^64 bytes, `evictToCapacityLocked` ends with
  -- the shard at or below its capacity and follows no nil pointer; what it removes are the least
  -- recently used entries, and no more of them than the capacity demands.
  pub evict_to_capacity_locked_lem :
      (l : Locked) (now : ℤ)
      → IsValid others rest l
      → total_size l.shard.recency < 2 ^ 64
      → (gone : List Entry) × Evicted l (evict_to_capacity_locked l now) gone
  unfolding evict_to_capacity_locked
  evict_to_capacity_locked_lem l now v h =
      evict_loop_lem (suc (length l.shard.recency)) l now v h (omega arith)
