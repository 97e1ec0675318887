-- ===== src/Shard/Visible.antt =====
-- What the operations of a shard make visible: the entry under each key afterwards.
use go.Prelude.{ℕ, ◌+◌, ◌≤◌, ◌≡◌, refl, ap, ◌∙◌, arith, ite, if_pos}
use go.Prelude.{inl, inr, Option-cases, if◌then◌else◌}
use go.Prelude.{List, [], ◌∷◌, ◌++◌, Option, none, some}
use go.Prelude.Int.{ℤ}
use go.Wire.{Bytes}
use go.Shard.{
  Key, Entry, Locked, new_entry, RemovalKind, key_eq, entry_size, deadline_passed, find, unlink,
  mark_recent_locked, remove_entry_locked, set_entry_locked, overwrite_entry, insert_entry,
}
use go.Shard.Operations.{}
use go.Shard.Recency.{
  Distinct, total_size, key-find, find-key-find, find-unlink, find-mark_recent, unlink_absent,
  total_size-unlink,
}
use go.Shard.Evict.{Evicted, Needed}

abbrev pub look : Key → Locked → Option Entry
look q l = find q l.shard.recency

-- An entry whose deadline has passed counts as absent.
unfoldable pub live : ℤ → Option Entry → Option Entry
live now none = none
live now (some e) = if deadline_passed e.deadline now then none else some e

pub look-remove_entry_locked :
    (l : Locked) (e : Entry) (kind : RemovalKind) (q : Key)
    → Distinct l.shard.recency
    → look q (remove_entry_locked l e kind) ≡ ite (key_eq e.key q) none (look q l)
unfolding remove_entry_locked
look-remove_entry_locked l e kind q d = find-unlink e.key q l.shard.recency d

pub look-set_entry_locked :
    (l : Locked) (key : Key) (value : Bytes) (deadline : ℤ) (sequence : ℕ) (q : Key)
    → look q (set_entry_locked l key value deadline sequence).0
      ≡ ite (key_eq key q) (some (new_entry key value deadline sequence)) (look q l)
unfolding set_entry_locked overwrite_entry insert_entry
look-set_entry_locked l key value deadline sequence q =
    elim (Option-cases (find key l.shard.recency)) [
      | inl new ↦ rw (new, set_entry_locked) (find-mark_recent _ q l.shard.recency)
      | inr (e, old) ↦
          rw (old, set_entry_locked)
            (find-mark_recent _ q l.shard.recency
              ∙ ap (λ k. ite (key_eq k q) (some (new_entry k value deadline sequence)) (look q l))
                  (key-find key _ e old))
    ]

find-append_some :
    (q : Key) (kept gone : List Entry) (e : Entry)
    → find q kept ≡ some e
    → find q (kept ++ gone) ≡ some e
unfolding find
find-append_some q [] gone e h = cc
find-append_some q (x ∷ kept) gone e h = ground (arith, find-append_some q kept gone e)

-- What eviction leaves is as it was.
pub look-Evicted :
    {l l' : Locked} {gone : List Entry} (q : Key) (e : Entry)
    → Evicted l l' gone
    → look q l' ≡ some e
    → look q l ≡ some e
look-Evicted {l} {l'} {gone} q e r h = rw r.split (find-append_some q l'.shard.recency gone e h)

-- The entry in front survives an eviction if it fits by itself.
pub front_survives :
    (capacity : ℕ) (e : Entry) (others kept gone : List Entry)
    → e ∷ others ≡ kept ++ gone
    → entry_size e ≤ capacity
    → Needed capacity kept gone
    → find e.key kept ≡ some e
unfolding find
front_survives capacity e others [] [] p small n = cc
front_survives capacity e others [] (x ∷ gone) p small n =
    let same : e ≡ x = cc in absurd (omega (arith, ap entry_size same))
front_survives capacity e others (x ∷ kept) gone p small n =
    let same : e ≡ x = cc in rw same (if_pos (key_eq x.key x.key) refl _ _)

pub total_size-set_entry_locked :
    (l : Locked) (key : Key) (value : Bytes) (deadline : ℤ) (sequence : ℕ)
    → total_size (set_entry_locked l key value deadline sequence).0.shard.recency
      ≤ total_size l.shard.recency + entry_size (new_entry key value deadline sequence)
unfolding set_entry_locked overwrite_entry insert_entry mark_recent_locked
total_size-set_entry_locked l key value deadline sequence =
    elim (Option-cases (find key l.shard.recency)) [
      | inl new ↦
          rw (new, set_entry_locked) (rw (unlink_absent key l.shard.recency new) (omega arith))
      | inr (e, old) ↦
          let same =
            ap (λ k. entry_size (new_entry k value deadline sequence)) (key-find key _ e old) in
          rw (old, set_entry_locked)
            (omega (arith, same, total_size-unlink e.key _ e (find-key-find key _ e old)))
    ]

-- What `setEntryLocked` returns has the key, and it stands in front.
pub front-set_entry_locked :
    (l : Locked) (key : Key) (value : Bytes) (deadline : ℤ) (sequence : ℕ)
    → let (l', e) = set_entry_locked l key value deadline sequence in
      (e ≡ new_entry key value deadline sequence)
      × (l'.shard.recency ≡ e ∷ unlink key l.shard.recency)
      × (l'.shard.capacity ≡ l.shard.capacity)
      × (l'.totals.panicked ≡ l.totals.panicked)
unfolding set_entry_locked overwrite_entry insert_entry mark_recent_locked
front-set_entry_locked l key value deadline sequence =
    elim (Option-cases (find key l.shard.recency)) [
      | inl new ↦ rw (new, set_entry_locked) (refl, refl, refl, refl)
      | inr (e, old) ↦
          let same = key-find key _ e old in
          rw (old, set_entry_locked)
            (
              ap (λ k. new_entry k value deadline sequence) same,
              ap
                  (λ k.
                    record e { value = value; deadline = deadline; sequence = sequence }
                    ∷ unlink k l.shard.recency)
                  same,
              refl,
              refl,
            )
    ]
