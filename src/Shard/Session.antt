-- ===== src/Shard/Session.antt =====
-- What a read returns behind a set or a delete of its key, in terms of deadlines and times.
use go.Prelude.{
  Bool, zero, suc, ℕ, ◌+◌, ◌^◌, ◌≤◌, ◌<◌, ◌≡◌, ◌↔◌, ◌⊎◌, refl, sym, ap, ◌∙◌, arith, inl, inr, true,
  false, if_pos, if◌then◌else◌,
}
use go.Prelude.{none, some}
use go.Prelude.Int.{ℤ, pos, negsuc, ◌≤ℤ◌}
use go.Wire.{Bytes}
use go.Shard.{Key, Entry, Locked, new_entry, key_eq, entry_size, deadline_passed}
use go.Shard.Operations.{get_into, apply_set, apply_delete}
use go.Shard.Recency.{total_size}
use go.Shard.Validity.{IsValid}
use go.Shard.Visible.{look}
use go.Shard.Written.{look-apply_set_self}
use go.Shard.Reads.{look-apply_delete, deadline_passed_later}

-- A deadline of 0 never passes; another one has passed from its time on.
abbrev pub IsLive : ℤ → ℤ → Type 0
IsLive deadline now = (deadline ≡ pos 0) ⊎ ¬ (deadline ≤ℤ now)

deadline_passed-IsLive :
    (deadline now : ℤ) → deadline_passed deadline now ≡ false → IsLive deadline now
unfolding deadline_passed
deadline_passed-IsLive (pos zero) now h = inl refl
deadline_passed-IsLive (pos (suc n)) now h = inr (λ le. ground (arith, h, le))
deadline_passed-IsLive (negsuc n) now h = inr (λ le. ground (arith, h, le))

IsLive-deadline_passed :
    (deadline now : ℤ) → IsLive deadline now → deadline_passed deadline now ≡ false
unfolding deadline_passed
IsLive-deadline_passed deadline now (inl e) = rw e refl
IsLive-deadline_passed deadline now (inr h) = ground (arith, h)

module _ (l : Locked) (key : Key) (now : ℤ) where
  get_into-none : look key l ≡ none → (get_into l key now).1 ≡ none
  unfolding get_into
  get_into-none h = ground (arith, h)

  get_into-live :
      (e : Entry)
      → look key l ≡ some e
      → deadline_passed e.deadline now ≡ false
      → (get_into l key now).1 ≡ some e.value
  unfolding get_into
  get_into-live e h alive = ground (arith, h, alive)

  get_into-dead :
      (e : Entry)
      → look key l ≡ some e
      → deadline_passed e.deadline now ≡ true
      → (get_into l key now).1 ≡ none
  unfolding get_into
  get_into-dead e h dead = ground (arith, h, dead)

-- A read at a later time behind a set returns the value that was set, and only that, exactly if the
-- deadline is 0 or still ahead; a read behind a delete returns nothing. The shard is valid, the new
-- entry takes no more than the capacity, and all entries together fewer than 2^64 bytes.
pub get_into-apply_set :
    {others rest : ℕ} (l : Locked) (key : Key) (value : Bytes) (deadline : ℤ) (sequence : ℕ)
    (now later : ℤ)
    → IsValid others rest l
    → total_size l.shard.recency + entry_size (new_entry key value deadline sequence) < 2 ^ 64
    → entry_size (new_entry key value deadline sequence) ≤ l.shard.capacity
    → now ≤ℤ later
    → ((w : Bytes)
        → ((get_into (apply_set l key value deadline sequence now) key later).1 ≡ some w)
          ↔ ((value ≡ w) × IsLive deadline later))
      × ((get_into (apply_delete l key) key later).1 ≡ none)
get_into-apply_set l key value deadline sequence now later v room small le = (
  λ w. read w (deadline_passed deadline later) refl (deadline_passed deadline now) refl,
  get_into-none (apply_delete l key) key later
      (look-apply_delete l key key v ∙ if_pos (key_eq key key) refl none (look key l)),
)
  where
    made : Entry
    made = new_entry key value deadline sequence

    set : Locked
    set = apply_set l key value deadline sequence now

    seen : look key set ≡ (if deadline_passed deadline now then none else some made)
    seen = look-apply_set_self l key value deadline sequence now v room small

    some_inj : (a b : Bytes) → some a ≡ some b → a ≡ b
    some_inj a b e = ap (λ o. elim o [ none ↦ a | some x ↦ x ]) e

    nothing :
        (w : Bytes)
        → deadline_passed deadline later ≡ true
        → (get_into set key later).1 ≡ none
        → ((get_into set key later).1 ≡ some w) ↔ ((value ≡ w) × IsLive deadline later)
    nothing w dead h = (
      λ e. let clash : none ≡ some w = sym h ∙ e in cc,
      λ p. let alive = IsLive-deadline_passed deadline later p.1 in cc,
    )

    read :
        (w : Bytes) (dead : Bool)
        → deadline_passed deadline later ≡ dead
        → (dead_now : Bool) → deadline_passed deadline now ≡ dead_now
        → ((get_into set key later).1 ≡ some w) ↔ ((value ≡ w) × IsLive deadline later)
    read w true d true n = nothing w d (get_into-none set key later (seen ∙ rw n refl))
    read w true d false n = nothing w d (get_into-dead set key later made (seen ∙ rw n refl) d)
    read w false d true n = let dead = deadline_passed_later deadline now later le n in cc
    read w false d false n =
        let found = get_into-live set key later made (seen ∙ rw n refl) d in
        (
          λ e. (some_inj value w (sym found ∙ e), deadline_passed-IsLive deadline later d),
          λ p. found ∙ ap (λ x. some x) p.0,
        )
