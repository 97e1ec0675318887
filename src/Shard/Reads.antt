-- ===== src/Shard/Reads.antt =====
-- What `getInto`, `applyDelete` and the removals of expired entries leave visible.
use go.Prelude.{ℕ, zero, suc, ◌*◌, ◌≡◌, refl, ◌∙◌, arith, ite, if_pos, if_neg}
use go.Prelude.{inl, inr, Option-cases, Bool-cases, if-either, true, ltb, ◌==◌, ◌||◌}
use go.Prelude.{List, [], ◌∷◌, Option, none, some, sym, ap, All}
use go.Prelude.Int.{ℤ, ◌≤ℤ◌}
use go.Shard.{
  Key, Entry, Locked, removal_delete, removal_expiry, key_eq, deadline_passed, find,
  remove_entry_locked,
}
use go.Shard.Operations.{
  get_into, hit_entry, count_miss, apply_delete, reclaim_entry, reclaim_expired_locked, sweep_entry,
  sample_entries, sweep_shard, SweepRound, Sample, sweep_sample_size, sweep_repeat_divisor,
}
use go.Shard.Recency.{Distinct, key-find, find-key-find, find-mark_recent}
use go.Shard.Validity.{IsValid}
use go.Shard.Operate.{reclaim_entry-IsValid, sweep_entry-IsValid, sample_entries-IsValid}
use go.Shard.Visible.{look, live, look-remove_entry_locked}

-- Every entry of `l'` stood in `l`, and what is missing had expired by `now`.
pub record OnlyExpired (now : ℤ) (l l' : Locked) : Type 0 where
  pub live_kept : (q : Key) → live now (look q l') ≡ live now (look q l)
  pub nothing_new : (q : Key) (e : Entry) → look q l' ≡ some e → look q l ≡ some e

OnlyExpired-refl : (now : ℤ) (l : Locked) → OnlyExpired now l l
OnlyExpired-refl now l = record { live_kept = λ q. refl; nothing_new = λ q e h. h }

OnlyExpired-trans :
    (now : ℤ) (a b c : Locked) → OnlyExpired now a b → OnlyExpired now b c → OnlyExpired now a c
OnlyExpired-trans now a b c f g = record {
  live_kept = λ q. g.live_kept q ∙ f.live_kept q;
  nothing_new = λ q e h. f.nothing_new q e (g.nothing_new q e h);
}

OnlyExpired-remove :
    (now : ℤ) (l : Locked) (e : Entry)
    → Distinct l.shard.recency
    → look e.key l ≡ some e
    → deadline_passed e.deadline now ≡ true
    → OnlyExpired now l (remove_entry_locked l e removal_expiry)
unfolding live
OnlyExpired-remove now l e d h gone = record {
  live_kept = λ q. ground (arith, look-remove_entry_locked l e removal_expiry q d);
  nothing_new = λ q x p. ground (arith, look-remove_entry_locked l e removal_expiry q d);
}

pub deadline_passed_later :
    (deadline now later : ℤ)
    → now ≤ℤ later
    → deadline_passed deadline now ≡ true
    → deadline_passed deadline later ≡ true
unfolding deadline_passed
deadline_passed_later deadline now later h p = ground arith

-- What a key finds is what a test for that key selects.
ite-look :
    (l : Locked) (key q : Key) (found : Option Entry)
    → look key l ≡ found
    → ite (key_eq key q) found (look q l) ≡ look q l
ite-look l key q found h = elim (key_eq key q) [
  | yes p ↦ if_pos (key_eq key q) p found (look q l) ∙ sym h ∙ ap (λ k. look k l) p
  | no p ↦ if_neg (key_eq key q) p found (look q l)
]

look-hit_entry :
    (l : Locked) (e : Entry) (q : Key) → look e.key l ≡ some e → look q (hit_entry l e) ≡ look q l
unfolding hit_entry
look-hit_entry l e q self = find-mark_recent e q l.shard.recency ∙ ite-look l e.key q (some e) self

module _ {others rest : ℕ} where
  OnlyExpired-sweep_entry :
      (s : Sample) (key : Key) (now later : ℤ)
      → now ≤ℤ later
      → IsValid others rest s.swept
      → OnlyExpired later s.swept (sweep_entry s key now).swept
  unfolding sweep_entry
  OnlyExpired-sweep_entry s key now later le v =
      elim (Option-cases (find key s.swept.shard.recency)) [
        | inl miss ↦ rw (miss, sweep_entry) (OnlyExpired-refl later s.swept)
        | inr (e, hit) ↦
            let self = find-key-find key _ e hit in
            elim (Bool-cases (deadline_passed e.deadline now)) [
              | inl gone ↦
                  rw (hit, sweep_entry)
                    (rw gone (
                      OnlyExpired-remove later s.swept e v.distinct self
                        (deadline_passed_later e.deadline now later le gone)))
              | inr alive ↦ rw (hit, sweep_entry) (rw alive (OnlyExpired-refl later s.swept))
            ]
      ]

  OnlyExpired-sample_entries :
      (s : Sample) (order : List Key) (in_time : ℕ) (now later : ℤ)
      → now ≤ℤ later
      → IsValid others rest s.swept
      → OnlyExpired later s.swept (sample_entries s order in_time now).swept
  unfolding sample_entries
  OnlyExpired-sample_entries s [] in_time now later le v = OnlyExpired-refl later s.swept
  OnlyExpired-sample_entries s (key ∷ order) zero now later le v = OnlyExpired-refl later s.swept
  OnlyExpired-sample_entries s (key ∷ order) (suc in_time) now later le v =
      let one = sweep_entry s key now in
      let all =
        OnlyExpired-sample_entries one order in_time now later le
          (sweep_entry-IsValid s key now v) in
      if-either {A = Sample} (s.sampled == sweep_sample_size)
        (λ (t : Sample). OnlyExpired later s.swept t.swept) (OnlyExpired-refl later s.swept)
        (OnlyExpired-trans later s.swept one.swept _ (OnlyExpired-sweep_entry s key now later le v)
          all)

  -- Whatever rounds `sweepShard` makes up to the time `later`, it removes only entries that have
  -- expired by then, and adds or changes none.
  pub OnlyExpired-sweep_shard :
      (l : Locked) (rounds : List SweepRound) (later : ℤ)
      → All (λ (r : SweepRound). r.now ≤ℤ later) rounds
      → IsValid others rest l
      → OnlyExpired later l (sweep_shard l rounds)
  unfolding sweep_shard
  OnlyExpired-sweep_shard l [] later le v = OnlyExpired-refl later l
  OnlyExpired-sweep_shard l (round ∷ rounds) later (le, les) v =
      let start : Sample = record { swept = l; sampled = 0; reclaimed = 0 } in
      let s = sample_entries start round.order round.in_time round.now in
      let kept = sample_entries-IsValid start round.order round.in_time round.now v in
      let first = OnlyExpired-sample_entries start round.order round.in_time round.now later le v in
      let all = OnlyExpired-sweep_shard s.swept rounds later les kept in
      if-either (s.sampled == 0 || ltb (s.reclaimed * sweep_repeat_divisor) s.sampled || round.over)
        (OnlyExpired later l) first (OnlyExpired-trans later l s.swept _ first all)

  OnlyExpired-reclaim_entry :
      (l : Locked) (key : Key) (now : ℤ)
      → IsValid others rest l
      → OnlyExpired now l (reclaim_entry l key now)
  unfolding reclaim_entry
  OnlyExpired-reclaim_entry l key now v = elim (Option-cases (find key l.shard.recency)) [
    | inl miss ↦ rw (miss, reclaim_entry) (OnlyExpired-refl now l)
    | inr (e, hit) ↦ elim (Bool-cases (deadline_passed e.deadline now)) [
      | inl gone ↦
          rw (hit, reclaim_entry)
            (rw gone (OnlyExpired-remove now l e v.distinct (find-key-find key _ e hit) gone))
      | inr alive ↦ rw (hit, reclaim_entry) (rw alive (OnlyExpired-refl now l))
    ]
  ]

  -- `reclaimExpiredLocked` removes only what has expired, in whatever order the map is walked.
  pub OnlyExpired-reclaim_expired_locked :
      (l : Locked) (order : List Key) (now : ℤ)
      → IsValid others rest l
      → OnlyExpired now l (reclaim_expired_locked l order now)
  unfolding reclaim_expired_locked
  OnlyExpired-reclaim_expired_locked l [] now v = OnlyExpired-refl now l
  OnlyExpired-reclaim_expired_locked l (key ∷ order) now v =
      let one = reclaim_entry l key now in
      OnlyExpired-trans now l one _ (OnlyExpired-reclaim_entry l key now v)
        (OnlyExpired-reclaim_expired_locked one order now (reclaim_entry-IsValid l key now v))

  -- After `getInto` the clients see what they saw before, under every key.
  pub OnlyExpired-get_into :
      (l : Locked) (key : Key) (now : ℤ)
      → IsValid others rest l
      → OnlyExpired now l (get_into l key now).0
  unfolding get_into count_miss hit_entry
  OnlyExpired-get_into l key now v = elim (Option-cases (find key l.shard.recency)) [
    | inl miss ↦ rw (miss, get_into) (record { live_kept = λ q. refl; nothing_new = λ q e h. h })
    | inr (e, hit) ↦
        let self = find-key-find key _ e hit in
        elim (Bool-cases (deadline_passed e.deadline now)) [
          | inl gone ↦
              let r = OnlyExpired-remove now l e v.distinct self gone in
              rw (hit, get_into)
                (rw gone (record { live_kept = r.live_kept; nothing_new = r.nothing_new }))
          | inr alive ↦
              rw (hit, get_into)
                (rw alive (record {
                  live_kept = λ q. ap (live now) (look-hit_entry l e q self);
                  nothing_new = λ q x h. sym (look-hit_entry l e q self) ∙ h;
                }))
        ]
  ]

pub look-apply_delete-Distinct :
    (l : Locked) (key q : Key)
    → Distinct l.shard.recency
    → look q (apply_delete l key) ≡ ite (key_eq key q) none (look q l)
unfolding apply_delete
look-apply_delete-Distinct l key q d = elim (Option-cases (find key l.shard.recency)) [
  | inl miss ↦ rw (miss, apply_delete) (sym (ite-look l key q none miss))
  | inr (e, hit) ↦
      rw (hit, apply_delete)
        (look-remove_entry_locked l e removal_delete q d
          ∙ ap (λ k. ite (key_eq k q) none (look q l)) (key-find key _ e hit))
]

-- `applyDelete` makes its key absent and changes no other key.
pub look-apply_delete :
    {others rest : ℕ} (l : Locked) (key q : Key)
    → IsValid others rest l
    → look q (apply_delete l key) ≡ ite (key_eq key q) none (look q l)
look-apply_delete l key q v = look-apply_delete-Distinct l key q v.distinct
