-- ===== src/Recovery/Resumed.antt =====
-- What `recoverLog` makes of a directory with a snapshot and what is retained of the log.
use go.Prelude.{
  ℕ, suc, ◌+◌, ◌-◌, ◌^◌, ◌≤◌, ◌<◌, ◌≡◌, refl, sym, ap, ◌∙◌, arith, bit_and, subst, ◌⊎◌, true,
  ge→ltb,
}
use go.Prelude.{
  List, [], ◌∷◌, ◌++◌, Option, none, some, length, length-append, get_elem?, map, take, drop, All,
  append_assoc,
}
use go.Wire.{Bytes}
use go.Errors.{ok}
use go.Record.{WriteRequest, max_sequence}
use go.Shard.{Key, find, sub64}
use go.Shard.Recency.{Distinct}
use go.Store.{Store, hash_key, new_store_state}
use go.Store.Peek.{peek}
use go.Segment.{SnapshotState, Recovered}
use go.Segment.Replay.{IsChecksum, IsWritable}
use go.Segment.Log.{encode_log}
use go.Segment.History.{final_state}
use go.Snapshot.{Visit, Wrote, entries_of, write_snapshot_at}
use go.Snapshot.Load.{load_snapshot}
use go.Snapshot.Layout.{IsStorable}
use go.Snapshot.Loaded.{AtShard, IsShardCount, no_snapshot_faults}
use go.Snapshot.Restored.{Restores, load_snapshot-write_snapshot_at}
use go.Directory.{File, SequenceFile, list_segments, list_snapshots}
use go.Recovery.{
  RecoveredLog, load_latest, first_required, start_from, recover_from, recover_started,
  recover_segments, recover_log, last_of,
}
use go.Recovery.Chain.{
  no_recovery_faults, joined, IsLog, IsLog-first, All-behind, recover_from-Recovers,
}
use go.Recovery.Start.{LeftFrom, IsLog-drop, start_from-StartsAt, sub64-one}
use go.Recovery.Durable.{Reopens, finished, log_of, recover_log-loaded, Recovers-final_state}
use go.Recovery.Seen.{Restores-SeenAt, count-reached}

pub load_latest-last :
    (checksum : Bytes → ℕ) (directory : List File) (s : SequenceFile)
    (snapshots : List SequenceFile) (file : Bytes) (store store' : Store) (state : SnapshotState)
    → list_snapshots none directory ≡ ok (s ∷ snapshots)
    → (last_of s snapshots).file.contents ≡ file
    → load_snapshot checksum no_snapshot_faults file store ≡ some (ok (store', state))
    → load_latest checksum no_recovery_faults directory store ≡ some (ok (store', state))
unfolding load_latest
load_latest-last checksum directory s snapshots file store store' state h held loads =
    rw (h, load_latest) (ap (λ c. load_snapshot checksum no_snapshot_faults c store) held ∙ loads)

recover_segments-loaded :
    (checksum : Bytes → ℕ) (state : SnapshotState) (store : Store) (f : SequenceFile)
    (rest : List SequenceFile) (required : ℕ)
    → state.loaded ≡ true
    → first_required state ≡ required
    → f.sequence ≤ required
    → recover_segments checksum no_recovery_faults state store (f ∷ rest)
      ≡ recover_started checksum no_recovery_faults state store
          (drop (start_from required 0 0 (f ∷ rest)) (f ∷ rest))
unfolding recover_segments
recover_segments-loaded checksum state store f rest required loaded e low =
    ground (arith, loaded, e, ge→ltb required f.sequence low)

recover_started-loaded :
    (checksum : Bytes → ℕ) (state : SnapshotState) (store : Store) (g : SequenceFile)
    (tail : List SequenceFile) (previous : ℕ) (r : Recovered)
    → state.loaded ≡ true
    → sub64 g.sequence 1 ≡ previous
    → recover_from checksum no_recovery_faults state previous store g tail ≡ some (ok r)
    → state.highest ≤ r.sequence
    → recover_started checksum no_recovery_faults state store (g ∷ tail)
      ≡ some (ok (log_of (last_of g tail).sequence r))
unfolding recover_started
recover_started-loaded checksum state store g tail previous r loaded e h high =
    ground (arith, loaded, e, h, ge→ltb r.sequence state.highest high)

pub first_required-below :
    (state : SnapshotState) (lowest : ℕ)
    → state.lowest ≡ lowest
    → lowest < max_sequence
    → first_required state ≡ lowest + 1
unfolding first_required
first_required-below state lowest e h = ground (arith, e)

pub All-weaken :
    (P Q : Visit → Type 0) (visits : List Visit)
    → ((v : Visit) → P v → Q v)
    → All P visits
    → All Q visits
All-weaken P Q [] f h = tt
All-weaken P Q (v ∷ visits) f (hv, h) = (f v hv, All-weaken P Q visits f h)

module _ (checksum : Bytes → ℕ) (is : IsChecksum checksum) (gone : List WriteRequest)
    (chunks : List (List WriteRequest)) (last : List WriteRequest) (n : ℕ) where
  abbrev before : List WriteRequest
  before = gone ++ joined chunks

  -- Under each key the snapshot has what the requests left up to the sequence its shard was seen at.
  abbrev Pictures : List Visit → Type 0
  Pictures visits =
      (q : Key) (limit : ℕ)
      → get_elem? (map (λ v. v.sequence) visits) (bit_and (hash_key q) (length visits - 1))
        ≡ some limit
      → find q (entries_of visits) ≡ final_state q (take limit (before ++ last))

  -- From a segment on that starts at or below what the snapshot requires.
  recover_left-Reopens :
      (visits : List Visit) (lowest k first : ℕ) (store : Store) (state : SnapshotState)
      (g : SequenceFile) (tail : List SequenceFile)
      → 0 < length visits
      → Restores visits lowest store state
      → Pictures visits
      → All (λ v. v.sequence ≤ length before + k) visits
      → k ≤ length last
      → length (encode_log checksum (length before + 1) (take k last)) ≤ n
      → All IsWritable (joined chunks ++ last)
      → length (before ++ last) < 2 ^ 64
      → g.sequence ≤ lowest + 1
      → (l : LeftFrom checksum (length gone) g tail chunks last n)
      → (r : Recovered) × (recover_from checksum no_recovery_faults state
            (length (gone ++ joined l.passed))
            store
            g
            tail
          ≡ some (ok r))
        × (state.highest ≤ r.sequence)
        × Reopens checksum before last n (log_of first r)
  recover_left-Reopens visits lowest k first store state g tail some_visit restored pictured reached
        short there w space low l =
      let gone' = gone ++ joined l.passed in
      let is_log =
        subst (λ p. IsLog checksum p g tail l.left last n)
          (sym (length-append gone (joined l.passed))) l.is_log in
      let whole : gone' ++ joined l.left ≡ before =
        append_assoc gone (joined l.passed) (joined l.left) ∙ ap (λ x. gone ++ x) (sym l.split) in
      let requests : gone' ++ (joined l.left ++ last) ≡ before ++ last =
        sym (append_assoc gone' (joined l.left) last) ∙ ap (λ x. x ++ last) whole in
      let w' = All-behind IsWritable (joined l.passed) (joined l.left ++ last) (
        subst (All IsWritable)
          (ap (λ x. x ++ last) l.split ∙ append_assoc (joined l.passed) (joined l.left) last) w) in
      let r =
        recover_from-Recovers checksum is state (length gone') store g tail l.left last n w'
          (omega (arith, ap length requests, length-append gone' (joined l.left ++ last), space))
          is_log in
      let starts = IsLog-first checksum (length gone') g tail l.left last n is_log in
      let sized : length gone' + length (joined l.left) ≡ length before =
        sym (length-append gone' (joined l.left)) ∙ ap length whole in
      let most =
        subst
          (λ m.
            (r.count ≡ length last)
            ⊎ (n < length (encode_log checksum (m + 1) (take (suc r.count) last))))
          sized r.most in
      let enough = count-reached checksum (length before + 1) last n k r.count short there most in
      let high : state.highest ≤ r.result.sequence =
        omega
          (arith, enough, restored.highest_least (length before + k) reached, r.numbered, sized) in
      let contents : (q : Key)
          → peek r.result.store q
            ≡ final_state q (take r.result.sequence (gone' ++ (joined l.left ++ last))) =
        λ q.
          let seen = Restores-SeenAt visits lowest store state q some_visit restored in
          Recovers-final_state checksum state store gone' l.left last n _ seen.limit q r
            restored.ready (λ m h. seen.newer m)
            (restored.contents q
              ∙ pictured q seen.limit seen.seen
              ∙ ap (λ x. final_state q (take seen.limit x)) (sym requests))
            (omega (arith, starts, low, seen.above)) (omega (arith, seen.below, high)) in
      (
        r.result,
        r.returns,
        high,
        subst (λ x. Reopens checksum x last n (log_of first r.result)) whole
            (finished checksum state store gone' l.left last n first _ r contents),
      )

  recover_segments-Reopens :
      (visits : List Visit) (lowest k : ℕ) (store : Store) (state : SnapshotState)
      (f : SequenceFile) (rest : List SequenceFile)
      → 0 < length visits
      → Restores visits lowest store state
      → Pictures visits
      → All (λ v. v.sequence ≤ length before + k) visits
      → k ≤ length last
      → length (encode_log checksum (length before + 1) (take k last)) ≤ n
      → All IsWritable (joined chunks ++ last)
      → length (before ++ last) < 2 ^ 64
      → length gone ≤ lowest
      → lowest < max_sequence
      → IsLog checksum (length gone) f rest chunks last n
      → (log : RecoveredLog) × (recover_segments checksum no_recovery_faults state store (f ∷ rest)
          ≡ some (ok log))
        × Reopens checksum before last n log
  recover_segments-Reopens visits lowest k store state f rest some_visit restored pictured reached
        short there w space low small held =
      let required = lowest + 1 in
      let opening = IsLog-first checksum (length gone) f rest chunks last n held in
      let s = start_from-StartsAt required f rest (omega (arith, opening)) in
      let l =
        IsLog-drop checksum (length gone) (start_from required 0 0 (f ∷ rest)) f rest s.g s.tail
          chunks last n held s.found in
      let first = (last_of s.g s.tail).sequence in
      let (r, returns, high, reopens) =
        recover_left-Reopens visits lowest k first store state s.g s.tail some_visit restored
          pictured reached short there w space s.low l in
      let starts : s.g.sequence ≡ length (gone ++ joined l.passed) + 1 =
        IsLog-first checksum (length gone + length (joined l.passed)) s.g s.tail l.left last n
          l.is_log
        ∙ omega (arith, length-append gone (joined l.passed)) in
      let previous : sub64 s.g.sequence 1 ≡ length (gone ++ joined l.passed) =
        sub64-one s.g.sequence (omega (arith, starts)) (omega (arith, s.low, small))
        ∙ omega (arith, starts) in
      let required_is = first_required-below state lowest restored.lowest_sequence small in
      (
        log_of first r,
        recover_segments-loaded checksum state store f rest required restored.loaded required_is
              (omega (arith, opening))
            ∙ ap (recover_started checksum no_recovery_faults state store) s.found
            ∙ recover_started-loaded checksum state store s.g s.tail _ r restored.loaded previous
                returns high,
        reopens,
      )

  -- Where the newest snapshot was completed by writeSnapshotAt and holds under each key what the
  -- requests up to its shard's sequence left, and the retained segments hold the rest of the log
  -- from a request on that is not behind the lowest of these sequences, the last segment cut off
  -- anywhere behind what the snapshot saw: recoverLog, when nothing fails, gives under every key
  -- exactly what the requests left in order up to the last one whose record is whole, and its
  -- sequence number is theirs. No number runs out, the requests passed the checks, and the store
  -- has as many shards as the snapshot, a power of two below 2^32, of which no key was seen twice
  -- and each entry had passed the size checks and stood at its shard at no higher sequence.
  pub recover_log-resumed :
      (write : ℕ → Wrote) (finalize : Option ℕ) (first : Visit) (visits : List Visit)
      (shard_capacity lowest k : ℕ) (directory : List File) (s : SequenceFile)
      (snapshots : List SequenceFile) (f : SequenceFile) (rest : List SequenceFile)
      → list_snapshots none directory ≡ ok (s ∷ snapshots)
      → write_snapshot_at checksum write finalize (first ∷ visits)
        ≡ ok (lowest, (last_of s snapshots).file.contents)
      → IsShardCount (length (first ∷ visits))
      → All
          (λ e. IsStorable e × AtShard (map (λ v. v.sequence) (first ∷ visits)) e)
          (entries_of (first ∷ visits))
      → Distinct (entries_of (first ∷ visits))
      → Pictures (first ∷ visits)
      → All (λ v. v.sequence ≤ length before + k) (first ∷ visits)
      → k ≤ length last
      → length (encode_log checksum (length before + 1) (take k last)) ≤ n
      → list_segments none directory ≡ ok (f ∷ rest)
      → IsLog checksum (length gone) f rest chunks last n
      → length gone ≤ lowest
      → All IsWritable (joined chunks ++ last)
      → length (before ++ last) < max_sequence
      → (log : RecoveredLog) × (recover_log checksum no_recovery_faults directory
            (new_store_state (length (first ∷ visits)) shard_capacity)
          ≡ some (ok log))
        × Reopens checksum before last n log
  recover_log-resumed write finalize first visits shard_capacity lowest k directory s snapshots f
        rest newest written count loadable distinct pictured reached short there listed held low w
        space =
      let new = new_store_state (length (first ∷ visits)) shard_capacity in
      let sized = length-append before last in
      let words =
        All-weaken (λ v. v.sequence ≤ length before + k) (λ v. v.sequence < 2 ^ 64) (first ∷ visits)
          (λ v h. omega (arith, sized, h, space, short)) reached in
      let (store, state, loads, restored) =
        load_snapshot-write_snapshot_at checksum write finalize first visits shard_capacity lowest
          (last_of s snapshots).file.contents is count words loadable distinct written in
      let (log, recovers, reopens) =
        recover_segments-Reopens (first ∷ visits) lowest k store state f rest count.positive
          restored pictured reached short there w (omega (arith, space)) low
          (omega (arith, restored.spanned.0.0, reached.0, sized, space, short)) held in
      (
        log,
        recover_log-loaded checksum directory new store state (f ∷ rest)
              (load_latest-last checksum directory s snapshots _ new store state newest refl loads)
              listed
            ∙ recovers,
        reopens,
      )
