-- ===== src/Recovery/Durable.antt =====
-- What `recoverLog` makes of a directory whose log starts with the first request.
use go.Prelude.{
  ℕ, zero, suc, ◌+◌, ◌^◌, ◌≤◌, ◌<◌, ◌≡◌, refl, sym, ap, ◌∙◌, arith, subst, ◌⊎◌, false, ltb,
}
use go.Prelude.{
  List, [], ◌∷◌, ◌++◌, Option, none, some, length, length-append, take, drop, All, take-append_more,
  drop-append, append_assoc,
}
use go.Wire.{Bytes}
use go.Errors.{Result, ok}
use go.Shard.{Key}
use go.Record.{WriteRequest}
use go.Store.{Store, new_store_state, shard_index}
use go.Store.Peek.{peek, IsReady, new_store_state-IsReady, peek-new_store_state}
use go.Segment.{SnapshotState, Recovered, applies, in_recovery}
use go.Segment.Replay.{IsChecksum, IsWritable}
use go.Segment.Log.{encode_log, replay_all}
use go.Segment.History.{state_of, final_state, replay_all-final_state}
use go.Directory.{File, SequenceFile, list_segments, list_snapshots}
use go.Recovery.{
  RecoveredLog, not_loaded, load_latest, recover_from, recover_started, recover_segments,
  recover_log, last_of,
}
use go.Recovery.Chain.{
  no_recovery_faults, joined, IsLog, IsLog-first, Recovers, recover_from-Recovers,
}

take-take {ℓ} : {A : Type ℓ} (i m : ℕ) (xs : List A) → i ≤ m → take i (take m xs) ≡ take i xs
take-take zero m xs h = refl
take-take (suc i) zero xs h = absurd (omega arith)
take-take (suc i) (suc m) [] h = refl
take-take (suc i) (suc m) (x ∷ xs) h = ap (λ l. x ∷ l) (take-take i m xs (omega arith))

-- A key that the snapshot took after `limit` requests, where the log ends no earlier.
pub Recovers-final_state :
    (checksum : Bytes → ℕ) (snapshot : SnapshotState) (store : Store) (gone : List WriteRequest)
    (chunks : List (List WriteRequest)) (last : List WriteRequest) (n : ℕ)
    (o : Option (Result Recovered)) (limit : ℕ) (q : Key)
    (r : Recovers checksum snapshot (length gone) store chunks last n o)
    → IsReady store
    → ((n : ℕ) → 0 < n → applies store snapshot q n ≡ ltb limit n)
    → peek store q ≡ final_state q (take limit (gone ++ (joined chunks ++ last)))
    → length gone ≤ limit
    → limit ≤ r.result.sequence
    → peek r.result.store q
      ≡ final_state q (take r.result.sequence (gone ++ (joined chunks ++ last)))
Recovers-final_state checksum snapshot store gone chunks last n o limit q r ready newer held le
      within =
    let requests = gone ++ (joined chunks ++ last) in
    let kept = joined chunks ++ take r.count last in
    let seen = take r.result.sequence requests in
    let split : seen ≡ gone ++ kept =
      ap (λ m. take m requests) r.numbered
      ∙ take-append_more (length gone) (length (joined chunks) + r.count) gone
          (joined chunks ++ last) refl
      ∙ ap (λ l. gone ++ l)
          (take-append_more (length (joined chunks)) r.count (joined chunks) last refl) in
    let behind : drop (length gone) seen ≡ kept =
      ap (drop (length gone)) split ∙ drop-append (length gone) gone kept refl in
    let held' : peek store q ≡ final_state q (take limit seen) =
      held ∙ ap (final_state q) (sym (take-take limit r.result.sequence requests within)) in
    ap (λ s. peek s q) r.replayed
    ∙ ap (λ l. peek (replay_all snapshot store (length gone + 1) l) q) (sym behind)
    ∙ replay_all-final_state snapshot store seen (length gone) limit q ready newer held' le
        (omega (arith, ap length split, length-append gone kept))

-- What `Open` starts with: under each key what the requests up to `log.seq` left, and of the last
-- segment, whose records are those of `last` cut off at `n` bytes, every request that is there whole.
pub record Reopens (checksum : Bytes → ℕ) (before : List WriteRequest) (last : List WriteRequest)
    (n : ℕ) (log : RecoveredLog) : Type 0 where
  pub count : ℕ
  pub sequence : log.seq ≡ length before + count
  pub within : count ≤ length last
  pub most :
      (count ≡ length last)
      ⊎ (n < length (encode_log checksum (length before + 1) (take (suc count) last)))
  pub counted : log.store.log_sequence ≡ log.seq
  pub contents : (q : Key) → peek log.store q ≡ final_state q (take log.seq (before ++ last))

abbrev pub log_of : ℕ → Recovered → RecoveredLog
log_of first r =
    let store = r.store in
    record {
      store = record store { log_sequence = r.sequence };
      first_sequence = first;
      created = false;
      offset = r.offset;
      seq = r.sequence;
      truncated = r.truncated;
    }

pub recover_log-loaded :
    (checksum : Bytes → ℕ) (directory : List File) (store store' : Store) (snapshot : SnapshotState)
    (segments : List SequenceFile)
    → load_latest checksum no_recovery_faults directory store ≡ some (ok (store', snapshot))
    → list_segments none directory ≡ ok segments
    → recover_log checksum no_recovery_faults directory store
      ≡ recover_segments checksum no_recovery_faults snapshot store' segments
unfolding recover_log
recover_log-loaded checksum directory store store' snapshot segments h k = ground (arith, h, k)

recover_segments-fresh :
    (checksum : Bytes → ℕ) (store : Store) (f : SequenceFile) (rest : List SequenceFile)
    (r : Recovered)
    → f.sequence ≡ 1
    → recover_from checksum no_recovery_faults not_loaded 0 store f rest ≡ some (ok r)
    → recover_segments checksum no_recovery_faults not_loaded store (f ∷ rest)
      ≡ some (ok (log_of (last_of f rest).sequence r))
unfolding recover_segments recover_started
recover_segments-fresh checksum store f rest r first h = ground (arith, first, h)

pub load_latest-none :
    (checksum : Bytes → ℕ) (directory : List File) (store : Store)
    → list_snapshots none directory ≡ ok []
    → load_latest checksum no_recovery_faults directory store ≡ some (ok (store, not_loaded))
unfolding load_latest
load_latest-none checksum directory store h = ground (arith, h)

pub finished :
    (checksum : Bytes → ℕ) (snapshot : SnapshotState) (store : Store) (gone : List WriteRequest)
    (chunks : List (List WriteRequest)) (last : List WriteRequest) (n first : ℕ)
    (o : Option (Result Recovered))
    (r : Recovers checksum snapshot (length gone) store chunks last n o)
    → ((q : Key)
        → peek r.result.store q
          ≡ final_state q (take r.result.sequence (gone ++ (joined chunks ++ last))))
    → Reopens checksum (gone ++ joined chunks) last n (log_of first r.result)
unfolding peek shard_index
finished checksum snapshot store gone chunks last n first o r contents =
    let split = length-append gone (joined chunks) in
    record {
      count = r.count;
      sequence = r.numbered ∙ omega (arith, split);
      within = r.within;
      most =
          subst
            (λ s.
              (r.count ≡ length last)
              ⊎ (n < length (encode_log checksum s (take (suc r.count) last))))
            (omega (arith, split)) r.most;
      counted = refl;
      contents = λ q.
          contents q
          ∙ ap (λ l. final_state q (take r.result.sequence l))
              (sym (append_assoc gone (joined chunks) last));
    }

pub applies-not_loaded :
    (m : ℕ) (store : Store) (q : Key)
    → 0 < m
    → store.recovery_shard ≡ none
    → applies store not_loaded q m ≡ ltb 0 m
unfolding applies in_recovery
applies-not_loaded m store q h none_only = ground (arith, none_only)

module _ (checksum : Bytes → ℕ) (is : IsChecksum checksum) where
  -- Without a snapshot and on segments that hold a log from its first request on, the last one cut
  -- off anywhere behind its header: recoverLog, when nothing fails, gives a new store under every
  -- key exactly what the requests left in order up to the last one whose record is whole, and its
  -- sequence number is theirs. The requests passed the checks and their number fits into 64 bits.
  pub recover_log-Reopens :
      (directory : List File) (f : SequenceFile) (rest : List SequenceFile)
      (chunks : List (List WriteRequest)) (last : List WriteRequest)
      (n shard_count shard_capacity : ℕ)
      → list_snapshots none directory ≡ ok []
      → list_segments none directory ≡ ok (f ∷ rest)
      → All IsWritable (joined chunks ++ last)
      → length (joined chunks ++ last) < 2 ^ 64
      → 0 < shard_count
      → IsLog checksum 0 f rest chunks last n
      → (log : RecoveredLog) × (recover_log checksum no_recovery_faults directory
            (new_store_state shard_count shard_capacity)
          ≡ some (ok log))
        × Reopens checksum (joined chunks) last n log
  unfolding new_store_state state_of
  recover_log-Reopens directory f rest chunks last n shard_count shard_capacity no_snapshot listed w
        space positive held =
      let store = new_store_state shard_count shard_capacity in
      let r =
        recover_from-Recovers checksum is not_loaded 0 store f rest chunks last n w
          (omega (arith, space)) held in
      let first : f.sequence ≡ 1 = IsLog-first checksum 0 f rest chunks last n held in
      (
        log_of (last_of f rest).sequence r.result,
        recover_log-loaded checksum directory store store not_loaded (f ∷ rest)
              (load_latest-none checksum directory store no_snapshot) listed
            ∙ recover_segments-fresh checksum store f rest r.result first r.returns,
        finished checksum not_loaded store [] chunks last n (last_of f rest).sequence _ r (λ q.
            Recovers-final_state checksum not_loaded store [] chunks last n _ 0 q r
              (new_store_state-IsReady shard_count shard_capacity positive)
              (λ m h. applies-not_loaded m store q h refl)
              (peek-new_store_state shard_count shard_capacity q) (omega arith) (omega arith)),
      )
