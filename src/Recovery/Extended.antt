-- ===== src/Recovery/Extended.antt =====
-- What `recoverDurableImage` makes of a directory with a snapshot, up to the end of a segment.
use go.Prelude.{
  ℕ, zero, suc, ◌+◌, ◌-◌, ◌^◌, ◌≤◌, ◌<◌, ◌≡◌, refl, sym, ap, ◌∙◌, arith, bit_and, subst, true,
  false, ltb, ◌==◌, ◌&&◌, inl, inr, Bool-cases, lt→ltb, ge→ltb,
}
use go.Prelude.{
  List, [], ◌∷◌, ◌++◌, Option, none, some, length, length-append, get_elem?, map, take, drop, All,
  append_assoc, drop-append,
}
use go.Wire.{Bytes}
use go.Errors.{ok}
use go.Record.{WriteRequest, max_sequence}
use go.Shard.{Key, find, sub64}
use go.Shard.Recency.{Distinct}
use go.Store.{Store, hash_key, new_store_state, shard_index}
use go.Store.Peek.{peek}
use go.Segment.{SnapshotState}
use go.Segment.Replay.{IsChecksum, IsWritable}
use go.Segment.Log.{replay_all}
use go.Segment.History.{final_state, replay_all-final_state}
use go.Snapshot.{Visit, Wrote, entries_of, write_snapshot_at}
use go.Snapshot.Layout.{IsStorable}
use go.Snapshot.Loaded.{AtShard, IsShardCount}
use go.Snapshot.Restored.{Restores, load_snapshot-write_snapshot_at}
use go.Directory.{File, SequenceFile, list_segments, list_snapshots}
use go.Recovery.{first_required, start_from, last_of}
use go.Recovery.Chain.{no_recovery_faults, joined, All-behind}
use go.Recovery.Start.{start_from-StartsAt, sub64-one}
use go.Recovery.Seen.{Restores-SeenAt}
use go.Recovery.Resumed.{All-weaken, load_latest-last, first_required-below}
use go.Recovery.Compaction.{
  compact_from, begins_beyond, finish_compaction, sequence_before, compact_segments,
  recover_durable_image,
}
use go.Recovery.Compacted.{
  Whole, Whole-first, compact_from-Whole, finish_compaction_complete, recover_durable_image-loaded,
}

take-all {ℓ} : {A : Type ℓ} (n : ℕ) (xs : List A) → length xs ≤ n → take n xs ≡ xs
take-all zero [] h = refl
take-all zero (x ∷ xs) h = absurd (omega arith)
take-all (suc n) [] h = refl
take-all (suc n) (x ∷ xs) h = ap (λ l. x ∷ l) (take-all n xs (omega arith))

All-drop :
    (P : SequenceFile → Type 0) (i : ℕ) (files : List SequenceFile) (g : SequenceFile)
    (tail : List SequenceFile)
    → All P files
    → drop i files ≡ g ∷ tail
    → All P (g ∷ tail)
All-drop P zero files g tail a e = subst (All P) e a
All-drop P (suc i) [] g tail a e = subst (All P) e tt
All-drop P (suc i) (f ∷ files) g tail (h, a) e = All-drop P i files g tail a e

All-begins_beyond :
    (through : ℕ) (files : List SequenceFile)
    → All (λ f. through < f.sequence) files
    → begins_beyond through files ≡ true
All-begins_beyond through [] a = refl
All-begins_beyond through (f ∷ files) (h, a) = lt→ltb through f.sequence h

-- The files from the segment `g` on: some whole ones, and those beyond `through`.
record WholeFrom (checksum : Bytes → ℕ) (previous through : ℕ) (g : SequenceFile)
    (tail : List SequenceFile) (chunks : List (List WriteRequest)) : Type 0 where
  passed : List (List WriteRequest)
  left : List (List WriteRequest)
  segments : List SequenceFile
  behind : List SequenceFile
  split : joined chunks ≡ joined passed ++ joined left
  files : g ∷ tail ≡ segments ++ behind
  whole : Whole checksum (previous + length (joined passed)) segments left
  beyond : begins_beyond through behind ≡ true
  starts : g.sequence ≡ previous + length (joined passed) + 1

Whole-drop :
    (checksum : Bytes → ℕ) (previous through i : ℕ) (segments behind : List SequenceFile)
    (g : SequenceFile) (tail : List SequenceFile) (chunks : List (List WriteRequest))
    → Whole checksum previous segments chunks
    → previous + length (joined chunks) ≡ through
    → All (λ f. through < f.sequence) behind
    → g.sequence ≤ through + 1
    → drop i (segments ++ behind) ≡ g ∷ tail
    → WholeFrom checksum previous through g tail chunks
Whole-drop checksum previous through i [] behind g tail [] whole total later low e =
    let beyond = All-drop (λ f. through < f.sequence) i behind g tail later e in
    record {
      passed = [];
      left = [];
      segments = [];
      behind = g ∷ tail;
      split = refl;
      files = refl;
      whole = tt;
      beyond = All-begins_beyond through (g ∷ tail) beyond;
      starts = omega (arith, beyond.0, total, low);
    }
Whole-drop checksum previous through i [] behind g tail (chunk ∷ chunks) whole total later low e =
    absurd whole
Whole-drop checksum previous through i (f ∷ segments) behind g tail [] whole total later low e =
    absurd whole
Whole-drop checksum previous through zero (f ∷ segments) behind g tail (chunk ∷ chunks) (h₁, h₂, h₃)
      total later low e =
    let here : previous ≡ previous + 0 = omega arith in
    let head : f.sequence ≡ g.sequence = ap (λ l. elim l [ [] ↦ 0 | x ∷ xs ↦ x.sequence ]) e in
    record {
      passed = [];
      left = chunk ∷ chunks;
      segments = f ∷ segments;
      behind = behind;
      split = refl;
      files = sym e;
      whole = subst (λ p. Whole checksum p (f ∷ segments) (chunk ∷ chunks)) here (h₁, h₂, h₃);
      beyond = All-begins_beyond through behind later;
      starts = sym head ∙ h₁ ∙ omega arith;
    }
Whole-drop checksum previous through (suc i) (f ∷ segments) behind g tail (chunk ∷ chunks)
      (h₁, h₂, h₃) total later low e =
    let front = length-append chunk (joined chunks) in
    let w =
      Whole-drop checksum (previous + length chunk) through i segments behind g tail chunks h₃
        (omega (arith, front, total)) later low e in
    let sized = length-append chunk (joined w.passed) in
    record {
      passed = chunk ∷ w.passed;
      left = w.left;
      segments = w.segments;
      behind = w.behind;
      split =
          ap (λ l. chunk ++ l) w.split ∙ sym (append_assoc chunk (joined w.passed) (joined w.left));
      files = w.files;
      whole = subst (λ p. Whole checksum p w.segments w.left) (omega (arith, sized)) w.whole;
      beyond = w.beyond;
      starts = w.starts ∙ omega (arith, sized);
    }

compact_segments-started :
    (checksum : Bytes → ℕ) (state : SnapshotState) (through required : ℕ) (store : Store)
    (f : SequenceFile) (files : List SequenceFile)
    → state.loaded ≡ true
    → first_required state ≡ required
    → f.sequence ≤ required
    → ((state.highest == through) && ltb through f.sequence) ≡ false
    → compact_segments checksum no_recovery_faults state through store (f ∷ files) ≡ (
        let started = drop (start_from required 0 0 (f ∷ files)) (f ∷ files) in
        finish_compaction through (
          compact_from checksum no_recovery_faults state through
            (sequence_before started)
            store
            started))
unfolding compact_segments
compact_segments-started checksum state through required store f files loaded e low early =
    ground (arith, loaded, e, early, ge→ltb required f.sequence low)

compact_segments-early :
    (checksum : Bytes → ℕ) (state : SnapshotState) (through : ℕ) (store : Store) (f : SequenceFile)
    (files : List SequenceFile)
    → state.loaded ≡ true
    → ((state.highest == through) && ltb through f.sequence) ≡ true
    → compact_segments checksum no_recovery_faults state through store (f ∷ files)
      ≡ some (ok (record store { log_sequence = through }))
unfolding compact_segments
compact_segments-early checksum state through store f files loaded early =
    ground (arith, loaded, early)

not_newer :
    (state : SnapshotState) (through : ℕ)
    → state.loaded ≡ true
    → state.highest ≤ through
    → (state.loaded && ltb through state.highest) ≡ false
not_newer state through loaded h = ground (arith, loaded, ge→ltb through state.highest h)

module _ (checksum : Bytes → ℕ) (is : IsChecksum checksum) (gone : List WriteRequest)
    (chunks : List (List WriteRequest)) where
  abbrev requests : List WriteRequest
  requests = gone ++ joined chunks

  -- Under each key the snapshot has what the requests left up to the sequence its shard was seen at.
  abbrev Pictures : List Visit → Type 0
  Pictures visits =
      (q : Key) (limit : ℕ)
      → get_elem? (map (λ v. v.sequence) visits) (bit_and (hash_key q) (length visits - 1))
        ≡ some limit
      → find q (entries_of visits) ≡ final_state q (take limit requests)

  compact_left :
      (visits : List Visit) (lowest through : ℕ) (store : Store) (state : SnapshotState)
      (g : SequenceFile) (tail : List SequenceFile)
      → 0 < length visits
      → Restores visits lowest store state
      → Pictures visits
      → All IsWritable (joined chunks)
      → length requests ≡ through
      → through < 2 ^ 64
      → g.sequence ≤ lowest + 1
      → (w : WholeFrom checksum (length gone) through g tail chunks)
      → (store' : Store) × (compact_from checksum no_recovery_faults state through
            (length (gone ++ joined w.passed))
            store
            (g ∷ tail)
          ≡ some (ok (through, store')))
        × ((q : Key) → peek store' q ≡ final_state q requests)
  compact_left visits lowest through store state g tail some_visit restored pictured writable total
        space low w =
      let gone' = gone ++ joined w.passed in
      let sized = length-append gone (joined w.passed) in
      let whole : gone' ++ joined w.left ≡ requests =
        append_assoc gone (joined w.passed) (joined w.left) ∙ ap (λ x. gone ++ x) (sym w.split) in
      let lengths : length gone' + length (joined w.left) ≡ through =
        sym (length-append gone' (joined w.left)) ∙ ap length whole ∙ total in
      let writable' =
        All-behind IsWritable (joined w.passed) (joined w.left)
          (subst (All IsWritable) w.split writable) in
      let rest : drop (length gone') requests ≡ joined w.left =
        ap (drop (length gone')) (sym whole)
        ∙ drop-append (length gone') gone' (joined w.left) refl in
      (
        replay_all state store (length gone' + 1) (joined w.left),
        ap (compact_from checksum no_recovery_faults state through (length gone') store) w.files
            ∙ compact_from-Whole checksum is state through (length gone') store w.segments w.behind
                w.left writable' lengths space w.beyond
                (subst (λ p. Whole checksum p w.segments w.left) (sym sized) w.whole),
        λ q.
            let seen = Restores-SeenAt visits lowest store state q some_visit restored in
            ap (λ l. peek (replay_all state store (length gone' + 1) l) q) (sym rest)
            ∙ replay_all-final_state state store requests (length gone') seen.limit q restored.ready
                (λ m h. seen.newer m) (restored.contents q ∙ pictured q seen.limit seen.seen)
                (omega (arith, w.starts, low, sized, seen.above)) (omega (arith, lengths, total)),
      )

  compact_segments-Restores :
      (visits : List Visit) (lowest through : ℕ) (store : Store) (state : SnapshotState)
      (f : SequenceFile) (segments behind : List SequenceFile)
      → 0 < length visits
      → Restores visits lowest store state
      → Pictures visits
      → All IsWritable (joined chunks)
      → length requests ≡ through
      → through < max_sequence
      → length gone ≤ lowest
      → lowest ≤ through
      → All (λ b. through < b.sequence) behind
      → Whole checksum (length gone) (f ∷ segments) chunks
      → (store' : Store) × (compact_segments checksum no_recovery_faults state through store
            (f ∷ segments ++ behind)
          ≡ some (ok (record store' { log_sequence = through })))
        × ((q : Key) → peek store' q ≡ final_state q requests)
  compact_segments-Restores visits lowest through store state f segments behind some_visit restored
        pictured writable total space low lowest_low later whole =
      let first = Whole-first checksum (length gone) f segments chunks whole in
      let split = length-append gone (joined chunks) in
      elim (Bool-cases ((state.highest == through) && ltb through f.sequence)) [
        | inl early ↦ (
          store,
          compact_segments-early checksum state through store f (segments ++ behind) restored.loaded
              early,
          λ q.
              let seen = Restores-SeenAt visits lowest store state q some_visit restored in
              let past : through < f.sequence = ground (arith, early) in
              restored.contents q
              ∙ pictured q seen.limit seen.seen
              ∙ ap (final_state q) (
                  take-all seen.limit requests
                    (omega (arith, total, past, first, low, seen.above))),
        )
        | inr late ↦
            let required = lowest + 1 in
            let s =
              start_from-StartsAt required f (segments ++ behind) (omega (arith, first, low)) in
            let w =
              Whole-drop checksum (length gone) through
                (start_from required 0 0 (f ∷ segments ++ behind)) (f ∷ segments) behind s.g s.tail
                chunks whole (sym split ∙ total) later (omega (arith, s.low, lowest_low)) s.found in
            let (store', compacts, contents) =
              compact_left visits lowest through store state s.g s.tail some_visit restored pictured
                writable total (omega (arith, space)) s.low w in
            let previous : sub64 s.g.sequence 1 ≡ length (gone ++ joined w.passed) =
              sub64-one s.g.sequence (omega (arith, w.starts))
                (omega (arith, s.low, lowest_low, space))
              ∙ omega (arith, w.starts, length-append gone (joined w.passed)) in
            (
              store',
              compact_segments-started checksum state through required store f (segments ++ behind)
                    restored.loaded
                    (first_required-below state lowest restored.lowest_sequence
                      (omega (arith, lowest_low, space)))
                    (omega (arith, first, low)) late
                  ∙ ap
                      (λ l. finish_compaction through (
                        compact_from checksum no_recovery_faults state through (sequence_before l)
                          store l))
                      s.found
                  ∙ ap
                      (λ p. finish_compaction through (
                        compact_from checksum no_recovery_faults state through p store
                          (s.g ∷ s.tail)))
                      previous
                  ∙ finish_compaction_complete checksum state through
                      (length (gone ++ joined w.passed)) store store' (s.g ∷ s.tail) compacts,
              contents,
            )
      ]

  -- Where the newest snapshot was completed by writeSnapshotAt and holds under each key what the
  -- requests up to its shard's sequence left, at most up to a given number, and the retained
  -- segments hold the records up to this number in whole, from a request on that is not behind the
  -- lowest of these sequences, with only later segments behind them: recoverDurableImage, when
  -- nothing fails, gives under every key exactly what the requests up to this number left, and
  -- sets its sequence to the number. The number is below the highest one, the requests passed the
  -- checks, and the store has as many shards as the snapshot, a power of two below 2^32, of which
  -- no key was seen twice and each entry had passed the size checks and stood at its shard at no
  -- higher sequence.
  pub recover_durable_image-extended :
      (write : ℕ → Wrote) (finalize : Option ℕ) (first : Visit) (visits : List Visit)
      (shard_capacity lowest through : ℕ) (directory : List File) (s : SequenceFile)
      (snapshots : List SequenceFile) (f : SequenceFile) (segments behind : List SequenceFile)
      → list_snapshots none directory ≡ ok (s ∷ snapshots)
      → write_snapshot_at checksum write finalize (first ∷ visits)
        ≡ ok (lowest, (last_of s snapshots).file.contents)
      → IsShardCount (length (first ∷ visits))
      → All
          (λ e. IsStorable e × AtShard (map (λ v. v.sequence) (first ∷ visits)) e)
          (entries_of (first ∷ visits))
      → Distinct (entries_of (first ∷ visits))
      → Pictures (first ∷ visits)
      → All (λ v. v.sequence ≤ through) (first ∷ visits)
      → list_segments none directory ≡ ok (f ∷ segments ++ behind)
      → Whole checksum (length gone) (f ∷ segments) chunks
      → All (λ b. through < b.sequence) behind
      → length gone ≤ lowest
      → length requests ≡ through
      → All IsWritable (joined chunks)
      → through < max_sequence
      → (store : Store) × (recover_durable_image checksum no_recovery_faults directory
            (new_store_state (length (first ∷ visits)) shard_capacity)
            through
          ≡ some (ok store))
        × (store.log_sequence ≡ through)
        × ((q : Key) → peek store q ≡ final_state q requests)
  unfolding peek shard_index
  recover_durable_image-extended write finalize first visits shard_capacity lowest through directory
        s snapshots f segments behind newest written count loadable distinct pictured reached listed
        whole later low total writable space =
      let new = new_store_state (length (first ∷ visits)) shard_capacity in
      let words =
        All-weaken (λ v. v.sequence ≤ through) (λ v. v.sequence < 2 ^ 64) (first ∷ visits)
          (λ v h. omega (arith, h, space)) reached in
      let (loaded, state, loads, restored) =
        load_snapshot-write_snapshot_at checksum write finalize first visits shard_capacity lowest
          (last_of s snapshots).file.contents is count words loadable distinct written in
      let (store, compacts, contents) =
        compact_segments-Restores (first ∷ visits) lowest through loaded state f segments behind
          count.positive restored pictured writable total space low
          (omega (arith, restored.spanned.0.0, reached.0)) later whole in
      (
        record store { log_sequence = through },
        recover_durable_image-loaded checksum directory new loaded state (f ∷ segments ++ behind)
              through
              (load_latest-last checksum directory s snapshots _ new loaded state newest refl loads)
              (not_newer state through restored.loaded (restored.highest_least through reached))
              listed
            ∙ compacts,
        refl,
        contents,
      )
