-- ===== src/Recovery/Chain.antt =====
-- A log in several segments, and the loop of `recoverLog` on it.
use go.Prelude.{ℕ, suc, ◌+◌, ◌^◌, ◌≤◌, ◌<◌, ◌≡◌, refl, sym, ap, ◌∙◌, arith, subst, ◌⊎◌, true, false}
use go.Prelude.{
  List, [], ◌∷◌, ◌++◌, Option, none, some, length, length-append, length-take, take, All,
  append_assoc,
}
use go.Wire.{Bytes}
use go.Errors.{Result, ok, err}
use go.Record.{WriteRequest, max_sequence}
use go.Store.{Store}
use go.Segment.{
  SegmentFaults, SegmentCall, SnapshotState, Recovered, recover_segment, no_faults, segment_header,
}
use go.Segment.Replay.{IsChecksum, IsWritable}
use go.Segment.Log.{encode_log, replay_all}
use go.Segment.TornTail.{last_segment, outcome, recover_segment-prefix}
use go.Segment.Whole.{recover_segment-whole}
use go.Snapshot.Loaded.{no_snapshot_faults}
use go.Directory.{SequenceFile}
use go.Recovery.{RecoveryFaults, recover_one, recover_from}

abbrev pub no_recovery_faults : RecoveryFaults
no_recovery_faults = record {
  list_snapshots = none;
  snapshot = no_snapshot_faults;
  list_segments = none;
  create = none;
  before = λ _. none;
  segment = λ _. no_faults;
  close = λ _. none;
}

abbrev pub joined : List (List WriteRequest) → List WriteRequest
joined [] = []
joined (chunk ∷ chunks) = chunk ++ joined chunks

-- The segments `f` and `rest` hold the records of `chunks`, one chunk each, numbered on from
-- `previous`, and the last one the first `n` bytes of the records of `last`.
abbrev pub IsLog :
    (Bytes → ℕ)
    → ℕ
    → SequenceFile
    → List SequenceFile
    → List (List WriteRequest)
    → List WriteRequest
    → ℕ
    → Type 0
IsLog checksum previous f [] [] last n =
    (f.sequence ≡ previous + 1)
    × (f.file.contents ≡ segment_header ++ take n (encode_log checksum (previous + 1) last))
IsLog checksum previous f [] (chunk ∷ chunks) last n = ⊥
IsLog checksum previous f (g ∷ rest) [] last n = ⊥
IsLog checksum previous f (g ∷ rest) (chunk ∷ chunks) last n =
    (f.sequence ≡ previous + 1)
    × (f.file.contents ≡ segment_header ++ encode_log checksum (previous + 1) chunk)
    × IsLog checksum (previous + length chunk) g rest chunks last n

pub IsLog-first :
    (checksum : Bytes → ℕ) (previous : ℕ) (f : SequenceFile) (rest : List SequenceFile)
    (chunks : List (List WriteRequest)) (last : List WriteRequest) (n : ℕ)
    → IsLog checksum previous f rest chunks last n
    → f.sequence ≡ previous + 1
IsLog-first checksum previous f [] [] last n h = h.0
IsLog-first checksum previous f [] (chunk ∷ chunks) last n h = absurd h
IsLog-first checksum previous f (g ∷ rest) [] last n h = absurd h
IsLog-first checksum previous f (g ∷ rest) (chunk ∷ chunks) last n h = h.0

-- What a recovery makes of such a log: `count` of the requests of the last segment are whole.
pub record Recovers (checksum : Bytes → ℕ) (snapshot : SnapshotState) (previous : ℕ) (store : Store)
    (chunks : List (List WriteRequest)) (last : List WriteRequest) (n : ℕ)
    (o : Option (Result Recovered)) : Type 0 where
  pub count : ℕ
  pub result : Recovered
  pub returns : o ≡ some (ok result)
  pub within : count ≤ length last
  pub most :
      (count ≡ length last)
      ⊎ (n
          < length
              (encode_log checksum (previous + length (joined chunks) + 1) (take (suc count) last)))
  pub numbered : result.sequence ≡ previous + (length (joined chunks) + count)
  pub replayed :
      result.store ≡ replay_all snapshot store (previous + 1) (joined chunks ++ take count last)

pub All-front :
    (P : WriteRequest → Type 0) (xs ys : List WriteRequest) → All P (xs ++ ys) → All P xs
All-front P [] ys a = tt
All-front P (x ∷ xs) ys (h, a) = (h, All-front P xs ys a)

pub All-behind :
    (P : WriteRequest → Type 0) (xs ys : List WriteRequest) → All P (xs ++ ys) → All P ys
All-behind P [] ys a = a
All-behind P (x ∷ xs) ys (h, a) = All-behind P xs ys a

pub replay_all-append :
    (snapshot : SnapshotState) (store : Store) (sequence : ℕ) (xs ys : List WriteRequest)
    → replay_all snapshot store sequence (xs ++ ys)
      ≡ replay_all snapshot (replay_all snapshot store sequence xs) (sequence + length xs) ys
unfolding replay_all
replay_all-append snapshot store sequence [] ys =
    let e : sequence ≡ sequence + 0 = omega arith in ap (λ n. replay_all snapshot store n ys) e
replay_all-append snapshot store sequence (x ∷ xs) ys =
    let first = go.Segment.Replay.replay_one snapshot store sequence x in
    let e : sequence + 1 + length xs ≡ sequence + suc (length xs) = omega arith in
    replay_all-append snapshot first (sequence + 1) xs ys
    ∙ ap (λ n. replay_all snapshot (replay_all snapshot first (sequence + 1) xs) n ys) e

module _ (checksum : Bytes → ℕ) (is : IsChecksum checksum) (snapshot : SnapshotState) where
  recover_one-last :
      (previous : ℕ) (store : Store) (f : SequenceFile) (last : List WriteRequest) (n : ℕ)
      → All IsWritable last
      → previous + length last < 2 ^ 64
      → IsLog checksum previous f [] [] last n
      → Recovers checksum snapshot previous store [] last n
          (recover_one checksum no_recovery_faults snapshot max_sequence true f previous store)
  unfolding recover_one outcome last_segment
  recover_one-last previous store f last n w space (first, held) =
      let (k, within, most, result) =
        recover_segment-prefix checksum previous max_sequence store snapshot last n is w space
          (omega arith) in
      let e : previous + 0 + 1 ≡ previous + 1 = omega arith in
      record {
        count = k;
        result =
            outcome checksum previous max_sequence store snapshot (take k last)
              (8 + length (take n (encode_log checksum (previous + 1) last)));
        returns =
            ap
              (λ c.
                recover_segment checksum no_faults
                  (record {
                    first_sequence = f.sequence;
                    final = true;
                    snapshot = snapshot;
                    through = max_sequence;
                  })
                  c previous store)
              held
            ∙ ap
                (λ s.
                  recover_segment checksum no_faults
                    (record {
                      first_sequence = s;
                      final = true;
                      snapshot = snapshot;
                      through = max_sequence;
                    })
                    (segment_header ++ take n (encode_log checksum (previous + 1) last)) previous
                    store)
                first
            ∙ result;
        within = within;
        most =
            subst
              (λ s. (k ≡ length last) ⊎ (n < length (encode_log checksum s (take (suc k) last))))
              (sym e) most;
        numbered = omega (arith, length-take k last, within);
        replayed = refl;
      }

  -- A segment that holds whole records only, up to `through`.
  pub recover_one-whole :
      (through previous : ℕ) (store : Store) (f : SequenceFile) (chunk : List WriteRequest)
      → All IsWritable chunk
      → previous + length chunk < 2 ^ 64
      → previous + length chunk ≤ through
      → f.sequence ≡ previous + 1
      → f.file.contents ≡ segment_header ++ encode_log checksum (previous + 1) chunk
      → recover_one checksum no_recovery_faults snapshot through false f previous store
        ≡ some (
            ok (record {
              offset = 8 + length (encode_log checksum (previous + 1) chunk);
              sequence = previous + length chunk;
              store = replay_all snapshot store (previous + 1) chunk;
              truncated = none;
            }))
  unfolding recover_one
  recover_one-whole through previous store f chunk w space within first held =
      let call : SegmentCall = record {
        first_sequence = f.sequence;
        final = false;
        snapshot = snapshot;
        through = through;
      } in
      ap (λ c. recover_segment checksum no_faults call c previous store) held
      ∙ recover_segment-whole checksum call previous store chunk is w space within first

  pub recover_from-Recovers :
      (previous : ℕ) (store : Store) (f : SequenceFile) (rest : List SequenceFile)
      (chunks : List (List WriteRequest)) (last : List WriteRequest) (n : ℕ)
      → All IsWritable (joined chunks ++ last)
      → previous + length (joined chunks ++ last) < 2 ^ 64
      → IsLog checksum previous f rest chunks last n
      → Recovers checksum snapshot previous store chunks last n
          (recover_from checksum no_recovery_faults snapshot previous store f rest)
  unfolding recover_from
  recover_from-Recovers previous store f [] [] last n w space held =
      recover_one-last previous store f last n w space held
  recover_from-Recovers previous store f [] (chunk ∷ chunks) last n w space held = absurd held
  recover_from-Recovers previous store f (g ∷ rest) [] last n w space held = absurd held
  recover_from-Recovers previous store f (g ∷ rest) (chunk ∷ chunks) last n w space
        (first, here, behind) =
      let more = joined chunks ++ last in
      let split : (chunk ++ joined chunks) ++ last ≡ chunk ++ more =
        append_assoc chunk (joined chunks) last in
      let w' = subst (All IsWritable) split w in
      let sized : length ((chunk ++ joined chunks) ++ last) ≡ length chunk + length more =
        ap length split ∙ length-append chunk more in
      let both : length (chunk ++ joined chunks) ≡ length chunk + length (joined chunks) =
        length-append chunk (joined chunks) in
      let store' = replay_all snapshot store (previous + 1) chunk in
      let inner =
        recover_from-Recovers (previous + length chunk) store' g rest chunks last n
          (All-behind IsWritable chunk more w') (omega arith) behind in
      let closed =
        recover_one-whole max_sequence previous store f chunk (All-front IsWritable chunk more w')
          (omega arith) (omega arith) first here in
      let tail = joined chunks ++ take inner.count last in
      record {
        count = inner.count;
        result = inner.result;
        returns =
            ap
              (λ o. elim o [
                | none ↦ none
                | some (err e) ↦ some (err e)
                | some (ok r) ↦
                    recover_from checksum no_recovery_faults snapshot r.sequence r.store g rest
              ])
              closed
            ∙ inner.returns;
        within = inner.within;
        most =
            subst
              (λ s.
                (inner.count ≡ length last)
                ⊎ (n < length (encode_log checksum s (take (suc inner.count) last))))
              (omega (arith, both)) inner.most;
        numbered = inner.numbered ∙ omega (arith, both);
        replayed =
            inner.replayed
            ∙ ap (λ m. replay_all snapshot store' m tail) (omega arith)
            ∙ sym (replay_all-append snapshot store (previous + 1) chunk tail)
            ∙ ap (replay_all snapshot store (previous + 1))
                (sym (append_assoc chunk (joined chunks) _));
      }
