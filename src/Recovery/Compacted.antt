-- ===== src/Recovery/Compacted.antt =====
-- What `recoverDurableImage` makes of a directory without a snapshot, up to the end of a segment.
use go.Prelude.{
  ◌&&◌, ◌==◌, ℕ, ◌+◌, ◌^◌, ◌<◌, ◌≡◌, refl, sym, ap, ◌∙◌, arith, true, false, ltb, inl, inr,
  Bool-cases,
}
use go.Prelude.{List, [], ◌∷◌, ◌++◌, none, some, length, length-append, All}
use go.Wire.{Bytes}
use go.Errors.{ok}
use go.Shard.{Key}
use go.Record.{WriteRequest}
use go.Store.{Store, new_store_state, shard_index}
use go.Store.Peek.{peek, new_store_state-IsReady, peek-new_store_state}
use go.Segment.{SnapshotState, segment_header}
use go.Segment.Replay.{IsChecksum, IsWritable}
use go.Segment.Log.{encode_log, replay_all}
use go.Segment.History.{state_of, final_state, replay_all-final_state}
use go.Directory.{File, SequenceFile, list_segments, list_snapshots}
use go.Recovery.{not_loaded, load_latest}
use go.Recovery.Chain.{
  no_recovery_faults, joined, All-front, All-behind, replay_all-append, recover_one-whole,
}
use go.Recovery.Durable.{applies-not_loaded, load_latest-none}
use go.Recovery.Compaction.{
  compact_from, begins_beyond, finish_compaction, compact_segments, recover_durable_image,
}

-- Segments with the records of `chunks`, one chunk each, numbered on from `previous`.
abbrev pub Whole : (Bytes → ℕ) → ℕ → List SequenceFile → List (List WriteRequest) → Type 0
Whole checksum previous [] [] = Unit
Whole checksum previous [] (chunk ∷ chunks) = ⊥
Whole checksum previous (f ∷ segments) [] = ⊥
Whole checksum previous (f ∷ segments) (chunk ∷ chunks) =
    (f.sequence ≡ previous + 1)
    × (f.file.contents ≡ segment_header ++ encode_log checksum (previous + 1) chunk)
    × Whole checksum (previous + length chunk) segments chunks

empty_list {ℓ} : {A : Type ℓ} (xs : List A) → length xs ≡ 0 → xs ≡ []
empty_list [] h = refl
empty_list (x ∷ xs) h = absurd (omega (arith, h))

module _ (checksum : Bytes → ℕ) (is : IsChecksum checksum) (snapshot : SnapshotState)
    (through : ℕ) where
  compact_from-beyond :
      (last : ℕ) (store : Store) (behind : List SequenceFile)
      → begins_beyond through behind ≡ true
      → compact_from checksum no_recovery_faults snapshot through last store behind
        ≡ some (ok (last, store))
  unfolding compact_from
  compact_from-beyond last store [] h = refl
  compact_from-beyond last store (f ∷ behind) h = rw (h, compact_from) refl

  pub compact_from-Whole :
      (previous : ℕ) (store : Store) (segments behind : List SequenceFile)
      (chunks : List (List WriteRequest))
      → All IsWritable (joined chunks)
      → previous + length (joined chunks) ≡ through
      → through < 2 ^ 64
      → begins_beyond through behind ≡ true
      → Whole checksum previous segments chunks
      → compact_from checksum no_recovery_faults snapshot through previous store
          (segments ++ behind)
        ≡ some (ok (through, replay_all snapshot store (previous + 1) (joined chunks)))
  unfolding compact_from replay_all
  compact_from-Whole previous store [] behind [] w total space beyond held =
      let e : previous ≡ through = omega (arith, total) in
      compact_from-beyond previous store behind beyond ∙ ap (λ n. some (ok (n, store))) e
  compact_from-Whole previous store [] behind (chunk ∷ chunks) w total space beyond held =
      absurd held
  compact_from-Whole previous store (f ∷ segments) behind [] w total space beyond held = absurd held
  compact_from-Whole previous store (f ∷ segments) behind (chunk ∷ chunks) w total space beyond
        (first, contents, held) =
      let sized = length-append chunk (joined chunks) in
      elim (Bool-cases (ltb through f.sequence)) [
        | inl done ↦
            let e : previous ≡ through = ground (arith, done, first, total) in
            let nothing : chunk ++ joined chunks ≡ [] =
              empty_list (chunk ++ joined chunks) (omega (arith, e, total)) in
            rw (done, compact_from)
              (ap (λ n. some (ok (n, store))) e
                ∙ ap (λ l. some (ok (through, replay_all snapshot store (previous + 1) l)))
                    (sym nothing))
        | inr more ↦
            let one =
              recover_one-whole checksum is snapshot through previous store f chunk
                (All-front IsWritable chunk (joined chunks) w) (omega (arith, sized, total, space))
                (omega (arith, sized, total)) first contents in
            let store' = replay_all snapshot store (previous + 1) chunk in
            let at : previous + 1 + length chunk ≡ previous + length chunk + 1 = omega arith in
            rw (more, compact_from)
              (rw (one, compact_from)
                (compact_from-Whole (previous + length chunk) store' segments behind chunks
                    (All-behind IsWritable chunk (joined chunks) w) (omega (arith, sized, total))
                    space beyond held
                  ∙ ap (λ n. some (ok (through, replay_all snapshot store' n (joined chunks))))
                      (sym at)
                  ∙ ap (λ s. some (ok (through, s)))
                      (sym
                        (replay_all-append snapshot store (previous + 1) chunk (joined chunks)))))
      ]

pub finish_compaction_complete :
    (checksum : Bytes → ℕ) (snapshot : SnapshotState) (through previous : ℕ) (store store' : Store)
    (segments : List SequenceFile)
    → compact_from checksum no_recovery_faults snapshot through previous store segments
      ≡ some (ok (through, store'))
    → finish_compaction through
        (compact_from checksum no_recovery_faults snapshot through previous store segments)
      ≡ some (ok (record store' { log_sequence = through }))
finish_compaction_complete checksum snapshot through previous store store' segments h =
    let same : (through == through) ≡ true = ground arith in rw h (rw same refl)

compact_segments-fresh :
    (checksum : Bytes → ℕ) (through : ℕ) (store : Store) (f : SequenceFile)
    (segments : List SequenceFile)
    → f.sequence ≡ 1
    → compact_segments checksum no_recovery_faults not_loaded through store (f ∷ segments)
      ≡ finish_compaction through
          (compact_from checksum no_recovery_faults not_loaded through 0 store (f ∷ segments))
unfolding compact_segments
compact_segments-fresh checksum through store f segments first = ground (arith, first)

pub recover_durable_image-loaded :
    (checksum : Bytes → ℕ) (directory : List File) (store store' : Store) (snapshot : SnapshotState)
    (segments : List SequenceFile) (through : ℕ)
    → load_latest checksum no_recovery_faults directory store ≡ some (ok (store', snapshot))
    → (snapshot.loaded && ltb through snapshot.highest) ≡ false
    → list_segments none directory ≡ ok segments
    → recover_durable_image checksum no_recovery_faults directory store through
      ≡ compact_segments checksum no_recovery_faults snapshot through store' segments
unfolding recover_durable_image
recover_durable_image-loaded checksum directory store store' snapshot segments through h older k =
    ground (arith, h, older, k)

pub Whole-first :
    (checksum : Bytes → ℕ) (previous : ℕ) (f : SequenceFile) (segments : List SequenceFile)
    (chunks : List (List WriteRequest))
    → Whole checksum previous (f ∷ segments) chunks
    → f.sequence ≡ previous + 1
Whole-first checksum previous f segments [] h = absurd h
Whole-first checksum previous f segments (chunk ∷ chunks) h = h.0

no_recovery_shard :
    (shard_count shard_capacity : ℕ)
    → (new_store_state shard_count shard_capacity).recovery_shard ≡ none
unfolding new_store_state
no_recovery_shard shard_count shard_capacity = refl

empty_state :
    (q : Key) (shard_count shard_capacity : ℕ)
    → peek (new_store_state shard_count shard_capacity) q ≡ final_state q []
unfolding state_of
empty_state q shard_count shard_capacity = peek-new_store_state shard_count shard_capacity q

-- Without a snapshot and on segments that hold the records from the first one up to a given number
-- in whole, with only later segments behind them: recoverDurableImage, when nothing fails, gives a
-- new store under every key exactly what the requests up to this number left, and sets its
-- sequence to the number. The requests passed the checks and their number fits into 64 bits.
pub recover_durable_image-fresh :
    (checksum : Bytes → ℕ) (directory : List File) (f : SequenceFile)
    (segments behind : List SequenceFile) (chunks : List (List WriteRequest))
    (through shard_count shard_capacity : ℕ)
    → IsChecksum checksum
    → list_snapshots none directory ≡ ok []
    → list_segments none directory ≡ ok (f ∷ segments ++ behind)
    → Whole checksum 0 (f ∷ segments) chunks
    → length (joined chunks) ≡ through
    → begins_beyond through behind ≡ true
    → All IsWritable (joined chunks)
    → through < 2 ^ 64
    → 0 < shard_count
    → (store : Store) × (recover_durable_image checksum no_recovery_faults directory
          (new_store_state shard_count shard_capacity)
          through
        ≡ some (ok store))
      × (store.log_sequence ≡ through)
      × ((q : Key) → peek store q ≡ final_state q (joined chunks))
unfolding peek shard_index
recover_durable_image-fresh checksum directory f segments behind chunks through shard_count
      shard_capacity is no_snapshot listed whole total beyond w space positive =
    let new = new_store_state shard_count shard_capacity in
    let replayed = replay_all not_loaded new 1 (joined chunks) in
    let compacted =
      compact_from-Whole checksum is not_loaded through 0 new (f ∷ segments) behind chunks w
        (omega (arith, total)) space beyond whole in
    let first : f.sequence ≡ 1 = Whole-first checksum 0 f segments chunks whole in
    let kept : (q : Key) → peek replayed q ≡ final_state q (joined chunks) = λ q.
      replay_all-final_state not_loaded new (joined chunks) 0 0 q
        (new_store_state-IsReady shard_count shard_capacity positive)
        (λ m h. applies-not_loaded m new q h (no_recovery_shard shard_count shard_capacity))
        (empty_state q shard_count shard_capacity) (omega arith) (omega arith) in
    (
      record replayed { log_sequence = through },
      recover_durable_image-loaded checksum directory new new not_loaded (f ∷ segments ++ behind)
            through (load_latest-none checksum directory new no_snapshot) refl listed
          ∙ compact_segments-fresh checksum through new f (segments ++ behind) first
          ∙ finish_compaction_complete checksum not_loaded through 0 new replayed
              (f ∷ segments ++ behind) compacted,
      refl,
      kept,
    )
