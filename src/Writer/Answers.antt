-- ===== src/Writer/Answers.antt =====
-- The rounds of the loop of `writeBatch`, and the whole of it: what is answered and what is written.
use go.Prelude.{
  ℕ, zero, suc, ◌+◌, ◌≤◌, ◌<◌, ◌≡◌, refl, sym, ◌∙◌, arith, Bool, true, false, inl, ◌==◌,
}
use go.Prelude.{
  List, [], ◌∷◌, ◌++◌, Option, none, some, length, length-drop, take, drop, append-nil,
}
use go.Errors.{Error, sequence_exhausted}
use go.Record.{WriteRequest, max_sequence}
use go.Segment.Log.{encode_log}
use go.Store.{Store}
use go.Writer.Progress.{bodies, accepted, Progress, Progress-trans}
use go.Writer.Steps.{Kept, make_room-Kept, fail_rest-Progress}
use go.Writer.{
  LogState, Environment, Writer, chunk_length, fail_rest, write_chunk, make_room, write_loop,
  write_batch,
}
use go.Writer.Chunk.{
  chunk_length-bounds, chunk_length_pos, chunk_length-space, Open, ChunkResult,
  write_chunk-ChunkResult,
}

module _ (env : Environment) (segment_size : ℕ) where
  abbrev Done : Writer → List WriteRequest → Option Writer → Type 0
  Done w requests none = ⊥
  Done w requests (some w') = Progress env.checksum w w' requests

  -- A round that accepted the first `n` requests, and the rounds behind it.
  Done-trans :
      (w w' : Writer) (n : ℕ) (requests : List WriteRequest)
      → n ≤ length requests
      → w'.answers ≡ w.answers ++ accepted (take n requests)
      → w'.log.seq ≡ w.log.seq + n
      → bodies w'.log ≡ bodies w.log ++ encode_log env.checksum (w.log.seq + 1) (take n requests)
      → (o : Option Writer) → Done w' (drop n requests) o
      → Done w requests o
  Done-trans w w' n requests le answered numbered logged none d = d
  Done-trans w w' n requests le answered numbered logged (some w'') d =
      Progress-trans env.checksum w w' w'' requests n le answered numbered logged d

  nothing_left : (w : Writer) → Progress env.checksum w w []
  unfolding encode_log
  nothing_left w = record {
    count = 0;
    refusals = [];
    tail = [];
    within = omega arith;
    answered = sym (append-nil w.answers);
    numbered = omega arith;
    logged = sym (append-nil (bodies w.log));
    torn = (0, refl);
    ending = inl (refl, refl, refl);
  }

  -- What the rest of the loop makes of the result of a write.
  abbrev pub after_write : ℕ → List WriteRequest → Writer × Bool → Option Writer
  after_write fuel requests (w', false) = some w'
  after_write fuel requests (w', true) = write_loop fuel env segment_size w' requests

  after_write-Done :
      (fuel : ℕ) (w : Writer) (n : ℕ) (requests : List WriteRequest) (c : Writer × Bool)
      → n ≤ length requests
      → ChunkResult env.checksum w n requests c
      → ((w' : Writer)
          → Open w'
          → Done w' (drop n requests) (write_loop fuel env segment_size w' (drop n requests)))
      → Done w requests (after_write fuel (drop n requests) c)
  after_write-Done fuel w n requests (w', false) le p later = p
  after_write-Done fuel w n requests (w', true) le p later =
      Done-trans w w' n requests le p.answered p.numbered p.logged _ (later w' p.is_open)

  -- What it makes of the result of `make_room`.
  abbrev pub after_room :
      ℕ → List (Option Error) → List WriteRequest → Store × LogState × Option Error → Option Writer
  after_room fuel answers requests (store, log, some e) =
      some (fail_rest (record { store = store; log = log; answers = answers }) requests e)
  after_room fuel answers requests (store, log, none) =
      let n = chunk_length log.seq log.offset segment_size 0 0 requests in
      after_write fuel (drop n requests)
        (write_chunk env (record { store = store; log = log; answers = answers }) n requests)

  after_room-Done :
      (fuel : ℕ) (w : Writer) (r : WriteRequest) (requests : List WriteRequest)
      (room : Store × LogState × Option Error)
      → Open w
      → w.log.seq < max_sequence
      → Kept w.store room.0 w.log room.1
      → length requests ≤ fuel
      → ((w' : Writer) (rest : List WriteRequest)
          → Open w'
          → length rest ≤ fuel
          → Done w' rest (write_loop fuel env segment_size w' rest))
      → Done w (r ∷ requests) (after_room fuel w.answers (r ∷ requests) room)
  unfolding encode_log
  after_room-Done fuel w r requests (store, log, some e) is_open space kept enough later =
      fail_rest-Progress env.checksum w (record { store = store; log = log; answers = w.answers })
        (r ∷ requests) e 0 (kept.same_latch ∙ is_open.unlatched) refl kept.same_seq
        (kept.same_bodies ∙ sym (append-nil (bodies w.log)))
  after_room-Done fuel w r requests (store, log, none) is_open space kept enough later =
      let placed : Writer = record { store = store; log = log; answers = w.answers } in
      let n = chunk_length log.seq log.offset segment_size 0 0 (r ∷ requests) in
      let bounds = chunk_length-bounds log.seq log.offset segment_size 0 0 (r ∷ requests) in
      let positive =
        chunk_length_pos log.seq log.offset segment_size r requests
          (omega (arith, space, kept.same_seq)) in
      let fits =
        chunk_length-space log.seq log.offset segment_size 0 0 (r ∷ requests) (omega arith) in
      let opened : Open placed = record {
        unlatched = kept.same_latch ∙ is_open.unlatched;
        has_header = kept.has_header;
        in_space = omega (arith, space, kept.same_seq);
      } in
      let le : n ≤ length (r ∷ requests) = omega (arith, bounds) in
      Done-trans w placed 0 (r ∷ requests) (omega arith) (sym (append-nil w.answers))
        (omega (arith, kept.same_seq)) (kept.same_bodies ∙ sym (append-nil (bodies w.log))) _
        (after_write-Done fuel placed n (r ∷ requests) (write_chunk env placed n (r ∷ requests)) le
          (write_chunk-ChunkResult env placed n (r ∷ requests) opened le
            (omega (arith, fits, space, kept.same_seq)))
          (λ w' o.
            later w' (drop n (r ∷ requests)) o
              (omega (arith, length-drop n (r ∷ requests), positive, enough))))

  round-Done :
      (fuel : ℕ) (w : Writer) (r : WriteRequest) (requests : List WriteRequest) (full : Bool)
      → Open w
      → (w.log.seq == max_sequence) ≡ full
      → length requests ≤ fuel
      → ((w' : Writer) (rest : List WriteRequest)
          → Open w'
          → length rest ≤ fuel
          → Done w' rest (write_loop fuel env segment_size w' rest))
      → Done w (r ∷ requests) (write_loop (suc fuel) env segment_size w (r ∷ requests))
  unfolding write_loop encode_log
  round-Done fuel w r requests true is_open h enough later =
      rw (h, write_loop)
        (fail_rest-Progress env.checksum w w (r ∷ requests) sequence_exhausted 0 is_open.unlatched
          refl refl (sym (append-nil (bodies w.log))))
  round-Done fuel w r requests false is_open h enough later =
      rw (h, write_loop)
        (after_room-Done fuel w r requests (make_room env segment_size w.store w.log r) is_open
          (ground (arith, h, is_open.in_space))
          (make_room-Kept env segment_size w.store w.log r is_open.has_header) enough later)

  write_loop-Done :
      (fuel : ℕ) (w : Writer) (requests : List WriteRequest)
      → Open w
      → length requests ≤ fuel
      → Done w requests (write_loop fuel env segment_size w requests)
  unfolding write_loop
  write_loop-Done fuel w [] is_open enough = nothing_left w
  write_loop-Done zero w (r ∷ requests) is_open enough = absurd (omega arith)
  write_loop-Done (suc fuel) w (r ∷ requests) is_open enough =
      round-Done fuel w r requests (w.log.seq == max_sequence) is_open refl (omega arith)
        (λ w' rest o le. write_loop-Done fuel w' rest o le)

  write_batch_open :
      (store : Store) (log : LogState) (requests : List WriteRequest)
      → store.last_error ≡ none
      → write_batch env segment_size store log requests
        ≡ write_loop
            (length requests)
            env
            segment_size
            (record { store = store; log = log; answers = [] })
            requests
  unfolding write_batch
  write_batch_open store log requests h = ground (arith, h)

  -- `writeBatch` ends on every batch, whatever the calls of the file system return, if nothing has
  -- failed before, the open segment has its header and the sequence number fits into 64 bits. It
  -- answers a first part of the requests with nil, in order, and these are the records that it
  -- appended to the log on disk, numbered on from the last one; it answers all others with one
  -- failure, and this is then latched. Behind the accepted records the disk holds at most a prefix of
  -- the records of the refused ones.
  pub write_batch_lem :
      (store : Store) (log : LogState) (requests : List WriteRequest)
      → store.last_error ≡ none
      → 8 ≤ length log.contents
      → log.seq ≤ max_sequence
      → (w : Writer) × (write_batch env segment_size store log requests ≡ some w)
        × Progress env.checksum (record { store = store; log = log; answers = [] }) w requests
  write_batch_lem store log requests unlatched has_header in_space =
      done (write_loop (length requests) env segment_size start requests) refl (
        write_loop-Done (length requests) start requests
          (record { unlatched = unlatched; has_header = has_header; in_space = in_space })
          (omega arith))
    where
      start : Writer
      start = record { store = store; log = log; answers = [] }

      done :
          (o : Option Writer)
          → write_loop (length requests) env segment_size start requests ≡ o
          → Done start requests o
          → (w : Writer) × (write_batch env segment_size store log requests ≡ some w)
            × Progress env.checksum start w requests
      done none h d = absurd d
      done (some w) h d = (w, write_batch_open store log requests unlatched ∙ h, d)
