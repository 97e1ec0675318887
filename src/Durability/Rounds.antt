-- ===== src/Durability/Rounds.antt =====
-- The rounds of `writeBatch` on a log that is as the rounds keep it.
use go.Prelude.{
  ℕ, zero, suc, ◌+◌, ◌≤◌, ◌≡◌, refl, sym, ap, ◌∙◌, arith, subst, Bool, true, false, ◌==◌, ◌&&◌, ltb,
  inl, inr, Bool-cases,
}
use go.Prelude.{
  List, [], ◌∷◌, ◌++◌, Option, none, some, length, take, drop, append-nil, append_assoc,
}
use go.Wire.{Bytes}
use go.Errors.{Error}
use go.Options.{segment_header_size}
use go.Record.{WriteRequest, max_sequence, record_size_for}
use go.Segment.{segment_header}
use go.Store.{Store}
use go.Recovery.Chain.{joined}
use go.Writer.{
  LogState, Environment, Writer, RollFault, WriteFault, sync_failed, close_failed, create_failed,
  commit_failed, roll_segment, chunk_length, encode_batch, respond_all, fail_rest, failed_write,
  write_chunk, make_room, write_loop, write_batch,
}
use go.Writer.Chunk.{chunk_length-bounds, chunk_prefix, payload-encode_log}
use go.Writer.Answers.{after_write, after_room}
use go.Durability.Left.{
  Holds, Left, Left-torn, Left-stop, Left-orphan, Holds-rolled, Holds-written, Left-trans,
}

module _ (env : Environment) where
  abbrev checksum : Bytes → ℕ
  checksum = env.checksum

  abbrev LeftBy : List WriteRequest → List WriteRequest → Option Writer → Type 0
  LeftBy history requests none = Unit {0}
  LeftBy history requests (some w) = Left checksum history requests w.log

  -- The log that a round starts with, for some split of its records into segments.
  record Kept (history : List WriteRequest) (log : LogState) : Type 0 where
    chunks : List (List WriteRequest)
    last : List WriteRequest
    split : joined chunks ++ last ≡ history
    holds : Holds checksum log chunks last

  Kept-stop :
      (history requests : List WriteRequest) (log : LogState)
      → Kept history log
      → Left checksum history requests log
  Kept-stop history requests log k =
      subst (λ h. Left checksum h requests log) k.split
        (Left-stop checksum log k.chunks k.last k.holds requests)

  -- What `make_room` returns.
  abbrev Room : List WriteRequest → List WriteRequest → Store × LogState × Option Error → Type 0
  Room history requests (store, log, none) = Kept history log
  Room history requests (store, log, some e) = Left checksum history requests log

  roll_segment-Room :
      (history requests : List WriteRequest) (fault : Option RollFault) (store : Store)
      (log : LogState)
      → Kept history log
      → Room history requests (roll_segment fault store log (log.seq + 1))
  unfolding roll_segment
  roll_segment-Room history requests (some (sync_failed n)) store log k =
      Kept-stop history requests log k
  roll_segment-Room history requests (some (close_failed n)) store log k =
      Kept-stop history requests log k
  roll_segment-Room history requests (some (create_failed n)) store log k =
      Kept-stop history requests log k
  roll_segment-Room history requests (some (commit_failed n)) store log k =
      subst
        (λ h.
          Left checksum h requests
            (record log { orphans = (log.seq + 1, segment_header) ∷ log.orphans }))
        k.split (Left-orphan checksum log k.chunks k.last k.holds requests)
  roll_segment-Room history requests none store log k = record {
    chunks = k.chunks ++ k.last ∷ [];
    last = [];
    split = append-nil _ ∙ go.Durability.Segments.joined-snoc k.chunks k.last ∙ k.split;
    holds = Holds-rolled checksum log k.chunks k.last k.holds;
  }

  make_room-Room :
      (segment_size : ℕ) (history requests : List WriteRequest) (store : Store) (log : LogState)
      (r : WriteRequest)
      → Kept history log
      → Room history requests (make_room env segment_size store log r)
  unfolding make_room
  make_room-Room segment_size history requests store log r k =
      elim (Bool-cases
        (ltb segment_header_size log.offset && ltb segment_size (log.offset + record_size_for r))) [
          | inl full ↦
              rw (full, make_room)
                (roll_segment-Room history requests (env.roll log.seq) store log k)
          | inr fits ↦ rw (fits, make_room) k
        ]

  -- What a write returns.
  abbrev Chunked : List WriteRequest → ℕ → List WriteRequest → Writer × Bool → Type 0
  Chunked history n requests (w, true) = Kept (history ++ take n requests) w.log
  Chunked history n requests (w, false) = Left checksum history requests w.log

  write_chunk-Chunked :
      (history : List WriteRequest) (w : Writer) (n : ℕ) (requests : List WriteRequest)
      → Kept history w.log
      → Chunked history n requests (write_chunk env w n requests)
  unfolding write_chunk encode_batch fail_rest
  write_chunk-Chunked history w n requests k =
      go (failed_write (env.write w.log.seq) (length payload)) refl
    where
      payload : Bytes
      payload = encode_batch checksum [] w.log.seq (take n requests)

      go :
          (fault : Option WriteFault)
          → failed_write (env.write w.log.seq) (length payload) ≡ fault
          → Chunked history n requests (write_chunk env w n requests)
      go none h =
          rw (h, write_chunk)
            (record {
              chunks = k.chunks;
              last = k.last ++ take n requests;
              split =
                  sym (append_assoc (joined k.chunks) k.last (take n requests))
                  ∙ ap (λ l. l ++ take n requests) k.split;
              holds =
                  Holds-written checksum w.log k.chunks k.last k.holds (take n requests)
                    (w.log.contents ++ payload) (w.log.offset + length payload)
                    (w.log.bytes_since_snapshot + length payload)
                    (ap (λ p. w.log.contents ++ p) (payload-encode_log env w n requests));
            })
      go (some fault) h =
          let p = chunk_prefix env w n requests fault.written in
          let contents = w.log.contents ++ take fault.written payload in
          let log = w.log in
          rw (h, write_chunk)
            (subst (λ x. Left checksum x requests (record log { contents = contents })) k.split
              (Left-torn checksum log k.chunks k.last k.holds requests p.0 contents
                (ap (λ b. w.log.contents ++ b) p.1)))

  abbrev Later : ℕ → ℕ → Type 0
  Later segment_size fuel =
      (history : List WriteRequest) (w : Writer) (requests : List WriteRequest)
      → Kept history w.log
      → LeftBy history requests (write_loop fuel env segment_size w requests)

  LeftBy-trans :
      (history : List WriteRequest) (n : ℕ) (requests : List WriteRequest) (o : Option Writer)
      → n ≤ length requests
      → LeftBy (history ++ take n requests) (drop n requests) o
      → LeftBy history requests o
  LeftBy-trans history n requests none le l = tt
  LeftBy-trans history n requests (some w) le l = Left-trans checksum history requests w.log n le l

  after_write-LeftBy :
      (segment_size fuel : ℕ) (history : List WriteRequest) (n : ℕ) (requests : List WriteRequest)
      (c : Writer × Bool)
      → n ≤ length requests
      → Chunked history n requests c
      → Later segment_size fuel
      → LeftBy history requests (after_write env segment_size fuel (drop n requests) c)
  after_write-LeftBy segment_size fuel history n requests (w, false) le k later = k
  after_write-LeftBy segment_size fuel history n requests (w, true) le k later =
      LeftBy-trans history n requests (write_loop fuel env segment_size w (drop n requests)) le
        (later (history ++ take n requests) w (drop n requests) k)

  after_room-LeftBy :
      (segment_size fuel : ℕ) (history : List WriteRequest) (answers : List (Option Error))
      (requests : List WriteRequest) (room : Store × LogState × Option Error)
      → Room history requests room
      → Later segment_size fuel
      → LeftBy history requests (after_room env segment_size fuel answers requests room)
  unfolding fail_rest
  after_room-LeftBy segment_size fuel history answers requests (store, log, some e) k later = k
  after_room-LeftBy segment_size fuel history answers requests (store, log, none) k later =
      let placed : Writer = record { store = store; log = log; answers = answers } in
      let n = chunk_length log.seq log.offset segment_size 0 0 requests in
      after_write-LeftBy segment_size fuel history n requests (write_chunk env placed n requests)
        (omega (arith, chunk_length-bounds log.seq log.offset segment_size 0 0 requests))
        (write_chunk-Chunked history placed n requests k) later

  write_loop-LeftBy : (segment_size fuel : ℕ) → Later segment_size fuel
  unfolding write_loop fail_rest
  write_loop-LeftBy segment_size fuel history w [] k = Kept-stop history [] w.log k
  write_loop-LeftBy segment_size zero history w (r ∷ requests) k = tt
  write_loop-LeftBy segment_size (suc fuel) history w (r ∷ requests) k =
      elim (Bool-cases (w.log.seq == max_sequence)) [
        | inl full ↦ rw (full, write_loop) (Kept-stop history (r ∷ requests) w.log k)
        | inr more ↦
            rw (more, write_loop)
              (after_room-LeftBy segment_size fuel history w.answers (r ∷ requests)
                (make_room env segment_size w.store w.log r)
                (make_room-Room segment_size history (r ∷ requests) w.store w.log r k)
                (write_loop-LeftBy segment_size fuel))
      ]

-- What `writeBatch` leaves, if it ends.
pub write_batch-Left :
    (env : Environment) (segment_size : ℕ) (store : Store) (log : LogState)
    (requests : List WriteRequest) (chunks : List (List WriteRequest)) (last : List WriteRequest)
    (w : Writer)
    → Holds env.checksum log chunks last
    → write_batch env segment_size store log requests ≡ some w
    → Left env.checksum (joined chunks ++ last) requests w.log
unfolding write_batch
write_batch-Left env segment_size store log requests chunks last w h e =
    let start : Writer = record { store = store; log = log; answers = [] } in
    let kept : Kept env (joined chunks ++ last) log = record {
      chunks = chunks;
      last = last;
      split = refl;
      holds = h;
    } in
    subst (LeftBy env (joined chunks ++ last) requests) e (go store.last_error kept)
  where
    go :
        (latched : Option Error)
        → Kept env (joined chunks ++ last) log
        → LeftBy env (joined chunks ++ last) requests (elim latched [
          | some failure ↦
              some (record { store = store; log = log; answers = respond_all requests failure })
          | none ↦
              write_loop
                (length requests)
                env
                segment_size
                (record { store = store; log = log; answers = [] })
                requests
        ])
    go none kept =
        write_loop-LeftBy env segment_size (length requests) (joined chunks ++ last)
          (record { store = store; log = log; answers = [] }) requests kept
    go (some failure) kept = Kept-stop env (joined chunks ++ last) requests log kept
