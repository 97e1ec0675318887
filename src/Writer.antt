-- ===== src/Writer.antt =====
-- The writer of cache/wal.go: `drainWrites`, `writeBatch`, `rollSegment`; `createSegment` is
-- one step of `rollSegment`. The
-- answers to the channels of the requests are a list, in the order of the requests. What the file
-- system refuses is an argument, by the sequence number before the call.
pub mod Progress
pub mod Steps
pub mod Chunk
pub mod Drain
mod Runs
pub mod Answers
use go.Prelude.{ℕ, zero, suc, ◌+◌, ◌-◌, ◌%◌, ◌^◌, Bool, true, false, ◌&&◌, ◌||◌}
use go.Prelude.{
  List, [], ◌∷◌, ◌++◌, Option, none, some, length, take, drop, map, ltb, leb, ◌==◌, if◌then◌else◌,
}
use go.Prelude.Int.{ℤ}
use go.Wire.{Bytes}
use go.Errors.{Error, Cause, os, short_write, sequence_exhausted, io_failed, write_log}
use go.Shard.{add64}
use go.Store.{Store, latch, set_applied, delete_applied}
use go.Options.{segment_header_size}
use go.Record.{
  WriteRequest, RequestKind, request_set, request_delete, request_sync, request_close, max_sequence,
  record_size_for, append_record,
}
use go.Segment.{segment_header}

-- `logState`, with the bytes of the open segment file and of the segments closed before it. An
-- orphan is a new segment whose installation the directory did not confirm.
pub record LogState : Type 0 where
  pub closed_segments : List (ℕ × Bytes)
  pub first_sequence : ℕ
  pub contents : Bytes
  pub orphans : List (ℕ × Bytes)
  pub offset : ℕ
  pub seq : ℕ
  pub bytes_since_snapshot : ℕ

-- Where `rollSegment` fails. `create_failed` is any step of `createSegment` before the rename has
-- taken effect, `commit_failed` the directory sync behind it.
pub data RollFault : Type 0 where
  sync_failed close_failed create_failed commit_failed : ℕ → RollFault

-- A failing write leaves `written` bytes of the payload in the file; without an error of its own it
-- is a short write.
pub record WriteFault : Type 0 where
  pub written : ℕ
  pub error : Option ℕ

-- `now` is the clock when the record of a sequence number is applied.
pub record Environment : Type 0 where
  pub checksum : Bytes → ℕ
  pub write : ℕ → Option WriteFault
  pub roll : ℕ → Option RollFault
  pub now : ℕ → ℤ

pub record Writer : Type 0 where
  pub store : Store
  pub log : LogState
  pub answers : List (Option Error)

abbrev pub count_fsync : Store → Store
count_fsync store = record store { fsyncs = add64 store.fsyncs 1 }

-- The new state and the error of `rollSegment`, if any.
unfoldable pub roll_segment :
    Option RollFault → Store → LogState → ℕ → Store × LogState × Option Error
roll_segment (some (sync_failed n)) store log first = (store, log, some (io_failed (os n)))
roll_segment (some (close_failed n)) store log first =
    (count_fsync store, log, some (io_failed (os n)))
roll_segment (some (create_failed n)) store log first =
    (count_fsync store, log, some (io_failed (os n)))
roll_segment (some (commit_failed n)) store log first = (
  count_fsync store,
  record log { orphans = (first, segment_header) ∷ log.orphans },
  some (io_failed (os n)),
)
roll_segment none store log first = (
  count_fsync store,
  record log {
    closed_segments = log.closed_segments ++ (log.first_sequence, log.contents) ∷ [];
    first_sequence = first;
    contents = segment_header;
    offset = segment_header_size;
  },
  none,
)

-- The inner loop of `writeBatch`: how many of the requests go into one write. `count` of them, which
-- take `size` bytes, are in.
unfoldable pub chunk_length : ℕ → ℕ → ℕ → ℕ → ℕ → List WriteRequest → ℕ
chunk_length seq offset segment_size count size [] = count
chunk_length seq offset segment_size count size (r ∷ requests) =
    let more =
      chunk_length seq offset segment_size (count + 1) (size + record_size_for r) requests in
    if leb (max_sequence - seq) count || (ltb 0 count && ltb segment_size (offset + size))
    then count
    else more

-- The loop that fills `payload`.
unfoldable pub encode_batch : (Bytes → ℕ) → Bytes → ℕ → List WriteRequest → Bytes
encode_batch checksum payload seq [] = payload
encode_batch checksum payload seq (r ∷ requests) =
    encode_batch checksum (append_record checksum payload (seq + 1) r) (seq + 1) requests

unfoldable pub apply_request : Store → ℕ → ℤ → WriteRequest → Store
apply_request store sequence now r = elim r.kind [
  | request_set ↦ set_applied store r.key r.value r.deadline sequence now
  | _ ↦ delete_applied store r.key sequence
]

-- The loop that applies what was written and counts it.
unfoldable pub apply_batch : Environment → Store → ℕ → List WriteRequest → Store
apply_batch env store seq [] = store
apply_batch env store seq (r ∷ requests) =
    let applied = apply_request store (seq + 1) (env.now (seq + 1)) r in
    apply_batch env (record applied { records_written = add64 applied.records_written 1 }) (seq + 1)
      requests

-- `respondAll`
unfoldable pub respond_all : List WriteRequest → Error → List (Option Error)
respond_all requests failure = map (λ _. some failure) requests

-- `latch` and `respondAll` on the requests that are left.
unfoldable pub fail_rest : Writer → List WriteRequest → Error → Writer
fail_rest w requests failure =
    let (store, first) = latch w.store failure in
    record w { store = store; answers = w.answers ++ respond_all requests first }

unfoldable pub write_cause : Option ℕ → Cause
write_cause none = short_write
write_cause (some n) = os n

-- A write fails with an error, or by writing less than the `size` bytes that it was given.
unfoldable pub failed_write : Option WriteFault → ℕ → Option WriteFault
failed_write none size = none
failed_write (some fault) size = elim fault.error [
  | some n ↦ some fault
  | none ↦ if ltb fault.written size then some fault else none
]

-- From the write on: `n` requests go into it. The result says whether it succeeded.
unfoldable pub write_chunk : Environment → Writer → ℕ → List WriteRequest → Writer × Bool
write_chunk env w n requests =
    let log = w.log in
    let chunk = take n requests in
    let payload = encode_batch env.checksum [] log.seq chunk in
    elim (failed_write (env.write log.seq) (length payload)) [
      | some fault ↦ (
        fail_rest
            (record w {
              log = record log { contents = log.contents ++ take fault.written payload };
            })
            requests (write_log log.offset (write_cause fault.error)),
        false,
      )
      | none ↦
          let store = apply_batch env w.store log.seq chunk in
          (
            record {
              store = record store { bytes_written = add64 store.bytes_written (length payload) };
              log = record log {
                contents = log.contents ++ payload;
                offset = log.offset + length payload;
                seq = log.seq + length chunk;
                bytes_since_snapshot = log.bytes_since_snapshot + length payload;
              };
              answers = w.answers ++ map (λ _. none) chunk;
            },
            true,
          )
    ]

-- The start of a round: a new segment, if the next record does not fit the current one.
unfoldable pub make_room :
    Environment → ℕ → Store → LogState → WriteRequest → Store × LogState × Option Error
make_room env segment_size store log r =
    if ltb segment_header_size log.offset && ltb segment_size (log.offset + record_size_for r)
    then roll_segment (env.roll log.seq) store log (log.seq + 1)
    else (store, log, none)

-- The outer loop. A round writes a request at least, so as many rounds as there are requests are
-- enough; `none` says that they were not.
unfoldable pub write_loop : ℕ → Environment → ℕ → Writer → List WriteRequest → Option Writer
write_loop fuel env segment_size w [] = some w
write_loop zero env segment_size w (r ∷ requests) = none
write_loop (suc fuel) env segment_size w (r ∷ requests) = elim (w.log.seq == max_sequence) [
  | true ↦ some (fail_rest w (r ∷ requests) sequence_exhausted)
  | false ↦
      let (store, log, error) = make_room env segment_size w.store w.log r in
      let placed : Writer = record w { store = store; log = log } in
      elim error [
        | some e ↦ some (fail_rest placed (r ∷ requests) e)
        | none ↦
            let n = chunk_length log.seq log.offset segment_size 0 0 (r ∷ requests) in
            let (w', done) = write_chunk env placed n (r ∷ requests) in
            elim done [
              | false ↦ some w'
              | true ↦ write_loop fuel env segment_size w' (drop n (r ∷ requests))
            ]
      ]
]

unfoldable pub write_batch : Environment → ℕ → Store → LogState → List WriteRequest → Option Writer
write_batch env segment_size store log requests = elim store.last_error [
  | some failure ↦
      some (record { store = store; log = log; answers = respond_all requests failure })
  | none ↦
      write_loop (length requests) env segment_size
        (record { store = store; log = log; answers = [] }) requests
]

-- The loop of `drainWrites` on what the channel holds: the writes up to a control request, that
-- request, and what stays in the channel.
unfoldable pub drain_more :
    List WriteRequest → List WriteRequest × Option WriteRequest × List WriteRequest
drain_more [] = ([], none, [])
drain_more (r ∷ queue) =
    let (batch, control, rest) = drain_more queue in
    elim r.kind [
      | request_sync ↦ ([], some r, queue)
      | request_close ↦ ([], some r, queue)
      | _ ↦ (r ∷ batch, control, rest)
    ]

-- `drainWrites`: the batch begins with the request that was taken from the channel before.
unfoldable pub drain_writes :
    WriteRequest → List WriteRequest → List WriteRequest × Option WriteRequest × List WriteRequest
unfolding drain_more
drain_writes first queue =
    let (batch, control, rest) = drain_more queue in (first ∷ batch, control, rest)

-- What `runWriter` does first with a set or a delete that it took from the channel.
unfoldable pub serve_writes :
    Environment
    → ℕ
    → Store
    → LogState
    → WriteRequest
    → List WriteRequest
    → Option Writer × Option WriteRequest × List WriteRequest
serve_writes env segment_size store log request queue =
    let (batch, control, rest) = drain_writes request queue in
    (write_batch env segment_size store log batch, control, rest)
