-- ===== src/Writer/Runs.antt =====
-- A run of `writeBatch` on two requests and an empty log, and the theorem at this input.
use go.Prelude.{◌≡◌, refl, arith, inl}
use go.Prelude.{List, [], ◌∷◌, none, some, length}
use go.Prelude.Int.{pos}
use go.Wire.{Bytes}
use go.Record.{WriteRequest, request_set, request_delete, request_sync}
use go.Store.{new_store_state}
use go.Segment.{segment_header}
use go.Writer.{LogState, Environment, Writer, write_batch, serve_writes}
use go.Writer.Progress.{Progress}
use go.Writer.Answers.{write_batch_lem}
use go.Writer.Drain.{Served, serve_writes-Served}

abbrev calm : Environment
calm = record { checksum = length; write = λ _. none; roll = λ _. none; now = λ _. pos 0 }

abbrev new_log : LogState
new_log = record {
  closed_segments = [];
  first_sequence = 1;
  contents = segment_header;
  orphans = [];
  offset = 8;
  seq = 0;
  bytes_since_snapshot = 0;
}

abbrev requests : List WriteRequest
requests =
    record { kind = request_set; key = 97 ∷ []; value = 1 ∷ 2 ∷ []; deadline = pos 0 }
    ∷ record { kind = request_delete; key = 97 ∷ []; value = []; deadline = pos 0 }
    ∷ []

header_length : length segment_header ≡ 8
unfolding segment_header go.Wire.put_le
header_length = refl

write_batch_lem_example :
    (w : Writer) × (write_batch calm 100 (new_store_state 2 1000) new_log requests ≡ some w)
    × Progress calm.checksum
        (record { store = new_store_state 2 1000; log = new_log; answers = [] })
        w
        requests
unfolding new_store_state
write_batch_lem_example =
    write_batch_lem calm 100 (new_store_state 2 1000) new_log requests refl
      (omega (arith, header_length)) (omega arith)

abbrev first : WriteRequest
first = record { kind = request_set; key = 97 ∷ []; value = []; deadline = pos 0 }

abbrev queue : List WriteRequest
queue =
    record { kind = request_delete; key = 97 ∷ []; value = []; deadline = pos 0 }
    ∷ record { kind = request_sync; key = []; value = []; deadline = pos 0 }
    ∷ record { kind = request_delete; key = 97 ∷ []; value = []; deadline = pos 0 }
    ∷ []

serve_writes-Served_example :
    Served calm
      (record { store = new_store_state 2 1000; log = new_log; answers = [] })
      first
      queue
      (serve_writes calm 100 (new_store_state 2 1000) new_log first queue)
unfolding new_store_state
serve_writes-Served_example =
    serve_writes-Served calm 100 (new_store_state 2 1000) new_log first queue (inl refl) refl
      (omega (arith, header_length)) (omega arith)
