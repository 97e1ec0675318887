-- ===== src/Writer/Steps.antt =====
-- The parts of a round of the loop of `writeBatch`: a new segment, a refusal of what is left, and the
-- application of what was written.
use go.Prelude.{ℕ, zero, suc, ◌+◌, ◌≤◌, ◌≡◌, refl, sym, ap, ◌∙◌, arith, inr}
use go.Prelude.{
  List, [], ◌∷◌, ◌++◌, Option, none, some, length, take, drop, append-nil, append_assoc,
}
use go.Prelude.Int.{ℤ}
use go.Wire.{Bytes}
use go.Errors.{Error}
use go.Shard.{Locked, add64}
use go.Shard.Operations.{apply_set, apply_delete}
use go.Record.{WriteRequest}
use go.Segment.{segment_header}
use go.Segment.Log.{encode_log}
use go.Store.{Store, latch, shard_index, with_shard, set_applied, delete_applied}
use go.Writer.{
  LogState, Environment, Writer, RollFault, sync_failed, close_failed, create_failed, commit_failed,
  roll_segment, apply_request, apply_batch, respond_all, fail_rest, make_room,
}
use go.Writer.Progress.{bodies_of, bodies, Progress}

-- The open segment has its header.
abbrev pub HasHeader : LogState → Type 0
HasHeader log = 8 ≤ length log.contents

drop-within {ℓ} :
    {A : Type ℓ} (n : ℕ) (xs ys : List A) → n ≤ length xs → drop n (xs ++ ys) ≡ drop n xs ++ ys
drop-within zero xs ys h = refl
drop-within (suc n) [] ys h = absurd (omega arith)
drop-within (suc n) (x ∷ xs) ys h = drop-within n xs ys (omega arith)

bodies_of-append :
    (xs : List (ℕ × Bytes)) (first : ℕ) (contents : Bytes)
    → bodies_of (xs ++ (first, contents) ∷ []) ≡ bodies_of xs ++ drop 8 contents
bodies_of-append [] first contents = append-nil (drop 8 contents)
bodies_of-append ((n, c) ∷ xs) first contents =
    ap (λ b. drop 8 c ++ b) (bodies_of-append xs first contents)
    ∙ sym (append_assoc (drop 8 c) (bodies_of xs) (drop 8 contents))

-- Bytes appended to the open segment are appended to the log.
pub bodies-extend :
    (log : LogState) (more : Bytes)
    → HasHeader log
    → bodies (record log { contents = log.contents ++ more }) ≡ bodies log ++ more
unfolding bodies
bodies-extend log more h =
    ap (λ b. bodies_of log.closed_segments ++ b) (drop-within 8 log.contents more h)
    ∙ sym (append_assoc (bodies_of log.closed_segments) (drop 8 log.contents) more)

-- A new segment, or the failure to get one, leaves the records as they are.
pub record Kept (store store' : Store) (log log' : LogState) : Type 0 where
  pub same_latch : store'.last_error ≡ store.last_error
  pub same_bodies : bodies log' ≡ bodies log
  pub same_seq : log'.seq ≡ log.seq
  pub has_header : HasHeader log'

abbrev KeptBy : Store → LogState → Store × LogState × Option Error → Type 0
KeptBy store log (store', log', e) = Kept store store' log log'

roll_segment-Kept :
    (fault : Option RollFault) (store : Store) (log : LogState) (first : ℕ)
    → HasHeader log
    → KeptBy store log (roll_segment fault store log first)
unfolding roll_segment bodies segment_header go.Wire.put_le
roll_segment-Kept (some (sync_failed n)) store log first h = record {
  same_latch = refl;
  same_bodies = refl;
  same_seq = refl;
  has_header = h;
}
roll_segment-Kept (some (close_failed n)) store log first h = record {
  same_latch = refl;
  same_bodies = refl;
  same_seq = refl;
  has_header = h;
}
roll_segment-Kept (some (create_failed n)) store log first h = record {
  same_latch = refl;
  same_bodies = refl;
  same_seq = refl;
  has_header = h;
}
roll_segment-Kept (some (commit_failed n)) store log first h = record {
  same_latch = refl;
  same_bodies = refl;
  same_seq = refl;
  has_header = h;
}
roll_segment-Kept none store log first h = record {
  same_latch = refl;
  same_bodies = append-nil _ ∙ bodies_of-append log.closed_segments log.first_sequence log.contents;
  same_seq = refl;
  has_header = omega arith;
}

pub make_room-Kept :
    (env : Environment) (segment_size : ℕ) (store : Store) (log : LogState) (r : WriteRequest)
    → HasHeader log
    → KeptBy store log (make_room env segment_size store log r)
unfolding make_room
make_room-Kept env segment_size store log r h =
    ground (arith, roll_segment-Kept (env.roll log.seq) store log (log.seq + 1) h)

with_shard-last_error :
    (store : Store) (i : ℕ) (f : Locked → Locked)
    → (with_shard store i f).last_error ≡ store.last_error
unfolding with_shard go.Store.index_panic
with_shard-last_error store i f = ground arith

apply_request-last_error :
    (store : Store) (sequence : ℕ) (now : ℤ) (r : WriteRequest)
    → (apply_request store sequence now r).last_error ≡ store.last_error
unfolding apply_request set_applied delete_applied
apply_request-last_error store sequence now r = ground (
  arith,
  with_shard-last_error store (shard_index store r.key)
      (λ l. apply_set l r.key r.value r.deadline sequence now),
  with_shard-last_error store (shard_index store r.key) (λ l. apply_delete l r.key),
)

pub apply_batch-last_error :
    (env : Environment) (store : Store) (seq : ℕ) (requests : List WriteRequest)
    → (apply_batch env store seq requests).last_error ≡ store.last_error
unfolding apply_batch
apply_batch-last_error env store seq [] = refl
apply_batch-last_error env store seq (r ∷ requests) =
    let applied = apply_request store (seq + 1) (env.now (seq + 1)) r in
    apply_batch-last_error env
      (record applied { records_written = add64 applied.records_written 1 }) (seq + 1) requests
    ∙ apply_request-last_error store (seq + 1) (env.now (seq + 1)) r

-- A refusal of all requests, after `placed` bytes of their records have reached the file.
pub fail_rest-Progress :
    (checksum : Bytes → ℕ) (w w' : Writer) (requests : List WriteRequest) (failure : Error) (m : ℕ)
    → w'.store.last_error ≡ none
    → w'.answers ≡ w.answers
    → w'.log.seq ≡ w.log.seq
    → bodies w'.log ≡ bodies w.log ++ take m (encode_log checksum (w.log.seq + 1) requests)
    → Progress checksum w (fail_rest w' requests failure) requests
unfolding fail_rest latch encode_log
fail_rest-Progress checksum w w' requests failure m unlatched answers seq logged =
    let e : w.log.seq + 0 + 1 ≡ w.log.seq + 1 = omega arith in
    rw unlatched (record {
      count = 0;
      refusals = respond_all requests failure;
      tail = take m (encode_log checksum (w.log.seq + 1) requests);
      within = omega arith;
      answered = ap (λ a. a ++ respond_all requests failure) answers;
      numbered = omega (arith, seq);
      logged = logged;
      torn = (m, ap (λ s. take m (encode_log checksum s requests)) (sym e));
      ending = inr (failure, refl, refl);
    })
