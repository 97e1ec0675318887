-- ===== src/Writer/Drain.antt =====
-- `drainWrites`: what it takes from the channel, and what it leaves there.
use go.Prelude.{ℕ, suc, ◌+◌, ◌≤◌, arith, ◌∙◌, ◌≡◌, refl, ap, ◌⊎◌, inl, inr}
use go.Prelude.{
  List, [], ◌∷◌, ◌++◌, Option, none, some, All, length, length-append, length-take, length-drop,
  take, drop,
}
use go.Record.{
  max_sequence, WriteRequest, RequestKind, request_set, request_delete, request_sync, request_close,
}
use go.Wire.{Bytes}
use go.Errors.{Error}
use go.Store.{Store}
use go.Writer.{LogState, Environment, Writer, respond_all, drain_more, drain_writes, serve_writes}
use go.Writer.Progress.{accepted, Progress}
use go.Writer.Answers.{write_batch_lem}

abbrev pub IsData : WriteRequest → Type 0
IsData r = (r.kind ≡ request_set) ⊎ (r.kind ≡ request_delete)

abbrev pub IsControl : WriteRequest → Type 0
IsControl r = (r.kind ≡ request_sync) ⊎ (r.kind ≡ request_close)

-- The control request after the batch, or the whole channel in the batch.
abbrev pub Rest :
    List WriteRequest → List WriteRequest → Option WriteRequest × List WriteRequest → Type 0
Rest queue batch (none, rest) = (rest ≡ []) × (queue ≡ batch)
Rest queue batch (some control, rest) = IsControl control × (queue ≡ batch ++ control ∷ rest)

pub record Drained (queue : List WriteRequest)
    (d : List WriteRequest × Option WriteRequest × List WriteRequest) : Type 0 where
  pub is_data : All IsData d.0
  pub rest : Rest queue d.0 (d.1, d.2)

Drained-cons :
    (r : WriteRequest) (queue : List WriteRequest)
    (d : List WriteRequest × Option WriteRequest × List WriteRequest)
    → IsData r
    → Drained queue d
    → Drained (r ∷ queue) (r ∷ d.0, d.1, d.2)
Drained-cons r queue (batch, none, rest) h d = record {
  is_data = (h, d.is_data);
  rest = (d.rest.0, ap (◌∷◌ r) d.rest.1);
}
Drained-cons r queue (batch, some control, rest) h d = record {
  is_data = (h, d.is_data);
  rest = (d.rest.0, ap (◌∷◌ r) d.rest.1);
}

drain_more-Drained : (queue : List WriteRequest) → Drained queue (drain_more queue)
unfolding drain_more
drain_more-Drained [] = record { is_data = tt; rest = (refl, refl) }
drain_more-Drained (r ∷ queue) = go r.kind refl (drain_more-Drained queue)
  where
    go :
        (kind : RequestKind)
        → r.kind ≡ kind
        → Drained queue (drain_more queue)
        → Drained (r ∷ queue) (drain_more (r ∷ queue))
    go request_set h d = simp (h, drain_more) (Drained-cons r queue _ (inl h) d)
    go request_delete h d = simp (h, drain_more) (Drained-cons r queue _ (inr h) d)
    go request_sync h d = simp (h, drain_more) (record { is_data = tt; rest = (inl h, refl) })
    go request_close h d = simp (h, drain_more) (record { is_data = tt; rest = (inr h, refl) })

drain_writes-Drained :
    (first : WriteRequest) (queue : List WriteRequest)
    → IsData first
    → Drained (first ∷ queue) (drain_writes first queue)
unfolding drain_writes
drain_writes-Drained first queue h =
    Drained-cons first queue (drain_more queue) h (drain_more-Drained queue)

-- What `runWriter` has done with a set or delete and the channel behind it.
pub record Served (env : Environment) (start : Writer) (first : WriteRequest)
    (queue : List WriteRequest) (s : Option Writer × Option WriteRequest × List WriteRequest)
    : Type 0 where
  pub more : List WriteRequest
  pub writer : Writer
  pub ends : s.0 ≡ some writer
  pub taken : Drained (first ∷ queue) (first ∷ more, s.1, s.2)
  pub progress : Progress env.checksum start writer (first ∷ more)
  pub all_answered : length writer.answers ≡ length start.answers + suc (length more)

length-accepted : (requests : List WriteRequest) → length (accepted requests) ≡ length requests
length-accepted [] = refl
length-accepted (r ∷ requests) = ap suc (length-accepted requests)

length-respond_all :
    (requests : List WriteRequest) (e : Error) → length (respond_all requests e) ≡ length requests
unfolding respond_all
length-respond_all [] e = refl
length-respond_all (r ∷ requests) e = ap suc (length-respond_all requests e)

Progress-answers :
    (checksum : Bytes → ℕ) (w w' : Writer) (requests : List WriteRequest)
    → Progress checksum w w' requests
    → length w'.answers ≡ length w.answers + length requests
Progress-answers checksum w w' requests p =
    let front = accepted (take p.count requests) in
    let sizes =
      ap length p.answered
      ∙ length-append w.answers (front ++ p.refusals)
      ∙ ap (λ n. length w.answers + n) (length-append front p.refusals) in
    let some_front = length-accepted (take p.count requests) ∙ length-take p.count requests in
    elim p.ending [
      | inl (all, none_refused, whole) ↦
          omega (arith, sizes, some_front, all, ap length none_refused)
      | inr (e, refused, latched) ↦
          let others =
            length-respond_all (drop p.count requests) e ∙ length-drop p.count requests in
          omega (arith, sizes, some_front, ap length refused, others, p.within)
    ]

-- On a set or a delete from the channel the writer takes from the channel, in its order, the sets and
-- deletes up to the first control request, which it takes too, and leaves all behind it; without a
-- control request it empties the channel. writeBatch then ends on the batch that begins with the
-- request itself, and answers every request of it exactly once, in order: a first part, whose records
-- are on disk, with nil, and the others with one failure. Nothing had failed before, the open segment
-- has its header, and the last sequence number fits into 64 bits.
pub serve_writes-Served :
    (env : Environment) (segment_size : ℕ) (store : Store) (log : LogState) (first : WriteRequest)
    (queue : List WriteRequest)
    → IsData first
    → store.last_error ≡ none
    → 8 ≤ length log.contents
    → log.seq ≤ max_sequence
    → Served env
        (record { store = store; log = log; answers = [] })
        first
        queue
        (serve_writes env segment_size store log first queue)
unfolding serve_writes drain_writes
serve_writes-Served env segment_size store log first queue is_data unlatched has_header in_space =
    let start : Writer = record { store = store; log = log; answers = [] } in
    let more = (drain_more queue).0 in
    let (w, ends, progress) =
      write_batch_lem env segment_size store log (first ∷ more) unlatched has_header in_space in
    record {
      more = more;
      writer = w;
      ends = ends;
      taken = drain_writes-Drained first queue is_data;
      progress = progress;
      all_answered = Progress-answers env.checksum start w (first ∷ more) progress;
    }
