-- ===== src/Durability/Left.antt =====
-- What the rounds of `writeBatch` keep of the log, and what each of its ends leaves on disk.
use go.Prelude.{ℕ, ◌+◌, ◌≤◌, ◌≡◌, refl, sym, ap, ◌∙◌, arith, subst}
use go.Prelude.{
  List, [], ◌∷◌, ◌++◌, length, length-append, length-take, take, drop, map, append-nil,
  append_assoc, take-append, take-append_more, take-append-drop, length-drop,
}
use go.Wire.{Bytes}
use go.Options.{segment_header_size}
use go.Record.{WriteRequest}
use go.Segment.{segment_header}
use go.Segment.Log.{encode_log}
use go.Recovery.Chain.{joined}
use go.Recovery.Start.{IsLogFrom}
use go.Writer.{LogState}
use go.Writer.Progress.{encode_log-append}
use go.Durability.Segments.{
  as_file, segments_of, Closed, joined-snoc, Closed-snoc, Closed-IsLogFrom,
}

-- The log between two rounds: the closed segments hold the records of `chunks`, the open one those of
-- `last`, numbered from 1.
pub record Holds (checksum : Bytes → ℕ) (log : LogState) (chunks : List (List WriteRequest))
    (last : List WriteRequest) : Type 0 where
  pub closed : Closed checksum 0 log.closed_segments chunks
  pub first : log.first_sequence ≡ length (joined chunks) + 1
  pub contents : log.contents ≡ segment_header ++ encode_log checksum log.first_sequence last
  pub numbered : log.seq ≡ length (joined chunks) + length last
  pub complete : log.orphans ≡ []

-- The log after `count` of the requests behind `history` were accepted, when a part of the records of
-- the others may have reached the last segment.
pub record Left (checksum : Bytes → ℕ) (history requests : List WriteRequest) (log : LogState)
    : Type 0 where
  pub count : ℕ
  pub chunks : List (List WriteRequest)
  pub last : List WriteRequest
  pub n : ℕ
  pub k : ℕ
  pub within : count ≤ length requests
  pub numbered : log.seq ≡ length history + count
  pub whole : joined chunks ++ last ≡ history ++ requests
  pub reached : length (joined chunks) + k ≡ log.seq
  pub short : k ≤ length last
  pub there : length (encode_log checksum (length (joined chunks) + 1) (take k last)) ≤ n
  pub disk : IsLogFrom checksum chunks last n 0 (map as_file (segments_of log))

module _ (checksum : Bytes → ℕ) (log : LogState) (chunks : List (List WriteRequest))
    (last : List WriteRequest) (h : Holds checksum log chunks last) where
  abbrev history : List WriteRequest
  history = joined chunks ++ last

  behind : log.first_sequence + length last ≡ log.seq + 1
  behind = omega (arith, h.first, h.numbered)

  records-append :
      (requests : List WriteRequest)
      → encode_log checksum log.first_sequence (last ++ requests)
        ≡ encode_log checksum log.first_sequence last ++ encode_log checksum (log.seq + 1) requests
  records-append requests =
      encode_log-append checksum log.first_sequence last requests
      ∙ ap (λ s. encode_log checksum log.first_sequence last ++ encode_log checksum s requests)
          behind

  -- A write that failed and left `m` bytes of the records.
  pub Left-torn :
      (requests : List WriteRequest) (m : ℕ) (contents : Bytes)
      → contents ≡ log.contents ++ take m (encode_log checksum (log.seq + 1) requests)
      → Left checksum history requests (record log { contents = contents })
  Left-torn requests m contents held =
      let records = encode_log checksum log.first_sequence last in
      let more = encode_log checksum (log.seq + 1) requests in
      let n = length records + m in
      let placed : take n (encode_log checksum log.first_sequence (last ++ requests))
          ≡ records ++ take m more =
        ap (take n) (records-append requests)
        ∙ take-append_more (length records) m records more refl in
      let held' : contents
          ≡ segment_header ++ take n (encode_log checksum log.first_sequence (last ++ requests)) =
        held
        ∙ ap (λ c. c ++ take m more) h.contents
        ∙ append_assoc segment_header records (take m more)
        ∙ ap (λ b. segment_header ++ b) (sym placed) in
      let same : encode_log checksum (length (joined chunks) + 1)
            (take (length last) (last ++ requests))
          ≡ records =
        ap (encode_log checksum (length (joined chunks) + 1))
          (take-append (length last) last requests refl)
        ∙ ap (λ s. encode_log checksum s last) (sym h.first) in
      record {
        count = 0;
        chunks = chunks;
        last = last ++ requests;
        n = n;
        k = length last;
        within = omega arith;
        numbered = omega (arith, h.numbered, length-append (joined chunks) last);
        whole = sym (append_assoc (joined chunks) last requests);
        reached = sym h.numbered;
        short = omega (arith, length-append last requests);
        there = omega (arith, ap length same);
        disk =
            subst
              (λ o.
                IsLogFrom checksum chunks (last ++ requests) n 0
                  (map as_file (log.closed_segments ++ (log.first_sequence, contents) ∷ o)))
              (sym h.complete)
              (Closed-IsLogFrom checksum 0 log.first_sequence contents log.closed_segments chunks
                (last ++ requests) n h.closed (h.first ∙ omega arith) held');
      }

  -- A batch that ends with the log as it was.
  pub Left-stop : (requests : List WriteRequest) → Left checksum history requests log
  Left-stop requests = Left-torn requests 0 log.contents (sym (append-nil log.contents))

  chunks-Closed :
      Closed checksum 0
        (log.closed_segments ++ (log.first_sequence, log.contents) ∷ [])
        (chunks ++ last ∷ [])
  chunks-Closed =
      Closed-snoc checksum 0 log.first_sequence log.contents log.closed_segments chunks last
        h.closed (h.first ∙ omega arith) h.contents

  next_first : log.seq + 1 ≡ length (joined (chunks ++ last ∷ [])) + 1
  next_first =
      omega
        (arith, h.numbered, ap length (joined-snoc chunks last), length-append (joined chunks) last)

  -- A new segment that was not confirmed.
  pub Left-orphan :
      (requests : List WriteRequest)
      → Left checksum history requests
          (record log { orphans = (log.seq + 1, segment_header) ∷ log.orphans })
  unfolding encode_log
  Left-orphan requests =
      let segments = log.closed_segments ++ (log.first_sequence, log.contents) ∷ [] in
      let new : ℕ × Bytes = (log.seq + 1, segment_header) in
      record {
        count = 0;
        chunks = chunks ++ last ∷ [];
        last = requests;
        n = 0;
        k = 0;
        within = omega arith;
        numbered = omega (arith, h.numbered, length-append (joined chunks) last);
        whole = ap (λ l. l ++ requests) (joined-snoc chunks last);
        reached = omega (arith, next_first);
        short = omega arith;
        there = omega arith;
        disk =
            subst
              (λ o.
                IsLogFrom checksum (chunks ++ last ∷ []) requests 0 0 (
                  map as_file
                    (log.closed_segments ++ (log.first_sequence, log.contents) ∷ new ∷ o)))
              (sym h.complete)
              (subst (λ l. IsLogFrom checksum (chunks ++ last ∷ []) requests 0 0 (map as_file l))
                (append_assoc log.closed_segments ((log.first_sequence, log.contents) ∷ [])
                  (new ∷ []))
                (Closed-IsLogFrom checksum 0 (log.seq + 1) segment_header segments
                  (chunks ++ last ∷ []) requests 0 chunks-Closed (next_first ∙ omega arith)
                  (sym (append-nil segment_header))));
      }

  -- A new segment.
  pub Holds-rolled :
      Holds checksum
        (record log {
          closed_segments = log.closed_segments ++ (log.first_sequence, log.contents) ∷ [];
          first_sequence = log.seq + 1;
          contents = segment_header;
          offset = segment_header_size;
        })
        (chunks ++ last ∷ [])
        []
  unfolding encode_log
  Holds-rolled = record {
    closed = chunks-Closed;
    first = next_first;
    contents = sym (append-nil segment_header);
    numbered = omega (arith, next_first);
    complete = h.complete;
  }

  -- A write that succeeded.
  pub Holds-written :
      (chunk : List WriteRequest) (contents : Bytes) (offset bytes : ℕ)
      → contents ≡ log.contents ++ encode_log checksum (log.seq + 1) chunk
      → Holds checksum
          (record log {
            contents = contents;
            offset = offset;
            seq = log.seq + length chunk;
            bytes_since_snapshot = bytes;
          })
          chunks
          (last ++ chunk)
  Holds-written chunk contents offset bytes held = record {
    closed = h.closed;
    first = h.first;
    contents =
        held
        ∙ ap (λ c. c ++ encode_log checksum (log.seq + 1) chunk) h.contents
        ∙ append_assoc segment_header (encode_log checksum log.first_sequence last) _
        ∙ ap (λ b. segment_header ++ b) (sym (records-append chunk));
    numbered = omega (arith, h.numbered, length-append last chunk);
    complete = h.complete;
  }

-- A round that accepted the first `n` requests, and the rounds behind it.
pub Left-trans :
    (checksum : Bytes → ℕ) (history requests : List WriteRequest) (log : LogState) (n : ℕ)
    → n ≤ length requests
    → Left checksum (history ++ take n requests) (drop n requests) log
    → Left checksum history requests log
Left-trans checksum history requests log n le l =
    let front = length-append history (take n requests) in
    record {
      count = n + l.count;
      chunks = l.chunks;
      last = l.last;
      n = l.n;
      k = l.k;
      within = omega (arith, l.within, length-drop n requests, le);
      numbered = omega (arith, l.numbered, front, length-take n requests, le);
      whole =
          l.whole
          ∙ append_assoc history (take n requests) (drop n requests)
          ∙ ap (λ r. history ++ r) (take-append-drop n requests);
      reached = l.reached;
      short = l.short;
      there = l.there;
      disk = l.disk;
    }
