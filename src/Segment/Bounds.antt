-- ===== src/Segment/Bounds.antt =====
-- `recoverSegment` on arbitrary bytes, with whatever faults.
use go.Prelude.{
  ℕ, zero, suc, ◌+◌, ◌≤◌, ◌<◌, ◌≡◌, refl, arith, true, ◌⊎◌, inl, inr, lt→ltb, ge→ltb, dec_lt,
}
use go.Prelude.{Option, none, some, length, take, drop}
use go.Wire.{Bytes, le, read_full}
use go.Errors.{Result, ok, err, ◌>>◌}
use go.Store.{Store}
use go.Segment.{
  SegmentFaults, SegmentCall, Cursor, Turn, next, beyond, torn, Recovered, finish, read_header,
  replay_payload, cut_off, recover_turn, recover_loop, recover_segment, check, opens,
}
use go.Options.{segment_header_size}

-- Where a turn that goes on leaves the loop.
record Advances (call : SegmentCall) (size : ℕ) (c c' : Cursor) : Type 0 where
  further : c.offset + 27 ≤ c'.offset
  inside : c'.offset ≤ size
  consecutive : c'.sequence ≡ c.sequence + 1
  within : c'.sequence ≤ call.through

replay_payload-next :
    (call : SegmentCall) (c c' : Cursor) (end : ℕ) (payload rest : Bytes)
    → replay_payload call c end payload rest ≡ ok (next c')
    → (c'.offset ≡ end) × (c'.sequence ≡ c.sequence + 1) × (c'.sequence ≤ call.through)
unfolding replay_payload
replay_payload-next call c c' end payload rest h = (ground arith, ground arith, ground arith)

recover_turn-next :
    (checksum : Bytes → ℕ) (faults : SegmentFaults) (call : SegmentCall) (size : ℕ) (c c' : Cursor)
    → recover_turn checksum faults call size c ≡ ok (next c')
    → Advances call size c c'
unfolding recover_turn cut_off read_full
recover_turn-next checksum faults call size c c' h =
    let behind = drop 4 c.rest in
    let len = le (take 4 c.rest) in
    let read =
      replay_payload-next call c c' (c.offset + 4 + len) (take len behind) (drop len behind) in
    record {
      further = ground (arith, read);
      inside = ground (arith, read);
      consecutive = ground (arith, read);
      within = ground (arith, read);
    }

module _ (checksum : Bytes → ℕ) (faults : SegmentFaults) (call : SegmentCall) (size : ℕ) where
  -- What the loop has reached when it ends.
  record Ended (c : Cursor) (r : Cursor × Option ℕ) : Type 0 where
    behind : c.offset ≤ r.0.offset
    inside : r.0.offset ≤ size
    grown : c.sequence ≤ r.0.sequence
    cut : (r.1 ≡ none) ⊎ (r.1 ≡ some r.0.offset)

  abbrev Total : Cursor → Option (Result (Cursor × Option ℕ)) → Type 0
  Total c none = ⊥
  Total c (some (err e)) = Unit
  Total c (some (ok r)) = Ended c r

  Total-next :
      (c c' : Cursor)
      → Advances call size c c'
      → (o : Option (Result (Cursor × Option ℕ))) → Total c' o
      → Total c o
  Total-next c c' a none t = t
  Total-next c c' a (some (err e)) t = tt
  Total-next c c' a (some (ok r)) t = record {
    behind = omega (arith, a.further, t.behind);
    inside = t.inside;
    grown = omega (arith, a.consecutive, t.grown);
    cut = t.cut;
  }

  -- One round, by what the turn says; `later` is the induction hypothesis.
  round_Total :
      (fuel : ℕ) (c : Cursor) (t : Result Turn)
      → c.offset < size
      → recover_turn checksum faults call size c ≡ t
      → ((c' : Cursor)
          → Advances call size c c'
          → Total c' (recover_loop checksum faults call size fuel c'))
      → Total c (recover_loop checksum faults call size (suc fuel) c)
  unfolding recover_loop
  round_Total fuel c (err e) more h later = rw (lt→ltb c.offset size more, recover_loop) (rw h tt)
  round_Total fuel c (ok beyond) more h later =
      rw (lt→ltb c.offset size more, recover_loop)
        (rw h (record {
          behind = omega arith;
          inside = omega arith;
          grown = omega arith;
          cut = inl refl;
        }))
  round_Total fuel c (ok torn) more h later =
      rw (lt→ltb c.offset size more, recover_loop) (rw h (truncated faults.truncate))
    where
      truncated : (o : Option ℕ) → Total c (some (do check o c.offset; ok (c, some c.offset)))
      truncated none = record {
        behind = omega arith;
        inside = omega arith;
        grown = omega arith;
        cut = inr refl;
      }
      truncated (some n) = tt
  round_Total fuel c (ok (next c')) more h later =
      let a = recover_turn-next checksum faults call size c c' h in
      rw (lt→ltb c.offset size more, recover_loop) (rw h (Total-next c c' a _ (later c' a)))

  recover_loop-Total :
      (fuel : ℕ) (c : Cursor)
      → c.offset ≤ size
      → size < c.offset + fuel
      → Total c (recover_loop checksum faults call size fuel c)
  recover_loop-Total zero c in_file f = absurd (omega arith)
  recover_loop-Total (suc fuel) c in_file f = elim (dec_lt c.offset size) [
    | yes more ↦
        round_Total fuel c (recover_turn checksum faults call size c) more refl
          (λ c' a. recover_loop-Total fuel c' a.inside (omega (arith, a.further)))
    | no done ↦
        unfold recover_loop in
        rw (ge→ltb c.offset size (omega arith), recover_loop)
          (record {
            behind = omega arith;
            inside = omega arith;
            grown = omega arith;
            cut = inl refl;
          })
  ]

-- What a result of `recoverSegment` says on a file of `size` bytes, where the last sequence number
-- before it was `previous`.
abbrev pub Sound : ℕ → ℕ → Option (Result Recovered) → Type 0
Sound size previous none = ⊥
Sound size previous (some (err e)) = Unit
Sound size previous (some (ok r)) =
    (segment_header_size ≤ r.offset)
    × (r.offset ≤ size)
    × (previous ≤ r.sequence)
    × ((r.truncated ≡ none) ⊎ (r.truncated ≡ some r.offset))

Sound-finish :
    (checksum : Bytes → ℕ) (faults : SegmentFaults) (call : SegmentCall) (size : ℕ) (c : Cursor)
    (o : Option (Result (Cursor × Option ℕ)))
    → c.offset ≡ segment_header_size
    → Total checksum faults call size c o
    → Sound size c.sequence (finish faults o)
Sound-finish checksum faults call size c none h t = t
Sound-finish checksum faults call size c (some (err e)) h t = tt
Sound-finish checksum faults call size c (some (ok r)) h t = sought faults.seek
  where
    sought :
        (o : Option ℕ)
        → Sound size c.sequence (
            some (do
              check o r.0.offset
              ok (record {
                offset = r.0.offset;
                sequence = r.0.sequence;
                store = r.0.store;
                truncated = r.1;
              })))
    sought none = (omega (arith, t.behind), t.inside, t.grown, t.cut)
    sought (some n) = tt

read_header-ok :
    (faults : SegmentFaults) (contents rest : Bytes)
    → read_header faults contents ≡ ok rest
    → segment_header_size ≤ length contents
unfolding read_header
read_header-ok faults contents rest h = ground arith

opened : SegmentFaults → Bytes → Result Bytes
opened faults contents = do opens faults.open_file; check faults.stat 0; read_header faults contents

opened-ok :
    (faults : SegmentFaults) (contents rest : Bytes)
    → opened faults contents ≡ ok rest
    → segment_header_size ≤ length contents
unfolding opened
opened-ok faults contents rest h = read_header-ok faults contents rest (ground arith)

-- On any bytes, well formed or not, and whatever faults occur, `recoverSegment` ends. If it returns
-- no error, its offset lies between the header and the end of the file, the sequence number has not
-- gone back, and a truncation is one to this offset.
pub recover_segment-Sound :
    (checksum : Bytes → ℕ) (faults : SegmentFaults) (call : SegmentCall) (contents : Bytes)
    (previous : ℕ) (store : Store)
    → Sound
        (length contents)
        previous
        (recover_segment checksum faults call contents previous store)
unfolding recover_segment opened
recover_segment-Sound checksum faults call contents previous store =
    go (opened faults contents) refl
  where
    start : Bytes → Cursor
    start rest = record {
      rest = rest;
      offset = segment_header_size;
      sequence = previous;
      first_record = true;
      store = store;
    }

    go :
        (o : Result Bytes)
        → opened faults contents ≡ o
        → Sound
            (length contents)
            previous
            (recover_segment checksum faults call contents previous store)
    go (err e) h = rw (h, recover_segment) tt
    go (ok rest) h =
        let header = opened-ok faults contents rest h in
        rw (h, recover_segment)
          (Sound-finish checksum faults call (length contents) (start rest) _ refl (
            recover_loop-Total checksum faults call (length contents) (suc (length contents))
              (start rest) header (omega arith)))
