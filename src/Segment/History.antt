-- ===== src/Segment/History.antt =====
-- The log as a history of each key, and what its replay makes of a store.
use go.Prelude.{
  ℕ, suc, ◌+◌, ◌-◌, ◌≤◌, ◌<◌, ◌≡◌, refl, sym, ap, ◌∙◌, arith, ite, if_neg, Bool, true, false, ltb,
  if◌then◌else◌, Bool-cases, inl, inr, lt→ltb, ge→ltb,
}
use go.Prelude.{
  List, [], ◌∷◌, ◌++◌, Option, none, some, length, take, drop, take-append-drop, length-take,
  length-drop, drop-add,
}
use go.Prelude.Int.{ℤ}
use go.Wire.{Bytes}
use go.Shard.{Key, Entry, Locked, new_entry, key_eq}
use go.Record.{WriteRequest, RequestKind, request_set, request_delete, request_sync, request_close}
use go.Store.{Store, shard_index, set_recovered, delete_applied}
use go.Store.Peek.{
  peek, IsReady, set_recovered-IsReady, delete_applied-IsReady, peek-set_recovered,
  peek-delete_applied, SameRouting, with_shard-SameRouting,
}
use go.Segment.{SnapshotState, applies}
use go.Segment.Replay.{replay_one}
use go.Segment.Log.{replay_all}

-- What a request leaves under its key.
abbrev pub left_by : RequestKind → Key → Bytes → ℤ → ℕ → Option Entry
left_by request_set key value deadline sequence = some (new_entry key value deadline sequence)
left_by _ key value deadline sequence = none

-- What stands under `q` after the requests of a log, of which `counts` says which are replayed.
unfoldable pub state_of : (ℕ → Bool) → Key → ℕ → List WriteRequest → Option Entry → Option Entry
state_of counts q sequence [] before = before
state_of counts q sequence (r ∷ requests) before = state_of counts q (sequence + 1) requests (
    if counts sequence
    then ite (key_eq r.key q) (left_by r.kind r.key r.value r.deadline sequence) before
    else before)

replay_one-SameRouting :
    (snapshot : SnapshotState) (store : Store) (sequence : ℕ) (r : WriteRequest)
    → SameRouting store (replay_one snapshot store sequence r)
unfolding replay_one set_recovered delete_applied
replay_one-SameRouting snapshot store sequence r =
    let s = with_shard-SameRouting store (shard_index store r.key) in
    let a = s (λ l. go.Shard.Operations.apply_recovered_set l r.key r.value r.deadline sequence) in
    let b = s (λ l. go.Shard.Operations.apply_delete l r.key) in
    record {
      same_mask = ground (arith, a.same_mask, b.same_mask);
      same_recovery = ground (arith, a.same_recovery, b.same_recovery);
    }

applies-SameRouting :
    (store store' : Store) (snapshot : SnapshotState) (q : Key) (n : ℕ)
    → SameRouting store store'
    → applies store' snapshot q n ≡ applies store snapshot q n
unfolding applies shard_index
applies-SameRouting store store' snapshot q n s = simp (s.same_mask, s.same_recovery) refl

replay_one-IsReady :
    (snapshot : SnapshotState) (store : Store) (sequence : ℕ) (r : WriteRequest)
    → IsReady store
    → IsReady (replay_one snapshot store sequence r)
unfolding replay_one
replay_one-IsReady snapshot store sequence r ready =
    go (applies store snapshot r.key sequence) refl r.kind refl
  where
    go :
        (b : Bool)
        → applies store snapshot r.key sequence ≡ b
        → (kind : RequestKind) → r.kind ≡ kind
        → IsReady (replay_one snapshot store sequence r)
    go false h kind k = rw (h, replay_one) ready
    go true h request_set k =
        rw (h, replay_one)
          (simp k (set_recovered-IsReady store r.key r.value r.deadline sequence ready))
    go true h request_delete k =
        rw (h, replay_one) (simp k (delete_applied-IsReady store r.key sequence ready))
    go true h request_sync k =
        rw (h, replay_one) (simp k (delete_applied-IsReady store r.key sequence ready))
    go true h request_close k =
        rw (h, replay_one) (simp k (delete_applied-IsReady store r.key sequence ready))

peek-replayed :
    (store : Store) (kind : RequestKind) (key : Key) (value : Bytes) (deadline : ℤ) (sequence : ℕ)
    (q : Key)
    → IsReady store
    → peek
        (elim kind [
          | request_set ↦ set_recovered store key value deadline sequence
          | _ ↦ delete_applied store key sequence
        ])
        q
      ≡ ite (key_eq key q) (left_by kind key value deadline sequence) (peek store q)
peek-replayed store request_set key value deadline sequence q ready =
    peek-set_recovered store key value deadline sequence q ready
peek-replayed store request_delete key value deadline sequence q ready =
    peek-delete_applied store key sequence q ready
peek-replayed store request_sync key value deadline sequence q ready =
    peek-delete_applied store key sequence q ready
peek-replayed store request_close key value deadline sequence q ready =
    peek-delete_applied store key sequence q ready

peek-replay_one :
    (snapshot : SnapshotState) (store : Store) (sequence : ℕ) (r : WriteRequest) (q : Key)
    → IsReady store
    → peek (replay_one snapshot store sequence r) q ≡ (
        if applies store snapshot q sequence
        then ite (key_eq r.key q) (left_by r.kind r.key r.value r.deadline sequence) (peek store q)
        else peek store q)
unfolding replay_one
peek-replay_one snapshot store sequence r q ready =
    let replayed = peek-replayed store r.kind r.key r.value r.deadline sequence q ready in
    elim (key_eq r.key q) [
      | yes same ↦
          let here = ap (λ k. applies store snapshot k sequence) same in
          elim (Bool-cases (applies store snapshot r.key sequence)) [
            | inl b ↦
                rw (b, replay_one)
                  (replayed ∙ chosen (applies store snapshot q sequence) (sym here ∙ b))
            | inr b ↦
                rw (b, replay_one) (left_alone (applies store snapshot q sequence) (sym here ∙ b))
          ]
      | no other ↦
          let unchanged : taken ≡ peek store q = if_neg (key_eq r.key q) other _ _ in
          elim (Bool-cases (applies store snapshot r.key sequence)) [
            | inl b ↦
                rw (b, replay_one)
                  (replayed ∙ unchanged ∙ either (applies store snapshot q sequence) unchanged)
            | inr b ↦ rw (b, replay_one) (either (applies store snapshot q sequence) unchanged)
          ]
    ]
  where
    taken : Option Entry
    taken = ite (key_eq r.key q) (left_by r.kind r.key r.value r.deadline sequence) (peek store q)

    chosen : (b : Bool) → b ≡ true → taken ≡ (if b then taken else peek store q)
    chosen true h = refl
    chosen false h = cc

    left_alone : (b : Bool) → b ≡ false → peek store q ≡ (if b then taken else peek store q)
    left_alone true h = cc
    left_alone false h = refl

    either : (b : Bool) → taken ≡ peek store q → peek store q ≡ (if b then taken else peek store q)
    either true h = sym h
    either false h = refl

-- The replay of a log leaves under each key what the history of the key says, counting what applies.
pub peek-replay_all :
    (snapshot : SnapshotState) (store : Store) (sequence : ℕ) (requests : List WriteRequest)
    (q : Key)
    → IsReady store
    → peek (replay_all snapshot store sequence requests) q
      ≡ state_of (applies store snapshot q) q sequence requests (peek store q)
unfolding replay_all state_of
peek-replay_all snapshot store sequence [] q ready = refl
peek-replay_all snapshot store sequence (r ∷ requests) q ready =
    let store' = replay_one snapshot store sequence r in
    let routing : (n : ℕ) → applies store' snapshot q n ≡ applies store snapshot q n = λ n.
      applies-SameRouting store store' snapshot q n
        (replay_one-SameRouting snapshot store sequence r) in
    peek-replay_all snapshot store' (sequence + 1) requests q
      (replay_one-IsReady snapshot store sequence r ready)
    ∙ ap (λ c. state_of c q (sequence + 1) requests (peek store' q)) (λ i n. routing n i)
    ∙ ap (state_of (applies store snapshot q) q (sequence + 1) requests)
        (peek-replay_one snapshot store sequence r q ready)

-- A log up to a sequence number and the rest of it.
state_of-append :
    (counts : ℕ → Bool) (q : Key) (sequence : ℕ) (xs ys : List WriteRequest) (before : Option Entry)
    → state_of counts q sequence (xs ++ ys) before
      ≡ state_of counts q (sequence + length xs) ys (state_of counts q sequence xs before)
unfolding state_of
state_of-append counts q sequence [] ys before =
    let e : sequence ≡ sequence + 0 = omega arith in ap (λ n. state_of counts q n ys before) e
state_of-append counts q sequence (x ∷ xs) ys before =
    let e : sequence + 1 + length xs ≡ sequence + suc (length xs) = omega arith in
    let next =
      if counts sequence
      then ite (key_eq x.key q) (left_by x.kind x.key x.value x.deadline sequence) before
      else before in
    state_of-append counts q (sequence + 1) xs ys next
    ∙ ap (λ n. state_of counts q n ys (state_of counts q (sequence + 1) xs next)) e

-- Requests that do not count change nothing; where two tests agree, so do the histories.
state_of-agree :
    (counts counts' : ℕ → Bool) (q : Key) (sequence : ℕ) (requests : List WriteRequest)
    (before : Option Entry)
    → ((n : ℕ) → sequence ≤ n → n < sequence + length requests → counts n ≡ counts' n)
    → state_of counts q sequence requests before ≡ state_of counts' q sequence requests before
unfolding state_of
state_of-agree counts counts' q sequence [] before h = refl
state_of-agree counts counts' q sequence (r ∷ requests) before h =
    rw (h sequence (omega arith) (omega arith)) (
      state_of-agree counts counts' q (sequence + 1) requests _
        (λ n a b. h n (omega arith) (omega arith)))

state_of-skip :
    (counts : ℕ → Bool) (q : Key) (sequence : ℕ) (requests : List WriteRequest)
    (before : Option Entry)
    → ((n : ℕ) → sequence ≤ n → n < sequence + length requests → counts n ≡ false)
    → state_of counts q sequence requests before ≡ before
unfolding state_of
state_of-skip counts q sequence [] before h = refl
state_of-skip counts q sequence (r ∷ requests) before h =
    rw (h sequence (omega arith) (omega arith)) (
      state_of-skip counts q (sequence + 1) requests before
        (λ n a b. h n (omega arith) (omega arith)))

abbrev pub all_count : ℕ → Bool
all_count n = true

-- What a key holds after a whole history, numbered from 1.
abbrev pub final_state : Key → List WriteRequest → Option Entry
final_state q requests = state_of all_count q 1 requests none

-- A store that holds under `q` the state after `limit` requests, and the replay of a log from the
-- request behind `dropped` on, of which what is beyond `limit` applies.
pub replay_all-final_state :
    (snapshot : SnapshotState) (store : Store) (requests : List WriteRequest) (dropped limit : ℕ)
    (q : Key)
    → IsReady store
    → ((n : ℕ) → 0 < n → applies store snapshot q n ≡ ltb limit n)
    → peek store q ≡ final_state q (take limit requests)
    → dropped ≤ limit
    → dropped ≤ length requests
    → peek (replay_all snapshot store (dropped + 1) (drop dropped requests)) q
      ≡ final_state q requests
replay_all-final_state snapshot store requests dropped limit q ready newer held le within =
    let kept = drop dropped requests in
    let old = take (limit - dropped) kept in
    let fresh = drop (limit - dropped) kept in
    let counts = ltb limit in
    let old_length = length-take (limit - dropped) kept in
    let kept_length = length-drop dropped requests in
    let first_length = length-take limit requests in
    let fresh_length = length-drop (limit - dropped) kept in
    let fresh_is : fresh ≡ drop limit requests =
      sym (drop-add dropped (limit - dropped) requests) ∙ ap (λ n. drop n requests) (omega arith) in
    let start : dropped + 1 + length old ≡ 1 + length (take limit requests) =
      omega (arith, old_length, kept_length, first_length) in
    peek-replay_all snapshot store (dropped + 1) kept q ready
    ∙ state_of-agree (applies store snapshot q) counts q (dropped + 1) kept (peek store q)
        (λ n a b. newer n (omega arith))
    ∙ ap (λ l. state_of counts q (dropped + 1) l (peek store q))
        (sym (take-append-drop (limit - dropped) kept))
    ∙ state_of-append counts q (dropped + 1) old fresh (peek store q)
    ∙ ap (state_of counts q (dropped + 1 + length old) fresh) (
        state_of-skip counts q (dropped + 1) old (peek store q)
          (λ n a b. ge→ltb limit n (omega (arith, old_length)))
        ∙ held)
    ∙ state_of-agree counts all_count q (dropped + 1 + length old) fresh _ (λ n a b.
      lt→ltb limit n (omega (arith, old_length, kept_length, fresh_length, ap length fresh_is)))
    ∙ ap (λ n. state_of all_count q n fresh (final_state q (take limit requests))) start
    ∙ ap
        (λ l.
          state_of all_count q (1 + length (take limit requests)) l
            (final_state q (take limit requests)))
        fresh_is
    ∙ sym (state_of-append all_count q 1 (take limit requests) (drop limit requests) none)
    ∙ ap (λ l. final_state q l) (take-append-drop limit requests)
