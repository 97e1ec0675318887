-- ===== src/Shard/Links.antt =====
-- The pointers of cache/entries.go: `recent` and `oldest` of `shard`, `next` and `previous` of its
-- entries, and the updates of them by markRecentLocked and removeEntryLocked. A shard has one entry for a
-- key, so that a pointer to an entry is its key, and nil is `none`.
pub mod Threads
pub mod Updates
pub mod Steps
mod Runs
use go.Prelude.{Option, none, some, ite, Bool, true, false, if◌then◌else◌}
use go.Shard.{Key, key_eq}

pub record Links : Type 0 where
  pub recent : Option Key
  pub oldest : Option Key
  pub next : Key → Option Key
  pub previous : Key → Option Key

abbrev pub put : (Key → Option Key) → Key → Option Key → Key → Option Key
put f k v q = ite (key_eq q k) v (f q)

-- Whether a pointer is the one to the entry of a key.
abbrev pub is : Option Key → Key → Bool
is none k = false
is (some q) k = ite (key_eq q k) true false

-- `if current.previous != nil`: the entry before goes on past `current`, or nothing happens.
abbrev pub pass_next : Links → Key → Option Key → Links
pass_next s current none = s
pass_next s current (some p) = record s { next = put s.next p (s.next current) }

abbrev pub pass_previous : Links → Key → Option Key → Links → Links
pass_previous s current none otherwise = otherwise
pass_previous s current (some n) otherwise = record s {
  previous = put s.previous n (s.previous current);
}

abbrev pub remove_next : Links → Key → Option Key → Links
remove_next s current none = record s { recent = s.next current }
remove_next s current (some p) = pass_next s current (some p)

unfoldable pub remove_links : Links → Key → Links
remove_links s current =
    let t = remove_next s current (s.previous current) in
    pass_previous t current (t.next current) (record t { oldest = t.previous current })

abbrev pub take_out : Links → Key → Links
take_out s current =
    let t = pass_next s current (s.previous current) in
    pass_previous t current (t.next current)
      (if is t.oldest current then record t { oldest = t.previous current } else t)

abbrev pub before_recent : Links → Key → Option Key → Links
before_recent s current none = record s { oldest = some current }
before_recent s current (some r) = record s { previous = put s.previous r (some current) }

abbrev pub put_first : Links → Key → Links
put_first s current =
    let t = record s {
      previous = put s.previous current none;
      next = put s.next current s.recent;
    } in
    let u = before_recent t current t.recent in record u { recent = some current }

unfoldable pub mark_recent_links : Links → Key → Links
mark_recent_links s current =
    if is s.recent current then s else put_first (take_out s current) current
