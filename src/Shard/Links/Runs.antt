-- ===== src/Shard/Links/Runs.antt =====
-- The pointers of a shard after some updates.
use go.Prelude.{◌≡◌, refl}
use go.Prelude.{List, [], ◌∷◌, Option, none, some}
use go.Prelude.Int.{pos}
use go.Shard.{Key, Entry, new_entry, key_eq, find, unlink, oldest, mark_recent_locked}
use go.Shard.Links.{Links, remove_links, mark_recent_links}
use go.Shard.Links.Steps.{
  Touch, touch_entry, touch_removed, touch_evicted, touches, empty_linked, IsLinked,
  touches-IsLinked,
}

abbrev entry_of : Key → Entry
entry_of key = new_entry key (7 ∷ []) (pos 0) 1

abbrev key_1 : Key
key_1 = 1 ∷ []

abbrev key_2 : Key
key_2 = 2 ∷ []

abbrev key_3 : Key
key_3 = 3 ∷ []

abbrev key_4 : Key
key_4 = 4 ∷ []

-- Four entries, of which the first is read again; then the third goes, and the oldest is evicted.
abbrev program : List Touch
program =
    touch_entry (entry_of key_1)
    ∷ touch_entry (entry_of key_2)
    ∷ touch_entry (entry_of key_3)
    ∷ touch_entry (entry_of key_4)
    ∷ touch_entry (entry_of key_1)
    ∷ touch_removed key_3
    ∷ touch_evicted
    ∷ []

touches-IsLinked_example : IsLinked (touches empty_linked program)
touches-IsLinked_example = touches-IsLinked program

-- What the pointers are: `recent`, the two behind it, and back from `oldest`.
abbrev pointers : Links → List (Option Key)
pointers s =
    s.recent ∷ s.next key_1 ∷ s.next key_4 ∷ s.oldest ∷ s.previous key_4 ∷ s.previous key_1 ∷ []

pointers_run :
    pointers (touches empty_linked program).links
    ≡ some key_1 ∷ some key_4 ∷ none ∷ some key_4 ∷ some key_1 ∷ none ∷ []
unfolding key_eq find unlink oldest mark_recent_locked remove_links mark_recent_links
pointers_run = refl
