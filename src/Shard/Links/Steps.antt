-- ===== src/Shard/Links/Steps.antt =====
-- Sequences of the updates of the pointers, as the operations of a shard call them.
use go.Prelude.{◌≡◌, refl, subst, sym, ◌∙◌, inl, inr, if_neg}
use go.Prelude.{List, [], ◌∷◌, Option, none, some}
use go.Shard.{Key, Entry, key_eq, find, unlink, oldest, mark_recent_locked}
use go.Shard.Recency.{find-oldest, Distinct, Distinct-unlink, Distinct-mark_recent_locked}
use go.Shard.Links.{Links, put, remove_links, mark_recent_links}
use go.Shard.Links.Threads.{Chain, Threads, Has, Chain-at, find-none_head, find-none_tail}
use go.Shard.Links.Updates.{
  remove_links-Threads, unlink-absent, mark_recent_links-Threads, put-same, put-other,
}

-- An entry that is set or read, the entry of a key that is removed, and the oldest one that is evicted.
pub data Touch : Type 0 where
  touch_entry : Entry → Touch
  touch_removed : Key → Touch
  touch_evicted : Touch

-- The pointers beside the list; the map `entries` finds a key in the list.
pub record Linked : Type 0 where
  pub links : Links
  pub recency : List Entry

-- `&entry{key: key}`: the pointers of a new entry are nil.
abbrev pub new_links : Links → Key → Option Entry → Links
new_links s key none = record s { next = put s.next key none; previous = put s.previous key none }
new_links s key (some e) = s

abbrev pub removed_links : Links → Key → Option Entry → Links
removed_links s key none = s
removed_links s key (some e) = remove_links s key

abbrev pub evicted_links : Links → Option Key → Links
evicted_links s none = s
evicted_links s (some key) = remove_links s key

abbrev pub evicted : List Entry → Option Entry → List Entry
evicted l none = l
evicted l (some e) = unlink e.key l

abbrev pub touch : Linked → Touch → Linked
touch s (touch_entry e) = record {
  links = mark_recent_links (new_links s.links e.key (find e.key s.recency)) e.key;
  recency = mark_recent_locked e s.recency;
}
touch s (touch_removed key) = record {
  links = removed_links s.links key (find key s.recency);
  recency = unlink key s.recency;
}
touch s touch_evicted = record {
  links = evicted_links s.links s.links.oldest;
  recency = evicted s.recency (oldest s.recency);
}

abbrev pub touches : Linked → List Touch → Linked
touches s [] = s
touches s (t ∷ ts) = touches (touch s t) ts

abbrev pub empty_linked : Linked
empty_linked = record {
  links = record { recent = none; oldest = none; next = λ _. none; previous = λ _. none };
  recency = [];
}

find-some-Has : (k : Key) (l : List Entry) (e : Entry) → find k l ≡ some e → Has k l
unfolding find
find-some-Has k [] e h = cc
find-some-Has k (x ∷ l) e h = elim (key_eq x.key k) [
  | yes same ↦ inl same
  | no ne ↦ inr (find-some-Has k l e (sym (if_neg (key_eq x.key k) ne (some x) (find k l)) ∙ h))
]

Chain-new_links :
    (s : Links) (k : Key) (at prev : Option Key) (l : List Entry)
    → Chain s at prev l
    → find k l ≡ none
    → Chain (new_links s k none) at prev l
Chain-new_links s k at prev [] c h = c
Chain-new_links s k at prev (x ∷ l) (here, back, c) h =
    let ne = find-none_head s s k x l h in
    (
      here,
      put-other s.previous k none x.key ne ∙ back,
      Chain-at s (new_links s k none) k l (sym (put-other s.next k none x.key ne)) refl
          (Chain-new_links s k (s.next x.key) (some x.key) l c (find-none_tail s s k x l h)),
    )

abbrev key_of : Option Entry → Option Key
key_of none = none
key_of (some e) = some e.key

abbrev last_key : Option Key → List Entry → Option Key
last_key prev [] = prev
last_key prev (x ∷ l) = last_key (some x.key) l

Chain-last_key :
    (s : Links) (at prev : Option Key) (l : List Entry)
    → Chain s at prev l
    → s.oldest ≡ last_key prev l
Chain-last_key s at prev [] (end, last) = last
Chain-last_key s at prev (x ∷ l) (here, back, c) = Chain-last_key s (s.next x.key) (some x.key) l c

last_key-oldest : (l : List Entry) → last_key none l ≡ key_of (oldest l)
unfolding oldest
last_key-oldest [] = refl
last_key-oldest (x ∷ []) = refl
last_key-oldest (x ∷ y ∷ l) = last_key-oldest (y ∷ l)

new_links-Threads :
    (s : Links) (l : List Entry) (e : Entry) (held : Option Entry)
    → find e.key l ≡ held
    → Threads s l
    → Distinct l
    → Threads (mark_recent_links (new_links s e.key held) e.key) (mark_recent_locked e l)
new_links-Threads s l e none h c d =
    let fresh = new_links s e.key none in
    mark_recent_links-Threads fresh l e (Chain-new_links s e.key s.recent none l c h) d
      (inr (h, put-same s.previous e.key none e.key refl, put-same s.next e.key none e.key refl))
new_links-Threads s l e (some x) h c d =
    mark_recent_links-Threads s l e c d (inl (find-some-Has e.key l x h))

removed_links-Threads :
    (s : Links) (l : List Entry) (key : Key) (held : Option Entry)
    → find key l ≡ held
    → Threads s l
    → Distinct l
    → Threads (removed_links s key held) (unlink key l)
removed_links-Threads s l key none h c d = subst (Threads s) (sym (unlink-absent key l h)) c
removed_links-Threads s l key (some x) h c d =
    remove_links-Threads s key l c (find-some-Has key l x h) d

evicted_links-Threads :
    (s : Links) (l : List Entry) (last : Option Entry)
    → oldest l ≡ last
    → Threads s l
    → Distinct l
    → Threads (evicted_links s (key_of last)) (evicted l last)
evicted_links-Threads s l none h c d = c
evicted_links-Threads s l (some e) h c d =
    remove_links-Threads s e.key l c (find-some-Has e.key l e (find-oldest l e d h)) d

-- The pointers thread the list, in which no key stands twice.
abbrev pub IsLinked : Linked → Type 0
IsLinked s = Threads s.links s.recency × Distinct s.recency

touch-IsLinked : (s : Linked) (t : Touch) → IsLinked s → IsLinked (touch s t)
touch-IsLinked s (touch_entry e) (c, d) = (
  new_links-Threads s.links s.recency e (find e.key s.recency) refl c d,
  Distinct-mark_recent_locked e s.recency d,
)
touch-IsLinked s (touch_removed key) (c, d) = (
  removed_links-Threads s.links s.recency key (find key s.recency) refl c d,
  Distinct-unlink key s.recency d,
)
touch-IsLinked s touch_evicted (c, d) =
    let last = Chain-last_key s.links s.links.recent none s.recency c ∙ last_key-oldest s.recency in
    (
      subst (λ o. Threads (evicted_links s.links o) (evicted s.recency (oldest s.recency)))
          (sym last) (evicted_links-Threads s.links s.recency (oldest s.recency) refl c d),
      Distinct-evicted s.recency (oldest s.recency) d,
    )
  where
    Distinct-evicted : (l : List Entry) (o : Option Entry) → Distinct l → Distinct (evicted l o)
    Distinct-evicted l none h = h
    Distinct-evicted l (some e) h = Distinct-unlink e.key l h

-- Whatever entries of a new shard are set, read, removed or evicted, in whatever order, markRecentLocked
-- and removeEntryLocked keep its pointers in step with the recency list of the model: `next` leads
-- from `recent` through exactly the entries of the list, in its order, `previous` leads back, and
-- `oldest` is the last one. A new entry comes with nil pointers, and no key stands twice.
pub touches-IsLinked : (ts : List Touch) → IsLinked (touches empty_linked ts)
touches-IsLinked ts = from empty_linked ts ((refl, refl), tt)
  where
    from : (s : Linked) (ts : List Touch) → IsLinked s → IsLinked (touches s ts)
    from s [] h = h
    from s (t ∷ ts) h = from (touch s t) ts (touch-IsLinked s t h)
