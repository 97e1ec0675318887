-- ===== src/Shard/Recency.antt =====
-- Facts about the recency list: `find`, `unlink` and `oldest` on a list where no key stands twice.
use go.Prelude.{ℕ, ◌+◌, ◌≡◌, ◌≢◌, refl, sym, subst, ite, if_pos, if_neg, arith}
use go.Prelude.{List, [], ◌∷◌, ◌++◌, none, some, length}
use go.Shard.{Key, Entry, key_eq, entry_size, find, unlink, oldest, mark_recent_locked}

abbrev pub Distinct : List Entry → Type 0
Distinct [] = Unit
Distinct (e ∷ l) = (find e.key l ≡ none) × Distinct l

abbrev pub total_size : List Entry → ℕ
total_size [] = 0
total_size (e ∷ l) = entry_size e + total_size l

pub key-find : (key : Key) (l : List Entry) (e : Entry) → find key l ≡ some e → e.key ≡ key
unfolding find
key-find key [] e h = cc
key-find key (x ∷ l) e h = ground (arith, key-find key l e)

-- A found entry is found by its own key.
pub find-key-find :
    (key : Key) (l : List Entry) (e : Entry) → find key l ≡ some e → find e.key l ≡ some e
find-key-find key l e h = subst (λ q. find q l ≡ some e) (sym (key-find key l e h)) h

pub find-unlink_ne : (key q : Key) (l : List Entry) → q ≢ key → find q (unlink key l) ≡ find q l
unfolding find unlink
find-unlink_ne key q [] h = refl
find-unlink_ne key q (x ∷ l) h = ground (arith, find-unlink_ne key q l)

pub find-unlink_self : (key : Key) (l : List Entry) → Distinct l → find key (unlink key l) ≡ none
unfolding find unlink
find-unlink_self key [] h = refl
find-unlink_self key (x ∷ l) (hx, h) = ground (arith, find-unlink_self key l h)

-- An absent key stays absent when another entry goes.
pub find-unlink_absent :
    (key q : Key) (l : List Entry) → find q l ≡ none → find q (unlink key l) ≡ none
unfolding find unlink
find-unlink_absent key q [] h = refl
find-unlink_absent key q (x ∷ l) h = ground (arith, find-unlink_absent key q l)

pub Distinct-unlink : (key : Key) (l : List Entry) → Distinct l → Distinct (unlink key l)
unfolding unlink
Distinct-unlink key [] h = tt
Distinct-unlink key (x ∷ l) (hx, h) =
    ground (arith, Distinct-unlink key l h, find-unlink_absent key x.key l hx)

pub unlink_absent : (key : Key) (l : List Entry) → find key l ≡ none → unlink key l ≡ l
unfolding find unlink
unlink_absent key [] h = refl
unlink_absent key (x ∷ l) h = ground (arith, unlink_absent key l)

pub total_size-unlink :
    (key : Key) (l : List Entry) (e : Entry)
    → find key l ≡ some e
    → total_size (unlink key l) + entry_size e ≡ total_size l
unfolding find unlink
total_size-unlink key [] e h = cc
total_size-unlink key (x ∷ l) e h = ground (arith, total_size-unlink key l e)

pub length-unlink :
    (key : Key) (l : List Entry) (e : Entry)
    → find key l ≡ some e
    → length (unlink key l) + 1 ≡ length l
unfolding find unlink
length-unlink key [] e h = cc
length-unlink key (x ∷ l) e h = ground (arith, length-unlink key l e)

pub find-oldest :
    (l : List Entry) (e : Entry) → Distinct l → oldest l ≡ some e → find e.key l ≡ some e
unfolding find oldest
find-oldest [] e d h = cc
find-oldest (x ∷ []) e d h = ground arith
find-oldest (x ∷ y ∷ l) e (dx, d) h = ground (arith, find-oldest (y ∷ l) e d h)

pub oldest-ne-none : (x : Entry) (l : List Entry) → (e : Entry) × (oldest (x ∷ l) ≡ some e)
unfolding oldest
oldest-ne-none x [] = (x, refl)
oldest-ne-none x (y ∷ l) = oldest-ne-none y l

-- To remove the oldest entry is to cut the end of the list.
pub unlink-oldest :
    (l : List Entry) (e : Entry) → Distinct l → oldest l ≡ some e → unlink e.key l ++ e ∷ [] ≡ l
unfolding unlink oldest
unlink-oldest [] e d h = cc
unlink-oldest (x ∷ []) e d h = ground arith
unlink-oldest (x ∷ y ∷ l) e (dx, d) h =
    ground (arith, unlink-oldest (y ∷ l) e d h, find-oldest (y ∷ l) e d h)

pub Distinct-mark_recent_locked :
    (e : Entry) (l : List Entry) → Distinct l → Distinct (mark_recent_locked e l)
unfolding mark_recent_locked
Distinct-mark_recent_locked e l d = (find-unlink_self e.key l d, Distinct-unlink e.key l d)

pub find-mark_recent_self :
    (e : Entry) (l : List Entry) → find e.key (mark_recent_locked e l) ≡ some e
unfolding find mark_recent_locked
find-mark_recent_self e l = ground arith

pub find-mark_recent_ne :
    (e : Entry) (q : Key) (l : List Entry) → q ≢ e.key → find q (mark_recent_locked e l) ≡ find q l
unfolding find mark_recent_locked
find-mark_recent_ne e q l h = ground (arith, find-unlink_ne e.key q l h)

pub find-unlink :
    (key q : Key) (l : List Entry)
    → Distinct l
    → find q (unlink key l) ≡ ite (key_eq key q) none (find q l)
find-unlink key q l d = elim (key_eq key q) [
  | yes p ↦ rw (if_pos _ p, ← p) (find-unlink_self key l d)
  | no p ↦ rw (if_neg _ p) (find-unlink_ne key q l (λ e. p (sym e)))
]

pub find-mark_recent :
    (e : Entry) (q : Key) (l : List Entry)
    → find q (mark_recent_locked e l) ≡ ite (key_eq e.key q) (some e) (find q l)
unfolding find mark_recent_locked
find-mark_recent e q l = ground (arith, find-unlink_ne e.key q l)
