-- ===== src/Snapshot/Contents.antt =====
-- What the entries of a snapshot make of a store that loads them one by one.
use go.Prelude.{◌≡◌, refl, ap, ◌∙◌, arith, subst, ite}
use go.Prelude.{List, [], ◌∷◌, Option, none, some}
use go.Shard.{Shard, Key, Entry, new_entry, key_eq, find}
use go.Shard.Recency.{Distinct}
use go.Store.{Store, shard_index, set_recovered}
use go.Store.Peek.{
  peek, IsReady, set_recovered-IsReady, peek-set_recovered, SameRouting, with_shard-SameRouting,
}
use go.Segment.{in_recovery}
use go.Snapshot.{}
use go.Snapshot.Loaded.{load_one, load_all}

-- The last of the entries of a key, if there is one.
unfoldable pub latest : Key → List Entry → Option Entry → Option Entry
latest q [] before = before
latest q (e ∷ entries) before = latest q entries (ite (key_eq e.key q) (some e) before)

latest-find :
    (q : Key) (entries : List Entry) (before : Option Entry)
    → find q entries ≡ none
    → latest q entries before ≡ before
unfolding latest find
latest-find q [] before h = refl
latest-find q (e ∷ entries) before h = elim (key_eq e.key q) [
  | yes same ↦ ground arith
  | no other ↦ let later = latest-find q entries before in ground (arith, later)
]

pub latest-Distinct :
    (q : Key) (entries : List Entry) → Distinct entries → latest q entries none ≡ find q entries
unfolding latest find
latest-Distinct q [] d = refl
latest-Distinct q (e ∷ entries) (new, d) = elim (key_eq e.key q) [
  | yes same ↦
      let absent = subst (λ k. find k entries ≡ none) same new in
      ground (arith, latest-find q entries (some e) absent)
  | no other ↦ ground (arith, latest-Distinct q entries d)
]

load_one-IsReady : (store : Store) (e : Entry) → IsReady store → IsReady (load_one store e)
unfolding load_one
load_one-IsReady store e r =
    ground (arith, set_recovered-IsReady store e.key e.value e.deadline e.sequence r)

load_one-SameRouting : (store : Store) (e : Entry) → SameRouting store (load_one store e)
unfolding load_one set_recovered
load_one-SameRouting store e =
    let s =
      with_shard-SameRouting store (shard_index store e.key)
        (λ l. go.Shard.Operations.apply_recovered_set l e.key e.value e.deadline e.sequence) in
    record {
      same_mask = ground (arith, s.same_mask);
      same_recovery = ground (arith, s.same_recovery);
    }

pub load_all-SameRouting :
    (store : Store) (entries : List Entry) → SameRouting store (load_all store entries)
unfolding load_all
load_all-SameRouting store [] = record { same_mask = refl; same_recovery = refl }
load_all-SameRouting store (e ∷ entries) =
    let one = load_one-SameRouting store e in
    let all = load_all-SameRouting (load_one store e) entries in
    record {
      same_mask = all.same_mask ∙ one.same_mask;
      same_recovery = all.same_recovery ∙ one.same_recovery;
    }

peek-load_one :
    (store : Store) (e : Entry) (q : Key)
    → IsReady store
    → store.recovery_shard ≡ none
    → peek (load_one store e) q ≡ ite (key_eq e.key q) (some e) (peek store q)
unfolding load_one in_recovery
peek-load_one store e q r h =
    ground (arith, h, peek-set_recovered store e.key e.value e.deadline e.sequence q r)

pub peek-load_all :
    (store : Store) (entries : List Entry) (q : Key)
    → IsReady store
    → store.recovery_shard ≡ none
    → peek (load_all store entries) q ≡ latest q entries (peek store q)
unfolding load_all latest
peek-load_all store [] q r h = refl
peek-load_all store (e ∷ entries) q r h =
    peek-load_all (load_one store e) entries q (load_one-IsReady store e r)
      ((load_one-SameRouting store e).same_recovery ∙ h)
    ∙ ap (latest q entries) (peek-load_one store e q r h)

pub load_all-IsReady :
    (store : Store) (entries : List Entry) → IsReady store → IsReady (load_all store entries)
unfolding load_all
load_all-IsReady store [] r = r
load_all-IsReady store (e ∷ entries) r =
    load_all-IsReady (load_one store e) entries (load_one-IsReady store e r)
