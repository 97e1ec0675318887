-- ===== src/Shard/Links/Threads.antt =====
-- The list that the pointers thread, and that the updates of the pointers change it as the list
-- operations of the model do.
use go.Prelude.{
  ◌≡◌, ◌≢◌, ap, if_neg, if_pos, refl, subst, sym, ◌∙◌, arith, ite, ◌⊎◌, inl, inr, ◌↔◌, true,
}
use go.Prelude.{List, [], ◌∷◌, Option, none, some}
use go.Shard.{Key, Entry, key_eq, find, unlink}
use go.Shard.Recency.{Distinct}
use go.Shard.Links.{Links, is}

-- From the pointer `at` on, whose entry has `prev` before it, the pointers thread exactly the entries of
-- the list, in both directions, and `oldest` is the last one.
abbrev pub Chain : Links → Option Key → Option Key → List Entry → Type 0
Chain s at prev [] = (at ≡ none) × (s.oldest ≡ prev)
Chain s at prev (e ∷ l) =
    (at ≡ some e.key) × (s.previous e.key ≡ prev) × Chain s (s.next e.key) (some e.key) l

abbrev pub Threads : Links → List Entry → Type 0
Threads s l = Chain s s.recent none l

abbrev pub past : Key → Option Key → Option Key → Option Key
past k v none = none
past k v (some q) = ite (key_eq q k) v (some q)

abbrev pub Has : Key → List Entry → Type 0
Has k [] = ⊥
Has k (e ∷ l) = (e.key ≡ k) ⊎ Has k l

-- Pointers that go past an entry where the old ones went to it.
pub record Passed (s t : Links) (k : Key) (l : List Entry) : Type 0 where
  pub next : (q : Key) → Has q l → q ≢ k → t.next q ≡ past k (s.next k) (s.next q)
  pub previous : (q : Key) → Has q l → q ≢ k → t.previous q ≡ past k (s.previous k) (s.previous q)
  pub oldest : t.oldest ≡ past k (s.previous k) s.oldest

pub some_key_inj : (a b : Key) → some a ≡ some b → a ≡ b
some_key_inj a b e = ap (λ o. elim o [ none ↦ a | some x ↦ x ]) e

pub is_iff : (p : Option Key) (k : Key) → (is p k ≡ true) ↔ (p ≡ some k)
is_iff none k = (λ e. cc, λ e. cc)
is_iff (some q) k = (λ e. ground (arith, e), λ e. ground (arith, some_key_inj q k e))

module _ (s : Links) (k : Key) where
  pub next-previous :
      (at prev : Option Key) (l : List Entry) (q : Key)
      → Chain s at prev l
      → Has q l
      → s.next q ≡ some k
      → s.previous k ≡ some q
  next-previous at prev [] q c h e = absurd h
  next-previous at prev (x ∷ []) q (here, back, c) (inl same) e =
      let to : s.next q ≡ none = ap s.next (sym same) ∙ c.0 in cc
  next-previous at prev (x ∷ y ∷ l) q (here, back, c) (inl same) e =
      let to : s.next q ≡ some y.key = ap s.next (sym same) ∙ c.0 in
      let key : y.key ≡ k = some_key_inj y.key k (sym to ∙ e) in
      ap s.previous (sym key) ∙ c.1 ∙ ap (λ n. some n) same
  next-previous at prev (x ∷ l) q (here, back, c) (inr h) e =
      next-previous (s.next x.key) (some x.key) l q c h e

  pub previous-next :
      (at prev : Option Key) (l : List Entry) (q : Key)
      → Chain s at prev l
      → Has k l
      → (prev ≡ some q → s.next q ≡ at)
      → s.previous k ≡ some q
      → s.next q ≡ some k
  previous-next at prev [] q c h link e = absurd h
  previous-next at prev (x ∷ l) q (here, back, c) (inl same) link e =
      link (sym back ∙ ap s.previous same ∙ e) ∙ here ∙ ap (λ n. some n) same
  previous-next at prev (x ∷ l) q (here, back, c) (inr h) link e =
      previous-next (s.next x.key) (some x.key) l q c h
        (λ p. ap s.next (sym (some_key_inj x.key q p))) e

  pub previous-recent :
      (at prev : Option Key) (l : List Entry)
      → Chain s at prev l
      → Has k l
      → s.previous k ≡ none
      → (prev ≡ none) × (at ≡ some k)
  previous-recent at prev [] c h e = absurd h
  previous-recent at prev (x ∷ l) (here, back, c) (inl same) e =
      (sym back ∙ ap s.previous same ∙ e, here ∙ ap (λ n. some n) same)
  previous-recent at prev (x ∷ l) (here, back, c) (inr h) e =
      let clash = (previous-recent (s.next x.key) (some x.key) l c h e).0 in cc

  pub oldest-next :
      (at prev : Option Key) (l : List Entry)
      → Chain s at prev l
      → (prev ≡ some k → s.next k ≡ at)
      → s.oldest ≡ some k
      → s.next k ≡ none
  oldest-next at prev [] (end, last) link e = link (sym last ∙ e) ∙ end
  oldest-next at prev (x ∷ l) (here, back, c) link e =
      oldest-next (s.next x.key) (some x.key) l c (λ p. ap s.next (sym (some_key_inj x.key k p))) e

  pub oldest-Has :
      (at prev : Option Key) (l : List Entry)
      → Chain s at prev l
      → s.oldest ≡ some k
      → Has k l ⊎ (prev ≡ some k)
  oldest-Has at prev [] (end, last) e = inr (sym last ∙ e)
  oldest-Has at prev (x ∷ l) (here, back, c) e =
      elim (oldest-Has (s.next x.key) (some x.key) l c e) [
        | inl h ↦ inl (inr h)
        | inr p ↦ inl (inl (some_key_inj x.key k p))
      ]

  pub next-oldest :
      (at prev : Option Key) (l : List Entry)
      → Chain s at prev l
      → Has k l
      → s.next k ≡ none
      → s.oldest ≡ some k
  next-oldest at prev [] c h e = absurd h
  next-oldest at prev (x ∷ []) (here, back, c) (inl same) e = c.1 ∙ ap (λ n. some n) same
  next-oldest at prev (x ∷ y ∷ l) (here, back, c) (inl same) e =
      let to : s.next k ≡ some y.key = ap s.next (sym same) ∙ c.0 in cc
  next-oldest at prev (x ∷ l) (here, back, c) (inr h) e =
      next-oldest (s.next x.key) (some x.key) l c h e

pub past-same : (k : Key) (v p : Option Key) → p ≡ some k → past k v p ≡ v
past-same k v p e = rw e (ground arith)

pub past-other : (k : Key) (v p : Option Key) → ¬ (p ≡ some k) → past k v p ≡ p
past-other k v none h = refl
past-other k v (some q) h = if_neg (key_eq q k) (λ e. h (ap (λ n. some n) e)) v (some q)

pub past-twice : (k : Key) (v p : Option Key) → (p ≡ some k → p ≡ v) → past k v p ≡ p
past-twice k v none h = refl
past-twice k v (some q) h = elim (key_eq q k) [
  | yes e ↦ past-same k v (some q) (ap (λ n. some n) e) ∙ sym (h (ap (λ n. some n) e))
  | no ne ↦ if_neg (key_eq q k) ne v (some q)
]

module _ (s t : Links) (k : Key) where
  Passed-tail : (x : Entry) (l : List Entry) → Passed s t k (x ∷ l) → Passed s t k l
  Passed-tail x l p = record {
    next = λ q h. p.next q (inr h);
    previous = λ q h. p.previous q (inr h);
    oldest = p.oldest;
  }

  pub Chain-at :
      {at at' prev prev' : Option Key} (l : List Entry)
      → at ≡ at'
      → prev ≡ prev'
      → Chain t at prev l
      → Chain t at' prev' l
  Chain-at {at = x} {prev' = y} l a p c =
      subst (λ o. Chain t o y l) a (subst (λ o. Chain t x o l) p c)

  pub find-none_head : (x : Entry) (l : List Entry) → find k (x ∷ l) ≡ none → x.key ≢ k
  unfolding find
  find-none_head x l h e = ground (arith, h, e)

  pub find-none_tail : (x : Entry) (l : List Entry) → find k (x ∷ l) ≡ none → find k l ≡ none
  unfolding find
  find-none_tail x l h = ground (arith, h)

  -- Behind an entry with another key.
  Chain-cons :
      (at prev : Option Key) (x : Entry) (l : List Entry)
      → at ≡ some x.key
      → s.previous x.key ≡ prev
      → Passed s t k (x ∷ l)
      → x.key ≢ k
      → (l' : List Entry)
      → Chain t (past k (s.next k) (s.next x.key)) (past k (s.previous k) (some x.key)) l'
      → Chain t (past k (s.next k) at) (past k (s.previous k) prev) (x ∷ l')
  Chain-cons at prev x l here back p ne l' c = (
    ap (past k (s.next k)) here ∙ if_neg (key_eq x.key k) ne (s.next k) (some x.key),
    p.previous x.key (inl refl) ne ∙ ap (past k (s.previous k)) back,
    Chain-at l' (sym (p.next x.key (inl refl) ne))
        (if_neg (key_eq x.key k) ne (s.previous k) (some x.key)) c,
  )

  Chain-absent :
      (at prev : Option Key) (l : List Entry)
      → Chain s at prev l
      → Passed s t k l
      → find k l ≡ none
      → Chain t (past k (s.next k) at) (past k (s.previous k) prev) l
  Chain-absent at prev [] (end, last) p h =
      (ap (past k (s.next k)) end, p.oldest ∙ ap (past k (s.previous k)) last)
  Chain-absent at prev (x ∷ l) (here, back, c) p h =
      Chain-cons at prev x l here back p (find-none_head x l h) l
        (Chain-absent (s.next x.key) (some x.key) l c (Passed-tail x l p) (find-none_tail x l h))

  pub Chain-unlink :
      (at prev : Option Key) (l : List Entry)
      → Distinct l
      → Chain s at prev l
      → Passed s t k l
      → Chain t (past k (s.next k) at) (past k (s.previous k) prev) (unlink k l)
  unfolding unlink find
  Chain-unlink at prev [] d c p = Chain-absent at prev [] c p refl
  Chain-unlink at prev (x ∷ l) (new, d) (here, back, c) p = elim (key_eq x.key k) [
    | yes e ↦
        let self : at ≡ some k = here ∙ ap (λ n. some n) e in
        let before : s.previous k ≡ prev = ap s.previous (sym e) ∙ back in
        let absent : find k l ≡ none = subst (λ q. find q l ≡ none) e new in
        let rest = Chain-absent (s.next x.key) (some x.key) l c (Passed-tail x l p) absent in
        subst (λ r. Chain t (past k (s.next k) at) (past k (s.previous k) prev) r)
          (sym (if_pos (key_eq x.key k) e l (x ∷ unlink k l)))
          (Chain-at l
            (ap (past k (s.next k)) (ap s.next e)
              ∙ past-twice k (s.next k) (s.next k) (λ _. refl)
              ∙ sym (past-same k (s.next k) at self))
            (past-same k (s.previous k) (some x.key) (ap (λ n. some n) e)
              ∙ before
              ∙ sym (past-twice k (s.previous k) prev (λ _. sym before)))
            rest)
    | no ne ↦
        subst (λ r. Chain t (past k (s.next k) at) (past k (s.previous k) prev) r)
          (sym (if_neg (key_eq x.key k) ne l (x ∷ unlink k l)))
          (Chain-cons at prev x l here back p ne (unlink k l)
            (Chain-unlink (s.next x.key) (some x.key) l d c (Passed-tail x l p)))
  ]
