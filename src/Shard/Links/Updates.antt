-- ===== src/Shard/Links/Updates.antt =====
-- What markRecentLocked and removeEntryLocked do to the list that the pointers thread.
use go.Prelude.{
  ◌≡◌, ◌≢◌, ap, if_neg, if_pos, refl, subst, sym, ◌∙◌, arith, Bool-cases, ◌⊎◌, inl, inr, true,
  false, if◌then◌else◌,
}
use go.Prelude.{List, [], ◌∷◌, Option, none, some}
use go.Shard.{Key, Entry, key_eq, find, unlink, mark_recent_locked}
use go.Shard.Recency.{Distinct, find-unlink_self}
use go.Shard.Links.{
  Links, put, is, pass_next, pass_previous, remove_next, remove_links, take_out, before_recent,
  put_first, mark_recent_links,
}
use go.Shard.Links.Threads.{
  Chain, Threads, past, Has, Passed, some_key_inj, is_iff, next-previous, previous-next,
  previous-recent, oldest-next, oldest-Has, next-oldest, past-same, past-other, Chain-at,
  find-none_head, find-none_tail, Chain-unlink,
}

pub put-same : (f : Key → Option Key) (p : Key) (v : Option Key) (q : Key) → q ≡ p → put f p v q ≡ v
put-same f p v q e = if_pos (key_eq q p) e v (f q)

pub put-other :
    (f : Key → Option Key) (p : Key) (v : Option Key) (q : Key) → q ≢ p → put f p v q ≡ f q
put-other f p v q ne = if_neg (key_eq q p) ne v (f q)

put-stays : (f : Key → Option Key) (p : Key) (v : Option Key) (q : Key) → f q ≡ v → put f p v q ≡ v
put-stays f p v q h = elim (key_eq q p) [
  | yes e ↦ put-same f p v q e
  | no ne ↦ put-other f p v q ne ∙ h
]

module _ (s : Links) (k : Key) (l : List Entry) (c : Threads s l) where
  recent-previous : s.recent ≡ some k → s.previous k ≡ none
  recent-previous h = head l c
    where
      head : (l' : List Entry) → Chain s s.recent none l' → s.previous k ≡ none
      head [] (end, last) = cc
      head (x ∷ l') (here, back, rest) =
          ap s.previous (sym (some_key_inj x.key k (sym here ∙ h))) ∙ back

  module _ (at_k : Has k l) where
    -- A pointer that is written where the old one went to `k`.
    put-past :
        (f : Key → Option Key) (v : Option Key) (p q : Key)
        → (q ≡ p → f q ≡ some k)
        → (f q ≡ some k → q ≡ p)
        → put f p v q ≡ past k v (f q)
    put-past f v p q to from = elim (key_eq q p) [
      | yes e ↦ put-same f p v q e ∙ sym (past-same k v (f q) (to e))
      | no ne ↦ put-other f p v q ne ∙ sym (past-other k v (f q) (λ h. ne (from h)))
    ]

    pass_next-past :
        (before : Option Key) (q : Key)
        → s.previous k ≡ before
        → Has q l
        → (pass_next s k before).next q ≡ past k (s.next k) (s.next q)
    pass_next-past none q h has = sym (
        past-other k (s.next k) (s.next q)
          (λ e. let clash = sym h ∙ next-previous s k s.recent none l q c has e in cc))
    pass_next-past (some p) q h has =
        put-past s.next (s.next k) p q
          (λ e. previous-next s k s.recent none l q c at_k (λ n. cc) (h ∙ ap (λ n. some n) (sym e)))
          (λ e. some_key_inj q p (sym (next-previous s k s.recent none l q c has e) ∙ h))

    -- The second step, behind one that has changed `next` only.
    pass_previous-Passed :
        (t : Links)
        → ((q : Key) → Has q l → t.next q ≡ past k (s.next k) (s.next q))
        → t.previous ≡ s.previous
        → t.oldest ≡ s.oldest
        → (otherwise : Links) → otherwise.next ≡ t.next
        → otherwise.previous ≡ t.previous
        → (s.next k ≡ none → otherwise.oldest ≡ s.previous k)
        → (after : Option Key) → s.next k ≡ after
        → Passed s (pass_previous t k after otherwise) k l
    pass_previous-Passed t n p o otherwise n' p' o' none h = record {
      next = λ q has ne. ap (λ f. f q) n' ∙ n q has;
      previous = λ q has ne.
          ap (λ f. f q) (p' ∙ p)
          ∙ sym (
              past-other k (s.previous k) (s.previous q) (λ e.
                let clash = sym h ∙ previous-next s q s.recent none l k c has (λ z. cc) e in cc));
      oldest =
          o' h
          ∙ sym (past-same k (s.previous k) s.oldest (next-oldest s k s.recent none l c at_k h));
    }
    pass_previous-Passed t n p o otherwise n' p' o' (some x) h = record {
      next = λ q has ne. n q has;
      previous = λ q has ne.
          ap (λ f. put f x (f k) q) p
          ∙ put-past s.previous (s.previous k) x q
              (λ e. next-previous s q s.recent none l k c at_k (h ∙ ap (λ n. some n) (sym e)))
              (λ e.
                some_key_inj q x (sym (previous-next s q s.recent none l k c has (λ z. cc) e) ∙ h));
      oldest =
          o
          ∙ sym (
              past-other k (s.previous k) s.oldest
                (λ e. let clash = sym h ∙ oldest-next s k s.recent none l c (λ z. cc) e in cc));
    }

    remove_next-past :
        (before : Option Key)
        → s.previous k ≡ before
        → let t = remove_next s k before in
          ((q : Key) → Has q l → t.next q ≡ past k (s.next k) (s.next q))
          × (t.previous ≡ s.previous)
          × (t.oldest ≡ s.oldest)
          × (t.next k ≡ s.next k)
          × (t.recent ≡ past k (s.next k) s.recent)
    remove_next-past none h = (
      λ q has. pass_next-past none q h has,
      refl,
      refl,
      refl,
      sym (past-same k (s.next k) s.recent (previous-recent s k s.recent none l c at_k h).1),
    )
    remove_next-past (some p) h = (
      λ q has. pass_next-past (some p) q h has,
      refl,
      refl,
      put-stays s.next p (s.next k) k refl,
      sym (past-other k (s.next k) s.recent (λ e. let clash = sym h ∙ recent-previous e in cc)),
    )

    take_next-past :
        (before : Option Key)
        → s.previous k ≡ before
        → let t = pass_next s k before in
          (t.previous ≡ s.previous)
          × (t.oldest ≡ s.oldest)
          × (t.next k ≡ s.next k)
          × (t.recent ≡ s.recent)
    take_next-past none h = (refl, refl, refl, refl)
    take_next-past (some p) h = (refl, refl, put-stays s.next p (s.next k) k refl, refl)

    pass_previous-recent :
        (t otherwise : Links) (after : Option Key)
        → otherwise.recent ≡ t.recent
        → (pass_previous t k after otherwise).recent ≡ t.recent
    pass_previous-recent t otherwise none h = h
    pass_previous-recent t otherwise (some n) h = refl

    pub remove_links-Threads : Distinct l → Threads (remove_links s k) (unlink k l)
    unfolding remove_links
    remove_links-Threads d =
        let t = remove_next s k (s.previous k) in
        let (n, p, o, own, r) = remove_next-past (s.previous k) refl in
        let out : Links = record t { oldest = t.previous k } in
        let passed =
          pass_previous-Passed t n p o out refl refl (λ _. ap (λ f. f k) p) (t.next k) (sym own) in
        Chain-at s (remove_links s k) k (unlink k l)
          (sym (pass_previous-recent t out (t.next k) refl ∙ r)) refl
          (Chain-unlink s (remove_links s k) k s.recent none l d c passed)

    take_out-Threads : ¬ (s.recent ≡ some k) → Distinct l → Threads (take_out s k) (unlink k l)
    take_out-Threads other d =
        let t = pass_next s k (s.previous k) in
        let (p, o, own, r) = take_next-past (s.previous k) refl in
        let shortened : Links = record t { oldest = t.previous k } in
        let out : Links = if is t.oldest k then shortened else t in
        let last : s.next k ≡ none → is t.oldest k ≡ true =
          λ e. (is_iff t.oldest k).1 (o ∙ next-oldest s k s.recent none l c at_k e) in
        let passed =
          pass_previous-Passed t (λ q has. pass_next-past (s.previous k) q refl has) p o out
            (ground arith) (ground arith) (λ e. rw (last e) (ap (λ f. f k) p)) (t.next k)
            (sym own) in
        Chain-at s (take_out s k) k (unlink k l)
          (past-other k (s.next k) s.recent other
            ∙ sym (pass_previous-recent t out (t.next k) (ground arith) ∙ r))
          refl (Chain-unlink s (take_out s k) k s.recent none l d c passed)

-- What stands behind the first entry does not see that another one is put before it.
Chain-behind :
    (s t : Links) (k : Key) (l : List Entry) (at : Option Key) (p : Key)
    → Chain s at (some p) l
    → find k l ≡ none
    → ((q : Key) → q ≢ k → t.next q ≡ s.next q)
    → ((q : Key) → q ≢ k → ¬ (s.previous q ≡ none) → t.previous q ≡ s.previous q)
    → t.oldest ≡ s.oldest
    → Chain t at (some p) l
Chain-behind s t k [] at p (end, last) absent n b o = (end, o ∙ last)
Chain-behind s t k (x ∷ l) at p (here, back, c) absent n b o =
    let ne = find-none_head s t k x l absent in
    (
      here,
      b x.key ne (λ e. cc) ∙ back,
      Chain-at s t k l (sym (n x.key ne)) refl
          (Chain-behind s t k l (s.next x.key) x.key c (find-none_tail s t k x l absent) n b o),
    )

module _ (s : Links) (e : Entry) where
  abbrev placed : Links
  placed = record s { previous = put s.previous e.key none; next = put s.next e.key s.recent }

  abbrev first_set : Option Key → Links
  first_set first = let u = before_recent placed e.key first in record u { recent = some e.key }

  own-next : put s.next e.key s.recent e.key ≡ s.recent
  own-next = put-same s.next e.key s.recent e.key refl

  own-previous : put s.previous e.key none e.key ≡ none
  own-previous = put-same s.previous e.key none e.key refl

  first_set-Chain :
      (l : List Entry) (first : Option Key)
      → s.recent ≡ first
      → Threads s l
      → find e.key l ≡ none
      → Chain (first_set first) (some e.key) none (e ∷ l)
  first_set-Chain [] none h (end, last) absent = (refl, own-previous, (own-next ∙ end, refl))
  first_set-Chain [] (some r) h (end, last) absent = cc
  first_set-Chain (x ∷ l) none h (here, back, c) absent = cc
  first_set-Chain (x ∷ l) (some r) h (here, back, c) absent =
      let ne = find-none_head s s e.key x l absent in
      let same : x.key ≡ r = some_key_inj x.key r (sym here ∙ h) in
      (
        refl,
        put-other (put s.previous e.key none) r (some e.key) e.key (λ er. ne (same ∙ sym er))
            ∙ own-previous,
        (
          own-next ∙ here,
          put-same (put s.previous e.key none) r (some e.key) x.key same,
          Chain-at s (first_set (some r)) e.key l (sym (put-other s.next e.key s.recent x.key ne))
              refl
              (Chain-behind s (first_set (some r)) e.key l (s.next x.key) x.key c
                (find-none_tail s s e.key x l absent) (λ q nq. put-other s.next e.key s.recent q nq)
                (λ q nq some_before.
                  put-other (put s.previous e.key none) r (some e.key) q
                    (λ qr. some_before (ap s.previous (qr ∙ sym same) ∙ back))
                  ∙ put-other s.previous e.key none q nq)
                refl),
        ),
      )

  put_first-Threads :
      (l : List Entry) → Threads s l → find e.key l ≡ none → Threads (put_first s e.key) (e ∷ l)
  put_first-Threads l c absent = first_set-Chain l s.recent refl c absent

find-Has : (k : Key) (l : List Entry) → Has k l → ¬ (find k l ≡ none)
unfolding find
find-Has k [] h e = absurd h
find-Has k (x ∷ l) (inl same) e = ground (arith, same, e)
find-Has k (x ∷ l) (inr h) e = ground (arith, find-Has k l h, e)

pub unlink-absent : (k : Key) (l : List Entry) → find k l ≡ none → unlink k l ≡ l
unfolding find unlink
unlink-absent k [] h = refl
unlink-absent k (x ∷ l) h = ground (arith, h, unlink-absent k l)

-- An entry that is the most recent one already.
Threads-recent :
    (s : Links) (e : Entry) (l : List Entry)
    → s.recent ≡ some e.key
    → Threads s l
    → Threads s (e ∷ unlink e.key l)
unfolding unlink
Threads-recent s e [] h (end, last) = cc
Threads-recent s e (x ∷ l) h (here, back, c) =
    let same : x.key ≡ e.key = some_key_inj x.key e.key (sym here ∙ h) in
    subst (λ r. Threads s (e ∷ r)) (sym (if_pos (key_eq x.key e.key) same l (x ∷ unlink e.key l)))
      (h, ap s.previous (sym same) ∙ back, subst (λ q. Chain s (s.next q) (some q) l) same c)

-- A new entry, whose pointers are nil.
take_out-absent :
    (s : Links) (k : Key) (l : List Entry)
    → Threads s l
    → find k l ≡ none
    → s.previous k ≡ none
    → s.next k ≡ none
    → Threads (take_out s k) (unlink k l)
take_out-absent s k l c absent p n =
    let other : is s.oldest k ≡ false = elim (Bool-cases (is s.oldest k)) [
      | inl last ↦ elim (oldest-Has s k s.recent none l c ((is_iff s.oldest k).0 last)) [
        | inl has ↦ absurd (find-Has k l has absent)
        | inr clash ↦ cc
      ]
      | inr h ↦ h
    ] in
    rw (p, n, other, unlink-absent k l absent) c

mark_recent_links-first : (s : Links) (k : Key) → is s.recent k ≡ true → mark_recent_links s k ≡ s
unfolding mark_recent_links
mark_recent_links-first s k h = rw h refl

mark_recent_links-other :
    (s : Links) (k : Key)
    → is s.recent k ≡ false
    → mark_recent_links s k ≡ put_first (take_out s k) k
unfolding mark_recent_links
mark_recent_links-other s k h = rw h refl

pub mark_recent_links-Threads :
    (s : Links) (l : List Entry) (e : Entry)
    → Threads s l
    → Distinct l
    → Has e.key l ⊎ ((find e.key l ≡ none) × (s.previous e.key ≡ none) × (s.next e.key ≡ none))
    → Threads (mark_recent_links s e.key) (mark_recent_locked e l)
unfolding mark_recent_locked
mark_recent_links-Threads s l e c d entry = elim (Bool-cases (is s.recent e.key)) [
  | inl first ↦
      subst (λ t. Threads t (e ∷ unlink e.key l)) (sym (mark_recent_links-first s e.key first))
        (Threads-recent s e l ((is_iff s.recent e.key).0 first) c)
  | inr other ↦
      let out : Threads (take_out s e.key) (unlink e.key l) = elim entry [
        | inl has ↦
            take_out-Threads s e.key l c has (λ h. let clash = (is_iff s.recent e.key).1 h in cc) d
        | inr new ↦ take_out-absent s e.key l c new.0 new.1 new.2
      ] in
      subst (λ t. Threads t (e ∷ unlink e.key l)) (sym (mark_recent_links-other s e.key other))
        (put_first-Threads (take_out s e.key) e (unlink e.key l) out (find-unlink_self e.key l d))
]
