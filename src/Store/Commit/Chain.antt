-- ===== src/Store/Commit/Chain.antt =====
-- The signed logs: every author's log of a document is numbered from 0 without a gap, each record
-- names the hash of the one before it, and the head is the last.
use community_stack.Common.{
  ℕ, suc, zero, ◌≤◌, ◌≡◌, refl, ap, ◌∙◌, subst, sym, ◌⊎◌, inl, inr, true, List, [], ◌∷◌, ◌++◌,
  Option, none, some, arith, if◌then◌else◌, find, In, In-append_left, In-append_one, In-last,
  Bool-cases, ◌+◌, ◌-◌, find-holds,
}
use mathlib.Core.Path.{subst₂}
use community_stack.Domain.Replication.{Hash}
use community_stack.Failure.{ok}
use community_stack.Ports.{LocalCommit}
use community_stack.Store.Tables.{Operation, Head, LogTables, Database, empty}
use community_stack.Store.Read.{of_log, log_head, head_row}
use community_stack.Store.Commit.{
  follows, set_head, append_record, new_operation, new_head, commit_local,
}
use community_stack.Store.Commit.Shape.{commit-Committed}

-- `p` stands right before `o` in the same log.
pub record Precedes (p o : Operation) : Type 0 where
  pub author : p.author_key ≡ o.author_key
  pub log : p.log_id ≡ o.log_id
  pub next : suc p.sequence ≡ o.sequence
  pub linked : o.backlink ≡ some p.operation_hash

pub record IsHeadOf (h : Head) (o : Operation) : Type 0 where
  pub author : h.author_key ≡ o.author_key
  pub log : h.log_id ≡ o.log_id
  pub place : h.sequence ≡ o.sequence
  pub hash : h.operation_hash ≡ o.operation_hash

pub record IsChained (t : LogTables) : Type 0 where
  pub linked :
      (o : Operation)
      → In o t.operations
      → (o.sequence ≡ 0) ⊎ ((p : Operation) × In p t.operations × Precedes p o)
  pub headed :
      (o : Operation)
      → In o t.operations
      → (h : Head) × (find (of_log o.author_key o.log_id) t.heads ≡ some h)
        × (o.sequence ≤ h.sequence)
  pub signed :
      (author log : Hash) (h : Head)
      → find (of_log author log) t.heads ≡ some h
      → (o : Operation) × In o t.operations × IsHeadOf h o

of_log_iff : (a l : Hash) (h : Head) → of_log a l h ≡ true → (h.author_key ≡ a) × (h.log_id ≡ l)
unfolding of_log
of_log_iff a l h e = ground arith

some_eq : {A : Type 0} {x y : A} → some x ≡ some y → x ≡ y
some_eq e = cc

of_log_self : (h : Head) → of_log h.author_key h.log_id h ≡ true
unfolding of_log
of_log_self h = ground arith

-- The new head answers for its log, and the other logs keep theirs.
find-set_head :
    (a l : Hash) (h : Head) (hs : List Head)
    → find (of_log a l) (set_head h hs) ≡ (if of_log a l h then some h else find (of_log a l) hs)
unfolding find set_head of_log
find-set_head a l h [] = ground arith
find-set_head a l h (x ∷ hs) = ground (arith, find-set_head a l h hs)

pub empty-IsChained : IsChained (empty []).log
unfolding find
empty-IsChained = record {
  linked = λ o m. absurd m;
  headed = λ o m. absurd m;
  signed = λ a l h e. absurd (cc);
}

-- What the head of the log says of the place of the new record.
follows_cases :
    (n : ℕ) (backlink : Option Hash) (o : Option Head)
    → follows n backlink (head_row o) ≡ true
    → ((o ≡ none) × (n ≡ 0))
      ⊎ ((h : Head) × (o ≡ some h) × (n ≡ suc h.sequence) × (backlink ≡ some h.operation_hash))
unfolding follows
follows_cases n backlink none e = inl (refl, ground arith)
follows_cases n backlink (some h) e = inr (h, refl, ground arith, ground arith)

module _ (now : ℕ) (c : LocalCommit) (t : LogTables) (chained : IsChained t)
    (followed : follows c.canonical_record.sequence c.canonical_record.backlink
        (head_row (find (of_log c.canonical_record.author_key c.canonical_record.log_id) t.heads))
      ≡ true) where
  new_linked :
      (new_operation c now).sequence ≡ 0
      ⊎ ((p : Operation) × In p t.operations × Precedes p (new_operation c now))
  new_linked = elim (follows_cases _ _ _ followed) [
    | inl (e, n) ↦ inl n
    | inr (h, e, n, b) ↦
        let (o, m, is) = chained.signed _ _ h e in
        let own = of_log_iff _ _ h (find-holds _ t.heads h e) in
        inr (
          o,
          m,
          record {
            author = sym is.author ∙ own.0;
            log = sym is.log ∙ own.1;
            next = ap suc (sym is.place) ∙ sym n;
            linked = b ∙ ap some is.hash;
          },
        )
  ]

  abbrev Linked : List Operation → Operation → Type 0
  Linked os o = (o.sequence ≡ 0) ⊎ ((p : Operation) × In p os × Precedes p o)

  widen :
      (o : Operation) → Linked t.operations o → Linked (t.operations ++ new_operation c now ∷ []) o
  widen o (inl z) = inl z
  widen o (inr (p, m, q)) = inr (p, In-append_left p t.operations _ m, q)

  append-Linked :
      (o : Operation)
      → In o (t.operations ++ new_operation c now ∷ [])
      → Linked (t.operations ++ new_operation c now ∷ []) o
  append-Linked o m = elim (In-append_one o (new_operation c now) t.operations m) [
    | inl old ↦ widen o (chained.linked o old)
    | inr e ↦ widen o (subst (Linked t.operations) e new_linked)
  ]

  -- A head that the new record replaces is the one that it follows.
  replaced_head :
      (h : Head)
      → find (of_log c.canonical_record.author_key c.canonical_record.log_id) t.heads ≡ some h
      → c.canonical_record.sequence ≡ suc h.sequence
  replaced_head h e = elim (follows_cases _ _ _ followed) [
    | inl (e', n) ↦ absurd (cc)
    | inr (h', e', n, b) ↦ let same : h' ≡ h = cc in n ∙ ap (λ (x : Head). suc x.sequence) same
  ]

  abbrev Headed : List Head → Operation → Type 0
  Headed hs o =
      (h : Head) × (find (of_log o.author_key o.log_id) hs ≡ some h) × (o.sequence ≤ h.sequence)

  kept_head : (o : Operation) → Headed t.heads o → Headed (set_head (new_head c) t.heads) o
  kept_head o (h, e, le) = elim (Bool-cases (of_log o.author_key o.log_id (new_head c))) [
    | inl b ↦
        let own = of_log_iff _ _ (new_head c) b in
        (
          new_head c,
          find-set_head _ _ (new_head c) t.heads ∙ rw b,
          omega (
            arith,
            le,
            replaced_head h
                (subst₂ (λ a l. find (of_log a l) t.heads ≡ some h) (sym own.0) (sym own.1) e),
          ),
        )
    | inr b ↦ (h, find-set_head _ _ (new_head c) t.heads ∙ rw b e, le)
  ]

  new-Headed : Headed (set_head (new_head c) t.heads) (new_operation c now)
  new-Headed = (
    new_head c,
    find-set_head _ _ (new_head c) t.heads ∙ rw (of_log_self (new_head c)),
    omega arith,
  )

  append-Headed :
      (o : Operation)
      → In o (t.operations ++ new_operation c now ∷ [])
      → Headed (set_head (new_head c) t.heads) o
  append-Headed o m = elim (In-append_one o (new_operation c now) t.operations m) [
    | inl old ↦ kept_head o (chained.headed o old)
    | inr e ↦ subst (Headed (set_head (new_head c) t.heads)) e new-Headed
  ]

  append-signed :
      (a l : Hash) (h : Head)
      → find (of_log a l) (set_head (new_head c) t.heads) ≡ some h
      → (o : Operation) × In o (t.operations ++ new_operation c now ∷ []) × IsHeadOf h o
  append-signed a l h e = elim (Bool-cases (of_log a l (new_head c))) [
    | inl b ↦
        let same : new_head c ≡ h =
          some_eq (sym (find-set_head a l (new_head c) t.heads ∙ rw b) ∙ e) in
        (
          new_operation c now,
          In-last (new_operation c now) t.operations,
          subst (λ x. IsHeadOf x (new_operation c now)) same
              (record { author = refl; log = refl; place = refl; hash = refl }),
        )
    | inr b ↦
        let (o, m, is) =
          chained.signed a l h (sym (find-set_head a l (new_head c) t.heads ∙ rw b) ∙ e) in
        (o, In-append_left o t.operations _ m, is)
  ]

  append_record-IsChained : IsChained (append_record c now t)
  unfolding append_record
  append_record-IsChained = record {
    linked = append-Linked;
    headed = append-Headed;
    signed = append-signed;
  }

-- A commit keeps the logs chained: every stored record opens its log or follows a stored record of
-- the same log whose hash it names, and the head of each log is a stored record that no record of the
-- log stands behind.
pub commit-IsChained :
    (now : ℕ) (c : LocalCommit) (a b : Database)
    → IsChained a.log
    → commit_local now c a ≡ ok b
    → IsChained b.log
unfolding log_head
commit-IsChained now c a b chained e =
    let done = commit-Committed now c a b e in
    subst IsChained (sym done.log) (append_record-IsChained now c a.log chained done.followed)

-- A chained log has no gap: below every record of a log there is one at each smaller number.
pub no_gap :
    (t : LogTables) (n : ℕ) (o : Operation)
    → IsChained t
    → In o t.operations
    → n ≤ o.sequence
    → (p : Operation) × In p t.operations
      × (p.author_key ≡ o.author_key)
      × (p.log_id ≡ o.log_id)
      × (p.sequence ≡ n)
no_gap t n o chained m le = descend (o.sequence - n) o m (omega arith)
  where
    descend :
        (k : ℕ) (o : Operation)
        → In o t.operations
        → o.sequence ≡ k + n
        → (p : Operation) × In p t.operations
          × (p.author_key ≡ o.author_key)
          × (p.log_id ≡ o.log_id)
          × (p.sequence ≡ n)
    descend zero o m e = (o, m, refl, refl, omega arith)
    descend (suc k) o m e = elim (chained.linked o m) [
      | inl z ↦ absurd (omega arith)
      | inr (q, mq, pre) ↦
          let (p, mp, a, l, s) = descend k q mq (omega (arith, pre.next)) in
          (p, mp, a ∙ pre.author, l ∙ pre.log, s)
    ]
