-- ===== src/Store/Projection/Toolkit/Guarded.antt =====
-- Assertions and reviews keep the tables sound, if no rival of what they verify has another value.
use community_stack.Common.{
  ◌≡◌, sym, ap, ◌∙◌, subst, inl, inr, String, true, false, not, [], ◌∷◌, ◌++◌, none, str_eq_iff,
  arith, any, In, In-append_one, any-In, any-false,
}
use community_stack.Domain.Replication.{Hash}
use community_stack.Domain.Toolkit.{ToolkitConcept, ToolkitAssertion}
use community_stack.Failure.{ok, bail, >>=-eq-ok, ok_eq, reject-eq-ok}
use community_stack.Store.Tables.{Scoped, AssertionRow, ToolkitTables, Database}
use community_stack.Store.Projection.Toolkit.{
  concept_row, tool_row, assertion_row, in_table, unique, foreign, typed_value, apply_assertion,
}
use community_stack.Store.Projection.Toolkit.Rivals.{
  SameScope, IsConceptOf, Rivals, SameValue, IsSound, SameScope-sym, Rivals-sym, SameValue-sym,
}

-- What the test of an assertion's row says.
pub assertion_row_iff :
    (app community id : String) (r : Scoped AssertionRow)
    → assertion_row app community id r ≡ true
    → (r.app_id ≡ app) × (r.community_id ≡ community) × (r.row.assertion.assertion_id ≡ id)
unfolding assertion_row
assertion_row_iff app community id r h = (
  (str_eq_iff r.app_id app).0 (ground arith),
  (str_eq_iff r.community_id community).0 (ground arith),
  (str_eq_iff r.row.assertion.assertion_id id).0 (ground arith),
)

pub assertion_row_from :
    (app community id : String) (r : Scoped AssertionRow)
    → r.app_id ≡ app
    → r.community_id ≡ community
    → r.row.assertion.assertion_id ≡ id
    → assertion_row app community id r ≡ true
unfolding assertion_row
assertion_row_from app community id r a b c = ground (
  arith,
  (str_eq_iff r.app_id app).1 a,
  (str_eq_iff r.community_id community).1 b,
  (str_eq_iff r.row.assertion.assertion_id id).1 c,
)

concept_row-IsConceptOf :
    (c : Scoped ToolkitConcept) (r : Scoped AssertionRow)
    → concept_row r.app_id r.community_id r.row.assertion.concept r.row.assertion.concept_revision c
      ≡ true
    → IsConceptOf c r
unfolding concept_row
concept_row-IsConceptOf c r h = record {
  scope = record {
    app = (str_eq_iff c.app_id r.app_id).0 (ground arith);
    community = (str_eq_iff c.community_id r.community_id).0 (ground arith);
  };
  key = (str_eq_iff c.row.definition.key r.row.assertion.concept).0 (ground arith);
  revision = (str_eq_iff c.row.revision r.row.assertion.concept_revision).0 (ground arith);
}

-- One more assertion, with its concept, under a new identifier, and agreeing with its rivals.
module _ (t : ToolkitTables) (new : Scoped AssertionRow)
    (fresh : any
        (assertion_row new.app_id new.community_id new.row.assertion.assertion_id)
        t.assertions
      ≡ false)
    (concept : any
        (concept_row new.app_id new.community_id new.row.assertion.concept
          new.row.assertion.concept_revision)
        t.concepts
      ≡ true)
    (guard : (s : Scoped AssertionRow)
      → In s t.assertions
      → Rivals t.concepts s new
      → SameValue s new) where
  abbrev with_assertion : ToolkitTables
  with_assertion = record t { assertions = t.assertions ++ new ∷ [] }

  not_stored :
      (r : Scoped AssertionRow)
      → In r t.assertions
      → SameScope r new
      → r.row.assertion.assertion_id ≡ new.row.assertion.assertion_id
      → ⊥
  not_stored r m scope id = ground (
    arith,
    assertion_row_from new.app_id new.community_id new.row.assertion.assertion_id r scope.app
        scope.community id,
    any-false _ t.assertions fresh r m,
  )

  with_assertion-IsSound : IsSound t → IsSound with_assertion
  with_assertion-IsSound sound = record {
    defined_once = sound.defined_once;
    known = λ r m. elim (In-append_one r new t.assertions m) [
      | inl i ↦ sound.known r i
      | inr q ↦
          let (c, i, h) = any-In _ t.concepts concept in
          (c, i, subst (IsConceptOf c) q (concept_row-IsConceptOf c new h))
    ];
    stored_once = λ r s m n scope id. elim (In-append_one r new t.assertions m) [
      | inl i ↦ elim (In-append_one s new t.assertions n) [
        | inl j ↦ sound.stored_once r s i j scope id
        | inr p ↦ absurd (
            not_stored r i (subst (SameScope r) (sym p) scope)
              (id ∙ ap (λ (x : Scoped AssertionRow). x.row.assertion.assertion_id) (sym p)))
      ]
      | inr q ↦ elim (In-append_one s new t.assertions n) [
        | inl j ↦ absurd (
            not_stored s j (subst (SameScope s) (sym q) (SameScope-sym scope))
              (sym id ∙ ap (λ (x : Scoped AssertionRow). x.row.assertion.assertion_id) (sym q)))
        | inr p ↦ sym q ∙ p
      ]
    ];
    agree = λ r s m n v. elim (In-append_one r new t.assertions m) [
      | inl i ↦ elim (In-append_one s new t.assertions n) [
        | inl j ↦ sound.agree r s i j v
        | inr p ↦ subst (SameValue r) p (guard r i (subst (Rivals t.concepts r) (sym p) v))
      ]
      | inr q ↦ elim (In-append_one s new t.assertions n) [
        | inl j ↦
            subst (λ x. SameValue x s) q
              (SameValue-sym s new (guard s j (subst (Rivals t.concepts s) (sym q) (Rivals-sym v))))
        | inr p ↦
            absurd
              (v.apart (ap (λ (x : Scoped AssertionRow). x.row.assertion.assertion_id) (sym q ∙ p)))
      ]
    ];
  }

-- The row of a new assertion.
abbrev pub new_row : String → String → Hash → ToolkitAssertion → Scoped AssertionRow
new_row app community hash a = in_table app community (record {
  assertion = record a { source_operation_hash = hash; review_operation_hash = none };
  initial_state = a.verification_state;
})

pub assertion-IsSound :
    (app community : String) (hash : Hash) (x : ToolkitAssertion) (a b : Database)
    → apply_assertion app community hash x a ≡ ok b
    → IsSound a.toolkit
    → ((s : Scoped AssertionRow)
        → In s a.toolkit.assertions
        → Rivals a.toolkit.concepts s (new_row app community hash x)
        → SameValue s (new_row app community hash x))
    → IsSound b.toolkit
unfolding apply_assertion
assertion-IsSound app community hash x a b e sound guard =
    let (u, e₀, e₁) = >>=-eq-ok (typed_value x.value) _ e in
    let (v, e₂, e₃) =
      >>=-eq-ok (unique (any (assertion_row app community x.assertion_id) a.toolkit.assertions)) _
        e₁ in
    let (w, e₄, e₅) =
      >>=-eq-ok (foreign (any (tool_row app community x.tool) a.toolkit.tools)) _ e₃ in
    let (y, e₆, e₇) =
      >>=-eq-ok
        (foreign (any (concept_row app community x.concept x.concept_revision) a.toolkit.concepts))
        _ e₅ in
    let present : any (concept_row app community x.concept x.concept_revision) a.toolkit.concepts
        ≡ true =
      ground (
        arith,
        reject-eq-ok
            (not (any (concept_row app community x.concept x.concept_revision) a.toolkit.concepts))
            (bail "FOREIGN KEY constraint failed") e₆,
      ) in
    subst (λ (d : Database). IsSound d.toolkit) (ok_eq e₇)
      (with_assertion-IsSound a.toolkit (new_row app community hash x) (reject-eq-ok _ _ e₂) present
        guard sound)
