-- ===== src/Store/Projection/Toolkit/ReviewSound.antt =====
-- A review keeps the tables sound, if no rival of the assertion that it verifies has another value.
use community_stack.Common.{
  ◌≡◌, refl, sym, ◌∙◌, subst, String, Bool, true, false, if◌then◌else◌, arith, all, all-In, In,
  In-update_holds,
}
use community_stack.Domain.Replication.{Hash}
use community_stack.Domain.Toolkit.{
  VerificationState, ToolkitConcept, ToolkitReview, verified, rejected,
}
use community_stack.Failure.{ok}
use community_stack.Store.Tables.{Scoped, AssertionRow, Database}
use community_stack.Store.Projection.Toolkit.{is_verified, assertion_row, apply_review, aggregate}
use community_stack.Store.Projection.Toolkit.Reviews.{
  reviews_of, review-eq-ok, stored_review-In, review_decides,
}
use community_stack.Store.Projection.Toolkit.Rivals.{
  SameScope, Rivals, SameValue, IsSound, SameScope-trans,
}
use community_stack.Store.Projection.Toolkit.Reviewed.{
  reviewed, from, subject, same_row, still_agree,
}

review_concepts :
    (app community : String) (hash : Hash) (v : ToolkitReview) (a b : Database)
    → apply_review app community hash v a ≡ ok b
    → b.toolkit.concepts ≡ a.toolkit.concepts
unfolding apply_review
review_concepts app community hash v a b e = ground arith

is_verified_eq : (s : VerificationState) → is_verified s ≡ true → s ≡ verified
is_verified_eq VerificationState.verified h = refl
is_verified_eq VerificationState.proposed h = absurd (ground arith)
is_verified_eq VerificationState.rejected h = absurd (ground arith)
is_verified_eq VerificationState.unknown h = absurd (ground arith)

all_verify : (c : Bool) → (if c then verified else rejected) ≡ verified → c ≡ true
all_verify true q = refl
all_verify false q = cc

-- A review that leaves an assertion verified verifies it.
review_verifies :
    (app community : String) (hash : Hash) (v : ToolkitReview) (a b : Database)
    (x : Scoped AssertionRow)
    → apply_review app community hash v a ≡ ok b
    → In x a.toolkit.assertions
    → assertion_row app community v.assertion_id x ≡ true
    → (reviewed (reviews_of app community v.assertion_id b) x).row.assertion.verification_state
      ≡ verified
    → v.state ≡ verified
unfolding assertion_row aggregate
review_verifies app community hash v a b x e i own is =
    let rs = reviews_of app community v.assertion_id b in
    let now = reviewed rs x in
    let m : In now b.toolkit.assertions =
      subst (In now) (sym (review-eq-ok app community hash v a b e).1) (
        In-update_holds (assertion_row app community v.assertion_id) (reviewed rs)
          a.toolkit.assertions x own i) in
    is_verified_eq v.state (
      all-In (λ (q : ToolkitReview). is_verified q.state) rs
        (all_verify (all (λ (q : ToolkitReview). is_verified q.state) rs)
          (sym (review_decides app community hash v a b now e m own) ∙ is))
        (record v { source_operation_hash = hash }) (stored_review-In app community hash v a b e))

pub review-IsSound :
    (app community : String) (hash : Hash) (v : ToolkitReview) (a b : Database)
    → apply_review app community hash v a ≡ ok b
    → IsSound a.toolkit
    → (v.state ≡ verified
        → (r s : Scoped AssertionRow) → In r a.toolkit.assertions
        → In s a.toolkit.assertions
        → assertion_row app community v.assertion_id r ≡ true
        → Rivals a.toolkit.concepts (reviewed (reviews_of app community v.assertion_id b) r) s
        → SameValue r s)
    → IsSound b.toolkit
review-IsSound app community hash v a b e sound guard =
    let rs = reviews_of app community v.assertion_id b in
    let (stored, rows) = review-eq-ok app community hash v a b e in
    let concepts = review_concepts app community hash v a b e in
    let was = λ (r : Scoped AssertionRow) (m : In r b.toolkit.assertions).
      from app community v.assertion_id rs a.toolkit r (subst (In r) rows m) in
    record {
      defined_once =
          subst
            (λ cs.
              (c d : Scoped ToolkitConcept)
              → In c cs
              → In d cs
              → SameScope c d
              → c.row.definition.key ≡ d.row.definition.key
              → c.row.revision ≡ d.row.revision
              → c.row.definition ≡ d.row.definition)
            (sym concepts) sound.defined_once;
      known = λ r m.
          let f = was r m in
          let sf = subject app community v.assertion_id rs a.toolkit r f in
          let (c, i, is) = sound.known f.was f.listed in
          (
            c,
            subst (In c) (sym concepts) i,
            record {
              scope = SameScope-trans is.scope sf.scope;
              key = is.key ∙ sf.concept;
              revision = is.revision ∙ sf.revision;
            },
          );
      stored_once = λ r s m n.
          same_row app community v.assertion_id rs a.toolkit sound r s (was r m) (was s n);
      agree = λ r s m n w.
          still_agree app community v.assertion_id rs a.toolkit sound
            (λ x y i j own rivals.
              guard (review_verifies app community hash v a b x e i own rivals.left) x y i j own
                rivals)
            r s (was r m) (was s n) (subst (λ cs. Rivals cs r s) concepts w);
    }
