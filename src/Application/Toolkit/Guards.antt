-- ===== src/Application/Toolkit/Guards.antt =====
-- A checked assertion or review meets the condition under which its view keeps the tables sound.
use community_stack.Common.{
  ◌≡◌, ◌≢◌, refl, sym, ap, ◌∙◌, subst, inl, inr, String, true, false, List, Option, none, some,
  str_eq, str_eq_iff, In, Bool-cases,
}
use community_stack.Domain.Replication.{Hash}
use community_stack.Domain.Toolkit.{
  ConceptDefinition, ToolkitConcept, ToolkitTool, ToolkitAssertion, ToolkitReview,
  ToolkitProjection, AssertToolkitValue, VerifyToolkitAssertion, one, verified,
}
use community_stack.Failure.{ok}
use community_stack.Store.Tables.{Scoped, AssertionRow, ToolkitTables, Database}
use community_stack.Store.Catalog.{catalog}
use community_stack.Store.Catalog.Members.{catalog-concept, catalog-assertion, In-catalog}
use community_stack.Store.Projection.Toolkit.{aggregate, assertion_row, apply_toolkit}
use community_stack.Store.Projection.Toolkit.Rivals.{
  Rivals, SameValue, IsSound, Rivals-sym, SameValue-sym,
}
use community_stack.Store.Projection.Toolkit.Sound.{concept-IsSound, tool-IsSound}
use community_stack.Store.Projection.Toolkit.Guarded.{assertion_row_iff, new_row, assertion-IsSound}
use community_stack.Store.Projection.Toolkit.Reviewed.{reviewed}
use community_stack.Store.Projection.Toolkit.Reviews.{reviews_of}
use community_stack.Store.Projection.Toolkit.ReviewSound.{review-IsSound}
use community_stack.Application.Toolkit.{opt_is}
use community_stack.Application.Toolkit.Writes.{
  check_assertion, check_review, new_assertion, new_review,
}
use community_stack.Application.Toolkit.Checked.{
  resolve_concept-In, resolved_revision, NoOtherValue, checked_assertion,
  check_review-CheckedReview,
}
use community_stack.Application.Toolkit.Written.{Written}

-- The concept that a check has resolved is the one of a rival.
same_definition :
    (app community : String) (db : Database) (k : ToolkitConcept) (c : Scoped ToolkitConcept)
    → IsSound db.toolkit
    → In k (catalog app community db).concepts
    → In c db.toolkit.concepts
    → c.app_id ≡ app
    → c.community_id ≡ community
    → c.row.definition.key ≡ k.definition.key
    → c.row.revision ≡ k.revision
    → c.row.definition ≡ k.definition
same_definition app community db k c sound m n a b key revision =
    let (r, i, p, q, e) = catalog-concept app community db k m in
    let key_of = λ (x : ToolkitConcept). x.definition.key in
    let revision_of = λ (x : ToolkitConcept). x.revision in
    sound.defined_once c r n i (record { app = a ∙ sym p; community = b ∙ sym q })
      (key ∙ ap key_of (sym e)) (revision ∙ ap revision_of (sym e))
    ∙ ap (λ (x : ToolkitConcept). x.definition) e

-- A rival of a value that no visible verified assertion contradicts has that value.
rival_agrees :
    (app community : String) (db : Database) (k : ToolkitConcept) (s r : Scoped AssertionRow)
    (except : Option String)
    → IsSound db.toolkit
    → In k (catalog app community db).concepts
    → (k.definition.cardinality ≡ one
        → NoOtherValue k
            (catalog app community db)
            r.row.assertion.tool
            r.row.assertion.value
            except)
    → r.app_id ≡ app
    → r.community_id ≡ community
    → r.row.assertion.concept ≡ k.definition.key
    → r.row.assertion.concept_revision ≡ k.revision
    → In s db.toolkit.assertions
    → Rivals db.toolkit.concepts s r
    → opt_is except s.row.assertion.assertion_id ≡ false
    → SameValue s r
rival_agrees app community db k s r except sound m none_other a b key revision n v x =
    let c = v.about in
    let defined =
      same_definition app community db k c sound m v.listed (v.is_about.scope.app ∙ v.scope.app ∙ a)
        (v.is_about.scope.community ∙ v.scope.community ∙ b) (v.is_about.key ∙ v.concept ∙ key)
        (v.is_about.revision ∙ v.revision ∙ revision) in
    none_other (ap (λ (d : ConceptDefinition). d.cardinality) (sym defined) ∙ v.single)
      s.row.assertion
      (subst (λ y. In s.row.assertion (catalog app y db).assertions) (v.scope.community ∙ b)
        (subst (λ y. In s.row.assertion (catalog y s.community_id db).assertions) (v.scope.app ∙ a)
          (In-catalog db s n)))
      v.tool (v.concept ∙ key) (v.revision ∙ revision) v.left x

abbrev pub Guard : String → String → Hash → ToolkitAssertion → ToolkitTables → Type 0
Guard app community hash a t =
    (s : Scoped AssertionRow)
    → In s t.assertions
    → Rivals t.concepts s (new_row app community hash a)
    → SameValue s (new_row app community hash a)

pub assert-Guard :
    (app : String) (r : AssertToolkitValue) (c : ToolkitConcept) (hash : Hash) (db : Database)
    → IsSound db.toolkit
    → check_assertion (catalog app r.community_id db) r ≡ ok c
    → Guard app r.community_id hash (new_assertion r c.revision) db.toolkit
assert-Guard app r c hash db sound e s m v =
    let (resolved, agrees) = checked_assertion (catalog app r.community_id db) r c e in
    let (i, key) =
      resolve_concept-In (catalog app r.community_id db) r.concept r.concept_revision c resolved in
    rival_agrees app r.community_id db c s
      (new_row app r.community_id hash (new_assertion r c.revision)) none sound i (agrees v.right)
      refl refl (sym key) refl m v refl

other_id : (a b : String) → a ≢ b → str_eq a b ≡ false
other_id a b ne = elim (Bool-cases (str_eq a b)) [
  | inl e ↦ absurd (ne ((str_eq_iff a b).0 e))
  | inr e ↦ e
]

abbrev pub ReviewGuard :
    String → VerifyToolkitAssertion → List ToolkitReview → ToolkitTables → Type 0
ReviewGuard app v rs t =
    v.state ≡ verified
    → (r s : Scoped AssertionRow) → In r t.assertions
    → In s t.assertions
    → assertion_row app v.community_id v.assertion_id r ≡ true
    → Rivals t.concepts (reviewed rs r) s
    → SameValue r s

pub verify_guard :
    (app : String) (v : VerifyToolkitAssertion) (rs : List ToolkitReview) (db : Database)
    → IsSound db.toolkit
    → check_review (catalog app v.community_id db) v ≡ ok tt
    → ReviewGuard app v rs db.toolkit
unfolding aggregate
verify_guard app v rs db sound e is r s m n own w =
    let ch = check_review-CheckedReview (catalog app v.community_id db) v e in
    let (x, i, p, q, f) = catalog-assertion app v.community_id db ch.assertion ch.listed in
    let (a, b, c) = assertion_row_iff app v.community_id v.assertion_id r own in
    let row : x ≡ r =
      sound.stored_once x r i m (record { app = p ∙ sym a; community = q ∙ sym b })
        (ap (λ (y : ToolkitAssertion). y.assertion_id) f ∙ ch.id ∙ sym c) in
    let same : ch.assertion ≡ r.row.assertion =
      sym f ∙ ap (λ (y : Scoped AssertionRow). y.row.assertion) row in
    let (j, key) =
      resolve_concept-In (catalog app v.community_id db) ch.assertion.concept
        (some ch.assertion.concept_revision) ch.concept ch.resolved in
    let revision =
      resolved_revision (catalog app v.community_id db) ch.assertion.concept
        ch.assertion.concept_revision ch.concept ch.resolved in
    SameValue-sym s (reviewed rs r) (
      rival_agrees app v.community_id db ch.concept s (reviewed rs r)
        (some r.row.assertion.assertion_id) sound j
        (subst
          (λ (y : ToolkitAssertion).
            ch.concept.definition.cardinality ≡ one
            → NoOtherValue ch.concept (catalog app v.community_id db) y.tool y.value
                (some y.assertion_id))
          same (ch.agrees is))
        a b (ap (λ (y : ToolkitAssertion). y.concept) (sym same) ∙ sym key)
        (ap (λ (y : ToolkitAssertion). y.concept_revision) (sym same) ∙ sym revision) n
        (Rivals-sym w) (other_id r.row.assertion.assertion_id s.row.assertion.assertion_id w.apart))

-- The tables after the view of a record is written.
module _ {app community : String} {a b : Database} where
  pub concept-Written :
      (c : ToolkitConcept)
      → Written app community (ToolkitProjection.concept c) a b
      → IsSound a.toolkit
      → IsSound b.toolkit
  unfolding apply_toolkit
  concept-Written c w sound = subst IsSound (sym w.toolkit_) (
      concept-IsSound app community w.hash c w.before w.after w.applied
        (subst IsSound (sym w.same) sound))

  pub tool-Written :
      (t : ToolkitTool)
      → Written app community (ToolkitProjection.tool t) a b
      → IsSound a.toolkit
      → IsSound b.toolkit
  unfolding apply_toolkit
  tool-Written t w sound = subst IsSound (sym w.toolkit_) (
      tool-IsSound app community w.hash t w.before w.after w.applied
        (subst IsSound (sym w.same) sound))

  pub assertion-Written :
      (x : ToolkitAssertion)
      → Written app community (ToolkitProjection.assertion x) a b
      → ((h : Hash) → Guard app community h x a.toolkit)
      → IsSound a.toolkit
      → IsSound b.toolkit
  unfolding apply_toolkit
  assertion-Written x w guard sound = subst IsSound (sym w.toolkit_) (
      assertion-IsSound app community w.hash x w.before w.after w.applied
        (subst IsSound (sym w.same) sound)
        (subst (Guard app community w.hash x) (sym w.same) (guard w.hash)))

pub review-Written :
    (app : String) (v : VerifyToolkitAssertion) (a b : Database)
    → Written app v.community_id (ToolkitProjection.review (new_review v)) a b
    → ((rs : List ToolkitReview) → ReviewGuard app v rs a.toolkit)
    → IsSound a.toolkit
    → IsSound b.toolkit
unfolding apply_toolkit
review-Written app v a b w guard sound =
    let rs = reviews_of app v.community_id v.assertion_id w.after in
    subst IsSound (sym w.toolkit_) (
      review-IsSound app v.community_id w.hash (new_review v) w.before w.after w.applied
        (subst IsSound (sym w.same) sound) (subst (ReviewGuard app v rs) (sym w.same) (guard rs)))
