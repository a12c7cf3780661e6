-- ===== src/Store/Projection/Toolkit/Reviews.antt =====
-- How the reviews of an assertion make its state.
use community_stack.Common.{
  ◌≡◌, refl, sym, ap, ap₂, ◌∙◌, subst, String, true, false, not, List, [], ◌∷◌, ◌++◌, Option, none,
  some, arith, all, map, select, update, any, In, In-update, In-map, In-select, In-last, str_eq_iff,
  leb, min, if◌then◌else◌, inl, inr,
}
use community_stack.Domain.Replication.{Hash}
use community_stack.Domain.Toolkit.{ToolkitReview, verified, rejected}
use community_stack.Failure.{ok, bail, reject, >>=-eq-ok, reject-eq-ok, ok_eq}
use community_stack.Store.Tables.{Scoped, AssertionRow, Database}
use community_stack.Store.Projection.Toolkit.{
  is_verified, assertion_row, review_row, reviews_assertion, first_hash, aggregate, apply_review,
  is_review_state, in_table, unique, foreign,
}
use community_stack.Store.Projection.Toolkit.States.{effective_state-In, effective_state-append}

abbrev least : Option Hash → Option Hash → Option Hash
least none o = o
least (some a) none = some a
least (some a) (some b) = some (min a b)

first_hash-append :
    (xs ys : List ToolkitReview) → first_hash (xs ++ ys) ≡ least (first_hash xs) (first_hash ys)
unfolding first_hash
first_hash-append [] ys = refl
first_hash-append (x ∷ xs) ys = go (first_hash xs) (first_hash ys) (first_hash-append xs ys)
  where
    first : Option Hash → Option Hash
    first none = some x.source_operation_hash
    first (some h) = some (if leb x.source_operation_hash h then x.source_operation_hash else h)

    go :
        (o p : Option Hash)
        → first_hash (xs ++ ys) ≡ least o p
        → elim (first_hash (xs ++ ys)) [
          | none ↦ some x.source_operation_hash
          | some h ↦ some (if leb x.source_operation_hash h then x.source_operation_hash else h)
        ]
          ≡ least
              (elim o [
                | none ↦ some x.source_operation_hash
                | some h ↦
                    some (if leb x.source_operation_hash h then x.source_operation_hash else h)
              ])
              p
    go none none e = rw e refl
    go none (some b) e = rw e (ap some (ground arith))
    go (some a) none e = rw e refl
    go (some a) (some b) e = rw e (ap some (ground arith))

least_comm : (o p : Option Hash) → least o p ≡ least p o
least_comm none none = refl
least_comm none (some b) = refl
least_comm (some a) none = refl
least_comm (some a) (some b) = ap some (omega arith)

-- What the reviews of an assertion make of it does not depend on which of two groups of them was
-- stored first.
pub aggregate-swap :
    (xs ys : List ToolkitReview) (a : AssertionRow)
    → aggregate (xs ++ ys) a ≡ aggregate (ys ++ xs) a
unfolding aggregate
aggregate-swap xs ys a =
    ap₂
      (λ s h. record a {
        assertion = record a.assertion { verification_state = s; review_operation_hash = h };
      })
      (effective_state-append a.initial_state xs ys)
      (first_hash-append xs ys
        ∙ least_comm (first_hash xs) (first_hash ys)
        ∙ sym (first_hash-append ys xs))

-- The reviews of an assertion that the store holds.
abbrev pub reviews_of : String → String → String → Database → List ToolkitReview
reviews_of app community id db =
    map (λ (r : Scoped ToolkitReview). r.row)
      (select (reviews_assertion app community id) db.toolkit.reviews)

abbrev new_review : String → String → Hash → ToolkitReview → Scoped ToolkitReview
new_review app community hash v = in_table app community (record v { source_operation_hash = hash })

-- What a stored review has written.
pub review-eq-ok :
    (app community : String) (hash : Hash) (v : ToolkitReview) (a b : Database)
    → apply_review app community hash v a ≡ ok b
    → (b.toolkit.reviews ≡ a.toolkit.reviews ++ new_review app community hash v ∷ [])
      × (b.toolkit.assertions
          ≡ update
              (assertion_row app community v.assertion_id)
              (λ r. record r { row = aggregate (reviews_of app community v.assertion_id b) r.row })
              a.toolkit.assertions)
unfolding apply_review
review-eq-ok app community hash v a b e =
    let (u, e₀, e₁) =
      >>=-eq-ok (reject (not (is_review_state v.state)) (bail "CHECK constraint failed")) _ e in
    let (w, e₂, e₃) =
      >>=-eq-ok (unique (any (review_row app community v.review_id) a.toolkit.reviews)) _ e₁ in
    let (x, e₄, e₅) =
      >>=-eq-ok (foreign (any (assertion_row app community v.assertion_id) a.toolkit.assertions)) _
        e₃ in
    let written = ok_eq e₅ in
    (
      ap (λ (d : Database). d.toolkit.reviews) (sym written),
      subst
          (λ d.
            d.toolkit.assertions
            ≡ update (assertion_row app community v.assertion_id)
                (λ r. record r {
                  row = aggregate (reviews_of app community v.assertion_id d) r.row;
                })
                a.toolkit.assertions)
          written refl,
    )

review_state :
    (app community : String) (hash : Hash) (v : ToolkitReview) (a b : Database)
    → apply_review app community hash v a ≡ ok b
    → is_review_state v.state ≡ true
unfolding apply_review
review_state app community hash v a b e =
    let (u, e₀, e₁) =
      >>=-eq-ok (reject (not (is_review_state v.state)) (bail "CHECK constraint failed")) _ e in
    ground (arith, reject-eq-ok _ _ e₀)

-- A stored review is among those of its assertion.
pub stored_review-In :
    (app community : String) (hash : Hash) (v : ToolkitReview) (a b : Database)
    → apply_review app community hash v a ≡ ok b
    → In (record v { source_operation_hash = hash }) (reviews_of app community v.assertion_id b)
unfolding reviews_assertion
stored_review-In app community hash v a b e =
    let (reviews, rows) = review-eq-ok app community hash v a b e in
    let new = new_review app community hash v in
    let mine : reviews_assertion app community v.assertion_id new ≡ true = ground (
      arith,
      str_eq_iff app app,
      str_eq_iff community community,
      str_eq_iff v.assertion_id v.assertion_id,
    ) in
    In-map (λ (q : Scoped ToolkitReview). q.row)
      (select (reviews_assertion app community v.assertion_id) b.toolkit.reviews) new
      ((In-select (reviews_assertion app community v.assertion_id) b.toolkit.reviews new).1
        (subst (In new) (sym reviews) (In-last new a.toolkit.reviews), mine))

pub review_decides :
    (app community : String) (hash : Hash) (v : ToolkitReview) (a b : Database)
    (r : Scoped AssertionRow)
    → apply_review app community hash v a ≡ ok b
    → In r b.toolkit.assertions
    → assertion_row app community v.assertion_id r ≡ true
    → r.row.assertion.verification_state ≡ (
        if all (λ q. is_verified q.state) (reviews_of app community v.assertion_id b)
        then verified
        else rejected)
unfolding aggregate
review_decides app community hash v a b r e m own =
    let (reviews, rows) = review-eq-ok app community hash v a b e in
    let (r₀, i, why) = In-update _ _ a.toolkit.assertions r (subst (In r) rows m) in
    elim why [
      | inl changed ↦
          ap (λ (q : Scoped AssertionRow). q.row.assertion.verification_state) (sym changed.1)
          ∙ effective_state-In r₀.row.initial_state _ (reviews_of app community v.assertion_id b)
              (stored_review-In app community hash v a b e)
              (review_state app community hash v a b e)
      | inr same ↦ absurd (
          ground (
            arith,
            own,
            subst (λ q. assertion_row app community v.assertion_id q ≡ false) same.1 same.0,
          ))
    ]
