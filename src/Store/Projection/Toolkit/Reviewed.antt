-- ===== src/Store/Projection/Toolkit/Reviewed.antt =====
-- The rows of assertions when a review changes some of them.
use community_stack.Common.{
  ◌≡◌, refl, sym, ap, ◌∙◌, subst, ◌⊎◌, inl, inr, String, true, false, List, arith, update, In,
  In-update,
}
use community_stack.Domain.Toolkit.{ToolkitReview}
use community_stack.Store.Tables.{Scoped, AssertionRow, ToolkitTables}
use community_stack.Store.Projection.Toolkit.{assertion_row, aggregate}
use community_stack.Store.Projection.Toolkit.Rivals.{
  SameScope, Rivals, SameValue, IsSound, SameScope-sym, SameScope-trans, Rivals-sym, SameValue-sym,
}
use community_stack.Store.Projection.Toolkit.Guarded.{assertion_row_iff}

-- An assertion's row under the reviews of it.
abbrev pub reviewed : List ToolkitReview → Scoped AssertionRow → Scoped AssertionRow
reviewed rs r = record r { row = aggregate rs r.row }

module _ (app community id : String) (rs : List ToolkitReview) (t : ToolkitTables) where
  abbrev with_review : List (Scoped AssertionRow) → List (Scoped AssertionRow)
  with_review rows = update (assertion_row app community id) (reviewed rs) rows

  -- A row after the review, with the row it was, and whether it was reviewed.
  pub record From (r : Scoped AssertionRow) : Type 0 where
    pub was : Scoped AssertionRow
    pub listed : In was t.assertions
    pub how :
        ((assertion_row app community id was ≡ true) × (reviewed rs was ≡ r))
        ⊎ ((assertion_row app community id was ≡ false) × (was ≡ r))

  pub from : (r : Scoped AssertionRow) → In r (with_review t.assertions) → From r
  from r m =
      let (b, i, h) = In-update (assertion_row app community id) (reviewed rs) t.assertions r m in
      record { was = b; listed = i; how = h }

  -- What a review does not change.
  pub record SameSubject (r s : Scoped AssertionRow) : Type 0 where
    pub scope : SameScope r s
    pub id_ : r.row.assertion.assertion_id ≡ s.row.assertion.assertion_id
    pub concept : r.row.assertion.concept ≡ s.row.assertion.concept
    pub revision : r.row.assertion.concept_revision ≡ s.row.assertion.concept_revision

  pub subject : (r : Scoped AssertionRow) (f : From r) → SameSubject f.was r
  unfolding aggregate
  subject r f =
      let same : (x : Scoped AssertionRow) → SameSubject x (reviewed rs x) = λ x. record {
        scope = record { app = refl; community = refl };
        id_ = refl;
        concept = refl;
        revision = refl;
      } in
      elim f.how [
        | inl (p, q) ↦ subst (SameSubject f.was) q (same f.was)
        | inr (p, q) ↦ subst (SameSubject f.was) q (record {
          scope = record { app = refl; community = refl };
          id_ = refl;
          concept = refl;
          revision = refl;
        })
      ]

module _ (app community id : String) (rs : List ToolkitReview) (t : ToolkitTables)
    (sound : IsSound t) where
  pub same_row :
      (r s : Scoped AssertionRow)
      → From app community id rs t r
      → From app community id rs t s
      → SameScope r s
      → r.row.assertion.assertion_id ≡ s.row.assertion.assertion_id
      → r ≡ s
  same_row r s f g scope same =
      let sf = subject app community id rs t r f in
      let sg = subject app community id rs t s g in
      let one : f.was ≡ g.was =
        sound.stored_once f.was g.was f.listed g.listed
          (SameScope-trans sf.scope (SameScope-trans scope (SameScope-sym sg.scope)))
          (sf.id_ ∙ same ∙ sym sg.id_) in
      let tests : assertion_row app community id f.was ≡ assertion_row app community id g.was =
        ap (assertion_row app community id) one in
      elim f.how [
        | inl (p, q) ↦ elim g.how [
          | inl (p', q') ↦ sym q ∙ ap (reviewed rs) one ∙ q'
          | inr (p', q') ↦ absurd (ground (arith, p, p', tests))
        ]
        | inr (p, q) ↦ elim g.how [
          | inl (p', q') ↦ absurd (ground (arith, p, p', tests))
          | inr (p', q') ↦ sym q ∙ one ∙ q'
        ]
      ]

  module _
      (guard : (r s : Scoped AssertionRow)
        → In r t.assertions
        → In s t.assertions
        → assertion_row app community id r ≡ true
        → Rivals t.concepts (reviewed rs r) s
        → SameValue r s) where
    by_guard :
        (r s : Scoped AssertionRow) (f : From app community id rs t r)
        → assertion_row app community id f.was ≡ true
        → reviewed rs f.was ≡ r
        → In s t.assertions
        → Rivals t.concepts r s
        → SameValue r s
    unfolding aggregate
    by_guard r s f p q n v =
        let same : SameValue f.was s =
          guard f.was s f.listed n p (subst (λ x. Rivals t.concepts x s) (sym q) v) in
        subst (λ x. SameValue x s) q same

    pub still_agree :
        (r s : Scoped AssertionRow)
        → From app community id rs t r
        → From app community id rs t s
        → Rivals t.concepts r s
        → SameValue r s
    still_agree r s f g v = elim f.how [
      | inl (p, q) ↦ elim g.how [
        | inl (p', q') ↦
            let sf = subject app community id rs t r f in
            let sg = subject app community id rs t s g in
            let (a, b, same) = assertion_row_iff app community id f.was p in
            let (c, d, same') = assertion_row_iff app community id g.was p' in
            absurd (v.apart (sym sf.id_ ∙ same ∙ sym same' ∙ sg.id_))
        | inr (p', q') ↦ by_guard r s f p q (subst (λ x. In x t.assertions) q' g.listed) v
      ]
      | inr (p, q) ↦
          let m = subst (λ x. In x t.assertions) q f.listed in
          elim g.how [
            | inl (p', q') ↦ SameValue-sym s r (by_guard s r g p' q' m (Rivals-sym v))
            | inr (p', q') ↦ sound.agree r s m (subst (λ x. In x t.assertions) q' g.listed) v
          ]
    ]
