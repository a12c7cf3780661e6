-- ===== src/Store/Projection/Toolkit/States.antt =====
-- The state that the reviews of an assertion give it.
use community_stack.Common.{
  ◌≡◌, refl, sym, ap, ◌∙◌, subst, Bool, true, false, ◌&&◌, List, [], ◌∷◌, ◌++◌, arith, all, In,
  In-append_right, Bool-cases, if◌then◌else◌, inl, inr,
}
use community_stack.Domain.Toolkit.{
  VerificationState, ToolkitReview, proposed, verified, rejected, unknown,
}
use community_stack.Store.Projection.Toolkit.{
  is_verified, same_state, effective_state, is_review_state,
}

abbrev verifies : ToolkitReview → Bool
verifies r = is_verified r.state

all-append :
    (p : ToolkitReview → Bool) (xs ys : List ToolkitReview)
    → all p (xs ++ ys) ≡ (all p xs && all p ys)
unfolding all
all-append p [] ys = refl
all-append p (x ∷ xs) ys = ground (arith, all-append p xs ys)

all-In :
    (p : ToolkitReview → Bool) (xs : List ToolkitReview) (x : ToolkitReview)
    → In x xs
    → p x ≡ false
    → all p xs ≡ false
unfolding all
all-In p [] x m h = absurd m
all-In p (y ∷ xs) x (inl e) h = ground (arith, subst (λ z. p z ≡ false) (sym e) h)
all-In p (y ∷ xs) x (inr m) h = ground (arith, all-In p xs x m h)

abbrev decided : List ToolkitReview → VerificationState
decided rs = if all verifies rs then verified else rejected

-- A review is verified or rejected, so no other state is that of all reviews.
no_other :
    (x r : ToolkitReview) (rs : List ToolkitReview) (s : VerificationState)
    → is_review_state s ≡ false
    → x.state ≡ s
    → In r (x ∷ rs)
    → is_review_state r.state ≡ true
    → all (λ (q : ToolkitReview). same_state s q.state) rs ≡ false
no_other x r rs s other e (inl h) review = absurd (
    clash (
      sym (subst (λ (z : ToolkitReview). is_review_state z.state ≡ true) (sym h) review)
      ∙ ap is_review_state e
      ∙ other))
  where
    clash : true ≡ false → ⊥
    clash e = cc
no_other x r rs s other e (inr m) review =
    all-In (λ (q : ToolkitReview). same_state s q.state) rs r m (differs s r.state other review)
  where
    differs :
        (s t : VerificationState)
        → is_review_state s ≡ false
        → is_review_state t ≡ true
        → same_state s t ≡ false
    differs verified t h k = cc
    differs rejected t h k = cc
    differs proposed verified h k = refl
    differs proposed rejected h k = refl
    differs proposed proposed h k = cc
    differs proposed unknown h k = cc
    differs unknown verified h k = refl
    differs unknown rejected h k = refl
    differs unknown proposed h k = cc
    differs unknown unknown h k = cc

-- Where there is a review, the reviews decide.
pub effective_state-In :
    (initial : VerificationState) (r : ToolkitReview) (rs : List ToolkitReview)
    → In r rs
    → is_review_state r.state ≡ true
    → effective_state initial rs ≡ decided rs
unfolding effective_state all
effective_state-In initial r [] m review = absurd m
effective_state-In initial r (x ∷ rs) m review = go x.state refl
  where
    either : (b : Bool) → (if b then rejected else rejected) ≡ VerificationState.rejected
    either true = refl
    either false = refl

    go : (s : VerificationState) → x.state ≡ s → effective_state initial (x ∷ rs) ≡ decided (x ∷ rs)
    go verified e = rw e refl
    go rejected e = rw e (either (all (λ (q : ToolkitReview). same_state rejected q.state) rs))
    go proposed e = rw (e, no_other x r rs proposed refl e m review) refl
    go unknown e = rw (e, no_other x r rs unknown refl e m review) refl

append_nil : (xs : List ToolkitReview) → xs ++ [] ≡ xs
append_nil [] = refl
append_nil (x ∷ xs) = ap (λ ys. x ∷ ys) (append_nil xs)

same_eq : (s t : VerificationState) → same_state s t ≡ true → s ≡ t
same_eq proposed proposed h = refl
same_eq proposed verified h = cc
same_eq proposed rejected h = cc
same_eq proposed unknown h = cc
same_eq verified proposed h = cc
same_eq verified verified h = refl
same_eq verified rejected h = cc
same_eq verified unknown h = cc
same_eq rejected proposed h = cc
same_eq rejected verified h = cc
same_eq rejected rejected h = refl
same_eq rejected unknown h = cc
same_eq unknown proposed h = cc
same_eq unknown verified h = cc
same_eq unknown rejected h = cc
same_eq unknown unknown h = refl

same_refl : (s : VerificationState) → same_state s s ≡ true
same_refl proposed = refl
same_refl verified = refl
same_refl rejected = refl
same_refl unknown = refl

same_comm : (s t : VerificationState) → same_state s t ≡ false → same_state t s ≡ false
same_comm s t h = elim (Bool-cases (same_state t s)) [
  | inl e ↦
      absurd (clash (sym (subst (λ u. same_state u t ≡ true) (same_eq t s e) (same_refl t)) ∙ h))
  | inr e ↦ e
]
  where
    clash : true ≡ false → ⊥
    clash e = cc

abbrev alike : VerificationState → ToolkitReview → Bool
alike s q = same_state s q.state

pub effective_state-append :
    (initial : VerificationState) (xs ys : List ToolkitReview)
    → effective_state initial (xs ++ ys) ≡ effective_state initial (ys ++ xs)
unfolding effective_state all
effective_state-append initial [] ys = ap (effective_state initial) (sym (append_nil ys))
effective_state-append initial (x ∷ xs) [] = ap (effective_state initial) (append_nil (x ∷ xs))
effective_state-append initial (x ∷ xs) (y ∷ ys) = elim (Bool-cases (same_state x.state y.state)) [
  | inl e ↦
      let reordered : all (alike x.state) (xs ++ y ∷ ys) ≡ all (alike x.state) (ys ++ x ∷ xs) =
        ground (
          arith,
          e,
          same_refl x.state,
          all-append (alike x.state) xs (y ∷ ys),
          all-append (alike x.state) ys (x ∷ xs),
        ) in
      subst
        (λ s.
          (if all (alike x.state) (xs ++ y ∷ ys) then x.state else rejected)
          ≡ (if all (alike s) (ys ++ x ∷ xs) then s else rejected))
        (same_eq x.state y.state e) (ap (λ b. if b then x.state else rejected) reordered)
  | inr e ↦
      let first =
        all-In (alike x.state) (xs ++ y ∷ ys) y (In-append_right y xs (y ∷ ys) (inl refl)) e in
      let second =
        all-In (alike y.state) (ys ++ x ∷ xs) x (In-append_right x ys (x ∷ xs) (inl refl))
          (same_comm x.state y.state e) in
      rw (first, second) refl
]
