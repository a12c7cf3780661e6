-- ===== src/Common/Sort.antt =====
-- Stable insertion sort, for `ORDER BY` and `sort_by`.
use Prim.Native.Nat.{suc, ◌+◌}
use mathlib.Core.Path.{◌≡◌, refl}
use mathlib.Core.Logic.{◌↔◌, ◌⊎◌, inl, inr}
use mathlib.Core.Bool.{Bool, true, false, not}
use mathlib.Core.List.{List, [], ◌∷◌}
use native.Mathlib.Omega.{arith}
use community_stack.Common.Tests.{if◌then◌else◌, Bool-cases}
use community_stack.Common.Lists.{length, count, All}
use community_stack.Common.Membership.{In}

module _ {A : Type 0} (lt : A → A → Bool) where
  -- Before the first element that is greater.
  unfoldable pub insert : A → List A → List A
  insert a [] = a ∷ []
  insert a (x ∷ xs) = let rest = insert a xs in if lt a x then a ∷ x ∷ xs else x ∷ rest

module _ {A : Type 0} (lt : A → A → Bool) where
  -- The last element is inserted first and an element goes before its equals only if it stood
  -- before them, so the sort is stable.
  unfoldable pub sort : List A → List A
  sort [] = []
  sort (x ∷ xs) = insert (λ a b. not (lt b a)) x (sort xs)

  -- No element is greater than a later one.
  abbrev pub IsSorted : List A → Type 0
  IsSorted [] = Unit
  IsSorted (x ∷ xs) = All (λ y. lt y x ≡ false) xs × IsSorted xs

module _ {A : Type 0} (lt : A → A → Bool) where
  pub length-insert : (a : A) (xs : List A) → length (insert lt a xs) ≡ suc (length xs)
  unfolding insert
  length-insert a [] = refl
  length-insert a (x ∷ xs) = ground (arith, length-insert a xs)

  pub count-insert :
      (p : A → Bool) (a : A) (xs : List A)
      → count p (insert lt a xs) ≡ (if p a then 1 else 0) + count p xs
  unfolding insert count
  count-insert p a [] = refl
  count-insert p a (x ∷ xs) = ground (arith, count-insert p a xs)

  pub In-insert : (a b : A) (xs : List A) → In b (insert lt a xs) ↔ ((a ≡ b) ⊎ In b xs)
  unfolding insert
  In-insert a b [] = (λ m. m, λ m. m)
  In-insert a b (x ∷ xs) = elim (Bool-cases (lt a x)) [
    | inl e ↦ rw e (λ m. m, λ m. m)
    | inr e ↦ rw e (
      λ m. elim m [
        | inl q ↦ inr (inl q)
        | inr r ↦ elim ((In-insert a b xs).0 r) [ inl q ↦ inl q | inr s ↦ inr (inr s) ]
      ],
      λ m. elim m [
        | inl q ↦ inr ((In-insert a b xs).1 (inl q))
        | inr r ↦ elim r [ inl q ↦ inl q | inr s ↦ inr ((In-insert a b xs).1 (inr s)) ]
      ],
    )
  ]

  pub All-insert {κ} :
      (P : A → Type κ) (a : A) (xs : List A) → P a → All P xs → All P (insert lt a xs)
  unfolding insert
  All-insert P a [] h hs = (h, tt)
  All-insert P a (x ∷ xs) h hs = elim (Bool-cases (lt a x)) [
    | inl e ↦ rw e (h, hs)
    | inr e ↦ rw e (hs.0, All-insert P a xs h hs.1)
  ]

module _ {A : Type 0} (lt : A → A → Bool) where
  pub length-sort : (xs : List A) → length (sort lt xs) ≡ length xs
  unfolding sort
  length-sort [] = refl
  length-sort (x ∷ xs) =
      omega (arith, length-insert (λ a b. not (lt b a)) x (sort lt xs), length-sort xs)

  pub count-sort : (p : A → Bool) (xs : List A) → count p (sort lt xs) ≡ count p xs
  unfolding sort count
  count-sort p [] = refl
  count-sort p (x ∷ xs) =
      omega (arith, count-insert (λ a b. not (lt b a)) p x (sort lt xs), count-sort p xs)

  pub In-sort : (b : A) (xs : List A) → In b (sort lt xs) ↔ In b xs
  unfolding sort
  In-sort b [] = (λ m. m, λ m. m)
  In-sort b (x ∷ xs) = (
    λ m. elim ((In-insert (λ a c. not (lt c a)) x b (sort lt xs)).0 m) [
      | inl q ↦ inl q
      | inr r ↦ inr ((In-sort b xs).0 r)
    ],
    λ m.
        (In-insert (λ a c. not (lt c a)) x b (sort lt xs)).1
          (elim m [ inl q ↦ inl q | inr r ↦ inr ((In-sort b xs).1 r) ]),
  )

-- A strict order that is total up to its own equivalence sorts.
module _ {A : Type 0} (lt : A → A → Bool) (asym : (a b : A) → lt a b ≡ true → lt b a ≡ false)
    (cotrans : (a b c : A) → lt a b ≡ false → lt b c ≡ false → lt a c ≡ false) where
  insert-IsSorted :
      (a : A) (xs : List A) → IsSorted lt xs → IsSorted lt (insert (λ x y. not (lt y x)) a xs)
  unfolding insert
  insert-IsSorted a [] s = (tt, tt)
  insert-IsSorted a (x ∷ xs) s = elim (Bool-cases (lt x a)) [
    | inl e ↦ rw e (
      All-insert (λ u v. not (lt v u)) (λ y. lt y x ≡ false) a xs (asym x a e) s.0,
      insert-IsSorted a xs s.1,
    )
    | inr e ↦ rw e ((e, below a x xs e s.0), s)
  ]
    where
      below :
          (a x : A) (xs : List A)
          → lt x a ≡ false
          → All (λ y. lt y x ≡ false) xs
          → All (λ y. lt y a ≡ false) xs
      below a x [] e h = tt
      below a x (y ∷ ys) e h = (cotrans y x a h.0 e, below a x ys e h.1)

  pub sort-IsSorted : (xs : List A) → IsSorted lt (sort lt xs)
  unfolding sort
  sort-IsSorted [] = tt
  sort-IsSorted (x ∷ xs) = insert-IsSorted x (sort lt xs) (sort-IsSorted xs)
