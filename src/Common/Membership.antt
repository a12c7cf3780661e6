-- ===== src/Common/Membership.antt =====
-- Membership in a list, and what the list operations do to it.
use Prim.Native.Nat.{ℕ, zero, suc, ◌≤◌}
use mathlib.Core.Path.{◌≡◌, refl, sym, subst, ap}
use mathlib.Core.Logic.{◌⊎◌, inl, inr, ◌↔◌}
use mathlib.Core.Bool.{Bool, true, false}
use mathlib.Core.List.{List, [], ◌∷◌, ◌++◌, map}
use mathlib.Core.Option.{Option, none, some}
use native.Mathlib.Omega.{arith}
use community_stack.Common.Tests.{Bool-cases}
use community_stack.Common.Lists.{
  length, take, any, all, select, find, update, count, filter_map, All,
}

-- Membership with its place.
abbrev pub In : {A : Type 0} → A → List A → Type 0
In a [] = ⊥
In a (x ∷ xs) = (x ≡ a) ⊎ In a xs

module _ {A : Type 0} where
  pub All-append {κ} : (P : A → Type κ) (xs ys : List A) → All P xs → All P ys → All P (xs ++ ys)
  All-append P [] ys hx hy = hy
  All-append P (x ∷ xs) ys hx hy = (hx.0, All-append P xs ys hx.1 hy)

  pub All-mono {κ μ} :
      (P : A → Type κ) (Q : A → Type μ) (xs : List A) → ((a : A) → P a → Q a) → All P xs → All Q xs
  All-mono P Q [] f h = tt
  All-mono P Q (x ∷ xs) f h = (f x h.0, All-mono P Q xs f h.1)

  pub All-In {κ} : (P : A → Type κ) (xs : List A) (a : A) → All P xs → In a xs → P a
  All-In P [] a h m = absurd m
  All-In P (x ∷ xs) a h (inl e) = subst P e h.0
  All-In P (x ∷ xs) a h (inr m) = All-In P xs a h.1 m

  pub In-append_left : (a : A) (xs ys : List A) → In a xs → In a (xs ++ ys)
  In-append_left a [] ys m = absurd m
  In-append_left a (x ∷ xs) ys (inl e) = inl e
  In-append_left a (x ∷ xs) ys (inr m) = inr (In-append_left a xs ys m)

  pub In-append_right : (a : A) (xs ys : List A) → In a ys → In a (xs ++ ys)
  In-append_right a [] ys m = m
  In-append_right a (x ∷ xs) ys m = inr (In-append_right a xs ys m)

  pub In-append : (a : A) (xs ys : List A) → In a (xs ++ ys) → In a xs ⊎ In a ys
  In-append a [] ys m = inr m
  In-append a (x ∷ xs) ys (inl e) = inl (inl e)
  In-append a (x ∷ xs) ys (inr m) = elim (In-append a xs ys m) [
    | inl l ↦ inl (inr l)
    | inr r ↦ inr r
  ]

  -- One row at the end of a table.
  pub In-append_one : (a x : A) (xs : List A) → In a (xs ++ x ∷ []) → In a xs ⊎ (x ≡ a)
  In-append_one a x xs m = elim (In-append a xs (x ∷ []) m) [
    | inl l ↦ inl l
    | inr (inl e) ↦ inr e
    | inr (inr f) ↦ absurd f
  ]

  pub In-last : (x : A) (xs : List A) → In x (xs ++ x ∷ [])
  In-last x xs = In-append_right x xs (x ∷ []) (inl refl)

  -- A found row is in the table.
  pub find-In : (p : A → Bool) (xs : List A) (a : A) → find p xs ≡ some a → In a xs
  unfolding find
  find-In p [] a h = cc
  find-In p (x ∷ xs) a h = ground (arith, find-In p xs a)

  -- What a search does not find, no row is.
  pub find-none-All : (p : A → Bool) (xs : List A) → find p xs ≡ none → All (λ x. p x ≡ false) xs
  unfolding find
  find-none-All p [] h = tt
  find-none-All p (x ∷ xs) h = ground (arith, find-none-All p xs)

  pub any-In : (p : A → Bool) (xs : List A) → any p xs ≡ true → (a : A) × In a xs × (p a ≡ true)
  unfolding any
  any-In p [] h = absurd (cc)
  any-In p (x ∷ xs) h = elim (Bool-cases (p x)) [
    | inl e ↦ (x, inl refl, e)
    | inr e ↦ let (a, m, f) = any-In p xs (ground arith) in (a, inr m, f)
  ]

  pub any-false : (p : A → Bool) (xs : List A) → any p xs ≡ false → (a : A) → In a xs → p a ≡ false
  unfolding any
  any-false p [] h a m = absurd m
  any-false p (x ∷ xs) h a (inl e) = ground arith
  any-false p (x ∷ xs) h a (inr m) = any-false p xs (ground arith) a m

  pub any_from : (p : A → Bool) (xs : List A) → ((a : A) → In a xs → p a ≡ false) → any p xs ≡ false
  unfolding any
  any_from p [] h = refl
  any_from p (x ∷ xs) h = ground (arith, h x (inl refl), any_from p xs (λ a m. h a (inr m)))

  pub all-In : (p : A → Bool) (xs : List A) → all p xs ≡ true → (a : A) → In a xs → p a ≡ true
  unfolding all
  all-In p [] h a m = absurd m
  all-In p (x ∷ xs) h a (inl e) = ground arith
  all-In p (x ∷ xs) h a (inr m) = all-In p xs (ground arith) a m

  pub any_of_find-none : (p : A → Bool) (xs : List A) → find p xs ≡ none → any p xs ≡ false
  unfolding any find
  any_of_find-none p [] h = refl
  any_of_find-none p (x ∷ xs) h = ground (arith, any_of_find-none p xs)

  -- The rows of a query are those of the table that meet its condition.
  pub In-select :
      (p : A → Bool) (xs : List A) (a : A) → In a (select p xs) ↔ (In a xs × (p a ≡ true))
  unfolding select
  In-select p [] a = (λ m. absurd m, λ m. absurd m.0)
  In-select p (x ∷ xs) a = elim (Bool-cases (p x)) [
    | inl e ↦ rw e (
      λ m. elim m [
        | inl q ↦ (inl q, subst (λ y. p y ≡ true) q e)
        | inr r ↦ (inr ((In-select p xs a).0 r).0, ((In-select p xs a).0 r).1)
      ],
      λ m. elim m.0 [ inl q ↦ inl q | inr r ↦ inr ((In-select p xs a).1 (r, m.1)) ],
    )
    | inr e ↦ rw e (
      λ r. (inr ((In-select p xs a).0 r).0, ((In-select p xs a).0 r).1),
      λ m. elim m.0 [
        | inl q ↦ absurd (ground (arith, subst (λ y. p y ≡ false) q e, m.1))
        | inr r ↦ (In-select p xs a).1 (r, m.1)
      ],
    )
  ]

  pub In-take : (n : ℕ) (xs : List A) (a : A) → In a (take n xs) → In a xs
  In-take zero xs a m = absurd m
  In-take (suc n) [] a m = absurd m
  In-take (suc n) (x ∷ xs) a (inl e) = inl e
  In-take (suc n) (x ∷ xs) a (inr m) = inr (In-take n xs a m)

  -- A bound that the list does not reach leaves it as it is.
  pub take_all : (n : ℕ) (xs : List A) → length xs ≤ n → take n xs ≡ xs
  take_all zero [] le = refl
  take_all zero (x ∷ xs) le = absurd (omega (arith, le))
  take_all (suc n) [] le = refl
  take_all (suc n) (x ∷ xs) le = ap (λ ys. x ∷ ys) (take_all n xs (omega (arith, le)))

pub In-filter_map :
    {A B : Type 0} (f : A → Option B) (xs : List A) (b : B)
    → In b (filter_map f xs)
    → (a : A) × In a xs × (f a ≡ some b)
unfolding filter_map
In-filter_map f [] b m = absurd m
In-filter_map f (x ∷ xs) b m = go (f x) refl m (In-filter_map f xs b)
  where
    go :
        (o : Option _)
        → f x ≡ o
        → In b (elim o [ none ↦ filter_map f xs | some c ↦ c ∷ filter_map f xs ])
        → (In b (filter_map f xs) → (a : _) × In a xs × (f a ≡ some b))
        → (a : _) × In a (x ∷ xs) × (f a ≡ some b)
    go none e i later = let (a, j, g) = later i in (a, inr j, g)
    go (some c) e (inl q) later = (x, inl refl, subst (λ y. f x ≡ some y) q e)
    go (some c) e (inr i) later = let (a, j, g) = later i in (a, inr j, g)

module _ {A : Type 0} where
  pub count-In : (p : A → Bool) (xs : List A) (a : A) → In a xs → p a ≡ true → 1 ≤ count p xs
  unfolding count
  count-In p [] a m h = absurd m
  count-In p (x ∷ xs) a (inl e) h =
      let here = subst (λ y. p y ≡ true) (sym e) h in ground (arith, here)
  count-In p (x ∷ xs) a (inr m) h = ground (arith, count-In p xs a m h)

  -- The only row that a condition holds of is the one found.
  pub find_only :
      (p : A → Bool) (xs : List A) (a : A)
      → count p xs ≤ 1
      → In a xs
      → p a ≡ true
      → find p xs ≡ some a
  unfolding count find
  find_only p [] a le m h = absurd m
  find_only p (x ∷ xs) a le m h = elim (Bool-cases (p x)) [
    | inl b ↦ elim m [
      | inl e ↦ rw b (ap some e)
      | inr n ↦ absurd (ground (arith, b, le, count-In p xs a n h))
    ]
    | inr b ↦ elim m [
      | inl e ↦ absurd (ground (arith, subst (λ y. p y ≡ false) e b, h))
      | inr n ↦ rw b (find_only p xs a (ground (arith, b, le)) n h)
    ]
  ]

  pub count-le : (p : A → Bool) (xs : List A) → count p xs ≤ length xs
  unfolding count
  count-le p [] = omega arith
  count-le p (x ∷ xs) = ground (arith, count-le p xs)

  -- Rows that are replaced by one row.
  pub find-update :
      (p : A → Bool) (new : A) (xs : List A) (old : A)
      → p new ≡ true
      → find p xs ≡ some old
      → find p (update p (λ x. new) xs) ≡ some new
  unfolding find update
  find-update p new [] old h e = absurd (cc)
  find-update p new (x ∷ xs) old h e = ground (arith, h, e, find-update p new xs old h)

  pub In-update :
      (p : A → Bool) (f : A → A) (xs : List A) (a : A)
      → In a (update p f xs)
      → (b : A) × In b xs × (((p b ≡ true) × (f b ≡ a)) ⊎ ((p b ≡ false) × (b ≡ a)))
  unfolding update
  In-update p f [] a m = absurd m
  In-update p f (x ∷ xs) a (inr m) = let (b, i, h) = In-update p f xs a m in (b, inr i, h)
  In-update p f (x ∷ xs) a (inl e) = elim (Bool-cases (p x)) [
    | inl h ↦ (x, inl refl, inl (h, ground (arith, h, e)))
    | inr h ↦ (x, inl refl, inr (h, ground (arith, h, e)))
  ]

  pub In-update_holds :
      (p : A → Bool) (f : A → A) (xs : List A) (a : A)
      → p a ≡ true
      → In a xs
      → In (f a) (update p f xs)
  unfolding update
  In-update_holds p f [] a h m = absurd m
  In-update_holds p f (x ∷ xs) a h (inr m) = inr (In-update_holds p f xs a h m)
  In-update_holds p f (x ∷ xs) a h (inl e) =
      inl (ground (arith, ap f e, h, subst (λ y. p y ≡ true) (sym e) h))

pub In-map : {A B : Type 0} (f : A → B) (xs : List A) (a : A) → In a xs → In (f a) (map f xs)
In-map f [] a m = absurd m
In-map f (x ∷ xs) a (inl e) = inl (ap f e)
In-map f (x ∷ xs) a (inr m) = inr (In-map f xs a m)
