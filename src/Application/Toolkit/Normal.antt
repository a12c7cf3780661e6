-- ===== src/Application/Toolkit/Normal.antt =====
-- The normal form of a concept: its lists as sets.
use community_stack.Common.{
  ◌≡◌, refl, sym, ap, ap₂, ◌∙◌, subst, ◌⊎◌, inl, inr, ◌↔◌, String, true, false, List, [], ◌∷◌,
  Option, none, some, str_eq, str_eq_iff, arith, In, All, All-In, All-mono, Bool-cases,
}
use community_stack.Common.Sort.{sort, In-sort, IsSorted, sort-IsSorted}
use community_stack.Common.StrOrder.{
  str_lt, str_lt_asym, str_lt_irrefl, str_lt_total, str_lt_trans, str_lt_cotrans,
}
use community_stack.Domain.Toolkit.{ConceptDefinition}
use community_stack.Application.Toolkit.Concepts.{
  keep_first, dedup, sort_dedup, sort_dedup?, normalize_concept,
}

-- Each text is before all later ones.
abbrev pub IsIncreasing : List String → Type 0
IsIncreasing [] = Unit
IsIncreasing (x ∷ xs) = All (λ y. str_lt x y ≡ true) xs × IsIncreasing xs

abbrev pub SameMembers : List String → List String → Type 0
SameMembers xs ys = (s : String) → In s xs ↔ In s ys

keep-In : (x s : String) (xs : List String) → In s (keep_first x xs) ↔ ((x ≡ s) ⊎ In s xs)
keep-In x s [] = (λ m. m, λ m. m)
keep-In x s (y ∷ ys) = elim (Bool-cases (str_eq x y)) [
  | inl e ↦
      let same : x ≡ y = (str_eq_iff x y).0 e in
      rw e (
        λ m. elim m [ inl q ↦ inl q | inr n ↦ inr (inr n) ],
        λ m. elim m [ inl q ↦ inl q | inr n ↦ elim n [ inl q ↦ inl (same ∙ q) | inr o ↦ inr o ] ],
      )
  | inr e ↦ rw e (λ m. m, λ m. m)
]

dedup-In : (s : String) (xs : List String) → In s (dedup xs) ↔ In s xs
unfolding dedup
dedup-In s [] = (λ m. m, λ m. m)
dedup-In s (x ∷ xs) = (
  λ m. elim ((keep-In x s (dedup xs)).0 m) [ inl q ↦ inl q | inr n ↦ inr ((dedup-In s xs).0 n) ],
  λ m. (keep-In x s (dedup xs)).1 (elim m [ inl q ↦ inl q | inr n ↦ inr ((dedup-In s xs).1 n) ]),
)

All-from : {A : Type 0} (P : A → Type 0) (xs : List A) → ((a : A) → In a xs → P a) → All P xs
All-from P [] h = tt
All-from P (x ∷ xs) h = (h x (inl refl), All-from P xs (λ a m. h a (inr m)))

before_or_same : (x y : String) → str_lt y x ≡ false → str_eq x y ≡ false → str_lt x y ≡ true
before_or_same x y h e = elim (Bool-cases (str_lt x y)) [
  | inl b ↦ b
  | inr b ↦ absurd (ground (arith, e, (str_eq_iff x y).1 (str_lt_total x y b h)))
]

keep-IsIncreasing :
    (x : String) (xs : List String)
    → All (λ y. str_lt y x ≡ false) xs
    → IsIncreasing xs
    → IsIncreasing (keep_first x xs)
keep-IsIncreasing x [] h s = (tt, tt)
keep-IsIncreasing x (y ∷ ys) h s = elim (Bool-cases (str_eq x y)) [
  | inl e ↦
      let same : y ≡ x = sym ((str_eq_iff x y).0 e) in
      rw e (subst (λ z. All (λ w. str_lt z w ≡ true) ys) same s.0, s.1)
  | inr e ↦
      let less : str_lt x y ≡ true = before_or_same x y h.0 e in
      rw e (
        (
          less,
          All-mono (λ w. str_lt y w ≡ true) (λ w. str_lt x w ≡ true) ys
              (λ w k. str_lt_trans x y w less k) s.0,
        ),
        s,
      )
]

dedup-IsIncreasing : (xs : List String) → IsSorted str_lt xs → IsIncreasing (dedup xs)
unfolding dedup
dedup-IsIncreasing [] s = tt
dedup-IsIncreasing (x ∷ xs) s =
    keep-IsIncreasing x (dedup xs)
      (All-from (λ y. str_lt y x ≡ false) (dedup xs)
        (λ y m. All-In (λ z. str_lt z x ≡ false) xs y s.0 ((dedup-In y xs).0 m)))
      (dedup-IsIncreasing xs s.1)

pub sort_dedup-IsIncreasing : (xs : List String) → IsIncreasing (sort_dedup xs)
unfolding sort_dedup
sort_dedup-IsIncreasing xs =
    dedup-IsIncreasing (sort str_lt xs) (sort-IsSorted str_lt str_lt_asym str_lt_cotrans xs)

pub sort_dedup-In : (s : String) (xs : List String) → In s (sort_dedup xs) ↔ In s xs
unfolding sort_dedup
sort_dedup-In s xs = (
  λ m. (In-sort str_lt s xs).0 ((dedup-In s (sort str_lt xs)).0 m),
  λ m. (dedup-In s (sort str_lt xs)).1 ((In-sort str_lt s xs).1 m),
)

absurd_before :
    (x y : String) (xs ys : List String)
    → All (λ w. str_lt x w ≡ true) xs
    → All (λ w. str_lt y w ≡ true) ys
    → In x ys
    → In y xs
    → ⊥
absurd_before x y xs ys hx hy mx my = ground (
  arith,
  All-In (λ w. str_lt x w ≡ true) xs y hx my,
  str_lt_asym x y,
  All-In (λ w. str_lt y w ≡ true) ys x hy mx,
)

not_before_itself : (x : String) (xs : List String) → All (λ w. str_lt x w ≡ true) xs → In x xs → ⊥
not_before_itself x xs h m =
    ground (arith, All-In (λ w. str_lt x w ≡ true) xs x h m, str_lt_irrefl x)

-- An increasing list is known by its members.
increasing_unique :
    (xs ys : List String) → IsIncreasing xs → IsIncreasing ys → SameMembers xs ys → xs ≡ ys
increasing_unique [] [] s t h = refl
increasing_unique [] (y ∷ ys) s t h = absurd ((h y).1 (inl refl))
increasing_unique (x ∷ xs) [] s t h = absurd ((h x).0 (inl refl))
increasing_unique (x ∷ xs) (y ∷ ys) s t h =
    let head : x ≡ y = elim ((h x).0 (inl refl)) [
      | inl q ↦ sym q
      | inr m ↦ elim ((h y).1 (inl refl)) [
        | inl q ↦ q
        | inr n ↦ absurd (absurd_before x y xs ys s.0 t.0 m n)
      ]
    ] in
    ap₂ (λ a as'. a ∷ as') head
      (increasing_unique xs ys s.1 t.1 (λ w. (
        λ m. elim ((h w).0 (inr m)) [
          | inl q ↦ absurd (not_before_itself x xs s.0 (subst (λ z. In z xs) (sym q ∙ sym head) m))
          | inr n ↦ n
        ],
        λ m. elim ((h w).1 (inr m)) [
          | inl q ↦ absurd (not_before_itself y ys t.0 (subst (λ z. In z ys) (sym q ∙ head) m))
          | inr n ↦ n
        ],
      )))

pub sort_dedup_same : (xs ys : List String) → SameMembers xs ys → sort_dedup xs ≡ sort_dedup ys
sort_dedup_same xs ys h =
    increasing_unique (sort_dedup xs) (sort_dedup ys) (sort_dedup-IsIncreasing xs)
      (sort_dedup-IsIncreasing ys)
      (λ s. (
        λ m. (sort_dedup-In s ys).1 ((h s).0 ((sort_dedup-In s xs).0 m)),
        λ m. (sort_dedup-In s xs).1 ((h s).1 ((sort_dedup-In s ys).0 m)),
      ))

abbrev pub SameOptionMembers : Option (List String) → Option (List String) → Type 0
SameOptionMembers none none = Unit
SameOptionMembers (some xs) (some ys) = SameMembers xs ys
SameOptionMembers _ _ = ⊥

sort_dedup?_same :
    (o p : Option (List String)) → SameOptionMembers o p → sort_dedup? o ≡ sort_dedup? p
sort_dedup?_same none none h = refl
sort_dedup?_same none (some ys) h = absurd h
sort_dedup?_same (some xs) none h = absurd h
sort_dedup?_same (some xs) (some ys) h = ap some (sort_dedup_same xs ys h)

-- Two definitions that differ only in the order and the repetitions within their aliases, applicable
-- categories and allowed values.
pub record SameConcept (c d : ConceptDefinition) : Type 0 where
  pub aliases : SameMembers c.aliases d.aliases
  pub categories : SameMembers c.applicable_categories d.applicable_categories
  pub allowed : SameOptionMembers c.allowed_values d.allowed_values
  pub rest :
      record c { aliases = []; applicable_categories = []; allowed_values = none }
      ≡ record d { aliases = []; applicable_categories = []; allowed_values = none }

normal_of_same :
    (c d : ConceptDefinition) → SameConcept c d → normalize_concept c ≡ normalize_concept d
unfolding normalize_concept
normal_of_same c d h =
    ap₂
      (λ (e : ConceptDefinition) (l : List String × List String × Option (List String)). record e {
        aliases = l.0;
        applicable_categories = l.1;
        allowed_values = l.2;
      })
      h.rest
      (ap₂ (λ as' (l : List String × Option (List String)). (as', l.0, l.1))
        (sort_dedup_same c.aliases d.aliases h.aliases)
        (ap₂ (λ cs o. (cs, o))
          (sort_dedup_same c.applicable_categories d.applicable_categories h.categories)
          (sort_dedup?_same c.allowed_values d.allowed_values h.allowed)))

same_of_normal : (xs ys : List String) → sort_dedup xs ≡ sort_dedup ys → SameMembers xs ys
same_of_normal xs ys e s = (
  λ m. (sort_dedup-In s ys).0 (subst (In s) e ((sort_dedup-In s xs).1 m)),
  λ m. (sort_dedup-In s xs).0 (subst (In s) (sym e) ((sort_dedup-In s ys).1 m)),
)

same_of_option :
    (o p : Option (List String)) → sort_dedup? o ≡ sort_dedup? p → SameOptionMembers o p
same_of_option none none e = tt
same_of_option none (some ys) e = absurd (cc)
same_of_option (some xs) none e = absurd (cc)
same_of_option (some xs) (some ys) e = same_of_normal xs ys (cc)

-- Two definitions have the same normal form exactly if they differ only in the order and the
-- repetitions within their aliases, applicable categories and allowed values.
pub normalize_concept_iff :
    (c d : ConceptDefinition) → (normalize_concept c ≡ normalize_concept d) ↔ SameConcept c d
unfolding normalize_concept
normalize_concept_iff c d = (
  λ e. record {
    aliases = same_of_normal c.aliases d.aliases (ap (λ (x : ConceptDefinition). x.aliases) e);
    categories =
        same_of_normal c.applicable_categories d.applicable_categories
          (ap (λ (x : ConceptDefinition). x.applicable_categories) e);
    allowed =
        same_of_option c.allowed_values d.allowed_values
          (ap (λ (x : ConceptDefinition). x.allowed_values) e);
    rest =
        ap
          (λ (x : ConceptDefinition). record x {
            aliases = [];
            applicable_categories = [];
            allowed_values = none;
          })
          e;
  },
  normal_of_same c d,
)
