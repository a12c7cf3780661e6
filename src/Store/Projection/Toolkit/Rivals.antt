-- ===== src/Store/Projection/Toolkit/Rivals.antt =====
-- The tables of the toolkit hold no two different verified values for a concept that has one: what
-- that rests on, and that concepts, tools and guarded assertions keep it.
use community_stack.Common.{
  ◌≡◌, ◌≢◌, refl, sym, ap, ◌∙◌, subst, ◌⊎◌, inl, inr, String, Bool, true, false, List, [], ◌∷◌,
  str_eq_iff, arith, update, In, In-update, Bool-cases,
}
use community_stack.Domain.Equality.{opt_value_eq_sym}
use community_stack.Domain.Json.{opt_value_eq}
use community_stack.Domain.Toolkit.{ConceptDefinition, one, ToolkitConcept, verified}
use community_stack.Store.Tables.{Scoped, AssertionRow, ToolkitTables}
use community_stack.Store.Projection.Toolkit.{concept_row, active_concept}

-- Rows of one application and community.
pub record SameScope {A B : Type 0} (r : Scoped A) (s : Scoped B) : Type 0 where
  pub app : r.app_id ≡ s.app_id
  pub community : r.community_id ≡ s.community_id

-- The row of the concept that an assertion is about, in its revision.
pub record IsConceptOf (c : Scoped ToolkitConcept) (r : Scoped AssertionRow) : Type 0 where
  pub scope : SameScope c r
  pub key : c.row.definition.key ≡ r.row.assertion.concept
  pub revision : c.row.revision ≡ r.row.assertion.concept_revision

-- Different verified assertions about a tool and a concept that has one value.
pub record Rivals (cs : List (Scoped ToolkitConcept)) (r s : Scoped AssertionRow) : Type 0 where
  pub scope : SameScope r s
  pub tool : r.row.assertion.tool ≡ s.row.assertion.tool
  pub concept : r.row.assertion.concept ≡ s.row.assertion.concept
  pub revision : r.row.assertion.concept_revision ≡ s.row.assertion.concept_revision
  pub left : r.row.assertion.verification_state ≡ verified
  pub right : s.row.assertion.verification_state ≡ verified
  pub apart : r.row.assertion.assertion_id ≢ s.row.assertion.assertion_id
  pub about : Scoped ToolkitConcept
  pub listed : In about cs
  pub is_about : IsConceptOf about r
  pub single : about.row.definition.cardinality ≡ one

abbrev pub SameValue : Scoped AssertionRow → Scoped AssertionRow → Type 0
SameValue r s = opt_value_eq r.row.assertion.value s.row.assertion.value ≡ true

-- What the handlers keep of the tables.
pub record IsSound (t : ToolkitTables) : Type 0 where
  -- A revision of a concept is defined once.
  pub defined_once :
      (c d : Scoped ToolkitConcept)
      → In c t.concepts
      → In d t.concepts
      → SameScope c d
      → c.row.definition.key ≡ d.row.definition.key
      → c.row.revision ≡ d.row.revision
      → c.row.definition ≡ d.row.definition
  -- The concept of each assertion is there.
  pub known :
      (r : Scoped AssertionRow)
      → In r t.assertions
      → (c : Scoped ToolkitConcept) × In c t.concepts × IsConceptOf c r
  -- An assertion has one row.
  pub stored_once :
      (r s : Scoped AssertionRow)
      → In r t.assertions
      → In s t.assertions
      → SameScope r s
      → r.row.assertion.assertion_id ≡ s.row.assertion.assertion_id
      → r ≡ s
  -- Rivals have the same value.
  pub agree :
      (r s : Scoped AssertionRow)
      → In r t.assertions
      → In s t.assertions
      → Rivals t.concepts r s
      → SameValue r s

pub SameScope-sym : {A B : Type 0} {r : Scoped A} {s : Scoped B} → SameScope r s → SameScope s r
SameScope-sym h = record { app = sym h.app; community = sym h.community }

pub SameScope-trans :
    {A B C : Type 0} {r : Scoped A} {s : Scoped B} {q : Scoped C}
    → SameScope r s
    → SameScope s q
    → SameScope r q
SameScope-trans h k = record { app = h.app ∙ k.app; community = h.community ∙ k.community }

-- The rivals of a row in the other order.
pub Rivals-sym :
    {cs : List (Scoped ToolkitConcept)} {r s : Scoped AssertionRow} → Rivals cs r s → Rivals cs s r
Rivals-sym h = record {
  scope = SameScope-sym h.scope;
  tool = sym h.tool;
  concept = sym h.concept;
  revision = sym h.revision;
  left = h.right;
  right = h.left;
  apart = λ q. h.apart (sym q);
  about = h.about;
  listed = h.listed;
  is_about = record {
    scope = SameScope-trans h.is_about.scope h.scope;
    key = h.is_about.key ∙ h.concept;
    revision = h.is_about.revision ∙ h.revision;
  };
  single = h.single;
}

pub SameValue-sym : (r s : Scoped AssertionRow) → SameValue r s → SameValue s r
SameValue-sym r s h = opt_value_eq_sym s.row.assertion.value r.row.assertion.value ∙ h

-- A row that a test of its scope and key finds.
pub concept_row_from :
    (app community key revision : String) (c : Scoped ToolkitConcept)
    → c.app_id ≡ app
    → c.community_id ≡ community
    → c.row.definition.key ≡ key
    → c.row.revision ≡ revision
    → concept_row app community key revision c ≡ true
unfolding concept_row
concept_row_from app community key revision c a b k r = ground (
  arith,
  (str_eq_iff c.app_id app).1 a,
  (str_eq_iff c.community_id community).1 b,
  (str_eq_iff c.row.definition.key key).1 k,
  (str_eq_iff c.row.revision revision).1 r,
)

-- Two rows of one revision, active or not.
pub record SameRow (c d : Scoped ToolkitConcept) : Type 0 where
  pub scope : SameScope c d
  pub definition : c.row.definition ≡ d.row.definition
  pub revision : c.row.revision ≡ d.row.revision

abbrev pub deactivate : Scoped ToolkitConcept → Scoped ToolkitConcept
deactivate r = record r { row = record r.row { active_revision = false } }

refl-SameRow : (c : Scoped ToolkitConcept) → SameRow c c
refl-SameRow c = record {
  scope = record { app = refl; community = refl };
  definition = refl;
  revision = refl;
}

deactivate-SameRow : (d : Scoped ToolkitConcept) → SameRow (deactivate d) d
deactivate-SameRow d = record {
  scope = record { app = refl; community = refl };
  definition = refl;
  revision = refl;
}

pub updated-In :
    (app community key : String) (cs : List (Scoped ToolkitConcept)) (c : Scoped ToolkitConcept)
    → In c (update (active_concept app community key) deactivate cs)
    → (d : Scoped ToolkitConcept) × In d cs × SameRow c d
updated-In app community key cs c m =
    let (d, i, why) = In-update (active_concept app community key) deactivate cs c m in
    (
      d,
      i,
      elim why [
        | inl (p, q) ↦ subst (λ x. SameRow x d) q (deactivate-SameRow d)
        | inr (p, q) ↦ subst (λ x. SameRow x d) q (refl-SameRow d)
      ],
    )

pub In-updated :
    {A : Type 0} (p : A → Bool) (f : A → A) (xs : List A) (a : A)
    → In a xs
    → In (f a) (update p f xs) ⊎ In a (update p f xs)
unfolding update
In-updated p f [] a m = absurd m
In-updated p f (x ∷ xs) a (inr m) = elim (In-updated p f xs a m) [
  | inl i ↦ inl (inr i)
  | inr i ↦ inr (inr i)
]
In-updated p f (x ∷ xs) a (inl q) = elim (Bool-cases (p x)) [
  | inl e ↦ inl (inl (ground (arith, e, ap f q)))
  | inr e ↦ inr (inl (ground (arith, e, q)))
]

pub concepts-kept :
    (app community key : String) (cs : List (Scoped ToolkitConcept)) (d : Scoped ToolkitConcept)
    → In d cs
    → (c : Scoped ToolkitConcept) × In c (update (active_concept app community key) deactivate cs)
      × SameRow c d
concepts-kept app community key cs d m =
    elim (In-updated (active_concept app community key) deactivate cs d m) [
      | inl i ↦ (deactivate d, i, deactivate-SameRow d)
      | inr i ↦ (d, i, refl-SameRow d)
    ]

-- The concept of an assertion by another row of the same revision.
pub moved_concept :
    {c d : Scoped ToolkitConcept} {r : Scoped AssertionRow}
    → SameRow c d
    → IsConceptOf d r
    → IsConceptOf c r
moved_concept h k = record {
  scope = SameScope-trans h.scope k.scope;
  key = ap (λ (x : ConceptDefinition). x.key) h.definition ∙ k.key;
  revision = h.revision ∙ k.revision;
}

pub SameRow-sym : {c d : Scoped ToolkitConcept} → SameRow c d → SameRow d c
SameRow-sym h = record {
  scope = SameScope-sym h.scope;
  definition = sym h.definition;
  revision = sym h.revision;
}
