-- ===== src/Application/Toolkit/Concepts.antt =====
-- The concepts of src/application/toolkit.rs: their normal form and what is checked of a new one.
use community_stack.Common.{
  String, all_chars, Bool, true, false, not, ◌&&◌, ◌||◌, List, [], ◌∷◌, ◌++◌, Option, none, some,
  ◌==◌, str_eq, if◌then◌else◌, any, concat,
}
use community_stack.Common.Sort.{sort}
use community_stack.Common.StrOrder.{str_lt}
use community_stack.Domain.Json.{is_finite, f64_lt}
use community_stack.Domain.Toolkit.{
  ConceptKind, ValueType, Scale, ConceptDefinition, ToolkitCatalog,
}
use community_stack.Failure.{Check, ok, err, bail, reject, for_each, with_context, ◌>>=◌, ◌>>◌}
use community_stack.Application.Toolkit.{validate_key, validate_text, resolve_concept}

abbrev pub keep_first : String → List String → List String
keep_first x [] = x ∷ []
keep_first x (y ∷ ys) = if str_eq x y then x ∷ ys else x ∷ y ∷ ys

-- `Vec::dedup`: of neighbours that are equal, one stays.
unfoldable pub dedup : List String → List String
dedup [] = []
dedup (x ∷ xs) = keep_first x (dedup xs)

-- `values.sort(); values.dedup();`
unfoldable pub sort_dedup : List String → List String
unfolding dedup
sort_dedup xs = dedup (sort str_lt xs)

abbrev pub sort_dedup? : Option (List String) → Option (List String)
sort_dedup? none = none
sort_dedup? (some xs) = some (sort_dedup xs)

unfoldable pub normalize_concept : ConceptDefinition → ConceptDefinition
unfolding sort_dedup
normalize_concept c = record c {
  aliases = sort_dedup c.aliases;
  applicable_categories = sort_dedup c.applicable_categories;
  allowed_values = sort_dedup? c.allowed_values;
}

abbrev pub is_enum : ValueType → Bool
is_enum ValueType.enum = true
is_enum _ = false

abbrev pub is_numeric : ValueType → Bool
is_numeric ValueType.integer = true
is_numeric ValueType.number = true
is_numeric _ = false

-- `concept.key.contains('.')`
unfoldable pub has_dot : String → Bool
has_dot key = not (all_chars (λ c. not (c == 46)) key)

abbrev pub validate_parent : String → Option String → Check
validate_parent key none = ok tt
validate_parent key (some parent) = do
  validate_key parent "parent"
  reject (str_eq parent key) (bail "a concept cannot be its own parent")

-- The `match concept.value_type`.
unfoldable pub validate_allowed_values : ValueType → Option (List String) → Check
validate_allowed_values ValueType.enum none = err (bail "enum concepts require allowed_values")
validate_allowed_values ValueType.enum (some []) = err (bail "enum concepts require allowed_values")
validate_allowed_values ValueType.enum (some (v ∷ vs)) =
    for_each (λ value. validate_text value "allowed value" 256) (v ∷ vs)
validate_allowed_values _ none = ok tt
validate_allowed_values _ (some values) =
    err (bail "allowed_values are valid only for enum concepts")

abbrev pub has_no_anchors : Scale → Bool
has_no_anchors s = elim s.anchors [ [] ↦ true | a ∷ as' ↦ false ]

unfoldable pub validate_scale : ConceptKind → ValueType → Option Scale → Check
validate_scale ConceptKind.dimension type none = err (bail "dimensions require a scale")
validate_scale ConceptKind.dimension type (some scale) = do
  reject (not (is_finite scale.min) || not (is_finite scale.max) || f64_lt scale.max scale.min)
      (bail "dimension scale must have finite ordered bounds")
  validate_key scale.rubric "rubric"
  validate_text scale.version "rubric version" 64
  reject (has_no_anchors scale) (bail "dimension scale requires anchors")
  reject (not (is_numeric type)) (bail "dimensions require an integer or number value type")
validate_scale _ type none = ok tt
validate_scale _ type (some scale) = err (bail "scale is valid only for dimension concepts")

unfoldable pub validate_concept_shape : ConceptDefinition → Check
unfolding has_dot validate_allowed_values validate_scale
validate_concept_shape c = do
  validate_key c.key "concept key"
  reject (not (has_dot c.key)) (bail "concept key must be namespaced")
  validate_text c.name "name" 256
  validate_text c.definition "definition" 8192
  for_each (λ alias. validate_text alias "alias" 256) c.aliases
  for_each (λ category. validate_key category "applicable category") c.applicable_categories
  validate_parent c.key c.parent
  validate_allowed_values c.value_type c.allowed_values
  validate_scale c.kind c.value_type c.scale

abbrev pub is_category : ConceptKind → Bool
is_category ConceptKind.domain = true
is_category ConceptKind.role = true
is_category _ = false

abbrev pub to_list : Option String → List String
to_list none = []
to_list (some s) = s ∷ []

unfoldable pub validate_concept_references : ConceptDefinition → ToolkitCatalog → Check
validate_concept_references c catalog =
    for_each
      (λ reference. do
        target ←
            with_context (resolve_concept catalog reference none)
              (concat "referenced concept " (concat reference " was not found"))
        reject
            (any (str_eq reference) c.applicable_categories
              && not (is_category target.definition.kind))
            (bail "applicable_categories must reference domain or role concepts"))
      (c.applicable_categories ++ to_list c.parent)
