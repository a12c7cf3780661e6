-- ===== src/Application/Toolkit.antt =====
-- src/application/toolkit.rs: the validators and the look-up that all its operations use. The catalog
-- of a community is in Domain/Toolkit; one child for concepts, one for the values of assertions, one
-- for one
-- requirement of a query, one for queries, one for the handlers; the other children hold their theorems.
pub mod Concepts
pub mod Values
pub mod Requirement
pub mod Query
pub mod Writes
pub mod Handlers
pub mod Reads
pub mod Written
pub mod Checked
pub mod Guards
pub mod Kept
pub mod OneValue
pub mod Satisfied
pub mod Normal
pub mod Exact
pub mod Order
pub mod Ranking
use community_stack.Common.{
  ℕ, suc, String, len, is_empty, has_control, all_chars, is_ascii_digit, is_ascii_alphanumeric,
  concat, Bool, true, false, not, ◌&&◌, ◌||◌, Option, none, some, is_none, is_some, ltb, ◌==◌,
  str_eq, if◌then◌else◌, find,
}
use community_stack.Domain.Toolkit.{ToolkitConcept, ToolkitCatalog}
use community_stack.Failure.{Check, Result, ok, bail, reject, or_fail, ◌>>◌}
use Prim.Native.Char.{code}

-- `byte.is_ascii_alphanumeric() || matches!(byte, b'.' | b'_' | b'-' | b':' | b'/')`
abbrev pub is_key_char : ℕ → Bool
is_key_char c = is_ascii_alphanumeric c || c == 46 || c == 95 || c == 45 || c == 58 || c == 47

unfoldable pub validate_key : String → String → Check
validate_key value field = do
  reject (is_empty value || ltb 128 (len value)) (bail (concat field " must contain 1..=128 bytes"))
  reject (not (all_chars is_key_char value))
      (bail (concat field " contains unsupported characters"))

-- The message of the source also shows `max`.
unfoldable pub validate_text : String → String → ℕ → Check
validate_text value field max =
    reject (is_empty value || ltb max (len value) || has_control value)
      (bail (concat field " must contain printable bytes"))

unfoldable pub validate_optional_text : Option String → String → ℕ → Check
unfolding validate_text
validate_optional_text none field max = ok tt
validate_optional_text (some value) field max = validate_text value field max

-- The bytes from the one numbered `index` on: `-` at 4 and 7, digits elsewhere. A character that is
-- not ASCII is neither, and no more are its bytes.
unfoldable pub is_date_from : ℕ → String → Bool
is_date_from index String.[] = true
is_date_from index (String.◌∷◌ c s) =
    (if index == 4 || index == 7 then code c == 45 else is_ascii_digit (code c))
    && is_date_from (suc index) s

unfoldable pub validate_date : String → String → Check
unfolding is_date_from
validate_date value field =
    reject (not (len value == 10) || not (is_date_from 0 value))
      (bail (concat field " must use YYYY-MM-DD"))

abbrev pub opt_is : Option String → String → Bool
opt_is none s = false
opt_is (some t) s = str_eq t s

-- `revision.is_none_or(|revision| concept.revision == revision)`
abbrev pub is_none_or_is : Option String → String → Bool
is_none_or_is none s = true
is_none_or_is (some t) s = str_eq s t

unfoldable pub names_concept : String → Option String → ToolkitConcept → Bool
names_concept key revision c =
    str_eq c.definition.key key
    && is_none_or_is revision c.revision
    && (is_some revision || c.active_revision)

unfoldable pub resolve_concept : ToolkitCatalog → String → Option String → Result ToolkitConcept
unfolding names_concept
resolve_concept catalog key revision =
    or_fail (find (names_concept key revision) catalog.concepts)
      (bail "concept revision was not found")
