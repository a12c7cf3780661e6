-- ===== src/Application/Validate.antt =====
-- The validators of src/application.rs.
use community_stack.Common.{
  ℕ, String, len, is_empty, has_control, concat, ◌||◌, ltb, Option, none, some,
}
use community_stack.Failure.{Check, ok, bail, reject, ◌>>◌}

unfoldable pub validate_object_id : String → String → Check
validate_object_id value field = do
  reject (is_empty value || ltb 256 (len value)) (bail (concat field " must contain 1..=256 bytes"))
  reject (has_control value) (bail (concat field " contains a control character"))

unfoldable pub validate_fact_term : String → String → Check
validate_fact_term value field = do
  reject (is_empty value || ltb 1024 (len value))
      (bail (concat field " must contain 1..=1024 bytes"))
  reject (has_control value) (bail (concat field " contains a control character"))

unfoldable pub validate_idempotency_key : String → Check
validate_idempotency_key value =
    reject (is_empty value || ltb 128 (len value))
      (bail "idempotency_key must contain 1..=128 bytes")

-- The message of the source also shows `max`.
unfoldable pub validate_optional_term : Option String → String → ℕ → Check
validate_optional_term none field max = ok tt
validate_optional_term (some value) field max =
    reject (is_empty value || ltb max (len value) || has_control value)
      (bail (concat field " must contain non-control bytes when supplied"))
