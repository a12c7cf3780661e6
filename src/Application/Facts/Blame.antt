-- ===== src/Application/Facts/Blame.antt =====
-- The errors of src/application.rs, `validate_json_value`, that name a place in the value: their
-- messages begin with `$`, the root of every place.
use community_stack.Common.{
  String, ◌≡◌, refl, ◌∙◌, subst, ap, sym, ◌⊎◌, inl, Bool, true, false, Option, none, some, concat,
}
use community_stack.Failure.{Check, ok, err, api, bail, context, reject, or_fail, ◌>>=◌, ◌>>◌}
use community_stack.Application.Facts.Conform.{unsupported_type, refuse_unknown}
use text.Mathlib.TextBridge.{IsPrefix}
use text.Mathlib.TextLemmas.{append_assoc}

abbrev pub IsPlace : String → Type 0
IsPlace = IsPrefix "$"

-- The check succeeds, or its message names a place in the value, or it is the answer to a type that the
-- last arm refuses.
unfoldable pub BlamesValue : Check → Type 0
BlamesValue (ok u) = Unit {0}
BlamesValue (err (bail message)) = IsPlace message ⊎ (message ≡ unsupported_type)
BlamesValue (err (api e)) = ⊥
BlamesValue (err (context message e)) = ⊥

pub concat-IsPlace : (path rest : String) → IsPlace path → IsPlace (concat path rest)
concat-IsPlace path rest (u, e) =
    (concat u rest, sym (append_assoc "$" u rest) ∙ ap (λ p. concat p rest) e)

pub reject-BlamesValue :
    (b : Bool) (message : String) → IsPlace message → BlamesValue (reject b (bail message))
unfolding BlamesValue
reject-BlamesValue true message p = inl p
reject-BlamesValue false message p = tt

pub >>-BlamesValue :
    (first next : Check) → BlamesValue first → BlamesValue next → BlamesValue (first >> next)
unfolding BlamesValue
>>-BlamesValue (ok u) next p q = q
>>-BlamesValue (err (bail message)) next p q = p
>>-BlamesValue (err (api e)) next p q = absurd p
>>-BlamesValue (err (context message e)) next p q = absurd p

-- What is read of the value may be missing.
pub read-BlamesValue :
    {A : Type 0} (o : Option A) (message : String) (next : A → Check)
    → IsPlace message
    → ((a : A) → o ≡ some a → BlamesValue (next a))
    → BlamesValue (or_fail o (bail message) >>= next)
unfolding BlamesValue
read-BlamesValue none message next p f = inl p
read-BlamesValue (some a) message next p f = f a refl

-- What is read of the schema is there.
pub known-BlamesValue :
    {A : Type 0} (o : Option A) (message : String) (next : A → Check) (a : A)
    → o ≡ some a
    → BlamesValue (next a)
    → BlamesValue (or_fail o (bail message) >>= next)
known-BlamesValue o message next a e p =
    subst (λ o. BlamesValue (or_fail o (bail message) >>= next)) (sym e) p

pub unknown-BlamesValue :
    (o : Option String) (path : String) (next : Check)
    → IsPlace path
    → (o ≡ none → BlamesValue next)
    → BlamesValue (refuse_unknown path o >> next)
unfolding BlamesValue
unknown-BlamesValue none path next p f = f refl
unknown-BlamesValue (some key) path next p f =
    inl (concat-IsPlace path (concat "." (concat key " is not allowed by the schema")) p)

-- A check that goes on where the test fails, with what the test says then.
pub guard-BlamesValue :
    (b : Bool) (message : String) (next : Check)
    → IsPlace message
    → (b ≡ false → BlamesValue next)
    → BlamesValue (reject b (bail message) >> next)
unfolding BlamesValue
guard-BlamesValue true message next p f = inl p
guard-BlamesValue false message next p f = f refl
