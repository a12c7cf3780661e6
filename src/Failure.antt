-- ===== src/Failure.antt =====
-- Failing operations. An `anyhow::Error` is either a typed, client-safe marker (an `ApiError`), or a
-- message (`bail!`, and every error of a library); `context` puts a message before another error.
use community_stack.Common.{
  String, ◌≡◌, refl, Bool, true, false, Option, none, some, List, [], ◌∷◌, All,
}
use community_stack.Domain.Error.{ApiErrorCode, ApiError}

pub data Error : Type 0 where
  api : ApiError → Error
  bail : String → Error
  context : String → Error → Error

pub data Result {ℓ} (A : Type ℓ) : Type ℓ where
  err : Error → Result A
  ok : A → Result A

-- A check returns nothing, or fails.
abbrev pub Check : Type 0
Check = Result (Unit {0})

-- `if condition { bail!(…) }` is `reject condition …`.
abbrev pub reject : Bool → Error → Check
reject true e = err e
reject false e = ok tt

-- The operator `?`: what follows runs on a success only.
abbrev pub ◌>>=◌ {μ ν} : {X : Type μ} {Y : Type ν} → Result X → (X → Result Y) → Result Y
err failure >>= next = err failure
ok x >>= next = next x

abbrev pub ◌>>◌ {ν} : {Y : Type ν} → Check → Result Y → Result Y
check >> next = check >>= λ u. next

infixl 5 ◌>>=◌ ◌>>◌
-- `option.context(…)?`
abbrev pub or_fail {ℓ} : {A : Type ℓ} → Option A → Error → Result A
or_fail none e = err e
or_fail (some a) e = ok a

abbrev pub is_ok {ℓ} : {A : Type ℓ} → Result A → Bool
is_ok (ok a) = true
is_ok (err e) = false

-- src/application.rs, `protocol_error`
unfoldable pub protocol_error : ApiErrorCode → String → Bool → Error
protocol_error code message retryable =
    api (record { code = code; message = message; retryable = retryable })

-- Both parts of a successful bind succeed.
pub >>=-eq-ok {μ ν} :
    {X : Type μ} {Y : Type ν} (m : Result X) (next : X → Result Y) {y : Y}
    → (m >>= next) ≡ ok y
    → (x : X) × (m ≡ ok x) × (next x ≡ ok y)
>>=-eq-ok (err failure) next e = cc
>>=-eq-ok (ok x) next e = (x, refl, e)

pub ok_eq {μ} : {X : Type μ} {x y : X} → ok x ≡ ok y → x ≡ y
ok_eq e = cc

pub reject-eq-ok : (b : Bool) (e : Error) {u : Unit {0}} → reject b e ≡ ok u → b ≡ false
reject-eq-ok true e h = cc
reject-eq-ok false e h = refl

-- `for x in xs { check(x)?; }`
unfoldable pub for_each {μ} : {A : Type μ} → (A → Check) → List A → Check
for_each f [] = ok tt
for_each f (x ∷ xs) = do f x; for_each f xs

-- `iter().map(f).collect::<Result<Vec<_>>>()`
unfoldable pub collect {μ ν} : {A : Type μ} {B : Type ν} → (A → Result B) → List A → Result (List B)
collect f [] = ok []
collect f (x ∷ xs) = do y ← f x; ys ← collect f xs; ok (y ∷ ys)

pub for_each-All :
    {A : Type 0} (f : A → Check) (xs : List A) → for_each f xs ≡ ok tt → All (λ x. f x ≡ ok tt) xs
unfolding for_each
for_each-All f [] e = tt
for_each-All f (x ∷ xs) e =
    let (u, first, rest) = >>=-eq-ok (f x) _ e in (first, for_each-All f xs rest)

-- `with_context`
abbrev pub with_context {ℓ} : {A : Type ℓ} → Result A → String → Result A
with_context (err e) message = err (context message e)
with_context (ok a) message = ok a

-- `if condition { check?; }`
abbrev pub when : Bool → Check → Check
when true check = check
when false check = ok tt
