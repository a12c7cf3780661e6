-- ===== src/Store/Channel.antt =====
-- `respond` and `receive` of src/adapters/sqlite.rs: the writer thread answers over a channel that
-- carries an error as its text.
use community_stack.Common.{String, ◌≡◌}
use community_stack.Failure.{Error, api, bail, context, Result, ok, err}

-- `error.to_string()`: the outermost message.
unfoldable pub to_string : Error → String
to_string (api e) = e.message
to_string (bail message) = message
to_string (context message cause) = message

-- `result.map_err(|error| error.to_string())`, then `map_err(anyhow::Error::msg)`.
unfoldable pub ask {ℓ} : {A : Type ℓ} → Result A → Result A
unfolding to_string
ask (ok a) = ok a
ask (err e) = err (bail (to_string e))

-- An answer that arrives is the one that was sent.
pub ask-eq-ok {ℓ} : {A : Type ℓ} (m : Result A) {a : A} → ask m ≡ ok a → m ≡ ok a
unfolding ask
ask-eq-ok (ok a) e = e
ask-eq-ok (err x) e = cc
