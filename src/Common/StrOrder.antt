-- ===== src/Common/StrOrder.antt =====
-- The order of texts (`str::cmp`, and SQLite's BINARY collation): that of their bytes, which for UTF-8
-- is that of their characters.
use Prim.Native.Char.{Char, code}
use Prim.Native.String.{String}
use mathlib.Core.Path.{◌≡◌, refl, ap₂}
use mathlib.Core.Bool.{Bool, true, false, ◌&&◌, ◌||◌}
use native.Mathlib.Omega.{arith}
use text.Mathlib.TextEquality.{codes_equal}
use community_stack.Common.Tests.{ltb, ◌==◌}

unfoldable pub str_lt : String → String → Bool
str_lt String.[] String.[] = false
str_lt String.[] (String.◌∷◌ d t) = true
str_lt (String.◌∷◌ c s) String.[] = false
str_lt (String.◌∷◌ c s) (String.◌∷◌ d t) = ltb (code c) (code d) || (code c == code d && str_lt s t)

pub str_lt_asym : (a b : String) → str_lt a b ≡ true → str_lt b a ≡ false
unfolding str_lt
str_lt_asym String.[] String.[] h = refl
str_lt_asym String.[] (String.◌∷◌ d t) h = refl
str_lt_asym (String.◌∷◌ c s) String.[] h = ground arith
str_lt_asym (String.◌∷◌ c s) (String.◌∷◌ d t) h = ground (arith, str_lt_asym s t)

pub str_lt_irrefl : (a : String) → str_lt a a ≡ false
unfolding str_lt
str_lt_irrefl String.[] = refl
str_lt_irrefl (String.◌∷◌ c s) = ground (arith, str_lt_irrefl s)

same_code : (c d : Char) → (code c == code d) ≡ true → c ≡ d
same_code c d h = codes_equal c d (ground arith)

pub str_lt_total : (a b : String) → str_lt a b ≡ false → str_lt b a ≡ false → a ≡ b
unfolding str_lt
str_lt_total String.[] String.[] h k = refl
str_lt_total String.[] (String.◌∷◌ d t) h k = absurd (ground arith)
str_lt_total (String.◌∷◌ c s) String.[] h k = absurd (ground arith)
str_lt_total (String.◌∷◌ c s) (String.◌∷◌ d t) h k =
    ap₂ (λ x y. String.◌∷◌ x y) (same_code c d (ground arith))
      (str_lt_total s t (ground arith) (ground arith))

pub str_lt_trans : (a b c : String) → str_lt a b ≡ true → str_lt b c ≡ true → str_lt a c ≡ true
unfolding str_lt
str_lt_trans String.[] String.[] c h k = absurd (ground arith)
str_lt_trans String.[] (String.◌∷◌ d t) String.[] h k = absurd (ground arith)
str_lt_trans String.[] (String.◌∷◌ d t) (String.◌∷◌ e u) h k = refl
str_lt_trans (String.◌∷◌ c s) String.[] e h k = absurd (ground arith)
str_lt_trans (String.◌∷◌ c s) (String.◌∷◌ d t) String.[] h k = absurd (ground arith)
str_lt_trans (String.◌∷◌ c s) (String.◌∷◌ d t) (String.◌∷◌ e u) h k =
    ground (arith, str_lt_trans s t u)

-- What is not before a text that is not before another one, is not before that one.
pub str_lt_cotrans : (a b c : String) → str_lt a b ≡ false → str_lt b c ≡ false → str_lt a c ≡ false
unfolding str_lt
str_lt_cotrans String.[] String.[] String.[] h k = refl
str_lt_cotrans String.[] String.[] (String.◌∷◌ e u) h k = absurd (ground arith)
str_lt_cotrans String.[] (String.◌∷◌ d t) c h k = absurd (ground arith)
str_lt_cotrans (String.◌∷◌ c s) b String.[] h k = refl
str_lt_cotrans (String.◌∷◌ c s) String.[] (String.◌∷◌ e u) h k = absurd (ground arith)
str_lt_cotrans (String.◌∷◌ c s) (String.◌∷◌ d t) (String.◌∷◌ e u) h k =
    ground (arith, str_lt_cotrans s t u)
