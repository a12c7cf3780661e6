-- ===== src/Application/Planning/Digits.antt =====
-- Texts of bytes in their order: slices, numbers of one width, and separators.
use community_stack.Common.{
  ℕ, zero, suc, ◌+◌, ◌*◌, ◌-◌, ◌<◌, ◌≤◌, ◌≡◌, refl, sym, ap, ap₂, ◌∙◌, subst, ◌⊎◌, inl, inr, Bool,
  true, false, List, [], ◌∷◌, some, ltb, ◌==◌, arith, length, take, drop, any, Bool-cases,
}
use community_stack.Application.Planning.Dates.{byte_at, parse_digits, parse, bytes_lt}

pub digits_mono :
    (bound n m : ℕ) (as' bs : List ℕ) (x y : ℕ)
    → length as' ≡ length bs
    → parse_digits bound n as' ≡ some x
    → parse_digits bound m bs ≡ some y
    → n < m
    → x < y
unfolding parse_digits
digits_mono bound n m [] [] x y l e f lt = ground (arith, e, f, lt)
digits_mono bound n m [] (b ∷ bs) x y l e f lt = absurd (omega (arith, l))
digits_mono bound n m (a ∷ as') [] x y l e f lt = absurd (omega (arith, l))
digits_mono bound n m (a ∷ as') (b ∷ bs) x y l e f lt =
    digits_mono bound (10 * n + (a - 48)) (10 * m + (b - 48)) as' bs x y (omega (arith, l))
      (ground (arith, e)) (ground (arith, f)) (ground (arith, e, f, lt))

pub digits_lt :
    (bound n : ℕ) (as' bs : List ℕ) (x y : ℕ)
    → length as' ≡ length bs
    → parse_digits bound n as' ≡ some x
    → parse_digits bound n bs ≡ some y
    → bytes_lt as' bs ≡ true
    → x < y
unfolding parse_digits bytes_lt
digits_lt bound n [] [] x y l e f lt = absurd (ground arith)
digits_lt bound n [] (b ∷ bs) x y l e f lt = absurd (omega (arith, l))
digits_lt bound n (a ∷ as') [] x y l e f lt = absurd (omega (arith, l))
digits_lt bound n (a ∷ as') (b ∷ bs) x y l e f lt = elim (Bool-cases (ltb a b)) [
  | inl c ↦
      digits_mono bound (10 * n + (a - 48)) (10 * n + (b - 48)) as' bs x y (omega (arith, l))
        (ground (arith, e)) (ground (arith, f)) (ground (arith, e, f, c))
  | inr c ↦
      let same : a ≡ b = ground (arith, c, lt) in
      digits_lt bound (10 * n + (a - 48)) as' bs x y (omega (arith, l)) (ground (arith, e))
        (subst (λ z. parse_digits bound (10 * n + (z - 48)) bs ≡ some y) (sym same)
          (ground (arith, f)))
        (ground (arith, c, lt))
]

-- Two texts of bytes are ordered by their first `k` bytes or, where these are equal, by the others.
pub bytes_lt-split :
    (k : ℕ) (as' bs : List ℕ)
    → k ≤ length as'
    → k ≤ length bs
    → bytes_lt as' bs ≡ true
    → (bytes_lt (take k as') (take k bs) ≡ true)
      ⊎ ((take k as' ≡ take k bs) × (bytes_lt (drop k as') (drop k bs) ≡ true))
unfolding bytes_lt
bytes_lt-split zero as' bs p q h = inr (refl, h)
bytes_lt-split (suc k) [] bs p q h = absurd (omega (arith, p))
bytes_lt-split (suc k) (a ∷ as') [] p q h = absurd (omega (arith, q))
bytes_lt-split (suc k) (a ∷ as') (b ∷ bs) p q h = elim (Bool-cases (ltb a b)) [
  | inl c ↦ inl (ground (arith, c))
  | inr c ↦
      let same : a ≡ b = ground (arith, c, h) in
      elim (bytes_lt-split k as' bs (omega (arith, p)) (omega (arith, q)) (ground (arith, c, h))) [
        | inl l ↦ inl (ground (arith, same, l))
        | inr (e, l) ↦ inr (ap₂ (λ x xs. x ∷ xs) same e, l)
      ]
]

pub any-take : (p : ℕ → Bool) (k : ℕ) (xs : List ℕ) → any p xs ≡ false → any p (take k xs) ≡ false
unfolding any
any-take p zero xs h = refl
any-take p (suc k) [] h = refl
any-take p (suc k) (x ∷ xs) h = ground (arith, h, any-take p k xs)

pub any-drop : (p : ℕ → Bool) (k : ℕ) (xs : List ℕ) → any p xs ≡ false → any p (drop k xs) ≡ false
unfolding any
any-drop p zero xs h = h
any-drop p (suc k) [] h = refl
any-drop p (suc k) (x ∷ xs) h = any-drop p k xs (ground (arith, h))

abbrev pub is_plus : ℕ → Bool
is_plus b = b == 43

-- A number without a sign is its digits.
pub unsigned_digits :
    (bound : ℕ) (bs : List ℕ) (x : ℕ)
    → any is_plus bs ≡ false
    → parse bound bs ≡ some x
    → parse_digits bound 0 bs ≡ some x
unfolding parse any
unsigned_digits bound [] x h e = cc
unsigned_digits bound (b ∷ []) x h e = e
unsigned_digits bound (b ∷ c ∷ bs) x h e = ground (arith, h, e)

pub length-drop : (k : ℕ) (xs : List ℕ) → length (drop k xs) ≡ length xs - k
length-drop zero xs = omega arith
length-drop (suc k) [] = omega arith
length-drop (suc k) (x ∷ xs) = omega (arith, length-drop k xs)

pub drop-nil : (j : ℕ) → drop {A = ℕ} j [] ≡ []
drop-nil zero = refl
drop-nil (suc j) = refl

pub drop-drop : (j k : ℕ) (xs : List ℕ) → drop j (drop k xs) ≡ drop (k + j) xs
drop-drop j zero xs = let e : j ≡ 0 + j = omega arith in ap (λ n. drop n xs) e
drop-drop j (suc k) [] = drop-nil j ∙ sym (drop-nil (suc k + j))
drop-drop j (suc k) (x ∷ xs) =
    let e : suc (k + j) ≡ suc k + j = omega arith in drop-drop j k xs ∙ ap (λ n. drop n (x ∷ xs)) e

-- A dash on both sides decides nothing.
pub dash_skipped :
    (as' bs : List ℕ)
    → byte_at 0 as' ≡ byte_at 0 bs
    → bytes_lt as' bs ≡ true
    → 1 ≤ length as'
    → 1 ≤ length bs
    → bytes_lt (drop 1 as') (drop 1 bs) ≡ true
unfolding bytes_lt
dash_skipped [] bs e h p q = absurd (omega (arith, p))
dash_skipped (a ∷ as') [] e h p q = absurd (omega (arith, q))
dash_skipped (a ∷ as') (b ∷ bs) e h p q = ground (arith, e, h)

pub byte_at-drop : (k : ℕ) (xs : List ℕ) → byte_at 0 (drop k xs) ≡ byte_at k xs
byte_at-drop zero xs = refl
byte_at-drop (suc k) [] = refl
byte_at-drop (suc k) (x ∷ xs) = byte_at-drop k xs

-- The rest of two texts from the byte `j` on, after a dash on both sides.
pub after_dash :
    (as' bs : List ℕ) (j : ℕ)
    → byte_at j as' ≡ byte_at j bs
    → suc j ≤ length as'
    → suc j ≤ length bs
    → bytes_lt (drop j as') (drop j bs) ≡ true
    → bytes_lt (drop (suc j) as') (drop (suc j) bs) ≡ true
after_dash as' bs j e p q h =
    let one = λ (xs : List ℕ). drop-drop 1 j xs ∙ ap (λ n. drop n xs) (add_one j) in
    subst (λ xs. bytes_lt xs (drop (suc j) bs) ≡ true) (one as')
      (subst (λ xs. bytes_lt (drop 1 (drop j as')) xs ≡ true) (one bs)
        (dash_skipped (drop j as') (drop j bs) (byte_at-drop j as' ∙ e ∙ sym (byte_at-drop j bs)) h
          (omega (arith, length-drop j as', p)) (omega (arith, length-drop j bs, q))))
  where
    add_one : (j : ℕ) → j + 1 ≡ suc j
    add_one j = omega arith

pub none_left : (as' bs : List ℕ) → length as' ≡ 0 → bytes_lt as' bs ≡ true → length bs ≡ 0 → ⊥
unfolding bytes_lt
none_left [] [] e h f = ground arith
none_left [] (b ∷ bs) e h f = omega (arith, f)
none_left (a ∷ as') bs e h f = omega (arith, e)
