-- ===== src/State/Supersede/Numerals.antt =====
-- `integer_is_newer` of qtask_list/state.py against the order of the integers that its texts write.
use stockev_qtask_list.Base.{
  ℕ, ◌+◌, ◌-◌, ◌*◌, ◌≤◌, ◌<◌, ◌⊎◌, Bool, true, false, ◌≡◌, refl, arith, List, [], ◌∷◌, ltb, length,
  inl, inr,
}
use stockev_qtask_list.State.Supersede.{text_lt, is_negative, magnitude_is_newer, integer_is_newer}

-- Decimal digits, and the number that they write after `n`.
abbrev pub AreDigits : List ℕ → Type 0
AreDigits [] = Unit {0}
AreDigits (c ∷ cs) = (48 ≤ c) × (c ≤ 57) × AreDigits cs

abbrev pub value : ℕ → List ℕ → ℕ
value n [] = n
value n (c ∷ cs) = value (10 * n + (c - 48)) cs

-- A numeral of `str(int)` without its sign: no leading zero.
abbrev pub IsNumeral : List ℕ → Type 0
IsNumeral [] = ⊥
IsNumeral (c ∷ cs) = AreDigits (c ∷ cs) × ((49 ≤ c) ⊎ (length cs ≡ 0))

value-lt :
    (m n : ℕ) (xs ys : List ℕ)
    → m < n
    → length xs ≤ length ys
    → AreDigits xs
    → AreDigits ys
    → value m xs < value n ys
value-lt m n [] [] lt le da db = lt
value-lt m n [] (b ∷ ys) lt le da (b1, b2, db) =
    value-lt m (10 * n + (b - 48)) [] ys (omega arith) (omega arith) tt db
value-lt m n (a ∷ xs) [] lt le da db = ground arith
value-lt m n (a ∷ xs) (b ∷ ys) lt le (a1, a2, da) (b1, b2, db) =
    value-lt (10 * m + (a - 48)) (10 * n + (b - 48)) xs ys (omega arith) (omega arith) da db

text_lt-value :
    (n : ℕ) (xs ys : List ℕ)
    → length xs ≡ length ys
    → AreDigits xs
    → AreDigits ys
    → text_lt xs ys ≡ ltb (value n xs) (value n ys)
unfolding text_lt
text_lt-value n [] [] e da db = ground arith
text_lt-value n [] (b ∷ ys) e da db = ground arith
text_lt-value n (a ∷ xs) [] e da db = ground arith
text_lt-value n (a ∷ xs) (b ∷ ys) e (a1, a2, da) (b1, b2, db) = ground (
  arith,
  text_lt-value (10 * n + (a - 48)) xs ys (omega arith) da db,
  value-lt (10 * n + (a - 48)) (10 * n + (b - 48)) xs ys,
  value-lt (10 * n + (b - 48)) (10 * n + (a - 48)) ys xs,
)

shorter-value :
    (xs ys : List ℕ) → length xs < length ys → IsNumeral xs → IsNumeral ys → value 0 xs < value 0 ys
shorter-value [] ys lt na nb = absurd na
shorter-value (a ∷ xs) [] lt na nb = absurd nb
shorter-value (a ∷ xs) (b ∷ ys) lt (da, ha) ((b1, b2, db), inl big) =
    value-lt 0 (10 * 0 + (b - 48)) (a ∷ xs) ys (omega arith) (omega arith) da db
shorter-value (a ∷ xs) (b ∷ ys) lt (da, ha) (db, inr short) = ground arith

digits_of : (xs : List ℕ) → IsNumeral xs → AreDigits xs
digits_of [] n = absurd n
digits_of (x ∷ xs) n = n.0

-- The text of `str(int)`: the sign and the numeral.
abbrev pub int_text : Bool → List ℕ → List ℕ
int_text true xs = b'-' ∷ xs
int_text false xs = xs

-- Whether the first integer is the greater, of signs and absolute values.
abbrev pub is_greater : Bool → ℕ → Bool → ℕ → Bool
is_greater false m false n = ltb n m
is_greater false m true n = true
is_greater true m false n = false
is_greater true m true n = ltb m n

numeral-sign : (xs : List ℕ) → IsNumeral xs → is_negative xs ≡ false
numeral-sign [] n = refl
numeral-sign (x ∷ xs) ((x1, x2, d), h) = ground arith

magnitude-value :
    (negative : Bool) (xs ys : List ℕ)
    → IsNumeral xs
    → IsNumeral ys
    → magnitude_is_newer negative xs ys ≡ is_greater negative (value 0 xs) negative (value 0 ys)
unfolding magnitude_is_newer
magnitude-value true xs ys nx ny = ground (
  arith,
  text_lt-value 0 xs ys,
  digits_of xs nx,
  digits_of ys ny,
  shorter-value xs ys,
  shorter-value ys xs,
)
magnitude-value false xs ys nx ny = ground (
  arith,
  text_lt-value 0 ys xs,
  digits_of xs nx,
  digits_of ys ny,
  shorter-value xs ys,
  shorter-value ys xs,
)

-- A sign and a numeral that `str(int)` gives: zero has no sign.
abbrev pub IsInteger : Bool → List ℕ → Type 0
IsInteger true xs = IsNumeral xs × (0 < value 0 xs)
IsInteger false xs = IsNumeral xs

-- On the texts of two integers the comparison of the scripts is the order of the integers, of
-- any size.
pub integer_is_newer-is_greater :
    (p q : Bool) (xs ys : List ℕ)
    → IsInteger p xs
    → IsInteger q ys
    → integer_is_newer (int_text p xs) (int_text q ys) ≡ is_greater p (value 0 xs) q (value 0 ys)
unfolding integer_is_newer
integer_is_newer-is_greater true true xs ys (nx, px) (ny, py) = magnitude-value true xs ys nx ny
integer_is_newer-is_greater true false xs ys (nx, px) ny = ground (arith, numeral-sign ys ny)
integer_is_newer-is_greater false true xs ys nx (ny, py) = ground (arith, numeral-sign xs nx)
integer_is_newer-is_greater false false xs ys nx ny =
    ground (arith, numeral-sign xs nx, numeral-sign ys ny, magnitude-value false xs ys nx ny)
