-- ===== src/Examples/Numerals.antt =====
-- Two versions that differ beyond the precision of a double.
use stockev_qtask_list.Base.{ℕ, false, ◌≡◌, List, [], ◌∷◌, arith}
use stockev_qtask_list.State.Supersede.{integer_is_newer}
use stockev_qtask_list.State.Supersede.Numerals.{
  IsNumeral, value, int_text, is_greater, integer_is_newer-is_greater,
}

-- 9007199254740993 and 9007199254740992.
abbrev odd_version : List ℕ
odd_version =
    b'9' ∷ b'0' ∷ b'0' ∷ b'7' ∷ b'1' ∷ b'9' ∷ b'9' ∷ b'2' ∷ b'5' ∷ b'4' ∷ b'7' ∷ b'4' ∷ b'0' ∷ b'9'
    ∷ b'9' ∷ b'3' ∷ []

abbrev even_version : List ℕ
even_version =
    b'9' ∷ b'0' ∷ b'0' ∷ b'7' ∷ b'1' ∷ b'9' ∷ b'9' ∷ b'2' ∷ b'5' ∷ b'4' ∷ b'7' ∷ b'4' ∷ b'0' ∷ b'9'
    ∷ b'9' ∷ b'2' ∷ []

odd-IsNumeral : IsNumeral odd_version
odd-IsNumeral = ground arith

even-IsNumeral : IsNumeral even_version
even-IsNumeral = ground arith

integer_is_newer-is_greater_example :
    integer_is_newer (int_text false odd_version) (int_text false even_version)
    ≡ is_greater false (value 0 odd_version) false (value 0 even_version)
integer_is_newer-is_greater_example =
    integer_is_newer-is_greater false false odd_version even_version odd-IsNumeral even-IsNumeral
