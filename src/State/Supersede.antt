-- ===== src/State/Supersede.antt =====
-- `integer_is_newer` (_INTEGER_COMPARE_LUA) and `supersede_is_newer` of qtask_list/state.py: texts
-- are lists of bytes, and Lua compares them byte by byte.
pub mod Numerals
use Prim.Native.Nat.{compare, Ordering}
use mathlib.Core.Option.{Option, none, some}
use stockev_qtask_list.Base.{
  ℕ, String, Bool, true, false, List, [], ◌∷◌, ltb, ◌==◌, if◌then◌else◌, length, update,
}
use stockev_qtask_list.Store.Messages.{SupersedeValue, int_value, str_value}
use stockev_qtask_list.Store.{Store}

-- `a < b` on texts.
unfoldable pub text_lt : List ℕ → List ℕ → Bool
text_lt xs [] = false
text_lt [] (y ∷ ys) = true
text_lt (x ∷ xs) (y ∷ ys) = elim (compare x y) [
  | Ordering.lt ↦ true
  | Ordering.gt ↦ false
  | Ordering.eq ↦ text_lt xs ys
]

-- `string.sub(text, 1, 1) == '-'`.
abbrev pub is_negative : List ℕ → Bool
is_negative [] = false
is_negative (c ∷ cs) = c == b'-'

abbrev pub tail_text : List ℕ → List ℕ
tail_text [] = []
tail_text (c ∷ cs) = cs

abbrev pub magnitude : List ℕ → List ℕ
magnitude cs = if is_negative cs then tail_text cs else cs

-- The comparison of two texts of one sign.
unfoldable pub magnitude_is_newer : Bool → List ℕ → List ℕ → Bool
magnitude_is_newer negative a b =
    if length a == length b
    then if negative then text_lt a b else text_lt b a
    else if negative
    then ltb (length a) (length b)
    else ltb (length b) (length a)

unfoldable pub integer_is_newer : List ℕ → List ℕ → Bool
unfolding magnitude_is_newer
integer_is_newer candidate current = elim (is_negative candidate) [
  | true ↦ elim (is_negative current) [
    | true ↦ magnitude_is_newer true (magnitude candidate) (magnitude current)
    | false ↦ false
  ]
  | false ↦ elim (is_negative current) [
    | true ↦ true
    | false ↦ magnitude_is_newer false (magnitude candidate) (magnitude current)
  ]
]

-- Of two kinds the text that begins "s:" is the greater.
unfoldable pub supersede_is_newer : SupersedeValue → Option SupersedeValue → Bool
supersede_is_newer candidate none = true
supersede_is_newer (int_value a) (some (int_value b)) = integer_is_newer a b
supersede_is_newer (str_value a) (some (str_value b)) = text_lt b a
supersede_is_newer (str_value a) (some (int_value b)) = true
supersede_is_newer (int_value a) (some (str_value b)) = false

-- GET, the test and SET.
unfoldable pub raised :
    Option (String × SupersedeValue)
    → (String → Option SupersedeValue)
    → String
    → Option SupersedeValue
raised none m = m
raised (some (key, value)) m =
    if supersede_is_newer value (m key) then update m key (some value) else m

unfoldable pub raise_supersede : Option (String × SupersedeValue) → Store → Store
raise_supersede v s = record s { supersedes = raised v s.supersedes }
