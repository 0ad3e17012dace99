-- ===== src/History/Page.antt =====
-- READ_HISTORY_PAGE_LUA of qtask_list/history.py: the next members of a history index, after an
-- anchor. Members are texts as bytes, scores are microseconds.
pub mod Order
pub mod Search
pub mod Paging
use mathlib.Core.Option.{Option, none, some}
use stockev_qtask_list.Base.{
  ℕ, zero, suc, ◌+◌, ◌/◌, Bool, true, false, ◌&&◌, ◌||◌, ◌==◌, List, [], ◌∷◌, ltb, leb, length,
  take, drop, if◌then◌else◌,
}

-- A member with its score. The index is the list that ZREVRANGE answers.
abbrev pub Item : Type 0
Item = ℕ × List ℕ

-- `byte_before`.
unfoldable pub byte_before : List ℕ → List ℕ → Bool
byte_before [] [] = false
byte_before [] (c ∷ b) = true
byte_before (c ∷ a) [] = false
byte_before (c ∷ a) (d ∷ b) = let rest = byte_before a b in if c == d then rest else ltb c d

abbrev pub after_anchor : Option Item → Item → Bool
after_anchor none i = true
after_anchor (some (score, anchor)) (value, member) =
    ltb value score || (value == score && byte_before member anchor)

-- `eligible`.
unfoldable pub eligible : ℕ → Option Item → Item → Bool
eligible cutoff anchor i = leb i.0 cutoff && after_anchor anchor i

-- The test at a position.
unfoldable pub eligible_at : ℕ → Option Item → List Item → ℕ → Bool
eligible_at cutoff anchor [] n = false
eligible_at cutoff anchor (i ∷ is) zero = eligible cutoff anchor i
eligible_at cutoff anchor (i ∷ is) (suc n) = eligible_at cutoff anchor is n

-- The loop. Each round halves the interval, so its length is fuel enough.
unfoldable pub bisect : ℕ → (ℕ → Bool) → ℕ → ℕ → ℕ
bisect zero p left right = left
bisect (suc fuel) p left right = elim (ltb left right) [
  | false ↦ left
  | true ↦ elim (p ((left + right) / 2)) [
    | true ↦ bisect fuel p left ((left + right) / 2)
    | false ↦ bisect fuel p ((left + right) / 2 + 1) right
  ]
]

-- ZREVRANGE left (left + count - 1): an end of -1 is the last member.
unfoldable pub rev_range : ℕ → ℕ → List Item → List Item
rev_range left count is = if left == 0 && count == 0 then is else take count (drop left is)

-- The script.
unfoldable pub read_page : ℕ → Option Item → ℕ → List Item → List Item
read_page cutoff anchor count is =
    rev_range (bisect (length is) (eligible_at cutoff anchor is) 0 (length is)) count is
