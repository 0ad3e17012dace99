-- ===== src/History/Page/Search.antt =====
-- The binary search of READ_HISTORY_PAGE_LUA in qtask_list/history.py finds the first member that
-- is eligible.
use mathlib.Core.Option.{Option}
use stockev_qtask_list.Base.{
  take, drop, ℕ, zero, suc, ◌+◌, ◌/◌, ◌≤◌, ◌<◌, Bool, true, ◌≡◌, refl, arith, List, [], ◌∷◌, leb,
  length, if◌then◌else◌,
}
use stockev_qtask_list.History.Page.{Item, eligible, eligible_at, bisect, rev_range, read_page}
use stockev_qtask_list.History.Page.Order.{PrecedesAll, IsIndex, eligible-Precedes}

-- The loop finds the threshold of a test that has one.
bisect-threshold :
    (fuel k n left right : ℕ) (p : ℕ → Bool)
    → ((i : ℕ) → i < n → p i ≡ leb k i)
    → left ≤ k
    → k ≤ right
    → right ≤ n
    → right ≤ left + fuel
    → bisect fuel p left right ≡ k
unfolding bisect
bisect-threshold zero k n left right p h a b c d = omega arith
bisect-threshold (suc fuel) k n left right p h a b c d =
    let mid = (left + right) / 2 in
    ground (
      arith,
      h mid,
      bisect-threshold fuel k n left mid p h,
      bisect-threshold fuel k n (mid + 1) right p h,
    )

-- How many members stand before the first eligible one.
unfoldable pub passed : ℕ → Option Item → List Item → ℕ
passed cutoff anchor [] = 0
passed cutoff anchor (i ∷ is) =
    let rest = passed cutoff anchor is in if eligible cutoff anchor i then 0 else suc rest

unfoldable pub eligible_items : ℕ → Option Item → List Item → List Item
eligible_items cutoff anchor [] = []
eligible_items cutoff anchor (i ∷ is) =
    let rest = eligible_items cutoff anchor is in
    if eligible cutoff anchor i then i ∷ rest else rest

module _ (cutoff : ℕ) (anchor : Option Item) where
  passed-length : (is : List Item) → passed cutoff anchor is ≤ length is
  unfolding passed
  passed-length [] = ground arith
  passed-length (i ∷ is) = ground (arith, passed-length is)

  -- After an eligible member all are.
  eligible_at-all :
      (i : Item) (is : List Item) (n : ℕ)
      → PrecedesAll i is
      → eligible cutoff anchor i ≡ true
      → n < length is
      → eligible_at cutoff anchor is n ≡ true
  unfolding eligible_at
  eligible_at-all i [] n h e lt = absurd (omega arith)
  eligible_at-all i (j ∷ js) zero (h, hs) e lt = eligible-Precedes cutoff anchor i j h e
  eligible_at-all i (j ∷ js) (suc n) (h, hs) e lt = eligible_at-all i js n hs e (omega arith)

  eligible_at-passed :
      (is : List Item) (n : ℕ)
      → IsIndex is
      → n < length is
      → eligible_at cutoff anchor is n ≡ leb (passed cutoff anchor is) n
  unfolding eligible_at passed
  eligible_at-passed [] n h lt = absurd (omega arith)
  eligible_at-passed (i ∷ is) zero (h, hs) lt = ground arith
  eligible_at-passed (i ∷ is) (suc n) (h, hs) lt =
      ground (arith, eligible_at-passed is n hs, eligible_at-all i is n h)

  pub eligible_items-all :
      (i : Item) (is : List Item)
      → PrecedesAll i is
      → eligible cutoff anchor i ≡ true
      → eligible_items cutoff anchor is ≡ is
  unfolding eligible_items
  eligible_items-all i [] h e = refl
  eligible_items-all i (j ∷ js) (h, hs) e =
      ground (arith, eligible_items-all i js hs e, eligible-Precedes cutoff anchor i j h e)

  drop-passed :
      (is : List Item)
      → IsIndex is
      → drop (passed cutoff anchor is) is ≡ eligible_items cutoff anchor is
  unfolding drop passed eligible_items
  drop-passed [] h = refl
  drop-passed (i ∷ is) (h, hs) = ground (arith, drop-passed is hs, eligible_items-all i is h)

-- On a history index, the script's page holds the first `count` of the members that are not later
-- than the cutoff and stand after the anchor, in their order: the binary search misses none.
pub read_page-eligible :
    (cutoff : ℕ) (anchor : Option Item) (count : ℕ) (is : List Item)
    → IsIndex is
    → 1 ≤ count
    → read_page cutoff anchor count is ≡ take count (eligible_items cutoff anchor is)
unfolding read_page rev_range
read_page-eligible cutoff anchor count is h some_count =
    let found =
      bisect-threshold (length is) (passed cutoff anchor is) (length is) 0 (length is)
        (eligible_at cutoff anchor is) (λ n. eligible_at-passed cutoff anchor is n h) (omega arith)
        (passed-length cutoff anchor is) (omega arith) (omega arith) in
    ground (arith, found, drop-passed cutoff anchor is h)
