-- ===== src/Admin/Search.antt =====
-- `search_tasks_page` of qtask_list/admin.py: the histories of several queues are read through
-- buffers, and merged by creation time.
pub mod Reading
pub mod Merged
pub mod Ordered
use mathlib.Core.Option.{Option, none, some}
use stockev_qtask_list.Base.{
  ℕ, zero, suc, Bool, true, false, ◌&&◌, ◌||◌, ◌==◌, not, List, [], ◌∷◌, map, ltb, if◌then◌else◌,
}
use stockev_qtask_list.History.Page.{Item, byte_before, read_page}

-- One queue's history index, the anchor of the cursor, what is left of the buffer, whether the
-- history has ended, and the size of the next page.
pub record Reader : Type 0 where
  pub index : List Item
  pub anchor : Option Item
  pub buffer : List Item
  pub exhausted : Bool
  pub size : ℕ

abbrev pub is_nil : List Item → Bool
is_nil [] = true
is_nil (i ∷ is) = false

-- `fill`.
unfoldable pub fill : ℕ → Reader → Reader
fill cutoff r =
    let page = read_page cutoff r.anchor r.size r.index in
    if is_nil r.buffer && not r.exhausted
    then record r { buffer = page; size = 50; exhausted = is_nil page }
    else r

-- A page's readers, from the anchors of the cursor and whether an earlier page ended them.
unfoldable pub open_reader : ℕ → Bool → List Item × Option Item → Reader
open_reader cutoff history_done (index, anchor) =
    fill cutoff
      (record { index = index; anchor = anchor; buffer = []; exhausted = history_done; size = 1 })

-- The order of the keys `(score, task_id)`.
unfoldable pub beats : Item → Item → Bool
beats (s, a) (t, b) = ltb t s || (s == t && byte_before b a)

-- `max` over the readers with a buffer: the first of the highest heads, with its position.
unfoldable pub better : Item → Option (ℕ × Item) → ℕ × Item
better i none = (0, i)
better i (some (n, j)) = if beats j i then (suc n, j) else (0, i)

abbrev pub shifted : Option (ℕ × Item) → Option (ℕ × Item)
shifted none = none
shifted (some (n, j)) = some (suc n, j)

unfoldable pub best : List (List Item) → Option (ℕ × Item)
best [] = none
best ([] ∷ rest) = shifted (best rest)
best ((i ∷ is) ∷ rest) = some (better i (best rest))

-- The head goes, the anchor is set to it, and an empty buffer is filled.
unfoldable pub consume : ℕ → Reader → Reader
consume cutoff r = elim r.buffer [
  | [] ↦ r
  | i ∷ is ↦ fill cutoff (record r { buffer = is; anchor = some i })
]

unfoldable pub consume_at : ℕ → ℕ → List Reader → List Reader
consume_at cutoff n [] = []
consume_at cutoff zero (r ∷ rs) = consume cutoff r ∷ rs
consume_at cutoff (suc n) (r ∷ rs) = r ∷ consume_at cutoff n rs

abbrev pub buffers : List Reader → List (List Item)
buffers [] = []
buffers (r ∷ rs) = r.buffer ∷ buffers rs

-- `accepts` stands for the filters of the records.
module _ (accepts : ℕ → Item → Bool) where
  -- The loop, with what is left of `scan_limit` and of `limit`: the scanned members, each with the
  -- queue that it is of, and the readers.
  unfoldable pub scan : ℕ → ℕ → ℕ → List Reader → List (ℕ × Item) × List Reader
  scan cutoff zero limit rs = ([], rs)
  scan cutoff (suc n) zero rs = ([], rs)
  scan cutoff (suc n) (suc limit) rs = elim (best (buffers rs)) [
    | none ↦ ([], rs)
    | some (k, i) ↦
        let rest : List (ℕ × Item) × List Reader =
          scan cutoff n (if accepts k i then limit else suc limit) (consume_at cutoff k rs) in
        ((k, i) ∷ rest.0, rest.1)
  ]

  -- The rows of a page.
  unfoldable pub rows : List (ℕ × Item) → List (ℕ × Item)
  rows [] = []
  rows ((k, i) ∷ is) = let rest = rows is in if accepts k i then (k, i) ∷ rest else rest

  unfoldable pub search_page :
      ℕ → ℕ → ℕ → Bool → List (List Item × Option Item) → List (ℕ × Item) × List Reader
  search_page cutoff scan_limit limit history_done histories =
      scan cutoff scan_limit limit (map (open_reader cutoff history_done) histories)
