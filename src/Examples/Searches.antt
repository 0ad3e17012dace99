-- ===== src/Examples/Searches.antt =====
-- A search in the histories of two queues.
use mathlib.Core.Option.{Option, none, some}
use stockev_qtask_list.Base.{ℕ, true, false, Bool, arith, List, [], ◌∷◌}
use stockev_qtask_list.History.Page.{Item, byte_before}
use stockev_qtask_list.Admin.Search.{search_page}
use stockev_qtask_list.Admin.Search.Ordered.{IsNewestFirst, search_page-IsNewestFirst}
use stockev_qtask_list.Admin.Search.Merged.{
  merge, AllIndexes, after_cursor, Agrees, search_page-Agrees,
}

abbrev histories : List (List Item × Option Item)
histories = ((9, 98 ∷ []) ∷ (5, 99 ∷ []) ∷ [], none) ∷ ((7, 97 ∷ []) ∷ [], some (8, 97 ∷ [])) ∷ []

abbrev all_rows : ℕ → Item → Bool
all_rows k i = true

indexed : AllIndexes 10 histories
unfolding byte_before
indexed = (((ground arith, tt), (tt, tt)), ((tt, tt), tt))

search_page-Agrees_example :
    Agrees 10
      (search_page all_rows 10 5000 2 false histories)
      (merge all_rows 5000 2 (after_cursor 10 histories))
search_page-Agrees_example = search_page-Agrees all_rows 10 5000 2 histories indexed

search_page-IsNewestFirst_example : IsNewestFirst (search_page all_rows 10 5000 2 false histories).0
search_page-IsNewestFirst_example = search_page-IsNewestFirst all_rows 10 5000 2 histories indexed
