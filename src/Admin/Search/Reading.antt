-- ===== src/Admin/Search/Reading.antt =====
-- One queue's reader in `search_tasks_page` of qtask_list/admin.py gives what its history holds after
-- the anchor.
use mathlib.Core.Option.{Option, some}
use stockev_qtask_list.Base.{
  take, drop, take-drop, ℕ, zero, suc, ◌≤◌, true, false, ◌≡◌, refl, sym, ap, ◌∙◌, subst, arith,
  List, [], ◌∷◌, ◌++◌,
}
use stockev_qtask_list.History.Page.{Item}
use stockev_qtask_list.History.Page.Order.{IsIndex}
use stockev_qtask_list.History.Page.Search.{eligible_items, read_page-eligible}
use stockev_qtask_list.History.Page.Paging.{
  AllWithin, eligible_items-AllWithin, eligible_items-suffix, rest_after,
}
use stockev_qtask_list.Admin.Search.{Reader, is_nil, fill, consume}

drop-nil : (n : ℕ) (is : List Item) → 1 ≤ n → is_nil (take n is) ≡ true → drop n is ≡ []
unfolding take drop
drop-nil zero is le h = absurd (omega arith)
drop-nil (suc n) [] le h = refl
drop-nil (suc n) (i ∷ is) le h = ground arith

abbrev pub tail : List Item → List Item
tail [] = []
tail (i ∷ is) = is

-- After the first eligible member the others are.
eligible_items-next :
    (cutoff : ℕ) (anchor : Option Item) (is ys : List Item) (q : Item)
    → IsIndex is
    → eligible_items cutoff anchor is ≡ q ∷ ys
    → eligible_items cutoff (some q) is ≡ ys
eligible_items-next cutoff anchor is ys q sorted e =
    let (pre, split) = eligible_items-suffix cutoff anchor is sorted in
    rest_after cutoff is sorted pre [] ys q (split ∙ ap (λ z. pre ++ z) e)
      (subst (AllWithin cutoff) e (eligible_items-AllWithin cutoff anchor is))

-- What a reader has still to give.
unfoldable pub pending : ℕ → Reader → List Item
pending cutoff r = eligible_items cutoff r.anchor r.index

-- The buffer is the first part of that, and empty only where nothing is left.
pub record IsReading (cutoff : ℕ) (r : Reader) : Type 0 where
  pub sorted : IsIndex r.index
  pub positive : 1 ≤ r.size
  pub later : List Item
  pub split : pending cutoff r ≡ r.buffer ++ later
  pub filled : is_nil r.buffer ≡ true → later ≡ []
  pub going_on : is_nil r.buffer ≡ false → r.exhausted ≡ false

module _ (cutoff : ℕ) where
  pub fill-IsReading :
      (r : Reader)
      → IsIndex r.index
      → 1 ≤ r.size
      → is_nil r.buffer ≡ true
      → r.exhausted ≡ false
      → IsReading cutoff (fill cutoff r) × (pending cutoff (fill cutoff r) ≡ pending cutoff r)
  unfolding fill pending
  fill-IsReading r sorted le empty on =
      let page = read_page-eligible cutoff r.anchor r.size r.index sorted le in
      let all = eligible_items cutoff r.anchor r.index in
      (
        record {
          sorted = ground (arith, sorted);
          positive = ground arith;
          later = drop r.size all;
          split = ground (arith, page, take-drop r.size all);
          filled = λ h. ground (arith, page, drop-nil r.size all le);
          going_on = λ h. ground arith;
        },
        ground arith,
      )

  -- A reader whose buffer has its first member taken.
  taken_reader : Item → List Item → Reader → Reader
  taken_reader i is r = record r { buffer = is; anchor = some i }

  -- The reader goes on with `ys`.
  abbrev pub GoesOn : List Item → Reader → Type 0
  GoesOn ys r = IsReading cutoff r × (pending cutoff r ≡ ys)

  fill-full : (r : Reader) → is_nil r.buffer ≡ false → fill cutoff r ≡ r
  unfolding fill
  fill-full r h = ground arith

  consume-nil : (r : Reader) → r.buffer ≡ [] → consume cutoff r ≡ r
  unfolding consume
  consume-nil r e = ground arith

  consume-cons :
      (r : Reader) (i : Item) (is : List Item)
      → r.buffer ≡ i ∷ is
      → consume cutoff r ≡ fill cutoff (taken_reader i is r)
  unfolding consume taken_reader
  consume-cons r i is e = ground arith

  module _ (r : Reader) (h : IsReading cutoff r) where
    taken-pending :
        (i : Item) (is : List Item)
        → r.buffer ≡ i ∷ is
        → pending cutoff (taken_reader i is r) ≡ is ++ h.later
    unfolding pending taken_reader
    taken-pending i is e =
        eligible_items-next cutoff r.anchor r.index (is ++ h.later) i h.sorted
          (h.split ∙ ap (λ z. z ++ h.later) e)

    pending-tail :
        (i : Item) (is : List Item) → r.buffer ≡ i ∷ is → tail (pending cutoff r) ≡ is ++ h.later
    pending-tail i is e = ap tail (h.split ∙ ap (λ z. z ++ h.later) e)

    fill-taken :
        (i : Item) (is : List Item)
        → r.buffer ≡ i ∷ is
        → GoesOn (is ++ h.later) (fill cutoff (taken_reader i is r))
    unfolding taken_reader
    fill-taken i [] e =
        let (reading, same) =
          fill-IsReading (taken_reader i [] r) h.sorted h.positive refl
            (h.going_on (ground arith)) in
        (reading, same ∙ taken-pending i [] e)
    fill-taken i (j ∷ is) e =
        let reading : IsReading cutoff (taken_reader i (j ∷ is) r) = record {
          sorted = h.sorted;
          positive = h.positive;
          later = h.later;
          split = taken-pending i (j ∷ is) e;
          filled = λ n. ground arith;
          going_on = λ n. h.going_on (ground arith);
        } in
        subst (GoesOn (j ∷ is ++ h.later)) (sym (fill-full (taken_reader i (j ∷ is) r) refl))
          (reading, taken-pending i (j ∷ is) e)

    pub consume-GoesOn : GoesOn (tail (pending cutoff r)) (consume cutoff r)
    consume-GoesOn = by_buffer r.buffer refl
      where
        by_buffer :
            (b : List Item) → r.buffer ≡ b → GoesOn (tail (pending cutoff r)) (consume cutoff r)
        by_buffer [] e =
            let none_left : pending cutoff r ≡ [] =
              h.split ∙ ground (arith, h.filled (ground arith)) in
            subst (GoesOn (tail (pending cutoff r))) (sym (consume-nil r e))
              (h, none_left ∙ sym (ap tail none_left))
        by_buffer (i ∷ is) e =
            subst (GoesOn (tail (pending cutoff r))) (sym (consume-cons r i is e)) (
              subst (λ ys. GoesOn ys (fill cutoff (taken_reader i is r)))
                (sym (pending-tail i is e)) (fill-taken i is e))
