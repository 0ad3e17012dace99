-- ===== src/Admin/Search/Merged.antt =====
-- The buffers of `search_tasks_page` in qtask_list/admin.py are not seen: a page is the merge of the
-- histories after its cursor.
use mathlib.Core.Option.{Option, none, some}
use stockev_qtask_list.Base.{
  ℕ, zero, suc, Bool, false, ◌≡◌, refl, ap, arith, List, [], ◌∷◌, map, if◌then◌else◌,
}
use stockev_qtask_list.History.Page.{Item}
use stockev_qtask_list.History.Page.Order.{IsIndex}
use stockev_qtask_list.History.Page.Search.{eligible_items}
use stockev_qtask_list.Admin.Search.{
  Reader, open_reader, best, consume_at, buffers, scan, search_page,
}
use stockev_qtask_list.Admin.Search.Reading.{
  tail, pending, IsReading, GoesOn, fill-IsReading, consume-GoesOn,
}

abbrev pub tail_at : ℕ → List (List Item) → List (List Item)
tail_at n [] = []
tail_at zero (is ∷ rest) = tail is ∷ rest
tail_at (suc n) (is ∷ rest) = is ∷ tail_at n rest

-- The merge of several histories: the highest head goes, as long as there is a head and neither
-- limit is reached. Also what is left of them.
module _ (accepts : ℕ → Item → Bool) where
  unfoldable pub merge : ℕ → ℕ → List (List Item) → List (ℕ × Item) × List (List Item)
  merge zero limit ls = ([], ls)
  merge (suc n) zero ls = ([], ls)
  merge (suc n) (suc limit) ls = elim (best ls) [
    | none ↦ ([], ls)
    | some (k, i) ↦
        let rest : List (ℕ × Item) × List (List Item) =
          merge n (if accepts k i then limit else suc limit) (tail_at k ls) in
        ((k, i) ∷ rest.0, rest.1)
  ]

module _ (cutoff : ℕ) where
  abbrev pub AllReading : List Reader → Type 0
  AllReading [] = Unit {0}
  AllReading (r ∷ rs) = IsReading cutoff r × AllReading rs

  abbrev pub pendings : List Reader → List (List Item)
  pendings [] = []
  pendings (r ∷ rs) = pending cutoff r ∷ pendings rs

  best-head :
      (r : Reader) (ls ms : List (List Item))
      → IsReading cutoff r
      → best ls ≡ best ms
      → best (r.buffer ∷ ls) ≡ best (pending cutoff r ∷ ms)
  unfolding best
  best-head r ls ms h e = by_buffer r.buffer refl
    where
      by_buffer :
          (b : List Item) → r.buffer ≡ b → best (r.buffer ∷ ls) ≡ best (pending cutoff r ∷ ms)
      by_buffer [] f = ground (arith, h.split, h.filled (ground arith))
      by_buffer (i ∷ is) f = ground (arith, h.split)

  best-pendings : (rs : List Reader) → AllReading rs → best (buffers rs) ≡ best (pendings rs)
  best-pendings [] h = refl
  best-pendings (r ∷ rs) (h, hs) = best-head r (buffers rs) (pendings rs) h (best-pendings rs hs)

  consume_at-AllReading :
      (n : ℕ) (rs : List Reader)
      → AllReading rs
      → AllReading (consume_at cutoff n rs)
        × (pendings (consume_at cutoff n rs) ≡ tail_at n (pendings rs))
  unfolding consume_at
  consume_at-AllReading n [] h = (tt, refl)
  consume_at-AllReading zero (r ∷ rs) (h, hs) =
      let (reading, same) = consume-GoesOn cutoff r h in
      ((reading, hs), ap (λ z. z ∷ pendings rs) same)
  consume_at-AllReading (suc n) (r ∷ rs) (h, hs) =
      let (reading, same) = consume_at-AllReading n rs hs in
      ((h, reading), ap (λ z. pending cutoff r ∷ z) same)

  -- A scan that gives the members of a merge, and leaves its readers with what the merge leaves.
  pub record Agrees (a : List (ℕ × Item) × List Reader) (b : List (ℕ × Item) × List (List Item))
      : Type 0 where
    pub scanned : a.0 ≡ b.0
    pub left : pendings a.1 ≡ b.1
    pub reading : AllReading a.1

  module _ (accepts : ℕ → Item → Bool) where
    scan-Agrees :
        (n limit : ℕ) (rs : List Reader)
        → AllReading rs
        → Agrees (scan accepts cutoff n limit rs) (merge accepts n limit (pendings rs))
    unfolding scan merge
    scan-Agrees zero limit rs h = record { scanned = refl; left = refl; reading = h }
    scan-Agrees (suc n) zero rs h = record { scanned = refl; left = refl; reading = h }
    scan-Agrees (suc n) (suc limit) rs h =
        through (λ m ls g. scan-Agrees n m ls g) (best (pendings rs)) (best-pendings rs h) refl
      where
        through :
            ((m : ℕ) (ls : List Reader)
              → AllReading ls
              → Agrees (scan accepts cutoff n m ls) (merge accepts n m (pendings ls)))
            → (o : Option (ℕ × Item)) → best (buffers rs) ≡ best (pendings rs)
            → best (pendings rs) ≡ o
            → Agrees
                (scan accepts cutoff (suc n) (suc limit) rs)
                (merge accepts (suc n) (suc limit) (pendings rs))
        through again none same e =
            rw (same, e, scan, merge) (record { scanned = refl; left = refl; reading = h })
        through again (some (k, i)) same e =
            let (reading, next) = consume_at-AllReading k rs h in
            let more =
              again (if accepts k i then limit else suc limit) (consume_at cutoff k rs) reading in
            rw (same, e, scan, merge)
              (record {
                scanned = ap (λ z. (k, i) ∷ z) (rw next at more.scanned);
                left = rw next at more.left;
                reading = more.reading;
              })

  abbrev pub AllIndexes : List (List Item × Option Item) → Type 0
  AllIndexes [] = Unit {0}
  AllIndexes ((index, anchor) ∷ hs) = IsIndex index × AllIndexes hs

  -- What the histories hold after the anchors of the cursor.
  abbrev pub after_cursor : List (List Item × Option Item) → List (List Item)
  after_cursor [] = []
  after_cursor ((index, anchor) ∷ hs) = eligible_items cutoff anchor index ∷ after_cursor hs

  open_reader-GoesOn :
      (index : List Item) (anchor : Option Item)
      → IsIndex index
      → GoesOn cutoff
          (eligible_items cutoff anchor index)
          (open_reader cutoff false (index, anchor))
  unfolding open_reader pending
  open_reader-GoesOn index anchor sorted = fill-IsReading cutoff _ sorted (omega arith) refl refl

  open_readers-AllReading :
      (hs : List (List Item × Option Item))
      → AllIndexes hs
      → AllReading (map (open_reader cutoff false) hs)
        × (pendings (map (open_reader cutoff false) hs) ≡ after_cursor hs)
  open_readers-AllReading [] h = (tt, refl)
  open_readers-AllReading ((index, anchor) ∷ hs) (s, ss) =
      let (reading, same) = open_reader-GoesOn index anchor s in
      let (others, rest) = open_readers-AllReading hs ss in
      ((reading, others), ground (arith, same, rest))

-- While a search has not come to the end of the histories, a page scans the members that the
-- merge of the histories after the cursor's anchors gives, highest first, until one of the two
-- limits is reached: the buffers and the sizes of the pages in which they are read are not
-- seen. The anchors of the next cursor leave what the merge leaves.
pub search_page-Agrees :
    (accepts : ℕ → Item → Bool) (cutoff scan_limit limit : ℕ) (hs : List (List Item × Option Item))
    → AllIndexes cutoff hs
    → Agrees cutoff
        (search_page accepts cutoff scan_limit limit false hs)
        (merge accepts scan_limit limit (after_cursor cutoff hs))
unfolding search_page
search_page-Agrees accepts cutoff scan_limit limit hs sorted =
    let (reading, same) = open_readers-AllReading cutoff hs sorted in
    rw⁻¹ same
      (scan-Agrees cutoff accepts scan_limit limit (map (open_reader cutoff false) hs) reading)
