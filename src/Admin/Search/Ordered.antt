-- ===== src/Admin/Search/Ordered.antt =====
-- A page of `search_tasks_page` in qtask_list/admin.py shows the newest tasks first.
use mathlib.Core.Option.{Option, none, some}
use stockev_qtask_list.Base.{
  ℕ, zero, suc, Bool, true, false, ◌≡◌, refl, sym, subst, arith, List, [], ◌∷◌, ◌++◌, if◌then◌else◌,
  Bool-cases, inl, inr,
}
use stockev_qtask_list.History.Page.{Item, byte_before}
use stockev_qtask_list.History.Page.Order.{IsIndex, Precedes}
use stockev_qtask_list.History.Page.Paging.{
  byte_before_asym, byte_before_irrefl, eligible_items-suffix,
}
use stockev_qtask_list.Admin.Search.{beats, better, shifted, best, search_page}
use stockev_qtask_list.Admin.Search.Merged.{
  tail_at, merge, AllIndexes, after_cursor, search_page-Agrees,
}

byte_before-false_trans :
    (a b c : List ℕ) → byte_before a b ≡ false → byte_before b c ≡ false → byte_before a c ≡ false
unfolding byte_before
byte_before-false_trans [] [] c h k = ground arith
byte_before-false_trans [] (y ∷ b) c h k = ground arith
byte_before-false_trans (x ∷ a) [] [] h k = refl
byte_before-false_trans (x ∷ a) [] (z ∷ c) h k = ground arith
byte_before-false_trans (x ∷ a) (y ∷ b) [] h k = refl
byte_before-false_trans (x ∷ a) (y ∷ b) (z ∷ c) h k = ground (arith, byte_before-false_trans a b c)

beats-false_trans : (h j i : Item) → beats h j ≡ false → beats j i ≡ false → beats h i ≡ false
unfolding beats
beats-false_trans (s, a) (t, b) (u, c) m n = ground (arith, byte_before-false_trans c b a)

beats_asym : (i j : Item) → beats i j ≡ true → beats j i ≡ false
unfolding beats
beats_asym (s, a) (t, b) h = ground (arith, byte_before_asym b a)

beats_irrefl : (i : Item) → beats i i ≡ false
unfolding beats
beats_irrefl (s, a) = ground (arith, byte_before_irrefl a)

Precedes-beats : (i j : Item) → Precedes i j → beats j i ≡ false
unfolding beats
Precedes-beats (s, a) (t, b) h = ground (arith, byte_before_asym b a)

abbrev AllSorted : List (List Item) → Type 0
AllSorted [] = Unit {0}
AllSorted (is ∷ ls) = IsIndex is × AllSorted ls

-- No head beats `i`.
abbrev HeadsBelow : Item → List (List Item) → Type 0
HeadsBelow i [] = Unit {0}
HeadsBelow i ([] ∷ ls) = HeadsBelow i ls
HeadsBelow i ((h ∷ hs) ∷ ls) = (beats h i ≡ false) × HeadsBelow i ls

HeadsBelow-trans :
    (j i : Item) (ls : List (List Item)) → HeadsBelow j ls → beats j i ≡ false → HeadsBelow i ls
HeadsBelow-trans j i [] h e = tt
HeadsBelow-trans j i ([] ∷ ls) h e = HeadsBelow-trans j i ls h e
HeadsBelow-trans j i ((x ∷ xs) ∷ ls) (h, hs) e =
    (beats-false_trans x j i h e, HeadsBelow-trans j i ls hs e)

better-later : (i j : Item) (n : ℕ) → beats j i ≡ true → better i (some (n, j)) ≡ (suc n, j)
unfolding better
better-later i j n e = ground arith

better-now : (i j : Item) (n : ℕ) → beats j i ≡ false → better i (some (n, j)) ≡ (0, i)
unfolding better
better-now i j n e = ground arith

-- What a choice says of the heads.
abbrev IsHighest : Option (ℕ × Item) → List (List Item) → Type 0
IsHighest none ls = (i : Item) → HeadsBelow i ls
IsHighest (some (k, i)) ls = HeadsBelow i ls

best-IsHighest : (ls : List (List Item)) → IsHighest (best ls) ls
unfolding best better
best-IsHighest [] = λ i. tt
best-IsHighest ([] ∷ ls) = by_rest (best ls) (best-IsHighest ls)
  where
    by_rest : (o : Option (ℕ × Item)) → IsHighest o ls → IsHighest (shifted o) ([] ∷ ls)
    by_rest none h = h
    by_rest (some (k, i)) h = h
best-IsHighest ((x ∷ xs) ∷ ls) = by_rest (best ls) (best-IsHighest ls)
  where
    by_rest :
        (o : Option (ℕ × Item)) → IsHighest o ls → IsHighest (some (better x o)) ((x ∷ xs) ∷ ls)
    by_rest none h = (beats_irrefl x, h x)
    by_rest (some (k, j)) h = elim (Bool-cases (beats j x)) [
      | inl e ↦
          subst (λ p. IsHighest (some p) ((x ∷ xs) ∷ ls)) (sym (better-later x j k e))
            (beats_asym j x e, h)
      | inr e ↦
          subst (λ p. IsHighest (some p) ((x ∷ xs) ∷ ls)) (sym (better-now x j k e))
            (beats_irrefl x, HeadsBelow-trans j x ls h e)
    ]

-- No head beats the one that was taken, when it is gone either.
abbrev LeavesLower : Option (ℕ × Item) → List (List Item) → Type 0
LeavesLower none ls = Unit {0}
LeavesLower (some (k, i)) ls = HeadsBelow i (tail_at k ls)

HeadsBelow-tail :
    (x : Item) (xs : List Item) (ls : List (List Item))
    → IsIndex (x ∷ xs)
    → HeadsBelow x ls
    → HeadsBelow x (xs ∷ ls)
HeadsBelow-tail x [] ls h below = below
HeadsBelow-tail x (y ∷ ys) ls ((h, hs), t) below = (Precedes-beats x y h, below)

best-LeavesLower : (ls : List (List Item)) → AllSorted ls → LeavesLower (best ls) ls
unfolding best better
best-LeavesLower [] s = tt
best-LeavesLower ([] ∷ ls) (s, ss) = by_rest (best ls) (best-LeavesLower ls ss)
  where
    by_rest : (o : Option (ℕ × Item)) → LeavesLower o ls → LeavesLower (shifted o) ([] ∷ ls)
    by_rest none h = tt
    by_rest (some (k, i)) h = h
best-LeavesLower ((x ∷ xs) ∷ ls) (s, ss) =
    by_rest (best ls) (best-IsHighest ls) (best-LeavesLower ls ss)
  where
    by_rest :
        (o : Option (ℕ × Item))
        → IsHighest o ls
        → LeavesLower o ls
        → LeavesLower (some (better x o)) ((x ∷ xs) ∷ ls)
    by_rest none high h = HeadsBelow-tail x xs ls s (high x)
    by_rest (some (k, j)) high h = elim (Bool-cases (beats j x)) [
      | inl e ↦ rw e (beats_asym j x e, h)
      | inr e ↦ rw e (HeadsBelow-tail x xs ls s (HeadsBelow-trans j x ls high e))
    ]

-- What is chosen among heads that do not beat `i` does not beat it.
abbrev IsBelow : Item → Option (ℕ × Item) → Type 0
IsBelow i none = Unit {0}
IsBelow i (some (k, j)) = beats j i ≡ false

best-IsBelow : (i : Item) (ls : List (List Item)) → HeadsBelow i ls → IsBelow i (best ls)
unfolding best better
best-IsBelow i [] h = tt
best-IsBelow i ([] ∷ ls) h = by_rest (best ls) (best-IsBelow i ls h)
  where
    by_rest : (o : Option (ℕ × Item)) → IsBelow i o → IsBelow i (shifted o)
    by_rest none b = tt
    by_rest (some (k, j)) b = b
best-IsBelow i ((x ∷ xs) ∷ ls) (h, hs) = by_rest (best ls) (best-IsBelow i ls hs)
  where
    by_rest : (o : Option (ℕ × Item)) → IsBelow i o → IsBelow i (some (better x o))
    by_rest none b = h
    by_rest (some (k, j)) b = elim (Bool-cases (beats j x)) [ inl e ↦ rw e b | inr e ↦ rw e h ]

tail_at-AllSorted : (n : ℕ) (ls : List (List Item)) → AllSorted ls → AllSorted (tail_at n ls)
tail_at-AllSorted n [] s = tt
tail_at-AllSorted zero ([] ∷ ls) (s, ss) = (tt, ss)
tail_at-AllSorted zero ((x ∷ xs) ∷ ls) ((s, t), ss) = (t, ss)
tail_at-AllSorted (suc n) (is ∷ ls) (s, ss) = (s, tail_at-AllSorted n ls ss)

abbrev Follows : Item → List (ℕ × Item) → Type 0
Follows i [] = Unit {0}
Follows i ((k, j) ∷ js) = (beats j i ≡ false) × Follows j js

-- No member has a higher score than the one before it, or the same score and a higher text.
abbrev pub IsNewestFirst : List (ℕ × Item) → Type 0
IsNewestFirst [] = Unit {0}
IsNewestFirst ((k, i) ∷ is) = Follows i is

module _ (accepts : ℕ → Item → Bool) where
  merge-Follows :
      (n limit : ℕ) (ls : List (List Item)) (i : Item)
      → AllSorted ls
      → HeadsBelow i ls
      → Follows i (merge accepts n limit ls).0
  unfolding merge
  merge-Follows zero limit ls i s h = tt
  merge-Follows (suc n) zero ls i s h = tt
  merge-Follows (suc n) (suc limit) ls i s h =
      through (best ls) refl (best-IsBelow i ls h) (best-LeavesLower ls s)
        λ m k j lower. merge-Follows n m (tail_at k ls) j (tail_at-AllSorted k ls s) lower
    where
      through :
          (o : Option (ℕ × Item))
          → best ls ≡ o
          → IsBelow i o
          → LeavesLower o ls
          → ((m k : ℕ) (j : Item)
              → HeadsBelow j (tail_at k ls)
              → Follows j (merge accepts n m (tail_at k ls)).0)
          → Follows i (merge accepts (suc n) (suc limit) ls).0
      through none e below lower next = rw (e, merge) tt
      through (some (k, j)) e below lower next =
          rw (e, merge) (below, next (if accepts k j then limit else suc limit) k j lower)

  merge-IsNewestFirst :
      (n limit : ℕ) (ls : List (List Item))
      → AllSorted ls
      → IsNewestFirst (merge accepts n limit ls).0
  unfolding merge
  merge-IsNewestFirst zero limit ls s = tt
  merge-IsNewestFirst (suc n) zero ls s = tt
  merge-IsNewestFirst (suc n) (suc limit) ls s = through (best ls) refl (best-LeavesLower ls s)
    where
      through :
          (o : Option (ℕ × Item))
          → best ls ≡ o
          → LeavesLower o ls
          → IsNewestFirst (merge accepts (suc n) (suc limit) ls).0
      through none e lower = rw (e, merge) tt
      through (some (k, j)) e lower =
          rw (e, merge)
            (merge-Follows n (if accepts k j then limit else suc limit) (tail_at k ls) j
              (tail_at-AllSorted k ls s) lower)

IsIndex-suffix : (xs ys : List Item) → IsIndex (xs ++ ys) → IsIndex ys
IsIndex-suffix [] ys h = h
IsIndex-suffix (x ∷ xs) ys (h, hs) = IsIndex-suffix xs ys hs

after_cursor-AllSorted :
    (cutoff : ℕ) (hs : List (List Item × Option Item))
    → AllIndexes cutoff hs
    → AllSorted (after_cursor cutoff hs)
after_cursor-AllSorted cutoff [] s = tt
after_cursor-AllSorted cutoff ((index, anchor) ∷ hs) (s, ss) =
    let (pre, split) = eligible_items-suffix cutoff anchor index s in
    (IsIndex-suffix pre _ (subst IsIndex split s), after_cursor-AllSorted cutoff hs ss)

-- While a search has not come to the end of the histories, a page of it scans no task after one
-- that was created earlier, over all queues, nor after one that was created at the same time and
-- has a lower id.
pub search_page-IsNewestFirst :
    (accepts : ℕ → Item → Bool) (cutoff scan_limit limit : ℕ) (hs : List (List Item × Option Item))
    → AllIndexes cutoff hs
    → IsNewestFirst (search_page accepts cutoff scan_limit limit false hs).0
search_page-IsNewestFirst accepts cutoff scan_limit limit hs s =
    subst IsNewestFirst (sym (search_page-Agrees accepts cutoff scan_limit limit hs s).scanned) (
      merge-IsNewestFirst accepts scan_limit limit (after_cursor cutoff hs)
        (after_cursor-AllSorted cutoff hs s))
