-- ===== src/History/Page/Order.antt =====
-- The order of a history index in qtask_list/history.py.
use mathlib.Core.Option.{Option, none, some}
use stockev_qtask_list.Base.{ℕ, ◌<◌, true, ◌≡◌, ◌⊎◌, refl, arith, List, [], ◌∷◌}
use stockev_qtask_list.History.Page.{Item, byte_before, eligible}

pub byte_before_trans :
    (a b c : List ℕ) → byte_before a b ≡ true → byte_before b c ≡ true → byte_before a c ≡ true
unfolding byte_before
byte_before_trans [] [] c h k = ground arith
byte_before_trans [] (y ∷ b) [] h k = ground arith
byte_before_trans [] (y ∷ b) (z ∷ c) h k = refl
byte_before_trans (x ∷ a) [] c h k = ground arith
byte_before_trans (x ∷ a) (y ∷ b) [] h k = ground arith
byte_before_trans (x ∷ a) (y ∷ b) (z ∷ c) h k = ground (arith, byte_before_trans a b c)

-- ZREVRANGE's order: higher scores first, and at one score higher texts.
abbrev pub Precedes : Item → Item → Type 0
Precedes (s, a) (t, b) = (t < s) ⊎ ((s ≡ t) × (byte_before b a ≡ true))

abbrev pub PrecedesAll : Item → List Item → Type 0
PrecedesAll i [] = Unit {0}
PrecedesAll i (j ∷ js) = Precedes i j × PrecedesAll i js

abbrev pub IsIndex : List Item → Type 0
IsIndex [] = Unit {0}
IsIndex (i ∷ is) = PrecedesAll i is × IsIndex is

pub eligible-Precedes :
    (cutoff : ℕ) (anchor : Option Item) (i j : Item)
    → Precedes i j
    → eligible cutoff anchor i ≡ true
    → eligible cutoff anchor j ≡ true
unfolding eligible
eligible-Precedes cutoff none (s, a) (t, b) h e = ground arith
eligible-Precedes cutoff (some (u, c)) (s, a) (t, b) h e = ground (arith, byte_before_trans b a c)
