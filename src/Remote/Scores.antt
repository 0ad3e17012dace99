-- ===== src/Remote/Scores.antt =====
-- Redis sorted sets of object keys, as qtask_list/remote_storage/server.py uses them: ZADD, ZREM,
-- ZSCORE and ZRANGEBYSCORE with a limit. Members of one score stand in the order of insertion.
use mathlib.Core.Option.{Option, none, some}
use stockev_qtask_list.Base.{
  ℕ, zero, suc, String, ◌≡◌, ◌≢◌, refl, arith, List, [], ◌∷◌, leb, ltb, ite, str_dec, if◌then◌else◌,
}

abbrev pub Scores : Type 0
Scores = List (ℕ × String)

unfoldable pub zscore : String → Scores → Option ℕ
zscore k [] = none
zscore k ((d, j) ∷ zs) = ite (str_dec k j) (some d) (zscore k zs)

unfoldable pub zrem : String → Scores → Scores
zrem k [] = []
zrem k ((d, j) ∷ zs) = let rest = zrem k zs in ite (str_dec k j) rest ((d, j) ∷ rest)

unfoldable pub insert_score : ℕ → String → Scores → Scores
insert_score d k [] = (d, k) ∷ []
insert_score d k ((e, j) ∷ zs) =
    let rest = insert_score d k zs in if ltb d e then (d, k) ∷ (e, j) ∷ zs else (e, j) ∷ rest

unfoldable pub zadd : ℕ → String → Scores → Scores
unfolding insert_score
zadd d k zs = insert_score d k (zrem k zs)

-- ZRANGEBYSCORE -inf due LIMIT 0 n.
unfoldable pub due_keys : ℕ → ℕ → Scores → List String
due_keys zero due zs = []
due_keys (suc n) due [] = []
due_keys (suc n) due ((d, k) ∷ zs) =
    let taken = due_keys n due zs in
    let passed = due_keys (suc n) due zs in if leb d due then k ∷ taken else passed

pub zscore-zrem_self : (k : String) (zs : Scores) → zscore k (zrem k zs) ≡ none
unfolding zscore zrem
zscore-zrem_self k [] = refl
zscore-zrem_self k ((d, j) ∷ zs) = ground (arith, zscore-zrem_self k zs)

pub zscore-zrem_ne : (k j : String) (zs : Scores) → k ≢ j → zscore k (zrem j zs) ≡ zscore k zs
unfolding zscore zrem
zscore-zrem_ne k j [] ne = refl
zscore-zrem_ne k j ((d, i) ∷ zs) ne = ground (arith, zscore-zrem_ne k j zs ne)

zscore-insert_self :
    (d : ℕ) (k : String) (zs : Scores)
    → zscore k zs ≡ none
    → zscore k (insert_score d k zs) ≡ some d
unfolding zscore insert_score
zscore-insert_self d k [] h = ground arith
zscore-insert_self d k ((e, j) ∷ zs) h = ground (arith, zscore-insert_self d k zs)

zscore-insert_ne :
    (d : ℕ) (k j : String) (zs : Scores) → k ≢ j → zscore k (insert_score d j zs) ≡ zscore k zs
unfolding zscore insert_score
zscore-insert_ne d k j [] ne = ground arith
zscore-insert_ne d k j ((e, i) ∷ zs) ne = ground (arith, zscore-insert_ne d k j zs ne)

pub zscore-zadd_self : (d : ℕ) (k : String) (zs : Scores) → zscore k (zadd d k zs) ≡ some d
unfolding zadd
zscore-zadd_self d k zs = zscore-insert_self d k (zrem k zs) (zscore-zrem_self k zs)

pub zscore-zadd_ne :
    (d : ℕ) (k j : String) (zs : Scores) → k ≢ j → zscore k (zadd d j zs) ≡ zscore k zs
unfolding zadd
zscore-zadd_ne d k j zs ne = rw (zscore-insert_ne d k j (zrem j zs) ne) (zscore-zrem_ne k j zs ne)
