-- ===== src/History/Clear/Turns.antt =====
-- One member's turn in `clear_terminal` of qtask_list/history.py.
use mathlib.Core.Option.{Option, none, some}
use stockev_qtask_list.Base.{
  ℕ, String, Bool, true, false, ◌||◌, ◌&&◌, not, ◌≡◌, ◌≢◌, refl, arith, List, [], ◌∷◌, ◌++◌, ite,
  str_dec, update, remove_one, if◌then◌else◌, Bool-cases, inl, inr,
}
use stockev_qtask_list.History.Clear.{
  Fields, History, hashed, old_object, old_text, Shelf, has_ended, unlist, clear_script, clear_one,
}

abbrev pub holds : String → List String → Bool
holds k [] = false
holds k (j ∷ js) = ite (str_dec k j) true false || holds k js

-- The index is a sorted set.
abbrev pub IsSetOf : List String → Type 0
IsSetOf [] = Unit {0}
IsSetOf (j ∷ js) = (holds j js ≡ false) × IsSetOf js

remove_one-middle :
    (k : String) (pre post : List String)
    → holds k pre ≡ false
    → remove_one str_dec k (pre ++ k ∷ post) ≡ some (pre ++ post)
unfolding remove_one
remove_one-middle k [] post h = ground arith
remove_one-middle k (j ∷ pre) post h = ground (arith, remove_one-middle k pre post)

-- Whether a member stays: its task has not ended, or a message of it is left.
unfoldable pub stays : Bool → Option History → Bool
stays has_one none = false
stays has_one (some (hashed f)) = not (has_ended f && not f.operational)
stays has_one (some (old_object f)) = has_one || not (has_ended f && not f.operational)
stays has_one (some old_text) = true

abbrev pub is_readable : Option History → Bool
is_readable none = true
is_readable (some (hashed f)) = true
is_readable (some (old_object f)) = true
is_readable (some old_text) = false

module _ (has_message : String → Bool) where
  abbrev pub stays_at : (String → Option History) → String → Bool
  stays_at rs k = stays (has_message k) (rs k)

  -- One pass over the members.
  unfoldable pub staying : (String → Option History) → List String → List String
  staying rs [] = []
  staying rs (k ∷ ks) = let rest = staying rs ks in if stays_at rs k then k ∷ rest else rest

  abbrev pub AllReadable : (String → Option History) → List String → Type 0
  AllReadable rs [] = Unit {0}
  AllReadable rs (k ∷ ks) = (is_readable (rs k) ≡ true) × AllReadable rs ks

  -- What one member's turn makes of the index.
  pub record Turn (k : String) (pre post : List String) (s : Shelf) : Type 0 where
    pub gone : ℕ
    pub end : Shelf
    pub turned : clear_one has_message k s ≡ some (gone, end)
    pub left : end.members ≡ (if stays_at s.records k then pre ++ k ∷ post else pre ++ post)
    pub counted : gone ≡ (if stays_at s.records k then 0 else 1)
    pub others : (j : String) → k ≢ j → end.records j ≡ s.records j

  -- A member that is unlisted, with its record; and one that stays, with another record or its own.
  module _ (k : String) (pre post : List String) (s : Shelf) (e : s.members ≡ pre ++ k ∷ post)
      (fresh : holds k pre ≡ false) where
    unlist-middle :
        (rs : String → Option History)
        → unlist k (record s { records = rs }) ≡ (1, record { members = pre ++ post; records = rs })
    unfolding unlist
    unlist-middle rs = ground (arith, e, remove_one-middle k pre post fresh)

    Turn-none : s.records k ≡ none → Turn k pre post s
    unfolding clear_one clear_script stays
    Turn-none f = record {
      gone = 1;
      end = record { members = pre ++ post; records = s.records };
      turned = ground (arith, unlist-middle s.records);
      left = ground arith;
      counted = ground arith;
      others = λ j ne. refl;
    }

    -- The case of a record that is a hash, or is made one.
    Turn-hashed : (g : Fields) → s.records k ≡ some (hashed g) → Turn k pre post s
    unfolding clear_one clear_script stays
    Turn-hashed g f = elim (Bool-cases (has_ended g && not g.operational)) [
      | inl h ↦ record {
        gone = 1;
        end = record { members = pre ++ post; records = update s.records k none };
        turned = ground (arith, unlist-middle (update s.records k none));
        left = ground arith;
        counted = ground arith;
        others = λ j ne. ground arith;
      }
      | inr h ↦ record {
        gone = 0;
        end = s;
        turned = ground arith;
        left = ground arith;
        counted = ground arith;
        others = λ j ne. refl;
      }
    ]

    Turn-marked :
        (g : Fields) → s.records k ≡ some (old_object g) → has_message k ≡ true → Turn k pre post s
    unfolding clear_one stays
    Turn-marked g f m = record {
      gone = 0;
      end = record s {
        records = update s.records k (some (hashed (record g { operational = true })));
      };
      turned = ground arith;
      left = ground arith;
      counted = ground arith;
      others = λ j ne. ground arith;
    }

    Turn-old :
        (g : Fields) → s.records k ≡ some (old_object g) → has_message k ≡ false → Turn k pre post s
    unfolding clear_one clear_script stays
    Turn-old g f m =
        let rs : String → Option History = update s.records k (some (hashed g)) in
        elim (Bool-cases (has_ended g && not g.operational)) [
          | inl h ↦ record {
            gone = 1;
            end = record { members = pre ++ post; records = update rs k none };
            turned = ground (arith, unlist-middle (update rs k none));
            left = ground arith;
            counted = ground arith;
            others = λ j ne. ground arith;
          }
          | inr h ↦ record {
            gone = 0;
            end = record s { records = rs };
            turned = ground arith;
            left = ground arith;
            counted = ground arith;
            others = λ j ne. ground arith;
          }
        ]

    pub turn : is_readable (s.records k) ≡ true → Turn k pre post s
    turn readable = by_record (s.records k) refl
      where
        by_record : (h : Option History) → s.records k ≡ h → Turn k pre post s
        by_record none f = Turn-none f
        by_record (some (hashed g)) f = Turn-hashed g f
        by_record (some (old_object g)) f = elim (Bool-cases (has_message k)) [
          | inl m ↦ Turn-marked g f m
          | inr m ↦ Turn-old g f m
        ]
        by_record (some old_text) f = ground (arith, readable, f)
