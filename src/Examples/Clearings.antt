-- ===== src/Examples/Clearings.antt =====
-- A history with three records, of which one has ended.
use mathlib.Core.Option.{none, some}
use stockev_qtask_list.Base.{
  ℕ, ◌+◌, String, Bool, true, false, ◌≡◌, refl, [], ◌∷◌, length, ite, str_dec, update,
}
use stockev_qtask_list.History.Clear.{hashed, old_object, Shelf, clear_terminal}
use stockev_qtask_list.History.Clear.Turns.{IsSetOf, AllReadable, staying}
use stockev_qtask_list.History.Clear.Passes.{clear_terminal-staying}

abbrev shelf : Shelf
shelf = record {
  members = "t1" ∷ "t2" ∷ "t3" ∷ [];
  records =
      update
        (update (λ k. none) "t1"
          (some
            (hashed (record { outcome = "completed"; status = "completed"; operational = false }))))
        "t2" (some (old_object (record { outcome = ""; status = "failed"; operational = false })));
}

abbrev has_message : String → Bool
has_message k = ite (str_dec k "t2") true false

listed_once : IsSetOf shelf.members
unfolding str_dec
listed_once = (refl, (refl, (refl, tt)))

all_readable : AllReadable has_message shelf.records shelf.members
unfolding str_dec
all_readable = (refl, (refl, (refl, tt)))

clear_terminal-staying_example :
    (n : ℕ) × (u : Shelf) × (clear_terminal has_message shelf ≡ some (n, u))
    × (u.members ≡ staying has_message shelf.records shelf.members)
    × (n + length (staying has_message shelf.records shelf.members) ≡ length shelf.members)
clear_terminal-staying_example = clear_terminal-staying has_message shelf listed_once all_readable
