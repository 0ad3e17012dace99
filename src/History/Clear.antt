-- ===== src/History/Clear.antt =====
-- `clear_terminal` of qtask_list/history.py: the records of ended tasks are deleted in batches.
pub mod Turns
pub mod Rounds
pub mod Passes
use mathlib.Core.Option.{Option, none, some}
use stockev_qtask_list.Base.{
  ℕ, zero, suc, ◌+◌, ◌-◌, String, Bool, true, false, ◌||◌, ◌&&◌, not, List, [], ◌∷◌, ite, str_dec,
  update, remove_one, take, drop, length, if◌then◌else◌,
}

-- What the method reads of a record.
pub record Fields : Type 0 where
  pub outcome : String
  pub status : String
  pub operational : Bool

-- A Redis hash; a String with a JSON object, of an old release; a String with another text.
pub data History : Type 0 where
  hashed : Fields → History
  old_object : Fields → History
  old_text : History

-- The index's members in their order, and the records.
pub record Shelf : Type 0 where
  pub members : List String
  pub records : String → Option History

abbrev is_text : String → String → Bool
is_text s t = ite (str_dec s t) true false

-- One of the four terminal outcomes, of a record without an outcome its status.
unfoldable pub has_ended : Fields → Bool
has_ended f =
    let word = if is_text f.outcome "" then f.status else f.outcome in
    is_text word "completed"
    || is_text word "failed"
    || is_text word "skipped"
    || is_text word "cancelled"

-- ZREM of the index.
unfoldable pub unlist : String → Shelf → ℕ × Shelf
unlist id s = elim (remove_one str_dec id s.members) [
  | none ↦ (0, s)
  | some ms ↦ (1, record s { members = ms })
]

abbrev pub put_record : String → Option History → Shelf → Shelf
put_record id h s = record s { records = update s.records id h }

-- The script.
unfoldable pub clear_script : String → Shelf → ℕ × Shelf
unfolding unlist
clear_script id s = elim (s.records id) [
  | none ↦ unlist id s
  | some (hashed f) ↦
      if has_ended f && not f.operational then unlist id (put_record id none s) else (0, s)
  | some (old_object f) ↦ if has_ended f then unlist id (put_record id none s) else (0, s)
  | some old_text ↦ (0, s)
]

-- The messages that the containers hold, by task.
module _ (has_message : String → Bool) where
  -- One member: an old record becomes a hash first, and one that has a message in a container is
  -- marked. `none` tells that the conversion raised.
  unfoldable pub clear_one : String → Shelf → Option (ℕ × Shelf)
  clear_one id s = elim (s.records id) [
    | none ↦ some (clear_script id s)
    | some (hashed f) ↦ some (clear_script id s)
    | some (old_object f) ↦
        if has_message id
        then some (0, put_record id (some (hashed (record f { operational = true }))) s)
        else some (clear_script id (put_record id (some (hashed f)) s))
    | some old_text ↦ none
  ]

  unfoldable pub clear_batch : List String → Shelf → Option (ℕ × Shelf)
  clear_batch [] s = some (0, s)
  clear_batch (id ∷ ids) s = elim (clear_one id s) [
    | none ↦ none
    | some (n, t) ↦ elim (clear_batch ids t) [ none ↦ none | some (k, u) ↦ some (n + k, u) ]
  ]

  -- The loop. Each round passes or removes a member at least, so that one more than the number of
  -- members is fuel enough.
  unfoldable pub clear_loop : ℕ → ℕ → ℕ → Shelf → Option (ℕ × Shelf)
  clear_loop zero offset removed s = none
  clear_loop (suc fuel) offset removed s = elim (take 500 (drop offset s.members)) [
    | [] ↦ some (removed, s)
    | id ∷ ids ↦ elim (clear_batch (id ∷ ids) s) [
      | none ↦ none
      | some (n, t) ↦ clear_loop fuel (offset + (length (id ∷ ids) - n)) (removed + n) t
    ]
  ]

  unfoldable pub clear_terminal : Shelf → Option (ℕ × Shelf)
  clear_terminal s = clear_loop (suc (length s.members)) 0 0 s
