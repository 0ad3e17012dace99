-- ===== src/Queue/Places.antt =====
-- Where the messages of a queue stand: the scans of `check_consistency` of qtask_list/queue.py and
-- `_task_has_operational_message` of qtask_list/history.py.
use mathlib.Core.Option.{Option, none, some}
use stockev_qtask_list.Base.{
  String, Bool, true, false, List, [], ◌∷◌, ◌++◌, map, ◌||◌, not, if◌then◌else◌, ite, str_dec,
}
use stockev_qtask_list.Store.Messages.{Message, message_task_id}
use stockev_qtask_list.Store.{Store}
use stockev_qtask_list.Queue.Recover.All.{held_by}

pub data Place : Type 0 where
  at_ready at_dlq at_processing at_delay : Place

abbrev pub tagged : Place → List Message → List (Place × Message)
tagged p ms = map (λ m. (p, m)) ms

unfoldable pub claimed_places : List String → Store → List (Place × Message)
claimed_places [] s = []
claimed_places (w ∷ ws) s = tagged at_processing (held_by w s.processing) ++ claimed_places ws s

-- All messages, in the order of the scan_messages, which `limit` cuts.
unfoldable pub all_places : List String → Store → List (Place × Message)
unfolding claimed_places
all_places ws s =
    tagged at_ready s.ready
    ++ tagged at_dlq s.dlq
    ++ claimed_places ws s
    ++ tagged at_delay (map (λ z. z.1) s.delay)

-- `locations.get(task_id, [])`.
abbrev pub is_named : Option String → String → Bool
is_named none id = false
is_named (some j) id = ite (str_dec j id) true false

unfoldable pub locations : String → List (Place × Message) → List Place
locations id [] = []
locations id ((p, m) ∷ xs) =
    let rest = locations id xs in if is_named (message_task_id m) id then p ∷ rest else rest

abbrev pub any_place : List Place → Bool
any_place [] = false
any_place (p ∷ ps) = true

abbrev pub is_dlq : Place → Bool
is_dlq at_dlq = true
is_dlq _ = false

abbrev pub any_outside_dlq : List Place → Bool
any_outside_dlq [] = false
any_outside_dlq (p ∷ ps) = not (is_dlq p) || any_outside_dlq ps

-- `_task_has_operational_message` asks the keys themselves.
unfoldable pub every_place : Store → List (Place × Message)
every_place s =
    tagged at_ready s.ready
    ++ tagged at_dlq s.dlq
    ++ tagged at_processing (map (λ p. p.1) s.processing)
    ++ tagged at_delay (map (λ z. z.1) s.delay)

unfoldable pub has_operational_message : String → Store → Bool
unfolding every_place locations
has_operational_message id s = any_place (locations id (every_place s))
