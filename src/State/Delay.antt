-- ===== src/State/Delay.antt =====
-- MOVE_DUE_DELAY_LUA of qtask_list/state.py: due messages go from the delay set to the ready
-- list, at most `limit` of them.
pub mod Order
pub mod Kept
use mathlib.Core.Option.{Option, none, some}
use stockev_qtask_list.Base.{ℕ, zero, suc, ◌+◌, String, List, [], ◌∷◌, leb, if◌then◌else◌}
use stockev_qtask_list.Store.Messages.{Message, message_task_id, is_retry}
use stockev_qtask_list.Store.Tasks.{in_ready}
use stockev_qtask_list.Store.{Store, put_task, leave_retry_wait}

-- HSET location, if the record is there.
unfoldable pub locate_ready : Option String → Store → Store
locate_ready none s = s
locate_ready (some id) s = elim (s.tasks id) [
  | none ↦ s
  | some t ↦ put_task id (record t { location = in_ready }) s
]

-- One round for the first member of the set, which the rest follow.
unfoldable pub move_one : Message → List (ℕ × Message) → Store → Store
move_one m rest s =
    locate_ready (message_task_id m)
      (leave_retry_wait (is_retry m) (record s { delay = rest; ready = m ∷ s.ready }))

-- The loop over the rounds that the limit leaves; the set's first member is the one with the
-- lowest score. The number of moved messages comes back.
unfoldable pub move_due : ℕ → List (ℕ × Message) → Store → ℕ × Store
move_due zero zs s = (0, s)
move_due (suc limit) [] s = (0, s)
move_due (suc limit) ((score, m) ∷ rest) s =
    let later : ℕ × Store = move_due limit rest (move_one m rest s) in
    if leb score s.now then (later.0 + 1, later.1) else (0, s)

unfoldable pub move_due_delay : ℕ → Store → ℕ × Store
unfolding move_due
move_due_delay limit s = move_due limit s.delay s
