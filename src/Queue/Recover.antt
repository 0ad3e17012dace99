-- ===== src/Queue/Recover.antt =====
-- qtask_list/queue.py, `recover_processing_key`: the messages of a dead worker go back to the
-- ready list.
pub mod All
use mathlib.Core.Option.{Option, none, some}
use stockev_qtask_list.Base.{ℕ, zero, suc, ◌+◌, String, Bool, ◌∷◌, if◌then◌else◌, length, ◌&&◌}
use stockev_qtask_list.Store.Messages.{message_task_id}
use stockev_qtask_list.Store.Tasks.{in_ready, Metric}
use stockev_qtask_list.Store.{Store, count, put_task, add_deadline, pop_claimed}

-- HSET location, and ZADD of the deadline, if the record is there.
unfoldable pub relocate : Option String → Store → Store
relocate none s = s
relocate (some id) s = elim (s.tasks id) [
  | none ↦ s
  | some t ↦ add_deadline t.start_deadline_at id (put_task id (record t { location = in_ready }) s)
]

-- The script: `none` answers that the worker is alive or its list is empty.
unfoldable pub recover_one : String → Bool → Store → Option Store
recover_one w guarded s =
    if guarded && s.heartbeats w then none else elim (pop_claimed w s.processing) [
      | none ↦ none
      | some (m, rest) ↦
          some (relocate (message_task_id m) (record s { ready = m ∷ s.ready; processing = rest }))
    ]

-- The loop. Each round takes an entry of the processing lists, so their length is fuel enough.
unfoldable pub recover_loop : ℕ → String → Bool → Store → ℕ × Store
recover_loop zero w guarded s = (0, s)
recover_loop (suc fuel) w guarded s = elim (recover_one w guarded s) [
  | none ↦ (0, s)
  | some u ↦ let rest : ℕ × Store = recover_loop fuel w guarded u in (rest.0 + 1, rest.1)
]

unfoldable pub recover_processing : String → Bool → Store → ℕ × Store
unfolding recover_loop
recover_processing w guarded s =
    let (n, u) = recover_loop (length s.processing) w guarded s in
    (n, count Metric.recovery_stale n u)
