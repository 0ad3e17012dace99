-- ===== src/State/Replies.antt =====
-- What the scripts of qtask_list/state.py return: the first element of the reply is the
-- constructor's name, the others are its fields.
use mathlib.Core.Option.{Option, none, some}
use stockev_qtask_list.Base.{ℕ, String, Bool, true, false}
use stockev_qtask_list.Store.{Store}
use stockev_qtask_list.Store.Messages.{Message}
use stockev_qtask_list.Store.Tasks.{Outcome, live, completed, failed, skipped, cancelled, Location}

pub data Reply : Type 0 where
  missing_task task_mismatch not_found attempt_changed location_changed : Reply
  task_id_collision payload_expired missing_source source_not_found active_processing : Reply
  moved returned : Reply
  completes fails skips cancels : Reply
  terminal not_replayable removed : Outcome → Reply
  failed_budget : ℕ → Reply
  deferred : Message → ℕ → Reply
  started : Message → ℕ → Reply
  retries : ℕ → Reply
  duplicate_active duplicate_retained : String → ℕ → Reply
  enqueued : Option String → ℕ → Location → Reply

-- `outcome ~= '' and outcome ~= 'none'`.
abbrev pub is_terminal : Outcome → Bool
is_terminal live = false
is_terminal completed = true
is_terminal failed = true
is_terminal skipped = true
is_terminal cancelled = true

-- The removal of the message decides: a script that removed nothing stops with the state as it
-- is, else it goes on.
abbrev pub or_not_found : Store → Option Store → (Store → Reply × Store) → Reply × Store
or_not_found s none next = (Reply.not_found, s)
or_not_found s (some taken) next = next taken
