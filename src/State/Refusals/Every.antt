-- ===== src/State/Refusals/Every.antt =====
-- The scripts of qtask_list/state.py that move a message, as the calls that callers make.
use mathlib.Core.Option.{Option, none, some}
use stockev_qtask_list.Base.{
  ℕ, String, Bool, true, false, ◌≡◌, arith, ◌||◌, if◌then◌else◌, Bool-cases, inl, inr,
}
use stockev_qtask_list.Store.Messages.{Message, junk}
use stockev_qtask_list.Store.Tasks.{Task}
use stockev_qtask_list.Store.{Store}
use stockev_qtask_list.State.Replies.{Reply}
use stockev_qtask_list.State.Begin.{
  BeginArgs, skip_late, cancel_superseded, fail_budget, defer, start, begin_budgeted, begin_live,
  begin_attempt,
}
use stockev_qtask_list.State.Settle.{
  SettleArgs, complete_taken, complete_task, skip_retry, schedule_retry, retry_task, fail_taken,
  fail_task,
}
use stockev_qtask_list.State.Claims.{return_taken, return_current, return_unstarted}
use stockev_qtask_list.State.Purge.{PurgeArgs, Source, purge_taken, cancel_or_purge, admin_move}
use stockev_qtask_list.State.Enqueue.{EnqueueArgs, enqueue}
use stockev_qtask_list.State.Replay.{ReplayArgs, replay_task}
use stockev_qtask_list.State.Refusals.{
  Keeps, is_refusal, begin_attempt-refused, complete_task-refused, retry_task-refused,
  fail_task-refused, return_unstarted-refused, cancel_or_purge-refused, admin_move-refused,
}
use stockev_qtask_list.State.Refusals.Entries.{
  OnlyMetrics, is_duplicate, enqueue-refused, enqueue-duplicate, replay_task-refused,
  replay_task-duplicate,
}

-- A script with its arguments.
pub data Call : Type 0 where
  enqueues : EnqueueArgs → Call
  begins : BeginArgs → Call
  completes : SettleArgs → Bool → Option String → Call
  retries : SettleArgs → Message → ℕ → String → String → Call
  fails : SettleArgs → Message → String → String → Call
  returns : SettleArgs → ℕ → Call
  purges : PurgeArgs → Call
  moves : String → Source → Message → Message → Call
  replays : ReplayArgs → Call

unfoldable pub run_call : Call → Store → Reply × Store
run_call (enqueues a) s = enqueue a s
run_call (begins a) s = begin_attempt a s
run_call (completes a full result) s = complete_task a full result s
run_call (retries a next run_at code reason) s = retry_task a next run_at code reason s
run_call (fails a dead code reason) s = fail_task a dead code reason s
run_call (returns a attempt) s = return_unstarted a attempt s
run_call (purges a) s = cancel_or_purge a s
run_call (moves id source m next) s = admin_move id source m next s
run_call (replays a) s = replay_task a s

-- No other script answers a duplicate.
begin_budgeted_unique :
    (a : BeginArgs) (key token : Option String) (t : Task) (s : Store)
    → is_duplicate (begin_budgeted a key token t s).0 ≡ false
unfolding begin_budgeted defer start
begin_budgeted_unique a none token t s = ground arith
begin_budgeted_unique a (some key) none t s = ground arith
begin_budgeted_unique a (some key) (some token) t s = ground arith

begin_attempt_unique : (a : BeginArgs) (s : Store) → is_duplicate (begin_attempt a s).0 ≡ false
unfolding begin_attempt begin_live skip_late cancel_superseded fail_budget
begin_attempt_unique a s = grind (arith, begin_budgeted_unique)

settle_unique :
    (a : SettleArgs) (full : Bool) (result : Option String) (next : Message) (n : ℕ)
    (code reason : String) (s : Store)
    → (is_duplicate (complete_task a full result s).0 ≡ false)
      × (is_duplicate (retry_task a next n code reason s).0 ≡ false)
      × (is_duplicate (fail_task a next code reason s).0 ≡ false)
      × (is_duplicate (return_unstarted a n s).0 ≡ false)
unfolding complete_task complete_taken retry_task skip_retry schedule_retry fail_task fail_taken
    return_unstarted return_current return_taken
settle_unique a full result next n code reason s =
    (ground arith, ground arith, ground arith, ground arith)

purge_unique : (a : PurgeArgs) (s : Store) → is_duplicate (cancel_or_purge a s).0 ≡ false
unfolding cancel_or_purge purge_taken
purge_unique a s = ground arith

move_unique :
    (id : String) (source : Source) (m next : Message) (s : Store)
    → is_duplicate (admin_move id source m next s).0 ≡ false
unfolding admin_move
move_unique id source m next s = ground arith

-- What a refused call may change: a refused duplicate is counted.
abbrev pub IsLeftBy : Reply × Store → Store → Type 0
IsLeftBy r s = r.1 ≡ (if is_duplicate r.0 then record s { metrics = r.1.metrics } else s)

counted :
    (r : Reply × Store) (s : Store)
    → Keeps s r
    → (is_duplicate r.0 ≡ true → OnlyMetrics s r.1)
    → (is_refusal r.0 || is_duplicate r.0) ≡ true
    → IsLeftBy r s
counted r s keeps only refused = elim (Bool-cases (is_duplicate r.0)) [
  | inl d ↦ rw d (only d)
  | inr n ↦ rw n (keeps (ground arith))
]

uncounted :
    (r : Reply × Store) (s : Store)
    → Keeps s r
    → is_duplicate r.0 ≡ false
    → (is_refusal r.0 || is_duplicate r.0) ≡ true
    → IsLeftBy r s
uncounted r s keeps n refused = rw n (keeps (ground arith))

-- A script that refuses its call (no record, another outcome, attempt or place than it was called
-- for, an id that is taken, a payload that is gone, or a message that is not in the list or set that
-- was named) leaves every key of the queue as it was: messages, records, identities, leases, indexes
-- and metrics. One that refuses a duplicate of a task changes the metrics only.
pub run_call-refused :
    (c : Call) (s : Store)
    → (is_refusal (run_call c s).0 || is_duplicate (run_call c s).0) ≡ true
    → (run_call c s).1 ≡ (
        if is_duplicate (run_call c s).0
        then record s { metrics = (run_call c s).1.metrics }
        else s)
unfolding run_call
run_call-refused (enqueues a) s h =
    counted (enqueue a s) s (enqueue-refused a s) (enqueue-duplicate a s) h
run_call-refused (begins a) s h =
    uncounted (begin_attempt a s) s (begin_attempt-refused a s) (begin_attempt_unique a s) h
run_call-refused (completes a full result) s h =
    uncounted (complete_task a full result s) s (complete_task-refused a full result s)
      (settle_unique a full result (junk "") 0 "" "" s).0 h
run_call-refused (retries a next run_at code reason) s h =
    uncounted (retry_task a next run_at code reason s) s
      (retry_task-refused a next run_at code reason s)
      (settle_unique a true none next run_at code reason s).1 h
run_call-refused (fails a dead code reason) s h =
    uncounted (fail_task a dead code reason s) s (fail_task-refused a dead code reason s)
      (settle_unique a true none dead 0 code reason s).2 h
run_call-refused (returns a attempt) s h =
    uncounted (return_unstarted a attempt s) s (return_unstarted-refused a attempt s)
      (settle_unique a true none (junk "") attempt "" "" s).3 h
run_call-refused (purges a) s h =
    uncounted (cancel_or_purge a s) s (cancel_or_purge-refused a s) (purge_unique a s) h
run_call-refused (moves id source m next) s h =
    uncounted (admin_move id source m next s) s (admin_move-refused id source m next s)
      (move_unique id source m next s) h
run_call-refused (replays a) s h =
    counted (replay_task a s) s (replay_task-refused a s) (replay_task-duplicate a s) h
