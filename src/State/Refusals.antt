-- ===== src/State/Refusals.antt =====
-- The contract at the head of qtask_list/state.py, for a script that did not move the message: record,
-- identity and metrics. A refused duplicate is counted in the metrics all the same.
pub mod Entries
pub mod Every
use mathlib.Core.Option.{Option, none, some}
use stockev_qtask_list.Base.{
  ℕ, ◌+◌, String, Bool, true, false, ◌≡◌, refl, arith, update, update_self, update_same,
  update_twice, ◌⊎◌,
}
use stockev_qtask_list.Store.Messages.{Message}
use stockev_qtask_list.Store.Tasks.{Task, Lease}
use stockev_qtask_list.Store.{Store, release_lease, released}
use stockev_qtask_list.State.Replies.{
  Reply, missing_task, task_mismatch, not_found, attempt_changed, location_changed,
  task_id_collision, payload_expired, missing_source, source_not_found, active_processing, terminal,
  not_replayable,
}
use stockev_qtask_list.State.Begin.{
  BeginArgs, skip_late, cancel_superseded, fail_budget, defer, start, take_lease, begin_budgeted,
  begin_live, begin_attempt,
}
use stockev_qtask_list.State.Settle.{
  SettleArgs, complete_taken, complete_task, skip_retry, schedule_retry, retry_task, fail_taken,
  fail_task,
}
use stockev_qtask_list.State.Claims.{return_taken, return_current, return_unstarted}
use stockev_qtask_list.State.Purge.{PurgeArgs, Source, purge_taken, cancel_or_purge, admin_move}

-- The replies of a call that moves no message and is no duplicate.
abbrev pub is_refusal : Reply → Bool
is_refusal missing_task = true
is_refusal task_mismatch = true
is_refusal not_found = true
is_refusal attempt_changed = true
is_refusal location_changed = true
is_refusal task_id_collision = true
is_refusal payload_expired = true
is_refusal missing_source = true
is_refusal source_not_found = true
is_refusal active_processing = true
is_refusal (terminal o) = true
is_refusal (not_replayable o) = true
is_refusal _ = false

-- A script's reply and store that either moved the message or left the store alone.
abbrev pub Keeps : Store → Reply × Store → Type 0
Keeps s r = is_refusal r.0 ≡ true → r.1 ≡ s

release-acquire :
    (key token : String) (l : Lease) (s : Store)
    → l.token ≡ token
    → s.leases key ≡ none
    → release_lease (some key) (some token) (record s { leases = update s.leases key (some l) }) ≡ s
unfolding release_lease released
release-acquire key token l s e free = ground (
  arith,
  update_self s.leases key (some l),
  update_twice s.leases key (some l) none,
  update_same s.leases key none free,
)

start-Keeps :
    (a : BeginArgs) (t : Task) (s : Store)
    → (start a t s ≡ (not_found, release_lease a.lease_key a.lease_token s))
      ⊎ (is_refusal (start a t s).0 ≡ false)
unfolding start
start-Keeps a t s = ground arith

begin_budgeted-Keeps :
    (a : BeginArgs) (key token : Option String) (t : Task) (s : Store)
    → a.lease_key ≡ key
    → a.lease_token ≡ token
    → Keeps s (begin_budgeted a key token t s)
unfolding begin_budgeted take_lease defer release_lease released
begin_budgeted-Keeps a none token t s k e = ground (arith, start-Keeps a t s)
begin_budgeted-Keeps a (some key) none t s k e = ground (arith, start-Keeps a t s)
begin_budgeted-Keeps a (some key) (some token) t s k e =
    let l : Lease = record { token = token; expire_at = s.now + a.lease_time } in
    ground (
      arith,
      start-Keeps a t (record s { leases = update s.leases key (some l) }),
      release-acquire key token l s refl,
    )

begin_live-Keeps : (a : BeginArgs) (t : Task) (s : Store) → Keeps s (begin_live a t s)
unfolding begin_live skip_late cancel_superseded fail_budget
begin_live-Keeps a t s =
    ground (arith, begin_budgeted-Keeps a a.lease_key a.lease_token t s refl refl)

begin_attempt-Keeps : (a : BeginArgs) (s : Store) → Keeps s (begin_attempt a s)
unfolding begin_attempt
begin_attempt-Keeps a s = grind (arith, begin_live-Keeps)

complete_task-Keeps :
    (a : SettleArgs) (full : Bool) (result : Option String) (s : Store)
    → Keeps s (complete_task a full result s)
unfolding complete_task complete_taken
complete_task-Keeps a full result s = ground arith

retry_task-Keeps :
    (a : SettleArgs) (next : Message) (run_at : ℕ) (code reason : String) (s : Store)
    → Keeps s (retry_task a next run_at code reason s)
unfolding retry_task skip_retry schedule_retry
retry_task-Keeps a next run_at code reason s = ground arith

fail_task-Keeps :
    (a : SettleArgs) (dead : Message) (code reason : String) (s : Store)
    → Keeps s (fail_task a dead code reason s)
unfolding fail_task fail_taken
fail_task-Keeps a dead code reason s = ground arith

return_unstarted-Keeps :
    (a : SettleArgs) (attempt : ℕ) (s : Store) → Keeps s (return_unstarted a attempt s)
unfolding return_unstarted return_current return_taken
return_unstarted-Keeps a attempt s = ground arith

cancel_or_purge-Keeps : (a : PurgeArgs) (s : Store) → Keeps s (cancel_or_purge a s)
unfolding cancel_or_purge purge_taken
cancel_or_purge-Keeps a s = ground arith

admin_move-Keeps :
    (id : String) (source : Source) (m next : Message) (s : Store)
    → Keeps s (admin_move id source m next s)
unfolding admin_move
admin_move-Keeps id source m next s = ground arith

-- A start of an attempt that is refused (no record, another task's, an outcome already, or a
-- message that is not in the worker's list) leaves every key as it was, the lease too: a lease
-- that was taken for it is given back.
pub begin_attempt-refused :
    (a : BeginArgs) (s : Store)
    → is_refusal (begin_attempt a s).0 ≡ true
    → (begin_attempt a s).1 ≡ s
begin_attempt-refused a s h = begin_attempt-Keeps a s h

-- A completion that is refused (no record, an outcome already, or a message that is not in the
-- worker's list) leaves every key as it was.
pub complete_task-refused :
    (a : SettleArgs) (full : Bool) (result : Option String) (s : Store)
    → is_refusal (complete_task a full result s).0 ≡ true
    → (complete_task a full result s).1 ≡ s
complete_task-refused a full result s h = complete_task-Keeps a full result s h

-- A retry that is refused (no record, an outcome already, or a message that is not in the
-- worker's list) leaves every key as it was.
pub retry_task-refused :
    (a : SettleArgs) (next : Message) (run_at : ℕ) (code reason : String) (s : Store)
    → is_refusal (retry_task a next run_at code reason s).0 ≡ true
    → (retry_task a next run_at code reason s).1 ≡ s
retry_task-refused a next run_at code reason s h = retry_task-Keeps a next run_at code reason s h

-- A failure that is refused (no record, an outcome already, or a message that is not in the
-- worker's list) leaves every key as it was.
pub fail_task-refused :
    (a : SettleArgs) (dead : Message) (code reason : String) (s : Store)
    → is_refusal (fail_task a dead code reason s).0 ≡ true
    → (fail_task a dead code reason s).1 ≡ s
fail_task-refused a dead code reason s h = fail_task-Keeps a dead code reason s h

-- The return of an unstarted claim that is refused leaves every key as it was.
pub return_unstarted-refused :
    (a : SettleArgs) (attempt : ℕ) (s : Store)
    → is_refusal (return_unstarted a attempt s).0 ≡ true
    → (return_unstarted a attempt s).1 ≡ s
return_unstarted-refused a attempt s h = return_unstarted-Keeps a attempt s h

-- A cancellation or purge that is refused (the message is not where it was asked for) leaves
-- every key as it was.
pub cancel_or_purge-refused :
    (a : PurgeArgs) (s : Store)
    → is_refusal (cancel_or_purge a s).0 ≡ true
    → (cancel_or_purge a s).1 ≡ s
cancel_or_purge-refused a s h = cancel_or_purge-Keeps a s h

-- A manual move that is refused leaves every key as it was.
pub admin_move-refused :
    (id : String) (source : Source) (m next : Message) (s : Store)
    → is_refusal (admin_move id source m next s).0 ≡ true
    → (admin_move id source m next s).1 ≡ s
admin_move-refused id source m next s h = admin_move-Keeps id source m next s h
