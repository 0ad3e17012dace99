-- ===== src/State/Settle.antt =====
-- COMPLETE_TASK_LUA, RETRY_TASK_LUA and FAIL_TASK_LUA of qtask_list/state.py: the three ends of
-- an attempt.
use mathlib.Core.Option.{Option, none, some}
use stockev_qtask_list.Base.{ℕ, ◌+◌, String, Bool, true, false, ◌∷◌, leb, if◌then◌else◌}
use stockev_qtask_list.Store.Messages.{Message, retry}
use stockev_qtask_list.Store.Tasks.{
  Task, completed, failed, skipped, in_delay, in_dlq, in_history, no_code, deadline, other_code,
  Metric,
}
use stockev_qtask_list.Store.{
  Store, count, put_task, drop_deadline, add_deadline, zadd, take_claimed, release_lease,
  finalize_owner, retire_payload,
}
use stockev_qtask_list.State.Replies.{
  Reply, missing_task, terminal, completes, fails, skips, retries, is_terminal, or_not_found,
}

-- What the three scripts share: the worker whose processing list is the key, the message's text
-- and task, its identity, its lease, and the time to live of a finished record.
pub record SettleArgs : Type 0 where
  pub worker : String
  pub raw_message : Message
  pub task_id : String
  pub logical_key : Option String
  pub lease_key : Option String
  pub lease_token : Option String
  pub ttl : ℕ

-- Their first guards: the record is there and has no outcome.
abbrev pub on_live : String → (Task → Store → Reply × Store) → Store → Reply × Store
on_live id next s = elim (s.tasks id) [
  | none ↦ (missing_task, s)
  | some t ↦ if is_terminal t.outcome then (terminal t.outcome, s) else next t s
]

-- `if ARGV[6] ~= '' and ARGV[7] == 'full'`.
abbrev pub kept_result : Bool → Option String → Option String → Option String
kept_result true (some r) old = some r
kept_result true none old = old
kept_result false new old = old

unfoldable pub completed_record : SettleArgs → Bool → Option String → Task → ℕ → Task
completed_record a full result t now = record t {
  outcome = completed;
  status = completed;
  finished_at = some now;
  updated_at = now;
  operational_message = false;
  reason_code = no_code;
  location = in_history;
  result = kept_result full result t.result;
  expire_at = some (now + a.ttl);
}

unfoldable pub complete_taken : SettleArgs → Bool → Option String → Task → Store → Reply × Store
complete_taken a full result t s = (
  completes,
  count Metric.outcome_completed 1 (
      release_lease a.lease_key a.lease_token (
        finalize_owner completed a.logical_key a.task_id (
          retire_payload t a.ttl (
            drop_deadline a.task_id
              (put_task a.task_id (completed_record a full result t s.now) s))))),
)

unfoldable pub complete_task : SettleArgs → Bool → Option String → Store → Reply × Store
complete_task a full result =
    on_live a.task_id
      λ t s. or_not_found s (take_claimed a.worker a.raw_message s) (complete_taken a full result t)

unfoldable pub skip_retry : SettleArgs → Task → Store → Reply × Store
skip_retry a t s = (
  skips,
  count Metric.deadline_missed 1 (
      count Metric.outcome_skipped 1 (
        release_lease a.lease_key a.lease_token (
          finalize_owner skipped a.logical_key a.task_id (
            retire_payload t a.ttl (
              drop_deadline a.task_id (
                put_task a.task_id
                  (record t {
                    outcome = skipped;
                    status = skipped;
                    reason_code = deadline;
                    finished_at = some s.now;
                    updated_at = s.now;
                    operational_message = false;
                    location = in_history;
                    expire_at = some (s.now + a.ttl);
                  })
                  s)))))),
)

unfoldable pub schedule_retry :
    SettleArgs → Message → ℕ → String → String → Task → Store → Reply × Store
schedule_retry a next run_at code reason t s = (
  retries run_at,
  count (Metric.retry_code code) 1 (
      count Metric.retry_scheduled 1 (
        release_lease a.lease_key a.lease_token (
          put_task a.task_id
            (record t {
              last_error = some (code, reason);
              last_error_at = some s.now;
              available_at = run_at;
              delay_reason = retry;
              updated_at = s.now;
              operational_message = true;
              location = in_delay;
            })
            (count Metric.retry_wait_current 1 (
              add_deadline t.start_deadline_at a.task_id
                (record s { delay = zadd run_at next s.delay })))))),
)

-- `deadline and run_at >= deadline`.
unfoldable pub misses : Option ℕ → ℕ → Bool
misses none run_at = false
misses (some d) run_at = leb d run_at

unfoldable pub retry_task : SettleArgs → Message → ℕ → String → String → Store → Reply × Store
retry_task a next run_at code reason = on_live a.task_id λ t s.
    or_not_found s (take_claimed a.worker a.raw_message s) (
      if misses t.start_deadline_at run_at
      then skip_retry a t
      else schedule_retry a next run_at code reason t)

unfoldable pub fail_taken : SettleArgs → Message → String → String → Task → Store → Reply × Store
fail_taken a dead code reason t s = (
  fails,
  count (Metric.failure_code code) 1 (
      count Metric.outcome_failed 1 (
        release_lease a.lease_key a.lease_token (
          finalize_owner failed a.logical_key a.task_id (
            put_task a.task_id
              (record t {
                outcome = failed;
                status = failed;
                reason_code = other_code code;
                last_error = some (code, reason);
                last_error_at = some s.now;
                finished_at = some s.now;
                updated_at = s.now;
                operational_message = true;
                location = in_dlq;
              })
              (drop_deadline a.task_id (record s { dlq = dead ∷ s.dlq })))))),
)

unfoldable pub fail_task : SettleArgs → Message → String → String → Store → Reply × Store
fail_task a dead code reason =
    on_live a.task_id λ t s.
      or_not_found s (take_claimed a.worker a.raw_message s) (fail_taken a dead code reason t)
