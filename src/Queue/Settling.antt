-- ===== src/Queue/Settling.antt =====
-- qtask_list/queue.py, `ack` and `fail`: the end of a claimed attempt.
use mathlib.Core.Option.{Option, none, some}
use stockev_qtask_list.Base.{
  ℕ, ◌+◌, ◌-◌, ◌*◌, ◌/◌, ◌^◌, String, Bool, true, false, ◌||◌, min, max, leb, if◌then◌else◌,
}
use stockev_qtask_list.Store.Messages.{Message, v2, Envelope, retry}
use stockev_qtask_list.Store.{Store}
use stockev_qtask_list.State.Replies.{Reply, completes, fails, skips, retries}
use stockev_qtask_list.State.Settle.{SettleArgs, complete_task, retry_task, fail_task}
use stockev_qtask_list.Queue.Config.{Config}
use stockev_qtask_list.Queue.Identity.{migrate_identity?}

-- The keys and arguments that both methods take from the envelope.
abbrev pub settle_args : Config → String → Envelope → SettleArgs
settle_args c w e = record {
  worker = w;
  raw_message = v2 e;
  task_id = e.task_id;
  logical_key = e.logical_key;
  lease_key = e.concurrency_key;
  lease_token = e.lease_token;
  ttl = c.ttl;
}

-- Whether the script's reply is "completed".
abbrev pub is_completed : Reply → Bool
is_completed completes = true
is_completed _ = false

abbrev pub is_failed : Reply → Bool
is_failed fails = true
is_failed _ = false

-- `in {"retry", "skipped"}`.
abbrev pub is_retried : Reply → Bool
is_retried (retries run_at) = true
is_retried skips = true
is_retried _ = false

-- `ack` for the text of a claim; the result is its JSON text.
unfoldable pub ack : Config → String → Envelope → Option String → Store → Bool × Store
ack c w e result s =
    let (r, u) =
      complete_task (settle_args c w e) c.full_history result (migrate_identity? e.logical_key s) in
    (is_completed r, u)

-- The delay before the next attempt. `jitter` is 1000 times what `random.uniform(0.9, 1.1)` gave.
unfoldable pub backoff : Config → ℕ → ℕ → Option ℕ → ℕ
backoff c attempt jitter none =
    min (c.backoff_base * 2 ^ (attempt - 1)) c.backoff_max * jitter / 1000
backoff c attempt jitter (some after) =
    max (min (c.backoff_base * 2 ^ (attempt - 1)) c.backoff_max * jitter / 1000) after

abbrev pub dead_message : Envelope → String → String → Message
dead_message e code reason = v2 (record e { last_error = some (code, reason) })

abbrev pub retry_message : Envelope → ℕ → String → String → Message
retry_message e run_at code reason =
    v2 (record e { available_at = run_at; delay_reason = retry; last_error = some (code, reason) })

-- The arguments of `fail` beside the message.
pub record Failure : Type 0 where
  pub code : String
  pub reason : String
  pub retry_after : Option ℕ
  pub permanent : Bool
  pub jitter : ℕ

unfoldable pub fail_for_good : Config → String → Envelope → Failure → Store → Bool × Store
fail_for_good c w e f s =
    let (r, u) =
      fail_task (settle_args c w e) (dead_message e f.code f.reason) f.code f.reason
        (migrate_identity? e.logical_key s) in
    (is_failed r, u)

unfoldable pub fail_and_retry : Config → String → Envelope → Failure → Store → Bool × Store
fail_and_retry c w e f s =
    let run_at = s.now + backoff c e.attempt f.jitter f.retry_after in
    let (r, u) =
      retry_task (settle_args c w e) (retry_message e run_at f.code f.reason) run_at f.code f.reason
        (migrate_identity? e.logical_key s) in
    (is_retried r, u)

unfoldable pub fail : Config → String → Envelope → Failure → Store → Bool × Store
fail c w e f s =
    if f.permanent || leb e.max_attempts e.attempt
    then fail_for_good c w e f s
    else fail_and_retry c w e f s
