-- ===== src/State/Begin.antt =====
-- BEGIN_ATTEMPT_LUA of qtask_list/state.py: the start of one attempt of a claimed message.
use mathlib.Core.Option.{Option, none, some}
use stockev_qtask_list.Base.{
  ℕ, ◌+◌, ◌-◌, String, Bool, true, false, ◌∷◌, ite, str_dec, update, ltb, leb, if◌then◌else◌,
}
use stockev_qtask_list.Store.Messages.{
  Message, v2, Envelope, concurrency, no_delay, SupersedeValue, value_dec,
}
use stockev_qtask_list.Store.Tasks.{
  Task, Outcome, failed, skipped, cancelled, in_delay, in_processing, in_dlq, in_history,
  ReasonCode, deadline, superseded, attempt_budget, Metric,
}
use stockev_qtask_list.Store.{
  Store, count, put_task, drop_deadline, zadd, take_claimed, release_lease, finalize_owner,
  retire_payload,
}
use stockev_qtask_list.State.Replies.{
  Reply, missing_task, task_mismatch, not_found, terminal, skips, cancels, failed_budget, deferred,
  started, is_terminal, or_not_found,
}

-- The keys and arguments. The owner, supersede and lease keys are dummies where the message has
-- no such key. A tail is the envelope whose one field the script puts in front of the rest.
pub record BeginArgs : Type 0 where
  pub worker : String
  pub raw_message : Message
  pub task_id : String
  pub logical_key : Option String
  pub supersede : Option (String × SupersedeValue)
  pub lease_key : Option String
  pub lease_token : Option String
  pub lease_time : ℕ
  pub retry_time : ℕ
  pub ttl : ℕ
  pub started_tail : Envelope
  pub deferred_tail : Envelope
  pub claim_token : String

-- '{"attempt":' .. n .. tail, and '{"available_at":' .. t .. tail.
abbrev pub started_message : BeginArgs → ℕ → Message
started_message a n = v2 (record e { attempt = n })
  where
    e : Envelope
    e = a.started_tail

abbrev pub deferred_message : BeginArgs → ℕ → Message
deferred_message a t = v2 (record e { available_at = t })
  where
    e : Envelope
    e = a.deferred_tail

-- The local function `terminalize`, for a message that is gone (`operational` 0).
unfoldable pub end_in_history : Outcome → ReasonCode → BeginArgs → Task → Store → Store
end_in_history outcome code a t s = retire_payload t a.ttl (
    drop_deadline a.task_id (
      finalize_owner outcome a.logical_key a.task_id (
        put_task a.task_id
          (record t {
            outcome = outcome;
            status = outcome;
            reason_code = code;
            finished_at = some s.now;
            updated_at = s.now;
            operational_message = false;
            location = in_history;
            expire_at = some (s.now + a.ttl);
          })
          s)))

-- The same with `operational` 1: the message stays in the dead letter queue.
unfoldable pub end_in_dlq : Outcome → ReasonCode → BeginArgs → Task → Store → Store
end_in_dlq outcome code a t s = drop_deadline a.task_id (
    finalize_owner outcome a.logical_key a.task_id (
      put_task a.task_id
        (record t {
          outcome = outcome;
          status = outcome;
          reason_code = code;
          finished_at = some s.now;
          updated_at = s.now;
          operational_message = true;
          location = in_dlq;
        })
        s))

unfoldable pub skip_late : BeginArgs → Task → Store → Reply × Store
skip_late a t s = or_not_found s (take_claimed a.worker a.raw_message s) λ taken. (
  skips,
  count Metric.deadline_missed 1 (
      count Metric.outcome_skipped 1
        (release_lease a.lease_key a.lease_token (end_in_history skipped deadline a t taken))),
)

unfoldable pub cancel_superseded : BeginArgs → Task → Store → Reply × Store
cancel_superseded a t s = or_not_found s (take_claimed a.worker a.raw_message s) λ taken. (
  cancels,
  count Metric.count_superseded 1 (
      count Metric.outcome_cancelled 1
        (release_lease a.lease_key a.lease_token (end_in_history cancelled superseded a t taken))),
)

unfoldable pub fail_budget : BeginArgs → Task → Store → Reply × Store
fail_budget a t s = or_not_found s (take_claimed a.worker a.raw_message s) λ taken. (
  failed_budget t.attempt,
  count Metric.outcome_failed 1 (
      release_lease a.lease_key a.lease_token
        (end_in_dlq failed attempt_budget a t (record taken { dlq = a.raw_message ∷ taken.dlq }))),
)

unfoldable pub defer : BeginArgs → Task → Store → Reply × Store
defer a t s =
    let run_at = s.now + a.retry_time in
    or_not_found s (take_claimed a.worker a.raw_message s) λ taken. (
      deferred (deferred_message a run_at) run_at,
      count Metric.concurrency_deferred 1 (
          put_task a.task_id
            (record t {
              available_at = run_at;
              delay_reason = concurrency;
              location = in_delay;
              updated_at = s.now;
            })
            (record taken { delay = zadd run_at (deferred_message a run_at) taken.delay })),
    )

or_now : Option ℕ → ℕ → Option ℕ
or_now none now = some now
or_now (some t) now = some t

-- The attempt itself: the claimed text becomes the started one, and the attempt is counted.
unfoldable pub start_claimed : BeginArgs → Task → Store → Store
unfolding or_now
start_claimed a t s =
    let n = t.attempt + 1 in
    count Metric.queue_wait_count 1 (
      count Metric.queue_wait_total (s.now - t.created_at) (
        count (Metric.attempt_number n) 1 (
          count Metric.attempt_started 1 (
            put_task a.task_id
              (record t {
                attempt = n;
                last_started_at = some s.now;
                updated_at = s.now;
                available_at = s.now;
                delay_reason = no_delay;
                claim_token = some a.claim_token;
                location = in_processing;
                started_at = or_now t.started_at s.now;
              })
              (drop_deadline a.task_id
                (record s { processing = (a.worker, started_message a n) ∷ s.processing }))))))

-- An attempt that lost its message gives the lease back.
unfoldable pub start : BeginArgs → Task → Store → Reply × Store
start a t s = elim (take_claimed a.worker a.raw_message s) [
  | none ↦ (not_found, release_lease a.lease_key a.lease_token s)
  | some taken ↦
      (started (started_message a (t.attempt + 1)) (t.attempt + 1), start_claimed a t taken)
]

-- SET key token NX PX, where the key is free.
unfoldable pub take_lease : BeginArgs → String → String → Store → Store
take_lease a key token s = record s {
  leases = update s.leases key (some (record { token = token; expire_at = s.now + a.lease_time }));
}

unfoldable pub begin_budgeted :
    BeginArgs → Option String → Option String → Task → Store → Reply × Store
begin_budgeted a none token t s = start a t s
begin_budgeted a (some key) none t s = start a t s
begin_budgeted a (some key) (some token) t s = elim (s.leases key) [
  | some held ↦ defer a t s
  | none ↦ start a t (take_lease a key token s)
]

unfoldable pub is_late : Option ℕ → ℕ → Bool
is_late none now = false
is_late (some d) now = ltb d now

-- `latest and latest ~= ARGV[5]`.
unfoldable pub is_superseded : Option (String × SupersedeValue) → Store → Bool
is_superseded none s = false
is_superseded (some (key, mine)) s = elim (s.supersedes key) [
  | none ↦ false
  | some latest ↦ ite (value_dec latest mine) false true
]

unfoldable pub begin_live : BeginArgs → Task → Store → Reply × Store
begin_live a t s =
    if is_late t.start_deadline_at s.now
    then skip_late a t s
    else if is_superseded a.supersede s
    then cancel_superseded a t s
    else if leb t.max_attempts t.attempt
    then fail_budget a t s
    else begin_budgeted a a.lease_key a.lease_token t s

unfoldable pub begin_attempt : BeginArgs → Store → Reply × Store
begin_attempt a s = elim (s.tasks a.task_id) [
  | none ↦ (missing_task, s)
  | some t ↦
      ite (str_dec t.task_id a.task_id)
        (if is_terminal t.outcome then (terminal t.outcome, s) else begin_live a t s)
        (task_mismatch, s)
]
