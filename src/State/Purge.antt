-- ===== src/State/Purge.antt =====
-- CANCEL_OR_PURGE_LUA and ADMIN_MOVE_LUA of qtask_list/state.py: an administrator takes a message
-- out of its list or set, and cancels the task if it has no outcome yet.
use mathlib.Core.Option
use mathlib.Core.Option.{Option, none, some}
use stockev_qtask_list.Base.{
  ℕ, ◌+◌, String, Bool, true, false, [], ◌∷◌, ◌&&◌, not, ite, str_dec, update, if◌then◌else◌,
  remove_one,
}
use stockev_qtask_list.Store.Messages.{Message, msg_dec, is_retry, inline, no_delay}
use stockev_qtask_list.Store.Tasks.{
  Task, Owner, Outcome, live, completed, failed, skipped, cancelled, outcome_dec, in_ready,
  in_history, ReasonCode, no_code, Metric,
}
use stockev_qtask_list.Store.{
  Store, count, leave_retry_wait, put_task, drop_deadline, zrem, take_claimed, release_lease,
  settled_owners, retire_payload,
}
use stockev_qtask_list.State.Replies.{
  Reply, active_processing, moved, terminal, removed, is_terminal, or_not_found,
}

-- The list or set that holds the message.
pub data Source : Type 0 where
  from_ready from_delay from_dlq : Source
  from_processing : String → Source

unfoldable pub take_from : Source → Message → Store → Option Store
take_from from_ready m s = Option.map (λ xs. record s { ready = xs }) (remove_one msg_dec m s.ready)
take_from from_delay m s = Option.map (λ zs. record s { delay = zs }) (zrem m s.delay)
take_from from_dlq m s = Option.map (λ xs. record s { dlq = xs }) (remove_one msg_dec m s.dlq)
take_from (from_processing w) m s = take_claimed w m s

pub data IdentityPolicy : Type 0 where
  keep release : IdentityPolicy

pub record PurgeArgs : Type 0 where
  pub source : Source
  pub raw_message : Message
  pub task_id : String
  pub policy : IdentityPolicy
  pub logical_key : Option String
  pub lease_key : Option String
  pub lease_token : Option String
  pub code : ReasonCode
  pub ttl : ℕ
  pub force_active : Bool

-- `ARGV[10] ~= '1' and EXISTS KEYS[7]`; only a worker's processing list has a heartbeat key.
abbrev pub is_active : Source → Store → Bool
is_active (from_processing w) s = s.heartbeats w
is_active from_ready s = false
is_active from_delay s = false
is_active from_dlq s = false

-- A set's retry message leaves the gauge.
abbrev pub leaves_gauge : Source → Message → Bool
leaves_gauge from_delay m = is_retry m
leaves_gauge from_ready m = false
leaves_gauge from_dlq m = false
leaves_gauge (from_processing w) m = false

-- The outcome that the record ends with: its own, or that of its old status, or cancelled.
unfoldable pub purged_outcome : Outcome → Outcome → Outcome
purged_outcome live live = cancelled
purged_outcome live completed = completed
purged_outcome live failed = failed
purged_outcome live skipped = skipped
purged_outcome live cancelled = cancelled
purged_outcome completed status = completed
purged_outcome failed status = failed
purged_outcome skipped status = skipped
purged_outcome cancelled status = cancelled

-- The fields that only a task that had neither outcome nor old status gets.
unfoldable pub cancel_fields : ReasonCode → ℕ → Task → Task
cancel_fields code now t =
    if is_terminal t.outcome
    then t
    else if is_terminal t.status
    then t
    else record t { status = cancelled; reason_code = code; finished_at = some now }

unfoldable pub purged_record : PurgeArgs → ℕ → Task → Task
unfolding purged_outcome cancel_fields
purged_record a now t = record (cancel_fields a.code now t) {
  outcome = purged_outcome t.outcome t.status;
  operational_message = false;
  updated_at = now;
  purged_at = some now;
  location = in_history;
  expire_at = some (now + a.ttl);
}

unfoldable pub purged_owners :
    IdentityPolicy
    → Outcome
    → Option String
    → String
    → ℕ
    → (String → Option Owner)
    → String
    → Option Owner
purged_owners keep outcome key id now m = settled_owners outcome key id now m
purged_owners release outcome none id now m = m
purged_owners release outcome (some key) id now m = elim (m key) [
  | none ↦ m
  | some o ↦ ite (str_dec o.task_id id) (update m key none) m
]

unfoldable pub purge_owner : PurgeArgs → Outcome → Store → Store
purge_owner a outcome s = record s {
  owners = purged_owners a.policy outcome a.logical_key a.task_id s.now s.owners;
}

-- `if outcome == 'cancelled'`, as the amount that is counted.
abbrev pub cancels_one : Outcome → ℕ
cancels_one outcome = ite (outcome_dec outcome cancelled) 1 0

unfoldable pub purge_taken : PurgeArgs → Task → Store → Reply × Store
purge_taken a t s =
    let outcome = purged_outcome t.outcome t.status in
    (
      removed outcome,
      count Metric.outcome_cancelled (cancels_one outcome) (
          count Metric.admin_purged 1 (
            release_lease a.lease_key a.lease_token (
              purge_owner a outcome (
                retire_payload t a.ttl (
                  put_task a.task_id (purged_record a s.now t) (
                    leave_retry_wait (leaves_gauge a.source a.raw_message)
                      (drop_deadline a.task_id s))))))),
    )

-- A record that is missing reads as one with no field; the script's writes then make it.
abbrev pub blank_record : Task
blank_record = record {
  task_id = "";
  intent = record {
    action = "";
    logical_key = none;
    created_at = 0;
    scheduled_for = none;
    not_before_at = none;
    start_deadline_at = none;
    dedup_until = none;
    trace_id = none;
    parent_task_id = none;
    replay_of = none;
    concurrency_key = none;
    supersede_key = none;
    supersede_version = none;
    payload_descriptor = inline "";
    payload_ref = none;
    payload_dedicated = false;
    payload_storage_id = none;
    payload_pending = false;
  };
  attempt = 0;
  max_attempts = 1;
  outcome = live;
  status = live;
  location = in_history;
  operational_message = false;
  enqueue_confirmed = false;
  available_at = 0;
  delay_reason = no_delay;
  generation = 0;
  duplicate_override_of = none;
  reason_code = no_code;
  claim_token = none;
  started_at = none;
  last_started_at = none;
  finished_at = none;
  purged_at = none;
  updated_at = 0;
  last_error = none;
  last_error_at = none;
  result = none;
  replayed_by = [];
  expire_at = none;
}

unfoldable pub record_or_blank : Option Task → Task
record_or_blank none = blank_record
record_or_blank (some t) = t

unfoldable pub cancel_or_purge : PurgeArgs → Store → Reply × Store
cancel_or_purge a s =
    if not a.force_active && is_active a.source s
    then (active_processing, s)
    else or_not_found s (take_from a.source a.raw_message s)
        (purge_taken a (record_or_blank (s.tasks a.task_id)))

-- ADMIN_MOVE_LUA.
unfoldable pub moved_record : String → Message → Store → Store
moved_record id next s = elim (s.tasks id) [
  | none ↦ record s { ready = next ∷ s.ready }
  | some t ↦
      put_task id (record t { operational_message = true; location = in_ready; updated_at = s.now })
        (record s { ready = next ∷ s.ready })
]

unfoldable pub move_taken : String → Source → Message → Message → Store → Reply × Store
unfolding moved_record
move_taken id source m next s =
    or_not_found s (take_from source m s) λ taken. (moved, moved_record id next taken)

unfoldable pub admin_move : String → Source → Message → Message → Store → Reply × Store
unfolding move_taken
admin_move id source m next s = elim (s.tasks id) [
  | none ↦ move_taken id source m next s
  | some t ↦
      if is_terminal t.outcome then (terminal t.outcome, s) else move_taken id source m next s
]
