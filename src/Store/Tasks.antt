-- ===== src/Store/Tasks.antt =====
-- The Redis hashes of one task and of one logical identity: qtask_list/queue.py (`_task_record`)
-- writes the first fields, the scripts of qtask_list/state.py the others.
use mathlib.Core.Option.{Option}
use stockev_qtask_list.Base.{ℕ, Bool, String, List, str_dec, ℕ_discrete}
use stockev_qtask_list.Store.Messages.{DelayReason, Descriptor, SupersedeValue}

-- `models.TaskOutcome`; `live` is the empty text and the text
-- "none", and stands for a field that is missing: an old record without one has its status.
pub data Outcome : Type 0 where
  live completed failed skipped cancelled : Outcome

unfoldable pub outcome_dec : Discrete Outcome
outcome_dec = hlevel

-- The field `location`.
pub data Location : Type 0 where
  in_ready in_delay in_processing in_dlq in_history : Location

unfoldable pub location_dec : Discrete Location
location_dec = hlevel

-- The codes that the scripts write to `reason_code`; `other_code` is a caller's.
pub data ReasonCode : Type 0 where
  no_code deadline superseded attempt_budget : ReasonCode
  other_code : String → ReasonCode

-- What the caller wants of a task: no script changes these fields.
pub record Intent : Type 0 where
  pub action : String
  pub logical_key : Option String
  pub created_at : ℕ
  pub scheduled_for : Option ℕ
  pub not_before_at : Option ℕ
  pub start_deadline_at : Option ℕ
  pub dedup_until : Option ℕ
  pub trace_id : Option String
  pub parent_task_id : Option String
  pub replay_of : Option String
  pub concurrency_key : Option String
  pub supersede_key : Option String
  pub supersede_version : Option SupersedeValue
  pub payload_descriptor : Descriptor
  pub payload_ref : Option String
  pub payload_dedicated : Bool
  pub payload_storage_id : Option String
  pub payload_pending : Bool

-- The hash `qtask:task:<id>`; `expire_at` is the key's time to live, `none` if it persists.
pub record Task : Type 0 where
  pub task_id : String
  pub intent : Intent
  pub open intent use *
  pub attempt : ℕ
  pub max_attempts : ℕ
  pub outcome : Outcome
  pub status : Outcome
  pub location : Location
  pub operational_message : Bool
  pub enqueue_confirmed : Bool
  pub available_at : ℕ
  pub delay_reason : DelayReason
  pub generation : ℕ
  pub duplicate_override_of : Option String
  pub reason_code : ReasonCode
  pub claim_token : Option String
  pub started_at : Option ℕ
  pub last_started_at : Option ℕ
  pub finished_at : Option ℕ
  pub purged_at : Option ℕ
  pub updated_at : ℕ
  pub last_error : Option (String × String)
  pub last_error_at : Option ℕ
  pub result : Option String
  pub replayed_by : List String
  pub expire_at : Option ℕ

-- The hash of a logical identity's owner.
pub record Owner : Type 0 where
  pub task_id : String
  pub generation : ℕ
  pub outcome : Outcome
  pub dedup_until : Option ℕ
  pub expire_at : Option ℕ

-- The text that an old release keeps at a logical key: the owner's task.
pub record LegacyOwner : Type 0 where
  pub owner_id : String
  pub expire_at : Option ℕ

-- A keyed concurrency lease: `SET key token NX PX`.
pub record Lease : Type 0 where
  pub token : String
  pub expire_at : ℕ

-- The fields of the metrics hash that the modelled code counts.
pub data Metric : Type 0 where
  enqueue_accepted enqueue_override enqueue_duplicate_active : Metric
  enqueue_duplicate_retained replay_accepted replay_duplicate_active : Metric
  replay_duplicate_retained outcome_completed outcome_failed outcome_skipped : Metric
  outcome_cancelled deadline_missed count_superseded concurrency_deferred : Metric
  attempt_started attempt_aborted queue_wait_total queue_wait_count : Metric
  retry_wait_current retry_scheduled admin_purged recovery_stale : Metric
  handler_duration_total handler_duration_count : Metric
  attempt_number : ℕ → Metric
  retry_code failure_code : String → Metric

unfoldable pub metric_dec : Discrete Metric
unfolding str_dec
metric_dec = hlevel (str_dec, ℕ_discrete)
