-- ===== src/Queue/Submit.antt =====
-- qtask_list/queue.py, `enqueue`, `_task_record` and `enqueue_many`, and `EnvelopeCodec.build` of
-- qtask_list/envelope.py: a checked TaskSpec becomes an envelope, a record and a script call.
use mathlib.Core.Option.{Option, none, some}
use stockev_qtask_list.Base.{
  ℕ, suc, String, Bool, true, false, max, List, [], ◌∷◌, ltb, if◌then◌else◌, length,
}
use stockev_qtask_list.Store.Messages.{
  v2, Envelope, Descriptor, inline, zstd, external, SupersedeValue, enqueue, schedule, DelayReason,
}
use stockev_qtask_list.Store.Tasks.{Task, Intent, live, in_ready, no_code, Metric}
use stockev_qtask_list.Store.{Store, count}
use stockev_qtask_list.State.Replies.{Reply, enqueued, duplicate_active, duplicate_retained}
use stockev_qtask_list.State.Enqueue as Script
use stockev_qtask_list.State.Enqueue.{EnqueueArgs, DuplicateAction, reject, allow_new}
use stockev_qtask_list.Models.{Spec}
use stockev_qtask_list.Queue.Config.{Config}
use stockev_qtask_list.Queue.Identity.{migrate_identity?, Duplicate, dedup_preflight}

-- What one call draws or is given: the new id, the clock, Redis' time before the script, and the
-- prepared payload's descriptor.
pub record Draw : Type 0 where
  pub task_id : String
  pub created_at : ℕ
  pub redis_now : ℕ
  pub payload : Descriptor

-- `max(redis_now, not_before) if not_before is not None else redis_now`.
abbrev pub available_from : Option ℕ → ℕ → ℕ
available_from none now = now
available_from (some t) now = max now t

abbrev pub first_reason : Option ℕ → DelayReason
first_reason none = enqueue
first_reason (some t) = schedule

-- `EnvelopeCodec.build`.
unfoldable pub build : Config → Spec → Draw → ℕ → ℕ → Option String → Envelope
build c spec d available_at budget replay_of = record {
  task_id = d.task_id;
  action = spec.action;
  attempt = 0;
  max_attempts = budget;
  created_at = d.created_at;
  available_at = available_at;
  delay_reason = first_reason spec.not_before_at;
  payload = d.payload;
  logical_key = spec.logical_key;
  scheduled_for = spec.scheduled_for;
  not_before_at = spec.not_before_at;
  start_deadline_at = spec.start_deadline_at;
  dedup_until = spec.dedup_until;
  trace_id = spec.trace_id;
  parent_task_id = spec.parent_task_id;
  replay_of = replay_of;
  concurrency_key = spec.concurrency_key;
  supersede_key = spec.supersede_key;
  supersede_version = spec.supersede_version;
  duplicate_override_of = none;
  claim_token = none;
  lease_token = none;
  last_error = none;
  legacy_payload = false;
}

abbrev pub payload_key : Descriptor → Option String
payload_key (inline data_text) = none
payload_key (zstd data_text) = none
payload_key (external key storage dedicated pending) = some key

abbrev pub payload_storage : Descriptor → Option String
payload_storage (inline data_text) = none
payload_storage (zstd data_text) = none
payload_storage (external key storage dedicated pending) = storage

abbrev pub is_dedicated : Descriptor → Bool
is_dedicated (inline data_text) = false
is_dedicated (zstd data_text) = false
is_dedicated (external key storage dedicated pending) = dedicated

abbrev pub is_pending : Descriptor → Bool
is_pending (inline data_text) = false
is_pending (zstd data_text) = false
is_pending (external key storage dedicated pending) = pending

abbrev pub is_external : Descriptor → Bool
is_external (inline data_text) = false
is_external (zstd data_text) = false
is_external (external key storage dedicated pending) = true

abbrev pub intent_of : Spec → Draw → Option String → Intent
intent_of spec d replay_of = record {
  action = spec.action;
  logical_key = spec.logical_key;
  created_at = d.created_at;
  scheduled_for = spec.scheduled_for;
  not_before_at = spec.not_before_at;
  start_deadline_at = spec.start_deadline_at;
  dedup_until = spec.dedup_until;
  trace_id = spec.trace_id;
  parent_task_id = spec.parent_task_id;
  replay_of = replay_of;
  concurrency_key = spec.concurrency_key;
  supersede_key = spec.supersede_key;
  supersede_version = spec.supersede_version;
  payload_descriptor = d.payload;
  payload_ref = payload_key d.payload;
  payload_dedicated = is_dedicated d.payload;
  payload_storage_id = payload_storage d.payload;
  payload_pending = is_pending d.payload;
}

-- `_task_record`. The fields below `delay_reason` are not written here: the script writes the
-- first four of them, and the others are missing.
unfoldable pub task_record : Spec → Draw → ℕ → ℕ → Option String → Task
task_record spec d available_at budget replay_of = record {
  task_id = d.task_id;
  intent = intent_of spec d replay_of;
  attempt = 0;
  max_attempts = budget;
  outcome = live;
  status = live;
  operational_message = true;
  available_at = available_at;
  delay_reason = first_reason spec.not_before_at;
  location = in_ready;
  enqueue_confirmed = false;
  generation = 0;
  duplicate_override_of = none;
  reason_code = no_code;
  claim_token = none;
  started_at = none;
  last_started_at = none;
  finished_at = none;
  purged_at = none;
  updated_at = d.created_at;
  last_error = none;
  last_error_at = none;
  result = none;
  replayed_by = [];
  expire_at = none;
}

-- Both parts of a supersede pair; a checked TaskSpec has both or none.
abbrev pub supersede_pair : Option String → Option SupersedeValue → Option (String × SupersedeValue)
supersede_pair none v = none
supersede_pair (some k) none = none
supersede_pair (some k) (some v) = some (k, v)

unfoldable pub enqueue_args : Config → Spec → DuplicateAction → Draw → EnqueueArgs
unfolding build task_record
enqueue_args c spec action d =
    let at = available_from spec.not_before_at d.redis_now in
    record {
      task_id = d.task_id;
      message = v2 (build c spec d at c.max_attempts none);
      logical_key = spec.logical_key;
      action = action;
      dedup_until = spec.dedup_until;
      available_at = at;
      created_at = d.created_at;
      fields = task_record spec d at c.max_attempts none;
      supersede = supersede_pair spec.supersede_key spec.supersede_version;
    }

-- `EnqueueResult`, or the RuntimeError of a reply that the method does not expect.
pub data Submission : Type 0 where
  accepted : String → Submission
  active retained : String → Submission
  unexpected : Submission

abbrev pub submission : String → Reply → Submission
submission id (enqueued override generation location) = accepted id
submission id (duplicate_active owner generation) = active owner
submission id (duplicate_retained owner generation) = retained owner
submission id _ = unexpected

abbrev pub count_duplicate : Duplicate → Store → Submission × Store
count_duplicate d s =
    if d.retained
    then (retained d.duplicate_of, count Metric.enqueue_duplicate_retained 1 s)
    else (active d.duplicate_of, count Metric.enqueue_duplicate_active 1 s)

unfoldable pub run_script : Config → Spec → DuplicateAction → Draw → Store → Submission × Store
run_script c spec action d s =
    let (r, u) = Script.enqueue (enqueue_args c spec action d) s in (submission d.task_id r, u)

-- The first check is made for a rejecting call with a key only.
abbrev pub preflight : DuplicateAction → Option String → Store → Option Duplicate
preflight allow_new key s = none
preflight reject none s = none
preflight reject (some key) s = dedup_preflight key s

unfoldable pub submit_migrated : Config → Spec → DuplicateAction → Draw → Store → Submission × Store
submit_migrated c spec action d s = elim (preflight action spec.logical_key s) [
  | some dup ↦ count_duplicate dup s
  | none ↦ run_script c spec action d s
]

-- `SmartQueue.enqueue`.
unfoldable pub submit : Config → Spec → DuplicateAction → Draw → Store → Submission × Store
submit c spec action d s = submit_migrated c spec action d (migrate_identity? spec.logical_key s)

-- `enqueue_many`: an item that raises ends the batch with the index it stands at and the results
-- before it; the items before it stay enqueued.
pub data Batch : Type 0 where
  too_many : Batch
  completed : List Submission → Batch
  stopped : ℕ → List Submission → Batch

abbrev pub push_result : Submission → Batch → Batch
push_result r too_many = too_many
push_result r (completed rs) = completed (r ∷ rs)
push_result r (stopped n rs) = stopped (suc n) (r ∷ rs)

unfoldable pub submit_each : Config → DuplicateAction → List (Spec × Draw) → Store → Batch × Store
submit_each c action [] s = (completed [], s)
submit_each c action ((spec, d) ∷ rest) s =
    let one : Submission × Store = submit c spec action d s in
    let others : Batch × Store = submit_each c action rest one.1 in
    elim one.0 [
      | unexpected ↦ (stopped 0 [], one.1)
      | accepted id ↦ (push_result (accepted id) others.0, others.1)
      | active id ↦ (push_result (active id) others.0, others.1)
      | retained id ↦ (push_result (retained id) others.0, others.1)
    ]

unfoldable pub enqueue_many : Config → DuplicateAction → List (Spec × Draw) → Store → Batch × Store
unfolding submit_each
enqueue_many c action items s =
    if ltb 1000 (length items) then (too_many, s) else submit_each c action items s
