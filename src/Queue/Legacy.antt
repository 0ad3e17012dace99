-- ===== src/Queue/Legacy.antt =====
-- qtask_list/queue.py, `_migrate_v1_message`: a claimed text of version 1 becomes one of version 2,
-- together with its record.
use mathlib.Core.Option
use mathlib.Core.Option.{Option, none, some}
use stockev_qtask_list.Base.{ℕ, String, true, ◌∷◌, if◌then◌else◌}
use stockev_qtask_list.Store.Messages.{
  v2, v1, Envelope, LegacyEnvelope, LegacyPayload, malformed, parsed, Descriptor, enqueue,
}
use stockev_qtask_list.Store.Tasks.{Task, live, in_processing}
use stockev_qtask_list.Store.{Store, put_task, take_claimed}
use stockev_qtask_list.State.Replies.{is_terminal}
use stockev_qtask_list.State.Purge.{record_or_blank}
use stockev_qtask_list.Models.{Spec, is_empty, Request, task_spec, ok, err, aware, Checked}
use stockev_qtask_list.Queue.Config.{Config}
use stockev_qtask_list.Queue.Identity.{migrate_identity?}
use stockev_qtask_list.Queue.Submit.{Draw, build, intent_of}
use stockev_qtask_list.Queue.Claim.{move_poison, index_new}

-- `payload.get("action") or existing.get("action") or "__qtask_legacy__"`.
abbrev pub nonempty_or : String → String → String
nonempty_or a b = if is_empty a then b else a

abbrev pub text_or : Option String → String → String
text_or none b = b
text_or (some a) b = nonempty_or a b

abbrev pub legacy_action : Option String → Task → String
legacy_action given t = text_or given (nonempty_or t.action "__qtask_legacy__")

-- `_retry`, else the attempts of the record.
abbrev pub legacy_attempt : Option ℕ → Task → ℕ
legacy_attempt none t = t.attempt
legacy_attempt (some n) t = n

-- A record's `created_at`, or the clock's time.
abbrev pub first_created : Option Task → ℕ → ℕ
first_created none now = now
first_created (some t) now = t.created_at

abbrev pub legacy_request : String → Option String → Option ℕ → Request
legacy_request action key deadline = record {
  req_action = action;
  req_payload_is_mapping = true;
  req_logical_key = key;
  req_scheduled_for = none;
  req_not_before_at = none;
  req_start_deadline_at = Option.map (λ t. aware t) deadline;
  req_dedup_until = none;
  req_trace_id = none;
  req_parent_task_id = none;
  req_concurrency_key = none;
  req_supersede_key = none;
  req_supersede_version = none;
}

abbrev pub legacy_draw : LegacyEnvelope → Descriptor → Store → Draw
legacy_draw e d s = record {
  task_id = e.task_id;
  created_at = first_created (s.tasks e.task_id) s.now;
  redis_now = s.now;
  payload = d;
}

unfoldable pub migrated_envelope :
    Config → LegacyEnvelope → Spec → Descriptor → ℕ → Store → Envelope
migrated_envelope c e spec d attempt s =
    record (build c spec (legacy_draw e d s) s.now c.max_attempts none) {
      attempt = attempt;
      legacy_payload = true;
    }

-- The fields that are written over the record, if there is one.
unfoldable pub migrated_record : Config → LegacyEnvelope → Spec → Descriptor → ℕ → Store → Task
migrated_record c e spec d attempt s = record (record_or_blank (s.tasks e.task_id)) {
  task_id = e.task_id;
  intent = intent_of spec (legacy_draw e d s) none;
  attempt = attempt;
  max_attempts = c.max_attempts;
  outcome = live;
  status = live;
  location = in_processing;
  operational_message = true;
  available_at = s.now;
  delay_reason = enqueue;
  updated_at = first_created (s.tasks e.task_id) s.now;
  expire_at = none;
}

-- The script; `none` answers 0.
unfoldable pub swap_legacy :
    Config → String → LegacyEnvelope → Spec → Descriptor → ℕ → Store → Option (Envelope × Store)
swap_legacy c w e spec d attempt s =
    if is_terminal (record_or_blank (s.tasks e.task_id)).outcome
    then none
    else Option.map
        (λ taken. (
          migrated_envelope c e spec d attempt s,
          put_task e.task_id (migrated_record c e spec d attempt s) (record taken {
            processing = (w, v2 (migrated_envelope c e spec d attempt s)) ∷ taken.processing;
            history = index_new e.task_id (first_created (s.tasks e.task_id) s.now) taken.history;
            registered = some s.now;
          }),
        ))
        (take_claimed w (v1 e) s)

abbrev pub or_kept : Store → Option (Envelope × Store) → Option Envelope × Store
or_kept s none = (none, s)
or_kept s (some (e, u)) = (some e, u)

unfoldable pub migrate_checked :
    Config
    → String
    → LegacyEnvelope
    → Checked Spec
    → Descriptor
    → ℕ
    → Store
    → Option Envelope × Store
unfolding swap_legacy
migrate_checked c w e (err x) d attempt s = (none, move_poison w (v1 e) "configuration" s)
migrate_checked c w e (ok spec) d attempt s = or_kept s (swap_legacy c w e spec d attempt s)

unfoldable pub migrate_parsed :
    Config → String → LegacyEnvelope → LegacyPayload → Store → Option Envelope × Store
unfolding migrate_checked
migrate_parsed c w e (malformed text) s = (none, move_poison w (v1 e) "invalid_payload" s)
migrate_parsed c w e (parsed d retries action) s =
    let t = record_or_blank (s.tasks e.task_id) in
    migrate_checked c w e
      (task_spec (legacy_request (legacy_action action t) t.logical_key e.expires_at)) d
      (legacy_attempt retries t) (migrate_identity? t.logical_key s)

-- `_migrate_v1_message`. A record without a field reads as a blank one, and the first release's
-- `retry` field is not kept here.
unfoldable pub migrate_v1 : Config → String → LegacyEnvelope → Store → Option Envelope × Store
unfolding migrate_parsed
migrate_v1 c w e s = migrate_parsed c w e e.payload s
