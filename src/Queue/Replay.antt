-- ===== src/Queue/Replay.antt =====
-- qtask_list/queue.py, `replay_task` and `_find_task_message`: an ended task starts again as a new
-- one. The method reads and writes with no other call between.
pub mod Reached
pub mod Renewed
pub mod Answered
pub mod Started
use mathlib.Core.Option
use mathlib.Core.Option.{Option, none, some}
use stockev_qtask_list.Base.{
  ℕ, String, Bool, true, false, List, [], ◌∷◌, ◌==◌, leb, ◌||◌, ◌&&◌, not, if◌then◌else◌,
}
use stockev_qtask_list.Store.Messages.{
  Message, v2, Descriptor, SupersedeValue, int_value, str_value, message_task_id,
}
use stockev_qtask_list.Store.Tasks.{Task}
use stockev_qtask_list.Store.{Store}
use stockev_qtask_list.State.Enqueue.{reject}
use stockev_qtask_list.State.Replay as Script
use stockev_qtask_list.State.Replay.{ReplayArgs, source_outcome, is_replayable}
use stockev_qtask_list.Models.{
  Moment, aware, VersionArg, int_arg, str_arg, Request, Spec, SpecError, Checked, ok, err, is_empty,
  datetime_to_epoch, task_spec,
}
use stockev_qtask_list.Queue.Config.{Config}
use stockev_qtask_list.Queue.Identity.{migrate_identity?}
use stockev_qtask_list.Queue.Submit.{
  Draw, build, task_record, supersede_pair, Submission, accepted, active, retained, unexpected,
  submission, is_external,
}
use stockev_qtask_list.Queue.Places.{is_named}

-- An argument that may be `_UNSET`.
pub data Change : Type 0 where
  unset : Change
  given : Option String → Change

-- `payload` is none for `_UNSET`, else whether a mapping is given.
pub record ReplayCall : Type 0 where
  pub task_id : String
  pub start_deadline_at : Option Moment
  pub payload : Option Bool
  pub logical_key : Change
  pub action : Option String
  pub max_attempts : Option ℕ
  pub require_dlq : Bool

-- What one call draws, and what the payload's codec gives: the descriptor of a payload that is
-- prepared anew, none if that raises; whether the source's descriptor is marked as one of an old
-- release; the action that the payload of such a source names.
pub record ReplayDraw : Type 0 where
  pub new_task_id : String
  pub created_at : ℕ
  pub redis_now : ℕ
  pub prepared : Option Descriptor
  pub is_legacy : Bool
  pub payload_action : Option String

pub data ReplayError : Type 0 where
  bad_budget not_found not_replayable not_in_dlq past_deadline no_action : ReplayError
  payload_refused replay_failed : ReplayError
  bad_description : SpecError → ReplayError

pub data Replayed : Type 0 where
  fails_with : ReplayError → Replayed
  answered : Submission → Replayed

abbrev pub answer_of : Submission → Replayed
answer_of (accepted id) = answered (accepted id)
answer_of (active id) = answered (active id)
answer_of (retained id) = answered (retained id)
answer_of unexpected = fails_with replay_failed

abbrev pub or_else {ℓ} : {A : Type ℓ} → Option A → A → A
or_else none b = b
or_else (some a) b = a

abbrev pub or_old {ℓ} : {A : Type ℓ} → Option A → Option A → Option A
or_old none b = b
or_old (some a) b = some a

abbrev pub replay_budget : Config → ReplayCall → ℕ
replay_budget c call = or_else call.max_attempts c.max_attempts

-- `_find_task_message`.
unfoldable pub find_message : String → List Message → Option Message
find_message id [] = none
find_message id (m ∷ ms) =
    let rest = find_message id ms in if is_named (message_task_id m) id then some m else rest

abbrev pub is_missing {ℓ} : {A : Type ℓ} → Option A → Bool
is_missing none = true
is_missing (some a) = false

abbrev pub chosen_key : Change → Option String → Option String
chosen_key unset old = old
chosen_key (given key) old = key

-- `action or source["action"]`.
abbrev pub chosen_action : Option String → String → String
chosen_action none old = old
chosen_action (some a) old = if is_empty a then old else a

abbrev pub is_past : Option ℕ → ℕ → Bool
is_past none now = false
is_past (some d) now = leb d now

-- `if chosen_logical`: an empty key is not migrated.
abbrev pub migrate_chosen : Option String → Store → Store
migrate_chosen none s = s
migrate_chosen (some key) s = if is_empty key then s else migrate_identity? (some key) s

-- An empty text is none.
abbrev pub version_arg : Option SupersedeValue → Option VersionArg
version_arg none = none
version_arg (some (int_value ds)) = some (int_arg ds)
version_arg (some (str_value [])) = none
version_arg (some (str_value (b ∷ bs))) = some (str_arg (b ∷ bs))

unfoldable pub replay_request : ReplayCall → Task → String → Option ℕ → Request
replay_request call t action deadline = record {
  req_action = action;
  req_payload_is_mapping = or_else call.payload true;
  req_logical_key = chosen_key call.logical_key t.logical_key;
  req_scheduled_for = Option.map (λ x. aware x) t.scheduled_for;
  req_not_before_at = none;
  req_start_deadline_at = Option.map (λ x. aware x) deadline;
  req_dedup_until = Option.map (λ x. aware x) t.dedup_until;
  req_trace_id = t.trace_id;
  req_parent_task_id = t.parent_task_id;
  req_concurrency_key = t.concurrency_key;
  req_supersede_key = t.supersede_key;
  req_supersede_version = version_arg t.supersede_version;
}

-- A payload that is not given and not external is used again.
unfoldable pub replay_payload : ReplayCall → ReplayDraw → Task → Option Descriptor
replay_payload call w t =
    if is_missing call.payload && not (is_external t.payload_descriptor || w.is_legacy)
    then some t.payload_descriptor
    else w.prepared

-- The payload of an old release names the action, if the caller does not.
unfoldable pub resolved_action : ReplayCall → ReplayDraw → Task → String → String
resolved_action call w t action =
    if is_missing call.payload
      && is_missing call.action
      && (is_external t.payload_descriptor || w.is_legacy)
    then or_else w.payload_action action
    else action

abbrev pub replay_draw : ReplayDraw → Descriptor → Draw
replay_draw w d = record {
  task_id = w.new_task_id;
  created_at = w.created_at;
  redis_now = w.redis_now;
  payload = d;
}

unfoldable pub replay_args : Config → ReplayCall → Spec → Draw → Option Message → ReplayArgs
unfolding build task_record
replay_args c call spec d source = record {
  enqueue = record {
    task_id = d.task_id;
    message = v2 (build c spec d d.redis_now (replay_budget c call) (some call.task_id));
    logical_key = spec.logical_key;
    action = reject;
    dedup_until = spec.dedup_until;
    available_at = d.redis_now;
    created_at = d.created_at;
    fields = task_record spec d d.redis_now (replay_budget c call) (some call.task_id);
    supersede = supersede_pair spec.supersede_key spec.supersede_version;
  };
  old_task_id = call.task_id;
  source = source;
  ttl = c.ttl;
}

unfoldable pub run_replay :
    Config → ReplayCall → Draw → Option Message → Checked Spec → Store → Replayed × Store
unfolding replay_args
run_replay c call d source (err e) s = (fails_with (bad_description e), s)
run_replay c call d source (ok spec) s =
    let (r, u) = Script.replay_task (replay_args c call spec d source) s in
    (answer_of (submission d.task_id r), u)

-- The payload, then the description again with its action.
unfoldable pub replay_prepared :
    Config → ReplayCall → ReplayDraw → Option Message → Request → Task → Store → Replayed × Store
unfolding run_replay replay_payload resolved_action
replay_prepared c call w source r t s = elim (replay_payload call w t) [
  | none ↦ (fails_with payload_refused, s)
  | some d ↦
      run_replay c call (replay_draw w d) source
        (task_spec (record r { req_action = resolved_action call w t r.req_action })) s
]

unfoldable pub replay_checked :
    Config
    → ReplayCall
    → ReplayDraw
    → Option Message
    → Request
    → Task
    → Checked Spec
    → Store
    → Replayed × Store
replay_checked c call w source r t (err e) s = (fails_with (bad_description e), s)
replay_checked c call w source r t (ok spec) s = replay_prepared c call w source r t s

unfoldable pub replay_described :
    Config → ReplayCall → ReplayDraw → Option Message → Task → Option ℕ → Store → Replayed × Store
unfolding replay_request
replay_described c call w source t deadline s =
    let action = chosen_action call.action t.action in
    let r = replay_request call t action deadline in
    if is_empty action
    then (fails_with no_action, s)
    else replay_checked c call w source r t (task_spec r) (migrate_chosen r.req_logical_key s)

unfoldable pub replay_dated :
    Config
    → ReplayCall
    → ReplayDraw
    → Option Message
    → Task
    → Checked (Option ℕ)
    → Store
    → Replayed × Store
replay_dated c call w source t (err e) s = (fails_with (bad_description e), s)
replay_dated c call w source t (ok chosen) s =
    let deadline = or_old chosen t.start_deadline_at in
    if is_past deadline s.now
    then (fails_with past_deadline, s)
    else replay_described c call w source t deadline s

-- The dead letter is named for the script where it has to be there.
unfoldable pub replay_found : Config → ReplayCall → ReplayDraw → Task → Store → Replayed × Store
unfolding find_message
replay_found c call w t s =
    let letter = find_message call.task_id s.dlq in
    let required = call.require_dlq || t.operational_message in
    if not (is_replayable (source_outcome t))
    then (fails_with not_replayable, s)
    else if required && is_missing letter
    then (fails_with not_in_dlq, s)
    else replay_dated c call w (if required then letter else none) t
        (datetime_to_epoch call.start_deadline_at) s

-- `SmartQueue.replay_task`.
unfoldable pub replay : Config → ReplayCall → ReplayDraw → Store → Replayed × Store
unfolding replay_found
replay c call w s =
    if replay_budget c call == 0 then (fails_with bad_budget, s) else elim (s.tasks call.task_id) [
      | none ↦ (fails_with not_found, s)
      | some t ↦ replay_found c call w t s
    ]
