-- ===== src/State/Replay.antt =====
-- REPLAY_TASK_LUA of qtask_list/state.py: a finished task starts again as a new task.
use mathlib.Core.Option
use mathlib.Core.Option.{Option, none, some}
use stockev_qtask_list.Base.{
  ℕ, ◌+◌, String, Bool, true, false, [], ◌∷◌, ◌++◌, ite, str_dec, if◌then◌else◌, remove_one,
}
use stockev_qtask_list.Store.Messages.{Message, msg_dec}
use stockev_qtask_list.Store.Tasks.{
  Task, Outcome, live, completed, failed, skipped, cancelled, in_history, Metric,
}
use stockev_qtask_list.Store.{Store, count, put_task, add_deadline, retire_payload}
use stockev_qtask_list.State.Replies.{
  Reply, missing_source, not_replayable, task_id_collision, payload_expired, source_not_found,
  duplicate_active, duplicate_retained, enqueued, is_terminal,
}
use stockev_qtask_list.State.Supersede.{raise_supersede}
use stockev_qtask_list.State.Enqueue.{
  EnqueueArgs, OwnerInfo, find_owner, payload_is_expired, take_ownership, register, place,
  adopt_payload, first_location, next_generation, enqueued_record,
}

-- `enqueue` holds the new task, as for ENQUEUE_V2_LUA; its duplicate action is not read. The
-- source is the dead letter's text where the script has to remove it.
pub record ReplayArgs : Type 0 where
  pub enqueue : EnqueueArgs
  pub open enqueue use *
  pub old_task_id : String
  pub source : Option Message
  pub ttl : ℕ

-- `HGET outcome`, or the old status.
abbrev pub source_outcome : Task → Outcome
source_outcome t = if is_terminal t.outcome then t.outcome else t.status

unfoldable pub is_replayable : Outcome → Bool
is_replayable live = false
is_replayable completed = false
is_replayable failed = true
is_replayable skipped = true
is_replayable cancelled = true

-- An identity that another task owns refuses the replay.
abbrev pub foreign_owner : String → Option OwnerInfo → Option OwnerInfo
foreign_owner old none = none
foreign_owner old (some o) = ite (str_dec o.owner_id old) none (some o)

unfoldable pub refuse_replay : OwnerInfo → Store → Reply × Store
refuse_replay o s =
    if is_terminal o.owner_outcome
    then (
      duplicate_retained o.owner_id o.owner_generation,
      count Metric.replay_duplicate_retained 1 s,
    )
    else (duplicate_active o.owner_id o.owner_generation, count Metric.replay_duplicate_active 1 s)

-- `if require_source then LREM`.
unfoldable pub take_source : Option Message → Store → Option Store
take_source none s = some s
take_source (some m) s = Option.map (λ xs. record s { dlq = xs }) (remove_one msg_dec m s.dlq)

-- The old record is history: it names its replays and gets a time to live.
unfoldable pub retire_source : ReplayArgs → Task → Store → Store
retire_source a t s = retire_payload t a.ttl (
    put_task a.old_task_id
      (record t {
        operational_message = false;
        location = in_history;
        replayed_by = t.replayed_by ++ a.task_id ∷ [];
        updated_at = s.now;
        expire_at = some (s.now + a.ttl);
      })
      s)

unfoldable pub replay_taken : ReplayArgs → Task → Option OwnerInfo → Store → Reply × Store
replay_taken a old owner s =
    let generation = next_generation owner in
    let location = first_location a.fields a.available_at s.now in
    (
      enqueued (some a.old_task_id) generation location,
      count Metric.enqueue_accepted 1 (
          count Metric.replay_accepted 1 (
            adopt_payload a.fields (
              place location a.available_at a.message (
                raise_supersede a.supersede (
                  add_deadline a.fields.start_deadline_at a.task_id (
                    register a.task_id a.created_at (
                      put_task a.task_id (enqueued_record a.fields generation none location) (
                        take_ownership a.logical_key a.task_id generation a.dedup_until
                          (retire_source a old s))))))))),
    )

unfoldable pub replay_owned : ReplayArgs → Task → Option OwnerInfo → Store → Reply × Store
replay_owned a old owner s = elim (foreign_owner a.old_task_id owner) [
  | some o ↦ refuse_replay o s
  | none ↦ elim (take_source a.source s) [
    | none ↦ (source_not_found, s)
    | some taken ↦ replay_taken a old owner taken
  ]
]

unfoldable pub replay_known : ReplayArgs → Task → Store → Reply × Store
replay_known a old s =
    if is_replayable (source_outcome old)
    then elim (s.tasks a.task_id) [
      | some t ↦ (task_id_collision, s)
      | none ↦
          if payload_is_expired a.fields s
          then (payload_expired, s)
          else replay_owned a old (find_owner a.logical_key s) s
    ]
    else (not_replayable (source_outcome old), s)

unfoldable pub replay_task : ReplayArgs → Store → Reply × Store
replay_task a s = elim (s.tasks a.old_task_id) [
  | none ↦ (missing_source, s)
  | some old ↦ replay_known a old s
]
