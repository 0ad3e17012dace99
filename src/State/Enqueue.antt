-- ===== src/State/Enqueue.antt =====
-- ENQUEUE_V2_LUA of qtask_list/state.py: a new task, its identity and its first message.
use mathlib.Core.Option.{Option, none, some}
use stockev_qtask_list.Base.{
  ℕ, ◌+◌, String, Bool, true, false, List, [], ◌∷◌, ◌&&◌, not, ite, str_dec, update, ltb, ◌==◌,
  if◌then◌else◌, length,
}
use stockev_qtask_list.Store.Messages.{Message, SupersedeValue}
use stockev_qtask_list.Store.Tasks.{
  Task, Owner, LegacyOwner, Outcome, live, Location, in_ready, in_delay, Metric,
}
use stockev_qtask_list.Store.{Store, count, put_task, add_deadline, zadd}
use stockev_qtask_list.State.Replies.{
  Reply, task_id_collision, payload_expired, duplicate_active, duplicate_retained, enqueued,
  is_terminal,
}
use stockev_qtask_list.State.Supersede.{raise_supersede}

pub data DuplicateAction : Type 0 where
  reject allow_new : DuplicateAction

-- `record` is the decoded record of the new task, `message` its envelope's text.
pub record EnqueueArgs : Type 0 where
  pub task_id : String
  pub message : Message
  pub logical_key : Option String
  pub action : DuplicateAction
  pub dedup_until : Option ℕ
  pub available_at : ℕ
  pub created_at : ℕ
  pub fields : Task
  pub supersede : Option (String × SupersedeValue)

-- An owner's task, outcome and generation.
pub record OwnerInfo : Type 0 where
  pub owner_id : String
  pub owner_outcome : Outcome
  pub owner_generation : ℕ

-- `owner_info` at the hash, then at the text that an old release wrote.
abbrev pub legacy_info : Option LegacyOwner → Option OwnerInfo
legacy_info none = none
legacy_info (some o) =
    some (record { owner_id = o.owner_id; owner_outcome = live; owner_generation = 0 })

unfoldable pub owner_info : String → Store → Option OwnerInfo
owner_info key s = elim (s.owners key) [
  | none ↦ legacy_info (s.legacy_owners key)
  | some o ↦
      some (record {
        owner_id = o.task_id;
        owner_outcome = o.outcome;
        owner_generation = o.generation;
      })
]

unfoldable pub find_owner : Option String → Store → Option OwnerInfo
unfolding owner_info
find_owner none s = none
find_owner (some key) s = owner_info key s

-- The object of a pending upload has to be in the pending set and not claimed by the collector.
unfoldable pub is_uploaded : Option String → Option String → Store → Bool
is_uploaded none ref s = false
is_uploaded (some storage) none s = false
is_uploaded (some storage) (some ref) s = elim (s.pending storage ref) [
  | none ↦ false
  | some score ↦ not (s.claims storage ref)
]

unfoldable pub payload_is_expired : Task → Store → Bool
unfolding is_uploaded
payload_is_expired t s = t.payload_pending && not (is_uploaded t.payload_storage_id t.payload_ref s)

-- HSET and PERSIST of the new owner; an old release's text goes.
unfoldable pub owned :
    Option String → String → ℕ → Option ℕ → (String → Option Owner) → String → Option Owner
owned none id generation dedup_until m = m
owned (some key) id generation dedup_until m = update m key (
    some (record {
      task_id = id;
      generation = generation;
      outcome = live;
      dedup_until = dedup_until;
      expire_at = none;
    }))

unfoldable pub disowned {ℓ} : {V : Type ℓ} → Option String → (String → Option V) → String → Option V
disowned none m = m
disowned (some key) m = update m key none

unfoldable pub take_ownership : Option String → String → ℕ → Option ℕ → Store → Store
take_ownership key id generation dedup_until s = record s {
  owners = owned key id generation dedup_until s.owners;
  legacy_owners = disowned key s.legacy_owners;
}

-- ZADD of the history index: a member that is there gets the new score.
unfoldable pub index_history : String → ℕ → List (String × ℕ) → List (String × ℕ)
index_history id at [] = (id, at) ∷ []
index_history id at ((j, d) ∷ rest) =
    ite (str_dec id j) ((j, at) ∷ rest) ((j, d) ∷ index_history id at rest)

is_fresh : Option ℕ → Bool
is_fresh none = true
is_fresh (some score) = false

-- ZADD of the history index and of the queue registry, and the version of a new queue's indexes.
unfoldable pub register : String → ℕ → Store → Store
unfolding index_history is_fresh
register id created_at s =
    let index = index_history id created_at s.history in
    record s {
      history = index;
      registered = some s.now;
      observation_version =
          if is_fresh s.registered && (length index == 1) then 2 else s.observation_version;
    }

abbrev pub is_some {ℓ} : {A : Type ℓ} → Option A → Bool
is_some none = false
is_some (some a) = true

-- `record['not_before_at'] ~= '' and available_at > now`.
abbrev pub first_location : Task → ℕ → ℕ → Location
first_location t available_at now =
    if is_some t.not_before_at && ltb now available_at then in_delay else in_ready

unfoldable pub place : Location → ℕ → Message → Store → Store
place in_delay available_at m s = record s { delay = zadd available_at m s.delay }
place _ available_at m s = record s { ready = m ∷ s.ready }

-- ZREM of the pending upload.
unfoldable pub adopted :
    Option String → Option String → (String → String → Option ℕ) → String → String → Option ℕ
adopted none ref m = m
adopted (some storage) none m = m
adopted (some storage) (some ref) m = update m storage (update (m storage) ref none)

unfoldable pub adopt_payload : Task → Store → Store
adopt_payload t s = record s {
  pending =
      if t.payload_pending then adopted t.payload_storage_id t.payload_ref s.pending else s.pending;
}

abbrev pub owner_id? : Option OwnerInfo → Option String
owner_id? none = none
owner_id? (some o) = some o.owner_id

-- `math.max(owner_generation + 1, 1)`.
abbrev pub next_generation : Option OwnerInfo → ℕ
next_generation none = 1
next_generation (some o) = o.owner_generation + 1

-- The record that the script leaves.
abbrev pub enqueued_record : Task → ℕ → Option String → Location → Task
enqueued_record t generation override location = record t {
  generation = generation;
  duplicate_override_of = override;
  location = location;
  enqueue_confirmed = true;
}

-- Whether a task was overridden, as the amount that is counted.
abbrev pub overrides : Option OwnerInfo → ℕ
overrides none = 0
overrides (some o) = 1

-- What follows the guards.
unfoldable pub accept : EnqueueArgs → Option OwnerInfo → Store → Reply × Store
accept a owner s =
    let generation = next_generation owner in
    let location = first_location a.fields a.available_at s.now in
    (
      enqueued (owner_id? owner) generation location,
      count Metric.enqueue_override (overrides owner) (
          count Metric.enqueue_accepted 1 (
            adopt_payload a.fields (
              place location a.available_at a.message (
                raise_supersede a.supersede (
                  add_deadline a.fields.start_deadline_at a.task_id (
                    register a.task_id a.created_at (
                      put_task a.task_id
                        (enqueued_record a.fields generation (owner_id? owner) location)
                        (take_ownership a.logical_key a.task_id generation a.dedup_until s)))))))),
    )

-- The refusal of a duplicate: only its counter changes.
unfoldable pub refuse_duplicate : OwnerInfo → Store → Reply × Store
refuse_duplicate o s =
    if is_terminal o.owner_outcome
    then (
      duplicate_retained o.owner_id o.owner_generation,
      count Metric.enqueue_duplicate_retained 1 s,
    )
    else (duplicate_active o.owner_id o.owner_generation, count Metric.enqueue_duplicate_active 1 s)

unfoldable pub admit : EnqueueArgs → DuplicateAction → Option OwnerInfo → Store → Reply × Store
admit a action none s = accept a none s
admit a allow_new (some o) s = accept a (some o) s
admit a reject (some o) s = refuse_duplicate o s

unfoldable pub enqueue : EnqueueArgs → Store → Reply × Store
enqueue a s = elim (s.tasks a.task_id) [
  | some t ↦ (task_id_collision, s)
  | none ↦
      if payload_is_expired a.fields s
      then (payload_expired, s)
      else admit a a.action (find_owner a.logical_key s) s
]
