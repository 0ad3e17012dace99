-- ===== src/Queue/Consistency.antt =====
-- qtask_list/queue.py, `check_consistency`. The answers of the scans over keys are arguments: the
-- workers of `processing_keys`, the owner keys and the newest tasks of the history index.
pub mod Seen
pub mod Located
pub mod Sound
use mathlib.Core.Option.{Option, none, some}
use stockev_qtask_list.Base.{
  ℕ, ◌+◌, String, Bool, true, false, List, [], ◌∷◌, ◌++◌, ◌&&◌, ◌||◌, not, if◌then◌else◌, ltb, leb,
  length, take, str_dec,
}
use stockev_qtask_list.Store.Messages.{Message, Descriptor}
use stockev_qtask_list.Store.Tasks.{
  Task, Outcome, live, completed, failed, skipped, cancelled, Owner, LegacyOwner,
}
use stockev_qtask_list.Store.{Store, put_task}
use stockev_qtask_list.State.Replies.{is_terminal}
use stockev_qtask_list.Queue.Recover.All.{held_by}
use stockev_qtask_list.Queue.Places.{
  Place, all_places, locations, any_place, any_outside_dlq, has_operational_message,
}
use stockev_qtask_list.Queue.Submit.{is_external}

pub data Issue : Type 0 where
  processing_without_heartbeat stale_history_index live_task_without_message : String → Issue
  orphan_dedup_owner : String → String → Issue
  terminal_task_has_message : String → Outcome → List Place → Issue
  failed_task_outside_dlq : String → List Place → Issue
  operational_flag_mismatch : String → Bool → Bool → Issue
  external_retention_risk : String → ℕ → Issue

-- The keys of the three generations of owners.
pub data OwnerKey : Type 0 where
  current_key middle_key oldest_key : String → OwnerKey

-- `retains` reads the field `retain_until` of a payload descriptor.
pub record Audit : Type 0 where
  pub limit : ℕ
  pub repair_safe : Bool
  pub workers : List String
  pub owner_keys : List OwnerKey
  pub task_ids : List String
  pub retains : Descriptor → Option ℕ
  pub safety_margin : ℕ

unfoldable pub scan_messages : Audit → Store → List (Place × Message)
unfolding all_places
scan_messages a s = take a.limit (all_places a.workers s)

unfoldable pub is_complete : Audit → Store → Bool
unfolding scan_messages
is_complete a s = ltb (length (scan_messages a s)) a.limit

abbrev pub issue_if : Bool → Issue → List Issue
issue_if b i = if b then i ∷ [] else []

-- `outcome in {"completed", "skipped", "cancelled"}`.
abbrev pub is_gone : Outcome → Bool
is_gone live = false
is_gone completed = true
is_gone failed = false
is_gone skipped = true
is_gone cancelled = true

abbrev pub has_failed : Outcome → Bool
has_failed failed = true
has_failed _ = false

-- What the check knows of a task's messages: whether it knows, and whether there is one.
pub record Known : Type 0 where
  pub location_known : Bool
  pub actual : Bool

unfoldable pub known_location : Audit → Bool → List Place → String → Outcome → Store → Known
unfolding has_operational_message
known_location a complete ps id outcome s =
    if any_place ps || complete
    then record { location_known = true; actual = any_place ps }
    else if a.repair_safe && is_terminal outcome
    then record { location_known = true; actual = has_operational_message id s }
    else record { location_known = false; actual = any_place ps }

abbrev pub differs : Bool → Bool → Bool
differs true b = not b
differs false b = b

abbrev pub risk : String → Option ℕ → ℕ → List Issue
risk id none now = []
risk id (some due) now = issue_if (ltb 0 due && leb due now) (external_retention_risk id due)

-- The issues of a task with a record.
unfoldable pub record_issues : Audit → Bool → List Place → String → Task → Store → List Issue
unfolding known_location
record_issues a complete ps id t s =
    let k = known_location a complete ps id t.outcome s in
    issue_if (not (is_terminal t.outcome) && not (any_place ps) && (any_place ps || complete))
      (live_task_without_message id)
    ++ issue_if (is_gone t.outcome && any_place ps) (terminal_task_has_message id t.outcome ps)
    ++ issue_if (has_failed t.outcome && any_outside_dlq ps) (failed_task_outside_dlq id ps)
    ++ issue_if (k.location_known && differs t.operational_message k.actual)
        (operational_flag_mismatch id t.operational_message k.actual)
    ++ (if is_external t.payload_descriptor && t.operational_message
        then risk id (a.retains t.payload_descriptor) (s.now + a.safety_margin)
        else [])

-- What the repair writes, and how many writes it makes.
unfoldable pub repair_record : Audit → Bool → List Place → String → Task → Store → ℕ × Store
unfolding known_location
repair_record a complete ps id t s =
    let k = known_location a complete ps id t.outcome s in
    if k.location_known
      && differs t.operational_message k.actual
      && a.repair_safe
      && is_terminal t.outcome
    then (1, put_task id (record t { operational_message = k.actual }) s)
    else (0, s)

unfoldable pub drop_index : String → List (String × ℕ) → Option (List (String × ℕ))
drop_index id [] = none
drop_index id ((j, d) ∷ rest) = elim (str_dec id j) [
  | yes e ↦ some rest
  | no n ↦ elim (drop_index id rest) [ none ↦ none | some xs ↦ some ((j, d) ∷ xs) ]
]

unfoldable pub repair_index : Audit → String → Store → ℕ × Store
unfolding drop_index
repair_index a id s =
    if a.repair_safe
    then elim (drop_index id s.history) [ none ↦ (0, s) | some xs ↦ (1, record s { history = xs }) ]
    else (0, s)

unfoldable pub check_task :
    Audit → Bool → List (Place × Message) → String → Store → List Issue × (ℕ × Store)
unfolding record_issues repair_record repair_index
check_task a complete seen id s = elim (s.tasks id) [
  | none ↦ (stale_history_index id ∷ [], repair_index a id s)
  | some t ↦ (
    record_issues a complete (locations id seen) id t s,
    repair_record a complete (locations id seen) id t s,
  )
]

unfoldable pub check_tasks :
    Audit → Bool → List (Place × Message) → List String → Store → List Issue × (ℕ × Store)
check_tasks a complete seen [] s = ([], (0, s))
check_tasks a complete seen (id ∷ ids) s =
    let (found, one) = check_task a complete seen id s in
    let (later, rest) = check_tasks a complete seen ids one.1 in
    (found ++ later, (one.0 + rest.0, rest.1))

abbrev pub any_held : List Message → Bool
any_held [] = false
any_held (m ∷ ms) = true

unfoldable pub worker_issues : List String → Store → List Issue
worker_issues [] s = []
worker_issues (w ∷ ws) s =
    issue_if (any_held (held_by w s.processing) && not (s.heartbeats w))
      (processing_without_heartbeat w)
    ++ worker_issues ws s

-- An owner's task, unless its outcome is kept.
abbrev pub owner_task : Option Owner → Option String
owner_task none = none
owner_task (some o) = if is_terminal o.outcome then none else some o.task_id

abbrev pub legacy_task : Option LegacyOwner → Option String
legacy_task none = none
legacy_task (some l) = some l.owner_id

unfoldable pub unsettled_owner : OwnerKey → Store → Option String
unsettled_owner (current_key k) s = owner_task (s.owners k)
unsettled_owner (middle_key k) s = owner_task (s.dedup_owners k)
unsettled_owner (oldest_key k) s = legacy_task (s.legacy_owners k)

abbrev pub key_text : OwnerKey → String
key_text (current_key k) = k
key_text (middle_key k) = k
key_text (oldest_key k) = k

abbrev pub lacks_record : Option Task → Bool
lacks_record none = true
lacks_record (some t) = false

abbrev pub orphan : OwnerKey → Option String → Store → List Issue
orphan k none s = []
orphan k (some id) s = issue_if (lacks_record (s.tasks id)) (orphan_dedup_owner (key_text k) id)

unfoldable pub owner_issues : List OwnerKey → Store → List Issue
unfolding unsettled_owner
owner_issues [] s = []
owner_issues (k ∷ ks) s = orphan k (unsettled_owner k s) s ++ owner_issues ks s

pub record Report : Type 0 where
  pub scanned_messages : ℕ
  pub message_scan_complete : Bool
  pub issues : List Issue
  pub repaired : ℕ

-- `check_consistency`; `none` is the ValueError of a limit below 1. The counts of issues, of owners
-- and of tasks that it adds to the report and to the metrics are left out.
unfoldable pub check_consistency : Audit → Store → Option (Report × Store)
unfolding scan_messages is_complete worker_issues owner_issues check_tasks
check_consistency a s =
    let (found, done) =
      check_tasks a (is_complete a s) (scan_messages a s) (take a.limit a.task_ids) s in
    if ltb a.limit 1
    then none
    else some (
      record {
        scanned_messages = length (scan_messages a s);
        message_scan_complete = is_complete a s;
        issues = worker_issues a.workers s ++ owner_issues (take a.limit a.owner_keys) s ++ found;
        repaired = done.0;
      },
      done.1,
    )
