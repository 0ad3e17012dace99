-- ===== src/Admin/Deleting.antt =====
-- qtask_list/admin.py, `_check_active_processing` and `delete_task`, for a task of one queue. The
-- list of the first release's retries is no key of the store, and a record here always has its
-- `operational_message`.
pub mod Own
pub mod Keys
pub mod Gone
pub mod Erased
use mathlib.Core.Option.{Option, none, some}
use stockev_qtask_list.Base.{
  ℕ, ◌+◌, String, Bool, true, false, List, [], ◌∷◌, ◌++◌, map, ◌&&◌, ◌||◌, ite, str_dec, update,
  if◌then◌else◌,
}
use stockev_qtask_list.Store.Messages.{Message, message_task_id}
use stockev_qtask_list.Store.Tasks.{Task}
use stockev_qtask_list.Store.{Store}
use stockev_qtask_list.State.Purge.{
  Source, from_ready, from_delay, from_dlq, from_processing, release,
}
use stockev_qtask_list.Queue.Config.{Config}
use stockev_qtask_list.Queue.Recover.All.{held_by}
use stockev_qtask_list.Queue.Clear.{Clearing, purge_each, messages_at, and_then}

-- `_message_task_id(raw_msg) == task_id`.
abbrev pub is_task : Option String → String → Bool
is_task none id = false
is_task (some j) id = ite (str_dec j id) true false

abbrev pub is_own : String → Message → Bool
is_own id m = is_task (message_task_id m) id

unfoldable pub own : String → List Message → List Message
own id [] = []
own id (m ∷ ms) = let rest = own id ms in if is_own id m then m ∷ rest else rest

abbrev pub holds_own : String → List Message → Bool
holds_own id [] = false
holds_own id (m ∷ ms) = is_own id m || holds_own id ms

-- The first worker of `processing_keys` that is active and holds the task.
unfoldable pub check_active : List String → String → Store → Option String
check_active [] id s = none
check_active (w ∷ ws) id s =
    let rest = check_active ws id s in
    if s.heartbeats w && holds_own id (held_by w s.processing) then some w else rest

abbrev pub releasing : Clearing
releasing = record { policy = release; force_active = false }

-- The messages of the task, key by key.
unfoldable pub delete_own : Config → String → List Source → Store → Option ℕ × Store
delete_own c id [] s = (some 0, s)
delete_own c id (k ∷ ks) s =
    and_then (purge_each c releasing k (own id (messages_at k s)) s) λ u. delete_own c id ks u

unfoldable pub task_keys : List String → List Source
task_keys ws = from_ready ∷ map (λ w. from_processing w) ws ++ from_dlq ∷ from_delay ∷ []

-- The release script: the key goes if it names the task.
unfoldable pub release_owner : String → String → Store → ℕ × Store
release_owner key id s = elim (s.owners key) [
  | none ↦ (0, s)
  | some o ↦ ite (str_dec o.task_id id) (1, record s { owners = update s.owners key none }) (0, s)
]

unfoldable pub release_legacy_owner : String → String → Store → ℕ × Store
release_legacy_owner key id s = elim (s.legacy_owners key) [
  | none ↦ (0, s)
  | some l ↦
      ite (str_dec l.owner_id id) (1, record s { legacy_owners = update s.legacy_owners key none })
        (0, s)
]

-- Of the record that was read first.
unfoldable pub release_identities : Option String → String → Store → ℕ × Store
unfolding release_owner release_legacy_owner
release_identities none id s = (0, s)
release_identities (some key) id s =
    let (a, u) = release_owner key id s in let (b, v) = release_legacy_owner key id u in (a + b, v)

abbrev pub key_of : Option Task → Option String
key_of none = none
key_of (some t) = t.logical_key

-- ZREM of the history index, and whether the task stood there.
unfoldable pub without_task : String → List (String × ℕ) → List (String × ℕ)
without_task id [] = []
without_task id ((j, d) ∷ rest) =
    let others = without_task id rest in ite (str_dec id j) others ((j, d) ∷ others)

unfoldable pub is_indexed : String → List (String × ℕ) → Bool
is_indexed id [] = false
is_indexed id ((j, d) ∷ rest) = ite (str_dec id j) true (is_indexed id rest)

abbrev pub exists : Option Task → Bool
exists none = false
exists (some t) = true

abbrev pub one_if : Bool → ℕ
one_if b = if b then 1 else 0

pub record Deletion : Type 0 where
  pub queue_messages : ℕ
  pub history_records : ℕ
  pub history_indexes : ℕ
  pub identities_released : ℕ

unfoldable pub erase : String → Option Task → ℕ → Store → Option Deletion × Store
unfolding release_identities without_task is_indexed
erase id t n s =
    let (released, u) = release_identities (key_of t) id s in
    (
      some (record {
        queue_messages = n;
        history_records = one_if (exists (u.tasks id));
        history_indexes = one_if (is_indexed id u.history);
        identities_released = released;
      }),
      record u { tasks = update u.tasks id none; history = without_task id u.history },
    )

-- A message that moved on meanwhile keeps its record.
abbrev pub is_operational : Option Task → Bool
is_operational none = false
is_operational (some t) = t.operational_message

unfoldable pub delete_record : String → Option Task → Option ℕ × Store → Option Deletion × Store
unfolding erase
delete_record id t (none, u) = (none, u)
delete_record id t (some n, u) = if is_operational (u.tasks id) then (none, u) else erase id t n u

-- `delete_task`; `none` is a ValueError.
unfoldable pub delete_task : Config → List String → String → Store → Option Deletion × Store
unfolding delete_record delete_own task_keys
delete_task c ws id s = elim (check_active ws id s) [
  | some w ↦ (none, s)
  | none ↦ delete_record id (s.tasks id) (delete_own c id (task_keys ws) s)
]
