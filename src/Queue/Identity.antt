-- ===== src/Queue/Identity.antt =====
-- qtask_list/queue.py, `_migrate_identity` and `_dedup_preflight`: the owner of a logical key. A
-- key's hash (SHA256, third-party code) is identified with the key.
use mathlib.Core.Option.{Option, none, some}
use stockev_qtask_list.Base.{ℕ, ◌+◌, ◌-◌, String, Bool, max, update, if◌then◌else◌}
use stockev_qtask_list.Store.Tasks.{Task, Owner, LegacyOwner, Outcome, live}
use stockev_qtask_list.Store.{Store}
use stockev_qtask_list.State.Replies.{is_terminal}

-- PEXPIRE with `math.max(ttl, 1)` milliseconds, if the source key had a time to live.
remaining : Option ℕ → ℕ → Option ℕ
remaining none now = none
remaining (some x) now = some (now + max (x - now) 1000)

-- An owner that moves to its new key keeps a time to live only after the end of its task.
unfoldable pub moved_owner : Owner → ℕ → Owner
unfolding remaining
moved_owner o now = record o {
  expire_at = if is_terminal o.outcome then remaining o.expire_at now else none;
}

-- The outcome of the task that an old text names: the record's, or its status.
unfoldable pub recorded_outcome : Option Task → Outcome
recorded_outcome none = live
recorded_outcome (some t) = if is_terminal t.outcome then t.outcome else t.status

unfoldable pub adopted_owner : LegacyOwner → Outcome → ℕ → Owner
unfolding remaining
adopted_owner l outcome now = record {
  task_id = l.owner_id;
  generation = 1;
  outcome = outcome;
  dedup_until = remaining l.expire_at now;
  expire_at = if is_terminal outcome then remaining l.expire_at now else none;
}

unfoldable pub migrate_identity : String → Store → Store
migrate_identity key s = elim (s.owners key) [
  | some o ↦ s
  | none ↦ elim (s.dedup_owners key) [
    | some o ↦ record s {
      owners = update s.owners key (some (moved_owner o s.now));
      dedup_owners = update s.dedup_owners key none;
    }
    | none ↦ elim (s.legacy_owners key) [
      | none ↦ s
      | some l ↦ record s {
        owners =
            update s.owners key
              (some (adopted_owner l (recorded_outcome (s.tasks l.owner_id)) s.now));
        legacy_owners = update s.legacy_owners key none;
      }
    ]
  ]
]

-- `if header.logical_key: self._migrate_identity(header.logical_key)`.
abbrev pub migrate_identity? : Option String → Store → Store
migrate_identity? none s = s
migrate_identity? (some key) s = migrate_identity key s

-- The first check of a rejecting enqueue: the owner, and whether its task has an outcome.
pub record Duplicate : Type 0 where
  pub duplicate_of : String
  pub retained : Bool

unfoldable pub dedup_preflight : String → Store → Option Duplicate
dedup_preflight key s = elim (s.owners key) [
  | some o ↦ some (record { duplicate_of = o.task_id; retained = is_terminal o.outcome })
  | none ↦ elim (s.legacy_owners key) [
    | none ↦ none
    | some l ↦ some (record {
      duplicate_of = l.owner_id;
      retained = is_terminal (recorded_outcome (s.tasks l.owner_id));
    })
  ]
]
