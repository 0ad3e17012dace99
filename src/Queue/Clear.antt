-- ===== src/Queue/Clear.antt =====
-- qtask_list/queue.py, `_cancel_or_purge` and `clear`: an administrator cancels the messages of a
-- queue. The retry list of the first release is no key of the store, and is not cleared here.
pub mod Removed
pub mod Shelved
pub mod Swept
pub mod Emptied
pub mod Settled
use mathlib.Core.Option
use mathlib.Core.Option.{Option, none, some}
use stockev_qtask_list.Base.{
  ℕ, ◌+◌, String, Bool, true, false, List, [], ◌∷◌, ◌++◌, map, ◌&&◌, ◌||◌, not, if◌then◌else◌,
}
use stockev_qtask_list.Store.Messages.{Message, v2, v1, junk, message_task_id}
use stockev_qtask_list.Store.Tasks.{Task, other_code}
use stockev_qtask_list.Store.{Store}
use stockev_qtask_list.State.Replies.{Reply, active_processing, removed}
use stockev_qtask_list.State.Purge.{
  PurgeArgs, Source, from_ready, from_delay, from_dlq, from_processing, take_from, IdentityPolicy,
  cancel_or_purge,
}
use stockev_qtask_list.Models.{is_empty}
use stockev_qtask_list.Queue.Config.{Config}
use stockev_qtask_list.Queue.Identity.{migrate_identity?}
use stockev_qtask_list.Queue.Recover.All.{held_by}

-- ZREM or LREM alone, for a text without a task or a task without a record.
unfoldable pub discard : Source → Message → Store → Option ℕ × Store
discard source m s = elim (take_from source m s) [ none ↦ (some 0, s) | some u ↦ (some 1, u) ]

-- The token in the text's header; a text without a header has none.
abbrev pub lease_token_of : Message → Option String
lease_token_of (v2 e) = if is_empty e.action then none else e.lease_token
lease_token_of (v1 e) = none
lease_token_of (junk text) = none

-- What a caller chooses of `_cancel_or_purge`.
pub record Clearing : Type 0 where
  pub policy : IdentityPolicy
  pub force_active : Bool

unfoldable pub purge_args : Config → Clearing → Source → Message → String → Task → PurgeArgs
purge_args c o source m id t = record {
  source = source;
  raw_message = m;
  task_id = id;
  policy = o.policy;
  logical_key = t.logical_key;
  lease_key = t.concurrency_key;
  lease_token = lease_token_of m;
  code = other_code "admin_clear";
  ttl = c.ttl;
  force_active = o.force_active;
}

-- `none` is the ValueError for a task that an active worker has.
abbrev pub purge_count : Reply → Option ℕ
purge_count active_processing = none
purge_count (removed outcome) = some 1
purge_count _ = some 0

unfoldable pub purge_known :
    Config → Clearing → Source → Message → String → Task → Store → Option ℕ × Store
unfolding purge_args
purge_known c o source m id t s =
    let (r, u) =
      cancel_or_purge (purge_args c o source m id t) (migrate_identity? t.logical_key s) in
    (purge_count r, u)

unfoldable pub purge_named :
    Config → Clearing → Source → Message → Option String → Store → Option ℕ × Store
purge_named c o source m none s = discard source m s
purge_named c o source m (some id) s = elim (s.tasks id) [
  | none ↦ discard source m s
  | some t ↦ purge_known c o source m id t s
]

-- `_cancel_or_purge`.
unfoldable pub purge_message : Config → Clearing → Source → Message → Store → Option ℕ × Store
unfolding purge_named
purge_message c o source m s = purge_named c o source m (message_task_id m) s

-- A call after another one, unless that raised.
unfoldable pub and_then : Option ℕ × Store → (Store → Option ℕ × Store) → Option ℕ × Store
and_then (none, u) next = (none, u)
and_then (some n, u) next = let (r, v) = next u in (Option.map (λ k. n + k) r, v)

unfoldable pub purge_each : Config → Clearing → Source → List Message → Store → Option ℕ × Store
unfolding and_then
purge_each c o source [] s = (some 0, s)
purge_each c o source (m ∷ ms) s =
    and_then (purge_message c o source m s) λ u. purge_each c o source ms u

-- LRANGE or ZRANGE of the whole key.
unfoldable pub messages_at : Source → Store → List Message
messages_at from_ready s = s.ready
messages_at from_delay s = map (λ z. z.1) s.delay
messages_at from_dlq s = s.dlq
messages_at (from_processing w) s = held_by w s.processing

unfoldable pub clear_keys : Config → Clearing → List Source → Store → Option ℕ × Store
unfolding and_then
clear_keys c o [] s = (some 0, s)
clear_keys c o (k ∷ ks) s = and_then (purge_each c o k (messages_at k s) s) λ u. clear_keys c o ks u

-- The keys that the method names; `workers` are those of `processing_keys`.
abbrev pub selected : Bool → List Source → List Source
selected b ks = if b then ks else []

unfoldable pub clear_sources : Bool → Bool → List String → List Source
clear_sources include_dlq include_processing workers =
    from_ready ∷ selected include_processing (map (λ w. from_processing w) workers)
    ++ from_delay ∷ selected include_dlq (from_dlq ∷ [])

abbrev pub holds_any : List Message → Bool
holds_any [] = false
holds_any (m ∷ ms) = true

unfoldable pub any_active : List String → Store → Bool
any_active [] s = false
any_active (w ∷ ws) s = (holds_any (held_by w s.processing) && s.heartbeats w) || any_active ws s

-- `clear`; `none` is the ValueError for an active worker.
unfoldable pub clear : Config → Clearing → Bool → Bool → List String → Store → Option ℕ × Store
unfolding clear_keys clear_sources any_active
clear c o include_dlq include_processing workers s =
    if include_processing && not o.force_active && any_active workers s
    then (none, s)
    else clear_keys c o (clear_sources include_dlq include_processing workers) s
