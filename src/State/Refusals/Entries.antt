-- ===== src/State/Refusals/Entries.antt =====
-- Refused calls of ENQUEUE_V2_LUA and REPLAY_TASK_LUA of qtask_list/state.py.
use mathlib.Core.Option.{Option, none, some}
use stockev_qtask_list.Base.{Bool, true, false, ◌≡◌, arith}
use stockev_qtask_list.Store.Tasks.{Task}
use stockev_qtask_list.Store.{Store, count}
use stockev_qtask_list.State.Replies.{Reply, duplicate_active, duplicate_retained}
use stockev_qtask_list.State.Enqueue.{
  EnqueueArgs, DuplicateAction, reject, allow_new, OwnerInfo, find_owner, accept, refuse_duplicate,
  admit, enqueue,
}
use stockev_qtask_list.State.Replay.{
  ReplayArgs, refuse_replay, replay_taken, replay_owned, replay_known, replay_task,
}
use stockev_qtask_list.State.Refusals.{is_refusal, Keeps}

-- A refused duplicate: no key changes but the metrics.
abbrev pub OnlyMetrics : Store → Store → Type 0
OnlyMetrics s u = u ≡ record s { metrics = u.metrics }

abbrev pub is_duplicate : Reply → Bool
is_duplicate (duplicate_active id generation) = true
is_duplicate (duplicate_retained id generation) = true
is_duplicate _ = false

admit-Keeps :
    (a : EnqueueArgs) (action : DuplicateAction) (owner : Option OwnerInfo) (s : Store)
    → Keeps s (admit a action owner s)
      × (is_duplicate (admit a action owner s).0 ≡ true → OnlyMetrics s (admit a action owner s).1)
unfolding admit accept refuse_duplicate count
admit-Keeps a action none s = ground arith
admit-Keeps a allow_new (some o) s = ground arith
admit-Keeps a reject (some o) s = ground arith

enqueue-Keeps :
    (a : EnqueueArgs) (s : Store)
    → Keeps s (enqueue a s) × (is_duplicate (enqueue a s).0 ≡ true → OnlyMetrics s (enqueue a s).1)
unfolding enqueue
enqueue-Keeps a s = ground (arith, admit-Keeps a a.action (find_owner a.logical_key s) s)

replay_owned-Keeps :
    (a : ReplayArgs) (old : Task) (owner : Option OwnerInfo) (s : Store)
    → Keeps s (replay_owned a old owner s)
      × (is_duplicate (replay_owned a old owner s).0 ≡ true
          → OnlyMetrics s (replay_owned a old owner s).1)
unfolding replay_owned replay_taken refuse_replay count
replay_owned-Keeps a old owner s = ground arith

replay_known-Keeps :
    (a : ReplayArgs) (old : Task) (s : Store)
    → Keeps s (replay_known a old s)
      × (is_duplicate (replay_known a old s).0 ≡ true → OnlyMetrics s (replay_known a old s).1)
unfolding replay_known
replay_known-Keeps a old s = ground (arith, replay_owned-Keeps a old (find_owner a.logical_key s) s)

replay_task-Keeps :
    (a : ReplayArgs) (s : Store)
    → Keeps s (replay_task a s)
      × (is_duplicate (replay_task a s).0 ≡ true → OnlyMetrics s (replay_task a s).1)
unfolding replay_task
replay_task-Keeps a s = grind (arith, replay_known-Keeps)

-- An enqueue that is refused for its task id or its payload changes nothing.
pub enqueue-refused :
    (a : EnqueueArgs) (s : Store) → is_refusal (enqueue a s).0 ≡ true → (enqueue a s).1 ≡ s
enqueue-refused a s h = (enqueue-Keeps a s).0 h

-- An enqueue that is refused as a duplicate changes nothing but the metrics: no identity is
-- taken, no record written and no message placed.
pub enqueue-duplicate :
    (a : EnqueueArgs) (s : Store)
    → is_duplicate (enqueue a s).0 ≡ true
    → OnlyMetrics s (enqueue a s).1
enqueue-duplicate a s h = (enqueue-Keeps a s).1 h

-- A replay that is refused changes nothing: the source record and its dead letter stay.
pub replay_task-refused :
    (a : ReplayArgs) (s : Store) → is_refusal (replay_task a s).0 ≡ true → (replay_task a s).1 ≡ s
replay_task-refused a s h = (replay_task-Keeps a s).0 h

-- A replay that is refused as a duplicate changes nothing but the metrics.
pub replay_task-duplicate :
    (a : ReplayArgs) (s : Store)
    → is_duplicate (replay_task a s).0 ≡ true
    → OnlyMetrics s (replay_task a s).1
replay_task-duplicate a s h = (replay_task-Keeps a s).1 h
