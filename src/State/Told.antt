-- ===== src/State/Told.antt =====
-- What the scripts of qtask_list/state.py write to `operational_message`: whether the task has a
-- message.
use mathlib.Core.Option.{Option, none, some}
use stockev_qtask_list.Base.{ℕ, String, Bool, true, false, ◌≡◌, arith, Option-cases, inl, inr}
use stockev_qtask_list.Store.Messages.{Message}
use stockev_qtask_list.Store.Tasks.{Task, Outcome, Location, live, failed, in_dlq}
use stockev_qtask_list.Store.{Store, take_claimed}
use stockev_qtask_list.State.Replies.{is_terminal}
use stockev_qtask_list.State.Settle.{
  SettleArgs, completed_record, complete_taken, complete_task, skip_retry, schedule_retry,
  retry_task, fail_taken, fail_task,
}
use stockev_qtask_list.State.Begin.{
  BeginArgs, end_in_history, end_in_dlq, skip_late, cancel_superseded, fail_budget, defer,
  start_claimed, start, take_lease, begin_budgeted, begin_live, begin_attempt,
}
use stockev_qtask_list.State.Claims.{return_taken, return_current, return_unstarted}
use stockev_qtask_list.State.Purge.{
  PurgeArgs, purged_record, purged_outcome, cancel_fields, purge_taken, record_or_blank, take_from,
  cancel_or_purge,
}
use stockev_qtask_list.State.Enqueue.{
  EnqueueArgs, OwnerInfo, find_owner, place, accept, admit, refuse_duplicate, enqueue,
}
use stockev_qtask_list.State.Replay.{
  ReplayArgs, take_source, retire_source, replay_taken, refuse_replay, replay_owned, replay_known,
  replay_task,
}
use stockev_qtask_list.State.Ownership.Cores.{core}

-- A task without an outcome has a message, and a failed one in the dead letter queue.
abbrev pub says : Outcome → Location → Bool
says live l = true
says failed in_dlq = true
says _ _ = false

-- The flag, and the old status field: a task without an outcome has none there.
abbrev pub Told : Option Task → Type 0
Told none = Unit {0}
Told (some t) =
    (t.operational_message ≡ says t.outcome t.location) × (t.outcome ≡ live → t.status ≡ live)

pub complete_task-Told :
    (a : SettleArgs) (full : Bool) (result : Option String) (s : Store) (j : String)
    → Told (s.tasks j)
    → Told ((complete_task a full result s).1.tasks j)
unfolding complete_task complete_taken completed_record core take_claimed
complete_task-Told a full result s j h = ground arith

pub retry_task-Told :
    (a : SettleArgs) (m : Message) (run_at : ℕ) (code reason : String) (s : Store) (j : String)
    → Told (s.tasks j)
    → Told ((retry_task a m run_at code reason s).1.tasks j)
unfolding retry_task skip_retry schedule_retry core take_claimed
retry_task-Told a m run_at code reason s j h = ground arith

pub fail_task-Told :
    (a : SettleArgs) (m : Message) (code reason : String) (s : Store) (j : String)
    → Told (s.tasks j)
    → Told ((fail_task a m code reason s).1.tasks j)
unfolding fail_task fail_taken core take_claimed
fail_task-Told a m code reason s j h = ground arith

pub return_unstarted-Told :
    (a : SettleArgs) (attempt : ℕ) (s : Store) (j : String)
    → Told (s.tasks j)
    → Told ((return_unstarted a attempt s).1.tasks j)
unfolding return_unstarted return_current return_taken core take_claimed
return_unstarted-Told a attempt s j h = ground arith

pub cancel_or_purge-Told :
    (a : PurgeArgs) (s : Store) (j : String)
    → Told (s.tasks j)
    → Told ((cancel_or_purge a s).1.tasks j)
unfolding cancel_or_purge purge_taken purged_record purged_outcome cancel_fields record_or_blank
    core take_from take_claimed
cancel_or_purge-Told a s j h = ground arith

pub enqueue-Told :
    (a : EnqueueArgs) (s : Store) (j : String)
    → a.fields.outcome ≡ live
    → a.fields.status ≡ live
    → a.fields.operational_message ≡ true
    → Told (s.tasks j)
    → Told ((enqueue a s).1.tasks j)
unfolding enqueue admit accept refuse_duplicate place core
enqueue-Told a s j o st f h = ground arith

module _ (a : ReplayArgs) (t : Task) (j : String) (o : a.fields.outcome ≡ live)
    (st : a.fields.status ≡ live) (f : a.fields.operational_message ≡ true) where
  replay_taken-Told :
      (s : Store) (owner : Option OwnerInfo)
      → is_terminal t.outcome ≡ true
      → Told (s.tasks j)
      → Told ((replay_taken a t owner s).1.tasks j)
  unfolding replay_taken retire_source place core
  replay_taken-Told s owner over h = ground arith

  replay_owned-Told :
      (s : Store) (owner : Option OwnerInfo)
      → is_terminal t.outcome ≡ true
      → Told (s.tasks j)
      → Told ((replay_owned a t owner s).1.tasks j)
  unfolding replay_owned refuse_replay take_source core
  replay_owned-Told s owner over h = grind (arith, replay_taken-Told)

  replay_known-Told :
      (s : Store)
      → is_terminal t.outcome ≡ true
      → Told (s.tasks j)
      → Told ((replay_known a t s).1.tasks j)
  unfolding replay_known
  replay_known-Told s over h =
      grind (arith, replay_owned-Told s (find_owner a.logical_key s) over h)

module _ (a : BeginArgs) (s : Store) (j : String) (t : Task) (known : s.tasks a.task_id ≡ some t)
    (unsettled : is_terminal t.outcome ≡ false) (h : Told (s.tasks j)) where
  start-Told : Told ((start a t s).1.tasks j)
  unfolding start start_claimed core take_claimed
  start-Told = ground arith

  defer-Told : Told ((defer a t s).1.tasks j)
  unfolding defer core take_claimed
  defer-Told = ground arith

  ended-Told :
      Told ((skip_late a t s).1.tasks j)
      × Told ((cancel_superseded a t s).1.tasks j)
      × Told ((fail_budget a t s).1.tasks j)
  unfolding skip_late cancel_superseded fail_budget end_in_history end_in_dlq core take_claimed
  ended-Told = (ground arith, ground arith, ground arith)

module _ (a : BeginArgs) (s : Store) (j : String) (h : Told (s.tasks j)) where
  begin_budgeted-Told :
      (key token : Option String) (t : Task)
      → s.tasks a.task_id ≡ some t
      → is_terminal t.outcome ≡ false
      → Told ((begin_budgeted a key token t s).1.tasks j)
  unfolding begin_budgeted take_lease
  begin_budgeted-Told none token t known unsettled = start-Told a s j t known unsettled h
  begin_budgeted-Told (some key) none t known unsettled = start-Told a s j t known unsettled h
  begin_budgeted-Told (some key) (some token) t known unsettled =
      elim (Option-cases (s.leases key)) [
        | inl n ↦
            rw (n, begin_budgeted) (start-Told a (take_lease a key token s) j t known unsettled h)
        | inr (l, k) ↦ rw (k, begin_budgeted) (defer-Told a s j t known unsettled h)
      ]

  begin_live-Told :
      (t : Task)
      → s.tasks a.task_id ≡ some t
      → is_terminal t.outcome ≡ false
      → Told ((begin_live a t s).1.tasks j)
  unfolding begin_live
  begin_live-Told t known unsettled = ground (
    arith,
    ended-Told a s j t known unsettled h,
    begin_budgeted-Told a.lease_key a.lease_token t known unsettled,
  )

  pub begin_attempt-Told : Told ((begin_attempt a s).1.tasks j)
  unfolding begin_attempt
  begin_attempt-Told = grind (arith, begin_live-Told)

pub replay_task-Told :
    (a : ReplayArgs) (s : Store) (j : String)
    → a.fields.outcome ≡ live
    → a.fields.status ≡ live
    → a.fields.operational_message ≡ true
    → ((t : Task) → s.tasks a.old_task_id ≡ some t → is_terminal t.outcome ≡ true)
    → Told (s.tasks j)
    → Told ((replay_task a s).1.tasks j)
unfolding replay_task
replay_task-Told a s j o st f over h = elim (Option-cases (s.tasks a.old_task_id)) [
  | inl n ↦ rw (n, replay_task) h
  | inr (t, k) ↦ rw (k, replay_task) (replay_known-Told a t j o st f s (over t k) h)
]
