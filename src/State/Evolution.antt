-- ===== src/State/Evolution.antt =====
-- What the scripts of qtask_list/state.py do to a task's record: an outcome is written once, the
-- caller's intent and budget never change, and an attempt is counted only within the budget.
use mathlib.Core.Option.{Option, none, some}
use stockev_qtask_list.Base.{
  ℕ, zero, suc, ◌≤◌, String, Bool, true, false, ◌≡◌, refl, List, [], ◌∷◌, arith, Option-cases,
  Bool-cases, inl, inr, leb,
}
use stockev_qtask_list.Store.Messages.{Message}
use stockev_qtask_list.Store.Tasks.{Task}
use stockev_qtask_list.Store.{Store, take_claimed}
use stockev_qtask_list.State.Replies.{is_terminal}
use stockev_qtask_list.State.Settle.{
  SettleArgs, completed_record, complete_taken, complete_task, skip_retry, schedule_retry,
  retry_task, fail_taken, fail_task,
}
use stockev_qtask_list.State.Begin.{
  BeginArgs, end_in_history, end_in_dlq, skip_late, cancel_superseded, fail_budget, defer,
  start_claimed, start, take_lease, begin_budgeted, begin_live, begin_attempt,
}
use stockev_qtask_list.State.Claims.{return_taken, return_current, return_unstarted}
use stockev_qtask_list.State.Purge.{
  PurgeArgs, purged_record, purge_taken, record_or_blank, take_from, cancel_or_purge,
}
use stockev_qtask_list.State.Enqueue.{
  EnqueueArgs, OwnerInfo, find_owner, place, accept, admit, refuse_duplicate, enqueue,
}
use stockev_qtask_list.State.Replay.{
  ReplayArgs, take_source, retire_source, replay_taken, refuse_replay, replay_owned, replay_known,
  replay_task,
}
use stockev_qtask_list.State.Delay.{locate_ready, move_one, move_due}
use stockev_qtask_list.State.Ownership.Cores.{core}

-- From one record of a task to the next.
pub record Evolves (t t' : Task) : Type 0 where
  pub final : is_terminal t.outcome ≡ true → t'.outcome ≡ t.outcome
  pub intended : t'.intent ≡ t.intent
  pub budgeted : t'.max_attempts ≡ t.max_attempts
  pub within : t.attempt ≤ t.max_attempts → t'.attempt ≤ t.max_attempts

abbrev pub EvolvesTo : Task → Option Task → Type 0
EvolvesTo t none = ⊥
EvolvesTo t (some t') = Evolves t t'

-- A record that appears has its budget before it.
abbrev pub Changes : Option Task → Option Task → Type 0
Changes none none = Unit {0}
Changes none (some t') = t'.attempt ≤ t'.max_attempts
Changes (some t) r = EvolvesTo t r

pub Changes-refl : (r : Option Task) → Changes r r
Changes-refl none = tt
Changes-refl (some t) = record {
  final = λ h. refl;
  intended = refl;
  budgeted = refl;
  within = λ h. h;
}

Changes-trans : (a b c : Option Task) → Changes a b → Changes b c → Changes a c
Changes-trans none none c h k = k
Changes-trans none (some b) none h k = absurd k
Changes-trans none (some b) (some c) h k = ground arith
Changes-trans (some a) none c h k = absurd h
Changes-trans (some a) (some b) none h k = absurd k
Changes-trans (some a) (some b) (some c) h k = record {
  final = ground arith;
  intended = ground arith;
  budgeted = ground arith;
  within = ground arith;
}

pub complete_task-Changes :
    (a : SettleArgs) (full : Bool) (result : Option String) (s : Store) (j : String)
    → Changes (s.tasks j) ((complete_task a full result s).1.tasks j)
unfolding complete_task complete_taken completed_record core take_claimed
complete_task-Changes a full result s j = grind (arith, Changes-refl)

pub retry_task-Changes :
    (a : SettleArgs) (m : Message) (run_at : ℕ) (code reason : String) (s : Store) (j : String)
    → Changes (s.tasks j) ((retry_task a m run_at code reason s).1.tasks j)
unfolding retry_task skip_retry schedule_retry core take_claimed
retry_task-Changes a m run_at code reason s j = grind (arith, Changes-refl)

pub fail_task-Changes :
    (a : SettleArgs) (m : Message) (code reason : String) (s : Store) (j : String)
    → Changes (s.tasks j) ((fail_task a m code reason s).1.tasks j)
unfolding fail_task fail_taken core take_claimed
fail_task-Changes a m code reason s j = grind (arith, Changes-refl)

pub return_unstarted-Changes :
    (a : SettleArgs) (attempt : ℕ) (s : Store) (j : String)
    → Changes (s.tasks j) ((return_unstarted a attempt s).1.tasks j)
unfolding return_unstarted return_current return_taken core take_claimed
return_unstarted-Changes a attempt s j = grind (arith, Changes-refl)

module _ (a : BeginArgs) (s : Store) (j : String) (t : Task) (known : s.tasks a.task_id ≡ some t)
    (live : is_terminal t.outcome ≡ false) where
  start-Changes :
      leb t.max_attempts t.attempt ≡ false → Changes (s.tasks j) ((start a t s).1.tasks j)
  unfolding start start_claimed core take_claimed
  start-Changes room = grind (arith, Changes-refl)

  defer-Changes : Changes (s.tasks j) ((defer a t s).1.tasks j)
  unfolding defer core take_claimed
  defer-Changes = grind (arith, Changes-refl)

  ended-Changes :
      Changes (s.tasks j) ((skip_late a t s).1.tasks j)
      × Changes (s.tasks j) ((cancel_superseded a t s).1.tasks j)
      × Changes (s.tasks j) ((fail_budget a t s).1.tasks j)
  unfolding skip_late cancel_superseded fail_budget end_in_history end_in_dlq core take_claimed
  ended-Changes =
      (grind (arith, Changes-refl), grind (arith, Changes-refl), grind (arith, Changes-refl))

pub cancel_or_purge-Changes :
    (a : PurgeArgs) (s : Store) (j : String) → Changes (s.tasks j) ((cancel_or_purge a s).1.tasks j)
unfolding cancel_or_purge purge_taken purged_record record_or_blank core take_from take_claimed
cancel_or_purge-Changes a s j = grind (arith, Changes-refl)

pub enqueue-Changes :
    (a : EnqueueArgs) (s : Store) (j : String)
    → a.fields.attempt ≡ 0
    → Changes (s.tasks j) ((enqueue a s).1.tasks j)
unfolding enqueue admit accept refuse_duplicate place core
enqueue-Changes a s j new = grind (arith, Changes-refl)

module _ (a : ReplayArgs) (t : Task) (j : String) (new : a.fields.attempt ≡ 0) where
  replay_taken-Changes :
      (s : Store) (owner : Option OwnerInfo)
      → s.tasks a.old_task_id ≡ some t
      → s.tasks a.task_id ≡ none
      → Changes (s.tasks j) ((replay_taken a t owner s).1.tasks j)
  unfolding replay_taken retire_source place core
  replay_taken-Changes s owner known unknown = grind (arith, Changes-refl)

  replay_owned-Changes :
      (s : Store) (owner : Option OwnerInfo)
      → s.tasks a.old_task_id ≡ some t
      → s.tasks a.task_id ≡ none
      → Changes (s.tasks j) ((replay_owned a t owner s).1.tasks j)
  unfolding replay_owned refuse_replay take_source core
  replay_owned-Changes s owner known unknown = grind (arith, Changes-refl, replay_taken-Changes)

  replay_known-Changes :
      (s : Store)
      → s.tasks a.old_task_id ≡ some t
      → Changes (s.tasks j) ((replay_known a t s).1.tasks j)
  unfolding replay_known
  replay_known-Changes s known =
      grind (arith, Changes-refl, replay_owned-Changes s (find_owner a.logical_key s) known)

pub replay_task-Changes :
    (a : ReplayArgs) (s : Store) (j : String)
    → a.fields.attempt ≡ 0
    → Changes (s.tasks j) ((replay_task a s).1.tasks j)
unfolding replay_task
replay_task-Changes a s j new = grind (arith, Changes-refl, replay_known-Changes)

module _ (a : BeginArgs) (s : Store) (j : String) where
  begin_budgeted-Changes :
      (key token : Option String) (t : Task)
      → s.tasks a.task_id ≡ some t
      → is_terminal t.outcome ≡ false
      → leb t.max_attempts t.attempt ≡ false
      → Changes (s.tasks j) ((begin_budgeted a key token t s).1.tasks j)
  unfolding begin_budgeted take_lease
  begin_budgeted-Changes none token t known live room = start-Changes a s j t known live room
  begin_budgeted-Changes (some key) none t known live room = start-Changes a s j t known live room
  begin_budgeted-Changes (some key) (some token) t known live room =
      elim (Option-cases (s.leases key)) [
        | inl n ↦
            rw (n, begin_budgeted) (start-Changes a (take_lease a key token s) j t known live room)
        | inr (l, h) ↦ rw (h, begin_budgeted) (defer-Changes a s j t known live)
      ]

  begin_live-Changes :
      (t : Task)
      → s.tasks a.task_id ≡ some t
      → is_terminal t.outcome ≡ false
      → Changes (s.tasks j) ((begin_live a t s).1.tasks j)
  unfolding begin_live
  begin_live-Changes t known live = ground (
    arith,
    ended-Changes a s j t known live,
    begin_budgeted-Changes a.lease_key a.lease_token t known live,
  )

  pub begin_attempt-Changes : Changes (s.tasks j) ((begin_attempt a s).1.tasks j)
  unfolding begin_attempt
  begin_attempt-Changes = grind (arith, Changes-refl, begin_live-Changes)

-- The moves between the lists write the location only.
move_one-Changes :
    (m : Message) (rest : List (ℕ × Message)) (s : Store) (j : String)
    → Changes (s.tasks j) ((move_one m rest s).tasks j)
unfolding move_one locate_ready core
move_one-Changes m rest s j = grind (arith, Changes-refl)

pub move_due-Changes :
    (limit : ℕ) (zs : List (ℕ × Message)) (s : Store) (j : String)
    → Changes (s.tasks j) ((move_due limit zs s).1.tasks j)
unfolding move_due
move_due-Changes zero zs s j = Changes-refl (s.tasks j)
move_due-Changes (suc limit) [] s j = Changes-refl (s.tasks j)
move_due-Changes (suc limit) ((d, m) ∷ rest) s j = elim (Bool-cases (leb d s.now)) [
  | inr n ↦ rw n (Changes-refl (s.tasks j))
  | inl y ↦ rw y (
      Changes-trans (s.tasks j) ((move_one m rest s).tasks j) _ (move_one-Changes m rest s j)
        (move_due-Changes limit rest (move_one m rest s) j))
]
