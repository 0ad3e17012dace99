-- ===== src/State/Attempted.antt =====
-- How the scripts of qtask_list/state.py count the attempts of a task in its record.
use mathlib.Core.Option.{Option, none, some}
use stockev_qtask_list.Base.{
  ◌+◌, refl, ite, str_dec, ℕ, zero, suc, ◌≤◌, String, Bool, ◌≡◌, refl, List, [], ◌∷◌, arith,
  Option-cases, Bool-cases, inl, inr, leb,
}
use stockev_qtask_list.Store.Messages.{Message}
use stockev_qtask_list.Store.Tasks.{Task}
use stockev_qtask_list.Store.{Store, take_claimed}
use stockev_qtask_list.State.Replies.{Reply, returned, started}
use stockev_qtask_list.State.Settle.{
  SettleArgs, completed_record, complete_taken, complete_task, skip_retry, schedule_retry,
  retry_task, fail_taken, fail_task,
}
use stockev_qtask_list.State.Begin.{
  BeginArgs, end_in_history, end_in_dlq, skip_late, cancel_superseded, fail_budget, defer,
  start_claimed, start, take_lease, begin_budgeted, begin_live, begin_attempt,
}
use stockev_qtask_list.State.Claims.{return_taken, return_current, return_unstarted}
use stockev_qtask_list.State.Purge.{
  PurgeArgs, purged_record, purge_taken, record_or_blank, take_from, cancel_or_purge,
}
use stockev_qtask_list.State.Enqueue.{
  EnqueueArgs, OwnerInfo, find_owner, place, accept, admit, refuse_duplicate, enqueue,
}
use stockev_qtask_list.State.Replay.{
  ReplayArgs, take_source, retire_source, replay_taken, refuse_replay, replay_owned, replay_known,
  replay_task,
}
use stockev_qtask_list.State.Delay.{locate_ready, move_one, move_due}
use stockev_qtask_list.State.Ownership.Cores.{core}

-- From one record to the next, with this many attempts started and given back: a record that
-- appears has none.
abbrev pub Counted : ℕ → ℕ → Option Task → Option Task → Type 0
Counted begun given none r = begun ≡ 0
Counted begun given (some t) none = ⊥
Counted begun given (some t) (some t') = t.attempt + begun ≤ t'.attempt + given

pub Counted-refl : (r : Option Task) → Counted 0 0 r r
Counted-refl none = refl
Counted-refl (some t) = omega arith

Counted-trans : (a b c : Option Task) → Counted 0 0 a b → Counted 0 0 b c → Counted 0 0 a c
Counted-trans none b c h k = refl
Counted-trans (some t) none c h k = absurd h
Counted-trans (some t) (some u) none h k = absurd k
Counted-trans (some t) (some u) (some v) h k = omega (arith, h, k)

pub complete_task-Counted :
    (a : SettleArgs) (full : Bool) (result : Option String) (s : Store) (j : String)
    → Counted 0 0 (s.tasks j) ((complete_task a full result s).1.tasks j)
unfolding complete_task complete_taken completed_record core take_claimed
complete_task-Counted a full result s j = grind (arith, Counted-refl)

pub retry_task-Counted :
    (a : SettleArgs) (m : Message) (run_at : ℕ) (code reason : String) (s : Store) (j : String)
    → Counted 0 0 (s.tasks j) ((retry_task a m run_at code reason s).1.tasks j)
unfolding retry_task skip_retry schedule_retry core take_claimed
retry_task-Counted a m run_at code reason s j = grind (arith, Counted-refl)

pub fail_task-Counted :
    (a : SettleArgs) (m : Message) (code reason : String) (s : Store) (j : String)
    → Counted 0 0 (s.tasks j) ((fail_task a m code reason s).1.tasks j)
unfolding fail_task fail_taken core take_claimed
fail_task-Counted a m code reason s j = grind (arith, Counted-refl)

-- An attempt that a worker gives back before its handler ran is taken off the record, once.
abbrev pub returns_in : String → String → Reply → ℕ
returns_in j id returned = ite (str_dec id j) 1 0
returns_in j id _ = 0

pub return_unstarted-Counted :
    (a : SettleArgs) (attempt : ℕ) (s : Store) (j : String)
    → Counted 0
        (returns_in j a.task_id (return_unstarted a attempt s).0)
        (s.tasks j)
        ((return_unstarted a attempt s).1.tasks j)
unfolding return_unstarted return_current return_taken core take_claimed
return_unstarted-Counted a attempt s j = grind (arith, Counted-refl)

abbrev pub starts_in : String → String → Reply → ℕ
starts_in j id (started m n) = ite (str_dec id j) 1 0
starts_in j id _ = 0

module _ (a : BeginArgs) (j : String) where
  -- What a reply and store make of a record.
  abbrev Started : Store → Reply × Store → Type 0
  Started s (r, u) = Counted (starts_in j a.task_id r) 0 (s.tasks j) (u.tasks j)

  start-Started : (t : Task) (s : Store) → s.tasks a.task_id ≡ some t → Started s (start a t s)
  unfolding start start_claimed core take_claimed
  start-Started t s known = grind (arith, Counted-refl)

  ended-Started :
      (t : Task) (s : Store)
      → s.tasks a.task_id ≡ some t
      → Started s (skip_late a t s)
        × Started s (cancel_superseded a t s)
        × Started s (fail_budget a t s)
        × Started s (defer a t s)
  unfolding skip_late cancel_superseded fail_budget end_in_history end_in_dlq defer core
      take_claimed
  ended-Started t s known = (
    grind (arith, Counted-refl),
    grind (arith, Counted-refl),
    grind (arith, Counted-refl),
    grind (arith, Counted-refl),
  )

  begin_budgeted-Started :
      (key token : Option String) (t : Task) (s : Store)
      → s.tasks a.task_id ≡ some t
      → Started s (begin_budgeted a key token t s)
  unfolding begin_budgeted take_lease
  begin_budgeted-Started none token t s known = start-Started t s known
  begin_budgeted-Started (some key) none t s known = start-Started t s known
  begin_budgeted-Started (some key) (some token) t s known = elim (Option-cases (s.leases key)) [
    | inl n ↦ rw (n, begin_budgeted) (start-Started t (take_lease a key token s) known)
    | inr (l, h) ↦ rw (h, begin_budgeted) (ended-Started t s known).3
  ]

  begin_live-Started :
      (t : Task) (s : Store) → s.tasks a.task_id ≡ some t → Started s (begin_live a t s)
  unfolding begin_live
  begin_live-Started t s known =
      ground
        (arith, ended-Started t s known, begin_budgeted-Started a.lease_key a.lease_token t s known)

  pub begin_attempt-Counted : (s : Store) → Started s (begin_attempt a s)
  unfolding begin_attempt
  begin_attempt-Counted s = grind (arith, Counted-refl, begin_live-Started)

pub cancel_or_purge-Counted :
    (a : PurgeArgs) (s : Store) (j : String)
    → Counted 0 0 (s.tasks j) ((cancel_or_purge a s).1.tasks j)
unfolding cancel_or_purge purge_taken purged_record record_or_blank core take_from take_claimed
cancel_or_purge-Counted a s j = grind (arith, Counted-refl)

pub enqueue-Counted :
    (a : EnqueueArgs) (s : Store) (j : String)
    → a.fields.attempt ≡ 0
    → Counted 0 0 (s.tasks j) ((enqueue a s).1.tasks j)
unfolding enqueue admit accept refuse_duplicate place core
enqueue-Counted a s j new = grind (arith, Counted-refl)

module _ (a : ReplayArgs) (t : Task) (j : String) (new : a.fields.attempt ≡ 0) where
  replay_taken-Counted :
      (s : Store) (owner : Option OwnerInfo)
      → s.tasks a.old_task_id ≡ some t
      → s.tasks a.task_id ≡ none
      → Counted 0 0 (s.tasks j) ((replay_taken a t owner s).1.tasks j)
  unfolding replay_taken retire_source place core
  replay_taken-Counted s owner known unknown = grind (arith, Counted-refl)

  replay_owned-Counted :
      (s : Store) (owner : Option OwnerInfo)
      → s.tasks a.old_task_id ≡ some t
      → s.tasks a.task_id ≡ none
      → Counted 0 0 (s.tasks j) ((replay_owned a t owner s).1.tasks j)
  unfolding replay_owned refuse_replay take_source core
  replay_owned-Counted s owner known unknown = grind (arith, Counted-refl, replay_taken-Counted)

  replay_known-Counted :
      (s : Store)
      → s.tasks a.old_task_id ≡ some t
      → Counted 0 0 (s.tasks j) ((replay_known a t s).1.tasks j)
  unfolding replay_known
  replay_known-Counted s known =
      grind (arith, Counted-refl, replay_owned-Counted s (find_owner a.logical_key s) known)

pub replay_task-Counted :
    (a : ReplayArgs) (s : Store) (j : String)
    → a.fields.attempt ≡ 0
    → Counted 0 0 (s.tasks j) ((replay_task a s).1.tasks j)
unfolding replay_task
replay_task-Counted a s j new = grind (arith, Counted-refl, replay_known-Counted)

-- The moves between the lists write the location only.
move_one-Counted :
    (m : Message) (rest : List (ℕ × Message)) (s : Store) (j : String)
    → Counted 0 0 (s.tasks j) ((move_one m rest s).tasks j)
unfolding move_one locate_ready core
move_one-Counted m rest s j = grind (arith, Counted-refl)

pub move_due-Counted :
    (limit : ℕ) (zs : List (ℕ × Message)) (s : Store) (j : String)
    → Counted 0 0 (s.tasks j) ((move_due limit zs s).1.tasks j)
unfolding move_due
move_due-Counted zero zs s j = Counted-refl (s.tasks j)
move_due-Counted (suc limit) [] s j = Counted-refl (s.tasks j)
move_due-Counted (suc limit) ((d, m) ∷ rest) s j = elim (Bool-cases (leb d s.now)) [
  | inr n ↦ rw n (Counted-refl (s.tasks j))
  | inl y ↦ rw y (
      Counted-trans (s.tasks j) ((move_one m rest s).tasks j) _ (move_one-Counted m rest s j)
        (move_due-Counted limit rest (move_one m rest s) j))
]
