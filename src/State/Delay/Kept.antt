-- ===== src/State/Delay/Kept.antt =====
-- The scripts of qtask_list/state.py keep the delay set in the order of its times.
use mathlib.Core.Option.{Option, none, some}
use stockev_qtask_list.Base.{
  ℕ, zero, suc, String, Bool, ◌≡◌, arith, List, [], ◌∷◌, Bool-cases, inl, inr, leb, Option-cases,
}
use stockev_qtask_list.Store.Messages.{Message}
use stockev_qtask_list.Store.Tasks.{Task}
use stockev_qtask_list.Store.{
  Store, count, put_task, take_claimed, release_lease, finalize_owner, retire_payload,
  leave_retry_wait, add_deadline, drop_deadline, zrem,
}
use stockev_qtask_list.State.Begin.{
  BeginArgs, skip_late, cancel_superseded, fail_budget, defer, start, start_claimed, take_lease,
  begin_budgeted, begin_live, begin_attempt, end_in_history, end_in_dlq,
}
use stockev_qtask_list.State.Settle.{
  SettleArgs, complete_taken, complete_task, skip_retry, schedule_retry, retry_task, fail_taken,
  fail_task,
}
use stockev_qtask_list.State.Delay.{move_one, move_due}
use stockev_qtask_list.State.Delay.Order.{AllFrom, IsSorted, zadd-IsSorted, move_one-lists}
use stockev_qtask_list.State.Claims.{return_taken, return_current, return_unstarted}
use stockev_qtask_list.State.Purge.{PurgeArgs, take_from, purge_taken, purge_owner, cancel_or_purge}
use stockev_qtask_list.State.Enqueue.{
  EnqueueArgs, OwnerInfo, take_ownership, register, place, adopt_payload, accept, refuse_duplicate,
  admit, enqueue,
}
use stockev_qtask_list.State.Supersede.{raise_supersede}
use stockev_qtask_list.State.Replay.{
  ReplayArgs, refuse_replay, take_source, retire_source, replay_taken, replay_owned, replay_known,
  replay_task,
}

module _ (m : Message) where
  zrem-AllFrom :
      (d : ℕ) (zs ys : List (ℕ × Message)) → zrem m zs ≡ some ys → AllFrom d zs → AllFrom d ys
  unfolding zrem
  zrem-AllFrom d [] ys e h = ground arith
  zrem-AllFrom d ((x, y) ∷ zs) ys e (h, hs) = elim (Option-cases (zrem m zs)) [
    | inl n ↦ ground arith
    | inr (qs, k) ↦ ground (arith, zrem-AllFrom d zs qs k hs)
  ]

  zrem-IsSorted : (zs ys : List (ℕ × Message)) → zrem m zs ≡ some ys → IsSorted zs → IsSorted ys
  unfolding zrem
  zrem-IsSorted [] ys e h = ground arith
  zrem-IsSorted ((x, y) ∷ zs) ys e (h, hs) = elim (Option-cases (zrem m zs)) [
    | inl n ↦ ground arith
    | inr (qs, k) ↦ ground (arith, zrem-IsSorted zs qs k hs, zrem-AllFrom x zs qs k h)
  ]

-- The settlements other than a retry leave the set alone.
pub settle-delay :
    (a : SettleArgs) (full : Bool) (result : Option String) (m : Message) (code reason : String)
    (attempt : ℕ) (s : Store)
    → ((complete_task a full result s).1.delay ≡ s.delay)
      × ((fail_task a m code reason s).1.delay ≡ s.delay)
      × ((return_unstarted a attempt s).1.delay ≡ s.delay)
unfolding complete_task complete_taken fail_task fail_taken return_unstarted return_current
    return_taken take_claimed count put_task release_lease finalize_owner retire_payload
    drop_deadline add_deadline
settle-delay a full result m code reason attempt s = (grind arith, grind arith, grind arith)

pub retry_task-IsSorted :
    (a : SettleArgs) (m : Message) (run_at : ℕ) (code reason : String) (s : Store)
    → IsSorted s.delay
    → IsSorted (retry_task a m run_at code reason s).1.delay
unfolding retry_task skip_retry schedule_retry take_claimed count put_task release_lease
    finalize_owner retire_payload add_deadline drop_deadline
retry_task-IsSorted a m run_at code reason s h = grind (arith, zadd-IsSorted)

module _ (a : BeginArgs) (t : Task) where
  ended-IsSorted :
      (s : Store)
      → IsSorted s.delay
      → IsSorted (skip_late a t s).1.delay
        × IsSorted (cancel_superseded a t s).1.delay
        × IsSorted (fail_budget a t s).1.delay
        × IsSorted (defer a t s).1.delay
        × IsSorted (start a t s).1.delay
  unfolding skip_late cancel_superseded fail_budget end_in_history end_in_dlq take_claimed count
      put_task finalize_owner retire_payload drop_deadline defer release_lease start start_claimed
  ended-IsSorted s h =
      (grind arith, grind arith, grind arith, grind (arith, zadd-IsSorted), grind arith)

  begin_budgeted-IsSorted :
      (key token : Option String) (s : Store)
      → IsSorted s.delay
      → IsSorted (begin_budgeted a key token t s).1.delay
  unfolding begin_budgeted take_lease
  begin_budgeted-IsSorted none token s h = (ended-IsSorted s h).4
  begin_budgeted-IsSorted (some key) none s h = (ended-IsSorted s h).4
  begin_budgeted-IsSorted (some key) (some token) s h =
      grind (arith, ended-IsSorted (take_lease a key token s) h, ended-IsSorted s h)

  begin_live-IsSorted : (s : Store) → IsSorted s.delay → IsSorted (begin_live a t s).1.delay
  unfolding begin_live
  begin_live-IsSorted s h =
      grind (arith, ended-IsSorted s h, begin_budgeted-IsSorted a.lease_key a.lease_token s h)

pub begin_attempt-IsSorted :
    (a : BeginArgs) (s : Store) → IsSorted s.delay → IsSorted (begin_attempt a s).1.delay
unfolding begin_attempt
begin_attempt-IsSorted a s h = grind (arith, begin_live-IsSorted)

pub cancel_or_purge-IsSorted :
    (a : PurgeArgs) (s : Store) → IsSorted s.delay → IsSorted (cancel_or_purge a s).1.delay
unfolding cancel_or_purge purge_taken purge_owner take_from count put_task release_lease
    retire_payload leave_retry_wait drop_deadline take_claimed
cancel_or_purge-IsSorted a s h = grind (arith, zrem-IsSorted)

pub enqueue-IsSorted :
    (a : EnqueueArgs) (s : Store) → IsSorted s.delay → IsSorted (enqueue a s).1.delay
unfolding enqueue admit accept refuse_duplicate place count put_task take_ownership register
    adopt_payload add_deadline raise_supersede
enqueue-IsSorted a s h = grind (arith, zadd-IsSorted)

replay_taken-IsSorted :
    (a : ReplayArgs) (t : Task) (owner : Option OwnerInfo) (s : Store)
    → IsSorted s.delay
    → IsSorted (replay_taken a t owner s).1.delay
unfolding replay_taken retire_source retire_payload place count put_task take_ownership register
    adopt_payload add_deadline raise_supersede
replay_taken-IsSorted a t owner s h = grind (arith, zadd-IsSorted)

pub replay_task-IsSorted :
    (a : ReplayArgs) (s : Store) → IsSorted s.delay → IsSorted (replay_task a s).1.delay
unfolding replay_task replay_known replay_owned refuse_replay take_source count
replay_task-IsSorted a s h = grind (arith, replay_taken-IsSorted)

pub move_due-IsSorted :
    (limit : ℕ) (zs : List (ℕ × Message)) (s : Store)
    → s.delay ≡ zs
    → IsSorted zs
    → IsSorted (move_due limit zs s).1.delay
unfolding move_due
move_due-IsSorted zero zs s d h = rw d h
move_due-IsSorted (suc limit) [] s d h = rw d tt
move_due-IsSorted (suc limit) ((x, m) ∷ zs) s d (h, hs) = elim (Bool-cases (leb x s.now)) [
  | inl y ↦ rw y (move_due-IsSorted limit zs (move_one m zs s) (move_one-lists m zs s).1 hs)
  | inr n ↦ rw (n, d) (h, hs)
]
