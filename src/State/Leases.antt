-- ===== src/State/Leases.antt =====
-- What the scripts of qtask_list/state.py do with a concurrency lease that somebody holds.
use mathlib.Core.Option.{Option, none, some}
use stockev_qtask_list.Base.{ℕ, zero, suc, String, Bool, ◌≡◌, refl, arith, List, [], ◌∷◌, ◌⊎◌}
use stockev_qtask_list.Store.Messages.{Message}
use stockev_qtask_list.Store.Tasks.{Task, Lease}
use stockev_qtask_list.Store.{
  Store, count, put_task, take_claimed, release_lease, released, finalize_owner, retire_payload,
  leave_retry_wait, add_deadline, drop_deadline,
}
use stockev_qtask_list.State.Begin.{
  BeginArgs, skip_late, cancel_superseded, fail_budget, defer, start, start_claimed, take_lease,
  begin_budgeted, begin_live, begin_attempt, end_in_history, end_in_dlq,
}
use stockev_qtask_list.State.Settle.{
  SettleArgs, complete_taken, complete_task, skip_retry, schedule_retry, retry_task, fail_taken,
  fail_task,
}
use stockev_qtask_list.State.Delay.{locate_ready, move_one, move_due}
use stockev_qtask_list.State.Claims.{
  renew_lease, release_held, return_taken, return_current, return_unstarted,
}
use stockev_qtask_list.State.Purge.{PurgeArgs, take_from, purge_taken, purge_owner, cancel_or_purge}
use stockev_qtask_list.State.Enqueue.{
  EnqueueArgs, OwnerInfo, take_ownership, register, place, adopt_payload, accept, refuse_duplicate,
  admit, enqueue,
}
use stockev_qtask_list.State.Supersede.{raise_supersede}
use stockev_qtask_list.State.Replay.{
  ReplayArgs, refuse_replay, take_source, retire_source, replay_taken, replay_owned, replay_known,
  replay_task,
}

-- What becomes of a lease: it has its holder's token still, or it is free for a good reason.
abbrev pub Kept : Lease → Type 0 → Option Lease → Type 0
Kept l Why none = Why
Kept l Why (some l') = l'.token ≡ l.token

-- The caller's arguments name the holder's token.
abbrev pub IsHolder : Option String → Lease → Type 0
IsHolder token l = token ≡ some l.token

module _ (key token : Option String) (j : String) (l : Lease) (s : Store)
    (held : s.leases j ≡ some l) where
  pub released-Kept :
      (released key token s.leases j ≡ some l)
      ⊎ ((released key token s.leases j ≡ none) × (token ≡ some l.token))
  unfolding released
  released-Kept = ground arith

module _ (a : SettleArgs) (s : Store) (j : String) (l : Lease) (held : s.leases j ≡ some l) where
  pub complete_task-Kept :
      (full : Bool) (result : Option String)
      → Kept l (IsHolder a.lease_token l) ((complete_task a full result s).1.leases j)
  unfolding complete_task complete_taken take_claimed count put_task release_lease finalize_owner
      retire_payload drop_deadline
  complete_task-Kept full result = grind (arith, released-Kept a.lease_key a.lease_token j l s held)

  pub retry_task-Kept :
      (m : Message) (run_at : ℕ) (code reason : String)
      → Kept l (IsHolder a.lease_token l) ((retry_task a m run_at code reason s).1.leases j)
  unfolding retry_task skip_retry schedule_retry take_claimed count put_task release_lease
      finalize_owner retire_payload add_deadline drop_deadline
  retry_task-Kept m run_at code reason =
      grind (arith, released-Kept a.lease_key a.lease_token j l s held)

  pub fail_task-Kept :
      (m : Message) (code reason : String)
      → Kept l (IsHolder a.lease_token l) ((fail_task a m code reason s).1.leases j)
  unfolding fail_task fail_taken take_claimed count put_task release_lease finalize_owner
      drop_deadline
  fail_task-Kept m code reason = grind (arith, released-Kept a.lease_key a.lease_token j l s held)

  pub return_unstarted-Kept :
      (attempt : ℕ) → Kept l (IsHolder a.lease_token l) ((return_unstarted a attempt s).1.leases j)
  unfolding return_unstarted return_current return_taken take_claimed count put_task release_lease
      add_deadline
  return_unstarted-Kept attempt = grind (arith, released-Kept a.lease_key a.lease_token j l s held)

pub cancel_or_purge-Kept :
    (a : PurgeArgs) (s : Store) (j : String) (l : Lease)
    → s.leases j ≡ some l
    → Kept l (IsHolder a.lease_token l) ((cancel_or_purge a s).1.leases j)
unfolding cancel_or_purge purge_taken purge_owner take_from count put_task release_lease
    retire_payload leave_retry_wait drop_deadline take_claimed
cancel_or_purge-Kept a s j l held =
    grind (arith, released-Kept a.lease_key a.lease_token j l s held)

module _ (a : BeginArgs) (t : Task) (j : String) (l : Lease) where
  ended-Kept :
      (s : Store)
      → s.leases j ≡ some l
      → Kept l (IsHolder a.lease_token l) ((skip_late a t s).1.leases j)
        × Kept l (IsHolder a.lease_token l) ((cancel_superseded a t s).1.leases j)
        × Kept l (IsHolder a.lease_token l) ((fail_budget a t s).1.leases j)
        × Kept l (IsHolder a.lease_token l) ((defer a t s).1.leases j)
  unfolding skip_late cancel_superseded fail_budget end_in_history end_in_dlq take_claimed count
      put_task finalize_owner retire_payload drop_deadline defer release_lease
  ended-Kept s held = (
    grind (arith, released-Kept a.lease_key a.lease_token j l s held),
    grind (arith, released-Kept a.lease_key a.lease_token j l s held),
    grind (arith, released-Kept a.lease_key a.lease_token j l s held),
    grind (arith, released-Kept a.lease_key a.lease_token j l s held),
  )

  start-Kept :
      (s : Store)
      → s.leases j ≡ some l
      → Kept l (IsHolder a.lease_token l) ((start a t s).1.leases j)
  unfolding start start_claimed take_claimed count put_task drop_deadline release_lease
  start-Kept s held = grind (arith, released-Kept a.lease_key a.lease_token j l s held)

  begin_budgeted-Kept :
      (key token : Option String) (s : Store)
      → s.leases j ≡ some l
      → Kept l (IsHolder a.lease_token l) ((begin_budgeted a key token t s).1.leases j)
  unfolding begin_budgeted take_lease
  begin_budgeted-Kept none token s held = start-Kept s held
  begin_budgeted-Kept (some key) none s held = start-Kept s held
  begin_budgeted-Kept (some key) (some token) s held =
      grind (arith, start-Kept (take_lease a key token s), ended-Kept s held)

  begin_live-Kept :
      (s : Store)
      → s.leases j ≡ some l
      → Kept l (IsHolder a.lease_token l) ((begin_live a t s).1.leases j)
  unfolding begin_live
  begin_live-Kept s held =
      grind (arith, ended-Kept s held, begin_budgeted-Kept a.lease_key a.lease_token s held)

pub begin_attempt-Kept :
    (a : BeginArgs) (s : Store) (j : String) (l : Lease)
    → s.leases j ≡ some l
    → Kept l (IsHolder a.lease_token l) ((begin_attempt a s).1.leases j)
unfolding begin_attempt
begin_attempt-Kept a s j l held = grind (arith, begin_live-Kept)

pub renew_lease-Kept :
    (key token : String) (time : ℕ) (s : Store) (j : String) (l : Lease)
    → s.leases j ≡ some l
    → Kept l ⊥ ((renew_lease key token time s).1.leases j)
unfolding renew_lease
renew_lease-Kept key token time s j l held = ground arith

pub release_held-Kept :
    (key token : String) (s : Store) (j : String) (l : Lease)
    → s.leases j ≡ some l
    → Kept l (IsHolder (some token) l) ((release_held key token s).1.leases j)
unfolding release_held
release_held-Kept key token s j l held = ground arith

pub enqueue-Kept : (a : EnqueueArgs) (s : Store) → (enqueue a s).1.leases ≡ s.leases
unfolding enqueue admit accept refuse_duplicate place count put_task take_ownership register
    adopt_payload add_deadline raise_supersede
enqueue-Kept a s = ground arith

replay_taken-Kept :
    (a : ReplayArgs) (t : Task) (owner : Option OwnerInfo) (s : Store)
    → (replay_taken a t owner s).1.leases ≡ s.leases
unfolding replay_taken retire_source retire_payload place count put_task take_ownership register
    adopt_payload add_deadline raise_supersede
replay_taken-Kept a t owner s = ground arith

pub replay_task-Kept : (a : ReplayArgs) (s : Store) → (replay_task a s).1.leases ≡ s.leases
unfolding replay_task replay_known replay_owned refuse_replay take_source count
replay_task-Kept a s = grind (arith, replay_taken-Kept)

move_one-Kept :
    (m : Message) (rest : List (ℕ × Message)) (s : Store) → (move_one m rest s).leases ≡ s.leases
unfolding move_one locate_ready leave_retry_wait put_task
move_one-Kept m rest s = ground arith

pub move_due-Kept :
    (limit : ℕ) (zs : List (ℕ × Message)) (s : Store) → (move_due limit zs s).1.leases ≡ s.leases
unfolding move_due
move_due-Kept zero zs s = refl
move_due-Kept (suc limit) [] s = refl
move_due-Kept (suc limit) ((d, m) ∷ rest) s =
    ground (arith, move_one-Kept m rest s, move_due-Kept limit rest (move_one m rest s))
