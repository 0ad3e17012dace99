-- ===== src/Queue/Pop/Waiting.antt =====
-- What the calls of `_claim_popped` of qtask_list/queue.py do to the ready list: nothing.
use mathlib.Core.Option.{Option, none, some}
use stockev_qtask_list.Base.{ℕ, String, ◌≡◌, refl, arith}
use stockev_qtask_list.Store.Messages.{Message, Envelope}
use stockev_qtask_list.Store.Tasks.{Task}
use stockev_qtask_list.Store.{
  Store, take_claimed, count, put_task, drop_deadline, add_deadline, release_lease, finalize_owner,
  retire_payload,
}
use stockev_qtask_list.State.Begin.{
  BeginArgs, end_in_history, end_in_dlq, skip_late, cancel_superseded, fail_budget, defer, start,
  take_lease, begin_budgeted, begin_live, begin_attempt, start_claimed,
}
use stockev_qtask_list.State.Settle.{
  SettleArgs, skip_retry, schedule_retry, retry_task, fail_taken, fail_task,
}
use stockev_qtask_list.Queue.Config.{Config}
use stockev_qtask_list.Queue.Identity.{migrate_identity, migrate_identity?}
use stockev_qtask_list.Queue.Settling.{fail, fail_for_good, fail_and_retry, Failure}
use stockev_qtask_list.Queue.Claim.{move_poison, poison_record, fail_record}

pub migrate_identity-ready :
    (key : Option String) (s : Store) → (migrate_identity? key s).ready ≡ s.ready
unfolding migrate_identity
migrate_identity-ready none s = refl
migrate_identity-ready (some k) s = ground arith

pub take_claimed-ready :
    (w : String) (m : Message) (s u : Store) → take_claimed w m s ≡ some u → u.ready ≡ s.ready
unfolding take_claimed
take_claimed-ready w m s u e = ground arith

poison_record-ready :
    (id : Option String) (code : String) (s : Store) → (poison_record id code s).ready ≡ s.ready
unfolding poison_record fail_record put_task
poison_record-ready none code s = refl
poison_record-ready (some id) code s = ground arith

pub move_poison-ready :
    (w : String) (m : Message) (code : String) (s : Store)
    → (move_poison w m code s).ready ≡ s.ready
unfolding move_poison count
move_poison-ready w m code s = grind (arith, poison_record-ready, take_claimed-ready)

start-ready : (a : BeginArgs) (t : Task) (s : Store) → (start a t s).1.ready ≡ s.ready
unfolding start start_claimed count put_task drop_deadline release_lease
start-ready a t s = grind (arith, take_claimed-ready)

begin_budgeted-ready :
    (a : BeginArgs) (key token : Option String) (t : Task) (s : Store)
    → (begin_budgeted a key token t s).1.ready ≡ s.ready
unfolding begin_budgeted take_lease defer count put_task
begin_budgeted-ready a none token t s = start-ready a t s
begin_budgeted-ready a (some k) none t s = start-ready a t s
begin_budgeted-ready a (some k) (some token) t s = grind (arith, take_claimed-ready, start-ready)

begin_live-ready : (a : BeginArgs) (t : Task) (s : Store) → (begin_live a t s).1.ready ≡ s.ready
unfolding begin_live skip_late cancel_superseded fail_budget end_in_history end_in_dlq count
    put_task drop_deadline release_lease finalize_owner retire_payload
begin_live-ready a t s = grind (arith, take_claimed-ready, begin_budgeted-ready)

pub begin_attempt-ready : (a : BeginArgs) (s : Store) → (begin_attempt a s).1.ready ≡ s.ready
unfolding begin_attempt
begin_attempt-ready a s = grind (arith, begin_live-ready)

fail_task-ready :
    (a : SettleArgs) (dead : Message) (code reason : String) (s : Store)
    → (fail_task a dead code reason s).1.ready ≡ s.ready
unfolding fail_task fail_taken count put_task drop_deadline release_lease finalize_owner
    retire_payload
fail_task-ready a dead code reason s = grind (arith, take_claimed-ready)

retry_task-ready :
    (a : SettleArgs) (next : Message) (run_at : ℕ) (code reason : String) (s : Store)
    → (retry_task a next run_at code reason s).1.ready ≡ s.ready
unfolding retry_task skip_retry schedule_retry count put_task drop_deadline release_lease
    finalize_owner retire_payload add_deadline
retry_task-ready a next run_at code reason s = grind (arith, take_claimed-ready)

pub fail-ready :
    (c : Config) (w : String) (e : Envelope) (f : Failure) (s : Store)
    → (fail c w e f s).1.ready ≡ s.ready
unfolding fail fail_for_good fail_and_retry
fail-ready c w e f s = grind (arith, fail_task-ready, retry_task-ready, migrate_identity-ready)
