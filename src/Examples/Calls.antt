-- ===== src/Examples/Calls.antt =====
-- Calls on a queue whose one task a worker has claimed.
use mathlib.Core.Option.{none, some}
use stockev_qtask_list.Base.{
  ℕ, ◌+◌, ◌≡◌, Bool, true, false, refl, arith, List, [], ◌∷◌, str_dec, update, drop,
}
use stockev_qtask_list.Store.Messages.{Message, v2}
use stockev_qtask_list.Store.Tasks.{Task, Lease, completed, failed, in_dlq, in_delay, in_history}
use stockev_qtask_list.Store.{Store, count, put_task, add_deadline, take_claimed, lrem, zadd}
use stockev_qtask_list.State.Begin.{
  BeginArgs, begin_attempt, begin_live, is_late, is_superseded, begin_budgeted, take_lease, start,
  started_message,
}
use stockev_qtask_list.State.Settle.{misses}
use stockev_qtask_list.State.Replies.{Reply, started}
use stockev_qtask_list.State.Delay.{move_due_delay}
use stockev_qtask_list.State.Delay.Order.{move_due_delay-exact}
use stockev_qtask_list.State.Attempts.{IsStartable, begin_attempt-started}
use stockev_qtask_list.State.Leases.{Kept, IsHolder}
use stockev_qtask_list.State.Enqueue as Script
use stockev_qtask_list.State.Enqueue.{
  reject, allow_new, payload_is_expired, admit, find_owner, owner_info, accept, take_ownership,
  owned, register, index_history, place, adopt_payload, adopted, is_uploaded,
}
use stockev_qtask_list.State.Supersede.{raise_supersede, raised}
use stockev_qtask_list.Queue.Claim.{begin_args, Tokens}
use stockev_qtask_list.Queue.Submit.{build, run_script, enqueue_args, task_record}
use stockev_qtask_list.Queue.Settling.{ack, fail, Failure, dead_message, retry_message, backoff}
use stockev_qtask_list.Queue.Outcomes.{Settled, ack-Settled, fail-Settled, fail-Retried}
use stockev_qtask_list.Queue.Recover.{recover_processing}
use stockev_qtask_list.Queue.Recover.All.{Recovered, recover_processing-Recovered}
use stockev_qtask_list.System.{empty_store, begins}
use stockev_qtask_list.System.Leases.{lease_exclusive}
use stockev_qtask_list.Examples.{config, tokens, text, queued_task, claimed}

pub known : claimed.tasks "t1" ≡ some queued_task
unfolding build run_script enqueue_args task_record Script.enqueue payload_is_expired admit
    find_owner owner_info accept take_ownership owned register index_history place adopt_payload
    adopted raise_supersede raised add_deadline put_task count str_dec is_uploaded
known = refl

pub held : lrem "w1" (v2 text) claimed.processing ≡ some []
unfolding lrem
held = ground arith

ack-Settled_example :
    Settled
      (ack config "w1" text none claimed)
      []
      claimed.delay
      claimed.dlq
      []
      "t1"
      λ u. (u.outcome ≡ completed) × (u.location ≡ in_history)
unfolding build run_script enqueue_args task_record Script.enqueue payload_is_expired admit
    find_owner owner_info accept take_ownership owned register index_history place adopt_payload
    adopted raise_supersede raised add_deadline put_task count str_dec is_uploaded
ack-Settled_example = ack-Settled config "w1" text claimed queued_task [] known refl held none

abbrev failure : Bool → Failure
failure permanent = record {
  code = "timeout";
  reason = "slow";
  retry_after = none;
  permanent = permanent;
  jitter = 1000;
}

fail-Settled_example :
    Settled
      (fail config "w1" text (failure true) claimed)
      []
      claimed.delay
      (dead_message text "timeout" "slow" ∷ claimed.dlq)
      []
      "t1"
      λ u. (u.outcome ≡ failed) × (u.location ≡ in_dlq)
unfolding build run_script enqueue_args task_record Script.enqueue payload_is_expired admit
    find_owner owner_info accept take_ownership owned register index_history place adopt_payload
    adopted raise_supersede raised add_deadline put_task count str_dec is_uploaded
fail-Settled_example =
    fail-Settled config "w1" text claimed queued_task [] known refl held (failure true) refl

abbrev run_at : ℕ
run_at = claimed.now + backoff config 0 1000 none

fail-Retried_example :
    Settled
      (fail config "w1" text (failure false) claimed)
      []
      (zadd run_at (retry_message text run_at "timeout" "slow") claimed.delay)
      claimed.dlq
      []
      "t1"
      λ u. (u.outcome ≡ queued_task.outcome) × (u.location ≡ in_delay)
unfolding build run_script enqueue_args task_record Script.enqueue payload_is_expired admit
    find_owner owner_info accept take_ownership owned register index_history place adopt_payload
    adopted raise_supersede raised add_deadline put_task count str_dec is_uploaded misses
fail-Retried_example =
    fail-Retried config "w1" text claimed queued_task [] known refl held (failure false) refl refl

recover_processing-Recovered_example : Recovered "w1" claimed (recover_processing "w1" true claimed)
unfolding build run_script enqueue_args task_record Script.enqueue payload_is_expired admit
    find_owner owner_info accept take_ownership owned register index_history place adopt_payload
    adopted raise_supersede raised add_deadline put_task count str_dec is_uploaded
recover_processing-Recovered_example = recover_processing-Recovered "w1" true claimed refl

abbrev two_late : List (ℕ × Message)
two_late = (3, v2 text) ∷ (8, v2 (record text { task_id = "t2" })) ∷ []

abbrev delayed : Store
delayed = record (empty_store 5) { delay = two_late }

move_due_delay-exact_example :
    ((move_due_delay 100 delayed).0 ≡ 1)
    × ((move_due_delay 100 delayed).1.ready ≡ v2 text ∷ [])
    × ((move_due_delay 100 delayed).1.delay ≡ drop 1 two_late)
    × ((move_due_delay 100 delayed).1.processing ≡ [])
    × ((move_due_delay 100 delayed).1.dlq ≡ [])
move_due_delay-exact_example = move_due_delay-exact 100 delayed

abbrev lease : Lease
lease = record { token = "l1"; expire_at = 20 }

-- Another attempt holds the task's concurrency key.
abbrev leased : Store
leased = record claimed { leases = update (λ k. none) "site" (some lease) }

abbrev late_tokens : Tokens
late_tokens = record { claim_token = "c9"; lease_token = "l9" }

lease_exclusive_example :
    Kept lease
      (IsHolder (some "l9") lease)
      ((begin_attempt (begin_args config "w1" text late_tokens) leased).1.leases "site")
unfolding str_dec build
lease_exclusive_example = lease_exclusive (begins leased "w1" text late_tokens) "site" lease refl

start_taken :
    (a : BeginArgs) (t : Task) (s u : Store)
    → take_claimed a.worker a.raw_message s ≡ some u
    → (start a t s).0 ≡ started (started_message a (t.attempt + 1)) (t.attempt + 1)
unfolding start
start_taken a t s u e = rw (e, start) refl

abbrev with_lease : Store
with_lease = take_lease (begin_args config "w1" text tokens) "site" "l1" claimed

taken : take_claimed "w1" (v2 text) with_lease ≡ some (record with_lease { processing = [] })
unfolding take_claimed lrem take_lease
taken = ground arith

-- The reply of a started attempt.
abbrev startable : Reply
startable = (begin_attempt (begin_args config "w1" text tokens) claimed).0

begun_text : startable ≡ started (started_message (begin_args config "w1" text tokens) 1) 1
unfolding build run_script enqueue_args task_record Script.enqueue payload_is_expired admit
    find_owner owner_info accept take_ownership owned register index_history place adopt_payload
    adopted raise_supersede raised add_deadline put_task count str_dec is_uploaded begin_args
    begin_attempt begin_live is_late is_superseded begin_budgeted
begun_text =
    start_taken (begin_args config "w1" text tokens) queued_task with_lease
      (record with_lease { processing = [] }) taken

begin_attempt-started_example :
    (t : Task) × IsStartable (begin_args config "w1" text tokens) claimed t 1
begin_attempt-started_example =
    begin_attempt-started (begin_args config "w1" text tokens) claimed
      (started_message (begin_args config "w1" text tokens) 1) 1 begun_text
