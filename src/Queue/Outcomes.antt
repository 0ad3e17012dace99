-- ===== src/Queue/Outcomes.antt =====
-- What a worker's last call does with its message: qtask_list/queue.py, `ack` and `fail`, for a
-- message in the worker's list whose task has no outcome.
use mathlib.Core.Option.{Option, none, some}
use stockev_qtask_list.Base.{
  ℕ, ◌+◌, String, Bool, true, false, ◌≡◌, ◌||◌, refl, arith, List, ◌∷◌, leb,
}
use stockev_qtask_list.Store.Messages.{Message, v2, Envelope, retry}
use stockev_qtask_list.Store.Tasks.{
  Task, completed, failed, in_dlq, other_code, in_delay, in_history,
}
use stockev_qtask_list.Store.{
  Store, count, put_task, take_claimed, release_lease, finalize_owner, retire_payload,
  drop_deadline, add_deadline, lrem, zadd,
}
use stockev_qtask_list.State.Replies.{is_terminal}
use stockev_qtask_list.State.Settle.{
  complete_task, complete_taken, completed_record, retry_task, schedule_retry, misses, fail_task,
  fail_taken,
}
use stockev_qtask_list.Queue.Config.{Config}
use stockev_qtask_list.Queue.Identity.{migrate_identity, migrate_identity?}
use stockev_qtask_list.Queue.Settling.{
  settle_args, ack, backoff, dead_message, retry_message, Failure, fail_for_good, fail_and_retry,
  fail,
}

-- The identity's migration touches identities only.
pub migrate-Same :
    (key : Option String) (s : Store)
    → ((migrate_identity? key s).tasks ≡ s.tasks)
      × ((migrate_identity? key s).processing ≡ s.processing)
      × ((migrate_identity? key s).ready ≡ s.ready)
      × ((migrate_identity? key s).delay ≡ s.delay)
      × ((migrate_identity? key s).dlq ≡ s.dlq)
      × ((migrate_identity? key s).now ≡ s.now)
unfolding migrate_identity
migrate-Same none s = (refl, refl, refl, refl, refl, refl)
migrate-Same (some key) s =
    (ground arith, ground arith, ground arith, ground arith, ground arith, ground arith)

-- A settled message: the method answers true, the message has left the worker's list, the lists
-- are the given ones, and the record has the property.
pub record Settled (r : Bool × Store) (ps : List (String × Message)) (delay : List (ℕ × Message))
    (dlq : List Message) (ready : List Message) (id : String) (P : Task → Type 0) : Type 0 where
  pub answered : r.0 ≡ true
  pub taken : r.1.processing ≡ ps
  pub delayed : r.1.delay ≡ delay
  pub buried : r.1.dlq ≡ dlq
  pub waiting : r.1.ready ≡ ready
  pub task : Task
  pub recorded : r.1.tasks id ≡ some task
  pub judged : P task

module _ (c : Config) (w : String) (e : Envelope) (s : Store) (t : Task)
    (ps : List (String × Message)) (known : s.tasks e.task_id ≡ some t)
    (live : is_terminal t.outcome ≡ false) (held : lrem w (v2 e) s.processing ≡ some ps) where
  -- For a message in the worker's list whose task has no outcome: an acknowledgement answers true,
  -- takes the message out of the queue and completes its task.
  pub ack-Settled :
      (result : Option String)
      → Settled
          (ack c w e result s)
          ps
          s.delay
          s.dlq
          s.ready
          e.task_id
          λ u. (u.outcome ≡ completed) × (u.location ≡ in_history)
  unfolding ack complete_task complete_taken completed_record take_claimed count put_task
      release_lease finalize_owner retire_payload drop_deadline
  ack-Settled result = record {
    answered = ground (arith, migrate-Same e.logical_key s);
    taken = ground (arith, migrate-Same e.logical_key s);
    delayed = ground (arith, migrate-Same e.logical_key s);
    buried = ground (arith, migrate-Same e.logical_key s);
    waiting = ground (arith, migrate-Same e.logical_key s);
    task = completed_record (settle_args c w e) c.full_history result t s.now;
    recorded = ground (arith, migrate-Same e.logical_key s);
    judged = (refl, refl);
  }

  -- For a message in the worker's list, whose task has no outcome: a failure that is
  -- permanent, or of the last attempt in the budget, answers true and puts one more dead letter
  -- into the queue, with the reason in it; the task has failed.
  pub fail-Settled :
      (f : Failure)
      → (f.permanent || leb e.max_attempts e.attempt) ≡ true
      → Settled
          (fail c w e f s)
          ps
          s.delay
          (dead_message e f.code f.reason ∷ s.dlq)
          s.ready
          e.task_id
          λ u. (u.outcome ≡ failed) × (u.location ≡ in_dlq)
  unfolding fail fail_for_good fail_task fail_taken take_claimed count put_task release_lease
      finalize_owner drop_deadline
  fail-Settled f final = record {
    answered = ground (arith, migrate-Same e.logical_key s);
    taken = ground (arith, migrate-Same e.logical_key s);
    delayed = ground (arith, migrate-Same e.logical_key s);
    buried = ground (arith, migrate-Same e.logical_key s);
    waiting = ground (arith, migrate-Same e.logical_key s);
    task = buried_task f;
    recorded = ground (arith, migrate-Same e.logical_key s);
    judged = (refl, refl);
  }
    where
      buried_task : Failure → Task
      buried_task f = record t {
        outcome = failed;
        status = failed;
        reason_code = other_code f.code;
        last_error = some (f.code, f.reason);
        last_error_at = some s.now;
        finished_at = some s.now;
        updated_at = s.now;
        operational_message = true;
        location = in_dlq;
      }

  -- For a message in the worker's list, whose task has no outcome: any other failure whose
  -- next attempt would be before the task's deadline answers true and puts the message into the
  -- delay set, due after the backoff; the task's outcome stays.
  pub fail-Retried :
      (f : Failure)
      → (f.permanent || leb e.max_attempts e.attempt) ≡ false
      → misses t.start_deadline_at (s.now + backoff c e.attempt f.jitter f.retry_after) ≡ false
      → Settled
          (fail c w e f s)
          ps
          (zadd
            (s.now + backoff c e.attempt f.jitter f.retry_after)
            (retry_message e (s.now + backoff c e.attempt f.jitter f.retry_after) f.code f.reason)
            s.delay)
          s.dlq
          s.ready
          e.task_id
          λ u. (u.outcome ≡ t.outcome) × (u.location ≡ in_delay)
  unfolding fail fail_and_retry retry_task schedule_retry take_claimed count put_task release_lease
      add_deadline
  fail-Retried f again timely = record {
    answered = ground (arith, migrate-Same e.logical_key s);
    taken = ground (arith, migrate-Same e.logical_key s);
    delayed = ground (arith, migrate-Same e.logical_key s);
    buried = ground (arith, migrate-Same e.logical_key s);
    waiting = ground (arith, migrate-Same e.logical_key s);
    task = delayed_task (s.now + backoff c e.attempt f.jitter f.retry_after) f;
    recorded = ground (arith, migrate-Same e.logical_key s);
    judged = (refl, refl);
  }
    where
      delayed_task : ℕ → Failure → Task
      delayed_task run_at f = record t {
        last_error = some (f.code, f.reason);
        last_error_at = some s.now;
        available_at = run_at;
        delay_reason = retry;
        updated_at = s.now;
        operational_message = true;
        location = in_delay;
      }
