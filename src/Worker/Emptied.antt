-- ===== src/Worker/Emptied.antt =====
-- qtask_list/worker.py: whatever a handler does, its claim is settled once Redis answers.
use mathlib.Core.Option.{Option, none, some}
use stockev_qtask_list.Base.{
  ℕ, String, Bool, true, false, not, ◌≡◌, ◌⊎◌, refl, arith, List, [], ◌∷◌, Bool-cases, inl, inr,
  ◌&&◌,
}
use stockev_qtask_list.Store.Messages.{Message, v2, Envelope}
use stockev_qtask_list.Store.Tasks.{Task}
use stockev_qtask_list.Store.{
  Store, count, put_task, take_claimed, release_lease, finalize_owner, retire_payload,
  drop_deadline, add_deadline, lrem,
}
use stockev_qtask_list.State.Replies.{is_terminal}
use stockev_qtask_list.State.Settle.{
  complete_task, complete_taken, retry_task, schedule_retry, skip_retry, fail_task, fail_taken,
}
use stockev_qtask_list.Queue.Config.{Config}
use stockev_qtask_list.Queue.Settling.{ack, fail, fail_for_good, fail_and_retry}
use stockev_qtask_list.Queue.Outcomes.{migrate-Same}
use stockev_qtask_list.Worker.Process.{
  retryable, permanent, unclassified, interrupt, Verdict, completes, breaks, verdict, Reach,
  untouched, migrated, applied, Lost, Operation, lost_effect, settle_claim, fail_call, settlement,
  Run, count_duration, run_handler, process_task,
}

-- No lost try was the last one because the worker was stopped.
abbrev pub all_waited : List Lost → Bool
all_waited [] = true
all_waited (l ∷ ls) = not l.stopped && all_waited ls

-- The claim is in the worker's list, which is `qs` without it, and its task has no outcome.
pub record IsClaimed (w : String) (e : Envelope) (qs : List (String × Message)) (s : Store)
    : Type 0 where
  pub task : Task
  pub known : s.tasks e.task_id ≡ some task
  pub unsettled : is_terminal task.outcome ≡ false
  pub held : lrem w (v2 e) s.processing ≡ some qs

module _ (c : Config) (w : String) (e : Envelope) (qs : List (String × Message))
    (once : lrem w (v2 e) qs ≡ none) where
  -- The operation takes a claim out of the list, and touches no list without it.
  record Takes (op : Operation) : Type 0 where
    takes : (j : ℕ) (s : Store) → IsClaimed w e qs s → (op j s).1.processing ≡ qs
    spares : (j : ℕ) (s : Store) → s.processing ≡ qs → (op j s).1.processing ≡ qs

  ack-Takes : (r : Option String) → Takes (λ j s. ack c w e r s)
  unfolding ack complete_task complete_taken take_claimed count put_task release_lease
      finalize_owner retire_payload drop_deadline
  ack-Takes r = record {
    takes = λ j s h. ground (arith, migrate-Same e.logical_key s, h.known, h.unsettled, h.held);
    spares = λ j s h. ground (arith, migrate-Same e.logical_key s, once);
  }

  fail-Takes :
      (code reason : String) (after : Option ℕ) (final : Bool)
      → Takes (fail_call c w e code reason after final)
  unfolding fail fail_for_good fail_and_retry fail_task fail_taken retry_task schedule_retry
      skip_retry take_claimed count put_task release_lease finalize_owner retire_payload
      drop_deadline add_deadline
  fail-Takes code reason after final = record {
    takes = λ j s h. ground (arith, migrate-Same e.logical_key s, h.known, h.unsettled, h.held);
    spares = λ j s h. ground (arith, migrate-Same e.logical_key s, once);
  }

  abbrev IsPending : Store → Type 0
  IsPending s = IsClaimed w e qs s ⊎ (s.processing ≡ qs)

  module _ (op : Operation) (h : Takes op) where
    op-IsPending : (j : ℕ) (s : Store) → IsPending s → (op j s).1.processing ≡ qs
    op-IsPending j s (inl claimed) = h.takes j s claimed
    op-IsPending j s (inr gone) = h.spares j s gone

    lost_at :
        (r : Reach) (l : Lost) (s : Store)
        → l.reach ≡ r
        → IsPending s
        → IsPending (lost_effect e.logical_key op l s)
    unfolding lost_effect
    lost_at untouched l s reached (inl p) = inl (record {
      task = p.task;
      known = ground (arith, p.known);
      unsettled = p.unsettled;
      held = ground (arith, p.held);
    })
    lost_at untouched l s reached (inr gone) = inr (ground arith)
    lost_at migrated l s reached (inl p) = inl (record {
      task = p.task;
      known = ground (arith, p.known, migrate-Same e.logical_key s);
      unsettled = p.unsettled;
      held = ground (arith, p.held, migrate-Same e.logical_key s);
    })
    lost_at migrated l s reached (inr gone) = inr (ground (arith, migrate-Same e.logical_key s))
    lost_at applied l s reached p = inr (ground (arith, op-IsPending l.jitter s p))

    lost-IsPending :
        (l : Lost) (s : Store) → IsPending s → IsPending (lost_effect e.logical_key op l s)
    lost-IsPending l s p = lost_at l.reach l s refl p

    settle_claim-takes :
        (ls : List Lost) (j : ℕ) (s : Store)
        → all_waited ls ≡ true
        → IsPending s
        → (settle_claim e.logical_key op ls j s).1.processing ≡ qs
    unfolding settle_claim
    settle_claim-takes [] j s patient p = op-IsPending j s p
    settle_claim-takes (l ∷ ls) j s patient p =
        ground
          (arith, settle_claim-takes ls j (lost_effect e.logical_key op l s), lost-IsPending l s p)

  count_duration-processing :
      (d : Option ℕ) (s : Store) → (count_duration d s).processing ≡ s.processing
  unfolding count_duration count
  count_duration-processing none s = refl
  count_duration-processing (some d) s = refl

  abbrev AllTake : Option Operation → Type 0
  AllTake none = Unit {0}
  AllTake (some op) = Takes op

  settlement-AllTake : (v : Verdict) → AllTake (settlement c w e v)
  unfolding settlement
  settlement-AllTake (completes r) = ack-Takes r
  settlement-AllTake (breaks (retryable code reason after)) = fail-Takes code reason after false
  settlement-AllTake (breaks (permanent code reason)) = fail-Takes code reason none true
  settlement-AllTake (breaks (unclassified reason)) =
      fail-Takes "handler_unclassified" reason none false
  settlement-AllTake (breaks interrupt) = tt

  run_handler-takes :
      (x : Run) (s : Store)
      → all_waited x.losses ≡ true
      → IsPending s
      → (run_handler c w e x s).0 ≡ true
      → (run_handler c w e x s).1.processing ≡ qs
  unfolding run_handler
  run_handler-takes x s patient p h =
      through (settlement c w e (verdict x.has_queue x.ran)) refl
        (settlement-AllTake (verdict x.has_queue x.ran))
    where
      through :
          (o : Option Operation)
          → settlement c w e (verdict x.has_queue x.ran) ≡ o
          → AllTake o
          → (run_handler c w e x s).1.processing ≡ qs
      through none f a = ground arith
      through (some op) f a = ground (
        arith,
        settle_claim-takes op a x.losses x.last_jitter s patient p,
        count_duration-processing x.duration
            (settle_claim e.logical_key op x.losses x.last_jitter s).1,
      )

-- A claim stands once in the worker's list, its task has no outcome, and the worker is not stopped.
-- Whatever its handler returns or raises, an interrupt apart, and also where there is no handler,
-- the end of the processing leaves the worker's list without the claim, however many tries to
-- settle it were lost, before or after they reached Redis.
pub process_task-Emptied :
    (c : Config) (w : String) (e : Envelope) (qs : List (String × Message)) (x : Run) (s : Store)
    → lrem w (v2 e) qs ≡ none
    → IsClaimed w e qs s
    → all_waited x.losses ≡ true
    → (process_task c w false e x s).0 ≡ true
    → (process_task c w false e x s).1.processing ≡ qs
unfolding process_task
process_task-Emptied c w e qs x s once claimed patient h = elim (Bool-cases x.is_known) [
  | inl known ↦
      ground (arith, run_handler-takes c w e qs once x s patient (inl claimed) (ground arith))
  | inr unknown ↦ ground (
    arith,
    settle_claim-takes c w e qs once (fail_call c w e "unknown_action" "unknown action" none true)
        (fail-Takes c w e qs once "unknown_action" "unknown action" none true) x.losses
        x.last_jitter s patient (inl claimed),
  )
]
