-- ===== src/Worker/Process.antt =====
-- `_process_task`, `_settle_claim` and `_process_task_with_semaphore` of qtask_list/worker.py. What
-- a handler and the result queue do is external, and enters as what they return or raise.
use mathlib.Core.Option.{Option, none, some}
use stockev_qtask_list.Base.{ℕ, ◌+◌, String, Bool, true, false, List, [], ◌∷◌, if◌then◌else◌}
use stockev_qtask_list.Store.Messages.{Envelope}
use stockev_qtask_list.Store.Tasks.{Metric}
use stockev_qtask_list.Store.{Store, count}
use stockev_qtask_list.Queue.Config.{Config}
use stockev_qtask_list.Queue.Identity.{migrate_identity?}
use stockev_qtask_list.Queue.Settling.{ack, fail}
use stockev_qtask_list.Queue.Claim.{return_claim}

-- What a handler, or the result queue, raises. `interrupt` is no `Exception`.
pub data Raised : Type 0 where
  retryable : String → String → Option ℕ → Raised
  permanent : String → String → Raised
  unclassified : String → Raised
  interrupt : Raised

-- One item of what `result_queue.enqueue_many` answers.
pub data Emission : Type 0 where
  accepted duplicate_active duplicate_retained unconfirmed : Emission

pub data Emitted : Type 0 where
  answers : List Emission → Emitted
  stops : Raised → Emitted

-- What a handler does: a value's JSON text; a dict that is not empty, and what pushing it
-- raises; a `TaskResult` without emissions; one with emissions, and what enqueueing them gives.
pub data Ran : Type 0 where
  raises : Raised → Ran
  value : Option String → Ran
  dict : Option String → Option Raised → Ran
  task_result : Option String → Ran
  emits : Option String → Emitted → Ran

-- Whether no item is `unexpected`.
unfoldable pub all_confirmed : List Emission → Bool
all_confirmed [] = true
all_confirmed (accepted ∷ es) = all_confirmed es
all_confirmed (duplicate_active ∷ es) = all_confirmed es
all_confirmed (duplicate_retained ∷ es) = all_confirmed es
all_confirmed (unconfirmed ∷ es) = false

pub data Verdict : Type 0 where
  completes : Option String → Verdict
  breaks : Raised → Verdict

abbrev pub pushed : Option String → Option Raised → Verdict
pushed r none = completes r
pushed r (some x) = breaks x

abbrev pub confirmed : Option String → Emitted → Verdict
confirmed r (stops x) = breaks x
confirmed r (answers es) =
    if all_confirmed es
    then completes r
    else breaks (retryable "emission_failed" "unconfirmed emissions" none)

-- The body of the `try`; the flag tells whether a result queue is configured.
unfoldable pub verdict : Bool → Ran → Verdict
verdict has_queue (raises x) = breaks x
verdict has_queue (value r) = completes r
verdict has_queue (task_result r) = completes r
verdict true (dict r x) = pushed r x
verdict false (dict r x) = completes r
verdict true (emits r es) = confirmed r es
verdict false (emits r es) = breaks (permanent "result_queue_missing" "no result queue")

-- A try of a settlement that ended in a Redis error: how far it came in Redis, the wait after it,
-- whether the worker was stopped by then, and the random factor that it drew.
pub data Reach : Type 0 where
  untouched migrated applied : Reach

pub record Lost : Type 0 where
  pub reach : Reach
  pub waited : ℕ
  pub stopped : Bool
  pub jitter : ℕ

abbrev pub Operation : Type 0
Operation = ℕ → Store → Bool × Store

unfoldable pub lost_effect : Option String → Operation → Lost → Store → Store
lost_effect key op l s = elim l.reach [
  | untouched ↦ record s { now = s.now + l.waited }
  | migrated ↦ record (migrate_identity? key s) { now = (migrate_identity? key s).now + l.waited }
  | applied ↦ record (op l.jitter s).1 { now = (op l.jitter s).1.now + l.waited }
]

-- `_settle_claim`.
unfoldable pub settle_claim : Option String → Operation → List Lost → ℕ → Store → Bool × Store
settle_claim key op [] jitter s = op jitter s
settle_claim key op (l ∷ ls) jitter s =
    let u = lost_effect key op l s in
    if l.stopped then (false, u) else settle_claim key op ls jitter u

abbrev pub fail_call : Config → String → Envelope → String → String → Option ℕ → Bool → Operation
fail_call c w e code reason after final jitter s =
    fail c w e
      (record {
        code = code;
        reason = reason;
        retry_after = after;
        permanent = final;
        jitter = jitter;
      })
      s

-- The settlement of a verdict; nothing handles an interrupt.
unfoldable pub settlement : Config → String → Envelope → Verdict → Option Operation
settlement c w e (completes r) = some (λ jitter s. ack c w e r s)
settlement c w e (breaks (retryable code reason after)) =
    some (fail_call c w e code reason after false)
settlement c w e (breaks (permanent code reason)) = some (fail_call c w e code reason none true)
settlement c w e (breaks (unclassified reason)) =
    some (fail_call c w e "handler_unclassified" reason none false)
settlement c w e (breaks interrupt) = none

-- What happens while one claim is processed: whether a handler is registered and a result queue
-- configured, what the handler does, the lost tries of the settlement, the last try's random
-- factor, and the handler's duration where the metrics can be written.
pub record Run : Type 0 where
  pub is_known : Bool
  pub has_queue : Bool
  pub ran : Ran
  pub losses : List Lost
  pub last_jitter : ℕ
  pub duration : Option ℕ

unfoldable pub count_duration : Option ℕ → Store → Store
count_duration none s = s
count_duration (some d) s =
    count Metric.handler_duration_count 1 (count Metric.handler_duration_total d s)

-- `finished` tells that the method returned, else it raised.
unfoldable pub run_handler : Config → String → Envelope → Run → Store → Bool × Store
unfolding count_duration
run_handler c w e x s = elim (settlement c w e (verdict x.has_queue x.ran)) [
  | none ↦ (false, count_duration x.duration s)
  | some op ↦
      (true, count_duration x.duration (settle_claim e.logical_key op x.losses x.last_jitter s).1)
]

-- A stopped worker gives the claim back; a Redis error leaves the method.
unfoldable pub give_back : Config → String → Envelope → List Lost → Store → Bool × Store
give_back c w e [] s = (true, (return_claim c w e s).1)
give_back c w e (l ∷ ls) s =
    (false, elim l.reach [ untouched ↦ s | migrated ↦ s | applied ↦ (return_claim c w e s).1 ])

-- `_process_task`; the flag is the shutdown event.
unfoldable pub process_task : Config → String → Bool → Envelope → Run → Store → Bool × Store
process_task c w is_stopped e x s =
    if is_stopped
    then give_back c w e x.losses s
    else if x.is_known
    then run_handler c w e x s
    else (
      true,
      (settle_claim e.logical_key (fail_call c w e "unknown_action" "unknown action" none true)
          x.losses x.last_jitter s).1,
    )
