-- ===== src/Queue/Claim.antt =====
-- qtask_list/queue.py, `pop_claim_no_wait`, `_claim_popped`, `return_unstarted_claim` and
-- `_move_poison_to_dlq`: a worker takes the oldest ready message and starts an attempt.
use mathlib.Core.Option
use mathlib.Core.Option.{Option, none, some}
use stockev_qtask_list.Base.{
  ℕ, String, Bool, true, false, List, [], ◌∷◌, ite, str_dec, pop_last, if◌then◌else◌,
}
use stockev_qtask_list.Store.Messages.{Message, v2, Envelope, concurrency, message_task_id}
use stockev_qtask_list.Store.Tasks.{
  Task, Outcome, live, completed, failed, skipped, cancelled, in_dlq, other_code, Metric,
}
use stockev_qtask_list.Store.{Store, count, put_task, take_claimed}
use stockev_qtask_list.State.Replies.{Reply, started}
use stockev_qtask_list.State.Begin.{BeginArgs, begin_attempt}
use stockev_qtask_list.State.Claims.{return_unstarted}
use stockev_qtask_list.Queue.Config.{Config}
use stockev_qtask_list.Queue.Identity.{migrate_identity?}
use stockev_qtask_list.Queue.Submit.{supersede_pair}
use stockev_qtask_list.Queue.Settling.{settle_args, Failure, fail}

-- The tokens that one claim draws.
pub record Tokens : Type 0 where
  pub claim_token : String
  pub lease_token : String

-- RPOPLPUSH from the ready list to the worker's list.
abbrev pub claimed_by : String → Message × List Message → Store → Store
claimed_by w (m, rest) s = record s { ready = rest; processing = (w, m) ∷ s.processing }

unfoldable pub pop_ready : String → Store → Option (Message × Store)
pop_ready w s = Option.map (λ r. (r.0, claimed_by w r s)) (pop_last s.ready)

-- Only a message with a concurrency key gets a lease token.
abbrev pub token_for : Option String → String → Option String
token_for none token = none
token_for (some key) token = some token

unfoldable pub begin_args : Config → String → Envelope → Tokens → BeginArgs
begin_args c w e k = record {
  worker = w;
  raw_message = v2 e;
  task_id = e.task_id;
  logical_key = e.logical_key;
  supersede = supersede_pair e.supersede_key e.supersede_version;
  lease_key = e.concurrency_key;
  lease_token = token_for e.concurrency_key k.lease_token;
  lease_time = c.lease_time;
  retry_time = c.retry_time;
  ttl = c.ttl;
  started_tail = record e {
    claim_token = some k.claim_token;
    lease_token = token_for e.concurrency_key k.lease_token;
  };
  deferred_tail = record e { lease_token = none; delay_reason = concurrency };
  claim_token = k.claim_token;
}

-- The refusal of `TaskHistory.update`: another outcome stands already.
abbrev pub has_other_outcome : Outcome → Bool
has_other_outcome live = false
has_other_outcome failed = false
has_other_outcome completed = true
has_other_outcome skipped = true
has_other_outcome cancelled = true

-- ZADD NX of the history index.
unfoldable pub index_new : String → ℕ → List (String × ℕ) → List (String × ℕ)
index_new id at [] = (id, at) ∷ []
index_new id at ((j, d) ∷ rest) = ite (str_dec id j) ((j, d) ∷ rest) ((j, d) ∷ index_new id at rest)

-- `TaskHistory.update` with a failure, for a record that is there. The Python clock is Redis'.
unfoldable pub fail_record : String → String → Task → Store → Store
unfolding index_new
fail_record id code t s =
    if has_other_outcome t.outcome
    then s
    else put_task id
        (record t {
          outcome = failed;
          status = failed;
          reason_code = other_code code;
          operational_message = true;
          location = in_dlq;
          finished_at = some s.now;
          updated_at = s.now;
          expire_at = none;
        })
        (record s { history = index_new id t.created_at s.history })

unfoldable pub poison_record : Option String → String → Store → Store
poison_record none code s = s
poison_record (some id) code s = elim (s.tasks id) [ none ↦ s | some t ↦ fail_record id code t s ]

-- `_move_poison_to_dlq`.
unfoldable pub move_poison : String → Message → String → Store → Store
move_poison w m code s = elim (take_claimed w m s) [
  | none ↦ s
  | some taken ↦
      count (Metric.failure_code code) 1
        (poison_record (message_task_id m) code (record taken { dlq = m ∷ taken.dlq }))
]

-- What reading the payload gave: the payload's bytes are third-party and external code's, so the
-- result is given. A transient error is retried, any other is final.
pub data Payload : Type 0 where
  decoded : Payload
  unreadable : Failure → Payload

-- The started envelope, if the script started it and its payload can be read.
abbrev pub started_claim : Config → String → Payload → Reply → Store → Option Envelope × Store
started_claim c w decoded (started (v2 e) n) s = (some e, s)
started_claim c w (unreadable f) (started (v2 e) n) s = (none, (fail c w e f s).1)
started_claim c w p r s = (none, s)

unfoldable pub claim_envelope :
    Config → String → Envelope → Tokens → Payload → Store → Option Envelope × Store
claim_envelope c w e k p s =
    let (r, u) = begin_attempt (begin_args c w e k) (migrate_identity? e.logical_key s) in
    started_claim c w p r u

-- `return_unstarted_claim`, for the text of a claim.
unfoldable pub return_claim : Config → String → Envelope → Store → Reply × Store
return_claim c w e s = return_unstarted (settle_args c w e) e.attempt s
