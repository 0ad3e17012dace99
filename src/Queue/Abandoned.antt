-- ===== src/Queue/Abandoned.antt =====
-- qtask_list/queue.py, `recover_abandoned_claims`: what a worker's list holds beyond its running
-- claims goes back to the ready list.
pub mod Left
use mathlib.Core.Option.{Option, none, some}
use stockev_qtask_list.Base.{
  ℕ, ◌+◌, ◌-◌, String, Bool, true, false, ◌&&◌, ◌==◌, List, [], ◌∷◌, ltb, ite, str_dec,
  if◌then◌else◌,
}
use stockev_qtask_list.Store.Messages.{Message, v2, v1, junk, msg_dec}
use stockev_qtask_list.Store.Tasks.{
  Task, live, failed, completed, skipped, cancelled, in_ready, in_dlq, in_processing, location_dec,
}
use stockev_qtask_list.Store.{Store, put_task, add_deadline, take_claimed, release_lease}
use stockev_qtask_list.Models.{is_empty}
use stockev_qtask_list.Queue.Claim.{move_poison}

-- What the recovery reads of `codec.header`; `none` where that raises.
pub record Header : Type 0 where
  pub task_id : String
  pub attempt : ℕ
  pub concurrency_key : Option String
  pub lease_token : Option String
  pub claim_token : Option String

unfoldable pub header_of : Message → Option Header
header_of (junk text) = none
header_of (v1 e) = some (record {
  task_id = e.task_id;
  attempt = 0;
  concurrency_key = none;
  lease_token = none;
  claim_token = none;
})
header_of (v2 e) =
    if is_empty e.action
    then none
    else some (record {
      task_id = e.task_id;
      attempt = e.attempt;
      concurrency_key = e.concurrency_key;
      lease_token = e.lease_token;
      claim_token = e.claim_token;
    })

-- A claim token of the message that is the record's.
unfoldable pub same_claim : Option String → Option String → Bool
same_claim (some c) (some d) = ite (str_dec c d) true false
same_claim none c = false
same_claim (some c) none = false

-- The attempt is given back where it was started for this message and no handler used it.
unfoldable pub refunded : Bool → Header → Task → Task
refunded unspent h t =
    if unspent
      && ite (location_dec t.location in_processing) true false
      && same_claim h.claim_token t.claim_token
      && ltb 0 t.attempt
      && t.attempt == h.attempt
    then record t { attempt = t.attempt - 1 }
    else t

-- Where the message goes, and what becomes of its record.
unfoldable pub return_abandoned : Bool → Header → Message → Task → Store → Store
return_abandoned unspent h m t s = elim t.outcome [
  | live ↦ add_deadline t.start_deadline_at h.task_id (
      put_task h.task_id (record (refunded unspent h t) { location = in_ready })
        (record s { ready = m ∷ s.ready }))
  | failed ↦
      put_task h.task_id (record t { location = in_dlq; operational_message = true })
        (record s { dlq = m ∷ s.dlq })
  | completed ↦ s
  | skipped ↦ s
  | cancelled ↦ s
]

unfoldable pub replace_abandoned : Bool → Header → Message → Store → Store
replace_abandoned unspent h m s = elim (s.tasks h.task_id) [
  | none ↦ record s { ready = m ∷ s.ready }
  | some t ↦ return_abandoned unspent h m t s
]

-- The script.
unfoldable pub recover_claim : String → Bool → Header → Message → Store → ℕ × Store
recover_claim w unspent h m s = elim (take_claimed w m s) [
  | none ↦ (0, s)
  | some u ↦ (1, release_lease h.concurrency_key h.lease_token (replace_abandoned unspent h m u))
]

unfoldable pub is_protected : Message → List Message → Bool
is_protected m [] = false
is_protected m (p ∷ ps) = let rest = is_protected m ps in ite (msg_dec m p) true rest

unfoldable pub is_spent : String → List String → Bool
is_spent id [] = false
is_spent id (j ∷ js) = let rest = is_spent id js in ite (str_dec id j) true rest

-- One message of the loop.
unfoldable pub recover_message : String → List Message → List String → Message → Store → ℕ × Store
recover_message w held spent m s = if is_protected m held then (0, s) else elim (header_of m) [
  | none ↦ (0, move_poison w m "invalid_envelope" s)
  | some h ↦ recover_claim w (if is_spent h.task_id spent then false else true) h m s
]

-- LRANGE of a worker's list.
unfoldable pub claims_of : String → List (String × Message) → List Message
claims_of w [] = []
claims_of w ((v, m) ∷ ps) = let rest = claims_of w ps in ite (str_dec w v) (m ∷ rest) rest

unfoldable pub recover_each : String → List Message → List String → List Message → Store → ℕ × Store
recover_each w held spent [] s = (0, s)
recover_each w held spent (m ∷ ms) s =
    let one : ℕ × Store = recover_message w held spent m s in
    let rest : ℕ × Store = recover_each w held spent ms one.1 in (one.0 + rest.0, rest.1)

-- `recover_abandoned_claims`.
unfoldable pub recover_abandoned : String → List Message → List String → Store → ℕ × Store
recover_abandoned w held spent s = recover_each w held spent (claims_of w s.processing) s
