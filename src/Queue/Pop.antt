-- ===== src/Queue/Pop.antt =====
-- qtask_list/queue.py, `_ensure_task_record`, the rest of `_claim_popped` and `pop_claim_no_wait`,
-- with `TaskHistory.record` of qtask_list/history.py: a worker takes texts of both versions until one
-- starts. The loop of `pop_claim` is the same, around a blocking pop.
pub mod Waiting
pub mod Started
pub mod Drained
use mathlib.Core.Option
use mathlib.Core.Option.{Option, none, some}
use stockev_qtask_list.Base.{
  ◌==◌, ℕ, zero, suc, String, true, ◌∷◌, ite, str_dec, if◌then◌else◌, length,
}
use stockev_qtask_list.Store.Messages.{Message, v2, v1, junk, Envelope}
use stockev_qtask_list.Store.Tasks.{Task}
use stockev_qtask_list.Store.{Store, put_task, take_claimed}
use stockev_qtask_list.State.Purge.{record_or_blank}
use stockev_qtask_list.Models.{is_empty}
use stockev_qtask_list.Queue.Config.{Config}
use stockev_qtask_list.Queue.Settling.{fail, Failure}
use stockev_qtask_list.Queue.Claim.{
  Tokens, pop_ready, claim_envelope, move_poison, index_new, Payload,
}
use stockev_qtask_list.Queue.Legacy.{migrate_v1}

-- A falsy number in a text reads as none.
abbrev pub nonzero_or : ℕ → ℕ → ℕ
nonzero_or n now = if n == 0 then now else n

abbrev pub nonzero : Option ℕ → Option ℕ
nonzero none = none
nonzero (some n) = if n == 0 then none else some n

-- `_ensure_task_record`, for a header of version 2: a lost record is made again from the text.
-- `TaskHistory.record` writes these fields.
abbrev pub remade_record : Config → Envelope → ℕ → Task
remade_record c e now = record (record_or_blank none) {
  task_id = e.task_id;
  intent = record (record_or_blank none).intent {
    action = e.action;
    logical_key = e.logical_key;
    created_at = nonzero_or e.created_at now;
    start_deadline_at = nonzero e.start_deadline_at;
    payload_descriptor = e.payload;
  };
  attempt = e.attempt;
  max_attempts = e.max_attempts;
  operational_message = true;
  updated_at = now;
}

unfoldable pub ensure_record : Config → Envelope → Store → Store
ensure_record c e s = elim (s.tasks e.task_id) [
  | some t ↦ s
  | none ↦
      put_task e.task_id (remade_record c e s.now)
        (record s { history = index_new e.task_id (nonzero_or e.created_at s.now) s.history })
]

-- What one claim draws, and what reading its payload gives: the payload's own `action` too.
pub record PopRound : Type 0 where
  pub tokens : Tokens
  pub payload : Payload
  pub payload_action : Option String

abbrev pub no_action : Failure
no_action = record {
  code = "configuration";
  reason = "V1 payload action is required";
  retry_after = none;
  permanent = true;
  jitter = 1000;
}

abbrev pub renamed : String → Task → Task
renamed action t = record t { intent = record t.intent { action = action } }

-- The script that writes the action into the started text and its record.
unfoldable pub rename_started : String → Envelope → String → Store → Option Envelope × Store
rename_started w e action s = elim (take_claimed w (v2 e) s) [
  | none ↦ (none, s)
  | some taken ↦ (
    some (record e { action = action }),
    put_task e.task_id (renamed action (record_or_blank (s.tasks e.task_id)))
        (record taken { processing = (w, v2 (record e { action = action })) ∷ taken.processing }),
  )
]

unfoldable pub resolve_action :
    Config → String → Option String → Envelope → Store → Option Envelope × Store
unfolding rename_started
resolve_action c w none e s = (none, (fail c w e no_action s).1)
resolve_action c w (some action) e s =
    if is_empty action
    then (none, (fail c w e no_action s).1)
    else ite (str_dec action e.action) (some e, s) (rename_started w e action s)

abbrev pub resolve_legacy :
    Config → String → Option String → Option Envelope × Store → Option Envelope × Store
resolve_legacy c w action (none, u) = (none, u)
resolve_legacy c w action (some e, u) =
    if e.legacy_payload then resolve_action c w action e u else (some e, u)

-- From the header of version 2 on.
unfoldable pub claim_header :
    Config → String → PopRound → Envelope → Store → Option Envelope × Store
unfolding ensure_record resolve_action
claim_header c w r e s =
    resolve_legacy c w r.payload_action
      (claim_envelope c w e r.tokens r.payload (ensure_record c e s))

abbrev pub claim_migrated :
    Config → String → PopRound → Option Envelope × Store → Option Envelope × Store
claim_migrated c w r (none, u) = (none, u)
claim_migrated c w r (some e, u) = claim_header c w r e u

-- `_claim_popped`.
unfoldable pub claim_popped : Config → String → PopRound → Message → Store → Option Envelope × Store
unfolding claim_header migrate_v1
claim_popped c w r (junk text) s = (none, move_poison w (junk text) "invalid_envelope" s)
claim_popped c w r (v1 e) s = claim_migrated c w r (migrate_v1 c w e s)
claim_popped c w r (v2 e) s =
    if is_empty e.action
    then (none, move_poison w (v2 e) "invalid_envelope" s)
    else claim_header c w r e s

-- A claim ends the loop, a text that gave none does not.
abbrev pub or_again :
    Option Envelope × Store → (Store → Option Envelope × Store) → Option Envelope × Store
or_again (some e, u) next = (some e, u)
or_again (none, u) next = next u

-- The loop. No call of it adds to the ready list, so the list's length is fuel enough.
unfoldable pub pop_loop : ℕ → Config → String → (ℕ → PopRound) → Store → Option Envelope × Store
unfolding claim_popped
pop_loop zero c w rounds s = (none, s)
pop_loop (suc n) c w rounds s = elim (pop_ready w s) [
  | none ↦ (none, s)
  | some (m, u) ↦ or_again (claim_popped c w (rounds n) m u) λ v. pop_loop n c w rounds v
]

-- `pop_claim_no_wait`.
unfoldable pub pop_claim_no_wait :
    Config → String → (ℕ → PopRound) → Store → Option Envelope × Store
unfolding pop_loop
pop_claim_no_wait c w rounds s = pop_loop (length s.ready) c w rounds s
