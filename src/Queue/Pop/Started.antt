-- ===== src/Queue/Pop/Started.antt =====
-- One turn of the loop of `pop_claim_no_wait` of qtask_list/queue.py: `_claim_popped` leaves the
-- ready list alone, and a text that starts stands first in the worker's list.
use mathlib.Core.Option.{Option, none, some}
use stockev_qtask_list.Base.{
  ℕ, String, Bool, true, false, ◌≡◌, refl, ◌∙◌, arith, List, [], ◌∷◌, ite, str_dec, if◌then◌else◌,
  if_pos, if_neg, update_self, Option-cases, inl, inr,
}
use stockev_qtask_list.Store.Messages.{
  Message, v2, v1, junk, Envelope, LegacyEnvelope, LegacyPayload, malformed, parsed, Descriptor,
}
use stockev_qtask_list.Store.Tasks.{Task, in_processing}
use stockev_qtask_list.Store.{Store, take_claimed, count, put_task, drop_deadline}
use stockev_qtask_list.State.Replies.{Reply, started}
use stockev_qtask_list.State.Begin.{
  BeginArgs, skip_late, cancel_superseded, fail_budget, defer, start, take_lease, begin_budgeted,
  begin_live, begin_attempt, start_claimed, started_message,
}
use stockev_qtask_list.State.Purge.{record_or_blank}
use stockev_qtask_list.Models.{is_empty, Spec, Checked, ok, err}
use stockev_qtask_list.Queue.Config.{Config}
use stockev_qtask_list.Queue.Identity.{migrate_identity?}
use stockev_qtask_list.Queue.Recover.All.{held_by}
use stockev_qtask_list.Queue.Claim.{begin_args, Payload, started_claim, claim_envelope, Tokens}
use stockev_qtask_list.Queue.Pop.{
  PopRound, ensure_record, rename_started, resolve_action, resolve_legacy, claim_header,
  claim_migrated, claim_popped, no_action, renamed,
}
use stockev_qtask_list.Queue.Legacy.{
  swap_legacy, migrate_checked, migrate_parsed, migrate_v1, or_kept,
}
use stockev_qtask_list.Queue.Pop.Waiting.{
  migrate_identity-ready, take_claimed-ready, move_poison-ready, begin_attempt-ready, fail-ready,
}

-- The first text of a worker's list.
abbrev first_of : List Message → Option Message
first_of [] = none
first_of (m ∷ ms) = some m

abbrev pub first_held : String → Store → Option Message
first_held w s = first_of (held_by w s.processing)

-- A started attempt's record: its number, its place and the token that the claim drew.
abbrev pub IsStarted : String → ℕ → Option Task → Type 0
IsStarted token n none = ⊥
IsStarted token n (some t) =
    (t.attempt ≡ n) × (t.location ≡ in_processing) × (t.claim_token ≡ some token)

-- A started text is the first, and its task's record is started.
abbrev Stands : BeginArgs → Reply × Store → Type 0
Stands a (started m n, u) =
    (first_held a.worker u ≡ some m)
    × (m ≡ started_message a n)
    × IsStarted a.claim_token n (u.tasks a.task_id)
Stands a (_, u) = Unit {0}

start-Stands : (a : BeginArgs) (t : Task) (s : Store) → Stands a (start a t s)
unfolding start start_claimed count put_task drop_deadline
start-Stands a t s = ground arith

begin_budgeted-Stands :
    (a : BeginArgs) (key token : Option String) (t : Task) (s : Store)
    → Stands a (begin_budgeted a key token t s)
unfolding begin_budgeted defer
begin_budgeted-Stands a none token t s = start-Stands a t s
begin_budgeted-Stands a (some k) none t s = start-Stands a t s
begin_budgeted-Stands a (some k) (some token) t s =
    ground (arith, start-Stands a t (take_lease a k token s))

begin_attempt-Stands : (a : BeginArgs) (s : Store) → Stands a (begin_attempt a s)
unfolding begin_attempt begin_live skip_late cancel_superseded fail_budget
begin_attempt-Stands a s = grind (arith, begin_budgeted-Stands)

-- A claim's text is the first of the worker's, with the drawn token, and its attempt has started.
abbrev pub Standing : String → String → Option Envelope × Store → Type 0
Standing w token (none, u) = Unit {0}
Standing w token (some e, u) =
    (first_held w u ≡ some (v2 e))
    × (e.claim_token ≡ some token)
    × IsStarted token e.attempt (u.tasks e.task_id)

-- The ready list is as it was, and a claim stands.
pub record Turn (w token : String) (s : Store) (r : Option Envelope × Store) : Type 0 where
  pub waiting : r.1.ready ≡ s.ready
  pub standing : Standing w token r

started_claim-ready :
    (c : Config) (w : String) (p : Payload) (r : Reply) (s : Store)
    → (started_claim c w p r s).1.ready ≡ s.ready
started_claim-ready c w p r s = grind (arith, fail-ready)

started_claim-Standing :
    (c : Config) (w : String) (e : Envelope) (k : Tokens) (p : Payload) (r : Reply) (s : Store)
    → Stands (begin_args c w e k) (r, s)
    → Standing w k.claim_token (started_claim c w p r s)
unfolding begin_args
started_claim-Standing c w e k p r s h = ground arith

claim_envelope-Turn :
    (c : Config) (w : String) (e : Envelope) (k : Tokens) (p : Payload) (s : Store)
    → Turn w k.claim_token s (claim_envelope c w e k p s)
unfolding claim_envelope
claim_envelope-Turn c w e k p s =
    let b = begin_attempt (begin_args c w e k) (migrate_identity? e.logical_key s) in
    record {
      waiting =
          started_claim-ready c w p b.0 b.1
          ∙ begin_attempt-ready (begin_args c w e k) (migrate_identity? e.logical_key s)
          ∙ migrate_identity-ready e.logical_key s;
      standing =
          started_claim-Standing c w e k p b.0 b.1
            (begin_attempt-Stands (begin_args c w e k) (migrate_identity? e.logical_key s));
    }

fails-Turn : (w k : String) (s u : Store) → u.ready ≡ s.ready → Turn w k s (none, u)
fails-Turn w k s u e = record { waiting = e; standing = tt }

if-Turn :
    (w k : String) (s : Store) (b : Bool) (x y : Option Envelope × Store)
    → Turn w k s x
    → Turn w k s y
    → Turn w k s (if b then x else y)
if-Turn w k s true x y p q = p
if-Turn w k s false x y p q = q

ite-Turn :
    (w k : String) (s : Store) (a b : String) (x y : Option Envelope × Store)
    → Turn w k s x
    → Turn w k s y
    → Turn w k s (ite (str_dec a b) x y)
ite-Turn w k s a b x y p q = elim (str_dec a b) [
  | yes e ↦ rw (if_pos (str_dec a b) e) p
  | no n ↦ rw (if_neg (str_dec a b) n) q
]

renamed-IsStarted :
    (token : String) (n : ℕ) (action : String) (r : Option Task)
    → IsStarted token n r
    → IsStarted token n (some (renamed action (record_or_blank r)))
unfolding record_or_blank
renamed-IsStarted token n action none h = absurd h
renamed-IsStarted token n action (some t) h = h

rename_started-Turn :
    (w k : String) (e : Envelope) (action : String) (s : Store)
    → Standing w k (some e, s)
    → Turn w k s (rename_started w e action s)
unfolding rename_started put_task record_or_blank
rename_started-Turn w k e action s h = elim (Option-cases (take_claimed w (v2 e) s)) [
  | inl n ↦ rw (n, rename_started) (record { waiting = refl; standing = tt })
  | inr (u, t) ↦
      rw (t, rename_started)
        (record {
          waiting = take_claimed-ready w (v2 e) s u t;
          standing = (
            ground arith,
            h.1,
            rw
                (update_self u.tasks e.task_id
                  (some (renamed action (record_or_blank (s.tasks e.task_id)))))
                (renamed-IsStarted k e.attempt action (s.tasks e.task_id) h.2),
          );
        })
]

resolve_action-Turn :
    (c : Config) (w k : String) (action : Option String) (e : Envelope) (s : Store)
    → Standing w k (some e, s)
    → Turn w k s (resolve_action c w action e s)
unfolding resolve_action
resolve_action-Turn c w k none e s h = fails-Turn w k s _ (fail-ready c w e _ s)
resolve_action-Turn c w k (some action) e s h =
    if-Turn w k s (is_empty action) _ _ (fails-Turn w k s _ (fail-ready c w e no_action s)) (
      ite-Turn w k s action e.action _ _ (record { waiting = refl; standing = h })
        (rename_started-Turn w k e action s h))

resolve_legacy-Turn :
    (c : Config) (w k : String) (action : Option String) (s : Store) (r : Option Envelope × Store)
    → Turn w k s r
    → Turn w k s (resolve_legacy c w action r)
resolve_legacy-Turn c w k action s (none, u) t = t
resolve_legacy-Turn c w k action s (some e, u) t =
    if-Turn w k s e.legacy_payload _ _
      (let v = resolve_action-Turn c w k action e u t.standing in
        record { waiting = v.waiting ∙ t.waiting; standing = v.standing })
      t

ensure_record-ready :
    (c : Config) (e : Envelope) (s : Store) → (ensure_record c e s).ready ≡ s.ready
unfolding ensure_record put_task
ensure_record-ready c e s = ground arith

claim_header-Turn :
    (c : Config) (w : String) (r : PopRound) (e : Envelope) (s : Store)
    → Turn w r.tokens.claim_token s (claim_header c w r e s)
unfolding claim_header
claim_header-Turn c w r e s =
    let v = ensure_record c e s in
    let t = claim_envelope-Turn c w e r.tokens r.payload v in
    resolve_legacy-Turn c w r.tokens.claim_token r.payload_action s
      (claim_envelope c w e r.tokens r.payload v)
      (record { waiting = t.waiting ∙ ensure_record-ready c e s; standing = t.standing })

swap_legacy-ready :
    (c : Config) (w : String) (e : LegacyEnvelope) (spec : Spec) (d : Descriptor) (attempt : ℕ)
    (s : Store)
    → (or_kept s (swap_legacy c w e spec d attempt s)).1.ready ≡ s.ready
unfolding swap_legacy put_task
swap_legacy-ready c w e spec d attempt s = grind (arith, take_claimed-ready)

migrate_checked-ready :
    (c : Config) (w : String) (e : LegacyEnvelope) (spec : Checked Spec) (d : Descriptor)
    (attempt : ℕ) (s : Store)
    → (migrate_checked c w e spec d attempt s).1.ready ≡ s.ready
unfolding migrate_checked
migrate_checked-ready c w e (ok spec) d attempt s = swap_legacy-ready c w e spec d attempt s
migrate_checked-ready c w e (err x) d attempt s = move_poison-ready w (v1 e) "configuration" s

migrate_parsed-ready :
    (c : Config) (w : String) (e : LegacyEnvelope) (p : LegacyPayload) (s : Store)
    → (migrate_parsed c w e p s).1.ready ≡ s.ready
unfolding migrate_parsed
migrate_parsed-ready c w e (malformed text) s = move_poison-ready w (v1 e) "invalid_payload" s
migrate_parsed-ready c w e (parsed d retries action) s =
    migrate_checked-ready c w e _ d _ _ ∙ migrate_identity-ready _ s

claim_migrated-Turn :
    (c : Config) (w : String) (r : PopRound) (s : Store) (x : Option Envelope × Store)
    → x.1.ready ≡ s.ready
    → Turn w r.tokens.claim_token s (claim_migrated c w r x)
claim_migrated-Turn c w r s (none, u) e = fails-Turn w r.tokens.claim_token s u e
claim_migrated-Turn c w r s (some v, u) e =
    let t = claim_header-Turn c w r v u in record { waiting = t.waiting ∙ e; standing = t.standing }

pub claim_popped-Turn :
    (c : Config) (w : String) (r : PopRound) (m : Message) (s : Store)
    → Turn w r.tokens.claim_token s (claim_popped c w r m s)
unfolding claim_popped migrate_v1
claim_popped-Turn c w r (junk text) s =
    fails-Turn w r.tokens.claim_token s _ (move_poison-ready w (junk text) "invalid_envelope" s)
claim_popped-Turn c w r (v1 e) s =
    claim_migrated-Turn c w r s (migrate_v1 c w e s) (migrate_parsed-ready c w e e.payload s)
claim_popped-Turn c w r (v2 e) s =
    if-Turn w r.tokens.claim_token s (is_empty e.action) _ _
      (fails-Turn w r.tokens.claim_token s _ (move_poison-ready w (v2 e) "invalid_envelope" s))
      (claim_header-Turn c w r e s)
