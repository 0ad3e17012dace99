-- ===== src/System.antt =====
-- Workers, producers and administrators on one queue: each step is one Redis call of
-- qtask_list/queue.py, with the arguments that the calling method builds from the message, from
-- its own tokens and clock, and from what it has read before. Between two calls of one method
-- any steps of others may stand, and a method may stop after any of its calls.
pub mod Exactly
pub mod Records
pub mod Attempts
pub mod Leases
pub mod Sorted
pub mod Told
use mathlib.Core.Option.{Option, none, some}
use stockev_qtask_list.Base.{ℕ, ◌≤◌, String, Bool, ◌≡◌, [], if◌then◌else◌, leb, false, true}
use stockev_qtask_list.Store.Messages.{Message, Envelope, message_task_id}
use stockev_qtask_list.Store.Tasks.{Task, Owner, Lease, live}
use stockev_qtask_list.Store.{Store}
use stockev_qtask_list.State.Replies.{is_terminal}
use stockev_qtask_list.State.Begin.{begin_attempt}
use stockev_qtask_list.State.Settle.{complete_task, retry_task, fail_task}
use stockev_qtask_list.State.Delay.{move_due_delay}
use stockev_qtask_list.State.Claims.{renew_lease, release_held}
use stockev_qtask_list.State.Enqueue.{DuplicateAction}
use stockev_qtask_list.State.Purge.{PurgeArgs, cancel_or_purge}
use stockev_qtask_list.State.Replay.{ReplayArgs, replay_task}
use stockev_qtask_list.State.Ownership.Replaying.{SourceIsKnown}
use stockev_qtask_list.Models.{Spec}
use stockev_qtask_list.Queue.Config.{Config}
use stockev_qtask_list.Queue.Identity.{migrate_identity}
use stockev_qtask_list.Queue.Submit.{Draw, run_script}
use stockev_qtask_list.Queue.Claim.{Tokens, pop_ready, begin_args, return_claim}
use stockev_qtask_list.Queue.Settling.{settle_args, dead_message, retry_message}
use stockev_qtask_list.Queue.Recover.{recover_one}

-- A queue before its first call.
abbrev pub empty_store : ℕ → Store
empty_store now = record {
  now = now;
  ready = [];
  delay = [];
  processing = [];
  dlq = [];
  tasks = λ k. none;
  owners = λ k. none;
  dedup_owners = λ k. none;
  legacy_owners = λ k. none;
  supersedes = λ k. none;
  leases = λ k. none;
  heartbeats = λ k. false;
  deadlines = λ k. none;
  history = [];
  registered = none;
  observation_version = 0;
  metrics = λ m. 0;
  gc = λ k r. none;
  pending = λ k r. none;
  claims = λ k r. false;
}

-- Redis drops a key at the end of its time to live.
abbrev pub unexpired {ℓ} : {V : Type ℓ} → Option ℕ → ℕ → V → Option V
unexpired none now v = some v
unexpired (some x) now v = if leb x now then none else some v

abbrev pub live_task : ℕ → Option Task → Option Task
live_task now none = none
live_task now (some t) = unexpired t.expire_at now t

abbrev pub live_owner : ℕ → Option Owner → Option Owner
live_owner now none = none
live_owner now (some o) = unexpired o.expire_at now o

abbrev pub live_lease : ℕ → Option Lease → Option Lease
live_lease now none = none
live_lease now (some l) = unexpired (some l.expire_at) now l

unfoldable pub expire : Store → Store
expire s = record s {
  tasks = λ k. live_task s.now (s.tasks k);
  owners = λ k. live_owner s.now (s.owners k);
  leases = λ k. live_lease s.now (s.leases k);
}

-- The replay method has read a finished record, and names its dead letter if it has one.
pub data Step (c : Config) : Store → Store → Type 0 where
  submits :
      (s : Store) (spec : Spec) (action : DuplicateAction) (d : Draw)
      → Step c s (run_script c spec action d s).1
  migrates : (s : Store) (key : String) → Step c s (migrate_identity key s)
  claims : {s u : Store} (w : String) (m : Message) → pop_ready w s ≡ some (m, u) → Step c s u
  begins :
      (s : Store) (w : String) (e : Envelope) (k : Tokens)
      → Step c s (begin_attempt (begin_args c w e k) s).1
  completes :
      (s : Store) (w : String) (e : Envelope) (result : Option String)
      → Step c s (complete_task (settle_args c w e) c.full_history result s).1
  retries :
      (s : Store) (w : String) (e : Envelope) (run_at : ℕ) (code reason : String)
      → Step c s
          (retry_task
            (settle_args c w e)
            (retry_message e run_at code reason)
            run_at
            code
            reason
            s).1
  fails :
      (s : Store) (w : String) (e : Envelope) (code reason : String)
      → Step c s (fail_task (settle_args c w e) (dead_message e code reason) code reason s).1
  returns : (s : Store) (w : String) (e : Envelope) → Step c s (return_claim c w e s).1
  recovers :
      {s u : Store} (w : String) (guarded : Bool) → recover_one w guarded s ≡ some u → Step c s u
  moves : (s : Store) (limit : ℕ) → Step c s (move_due_delay limit s).1
  purges :
      (s : Store) (a : PurgeArgs)
      → message_task_id a.raw_message ≡ some a.task_id
      → Step c s (cancel_or_purge a s).1
  replays :
      (s : Store) (a : ReplayArgs)
      → message_task_id a.message ≡ some a.task_id
      → is_terminal a.fields.outcome ≡ false
      → a.fields.expire_at ≡ none
      → a.fields.attempt ≡ 0
      → a.fields.status ≡ live
      → a.fields.operational_message ≡ true
      → ((t : Task) → s.tasks a.old_task_id ≡ some t → SourceIsKnown a t)
      → Step c s (replay_task a s).1
  renews : (s : Store) (key token : String) (time : ℕ) → Step c s (renew_lease key token time s).1
  releases : (s : Store) (key token : String) → Step c s (release_held key token s).1
  passes :
      (s : Store) (now : ℕ) (alive : String → Bool)
      → s.now ≤ now
      → Step c s (record s { now = now; heartbeats = alive })
  expires : (s : Store) → Step c s (expire s)

pub data Reach (c : Config) (s : Store) : Store → Type 0 where
  here : Reach c s s
  next : {t u : Store} → Reach c s t → Step c t u → Reach c s u
