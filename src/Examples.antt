-- ===== src/Examples.antt =====
-- The theorems applied at concrete queues, workers and messages.
mod Histories
mod Refused
mod Contracts
pub mod Calls
mod Numerals
mod Objects
mod Sessions
mod Workers
mod Searches
mod Payloads
mod Clearings
pub mod Cleared
use mathlib.Core.Option.{Option, none, some}
use stockev_qtask_list.Base.{String, true, [], ◌∷◌, update}
use stockev_qtask_list.Store.Messages.{v2, Envelope, inline}
use stockev_qtask_list.Store.Tasks.{Task, completed}
use stockev_qtask_list.Store.{Store}
use stockev_qtask_list.State.Enqueue.{reject, EnqueueArgs, DuplicateAction}
use stockev_qtask_list.State.Replay.{ReplayArgs}
use stockev_qtask_list.Models.{Spec}
use stockev_qtask_list.Queue.Config.{Config}
use stockev_qtask_list.Queue.Submit.{Draw, build, task_record, enqueue_args, run_script}
use stockev_qtask_list.Queue.Claim.{Tokens}
use stockev_qtask_list.System.{empty_store}

abbrev pub config : Config
config = record {
  max_attempts = 3;
  backoff_base = 30000000;
  backoff_max = 3600000000;
  lease_time = 120000000;
  retry_time = 1000000;
  ttl = 1296000000000;
  full_history = true;
}

abbrev pub spec : Spec
spec = record {
  action = "fetch";
  logical_key = some "day-1";
  scheduled_for = none;
  not_before_at = none;
  start_deadline_at = none;
  dedup_until = none;
  trace_id = none;
  parent_task_id = none;
  concurrency_key = some "site";
  supersede_key = none;
  supersede_version = none;
}

abbrev pub draw : String → Draw
draw id = record { task_id = id; created_at = 5; redis_now = 5; payload = inline "{}" }

abbrev pub tokens : Tokens
tokens = record { claim_token = "c1"; lease_token = "l1" }

abbrev pub text : Envelope
text = build config spec (draw "t1") 5 3 none

abbrev pub fresh_task : Task
fresh_task = task_record spec (draw "t1") 5 3 none

abbrev pub ended_task : Task
ended_task = record fresh_task { outcome = completed; status = completed; attempt = 1 }

-- One task in the ready list.
abbrev pub queued : Store
queued = (run_script config spec reject (draw "t1") (empty_store 5)).1

abbrev pub task_or : Task → Option Task → Task
task_or t none = t
task_or t (some u) = u

abbrev pub queued_task : Task
queued_task = task_or fresh_task (queued.tasks "t1")

-- The same task after a claim.
abbrev pub claimed : Store
claimed = record queued { ready = []; processing = ("w1", v2 text) ∷ [] }

-- One task that has ended, with its record alone.
abbrev pub ended : Store
ended = record (empty_store 9) { tasks = update (λ k. none) "t1" (some ended_task) }

abbrev pub second_args : String → DuplicateAction → EnqueueArgs
second_args id action = enqueue_args config spec action (draw id)

abbrev pub replay_args : String → String → ReplayArgs
replay_args id old = record {
  enqueue = second_args id reject;
  old_task_id = old;
  source = none;
  ttl = 1296000000000;
}
