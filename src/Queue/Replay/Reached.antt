-- ===== src/Queue/Replay/Reached.antt =====
-- `replay_task` of qtask_list/queue.py makes only calls that a history of the queue has.
use mathlib.Core.Option.{Option, none, some}
use stockev_qtask_list.Base.{
  ℕ, String, true, false, ◌≡◌, refl, List, [], ◌∷◌, ◌||◌, ◌&&◌, if◌then◌else◌, arith,
}
use stockev_qtask_list.Store.Messages.{Message, message_task_id}
use stockev_qtask_list.Store.Tasks.{Task, live}
use stockev_qtask_list.Store.{Store}
use stockev_qtask_list.State.Replies.{is_terminal}
use stockev_qtask_list.State.Replay.{source_outcome, is_replayable}
use stockev_qtask_list.State.Ownership.Replaying.{SourceIsKnown}
use stockev_qtask_list.State.Ownership.Cores.{is_dead}
use stockev_qtask_list.State.Told.{Told, says}
use stockev_qtask_list.Models.{Spec, Checked, ok, err}
use stockev_qtask_list.Queue.Config.{Config}
use stockev_qtask_list.Queue.Submit.{Draw, task_record}
use stockev_qtask_list.Queue.Replay.{ReplayCall, find_message, is_missing, replay_args, run_replay}
use stockev_qtask_list.System.{Reach, next, replays, empty_store}

-- A dead letter that is found names the task.
find_message-named :
    (id : String) (ms : List Message) (m : Message)
    → find_message id ms ≡ some m
    → message_task_id m ≡ some id
unfolding find_message
find_message-named id [] m e = ground arith
find_message-named id (x ∷ xs) m e = ground (arith, find_message-named id xs m)

dead_says : (t : Task) → says t.outcome t.location ≡ false → is_dead t.outcome t.location ≡ 0
dead_says t e = ground arith

ended_outcome :
    (t : Task)
    → (t.outcome ≡ live → t.status ≡ live)
    → is_replayable (source_outcome t) ≡ true
    → is_terminal t.outcome ≡ true
unfolding is_replayable
ended_outcome t told e = ground arith

-- What the method has read of a told record is what the script relies on.
pub source_is_known :
    (c : Config) (call : ReplayCall) (spec : Spec) (d : Draw) (t : Task) (letters : List Message)
    → Told (some t)
    → is_replayable (source_outcome t) ≡ true
    → ((call.require_dlq || t.operational_message)
        && is_missing (find_message call.task_id letters))
      ≡ false
    → SourceIsKnown
        (replay_args c call spec d (
          if call.require_dlq || t.operational_message
          then find_message call.task_id letters
          else none))
        t
unfolding replay_args
source_is_known c call spec d t letters told ended found = record {
  over = ended_outcome t told.1 ended;
  unnamed = λ e. dead_says t (ground arith);
  named_source = λ m e. find_message-named call.task_id letters m (ground arith);
}

abbrev pub Names : Config → ReplayCall → Option Message → Store → Type 0
Names c call source s =
    (spec : Spec) (d : Draw) (t : Task)
    → s.tasks call.task_id ≡ some t
    → SourceIsKnown (replay_args c call spec d source) t

pub run_replay-Reach :
    (c : Config) (now : ℕ) (call : ReplayCall) (d : Draw) (source : Option Message) (s : Store)
    → Names c call source s
    → (k : Checked Spec) → Reach c (empty_store now) s
    → Reach c (empty_store now) (run_replay c call d source k s).1
unfolding run_replay replay_args task_record
run_replay-Reach c now call d source s named (err e) r = r
run_replay-Reach c now call d source s named (ok spec) r = next r (
    replays s (replay_args c call spec d source) refl refl refl refl refl refl
      (λ t k. named spec d t k))
