-- ===== src/Queue/Replay/Answered.antt =====
-- What an accepted `replay_task` of qtask_list/queue.py leaves, from the answer of its script.
use mathlib.Core.Option.{Option, none, some}
use stockev_qtask_list.Base.{
  ℕ, String, true, false, ◌≡◌, ◌≢◌, refl, ap, ◌∙◌, [], ◌∷◌, ◌++◌, arith, Bool-cases, inl, inr,
}
use stockev_qtask_list.Store.Messages.{Message}
use stockev_qtask_list.Store.Tasks.{Task, live}
use stockev_qtask_list.Store.{Store}
use stockev_qtask_list.Store.Counting.{count_list}
use stockev_qtask_list.State.Replies.{Reply}
use stockev_qtask_list.State.Replay.{source_outcome, is_replayable}
use stockev_qtask_list.State.Ownership.Cores.{core, operational}
use stockev_qtask_list.Models.{Spec, Request, ok, is_empty, task_spec}
use stockev_qtask_list.Queue.Config.{Config}
use stockev_qtask_list.Queue.Identity.{migrate_identity}
use stockev_qtask_list.Store.Messages.{Descriptor}
use stockev_qtask_list.Queue.Submit.{task_record, intent_of, accepted, submission}
use stockev_qtask_list.Queue.Replay.{
  ReplayCall, ReplayDraw, Replayed, answered, answer_of, is_past, migrate_chosen, chosen_action,
  replay_request, replay_payload, resolved_action, replay_draw, replay_args, replay_budget,
}
use stockev_qtask_list.Queue.Replay.Renewed.{Renewal, ScriptResult}
use stockev_qtask_list.System.{Reach, next, migrates, empty_store}
use stockev_qtask_list.System.Exactly.{exactly_once}

-- The description that is checked for the new task.
abbrev pub last_request : ReplayCall → ReplayDraw → Task → Option ℕ → Request
last_request call w t deadline =
    let r = replay_request call t (chosen_action call.action t.action) deadline in
    record r { req_action = resolved_action call w t r.req_action }

-- The new task is as the checked description says and has one message, its source is history that
-- names it, without a dead letter, and the other records are as they were.
pub record Success (c : Config) (call : ReplayCall) (w : ReplayDraw) (s u : Store) : Type 0 where
  pub source : Task
  pub known : s.tasks call.task_id ≡ some source
  pub ended : is_replayable (source_outcome source) ≡ true
  pub unused : s.tasks w.new_task_id ≡ none
  pub deadline : Option ℕ
  pub future : is_past deadline s.now ≡ false
  pub payload : Descriptor
  pub prepared : replay_payload call w source ≡ some payload
  pub spec : Spec
  pub described : task_spec (last_request call w source deadline) ≡ ok spec
  pub task : Task
  pub recorded : u.tasks w.new_task_id ≡ some task
  pub wanted : task.intent ≡ intent_of spec (replay_draw w payload) (some call.task_id)
  pub starts : task.attempt ≡ 0
  pub limited : task.max_attempts ≡ replay_budget c call
  pub waits : task.outcome ≡ live
  pub one_message : operational w.new_task_id (core u) ≡ 1
  pub old : Task
  pub retired : u.tasks call.task_id ≡ some old
  pub kept : old.outcome ≡ source.outcome
  pub succeeded : old.replayed_by ≡ source.replayed_by ++ w.new_task_id ∷ []
  pub no_letter : count_list call.task_id u.dlq ≡ 0
  pub others : (j : String) → j ≢ w.new_task_id → j ≢ call.task_id → u.tasks j ≡ s.tasks j

abbrev pub ReplayResult : Config → ReplayCall → ReplayDraw → Store → Replayed → Store → Type 0
ReplayResult c call w s (answered (accepted id)) u = (id ≡ w.new_task_id) × Success c call w s u
ReplayResult c call w s r u = core u ≡ core s

-- The state is one of the queue's histories again.
pub record Replays (c : Config) (now : ℕ) (call : ReplayCall) (w : ReplayDraw) (s : Store)
    (r : Replayed) (u : Store) : Type 0 where
  pub reached : Reach c (empty_store now) u
  pub result : ReplayResult c call w s r u

pub migrate_chosen-core : (key : Option String) (s : Store) → core (migrate_chosen key s) ≡ core s
unfolding migrate_identity core
migrate_chosen-core none s = refl
migrate_chosen-core (some key) s = ground arith

pub migrate_chosen-Reach :
    (c : Config) (now : ℕ) (key : Option String) (s : Store)
    → Reach c (empty_store now) s
    → Reach c (empty_store now) (migrate_chosen key s)
migrate_chosen-Reach c now none s r = r
migrate_chosen-Reach c now (some key) s r = elim (Bool-cases (is_empty key)) [
  | inl e ↦ rw e r
  | inr e ↦ rw e (next r (migrates s key))
]

module _ (c : Config) (now : ℕ) (call : ReplayCall) (w : ReplayDraw) (s v : Store) (t : Task)
    (known : s.tasks call.task_id ≡ some t) (ended : is_replayable (source_outcome t) ≡ true)
    (deadline : Option ℕ) (future : is_past deadline s.now ≡ false) (letter : Option Message)
    (same : core v ≡ core s) (payload : Descriptor)
    (prepared : replay_payload call w t ≡ some payload) (spec : Spec)
    (described : task_spec (last_request call w t deadline) ≡ ok spec) where
  -- What the script's facts give for the method.
  renewed-Success :
      (u : Store)
      → Reach c (empty_store now) u
      → Renewal (replay_args c call spec (replay_draw w payload) letter) v u
      → Success c call w s u
  unfolding replay_args task_record core
  renewed-Success u reached renewal =
      let tasks : v.tasks ≡ s.tasks = ap (λ x. x.tasks) same in
      let new = exactly_once c now u reached w.new_task_id in
      let source : renewal.source ≡ t = ground (arith, renewal.known) in
      let gone = exactly_once c now u reached call.task_id in
      record {
        source = t;
        known = known;
        ended = ended;
        unused = ground (arith, renewal.unused);
        deadline = deadline;
        future = future;
        payload = payload;
        prepared = prepared;
        spec = spec;
        described = described;
        task = renewal.task;
        recorded = renewal.recorded;
        wanted = renewal.wanted;
        starts = renewal.starts;
        limited = renewal.limited;
        waits = renewal.waits;
        one_message = ground (arith, new.lives, renewal.recorded, renewal.waits);
        old = renewal.old;
        retired = renewal.retired;
        kept = ground (arith, renewal.kept);
        succeeded = ground (arith, renewal.succeeded);
        no_letter = ground (arith, gone.dies, renewal.retired, renewal.shelved);
        others = λ j a b. ground (arith, renewal.others j a b);
      }

  pub answered-ReplayResult :
      (r : Reply) (u : Store)
      → Reach c (empty_store now) u
      → ScriptResult (replay_args c call spec (replay_draw w payload) letter) v r u
      → ReplayResult c call w s (answer_of (submission w.new_task_id r)) u
  answered-ReplayResult (Reply.enqueued override generation location) u reached h =
      (refl, renewed-Success u reached h)
  answered-ReplayResult r u reached h = h ∙ same
