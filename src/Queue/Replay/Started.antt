-- ===== src/Queue/Replay/Started.antt =====
-- `replay_task` of qtask_list/queue.py: an accepted replay, and a refused one.
use mathlib.Core.Option.{Option, none, some, some-injective}
use stockev_qtask_list.Base.{
  ℕ, true, false, ◌≡◌, refl, sym, ap, ◌∙◌, subst, ◌==◌, ◌||◌, ◌&&◌, Option-cases, Bool-cases, inl,
  inr, if◌then◌else◌,
}
use stockev_qtask_list.Store.Messages.{Message}
use stockev_qtask_list.Store.Tasks.{Task}
use stockev_qtask_list.Store.{Store}
use stockev_qtask_list.State.Replay as Script
use stockev_qtask_list.State.Replay.{source_outcome, is_replayable}
use stockev_qtask_list.State.Ownership.Cores.{core}
use stockev_qtask_list.Models.{Spec, Checked, ok, err, is_empty, task_spec, datetime_to_epoch}
use stockev_qtask_list.Queue.Config.{Config}
use stockev_qtask_list.Store.Messages.{Descriptor}
use stockev_qtask_list.Queue.Replay.{
  ReplayCall, ReplayDraw, Replayed, ReplayError, payload_refused, bad_description, no_action,
  past_deadline, fails_with, find_message, is_missing, is_past, or_old, migrate_chosen,
  chosen_action, replay_request, replay_payload, replay_draw, replay_args, run_replay,
  replay_prepared, replay_checked, replay_described, replay_dated, replay_found, replay,
  replay_budget,
}
use stockev_qtask_list.Queue.Replay.Reached.{Names, run_replay-Reach, source_is_known}
use stockev_qtask_list.Queue.Replay.Renewed.{replay_task-ScriptResult}
use stockev_qtask_list.System.{Reach, empty_store}
use stockev_qtask_list.System.Told.{Reach-Told}
use stockev_qtask_list.State.Told.{Told}
use stockev_qtask_list.State.Ownership.Replaying.{SourceIsKnown}
use stockev_qtask_list.Queue.Replay.Answered.{
  last_request, Replays, migrate_chosen-core, migrate_chosen-Reach, answered-ReplayResult,
}

module _ (c : Config) (now : ℕ) (call : ReplayCall) (w : ReplayDraw) (s : Store) (t : Task)
    (start : Reach c (empty_store now) s) (known : s.tasks call.task_id ≡ some t)
    (ended : is_replayable (source_outcome t) ≡ true) (letter : Option Message)
    (named : Names c call letter s) where
  abbrev Fits : Replayed × Store → Type 0
  Fits (r, u) = Replays c now call w s r u

  stays : (e : ReplayError) → Fits (fails_with e, s)
  stays e = record { reached = start; result = refl }

  module _ (deadline : Option ℕ) (future : is_past deadline s.now ≡ false) (v : Store)
      (same : core v ≡ core s) (there : Reach c (empty_store now) v) where
    stays_migrated : (e : ReplayError) → Fits (fails_with e, v)
    stays_migrated e = record { reached = there; result = same }

    run_replay-Fits :
        (payload : Descriptor)
        → replay_payload call w t ≡ some payload
        → (k : Checked Spec) → task_spec (last_request call w t deadline) ≡ k
        → Fits (run_replay c call (replay_draw w payload) letter k v)
    unfolding run_replay core
    run_replay-Fits payload p (err e) k = stays_migrated (bad_description e)
    run_replay-Fits payload p (ok spec) k =
        let reached =
          run_replay-Reach c now call (replay_draw w payload) letter v
            (λ spec' d t' e. named spec' d t' (ap (λ x. x.tasks call.task_id) (sym same) ∙ e))
            (ok spec) there in
        let a = replay_args c call spec (replay_draw w payload) letter in
        record {
          reached = reached;
          result =
              answered-ReplayResult c now call w s v t known ended deadline future letter same
                payload p spec k (Script.replay_task a v).0 (Script.replay_task a v).1 reached
                (replay_task-ScriptResult a v);
        }

    replay_prepared-Fits : Fits (
        replay_prepared c call w letter
          (replay_request call t (chosen_action call.action t.action) deadline)
          t
          v)
    unfolding replay_prepared
    replay_prepared-Fits = elim (Option-cases (replay_payload call w t)) [
      | inl n ↦ rw (n, replay_prepared) (stays_migrated payload_refused)
      | inr (d, e) ↦
          rw (e, replay_prepared)
            (run_replay-Fits d e (task_spec (last_request call w t deadline)) refl)
    ]

    replay_checked-Fits :
        (k : Checked Spec)
        → Fits (
            replay_checked c call w letter
              (replay_request call t (chosen_action call.action t.action) deadline)
              t
              k
              v)
    unfolding replay_checked
    replay_checked-Fits (err e) = stays_migrated (bad_description e)
    replay_checked-Fits (ok spec) = replay_prepared-Fits

  replay_described-Fits :
      (deadline : Option ℕ)
      → is_past deadline s.now ≡ false
      → Fits (replay_described c call w letter t deadline s)
  unfolding replay_described
  replay_described-Fits deadline future =
      let r = replay_request call t (chosen_action call.action t.action) deadline in
      elim (Bool-cases (is_empty (chosen_action call.action t.action))) [
        | inl e ↦ rw e (stays no_action)
        | inr e ↦ rw e (
            replay_checked-Fits deadline future (migrate_chosen r.req_logical_key s)
              (migrate_chosen-core r.req_logical_key s)
              (migrate_chosen-Reach c now r.req_logical_key s start) (task_spec r))
      ]

  replay_dated-Fits : (k : Checked (Option ℕ)) → Fits (replay_dated c call w letter t k s)
  unfolding replay_dated
  replay_dated-Fits (err e) = stays (bad_description e)
  replay_dated-Fits (ok chosen) =
      elim (Bool-cases (is_past (or_old chosen t.start_deadline_at) s.now)) [
        | inl e ↦ rw e (stays past_deadline)
        | inr e ↦ rw e (replay_described-Fits (or_old chosen t.start_deadline_at) e)
      ]

replay_found-Replays :
    (c : Config) (now : ℕ) (call : ReplayCall) (w : ReplayDraw) (s : Store) (t : Task)
    → Reach c (empty_store now) s
    → s.tasks call.task_id ≡ some t
    → Replays c now call w s (replay_found c call w t s).0 (replay_found c call w t s).1
unfolding replay_found
replay_found-Replays c now call w s t start known =
    let required = call.require_dlq || t.operational_message in
    let letter = find_message call.task_id s.dlq in
    elim (Bool-cases (is_replayable (source_outcome t))) [
      | inr n ↦ rw n (record { reached = start; result = refl })
      | inl e ↦ rw e (elim (Bool-cases (required && is_missing letter)) [
        | inl m ↦ rw m (record { reached = start; result = refl })
        | inr f ↦ rw f (
            replay_dated-Fits c now call w s t start known e (if required then letter else none)
              (λ spec d t' k.
                subst
                  (λ x.
                    SourceIsKnown (replay_args c call spec d (if required then letter else none)) x)
                  (some-injective t t' (sym known ∙ k))
                  (source_is_known c call spec d t s.dlq
                    (subst Told known (Reach-Told c now s call.task_id start)) e f))
              (datetime_to_epoch call.start_deadline_at))
      ])
    ]

-- After a replay the queue is one of its histories again. Only a failed, skipped or cancelled task is
-- replayed, with a deadline that has not come and a description that passes the checks; the new task
-- has the described fields, no attempt yet and one message, its source names it and has no dead
-- letter, and no other record is changed. Any other answer leaves messages and records as they were.
pub replay-Replays :
    (c : Config) (now : ℕ) (call : ReplayCall) (w : ReplayDraw) (s : Store)
    → Reach c (empty_store now) s
    → Replays c now call w s (replay c call w s).0 (replay c call w s).1
unfolding replay replay_found
replay-Replays c now call w s start = elim (Bool-cases (replay_budget c call == 0)) [
  | inl z ↦ rw z (record { reached = start; result = refl })
  | inr z ↦ rw z (elim (Option-cases (s.tasks call.task_id)) [
    | inl n ↦ rw n (record { reached = start; result = refl })
    | inr (t, k) ↦ rw k (replay_found-Replays c now call w s t start k)
  ])
]
