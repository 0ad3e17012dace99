-- ===== src/Examples/Histories.antt =====
-- Histories of a queue with one task.
use mathlib.Core.Option.{some}
use stockev_qtask_list.Base.{◌<◌, false, arith, ◌≤◌, ◌≡◌, refl, str_dec, pop_last, ℕ_discrete}
use stockev_qtask_list.Store.Messages.{v2, msg_dec}
use stockev_qtask_list.Store.Tasks.{other_code}
use stockev_qtask_list.State.Purge.{PurgeArgs, cancel_or_purge, from_ready, release}
use stockev_qtask_list.Models.{aware}
use stockev_qtask_list.Queue.Replay.{ReplayCall, ReplayDraw, unset, replay}
use stockev_qtask_list.Queue.Replay.Answered.{Replays}
use stockev_qtask_list.Queue.Replay.Started.{replay-Replays}
use stockev_qtask_list.State.Delay.{move_due_delay, move_due}
use stockev_qtask_list.State.Delay.Order.{AllFrom}
use stockev_qtask_list.System.Sorted.{no_due_left}
use stockev_qtask_list.Store.{
  take_claimed, lrem, zadd, insert_scored, without, Store, count, put_task, add_deadline,
}
use stockev_qtask_list.State.Ownership.Cores.{IsPlaced}
use stockev_qtask_list.State.Begin.{
  begin_attempt, begin_live, is_late, is_superseded, begin_budgeted, start, take_lease,
  start_claimed,
}
use stockev_qtask_list.State.Enqueue as Script
use stockev_qtask_list.State.Enqueue.{
  reject, payload_is_expired, admit, find_owner, owner_info, accept, take_ownership, owned,
  register, index_history, place, adopt_payload, adopted, is_uploaded,
}
use stockev_qtask_list.State.Supersede.{raise_supersede, raised}
use stockev_qtask_list.Queue.Claim.{pop_ready, begin_args}
use stockev_qtask_list.Queue.Submit.{build, run_script, enqueue_args, task_record}
use stockev_qtask_list.System.{
  passes, empty_store, Step, submits, claims, begins, purges, Reach, here, next,
}
use stockev_qtask_list.System.Exactly.{exactly_once}
use stockev_qtask_list.System.Records.{outcome_final, Stays}
use stockev_qtask_list.System.Attempts.{begun_since, given_since, starts_within_budget}
use stockev_qtask_list.Base.{◌+◌, if◌then◌else◌, [], ◌∷◌, true, none}
use stockev_qtask_list.Store.Counting.{count_list, count_claimed}
use stockev_qtask_list.State.Ownership.Cores.{core, operational, expected_live}
use stockev_qtask_list.Queue.Clear.{clear}
use stockev_qtask_list.Queue.Clear.Emptied.{named}
use stockev_qtask_list.Queue.Clear.Settled.{Cancels, cleared_live}
use stockev_qtask_list.Queue.Consistency.{Audit, current_key, check_consistency}
use stockev_qtask_list.Queue.Consistency.Seen.{Covers}
use stockev_qtask_list.Queue.Consistency.Sound.{Consistent, check_consistency-Consistent}
use stockev_qtask_list.System.Told.{operational_flag_exact}
use stockev_qtask_list.Examples.Cleared.{keeping}
use stockev_qtask_list.Examples.{
  config, spec, draw, tokens, text, queued, claimed, ended, ended_task, queued_task, task_or,
}

submitted : Step config (empty_store 5) queued
submitted = submits (empty_store 5) spec reject (draw "t1")

taken : Step config queued claimed
unfolding build run_script enqueue_args task_record Script.enqueue payload_is_expired admit
    find_owner owner_info accept take_ownership owned register index_history place adopt_payload
    adopted raise_supersede raised add_deadline put_task count str_dec is_uploaded pop_ready
    pop_last
taken = claims "w1" (v2 text) refl

begun : Store
begun = (begin_attempt (begin_args config "w1" text tokens) claimed).1

started : Step config claimed begun
unfolding begun
started = begins claimed "w1" text tokens

history : Reach config (empty_store 5) begun
history = next (next (next here submitted) taken) started

exactly_once_example : IsPlaced begun
exactly_once_example = exactly_once config 5 begun history

outcome_final_example :
    Stays 9 ended_task ((begin_attempt (begin_args config "w1" text tokens) ended).1.tasks "t1")
unfolding str_dec
outcome_final_example = outcome_final "t1" (begins ended "w1" text tokens) refl refl

known : claimed.tasks "t1" ≡ some queued_task
unfolding build run_script enqueue_args task_record Script.enqueue payload_is_expired admit
    find_owner owner_info accept take_ownership owned register index_history place adopt_payload
    adopted raise_supersede raised add_deadline put_task count str_dec is_uploaded
known = refl

begun_known : begun.tasks "t1" ≡ some (task_or queued_task (begun.tasks "t1"))
unfolding build run_script enqueue_args task_record Script.enqueue payload_is_expired admit
    find_owner owner_info accept take_ownership owned register index_history place adopt_payload
    adopted raise_supersede raised add_deadline put_task count str_dec is_uploaded begun begin_args
    begin_attempt begin_live is_late is_superseded begin_budgeted start take_claimed lrem take_lease
    msg_dec ℕ_discrete start_claimed
begun_known = refl

starts_within_budget_example :
    begun_since "t1" history
    ≤ (task_or queued_task (begun.tasks "t1")).max_attempts + given_since "t1" history
starts_within_budget_example =
    starts_within_budget config 5 begun "t1" (task_or queued_task (begun.tasks "t1")) history
      begun_known

-- A task that waits until 50, at the time 60.
abbrev scheduled : Store
scheduled =
    (run_script config (record spec { not_before_at = some 50 }) reject (draw "t1")
      (empty_store 5)).1

abbrev aged : Store
aged = record scheduled { now = 60; heartbeats = λ w. false }

waiting : Reach config (empty_store 5) aged
unfolding build run_script enqueue_args task_record Script.enqueue payload_is_expired admit
    find_owner owner_info accept take_ownership owned register index_history place adopt_payload
    adopted raise_supersede raised add_deadline put_task count str_dec is_uploaded
waiting =
    next
      (next here
        (submits (empty_store 5) (record spec { not_before_at = some 50 }) reject (draw "t1")))
      (passes scheduled 60 (λ w. false) (omega arith))

one_moves : (move_due_delay 100 aged).0 < 100
unfolding build run_script enqueue_args task_record Script.enqueue payload_is_expired admit
    find_owner owner_info accept take_ownership owned register index_history place adopt_payload
    adopted raise_supersede raised add_deadline put_task count str_dec is_uploaded zadd
    insert_scored without move_due_delay move_due
one_moves = omega arith

no_due_left_example : AllFrom 61 (move_due_delay 100 aged).1.delay
no_due_left_example = no_due_left config 5 aged 100 waiting one_moves

claimed_history : Reach config (empty_store 5) claimed
claimed_history = next (next here submitted) taken

operational_flag_exact_example :
    operational "t1" (core claimed) + count_list "t1" claimed.dlq
    ≡ (if queued_task.operational_message then 1 else 0)
operational_flag_exact_example =
    operational_flag_exact config 5 claimed "t1" queued_task claimed_history known

cleared_live_example :
    (count_claimed "t1" (clear config keeping true false [] claimed).1.processing
      ≡ expected_live ((clear config keeping true false [] claimed).1.tasks "t1"))
    × Cancels (claimed.tasks "t1") ((clear config keeping true false [] claimed).1.tasks "t1")
cleared_live_example = cleared_live config 5 claimed keeping true "t1" claimed_history

abbrev audit : Audit
audit = record {
  limit = 1000;
  repair_safe = true;
  workers = "w1" ∷ [];
  owner_keys = current_key "day-1" ∷ [];
  task_ids = "t1" ∷ "t9" ∷ [];
  retains = λ d. none;
  safety_margin = 0;
}

covered : Covers audit.workers claimed
unfolding named
covered w e = ground arith

check_consistency-Consistent_example : Consistent claimed (check_consistency audit claimed)
check_consistency-Consistent_example =
    check_consistency-Consistent config 5 claimed audit claimed_history covered (omega arith)

-- The task is cancelled, and then replayed with another action.
abbrev pub purging : PurgeArgs
purging = record {
  source = from_ready;
  raw_message = v2 text;
  task_id = "t1";
  policy = release;
  logical_key = some "day-1";
  lease_key = none;
  lease_token = none;
  code = other_code "admin";
  ttl = 1296000000000;
  force_active = false;
}

abbrev pub cancelled : Store
cancelled = (cancel_or_purge purging queued).1

abbrev pub again : ReplayCall
again = record {
  task_id = "t1";
  start_deadline_at = some (aware 90);
  payload = none;
  logical_key = unset;
  action = some "load";
  max_attempts = some 2;
  require_dlq = false;
}

abbrev pub second_draw : ReplayDraw
second_draw = record {
  new_task_id = "t2";
  created_at = 6;
  redis_now = 6;
  prepared = none;
  is_legacy = false;
  payload_action = none;
}

cancelled_history : Reach config (empty_store 5) cancelled
unfolding build
cancelled_history = next (next here submitted) (purges queued purging refl)

replay-Replays_example :
    Replays config 5 again second_draw cancelled
      (replay config again second_draw cancelled).0
      (replay config again second_draw cancelled).1
replay-Replays_example = replay-Replays config 5 again second_draw cancelled cancelled_history
