-- ===== src/Examples/Workers.antt =====
-- A worker with a claimed task, its threads, and the pages of a history index.
use mathlib.Core.Option.{none, some}
use stockev_qtask_list.Base.{
  ◌≤◌, String, ite, ◌+◌, ◌*◌, ◌||◌, true, false, ◌≡◌, ◌≢◌, refl, arith, List, [], ◌∷◌, str_dec,
  length,
}
use stockev_qtask_list.Store.Messages.{v2}
use stockev_qtask_list.Store.{Store, count, put_task, add_deadline, lrem}
use stockev_qtask_list.State.Enqueue as Script
use stockev_qtask_list.State.Enqueue.{
  payload_is_expired, admit, find_owner, owner_info, accept, take_ownership, owned, register,
  index_history, place, adopt_payload, adopted, is_uploaded,
}
use stockev_qtask_list.State.Supersede.{raise_supersede, raised}
use stockev_qtask_list.Queue.Submit.{build, run_script, enqueue_args, task_record}
use stockev_qtask_list.Queue.Stale.{recover_stale}
use stockev_qtask_list.Queue.Stale.Spared.{recover_stale-spares}
use stockev_qtask_list.Queue.Abandoned.{recover_abandoned, claims_of}
use stockev_qtask_list.Queue.Abandoned.Left.{remaining, recover_abandoned-remaining}
use stockev_qtask_list.Worker.Process.{
  Run, applied, raises, retryable, process_task, run_handler, settlement, verdict,
}
use stockev_qtask_list.Worker.Emptied.{IsClaimed, process_task-Emptied}
use stockev_qtask_list.Worker.Pool.{
  Pool, new_pool, stop, Steps, none_more, then_step, off, idle, starts, looks, acquires, submits,
  is_stopped, admits, admitted,
}
use stockev_qtask_list.Worker.Pool.Reached.{
  held_permits, starts_of, admitted_of, permits_are_kept, stopped_starts_none,
  heartbeat_outlasts_claims,
}
use stockev_qtask_list.Worker.Pool.Stopping.{stopped_can_end}
use stockev_qtask_list.History.Page.{Item, byte_before}
use stockev_qtask_list.History.Page.Order.{IsIndex}
use stockev_qtask_list.History.Page.Search.{eligible_items}
use stockev_qtask_list.History.Page.Paging.{read_pages, read_pages_complete}
use stockev_qtask_list.Examples.{config, text, queued_task, claimed}

abbrev run : Run
run = record {
  is_known = true;
  has_queue = false;
  ran = raises (retryable "timeout" "slow" none);
  losses = record { reach = applied; waited = 100000; stopped = false; jitter = 1000 } ∷ [];
  last_jitter = 1000;
  duration = some 5;
}

in_hand : IsClaimed "w1" text [] claimed
unfolding build run_script enqueue_args task_record Script.enqueue payload_is_expired admit
    find_owner owner_info accept take_ownership owned register index_history place adopt_payload
    adopted raise_supersede raised add_deadline put_task count str_dec is_uploaded lrem
in_hand = record { task = queued_task; known = refl; unsettled = refl; held = ground arith }

not_held : lrem "w1" (v2 text) [] ≡ none
unfolding lrem
not_held = refl

returns : (process_task config "w1" false text run claimed).0 ≡ true
unfolding process_task run_handler settlement verdict
returns = refl

process_task-Emptied_example : (process_task config "w1" false text run claimed).1.processing ≡ []
process_task-Emptied_example =
    process_task-Emptied config "w1" text [] run claimed not_held in_hand refl returns

recover_abandoned-remaining_example :
    (recover_abandoned "w1" (v2 text ∷ []) ("t1" ∷ []) claimed).1.processing
    ≡ remaining "w1" (v2 text ∷ []) claimed.processing
recover_abandoned-remaining_example =
    recover_abandoned-remaining "w1" (v2 text ∷ []) ("t1" ∷ []) claimed

-- Two handler threads and one submitted claim, which has passed the check for a stop.
abbrev busy : Pool
busy = record {
  running = true;
  draining = false;
  shutdown = false;
  poller = idle;
  permits = 3;
  in_flight = ("t1", admitted) ∷ [];
  abandoned = [];
  handled = [];
}

to_busy : Steps (new_pool 2) busy
unfolding new_pool
to_busy =
    then_step
      (then_step
        (then_step (then_step (then_step none_more (starts refl refl)) (looks refl refl))
          (acquires 3 refl refl))
        (submits "t1" refl))
      (admits "t1" [] [] refl refl)

to_stopped : Steps (new_pool 2) (stop busy)
to_stopped = then_step to_busy is_stopped

permits_are_kept_example : busy.permits + held_permits busy.poller + length busy.in_flight ≡ 2 * 2
permits_are_kept_example = permits_are_kept 2 busy to_busy

stopped_starts_none_example :
    starts_of "t1" (stop (stop busy)).handled + admitted_of "t1" (stop (stop busy)).in_flight
    ≤ starts_of "t1" busy.handled + admitted_of "t1" busy.in_flight
stopped_starts_none_example =
    stopped_starts_none busy (stop (stop busy)) "t1" (then_step none_more is_stopped)

some_claim : (stop busy).in_flight ≢ []
unfolding stop
some_claim = ground arith

heartbeat_outlasts_claims_example : ((stop busy).running || (stop busy).draining) ≡ true
heartbeat_outlasts_claims_example = heartbeat_outlasts_claims 2 (stop busy) to_stopped some_claim

polling : busy.poller ≢ off
polling = ground arith

stopped_can_end_example :
    (q : Pool) × Steps (stop busy) q
    × (q.poller ≡ off)
    × (q.in_flight ≡ [])
    × (q.permits ≡ 2 * 2)
    × ((id : String)
        → starts_of id q.handled ≤ starts_of id busy.handled + admitted_of id busy.in_flight)
stopped_can_end_example = stopped_can_end 2 busy to_busy polling

-- Three members, two of them with one score.
abbrev index : List Item
index = (9, 98 ∷ []) ∷ (5, 99 ∷ []) ∷ (5, 97 ∷ []) ∷ []

in_order : IsIndex index
unfolding byte_before
in_order = ((ground arith, (ground arith, tt)), ((ground arith, tt), (tt, tt)))

read_pages_complete_example :
    read_pages (1 ∷ 50 ∷ 50 ∷ []) 7 none index ≡ eligible_items 7 none index
read_pages_complete_example =
    read_pages_complete (1 ∷ 50 ∷ 50 ∷ []) 7 none index in_order
      (ground arith, (ground arith, (ground arith, tt))) (ground arith)

-- The worker that holds the claim has a heartbeat, "w2" has none.
abbrev living : Store
living = record claimed { heartbeats = λ w. ite (str_dec w "w1") true false }

beats_on : living.heartbeats "w1" ≡ true
unfolding str_dec
beats_on = refl

recover_stale-spares_example :
    claims_of "w1" (recover_stale ("w2" ∷ "w1" ∷ []) living).1.processing
    ≡ claims_of "w1" living.processing
recover_stale-spares_example = recover_stale-spares "w1" ("w2" ∷ "w1" ∷ []) living beats_on
