-- ===== src/Examples/Refused.antt =====
-- Refused calls on a queue with one task, which no worker has claimed.
use stockev_qtask_list.Base.{◌≡◌, refl, str_dec}
use stockev_qtask_list.Store.{count, put_task, add_deadline, take_claimed, lrem}
use stockev_qtask_list.State.Begin.{
  begin_attempt, begin_live, is_late, is_superseded, begin_budgeted, take_lease, start,
}
use stockev_qtask_list.State.Settle.{SettleArgs}
use stockev_qtask_list.State.Enqueue as Script
use stockev_qtask_list.State.Enqueue.{
  reject, allow_new, payload_is_expired, admit, find_owner, owner_info, accept, take_ownership,
  owned, register, index_history, place, adopt_payload, adopted, is_uploaded, refuse_duplicate,
}
use stockev_qtask_list.State.Supersede.{raise_supersede, raised}
use stockev_qtask_list.State.Refusals.Every.{begins, run_call, run_call-refused}
use stockev_qtask_list.Queue.Claim.{begin_args}
use stockev_qtask_list.Queue.Submit.{build, run_script, enqueue_args, task_record}
use stockev_qtask_list.Queue.Settling.{settle_args}
use stockev_qtask_list.Examples.{config, tokens, text, queued}

abbrev by_worker : SettleArgs
by_worker = settle_args config "w1" text

run_call-refused_example :
    (run_call (begins (begin_args config "w1" text tokens)) queued).1 ≡ queued
unfolding build run_script enqueue_args task_record Script.enqueue payload_is_expired admit
    find_owner owner_info accept take_ownership owned register index_history place adopt_payload
    adopted raise_supersede raised add_deadline put_task count str_dec is_uploaded begin_args
    run_call begin_attempt begin_live is_late is_superseded begin_budgeted take_lease start
    take_claimed lrem
run_call-refused_example =
    run_call-refused (begins (begin_args config "w1" text tokens)) queued refl
