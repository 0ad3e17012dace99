-- ===== src/Examples/Cleared.antt =====
-- Administration of a queue whose one task is ready, or claimed.
use mathlib.Core.Option.{none}
use stockev_qtask_list.Base.{ℕ, ◌≡◌, [], ◌∷◌, true, false, ◌&&◌, not}
use stockev_qtask_list.Base.{str_dec, refl}
use stockev_qtask_list.Store.{count, put_task, add_deadline}
use stockev_qtask_list.State.Enqueue as Script
use stockev_qtask_list.State.Enqueue.{
  payload_is_expired, admit, find_owner, owner_info, accept, take_ownership, owned, register,
  index_history, place, adopt_payload, adopted, is_uploaded,
}
use stockev_qtask_list.State.Supersede.{raise_supersede, raised}
use stockev_qtask_list.Queue.Submit.{build, run_script, enqueue_args, task_record}
use stockev_qtask_list.State.Purge.{keep}
use stockev_qtask_list.Queue.Claim.{decoded}
use stockev_qtask_list.Queue.Clear.{Clearing, clear, any_active}
use stockev_qtask_list.Queue.Clear.Emptied.{Emptied, clear-Emptied}
use stockev_qtask_list.Queue.Pop.{PopRound, pop_claim_no_wait}
use stockev_qtask_list.Queue.Pop.Drained.{Popped, pop_claim_no_wait-Popped}
use stockev_qtask_list.Admin.Deleting.{delete_task}
use stockev_qtask_list.Admin.Deleting.Erased.{Deleted, delete_task-Deleted}
use stockev_qtask_list.Examples.{config, tokens, queued, claimed}

abbrev pub keeping : Clearing
keeping = record { policy = keep; force_active = false }

idle : (true && not keeping.force_active && any_active ("w1" ∷ []) claimed) ≡ false
unfolding build run_script enqueue_args task_record Script.enqueue payload_is_expired admit
    find_owner owner_info accept take_ownership owned register index_history place adopt_payload
    adopted raise_supersede raised add_deadline put_task count str_dec is_uploaded any_active
idle = refl

clear-Emptied_example :
    Emptied true true ("w1" ∷ []) claimed (clear config keeping true true ("w1" ∷ []) claimed)
clear-Emptied_example = clear-Emptied config keeping true true ("w1" ∷ []) claimed idle

delete_task-Deleted_example :
    Deleted ("w1" ∷ []) "t1" claimed (delete_task config ("w1" ∷ []) "t1" claimed)
delete_task-Deleted_example = delete_task-Deleted config ("w1" ∷ []) "t1" claimed

abbrev rounds : ℕ → PopRound
rounds n = record { tokens = tokens; payload = decoded; payload_action = none }

pop_claim_no_wait-Popped_example :
    Popped "w1" rounds queued (pop_claim_no_wait config "w1" rounds queued)
pop_claim_no_wait-Popped_example = pop_claim_no_wait-Popped config "w1" rounds queued
