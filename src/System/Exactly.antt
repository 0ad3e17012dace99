-- ===== src/System/Exactly.antt =====
-- Every history of the queue keeps the exactly-once invariant.
use stockev_qtask_list.Base.{ℕ, String, refl, arith}
use stockev_qtask_list.Store.{Store}
use stockev_qtask_list.State.Delay.{move_due_delay}
use stockev_qtask_list.State.Claims.{renew_lease, release_held}
use stockev_qtask_list.State.Ownership.Cores.{core, Placed, IsPlaced}
use stockev_qtask_list.State.Ownership.Settling.{
  complete_task-Placed, retry_task-Placed, fail_task-Placed,
}
use stockev_qtask_list.State.Ownership.Beginning.{begin_attempt-Placed, return_unstarted-Placed}
use stockev_qtask_list.State.Ownership.Entering.{enqueue-Placed}
use stockev_qtask_list.State.Ownership.Replaying.{replay_task-Placed}
use stockev_qtask_list.State.Ownership.Moving.{
  pop_ready-Placed, recover_one-Placed, move_due-Placed,
}
use stockev_qtask_list.State.Ownership.Purging.{cancel_or_purge-Placed}
use stockev_qtask_list.Queue.Config.{Config}
use stockev_qtask_list.Queue.Identity.{migrate_identity}
use stockev_qtask_list.Queue.Submit.{enqueue_args, run_script}
use stockev_qtask_list.Queue.Claim.{begin_args, return_claim}
use stockev_qtask_list.Queue.Settling.{settle_args, dead_message, retry_message}
use stockev_qtask_list.System.{
  Step, submits, migrates, claims, begins, completes, retries, fails, returns, recovers, moves,
  purges, replays, renews, releases, passes, expires, Reach, here, next, empty_store, expire,
}

pub migrate_identity-Placed :
    (key : String) (s : Store) (j : String)
    → Placed (core s) j
    → Placed (core (migrate_identity key s)) j
unfolding migrate_identity core
migrate_identity-Placed key s j p = ground arith

renew_lease-Placed :
    (key token : String) (time : ℕ) (s : Store) (j : String)
    → Placed (core s) j
    → Placed (core (renew_lease key token time s).1) j
unfolding renew_lease core
renew_lease-Placed key token time s j p = ground arith

release_held-Placed :
    (key token : String) (s : Store) (j : String)
    → Placed (core s) j
    → Placed (core (release_held key token s).1) j
unfolding release_held core
release_held-Placed key token s j p = ground arith

expire-Placed : (s : Store) (j : String) → Placed (core s) j → Placed (core (expire s)) j
unfolding expire core
expire-Placed s j p = ground arith

-- One step of anybody keeps it.
pub Step-IsPlaced : {c : Config} {s u : Store} → Step c s u → IsPlaced s → IsPlaced u
unfolding run_script enqueue_args begin_args return_claim move_due_delay core
Step-IsPlaced {c} (submits s spec action d) p j =
    enqueue-Placed (enqueue_args c spec action d) s refl refl refl j (p j)
Step-IsPlaced (migrates s key) p j = migrate_identity-Placed key s j (p j)
Step-IsPlaced {s = s} {u = u} (claims w m e) p j = pop_ready-Placed w s u m j e (p j)
Step-IsPlaced {c} (begins s w e k) p j =
    begin_attempt-Placed (begin_args c w e k) s j refl refl refl (p j)
Step-IsPlaced {c} (completes s w e result) p j =
    complete_task-Placed (settle_args c w e) s j refl (p j) c.full_history result
Step-IsPlaced {c} (retries s w e run_at code reason) p j =
    retry_task-Placed (settle_args c w e) s j refl (p j) (retry_message e run_at code reason) refl
      run_at code reason
Step-IsPlaced {c} (fails s w e code reason) p j =
    fail_task-Placed (settle_args c w e) s j refl (p j) (dead_message e code reason) refl code
      reason
Step-IsPlaced {c} (returns s w e) p j =
    return_unstarted-Placed (settle_args c w e) e.attempt s j refl (p j)
Step-IsPlaced {s = s} {u = u} (recovers w guarded e) p j = recover_one-Placed w guarded s u e p j
Step-IsPlaced (moves s limit) p j = move_due-Placed limit s.delay s refl p j
Step-IsPlaced (purges s a named) p j = cancel_or_purge-Placed a s named j p
Step-IsPlaced (replays s a named fresh lasting new waits told source) p j =
    replay_task-Placed a s named fresh lasting source j (p j)
Step-IsPlaced (renews s key token time) p j = renew_lease-Placed key token time s j (p j)
Step-IsPlaced (releases s key token) p j = release_held-Placed key token s j (p j)
Step-IsPlaced (passes s now alive later) p j = p j
Step-IsPlaced (expires s) p j = expire-Placed s j (p j)

empty-IsPlaced : (now : ℕ) → IsPlaced (empty_store now)
unfolding core
empty-IsPlaced now j = ground arith

Reach-IsPlaced : {c : Config} {s u : Store} → IsPlaced s → Reach c s u → IsPlaced u
Reach-IsPlaced p here = p
Reach-IsPlaced p (next r st) = Step-IsPlaced st (Reach-IsPlaced p r)

-- After any interleaving of calls from the empty queue, a task whose record has no outcome has
-- exactly one message in the ready list, the delay set and the processing lists together, any
-- other task has none there, and only a failed task whose record says so has a dead letter, one.
pub exactly_once : (c : Config) (now : ℕ) (s : Store) → Reach c (empty_store now) s → IsPlaced s
exactly_once c now s r = Reach-IsPlaced (empty-IsPlaced now) r
