-- ===== src/System/Sorted.antt =====
-- Every history of the queue keeps the delay set in the order of its times.
use mathlib.Core.Option.{none, some}
use stockev_qtask_list.Base.{ℕ, ◌<◌, ◌+◌, String, Bool, ◌≡◌, refl, arith}
use stockev_qtask_list.Store.Messages.{Message}
use stockev_qtask_list.Store.{Store, put_task, add_deadline}
use stockev_qtask_list.State.Delay.{move_due_delay}
use stockev_qtask_list.State.Delay.Order.{IsSorted, AllFrom, move_due_delay_complete}
use stockev_qtask_list.State.Delay.Kept.{
  settle-delay, retry_task-IsSorted, begin_attempt-IsSorted, cancel_or_purge-IsSorted,
  enqueue-IsSorted, replay_task-IsSorted, move_due-IsSorted,
}
use stockev_qtask_list.State.Claims.{renew_lease, release_held}
use stockev_qtask_list.Queue.Config.{Config}
use stockev_qtask_list.Queue.Identity.{migrate_identity}
use stockev_qtask_list.Queue.Submit.{enqueue_args, run_script}
use stockev_qtask_list.Queue.Claim.{pop_ready, begin_args, return_claim}
use stockev_qtask_list.Queue.Recover.{relocate, recover_one}
use stockev_qtask_list.Queue.Settling.{settle_args, dead_message, retry_message}
use stockev_qtask_list.System.{
  Step, submits, migrates, claims, begins, completes, retries, fails, returns, recovers, moves,
  purges, replays, renews, releases, passes, expires, Reach, here, next, empty_store, expire,
}

lease-delay :
    (key token : String) (time : ℕ) (s : Store)
    → ((migrate_identity key s).delay ≡ s.delay)
      × ((renew_lease key token time s).1.delay ≡ s.delay)
      × ((release_held key token s).1.delay ≡ s.delay)
      × ((expire s).delay ≡ s.delay)
unfolding migrate_identity renew_lease release_held expire
lease-delay key token time s = (ground arith, ground arith, ground arith, ground arith)

pop_ready-delay :
    (w : String) (s u : Store) (m : Message) → pop_ready w s ≡ some (m, u) → u.delay ≡ s.delay
unfolding pop_ready
pop_ready-delay w s u m e = grind arith

recover_one-delay :
    (w : String) (guarded : Bool) (s u : Store)
    → recover_one w guarded s ≡ some u
    → u.delay ≡ s.delay
unfolding recover_one relocate put_task add_deadline
recover_one-delay w guarded s u e = grind arith

same-IsSorted : (s u : Store) → u.delay ≡ s.delay → IsSorted s.delay → IsSorted u.delay
same-IsSorted s u same h = rw same h

Step-IsSorted : {c : Config} {s u : Store} → Step c s u → IsSorted s.delay → IsSorted u.delay
unfolding run_script begin_args return_claim move_due_delay
Step-IsSorted {c} (submits s spec action d) h = enqueue-IsSorted (enqueue_args c spec action d) s h
Step-IsSorted {u = u} (migrates s key) h = same-IsSorted s u (lease-delay key key 0 s).0 h
Step-IsSorted {s = s} {u = u} (claims w m e) h = same-IsSorted s u (pop_ready-delay w s u m e) h
Step-IsSorted {c} (begins s w e k) h = begin_attempt-IsSorted (begin_args c w e k) s h
Step-IsSorted {c} {u = u} (completes s w e result) h =
    same-IsSorted s u
      (settle-delay (settle_args c w e) c.full_history result (dead_message e "" "") "" "" 0 s).0 h
Step-IsSorted {c} (retries s w e run_at code reason) h =
    retry_task-IsSorted (settle_args c w e) (retry_message e run_at code reason) run_at code reason
      s h
Step-IsSorted {c} {u = u} (fails s w e code reason) h =
    same-IsSorted s u
      (settle-delay (settle_args c w e) c.full_history none (dead_message e code reason) code reason
        0 s).1
      h
Step-IsSorted {c} {u = u} (returns s w e) h =
    same-IsSorted s u
      (settle-delay (settle_args c w e) c.full_history none (dead_message e "" "") "" "" e.attempt
        s).2
      h
Step-IsSorted {s = s} {u = u} (recovers w guarded e) h =
    same-IsSorted s u (recover_one-delay w guarded s u e) h
Step-IsSorted (moves s limit) h = move_due-IsSorted limit s.delay s refl h
Step-IsSorted (purges s a named) h = cancel_or_purge-IsSorted a s h
Step-IsSorted (replays s a named fresh lasting new waits told source) h = replay_task-IsSorted a s h
Step-IsSorted {u = u} (renews s key token time) h =
    same-IsSorted s u (lease-delay key token time s).1 h
Step-IsSorted {u = u} (releases s key token) h = same-IsSorted s u (lease-delay key token 0 s).2 h
Step-IsSorted (passes s now alive later) h = h
Step-IsSorted {u = u} (expires s) h = same-IsSorted s u (lease-delay "" "" 0 s).3 h

Reach-IsSorted : {c : Config} {s u : Store} → IsSorted s.delay → Reach c s u → IsSorted u.delay
Reach-IsSorted h here = h
Reach-IsSorted h (next r st) = Step-IsSorted st (Reach-IsSorted h r)

-- After any interleaving of calls from the empty queue, a move of delayed messages that moves
-- fewer than its limit leaves no message in the delay set that is due.
pub no_due_left :
    (c : Config) (now : ℕ) (s : Store) (limit : ℕ)
    → Reach c (empty_store now) s
    → (move_due_delay limit s).0 < limit
    → AllFrom (s.now + 1) (move_due_delay limit s).1.delay
no_due_left c now s limit r below = move_due_delay_complete limit s (Reach-IsSorted tt r) below
