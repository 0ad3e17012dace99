-- ===== src/System/Told.antt =====
-- The flag `operational_message` of every record of the queue is right.
use mathlib.Core.Option.{Option, none, some}
use stockev_qtask_list.Base.{
  ℕ, zero, suc, ◌+◌, String, Bool, false, ◌≡◌, refl, arith, List, [], ◌∷◌, leb, Option-cases, subst,
  sym, if◌then◌else◌, Bool-cases, inl, inr,
}
use stockev_qtask_list.Store.Messages.{Message, message_task_id, is_retry}
use stockev_qtask_list.Store.Tasks.{Task, Outcome, live}
use stockev_qtask_list.Store.{Store, pop_claimed, leave_retry_wait}
use stockev_qtask_list.Store.Counting.{count_list}
use stockev_qtask_list.State.Replies.{is_terminal}
use stockev_qtask_list.State.Delay.{locate_ready, move_one, move_due, move_due_delay}
use stockev_qtask_list.State.Claims.{renew_lease, release_held}
use stockev_qtask_list.State.Ownership.Cores.{core, IsPlaced, operational}
use stockev_qtask_list.State.Ownership.Moving.{
  claimed_live, delayed_live, move_one-Placed, delay-move_one,
}
use stockev_qtask_list.State.Told.{
  Told, complete_task-Told, retry_task-Told, fail_task-Told, return_unstarted-Told,
  cancel_or_purge-Told, enqueue-Told, replay_task-Told, begin_attempt-Told,
}
use stockev_qtask_list.Queue.Config.{Config}
use stockev_qtask_list.Queue.Identity.{migrate_identity}
use stockev_qtask_list.Queue.Submit.{enqueue_args, task_record, run_script}
use stockev_qtask_list.Queue.Claim.{pop_ready, begin_args, return_claim}
use stockev_qtask_list.Queue.Recover.{relocate, recover_one}
use stockev_qtask_list.Queue.Settling.{settle_args, dead_message, retry_message}
use stockev_qtask_list.System.{
  Step, submits, migrates, claims, begins, completes, retries, fails, returns, recovers, moves,
  purges, replays, renews, releases, passes, expires, Reach, here, next, empty_store, expire,
}
use stockev_qtask_list.System.Exactly.{exactly_once}

pop_ready-tasks :
    (w : String) (s u : Store) (m : Message) → pop_ready w s ≡ some (m, u) → u.tasks ≡ s.tasks
unfolding pop_ready
pop_ready-tasks w s u m e = ground arith

relocate-Told :
    (named : Option String) (v : Store) (j : String)
    → ((id : String) (t : Task)
        → named ≡ some id
        → v.tasks id ≡ some t
        → is_terminal t.outcome ≡ false)
    → Told (v.tasks j)
    → Told ((relocate named v).tasks j) × Told ((locate_ready named v).tasks j)
unfolding relocate locate_ready core
relocate-Told none v j l h = (h, h)
relocate-Told (some id) v j l h = elim (Option-cases (v.tasks id)) [
  | inl n ↦ ground arith
  | inr (t, k) ↦ ground (arith, l id t refl k)
]

recover_one-Told :
    (w : String) (guarded : Bool) (s u : Store) (j : String)
    → recover_one w guarded s ≡ some u
    → IsPlaced s
    → Told (s.tasks j)
    → Told (u.tasks j)
unfolding recover_one
recover_one-Told w guarded s u j e p h = elim (Option-cases (pop_claimed w s.processing)) [
  | inl n ↦ ground arith
  | inr ((m, rest), k) ↦ ground (
    arith,
    relocate-Told (message_task_id m) (record s { ready = m ∷ s.ready; processing = rest }) j
        (λ id t named known. claimed_live s m id t named known (p id) w rest k) h,
  )
]

move_one-Told :
    (d : ℕ) (m : Message) (rest : List (ℕ × Message)) (s : Store) (j : String)
    → s.delay ≡ (d, m) ∷ rest
    → IsPlaced s
    → Told (s.tasks j)
    → Told ((move_one m rest s).tasks j)
unfolding move_one leave_retry_wait
move_one-Told d m rest s j e p h =
    (relocate-Told (message_task_id m)
      (leave_retry_wait (is_retry m) (record s { delay = rest; ready = m ∷ s.ready })) j
      (λ id t named known. delayed_live s m id t named known (p id) d rest e) h).1

move_due-Told :
    (limit : ℕ) (zs : List (ℕ × Message)) (s : Store) (j : String)
    → s.delay ≡ zs
    → IsPlaced s
    → Told (s.tasks j)
    → Told ((move_due limit zs s).1.tasks j)
unfolding move_due
move_due-Told zero zs s j e p h = h
move_due-Told (suc limit) [] s j e p h = h
move_due-Told (suc limit) ((d, m) ∷ rest) s j e p h = elim (Bool-cases (leb d s.now)) [
  | inr n ↦ rw n h
  | inl y ↦ rw y (
      move_due-Told limit rest (move_one m rest s) j (delay-move_one m rest s)
        (λ i. move_one-Placed s d m rest e p i) (move_one-Told d m rest s j e p h))
]

-- Lease and identity calls and the end of keys write no record.
other-Told :
    (key token : String) (time : ℕ) (s : Store) (j : String)
    → Told (s.tasks j)
    → Told ((migrate_identity key s).tasks j)
      × Told ((renew_lease key token time s).1.tasks j)
      × Told ((release_held key token s).1.tasks j)
      × Told ((expire s).tasks j)
unfolding migrate_identity renew_lease release_held expire
other-Told key token time s j h = (ground arith, ground arith, ground arith, ground arith)

live_of : (o : Outcome) → is_terminal o ≡ false → o ≡ live
live_of o e = ground arith

Step-Told :
    {c : Config} {s u : Store} (j : String)
    → Step c s u
    → IsPlaced s
    → Told (s.tasks j)
    → Told (u.tasks j)
unfolding run_script enqueue_args task_record return_claim move_due_delay
Step-Told {c} j (submits s spec action d) p h =
    enqueue-Told (enqueue_args c spec action d) s j refl refl refl h
Step-Told j (migrates s key) p h = (other-Told key key 0 s j h).0
Step-Told {s = s} {u = u} j (claims w m e) p h =
    subst (λ f. Told (f j)) (sym (pop_ready-tasks w s u m e)) h
Step-Told {c} j (begins s w e k) p h = begin_attempt-Told (begin_args c w e k) s j h
Step-Told {c} j (completes s w e result) p h =
    complete_task-Told (settle_args c w e) c.full_history result s j h
Step-Told {c} j (retries s w e run_at code reason) p h =
    retry_task-Told (settle_args c w e) (retry_message e run_at code reason) run_at code reason s j
      h
Step-Told {c} j (fails s w e code reason) p h =
    fail_task-Told (settle_args c w e) (dead_message e code reason) code reason s j h
Step-Told {c} j (returns s w e) p h = return_unstarted-Told (settle_args c w e) e.attempt s j h
Step-Told {s = s} {u = u} j (recovers w guarded e) p h = recover_one-Told w guarded s u j e p h
Step-Told j (moves s limit) p h = move_due-Told limit s.delay s j refl p h
Step-Told j (purges s a named) p h = cancel_or_purge-Told a s j h
Step-Told j (replays s a named fresh lasting new waits told source) p h =
    replay_task-Told a s j (live_of a.fields.outcome fresh) waits told (λ t k. (source t k).over) h
Step-Told j (renews s key token time) p h = (other-Told key token time s j h).1
Step-Told j (releases s key token) p h = (other-Told key token 0 s j h).2
Step-Told j (passes s now alive later) p h = h
Step-Told j (expires s) p h = (other-Told "" "" 0 s j h).3

-- Every record of a queue that anybody used is told.
pub Reach-Told :
    (c : Config) (now : ℕ) (s : Store) (j : String) → Reach c (empty_store now) s → Told (s.tasks j)
Reach-Told c now _ j here = tt
Reach-Told c now _ j (next {t = v} r st) =
    Step-Told j st (exactly_once c now v r) (Reach-Told c now v j r)

-- After any interleaving of calls from the empty queue, the field `operational_message` of a task's
-- record is true exactly if one message of the task stands in the ready list, the delay set, the
-- processing lists and the dead letters together, and false exactly if none does.
pub operational_flag_exact :
    (c : Config) (now : ℕ) (s : Store) (j : String) (t : Task)
    → Reach c (empty_store now) s
    → s.tasks j ≡ some t
    → operational j (core s) + count_list j s.dlq ≡ (if t.operational_message then 1 else 0)
unfolding core
operational_flag_exact c now s j t r known =
    ground (arith, exactly_once c now s r j, Reach-Told c now s j r)
