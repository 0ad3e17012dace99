-- ===== src/System/Leases.antt =====
-- Concurrency leases: who may free one, and that nobody takes one from its holder.
use mathlib.Core.Option.{some}
use stockev_qtask_list.Base.{◌≤◌, String, Bool, ◌≡◌, refl, arith}
use stockev_qtask_list.Store.Messages.{Message}
use stockev_qtask_list.Store.Tasks.{Lease}
use stockev_qtask_list.Store.{Store, put_task, add_deadline}
use stockev_qtask_list.State.Leases.{
  Kept, IsHolder, complete_task-Kept, retry_task-Kept, fail_task-Kept, return_unstarted-Kept,
  cancel_or_purge-Kept, begin_attempt-Kept, renew_lease-Kept, release_held-Kept, enqueue-Kept,
  replay_task-Kept, move_due-Kept,
}
use stockev_qtask_list.State.Delay.{move_due_delay}
use stockev_qtask_list.Queue.Config.{Config}
use stockev_qtask_list.Queue.Identity.{migrate_identity}
use stockev_qtask_list.Queue.Submit.{enqueue_args, run_script}
use stockev_qtask_list.Queue.Claim.{pop_ready, begin_args, return_claim, token_for}
use stockev_qtask_list.Queue.Recover.{relocate, recover_one}
use stockev_qtask_list.Queue.Settling.{settle_args, dead_message, retry_message}
use stockev_qtask_list.System.{
  Step, submits, migrates, claims, begins, completes, retries, fails, returns, recovers, moves,
  purges, replays, renews, releases, passes, expires, expire,
}

-- The steps that may free a lease: its time is over, or the caller names its token.
abbrev pub Frees : {c : Config} {s u : Store} → Step c s u → Lease → Type 0
Frees (begins s w e k) l = IsHolder (token_for e.concurrency_key k.lease_token) l
Frees (completes s w e result) l = IsHolder e.lease_token l
Frees (retries s w e run_at code reason) l = IsHolder e.lease_token l
Frees (fails s w e code reason) l = IsHolder e.lease_token l
Frees (returns s w e) l = IsHolder e.lease_token l
Frees (purges s a named) l = IsHolder a.lease_token l
Frees (releases s key token) l = IsHolder (some token) l
Frees (expires s) l = l.expire_at ≤ s.now
Frees (submits s spec action d) l = ⊥
Frees (migrates s key) l = ⊥
Frees (claims w m e) l = ⊥
Frees (recovers w guarded e) l = ⊥
Frees (moves s limit) l = ⊥
Frees (replays s a named fresh lasting new waits told source) l = ⊥
Frees (renews s key token time) l = ⊥
Frees (passes s now alive later) l = ⊥

migrate_identity-leases : (key : String) (s : Store) → (migrate_identity key s).leases ≡ s.leases
unfolding migrate_identity
migrate_identity-leases key s = ground arith

pop_ready-leases :
    (w : String) (s u : Store) (m : Message) → pop_ready w s ≡ some (m, u) → u.leases ≡ s.leases
unfolding pop_ready
pop_ready-leases w s u m e = grind arith

recover_one-leases :
    (w : String) (guarded : Bool) (s u : Store)
    → recover_one w guarded s ≡ some u
    → u.leases ≡ s.leases
unfolding recover_one relocate put_task add_deadline
recover_one-leases w guarded s u e = grind arith

same-Kept :
    (Why : Type 0) (l : Lease) (j : String) (s u : Store)
    → u.leases ≡ s.leases
    → s.leases j ≡ some l
    → Kept l Why (u.leases j)
same-Kept Why l j s u same held = rw (same, held) refl

expire-Kept :
    (s : Store) (j : String) (l : Lease)
    → s.leases j ≡ some l
    → Kept l (l.expire_at ≤ s.now) ((expire s).leases j)
unfolding expire
expire-Kept s j l held = ground arith

-- Whatever step is taken, a concurrency key that somebody holds keeps that holder's token, or it
-- becomes free, and then its time was over or the caller named that token: no other attempt
-- takes the key from its holder.
pub lease_exclusive :
    {c : Config} {s u : Store} (st : Step c s u) (j : String) (l : Lease)
    → s.leases j ≡ some l
    → Kept l (Frees st l) (u.leases j)
unfolding run_script begin_args return_claim move_due_delay
lease_exclusive {c} {u = u} (submits s spec action d) j l h =
    same-Kept ⊥ l j s u (enqueue-Kept (enqueue_args c spec action d) s) h
lease_exclusive {u = u} (migrates s key) j l h =
    same-Kept ⊥ l j s u (migrate_identity-leases key s) h
lease_exclusive {s = s} {u = u} (claims w m e) j l h =
    same-Kept ⊥ l j s u (pop_ready-leases w s u m e) h
lease_exclusive {c} (begins s w e k) j l h = begin_attempt-Kept (begin_args c w e k) s j l h
lease_exclusive {c} (completes s w e result) j l h =
    complete_task-Kept (settle_args c w e) s j l h c.full_history result
lease_exclusive {c} (retries s w e run_at code reason) j l h =
    retry_task-Kept (settle_args c w e) s j l h (retry_message e run_at code reason) run_at code
      reason
lease_exclusive {c} (fails s w e code reason) j l h =
    fail_task-Kept (settle_args c w e) s j l h (dead_message e code reason) code reason
lease_exclusive {c} (returns s w e) j l h =
    return_unstarted-Kept (settle_args c w e) s j l h e.attempt
lease_exclusive {s = s} {u = u} (recovers w guarded e) j l h =
    same-Kept ⊥ l j s u (recover_one-leases w guarded s u e) h
lease_exclusive {u = u} (moves s limit) j l h =
    same-Kept ⊥ l j s u (move_due-Kept limit s.delay s) h
lease_exclusive (purges s a named) j l h = cancel_or_purge-Kept a s j l h
lease_exclusive {u = u} (replays s a named fresh lasting new waits told source) j l h =
    same-Kept ⊥ l j s u (replay_task-Kept a s) h
lease_exclusive (renews s key token time) j l h = renew_lease-Kept key token time s j l h
lease_exclusive (releases s key token) j l h = release_held-Kept key token s j l h
lease_exclusive {u = u} (passes s now alive later) j l h = same-Kept ⊥ l j s u refl h
lease_exclusive (expires s) j l h = expire-Kept s j l h
