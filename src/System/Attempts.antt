-- ===== src/System/Attempts.antt =====
-- How many attempts of a task a history of the queue has started and given back.
use mathlib.Core.Option.{Option, none, some}
use stockev_qtask_list.Base.{
  ℕ, ◌+◌, if◌then◌else◌, false, ◌≤◌, String, Bool, true, ◌≡◌, refl, arith, ◌⊎◌, inl, inr,
}
use stockev_qtask_list.Store.Messages.{Message}
use stockev_qtask_list.Store.Tasks.{Task}
use stockev_qtask_list.Store.{Store}
use stockev_qtask_list.State.Begin.{begin_attempt}
use stockev_qtask_list.State.Delay.{move_due_delay}
use stockev_qtask_list.State.Claims.{renew_lease, release_held}
use stockev_qtask_list.State.Ownership.Cores.{core}
use stockev_qtask_list.State.Attempted.{
  Counted, Counted-refl, starts_in, returns_in, complete_task-Counted, retry_task-Counted,
  fail_task-Counted, return_unstarted-Counted, cancel_or_purge-Counted, enqueue-Counted,
  replay_task-Counted, begin_attempt-Counted, move_due-Counted,
}
use stockev_qtask_list.Queue.Config.{Config}
use stockev_qtask_list.Queue.Identity.{migrate_identity}
use stockev_qtask_list.Queue.Submit.{enqueue_args, task_record, run_script}
use stockev_qtask_list.Queue.Claim.{pop_ready, begin_args, return_claim}
use stockev_qtask_list.Queue.Recover.{relocate, recover_one}
use stockev_qtask_list.Queue.Settling.{settle_args, dead_message, retry_message}
use stockev_qtask_list.System.Records.{attempts_within_budget}
use stockev_qtask_list.System.{
  Step, submits, migrates, claims, begins, completes, retries, fails, returns, recovers, moves,
  purges, replays, renews, releases, passes, expires, Reach, here, next, empty_store, expire,
}

pop_ready-Counted :
    (w : String) (s u : Store) (m : Message) (j : String)
    → pop_ready w s ≡ some (m, u)
    → Counted 0 0 (s.tasks j) (u.tasks j)
unfolding pop_ready
pop_ready-Counted w s u m j e = grind (arith, Counted-refl)

recover_one-Counted :
    (w : String) (guarded : Bool) (s u : Store) (j : String)
    → recover_one w guarded s ≡ some u
    → Counted 0 0 (s.tasks j) (u.tasks j)
unfolding recover_one relocate core
recover_one-Counted w guarded s u j e = grind (arith, Counted-refl)

-- Lease and identity calls write no record.
other-Counted :
    (key token : String) (time : ℕ) (s : Store) (j : String)
    → Counted 0 0 (s.tasks j) ((migrate_identity key s).tasks j)
      × Counted 0 0 (s.tasks j) ((renew_lease key token time s).1.tasks j)
      × Counted 0 0 (s.tasks j) ((release_held key token s).1.tasks j)
unfolding migrate_identity renew_lease release_held
other-Counted key token time s j =
    (grind (arith, Counted-refl), grind (arith, Counted-refl), grind (arith, Counted-refl))

abbrev pub is_absent : Option Task → Bool
is_absent none = true
is_absent (some t) = false

-- A record may also reach the end of its time to live.
abbrev Tallied : ℕ → ℕ → Option Task → Option Task → Type 0
Tallied begun given a b = Counted begun given a b ⊎ (b ≡ none)

expire-Tallied : (s : Store) (j : String) → Tallied 0 0 (s.tasks j) ((expire s).tasks j)
unfolding expire
expire-Tallied s j = grind (arith, Counted-refl)

-- The attempts of a task that a step starts, and those that it takes back.
abbrev pub begun_in : {c : Config} {s u : Store} → String → Step c s u → ℕ
begun_in {c} j (begins s w e k) = starts_in j e.task_id (begin_attempt (begin_args c w e k) s).0
begun_in j _ = 0

abbrev pub given_in : {c : Config} {s u : Store} → String → Step c s u → ℕ
given_in {c} j (returns s w e) = returns_in j e.task_id (return_claim c w e s).0
given_in j _ = 0

Step-Tallied :
    {c : Config} {s u : Store} (st : Step c s u) (j : String)
    → Tallied (begun_in j st) (given_in j st) (s.tasks j) (u.tasks j)
unfolding run_script enqueue_args task_record return_claim move_due_delay begin_args
Step-Tallied {c} (submits s spec action d) j =
    inl (enqueue-Counted (enqueue_args c spec action d) s j refl)
Step-Tallied (migrates s key) j = inl (other-Counted key key 0 s j).0
Step-Tallied {s = s} {u = u} (claims w m e) j = inl (pop_ready-Counted w s u m j e)
Step-Tallied {c} (begins s w e k) j = inl (begin_attempt-Counted (begin_args c w e k) j s)
Step-Tallied {c} (completes s w e result) j =
    inl (complete_task-Counted (settle_args c w e) c.full_history result s j)
Step-Tallied {c} (retries s w e run_at code reason) j = inl (
    retry_task-Counted (settle_args c w e) (retry_message e run_at code reason) run_at code reason s
      j)
Step-Tallied {c} (fails s w e code reason) j =
    inl (fail_task-Counted (settle_args c w e) (dead_message e code reason) code reason s j)
Step-Tallied {c} (returns s w e) j =
    inl (return_unstarted-Counted (settle_args c w e) e.attempt s j)
Step-Tallied {s = s} {u = u} (recovers w guarded e) j = inl (recover_one-Counted w guarded s u j e)
Step-Tallied (moves s limit) j = inl (move_due-Counted limit s.delay s j)
Step-Tallied (purges s a named) j = inl (cancel_or_purge-Counted a s j)
Step-Tallied (replays s a named fresh lasting new waits told source) j =
    inl (replay_task-Counted a s j new)
Step-Tallied (renews s key token time) j = inl (other-Counted key token time s j).1
Step-Tallied (releases s key token) j = inl (other-Counted key token 0 s j).2
Step-Tallied (passes s now alive later) j = inl (Counted-refl (s.tasks j))
Step-Tallied (expires s) j = expire-Tallied s j

-- The attempts that a history has started and given back since the task got its record.
abbrev pub begun_since : {c : Config} {s u : Store} → String → Reach c s u → ℕ
begun_since j here = 0
begun_since j (next {u = u} r st) =
    let before = begun_since j r in if is_absent (u.tasks j) then 0 else before + begun_in j st

abbrev pub given_since : {c : Config} {s u : Store} → String → Reach c s u → ℕ
given_since j here = 0
given_since j (next {u = u} r st) =
    let before = given_since j r in if is_absent (u.tasks j) then 0 else before + given_in j st

abbrev IsTallied : ℕ → ℕ → Option Task → Type 0
IsTallied begun given none = begun ≡ 0
IsTallied begun given (some t) = begun ≤ t.attempt + given

Tallied-IsTallied :
    (b g i o : ℕ) (x y : Option Task)
    → IsTallied b g x
    → Tallied i o x y
    → IsTallied (if is_absent y then 0 else b + i) (if is_absent y then 0 else g + o) y
Tallied-IsTallied b g i o x none h k = refl
Tallied-IsTallied b g i o none (some t) h (inl k) = omega (arith, h, k)
Tallied-IsTallied b g i o (some t) (some t') h (inl k) = omega (arith, h, k)
Tallied-IsTallied b g i o x (some t) h (inr k) = ground arith

Reach-IsTallied :
    {c : Config} (now : ℕ) {u : Store} (j : String) (r : Reach c (empty_store now) u)
    → IsTallied (begun_since j r) (given_since j r) (u.tasks j)
Reach-IsTallied now j here = refl
Reach-IsTallied now {u} j (next {t = v} r st) =
    Tallied-IsTallied (begun_since j r) (given_since j r) (begun_in j st) (given_in j st)
      (v.tasks j) (u.tasks j) (Reach-IsTallied now j r) (Step-Tallied st j)

-- After any interleaving of calls from the empty queue, the attempts of a task that have started
-- since it got its record, less those that a worker gave back before their handler ran, are at most
-- its budget: retries, recoveries and replays included.
pub starts_within_budget :
    (c : Config) (now : ℕ) (s : Store) (j : String) (t : Task) (r : Reach c (empty_store now) s)
    → s.tasks j ≡ some t
    → begun_since j r ≤ t.max_attempts + given_since j r
starts_within_budget c now s j t r known =
    let tallied : IsTallied (begun_since j r) (given_since j r) (some t) =
      rw known at (Reach-IsTallied now j r) in
    omega (arith, tallied, attempts_within_budget c now s j t r known)
