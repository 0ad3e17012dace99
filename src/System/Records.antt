-- ===== src/System/Records.antt =====
-- What any step of the queue does to a task's record.
use mathlib.Core.Option.{Option, none, some}
use stockev_qtask_list.Base.{
  ℕ, ◌≤◌, String, Bool, true, ◌≡◌, refl, arith, ◌⊎◌, inl, inr, leb, Bool-cases,
}
use stockev_qtask_list.Store.Messages.{Message}
use stockev_qtask_list.Store.Tasks.{Task}
use stockev_qtask_list.Store.{Store}
use stockev_qtask_list.State.Replies.{is_terminal}
use stockev_qtask_list.State.Delay.{move_due_delay}
use stockev_qtask_list.State.Claims.{renew_lease, release_held}
use stockev_qtask_list.State.Ownership.Cores.{core}
use stockev_qtask_list.State.Evolution.{
  Changes, Changes-refl, complete_task-Changes, retry_task-Changes, fail_task-Changes,
  return_unstarted-Changes, cancel_or_purge-Changes, enqueue-Changes, replay_task-Changes,
  begin_attempt-Changes, move_due-Changes,
}
use stockev_qtask_list.Queue.Config.{Config}
use stockev_qtask_list.Queue.Identity.{migrate_identity}
use stockev_qtask_list.Queue.Submit.{enqueue_args, task_record, run_script}
use stockev_qtask_list.Queue.Claim.{pop_ready, begin_args, return_claim}
use stockev_qtask_list.Queue.Recover.{relocate, recover_one}
use stockev_qtask_list.Queue.Settling.{settle_args, dead_message, retry_message}
use stockev_qtask_list.System.{
  Step, submits, migrates, claims, begins, completes, retries, fails, returns, recovers, moves,
  purges, replays, renews, releases, passes, expires, Reach, here, next, empty_store, expire,
  live_task, unexpired,
}

pop_ready-Changes :
    (w : String) (s u : Store) (m : Message) (j : String)
    → pop_ready w s ≡ some (m, u)
    → Changes (s.tasks j) (u.tasks j)
unfolding pop_ready
pop_ready-Changes w s u m j e = grind (arith, Changes-refl)

recover_one-Changes :
    (w : String) (guarded : Bool) (s u : Store) (j : String)
    → recover_one w guarded s ≡ some u
    → Changes (s.tasks j) (u.tasks j)
unfolding recover_one relocate core
recover_one-Changes w guarded s u j e = grind (arith, Changes-refl)

-- Lease and identity calls write no record.
other-Changes :
    (key token : String) (time : ℕ) (s : Store) (j : String)
    → Changes (s.tasks j) ((migrate_identity key s).tasks j)
      × Changes (s.tasks j) ((renew_lease key token time s).1.tasks j)
      × Changes (s.tasks j) ((release_held key token s).1.tasks j)
unfolding migrate_identity renew_lease release_held
other-Changes key token time s j =
    (grind (arith, Changes-refl), grind (arith, Changes-refl), grind (arith, Changes-refl))

-- A record whose time to live is over.
abbrev pub IsOver : ℕ → Option Task → Type 0
IsOver now none = ⊥
IsOver now (some t) = (x : ℕ) × (t.expire_at ≡ some x) × (x ≤ now)

-- Nothing, or the change of a script: a record may also reach the end of its time to live.
abbrev Lasts : ℕ → Option Task → Option Task → Type 0
Lasts now a b = Changes a b ⊎ ((b ≡ none) × IsOver now a)

unexpired-Lasts :
    (now : ℕ) (t : Task) (x : Option ℕ) → t.expire_at ≡ x → Lasts now (some t) (unexpired x now t)
unexpired-Lasts now t none e = inl (Changes-refl (some t))
unexpired-Lasts now t (some x) e = elim (Bool-cases (leb x now)) [
  | inl y ↦ rw y (inr (refl, (x, e, ground arith)))
  | inr n ↦ rw n (inl (Changes-refl (some t)))
]

live_task-Lasts : (now : ℕ) (r : Option Task) → Lasts now r (live_task now r)
live_task-Lasts now none = inl tt
live_task-Lasts now (some t) = unexpired-Lasts now t t.expire_at refl

Step-Lasts :
    {c : Config} {s u : Store} → Step c s u → (j : String) → Lasts s.now (s.tasks j) (u.tasks j)
unfolding run_script enqueue_args task_record return_claim move_due_delay expire
Step-Lasts {c} (submits s spec action d) j =
    inl (enqueue-Changes (enqueue_args c spec action d) s j refl)
Step-Lasts (migrates s key) j = inl (other-Changes key key 0 s j).0
Step-Lasts {s = s} {u = u} (claims w m e) j = inl (pop_ready-Changes w s u m j e)
Step-Lasts {c} (begins s w e k) j = inl (begin_attempt-Changes (begin_args c w e k) s j)
Step-Lasts {c} (completes s w e result) j =
    inl (complete_task-Changes (settle_args c w e) c.full_history result s j)
Step-Lasts {c} (retries s w e run_at code reason) j = inl (
    retry_task-Changes (settle_args c w e) (retry_message e run_at code reason) run_at code reason s
      j)
Step-Lasts {c} (fails s w e code reason) j =
    inl (fail_task-Changes (settle_args c w e) (dead_message e code reason) code reason s j)
Step-Lasts {c} (returns s w e) j = inl (return_unstarted-Changes (settle_args c w e) e.attempt s j)
Step-Lasts {s = s} {u = u} (recovers w guarded e) j = inl (recover_one-Changes w guarded s u j e)
Step-Lasts (moves s limit) j = inl (move_due-Changes limit s.delay s j)
Step-Lasts (purges s a named) j = inl (cancel_or_purge-Changes a s j)
Step-Lasts (replays s a named fresh lasting new waits told source) j =
    inl (replay_task-Changes a s j new)
Step-Lasts (renews s key token time) j = inl (other-Changes key token time s j).1
Step-Lasts (releases s key token) j = inl (other-Changes key token 0 s j).2
Step-Lasts (passes s now alive later) j = inl (Changes-refl (s.tasks j))
Step-Lasts (expires s) j = live_task-Lasts s.now (s.tasks j)

abbrev pub Stays : ℕ → Task → Option Task → Type 0
Stays now t none = IsOver now (some t)
Stays now t (some t') = (t'.outcome ≡ t.outcome) × (t'.intent ≡ t.intent)

Lasts-Stays :
    (now : ℕ) (t : Task) (r : Option Task)
    → is_terminal t.outcome ≡ true
    → Lasts now (some t) r
    → Stays now t r
Lasts-Stays now t none ended (inl gone) = absurd gone
Lasts-Stays now t none ended (inr gone) = gone.1
Lasts-Stays now t (some t') ended (inl v) = (v.final ended, v.intended)
Lasts-Stays now t (some t') ended (inr gone) = ground arith

-- Whatever step is taken, a record that has an outcome has the same outcome and the same intent, or
-- it is gone, and then its time to live was over.
pub outcome_final :
    {c : Config} {s u : Store} {t : Task} (j : String)
    → Step c s u
    → s.tasks j ≡ some t
    → is_terminal t.outcome ≡ true
    → Stays s.now t (u.tasks j)
outcome_final {s = s} {u = u} {t = t} j st known ended =
    Lasts-Stays s.now t (u.tasks j) ended (rw known at (Step-Lasts st j))

abbrev InBudget : Option Task → Type 0
InBudget none = Unit {0}
InBudget (some t) = t.attempt ≤ t.max_attempts

Lasts-InBudget : (now : ℕ) (a b : Option Task) → Lasts now a b → InBudget a → InBudget b
Lasts-InBudget now a none l h = tt
Lasts-InBudget now a (some t') (inr e) h = ground arith
Lasts-InBudget now none (some t') (inl v) h = v
Lasts-InBudget now (some t) (some t') (inl v) h = ground arith

Reach-InBudget :
    {c : Config} {s u : Store} (j : String)
    → Reach c s u
    → InBudget (s.tasks j)
    → InBudget (u.tasks j)
Reach-InBudget j here h = h
Reach-InBudget {u = u} j (next {t = v} r st) h =
    Lasts-InBudget v.now (v.tasks j) (u.tasks j) (Step-Lasts st j) (Reach-InBudget j r h)

-- After any interleaving of calls from the empty queue, no record counts more attempts than the
-- task's budget: retries, recoveries, returned claims and replays included.
pub attempts_within_budget :
    (c : Config) (now : ℕ) (s : Store) (j : String) (t : Task)
    → Reach c (empty_store now) s
    → s.tasks j ≡ some t
    → t.attempt ≤ t.max_attempts
attempts_within_budget c now s j t r known = rw known at (Reach-InBudget j r tt)
