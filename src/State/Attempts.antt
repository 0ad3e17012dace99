-- ===== src/State/Attempts.antt =====
-- When BEGIN_ATTEMPT_LUA of qtask_list/state.py starts an attempt, and what the scripts do with
-- the leases of others.
use mathlib.Core.Option.{Option, none, some}
use stockev_qtask_list.Base.{ℕ, ◌+◌, ◌<◌, String, false, ◌≡◌, arith}
use stockev_qtask_list.Store.Messages.{Message}
use stockev_qtask_list.Store.Tasks.{Task}
use stockev_qtask_list.Store.{Store}
use stockev_qtask_list.State.Replies.{started, is_terminal}
use stockev_qtask_list.State.Begin.{
  BeginArgs, skip_late, cancel_superseded, fail_budget, defer, start, take_lease, begin_budgeted,
  begin_live, begin_attempt, is_late, is_superseded,
}

-- A record that the script may start, and the number of the attempt.
pub record IsStartable (a : BeginArgs) (s : Store) (t : Task) (n : ℕ) : Type 0 where
  pub recorded : s.tasks a.task_id ≡ some t
  pub unsettled : is_terminal t.outcome ≡ false
  pub timely : is_late t.start_deadline_at s.now ≡ false
  pub latest : is_superseded a.supersede s ≡ false
  pub budgeted : t.attempt < t.max_attempts
  pub counted : n ≡ t.attempt + 1

start-started :
    (a : BeginArgs) (t : Task) (s : Store) (m : Message) (n : ℕ)
    → (start a t s).0 ≡ started m n
    → n ≡ t.attempt + 1
unfolding start
start-started a t s m n h = ground arith

begin_budgeted-started :
    (a : BeginArgs) (key token : Option String) (t : Task) (s : Store) (m : Message) (n : ℕ)
    → (begin_budgeted a key token t s).0 ≡ started m n
    → n ≡ t.attempt + 1
unfolding begin_budgeted defer
begin_budgeted-started a none token t s m n h = start-started a t s m n h
begin_budgeted-started a (some key) none t s m n h = start-started a t s m n h
begin_budgeted-started a (some key) (some token) t s m n h =
    grind (arith, start-started a t (take_lease a key token s) m n)

begin_live-started :
    (a : BeginArgs) (t : Task) (s : Store) (m : Message) (n : ℕ)
    → s.tasks a.task_id ≡ some t
    → is_terminal t.outcome ≡ false
    → (begin_live a t s).0 ≡ started m n
    → IsStartable a s t n
unfolding begin_live skip_late cancel_superseded fail_budget
begin_live-started a t s m n known live h =
    ground (arith, begin_budgeted-started a a.lease_key a.lease_token t s m n)

-- An attempt is started only for a task that has no outcome, has not missed its deadline, is not
-- superseded and has budget left; its number is the next one.
pub begin_attempt-started :
    (a : BeginArgs) (s : Store) (m : Message) (n : ℕ)
    → (begin_attempt a s).0 ≡ started m n
    → (t : Task) × IsStartable a s t n
unfolding begin_attempt
begin_attempt-started a s m n h = grind (arith, begin_live-started)
