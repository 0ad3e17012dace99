-- ===== src/State/Ownership/Cores.antt =====
-- The keys that hold messages and records, and the exactly-once invariant over them: a task
-- without an outcome has one message in the ready list, the delay set and the processing lists;
-- a failed task whose record says so has one dead letter; no other task has any.
use mathlib.Core.Option.{Option, none, some}
use stockev_qtask_list.Base.{
  ℕ, ◌+◌, String, true, false, ◌≡◌, ◌≢◌, List, ◌∷◌, ◌++◌, [], arith, update, if◌then◌else◌,
}
use stockev_qtask_list.Store.Messages.{Message, message_task_id}
use stockev_qtask_list.Store.Tasks.{Task, Outcome, failed, Location, in_dlq}
use stockev_qtask_list.Store.{
  Store, zadd, lrem, count, put_task, drop_deadline, add_deadline, release_lease, finalize_owner,
  retire_payload, leave_retry_wait,
}
use stockev_qtask_list.State.Supersede.{raise_supersede}
use stockev_qtask_list.State.Enqueue.{take_ownership, register, adopt_payload}
use stockev_qtask_list.State.Purge.{purge_owner}
use stockev_qtask_list.Store.Counting.{
  carries, count_list, count_delay, count_claimed, lrem-count, zadd-count, count_list-append,
}
use stockev_qtask_list.State.Replies.{is_terminal}

pub record Core : Type 0 where
  pub ready : List Message
  pub delay : List (ℕ × Message)
  pub processing : List (String × Message)
  pub dlq : List Message
  pub tasks : String → Option Task

-- Where this unfolds, so do the helpers of the scripts, which write elsewhere or one record.
unfoldable pub core : Store → Core
unfolding count put_task drop_deadline add_deadline release_lease finalize_owner retire_payload
    leave_retry_wait raise_supersede take_ownership register adopt_payload purge_owner
core s = record {
  ready = s.ready;
  delay = s.delay;
  processing = s.processing;
  dlq = s.dlq;
  tasks = s.tasks;
}

-- The messages of a task that a worker can still get, or has.
abbrev pub operational : String → Core → ℕ
operational j c = count_list j c.ready + count_delay j c.delay + count_claimed j c.processing

abbrev pub is_dead : Outcome → Location → ℕ
is_dead failed in_dlq = 1
is_dead _ _ = 0

abbrev pub expected_live : Option Task → ℕ
expected_live none = 0
expected_live (some t) = if is_terminal t.outcome then 0 else 1

abbrev pub expected_dead : Option Task → ℕ
expected_dead none = 0
expected_dead (some t) = is_dead t.outcome t.location

-- A record that will expire has an outcome and no message.
abbrev pub AgesWith : Option ℕ → Outcome → Location → Type 0
AgesWith none o l = Unit {0}
AgesWith (some x) o l = (is_terminal o ≡ true) × (is_dead o l ≡ 0)

abbrev pub AgesSafely : Option Task → Type 0
AgesSafely none = Unit {0}
AgesSafely (some t) = AgesWith t.expire_at t.outcome t.location

pub record Placed (c : Core) (j : String) : Type 0 where
  pub lives : operational j c ≡ expected_live (c.tasks j)
  pub dies : count_list j c.dlq ≡ expected_dead (c.tasks j)
  pub ages : AgesSafely (c.tasks j)

abbrev pub IsPlaced : Store → Type 0
IsPlaced s = (j : String) → Placed (core s) j

-- A record that stays live keeps its time to live.
abbrev pub StaysLive : Task → Task → Type 0
StaysLive t t' =
    (is_terminal t'.outcome ≡ false) × (t'.expire_at ≡ t.expire_at) × (t'.outcome ≡ t.outcome)

-- A worker's live task: its message leaves the processing list.
module _ (c : Core) (t t' : Task) (id w : String) (m : Message) (ps : List (String × Message))
    (known : c.tasks id ≡ some t) (unsettled : is_terminal t.outcome ≡ false)
    (named : message_task_id m ≡ some id) (taken : lrem w m c.processing ≡ some ps) (j : String)
    (placed : Placed c j) where
  -- The task gets an outcome and its message is gone.
  pub finish-Placed :
      is_terminal t'.outcome ≡ true
      → is_dead t'.outcome t'.location ≡ 0
      → Placed (record c { processing = ps; tasks = update c.tasks id (some t') }) j
  finish-Placed over gone = ground (arith, lrem-count j w m c.processing)

  -- The task fails, and a message of its own becomes its dead letter.
  pub bury-Placed :
      (dead : Message)
      → message_task_id dead ≡ some id
      → t'.outcome ≡ failed
      → t'.location ≡ in_dlq
      → t'.expire_at ≡ t.expire_at
      → Placed
          (record c { processing = ps; dlq = dead ∷ c.dlq; tasks = update c.tasks id (some t') })
          j
  bury-Placed dead d f l x = ground (arith, lrem-count j w m c.processing)

  delay_free :
      (next : Message)
      → message_task_id next ≡ some id
      → carries j next ≢ 0
      → count_delay j c.delay ≡ 0
  delay_free next d n = ground (arith, lrem-count j w m c.processing)

  -- The task goes on, and its next message waits in the delay set.
  pub delay-Placed :
      (sc : ℕ) (next : Message)
      → message_task_id next ≡ some id
      → StaysLive t t'
      → Placed
          (record c {
            processing = ps;
            delay = zadd sc next c.delay;
            tasks = update c.tasks id (some t');
          })
          j
  delay-Placed sc next d l =
      ground
        (arith, lrem-count j w m c.processing, zadd-count j sc next c.delay (delay_free next d))

  -- The task goes on under a new text in the processing lists.
  pub restart-Placed :
      (v : String) (next : Message)
      → message_task_id next ≡ some id
      → StaysLive t t'
      → Placed (record c { processing = (v, next) ∷ ps; tasks = update c.tasks id (some t') }) j
  restart-Placed v next d l = ground (arith, lrem-count j w m c.processing)

  -- The task goes back to the ready list.
  pub return-Placed :
      StaysLive t t'
      → Placed
          (record c {
            processing = ps;
            ready = c.ready ++ m ∷ [];
            tasks = update c.tasks id (some t');
          })
          j
  return-Placed l =
      ground (arith, lrem-count j w m c.processing, count_list-append j c.ready (m ∷ []))
