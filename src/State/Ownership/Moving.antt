-- ===== src/State/Ownership/Moving.antt =====
-- Messages that move without an end of their attempt keep the exactly-once invariant: RPOPLPUSH,
-- the recovery script of qtask_list/queue.py, MOVE_DUE_DELAY_LUA, CANCEL_OR_PURGE_LUA and expiry.
use mathlib.Core.Option.{Option, none, some}
use stockev_qtask_list.Base.{
  ℕ, zero, suc, String, Bool, false, ◌≡◌, refl, List, [], ◌∷◌, arith, update, Option-cases,
  Bool-cases, inl, inr, leb,
}
use stockev_qtask_list.Store.Messages.{Message, message_task_id, is_retry}
use stockev_qtask_list.Store.Tasks.{Task}
use stockev_qtask_list.Store.{Store, leave_retry_wait, pop_claimed, put_task}
use stockev_qtask_list.Store.Counting.{pop_last-count, pop_claimed-count}
use stockev_qtask_list.State.Replies.{is_terminal}
use stockev_qtask_list.State.Delay.{locate_ready, move_one, move_due}
use stockev_qtask_list.State.Ownership.Cores.{Core, core, Placed, IsPlaced}
use stockev_qtask_list.Queue.Claim.{pop_ready}
use stockev_qtask_list.Queue.Recover.{relocate, recover_one}

-- A record that only changes its place, while its task is live.
relocate-Placed :
    (c : Core) (id : String) (t t' : Task) (j : String)
    → c.tasks id ≡ some t
    → is_terminal t.outcome ≡ false
    → t'.outcome ≡ t.outcome
    → t'.expire_at ≡ t.expire_at
    → Placed c j
    → Placed (record c { tasks = update c.tasks id (some t') }) j
relocate-Placed c id t t' j known live o x placed = ground arith

pub pop_ready-Placed :
    (w : String) (s u : Store) (m : Message) (j : String)
    → pop_ready w s ≡ some (m, u)
    → Placed (core s) j
    → Placed (core u) j
unfolding pop_ready core
pop_ready-Placed w s u m j e placed = ground (arith, pop_last-count j s.ready)

-- The task of a message that stands in a list has no outcome.
module _ (s : Store) (m : Message) (id : String) (t : Task) (named : message_task_id m ≡ some id)
    (known : s.tasks id ≡ some t) (placed : Placed (core s) id) where
  pub claimed_live :
      (w : String) (rest : List (String × Message))
      → pop_claimed w s.processing ≡ some (m, rest)
      → is_terminal t.outcome ≡ false
  unfolding core
  claimed_live w rest taken = ground (arith, pop_claimed-count id w s.processing)

  pub delayed_live :
      (d : ℕ) (rest : List (ℕ × Message)) → s.delay ≡ (d, m) ∷ rest → is_terminal t.outcome ≡ false
  unfolding core
  delayed_live d rest first = ground arith

-- The recovery of one message.
module _ (w : String) (s : Store) (m : Message) (rest : List (String × Message))
    (taken : pop_claimed w s.processing ≡ some (m, rest)) (placed : IsPlaced s) (j : String) where
  returned-Placed : Placed (core (record s { ready = m ∷ s.ready; processing = rest })) j
  unfolding core
  returned-Placed = ground (arith, placed j, pop_claimed-count j w s.processing)

  located-Placed :
      (named : Option String)
      → message_task_id m ≡ named
      → Placed (core (relocate named (record s { ready = m ∷ s.ready; processing = rest }))) j
  unfolding relocate core
  located-Placed none e = returned-Placed
  located-Placed (some id) e = elim (Option-cases (s.tasks id)) [
    | inl n ↦ rw (n, relocate) returned-Placed
    | inr (t, k) ↦
        rw (k, relocate)
          (relocate-Placed _ id t _ j k (claimed_live s m id t e k (placed id) w rest taken) refl
            refl returned-Placed)
  ]

pub recover_one-Placed :
    (w : String) (guarded : Bool) (s u : Store)
    → recover_one w guarded s ≡ some u
    → IsPlaced s
    → IsPlaced u
unfolding recover_one
recover_one-Placed w guarded s u e placed j = elim (Option-cases (pop_claimed w s.processing)) [
  | inl n ↦ ground arith
  | inr (r, k) ↦ ground (arith, located-Placed w s r.0 r.1 k placed j (message_task_id r.0) refl)
]

-- One round of the delay script, on the first member of the set.
module _ (s : Store) (d : ℕ) (m : Message) (rest : List (ℕ × Message))
    (first : s.delay ≡ (d, m) ∷ rest) (placed : IsPlaced s) (j : String) where
  due-Placed :
      Placed
        (core (leave_retry_wait (is_retry m) (record s { delay = rest; ready = m ∷ s.ready })))
        j
  unfolding core
  due-Placed = ground (arith, placed j)

  locate_ready-Placed :
      (named : Option String)
      → message_task_id m ≡ named
      → Placed
          (core (
            locate_ready named
              (leave_retry_wait (is_retry m) (record s { delay = rest; ready = m ∷ s.ready }))))
          j
  unfolding locate_ready core
  locate_ready-Placed none e = due-Placed
  locate_ready-Placed (some id) e = elim (Option-cases (s.tasks id)) [
    | inl n ↦ rw (n, locate_ready) due-Placed
    | inr (t, k) ↦
        rw (k, locate_ready)
          (relocate-Placed _ id t _ j k (delayed_live s m id t e k (placed id) d rest first) refl
            refl due-Placed)
  ]

  pub move_one-Placed : Placed (core (move_one m rest s)) j
  unfolding move_one
  move_one-Placed = locate_ready-Placed (message_task_id m) refl

pub delay-move_one :
    (m : Message) (rest : List (ℕ × Message)) (s : Store) → (move_one m rest s).delay ≡ rest
unfolding move_one locate_ready leave_retry_wait put_task
delay-move_one m rest s = ground arith

-- Every round of the delay script keeps the invariant, so the script does.
pub move_due-Placed :
    (limit : ℕ) (zs : List (ℕ × Message)) (s : Store)
    → s.delay ≡ zs
    → IsPlaced s
    → IsPlaced (move_due limit zs s).1
unfolding move_due
move_due-Placed zero zs s e placed j = placed j
move_due-Placed (suc limit) [] s e placed j = placed j
move_due-Placed (suc limit) ((d, m) ∷ rest) s e placed j = elim (Bool-cases (leb d s.now)) [
  | inr n ↦ rw n (placed j)
  | inl y ↦ rw y (
      move_due-Placed limit rest (move_one m rest s) (delay-move_one m rest s)
        (move_one-Placed s d m rest e placed) j)
]
