-- ===== src/State/Ownership/Entering.antt =====
-- ENQUEUE_V2_LUA, REPLAY_TASK_LUA, CANCEL_OR_PURGE_LUA and MOVE_DUE_DELAY_LUA of
-- qtask_list/state.py keep the exactly-once invariant.
use mathlib.Core.Option.{Option, none, some}
use stockev_qtask_list.Base.{
  ℕ, String, true, false, ◌≡◌, List, ◌∷◌, arith, update, Option-cases, Bool-cases, inl, inr, ◌&&◌,
  remove_one, ltb,
}
use stockev_qtask_list.Store.Messages.{Message, message_task_id, msg_dec}
use stockev_qtask_list.Store.Tasks.{Task}
use stockev_qtask_list.Store.{Store, zadd}
use stockev_qtask_list.Store.Counting.{zadd-count, remove_one-count}
use stockev_qtask_list.State.Replies.{is_terminal}
use stockev_qtask_list.State.Enqueue.{
  EnqueueArgs, OwnerInfo, DuplicateAction, reject, allow_new, find_owner, place, accept, admit,
  refuse_duplicate, enqueue, payload_is_expired, is_some,
}
use stockev_qtask_list.State.Ownership.Cores.{Core, core, Placed, is_dead}

-- A task whose record did not exist comes with its first message.
module _ (c : Core) (t : Task) (id : String) (m : Message) (unknown : c.tasks id ≡ none)
    (named : message_task_id m ≡ some id) (fresh : is_terminal t.outcome ≡ false)
    (lasting : t.expire_at ≡ none) (j : String) (placed : Placed c j) where
  pub enter_ready-Placed :
      Placed (record c { ready = m ∷ c.ready; tasks = update c.tasks id (some t) }) j
  enter_ready-Placed = ground arith

  pub enter_delay-Placed :
      (at : ℕ)
      → Placed (record c { delay = zadd at m c.delay; tasks = update c.tasks id (some t) }) j
  enter_delay-Placed at = ground (arith, zadd-count j at m c.delay (λ n. ground arith))

module _ (a : EnqueueArgs) (s : Store) (named : message_task_id a.message ≡ some a.task_id)
    (fresh : is_terminal a.fields.outcome ≡ false) (lasting : a.fields.expire_at ≡ none)
    (unknown : s.tasks a.task_id ≡ none) (j : String) (placed : Placed (core s) j) where
  accept-Placed : (owner : Option OwnerInfo) → Placed (core (accept a owner s).1) j
  unfolding accept core place
  accept-Placed owner =
      elim (Bool-cases (is_some a.fields.not_before_at && ltb s.now a.available_at)) [
        | inl e ↦ rw e (
            enter_delay-Placed (core s) _ a.task_id a.message unknown named fresh lasting j placed
              a.available_at)
        | inr e ↦
            rw e (
              enter_ready-Placed (core s) _ a.task_id a.message unknown named fresh lasting j
                placed)
      ]

  admit-Placed :
      (action : DuplicateAction) (owner : Option OwnerInfo)
      → Placed (core (admit a action owner s).1) j
  unfolding admit refuse_duplicate core
  admit-Placed action none = accept-Placed none
  admit-Placed allow_new (some o) = accept-Placed (some o)
  admit-Placed reject (some o) = ground arith

pub enqueue-Placed :
    (a : EnqueueArgs) (s : Store)
    → message_task_id a.message ≡ some a.task_id
    → is_terminal a.fields.outcome ≡ false
    → a.fields.expire_at ≡ none
    → (j : String) → Placed (core s) j
    → Placed (core (enqueue a s).1) j
unfolding enqueue
enqueue-Placed a s named fresh lasting j placed = elim (Option-cases (s.tasks a.task_id)) [
  | inr (t, e) ↦ rw (e, enqueue) placed
  | inl e ↦
      rw (e, enqueue)
        (elim (Bool-cases (payload_is_expired a.fields s)) [
          | inl x ↦ rw x placed
          | inr x ↦ rw x (
              admit-Placed a s named fresh lasting e j placed a.action (find_owner a.logical_key s))
        ])
]

-- A finished record becomes history, and its dead letter, if it has one, goes.
module _ (c : Core) (t t' : Task) (id : String) (known : c.tasks id ≡ some t)
    (over : is_terminal t.outcome ≡ true) (still : is_terminal t'.outcome ≡ true)
    (gone : is_dead t'.outcome t'.location ≡ 0) (j : String) (placed : Placed c j) where
  pub retire-Placed :
      is_dead t.outcome t.location ≡ 0 → Placed (record c { tasks = update c.tasks id (some t') }) j
  retire-Placed undead = ground arith

  pub unbury-Placed :
      (m : Message) (xs : List Message)
      → message_task_id m ≡ some id
      → remove_one msg_dec m c.dlq ≡ some xs
      → Placed (record c { dlq = xs; tasks = update c.tasks id (some t') }) j
  unbury-Placed m xs named taken = ground (arith, remove_one-count j m c.dlq)
