-- ===== src/State/Ownership/Settling.antt =====
-- The three ends of an attempt of qtask_list/state.py keep the exactly-once invariant.
use mathlib.Core.Option.{Option, some}
use stockev_qtask_list.Base.{
  ℕ, String, Bool, true, false, ◌≡◌, refl, List, Option-cases, Bool-cases, inl, inr, if◌then◌else◌,
}
use stockev_qtask_list.Store.Messages.{Message, message_task_id}
use stockev_qtask_list.Store.Tasks.{Task}
use stockev_qtask_list.Store.{Store, take_claimed, lrem}
use stockev_qtask_list.State.Replies.{Reply, is_terminal, or_not_found}
use stockev_qtask_list.State.Settle.{
  SettleArgs, on_live, completed_record, complete_taken, complete_task, skip_retry, schedule_retry,
  misses, retry_task, fail_taken, fail_task,
}
use stockev_qtask_list.State.Ownership.Cores.{
  core, Placed, finish-Placed, bury-Placed, delay-Placed,
}

-- A settlement ends in its guards or goes on with the message taken.
settle_cases {ℓ} :
    (P : Store → Type ℓ) (a : SettleArgs) (next : Task → Store → Reply × Store) (s : Store)
    → P s
    → ((t : Task) (ps : List (String × Message))
        → s.tasks a.task_id ≡ some t
        → is_terminal t.outcome ≡ false
        → lrem a.worker a.raw_message s.processing ≡ some ps
        → P (next t (record s { processing = ps })).1)
    → P
        (on_live a.task_id
          (λ t u. or_not_found u (take_claimed a.worker a.raw_message u) (next t))
          s).1
unfolding take_claimed
settle_cases P a next s stay go = elim (Option-cases (s.tasks a.task_id)) [
  | inl e ↦ rw (e, on_live) stay
  | inr (t, e) ↦ elim (Bool-cases (is_terminal t.outcome)) [
    | inl d ↦ rw (e, on_live, d) stay
    | inr l ↦ elim (Option-cases (lrem a.worker a.raw_message s.processing)) [
      | inl n ↦ rw (e, on_live, l, n) stay
      | inr (ps, r) ↦ rw (e, on_live, l, r) (go t ps e l r)
    ]
  ]
]

module _ (a : SettleArgs) (s : Store) (j : String)
    (named : message_task_id a.raw_message ≡ some a.task_id) (placed : Placed (core s) j) where
  pub complete_task-Placed :
      (full : Bool) (result : Option String) → Placed (core (complete_task a full result s).1) j
  unfolding complete_task complete_taken completed_record core
  complete_task-Placed full result =
      settle_cases (λ u. Placed (core u) j) a (complete_taken a full result) s placed
        λ t ps e l r.
          (finish-Placed (core s) t _ a.task_id a.worker a.raw_message ps e l named r j placed refl
            refl)

  module _ (next : Message) (named_next : message_task_id next ≡ some a.task_id) where
    retry_taken-Placed :
        (run_at : ℕ) (code reason : String) (t : Task) (ps : List (String × Message))
        → s.tasks a.task_id ≡ some t
        → is_terminal t.outcome ≡ false
        → lrem a.worker a.raw_message s.processing ≡ some ps
        → (missed : Bool)
        → Placed
            (core
              ((if missed then skip_retry a t else schedule_retry a next run_at code reason t)
                (record s { processing = ps })).1)
            j
    unfolding skip_retry schedule_retry core
    retry_taken-Placed run_at code reason t ps e l r true =
        (finish-Placed (core s) t _ a.task_id a.worker a.raw_message ps e l named r j placed refl
          refl)
    retry_taken-Placed run_at code reason t ps e l r false =
        (delay-Placed (core s) t _ a.task_id a.worker a.raw_message ps e l named r j placed run_at
          next named_next (l, refl, refl))

    pub retry_task-Placed :
        (run_at : ℕ) (code reason : String)
        → Placed (core (retry_task a next run_at code reason s).1) j
    unfolding retry_task
    retry_task-Placed run_at code reason =
        settle_cases (λ u. Placed (core u) j) a
          (λ t.
            if misses t.start_deadline_at run_at
            then skip_retry a t
            else schedule_retry a next run_at code reason t)
          s placed
          λ t ps e l r.
            retry_taken-Placed run_at code reason t ps e l r (misses t.start_deadline_at run_at)

    pub fail_task-Placed :
        (code reason : String) → Placed (core (fail_task a next code reason s).1) j
    unfolding fail_task fail_taken core
    fail_task-Placed code reason =
        settle_cases (λ u. Placed (core u) j) a (fail_taken a next code reason) s placed
          λ t ps e l r.
            (bury-Placed (core s) t _ a.task_id a.worker a.raw_message ps e l named r j placed next
              named_next refl refl refl)
