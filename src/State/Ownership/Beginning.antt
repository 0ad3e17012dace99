-- ===== src/State/Ownership/Beginning.antt =====
-- BEGIN_ATTEMPT_LUA and RETURN_UNSTARTED_CLAIM_LUA of qtask_list/state.py keep the exactly-once invariant.
use mathlib.Core.Option.{Option, none, some}
use stockev_qtask_list.Base.{
  ℕ, ap, String, false, ◌≡◌, refl, List, arith, Option-cases, leb, Bool-cases, inl, inr,
}
use stockev_qtask_list.Store.Messages.{Message, message_task_id}
use stockev_qtask_list.Store.Tasks.{Task}
use stockev_qtask_list.Store.{Store, take_claimed, lrem}
use stockev_qtask_list.State.Replies.{Reply, is_terminal, or_not_found}
use stockev_qtask_list.State.Settle.{SettleArgs}
use stockev_qtask_list.State.Claims.{return_taken, return_current, return_unstarted}
use stockev_qtask_list.State.Begin.{
  BeginArgs, end_in_history, end_in_dlq, skip_late, cancel_superseded, fail_budget, defer, is_late,
  is_superseded, start_claimed, start, take_lease, begin_budgeted, begin_live, begin_attempt,
}
use stockev_qtask_list.State.Ownership.Cores.{
  core, Placed, finish-Placed, bury-Placed, delay-Placed, restart-Placed, return-Placed,
}

-- A message of a task leaves its worker's list, or the script answers not_found.
taken_cases {ℓ} :
    (P : Store → Type ℓ) (w : String) (m : Message) (next : Store → Reply × Store) (s : Store)
    → P s
    → ((ps : List (String × Message))
        → lrem w m s.processing ≡ some ps
        → P (next (record s { processing = ps })).1)
    → P (or_not_found s (take_claimed w m s) next).1
unfolding take_claimed
taken_cases P w m next s stay go = elim (Option-cases (lrem w m s.processing)) [
  | inl n ↦ rw n stay
  | inr (ps, r) ↦ rw r (go ps r)
]

module _ (a : BeginArgs) (s : Store) (j : String)
    (named : message_task_id a.raw_message ≡ some a.task_id)
    (started : a.started_tail.task_id ≡ a.task_id) (deferred : a.deferred_tail.task_id ≡ a.task_id)
    (placed : Placed (core s) j) (t : Task) (known : s.tasks a.task_id ≡ some t)
    (unsettled : is_terminal t.outcome ≡ false) where
  skip_late-Placed : Placed (core (skip_late a t s).1) j
  unfolding skip_late end_in_history core
  skip_late-Placed =
      taken_cases (λ u. Placed (core u) j) a.worker a.raw_message _ s placed
        λ ps r.
          finish-Placed (core s) t _ a.task_id a.worker a.raw_message ps known unsettled named r j
            placed refl refl

  cancel_superseded-Placed : Placed (core (cancel_superseded a t s).1) j
  unfolding cancel_superseded end_in_history core
  cancel_superseded-Placed =
      taken_cases (λ u. Placed (core u) j) a.worker a.raw_message _ s placed
        λ ps r.
          finish-Placed (core s) t _ a.task_id a.worker a.raw_message ps known unsettled named r j
            placed refl refl

  fail_budget-Placed : Placed (core (fail_budget a t s).1) j
  unfolding fail_budget end_in_dlq core
  fail_budget-Placed =
      taken_cases (λ u. Placed (core u) j) a.worker a.raw_message _ s placed
        λ ps r.
          bury-Placed (core s) t _ a.task_id a.worker a.raw_message ps known unsettled named r j
            placed a.raw_message named refl refl refl

  defer-Placed : Placed (core (defer a t s).1) j
  unfolding defer core
  defer-Placed =
      taken_cases (λ u. Placed (core u) j) a.worker a.raw_message _ s placed
        λ ps r.
          delay-Placed (core s) t _ a.task_id a.worker a.raw_message ps known unsettled named r j
            placed _ _ (ap some deferred) (unsettled, refl, refl)

  start-Placed : Placed (core (start a t s).1) j
  unfolding start start_claimed core take_claimed
  start-Placed = elim (Option-cases (lrem a.worker a.raw_message s.processing)) [
    | inl n ↦ rw (n, start) placed
    | inr (ps, r) ↦
        rw (r, start)
          (restart-Placed (core s) t _ a.task_id a.worker a.raw_message ps known unsettled named r j
            placed a.worker _ (ap some started) (unsettled, refl, refl))
  ]

module _ (a : BeginArgs) (s : Store) (j : String)
    (named : message_task_id a.raw_message ≡ some a.task_id)
    (started : a.started_tail.task_id ≡ a.task_id) (deferred : a.deferred_tail.task_id ≡ a.task_id)
    (placed : Placed (core s) j) where
  begin_budgeted-Placed :
      (key token : Option String) (t : Task)
      → s.tasks a.task_id ≡ some t
      → is_terminal t.outcome ≡ false
      → Placed (core (begin_budgeted a key token t s).1) j
  unfolding begin_budgeted take_lease core
  begin_budgeted-Placed none token t known live =
      start-Placed a s j named started deferred placed t known live
  begin_budgeted-Placed (some key) none t known live =
      start-Placed a s j named started deferred placed t known live
  begin_budgeted-Placed (some key) (some token) t known live = elim (Option-cases (s.leases key)) [
    | inl n ↦
        rw (n, begin_budgeted)
          (start-Placed a (take_lease a key token s) j named started deferred placed t known live)
    | inr (l, h) ↦
        rw (h, begin_budgeted) (defer-Placed a s j named started deferred placed t known live)
  ]

  begin_live-Placed :
      (t : Task)
      → s.tasks a.task_id ≡ some t
      → is_terminal t.outcome ≡ false
      → Placed (core (begin_live a t s).1) j
  unfolding begin_live
  begin_live-Placed t known live = elim (Bool-cases (is_late t.start_deadline_at s.now)) [
    | inl e ↦ rw e (skip_late-Placed a s j named started deferred placed t known live)
    | inr e ↦ rw e (elim (Bool-cases (is_superseded a.supersede s)) [
      | inl f ↦ rw f (cancel_superseded-Placed a s j named started deferred placed t known live)
      | inr f ↦ rw f (elim (Bool-cases (leb t.max_attempts t.attempt)) [
        | inl g ↦ rw g (fail_budget-Placed a s j named started deferred placed t known live)
        | inr g ↦ rw g (begin_budgeted-Placed a.lease_key a.lease_token t known live)
      ])
    ])
  ]

  pub begin_attempt-Placed : Placed (core (begin_attempt a s).1) j
  unfolding begin_attempt
  begin_attempt-Placed = elim (Option-cases (s.tasks a.task_id)) [
    | inl n ↦ rw (n, begin_attempt) placed
    | inr (t, e) ↦
        rw (e, begin_attempt)
          (elim (Bool-cases (is_terminal t.outcome)) [
            | inl o ↦ ground arith
            | inr o ↦ ground (arith, begin_live-Placed t e o)
          ])
  ]

-- The claim that goes back unstarted.
module _ (a : SettleArgs) (attempt : ℕ) (s : Store) (j : String)
    (named : message_task_id a.raw_message ≡ some a.task_id) (placed : Placed (core s) j) where
  return_current-Placed :
      (t : Task)
      → s.tasks a.task_id ≡ some t
      → is_terminal t.outcome ≡ false
      → Placed
          (core
            (or_not_found s (take_claimed a.worker a.raw_message s) (return_taken a attempt t)).1)
          j
  unfolding return_taken core
  return_current-Placed t known live =
      taken_cases (λ u. Placed (core u) j) a.worker a.raw_message _ s placed
        λ ps r.
          return-Placed (core s) t _ a.task_id a.worker a.raw_message ps known live named r j placed
            (live, refl, refl)

  pub return_unstarted-Placed : Placed (core (return_unstarted a attempt s).1) j
  unfolding return_unstarted return_current
  return_unstarted-Placed = elim (Option-cases (s.tasks a.task_id)) [
    | inl n ↦ rw (n, return_unstarted) placed
    | inr (t, e) ↦
        rw (e, return_unstarted)
          (elim (Bool-cases (is_terminal t.outcome)) [
            | inl o ↦ ground arith
            | inr o ↦ ground (arith, return_current-Placed t e o)
          ])
  ]
