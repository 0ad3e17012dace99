-- ===== src/State/Claims.antt =====
-- The smaller scripts of qtask_list/state.py: leases, unstarted claims and manual moves.
use mathlib.Core.Option.{none, some}
use stockev_qtask_list.Base.{
  ℕ, ◌+◌, ◌-◌, String, Bool, true, false, [], ◌∷◌, ◌++◌, ite, str_dec, update, if◌then◌else◌,
  ℕ_discrete,
}
use stockev_qtask_list.Store.Messages.{no_delay}
use stockev_qtask_list.Store.Tasks.{Task, in_ready, in_processing, location_dec, Metric}
use stockev_qtask_list.Store.{Store, count, put_task, add_deadline, take_claimed, release_lease}
use stockev_qtask_list.State.Replies.{
  Reply, missing_task, attempt_changed, location_changed, returned, terminal, is_terminal,
  or_not_found,
}
use stockev_qtask_list.State.Settle.{SettleArgs}

-- RENEW_LEASE_LUA.
unfoldable pub renew_lease : String → String → ℕ → Store → Bool × Store
renew_lease key token time s = elim (s.leases key) [
  | none ↦ (false, s)
  | some l ↦
      ite (str_dec l.token token)
        (
          true,
          record s { leases = update s.leases key (some (record l { expire_at = s.now + time })) },
        )
        (false, s)
]

-- RELEASE_LEASE_LUA.
unfoldable pub release_held : String → String → Store → Bool × Store
release_held key token s = elim (s.leases key) [
  | none ↦ (false, s)
  | some l ↦
      ite (str_dec l.token token) (true, record s { leases = update s.leases key none }) (false, s)
]

-- RETURN_UNSTARTED_CLAIM_LUA: a claim whose handler never ran goes back to the right end of the
-- ready list and gives its attempt back. A started claim has attempt 1 at least.
unfoldable pub return_taken : SettleArgs → ℕ → Task → Store → Reply × Store
return_taken a attempt t s = (
  returned,
  count Metric.attempt_aborted 1 (
      release_lease a.lease_key a.lease_token (
        add_deadline t.start_deadline_at a.task_id (
          put_task a.task_id
            (record t {
              attempt = attempt - 1;
              location = in_ready;
              available_at = s.now;
              updated_at = s.now;
              delay_reason = no_delay;
            })
            (record s { ready = s.ready ++ a.raw_message ∷ [] })))),
)

unfoldable pub return_current : SettleArgs → ℕ → Task → Store → Reply × Store
return_current a attempt t s =
    if is_terminal t.outcome
    then (terminal t.outcome, s)
    else ite (ℕ_discrete t.attempt attempt)
        (ite (location_dec t.location in_processing)
          (or_not_found s (take_claimed a.worker a.raw_message s) (return_taken a attempt t))
          (location_changed, s))
        (attempt_changed, s)

unfoldable pub return_unstarted : SettleArgs → ℕ → Store → Reply × Store
return_unstarted a attempt s = elim (s.tasks a.task_id) [
  | none ↦ (missing_task, s)
  | some t ↦ ite (str_dec t.task_id a.task_id) (return_current a attempt t s) (missing_task, s)
]
