-- ===== src/Queue/Stale.antt =====
-- qtask_list/queue.py, `recover_stale_processing`, `renew_claim_lease` and `release_claim_lease`: what
-- a worker does for others' claims and for its own.
pub mod Spared
use mathlib.Core.Option.{none, some}
use stockev_qtask_list.Base.{ℕ, ◌+◌, String, Bool, true, List, [], ◌∷◌, if◌then◌else◌}
use stockev_qtask_list.Store.Messages.{Envelope}
use stockev_qtask_list.Store.{Store}
use stockev_qtask_list.State.Claims.{renew_lease, release_held}
use stockev_qtask_list.Queue.Config.{Config}
use stockev_qtask_list.Queue.Recover.{recover_processing}

-- The loop over the workers that `processing_keys` names.
unfoldable pub recover_stale : List String → Store → ℕ × Store
recover_stale [] s = (0, s)
recover_stale (w ∷ ws) s =
    let one : ℕ × Store = if s.heartbeats w then (0, s) else recover_processing w true s in
    let rest : ℕ × Store = recover_stale ws one.1 in (one.0 + rest.0, rest.1)

-- A claim without a key or a token has no lease to renew or release.
unfoldable pub renew_claim : Config → Envelope → Store → Bool × Store
renew_claim c e s = elim e.concurrency_key [
  | none ↦ (true, s)
  | some key ↦ elim e.lease_token [
    | none ↦ (true, s)
    | some token ↦ renew_lease key token c.lease_time s
  ]
]

unfoldable pub release_claim : Envelope → Store → Bool × Store
release_claim e s = elim e.concurrency_key [
  | none ↦ (true, s)
  | some key ↦ elim e.lease_token [ none ↦ (true, s) | some token ↦ release_held key token s ]
]
