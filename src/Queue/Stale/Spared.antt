-- ===== src/Queue/Stale/Spared.antt =====
-- `recover_stale_processing` of qtask_list/queue.py leaves living workers alone.
use mathlib.Core.Option.{Option, none, some}
use stockev_qtask_list.Base.{
  ℕ, zero, suc, String, true, ◌≡◌, ◌≢◌, refl, ◌∙◌, arith, List, [], ◌∷◌, str_dec, length,
  Option-cases, Bool-cases, inl, inr,
}
use stockev_qtask_list.Store.Messages.{Message, message_task_id}
use stockev_qtask_list.Store.{Store, count, put_task, add_deadline, pop_claimed}
use stockev_qtask_list.Queue.Recover.{relocate, recover_one, recover_loop, recover_processing}
use stockev_qtask_list.Queue.Abandoned.{claims_of}
use stockev_qtask_list.Queue.Stale.{recover_stale}

pop_claimed-claims_of :
    (w v : String) (ps : List (String × Message))
    → w ≢ v
    → (m : Message) (rest : List (String × Message)) → pop_claimed v ps ≡ some (m, rest)
    → claims_of w rest ≡ claims_of w ps
unfolding pop_claimed claims_of
pop_claimed-claims_of w v [] ne m rest e = ground arith
pop_claimed-claims_of w v ((u, x) ∷ ps) ne m rest e = elim (Option-cases (pop_claimed v ps)) [
  | inl n ↦ ground arith
  | inr ((k, qs), f) ↦ ground (arith, pop_claimed-claims_of w v ps ne k qs f)
]

relocate-Same :
    (id : Option String) (s : Store)
    → ((relocate id s).processing ≡ s.processing) × ((relocate id s).heartbeats ≡ s.heartbeats)
unfolding relocate put_task add_deadline
relocate-Same none s = (refl, refl)
relocate-Same (some id) s = (ground arith, ground arith)

-- The worker is alive after, and has the same list.
abbrev Spares : String → Store → Store → Type 0
Spares w s u = (claims_of w u.processing ≡ claims_of w s.processing) × (u.heartbeats w ≡ true)

module _ (w : String) where
  recover_one-Spares :
      (v : String) (s u : Store)
      → s.heartbeats w ≡ true
      → recover_one v true s ≡ some u
      → Spares w s u
  unfolding recover_one
  recover_one-Spares v s u alive e = elim (str_dec w v) [
    | yes same ↦ ground arith
    | no ne ↦ elim (Option-cases (pop_claimed v s.processing)) [
      | inl n ↦ ground arith
      | inr ((m, rest), f) ↦
          let t : Store = record s { ready = m ∷ s.ready; processing = rest } in
          (
            ground (
              arith,
              relocate-Same (message_task_id m) t,
              pop_claimed-claims_of w v s.processing ne m rest f,
            ),
            ground (arith, relocate-Same (message_task_id m) t),
          )
    ]
  ]

  Spares-trans : (s t u : Store) → Spares w s t → Spares w t u → Spares w s u
  Spares-trans s t u (a, b) (c, d) = (c ∙ a, d)

  recover_loop-Spares :
      (fuel : ℕ) (v : String) (s : Store)
      → s.heartbeats w ≡ true
      → Spares w s (recover_loop fuel v true s).1
  unfolding recover_loop
  recover_loop-Spares zero v s alive = (refl, alive)
  recover_loop-Spares (suc fuel) v s alive = elim (Option-cases (recover_one v true s)) [
    | inl n ↦ ground (arith, alive)
    | inr (u, e) ↦
        let one = recover_one-Spares v s u alive e in
        let end : Store = (recover_loop fuel v true u).1 in
        let more : Spares w s end = Spares-trans s u end one (recover_loop-Spares fuel v u one.1) in
        ground (arith, more)
  ]

  recover_processing-Spares :
      (v : String) (s : Store) → s.heartbeats w ≡ true → Spares w s (recover_processing v true s).1
  unfolding recover_processing count
  recover_processing-Spares v s alive =
      ground (arith, recover_loop-Spares (length s.processing) v s alive)

-- A recovery of stale workers leaves the list of every worker that has a heartbeat as it was, order
-- included, whichever workers it goes through.
pub recover_stale-spares :
    (w : String) (ws : List String) (s : Store)
    → s.heartbeats w ≡ true
    → claims_of w (recover_stale ws s).1.processing ≡ claims_of w s.processing
unfolding recover_stale
recover_stale-spares w [] s alive = refl
recover_stale-spares w (v ∷ ws) s alive = elim (Bool-cases (s.heartbeats v)) [
  | inl living ↦ ground (arith, recover_stale-spares w ws s alive)
  | inr dead ↦
      let one = recover_processing-Spares w v s alive in
      let u = (recover_processing v true s).1 in
      ground (arith, recover_stale-spares w ws u one.1 ∙ one.0)
]
