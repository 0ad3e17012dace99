-- ===== src/Queue/Recover/All.antt =====
-- `recover_processing_key` of qtask_list/queue.py gives back all that a dead worker held, in order.
use mathlib.Core.Option.{Option, none, some}
use mathlib.Core.List.{append_assoc}
use stockev_qtask_list.Base.{
  ℕ, zero, suc, ◌≤◌, ◌+◌, String, Bool, false, ◌≡◌, ◌≢◌, ◌&&◌, refl, arith, List, [], ◌∷◌, ◌++◌,
  ite, length-append, str_dec, length, Option-cases, inl, inr, ◌∙◌, sym,
}
use stockev_qtask_list.Store.Messages.{Message, message_task_id}
use stockev_qtask_list.Store.{Store, count, put_task, add_deadline, pop_claimed}
use stockev_qtask_list.Queue.Recover.{relocate, recover_one, recover_loop, recover_processing}

-- A worker's own processing list.
abbrev pub held_by : String → List (String × Message) → List Message
held_by w [] = []
held_by w ((v, m) ∷ ps) = let rest = held_by w ps in ite (str_dec w v) (m ∷ rest) rest

pop_claimed-none :
    (w : String) (ps : List (String × Message)) → pop_claimed w ps ≡ none → held_by w ps ≡ []
unfolding pop_claimed
pop_claimed-none w [] e = refl
pop_claimed-none w ((v, m) ∷ ps) e = ground (arith, pop_claimed-none w ps)

module _ (w : String) where
  pop_claimed-some :
      (ps rest : List (String × Message)) (m : Message)
      → pop_claimed w ps ≡ some (m, rest)
      → (held_by w ps ≡ held_by w rest ++ m ∷ []) × (length ps ≡ suc (length rest))
  unfolding pop_claimed
  pop_claimed-some [] rest m e = ground arith
  pop_claimed-some ((v, x) ∷ ps) rest m e = elim (Option-cases (pop_claimed w ps)) [
    | inl n ↦ ground (arith, pop_claimed-none w ps n)
    | inr ((y, qs), k) ↦ ground (arith, pop_claimed-some ps qs y k)
  ]

  pop_claimed-others :
      (v : String) (ps rest : List (String × Message)) (m : Message)
      → v ≢ w
      → pop_claimed w ps ≡ some (m, rest)
      → held_by v rest ≡ held_by v ps
  unfolding pop_claimed
  pop_claimed-others v [] rest m d e = ground arith
  pop_claimed-others v ((u, x) ∷ ps) rest m d e = elim (Option-cases (pop_claimed w ps)) [
    | inl n ↦ ground arith
    | inr ((y, qs), k) ↦ ground (arith, pop_claimed-others v ps qs y d k)
  ]

relocate-Same :
    (id : Option String) (s : Store)
    → ((relocate id s).ready ≡ s.ready)
      × ((relocate id s).processing ≡ s.processing)
      × ((relocate id s).heartbeats ≡ s.heartbeats)
unfolding relocate put_task add_deadline
relocate-Same none s = (refl, refl, refl)
relocate-Same (some id) s = (ground arith, ground arith, ground arith)

-- A worker that may be recovered: it has no heartbeat, or the caller does not ask for one.
abbrev pub MayRecover : Bool → String → Store → Type 0
MayRecover guarded w s = (guarded && s.heartbeats w) ≡ false

-- All of the worker's messages stand in the ready list.
abbrev pub Recovered : String → Store → ℕ × Store → Type 0
Recovered w s r =
    (held_by w r.1.processing ≡ [])
    × (r.1.ready ≡ held_by w s.processing ++ s.ready)
    × (r.0 ≡ length (held_by w s.processing))

-- One round, written as an equation.
module _ (w : String) (guarded : Bool) where
  recover_one-none :
      (s : Store)
      → MayRecover guarded w s
      → pop_claimed w s.processing ≡ none
      → recover_one w guarded s ≡ none
  unfolding recover_one
  recover_one-none s h e = ground arith

  next_store : Message → List (String × Message) → Store → Store
  next_store m rest s =
      relocate (message_task_id m) (record s { ready = m ∷ s.ready; processing = rest })

  recover_one-some :
      (s : Store) (m : Message) (rest : List (String × Message))
      → MayRecover guarded w s
      → pop_claimed w s.processing ≡ some (m, rest)
      → recover_one w guarded s ≡ some (next_store m rest s)
  unfolding recover_one next_store
  recover_one-some s m rest h e = ground arith

  next_store-Same :
      (s : Store) (m : Message) (rest : List (String × Message))
      → ((next_store m rest s).ready ≡ m ∷ s.ready)
        × ((next_store m rest s).processing ≡ rest)
        × ((next_store m rest s).heartbeats ≡ s.heartbeats)
  unfolding next_store
  next_store-Same s m rest =
      relocate-Same (message_task_id m) (record s { ready = m ∷ s.ready; processing = rest })

  recover_loop-none :
      (fuel : ℕ) (s : Store)
      → recover_one w guarded s ≡ none
      → recover_loop (suc fuel) w guarded s ≡ (0, s)
  unfolding recover_loop
  recover_loop-none fuel s e = rw (e, recover_loop) refl

  recover_loop-some :
      (fuel : ℕ) (s u : Store)
      → recover_one w guarded s ≡ some u
      → recover_loop (suc fuel) w guarded s
        ≡ ((recover_loop fuel w guarded u).0 + 1, (recover_loop fuel w guarded u).1)
  unfolding recover_loop
  recover_loop-some fuel s u e = rw (e, recover_loop) refl

  Recovered-next :
      (s u : Store) (m : Message) (r : ℕ × Store)
      → held_by w s.processing ≡ held_by w u.processing ++ m ∷ []
      → u.ready ≡ m ∷ s.ready
      → Recovered w u r
      → Recovered w s (r.0 + 1, r.1)
  Recovered-next s u m r held ready (none_left, in_order, counted) = (
    none_left,
    in_order ∙ rw (ready, held) (sym (append_assoc (held_by w u.processing) (m ∷ []) s.ready)),
    rw held (omega (arith, counted, length-append (held_by w u.processing) (m ∷ []))),
  )

  recover_loop-Recovered :
      (fuel : ℕ) (s : Store)
      → MayRecover guarded w s
      → length s.processing ≤ fuel
      → Recovered w s (recover_loop fuel w guarded s)
  unfolding recover_loop
  recover_loop-Recovered zero s h enough = elim (Option-cases (pop_claimed w s.processing)) [
    | inl e ↦ ground (arith, pop_claimed-none w s.processing e)
    | inr ((m, rest), e) ↦ ground (arith, pop_claimed-some w s.processing rest m e)
  ]
  recover_loop-Recovered (suc fuel) s h enough = elim (Option-cases (pop_claimed w s.processing)) [
    | inl e ↦
        rw (recover_loop-none fuel s (recover_one-none s h e))
          (ground (arith, pop_claimed-none w s.processing e))
    | inr ((m, rest), e) ↦
        let u = next_store m rest s in
        let k = next_store-Same s m rest in
        let q = pop_claimed-some w s.processing rest m e in
        rw (recover_loop-some fuel s u (recover_one-some s m rest h e)) (
          Recovered-next s u m (recover_loop fuel w guarded u) (rw k.1 q.0) k.0
            (recover_loop-Recovered fuel u (ground (arith, k)) (ground (arith, k, q))))
  ]

-- The recovery of a worker that has no heartbeat, or that is recovered by force, leaves nothing in
-- the worker's list; all that it held stands in the ready list, in the order of the worker's list
-- and to be taken after what was there, and its number is answered.
pub recover_processing-Recovered :
    (w : String) (guarded : Bool) (s : Store)
    → MayRecover guarded w s
    → Recovered w s (recover_processing w guarded s)
unfolding recover_processing count
recover_processing-Recovered w guarded s h =
    recover_loop-Recovered w guarded (length s.processing) s h (omega arith)
