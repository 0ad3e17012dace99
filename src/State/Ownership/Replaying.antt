-- ===== src/State/Ownership/Replaying.antt =====
-- REPLAY_TASK_LUA of qtask_list/state.py keeps the exactly-once invariant.
use mathlib.Core.Option.{Option, none, some}
use stockev_qtask_list.Base.{
  String, true, false, ◌≡◌, refl, arith, Option-cases, Bool-cases, inl, inr, ◌&&◌, remove_one, ltb,
}
use stockev_qtask_list.Store.Messages.{Message, message_task_id, msg_dec}
use stockev_qtask_list.Store.Tasks.{Task, Outcome, in_history}
use stockev_qtask_list.Store.{Store}
use stockev_qtask_list.State.Replies.{Reply, source_not_found, is_terminal}
use stockev_qtask_list.State.Enqueue.{OwnerInfo, find_owner, place, is_some}
use stockev_qtask_list.State.Replay.{
  ReplayArgs, foreign_owner, take_source, retire_source, replay_taken, replay_owned, replay_known,
  replay_task, refuse_replay,
}
use stockev_qtask_list.State.Ownership.Cores.{core, Placed, is_dead}
use stockev_qtask_list.State.Ownership.Entering.{
  enter_ready-Placed, enter_delay-Placed, retire-Placed, unbury-Placed,
}

-- What the caller has read of the source: it is finished, and its dead letter is named if it has one.
pub record SourceIsKnown (a : ReplayArgs) (t : Task) : Type 0 where
  pub over : is_terminal t.outcome ≡ true
  pub unnamed : a.source ≡ none → is_dead t.outcome t.location ≡ 0
  pub named_source : (m : Message) → a.source ≡ some m → message_task_id m ≡ some a.old_task_id

history_is_dead : (o : Outcome) → is_dead o in_history ≡ 0
history_is_dead o = ground arith

module _ (a : ReplayArgs) (t : Task) (j : String)
    (named : message_task_id a.message ≡ some a.task_id)
    (fresh : is_terminal a.fields.outcome ≡ false) (lasting : a.fields.expire_at ≡ none)
    (over : is_terminal t.outcome ≡ true) (s : Store) (known : s.tasks a.old_task_id ≡ some t)
    (unknown : s.tasks a.task_id ≡ none) where
  still_unknown : (retire_source a t s).tasks a.task_id ≡ none
  unfolding core retire_source
  still_unknown = ground arith

  -- The source is retired; the new task enters as any other.
  replay_taken-Placed :
      (owner : Option OwnerInfo)
      → Placed (core (retire_source a t s)) j
      → Placed (core (replay_taken a t owner s).1) j
  unfolding replay_taken core place
  replay_taken-Placed owner retired =
      elim (Bool-cases (is_some a.fields.not_before_at && ltb s.now a.available_at)) [
        | inl e ↦ rw e (
            enter_delay-Placed (core (retire_source a t s)) _ a.task_id a.message still_unknown
              named fresh lasting j retired a.available_at)
        | inr e ↦ rw e (
            enter_ready-Placed (core (retire_source a t s)) _ a.task_id a.message still_unknown
              named fresh lasting j retired)
      ]

module _ (a : ReplayArgs) (t : Task) (j : String)
    (named : message_task_id a.message ≡ some a.task_id)
    (fresh : is_terminal a.fields.outcome ≡ false) (lasting : a.fields.expire_at ≡ none)
    (source : SourceIsKnown a t) (s : Store) (known : s.tasks a.old_task_id ≡ some t)
    (placed : Placed (core s) j) where
  taken-Placed :
      (unknown : s.tasks a.task_id ≡ none) (owner : Option OwnerInfo) (from : Option Message)
      → a.source ≡ from
      → Placed
          (core
            (elim (take_source from s) as (λ r. Reply × Store) [
              | none ↦ (source_not_found, s)
              | some taken ↦ replay_taken a t owner taken
            ]).1)
          j
  unfolding take_source core retire_source
  taken-Placed unknown owner none e =
      replay_taken-Placed a t j named fresh lasting source.over s known unknown owner (
        retire-Placed (core s) t _ a.old_task_id known source.over source.over
          (history_is_dead t.outcome) j placed (source.unnamed e))
  taken-Placed unknown owner (some m) e = elim (Option-cases (remove_one msg_dec m s.dlq)) [
    | inl n ↦ rw n placed
    | inr (xs, r) ↦ rw r (
        replay_taken-Placed a t j named fresh lasting source.over (record s { dlq = xs }) known
          unknown owner
          (unbury-Placed (core s) t _ a.old_task_id known source.over source.over
            (history_is_dead t.outcome) j placed m xs (source.named_source m e) r))
  ]

  replay_owned-Placed :
      s.tasks a.task_id ≡ none
      → (owner : Option OwnerInfo) → Placed (core (replay_owned a t owner s).1) j
  unfolding replay_owned refuse_replay core
  replay_owned-Placed unknown owner = elim (Option-cases (foreign_owner a.old_task_id owner)) [
    | inl n ↦ rw (n, replay_owned) (taken-Placed unknown owner a.source refl)
    | inr (o, e) ↦ rw (e, replay_owned) (ground arith)
  ]

  replay_known-Placed : Placed (core (replay_known a t s).1) j
  unfolding replay_known
  replay_known-Placed = elim (Option-cases (s.tasks a.task_id)) [
    | inl n ↦ ground (arith, replay_owned-Placed n (find_owner a.logical_key s))
    | inr (u, e) ↦ ground arith
  ]

-- The replay script, for arguments that name the new task and a source that the caller has read.
pub replay_task-Placed :
    (a : ReplayArgs) (s : Store)
    → message_task_id a.message ≡ some a.task_id
    → is_terminal a.fields.outcome ≡ false
    → a.fields.expire_at ≡ none
    → ((t : Task) → s.tasks a.old_task_id ≡ some t → SourceIsKnown a t)
    → (j : String) → Placed (core s) j
    → Placed (core (replay_task a s).1) j
unfolding replay_task
replay_task-Placed a s named fresh lasting source j placed =
    elim (Option-cases (s.tasks a.old_task_id)) [
      | inl n ↦ rw (n, replay_task) placed
      | inr (t, e) ↦
          rw (e, replay_task)
            (replay_known-Placed a t j named fresh lasting (source t e) s e placed)
    ]
