-- ===== src/Queue/Replay/Renewed.antt =====
-- What REPLAY_TASK_LUA of qtask_list/state.py answers and leaves behind.
use mathlib.Core.Option.{Option, none, some}
use stockev_qtask_list.Base.{
  String, true, false, ◌≡◌, ◌≢◌, refl, [], ◌∷◌, ◌++◌, arith, Option-cases, Bool-cases, inl, inr,
  update, ◌+◌,
}
use stockev_qtask_list.Store.Tasks.{Task, in_history}
use stockev_qtask_list.Store.{Store}
use stockev_qtask_list.State.Replies.{Reply, enqueued}
use stockev_qtask_list.State.Enqueue.{
  OwnerInfo, find_owner, place, payload_is_expired, enqueued_record, next_generation,
  first_location,
}
use stockev_qtask_list.State.Replay.{
  ReplayArgs, source_outcome, is_replayable, foreign_owner, take_source, retire_source,
  replay_taken, replay_owned, replay_known, replay_task, refuse_replay,
}
use stockev_qtask_list.State.Ownership.Cores.{core}

-- The new record has the given fields, the source's is history and names the new task.
pub record Renewal (a : ReplayArgs) (s u : Store) : Type 0 where
  pub source : Task
  pub known : s.tasks a.old_task_id ≡ some source
  pub ended : is_replayable (source_outcome source) ≡ true
  pub unused : s.tasks a.task_id ≡ none
  pub task : Task
  pub recorded : u.tasks a.task_id ≡ some task
  pub wanted : task.intent ≡ a.fields.intent
  pub starts : task.attempt ≡ a.fields.attempt
  pub limited : task.max_attempts ≡ a.fields.max_attempts
  pub waits : task.outcome ≡ a.fields.outcome
  pub old : Task
  pub retired : u.tasks a.old_task_id ≡ some old
  pub shelved : old.location ≡ in_history
  pub kept : old.outcome ≡ source.outcome
  pub succeeded : old.replayed_by ≡ source.replayed_by ++ a.task_id ∷ []
  pub others : (j : String) → j ≢ a.task_id → j ≢ a.old_task_id → u.tasks j ≡ s.tasks j

abbrev pub ScriptResult : ReplayArgs → Store → Reply → Store → Type 0
ScriptResult a s (enqueued override generation location) u = Renewal a s u
ScriptResult a s r u = core u ≡ core s

abbrev entered : ReplayArgs → Option OwnerInfo → Store → Task
entered a owner s =
    enqueued_record a.fields (next_generation owner) none
      (first_location a.fields a.available_at s.now)

replay_taken-tasks :
    (a : ReplayArgs) (t : Task) (owner : Option OwnerInfo) (v : Store)
    → (replay_taken a t owner v).1.tasks
      ≡ update ((retire_source a t v).tasks) a.task_id (some (entered a owner v))
unfolding replay_taken core place
replay_taken-tasks a t owner v = ground arith

module _ (a : ReplayArgs) (t : Task) (s v : Store) (known : s.tasks a.old_task_id ≡ some t)
    (ended : is_replayable (source_outcome t) ≡ true) (unused : s.tasks a.task_id ≡ none)
    (same : v.tasks ≡ s.tasks) where
  differ : a.old_task_id ≢ a.task_id
  differ e = ground arith

  replay_taken-Renewal : (owner : Option OwnerInfo) → Renewal a s (replay_taken a t owner v).1
  unfolding core retire_source
  replay_taken-Renewal owner =
      let e = replay_taken-tasks a t owner v in
      record {
        source = t;
        known = known;
        ended = ended;
        unused = unused;
        task = entered a owner v;
        recorded = rw e (ground arith);
        wanted = refl;
        starts = refl;
        limited = refl;
        waits = refl;
        old = record t {
          operational_message = false;
          location = in_history;
          replayed_by = t.replayed_by ++ a.task_id ∷ [];
          updated_at = v.now;
          expire_at = some (v.now + a.ttl);
        };
        retired = rw e (ground (arith, differ));
        shelved = refl;
        kept = refl;
        succeeded = refl;
        others = λ j new old. rw e (ground arith);
      }

module _ (a : ReplayArgs) (t : Task) (s : Store) (known : s.tasks a.old_task_id ≡ some t)
    (ended : is_replayable (source_outcome t) ≡ true) (unused : s.tasks a.task_id ≡ none) where
  replay_owned-ScriptResult :
      (owner : Option OwnerInfo)
      → ScriptResult a s (replay_owned a t owner s).0 (replay_owned a t owner s).1
  unfolding replay_owned refuse_replay core take_source replay_taken
  replay_owned-ScriptResult owner = elim (Option-cases (foreign_owner a.old_task_id owner)) [
    | inr (o, e) ↦ rw (e, replay_owned) (ground arith)
    | inl n ↦
        rw (n, replay_owned)
          (elim (Option-cases (take_source a.source s)) [
            | inl m ↦ rw m refl
            | inr (u, e) ↦
                rw e (replay_taken-Renewal a t s u known ended unused (ground arith) owner)
          ])
  ]

-- The whole script.
pub replay_task-ScriptResult :
    (a : ReplayArgs) (s : Store) → ScriptResult a s (replay_task a s).0 (replay_task a s).1
unfolding replay_task replay_known
replay_task-ScriptResult a s = elim (Option-cases (s.tasks a.old_task_id)) [
  | inl n ↦ rw (n, replay_task) refl
  | inr (t, e) ↦
      rw (e, replay_task)
        (elim (Bool-cases (is_replayable (source_outcome t))) [
          | inr f ↦ rw f refl
          | inl y ↦ rw y (elim (Option-cases (s.tasks a.task_id)) [
            | inr (x, k) ↦ rw k refl
            | inl n ↦ rw n (elim (Bool-cases (payload_is_expired a.fields s)) [
              | inl p ↦ rw p refl
              | inr p ↦ rw p (replay_owned-ScriptResult a t s e y n (find_owner a.logical_key s))
            ])
          ])
        ])
]
