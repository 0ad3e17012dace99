-- ===== src/Admin/Deleting/Keys.antt =====
-- `delete_task` of qtask_list/admin.py takes the messages of one task from key after key.
use mathlib.Core.Option.{Option, none, some}
use stockev_qtask_list.Base.{
  String, true, ◌≡◌, ◌≢◌, refl, ap, ◌∙◌, arith, List, [], ◌∷◌, Option-cases, inl, inr,
}
use stockev_qtask_list.Store.Messages.{Message, message_task_id}
use stockev_qtask_list.Store.Tasks.{Task}
use stockev_qtask_list.Store.{
  Store, take_claimed, count, put_task, drop_deadline, leave_retry_wait, release_lease,
  retire_payload,
}
use stockev_qtask_list.State.Purge.{
  PurgeArgs, Source, from_ready, from_delay, from_dlq, from_processing, take_from, cancel_or_purge,
  purge_taken, purge_owner,
}
use stockev_qtask_list.Queue.Config.{Config}
use stockev_qtask_list.Queue.Identity.{migrate_identity, migrate_identity?}
use stockev_qtask_list.Queue.Clear.{
  Clearing, discard, purge_args, purge_known, purge_named, purge_message,
}
use stockev_qtask_list.Queue.Clear.Removed.{shelves}
use stockev_qtask_list.Queue.Clear.Shelved.{at_shelf, source_dec}
use stockev_qtask_list.Admin.Deleting.{is_own, own}
use stockev_qtask_list.Admin.Deleting.Own.{strangers, Loss}

-- A call that takes only this task's messages, and writes no other record.
pub record Spares (id : String) (s u : Store) : Type 0 where
  pub rest :
      (k : Source) → strangers id (at_shelf k (shelves u)) ≡ strangers id (at_shelf k (shelves s))
  pub fewer :
      (k : Source) → own id (at_shelf k (shelves s)) ≡ [] → own id (at_shelf k (shelves u)) ≡ []
  pub heartbeats_kept : (shelves u).heartbeats ≡ (shelves s).heartbeats
  pub records : (j : String) → j ≢ id → u.tasks j ≡ s.tasks j

pub Spares-refl : (id : String) (s : Store) → Spares id s s
Spares-refl id s = record {
  rest = λ k. refl;
  fewer = λ k e. e;
  heartbeats_kept = refl;
  records = λ j d. refl;
}

pub Spares-trans : (id : String) (s u v : Store) → Spares id s u → Spares id u v → Spares id s v
Spares-trans id s u v p q = record {
  rest = λ k. q.rest k ∙ p.rest k;
  fewer = λ k e. q.fewer k (p.fewer k e);
  heartbeats_kept = q.heartbeats_kept ∙ p.heartbeats_kept;
  records = λ j d. q.records j d ∙ p.records j d;
}

take_from-tasks :
    (source : Source) (m : Message) (s u : Store)
    → take_from source m s ≡ some u
    → u.tasks ≡ s.tasks
unfolding take_from take_claimed
take_from-tasks from_ready m s u e = ground arith
take_from-tasks from_delay m s u e = ground arith
take_from-tasks from_dlq m s u e = ground arith
take_from-tasks (from_processing w) m s u e = ground arith

migrate_identity-tasks :
    (key : Option String) (s : Store) → (migrate_identity? key s).tasks ≡ s.tasks
unfolding migrate_identity
migrate_identity-tasks none s = refl
migrate_identity-tasks (some k) s = ground arith

cancel_or_purge-tasks :
    (a : PurgeArgs) (s : Store) (j : String)
    → j ≢ a.task_id
    → (cancel_or_purge a s).1.tasks j ≡ s.tasks j
unfolding cancel_or_purge purge_taken count put_task drop_deadline leave_retry_wait release_lease
    retire_payload purge_owner
cancel_or_purge-tasks a s j d = elim (Option-cases (take_from a.source a.raw_message s)) [
  | inl n ↦ ground arith
  | inr (u, k) ↦ ground (arith, ap (λ f. f j) (take_from-tasks a.source a.raw_message s u k))
]

discard-tasks : (source : Source) (m : Message) (s : Store) → (discard source m s).1.tasks ≡ s.tasks
unfolding discard
discard-tasks source m s = elim (Option-cases (take_from source m s)) [
  | inl n ↦ ground arith
  | inr (u, k) ↦ ground (arith, take_from-tasks source m s u k)
]

purge_known-tasks :
    (c : Config) (o : Clearing) (k : Source) (m : Message) (t : Task) (s : Store) (id j : String)
    → j ≢ id
    → (purge_known c o k m id t s).1.tasks j ≡ s.tasks j
unfolding purge_known purge_args
purge_known-tasks c o k m t s id j d =
    cancel_or_purge-tasks (purge_args c o k m id t) (migrate_identity? t.logical_key s) j d
    ∙ ap (λ f. f j) (migrate_identity-tasks t.logical_key s)

purge_named-tasks :
    (c : Config) (o : Clearing) (k : Source) (m : Message) (s : Store) (id j : String)
    → j ≢ id
    → (purge_named c o k m (some id) s).1.tasks j ≡ s.tasks j
unfolding purge_named
purge_named-tasks c o k m s id j d = elim (Option-cases (s.tasks id)) [
  | inl n ↦ rw (n, purge_named) (ap (λ f. f j) (discard-tasks k m s))
  | inr (t, e) ↦ rw (e, purge_named) (purge_known-tasks c o k m t s id j d)
]

pub purge_message-tasks :
    (c : Config) (o : Clearing) (k : Source) (m : Message) (s : Store) (id j : String)
    → message_task_id m ≡ some id
    → j ≢ id
    → (purge_message c o k m s).1.tasks j ≡ s.tasks j
unfolding purge_message
purge_message-tasks c o k m s id j e d = rw e (purge_named-tasks c o k m s id j d)

pub own_named : (id : String) (m : Message) → is_own id m ≡ true → message_task_id m ≡ some id
own_named id m e = ground arith

module _ (id : String) (k : Source) (ms : List Message) (s u : Store)
    (loss : Loss k id ms (shelves s) (shelves u)) where
  Loss-rest :
      (j : Source) → strangers id (at_shelf j (shelves u)) ≡ strangers id (at_shelf j (shelves s))
  Loss-rest j = elim (source_dec j k) [
    | yes e ↦ rw e loss.rest
    | no d ↦ ap (λ x. strangers id x) (loss.others j d)
  ]

  pub Loss-Spares :
      (m : Message)
      → own id (at_shelf k (shelves s)) ≡ m ∷ ms
      → ((j : String) → j ≢ id → u.tasks j ≡ s.tasks j)
      → Spares id s u
  Loss-Spares m first records = record {
    rest = Loss-rest;
    fewer = λ j e. elim (source_dec j k) [
      | yes p ↦ ground (arith, ap (λ x. own id (at_shelf x (shelves s))) p)
      | no d ↦ ap (λ x. own id x) (loss.others j d) ∙ e
    ];
    heartbeats_kept = loss.heartbeats_kept;
    records = records;
  }
