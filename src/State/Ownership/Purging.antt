-- ===== src/State/Ownership/Purging.antt =====
-- CANCEL_OR_PURGE_LUA of qtask_list/state.py and the expiry of records keep the exactly-once
-- invariant.
use mathlib.Core.Option.{none, some}
use stockev_qtask_list.Base.{ℕ, String, true, ◌≡◌, arith, update, Option-cases, inl, inr}
use stockev_qtask_list.Store.Messages.{Message, message_task_id}
use stockev_qtask_list.Store.Tasks.{Task}
use stockev_qtask_list.Store.{Store, take_claimed}
use stockev_qtask_list.Store.Counting.{remove_one-count, zrem-count, lrem-count}
use stockev_qtask_list.State.Replies.{is_terminal, or_not_found}
use stockev_qtask_list.State.Purge.{
  PurgeArgs, Source, from_ready, from_delay, from_dlq, from_processing, take_from, purged_record,
  purge_taken, record_or_blank, cancel_or_purge,
}
use stockev_qtask_list.State.Ownership.Cores.{core, Placed, is_dead, IsPlaced}

-- A purge takes the message out of whatever holds it, and the record becomes history.
module _ (s : Store) (m : Message) (id : String) (named : message_task_id m ≡ some id) (t t' : Task)
    (known : s.tasks id ≡ some t) (over : is_terminal t'.outcome ≡ true)
    (gone : is_dead t'.outcome t'.location ≡ 0) (j : String) (placed : Placed (core s) j) where
  take_from-Placed :
      (source : Source) (u : Store)
      → take_from source m s ≡ some u
      → Placed (record (core u) { tasks = update (core u).tasks id (some t') }) j
  unfolding take_from core take_claimed
  take_from-Placed from_ready u e = ground (arith, remove_one-count j m s.ready)
  take_from-Placed from_delay u e = ground (arith, zrem-count j m s.delay)
  take_from-Placed from_dlq u e = ground (arith, remove_one-count j m s.dlq)
  take_from-Placed (from_processing w) u e = ground (arith, lrem-count j w m s.processing)

module _ (a : PurgeArgs) (s : Store) (named : message_task_id a.raw_message ≡ some a.task_id)
    (j : String) (placed : IsPlaced s) where
  -- No message stands in a list for a task without a record.
  unknown_not_taken :
      s.tasks a.task_id ≡ none → (source : Source) → take_from source a.raw_message s ≡ none
  unfolding take_from take_claimed core
  unknown_not_taken n from_ready =
      ground (arith, placed a.task_id, remove_one-count a.task_id a.raw_message s.ready)
  unknown_not_taken n from_delay =
      ground (arith, placed a.task_id, zrem-count a.task_id a.raw_message s.delay)
  unknown_not_taken n from_dlq =
      ground (arith, placed a.task_id, remove_one-count a.task_id a.raw_message s.dlq)
  unknown_not_taken n (from_processing w) =
      ground (arith, placed a.task_id, lrem-count a.task_id w a.raw_message s.processing)

  purged_over : (now : ℕ) (t : Task) → is_terminal (purged_record a now t).outcome ≡ true
  unfolding purged_record
  purged_over now t = ground arith

  purged_gone :
      (now : ℕ) (t : Task)
      → is_dead (purged_record a now t).outcome (purged_record a now t).location ≡ 0
  unfolding purged_record
  purged_gone now t = ground arith

  purge_known-Placed :
      (t : Task)
      → s.tasks a.task_id ≡ some t
      → Placed (core (or_not_found s (take_from a.source a.raw_message s) (purge_taken a t)).1) j
  unfolding purge_taken core
  purge_known-Placed t k = elim (Option-cases (take_from a.source a.raw_message s)) [
    | inl n ↦ rw n (placed j)
    | inr (u, e) ↦ rw e (
        take_from-Placed s a.raw_message a.task_id named t (purged_record a u.now t) k
          (purged_over u.now t) (purged_gone u.now t) j (placed j) a.source u e)
  ]

  purge_read-Placed :
      Placed
        (core
          (or_not_found s
            (take_from a.source a.raw_message s)
            (purge_taken a (record_or_blank (s.tasks a.task_id)))).1)
        j
  unfolding record_or_blank
  purge_read-Placed = elim (Option-cases (s.tasks a.task_id)) [
    | inl n ↦ rw (n, unknown_not_taken n a.source) (placed j)
    | inr (t, k) ↦ rw (k, record_or_blank) (purge_known-Placed t k)
  ]

  pub cancel_or_purge-Placed : Placed (core (cancel_or_purge a s).1) j
  unfolding cancel_or_purge
  cancel_or_purge-Placed = ground (arith, purge_read-Placed, placed j)
