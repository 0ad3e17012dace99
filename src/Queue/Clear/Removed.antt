-- ===== src/Queue/Clear/Removed.antt =====
-- `_cancel_or_purge` of qtask_list/queue.py takes the message away, whatever it does besides.
use mathlib.Core.Option
use mathlib.Core.Option.{Option, none, some}
use stockev_qtask_list.Base.{
  ℕ, String, Bool, false, ◌≡◌, refl, ap, arith, List, ◌&&◌, not, remove_one, Option-cases, inl, inr,
}
use stockev_qtask_list.Store.Messages.{Message, msg_dec}
use stockev_qtask_list.Store.Tasks.{Task}
use stockev_qtask_list.Store.{
  Store, zrem, lrem, take_claimed, count, put_task, drop_deadline, leave_retry_wait, release_lease,
  retire_payload,
}
use stockev_qtask_list.State.Purge.{
  Source, from_ready, from_delay, from_dlq, from_processing, take_from, is_active, cancel_or_purge,
  purge_taken, purge_owner, PurgeArgs, record_or_blank,
}
use stockev_qtask_list.Queue.Config.{Config}
use stockev_qtask_list.Queue.Identity.{migrate_identity, migrate_identity?}
use stockev_qtask_list.Queue.Clear.{
  Clearing, discard, purge_args, purge_known, purge_named, purge_message, purge_count,
}

-- The keys that hold messages, and the heartbeats.
pub record Shelves : Type 0 where
  pub ready : List Message
  pub delay : List (ℕ × Message)
  pub processing : List (String × Message)
  pub dlq : List Message
  pub heartbeats : String → Bool

unfoldable pub shelves : Store → Shelves
unfolding count put_task drop_deadline leave_retry_wait release_lease retire_payload purge_owner
shelves s = record {
  ready = s.ready;
  delay = s.delay;
  processing = s.processing;
  dlq = s.dlq;
  heartbeats = s.heartbeats;
}

migrate_identity-shelves :
    (key : Option String) (s : Store) → shelves (migrate_identity? key s) ≡ shelves s
unfolding shelves migrate_identity
migrate_identity-shelves none s = refl
migrate_identity-shelves (some k) s = ground arith

-- A removal reads the shelves only.
unfoldable pub take_shelf : Source → Message → Shelves → Option Shelves
take_shelf from_ready m h =
    Option.map (λ xs. record h { ready = xs }) (remove_one msg_dec m h.ready)
take_shelf from_delay m h = Option.map (λ zs. record h { delay = zs }) (zrem m h.delay)
take_shelf from_dlq m h = Option.map (λ xs. record h { dlq = xs }) (remove_one msg_dec m h.dlq)
take_shelf (from_processing w) m h =
    Option.map (λ ps. record h { processing = ps }) (lrem w m h.processing)

take_from-shelves :
    (source : Source) (m : Message) (s : Store)
    → Option.map shelves (take_from source m s) ≡ take_shelf source m (shelves s)
unfolding take_from take_shelf shelves take_claimed
take_from-shelves from_ready m s = ground arith
take_from-shelves from_delay m s = ground arith
take_from-shelves from_dlq m s = ground arith
take_from-shelves (from_processing w) m s = ground arith

-- Whether the script may act on the key.
abbrev pub MayClear : Clearing → Source → Store → Type 0
MayClear o source s = (not o.force_active && is_active source s) ≡ false

-- One message went, and the shelves are these.
pub record Gone (h : Shelves) (r : Option ℕ × Store) : Type 0 where
  pub counted : r.0 ≡ some 1
  pub left : shelves r.1 ≡ h

-- The removal finds the message in the store whose shelves say so.
found :
    (source : Source) (m : Message) (s : Store) (h : Shelves)
    → take_shelf source m (shelves s) ≡ some h
    → (u : Store) × (take_from source m s ≡ some u) × (shelves u ≡ h)
found source m s h e = elim (Option-cases (take_from source m s)) [
  | inl n ↦ ground (arith, take_from-shelves source m s)
  | inr (u, k) ↦ (u, k, ground (arith, take_from-shelves source m s))
]

purge_taken-shelves :
    (a : PurgeArgs) (t : Task) (u : Store)
    → (purge_count (purge_taken a t u).0 ≡ some 1) × (shelves (purge_taken a t u).1 ≡ shelves u)
unfolding purge_taken shelves
purge_taken-shelves a t u = (refl, refl)

cancel_or_purge-Gone :
    (a : PurgeArgs) (s : Store) (h : Shelves)
    → (not a.force_active && is_active a.source s) ≡ false
    → take_shelf a.source a.raw_message (shelves s) ≡ some h
    → Gone h (purge_count (cancel_or_purge a s).0, (cancel_or_purge a s).1)
unfolding cancel_or_purge
cancel_or_purge-Gone a s h may e =
    let (u, k, l) = found a.source a.raw_message s h e in
    rw (may, k) (ground (arith, purge_taken-shelves a (record_or_blank (s.tasks a.task_id)) u))

is_active-shelves :
    (source : Source) (s u : Store)
    → shelves u ≡ shelves s
    → is_active source u ≡ is_active source s
unfolding shelves
is_active-shelves from_ready s u e = refl
is_active-shelves from_delay s u e = refl
is_active-shelves from_dlq s u e = refl
is_active-shelves (from_processing w) s u e = ap (λ h. h.heartbeats w) e

module _ (c : Config) (o : Clearing) (source : Source) (m : Message) where
  purge_known-Gone :
      (id : String) (t : Task) (s : Store) (h : Shelves)
      → MayClear o source s
      → take_shelf source m (shelves s) ≡ some h
      → Gone h (purge_known c o source m id t s)
  unfolding purge_known purge_args
  purge_known-Gone id t s h may e =
      let u = migrate_identity? t.logical_key s in
      let same = migrate_identity-shelves t.logical_key s in
      cancel_or_purge-Gone (purge_args c o source m id t) u h
        (rw (is_active-shelves source s u same) may) (rw same e)

  discard-Gone :
      (s : Store) (h : Shelves)
      → take_shelf source m (shelves s) ≡ some h
      → Gone h (discard source m s)
  unfolding discard
  discard-Gone s h e =
      let (u, k, l) = found source m s h e in rw (k, discard) (record { counted = refl; left = l })

  pub purge_message-Gone :
      (s : Store) (h : Shelves)
      → MayClear o source s
      → take_shelf source m (shelves s) ≡ some h
      → Gone h (purge_message c o source m s)
  unfolding purge_message purge_named
  purge_message-Gone s h may e = grind (arith, discard-Gone s h e, purge_known-Gone)
