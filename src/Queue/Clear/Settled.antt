-- ===== src/Queue/Clear/Settled.antt =====
-- What `clear` of qtask_list/queue.py leaves of a queue that anybody used.
use mathlib.Core.Option.{Option, none, some}
use stockev_qtask_list.Base.{
  ℕ, String, Bool, false, ◌≡◌, refl, ap, arith, ◌&&◌, not, Bool-cases, List, [], ◌∷◌, map,
  Option-cases, inl, inr, ◌⊎◌, ◌∙◌, sym, subst,
}
use stockev_qtask_list.Store.Messages.{Message, message_task_id}
use stockev_qtask_list.Store.Tasks.{Task, live, cancelled}
use stockev_qtask_list.Store.{Store, take_claimed}
use stockev_qtask_list.Store.Counting.{
  count_list, count_delay, count_claimed, remove_one-count, zrem-count, lrem-count,
}
use stockev_qtask_list.State.Purge.{
  Source, from_ready, from_delay, from_dlq, from_processing, take_from, PurgeArgs, purge_taken,
  purged_record, purged_outcome, cancel_fields, record_or_blank, cancel_or_purge,
}
use stockev_qtask_list.State.Ownership.Cores.{core, IsPlaced, expected_live}
use stockev_qtask_list.State.Ownership.Purging.{cancel_or_purge-Placed}
use stockev_qtask_list.State.Told.{Told, cancel_or_purge-Told}
use stockev_qtask_list.Queue.Config.{Config}
use stockev_qtask_list.Queue.Identity.{migrate_identity, migrate_identity?}
use stockev_qtask_list.Queue.Clear.{
  Clearing, discard, purge_args, purge_known, purge_named, purge_message, and_then, purge_each,
  messages_at, clear_keys, clear, clear_sources, any_active,
}
use stockev_qtask_list.Queue.Clear.Emptied.{clear-Emptied}
use stockev_qtask_list.System.{Reach, empty_store}
use stockev_qtask_list.System.Exactly.{exactly_once, migrate_identity-Placed}
use stockev_qtask_list.System.Told.{Reach-Told}

migrate_identity?-IsPlaced :
    (key : Option String) (s : Store) → IsPlaced s → IsPlaced (migrate_identity? key s)
migrate_identity?-IsPlaced none s p j = p j
migrate_identity?-IsPlaced (some k) s p j = migrate_identity-Placed k s j (p j)

-- A text of no task, or of a task without a record, is taken from no task.
discard-IsPlaced :
    (source : Source) (m : Message) (s : Store)
    → ((j : String) → message_task_id m ≡ some j → s.tasks j ≡ none)
    → IsPlaced s
    → IsPlaced (discard source m s).1
unfolding discard take_from core take_claimed
discard-IsPlaced from_ready m s unknown p j =
    ground (arith, remove_one-count j m s.ready, p j, unknown j)
discard-IsPlaced from_delay m s unknown p j = ground (arith, zrem-count j m s.delay, p j, unknown j)
discard-IsPlaced from_dlq m s unknown p j =
    ground (arith, remove_one-count j m s.dlq, p j, unknown j)
discard-IsPlaced (from_processing w) m s unknown p j =
    ground (arith, lrem-count j w m s.processing, p j, unknown j)

-- What each call of `clear` keeps, `clear` keeps.
module _ (c : Config) (o : Clearing) (P : Store → Type 0)
    (discards : (source : Source) (m : Message) (s : Store)
      → ((j : String) → message_task_id m ≡ some j → s.tasks j ≡ none)
      → P s
      → P (discard source m s).1)
    (purges : (source : Source) (m : Message) (id : String) (t : Task) (s : Store)
      → message_task_id m ≡ some id
      → s.tasks id ≡ some t
      → P s
      → P (purge_known c o source m id t s).1) where
  purge_named-keeps :
      (source : Source) (m : Message) (id : Option String) (s : Store)
      → message_task_id m ≡ id
      → P s
      → P (purge_named c o source m id s).1
  unfolding purge_named
  purge_named-keeps source m none s e p = discards source m s (λ j k. ground arith) p
  purge_named-keeps source m (some id) s e p = elim (Option-cases (s.tasks id)) [
    | inl n ↦ rw (n, purge_named) (discards source m s (λ j k. ground arith) p)
    | inr (t, k) ↦ rw (k, purge_named) (purges source m id t s e k p)
  ]

  and_then-keeps :
      (r : Option ℕ × Store) (next : Store → Option ℕ × Store)
      → P r.1
      → ((u : Store) → P u → P (next u).1)
      → P (and_then r next).1
  unfolding and_then
  and_then-keeps (none, u) next p q = p
  and_then-keeps (some n, u) next p q = q u p

  purge_each-keeps :
      (source : Source) (ms : List Message) (s : Store) → P s → P (purge_each c o source ms s).1
  unfolding purge_each purge_message
  purge_each-keeps source [] s p = p
  purge_each-keeps source (m ∷ ms) s p =
      and_then-keeps (purge_message c o source m s) (λ u. purge_each c o source ms u)
        (purge_named-keeps source m (message_task_id m) s refl p)
        (λ u q. purge_each-keeps source ms u q)

  clear_keys-keeps : (ks : List Source) (s : Store) → P s → P (clear_keys c o ks s).1
  unfolding clear_keys
  clear_keys-keeps [] s p = p
  clear_keys-keeps (k ∷ ks) s p =
      and_then-keeps (purge_each c o k (messages_at k s) s) (λ u. clear_keys c o ks u)
        (purge_each-keeps k (messages_at k s) s p) (λ u q. clear_keys-keeps ks u q)

  clear-keeps : (d p : Bool) (ws : List String) (s : Store) → P s → P (clear c o d p ws s).1
  unfolding clear
  clear-keeps d p ws s h = elim (Bool-cases (p && not o.force_active && any_active ws s)) [
    | inl e ↦ rw e h
    | inr e ↦ rw e (clear_keys-keeps (clear_sources d p ws) s h)
  ]

purge_known-IsPlaced :
    (c : Config) (o : Clearing) (source : Source) (m : Message) (id : String) (t : Task) (s : Store)
    → message_task_id m ≡ some id
    → IsPlaced s
    → IsPlaced (purge_known c o source m id t s).1
unfolding purge_known purge_args
purge_known-IsPlaced c o source m id t s e p j =
    cancel_or_purge-Placed (purge_args c o source m id t) (migrate_identity? t.logical_key s) e j
      (migrate_identity?-IsPlaced t.logical_key s p)

-- A record keeps its outcome, or a task without one is cancelled.
abbrev pub Cancels : Option Task → Option Task → Type 0
Cancels none r = r ≡ none
Cancels (some t) none = ⊥
Cancels (some t) (some t') =
    (t'.outcome ≡ t.outcome) ⊎ ((t.outcome ≡ live) × (t'.outcome ≡ cancelled))

abbrev Settles : Store → Store → Type 0
Settles s u = (j : String) → Told (u.tasks j) × Cancels (s.tasks j) (u.tasks j)

discard-tasks : (source : Source) (m : Message) (s : Store) → (discard source m s).1.tasks ≡ s.tasks
unfolding discard take_from core take_claimed
discard-tasks from_ready m s = ground arith
discard-tasks from_delay m s = ground arith
discard-tasks from_dlq m s = ground arith
discard-tasks (from_processing w) m s = ground arith

migrate_identity?-tasks :
    (key : Option String) (s : Store) → (migrate_identity? key s).tasks ≡ s.tasks
unfolding migrate_identity
migrate_identity?-tasks none s = refl
migrate_identity?-tasks (some k) s = ground arith

Cancels-refl : (r : Option Task) → Cancels r r
Cancels-refl none = refl
Cancels-refl (some t) = inl refl

Cancels-trans : (a b c : Option Task) → Cancels a b → Cancels b c → Cancels a c
Cancels-trans none b c h k = ground (arith, h, k)
Cancels-trans (some t) none c h k = absurd h
Cancels-trans (some t) (some u) none h k = absurd k
Cancels-trans (some t) (some u) (some v) (inl h) (inl k) = inl (k ∙ h)
Cancels-trans (some t) (some u) (some v) (inl h) (inr k) = inr (sym h ∙ k.0, k.1)
Cancels-trans (some t) (some u) (some v) (inr h) (inl k) = inr (h.0, k ∙ h.1)
Cancels-trans (some t) (some u) (some v) (inr h) (inr k) = inr (h.0, k.1)

cancel_or_purge-Cancels :
    (a : PurgeArgs) (t : Task) (s : Store) (j : String)
    → s.tasks a.task_id ≡ some t
    → Told (s.tasks j)
    → Cancels (s.tasks j) ((cancel_or_purge a s).1.tasks j)
unfolding cancel_or_purge purge_taken purged_record purged_outcome cancel_fields record_or_blank
    core take_from take_claimed
cancel_or_purge-Cancels a t s j known told = ground arith

discard-Settles :
    (s : Store) (source : Source) (m : Message) (u : Store)
    → ((j : String) → message_task_id m ≡ some j → u.tasks j ≡ none)
    → Settles s u
    → Settles s (discard source m u).1
discard-Settles s source m u unknown h j = rw (discard-tasks source m u) (h j)

purge_known-Settles :
    (c : Config) (o : Clearing) (s : Store) (source : Source) (m : Message) (id : String) (t : Task)
    (u : Store)
    → message_task_id m ≡ some id
    → u.tasks id ≡ some t
    → Settles s u
    → Settles s (purge_known c o source m id t u).1
unfolding purge_known purge_args
purge_known-Settles c o s source m id t u e k h j =
    let v = migrate_identity? t.logical_key u in
    let same : v.tasks ≡ u.tasks = migrate_identity?-tasks t.logical_key u in
    let a = purge_args c o source m id t in
    let told : Told (v.tasks j) = subst (λ f. Told (f j)) (sym same) (h j).0 in
    (
      cancel_or_purge-Told a v j told,
      Cancels-trans (s.tasks j) (v.tasks j) ((cancel_or_purge a v).1.tasks j)
          (subst (λ f. Cancels (s.tasks j) (f j)) (sym same) (h j).1)
          (cancel_or_purge-Cancels a t v j (ap (λ f. f id) same ∙ k) told),
    )

scored_none : (j : String) (zs : List (ℕ × Message)) → map (λ z. z.1) zs ≡ [] → count_delay j zs ≡ 0
scored_none j [] e = refl
scored_none j (z ∷ zs) e = ground arith

-- After `clear` of the pending messages of a queue, with or without its dead letters, and after
-- any interleaving of calls before, a task has no outcome exactly if a worker holds a message of
-- its own, and then one; every record is still there with the outcome that it had, or its task had
-- none and is cancelled.
pub cleared_live :
    (c : Config) (now : ℕ) (s : Store) (o : Clearing) (d : Bool) (j : String)
    → Reach c (empty_store now) s
    → (count_claimed j (clear c o d false [] s).1.processing
        ≡ expected_live ((clear c o d false [] s).1.tasks j))
      × Cancels (s.tasks j) ((clear c o d false [] s).1.tasks j)
unfolding core messages_at
cleared_live c now s o d j r =
    let u = (clear c o d false [] s).1 in
    let left = (clear-Emptied c o d false [] s refl).left in
    let placed =
      clear-keeps c o IsPlaced discard-IsPlaced
        (λ source m id t v e k p. purge_known-IsPlaced c o source m id t v e p) d false [] s
        (exactly_once c now s r) in
    let settled =
      clear-keeps c o (Settles s) (discard-Settles s) (purge_known-Settles c o s) d false [] s
        (λ i. (Reach-Told c now s i r, Cancels-refl (s.tasks i))) in
    (
      omega (
        arith,
        (placed j).lives,
        ap (λ ms. count_list j ms) (left from_ready),
        scored_none j u.delay (left from_delay),
      ),
      (settled j).1,
    )
