-- ===== src/Admin/Deleting/Erased.antt =====
-- `delete_task` of qtask_list/admin.py leaves nothing of its task, and all of the others.
use mathlib.Core.Option.{Option, none, some}
use stockev_qtask_list.Base.{
  ℕ, String, true, false, ◌≡◌, ◌≢◌, refl, ap, sym, ◌∙◌, arith, List, [], ◌∷◌, ◌++◌, map, str_dec,
  Bool-cases, Option-cases, inl, inr, ◌⊎◌, ◌&&◌, if◌then◌else◌,
}
use stockev_qtask_list.Store.Messages.{Message}
use stockev_qtask_list.Store.Tasks.{Task, Owner, LegacyOwner}
use stockev_qtask_list.Store.{Store}
use stockev_qtask_list.State.Purge.{Source, from_ready, from_delay, from_dlq, from_processing}
use stockev_qtask_list.Queue.Config.{Config}
use stockev_qtask_list.Queue.Recover.All.{held_by}
use stockev_qtask_list.Queue.Clear.{messages_at}
use stockev_qtask_list.Queue.Clear.Removed.{shelves}
use stockev_qtask_list.Queue.Clear.Shelved.{at_shelf}
use stockev_qtask_list.Queue.Clear.Swept.{messages_at-shelf}
use stockev_qtask_list.Queue.Clear.Emptied.{named}
use stockev_qtask_list.Admin.Deleting.{
  own, holds_own, delete_own, task_keys, check_active, key_of, is_operational, erase, delete_record,
  delete_task, release_owner, release_legacy_owner, release_identities, without_task, is_indexed,
  Deletion,
}
use stockev_qtask_list.Admin.Deleting.Own.{strangers}
use stockev_qtask_list.Admin.Deleting.Gone.{MayFree, AllFree, Clean, AllFreed, delete_own-AllFreed}

holds_none : (id : String) (ms : List Message) → holds_own id ms ≡ false → own id ms ≡ []
unfolding own
holds_none id [] e = refl
holds_none id (m ∷ ms) e = ground (arith, holds_none id ms)

worker_free :
    (id w : String) (s : Store)
    → (s.heartbeats w && holds_own id (held_by w s.processing)) ≡ false
    → MayFree id (from_processing w) s
unfolding MayFree at_shelf shelves
worker_free id w s e = elim (Bool-cases (s.heartbeats w)) [
  | inl t ↦ inr (holds_none id (held_by w s.processing) (ground arith))
  | inr f ↦ inl f
]

workers_free :
    (id : String) (ws : List String) (ks : List Source) (s : Store)
    → check_active ws id s ≡ none
    → AllFree id ks s
    → AllFree id (map (λ w. from_processing w) ws ++ ks) s
unfolding check_active AllFree
workers_free id [] ks s e a = a
workers_free id (w ∷ ws) ks s e a =
    (worker_free id w s (ground arith), workers_free id ws ks s (ground arith) a)

keys_free :
    (id : String) (ws : List String) (s : Store)
    → check_active ws id s ≡ none
    → AllFree id (task_keys ws) s
unfolding AllFree MayFree task_keys
keys_free id ws s e =
    (inl refl, workers_free id ws (from_dlq ∷ from_delay ∷ []) s e (inl refl, (inl refl, tt)))

workers-Clean :
    (id w : String) (ws : List String) (ks : List Source) (s : Store)
    → Clean id (map (λ v. from_processing v) ws ++ ks) s
    → (Clean id ks s) × (named w ws ≡ true → own id (held_by w s.processing) ≡ [])
unfolding Clean named at_shelf shelves
workers-Clean id w [] ks s a = (a, λ e. ground arith)
workers-Clean id w (v ∷ ws) ks s a =
    let (b, f) = workers-Clean id w ws ks s a.1 in
    (b, λ e. elim (str_dec w v) [ yes p ↦ rw p a.0 | no d ↦ f (ground arith) ])

abbrev pub Disowned : Option Owner → String → Type 0
Disowned none id = Unit {0}
Disowned (some o) id = o.task_id ≢ id

abbrev pub LegacyDisowned : Option LegacyOwner → String → Type 0
LegacyDisowned none id = Unit {0}
LegacyDisowned (some l) id = l.owner_id ≢ id

-- Nothing of the task is left, and the others have all that they had.
pub record Erased (ws : List String) (id : String) (s u : Store) : Type 0 where
  pub ready : own id u.ready ≡ []
  pub delayed : own id (messages_at from_delay u) ≡ []
  pub dead : own id u.dlq ≡ []
  pub held : (w : String) → named w ws ≡ true → own id (held_by w u.processing) ≡ []
  pub unrecorded : u.tasks id ≡ none
  pub unindexed : is_indexed id u.history ≡ false
  pub disowned :
      (key : String)
      → key_of (s.tasks id) ≡ some key
      → Disowned (u.owners key) id × LegacyDisowned (u.legacy_owners key) id
  pub messages : (k : Source) → strangers id (messages_at k u) ≡ strangers id (messages_at k s)
  pub records : (j : String) → j ≢ id → u.tasks j ≡ s.tasks j

-- The task has a message again that no key showed: its record stays, and the others have all that
-- they had.
pub record MovedOn (id : String) (s u : Store) : Type 0 where
  pub operational : is_operational (u.tasks id) ≡ true
  pub messages : (k : Source) → strangers id (messages_at k u) ≡ strangers id (messages_at k s)
  pub records : (j : String) → j ≢ id → u.tasks j ≡ s.tasks j

-- Of an answer: the counts, or the ValueError.
abbrev pub Deleted : List String → String → Store → Option Deletion × Store → Type 0
Deleted ws id s (some d, u) = Erased ws id s u
Deleted ws id s (none, u) = (u ≡ s) ⊎ MovedOn id s u

without_task-is_indexed :
    (id : String) (xs : List (String × ℕ)) → is_indexed id (without_task id xs) ≡ false
unfolding is_indexed without_task
without_task-is_indexed id [] = refl
without_task-is_indexed id ((j, d) ∷ xs) = ground (arith, without_task-is_indexed id xs)

release_identities-Same :
    (key : Option String) (id : String) (s : Store)
    → let u = (release_identities key id s).1 in (shelves u ≡ shelves s) × (u.tasks ≡ s.tasks)
unfolding release_identities release_owner release_legacy_owner shelves
release_identities-Same none id s = (refl, refl)
release_identities-Same (some k) id s = (ground arith, ground arith)

release_identities-Disowned :
    (key : String) (id : String) (s : Store)
    → let u = (release_identities (some key) id s).1 in
      Disowned (u.owners key) id × LegacyDisowned (u.legacy_owners key) id
unfolding release_identities release_owner release_legacy_owner
release_identities-Disowned key id s = (ground arith, ground arith)

same_some : (i n : ℕ) → some i ≡ some n → i ≡ n
same_some i n e = ground (arith, e)

delete_record-some :
    (id : String) (t : Option Task) (r : Option ℕ × Store) (n : ℕ)
    → r.0 ≡ some n
    → delete_record id t r
      ≡ (if is_operational (r.1.tasks id) then (none, r.1) else erase id t n r.1)
unfolding delete_record
delete_record-some id t (none, u) n e = ground arith
delete_record-some id t (some i, u) n e =
    ap (λ k. if is_operational (u.tasks id) then (none, u) else erase id t k u) (same_some i n e)

module _ (ws : List String) (id : String) (s : Store) (r : Option ℕ × Store)
    (a : AllFreed id (task_keys ws) s r) where
  erase-Disowned :
      (key : String)
      → key_of (s.tasks id) ≡ some key
      → (n : ℕ)
      → let u = (erase id (s.tasks id) n r.1).1 in
        Disowned (u.owners key) id × LegacyDisowned (u.legacy_owners key) id
  unfolding erase
  erase-Disowned key e n = rw e (release_identities-Disowned key id r.1)

  erase-Deleted : (n : ℕ) → Deleted ws id s (erase id (s.tasks id) n r.1)
  unfolding erase Clean at_shelf shelves task_keys
  erase-Deleted n =
      let u = (release_identities (key_of (s.tasks id)) id r.1).1 in
      let v = (erase id (s.tasks id) n r.1).1 in
      let same = release_identities-Same (key_of (s.tasks id)) id r.1 in
      let clean = workers-Clean id "" ws (from_dlq ∷ from_delay ∷ []) r.1 a.clean.1 in
      record {
        ready = ap (λ x. own id (at_shelf from_ready x)) same.0 ∙ a.clean.0;
        delayed =
            ap (λ x. own id x) (messages_at-shelf from_delay v)
            ∙ ap (λ x. own id (at_shelf from_delay x)) same.0
            ∙ clean.0.1.0;
        dead = ap (λ x. own id (at_shelf from_dlq x)) same.0 ∙ clean.0.0;
        held = λ w e.
            ap (λ x. own id (at_shelf (from_processing w) x)) same.0
            ∙ (workers-Clean id w ws (from_dlq ∷ from_delay ∷ []) r.1 a.clean.1).1 e;
        unrecorded = ground arith;
        unindexed = without_task-is_indexed id u.history;
        disowned = λ key e. erase-Disowned key e n;
        messages = λ k.
            ap (λ x. strangers id x) (messages_at-shelf k v)
            ∙ ap (λ x. strangers id (at_shelf k x)) same.0
            ∙ a.spares.rest k
            ∙ ap (λ x. strangers id x) (sym (messages_at-shelf k s));
        records = λ j d. ground (arith, ap (λ f. f j) same.1, a.spares.records j d);
      }

  delete_record-Deleted : Deleted ws id s (delete_record id (s.tasks id) r)
  delete_record-Deleted =
      let (n, e) = a.counts in
      elim (Bool-cases (is_operational (r.1.tasks id))) [
        | inl t ↦
            rw (delete_record-some id (s.tasks id) r n e, t)
              (inr (record {
                operational = t;
                messages = λ k.
                    ap (λ x. strangers id x) (messages_at-shelf k r.1)
                    ∙ a.spares.rest k
                    ∙ ap (λ x. strangers id x) (sym (messages_at-shelf k s));
                records = a.spares.records;
              }))
        | inr f ↦ rw (delete_record-some id (s.tasks id) r n e, f) (erase-Deleted n)
      ]

-- A deletion that succeeds leaves no message of the task in the ready list, the delay set, the dead
-- letters and the lists of the named workers, no record and no entry of the history index, and at
-- the current and the oldest of the three generations of keys no owner of the record's logical key
-- that names the task; every message of another task stays, in its order, and every other record. A
-- deletion that is refused has changed nothing, or the task still has its record and a message by
-- that record's flag, and every message of another task and every other record stays.
pub delete_task-Deleted :
    (c : Config) (ws : List String) (id : String) (s : Store)
    → Deleted ws id s (delete_task c ws id s)
unfolding delete_task
delete_task-Deleted c ws id s = elim (Option-cases (check_active ws id s)) [
  | inl n ↦
      rw (n, delete_task)
        (delete_record-Deleted ws id s (delete_own c id (task_keys ws) s)
          (delete_own-AllFreed c id (task_keys ws) s (keys_free id ws s n)))
  | inr (w, e) ↦ rw (e, delete_task) (inl refl)
]
