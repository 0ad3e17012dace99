-- ===== src/Admin/Deleting/Gone.antt =====
-- `delete_task` of qtask_list/admin.py frees the keys of a queue from one task, key after key.
use mathlib.Core.Option
use mathlib.Core.Option.{Option, none, some}
use stockev_qtask_list.Base.{
  ℕ, ◌+◌, String, false, ◌≡◌, refl, ap, sym, ◌∙◌, subst, List, [], ◌∷◌, inl, inr, ◌⊎◌,
}
use stockev_qtask_list.Store.Messages.{Message}
use stockev_qtask_list.Store.{Store}
use stockev_qtask_list.State.Purge.{Source, is_active}
use stockev_qtask_list.Queue.Config.{Config}
use stockev_qtask_list.Queue.Clear.{purge_message, purge_each, messages_at}
use stockev_qtask_list.Queue.Clear.Removed.{shelves, purge_message-Gone}
use stockev_qtask_list.Queue.Clear.Shelved.{at_shelf}
use stockev_qtask_list.Queue.Clear.Swept.{is_active-heartbeats, and_then-some, messages_at-shelf}
use stockev_qtask_list.Admin.Deleting.{own, delete_own, releasing}
use stockev_qtask_list.Admin.Deleting.Own.{takes_own, own_first, Loss}
use stockev_qtask_list.Admin.Deleting.Keys.{
  Spares, Spares-refl, Spares-trans, purge_message-tasks, own_named, Loss-Spares,
}

-- The key's messages of the task are gone and counted.
record Freed (id : String) (k : Source) (s : Store) (r : Option ℕ × Store) : Type 0 where
  counts : (n : ℕ) × (r.0 ≡ some n)
  freed : own id (at_shelf k (shelves r.1)) ≡ []
  spares : Spares id s r.1

module _ (c : Config) (id : String) (k : Source) where
  purge_own-Freed :
      (ms : List Message) (s : Store)
      → is_active k s ≡ false
      → own id (at_shelf k (shelves s)) ≡ ms
      → Freed id k s (purge_each c releasing k ms s)
  unfolding purge_each
  purge_own-Freed [] s may e = record { counts = (0, refl); freed = e; spares = Spares-refl id s }
  purge_own-Freed (m ∷ ms) s may e =
      let (h, t, l) = takes_own k id m ms (shelves s) e in
      let g = purge_message-Gone c releasing k m s h may t in
      let v = (purge_message c releasing k m s).1 in
      let loss = subst (λ x. Loss k id ms (shelves s) x) (sym g.left) l in
      let known = own_named id m (own_first id m ms (at_shelf k (shelves s)) e) in
      let spares =
        Loss-Spares id k ms s v loss m e
          (λ j d. purge_message-tasks c releasing k m s id j known d) in
      let w =
        purge_own-Freed ms v (is_active-heartbeats k s v spares.heartbeats_kept ∙ may) loss.mine in
      let (n, q) = w.counts in
      rw
        (and_then-some (purge_message c releasing k m s) 1 (λ u. purge_each c releasing k ms u)
          g.counted)
        (record {
          counts = (1 + n, ap (λ x. Option.map (λ i. 1 + i) x) q);
          freed = w.freed;
          spares = Spares-trans id s v (purge_each c releasing k ms v).1 spares w.spares;
        })

-- The worker of the key is not active, or does not have the task.
unfoldable pub MayFree : String → Source → Store → Type 0
MayFree id k s = (is_active k s ≡ false) ⊎ (own id (at_shelf k (shelves s)) ≡ [])

free_key-Freed :
    (c : Config) (id : String) (k : Source) (s : Store)
    → MayFree id k s
    → Freed id k s (purge_each c releasing k (own id (messages_at k s)) s)
unfolding purge_each MayFree
free_key-Freed c id k s (inl idle) =
    purge_own-Freed c id k (own id (messages_at k s)) s idle
      (ap (λ x. own id x) (sym (messages_at-shelf k s)))
free_key-Freed c id k s (inr e) =
    rw (ap (λ x. own id x) (messages_at-shelf k s) ∙ e)
      (record { counts = (0, refl); freed = e; spares = Spares-refl id s })

unfoldable pub AllFree : String → List Source → Store → Type 0
AllFree id [] s = Unit
AllFree id (k ∷ ks) s = MayFree id k s × AllFree id ks s

unfoldable pub Clean : String → List Source → Store → Type 0
Clean id [] s = Unit
Clean id (k ∷ ks) s = (own id (at_shelf k (shelves s)) ≡ []) × Clean id ks s

module _ (id : String) (s u : Store) (p : Spares id s u) where
  MayFree-stays : (k : Source) → MayFree id k s → MayFree id k u
  unfolding MayFree
  MayFree-stays k (inl a) = inl (is_active-heartbeats k s u p.heartbeats_kept ∙ a)
  MayFree-stays k (inr e) = inr (p.fewer k e)

  AllFree-stays : (ks : List Source) → AllFree id ks s → AllFree id ks u
  unfolding AllFree
  AllFree-stays [] a = tt
  AllFree-stays (k ∷ ks) a = (MayFree-stays k a.0, AllFree-stays ks a.1)

-- All keys are free of the task.
pub record AllFreed (id : String) (ks : List Source) (s : Store) (r : Option ℕ × Store)
    : Type 0 where
  pub counts : (n : ℕ) × (r.0 ≡ some n)
  pub clean : Clean id ks r.1
  pub spares : Spares id s r.1

pub delete_own-AllFreed :
    (c : Config) (id : String) (ks : List Source) (s : Store)
    → AllFree id ks s
    → AllFreed id ks s (delete_own c id ks s)
unfolding delete_own AllFree Clean
delete_own-AllFreed c id [] s a = record {
  counts = (0, refl);
  clean = tt;
  spares = Spares-refl id s;
}
delete_own-AllFreed c id (k ∷ ks) s a =
    let r = purge_each c releasing k (own id (messages_at k s)) s in
    let w = free_key-Freed c id k s a.0 in
    let v = delete_own-AllFreed c id ks r.1 (AllFree-stays id s r.1 w.spares ks a.1) in
    let (n, e) = w.counts in
    let (i, q) = v.counts in
    rw (and_then-some r n (λ u. delete_own c id ks u) e) (record {
      counts = (n + i, ap (λ x. Option.map (λ b. n + b) x) q);
      clean = (v.spares.fewer k w.freed, v.clean);
      spares = Spares-trans id s r.1 (delete_own c id ks r.1).1 w.spares v.spares;
    })
