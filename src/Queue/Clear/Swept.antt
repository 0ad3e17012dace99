-- ===== src/Queue/Clear/Swept.antt =====
-- `_cancel_or_purge` of qtask_list/queue.py, once for each message of a key.
use mathlib.Core.Option
use mathlib.Core.Option.{Option, none, some}
use stockev_qtask_list.Base.{
  ℕ, ◌+◌, false, ◌≡◌, ◌≢◌, refl, ap, ◌∙◌, subst, sym, arith, List, [], ◌∷◌, ◌&&◌, not, length,
  Bool-cases, inl, inr,
}
use stockev_qtask_list.Store.Messages.{Message}
use stockev_qtask_list.Store.{Store}
use stockev_qtask_list.State.Purge.{
  Source, from_ready, from_delay, from_dlq, from_processing, is_active,
}
use stockev_qtask_list.Queue.Config.{Config}
use stockev_qtask_list.Queue.Clear.{
  Clearing, purge_message, and_then, purge_each, messages_at, holds_any,
}
use stockev_qtask_list.Queue.Clear.Removed.{Shelves, shelves, MayClear, purge_message-Gone}
use stockev_qtask_list.Queue.Clear.Shelved.{at_shelf, size, Rest, takes_first}

pub messages_at-shelf : (k : Source) (s : Store) → messages_at k s ≡ at_shelf k (shelves s)
unfolding messages_at at_shelf shelves
messages_at-shelf from_ready s = refl
messages_at-shelf from_delay s = refl
messages_at-shelf from_dlq s = refl
messages_at-shelf (from_processing w) s = refl

-- The key is empty, and its messages are counted.
record Swept (source : Source) (n : ℕ) (h : Shelves) (r : Option ℕ × Store) : Type 0 where
  total : r.0 ≡ some n
  rest : Rest source [] h (shelves r.1)

pub is_active-heartbeats :
    (source : Source) (s u : Store)
    → (shelves u).heartbeats ≡ (shelves s).heartbeats
    → is_active source u ≡ is_active source s
unfolding shelves
is_active-heartbeats from_ready s u e = refl
is_active-heartbeats from_delay s u e = refl
is_active-heartbeats from_dlq s u e = refl
is_active-heartbeats (from_processing w) s u e = rw e refl

pub and_then-some :
    (r : Option ℕ × Store) (n : ℕ) (next : Store → Option ℕ × Store)
    → r.0 ≡ some n
    → and_then r next ≡ (Option.map (λ k. n + k) (next r.1).0, (next r.1).1)
unfolding and_then
and_then-some (none, u) n next e = ground arith
and_then-some (some k, u) n next e = ground arith

Rest-trans :
    (source : Source) (ms : List Message) (h u v : Shelves)
    → Rest source ms h u
    → Rest source [] u v
    → Rest source [] h v
Rest-trans source ms h u v p q = record {
  mine = q.mine;
  others = λ k d. q.others k d ∙ p.others k d;
  heartbeats_kept = q.heartbeats_kept ∙ p.heartbeats_kept;
  shrinks = omega (arith, p.shrinks, q.shrinks, ap length p.mine);
}

module _ (c : Config) (o : Clearing) (source : Source) where
  purge_each-Swept :
      (ms : List Message) (s : Store)
      → MayClear o source s
      → at_shelf source (shelves s) ≡ ms
      → Swept source (length ms) (shelves s) (purge_each c o source ms s)
  unfolding purge_each and_then
  purge_each-Swept [] s may e = record {
    total = refl;
    rest = record {
      mine = e;
      others = λ k d. refl;
      heartbeats_kept = refl;
      shrinks = ground arith;
    };
  }
  purge_each-Swept (m ∷ ms) s may e =
      let (h, k, r) = takes_first source m ms (shelves s) e in
      let g = purge_message-Gone c o source m s h may k in
      let v = (purge_message c o source m s).1 in
      let w =
        purge_each-Swept ms v
          (rw (is_active-heartbeats source s v (ap (λ x. x.heartbeats) g.left ∙ r.heartbeats_kept))
            may)
          (ap (λ x. at_shelf source x) g.left ∙ r.mine) in
      rw
        (and_then-some (purge_message c o source m s) 1 (λ u. purge_each c o source ms u) g.counted)
        (record {
          total = ap (λ x. Option.map (λ k. 1 + k) x) w.total ∙ ap (λ i. some i) (omega arith);
          rest = Rest-trans source ms (shelves s) h (shelves (purge_each c o source ms v).1) r (
              subst (λ x. Rest source [] x (shelves (purge_each c o source ms v).1)) g.left w.rest);
        })

-- The script acts on the key, or the key is empty.
abbrev pub MaySweep : Clearing → Source → Store → Type 0
MaySweep o k s = (holds_any (messages_at k s) && not o.force_active && is_active k s) ≡ false

-- The key is empty, and the others are as they were.
pub record Cleared (k : Source) (s : Store) (r : Option ℕ × Store) : Type 0 where
  pub removed_all : (n : ℕ) × (r.0 ≡ some n) × (size (shelves s) ≡ n + size (shelves r.1))
  pub emptied : messages_at k r.1 ≡ []
  pub kept : (j : Source) → j ≢ k → messages_at j r.1 ≡ messages_at j s
  pub beaten : (shelves r.1).heartbeats ≡ (shelves s).heartbeats

holds_none : (ms : List Message) → holds_any ms ≡ false → ms ≡ []
holds_none [] e = refl
holds_none (m ∷ ms) e = ground arith

pub purge_key-Cleared :
    (c : Config) (o : Clearing) (k : Source) (s : Store)
    → MaySweep o k s
    → Cleared k s (purge_each c o k (messages_at k s) s)
unfolding purge_each
purge_key-Cleared c o k s may = elim (Bool-cases (holds_any (messages_at k s))) [
  | inl some_held ↦
      let w =
        purge_each-Swept c o k (messages_at k s) s (ground arith) (sym (messages_at-shelf k s)) in
      record {
        removed_all = (
          length (messages_at k s),
          w.total,
          omega (arith, w.rest.shrinks, ap length (messages_at-shelf k s)),
        );
        emptied = messages_at-shelf k _ ∙ w.rest.mine;
        kept = λ j d. messages_at-shelf j _ ∙ w.rest.others j d ∙ sym (messages_at-shelf j s);
        beaten = w.rest.heartbeats_kept;
      }
  | inr none_held ↦ rw (holds_none (messages_at k s) none_held) (record {
    removed_all = (0, refl, omega arith);
    emptied = holds_none (messages_at k s) none_held;
    kept = λ j d. refl;
    beaten = refl;
  })
]
