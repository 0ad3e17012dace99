-- ===== src/Queue/Clear/Emptied.antt =====
-- `clear` of qtask_list/queue.py removes each message of the keys that it visits.
use mathlib.Core.Option
use mathlib.Core.Option.{Option, none, some}
use stockev_qtask_list.Base.{
  ℕ, ◌+◌, String, Bool, true, false, ◌≡◌, refl, ap, ◌∙◌, sym, arith, List, [], ◌∷◌, ◌++◌, map, ◌&&◌,
  ◌||◌, not, ite, str_dec, if◌then◌else◌,
}
use stockev_qtask_list.Store.{Store}
use stockev_qtask_list.State.Purge.{Source, from_ready, from_delay, from_dlq, from_processing}
use stockev_qtask_list.Queue.Config.{Config}
use stockev_qtask_list.Queue.Clear.{
  Clearing, purge_each, messages_at, clear_keys, clear_sources, any_active, clear, selected,
}
use stockev_qtask_list.Queue.Clear.Removed.{shelves}
use stockev_qtask_list.Queue.Clear.Shelved.{size, source_dec}
use stockev_qtask_list.Queue.Clear.Swept.{
  MaySweep, Cleared, is_active-heartbeats, and_then-some, purge_key-Cleared,
}

-- One of the keys.
unfoldable among : Source → List Source → Bool
unfolding source_dec
among k [] = false
among k (x ∷ ks) = ite (source_dec k x) true (among k ks)

AllSweep : Clearing → List Source → Store → Type 0
AllSweep o [] s = Unit
AllSweep o (k ∷ ks) s = MaySweep o k s × AllSweep o ks s

-- A cleared key does not forbid another.
MaySweep-stays :
    (o : Clearing) (k j : Source) (s : Store) (r : Option ℕ × Store)
    → Cleared k s r
    → MaySweep o j s
    → MaySweep o j r.1
MaySweep-stays o k j s r w may = elim (source_dec j k) [
  | yes e ↦ rw (ap (λ x. messages_at x r.1) e, w.emptied) refl
  | no d ↦ rw (w.kept j d, is_active-heartbeats j s r.1 w.beaten) may
]

AllSweep-stays :
    (o : Clearing) (k : Source) (ks : List Source) (s : Store) (r : Option ℕ × Store)
    → Cleared k s r
    → AllSweep o ks s
    → AllSweep o ks r.1
unfolding AllSweep
AllSweep-stays o k [] s r w may = tt
AllSweep-stays o k (j ∷ ks) s r w may =
    (MaySweep-stays o k j s r w may.0, AllSweep-stays o k ks s r w may.1)

-- What a run over the keys leaves.
record AllCleared (ks : List Source) (s : Store) (r : Option ℕ × Store) : Type 0 where
  removed_all : (n : ℕ) × (r.0 ≡ some n) × (size (shelves s) ≡ n + size (shelves r.1))
  left : (j : Source) → messages_at j r.1 ≡ (if among j ks then [] else messages_at j s)

left_after :
    (k j : Source) (ks : List Source) (s : Store) (r : Option ℕ × Store)
    → Cleared k s r
    → (if among j ks then [] else messages_at j r.1)
      ≡ (if among j (k ∷ ks) then [] else messages_at j s)
unfolding among
left_after k j ks s r w = elim (source_dec j k) [
  | yes e ↦ ground (arith, ap (λ x. messages_at x r.1) e, w.emptied)
  | no d ↦ ground (arith, w.kept j d)
]

clear_keys-AllCleared :
    (c : Config) (o : Clearing) (ks : List Source) (s : Store)
    → AllSweep o ks s
    → AllCleared ks s (clear_keys c o ks s)
unfolding clear_keys AllSweep among
clear_keys-AllCleared c o [] s may = record {
  removed_all = (0, refl, omega arith);
  left = λ j. refl;
}
clear_keys-AllCleared c o (k ∷ ks) s may =
    let r = purge_each c o k (messages_at k s) s in
    let w = purge_key-Cleared c o k s may.0 in
    let v = clear_keys-AllCleared c o ks r.1 (AllSweep-stays o k ks s r w may.1) in
    let (n, e, z) = w.removed_all in
    let (n', e', z') = v.removed_all in
    rw (and_then-some r n (λ u. clear_keys c o ks u) e) (record {
      removed_all = (n + n', ap (λ x. Option.map (λ i. n + i) x) e', omega (arith, z, z'));
      left = λ j. v.left j ∙ left_after k j ks s r w;
    })

among-append : (k : Source) (xs ys : List Source) → among k (xs ++ ys) ≡ (among k xs || among k ys)
unfolding among
among-append k [] ys = refl
among-append k (x ∷ xs) ys = ground (arith, among-append k xs ys)

unfoldable pub named : String → List String → Bool
named w [] = false
named w (v ∷ vs) = ite (str_dec w v) true (named w vs)

among-workers :
    (k : Source) (ws : List String)
    → among k (map (λ w. from_processing w) ws)
      ≡ elim k [ from_processing w ↦ named w ws | _ ↦ false ]
unfolding among named source_dec
among-workers from_ready [] = refl
among-workers from_delay [] = refl
among-workers from_dlq [] = refl
among-workers (from_processing w) [] = refl
among-workers from_ready (v ∷ vs) = ground (arith, among-workers from_ready vs)
among-workers from_delay (v ∷ vs) = ground (arith, among-workers from_delay vs)
among-workers from_dlq (v ∷ vs) = ground (arith, among-workers from_dlq vs)
among-workers (from_processing w) (v ∷ vs) = ground (arith, among-workers (from_processing w) vs)

-- The keys that `clear` visits.
abbrev pub visits : Bool → Bool → List String → Source → Bool
visits include_dlq include_processing workers from_ready = true
visits include_dlq include_processing workers from_delay = true
visits include_dlq include_processing workers from_dlq = include_dlq
visits include_dlq include_processing workers (from_processing w) =
    include_processing && named w workers

among-sources :
    (d p : Bool) (ws : List String) (k : Source) → among k (clear_sources d p ws) ≡ visits d p ws k
unfolding among clear_sources source_dec
among-sources d p ws from_ready = refl
among-sources d true ws from_delay = ground (
  arith,
  among-append from_delay (map (λ w. from_processing w) ws)
      (from_delay ∷ selected d (from_dlq ∷ [])),
  among-workers from_delay ws,
)
among-sources d false ws from_delay = refl
among-sources d true ws from_dlq = ground (
  arith,
  among-append from_dlq (map (λ w. from_processing w) ws) (from_delay ∷ selected d (from_dlq ∷ [])),
  among-workers from_dlq ws,
)
among-sources d false ws from_dlq = ground arith
among-sources d true ws (from_processing w) = ground (
  arith,
  among-append (from_processing w) (map (λ v. from_processing v) ws)
      (from_delay ∷ selected d (from_dlq ∷ [])),
  among-workers (from_processing w) ws,
)
among-sources d false ws (from_processing w) = ground arith

sweep_append :
    (o : Clearing) (xs ys : List Source) (s : Store)
    → AllSweep o xs s
    → AllSweep o ys s
    → AllSweep o (xs ++ ys) s
unfolding AllSweep
sweep_append o [] ys s p q = q
sweep_append o (x ∷ xs) ys s p q = (p.0, sweep_append o xs ys s p.1 q)

sweep_workers :
    (o : Clearing) (ws : List String) (s : Store)
    → (not o.force_active && any_active ws s) ≡ false
    → AllSweep o (map (λ w. from_processing w) ws) s
unfolding AllSweep any_active messages_at
sweep_workers o [] s e = tt
sweep_workers o (w ∷ ws) s e = (ground arith, sweep_workers o ws s (ground arith))

sweep_sources :
    (o : Clearing) (d p : Bool) (ws : List String) (s : Store)
    → (p && not o.force_active && any_active ws s) ≡ false
    → AllSweep o (clear_sources d p ws) s
unfolding AllSweep clear_sources
sweep_sources o true true ws s e = (
  ground arith,
  sweep_append o (map (λ w. from_processing w) ws) (from_delay ∷ from_dlq ∷ []) s
      (sweep_workers o ws s (ground arith)) (ground arith, (ground arith, tt)),
)
sweep_sources o false true ws s e = (
  ground arith,
  sweep_append o (map (λ w. from_processing w) ws) (from_delay ∷ []) s
      (sweep_workers o ws s (ground arith)) (ground arith, tt),
)
sweep_sources o true false ws s e = (ground arith, (ground arith, (ground arith, tt)))
sweep_sources o false false ws s e = (ground arith, (ground arith, tt))

-- The visited keys are empty, the others as they were, and the answer counts what went.
pub record Emptied (d p : Bool) (ws : List String) (s : Store) (r : Option ℕ × Store) : Type 0 where
  pub counts : (n : ℕ) × (r.0 ≡ some n) × (size (shelves s) ≡ n + size (shelves r.1))
  pub left : (k : Source) → messages_at k r.1 ≡ (if visits d p ws k then [] else messages_at k s)

-- Unless it was asked to clear the claims of a worker with a heartbeat and was not forced, `clear`
-- raises nothing, empties the ready list and the delay set, the dead letters and the named workers'
-- lists if it was asked to, leaves every other list as it is, and answers how many messages went.
pub clear-Emptied :
    (c : Config) (o : Clearing) (d p : Bool) (ws : List String) (s : Store)
    → (p && not o.force_active && any_active ws s) ≡ false
    → Emptied d p ws s (clear c o d p ws s)
unfolding clear
clear-Emptied c o d p ws s may =
    let w = clear_keys-AllCleared c o (clear_sources d p ws) s (sweep_sources o d p ws s may) in
    rw may
      (record { counts = w.removed_all; left = λ k. rw (sym (among-sources d p ws k)) (w.left k) })
