-- ===== src/Queue/Clear/Shelved.antt =====
-- Taking the first message of a key of the queue, for `clear` of qtask_list/queue.py.
use mathlib.Core.Option
use mathlib.Core.Option.{Option, some}
use stockev_qtask_list.Base.{
  ℕ, suc, ◌+◌, String, ◌≡◌, ◌≢◌, refl, ap, arith, List, [], ◌∷◌, map, str_dec, remove_one, length,
}
use stockev_qtask_list.Store.Messages.{Message}
use stockev_qtask_list.Store.{zrem, lrem}
use stockev_qtask_list.State.Purge.{Source, from_ready, from_delay, from_dlq, from_processing}
use stockev_qtask_list.Queue.Recover.All.{held_by}
use stockev_qtask_list.Queue.Clear.Removed.{Shelves, take_shelf}

unfoldable pub source_dec : Discrete Source
unfolding str_dec
source_dec = hlevel str_dec

-- The messages of a key.
unfoldable pub at_shelf : Source → Shelves → List Message
at_shelf from_ready h = h.ready
at_shelf from_delay h = map (λ z. z.1) h.delay
at_shelf from_dlq h = h.dlq
at_shelf (from_processing w) h = held_by w h.processing

-- How many messages stand anywhere.
abbrev pub size : Shelves → ℕ
size h = length h.ready + length h.delay + length h.processing + length h.dlq

-- The key holds the rest, and nothing else changed.
pub record Rest (source : Source) (ms : List Message) (h u : Shelves) : Type 0 where
  pub mine : at_shelf source u ≡ ms
  pub others : (k : Source) → k ≢ source → at_shelf k u ≡ at_shelf k h
  pub heartbeats_kept : u.heartbeats ≡ h.heartbeats
  pub shrinks : size h + length ms ≡ size u + length (at_shelf source h)

lrem-held :
    (w : String) (m : Message) (ms : List Message) (ps : List (String × Message))
    → held_by w ps ≡ m ∷ ms
    → (qs : List (String × Message)) × (lrem w m ps ≡ some qs)
      × (held_by w qs ≡ ms)
      × (length ps ≡ suc (length qs))
      × ((v : String) → v ≢ w → held_by v qs ≡ held_by v ps)
unfolding lrem
lrem-held w m ms [] e = ground arith
lrem-held w m ms ((v, x) ∷ ps) e = elim (str_dec w v) [
  | yes p ↦ (ps, ground arith, ground arith, refl, λ u d. ground arith)
  | no d ↦
      let (qs, k, mine, one, others) = lrem-held w m ms ps (ground arith) in
      ((v, x) ∷ qs, ground arith, ground arith, ground arith, λ u n. ground (arith, others u n))
]

-- A key that is not the changed one.
module _ (h : Shelves) where
  pub beside_ready :
      (xs : List Message) (k : Source)
      → k ≢ from_ready
      → at_shelf k (record h { ready = xs }) ≡ at_shelf k h
  unfolding at_shelf
  beside_ready xs from_ready d = ground arith
  beside_ready xs from_delay d = refl
  beside_ready xs from_dlq d = refl
  beside_ready xs (from_processing w) d = refl

  pub beside_dlq :
      (xs : List Message) (k : Source)
      → k ≢ from_dlq
      → at_shelf k (record h { dlq = xs }) ≡ at_shelf k h
  unfolding at_shelf
  beside_dlq xs from_ready d = refl
  beside_dlq xs from_delay d = refl
  beside_dlq xs from_dlq d = ground arith
  beside_dlq xs (from_processing w) d = refl

  pub beside_delay :
      (zs : List (ℕ × Message)) (k : Source)
      → k ≢ from_delay
      → at_shelf k (record h { delay = zs }) ≡ at_shelf k h
  unfolding at_shelf
  beside_delay zs from_ready d = refl
  beside_delay zs from_delay d = ground arith
  beside_delay zs from_dlq d = refl
  beside_delay zs (from_processing w) d = refl

  pub beside_worker :
      (w : String) (qs : List (String × Message))
      → ((v : String) → v ≢ w → held_by v qs ≡ held_by v h.processing)
      → (k : Source) → k ≢ from_processing w
      → at_shelf k (record h { processing = qs }) ≡ at_shelf k h
  unfolding at_shelf
  beside_worker w qs others from_ready d = refl
  beside_worker w qs others from_delay d = refl
  beside_worker w qs others from_dlq d = refl
  beside_worker w qs others (from_processing v) d =
      others v (λ e. d (ap (λ x. from_processing x) e))

takes_scored :
    (m : Message) (ms : List Message) (zs : List (ℕ × Message)) (h : Shelves)
    → h.delay ≡ zs
    → map (λ z. z.1) zs ≡ m ∷ ms
    → (u : Shelves) × (take_shelf from_delay m h ≡ some u) × Rest from_delay ms h u
unfolding take_shelf at_shelf zrem
takes_scored m ms [] h k e = ground arith
takes_scored m ms ((d, x) ∷ zs) h k e = (
  record h { delay = zs },
  ground arith,
  record {
    mine = ground arith;
    others = beside_delay h zs;
    heartbeats_kept = refl;
    shrinks = ground arith;
  },
)

pub takes_first :
    (source : Source) (m : Message) (ms : List Message) (h : Shelves)
    → at_shelf source h ≡ m ∷ ms
    → (u : Shelves) × (take_shelf source m h ≡ some u) × Rest source ms h u
unfolding take_shelf at_shelf remove_one zrem
takes_first from_ready m ms h e = (
  record h { ready = ms },
  ground arith,
  record {
    mine = refl;
    others = beside_ready h ms;
    heartbeats_kept = refl;
    shrinks = ground arith;
  },
)
takes_first from_delay m ms h e = takes_scored m ms h.delay h refl e
takes_first from_dlq m ms h e = (
  record h { dlq = ms },
  ground arith,
  record { mine = refl; others = beside_dlq h ms; heartbeats_kept = refl; shrinks = ground arith },
)
takes_first (from_processing w) m ms h e =
    let (qs, k, mine, one, others) = lrem-held w m ms h.processing e in
    (
      record h { processing = qs },
      ap (λ o. Option.map (λ ps. record h { processing = ps }) o) k,
      record {
        mine = mine;
        others = beside_worker h w qs others;
        heartbeats_kept = refl;
        shrinks = ground arith;
      },
    )
