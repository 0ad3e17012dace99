-- ===== src/Admin/Deleting/Own.antt =====
-- `delete_task` of qtask_list/admin.py takes the messages of one task from a key, and no other.
use mathlib.Core.Option
use mathlib.Core.Option.{Option, none, some}
use stockev_qtask_list.Base.{
  ℕ, String, true, ◌≡◌, ◌≢◌, refl, ap, arith, List, [], ◌∷◌, map, str_dec, remove_one,
  if◌then◌else◌, Bool-cases, inl, inr,
}
use stockev_qtask_list.Store.Messages.{Message, msg_dec}
use stockev_qtask_list.Store.{zrem, lrem}
use stockev_qtask_list.State.Purge.{Source, from_ready, from_delay, from_dlq, from_processing}
use stockev_qtask_list.Queue.Recover.All.{held_by}
use stockev_qtask_list.Queue.Clear.Removed.{Shelves, take_shelf}
use stockev_qtask_list.Queue.Clear.Shelved.{
  at_shelf, beside_ready, beside_dlq, beside_delay, beside_worker,
}
use stockev_qtask_list.Admin.Deleting.{is_own, own}

-- The messages of other tasks, and those of none.
unfoldable pub strangers : String → List Message → List Message
strangers id [] = []
strangers id (m ∷ ms) = let rest = strangers id ms in if is_own id m then rest else m ∷ rest

-- The first message of the task goes.
record Loses (id : String) (ms xs ys : List Message) : Type 0 where
  mine : own id ys ≡ ms
  rest : strangers id ys ≡ strangers id xs

pub own_first :
    (id : String) (m : Message) (ms xs : List Message) → own id xs ≡ m ∷ ms → is_own id m ≡ true
unfolding own
own_first id m ms [] e = ground arith
own_first id m ms (x ∷ xs) e = elim (Bool-cases (is_own id x)) [
  | inl t ↦ ground arith
  | inr f ↦ own_first id m ms xs (ground arith)
]

remove_own :
    (id : String) (m : Message) (ms xs : List Message)
    → own id xs ≡ m ∷ ms
    → (ys : List Message) × (remove_one msg_dec m xs ≡ some ys) × Loses id ms xs ys
unfolding own strangers remove_one
remove_own id m ms [] e = ground arith
remove_own id m ms (x ∷ xs) e = elim (Bool-cases (is_own id x)) [
  | inl t ↦ (xs, ground arith, record { mine = ground arith; rest = ground arith })
  | inr f ↦
      let (ys, k, l) = remove_own id m ms xs (ground arith) in
      (
        x ∷ ys,
        ground (arith, own_first id m ms xs),
        record { mine = ground (arith, l.mine); rest = ground (arith, l.rest) },
      )
]

abbrev members : List (ℕ × Message) → List Message
members zs = map (λ z. z.1) zs

zrem-own :
    (id : String) (m : Message) (ms : List Message) (zs : List (ℕ × Message))
    → own id (members zs) ≡ m ∷ ms
    → (ys : List (ℕ × Message)) × (zrem m zs ≡ some ys) × Loses id ms (members zs) (members ys)
unfolding own strangers zrem
zrem-own id m ms [] e = ground arith
zrem-own id m ms ((d, x) ∷ zs) e = elim (Bool-cases (is_own id x)) [
  | inl t ↦ (zs, ground arith, record { mine = ground arith; rest = ground arith })
  | inr f ↦
      let (ys, k, l) = zrem-own id m ms zs (ground arith) in
      (
        (d, x) ∷ ys,
        ground (arith, own_first id m ms (members zs)),
        record { mine = ground (arith, l.mine); rest = ground (arith, l.rest) },
      )
]

lrem-own :
    (id w : String) (m : Message) (ms : List Message) (ps : List (String × Message))
    → own id (held_by w ps) ≡ m ∷ ms
    → (qs : List (String × Message)) × (lrem w m ps ≡ some qs)
      × Loses id ms (held_by w ps) (held_by w qs)
      × ((v : String) → v ≢ w → held_by v qs ≡ held_by v ps)
unfolding own strangers lrem
lrem-own id w m ms [] e = ground arith
lrem-own id w m ms ((v, x) ∷ ps) e = elim (str_dec w v) [
  | yes p ↦ elim (Bool-cases (is_own id x)) [
    | inl t ↦
        (ps, ground arith, record { mine = ground arith; rest = ground arith }, λ u d. ground arith)
    | inr f ↦
        let (qs, k, l, others) = lrem-own id w m ms ps (ground arith) in
        (
          (v, x) ∷ qs,
          ground (arith, own_first id m ms (held_by w ps)),
          record { mine = ground (arith, l.mine); rest = ground (arith, l.rest) },
          λ u n. ground (arith, others u n),
        )
  ]
  | no d ↦
      let (qs, k, l, others) = lrem-own id w m ms ps (ground arith) in
      (
        (v, x) ∷ qs,
        ground arith,
        record { mine = ground (arith, l.mine); rest = ground (arith, l.rest) },
        λ u n. ground (arith, others u n),
      )
]

-- One key loses the first message of the task, and nothing else changes.
pub record Loss (source : Source) (id : String) (ms : List Message) (h u : Shelves) : Type 0 where
  pub mine : own id (at_shelf source u) ≡ ms
  pub rest : strangers id (at_shelf source u) ≡ strangers id (at_shelf source h)
  pub others : (k : Source) → k ≢ source → at_shelf k u ≡ at_shelf k h
  pub heartbeats_kept : u.heartbeats ≡ h.heartbeats

pub takes_own :
    (source : Source) (id : String) (m : Message) (ms : List Message) (h : Shelves)
    → own id (at_shelf source h) ≡ m ∷ ms
    → (u : Shelves) × (take_shelf source m h ≡ some u) × Loss source id ms h u
unfolding take_shelf at_shelf
takes_own from_ready id m ms h e =
    let (ys, k, l) = remove_own id m ms h.ready e in
    (
      record h { ready = ys },
      ap (λ o. Option.map (λ xs. record h { ready = xs }) o) k,
      record { mine = l.mine; rest = l.rest; others = beside_ready h ys; heartbeats_kept = refl },
    )
takes_own from_delay id m ms h e =
    let (ys, k, l) = zrem-own id m ms h.delay e in
    (
      record h { delay = ys },
      ap (λ o. Option.map (λ xs. record h { delay = xs }) o) k,
      record { mine = l.mine; rest = l.rest; others = beside_delay h ys; heartbeats_kept = refl },
    )
takes_own from_dlq id m ms h e =
    let (ys, k, l) = remove_own id m ms h.dlq e in
    (
      record h { dlq = ys },
      ap (λ o. Option.map (λ xs. record h { dlq = xs }) o) k,
      record { mine = l.mine; rest = l.rest; others = beside_dlq h ys; heartbeats_kept = refl },
    )
takes_own (from_processing w) id m ms h e =
    let (qs, k, l, others) = lrem-own id w m ms h.processing e in
    (
      record h { processing = qs },
      ap (λ o. Option.map (λ ps. record h { processing = ps }) o) k,
      record {
        mine = l.mine;
        rest = l.rest;
        others = beside_worker h w qs others;
        heartbeats_kept = refl;
      },
    )
