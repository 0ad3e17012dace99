-- ===== src/State/Delay/Order.antt =====
-- The order of the delay set, and what MOVE_DUE_DELAY_LUA of qtask_list/state.py moves out of it.
use mathlib.Core.List.{List, [], ◌∷◌}
use stockev_qtask_list.Base.{
  ℕ, zero, suc, ◌≤◌, ◌<◌, ◌+◌, ◌≡◌, refl, arith, leb, ltb, length, drop, if◌then◌else◌, Bool-cases,
  inl, inr, ◌∙◌,
}
use stockev_qtask_list.Store.Messages.{Message}
use stockev_qtask_list.Store.{Store, put_task, leave_retry_wait, insert_scored, without, zadd}
use stockev_qtask_list.State.Delay.{locate_ready, move_one, move_due, move_due_delay}

-- Every score is at least `d`.
abbrev pub AllFrom : ℕ → List (ℕ × Message) → Type 0
AllFrom d [] = Unit {0}
AllFrom d ((x, m) ∷ zs) = (d ≤ x) × AllFrom d zs

abbrev pub IsSorted : List (ℕ × Message) → Type 0
IsSorted [] = Unit {0}
IsSorted ((x, m) ∷ zs) = AllFrom x zs × IsSorted zs

AllFrom-weaken : (c d : ℕ) (zs : List (ℕ × Message)) → c ≤ d → AllFrom d zs → AllFrom c zs
AllFrom-weaken c d [] le h = tt
AllFrom-weaken c d ((x, m) ∷ zs) le (h, hs) = (omega arith, AllFrom-weaken c d zs le hs)

without-AllFrom :
    (d : ℕ) (m : Message) (zs : List (ℕ × Message)) → AllFrom d zs → AllFrom d (without m zs)
unfolding without
without-AllFrom d m [] h = tt
without-AllFrom d m ((x, y) ∷ zs) (h, hs) = ground (arith, without-AllFrom d m zs hs)

without-IsSorted : (m : Message) (zs : List (ℕ × Message)) → IsSorted zs → IsSorted (without m zs)
unfolding without
without-IsSorted m [] h = tt
without-IsSorted m ((x, y) ∷ zs) (h, hs) =
    ground (arith, without-IsSorted m zs hs, without-AllFrom x m zs h)

insert_scored-AllFrom :
    (d sc : ℕ) (m : Message) (zs : List (ℕ × Message))
    → d ≤ sc
    → AllFrom d zs
    → AllFrom d (insert_scored sc m zs)
unfolding insert_scored
insert_scored-AllFrom d sc m [] le h = (le, tt)
insert_scored-AllFrom d sc m ((x, y) ∷ zs) le (h, hs) =
    ground (arith, insert_scored-AllFrom d sc m zs le hs)

insert_scored-IsSorted :
    (sc : ℕ) (m : Message) (zs : List (ℕ × Message))
    → IsSorted zs
    → IsSorted (insert_scored sc m zs)
unfolding insert_scored
insert_scored-IsSorted sc m [] h = (tt, tt)
insert_scored-IsSorted sc m ((x, y) ∷ zs) (h, hs) = elim (Bool-cases (ltb sc x)) [
  | inl e ↦ rw e (((ground arith, AllFrom-weaken sc x zs (ground arith) h), (h, hs)))
  | inr e ↦
      rw e (insert_scored-AllFrom x sc m zs (ground arith) h, insert_scored-IsSorted sc m zs hs)
]

-- A message that is put into a delay set in the order of its times leaves it in that order,
-- whether it is new to the set or gets another time.
pub zadd-IsSorted :
    (sc : ℕ) (m : Message) (zs : List (ℕ × Message)) → IsSorted zs → IsSorted (zadd sc m zs)
unfolding zadd
zadd-IsSorted sc m zs h = insert_scored-IsSorted sc m (without m zs) (without-IsSorted m zs h)

-- The due members of a set in order, at most `limit` of them, oldest first.
abbrev pub due_prefix : ℕ → ℕ → List (ℕ × Message) → List Message
due_prefix zero now zs = []
due_prefix (suc limit) now [] = []
due_prefix (suc limit) now ((x, m) ∷ zs) =
    let later = due_prefix limit now zs in if leb x now then m ∷ later else []

-- LPUSH of one message after the other.
abbrev pub push_all : List Message → List Message → List Message
push_all [] ready = ready
push_all (m ∷ ms) ready = push_all ms (m ∷ ready)

pub move_one-lists :
    (m : Message) (rest : List (ℕ × Message)) (s : Store)
    → ((move_one m rest s).ready ≡ m ∷ s.ready)
      × ((move_one m rest s).delay ≡ rest)
      × ((move_one m rest s).now ≡ s.now)
      × ((move_one m rest s).processing ≡ s.processing)
      × ((move_one m rest s).dlq ≡ s.dlq)
unfolding move_one locate_ready leave_retry_wait put_task
move_one-lists m rest s = (ground arith, ground arith, ground arith, ground arith, ground arith)

module _ (now : ℕ) where
  move_due-exact :
      (limit : ℕ) (zs : List (ℕ × Message)) (s : Store)
      → s.now ≡ now
      → s.delay ≡ zs
      → ((move_due limit zs s).0 ≡ length (due_prefix limit now zs))
        × ((move_due limit zs s).1.ready ≡ push_all (due_prefix limit now zs) s.ready)
        × ((move_due limit zs s).1.delay ≡ drop (length (due_prefix limit now zs)) zs)
        × ((move_due limit zs s).1.processing ≡ s.processing)
        × ((move_due limit zs s).1.dlq ≡ s.dlq)
  unfolding move_due drop
  move_due-exact zero zs s e d = (refl, refl, d, refl, refl)
  move_due-exact (suc limit) [] s e d = (refl, refl, d, refl, refl)
  move_due-exact (suc limit) ((x, m) ∷ zs) s e d = ground (
    arith,
    move_one-lists m zs s,
    move_due-exact limit zs (move_one m zs s) ((move_one-lists m zs s).2 ∙ e)
        (move_one-lists m zs s).1,
  )

  move_due_complete :
      (limit : ℕ) (zs : List (ℕ × Message)) (s : Store)
      → s.now ≡ now
      → s.delay ≡ zs
      → IsSorted zs
      → (move_due limit zs s).0 < limit
      → AllFrom (now + 1) (move_due limit zs s).1.delay
  unfolding move_due
  move_due_complete zero zs s e d h below = ground arith
  move_due_complete (suc limit) [] s e d h below = rw d tt
  move_due_complete (suc limit) ((x, m) ∷ zs) s e d (h, hs) below =
      elim (Bool-cases (leb x s.now)) [
        | inl y ↦
            let k : (move_due limit zs (move_one m zs s)).0 < limit = ground arith in
            rw y (
              move_due_complete limit zs (move_one m zs s) ((move_one-lists m zs s).2 ∙ e)
                (move_one-lists m zs s).1 hs k)
        | inr n ↦ rw (n, d) (ground arith, AllFrom-weaken (now + 1) x zs (ground arith) h)
      ]

-- The script takes the due messages that stand first in the delay set, at most `limit` of them, out
-- of the set and puts them into the ready list, where the one that was due first is the first that a
-- worker will take; it answers their number, the rest of the set stays as it was, and so do the
-- workers' lists and the dead letters.
pub move_due_delay-exact :
    (limit : ℕ) (s : Store)
    → ((move_due_delay limit s).0 ≡ length (due_prefix limit s.now s.delay))
      × ((move_due_delay limit s).1.ready ≡ push_all (due_prefix limit s.now s.delay) s.ready)
      × ((move_due_delay limit s).1.delay ≡ drop (length (due_prefix limit s.now s.delay)) s.delay)
      × ((move_due_delay limit s).1.processing ≡ s.processing)
      × ((move_due_delay limit s).1.dlq ≡ s.dlq)
unfolding move_due_delay
move_due_delay-exact limit s = move_due-exact s.now limit s.delay s refl refl

-- Where it moves fewer than `limit`, no message that is due is left in an ordered delay set.
pub move_due_delay_complete :
    (limit : ℕ) (s : Store)
    → IsSorted s.delay
    → (move_due_delay limit s).0 < limit
    → AllFrom (s.now + 1) (move_due_delay limit s).1.delay
unfolding move_due_delay
move_due_delay_complete limit s h below = move_due_complete s.now limit s.delay s refl refl h below
