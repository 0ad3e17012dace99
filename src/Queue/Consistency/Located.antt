-- ===== src/Queue/Consistency/Located.antt =====
-- What `check_consistency` of qtask_list/queue.py knows of a task whose messages are where they
-- should be.
use stockev_qtask_list.Base.{
  ℕ, ◌+◌, ◌≤◌, String, Bool, true, false, ◌≡◌, refl, ap, ◌∙◌, arith, List, ◌&&◌, ◌||◌,
  if◌then◌else◌, Bool-cases, inl, inr, ℕ_discrete,
}
use stockev_qtask_list.Store.Tasks.{Task, Outcome}
use stockev_qtask_list.Store.{Store}
use stockev_qtask_list.Store.Counting.{count_list}
use stockev_qtask_list.State.Replies.{is_terminal}
use stockev_qtask_list.State.Ownership.Cores.{Core, core, operational}
use stockev_qtask_list.Queue.Consistency.{
  Audit, scan_messages, is_complete, is_gone, has_failed, known_location,
}
use stockev_qtask_list.Queue.Places.{
  Place, locations, any_place, any_outside_dlq, has_operational_message, every_place,
}
use stockev_qtask_list.Queue.Consistency.Seen.{
  locations-none, locations-some, locations-outside, scan_dead, scan_live, scan_whole,
  every_place-seen, Covers,
}

-- One task of a queue whose messages are where they should be.
pub record Facts (c : Core) (id : String) (t : Task) : Type 0 where
  pub total : operational id c + count_list id c.dlq ≡ (if t.operational_message then 1 else 0)
  pub living : is_terminal t.outcome ≡ false → operational id c ≡ 1
  pub ended : is_terminal t.outcome ≡ true → operational id c ≡ 0
  pub buried : is_gone t.outcome ≡ true → count_list id c.dlq ≡ 0

gone_terminal : (o : Outcome) → is_gone o ≡ true → is_terminal o ≡ true
gone_terminal o e = ground arith

failed_terminal : (o : Outcome) → has_failed o ≡ true → is_terminal o ≡ true
failed_terminal o e = ground arith

bool_of_total :
    (b flag : Bool) (n : ℕ)
    → (b ≡ true → 1 ≤ n)
    → (b ≡ false → n ≡ 0)
    → n ≡ (if flag then 1 else 0)
    → b ≡ flag
bool_of_total true true n y z e = refl
bool_of_total true false n y z e = absurd (omega (arith, y refl, e))
bool_of_total false true n y z e = absurd (omega (arith, z refl, e))
bool_of_total false false n y z e = refl

-- `u` is the store after the repairs so far: they moved no message.
module _ (a : Audit) (s u : Store) (covers : Covers a.workers s) (same : core u ≡ core s)
    (id : String) (t : Task) (f : Facts (core s) id t) where
  abbrev ps : List Place
  ps = locations id (scan_messages a s)

  unseen :
      any_place ps ≡ false
      → is_complete a s ≡ true
      → operational id (core s) + count_list id (core s).dlq ≡ 0
  unfolding core
  unseen n whole = scan_whole a id s covers whole (locations-none id (scan_messages a s) n)

  seen_somewhere : any_place ps ≡ true → 1 ≤ operational id (core s) + count_list id (core s).dlq
  unfolding core
  seen_somewhere y = elim (ℕ_discrete (operational id (core s)) 0) [
    | yes e ↦
        omega
          (arith, locations-some id (scan_messages a s) y, scan_live a id s e, scan_dead a id s, e)
    | no d ↦ omega (arith, d)
  ]

  pub gone_unseen : is_gone t.outcome ≡ true → any_place ps ≡ false
  gone_unseen g = elim (Bool-cases (any_place ps)) [
    | inl y ↦
        absurd (omega (arith, seen_somewhere y, f.ended (gone_terminal t.outcome g), f.buried g))
    | inr n ↦ n
  ]

  pub failed_inside : has_failed t.outcome ≡ true → any_outside_dlq ps ≡ false
  failed_inside g = elim (Bool-cases (any_outside_dlq ps)) [
    | inl y ↦ absurd (
        omega (
          arith,
          locations-outside id (scan_messages a s) y,
          scan_live a id s (f.ended (failed_terminal t.outcome g)),
        ))
    | inr n ↦ n
  ]

  pub living_seen : is_terminal t.outcome ≡ false → is_complete a s ≡ true → any_place ps ≡ true
  living_seen l whole = elim (Bool-cases (any_place ps)) [
    | inl y ↦ y
    | inr n ↦ absurd (omega (arith, unseen n whole, f.living l))
  ]

  asked : has_operational_message id u ≡ t.operational_message
  unfolding has_operational_message core
  asked =
      let n = every_place-seen id u in
      bool_of_total (has_operational_message id u) t.operational_message
        (operational id (core u) + count_list id (core u).dlq)
        (λ y. omega (arith, n, locations-some id (every_place u) y))
        (λ z. omega (arith, n, locations-none id (every_place u) z))
        (ap (λ c. operational id c + count_list id c.dlq) same ∙ f.total)

  shown : (any_place ps || is_complete a s) ≡ true → any_place ps ≡ t.operational_message
  shown k =
      bool_of_total (any_place ps) t.operational_message
        (operational id (core s) + count_list id (core s).dlq) seen_somewhere
        (λ z. unseen z (ground arith)) f.total

  pub flag_known :
      (known_location a (is_complete a s) ps id t.outcome u).location_known ≡ true
      → (known_location a (is_complete a s) ps id t.outcome u).actual ≡ t.operational_message
  unfolding known_location
  flag_known k = elim (Bool-cases (any_place ps || is_complete a s)) [
    | inl c ↦ rw c (shown c)
    | inr c ↦ elim (Bool-cases (a.repair_safe && is_terminal t.outcome)) [
      | inl r ↦ rw (c, r) asked
      | inr r ↦ ground arith
    ]
  ]
