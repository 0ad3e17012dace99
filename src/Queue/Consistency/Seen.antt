-- ===== src/Queue/Consistency/Seen.antt =====
-- What the scan of `check_consistency` of qtask_list/queue.py sees of a task's messages.
use stockev_qtask_list.Base.{
  ℕ, zero, suc, ◌+◌, ◌≤◌, String, true, false, ◌≡◌, refl, ap, sym, ◌∙◌, arith, List, [], ◌∷◌, ◌++◌,
  map, if◌then◌else◌, length, take, str_dec, ltb, Bool-cases, inl, inr,
}
use stockev_qtask_list.Store.Messages.{Message}
use stockev_qtask_list.Store.{Store}
use stockev_qtask_list.Store.Counting.{carries, count_list, count_delay, count_claimed}
use stockev_qtask_list.State.Ownership.Cores.{core, operational}
use stockev_qtask_list.Queue.Recover.All.{held_by}
use stockev_qtask_list.Queue.Clear.Emptied.{named}
use stockev_qtask_list.Queue.Consistency.{Audit, scan_messages, is_complete}
use stockev_qtask_list.Queue.Places.{
  Place, at_ready, at_dlq, at_processing, at_delay, tagged, claimed_places, all_places, locations,
  any_place, any_outside_dlq, is_dlq, every_place,
}

-- The task's messages outside the dead letters, and those in them.
abbrev pub seen_live : String → List (Place × Message) → ℕ
seen_live j [] = 0
seen_live j ((p, m) ∷ xs) = (if is_dlq p then 0 else carries j m) + seen_live j xs

abbrev pub seen_dead : String → List (Place × Message) → ℕ
seen_dead j [] = 0
seen_dead j ((p, m) ∷ xs) = (if is_dlq p then carries j m else 0) + seen_dead j xs

pub locations-none :
    (j : String) (xs : List (Place × Message))
    → any_place (locations j xs) ≡ false
    → seen_live j xs + seen_dead j xs ≡ 0
unfolding locations
locations-none j [] e = refl
locations-none j ((p, m) ∷ xs) e = ground (arith, locations-none j xs)

pub locations-some :
    (j : String) (xs : List (Place × Message))
    → any_place (locations j xs) ≡ true
    → 1 ≤ seen_live j xs + seen_dead j xs
unfolding locations
locations-some j [] e = ground arith
locations-some j ((p, m) ∷ xs) e = ground (arith, locations-some j xs)

pub locations-outside :
    (j : String) (xs : List (Place × Message))
    → any_outside_dlq (locations j xs) ≡ true
    → 1 ≤ seen_live j xs
unfolding locations
locations-outside j [] e = ground arith
locations-outside j ((p, m) ∷ xs) e = ground (arith, locations-outside j xs)

-- The limit hides messages, and shows no other.
pub seen_take :
    (j : String) (n : ℕ) (xs : List (Place × Message))
    → (seen_live j (take n xs) ≤ seen_live j xs) × (seen_dead j (take n xs) ≤ seen_dead j xs)
unfolding take
seen_take j zero xs = (omega arith, omega arith)
seen_take j (suc n) [] = (omega arith, omega arith)
seen_take j (suc n) (x ∷ xs) = let h = seen_take j n xs in (omega (arith, h.0), omega (arith, h.1))

pub take_all :
    (n : ℕ) (xs : List (Place × Message)) → ltb (length (take n xs)) n ≡ true → take n xs ≡ xs
unfolding take
take_all zero xs e = ground arith
take_all (suc n) [] e = refl
take_all (suc n) (x ∷ xs) e = ap (λ z. x ∷ z) (take_all n xs (ground arith))

seen_append :
    (j : String) (xs ys : List (Place × Message))
    → (seen_live j (xs ++ ys) ≡ seen_live j xs + seen_live j ys)
      × (seen_dead j (xs ++ ys) ≡ seen_dead j xs + seen_dead j ys)
seen_append j [] ys = (omega arith, omega arith)
seen_append j (x ∷ xs) ys = let h = seen_append j xs ys in (omega (arith, h.0), omega (arith, h.1))

seen_tagged :
    (j : String) (p : Place) (ms : List Message)
    → (seen_live j (tagged p ms) ≡ (if is_dlq p then 0 else count_list j ms))
      × (seen_dead j (tagged p ms) ≡ (if is_dlq p then count_list j ms else 0))
seen_tagged j p [] = (ground arith, ground arith)
seen_tagged j p (m ∷ ms) = (ground (arith, seen_tagged j p ms), ground (arith, seen_tagged j p ms))

delay_members :
    (j : String) (zs : List (ℕ × Message)) → count_list j (map (λ z. z.1) zs) ≡ count_delay j zs
delay_members j [] = refl
delay_members j (z ∷ zs) = omega (arith, delay_members j zs)

held_fewer :
    (j w : String) (ps : List (String × Message)) → count_list j (held_by w ps) ≤ count_claimed j ps
held_fewer j w [] = omega arith
held_fewer j w ((v, m) ∷ ps) = ground (arith, held_fewer j w ps)

-- A task that no worker has is in no worker's list, and the other way around.
claimed_none :
    (j : String) (ps : List (String × Message))
    → ((w : String) → count_list j (held_by w ps) ≡ 0)
    → count_claimed j ps ≡ 0
claimed_none j [] h = refl
claimed_none j ((v, m) ∷ ps) h = ground (arith, h v, claimed_none j ps (λ w. ground (arith, h w)))

-- Every worker with a list is among those that the check names.
abbrev pub Covers : List String → Store → Type 0
Covers ws s = (w : String) → named w ws ≡ false → held_by w s.processing ≡ []

claimed_places-fewer :
    (j : String) (ws : List String) (s : Store)
    → count_claimed j s.processing ≡ 0
    → (seen_live j (claimed_places ws s) ≡ 0) × (seen_dead j (claimed_places ws s) ≡ 0)
unfolding claimed_places
claimed_places-fewer j [] s e = (refl, refl)
claimed_places-fewer j (w ∷ ws) s e =
    let a = seen_append j (tagged at_processing (held_by w s.processing)) (claimed_places ws s) in
    let t = seen_tagged j at_processing (held_by w s.processing) in
    let h = claimed_places-fewer j ws s e in
    (omega (arith, a.0, t.0, h.0, held_fewer j w s.processing, e), omega (arith, a.1, t.1, h.1))

claimed_places-held :
    (j w : String) (ws : List String) (s : Store)
    → named w ws ≡ true
    → seen_live j (claimed_places ws s) ≡ 0
    → count_list j (held_by w s.processing) ≡ 0
unfolding claimed_places named
claimed_places-held j w [] s n e = ground arith
claimed_places-held j w (v ∷ ws) s n e =
    let a = seen_append j (tagged at_processing (held_by v s.processing)) (claimed_places ws s) in
    let t = seen_tagged j at_processing (held_by v s.processing) in
    elim (str_dec w v) [
      | yes p ↦ rw p (omega (arith, e, a.0, t.0))
      | no d ↦ claimed_places-held j w ws s (ground arith) (omega (arith, e, a.0))
    ]

claimed_places-none :
    (j : String) (ws : List String) (s : Store)
    → Covers ws s
    → seen_live j (claimed_places ws s) ≡ 0
    → count_claimed j s.processing ≡ 0
claimed_places-none j ws s covers e = claimed_none j s.processing λ w.
    elim (Bool-cases (named w ws)) [
      | inl t ↦ claimed_places-held j w ws s t e
      | inr f ↦ ap (λ ms. count_list j ms) (covers w f)
    ]

claimed_members :
    (j : String) (ps : List (String × Message))
    → count_list j (map (λ p. p.1) ps) ≡ count_claimed j ps
claimed_members j [] = refl
claimed_members j (p ∷ ps) = omega (arith, claimed_members j ps)

-- The four parts of a scan.
seen_parts :
    (j : String) (s : Store) (xs : List (Place × Message))
    → let all =
        tagged at_ready s.ready
        ++ tagged at_dlq s.dlq
        ++ xs
        ++ tagged at_delay (map (λ z. z.1) s.delay) in
      (seen_live j all ≡ count_list j s.ready + seen_live j xs + count_delay j s.delay)
      × (seen_dead j all ≡ count_list j s.dlq + seen_dead j xs)
seen_parts j s xs =
    let dead = tagged at_dlq s.dlq in
    let wait = tagged at_delay (map (λ z. z.1) s.delay) in
    let a = seen_append j (tagged at_ready s.ready ++ dead ++ xs) wait in
    let b = seen_append j (tagged at_ready s.ready ++ dead) xs in
    let c = seen_append j (tagged at_ready s.ready) dead in
    let r = seen_tagged j at_ready s.ready in
    let d = seen_tagged j at_dlq s.dlq in
    let w = seen_tagged j at_delay (map (λ z. z.1) s.delay) in
    let m = delay_members j s.delay in
    (omega (arith, a.0, b.0, c.0, r.0, d.0, w.0, m), omega (arith, a.1, b.1, c.1, r.1, d.1, w.1))

claimed_dead : (j : String) (ws : List String) (s : Store) → seen_dead j (claimed_places ws s) ≡ 0
unfolding claimed_places
claimed_dead j [] s = refl
claimed_dead j (w ∷ ws) s =
    let a = seen_append j (tagged at_processing (held_by w s.processing)) (claimed_places ws s) in
    let t = seen_tagged j at_processing (held_by w s.processing) in
    omega (arith, a.1, t.1, claimed_dead j ws s)

-- What the scan sees stands somewhere, and a whole scan sees all.
module _ (a : Audit) (j : String) (s : Store) where
  pub scan_dead : seen_dead j (scan_messages a s) ≤ count_list j s.dlq
  unfolding scan_messages all_places
  scan_dead =
      let p = seen_parts j s (claimed_places a.workers s) in
      let t = seen_take j a.limit (all_places a.workers s) in
      omega (arith, p.1, t.1, claimed_dead j a.workers s)

  pub scan_live : operational j (core s) ≡ 0 → seen_live j (scan_messages a s) ≡ 0
  unfolding scan_messages all_places core
  scan_live e =
      let p = seen_parts j s (claimed_places a.workers s) in
      let t = seen_take j a.limit (all_places a.workers s) in
      let f = claimed_places-fewer j a.workers s (omega (arith, e)) in
      omega (arith, p.0, t.0, f.0, e)

  pub scan_whole :
      Covers a.workers s
      → is_complete a s ≡ true
      → seen_live j (scan_messages a s) + seen_dead j (scan_messages a s) ≡ 0
      → operational j (core s) + count_list j s.dlq ≡ 0
  unfolding scan_messages is_complete all_places core
  scan_whole covers whole e =
      let p = seen_parts j s (claimed_places a.workers s) in
      let all = take_all a.limit (all_places a.workers s) whole in
      let n = ap (λ xs. seen_live j xs + seen_dead j xs) (sym all) ∙ e in
      let c = claimed_places-none j a.workers s covers (omega (arith, p.0, n)) in
      omega (arith, p.0, p.1, n, c)

pub every_place-seen :
    (j : String) (s : Store)
    → seen_live j (every_place s) + seen_dead j (every_place s)
      ≡ operational j (core s) + count_list j s.dlq
unfolding every_place core
every_place-seen j s =
    let p = seen_parts j s (tagged at_processing (map (λ x. x.1) s.processing)) in
    let t = seen_tagged j at_processing (map (λ x. x.1) s.processing) in
    omega (arith, p.0, p.1, t.0, t.1, claimed_members j s.processing)
