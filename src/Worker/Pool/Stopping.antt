-- ===== src/Worker/Pool/Stopping.antt =====
-- A worker of qtask_list/worker.py that was stopped can always come to its end.
use stockev_qtask_list.Base.{
  ℕ, suc, ◌*◌, String, true, false, ◌≡◌, ◌≢◌, refl, arith, List, [], ◌∷◌, ◌∙◌, ◌≤◌, ◌+◌,
}
use stockev_qtask_list.Worker.Pool.{
  Poller, off, idle, seeking, holding, leaving, Stage, waiting, admitted, handling, unhandled, Pool,
  new_pool, stop, finish, Step, times_out, gives_up, refuses, runs, finishes, is_stopped, leaves,
  drained, Steps, none_more, then_step,
}
use stockev_qtask_list.Worker.Pool.Reached.{
  permits_are_kept, starts_of, admitted_of, stopped_starts_none,
}

Steps-trans : (p q r : Pool) → Steps p q → Steps q r → Steps p r
Steps-trans p q r a none_more = a
Steps-trans p q r a (then_step {q = m} ss s) = then_step (Steps-trans p q m a ss) s

-- A worker that was stopped.
abbrev Down : Pool → Type 0
Down p = (p.running ≡ false) × (p.shutdown ≡ true)

-- The pool after its poller has left, and the way there.
record Left (p : Pool) : Type 0 where
  end : Pool
  way : Steps p end
  poller_left : end.poller ≡ leaving
  still_stopped : end.shutdown ≡ true

leave_from : (p : Pool) → p.poller ≡ idle → p.running ≡ false → Left p
unfolding stop
leave_from p o r = record {
  end = record (stop p) { poller = leaving };
  way = then_step none_more (leaves o r);
  poller_left = refl;
  still_stopped = refl;
}

leave : (p : Pool) → Down p → p.poller ≢ off → Left p
leave p down ne = by_poller p.poller refl
  where
    first : (q : Pool) → Step p q → q.poller ≡ idle → q.running ≡ false → Left p
    first q s o r =
        let l = leave_from q o r in
        record {
          end = l.end;
          way = Steps-trans p q l.end (then_step none_more s) l.way;
          poller_left = l.poller_left;
          still_stopped = l.still_stopped;
        }

    by_poller : (x : Poller) → p.poller ≡ x → Left p
    by_poller off o = absurd (ne o)
    by_poller idle o = leave_from p o down.0
    by_poller seeking o = first (record p { poller = idle }) (times_out o down.0) refl down.0
    by_poller holding o =
        first (record p { poller = idle; permits = suc p.permits }) (gives_up o) refl down.0
    by_poller leaving o = record {
      end = p;
      way = none_more;
      poller_left = o;
      still_stopped = down.1;
    }

-- One claim after the other: those that wait are given back, handlers come to their end.
record Drained (p : Pool) : Type 0 where
  end : Pool
  way : Steps p end
  emptied : end.in_flight ≡ []
  poller_same : end.poller ≡ p.poller

then-Drained : (p u : Pool) → Steps p u → u.poller ≡ p.poller → Drained u → Drained p
then-Drained p u ss same d = record {
  end = d.end;
  way = Steps-trans p u d.end ss d.way;
  emptied = d.emptied;
  poller_same = d.poller_same ∙ same;
}

drain : (cs : List (String × Stage)) (p : Pool) → p.in_flight ≡ cs → p.shutdown ≡ true → Drained p
unfolding finish
drain [] p e h = record { end = p; way = none_more; emptied = e; poller_same = refl }
drain ((id, waiting) ∷ cs) p e h =
    let q : Pool = record p { in_flight = (id, unhandled) ∷ cs } in
    let u : Pool = finish id false cs q in
    then-Drained p u
      (then_step {q = q} (then_step none_more (refuses id [] cs e h))
        (finishes id unhandled false [] cs refl refl))
      refl (drain cs u refl h)
drain ((id, admitted) ∷ cs) p e h =
    let q : Pool = record p { in_flight = (id, handling) ∷ cs; handled = id ∷ p.handled } in
    let u : Pool = finish id false cs q in
    then-Drained p u
      (then_step {q = q} (then_step none_more (runs id [] cs e))
        (finishes id handling false [] cs refl refl))
      refl (drain cs u refl h)
drain ((id, handling) ∷ cs) p e h =
    let u : Pool = finish id false cs p in
    then-Drained p u (then_step none_more (finishes id handling false [] cs e refl)) refl
      (drain cs u refl h)
drain ((id, unhandled) ∷ cs) p e h =
    let u : Pool = finish id false cs p in
    then-Drained p u (then_step none_more (finishes id unhandled false [] cs e refl)) refl
      (drain cs u refl h)

-- A worker that is stopped, at every point in `run` that its threads can have reached, can come to
-- the end of `run` by its own steps, if the handlers that run come to their end: nothing is in flight
-- then, all permits are free, and of each task no more handlers have started than before the stop
-- and claims had passed the check then.
pub stopped_can_end :
    (n : ℕ) (p : Pool)
    → Steps (new_pool n) p
    → p.poller ≢ off
    → (q : Pool) × Steps (stop p) q
      × (q.poller ≡ off)
      × (q.in_flight ≡ [])
      × (q.permits ≡ n * 2)
      × ((id : String)
          → starts_of id q.handled ≤ starts_of id p.handled + admitted_of id p.in_flight)
unfolding stop
stopped_can_end n p ss ne =
    let s : Pool = stop p in
    let l = leave s (refl, refl) ne in
    let d = drain l.end.in_flight l.end refl l.still_stopped in
    let q : Pool = record d.end { draining = false; poller = off } in
    let way : Steps s q =
      then_step (Steps-trans s l.end d.end l.way d.way)
        (drained (d.poller_same ∙ l.poller_left) d.emptied) in
    (
      q,
      way,
      refl,
      d.emptied,
      ground (
        arith,
        d.emptied,
        permits_are_kept n q (Steps-trans (new_pool n) s q (then_step ss is_stopped) way),
      ),
      λ id. omega (arith, stopped_starts_none p q id way),
    )
