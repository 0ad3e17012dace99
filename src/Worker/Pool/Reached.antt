-- ===== src/Worker/Pool/Reached.antt =====
-- What holds of a worker's threads in qtask_list/worker.py, whatever their order.
use stockev_qtask_list.Base.{
  ℕ, suc, ◌+◌, ◌*◌, String, true, ◌≡◌, ◌≢◌, ◌⊎◌, inl, inr, refl, arith, List, [], ◌∷◌, ◌++◌, length,
  length-append, ◌||◌, ◌∙◌, ◌≤◌, ite, str_dec,
}
use stockev_qtask_list.Worker.Pool.{
  Poller, off, idle, seeking, holding, leaving, Stage, waiting, admitted, handling, unhandled, Pool,
  new_pool, stop, finish, Step, starts, looks, acquires, times_out, gives_up, submits, admits, runs,
  lacks_handler, refuses, finishes, is_stopped, leaves, drained, Steps, none_more, then_step,
}

-- The poller's permit.
abbrev pub held_permits : Poller → ℕ
held_permits holding = 1
held_permits off = 0
held_permits idle = 0
held_permits seeking = 0
held_permits leaving = 0

abbrev permits_of : Pool → ℕ
permits_of p = p.permits + held_permits p.poller + length p.in_flight

length-middle :
    (xs ys : List (String × Stage)) (x : String × Stage)
    → length (xs ++ x ∷ ys) ≡ suc (length xs + length ys)
length-middle xs ys x = omega (arith, length-append xs (x ∷ ys))

Step-permits : (p q : Pool) → Step p q → permits_of q ≡ permits_of p
unfolding stop finish
Step-permits p q (starts o n) = ground arith
Step-permits p q (looks o r) = ground arith
Step-permits p q (acquires n o e) = ground arith
Step-permits p q (times_out o r) = ground arith
Step-permits p q (gives_up o) = ground arith
Step-permits p q (submits id o) = ground (arith, length-append p.in_flight ((id, waiting) ∷ []))
Step-permits p q (admits id xs ys e n) =
    ground (arith, length-middle xs ys (id, waiting), length-middle xs ys (id, admitted))
Step-permits p q (runs id xs ys e) =
    ground (arith, length-middle xs ys (id, admitted), length-middle xs ys (id, handling))
Step-permits p q (lacks_handler id xs ys e) =
    ground (arith, length-middle xs ys (id, admitted), length-middle xs ys (id, unhandled))
Step-permits p q (refuses id xs ys e n) =
    ground (arith, length-middle xs ys (id, waiting), length-middle xs ys (id, unhandled))
Step-permits p q (finishes id stage b xs ys e f) =
    ground (arith, length-middle xs ys (id, stage), length-append xs ys)
Step-permits p q is_stopped = refl
Step-permits p q (leaves o r) = ground arith
Step-permits p q (drained o e) = ground arith

Steps-permits : (p q : Pool) → Steps p q → permits_of q ≡ permits_of p
Steps-permits p q none_more = refl
Steps-permits p q (then_step {q = m} ss s) = Step-permits m q s ∙ Steps-permits p m ss

-- In every order of the steps, the free permits, the poller's own and one for each submitted
-- claim are twice the number of handler threads: none is lost, and a worker holds no more claims.
pub permits_are_kept :
    (n : ℕ) (p : Pool)
    → Steps (new_pool n) p
    → p.permits + held_permits p.poller + length p.in_flight ≡ n * 2
unfolding new_pool
permits_are_kept n p ss = omega (arith, Steps-permits (new_pool n) p ss)

-- How often a task's handler has started, and how many of its claims have passed the check and
-- have not started.
abbrev pub starts_of : String → List String → ℕ
starts_of id [] = 0
starts_of id (j ∷ js) = ite (str_dec j id) 1 0 + starts_of id js

abbrev pub is_admitted : Stage → ℕ
is_admitted waiting = 0
is_admitted admitted = 1
is_admitted handling = 0
is_admitted unhandled = 0

abbrev pub admitted_of : String → List (String × Stage) → ℕ
admitted_of id [] = 0
admitted_of id ((j, stage) ∷ cs) = ite (str_dec j id) (is_admitted stage) 0 + admitted_of id cs

admitted_of-append :
    (id : String) (xs ys : List (String × Stage))
    → admitted_of id (xs ++ ys) ≡ admitted_of id xs + admitted_of id ys
admitted_of-append id [] ys = omega arith
admitted_of-append id ((j, stage) ∷ xs) ys = omega (arith, admitted_of-append id xs ys)

-- Both together; with the stop, what a step keeps.
abbrev pub possible : String → Pool → ℕ
possible id p = starts_of id p.handled + admitted_of id p.in_flight

IsStopping : String → Pool → Pool → Type 0
IsStopping id p q = (q.shutdown ≡ true) × (possible id q ≤ possible id p)

Step-stopped : (id : String) (p q : Pool) → Step p q → p.shutdown ≡ true → IsStopping id p q
unfolding stop finish IsStopping
Step-stopped id p q (starts o n) down = ground arith
Step-stopped id p q (looks o r) down = ground arith
Step-stopped id p q (acquires n o k) down = ground arith
Step-stopped id p q (times_out o r) down = ground arith
Step-stopped id p q (gives_up o) down = ground arith
Step-stopped id p q (submits j o) down =
    ground (arith, admitted_of-append id p.in_flight ((j, waiting) ∷ []))
Step-stopped id p q (admits j xs ys k n) down = ground arith
Step-stopped id p q (runs j xs ys k) down = ground (
  arith,
  admitted_of-append id xs ((j, admitted) ∷ ys),
  admitted_of-append id xs ((j, handling) ∷ ys),
)
Step-stopped id p q (lacks_handler j xs ys k) down = ground (
  arith,
  admitted_of-append id xs ((j, admitted) ∷ ys),
  admitted_of-append id xs ((j, unhandled) ∷ ys),
)
Step-stopped id p q (refuses j xs ys k n) down = ground (
  arith,
  admitted_of-append id xs ((j, waiting) ∷ ys),
  admitted_of-append id xs ((j, unhandled) ∷ ys),
)
Step-stopped id p q (finishes j stage b xs ys k f) down =
    ground (arith, admitted_of-append id xs ((j, stage) ∷ ys), admitted_of-append id xs ys)
Step-stopped id p q is_stopped down = ground arith
Step-stopped id p q (leaves o r) down = ground arith
Step-stopped id p q (drained o k) down = ground arith

Steps-stopped : (id : String) (p q : Pool) → p.shutdown ≡ true → Steps p q → IsStopping id p q
unfolding IsStopping
Steps-stopped id p q down none_more = (down, omega arith)
Steps-stopped id p q down (then_step {q = m} ss s) =
    let before = Steps-stopped id p m down ss in
    let one = Step-stopped id m q s before.0 in (one.0, omega (arith, one.1, before.1))

-- After a stop no claim passes the check before a handler, in whatever order the threads go on: a
-- task's handler has started at most as often as before the stop, and once more for each of its
-- claims that had passed the check then and had not started.
pub stopped_starts_none :
    (p q : Pool) (id : String)
    → Steps (stop p) q
    → starts_of id q.handled + admitted_of id q.in_flight
      ≤ starts_of id p.handled + admitted_of id p.in_flight
unfolding stop IsStopping
stopped_starts_none p q id ss = (Steps-stopped id (stop p) q refl ss).1

-- Outside `run` nothing is in flight, and inside it the heartbeat loop goes on.
abbrev IsBeating : Pool → Type 0
IsBeating p = ((p.poller ≡ off) × (p.in_flight ≡ [])) ⊎ ((p.running || p.draining) ≡ true)

append_is_inhabited {ℓ} : {A : Type ℓ} (xs ys : List A) (x : A) → xs ++ x ∷ ys ≢ []
append_is_inhabited [] ys x e = ground arith
append_is_inhabited (y ∷ xs) ys x e = ground arith

Step-IsBeating : (p q : Pool) → Step p q → IsBeating p → IsBeating q
unfolding stop finish
Step-IsBeating p q (starts o n) h = inr (ground arith)
Step-IsBeating p q (looks o r) h = inr (ground arith)
Step-IsBeating p q (acquires n o e) h = inr (ground arith)
Step-IsBeating p q (times_out o r) h = inr (ground arith)
Step-IsBeating p q (gives_up o) h = inr (ground arith)
Step-IsBeating p q (submits id o) h = inr (ground arith)
Step-IsBeating p q (admits id xs ys e n) h =
    inr (ground (arith, append_is_inhabited xs ys (id, waiting)))
Step-IsBeating p q (runs id xs ys e) h =
    inr (ground (arith, append_is_inhabited xs ys (id, admitted)))
Step-IsBeating p q (lacks_handler id xs ys e) h =
    inr (ground (arith, append_is_inhabited xs ys (id, admitted)))
Step-IsBeating p q (refuses id xs ys e n) h =
    inr (ground (arith, append_is_inhabited xs ys (id, waiting)))
Step-IsBeating p q (finishes id stage b xs ys e f) h =
    inr (ground (arith, append_is_inhabited xs ys (id, stage)))
Step-IsBeating p q is_stopped (inl h) = inl (ground arith, ground arith)
Step-IsBeating p q is_stopped (inr h) = inr (ground arith)
Step-IsBeating p q (leaves o r) h = inr (ground arith)
Step-IsBeating p q (drained o e) h = inl (refl, e)

Steps-IsBeating : (p q : Pool) → Steps p q → IsBeating p → IsBeating q
Steps-IsBeating p q none_more h = h
Steps-IsBeating p q (then_step {q = m} ss s) h = Step-IsBeating m q s (Steps-IsBeating p m ss h)

-- In every order of the steps, the heartbeat and the renewal of leases go on as long as a claim
-- is in flight, also after a stop.
pub heartbeat_outlasts_claims :
    (n : ℕ) (p : Pool) → Steps (new_pool n) p → p.in_flight ≢ [] → (p.running || p.draining) ≡ true
unfolding new_pool
heartbeat_outlasts_claims n p ss some_claim =
    elim (Steps-IsBeating (new_pool n) p ss (inl (refl, refl))) [
      | inl (outside, none_left) ↦ absurd (some_claim none_left)
      | inr beating ↦ beating
    ]
