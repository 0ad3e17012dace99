-- ===== src/Worker/Pool.antt =====
-- The threads of a worker in qtask_list/worker.py as steps: `run`, `stop`, `_worker_loop`,
-- `_poll_once` and `_process_task_with_semaphore`, with more than one handler thread. A step ends
-- where another thread can run.
pub mod Reached
pub mod Stopping
use stockev_qtask_list.Base.{
  ℕ, suc, ◌+◌, ◌*◌, String, Bool, true, false, ◌≡◌, List, [], ◌∷◌, ◌++◌, if◌then◌else◌, ◌||◌,
}

-- The polling thread: not in `run`, at the head of its loop, waiting for the semaphore, holding a
-- permit, or after its loop.
pub data Poller : Type 0 where
  off idle seeking holding leaving : Poller

-- A submitted claim waits for a thread, or has passed the check for a stop, or its handler runs, or
-- its handler does not run: it was given back or there is none.
pub data Stage : Type 0 where
  waiting admitted handling unhandled : Stage

-- Where `_process_task` can end.
abbrev pub can_end : Stage → Bool
can_end waiting = false
can_end admitted = false
can_end handling = true
can_end unhandled = true

pub record Pool : Type 0 where
  pub running : Bool
  pub draining : Bool
  pub shutdown : Bool
  pub poller : Poller
  pub permits : ℕ
  pub in_flight : List (String × Stage)
  pub abandoned : List String
  pub handled : List String

-- `max_workers` threads share twice as many permits.
unfoldable pub new_pool : ℕ → Pool
new_pool max_workers = record {
  running = false;
  draining = false;
  shutdown = false;
  poller = off;
  permits = max_workers * 2;
  in_flight = [];
  abandoned = [];
  handled = [];
}

-- `stop`.
unfoldable pub stop : Pool → Pool
stop p = record p { running = false; draining = p.running || p.draining; shutdown = true }

-- `_process_task_with_semaphore` at its end: an interrupted attempt is spent.
unfoldable pub finish : String → Bool → List (String × Stage) → Pool → Pool
finish id interrupted rest p = record p {
  in_flight = rest;
  permits = suc p.permits;
  abandoned = if interrupted then id ∷ p.abandoned else p.abandoned;
}

-- The lock around the check before a handler and around `stop` makes each one step; the handler
-- starts later, without the lock.
pub data Step : Pool → Pool → Type 0 where
  starts :
      {p : Pool}
      → p.poller ≡ off
      → p.shutdown ≡ false
      → Step p (record p { running = true; draining = false; poller = idle })
  looks : {p : Pool} → p.poller ≡ idle → p.running ≡ true → Step p (record p { poller = seeking })
  acquires :
      {p : Pool} (n : ℕ)
      → p.poller ≡ seeking
      → p.permits ≡ suc n
      → Step p (record p { poller = holding; permits = n })
  times_out :
      {p : Pool} → p.poller ≡ seeking → p.running ≡ false → Step p (record p { poller = idle })
  gives_up :
      {p : Pool} → p.poller ≡ holding → Step p (record p { poller = idle; permits = suc p.permits })
  submits :
      {p : Pool} (id : String)
      → p.poller ≡ holding
      → Step p (record p { poller = idle; in_flight = p.in_flight ++ (id, waiting) ∷ [] })
  admits :
      {p : Pool} (id : String) (xs ys : List (String × Stage))
      → p.in_flight ≡ xs ++ (id, waiting) ∷ ys
      → p.shutdown ≡ false
      → Step p (record p { in_flight = xs ++ (id, admitted) ∷ ys })
  runs :
      {p : Pool} (id : String) (xs ys : List (String × Stage))
      → p.in_flight ≡ xs ++ (id, admitted) ∷ ys
      → Step p (record p { in_flight = xs ++ (id, handling) ∷ ys; handled = id ∷ p.handled })
  lacks_handler :
      {p : Pool} (id : String) (xs ys : List (String × Stage))
      → p.in_flight ≡ xs ++ (id, admitted) ∷ ys
      → Step p (record p { in_flight = xs ++ (id, unhandled) ∷ ys })
  refuses :
      {p : Pool} (id : String) (xs ys : List (String × Stage))
      → p.in_flight ≡ xs ++ (id, waiting) ∷ ys
      → p.shutdown ≡ true
      → Step p (record p { in_flight = xs ++ (id, unhandled) ∷ ys })
  finishes :
      {p : Pool} (id : String) (stage : Stage) (interrupted : Bool) (xs ys : List (String × Stage))
      → p.in_flight ≡ xs ++ (id, stage) ∷ ys
      → can_end stage ≡ true
      → Step p (finish id interrupted (xs ++ ys) p)
  is_stopped : {p : Pool} → Step p (stop p)
  leaves :
      {p : Pool}
      → p.poller ≡ idle
      → p.running ≡ false
      → Step p (record (stop p) { poller = leaving })
  drained :
      {p : Pool}
      → p.poller ≡ leaving
      → p.in_flight ≡ []
      → Step p (record p { draining = false; poller = off })

-- Any number of steps.
pub data Steps : Pool → Pool → Type 0 where
  none_more : {p : Pool} → Steps p p
  then_step : {p q r : Pool} → Steps p q → Step q r → Steps p r
