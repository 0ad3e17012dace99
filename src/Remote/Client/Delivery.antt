-- ===== src/Remote/Client/Delivery.antt =====
-- From a producer's upload to a worker's download, through qtask_list/storage.py.
use mathlib.Core.Option.{Option, none, some}
use stockev_qtask_list.Base.{
  ℕ, ◌+◌, String, true, false, ◌≡◌, ◌⊎◌, refl, arith, List, ◌∷◌, leb, ◌≢◌, str_dec,
}
use stockev_qtask_list.Store.Messages.{Message, v2, Envelope}
use stockev_qtask_list.Store.Tasks.{Task, failed, in_dlq, in_delay}
use stockev_qtask_list.Store.{Store, lrem, zadd}
use stockev_qtask_list.State.Replies.{is_terminal}
use stockev_qtask_list.State.Settle.{misses}
use stockev_qtask_list.Models.{is_empty}
use stockev_qtask_list.Queue.Config.{Config}
use stockev_qtask_list.Queue.Settling.{fail, dead_message, retry_message, backoff}
use stockev_qtask_list.Queue.Outcomes.{Settled, fail-Settled, fail-Retried}
use stockev_qtask_list.Remote.Disk.{Server, find_file, is_key}
use stockev_qtask_list.Remote.Requests.{Access, granted, download}
use stockev_qtask_list.Remote.Client.{
  StorageError, object_missing, configuration, transient, Result, ok, raises, value_error, Network,
  answered, unsent, unanswered, NetworkError, timeout, connection, other_network, network_error,
  classify, send_request, load, payload_failure,
}

key_is_given : (k : String) → is_key k ≡ true → is_empty k ≡ false
unfolding is_key is_empty
key_is_given k e = elim (str_dec k "") [ yes p ↦ absurd (no_key (rw p at e)) | no n ↦ ground arith ]
  where
    no_key : is_key "" ≢ true
    no_key h = ground arith

-- The content, or an error that does not say that the object is missing.
abbrev pub Delivered : List ℕ → Result (List ℕ) → Type 0
Delivered content (ok found) = found ≡ content
Delivered content (raises (object_missing code)) = ⊥
Delivered content (raises (configuration code)) = Unit {0}
Delivered content (raises (transient code after)) = Unit {0}
Delivered content value_error = ⊥

load-missing :
    (after : Option ℕ) (k : String) (u : Server) (err : StorageError)
    → is_key k ≡ true
    → find_file k u.files ≡ none
    → (load (answered after) granted k u).0 ≡ raises err
    → err ≡ object_missing "storage_object_missing"
unfolding load send_request download classify
load-missing after k u err valid gone e = ground (arith, key_is_given k valid)

load-lost :
    (net : Network) (access : Access) (n : NetworkError) (k : String) (u : Server)
    (err : StorageError)
    → (net ≡ unsent n) ⊎ (net ≡ unanswered n)
    → (load net access k u).0 ≡ raises err
    → (code : String) × (err ≡ transient code none)
unfolding load send_request network_error
load-lost net access timeout k u err h e = ("storage_timeout", ground arith)
load-lost net access connection k u err h e = ("storage_connection", ground arith)
load-lost net access other_network k u err h e = ("storage_network", ground arith)

module _ (c : Config) (w : String) (m : Envelope) (s : Store) (t : Task)
    (ps : List (String × Message)) (known : s.tasks m.task_id ≡ some t)
    (live : is_terminal t.outcome ≡ false) (held : lrem w (v2 m) s.processing ≡ some ps) where
  -- For a message in the worker's list whose task has no outcome: where the object server answers
  -- and has no such object, it ends as a dead letter with the code "storage_object_missing",
  -- whatever budget is left; the task has failed.
  pub missing_payload-Settled :
      (after : Option ℕ) (k : String) (u : Server) (err : StorageError) (reason : String)
      (jitter : ℕ)
      → is_key k ≡ true
      → find_file k u.files ≡ none
      → (load (answered after) granted k u).0 ≡ raises err
      → Settled
          (fail c w m (payload_failure err reason jitter) s)
          ps
          s.delay
          (dead_message m "storage_object_missing" reason ∷ s.dlq)
          s.ready
          m.task_id
          λ v. (v.outcome ≡ failed) × (v.location ≡ in_dlq)
  unfolding payload_failure
  missing_payload-Settled after k u err reason jitter valid gone e =
      rw (load-missing after k u err valid gone e) (
        fail-Settled c w m s t ps known live held
          (payload_failure (object_missing "storage_object_missing") reason jitter) refl)

  -- For a message in the worker's list whose task has no outcome: where the request for its payload
  -- gets lost, before or after the object server, it is put into the delay set until after its
  -- backoff, if budget is left and the next attempt would be before the deadline; the task's
  -- outcome stays.
  pub lost_request-Settled :
      (net : Network) (access : Access) (n : NetworkError) (k : String) (u : Server)
      (err : StorageError) (reason : String) (jitter : ℕ)
      → (net ≡ unsent n) ⊎ (net ≡ unanswered n)
      → (load net access k u).0 ≡ raises err
      → leb m.max_attempts m.attempt ≡ false
      → misses t.start_deadline_at (s.now + backoff c m.attempt jitter none) ≡ false
      → (code : String) × Settled
          (fail c w m (payload_failure err reason jitter) s)
          ps
          (zadd
            (s.now + backoff c m.attempt jitter none)
            (retry_message m (s.now + backoff c m.attempt jitter none) code reason)
            s.delay)
          s.dlq
          s.ready
          m.task_id
          λ v. (v.outcome ≡ t.outcome) × (v.location ≡ in_delay)
  unfolding payload_failure
  lost_request-Settled net access n k u err reason jitter h e again timely =
      let (code, lost) = load-lost net access n k u err h e in
      (
        code,
        rw (lost) (
            fail-Retried c w m s t ps known live held
              (payload_failure (transient code none) reason jitter) (ground arith) timely),
      )
