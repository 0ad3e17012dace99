-- ===== src/Examples/Payloads.antt =====
-- A payload at the object server, and the claim that needs it.
use mathlib.Core.Option.{none, some}
use stockev_qtask_list.Models.{is_empty}
use stockev_qtask_list.Base.{ℕ, ◌+◌, String, true, false, ◌≡◌, inr, refl, [], ◌∷◌, str_dec}
use stockev_qtask_list.Store.Tasks.{failed, in_dlq, in_delay}
use stockev_qtask_list.Store.{count, put_task, add_deadline, zadd}
use stockev_qtask_list.State.Settle.{misses}
use stockev_qtask_list.State.Enqueue as Script
use stockev_qtask_list.State.Enqueue.{
  payload_is_expired, admit, find_owner, owner_info, accept, take_ownership, owned, register,
  index_history, place, adopt_payload, adopted, is_uploaded,
}
use stockev_qtask_list.State.Supersede.{raise_supersede, raised}
use stockev_qtask_list.Queue.Submit.{build, run_script, enqueue_args, task_record}
use stockev_qtask_list.Queue.Settling.{fail, dead_message, retry_message, backoff}
use stockev_qtask_list.Queue.Outcomes.{Settled}
use stockev_qtask_list.Remote.Disk.{Server, find_file, is_key, all_hex}
use stockev_qtask_list.Remote.Requests.{granted, Uploaded, download}
use stockev_qtask_list.Remote.Client.{
  object_missing, transient, raises, answered, unanswered, timeout, send_request, network_error,
  classify, load, payload_failure,
}
use stockev_qtask_list.Remote.Client.Delivery.{missing_payload-Settled, lost_request-Settled}
use stockev_qtask_list.Examples.{config, text, queued_task, claimed}
use stockev_qtask_list.Examples.Calls.{known, held}

abbrev key : String
key = "0123456789abcdef0123456789abcdef"

abbrev server : Server
server = record {
  now = 50;
  files = [];
  metas = λ k. none;
  pending = [];
  gc = [];
  claims = λ k. false;
}

abbrev stored : Uploaded
stored = record { key = key; created = true; is_pending = true; retained = some 0; size = 1 }

key_is_valid : is_key key ≡ true
unfolding is_key all_hex
key_is_valid = refl

no_file : find_file key server.files ≡ none
unfolding find_file
no_file = refl

is_missing :
    (load (answered none) granted key server).0 ≡ raises (object_missing "storage_object_missing")
unfolding load send_request download classify find_file is_key all_hex is_empty str_dec
is_missing = refl

missing_payload-Settled_example :
    Settled
      (fail config "w1" text
        (payload_failure (object_missing "storage_object_missing") "gone" 1000)
        claimed)
      []
      claimed.delay
      (dead_message text "storage_object_missing" "gone" ∷ claimed.dlq)
      []
      "t1"
      λ v. (v.outcome ≡ failed) × (v.location ≡ in_dlq)
unfolding build run_script enqueue_args task_record Script.enqueue payload_is_expired admit
    find_owner owner_info accept take_ownership owned register index_history place adopt_payload
    adopted raise_supersede raised add_deadline put_task count str_dec is_uploaded
missing_payload-Settled_example =
    missing_payload-Settled config "w1" text claimed queued_task [] known refl held none key server
      (object_missing "storage_object_missing") "gone" 1000 key_is_valid no_file is_missing

is_lost :
    (load (unanswered timeout) granted key server).0 ≡ raises (transient "storage_timeout" none)
unfolding load send_request network_error is_empty str_dec
is_lost = refl

abbrev run_at : ℕ
run_at = claimed.now + backoff config 0 1000 none

lost_request-Settled_example :
    (code : String) × Settled
      (fail config "w1" text
        (payload_failure (transient "storage_timeout" none) "late" 1000)
        claimed)
      []
      (zadd run_at (retry_message text run_at code "late") claimed.delay)
      claimed.dlq
      []
      "t1"
      λ v. (v.outcome ≡ queued_task.outcome) × (v.location ≡ in_delay)
unfolding build run_script enqueue_args task_record Script.enqueue payload_is_expired admit
    find_owner owner_info accept take_ownership owned register index_history place adopt_payload
    adopted raise_supersede raised add_deadline put_task count str_dec is_uploaded misses
lost_request-Settled_example =
    lost_request-Settled config "w1" text claimed queued_task [] known refl held
      (unanswered timeout) granted timeout key server (transient "storage_timeout" none) "late" 1000
      (inr refl) is_lost refl refl
