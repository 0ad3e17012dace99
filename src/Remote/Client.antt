-- ===== src/Remote/Client.antt =====
-- The storage client of qtask_list/storage.py, over the server's handlers and a network that can
-- lose a request or its answer.
pub mod Delivery
use mathlib.Core.Option.{Option, none, some}
use stockev_qtask_list.Base.{
  ℕ, String, Bool, true, false, ◌||◌, ◌==◌, List, [], ◌∷◌, leb, if◌then◌else◌,
}
use stockev_qtask_list.Remote.Disk.{Server}
use stockev_qtask_list.Remote.Requests.{
  Access, granted, unauthenticated, forbidden, Answer, good, bad_request, not_found, too_large,
  unavailable, Uploaded, RetainForm, until, managed, unmanaged, ManagedForm, RetainBody, no_number,
  number, upload, download, retain, delete, Redis,
}
use stockev_qtask_list.Models.{is_empty}
use stockev_qtask_list.Queue.Settling.{Failure}

-- The errors of qtask_list/errors.py that `_request` raises: the object is missing, the server or
-- the client is set up wrongly, or the call may be tried again. With the code and, for the last,
-- the server's Retry-After.
pub data StorageError : Type 0 where
  object_missing configuration : String → StorageError
  transient : String → Option ℕ → StorageError

-- `value_error` is the ValueError of an argument that is refused before any request.
pub data Result {ℓ} (A : Type ℓ) : Type ℓ where
  ok : A → Result A
  raises : StorageError → Result A
  value_error : Result A

-- The exceptions of the HTTP library.
pub data NetworkError : Type 0 where
  timeout connection other_network : NetworkError

-- How a request goes: it is answered, with the Retry-After of its answer, or an error ends it
-- before or after the server has handled it.
pub data Network : Type 0 where
  answered : Option ℕ → Network
  unsent unanswered : NetworkError → Network

unfoldable pub network_error : NetworkError → StorageError
network_error timeout = transient "storage_timeout" none
network_error connection = transient "storage_connection" none
network_error other_network = transient "storage_network" none

-- The status of a handler's exception.
abbrev pub status_of {ℓ} : {A : Type ℓ} → Answer A → ℕ
status_of (good a) = 200
status_of bad_request = 400
status_of not_found = 404
status_of too_large = 413
status_of unavailable = 503

-- `_request` for a status that is no success.
unfoldable pub classify : ℕ → Option ℕ → StorageError
classify status after =
    if status == 404
    then object_missing "storage_object_missing"
    else if status == 401 || status == 403
    then configuration "storage_auth"
    else if status == 429
    then transient "storage_throttled" after
    else if status == 408 || status == 425 || leb 500 status
    then transient "storage_transient" after
    else configuration "storage_request"

abbrev pub read_answer {ℓ} : {A : Type ℓ} → Option ℕ → Answer A → Result A
read_answer after (good a) = ok a
read_answer after bad_request = raises (classify 400 after)
read_answer after not_found = raises (classify 404 after)
read_answer after too_large = raises (classify 413 after)
read_answer after unavailable = raises (classify 503 after)

-- The server's side: the access control in front of the handler.
abbrev pub behind_access {ℓ} :
    {A : Type ℓ} → Access → Option ℕ → (Server → Answer A × Server) → Server → Result A × Server
behind_access granted after handler s = (read_answer after (handler s).0, (handler s).1)
behind_access unauthenticated after handler s = (raises (classify 401 after), s)
behind_access forbidden after handler s = (raises (classify 403 after), s)

-- `_request`.
unfoldable pub send_request {ℓ} :
    {A : Type ℓ} → Network → Access → (Server → Answer A × Server) → Server → Result A × Server
send_request (answered after) access handler s = behind_access access after handler s
send_request (unsent e) access handler s = (raises (network_error e), s)
send_request (unanswered e) access handler s =
    (raises (network_error e), (behind_access access none handler s).1)

-- `save` and `save_managed`: no retention is the form's "0". The server draws the key.
abbrev pub retain_form : Option ℕ → RetainForm
retain_form none = until 0
retain_form (some t) = until t

abbrev pub managed_form : Bool → ManagedForm
managed_form true = managed
managed_form false = unmanaged

unfoldable pub save :
    Network
    → Access
    → ℕ
    → String
    → Option ℕ
    → List ℕ
    → Option ℕ
    → Bool
    → Server
    → Result Uploaded × Server
save net access limit k redis_now [] until_time is_managed s = (value_error, s)
save net access limit k redis_now (b ∷ bs) until_time is_managed s =
    send_request net access
      (upload limit k redis_now (some (b ∷ bs)) (retain_form until_time) (managed_form is_managed))
      s

-- `load`.
unfoldable pub load : Network → Access → String → Server → Result (List ℕ) × Server
load net access k s =
    if is_empty k then (value_error, s) else send_request net access (λ u. (download k u, u)) s

abbrev pub retain_body : Option ℕ → RetainBody
retain_body none = no_number
retain_body (some t) = number t

-- `extend_retention`.
unfoldable pub ask_retention :
    Network → Access → String → Option ℕ → Server → Result (Option ℕ) × Server
ask_retention net access k t s =
    if is_empty k then (value_error, s) else send_request net access (retain k (retain_body t)) s

-- `delete`: whether the object was deleted. An error is not raised, but for a missing object
-- where that is not allowed.
abbrev pub delete_answer {ℓ} : {A : Type ℓ} → Bool → Result A → Result Bool
delete_answer missing_ok (ok a) = ok true
delete_answer missing_ok value_error = value_error
delete_answer true (raises e) = ok false
delete_answer false (raises (object_missing code)) = raises (object_missing code)
delete_answer false (raises (configuration code)) = ok false
delete_answer false (raises (transient code after)) = ok false

unfoldable pub delete_object :
    Network → Access → String → Redis → Bool → Server → Result Bool × Server
delete_object net access k r missing_ok s =
    let (a, u) = send_request net access (delete k r) s in
    if is_empty k then (ok false, s) else (delete_answer missing_ok a, u)

-- What `_claim_popped` of qtask_list/queue.py makes of a payload's storage error.
unfoldable pub payload_failure : StorageError → String → ℕ → Failure
payload_failure (transient code after) reason jitter = record {
  code = code;
  reason = reason;
  retry_after = after;
  permanent = false;
  jitter = jitter;
}
payload_failure (object_missing code) reason jitter = record {
  code = code;
  reason = reason;
  retry_after = none;
  permanent = true;
  jitter = jitter;
}
payload_failure (configuration code) reason jitter = record {
  code = code;
  reason = reason;
  retry_after = none;
  permanent = true;
  jitter = jitter;
}
