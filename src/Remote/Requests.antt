-- ===== src/Remote/Requests.antt =====
-- The request handlers of qtask_list/remote_storage/server.py.
use Prim.Native.String.{◌++◌ as text_append}
use mathlib.Core.Option.{Option, none, some}
use stockev_qtask_list.Base.{
  ℕ, ◌+◌, String, Bool, true, false, List, [], ◌∷◌, ◌++◌, ltb, ite, str_dec, update, length,
  if◌then◌else◌,
}
use stockev_qtask_list.Remote.Scores.{zrem, zadd}
use stockev_qtask_list.Remote.Disk.{
  Blob, Server, find_file, unlink, is_key, extend_retention, promote_pending,
}

-- The address of a client: `ip_address(host).is_loopback`, or no address at all.
pub data Host : Type 0 where
  loopback elsewhere no_address : Host

pub data Access : Type 0 where
  granted unauthenticated forbidden : Access

-- `storage_access_control`: the configured token, the header, the client.
unfoldable pub access_control : String → Option String → Host → Access
access_control token header host =
    ite (str_dec token "")
      (elim host [ loopback ↦ granted | elsewhere ↦ forbidden | no_address ↦ forbidden ])
      (elim header [
        | none ↦ unauthenticated
        | some given ↦ ite (str_dec given (text_append "Bearer " token)) granted unauthenticated
      ])

-- MAX_UPLOAD_BYTES is configuration; PENDING_GRACE_SECONDS is a day.
abbrev pub pending_grace : ℕ
pending_grace = 86400000000

abbrev pub one_hour : ℕ
one_hour = 3600000000

-- The form field `retain_until`: missing, empty, a finite number from 0 on, or another text.
pub data RetainForm : Type 0 where
  not_given empty_text bad_text : RetainForm
  until : ℕ → RetainForm

pub data ManagedForm : Type 0 where
  unmanaged managed bad_flag : ManagedForm

-- The HTTP answers.
pub record Uploaded : Type 0 where
  pub key : String
  pub created : Bool
  pub is_pending : Bool
  pub retained : Option ℕ
  pub size : ℕ

pub data Answer {ℓ} (A : Type ℓ) : Type ℓ where
  good : A → Answer A
  bad_request not_found too_large unavailable : Answer A

abbrev pub requested_retain : RetainForm → Answer (Option ℕ)
requested_retain not_given = good none
requested_retain empty_text = good (some 0)
requested_retain bad_text = bad_request
requested_retain (until t) = good (some t)

-- The checks of `upload` before anything is written.
pub record Upload : Type 0 where
  pub content : List ℕ
  pub asked : Option ℕ
  pub is_managed : Bool

unfoldable pub check_upload : ℕ → Option (List ℕ) → RetainForm → ManagedForm → Answer Upload
check_upload limit none retain flag = bad_request
check_upload limit (some []) retain flag = bad_request
check_upload limit (some (b ∷ bs)) retain flag =
    if ltb limit (length (b ∷ bs)) then too_large else elim flag [
      | bad_flag ↦ bad_request
      | unmanaged ↦ elim (requested_retain retain) [
        | good r ↦ good (record { content = b ∷ bs; asked = r; is_managed = false })
        | bad_request ↦ bad_request
        | not_found ↦ not_found
        | too_large ↦ too_large
        | unavailable ↦ unavailable
      ]
      | managed ↦ elim (requested_retain retain) [
        | good r ↦ good (record { content = b ∷ bs; asked = r; is_managed = true })
        | bad_request ↦ bad_request
        | not_found ↦ not_found
        | too_large ↦ too_large
        | unavailable ↦ unavailable
      ]
    ]

-- The file is written only where the key is new.
unfoldable pub write_file : String → List ℕ → Server → Bool × ℕ × Server
write_file k content s = elim (find_file k s.files) [
  | some b ↦ (false, length b.content, s)
  | none ↦ (
    true,
    length content,
    record s { files = s.files ++ (k, record { content = content; mtime = s.now }) ∷ [] },
  )
]

unfoldable pub uploaded : String → Bool → Bool → ℕ → Option ℕ × Server → Answer Uploaded × Server
uploaded k created pending size (retained, s) = (
  good (record {
    key = k;
    created = created;
    is_pending = pending;
    retained = retained;
    size = size;
  }),
  s,
)

unfoldable pub remove_object : String → Server → Server
remove_object k s = record s { files = unlink k s.files; metas = update s.metas k none }

-- A managed object gets a finite retention first, so that a crash before the log entry leaves no
-- object for ever. `redis_now` is `none` where Redis cannot be reached.
unfoldable pub store_managed : String → Bool → ℕ → Option ℕ → Server → Answer Uploaded × Server
unfolding remove_object uploaded
store_managed k created size redis_now s =
    let u = (extend_retention k (some (s.now + pending_grace + one_hour)) (some true) s).1 in
    elim redis_now [
      | none ↦ (unavailable, remove_object k u)
      | some t ↦ uploaded k created true size (
          extend_retention k (some 0) (some true)
            (record u { pending = zadd (t + pending_grace) k u.pending }))
    ]

unfoldable pub store_upload : String → Option ℕ → Upload → Server → Answer Uploaded × Server
unfolding uploaded
store_upload k redis_now up s =
    let w : Bool × ℕ × Server = write_file k up.content s in
    if up.is_managed
    then store_managed k w.0 w.1 redis_now w.2
    else uploaded k w.0 false w.1 (extend_retention k up.asked (some true) w.2)

-- `upload`, with the key that `_generate_key` draws.
unfoldable pub upload :
    ℕ
    → String
    → Option ℕ
    → Option (List ℕ)
    → RetainForm
    → ManagedForm
    → Server
    → Answer Uploaded × Server
upload limit k redis_now file retain flag s = elim (check_upload limit file retain flag) [
  | good up ↦ store_upload k redis_now up s
  | bad_request ↦ (bad_request, s)
  | not_found ↦ (not_found, s)
  | too_large ↦ (too_large, s)
  | unavailable ↦ (unavailable, s)
]

unfoldable pub download : String → Server → Answer (List ℕ)
download k s =
    if is_key k
    then elim (find_file k s.files) [ none ↦ not_found | some b ↦ good b.content ]
    else bad_request

-- Redis answers, cannot be reached, or is lost before the call that ends the deletion.
pub data Redis : Type 0 where
  online lost : ℕ → Redis
  offline : Redis

-- What is left after the transaction at the end of `delete`.
unfoldable pub forget : String → Server → Server
forget k s = record s { gc = zrem k s.gc; claims = update s.claims k false }

unfoldable pub delete_known : String → Bool → Server → Answer String × Server
unfolding forget remove_object
delete_known k is_lost s = elim (find_file k s.files) [
  | none ↦
      if is_lost
      then (unavailable, record s { metas = update s.metas k none })
      else (not_found, record s { metas = update s.metas k none; gc = zrem k s.gc })
  | some b ↦
      if is_lost then (unavailable, remove_object k s) else (good k, forget k (remove_object k s))
]

-- `delete`.
unfoldable pub delete : String → Redis → Server → Answer String × Server
delete k r s =
    if is_key k
    then elim r [
      | offline ↦ (unavailable, s)
      | online t ↦ delete_known k false (promote_pending k t true s).1
      | lost t ↦ delete_known k true (promote_pending k t true s).1
    ]
    else (bad_request, s)

-- `retain`: the body's number is missing, or finite and not negative, or refused.
pub data RetainBody : Type 0 where
  no_number bad_number : RetainBody
  number : ℕ → RetainBody

abbrev pub retain_known : String → ℕ → Server → Answer (Option ℕ) × Server
retain_known k t s =
    if is_key k
    then elim (find_file k s.files) [
      | none ↦ (not_found, s)
      | some b ↦ let (r, u) = extend_retention k (some t) none s in (good r, u)
    ]
    else (bad_request, s)

-- `request.retain_until or 0`.
unfoldable pub retain : String → RetainBody → Server → Answer (Option ℕ) × Server
retain k no_number s = retain_known k 0 s
retain k bad_number s = (bad_request, s)
retain k (number t) s = retain_known k t s

-- `health`: the number of objects and their total size.
unfoldable pub health : List (String × Blob) → ℕ × ℕ
health [] = (0, 0)
health ((k, b) ∷ fs) = let (n, total) = health fs in (n + 1, total + length b.content)
