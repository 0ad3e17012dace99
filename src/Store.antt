-- ===== src/Store.antt =====
-- The Redis keys of one queue, as the scripts of qtask_list/state.py see them, and the Redis
-- commands that the scripts share. A key that holds another Redis type makes a script stop
-- before its first write (`_guard_key_types`), so each key has the one type written here.
pub mod Messages
pub mod Tasks
pub mod Counting
use mathlib.Core.Option
use stockev_qtask_list.Base.{
  ℕ, ◌+◌, ◌-◌, ◌*◌, ◌/◌, String, Bool, false, Option, none, some, List, [], ◌∷◌, ite, str_dec,
  update, ltb, if◌then◌else◌,
}
use Messages.{Message, msg_dec, SupersedeValue}
use Tasks.{Task, Owner, LegacyOwner, Lease, Metric, metric_dec, Outcome}

-- The head of a list is its left end. A sorted set is a list of scored members, lowest score
-- first. Owners stand at three generations of keys, by the logical key that names them. `processing` holds every worker's list: the entries of one worker, in order, are its
-- key. `now` is the answer of TIME.
pub record Store : Type 0 where
  pub now : ℕ
  pub ready : List Message
  pub delay : List (ℕ × Message)
  pub processing : List (String × Message)
  pub dlq : List Message
  pub tasks : String → Option Task
  pub owners : String → Option Owner
  pub dedup_owners : String → Option Owner
  pub legacy_owners : String → Option LegacyOwner
  pub supersedes : String → Option SupersedeValue
  pub leases : String → Option Lease
  pub heartbeats : String → Bool
  pub deadlines : String → Option ℕ
  pub history : List (String × ℕ)
  pub registered : Option ℕ
  pub observation_version : ℕ
  pub metrics : Metric → ℕ
  pub gc : String → String → Option ℕ
  pub pending : String → String → Option ℕ
  pub claims : String → String → Bool

-- HINCRBY of a metric.
unfoldable pub count : Metric → ℕ → Store → Store
count m n s = record s { metrics = λ k. ite (metric_dec m k) (s.metrics k + n) (s.metrics k) }

-- The retry gauge goes down by a retry message, and never below zero.
unfoldable pub leave_retry_wait : Bool → Store → Store
leave_retry_wait leaves s = record s {
  metrics = λ k.
      ite (metric_dec Metric.retry_wait_current k) (s.metrics k - (if leaves then 1 else 0))
        (s.metrics k);
}

-- HSET of a task's hash.
unfoldable pub put_task : String → Task → Store → Store
put_task id t s = record s { tasks = update s.tasks id (some t) }

-- ZREM of the deadline index, and ZADD if the task has a deadline.
unfoldable pub drop_deadline : String → Store → Store
drop_deadline id s = record s { deadlines = update s.deadlines id none }

set_deadline : Option ℕ → String → (String → Option ℕ) → String → Option ℕ
set_deadline none id m = m
set_deadline (some d) id m = update m id (some d)

unfoldable pub add_deadline : Option ℕ → String → Store → Store
unfolding set_deadline
add_deadline d id s = record s { deadlines = set_deadline d id s.deadlines }

-- ZADD: a member that is there gets the new score. Members of one score stand in the order of
-- their insertion.
unfoldable pub insert_scored : ℕ → Message → List (ℕ × Message) → List (ℕ × Message)
insert_scored sc m [] = (sc, m) ∷ []
insert_scored sc m ((d, x) ∷ zs) =
    if ltb sc d then (sc, m) ∷ (d, x) ∷ zs else (d, x) ∷ insert_scored sc m zs

unfoldable pub without : Message → List (ℕ × Message) → List (ℕ × Message)
without m [] = []
without m ((d, x) ∷ zs) = let rest = without m zs in ite (msg_dec m x) rest ((d, x) ∷ rest)

unfoldable pub zadd : ℕ → Message → List (ℕ × Message) → List (ℕ × Message)
unfolding insert_scored without
zadd sc m zs = insert_scored sc m (without m zs)

-- ZREM by member; `none` answers 0.
unfoldable pub zrem : Message → List (ℕ × Message) → Option (List (ℕ × Message))
zrem m [] = none
zrem m ((d, x) ∷ zs) = elim (msg_dec m x) [
  | yes _ ↦ some zs
  | no _ ↦ Option.map (λ ys. (d, x) ∷ ys) (zrem m zs)
]

-- LREM key 1 message at a worker's processing list.
unfoldable pub lrem : String → Message → List (String × Message) → Option (List (String × Message))
lrem w m [] = none
lrem w m ((v, x) ∷ ps) = elim (str_dec w v) [
  | yes _ ↦ elim (msg_dec m x) [
    | yes _ ↦ some ps
    | no _ ↦ Option.map (λ qs. (v, x) ∷ qs) (lrem w m ps)
  ]
  | no _ ↦ Option.map (λ qs. (v, x) ∷ qs) (lrem w m ps)
]

-- RPOP of a worker's processing list.
unfoldable pub pop_claimed :
    String → List (String × Message) → Option (Message × List (String × Message))
pop_claimed w [] = none
pop_claimed w ((v, x) ∷ ps) = elim (pop_claimed w ps) [
  | some (m, rest) ↦ some (m, (v, x) ∷ rest)
  | none ↦ ite (str_dec w v) (some (x, ps)) none
]

-- The same at the state: the message leaves the worker's list, or the script answers not_found.
unfoldable pub take_claimed : String → Message → Store → Option Store
take_claimed w m s = Option.map (λ ps. record s { processing = ps }) (lrem w m s.processing)

-- DEL of a lease that still holds the caller's token.
unfoldable pub released :
    Option String → Option String → (String → Option Lease) → String → Option Lease
released none token m = m
released (some key) none m = m
released (some key) (some token) m = elim (m key) [
  | none ↦ m
  | some l ↦ ite (str_dec l.token token) (update m key none) m
]

unfoldable pub release_lease : Option String → Option String → Store → Store
release_lease key token s = record s { leases = released key token s.leases }

-- math.ceil of a time to whole seconds.
pub ceil_seconds : ℕ → ℕ
ceil_seconds t = (t + 999999) / 1000000 * 1000000

-- Whether the identity outlives the task: `retain_until and retain_until > now`.
unfoldable pub retained : Option ℕ → ℕ → Bool
retained none now = false
retained (some r) now = ltb now r

ceil_or_zero : Option ℕ → ℕ
unfolding ceil_seconds
ceil_or_zero none = 0
ceil_or_zero (some r) = ceil_seconds r

-- The local function `finalize_owner`: the owner that is still this task's gets the outcome and
-- stays until the end of its retention, or goes.
unfoldable pub settle_owner : Outcome → Owner → ℕ → Option Owner
unfolding ceil_or_zero
settle_owner outcome o now =
    if retained o.dedup_until now
    then some (record o { outcome = outcome; expire_at = some (ceil_or_zero o.dedup_until) })
    else none

unfoldable pub settled_owners :
    Outcome → Option String → String → ℕ → (String → Option Owner) → String → Option Owner
settled_owners outcome none id now m = m
settled_owners outcome (some key) id now m = elim (m key) [
  | none ↦ m
  | some o ↦ ite (str_dec o.task_id id) (update m key (settle_owner outcome o now)) m
]

unfoldable pub finalize_owner : Outcome → Option String → String → Store → Store
finalize_owner outcome key id s = record s { owners = settled_owners outcome key id s.now s.owners }

-- A dedicated external object is put on the log of its storage, due at the end of the record.
unfoldable pub logged :
    Option String → Option String → ℕ → (String → String → Option ℕ) → String → String → Option ℕ
logged (some storage) (some ref) due m = update m storage (update (m storage) ref (some due))
logged none ref due m = m
logged (some storage) none due m = m

unfoldable pub retire_payload : Task → ℕ → Store → Store
retire_payload t ttl s = record s {
  gc =
      if t.payload_dedicated
      then logged t.payload_storage_id t.payload_ref (s.now + ttl) s.gc
      else s.gc;
}
