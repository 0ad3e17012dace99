-- ===== src/Store/Messages.antt =====
-- qtask_list/envelope.py and the message texts that the scripts of qtask_list/state.py move.
-- A message stands for its text: the JSON printer and parser are third-party code, and a text
-- is identified with the envelope that it encodes. Times are microseconds.
use mathlib.Core.Option.{Option, none, some}
use stockev_qtask_list.Base.{ℕ, Bool, String, str_dec, ℕ_discrete, List}

-- The `delay_reason` of an envelope and of a task record; `no_delay` is the empty text.
pub data DelayReason : Type 0 where
  enqueue schedule concurrency retry no_delay : DelayReason

-- The payload descriptor. The payload's bytes are opaque to the queue.
pub data Descriptor : Type 0 where
  inline : String → Descriptor
  zstd : String → Descriptor
  external : String → Option String → Bool → Bool → Descriptor

-- "i:" or "s:" and the text of a supersede version; a decimal numeral, as bytes, or any bytes.
pub data SupersedeValue : Type 0 where
  int_value : List ℕ → SupersedeValue
  str_value : List ℕ → SupersedeValue

-- A version 2 envelope, the fields that `EnvelopeCodec.build` and the transitions write.
pub record Envelope : Type 0 where
  pub task_id : String
  pub action : String
  pub attempt : ℕ
  pub max_attempts : ℕ
  pub created_at : ℕ
  pub available_at : ℕ
  pub delay_reason : DelayReason
  pub payload : Descriptor
  pub logical_key : Option String
  pub scheduled_for : Option ℕ
  pub not_before_at : Option ℕ
  pub start_deadline_at : Option ℕ
  pub dedup_until : Option ℕ
  pub trace_id : Option String
  pub parent_task_id : Option String
  pub replay_of : Option String
  pub concurrency_key : Option String
  pub supersede_key : Option String
  pub supersede_version : Option SupersedeValue
  pub duplicate_override_of : Option String
  pub claim_token : Option String
  pub lease_token : Option String
  pub last_error : Option (String × String)
  pub legacy_payload : Bool

-- The payload of a version 1 text: one that is no object, or its descriptor, its private `_retry`
-- and its action.
pub data LegacyPayload : Type 0 where
  malformed : String → LegacyPayload
  parsed : Descriptor → Option ℕ → Option String → LegacyPayload

pub record LegacyEnvelope : Type 0 where
  pub task_id : String
  pub expires_at : Option ℕ
  pub payload : LegacyPayload

-- A text in a queue: a version 2 envelope, a version 1 one, or a text that does not decode to an
-- object with a task id.
pub data Message : Type 0 where
  v2 : Envelope → Message
  v1 : LegacyEnvelope → Message
  junk : String → Message

unfoldable pub msg_dec : Discrete Message
unfolding str_dec
msg_dec = hlevel (str_dec, ℕ_discrete)

unfoldable pub value_dec : Discrete SupersedeValue
value_dec = hlevel ℕ_discrete

-- `SmartQueue._message_task_id`.
abbrev pub message_task_id : Message → Option String
message_task_id (v2 e) = some e.task_id
message_task_id (v1 e) = some e.task_id
message_task_id (junk text) = none

-- Whether the Lua scripts count a message as waiting for a retry.
abbrev pub is_retry : Message → Bool
is_retry (v2 e) = elim e.delay_reason [ retry ↦ Bool.true | _ ↦ Bool.false ]
is_retry (v1 e) = Bool.false
is_retry (junk text) = Bool.false
