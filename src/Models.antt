-- ===== src/Models.antt =====
-- qtask_list/models.py, `TaskSpec.__post_init__`, and `datetime_to_epoch` of qtask_list/clock.py:
-- the checks of a task's description, in the order of the source.
pub mod Contract
use Prim.Native.String.{len}
use Prim.Native.Char.{code}
use mathlib.Core.Option.{Option, none, some}
use stockev_qtask_list.Base.{
  ℕ, String, Bool, true, false, ◌&&◌, ◌||◌, not, List, [], ◌∷◌, ite, str_dec, ltb, leb, ◌==◌,
}
use stockev_qtask_list.Store.Messages.{SupersedeValue, int_value, str_value}

-- A datetime: its UTC epoch if it carries a time zone.
pub data Moment : Type 0 where
  aware : ℕ → Moment
  naive : Moment

-- The value that a caller gives as a supersede version; texts and decimal numerals are bytes.
pub data VersionArg : Type 0 where
  int_arg str_arg : List ℕ → VersionArg
  bool_arg : Bool → VersionArg

-- The constructor's arguments. Of the payload only the test `isinstance(payload, Mapping)` counts.
pub record Request : Type 0 where
  pub req_action : String
  pub req_payload_is_mapping : Bool
  pub req_logical_key : Option String
  pub req_scheduled_for : Option Moment
  pub req_not_before_at : Option Moment
  pub req_start_deadline_at : Option Moment
  pub req_dedup_until : Option Moment
  pub req_trace_id : Option String
  pub req_parent_task_id : Option String
  pub req_concurrency_key : Option String
  pub req_supersede_key : Option String
  pub req_supersede_version : Option VersionArg

-- A checked TaskSpec, with its times as epochs.
pub record Spec : Type 0 where
  pub action : String
  pub logical_key : Option String
  pub scheduled_for : Option ℕ
  pub not_before_at : Option ℕ
  pub start_deadline_at : Option ℕ
  pub dedup_until : Option ℕ
  pub trace_id : Option String
  pub parent_task_id : Option String
  pub concurrency_key : Option String
  pub supersede_key : Option String
  pub supersede_version : Option SupersedeValue

pub data SpecError : Type 0 where
  action_empty action_too_long payload_not_mapping logical_key_empty logical_key_too_long :
      SpecError
  dedup_without_key not_timezone_aware not_before_after_deadline supersede_incomplete : SpecError
  supersede_key_empty version_is_bool concurrency_key_empty : SpecError

pub data Checked {ℓ} (A : Type ℓ) : Type ℓ where
  ok : A → Checked A
  err : SpecError → Checked A

infixl 5 ◌>>=◌ ◌>>◌
abbrev pub ◌>>=◌ {ℓ κ} : {A : Type ℓ} {B : Type κ} → Checked A → (A → Checked B) → Checked B
ok a >>= f = f a
err e >>= f = err e

abbrev pub ◌>>◌ {ℓ} : {B : Type ℓ} → Checked (Unit {0}) → Checked B → Checked B
m >> k = m >>= λ _. k

abbrev pub refuse_if : Bool → SpecError → Checked (Unit {0})
refuse_if true e = err e
refuse_if false e = ok tt

-- The code points that `str.strip` removes.
abbrev is_space : ℕ → Bool
is_space c =
    (leb 9 c && leb c 13)
    || (leb 28 c && leb c 32)
    || c == 133
    || c == 160
    || c == 5760
    || (leb 8192 c && leb c 8202)
    || c == 8232
    || c == 8233
    || c == 8239
    || c == 8287
    || c == 12288

-- `not text.strip()`.
unfoldable pub is_blank : String → Bool
is_blank String.[] = true
is_blank (String.◌∷◌ c s) = is_space (code c) && is_blank s

unfoldable pub is_empty : String → Bool
is_empty s = ite (str_dec s "") true false

abbrev pub is_given {ℓ} : {A : Type ℓ} → Option A → Bool
is_given none = false
is_given (some a) = true

-- A test of an optional value, false where there is none.
abbrev pub holds_of {ℓ} : {A : Type ℓ} → (A → Bool) → Option A → Bool
holds_of p none = false
holds_of p (some a) = p a

-- `datetime_to_epoch`.
unfoldable pub datetime_to_epoch : Option Moment → Checked (Option ℕ)
datetime_to_epoch none = ok none
datetime_to_epoch (some (aware t)) = ok (some t)
datetime_to_epoch (some naive) = err not_timezone_aware

-- `not_before is not None and deadline is not None and not_before > deadline`.
abbrev pub is_after : Option ℕ → Option ℕ → Bool
is_after none d = false
is_after (some b) none = false
is_after (some b) (some d) = ltb d b

abbrev pub differ : Bool → Bool → Bool
differ true b = not b
differ false b = b

-- `_supersede_value` gives the text its prefix; a bool is refused.
abbrev pub version_value : Option VersionArg → Checked (Option SupersedeValue)
version_value none = ok none
version_value (some (int_arg ds)) = ok (some (int_value ds))
version_value (some (str_arg cs)) = ok (some (str_value cs))
version_value (some (bool_arg b)) = err version_is_bool

unfoldable pub check_texts : Request → Checked (Unit {0})
check_texts r = do
  refuse_if (is_blank r.req_action) action_empty
  refuse_if (ltb 256 (len r.req_action)) action_too_long
  refuse_if (not r.req_payload_is_mapping) payload_not_mapping
  refuse_if (holds_of is_empty r.req_logical_key) logical_key_empty
  refuse_if (holds_of (λ k. ltb 512 (len k)) r.req_logical_key) logical_key_too_long
  refuse_if (is_given r.req_dedup_until && not (is_given r.req_logical_key)) dedup_without_key

unfoldable pub check_supersede : Request → Checked (Option SupersedeValue)
check_supersede r = do
  refuse_if (differ (is_given r.req_supersede_key) (is_given r.req_supersede_version))
      supersede_incomplete
  refuse_if (holds_of is_empty r.req_supersede_key) supersede_key_empty
  version ← version_value r.req_supersede_version
  refuse_if (holds_of is_empty r.req_concurrency_key) concurrency_key_empty
  ok version

-- The whole check; the warning on an early `dedup_until` changes nothing.
unfoldable pub task_spec : Request → Checked Spec
task_spec r = do
  check_texts r
  scheduled ← datetime_to_epoch r.req_scheduled_for
  not_before ← datetime_to_epoch r.req_not_before_at
  deadline ← datetime_to_epoch r.req_start_deadline_at
  dedup ← datetime_to_epoch r.req_dedup_until
  refuse_if (is_after not_before deadline) not_before_after_deadline
  version ← check_supersede r
  ok (record {
    action = r.req_action;
    logical_key = r.req_logical_key;
    scheduled_for = scheduled;
    not_before_at = not_before;
    start_deadline_at = deadline;
    dedup_until = dedup;
    trace_id = r.req_trace_id;
    parent_task_id = r.req_parent_task_id;
    concurrency_key = r.req_concurrency_key;
    supersede_key = r.req_supersede_key;
    supersede_version = version;
  })
