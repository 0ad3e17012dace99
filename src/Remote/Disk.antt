-- ===== src/Remote/Disk.antt =====
-- The server's data directory and Redis keys in qtask_list/remote_storage/server.py, and
-- `_extend_retention`. Times are microseconds.
use Prim.Native.String.{len}
use Prim.Native.Char.{code}
use mathlib.Core.Option.{Option, none, some}
use stockev_qtask_list.Base.{
  ℕ, String, Bool, true, false, ◌&&◌, ◌||◌, ◌==◌, List, [], ◌∷◌, leb, max, ite, str_dec, update,
  if◌then◌else◌,
}
use stockev_qtask_list.Remote.Scores.{Scores, zscore, zrem, zadd}

-- A stored object: its bytes and the time of its last change.
pub record Blob : Type 0 where
  pub content : List ℕ
  pub mtime : ℕ

-- The field `retain_until` of a metadata object: missing or null, a number, or another value.
pub data RetainField : Type 0 where
  absent unreadable : RetainField
  seconds : ℕ → RetainField

pub record Meta : Type 0 where
  pub retain_until : RetainField
  pub dedicated : Bool

-- A metadata file: a JSON object, another JSON value, or no JSON.
pub data MetaFile : Type 0 where
  no_json no_object : MetaFile
  object : Meta → MetaFile

-- The files stand in the order in which the directory lists them.
pub record Server : Type 0 where
  pub now : ℕ
  pub files : List (String × Blob)
  pub metas : String → Option MetaFile
  pub pending : Scores
  pub gc : Scores
  pub claims : String → Bool

unfoldable pub find_file : String → List (String × Blob) → Option Blob
find_file k [] = none
find_file k ((j, b) ∷ fs) = ite (str_dec k j) (some b) (find_file k fs)

unfoldable pub unlink : String → List (String × Blob) → List (String × Blob)
unlink k [] = []
unlink k ((j, b) ∷ fs) = let rest = unlink k fs in ite (str_dec k j) rest ((j, b) ∷ rest)

-- `char in "0123456789abcdef"`.
abbrev is_hex : ℕ → Bool
is_hex c = (leb b'0' c && leb c b'9') || (leb b'a' c && leb c b'f')

unfoldable pub all_hex : String → Bool
all_hex String.[] = true
all_hex (String.◌∷◌ c s) = is_hex (code c) && all_hex s

-- The test of `_key_path`, whose paths are one to one with the keys.
unfoldable pub is_key : String → Bool
unfolding all_hex
is_key k = len k == 32 && all_hex k

-- What `_extend_retention` reads: the retention, and the object that it writes back.
abbrev pub existing_retention : Option MetaFile → Option ℕ
existing_retention none = none
existing_retention (some no_json) = none
existing_retention (some no_object) = none
existing_retention (some (object m)) = elim m.retain_until [
  | absent ↦ none
  | unreadable ↦ none
  | seconds t ↦ some t
]

abbrev pub existing_dedicated : Option MetaFile → Bool
existing_dedicated none = false
existing_dedicated (some no_json) = false
existing_dedicated (some no_object) = false
existing_dedicated (some (object m)) = m.dedicated

-- 0 keeps an object for ever; no value leaves it to the server's own time to live.
unfoldable pub effective_retention : Option ℕ → Option ℕ → Option ℕ
effective_retention none none = none
effective_retention none (some r) = some r
effective_retention (some e) none = some e
effective_retention (some e) (some r) = if e == 0 || r == 0 then some 0 else some (max e r)

abbrev pub to_field : Option ℕ → RetainField
to_field none = absent
to_field (some t) = seconds t

abbrev pub or_else {ℓ} : {A : Type ℓ} → Option A → A → A
or_else none d = d
or_else (some a) d = a

-- `if effective is not None or dedicated is not None`.
abbrev pub is_written : Option ℕ → Option Bool → Bool
is_written none none = false
is_written none (some d) = true
is_written (some t) d = true

unfoldable pub extend_retention : String → Option ℕ → Option Bool → Server → Option ℕ × Server
unfolding effective_retention
extend_retention k requested dedicated s =
    let effective = effective_retention (existing_retention (s.metas k)) requested in
    let written = object (record {
      retain_until = to_field effective;
      dedicated = or_else dedicated (existing_dedicated (s.metas k));
    }) in
    if is_written effective dedicated
    then (effective, record s { metas = update s.metas k (some written) })
    else (effective, s)

-- PROMOTE_PENDING_LUA: an upload that no queue has taken becomes due for collection.
unfoldable pub promote_pending : String → ℕ → Bool → Server → Bool × Server
promote_pending k due force s = elim (zscore k s.pending) [
  | none ↦ (false, s)
  | some score ↦
      if force || leb score due
      then (true, record s { pending = zrem k s.pending; gc = zadd due k s.gc })
      else (false, s)
]
