-- ===== src/Remote/Cleanup.antt =====
-- The cleanup rounds of qtask_list/remote_storage/server.py: `_cleanup_storage_gc` for the objects
-- of tasks, `_cleanup_expired` for cached files.
use mathlib.Core.Option.{Option, none, some}
use stockev_qtask_list.Base.{
  ℕ, ◌+◌, String, Bool, true, false, ◌&&◌, not, ◌==◌, List, [], ◌∷◌, ltb, leb, update,
  if◌then◌else◌,
}
use stockev_qtask_list.Remote.Scores.{zrem, due_keys}
use stockev_qtask_list.Remote.Disk.{
  Blob, absent, unreadable, seconds, MetaFile, no_json, no_object, object, Server, find_file,
  is_key, promote_pending,
}
use stockev_qtask_list.Remote.Requests.{remove_object}

-- The loop over the due uploads that no queue has taken.
unfoldable pub promote_all : ℕ → List String → Server → Server
promote_all due [] s = s
promote_all due (k ∷ ks) s = promote_all due ks (promote_pending k due false s).1

-- One due entry of the log: whether an entry was worked off, and the server. An entry whose
-- metadata cannot be read stays for the next round.
unfoldable pub collect_present : String → Server → ℕ × Server
collect_present k s = elim (s.metas k) [
  | none ↦ (0, record s { gc = zrem k s.gc })
  | some no_json ↦ (0, s)
  | some no_object ↦ (0, s)
  | some (object m) ↦
      if m.dedicated
      then (1, record (remove_object k s) { gc = zrem k s.gc })
      else (0, record s { gc = zrem k s.gc })
]

unfoldable pub collect_one : String → Server → ℕ × Server
collect_one k s =
    if is_key k
    then elim (find_file k s.files) [
      | none ↦ (1, record s { metas = update s.metas k none; gc = zrem k s.gc })
      | some b ↦ collect_present k s
    ]
    else (0, s)

unfoldable pub collect_all : List String → Server → ℕ × Server
collect_all [] s = (0, s)
collect_all (k ∷ ks) s =
    let one : ℕ × Server = collect_one k s in
    let rest : ℕ × Server = collect_all ks one.1 in (one.0 + rest.0, rest.1)

-- `_cleanup_storage_gc` at Redis' time `due`.
unfoldable pub cleanup_storage_gc : ℕ → ℕ → Server → ℕ × Server
cleanup_storage_gc batch due s =
    let u : Server = promote_all due (due_keys batch due s.pending) s in
    collect_all (due_keys batch due u.gc) u

-- What a sweep finds out of a metadata file; another JSON value than an object raises.
pub data Reading : Type 0 where
  raises : Reading
  retained : Option ℕ → Reading

abbrev pub read_retention : Option MetaFile → Reading
read_retention none = retained none
read_retention (some no_json) = retained none
read_retention (some no_object) = raises
read_retention (some (object m)) = elim m.retain_until [
  | absent ↦ retained none
  | unreadable ↦ retained none
  | seconds t ↦ retained (some t)
]

-- Whether the sweep deletes a file.
unfoldable pub is_expired : ℕ → ℕ → Option ℕ → Blob → Bool
is_expired ttl now none b = ltb (b.mtime + ttl) now
is_expired ttl now (some t) b = not (t == 0) && leb t now

-- The loop over the files; `false` tells that it ended by an exception.
unfoldable pub sweep : ℕ → List (String × Blob) → Server → Bool × Server
unfolding is_expired
sweep ttl [] s = (true, s)
sweep ttl ((k, b) ∷ fs) s = elim (read_retention (s.metas k)) [
  | raises ↦ (false, s)
  | retained r ↦ sweep ttl fs (if is_expired ttl s.now r b then remove_object k s else s)
]

unfoldable pub cleanup_expired : ℕ → Server → Bool × Server
unfolding sweep
cleanup_expired ttl s = if ttl == 0 then (true, s) else sweep ttl s.files s
