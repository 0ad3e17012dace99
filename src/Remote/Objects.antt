-- ===== src/Remote/Objects.antt =====
-- What a request of qtask_list/remote_storage/server.py makes of one object.
use mathlib.Core.Option.{Option, none, some}
use stockev_qtask_list.Base.{
  ℕ, String, Bool, true, false, ◌≡◌, ◌≢◌, refl, arith, List, [], ◌∷◌, ◌++◌, length, inl, inr,
  Bool-cases,
}
use stockev_qtask_list.Remote.Scores.{zscore, zscore-zrem_self}
use stockev_qtask_list.Remote.Disk.{
  Blob, Server, find_file, unlink, is_key, extend_retention, promote_pending,
}
use stockev_qtask_list.Remote.Requests.{
  Answer, good, bad_request, not_found, too_large, unavailable, RetainForm, ManagedForm, Upload,
  Uploaded, check_upload, write_file, uploaded, remove_object, store_managed, store_upload, upload,
  download, Redis, online, lost, offline, forget, delete_known, delete,
}

find_file-append :
    (k : String) (b : Blob) (fs : List (String × Blob))
    → find_file k fs ≡ none
    → find_file k (fs ++ (k, b) ∷ []) ≡ some b
unfolding find_file
find_file-append k b [] h = ground arith
find_file-append k b ((j, c) ∷ fs) h = ground (arith, find_file-append k b fs)

pub find_file-unlink_self :
    (k : String) (fs : List (String × Blob)) → find_file k (unlink k fs) ≡ none
unfolding find_file unlink
find_file-unlink_self k [] = refl
find_file-unlink_self k ((j, c) ∷ fs) = ground (arith, find_file-unlink_self k fs)

pub find_file-unlink_ne :
    (k j : String) (fs : List (String × Blob)) → k ≢ j → find_file k (unlink j fs) ≡ find_file k fs
unfolding find_file unlink
find_file-unlink_ne k j [] ne = refl
find_file-unlink_ne k j ((i, c) ∷ fs) ne = ground (arith, find_file-unlink_ne k j fs ne)

pub extend_retention-files :
    (k : String) (r : Option ℕ) (dedicated : Option Bool) (s : Server)
    → ((extend_retention k r dedicated s).1.files ≡ s.files)
      × ((extend_retention k r dedicated s).1.pending ≡ s.pending)
      × ((extend_retention k r dedicated s).1.gc ≡ s.gc)
      × ((extend_retention k r dedicated s).1.now ≡ s.now)
unfolding extend_retention
extend_retention-files k r dedicated s = (ground arith, ground arith, ground arith, ground arith)

check_upload-content :
    (limit : ℕ) (content : List ℕ) (retain : RetainForm) (flag : ManagedForm) (up : Upload)
    → check_upload limit (some content) retain flag ≡ good up
    → up.content ≡ content
unfolding check_upload
check_upload-content limit [] retain flag up e = ground arith
check_upload-content limit (b ∷ bs) retain flag up e = ground arith

-- What an answer leaves of an upload to a new key.
abbrev Stored : String → List ℕ → Answer Uploaded × Server → Type 0
Stored k content (good a, u) =
    ((b : Blob) × (find_file k u.files ≡ some b) × (b.content ≡ content))
    × (a.key ≡ k)
    × (a.size ≡ length content)
    × (a.created ≡ true)
Stored k content (unavailable, u) = find_file k u.files ≡ none
Stored k content (bad_request, u) = ⊥
Stored k content (not_found, u) = ⊥
Stored k content (too_large, u) = ⊥

module _ (k : String) (content : List ℕ) where
  new_blob : Server → Blob
  new_blob s = record { content = content; mtime = s.now }

  written : Server → Server
  written s = record s { files = s.files ++ (k, new_blob s) ∷ [] }

  write_file-new :
      (s : Server)
      → find_file k s.files ≡ none
      → write_file k content s ≡ (true, length content, written s)
  unfolding write_file written new_blob
  write_file-new s new = rw (new, write_file) refl

  store_managed-Stored :
      (redis_now : Option ℕ) (b : Blob) (s : Server)
      → find_file k s.files ≡ some b
      → b.content ≡ content
      → Stored k content (store_managed k true (length content) redis_now s)
  unfolding store_managed remove_object uploaded
  store_managed-Stored none b s e c = find_file-unlink_self k _
  store_managed-Stored (some t) b s e c =
      ((b, grind (arith, extend_retention-files), c), refl, refl, refl)

  unmanaged-Stored :
      (r : Option ℕ) (b : Blob) (s : Server)
      → find_file k s.files ≡ some b
      → b.content ≡ content
      → Stored k content
          (uploaded k true false (length content) (extend_retention k r (some true) s))
  unfolding uploaded
  unmanaged-Stored r b s e c = ((b, grind (arith, extend_retention-files), c), refl, refl, refl)

  written-found :
      (s : Server) → find_file k s.files ≡ none → find_file k (written s).files ≡ some (new_blob s)
  unfolding written
  written-found s new = find_file-append k (new_blob s) s.files new

  new_blob-content : (s : Server) → (new_blob s).content ≡ content
  unfolding new_blob
  new_blob-content s = refl

  store_upload-Stored :
      (redis_now : Option ℕ) (u : Upload) (s : Server)
      → u.content ≡ content
      → find_file k s.files ≡ none
      → Stored k content (store_upload k redis_now u s)
  unfolding store_upload
  store_upload-Stored redis_now u s same new = elim (Bool-cases u.is_managed) [
    | inl m ↦
        rw (same, write_file-new s new, store_upload, m)
          (store_managed-Stored redis_now (new_blob s) (written s) (written-found s new)
            (new_blob-content s))
    | inr m ↦
        rw (same, write_file-new s new, store_upload, m)
          (unmanaged-Stored u.asked (new_blob s) (written s) (written-found s new)
            (new_blob-content s))
  ]

  Stored-download :
      (r : Answer Uploaded × Server) (a : Uploaded)
      → is_key k ≡ true
      → r.0 ≡ good a
      → Stored k content r
      → (download k r.1 ≡ good content)
        × (a.key ≡ k)
        × (a.size ≡ length content)
        × (a.created ≡ true)
  unfolding download
  Stored-download (good b, u) a valid e ((c, found, same), named, sized, fresh) =
      (ground arith, ground arith, ground arith, ground arith)
  Stored-download (bad_request, u) a valid e st = absurd st
  Stored-download (not_found, u) a valid e st = absurd st
  Stored-download (too_large, u) a valid e st = absurd st
  Stored-download (unavailable, u) a valid e st =
      (ground arith, ground arith, ground arith, ground arith)

-- An upload that is accepted under a valid key with no file can be downloaded under that key, byte
-- for byte, and the answer names the key and the size.
pub download-upload :
    (limit : ℕ) (k : String) (redis_now : Option ℕ) (content : List ℕ) (retain : RetainForm)
    (flag : ManagedForm) (s : Server) (a : Uploaded)
    → is_key k ≡ true
    → find_file k s.files ≡ none
    → (upload limit k redis_now (some content) retain flag s).0 ≡ good a
    → (download k (upload limit k redis_now (some content) retain flag s).1 ≡ good content)
      × (a.key ≡ k)
      × (a.size ≡ length content)
      × (a.created ≡ true)
unfolding upload
download-upload limit k redis_now content retain flag s a valid new e =
    through (check_upload limit (some content) retain flag) refl
  where
    through :
        (c : Answer Upload)
        → check_upload limit (some content) retain flag ≡ c
        → (download k (upload limit k redis_now (some content) retain flag s).1 ≡ good content)
          × (a.key ≡ k)
          × (a.size ≡ length content)
          × (a.created ≡ true)
    through (good u) f =
        let st =
          store_upload-Stored k content redis_now u s
            (check_upload-content limit content retain flag u f) new in
        rw (f, upload)
          (Stored-download k content (store_upload k redis_now u s) a valid (rw (f, upload) at e)
            st)
    through bad_request f = ground arith
    through not_found f = ground arith
    through too_large f = ground arith
    through unavailable f = ground arith

-- A deletion that is confirmed takes the object away, with its metadata, its log entries and the
-- claim on it.
pub delete-gone :
    (k k' : String) (r : Redis) (s : Server)
    → (delete k r s).0 ≡ good k'
    → (download k (delete k r s).1 ≡ not_found)
      × ((delete k r s).1.metas k ≡ none)
      × (zscore k (delete k r s).1.pending ≡ none)
      × (zscore k (delete k r s).1.gc ≡ none)
      × ((delete k r s).1.claims k ≡ false)
unfolding delete delete_known forget remove_object download promote_pending
delete-gone k k' offline s e =
    (ground arith, ground arith, ground arith, ground arith, ground arith)
delete-gone k k' (lost t) s e = (grind arith, grind arith, grind arith, grind arith, grind arith)
delete-gone k k' (online t) s e = (
  grind (arith, find_file-unlink_self),
  grind arith,
  grind (arith, zscore-zrem_self),
  grind (arith, zscore-zrem_self),
  grind arith,
)
