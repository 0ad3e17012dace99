-- ===== src/Remote/Survival.antt =====
-- A managed upload of qtask_list/remote_storage/server.py survives until the end of its grace, and
-- the sweep spares what is retained.
use mathlib.Core.Option.{Option, none, some}
use stockev_qtask_list.Base.{
  ℕ, ◌+◌, ◌<◌, String, Bool, true, false, ◌≡◌, ◌≢◌, refl, arith, List, [], ◌∷◌, str_dec, ◌∙◌, ◌⊎◌,
  ap, inl, inr,
}
use stockev_qtask_list.Remote.Scores.{Scores, zrem, insert_score, zadd}
use stockev_qtask_list.Remote.Disk.{Blob, Server, find_file, is_key}
use stockev_qtask_list.Remote.Requests.{
  Answer, good, bad_request, not_found, too_large, unavailable, RetainForm, managed, Upload,
  Uploaded, pending_grace, check_upload, write_file, uploaded, remove_object, store_managed,
  store_upload, upload, download,
}
use stockev_qtask_list.Remote.Cleanup.{retained, read_retention, is_expired, sweep, cleanup_expired}
use stockev_qtask_list.Remote.Objects.{extend_retention-files, download-upload, find_file-unlink_ne}
use stockev_qtask_list.Remote.Collection.{
  is_due, IsSafe, AllUntil, cleanup_rounds, cleanup_rounds-keeps,
}

is_due-zrem_self : (k : String) (due : ℕ) (zs : Scores) → is_due k due (zrem k zs) ≡ false
unfolding zrem
is_due-zrem_self k due [] = refl
is_due-zrem_self k due ((d, j) ∷ zs) = ground (arith, is_due-zrem_self k due zs)

is_due-insert_late :
    (k : String) (d due : ℕ) (zs : Scores)
    → due < d
    → is_due k due zs ≡ false
    → is_due k due (insert_score d k zs) ≡ false
unfolding insert_score
is_due-insert_late k d due [] lt h = ground arith
is_due-insert_late k d due ((e, j) ∷ zs) lt h = ground (arith, is_due-insert_late k d due zs lt)

is_due-zadd_late :
    (k : String) (d due : ℕ) (zs : Scores) → due < d → is_due k due (zadd d k zs) ≡ false
unfolding zadd
is_due-zadd_late k d due zs lt =
    is_due-insert_late k d due (zrem k zs) lt (is_due-zrem_self k due zs)

module _ (k : String) (t bound : ℕ) (before : bound < t + pending_grace) where
  store_managed-IsSafe :
      (created : Bool) (size : ℕ) (s : Server)
      → is_due k bound s.gc ≡ false
      → IsSafe k bound (store_managed k created size (some t) s).1
  unfolding store_managed uploaded
  store_managed-IsSafe created size s clear = record {
    unpending = grind (
      arith,
      extend_retention-files,
      λ (zs : Scores). is_due-zadd_late k (t + pending_grace) bound zs before,
    );
    unlogged = grind (arith, extend_retention-files);
  }

check_upload-managed :
    (limit : ℕ) (content : List ℕ) (retain : RetainForm) (u : Upload)
    → check_upload limit (some content) retain managed ≡ good u
    → u.is_managed ≡ true
unfolding check_upload
check_upload-managed limit [] retain u e = ground arith
check_upload-managed limit (b ∷ bs) retain u e = ground arith

write_file-gc : (k : String) (content : List ℕ) (s : Server) → (write_file k content s).2.gc ≡ s.gc
unfolding write_file
write_file-gc k content s = ground arith

module _ (k : String) (t bound : ℕ) (before : bound < t + pending_grace) where
  store_upload-IsSafe :
      (u : Upload) (s : Server)
      → u.is_managed ≡ true
      → is_due k bound s.gc ≡ false
      → IsSafe k bound (store_upload k (some t) u s).1
  unfolding store_upload
  store_upload-IsSafe u s m clear =
      rw (m, store_upload)
        (store_managed-IsSafe k t bound before (write_file k u.content s).0
          (write_file k u.content s).1 (write_file k u.content s).2
          (rw (write_file-gc k u.content s) clear))

  upload-IsSafe :
      (limit : ℕ) (content : List ℕ) (retain : RetainForm) (s : Server) (a : Uploaded)
      → is_due k bound s.gc ≡ false
      → (upload limit k (some t) (some content) retain managed s).0 ≡ good a
      → IsSafe k bound (upload limit k (some t) (some content) retain managed s).1
  unfolding upload
  upload-IsSafe limit content retain s a clear e =
      through (check_upload limit (some content) retain managed) refl
    where
      through :
          (c : Answer Upload)
          → check_upload limit (some content) retain managed ≡ c
          → IsSafe k bound (upload limit k (some t) (some content) retain managed s).1
      through (good u) f =
          rw (f, upload)
            (store_upload-IsSafe u s (check_upload-managed limit content retain u f) clear)
      through bad_request f = ground arith
      through not_found f = ground arith
      through too_large f = ground arith
      through unavailable f = ground arith

download-files :
    (k : String) (s u : Server)
    → find_file k u.files ≡ find_file k s.files
    → download k u ≡ download k s
unfolding download
download-files k s u e = rw (e, download) refl

-- A managed upload that is accepted at Redis' time `t`, under a valid key with no file and no log
-- entry that falls due, can be downloaded, byte for byte, after any cleanup rounds of the log that
-- run before `t` and a day: the time in which the producer puts the task into the queue.
pub pending_upload_survives :
    (limit : ℕ) (k : String) (t bound : ℕ) (content : List ℕ) (retain : RetainForm) (s : Server)
    (a : Uploaded) (rs : List (ℕ × ℕ))
    → is_key k ≡ true
    → find_file k s.files ≡ none
    → is_due k bound s.gc ≡ false
    → bound < t + pending_grace
    → AllUntil bound rs
    → (upload limit k (some t) (some content) retain managed s).0 ≡ good a
    → download k (cleanup_rounds rs (upload limit k (some t) (some content) retain managed s).1)
      ≡ good content
pending_upload_survives limit k t bound content retain s a rs valid new clear before within e =
    let u = (upload limit k (some t) (some content) retain managed s).1 in
    download-files k u (cleanup_rounds rs u) (
      cleanup_rounds-keeps k bound rs u within
        (upload-IsSafe k t bound before limit content retain s a clear e))
    ∙ (download-upload limit k (some t) content retain managed s a valid new e).0

-- A listing of the directory names every file once.
abbrev pub IsListing : List (String × Blob) → Type 0
IsListing [] = Unit {0}
IsListing ((k, b) ∷ fs) = (find_file k fs ≡ none) × IsListing fs

-- The sweep's test of a file that is spared.
abbrev pub IsSpared : ℕ → String → Blob → Server → Type 0
IsSpared ttl k b s =
    (r : Option ℕ) × (read_retention (s.metas k) ≡ retained r) × (is_expired ttl s.now r b ≡ false)

module _ (ttl : ℕ) (k : String) (b : Blob) where
  remove-IsSpared :
      (j : String) (s : Server) → k ≢ j → IsSpared ttl k b s → IsSpared ttl k b (remove_object j s)
  unfolding remove_object
  remove-IsSpared j s ne (r, e, h) = (r, ground arith, h)

  remove-found :
      (j : String) (s : Server)
      → k ≢ j
      → find_file k s.files ≡ some b
      → find_file k (remove_object j s).files ≡ some b
  unfolding remove_object
  remove-found j s ne f = find_file-unlink_ne k j s.files ne ∙ f

  named-not_expired :
      (j : String) (c : Blob) (fs : List (String × Blob)) (r : Option ℕ) (s : Server)
      → k ≡ j
      → (find_file k ((j, c) ∷ fs) ≡ none) ⊎ (find_file k ((j, c) ∷ fs) ≡ some b)
      → is_expired ttl s.now r b ≡ false
      → is_expired ttl s.now r c ≡ false
  unfolding find_file
  named-not_expired j c fs r s same named h = ground arith

  named-later :
      (j : String) (c : Blob) (fs : List (String × Blob))
      → k ≢ j
      → (find_file k ((j, c) ∷ fs) ≡ none) ⊎ (find_file k ((j, c) ∷ fs) ≡ some b)
      → (find_file k fs ≡ none) ⊎ (find_file k fs ≡ some b)
  unfolding find_file
  named-later j c fs ne named = ground arith

  -- The rest of the listing does not name the file, or names it with this content.
  sweep-spares :
      (fs : List (String × Blob)) (s : Server)
      → IsListing fs
      → (find_file k fs ≡ none) ⊎ (find_file k fs ≡ some b)
      → IsSpared ttl k b s
      → find_file k s.files ≡ some b
      → find_file k (sweep ttl fs s).1.files ≡ some b
  unfolding sweep
  sweep-spares [] s listing named spared found = found
  sweep-spares ((j, c) ∷ fs) s (fresh, listing) named (r, e, h) found = elim (str_dec k j) [
    | yes same ↦
        let kept : is_expired ttl s.now r c ≡ false = named-not_expired j c fs r s same named h in
        ground (
          arith,
          ap (λ (x : String). read_retention (s.metas x)) same,
          sweep-spares fs s listing (inl (rw same fresh)) (r, e, h) found,
        )
    | no ne ↦
        let later = named-later j c fs ne named in
        ground (
          arith,
          sweep-spares fs s listing later (r, e, h) found,
          sweep-spares fs (remove_object j s) listing later (remove-IsSpared j s ne (r, e, h))
              (remove-found j s ne found),
        )
  ]

-- Where the directory lists every file once, the sweep keeps every file that is neither past its retention nor, without one, older than the
-- server's time to live, whatever the other files are, and also where it is ended by metadata
-- that it cannot read.
pub cleanup_expired-spares :
    (ttl : ℕ) (k : String) (b : Blob) (s : Server)
    → IsListing s.files
    → find_file k s.files ≡ some b
    → IsSpared ttl k b s
    → find_file k (cleanup_expired ttl s).1.files ≡ some b
unfolding cleanup_expired
cleanup_expired-spares ttl k b s listing found spared =
    ground (arith, sweep-spares ttl k b s.files s listing (inr found) spared found)
