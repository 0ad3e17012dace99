-- ===== src/Examples/Objects.antt =====
-- An object server with one uploaded file.
use mathlib.Core.Option.{none, some}
use stockev_qtask_list.Base.{ℕ, String, true, false, ◌≡◌, refl, arith, [], ◌∷◌, length, str_dec}
use stockev_qtask_list.Remote.Disk.{
  Blob, Server, find_file, is_key, all_hex, extend_retention, effective_retention,
}
use stockev_qtask_list.Remote.Requests.{
  good, not_given, managed, Uploaded, check_upload, write_file, uploaded, store_managed,
  store_upload, upload, download,
}
use stockev_qtask_list.Remote.Cleanup.{is_expired, cleanup_expired}
use stockev_qtask_list.Remote.Objects.{download-upload}
use stockev_qtask_list.Remote.Collection.{is_due, cleanup_rounds}
use stockev_qtask_list.Remote.Survival.{pending_upload_survives, cleanup_expired-spares}

abbrev key : String
key = "0123456789abcdef0123456789abcdef"

abbrev other_key : String
other_key = "00000000000000000000000000000000"

abbrev old : Blob
old = record { content = 1 ∷ 2 ∷ []; mtime = 40 }

abbrev server : Server
server = record {
  now = 50;
  files = (other_key, old) ∷ [];
  metas = λ k. none;
  pending = [];
  gc = (10, other_key) ∷ [];
  claims = λ k. false;
}

abbrev answer : Uploaded
answer = record { key = key; created = true; is_pending = true; retained = some 0; size = 1 }

key_is_valid : is_key key ≡ true
unfolding is_key all_hex
key_is_valid = refl

key_is_new : find_file key server.files ≡ none
unfolding find_file str_dec
key_is_new = refl

accepted : (upload 100 key (some 50) (some (7 ∷ [])) not_given managed server).0 ≡ good answer
unfolding upload check_upload store_upload write_file store_managed uploaded extend_retention
    find_file str_dec effective_retention
accepted = refl

download-upload_example :
    (download key (upload 100 key (some 50) (some (7 ∷ [])) not_given managed server).1
      ≡ good (7 ∷ []))
    × (answer.key ≡ key)
    × (answer.size ≡ length {A = ℕ} (7 ∷ []))
    × (answer.created ≡ true)
download-upload_example =
    download-upload 100 key (some 50) (7 ∷ []) not_given managed server answer key_is_valid
      key_is_new accepted

untouched : is_due key 60 server.gc ≡ false
unfolding str_dec
untouched = refl

pending_upload_survives_example :
    download key (
      cleanup_rounds
        ((5, 55) ∷ (5, 60) ∷ [])
        (upload 100 key (some 50) (some (7 ∷ [])) not_given managed server).1)
    ≡ good (7 ∷ [])
pending_upload_survives_example =
    pending_upload_survives 100 key 50 60 (7 ∷ []) not_given server answer ((5, 55) ∷ (5, 60) ∷ [])
      key_is_valid key_is_new untouched (omega arith) (ground arith, (ground arith, tt)) accepted

other_is_found : find_file other_key server.files ≡ some old
unfolding find_file str_dec
other_is_found = refl

not_expired : is_expired 20 50 none old ≡ false
unfolding is_expired
not_expired = refl

cleanup_expired-spares_example : find_file other_key (cleanup_expired 20 server).1.files ≡ some old
unfolding find_file
cleanup_expired-spares_example =
    cleanup_expired-spares 20 other_key old server (refl, tt) other_is_found
      (none, refl, not_expired)
