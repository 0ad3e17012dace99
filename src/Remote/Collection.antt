-- ===== src/Remote/Collection.antt =====
-- What the cleanup rounds of qtask_list/remote_storage/server.py leave alone.
use mathlib.Core.Option.{some}
use stockev_qtask_list.Base.{
  ℕ, zero, suc, ◌≤◌, String, Bool, true, false, ◌&&◌, ◌||◌, ◌≡◌, ◌≢◌, refl, arith, List, [], ◌∷◌,
  leb, ite, str_dec, ◌∙◌, Option-cases, inl, inr,
}
use stockev_qtask_list.Remote.Scores.{Scores, zscore, zrem, insert_score, zadd, due_keys}
use stockev_qtask_list.Remote.Disk.{Server, find_file, promote_pending}
use stockev_qtask_list.Remote.Requests.{remove_object}
use stockev_qtask_list.Remote.Cleanup.{
  promote_all, collect_present, collect_one, collect_all, cleanup_storage_gc,
}
use stockev_qtask_list.Remote.Objects.{find_file-unlink_ne}

-- Whether an entry of the key is due.
abbrev pub is_due : String → ℕ → Scores → Bool
is_due k due [] = false
is_due k due ((d, j) ∷ zs) = (ite (str_dec k j) true false && leb d due) || is_due k due zs

abbrev holds : String → List String → Bool
holds k [] = false
holds k (j ∷ ks) = ite (str_dec k j) true false || holds k ks

module _ (k : String) where
  due_keys-holds :
      (n due : ℕ) (zs : Scores) → is_due k due zs ≡ false → holds k (due_keys n due zs) ≡ false
  unfolding due_keys
  due_keys-holds zero due zs h = refl
  due_keys-holds (suc n) due [] h = refl
  due_keys-holds (suc n) due ((d, j) ∷ zs) h =
      ground (arith, due_keys-holds n due zs, due_keys-holds (suc n) due zs)

  is_due-zscore :
      (d due : ℕ) (zs : Scores) → zscore k zs ≡ some d → is_due k due zs ≡ false → leb d due ≡ false
  unfolding zscore
  is_due-zscore d due [] e h = ground arith
  is_due-zscore d due ((c, j) ∷ zs) e h = ground (arith, is_due-zscore d due zs)

  is_due-zrem :
      (j : String) (due : ℕ) (zs : Scores)
      → is_due k due zs ≡ false
      → is_due k due (zrem j zs) ≡ false
  unfolding zrem
  is_due-zrem j due [] h = refl
  is_due-zrem j due ((c, i) ∷ zs) h = ground (arith, is_due-zrem j due zs)

  is_due-insert :
      (j : String) (d due : ℕ) (zs : Scores)
      → k ≢ j
      → is_due k due zs ≡ false
      → is_due k due (insert_score d j zs) ≡ false
  unfolding insert_score
  is_due-insert j d due [] ne h = ground arith
  is_due-insert j d due ((c, i) ∷ zs) ne h = ground (arith, is_due-insert j d due zs ne)

  is_due-zadd :
      (j : String) (d due : ℕ) (zs : Scores)
      → k ≢ j
      → is_due k due zs ≡ false
      → is_due k due (zadd d j zs) ≡ false
  unfolding zadd
  is_due-zadd j d due zs ne h = is_due-insert j d due (zrem j zs) ne (is_due-zrem j due zs h)

  pub is_due-le :
      (due later : ℕ) (zs : Scores)
      → due ≤ later
      → is_due k later zs ≡ false
      → is_due k due zs ≡ false
  is_due-le due later [] le h = refl
  is_due-le due later ((c, i) ∷ zs) le h = ground (arith, is_due-le due later zs le)

-- Until `bound` no entry of the key falls due.
pub record IsSafe (k : String) (bound : ℕ) (s : Server) : Type 0 where
  pub unpending : is_due k bound s.pending ≡ false
  pub unlogged : is_due k bound s.gc ≡ false

module _ (k : String) (bound due : ℕ) (le : due ≤ bound) where
  -- The round keeps the key safe and its file in place.
  record Kept (s u : Server) : Type 0 where
    safe : IsSafe k bound u
    filed : find_file k u.files ≡ find_file k s.files

  Kept-refl : (s : Server) → IsSafe k bound s → Kept s s
  Kept-refl s h = record { safe = h; filed = refl }

  -- Its own entry is not due, so it stays.
  promote-same : (s : Server) → IsSafe k bound s → promote_pending k due false s ≡ (false, s)
  unfolding promote_pending
  promote-same s h = elim (Option-cases (zscore k s.pending)) [
    | inl n ↦ ground arith
    | inr (d, e) ↦ ground (arith, is_due-zscore k d bound s.pending e h.unpending)
  ]

  promote-Kept :
      (j : String) (s : Server) → IsSafe k bound s → Kept s (promote_pending j due false s).1
  unfolding promote_pending
  promote-Kept j s h = elim (str_dec k j) [
    | yes same ↦ rw (← same) (rw (promote-same s h) (Kept-refl s h))
    | no ne ↦ record {
      safe = record {
        unpending = ground (arith, h.unpending, is_due-zrem k j bound s.pending h.unpending);
        unlogged = ground (arith, h.unlogged, is_due-zadd k j due bound s.gc ne h.unlogged);
      };
      filed = ground arith;
    }
  ]

  collect-Kept : (j : String) (s : Server) → k ≢ j → IsSafe k bound s → Kept s (collect_one j s).1
  unfolding collect_one collect_present remove_object
  collect-Kept j s ne h = record {
    safe = record {
      unpending = ground (arith, h.unpending);
      unlogged = ground (arith, h.unlogged, is_due-zrem k j bound s.gc h.unlogged);
    };
    filed = ground (arith, find_file-unlink_ne k j s.files ne);
  }

  Kept-trans : (s t u : Server) → Kept s t → Kept t u → Kept s u
  Kept-trans s t u a b = record { safe = b.safe; filed = b.filed ∙ a.filed }

  promote_all-Kept :
      (js : List String) (s : Server) → IsSafe k bound s → Kept s (promote_all due js s)
  unfolding promote_all
  promote_all-Kept [] s h = Kept-refl s h
  promote_all-Kept (j ∷ js) s h =
      let one = promote-Kept j s h in
      Kept-trans s (promote_pending j due false s).1 _ one
        (promote_all-Kept js (promote_pending j due false s).1 one.safe)

  collect_all-Kept :
      (js : List String) (s : Server)
      → holds k js ≡ false
      → IsSafe k bound s
      → Kept s (collect_all js s).1
  unfolding collect_all
  collect_all-Kept [] s none_held h = Kept-refl s h
  collect_all-Kept (j ∷ js) s none_held h =
      let one = collect-Kept j s (ground arith) h in
      Kept-trans s (collect_one j s).1 _ one
        (collect_all-Kept js (collect_one j s).1 (ground arith) one.safe)

  cleanup-Kept :
      (batch : ℕ) (s : Server) → IsSafe k bound s → Kept s (cleanup_storage_gc batch due s).1
  unfolding cleanup_storage_gc
  cleanup-Kept batch s h =
      let p = promote_all-Kept (due_keys batch due s.pending) s h in
      let u = promote_all due (due_keys batch due s.pending) s in
      Kept-trans s u _ p (
        collect_all-Kept (due_keys batch due u.gc) u
          (due_keys-holds k batch due u.gc (is_due-le k due bound u.gc le p.safe.unlogged)) p.safe)

-- Any number of rounds, each with its batch size and its time.
unfoldable pub cleanup_rounds : List (ℕ × ℕ) → Server → Server
cleanup_rounds [] s = s
cleanup_rounds ((batch, due) ∷ rs) s = cleanup_rounds rs (cleanup_storage_gc batch due s).1

abbrev pub AllUntil : ℕ → List (ℕ × ℕ) → Type 0
AllUntil bound [] = Unit {0}
AllUntil bound ((batch, due) ∷ rs) = (due ≤ bound) × AllUntil bound rs

-- An object with no entry in either log that falls due until `bound` keeps its file, unchanged, in
-- all cleanup rounds until then.
pub cleanup_rounds-keeps :
    (k : String) (bound : ℕ) (rs : List (ℕ × ℕ)) (s : Server)
    → AllUntil bound rs
    → IsSafe k bound s
    → find_file k (cleanup_rounds rs s).files ≡ find_file k s.files
unfolding cleanup_rounds
cleanup_rounds-keeps k bound [] s le h = refl
cleanup_rounds-keeps k bound ((batch, due) ∷ rs) s (l, le) h =
    let one = cleanup-Kept k bound due l batch s h in
    cleanup_rounds-keeps k bound rs (cleanup_storage_gc batch due s).1 le one.safe ∙ one.filed
