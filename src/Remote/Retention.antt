-- ===== src/Remote/Retention.antt =====
-- `_extend_retention` of qtask_list/remote_storage/server.py never shortens a retention.
use mathlib.Core.Option.{Option, none, some}
use stockev_qtask_list.Base.{ℕ, ◌≤◌, String, Bool, ◌≡◌, ◌≢◌, ◌⊎◌, arith}
use stockev_qtask_list.Remote.Disk.{
  Server, existing_retention, effective_retention, extend_retention,
}

-- `e` lasts as long as `r`: 0 is for ever, and no value is the server's own time to live.
abbrev pub Outlasts : Option ℕ → Option ℕ → Type 0
Outlasts e none = Unit {0}
Outlasts none (some r) = ⊥
Outlasts (some e) (some r) = (e ≡ 0) ⊎ ((r ≢ 0) × (r ≤ e))

effective-Outlasts :
    (e r : Option ℕ) → Outlasts (effective_retention e r) e × Outlasts (effective_retention e r) r
unfolding effective_retention
effective-Outlasts none none = (tt, tt)
effective-Outlasts none (some r) = (tt, ground arith)
effective-Outlasts (some e) none = (ground arith, tt)
effective-Outlasts (some e) (some r) = (ground arith, ground arith)

-- Whatever is asked for, the answer lasts as long as the retention that stands and as long as the
-- one asked for, and it is the retention that stands afterwards.
pub extend_retention-Outlasts :
    (k : String) (r : Option ℕ) (dedicated : Option Bool) (s : Server)
    → Outlasts (extend_retention k r dedicated s).0 (existing_retention (s.metas k))
      × Outlasts (extend_retention k r dedicated s).0 r
      × (existing_retention ((extend_retention k r dedicated s).1.metas k)
          ≡ (extend_retention k r dedicated s).0)
unfolding extend_retention
extend_retention-Outlasts k r dedicated s = (
  ground (arith, effective-Outlasts (existing_retention (s.metas k)) r),
  ground (arith, effective-Outlasts (existing_retention (s.metas k)) r),
  ground arith,
)
