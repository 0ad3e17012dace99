-- ===== src/Queue/Config.antt =====
-- qtask_list/queue.py, `SmartQueue.__init__`: the budget, the times and their checks. Times are
-- microseconds; a float that is not finite has no value here.
use mathlib.Core.Option.{Option, none, some}
use stockev_qtask_list.Base.{ℕ, ◌*◌, Bool, false, ◌&&◌, ◌||◌, not, max, ltb, ◌==◌, if◌then◌else◌}

pub record Config : Type 0 where
  pub max_attempts : ℕ
  pub backoff_base : ℕ
  pub backoff_max : ℕ
  pub lease_time : ℕ
  pub retry_time : ℕ
  pub ttl : ℕ
  pub full_history : Bool

-- The constructor's arguments.
pub record Options : Type 0 where
  pub opt_max_attempts : Option ℕ
  pub opt_max_retry : Option ℕ
  pub opt_backoff_base : ℕ
  pub opt_backoff_max : ℕ
  pub opt_lease_time : ℕ
  pub opt_retry_time : ℕ
  pub opt_ttl_days : ℕ
  pub opt_full_history : Bool

-- `max_attempts is not None and max_retry is not None and max_attempts != max_retry`.
abbrev pub disagree : Option ℕ → Option ℕ → Bool
disagree none b = false
disagree (some a) none = false
disagree (some a) (some b) = not (a == b)

-- The newer name, else the older one, else 3; at least 1.
unfoldable pub resolve_attempts : Option ℕ → Option ℕ → ℕ
resolve_attempts (some a) b = max 1 a
resolve_attempts none (some b) = max 1 b
resolve_attempts none none = 3

abbrev pub day : ℕ
day = 86400000000

-- `none` is a ValueError.
unfoldable pub configure : Options → Option Config
configure o =
    if disagree o.opt_max_attempts o.opt_max_retry
      || (not (o.opt_backoff_max == 0) && ltb o.opt_backoff_max o.opt_backoff_base)
      || ltb o.opt_lease_time 1000
      || o.opt_retry_time == 0
    then none
    else some (record {
      max_attempts = resolve_attempts o.opt_max_attempts o.opt_max_retry;
      backoff_base = o.opt_backoff_base;
      backoff_max = o.opt_backoff_max;
      lease_time = o.opt_lease_time;
      retry_time = o.opt_retry_time;
      ttl = max (o.opt_ttl_days * day) 1000000;
      full_history = o.opt_full_history;
    })
