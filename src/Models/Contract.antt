-- ===== src/Models/Contract.antt =====
-- What a checked `TaskSpec` of qtask_list/models.py promises to the queue.
use Prim.Native.String.{len}
use mathlib.Core.Option.{Option, none, some}
use stockev_qtask_list.Base.{ltb, ℕ, ◌≤◌, String, false, ◌≡◌, arith, not, ◌&&◌}
use stockev_qtask_list.Store.Messages.{SupersedeValue}
use stockev_qtask_list.Models.{
  holds_of, Moment, Request, Spec, ok, datetime_to_epoch, is_blank, is_empty, task_spec,
  check_texts, check_supersede, is_given, is_after,
}

-- Two optional times in order, where both are given.
abbrev pub InOrder : Option ℕ → Option ℕ → Type 0
InOrder (some a) (some b) = a ≤ b
InOrder none b = Unit {0}
InOrder (some a) none = Unit {0}

abbrev pub OfAtMost : ℕ → Option String → Type 0
OfAtMost n none = Unit {0}
OfAtMost n (some k) = (len k ≤ n) × (is_empty k ≡ false)

abbrev pub NotEmpty : Option String → Type 0
NotEmpty none = Unit {0}
NotEmpty (some k) = is_empty k ≡ false

-- The promises: a name for the action, times in order, a logical key of 1 to 512 bytes wherever a
-- deduplication time is given, and a supersede key exactly where there is a version.
pub record IsValid (s : Spec) : Type 0 where
  pub named : is_blank s.action ≡ false
  pub short : len s.action ≤ 256
  pub keyed : OfAtMost 512 s.logical_key
  pub deduplicated : (is_given s.dedup_until && not (is_given s.logical_key)) ≡ false
  pub ordered : InOrder s.not_before_at s.start_deadline_at
  pub versioned : is_given s.supersede_key ≡ is_given s.supersede_version
  pub superseding : NotEmpty s.supersede_key
  pub concurrent : NotEmpty s.concurrency_key

InOrder-of : (a b : Option ℕ) → is_after a b ≡ false → InOrder a b
InOrder-of none b h = tt
InOrder-of (some a) none h = tt
InOrder-of (some a) (some b) h = ground arith

-- What the two groups of checks let through.
record TextsPass (r : Request) : Type 0 where
  named : is_blank r.req_action ≡ false
  short : ltb 256 (len r.req_action) ≡ false
  filled : holds_of is_empty r.req_logical_key ≡ false
  keyed : holds_of (λ k. ltb 512 (len k)) r.req_logical_key ≡ false
  deduplicated : (is_given r.req_dedup_until && not (is_given r.req_logical_key)) ≡ false

check_texts-ok : (r : Request) → check_texts r ≡ ok tt → TextsPass r
unfolding check_texts
check_texts-ok r h = record {
  named = ground arith;
  short = ground arith;
  filled = ground arith;
  keyed = ground arith;
  deduplicated = ground arith;
}

record SupersedePass (r : Request) (v : Option SupersedeValue) : Type 0 where
  versioned : is_given r.req_supersede_key ≡ is_given v
  superseding : holds_of is_empty r.req_supersede_key ≡ false
  concurrent : holds_of is_empty r.req_concurrency_key ≡ false

check_supersede-ok :
    (r : Request) (v : Option SupersedeValue) → check_supersede r ≡ ok v → SupersedePass r v
unfolding check_supersede
check_supersede-ok r v h = record {
  versioned = ground arith;
  superseding = ground arith;
  concurrent = ground arith;
}

epoch-given :
    (m : Option Moment) (e : Option ℕ) → datetime_to_epoch m ≡ ok e → is_given e ≡ is_given m
unfolding datetime_to_epoch
epoch-given m e h = ground arith

-- The chain of the checks.
record Passes (r : Request) (s : Spec) : Type 0 where
  texts : check_texts r ≡ ok tt
  dedup : datetime_to_epoch r.req_dedup_until ≡ ok s.dedup_until
  order : is_after s.not_before_at s.start_deadline_at ≡ false
  supersede : check_supersede r ≡ ok s.supersede_version
  action : s.action ≡ r.req_action
  key : s.logical_key ≡ r.req_logical_key
  versions : s.supersede_key ≡ r.req_supersede_key
  group : s.concurrency_key ≡ r.req_concurrency_key

task_spec-Passes : (r : Request) (s : Spec) → task_spec r ≡ ok s → Passes r s
unfolding task_spec
task_spec-Passes r s h = record {
  texts = ground arith;
  dedup = ground arith;
  order = ground arith;
  supersede = ground arith;
  action = ground arith;
  key = ground arith;
  versions = ground arith;
  group = ground arith;
}

OfAtMost-of :
    (k : Option String)
    → holds_of is_empty k ≡ false
    → holds_of (λ x. ltb 512 (len x)) k ≡ false
    → OfAtMost 512 k
OfAtMost-of none h g = tt
OfAtMost-of (some k) h g = (ground arith, h)

NotEmpty-of : (k : Option String) → holds_of is_empty k ≡ false → NotEmpty k
NotEmpty-of none h = tt
NotEmpty-of (some k) h = h

-- A description that passes the checks keeps every promise.
pub task_spec-IsValid : (r : Request) (s : Spec) → task_spec r ≡ ok s → IsValid s
task_spec-IsValid r s h =
    let p = task_spec-Passes r s h in
    let q = check_texts-ok r p.texts in
    let v = check_supersede-ok r s.supersede_version p.supersede in
    record {
      named = rw p.action q.named;
      short = rw p.action (ground (arith, q.short));
      keyed = rw p.key (OfAtMost-of r.req_logical_key q.filled q.keyed);
      deduplicated = rw (epoch-given r.req_dedup_until s.dedup_until p.dedup, p.key) q.deduplicated;
      ordered = InOrder-of s.not_before_at s.start_deadline_at p.order;
      versioned = rw p.versions v.versioned;
      superseding = rw p.versions (NotEmpty-of r.req_supersede_key v.superseding);
      concurrent = rw p.group (NotEmpty-of r.req_concurrency_key v.concurrent);
    }
