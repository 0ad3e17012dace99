-- ===== src/Queue/Consistency/Sound.antt =====
-- `check_consistency` of qtask_list/queue.py finds no misplaced message in a queue of this release.
use mathlib.Core.Option.{Option, none, some}
use stockev_qtask_list.Base.{
  ℕ, ◌+◌, ◌≤◌, String, Bool, true, false, ◌≡◌, refl, ap, sym, ◌∙◌, arith, List, [], ◌∷◌, ◌++◌, not,
  ◌&&◌, ◌||◌, if◌then◌else◌, Option-cases, Bool-cases, inl, inr, take, ltb, length,
}
use stockev_qtask_list.Store.Tasks.{Task}
use stockev_qtask_list.Store.{Store}
use stockev_qtask_list.State.Replies.{is_terminal}
use stockev_qtask_list.State.Ownership.Cores.{core}
use stockev_qtask_list.Queue.Config.{Config}
use stockev_qtask_list.Queue.Submit.{is_external}
use stockev_qtask_list.Queue.Consistency.{
  Issue, processing_without_heartbeat, stale_history_index, live_task_without_message,
  orphan_dedup_owner, terminal_task_has_message, failed_task_outside_dlq, operational_flag_mismatch,
  external_retention_risk, Audit, scan_messages, is_complete, is_gone, has_failed, known_location,
  differs, issue_if, risk, record_issues, repair_record, repair_index, check_task, check_tasks,
  worker_issues, owner_issues, check_consistency, Report, OwnerKey,
}
use stockev_qtask_list.Queue.Places.{locations, any_place, any_outside_dlq}
use stockev_qtask_list.Queue.Consistency.Seen.{Covers}
use stockev_qtask_list.System.{Reach, empty_store}
use stockev_qtask_list.System.Exactly.{exactly_once}
use stockev_qtask_list.System.Told.{Reach-Told}
use stockev_qtask_list.Queue.Consistency.Located.{
  Facts, gone_unseen, failed_inside, living_seen, flag_known,
}

-- An issue of a task's messages, or of the flag that tells of them.
abbrev pub is_misplaced : Issue → Bool
is_misplaced (processing_without_heartbeat w) = false
is_misplaced (stale_history_index id) = false
is_misplaced (live_task_without_message id) = true
is_misplaced (orphan_dedup_owner key id) = false
is_misplaced (terminal_task_has_message id outcome ps) = true
is_misplaced (failed_task_outside_dlq id ps) = true
is_misplaced (operational_flag_mismatch id recorded actual) = true
is_misplaced (external_retention_risk id due) = false

abbrev pub any_misplaced : List Issue → Bool
any_misplaced [] = false
any_misplaced (i ∷ is) = is_misplaced i || any_misplaced is

misplaced_append :
    (xs ys : List Issue)
    → any_misplaced xs ≡ false
    → any_misplaced ys ≡ false
    → any_misplaced (xs ++ ys) ≡ false
misplaced_append [] ys e h = h
misplaced_append (x ∷ xs) ys e h = ground (arith, misplaced_append xs ys)

issue_off : (b : Bool) (i : Issue) → b ≡ false → any_misplaced (issue_if b i) ≡ false
issue_off b i e = ground arith

risk_not_misplaced :
    (id : String) (due : Option ℕ) (now : ℕ) → any_misplaced (risk id due now) ≡ false
risk_not_misplaced id none now = refl
risk_not_misplaced id (some d) now = ground arith

five :
    {b c d e : Bool} (i j k l : Issue) (xs : List Issue)
    → b ≡ false
    → c ≡ false
    → d ≡ false
    → e ≡ false
    → any_misplaced xs ≡ false
    → any_misplaced (issue_if b i ++ issue_if c j ++ issue_if d k ++ issue_if e l ++ xs) ≡ false
five i j k l xs p q r s h = rw (p, q, r, s) h

differs_same : (b : Bool) → differs b b ≡ false
differs_same b = ground arith

module _ (a : Audit) (s u : Store) (covers : Covers a.workers s) (same : core u ≡ core s)
    (id : String) (t : Task) (f : Facts (core s) id t) where
  no_mismatch :
      let k =
        known_location a (is_complete a s) (locations id (scan_messages a s)) id t.outcome u in
      (k.location_known && differs t.operational_message k.actual) ≡ false
  no_mismatch =
      let k =
        known_location a (is_complete a s) (locations id (scan_messages a s)) id t.outcome u in
      elim (Bool-cases k.location_known) [
        | inl y ↦ rw (y, flag_known a s u covers same id t f y) (differs_same t.operational_message)
        | inr n ↦ rw n refl
      ]

  no_live :
      (not (is_terminal t.outcome)
        && not (any_place (locations id (scan_messages a s)))
        && (any_place (locations id (scan_messages a s)) || is_complete a s))
      ≡ false
  no_live = ground (arith, living_seen a s u covers same id t f)

  no_gone : (is_gone t.outcome && any_place (locations id (scan_messages a s))) ≡ false
  no_gone = ground (arith, gone_unseen a s u covers same id t f)

  no_failed : (has_failed t.outcome && any_outside_dlq (locations id (scan_messages a s))) ≡ false
  no_failed = ground (arith, failed_inside a s u covers same id t f)

  no_risk :
      any_misplaced (
        if is_external t.payload_descriptor && t.operational_message
        then risk id (a.retains t.payload_descriptor) (u.now + a.safety_margin)
        else [])
      ≡ false
  no_risk =
      ground
        (arith, risk_not_misplaced id (a.retains t.payload_descriptor) (u.now + a.safety_margin))

  record_issues-clean :
      any_misplaced (record_issues a (is_complete a s) (locations id (scan_messages a s)) id t u)
      ≡ false
  unfolding record_issues
  record_issues-clean =
      let k =
        known_location a (is_complete a s) (locations id (scan_messages a s)) id t.outcome u in
      five (live_task_without_message id)
        (terminal_task_has_message id t.outcome (locations id (scan_messages a s)))
        (failed_task_outside_dlq id (locations id (scan_messages a s)))
        (operational_flag_mismatch id t.operational_message k.actual)
        (if is_external t.payload_descriptor && t.operational_message
          then risk id (a.retains t.payload_descriptor) (u.now + a.safety_margin)
          else [])
        no_live no_gone no_failed no_mismatch no_risk

  repair_record-idle :
      repair_record a (is_complete a s) (locations id (scan_messages a s)) id t u ≡ (0, u)
  unfolding repair_record
  repair_record-idle = rw no_mismatch refl

-- A check of one task: its repair moves nothing.
record Checked (s : Store) (r : List Issue × (ℕ × Store)) : Type 0 where
  clean : any_misplaced r.0 ≡ false
  kept : core r.1.1 ≡ core s

repair_index-core : (a : Audit) (id : String) (s : Store) → core (repair_index a id s).1 ≡ core s
unfolding repair_index core
repair_index-core a id s = ground arith

module _ (a : Audit) (s : Store) (covers : Covers a.workers s)
    (facts : (id : String) (t : Task) → (core s).tasks id ≡ some t → Facts (core s) id t) where
  check_task-Checked :
      (id : String) (u : Store)
      → core u ≡ core s
      → Checked s (check_task a (is_complete a s) (scan_messages a s) id u)
  unfolding check_task core
  check_task-Checked id u same = elim (Option-cases (u.tasks id)) [
    | inl n ↦ rw (n, check_task) (record { clean = refl; kept = repair_index-core a id u ∙ same })
    | inr (t, k) ↦
        let f = facts id t (ap (λ c. c.tasks id) (sym same) ∙ k) in
        rw (k, check_task, repair_record-idle a s u covers same id t f)
          (record { clean = record_issues-clean a s u covers same id t f; kept = same })
  ]

  check_tasks-Checked :
      (ids : List String) (u : Store)
      → core u ≡ core s
      → Checked s (check_tasks a (is_complete a s) (scan_messages a s) ids u)
  unfolding check_tasks
  check_tasks-Checked [] u same = record { clean = refl; kept = same }
  check_tasks-Checked (id ∷ ids) u same =
      let one = check_task-Checked id u same in
      let r = check_task a (is_complete a s) (scan_messages a s) id u in
      let rest = check_tasks-Checked ids r.1.1 one.kept in
      record {
        clean =
            misplaced_append r.0 (check_tasks a (is_complete a s) (scan_messages a s) ids r.1.1).0
              one.clean rest.clean;
        kept = rest.kept;
      }

worker_issues-clean : (ws : List String) (s : Store) → any_misplaced (worker_issues ws s) ≡ false
unfolding worker_issues
worker_issues-clean [] s = refl
worker_issues-clean (w ∷ ws) s = ground (arith, worker_issues-clean ws s)

owner_issues-clean : (ks : List OwnerKey) (s : Store) → any_misplaced (owner_issues ks s) ≡ false
unfolding owner_issues
owner_issues-clean [] s = refl
owner_issues-clean (k ∷ ks) s = ground (arith, owner_issues-clean ks s)

reached-Facts :
    (c : Config) (now : ℕ) (s : Store)
    → Reach c (empty_store now) s
    → (id : String) (t : Task) → (core s).tasks id ≡ some t
    → Facts (core s) id t
unfolding core
reached-Facts c now s r id t k =
    let p = exactly_once c now s r id in
    let h = Reach-Told c now s id r in
    record {
      total = ground (arith, p.lives, p.dies, h);
      living = λ l. ground (arith, p.lives);
      ended = λ o. ground (arith, p.lives);
      buried = λ g. ground (arith, p.dies);
    }

not_below : (n : ℕ) → 1 ≤ n → ltb n 1 ≡ false
not_below n e = ground arith

-- The report of a check that runs: no issue of a task's messages, and no message or record changed.
pub record Consistent (s : Store) (r : Option (Report × Store)) : Type 0 where
  pub reported :
      (x : Report × Store) × (r ≡ some x) × (any_misplaced x.0.issues ≡ false) × (core x.1 ≡ core s)

-- A check with a limit of at least 1, of a queue that was empty and saw any interleaving of calls,
-- that names every worker with a list, reports no task without its message, no message of a task
-- that has ended, no failed task outside the dead letters and no wrong flag, however little of the
-- queue the limit lets it see, and its repairs change no message and no record.
pub check_consistency-Consistent :
    (c : Config) (now : ℕ) (s : Store) (a : Audit)
    → Reach c (empty_store now) s
    → Covers a.workers s
    → 1 ≤ a.limit
    → Consistent s (check_consistency a s)
unfolding check_consistency
check_consistency-Consistent c now s a r covers enough =
    let found = check_tasks a (is_complete a s) (scan_messages a s) (take a.limit a.task_ids) s in
    let k =
      check_tasks-Checked a s covers (reached-Facts c now s r) (take a.limit a.task_ids) s refl in
    let w = worker_issues a.workers s in
    let o = owner_issues (take a.limit a.owner_keys) s in
    let report : Report = record {
      scanned_messages = length (scan_messages a s);
      message_scan_complete = is_complete a s;
      issues = w ++ o ++ found.0;
      repaired = found.1.0;
    } in
    record {
      reported = (
        (report, found.1.1),
        rw (not_below a.limit enough) refl,
        misplaced_append (w ++ o) found.0
            (misplaced_append w o (worker_issues-clean a.workers s)
              (owner_issues-clean (take a.limit a.owner_keys) s))
            k.clean,
        k.kept,
      );
    }
