-- ===== src/Examples/Contracts.antt =====
-- A task's description that passes the checks.
use mathlib.Core.Option.{none, some}
use stockev_qtask_list.Base.{true, refl, str_dec}
use stockev_qtask_list.Models.{
  Request, task_spec, check_texts, check_supersede, datetime_to_epoch, is_blank, is_empty,
}
use stockev_qtask_list.Models.Contract.{IsValid, task_spec-IsValid}
use stockev_qtask_list.Examples.{spec}

abbrev request : Request
request = record {
  req_action = "fetch";
  req_payload_is_mapping = true;
  req_logical_key = some "day-1";
  req_scheduled_for = none;
  req_not_before_at = none;
  req_start_deadline_at = none;
  req_dedup_until = none;
  req_trace_id = none;
  req_parent_task_id = none;
  req_concurrency_key = some "site";
  req_supersede_key = none;
  req_supersede_version = none;
}

task_spec-IsValid_example : IsValid spec
unfolding task_spec check_texts check_supersede datetime_to_epoch is_blank is_empty str_dec
task_spec-IsValid_example = task_spec-IsValid request spec refl
