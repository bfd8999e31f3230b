-- ===== src/Policies/Opened.antt =====
-- ui/src/pages/Policies.tsx, `PolicyDetail` while it is open: the edit form and the scan that it starts.
-- It is mounted anew whenever a policy is opened, with a mutation of its own.
pub mod Again
use mathlib.Core.Option.{Option, none, some}
use drop_the_mic.Base.{String, Bool, true, false, if◌then◌else◌}
use drop_the_mic.Api.{ChecklistPolicy}
use drop_the_mic.Client.{Result}
use drop_the_mic.Client.Endpoints.{Endpoint, run_now}
use drop_the_mic.Policies.{Toast, run_settled}
use drop_the_mic.Policies.Pending.{is_success}

pub record Opened : Type 0 where
  pub policy : ChecklistPolicy
  pub show_edit : Bool
  pub running : Bool

abbrev pub opened : ChecklistPolicy → Opened
opened policy = record { policy = policy; show_edit = false; running = false }

abbrev pub edit : Opened → Opened
edit o = record o { show_edit = true }

abbrev pub close_edit : Opened → Opened
close_edit o = record o { show_edit = false }

-- The button `Run Now`.
unfoldable pub click_run_now : Opened → Opened × Option Endpoint
click_run_now o = if o.running then (o, none) else (
  record o { running = true },
  some (run_now o.policy.metadata.namespace o.policy.metadata.name),
)

pub record Answered : Type 0 where
  pub opened : Opened
  pub toast : Toast
  pub invalidates : Bool

unfoldable pub run_now_answered : Result → Opened → Answered
unfolding run_settled
run_now_answered result o = record {
  opened = record o { running = false };
  toast = run_settled o.policy.metadata.name result;
  invalidates = is_success result;
}
