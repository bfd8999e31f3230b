-- ===== src/Policies.antt =====
-- ui/src/pages/Policies.tsx, the list of policies and the detail of one: which of a policy's
-- conditions is shown, the state of the page, and what it asks of the server.
pub mod Conditions
pub mod View
pub mod Deletion
pub mod Editing
pub mod Pending
pub mod Opened
use drop_the_mic.Base.{
  ℕ, String, Bool, true, false, not, ◌&&◌, ◌||◌, Option, none, some, List, [], ◌∷◌, map, length,
  find, if◌then◌else◌, ltb, eqb, ◌==◌,
}
use drop_the_mic.Base.Num.{ℤ, Number}
use drop_the_mic.Base.Text.{◌<>◌, truthy, or_else, join}
use drop_the_mic.Base.Text.Decimal.{decimal}
use drop_the_mic.Api.{Summary, Condition, CheckItem, ChecklistPolicy, PolicyStatus}
use drop_the_mic.Badge.{Badge, Variant, severity_badge}
use drop_the_mic.Client.{Result, ok, err}
use drop_the_mic.Client.Endpoints.{Endpoint, delete_policy, run_now}
use drop_the_mic.Format.{time_ago}

-- `policy.status?.f`, for a field that may be absent itself.
abbrev pub of_status {ℓ} : {A : Type ℓ} → (PolicyStatus → Option A) → ChecklistPolicy → Option A
of_status f p = elim p.status [ none ↦ none | some s ↦ f s ]

-- An absent list of conditions is treated as an empty one.
abbrev pub conditions_of : ChecklistPolicy → List Condition
conditions_of p = elim (of_status (λ s. s.conditions) p) [ none ↦ [] | some l ↦ l ]

abbrev pub is_true : String → Condition → Bool
is_true kind c = c.kind == kind && c.status == "True"

-- `if (a) return a;`, and otherwise `b`.
abbrev pub or_option {ℓ} : {A : Type ℓ} → Option A → Option A → Option A
or_option none b = b
or_option (some a) b = some a

abbrev pub first {ℓ} : {A : Type ℓ} → List A → Option A
first [] = none
first (a ∷ l) = some a

unfoldable pub latest_condition : ChecklistPolicy → Option Condition
latest_condition p =
    let l = conditions_of p in
    or_option (find (is_true "Degraded") l) (or_option (find (is_true "Available") l) (first l))

-- A badge with the text that a pointer on it shows.
pub record ConditionBadge : Type 0 where
  pub title : Option String
  pub badge : Badge

abbrev pub badge_of : Condition → ConditionBadge
badge_of c =
    if is_true "Degraded" c
    then record {
      title = some c.message;
      badge = record { variant = Variant.fail; text = "Error" };
    }
    else if is_true "Available" c
    then record { title = none; badge = record { variant = Variant.pass; text = "Healthy" } }
    else record { title = none; badge = record { variant = Variant.neutral; text = c.kind } }

-- `none`: a dash.
unfoldable pub condition_badge : ChecklistPolicy → Option ConditionBadge
unfolding latest_condition
condition_badge p = elim (latest_condition p) [ none ↦ none | some c ↦ some (badge_of c) ]

-- The card of the detail that shows the policy's health.
pub data Health : Type 0 where
  pending : Health
  error : (reason message : String) → (since : Option String) → Health
  healthy : (message : String) → (since : Option String) → Health
  nothing : Health

abbrev pub health_of : Option Condition → Option Condition → Health
health_of none none = nothing
health_of none (some c) = healthy c.message c.last_transition_time
health_of (some c) available = error c.reason c.message c.last_transition_time

unfoldable pub health : ChecklistPolicy → Health
health p =
    let l = conditions_of p in
    if eqb (length l) 0
    then pending
    else health_of (find (is_true "Degraded") l) (find (is_true "Available") l)

pub record State : Type 0 where
  pub selected : Option ChecklistPolicy
  pub show_create : Bool
  pub delete_target : Option (String × String)

abbrev pub initial : State
initial = record { selected = none; show_create = false; delete_target = none }

-- The policy that the page hands to the form of the detail as `editPolicy`.
unfoldable pub edit_target : State → Option (List ChecklistPolicy) → Option ChecklistPolicy
edit_target st none = none
edit_target st (some policies) = st.selected

pub data Action : Type 0 where
  select : ChecklistPolicy → Action
  back new close_create close_delete confirm_delete : Action
  ask_delete run : (namespace name : String) → Action

-- What an action leaves, and the call that it starts.
unfoldable pub act : State → Action → State × Option Endpoint
act st (select p) = (record st { selected = some p }, none)
act st back = (record st { selected = none }, none)
act st new = (record st { show_create = true }, none)
act st close_create = (record st { show_create = false }, none)
act st (ask_delete ns name) = (record st { delete_target = some (ns, name) }, none)
act st close_delete = (record st { delete_target = none }, none)
act st confirm_delete = elim st.delete_target [
  | none ↦ (st, none)
  | some (ns, name) ↦ (record st { delete_target = none }, some (delete_policy ns name))
]
act st (run ns name) = (st, some (run_now ns name))

pub data Toast : Type 0 where
  success error : (message : String) → Toast

-- The toast when the scan of the policy `name` is answered.
unfoldable pub run_settled : (name : String) → Result → Toast
run_settled name (ok value) = success ("Scan triggered for " <> name)
run_settled name (err message) = error ("Failed to trigger scan: " <> message)
