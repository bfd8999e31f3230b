-- ===== src/PolicyForm.antt =====
-- ui/src/pages/Policies.tsx, `PolicyFormModal`: the form that creates and edits a policy. Its state
-- variables are the fields of `Form`; `edit_policy` is `none` where a policy is created.
pub mod Checks
pub mod Modal
pub mod Numbering
pub mod Submit
pub mod RoundTrip
use drop_the_mic.Base.{
  ℕ, zero, suc, ◌+◌, ◌-◌, ◌≤◌, String, Bool, true, false, not, ◌&&◌, Option, none, some, List, [],
  ◌∷◌, ◌++◌, filter, length, if◌then◌else◌, leb, ltb, eqb, ◌==◌,
}
use drop_the_mic.Base.Text.{◌<>◌, truthy, or_else, trim}
use drop_the_mic.Base.Text.Decimal.{decimal}
use drop_the_mic.Api.{
  CheckItem, ScheduleConfig, SecretRef, LlmConfig, PolicySpec, ChecklistPolicy, Metadata,
}
use drop_the_mic.Client.Endpoints.{Endpoint, create_policy, update_policy}

pub record Form : Type 0 where
  pub name : String
  pub namespace : String
  pub provider : String
  pub model : String
  pub secret_name : String
  pub full_scan : String
  pub failed_rescan : String
  pub target_ns_list : List String
  pub checks : List CheckItem
  pub initialized : Bool
  pub show_preview : Bool

-- A check as the form starts with and as "Add Check" adds it.
abbrev pub new_check : ℕ → CheckItem
new_check n = record { id = "check-" <> decimal n; description = ""; severity = "warning" }

unfoldable pub initial : Form
initial = record {
  name = "";
  namespace = "";
  provider = "claude";
  model = "";
  secret_name = "dtm-llm-secret";
  full_scan = "0 */6 * * *";
  failed_rescan = "*/30 * * * *";
  target_ns_list = [];
  checks = new_check 1 ∷ [];
  initialized = false;
  show_preview = false;
}

-- `x || d` for an optional value.
abbrev pub text_or {ℓ} : {A : Type ℓ} → A → Option A → A
text_or d none = d
text_or d (some a) = a

unfoldable pub prefill : ChecklistPolicy → Form → Form
prefill p form = record form {
  name = p.metadata.name;
  namespace = p.metadata.namespace;
  provider = p.spec.llm.provider;
  model = text_or "" p.spec.llm.model;
  secret_name = p.spec.llm.secret_ref.name;
  full_scan = p.spec.schedule.full_scan;
  failed_rescan = text_or "" p.spec.schedule.failed_rescan;
  target_ns_list = text_or [] p.spec.target_namespaces;
  checks = p.spec.checks;
  initialized = true;
}

-- One render: the assignments that the body of the component makes while it renders. React renders
-- again after these, until there are none.
unfoldable pub render : Option ChecklistPolicy → (open_now : Bool) → Form → Form
unfolding prefill
render none open_now form =
    if not open_now && form.initialized then record form { initialized = false } else form
render (some p) open_now form =
    if open_now && not form.initialized
    then prefill p form
    else if not open_now && form.initialized
    then record form { initialized = false }
    else form

-- `resetForm`, and so what `handleClose` leaves of the form.
unfoldable pub reset_form : Form → Form
unfolding initial
reset_form form = initial

unfoldable pub is_valid : CheckItem → Bool
is_valid c = truthy (trim c.id) && truthy (trim c.description)

unfoldable pub valid_checks : List CheckItem → List CheckItem
unfolding is_valid
valid_checks checks = filter is_valid checks

-- `s || undefined`
abbrev pub non_empty : String → Option String
non_empty s = if truthy s then some s else none

abbrev pub non_empty_list : List String → Option (List String)
non_empty_list l = if ltb 0 (length l) then some l else none

-- The resource that the YAML preview shows.
pub record Preview : Type 0 where
  pub api_version : String
  pub kind : String
  pub name : String
  pub namespace : String
  pub spec : PolicySpec

unfoldable pub build_cr : (default_ns : String) → Form → Preview
build_cr default_ns form = record {
  api_version = "dtm.dtm.io/v1alpha1";
  kind = "ChecklistPolicy";
  name = or_else form.name "my-policy";
  namespace = or_else form.namespace default_ns;
  spec = record {
    schedule = record {
      full_scan = form.full_scan;
      failed_rescan = if truthy form.failed_rescan then some form.failed_rescan else none;
    };
    llm = record {
      provider = form.provider;
      model = if truthy form.model then some form.model else none;
      secret_ref = record { name = form.secret_name; key = none };
    };
    checks = valid_checks form.checks;
    target_namespaces =
        if ltb 0 (length form.target_ns_list) then some form.target_ns_list else none;
    notification = none;
    escalation_threshold = none;
  };
}

-- The specification that `handleSubmit` sends.
unfoldable pub submitted_spec : Form → PolicySpec
submitted_spec form = record {
  schedule = record { full_scan = form.full_scan; failed_rescan = non_empty form.failed_rescan };
  llm = record {
    provider = form.provider;
    model = non_empty form.model;
    secret_ref = record { name = form.secret_name; key = none };
  };
  checks = valid_checks form.checks;
  target_namespaces = non_empty_list form.target_ns_list;
  notification = none;
  escalation_threshold = none;
}

-- The call that a click on the button makes, if any.
unfoldable pub handle_submit : (default_ns : String) → (is_edit : Bool) → Form → Option Endpoint
handle_submit default_ns is_edit form =
    if not (truthy (trim form.name))
    then none
    else if eqb (length (valid_checks form.checks)) 0
    then none
    else if is_edit
    then some (update_policy form.namespace form.name (submitted_spec form))
    else some (create_policy form.name (or_else form.namespace default_ns) (submitted_spec form))

-- The edits of the list of checks.
unfoldable pub add_check : List CheckItem → List CheckItem
add_check checks = checks ++ new_check (length checks + 1) ∷ []

-- `checks.filter((_, i) => i !== idx)`, from the index `i` on.
filter_ne : ℕ → ℕ → List CheckItem → List CheckItem
filter_ne i idx [] = []
filter_ne i idx (c ∷ cs) =
    let rest = filter_ne (i + 1) idx cs in if eqb i idx then rest else c ∷ rest

unfoldable pub remove_check : ℕ → List CheckItem → List CheckItem
unfolding filter_ne
remove_check idx checks = if leb (length checks) 1 then checks else filter_ne 0 idx checks

pub data CheckField : Type 0 where
  id description severity : CheckField

abbrev pub assign : CheckField → String → CheckItem → CheckItem
assign id value c = record c { id = value }
assign description value c = record c { description = value }
assign severity value c = record c { severity = value }

-- `checks.map((c, i) => i === idx ? … : c)`, from the index `i` on.
map_at : ℕ → ℕ → CheckField → String → List CheckItem → List CheckItem
map_at i idx field value [] = []
map_at i idx field value (c ∷ cs) =
    (if eqb i idx then assign field value c else c) ∷ map_at (i + 1) idx field value cs

unfoldable pub update_check : ℕ → CheckField → String → List CheckItem → List CheckItem
unfolding map_at
update_check idx field value checks = map_at 0 idx field value checks
