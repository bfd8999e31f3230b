-- ===== src/Controller.antt =====
-- operator/internal/controller/checklistpolicy_controller.go: `Reconcile` and the schedulers that it starts and
-- stops. `Kube W` holds the calls of controller-runtime, and `start` is the making of an engine and a
-- scheduler with its `Start`. A scheduler stands for the policy that it was made of; what is done with
-- schedulers is kept in `effects`, the newest first.
pub mod Channels
pub mod Loop
pub mod Running
use mathlib.Core.Option.{Option, none, some}
use drop_the_mic.Base.{
  ℕ, String, Bool, true, false, not, ◌&&◌, ◌||◌, List, [], ◌∷◌, ◌++◌, if◌then◌else◌, ◌==◌,
}
use drop_the_mic.Base.Sets.{has, without}
use drop_the_mic.Base.Maps.{Map, lookup, store, remove_key}
use drop_the_mic.Base.Text.{◌<>◌, or_else, truthy, includes}
use drop_the_mic.Api.{Condition}
use drop_the_mic.Engine.{ScanSummary, text_or_empty}
use drop_the_mic.Scheduler.{is_positive, summary_text}

-- An `error`, and whether it is one of a missing object.
pub record Error : Type 0 where
  pub text : String
  pub not_found : Bool

pub data Reply {ℓ} (A : Type ℓ) : Type ℓ where
  found : A → Reply A
  broken : Error → Reply A

pub record SecretReference : Type 0 where
  pub name : String
  pub key : String

pub record LlmConfig : Type 0 where
  pub provider : String
  pub model : String
  pub secret_ref : SecretReference

pub record SlackNotification : Type 0 where
  pub channel : String
  pub secret_ref : SecretReference

pub record GitHubNotification : Type 0 where
  pub owner : String
  pub repo : String
  pub labels : List String
  pub secret_ref : SecretReference

pub record JiraNotification : Type 0 where
  pub url : String
  pub project : String
  pub issue_type : String
  pub secret_ref : SecretReference

pub record NotificationConfig : Type 0 where
  pub slack : Option SlackNotification
  pub github : Option GitHubNotification
  pub jira : Option JiraNotification

pub record Policy : Type 0 where
  pub namespace : String
  pub name : String
  pub is_deleted : Bool
  pub finalizers : List String
  pub annotations : Map String
  pub llm : LlmConfig
  pub notification : Option NotificationConfig
  pub summary : Option ScanSummary
  pub conditions : List Condition

pub data Adapter : Type 0 where
  claude : (api_key model : String) → Adapter

pub data Notifier : Type 0 where
  slack : (webhook_url channel : String) → Notifier
  github : (token owner repo : String) → (labels : List String) → Notifier
  jira : (url email token project issue_type : String) → Notifier

pub record Kube (W : Type 0) : Type 0 where
  pub get : (namespace name : String) → W → Reply Policy × W
  pub update : Policy → W → Option Error × W
  pub update_status : Policy → W → Option Error × W
  pub get_secret : (namespace name : String) → W → Reply (Map String) × W
  pub start : Policy → Adapter → List Notifier → W → Option Error × W
  pub trigger : Policy → W → W
  pub set_condition : Condition → List Condition → List Condition
  pub now : W → String × W

pub data Effect : Type 0 where
  started stopped triggered : (key : String) → Effect

pub record State (W : Type 0) : Type 0 where
  pub schedulers : Map Policy
  pub effects : List Effect
  pub world : W

-- `ctrl.Result` and the error: nothing more to do, again at once, again after some seconds, or the error.
pub data Outcome : Type 0 where
  done requeue : Outcome
  after_seconds : ℕ → Outcome
  fails : Error → Outcome

abbrev pub finalizer_name : String
finalizer_name = "dtm.io/finalizer"

abbrev pub run_now_annotation : String
run_now_annotation = "dtm.io/run-now"

abbrev pub key_of : (namespace name : String) → String
key_of namespace name = namespace <> "/" <> name

abbrev pub wrap : String → Error → Error
wrap prefix e = record { text = prefix <> e.text; not_found = e.not_found }

abbrev pub plain : String → Error
plain text = record { text = text; not_found = false }

abbrev pub secret_value : (ref : SecretReference) → Reply (Map String) → Reply String
secret_value ref (broken e) = broken (wrap ("getting secret " <> ref.name <> ": ") e)
secret_value ref (found data_of) = elim (lookup (or_else ref.key "api-key") data_of) [
  | none ↦
      broken
        (plain ("key \"" <> or_else ref.key "api-key" <> "\" not found in secret " <> ref.name))
  | some v ↦ found v
]

abbrev pub build_adapter : LlmConfig → (api_key : String) → Reply Adapter
build_adapter cfg api_key =
    if cfg.provider == "claude"
    then found (claude api_key cfg.model)
    else broken (plain ("unsupported LLM provider: " <> cfg.provider))

-- The reason of the condition for an error of the scheduler.
abbrev pub reason_of : Error → String
reason_of e =
    if e.not_found || includes e.text "not found" then "SecretNotFound" else "SchedulerError"

module _ {W : Type 0} where
  abbrev pub stop_found : (key : String) → Option Policy → State W → State W
  stop_found key none st = st
  stop_found key (some p) st = record st {
    schedulers = remove_key key st.schedulers;
    effects = stopped key ∷ st.effects;
  }

  abbrev pub stop_scheduler : (key : String) → State W → State W
  stop_scheduler key st = stop_found key (lookup key st.schedulers) st
