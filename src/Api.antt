-- ===== src/Api.antt =====
-- ui/src/api/client.ts: the resources that the client exchanges with the server. An optional field
-- is an `Option`; counts are natural numbers; `Record<string, unknown>` and `unknown` are `Json`.
pub mod Objects
use drop_the_mic.Base.{ℕ, String, Option, List, Bool}
use drop_the_mic.Base.Num.{Number}

mutual
  pub data Json : Type 0 where
    null : Json
    bool : Bool → Json
    num : Number → Json
    str : String → Json
    arr : Items → Json
    obj : Members → Json

  pub data Items : Type 0 where
    no_items : Items
    item : Json → Items → Items

  pub data Members : Type 0 where
    no_members : Members
    member : String → Json → Members → Members

pub record CheckItem : Type 0 where
  pub id : String
  pub description : String
  pub severity : String

pub record ScheduleConfig : Type 0 where
  pub full_scan : String
  pub failed_rescan : Option String

pub record SecretRef : Type 0 where
  pub name : String
  pub key : Option String

pub record LlmConfig : Type 0 where
  pub provider : String
  pub model : Option String
  pub secret_ref : SecretRef

pub record Metadata : Type 0 where
  pub name : String
  pub namespace : String
  pub creation_timestamp : String

pub record Summary : Type 0 where
  pub total : ℕ
  pub pass : ℕ
  pub warn : ℕ
  pub fail : ℕ

pub record Condition : Type 0 where
  pub kind : String
  pub status : String
  pub reason : String
  pub message : String
  pub last_transition_time : Option String

pub record PolicySpec : Type 0 where
  pub schedule : ScheduleConfig
  pub llm : LlmConfig
  pub checks : List CheckItem
  pub target_namespaces : Option (List String)
  pub notification : Option Json
  pub escalation_threshold : Option ℕ

pub record PolicyStatus : Type 0 where
  pub last_full_scan_time : Option String
  pub last_rescan_time : Option String
  pub last_result_name : Option String
  pub summary : Option Summary
  pub conditions : Option (List Condition)

pub record ChecklistPolicy : Type 0 where
  pub metadata : Metadata
  pub spec : PolicySpec
  pub status : Option PolicyStatus

pub data Verdict : Type 0 where
  pass warn fail : Verdict

pub record ToolCall : Type 0 where
  pub tool_name : String
  pub input : Json
  pub output : String

pub record CheckResult : Type 0 where
  pub id : String
  pub description : String
  pub verdict : Verdict
  pub reasoning : String
  pub severity : Option String
  pub failed_since : Option String
  pub evidence : Option (Option (List ToolCall))

pub record ResultSpec : Type 0 where
  pub policy_ref : String
  pub scan_type : String
  pub started_at : String
  pub completed_at : Option String
  pub checks : Option (List CheckResult)
  pub summary : Option Summary

pub record ChecklistResult : Type 0 where
  pub metadata : Metadata
  pub spec : ResultSpec
  pub phase : Option String

pub record ClusterResource : Type 0 where
  pub kind : String
  pub name : String
  pub ready : String
