-- ===== src/Client/Encode.antt =====
-- The JSON values of the policies that ui/src/api/client.ts sends: what `JSON.stringify` keeps of an
-- object, which leaves out the fields that are `undefined`.
use drop_the_mic.Base.{String, Option, none, some, List, [], ◌∷◌}
use drop_the_mic.Base.Num.{int, pos}
use drop_the_mic.Api.{
  Json, str, num, arr, obj, Items, no_items, item, Members, no_members, member, CheckItem,
  ScheduleConfig, LlmConfig, PolicySpec,
}

-- A field that is put in front if it is defined.
abbrev optional {ℓ} : {A : Type ℓ} → String → (A → Json) → Option A → Members → Members
optional key f none rest = rest
optional key f (some a) rest = member key (f a) rest

abbrev strings : List String → Items
strings [] = no_items
strings (s ∷ rest) = item (str s) (strings rest)

check_json : CheckItem → Json
check_json c = obj (
    member "id" (str c.id)
      (member "description" (str c.description) (member "severity" (str c.severity) no_members)))

checks_json : List CheckItem → Items
unfolding check_json
checks_json [] = no_items
checks_json (c ∷ rest) = item (check_json c) (checks_json rest)

schedule_json : ScheduleConfig → Json
schedule_json s =
    obj
      (member "fullScan" (str s.full_scan) (optional "failedRescan" str s.failed_rescan no_members))

llm_json : LlmConfig → Json
llm_json l = obj (
    member "provider" (str l.provider) (
      optional "model" str l.model (
        member "secretRef"
          (obj (
            member "name" (str l.secret_ref.name) (optional "key" str l.secret_ref.key no_members)))
          no_members)))

unfoldable pub spec_json : PolicySpec → Json
unfolding checks_json schedule_json llm_json
spec_json s = obj (
    member "schedule" (schedule_json s.schedule) (
      member "llm" (llm_json s.llm) (
        member "checks" (arr (checks_json s.checks)) (
          optional "targetNamespaces" (λ l. arr (strings l)) s.target_namespaces
            (optional "notification" (λ j. j) s.notification
              (optional "escalationThreshold" (λ n. num (int (pos n))) s.escalation_threshold
                no_members))))))

-- A policy that is created: its metadata are its name and namespace.
unfoldable pub new_policy_json : (name namespace : String) → PolicySpec → Json
new_policy_json name namespace spec = obj (
    member "metadata"
      (obj (member "name" (str name) (member "namespace" (str namespace) no_members)))
      (member "spec" (spec_json spec) no_members))
