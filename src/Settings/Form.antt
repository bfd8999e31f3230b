-- ===== src/Settings/Form.antt =====
-- What the form of the settings shows, and what its inputs change.
use mathlib.Core.Option.{Option, none, some}
use drop_the_mic.Base.{
  ℕ, ◌≡◌, ◌≢◌, refl, ◌∙◌, ap, String, Bool, true, false, ◌&&◌, List, [], ◌∷◌, if◌then◌else◌, ◌==◌,
  arith, eq_iff, eqb_iff, Bool-cases, inl, inr,
}
use drop_the_mic.Api.{Json, num, obj, Members}
use drop_the_mic.Api.Objects.{field, put, is_truthy, field-put}
use drop_the_mic.Badge.{Badge, Variant}
use drop_the_mic.Settings.{
  State, object_in, part_of, set_general, set_notif, parse_int, number_or, set_threshold,
  set_retention,
}

-- The card of a service: its badge, its checkbox, and its inputs if it is enabled.
pub record Card : Type 0 where
  pub title : String
  pub badge : Badge
  pub checked : Bool
  pub inputs : Option (List (String × Option Json))

abbrev pub is_enabled : String → Members → Bool
is_enabled service notif = elim (field "enabled" (part_of service notif)) [
  | none ↦ false
  | some v ↦ is_truthy v
]

labelled : Members → List (String × String) → List (String × Option Json)
labelled part [] = []
labelled part ((label, key) ∷ rest) = (label, field key part) ∷ labelled part rest

unfoldable pub card : (title service : String) → List (String × String) → Members → Card
unfolding labelled
card title service labels notif =
    let enabled = is_enabled service notif in
    record {
      title = title;
      badge = record {
        variant = if enabled then Variant.pass else Variant.neutral;
        text = if enabled then "Enabled" else "Disabled";
      };
      checked = enabled;
      inputs = if enabled then some (labelled (part_of service notif) labels) else none;
    }

unfoldable pub cards : Members → List Card
cards notif =
    card "Slack Notifications" "slack"
      (("Channel", "channel") ∷ ("Webhook Secret Name", "webhookSecret") ∷ []) notif
    ∷ card "GitHub Issues" "github"
        (("Owner", "owner")
          ∷ ("Repository", "repo")
          ∷ ("Labels (comma-separated)", "labels")
          ∷ ("Token Secret Name", "tokenSecret")
          ∷ [])
        notif
    ∷ card "Jira Tickets" "jira"
        (("Jira URL", "url")
          ∷ ("Project Key", "project")
          ∷ ("Issue Type", "issueType")
          ∷ ("Credential Secret Name", "credentialSecret")
          ∷ [])
        notif
    ∷ []

unfoldable pub general_inputs : Members → List (String × Option Json)
unfolding labelled
general_inputs general = labelled general (
    ("Default LLM Provider", "defaultProvider")
    ∷ ("Default Model", "defaultModel")
    ∷ ("Escalation Threshold", "escalationThreshold")
    ∷ ("Result Retention (days)", "resultRetentionDays")
    ∷ [])

abbrev pub value_of : String → String → Members → Option Json
value_of service key notif = field key (part_of service notif)

part_of-put :
    (service other : String) (part notif : Members)
    → part_of other (put service (obj part) notif)
      ≡ (if service == other then part else part_of other notif)
part_of-put service other part notif =
    ap object_in (field-put service other (obj part) notif) ∙ choose (service == other)
  where
    choose :
        (b : Bool)
        → object_in (if b then some (obj part) else field other notif)
          ≡ (if b then part else part_of other notif)
    choose true = refl
    choose false = refl

-- An input of a service changes that field of that service, and no other value of any service and not
-- the general part.
pub set_notif-value_of :
    (service other key key' : String) (value : Json) (st : State)
    → (value_of other key' (set_notif service key value st).notif
        ≡ (if service == other && key == key' then some value else value_of other key' st.notif))
      × ((set_notif service key value st).general ≡ st.general)
unfolding set_notif
set_notif-value_of service other key key' value st = (
  ap (field key') (part_of-put service other (put key value (part_of service st.notif)) st.notif)
      ∙ chosen,
  refl,
)
  where
    chosen :
        field key' (
          if service == other
          then put key value (part_of service st.notif)
          else part_of other st.notif)
        ≡ (if service == other && key == key' then some value else value_of other key' st.notif)
    chosen =
        ground (arith, eq_iff service other, field-put key key' value (part_of service st.notif))

number_or-is_truthy : (d : ℕ) (text : String) → d ≢ 0 → is_truthy (number_or d text) ≡ true
unfolding number_or is_truthy
number_or-is_truthy d text h = elim (Bool-cases (is_truthy (num (parse_int text)))) [
  | inl e ↦ rw e e
  | inr e ↦ rw e (ground (arith, eqb_iff d 0))
]

-- Whatever is typed as the threshold or as the retention, a number is kept that is neither 0 nor NaN,
-- and the other field stays what it is.
pub set_numbers :
    (text : String) (st : State)
    → ((v : Json) × (field "escalationThreshold" (set_threshold text st).general ≡ some v)
        × (is_truthy v ≡ true)
        × (field "resultRetentionDays" (set_threshold text st).general
            ≡ field "resultRetentionDays" st.general))
      × ((v : Json) × (field "resultRetentionDays" (set_retention text st).general ≡ some v)
          × (is_truthy v ≡ true)
          × (field "escalationThreshold" (set_retention text st).general
              ≡ field "escalationThreshold" st.general))
unfolding set_threshold set_retention set_general
set_numbers text st = (
  (
    number_or 5 text,
    field-put "escalationThreshold" "escalationThreshold" (number_or 5 text) st.general,
    number_or-is_truthy 5 text (λ e. omega arith),
    field-put "escalationThreshold" "resultRetentionDays" (number_or 5 text) st.general,
  ),
  (
    number_or 30 text,
    field-put "resultRetentionDays" "resultRetentionDays" (number_or 30 text) st.general,
    number_or-is_truthy 30 text (λ e. omega arith),
    field-put "resultRetentionDays" "escalationThreshold" (number_or 30 text) st.general,
  ),
)
