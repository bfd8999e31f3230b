-- ===== src/Settings/Saving.antt =====
-- What is saved of the settings that the server sent.
use mathlib.Core.Option.{Option, none, some}
use drop_the_mic.Base.{
  ℕ, ◌≡◌, ◌≢◌, refl, ◌∙◌, ap, String, Bool, false, if◌then◌else◌, arith, eq_iff,
}
use drop_the_mic.Base.Sets.{IsDistinct}
use drop_the_mic.Api.{Json, obj, Members}
use drop_the_mic.Api.Objects.{keys, field, or_json, is_truthy, field-spread}
use drop_the_mic.Client.Endpoints.{Endpoint, update_settings}
use drop_the_mic.Settings.{
  State, json, initial, initial_general, initial_notif, part_of, merged, seed, body_of, save_form,
  save_parsed, save_json, save_as, save, set_mode,
}

-- The settings that the server sent, with their two parts.
pub record AreSettings (settings general notification : Members) : Type 0 where
  pub has_general : field "general" settings ≡ some (obj general)
  pub has_notification : field "notification" settings ≡ some (obj notification)
  pub general_keys : IsDistinct (keys general)
  pub notification_keys : IsDistinct (keys notification)

field-merged :
    (key : String) (part prev : Members) (o : Option Json)
    → o ≡ some (obj part)
    → IsDistinct (keys part)
    → field key (merged o prev) ≡ or_json (field key part) (field key prev)
unfolding is_truthy
field-merged key part prev o e d = rw e (field-spread key prev part d)

-- The settings that come later replace what was typed: after any state of the form, each field that
-- the server sends has the value that it sends, and the others stay what they are.
pub field-seed :
    (stringify : Members → String) (settings general notification : Members) (st : State)
    (key : String)
    → AreSettings settings general notification
    → (field key (seed stringify settings st).general
        ≡ or_json (field key general) (field key st.general))
      × (field key (seed stringify settings st).notif
          ≡ or_json (field key notification) (field key st.notif))
unfolding seed
field-seed stringify settings general notification st key h = (
  field-merged key general st.general _ h.has_general h.general_keys,
  field-merged key notification st.notif _ h.has_notification h.notification_keys,
)

pressed :
    (saved : State × Option Endpoint) (st : State) (b : Bool)
    → b ≡ false
    → (if b then (st, none) else saved).1 ≡ saved.1
pressed saved st b e = rw e

parsed_call :
    (now : ℕ) (st : State) (value : Json)
    → (save_parsed now st (some value)).1 ≡ some (update_settings value)
unfolding save_parsed
parsed_call now st value = refl

-- The text of the settings, saved as it is while no call is pending, sends the settings that the server
-- sent last, with all their fields, if the built-in parser reads the text back.
pub save_json-seed :
    (stringify : Members → String) (parse_json : String → Option Json) (now : ℕ)
    (settings : Members) (st : State)
    → parse_json (stringify settings) ≡ some (obj settings)
    → st.pending ≡ false
    → (save parse_json now (set_mode json (seed stringify settings st))).1
      ≡ some (update_settings (obj settings))
unfolding save save_as save_json set_mode seed
save_json-seed stringify parse_json now settings st e p =
    let loaded = set_mode json (seed stringify settings st) in
    pressed (save_parsed now loaded (parse_json (stringify settings))) loaded st.pending p
    ∙ ap (λ o. (save_parsed now loaded o).1) e
    ∙ parsed_call now loaded (obj settings)

form_call :
    (stringify : Members → String) (parse_json : String → Option Json) (now : ℕ)
    (settings : Members)
    → (save parse_json now (seed stringify settings initial)).1
      ≡ some (update_settings (obj (body_of (seed stringify settings initial))))
unfolding save save_as save_form seed initial
form_call stringify parse_json now settings = refl

other_field :
    (st : State) (key : String)
    → key ≢ "general"
    → key ≢ "notification"
    → field key (body_of st) ≡ none
other_field st key g n = ground (arith, eq_iff "general" key, eq_iff "notification" key)

-- The form, saved as it was loaded, sends each field of the two parts that the server sent with its
-- value, and a default for each field of the form that the server did not send. Of the other fields of
-- the settings it sends none. The settings of the server have both parts, and neither has a key twice.
pub save_form-seed :
    (stringify : Members → String) (parse_json : String → Option Json) (now : ℕ)
    (settings general notification : Members)
    → AreSettings settings general notification
    → (body : Members) × ((save parse_json now (seed stringify settings initial)).1
        ≡ some (update_settings (obj body)))
      × ((key : String)
          → field key (part_of "general" body)
            ≡ or_json (field key general) (field key initial_general))
      × ((key : String)
          → field key (part_of "notification" body)
            ≡ or_json (field key notification) (field key initial_notif))
      × ((key : String) → key ≢ "general" → key ≢ "notification" → field key body ≡ none)
unfolding initial
save_form-seed stringify parse_json now settings general notification h =
    let fields =
      λ (key : String). field-seed stringify settings general notification initial key h in
    (
      body_of (seed stringify settings initial),
      form_call stringify parse_json now settings,
      λ key. (fields key).0,
      λ key. (fields key).1,
      λ key g n. other_field (seed stringify settings initial) key g n,
    )
