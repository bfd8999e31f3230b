-- ===== src/Settings/View.antt =====
-- What the settings page shows. `loading` is `isLoading` of the query.
use mathlib.Core.Option.{Option, none, some}
use drop_the_mic.Base.{String, Bool, List, if◌then◌else◌}
use drop_the_mic.Api.{Json}
use drop_the_mic.Settings.{Mode, form, json, Message, State}
use drop_the_mic.Settings.Form.{Card, cards, general_inputs}

pub data Body : Type 0 where
  raw : (text : String) → Body
  inputs : (general : List (String × Option Json)) → (services : List Card) → Body

pub record View : Type 0 where
  pub button : String
  pub button_disabled : Bool
  pub message : Option Message
  pub body : Body

abbrev pub body_shown : State → Mode → Body
body_shown st json = raw st.json_text
body_shown st form = inputs (general_inputs st.general) (cards st.notif)

-- `none`: the spinner.
unfoldable pub view : (loading : Bool) → State → Option View
view loading st =
    if loading
    then none
    else some (record {
      button = if st.pending then "Saving..." else "Save Settings";
      button_disabled = st.pending;
      message = st.message;
      body = body_shown st st.mode;
    })
