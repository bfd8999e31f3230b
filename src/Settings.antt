-- ===== src/Settings.antt =====
-- ui/src/pages/Settings.tsx: the form and the raw text of the settings, and saving either. The parts
-- of the settings are the objects that the page keeps, with whatever fields the server sends; a part
-- that is no object counts as an empty one. `stringify` stands for `JSON.stringify(settings, null, 2)`
-- and `parse_json` for `JSON.parse`, `none` where it throws. `timers` has the times at which the
-- message is cleared; the timers are never stopped. Styling is left out.
pub mod Form
pub mod Messages
pub mod Saving
pub mod View
use Prim.Native.Char.{code}
use Prim.Native.String
use Prim.Native.String.{◌∷◌}
use mathlib.Core.Option.{Option, none, some}
use drop_the_mic.Base.{
  ℕ, ◌+◌, ◌≤◌, String, Bool, true, false, not, ◌&&◌, List, if◌then◌else◌, ◌==◌, leb, eqb, filter,
  all, ◌++◌,
}
use mathlib.Core.List
use drop_the_mic.Base.Num.{Number, nan, int, pos, ℤ, sub_number}
use drop_the_mic.Base.Text.{trim_start}
use drop_the_mic.Base.Text.Decimal.{read_digits, is_digit}
use drop_the_mic.Api.{Json, null, bool, num, str, obj, Members, no_members, member}
use drop_the_mic.Api.Objects.{field, put, spread, is_truthy}
use drop_the_mic.Badge.{Badge, Variant}
use drop_the_mic.Client.{Result, ok, err}
use drop_the_mic.Client.Endpoints.{Endpoint, update_settings}
use drop_the_mic.Toast.{ToastType, success, error}

pub data Mode : Type 0 where
  form json : Mode

pub record Message : Type 0 where
  pub kind : ToastType
  pub text : String

pub record State : Type 0 where
  pub mode : Mode
  pub json_text : String
  pub message : Option Message
  pub timers : List ℕ
  pub general : Members
  pub notif : Members
  pub pending : Bool

abbrev pub initial_general : Members
initial_general = member "defaultProvider" (str "claude") (
    member "defaultModel" (str "") (
      member "escalationThreshold" (num (int (pos 5)))
        (member "resultRetentionDays" (num (int (pos 30))) no_members)))

abbrev pub initial_notif : Members
initial_notif =
    member "slack"
      (obj (
        member "enabled" (bool false)
          (member "channel" (str "") (member "webhookSecret" (str "") no_members))))
      (member "github"
        (obj (
          member "enabled" (bool false) (
            member "owner" (str "") (
              member "repo" (str "")
                (member "labels" (str "") (member "tokenSecret" (str "") no_members))))))
        (member "jira"
          (obj (
            member "enabled" (bool false) (
              member "url" (str "") (
                member "project" (str "") (
                  member "issueType" (str "Bug")
                    (member "credentialSecret" (str "") no_members))))))
          no_members))

unfoldable pub initial : State
initial = record {
  mode = form;
  json_text = "";
  message = none;
  timers = List.[];
  general = initial_general;
  notif = initial_notif;
  pending = false;
}

-- The fields of a value that is spread.
abbrev pub object_of : Json → Members
object_of (obj o) = o
object_of _ = no_members

-- `if (part) setPart(prev => ({ ...prev, ...part }))`
abbrev pub merged : Option Json → Members → Members
merged none prev = prev
merged (some v) prev = if is_truthy v then spread prev (object_of v) else prev

-- The effect, which runs again whenever the query gives other settings.
unfoldable pub seed : (stringify : Members → String) → Members → State → State
seed stringify settings st = record st {
  json_text = stringify settings;
  general = merged (field "general" settings) st.general;
  notif = merged (field "notification" settings) st.notif;
}

-- An input of the form: a field of the general part, or of one of the services.
unfoldable pub set_general : String → Json → State → State
set_general key value st = record st { general = put key value st.general }

abbrev pub object_in : Option Json → Members
object_in none = no_members
object_in (some v) = object_of v

abbrev pub part_of : String → Members → Members
part_of service notif = object_in (field service notif)

unfoldable pub set_notif : String → String → Json → State → State
set_notif service key value st = record st {
  notif = put service (obj (put key value (part_of service st.notif))) st.notif;
}

unsigned : String → Number
unsigned String.[] = nan
unsigned (c ∷ s) = if is_digit c then int (pos (read_digits 0 (c ∷ s)).value) else nan

signed : String → Number
unfolding unsigned
signed String.[] = nan
signed (c ∷ s) =
    if eqb (code c) b'-'
    then sub_number (int (pos 0)) (unsigned s)
    else if eqb (code c) b'+'
    then unsigned s
    else unsigned (c ∷ s)

-- `parseInt(text)`, for a text without a prefix `0x`, which a number input never gives.
unfoldable pub parse_int : String → Number
unfolding signed
parse_int text = signed (trim_start text)

-- `parseInt(text) || d`
unfoldable pub number_or : ℕ → String → Json
number_or d text =
    if is_truthy (num (parse_int text)) then num (parse_int text) else num (int (pos d))

unfoldable pub set_threshold : String → State → State
unfolding set_general
set_threshold text st = set_general "escalationThreshold" (number_or 5 text) st

unfoldable pub set_retention : String → State → State
unfolding set_general
set_retention text st = set_general "resultRetentionDays" (number_or 30 text) st

unfoldable pub set_mode : Mode → State → State
set_mode mode st = record st { mode = mode }

unfoldable pub set_json_text : String → State → State
set_json_text text st = record st { json_text = text }

-- `showToast`, at the time `now`.
unfoldable pub show_message : ℕ → ToastType → String → State → State
show_message now kind text st = record st {
  message = some (record { kind = kind; text = text });
  timers = st.timers ++ List.◌∷◌ (now + 4000) List.[];
}

-- The timers that are due at the time `now` fire.
unfoldable pub fire_timers : ℕ → State → State
fire_timers now st =
    if all (λ d. not (leb d now)) st.timers
    then st
    else record st { message = none; timers = filter (λ d. not (leb d now)) st.timers }

-- `{ general, notification: notif }`
abbrev pub body_of : State → Members
body_of st = member "general" (obj st.general) (member "notification" (obj st.notif) no_members)

-- `handleSaveForm` and `handleSaveJson`: what is left, and the call that is started.
unfoldable pub save_form : State → State × Option Endpoint
save_form st = (record st { pending = true }, some (update_settings (obj (body_of st))))

unfoldable pub save_parsed : ℕ → State → Option Json → State × Option Endpoint
unfolding show_message
save_parsed now st none = (show_message now error "Invalid JSON format." st, none)
save_parsed now st (some value) = (record st { pending = true }, some (update_settings value))

unfoldable pub save_json : (parse_json : String → Option Json) → ℕ → State → State × Option Endpoint
unfolding save_parsed
save_json parse_json now st = save_parsed now st (parse_json st.json_text)

unfoldable pub save_as :
    (parse_json : String → Option Json) → ℕ → State → Mode → State × Option Endpoint
unfolding save_form save_json
save_as parse_json now st form = save_form st
save_as parse_json now st json = save_json parse_json now st

-- A click on the button, which is disabled while a call is pending.
unfoldable pub save : (parse_json : String → Option Json) → ℕ → State → State × Option Endpoint
unfolding save_as
save parse_json now st = if st.pending then (st, none) else save_as parse_json now st st.mode

-- The answer to the call.
unfoldable pub settled : ℕ → Result → State → State
settled now (ok value) st =
    show_message now success "Settings saved successfully." (record st { pending = false })
settled now (err message) st = show_message now error message (record st { pending = false })
