-- ===== src/Client.antt =====
-- ui/src/api/client.ts: the stored token and `request`. The browser is a record of what the code
-- reads and writes: the token in `localStorage` and the address that `window.location.href` was last
-- set to. The network is a parameter, `Server`: what `fetch` gives for a call. A promise that is
-- rejected is `err`. `/api/v1` is the default of `API_BASE`, which a build may replace.
pub mod Flight
pub mod Requests
pub mod Encode
pub mod Endpoints
use drop_the_mic.Base.{
  ℕ, ◌≤◌, String, Bool, true, false, not, ◌&&◌, ◌||◌, Option, none, some, List, [], ◌∷◌,
  if◌then◌else◌, leb, ltb, eqb, ◌==◌,
}
use text.Mathlib.Text.{starts_with}
use drop_the_mic.Base.Text.{◌<>◌, truthy, or_else}
use drop_the_mic.Api.{Json, null}

pub record Browser : Type 0 where
  pub token : Option String
  pub href : String

unfoldable pub is_authenticated : Browser → Bool
is_authenticated b = elim b.token [ none ↦ false | some t ↦ true ]

unfoldable pub logout : Browser → Browser
logout b = record { token = none; href = "/login" }

unfoldable pub set_token : String → Browser → Browser
set_token token b = record b { token = some token }

abbrev pub get_token : Browser → Option String
get_token b = b.token

pub data Method : Type 0 where
  get post put delete : Method

-- What is handed to `fetch`. The body is the value whose JSON text is sent.
pub record Call : Type 0 where
  pub method : Method
  pub url : String
  pub headers : List (String × String)
  pub body : Option Json

-- `json` is the body, where it is JSON. `error` is the field of that name of such a body, as the text that
-- `new Error` makes of it: `none` where the body has no such field, or one that is null, false, 0 or NaN.
pub record Response : Type 0 where
  pub status : ℕ
  pub status_text : String
  pub json : Option Json
  pub error : Option String

-- `none`: the promise of `fetch` is rejected.
abbrev pub Server : Type 0
Server = Call → Option Response

pub data Result : Type 0 where
  ok : Json → Result
  err : (message : String) → Result

abbrev pub api_base : String
api_base = "/api/v1"

-- `resp.ok`
abbrev pub is_ok : ℕ → Bool
is_ok status = leb 200 status && ltb status 300

abbrev if_token {ℓ} : {A : Type ℓ} → (String → A) → A → Option String → A
if_token f d none = d
if_token f d (some t) = if truthy t then f t else d

unfoldable pub headers_of : Browser → List (String × String)
headers_of b =
    ("Content-Type", "application/json")
    ∷ if_token (λ t. ("Authorization", "Bearer " <> t) ∷ []) [] (get_token b)

pub record Options : Type 0 where
  pub method : Method
  pub body : Option Json

unfoldable pub call_of : Browser → String → Options → Call
unfolding headers_of
call_of b path options = record {
  method = options.method;
  url = api_base <> path;
  headers = headers_of b;
  body = options.body;
}

-- The message of an error response. A body that is no JSON counts as one without a message; that of
-- the body `null`, which has no fields, is the message of the error that the browser throws.
abbrev message_of :
    (null_body status_text : String) → (json : Option Json) → (error : Option String) → String
message_of null_body status_text none error = status_text
message_of null_body status_text (some null) error = null_body
message_of null_body status_text (some value) none = status_text
message_of null_body status_text (some value) (some e) = or_else e status_text

unfoldable pub error_message : (bad_json : Option Json → String) → Response → String
error_message bad_json resp =
    message_of (bad_json (some null)) resp.status_text resp.json resp.error

-- A 401 outside the login and the check of the session ends the session.
unfoldable pub ends_session : String → ℕ → Bool
ends_session path status =
    eqb status 401 && not (starts_with path "/login") && not (starts_with path "/auth/")

-- The messages of the errors that the browser throws: `fetch_failed` where the network fails, `bad_json`
-- for a body that cannot be used: one that is no JSON, or that is `null` where a field of it is read.
module _ (fetch_failed : String) (bad_json : Option Json → String) where
  settle : Browser → String → Response → Browser × Result
  unfolding ends_session logout error_message
  settle b path resp =
      if ends_session path resp.status
      then (logout b, err "unauthorized")
      else if is_ok resp.status
      then (b, elim resp.json [ none ↦ err (bad_json none) | some value ↦ ok value ])
      else (b, err (error_message bad_json resp))

  deliver : Browser → String → Option Response → Browser × Result
  unfolding settle
  deliver b path none = (b, err fetch_failed)
  deliver b path (some resp) = settle b path resp

  unfoldable pub request : Server → Browser → String → Options → Browser × Result
  unfolding deliver
  request server b path options = deliver b path (server (call_of b path options))
