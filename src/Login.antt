-- ===== src/Login.antt =====
-- ui/src/pages/Login.tsx: the form's state and the submission. `token_of` stands for `resp.token` as
-- `localStorage` keeps it. The router's `navigate` is a value: the address that it is sent to.
pub mod Laws
use drop_the_mic.Base.{String, Bool, true, false, Option, none, some, if◌then◌else◌, List}
use drop_the_mic.Base.Text.{truthy}
use drop_the_mic.Api.{Json}
use drop_the_mic.Client.{Browser, Server, Result, ok, err, set_token}
use drop_the_mic.Client.Endpoints.{Endpoint, login, api}

pub record State : Type 0 where
  pub username : String
  pub password : String
  pub error : String
  pub loading : Bool

abbrev pub initial : State
initial = record { username = ""; password = ""; error = ""; loading = false }

-- What an event leaves: the browser, the form and where the router is sent.
pub record Outcome : Type 0 where
  pub browser : Browser
  pub state : State
  pub navigate : Option String

pub set_username : String → State → State
set_username s st = record st { username = s }

pub set_password : String → State → State
set_password s st = record st { password = s }

-- The state while the answer is awaited.
unfoldable pub submitting : State → State
submitting st = record st { error = ""; loading = true }

-- After the answer: the `try`, the `catch` and the `finally`.
unfoldable pub settled : (Json → String) → State → Browser × Result → Outcome
settled token_of st (b, ok resp) = record {
  browser = set_token (token_of resp) b;
  state = record st { loading = false };
  navigate = some "/";
}
settled token_of st (b, err message) = record {
  browser = b;
  state = record st { error = message; loading = false };
  navigate = none;
}

module _ (query_string : List (String × String) → String) (fetch_failed : String)
    (bad_json : Option Json → String) (token_of : Json → String) where
  unfoldable pub handle_submit : Server → Browser → State → Outcome
  unfolding submitting settled
  handle_submit server b st =
      settled token_of (submitting st)
        (api query_string fetch_failed bad_json server b (login st.username st.password))

-- What the form shows: the error box, and the button's text and whether it is disabled.
pub record View : Type 0 where
  pub error : Option String
  pub button : String
  pub disabled : Bool

unfoldable pub view : State → View
view st = record {
  error = if truthy st.error then some st.error else none;
  button = if st.loading then "Signing in..." else "Sign In";
  disabled = st.loading;
}
