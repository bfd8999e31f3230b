-- ===== src/App.antt =====
-- ui/src/App.tsx: the guard that checks the session before the pages are shown, and the entries of
-- the navigation. The router's `navigate` is a value: the address that it is sent to.
pub mod Guard
pub mod Routes
use drop_the_mic.Base.{
  ℕ, String, Bool, true, false, Option, none, some, List, [], ◌∷◌, if◌then◌else◌, eqb, ◌==◌,
}
use text.Mathlib.Text.{starts_with}
use drop_the_mic.Base.Text.{◌<>◌}
use drop_the_mic.Client.{Browser, Method, get, Call, Response, Server, is_authenticated, get_token}

pub record State : Type 0 where
  pub checking : Bool
  pub authenticated : Bool

abbrev pub initial : State
initial = record { checking = true; authenticated = false }

pub record Outcome : Type 0 where
  pub browser : Browser
  pub state : State
  pub navigate : Option String

-- `Bearer ${getToken()}`: a template prints a missing token as "null".
unfoldable pub check_call : Browser → Call
check_call b = record {
  method = get;
  url = "/api/v1/auth/check";
  headers = ("Authorization", "Bearer " <> elim (get_token b) [ none ↦ "null" | some t ↦ t ]) ∷ [];
  body = none;
}

-- Without a token: `checking` ends, and the router is sent to the login page.
unfoldable pub turned_away : Browser → State → Outcome
turned_away b st = record {
  browser = b;
  state = record st { checking = false };
  navigate = some "/login";
}

-- The answer to the check: the `try` and the `catch`; `finally` ends the checking.
unfoldable pub checked : Browser → State → Option Response → Outcome
unfolding turned_away
checked b st none = turned_away b st
checked b st (some resp) =
    if eqb resp.status 401
    then record {
      browser = record b { token = none };
      state = record st { checking = false };
      navigate = some "/login";
    }
    else record {
      browser = b;
      state = record { checking = false; authenticated = true };
      navigate = none;
    }

unfoldable pub check_auth : Server → Browser → State → Outcome
unfolding checked turned_away
check_auth server b st =
    if is_authenticated b then checked b st (server (check_call b)) else turned_away b st

-- The effect of the guard: nothing once the session is known to be good.
unfoldable pub effect : Server → Browser → State → Outcome
unfolding check_auth
effect server b st =
    if st.authenticated
    then record { browser = b; state = st; navigate = none }
    else check_auth server b st

-- Whether the pages are rendered.
unfoldable pub shows_pages : State → Bool
shows_pages st = if st.checking then false else if st.authenticated then true else false

pub record NavItem : Type 0 where
  pub to : String
  pub label : String

abbrev pub nav_items : List NavItem
nav_items =
    record { to = "/"; label = "Dashboard" }
    ∷ record { to = "/policies"; label = "Policies" }
    ∷ record { to = "/results"; label = "Results" }
    ∷ record { to = "/settings"; label = "Settings" }
    ∷ []
