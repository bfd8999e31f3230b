-- ===== src/Login/Laws.antt =====
-- What a submission of the login form leads to.
use drop_the_mic.Base.{
  ◌≤◌, ◌<◌, ◌≡◌, ◌≢◌, ◌↔◌, inl, inr, refl, String, false, Option, none, some, List,
}
use drop_the_mic.Api.{Json}
use drop_the_mic.Client.{Browser, Response, Server, Result, ok, err, call_of, set_token}
use drop_the_mic.Client.Requests.{IsEnd, request-ok_iff, request-session}
use drop_the_mic.Client.Endpoints.{login, path_of, options_of, api}
use drop_the_mic.Login.{State, Outcome, submitting, settled, handle_submit}

ok_inj : (v w : Json) → ok v ≡ ok w → v ≡ w
ok_inj v w e = cc

settled-ok :
    (token_of : Json → String) (st : State) (b : Browser) (result : Browser × Result) (value : Json)
    → result.0 ≡ b
    → result.1 ≡ ok value
    → settled token_of st result ≡ record {
      browser = record b { token = some (token_of value) };
      state = record st { loading = false };
      navigate = some "/";
    }
unfolding settled set_token
settled-ok token_of st b (b', ok v) value p q = rw (p, ok_inj v value q)
settled-ok token_of st b (b', err m) value p q = cc

settled-err :
    (token_of : Json → String) (st : State) (b : Browser) (result : Browser × Result)
    → result.0 ≡ b
    → ((value : Json) → result.1 ≢ ok value)
    → (message : String) × (settled token_of st result ≡ record {
      browser = b;
      state = record st { error = message; loading = false };
      navigate = none;
    })
unfolding settled
settled-err token_of st b (b', ok v) p q = absurd (q v refl)
settled-err token_of st b (b', err m) p q = (m, rw p)

module _ (query_string : List (String × String) → String) (fetch_failed : String)
    (bad_json : Option Json → String) (token_of : Json → String) (server : Server) (b : Browser)
    (st : State) where
  -- The server accepts the user name and the password: a status from 200 to 299 with a JSON body.
  abbrev pub IsAccepted : Json → Type 0
  IsAccepted value =
      (resp : Response) × (server
          (call_of b "/login" (options_of query_string (login st.username st.password)))
        ≡ some resp)
      × (200 ≤ resp.status)
      × (resp.status < 300)
      × (resp.json ≡ some value)

  abbrev attempt : Browser × Result
  attempt = api query_string fetch_failed bad_json server b (login st.username st.password)

  abbrev submit : Outcome
  submit = handle_submit query_string fetch_failed bad_json token_of server b st

  not_ended : (resp : Response) → ¬ IsEnd "/login" resp
  not_ended resp end = cc end.not_login

  -- A login never ends another session: the request of the form leaves the browser as it is.
  attempt-browser : attempt.0 ≡ b
  unfolding api path_of
  attempt-browser =
      elim (request-session fetch_failed bad_json server b "/login"
        (options_of query_string (login st.username st.password))) [
          | inl k ↦ let (resp, q, end) = k.0 in absurd (not_ended resp end)
          | inr k ↦ k.1
        ]

  attempt-ok_iff : (value : Json) → (attempt.1 ≡ ok value) ↔ IsAccepted value
  unfolding api path_of
  attempt-ok_iff value =
      request-ok_iff fetch_failed bad_json server b "/login"
        (options_of query_string (login st.username st.password)) value

  -- If the server accepts the login, the token of its answer is stored, the router is sent to the
  -- start page, and the form is no longer busy and shows no error.
  pub handle_submit-accepted :
      (value : Json)
      → IsAccepted value
      → submit ≡ record {
        browser = record b { token = some (token_of value) };
        state = record st { error = ""; loading = false };
        navigate = some "/";
      }
  unfolding handle_submit
  handle_submit-accepted value acc =
      settled-ok token_of (submitting st) b attempt value attempt-browser
        ((attempt-ok_iff value).1 acc)

  -- If the server does not accept the login, whatever it answers, the browser is left as it is, the
  -- router is not moved, and the form keeps its two fields, shows an error's message and is no longer
  -- busy.
  pub handle_submit-refused :
      ((value : Json) → ¬ IsAccepted value)
      → (message : String) × (submit ≡ record {
        browser = b;
        state = record st { error = message; loading = false };
        navigate = none;
      })
  unfolding handle_submit
  handle_submit-refused refused =
      settled-err token_of (submitting st) b attempt attempt-browser
        (λ value e. refused value ((attempt-ok_iff value).0 e))
