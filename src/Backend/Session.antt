-- ===== src/Backend/Session.antt =====
-- The session of ui/src with the server of operator/server: the login, the check of the token, and its end.
use mathlib.Core.Option.{Option, none, some}
use drop_the_mic.Base.{
  ℕ, ◌+◌, ◌≤◌, ◌<◌, ◌≡◌, refl, ap, ◌∙◌, String, Bool, true, false, not, ◌||◌, List, arith,
  if◌then◌else◌, ltb, eq_refl, inl, inr, Bool-cases,
}
use text.Mathlib.TextPositions.{starts_with-append}
use drop_the_mic.Api.{Json, str, obj, member, no_members}
use drop_the_mic.Client.{is_authenticated, Browser, Call, Response, Server, call_of}
use drop_the_mic.Client.Endpoints.{options_of, method_of, body_of}
use drop_the_mic.Client.Endpoints
use drop_the_mic.Login
use drop_the_mic.Login.{handle_submit}
use drop_the_mic.Login.Laws.{handle_submit-accepted}
use drop_the_mic.App.{initial, effect, check_auth, checked, turned_away, check_call, shows_pages}
use drop_the_mic.Engine.{ok, failed}
use drop_the_mic.Backend.{
  Env, Codec, login, open_to_all, is_authorized, is_post, is_get, succeeded, JwtClaims, auth_check,
  route, jwt_auth_middleware, serve, write_json, write_error, verify_jwt, sign_jwt,
}
use drop_the_mic.Backend.Tokens.{IsCodec, verify_jwt-sign_jwt}
use drop_the_mic.Backend.Gate.{skip-append}

abbrev pub token_json : String → Json
token_json token = obj (member "token" (str token) no_members)

-- What the library documents of the two addresses of the session, which have no query, and of the body that the client's login sends; the client reads
-- the field `token`.
pub record IsHttp (codec : Codec) (token_of : Json → String) : Type 0 where
  pub login_path : codec.url_path "/api/v1/login" ≡ "/api/v1/login"
  pub check_path : codec.url_path "/api/v1/auth/check" ≡ "/api/v1/auth/check"
  pub login_body :
      (username password : String)
      → codec.decode_login (
          some
            (obj (member "username" (str username) (member "password" (str password) no_members))))
        ≡ ok (record { username = username; password = password })
  pub token_field : (token : String) → token_of (token_json token) ≡ token

module _ (codec : Codec) (env : Env) (rest : Server) where
  -- The login is open; its handler answers it.
  serve-login :
      (now : ℕ) (call : Call)
      → is_post call.method ≡ true
      → codec.url_path call.url ≡ "/api/v1/login"
      → serve codec env rest now call ≡ some (login codec env now call)
  unfolding serve jwt_auth_middleware route
  serve-login now call m u = elim (Bool-cases (open_to_all env)) [
    | inl o ↦ rw (o, u, m) refl
    | inr o ↦ rw (o, u, m) refl
  ]

  -- The check is answered with 200 if nothing is set or the token is valid, and otherwise with 401.
  serve-auth_check :
      (now : ℕ) (call : Call)
      → is_get call.method ≡ true
      → is_post call.method ≡ false
      → codec.url_path call.url ≡ "/api/v1/auth/check"
      → serve codec env rest now call
        ≡ some (
            if open_to_all env || is_authorized codec env now call
            then write_json codec 200 (obj (member "status" (str "ok") no_members))
            else write_error codec 401 "unauthorized")
  unfolding serve jwt_auth_middleware route auth_check
  serve-auth_check now call m n u = elim (Bool-cases (open_to_all env)) [
    | inl o ↦ rw (o, u, m, n) refl
    | inr o ↦ elim (Bool-cases (is_authorized codec env now call)) [
      | inl k ↦ rw (o, u, k, m, n) refl
      | inr k ↦ rw (o, u, k) refl
    ]
  ]

  -- The claims of a token that is given at a time.
  abbrev claims_at : ℕ → JwtClaims
  claims_at now = record { sub = env.user; exp = now + 86400; iat = now }

  login-token :
      (now : ℕ) (call : Call) (token : String)
      → codec.decode_login call.body ≡ ok (record { username = env.user; password = env.password })
      → sign_jwt codec (claims_at now) env.password ≡ ok token
      → login codec env now call ≡ write_json codec 200 (token_json token)
  unfolding login
  login-token now call token d s = rw (d, eq_refl env.user, eq_refl env.password, s) refl

  is_authorized-token :
      (later : ℕ) (b : Browser) (token : String)
      → is_authorized codec env later (check_call (record b { token = some token }))
        ≡ succeeded (verify_jwt codec later token env.password)
  unfolding is_authorized check_call
  is_authorized-token later b token =
      rw (starts_with-append "Bearer " token, skip-append "Bearer " token) refl

module _ (query_string : List (String × String) → String) (fetch_failed : String)
    (bad_json : Option Json → String) (token_of : Json → String) (codec : Codec) (env : Env)
    (rest : Server) where
  abbrev login_call : Browser → Login.State → Call
  login_call b st =
      call_of b "/login" (options_of query_string (Endpoints.login st.username st.password))

  -- The answer to a login with the right user name and password.
  serve-login_call :
      (now : ℕ) (b : Browser) (st : Login.State) (token : String)
      → IsHttp codec token_of
      → st.username ≡ env.user
      → st.password ≡ env.password
      → sign_jwt codec (claims_at codec env rest now) env.password ≡ ok token
      → serve codec env rest now (login_call b st) ≡ some (write_json codec 200 (token_json token))
  unfolding options_of method_of body_of call_of
  serve-login_call now b st token http u p s =
      serve-login codec env rest now (login_call b st) refl http.login_path
      ∙ ap some (
          login-token codec env rest now (login_call b st) token
            (http.login_body st.username st.password
              ∙ (λ i. ok (record { username = u i; password = p i })))
            s)

  handle_submit-given :
      (now : ℕ) (b : Browser) (st : Login.State) (token : String)
      → IsHttp codec token_of
      → st.username ≡ env.user
      → st.password ≡ env.password
      → sign_jwt codec (claims_at codec env rest now) env.password ≡ ok token
      → handle_submit query_string fetch_failed bad_json token_of (serve codec env rest now) b st
        ≡ record {
          browser = record b { token = some token };
          state = record st { error = ""; loading = false };
          navigate = some "/";
        }
  handle_submit-given now b st token http u p s =
      handle_submit-accepted query_string fetch_failed bad_json token_of (serve codec env rest now)
        b st (token_json token)
        (
          write_json codec 200 (token_json token),
          serve-login_call now b st token http u p s,
          omega arith,
          omega arith,
          refl,
        )
      ∙ (λ i. record {
        browser = record b { token = some (http.token_field token i) };
        state = record st { error = ""; loading = false };
        navigate = some "/";
      })

  -- The check of the session, with such a token.
  check_given :
      (now later : ℕ) (b : Browser) (token : String)
      → IsHttp codec token_of
      → verify_jwt codec later token env.password ≡ (
          if ltb (now + 86400) later
          then failed "token expired"
          else ok (claims_at codec env rest now))
      → serve codec env rest later (check_call (record b { token = some token }))
        ≡ some (
            if open_to_all env || not (ltb (now + 86400) later)
            then write_json codec 200 (obj (member "status" (str "ok") no_members))
            else write_error codec 401 "unauthorized")
  unfolding check_call
  check_given now later b token http v =
      serve-auth_check codec env rest later _ refl refl http.check_path
      ∙ ap
          (λ k. some (
            if open_to_all env || k
            then write_json codec 200 (obj (member "status" (str "ok") no_members))
            else write_error codec 401 "unauthorized"))
          (is_authorized-token codec env rest later b token
            ∙ ap succeeded v
            ∙ in_time (ltb (now + 86400) later))
    where
      in_time :
          (b : Bool)
          → succeeded (if b then failed "token expired" else ok (claims_at codec env rest now))
            ≡ not b
      in_time true = refl
      in_time false = refl

  -- What the guard of the pages makes of the two answers.
  guard_accepts :
      (server : Server) (b : Browser) (token : String)
      → server (check_call (record b { token = some token }))
        ≡ some (write_json codec 200 (obj (member "status" (str "ok") no_members)))
      → shows_pages (effect server (record b { token = some token }) initial).state ≡ true
  unfolding effect check_auth checked is_authenticated shows_pages
  guard_accepts server b token e = rw e refl

  guard_refuses :
      (server : Server) (b : Browser) (token : String)
      → server (check_call (record b { token = some token }))
        ≡ some (write_error codec 401 "unauthorized")
      → ((effect server (record b { token = some token }) initial).browser.token ≡ none)
        × ((effect server (record b { token = some token }) initial).navigate ≡ some "/login")
  unfolding effect check_auth checked is_authenticated turned_away
  guard_refuses server b token e = rw e (refl, refl)

  -- A login with the user name and the password of the server, whose library does what is documented: for 24 hours the pages are shown with the token that it
  -- gives; afterwards, if a user name or a password is set, the check removes the token and leads to the
  -- login page.
  pub handle_submit-serve :
      (now : ℕ) (b : Browser) (st : Login.State)
      → IsCodec codec
      → IsHttp codec token_of
      → st.username ≡ env.user
      → st.password ≡ env.password
      → let out =
          handle_submit query_string fetch_failed bad_json token_of
            (serve codec env rest now)
            b
            st in
        (out.navigate ≡ some "/")
        × ((later : ℕ)
            → later ≤ now + 86400
            → shows_pages (effect (serve codec env rest later) out.browser initial).state ≡ true)
        × ((later : ℕ)
            → now + 86400 < later
            → open_to_all env ≡ false
            → ((effect (serve codec env rest later) out.browser initial).browser.token ≡ none)
              × ((effect (serve codec env rest later) out.browser initial).navigate
                  ≡ some "/login"))
  handle_submit-serve now b st h http u p =
      let made = verify_jwt-sign_jwt codec (claims_at codec env rest now) env.password h in
      rw (handle_submit-given now b st made.0 http u p made.1.0) (
        refl,
        λ later k.
            guard_accepts (serve codec env rest later) b made.0
              (check_given now later b made.0 http (made.1.1 later) ∙ ap chosen (kept later k)),
        λ later k o.
            guard_refuses (serve codec env rest later) b made.0
              (check_given now later b made.0 http (made.1.1 later) ∙ ap chosen (over later k o)),
      )
    where
      chosen : Bool → Option Response
      chosen k = some (
          if k
          then write_json codec 200 (obj (member "status" (str "ok") no_members))
          else write_error codec 401 "unauthorized")

      kept :
          (later : ℕ)
          → later ≤ now + 86400
          → (open_to_all env || not (ltb (now + 86400) later)) ≡ true
      kept later k = ground arith

      over :
          (later : ℕ)
          → now + 86400 < later
          → open_to_all env ≡ false
          → (open_to_all env || not (ltb (now + 86400) later)) ≡ false
      over later k o = ground arith
