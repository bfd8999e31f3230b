-- ===== src/Backend.antt =====
-- operator/server: the routes of main.go for the session, with handler/auth.go and
-- handler/handler.go. A request is the client's `Call`; `rest` is what the other routes answer. `Codec` holds what the handlers call of Go's standard
-- library: base64, HMAC-SHA256, JSON, `strings.SplitN(s, ".", 3)`, the path of a URL and the texts of
-- the statuses. Times are in seconds. A text is also its bytes.
pub mod Tokens
pub mod Gate
pub mod Session
pub mod Settings
pub mod Policies
use mathlib.Core.Option.{Option, none, some}
use Prim.Native.String.{[], ◌∷◌}
use drop_the_mic.Base.{
  ℕ, ◌+◌, String, Bool, true, false, not, ◌&&◌, ◌||◌, List, if◌then◌else◌, ltb, ◌==◌,
}
use mathlib.Core.List
use text.Mathlib.Text.{starts_with}
use drop_the_mic.Base.Text.{◌<>◌}
use drop_the_mic.Base.Maps.{lookup}
use drop_the_mic.Api.{Json, str, obj, member, no_members}
use drop_the_mic.Client.{Call, Method, get, post, put, delete, Response, Server}
use drop_the_mic.Engine.{Answer, ok, failed, text_or_empty}

-- The times are `int64` in the source, in seconds since 1970, which stay far below 2^63. One below 0, which
-- the server never writes, would be expired, as is 0.
pub record JwtClaims : Type 0 where
  pub sub : String
  pub exp : ℕ
  pub iat : ℕ

pub record LoginRequest : Type 0 where
  pub username : String
  pub password : String

-- DTM_AUTH_USER and DTM_AUTH_PASSWORD
pub record Env : Type 0 where
  pub user : String
  pub password : String

pub record Codec : Type 0 where
  pub encode : String → String
  pub decode : String → Answer String
  pub hmac : (secret message : String) → String
  pub split : String → List String
  pub marshal : JwtClaims → Answer String
  pub unmarshal : String → Answer JwtClaims
  pub decode_login : Option Json → Answer LoginRequest
  pub url_path : String → String
  pub status_text : ℕ → String

-- `strings.TrimPrefix(s, p)`, where `s` begins with `p`.
abbrev pub skip : (p s : String) → String
skip [] s = s
skip (c ∷ p) [] = []
skip (c ∷ p) (d ∷ s) = skip p s

-- `r.Header.Get("Authorization")`
abbrev pub authorization : Call → String
authorization call = text_or_empty (lookup "Authorization" call.headers)

abbrev pub is_post : Method → Bool
is_post post = true
is_post _ = false

abbrev pub is_get : Method → Bool
is_get get = true
is_get _ = false

abbrev pub succeeded {ℓ} : {A : Type ℓ} → Answer A → Bool
succeeded (ok a) = true
succeeded (failed e) = false

-- Without a user name and a password every request is let through.
abbrev pub open_to_all : Env → Bool
open_to_all env = env.user == "" && env.password == ""

module _ (codec : Codec) where
  abbrev pub jwt_header_encoded : String
  jwt_header_encoded = codec.encode "{\"alg\":\"HS256\",\"typ\":\"JWT\"}"

  abbrev pub signed_text : (secret signing_input : String) → String
  signed_text secret signing_input =
      signing_input <> "." <> codec.encode (codec.hmac secret signing_input)

  abbrev pub sign_payload : (secret : String) → Answer String → Answer String
  sign_payload secret (failed e) = failed ("marshal claims: " <> e)
  sign_payload secret (ok payload) =
      ok (signed_text secret (jwt_header_encoded <> "." <> codec.encode payload))

  abbrev pub sign_jwt : JwtClaims → (secret : String) → Answer String
  sign_jwt claims secret = sign_payload secret (codec.marshal claims)

  -- `verifyJWT`, from its last step to its first.
  abbrev pub check_expiry : (now : ℕ) → Answer JwtClaims → Answer JwtClaims
  check_expiry now (failed e) = failed ("unmarshal claims: " <> e)
  check_expiry now (ok claims) = if ltb claims.exp now then failed "token expired" else ok claims

  abbrev pub check_payload : (now : ℕ) → Answer String → Answer JwtClaims
  check_payload now (failed e) = failed ("decode payload: " <> e)
  check_payload now (ok payload) = check_expiry now (codec.unmarshal payload)

  abbrev pub check_signature :
      (now : ℕ) (expected payload : String) → Answer String → Answer JwtClaims
  check_signature now expected payload (failed e) = failed ("decode signature: " <> e)
  check_signature now expected payload (ok actual) =
      if expected == actual
      then check_payload now (codec.decode payload)
      else failed "invalid signature"

  abbrev pub verify_parts : (now : ℕ) (secret : String) → List String → Answer JwtClaims
  verify_parts now secret (List.◌∷◌ head (List.◌∷◌ payload (List.◌∷◌ signature List.[]))) =
      check_signature now (codec.hmac secret (head <> "." <> payload)) payload
        (codec.decode signature)
  verify_parts now secret _ = failed "malformed token"

  abbrev pub verify_jwt : (now : ℕ) (token secret : String) → Answer JwtClaims
  verify_jwt now token secret = verify_parts now secret (codec.split token)

  abbrev pub write_json : (status : ℕ) → Json → Response
  write_json status value = record {
    status = status;
    status_text = codec.status_text status;
    json = some value;
    error = none;
  }

  abbrev pub write_error : (status : ℕ) → (message : String) → Response
  write_error status message = record {
    status = status;
    status_text = codec.status_text status;
    json = some (obj (member "error" (str message) no_members));
    error = some message;
  }

  abbrev pub answer_login : Answer String → Response
  answer_login (failed e) = write_error 500 "failed to generate token"
  answer_login (ok token) = write_json 200 (obj (member "token" (str token) no_members))

  abbrev pub login_request : Env → (now : ℕ) → Answer LoginRequest → Response
  login_request env now (failed e) = write_error 400 "invalid request body"
  login_request env now (ok req) =
      if not (req.username == env.user) || not (req.password == env.password)
      then write_error 401 "invalid credentials"
      else answer_login
          (sign_jwt (record { sub = req.username; exp = now + 86400; iat = now }) env.password)

  -- `Login`
  unfoldable pub login : Env → (now : ℕ) → Call → Response
  login env now call = login_request env now (codec.decode_login call.body)

  -- The header has a token that is valid: the same lines in `AuthCheck` and in the middleware.
  unfoldable pub is_authorized : Env → (now : ℕ) → Call → Bool
  is_authorized env now call =
      starts_with (authorization call) "Bearer "
      && succeeded (verify_jwt now (skip "Bearer " (authorization call)) env.password)

  unfoldable pub auth_check : Env → (now : ℕ) → Call → Response
  unfolding is_authorized
  auth_check env now call =
      if open_to_all env || is_authorized env now call
      then write_json 200 (obj (member "status" (str "ok") no_members))
      else write_error 401 "unauthorized"

  -- The routes of `main`.
  unfoldable pub route : Env → (rest : Server) → (now : ℕ) → Server
  unfolding login auth_check
  route env rest now call =
      if is_post call.method && codec.url_path call.url == "/api/v1/login"
      then some (login env now call)
      else if is_get call.method && codec.url_path call.url == "/api/v1/auth/check"
      then some (auth_check env now call)
      else rest call

  unfoldable pub jwt_auth_middleware : Env → (now : ℕ) → (next : Server) → Server
  unfolding is_authorized
  jwt_auth_middleware env now next call =
      let path = codec.url_path call.url in
      if open_to_all env
      then next call
      else if path == "/healthz"
      then next call
      else if path == "/api/v1/login"
      then next call
      else if not (starts_with path "/api/")
      then next call
      else if is_authorized env now call
      then next call
      else some (write_error 401 "unauthorized")

  -- The server, at a time.
  unfoldable pub serve : Env → (rest : Server) → (now : ℕ) → Server
  unfolding jwt_auth_middleware route
  serve env rest now = jwt_auth_middleware env now (route env rest now)
