-- ===== src/Backend/Gate.antt =====
-- Which requests the middleware of operator/server/handler/auth.go hands on.
use mathlib.Core.Option.{some}
use Prim.Native.String.{[], ◌∷◌}
use drop_the_mic.Base.{
  ℕ, ◌≡◌, ◌↔◌, refl, sym, ap, ◌∙◌, subst, String, true, false, ◌&&◌, arith, ◌==◌, inl, inr,
  Bool-cases,
}
use text.Mathlib.Text.{starts_with}
use text.Mathlib.TextEquality.{starts_with_iff}
use text.Mathlib.TextPositions.{starts_with-append}
use text.Mathlib.TextLemmas.{nil-append, cons-append}
use drop_the_mic.Base.Text.{◌<>◌}
use drop_the_mic.Client.{Call, Server}
use drop_the_mic.Backend.{
  Env, Codec, skip, authorization, succeeded, verify_jwt, open_to_all, is_authorized,
  jwt_auth_middleware, write_error,
}
use drop_the_mic.Backend.Tokens.{IsValid, verify_jwt_iff}

pub skip-append : (p s : String) → skip p (p <> s) ≡ s
skip-append [] s = nil-append s
skip-append (c ∷ p) s = ap (skip (c ∷ p)) (cons-append c p s) ∙ skip-append p s

-- The request has a valid token, in the header in which the client sends it.
abbrev pub IsAuthorized : Codec → Env → ℕ → Call → Type 0
IsAuthorized codec env now call =
    (token : String) × ((authorization call ≡ "Bearer " <> token)
      × IsValid codec now env.password token)

module _ (codec : Codec) (env : Env) (now : ℕ) (call : Call) where
  pub is_authorized_iff :
      (is_authorized codec env now call ≡ true) ↔ IsAuthorized codec env now call
  unfolding is_authorized
  is_authorized_iff = (λ h. there (ground arith) (ground arith), λ a. back a)
    where
      there :
          starts_with (authorization call) "Bearer " ≡ true
          → succeeded (verify_jwt codec now (skip "Bearer " (authorization call)) env.password)
            ≡ true
          → IsAuthorized codec env now call
      there s v =
          let (token, e) = (starts_with_iff (authorization call) "Bearer ").0 s in
          (
            token,
            (
              sym e,
              (verify_jwt_iff codec now token env.password).0 (
                  subst (λ t. succeeded (verify_jwt codec now t env.password) ≡ true)
                    (ap (skip "Bearer ") (sym e) ∙ skip-append "Bearer " token) v),
            ),
          )

      back :
          IsAuthorized codec env now call
          → (starts_with (authorization call) "Bearer "
              && succeeded
                  (verify_jwt codec now (skip "Bearer " (authorization call)) env.password))
            ≡ true
      back (token, (e, v)) =
          rw
            (
              e,
              starts_with-append "Bearer " token,
              skip-append "Bearer " token,
              (verify_jwt_iff codec now token env.password).1 v,
            )
            refl

  -- Where a user name or a password is set, a request to the API other than the login is handed on exactly
  -- if it has a valid token; otherwise it is answered with 401 and "unauthorized".
  pub jwt_auth_middleware_lem :
      (next : Server)
      → open_to_all env ≡ false
      → starts_with (codec.url_path call.url) "/api/" ≡ true
      → ((codec.url_path call.url) == "/healthz") ≡ false
      → ((codec.url_path call.url) == "/api/v1/login") ≡ false
      → (IsAuthorized codec env now call → jwt_auth_middleware codec env now next call ≡ next call)
        × (¬ IsAuthorized codec env now call
            → jwt_auth_middleware codec env now next call
              ≡ some (write_error codec 401 "unauthorized"))
  unfolding jwt_auth_middleware
  jwt_auth_middleware_lem next o a h l = (
    λ k. rw (o, h, l, a, is_authorized_iff.1 k) refl,
    λ k. elim (Bool-cases (is_authorized codec env now call)) [
      | inl e ↦ absurd (k (is_authorized_iff.0 e))
      | inr e ↦ rw (o, h, l, a, e) refl
    ],
  )
