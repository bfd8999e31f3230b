-- ===== src/Client/Requests.antt =====
-- What a request does to the session, and what it gives back.
use mathlib.Core.Option.{some-injective}
use drop_the_mic.Base.{
  ap, ◌∙◌, eqb, ◌≤◌, ◌<◌, ◌≡◌, sym, subst, ◌∙◌, ◌↔◌, ◌⊎◌, inl, inr, refl, String, Bool, true, false,
  Option, none, some, arith, Bool-cases,
}
use text.Mathlib.Text.{starts_with}
use drop_the_mic.Api.{Json}
use drop_the_mic.Client.{
  error_message, Browser, Response, Server, ok, err, Options, is_ok, call_of, ends_session, settle,
  deliver, request,
}

false_ne_true : ◌≡◌ {A = Bool} false true → ⊥
false_ne_true e = cc

-- The session ends: a 401 to a path that is neither of the login nor of the check of the session.
pub record IsEnd (path : String) (resp : Response) : Type 0 where
  pub unauthorized : resp.status ≡ 401
  pub not_login : starts_with path "/login" ≡ false
  pub not_check : starts_with path "/auth/" ≡ false

none_is_not_some : {r : Response} → ◌≡◌ {A = Option Response} none (some r) → ⊥
none_is_not_some e = cc

ends_session_iff :
    (path : String) (resp : Response) → (ends_session path resp.status ≡ true) ↔ IsEnd path resp
unfolding ends_session
ends_session_iff path resp = ground arith

module _ (fetch_failed : String) (bad_json : Option Json → String) where
  settle_end :
      (b : Browser) (path : String) (resp : Response)
      → ends_session path resp.status ≡ true
      → settle fetch_failed bad_json b path resp
        ≡ (record { token = none; href = "/login" }, err "unauthorized")
  unfolding settle
  settle_end b path resp e = rw e

  settle_stay :
      (b : Browser) (path : String) (resp : Response)
      → ends_session path resp.status ≡ false
      → (settle fetch_failed bad_json b path resp).0 ≡ b
  unfolding settle
  settle_stay b path resp e =
      rw e (elim (Bool-cases (is_ok resp.status)) [ inl h ↦ rw h | inr h ↦ rw h ])

  deliver-ok_iff :
      (b : Browser) (path : String) (reply : Option Response) (value : Json)
      → ((deliver fetch_failed bad_json b path reply).1 ≡ ok value) ↔ (
          (resp : Response) × (reply ≡ some resp)
          × (200 ≤ resp.status)
          × (resp.status < 300)
          × (resp.json ≡ some value))
  unfolding deliver
  deliver-ok_iff b path none value = (λ e. cc, λ k. absurd (none_is_not_some k.1))
  deliver-ok_iff b path (some resp) value = (
    λ e. (resp, refl, ground arith, ground arith, ground arith),
    λ k. let (resp', e, lo, hi, j) = k in ground arith,
  )

  -- A request succeeds with a value exactly if the server answers with a status from 200 to 299
  -- and a JSON body that is this value.
  pub request-ok_iff :
      (server : Server) (b : Browser) (path : String) (options : Options) (value : Json)
      → ((request fetch_failed bad_json server b path options).1 ≡ ok value) ↔ (
          (resp : Response) × (server (call_of b path options) ≡ some resp)
          × (200 ≤ resp.status)
          × (resp.status < 300)
          × (resp.json ≡ some value))
  unfolding request
  request-ok_iff server b path options value =
      deliver-ok_iff b path (server (call_of b path options)) value

  deliver-session :
      (b : Browser) (path : String) (reply : Option Response)
      → (((resp : Response) × (reply ≡ some resp) × IsEnd path resp)
          × (deliver fetch_failed bad_json b path reply
              ≡ (record { token = none; href = "/login" }, err "unauthorized")))
        ⊎ ((¬ ((resp : Response) × (reply ≡ some resp) × IsEnd path resp))
            × ((deliver fetch_failed bad_json b path reply).0 ≡ b))
  unfolding deliver
  deliver-session b path none = inr (λ k. absurd (none_is_not_some k.1), refl)
  deliver-session b path (some resp) = elim (Bool-cases (ends_session path resp.status)) [
    | inl e ↦ inl ((resp, refl, (ends_session_iff path resp).0 e), settle_end b path resp e)
    | inr e ↦ inr (
      λ k.
          let (resp', q, end) = k in
          false_ne_true (
            sym e
            ∙ (ends_session_iff path resp).1 (subst (IsEnd path) (sym (some-injective _ _ q)) end)),
      settle_stay b path resp e,
    )
  ]

  -- A request leaves the browser as it is, unless the server answers 401 to a path that is neither
  -- of the login nor of the check of the session: then it removes the token, leads to the login
  -- page, and fails with "unauthorized".
  pub request-session :
      (server : Server) (b : Browser) (path : String) (options : Options)
      → let Ends =
          (resp : Response) × (server (call_of b path options) ≡ some resp) × IsEnd path resp in
        (Ends
          × (request fetch_failed bad_json server b path options
              ≡ (record { token = none; href = "/login" }, err "unauthorized")))
        ⊎ ((¬ Ends) × ((request fetch_failed bad_json server b path options).0 ≡ b))
  unfolding request
  request-session server b path options = deliver-session b path (server (call_of b path options))

  settle_refused :
      (b : Browser) (path : String) (resp : Response)
      → is_ok resp.status ≡ false
      → eqb resp.status 401 ≡ false
      → settle fetch_failed bad_json b path resp ≡ (b, err (error_message bad_json resp))
  unfolding settle ends_session
  settle_refused b path resp n u = rw (u, n) refl

  -- An answer that is neither a success nor a 401 fails with the message of the answer, and leaves the
  -- browser as it is.
  pub request_refused :
      (server : Server) (b : Browser) (path : String) (options : Options) (resp : Response)
      → server (call_of b path options) ≡ some resp
      → is_ok resp.status ≡ false
      → eqb resp.status 401 ≡ false
      → request fetch_failed bad_json server b path options ≡ (b, err (error_message bad_json resp))
  unfolding request deliver
  request_refused server b path options resp e n u =
      ap (deliver fetch_failed bad_json b path) e ∙ settle_refused b path resp n u
