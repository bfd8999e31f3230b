-- ===== src/Backend/Tokens.antt =====
-- The tokens of operator/server/handler/auth.go.
use mathlib.Core.List
use drop_the_mic.Base.{
  ℕ, ◌≤◌, ◌≡◌, ◌↔◌, refl, sym, ap, String, Bool, true, false, arith, if◌then◌else◌, ltb, ◌==◌,
  eq_iff, eq_refl, inl, inr, Bool-cases,
}
use drop_the_mic.Base.Text.{◌<>◌}
use drop_the_mic.Engine.{Answer, ok, failed}
use drop_the_mic.Backend.{
  JwtClaims, Codec, sign_jwt, verify_jwt, verify_parts, check_signature, check_payload,
  check_expiry, succeeded, sign_payload, jwt_header_encoded,
}

abbrev pub three : (a b c : String) → List.List String
three a b c = List.◌∷◌ a (List.◌∷◌ b (List.◌∷◌ c List.[]))

-- What the standard library documents: base64 and JSON can be read back, and the base64 of URLs has no dot at which
-- a token could be split.
pub record IsCodec (codec : Codec) : Type 0 where
  pub decodes : (s : String) → codec.decode (codec.encode s) ≡ ok s
  pub splits :
      (a b c : String)
      → codec.split ((codec.encode a <> "." <> codec.encode b) <> "." <> codec.encode c)
        ≡ three (codec.encode a) (codec.encode b) (codec.encode c)
  pub reads :
      (c : JwtClaims)
      → (payload : String) × ((codec.marshal c ≡ ok payload) × (codec.unmarshal payload ≡ ok c))

-- A token that was made with the secret and is not expired.
pub record IsValid (codec : Codec) (now : ℕ) (secret token : String) : Type 0 where
  pub head : String
  pub body : String
  pub signature : String
  pub payload : String
  pub claims : JwtClaims
  pub parts : codec.split token ≡ three head body signature
  pub signed : codec.decode signature ≡ ok (codec.hmac secret (head <> "." <> body))
  pub decoded : codec.decode body ≡ ok payload
  pub read : codec.unmarshal payload ≡ ok claims
  pub in_time : now ≤ claims.exp

module _ (codec : Codec) where
  -- The server takes its own tokens, with their claims, until they expire.
  pub verify_jwt-sign_jwt :
      (claims : JwtClaims) (secret : String)
      → IsCodec codec
      → (token : String) × ((sign_jwt codec claims secret ≡ ok token)
          × ((now : ℕ)
              → verify_jwt codec now token secret
                ≡ (if ltb claims.exp now then failed "token expired" else ok claims)))
  verify_jwt-sign_jwt claims secret h =
      let (payload, (m, u)) = h.reads claims in
      (
        _,
        (
          ap (sign_payload codec secret) m,
          λ now.
              rw (h.splits _ payload _, h.decodes, h.decodes, u)
                (rw
                  (eq_refl
                    (codec.hmac secret (jwt_header_encoded codec <> "." <> codec.encode payload)))
                  refl),
        ),
      )

module _ (codec : Codec) (now : ℕ) where
  expiry_lem :
      (a : Answer JwtClaims)
      → succeeded (check_expiry codec now a) ≡ true
      → (c : JwtClaims) × ((a ≡ ok c) × (now ≤ c.exp))
  expiry_lem (failed e) h = cc
  expiry_lem (ok c) h = (c, (refl, ground arith))

  payload_lem :
      (a : Answer String)
      → succeeded (check_payload codec now a) ≡ true
      → (payload : String) × ((a ≡ ok payload)
          × ((c : JwtClaims) × ((codec.unmarshal payload ≡ ok c) × (now ≤ c.exp))))
  payload_lem (failed e) h = cc
  payload_lem (ok payload) h = (payload, (refl, expiry_lem (codec.unmarshal payload) h))

  signature_lem :
      (expected body : String) (a : Answer String)
      → succeeded (check_signature codec now expected body a) ≡ true
      → (a ≡ ok expected) × (succeeded (check_payload codec now (codec.decode body)) ≡ true)
  signature_lem expected body (failed e) h = cc
  signature_lem expected body (ok actual) h = elim (Bool-cases (expected == actual)) [
    | inl e ↦ (ap ok (sym ((eq_iff expected actual).0 e)), rw e at h)
    | inr e ↦ absurd (no (rw e at h))
  ]
    where
      no : ◌≡◌ {A = Bool} false true → ⊥
      no q = cc

  parts_lem :
      (secret : String) (parts : List.List String)
      → succeeded (verify_parts codec now secret parts) ≡ true
      → (a : String) × ((b : String) × ((c : String) × (parts ≡ three a b c)))
  parts_lem secret List.[] h = cc
  parts_lem secret (List.◌∷◌ a List.[]) h = cc
  parts_lem secret (List.◌∷◌ a (List.◌∷◌ b List.[])) h = cc
  parts_lem secret (List.◌∷◌ a (List.◌∷◌ b (List.◌∷◌ c List.[]))) h = (a, (b, (c, refl)))
  parts_lem secret (List.◌∷◌ a (List.◌∷◌ b (List.◌∷◌ c (List.◌∷◌ d l)))) h = cc

  -- A token is taken exactly if it is valid.
  pub verify_jwt_iff :
      (token secret : String)
      → (succeeded (verify_jwt codec now token secret) ≡ true) ↔ IsValid codec now secret token
  verify_jwt_iff token secret = (
    λ h.
        let (a, (b, (c, e))) = parts_lem secret (codec.split token) h in
        let (sig, k) =
          signature_lem (codec.hmac secret (a <> "." <> b)) b (codec.decode c) (rw e at h) in
        let (p, (dp, (claims, (u, t)))) = payload_lem (codec.decode b) k in
        record {
          head = a;
          body = b;
          signature = c;
          payload = p;
          claims = claims;
          parts = e;
          signed = sig;
          decoded = dp;
          read = u;
          in_time = t;
        },
    λ v.
        rw (v.parts, v.signed, v.decoded, v.read)
          (rw (eq_refl (codec.hmac secret (v.head <> "." <> v.body))) (ground arith)),
  )
