-- ===== src/Tests/Sessions.antt =====
-- A library for the server that can be run: a dot is written with two letters, a token is cut at its dots,
-- and the hash is the text itself.
use Prim.Native.Char.{Char, code}
use Prim.Native.String.{[], ◌∷◌}
use mathlib.Core.List
use text.Mathlib.TextLemmas.{nil-append, cons-append, append_assoc, append-nil}
use text.Mathlib.TextEquality.{Char-path}
use drop_the_mic.Base.{
  ℕ, ◌+◌, ◌≤◌, ◌<◌, ◌≡◌, refl, ap, ◌∙◌, String, Bool, true, false, Option, none, some,
  if◌then◌else◌, eqb, ltb, Bool-cases, inl, inr, sym, eqb_iff, ◌==◌,
}
use drop_the_mic.Base.Text.{◌<>◌}
use drop_the_mic.Base.Text.Decimal.{decimal, read_digits, read_digits-decimal}
use drop_the_mic.Engine.{Answer, ok, failed}
use drop_the_mic.Api.{Json, null, str, obj, Members, member, no_members}
use drop_the_mic.Client.{Call, Server, get}
use drop_the_mic.Login
use drop_the_mic.App.{effect, initial, shows_pages}
use drop_the_mic.Tests.{signed_in, unusable}
use drop_the_mic.Backend.{
  Codec, Env, JwtClaims, LoginRequest, sign_jwt, verify_jwt, jwt_auth_middleware, write_error,
  serve, open_to_all,
}
use drop_the_mic.Backend.Tokens.{IsCodec, verify_jwt-sign_jwt}
use drop_the_mic.Backend.Gate.{IsAuthorized, jwt_auth_middleware_lem}
use drop_the_mic.Backend.Session.{IsHttp, handle_submit-serve}

abbrev dot : Char
dot = "."

abbrev escape : Char
escape = "a"

-- The escape letter stands for itself before itself, and for a dot before any other.
abbrev encode : String → String
encode [] = []
encode (c ∷ s) =
    let rest = encode s in
    if eqb (code c) 46
    then "a" ∷ "b" ∷ rest
    else if eqb (code c) 97
    then "a" ∷ "a" ∷ rest
    else c ∷ rest

-- `escaped`: the letter before was an escape.
abbrev decode_text : (escaped : Bool) → String → String
decode_text b [] = []
decode_text true (c ∷ s) =
    let rest = decode_text false s in if eqb (code c) 98 then "." ∷ rest else c ∷ rest
decode_text false (c ∷ s) =
    let after = decode_text true s in
    let rest = decode_text false s in if eqb (code c) 97 then after else c ∷ rest

abbrev onto : Char → List.List String → List.List String
onto c List.[] = List.[]
onto c (List.◌∷◌ s l) = List.◌∷◌ (c ∷ s) l

abbrev split : String → List.List String
split [] = List.◌∷◌ [] List.[]
split (c ∷ s) = let rest = split s in if eqb (code c) 46 then List.◌∷◌ [] rest else onto c rest

letter : (c d : Char) → eqb (code c) (code d) ≡ true → d ≡ c
letter c d e = Char-path d c (sym ((eqb_iff (code c) (code d)).0 e))

decode-encode : (s : String) → decode_text false (encode s) ≡ s
decode-encode [] = refl
decode-encode (c ∷ s) = elim (Bool-cases (eqb (code c) 46)) [
  | inl e ↦ rw (e, decode-encode s) (ap (λ d. d ∷ s) (letter c dot e))
  | inr e ↦ elim (Bool-cases (eqb (code c) 97)) [
    | inl f ↦ rw (e, f, decode-encode s) (ap (λ d. d ∷ s) (letter c escape f))
    | inr f ↦ rw (e, f, f, decode-encode s) refl
  ]
]

split-encode :
    (s t x : String) (l : List.List String)
    → split t ≡ List.◌∷◌ x l
    → split (encode s <> t) ≡ List.◌∷◌ (encode s <> x) l
split-encode [] t x l h = rw (nil-append, nil-append) h
split-encode (c ∷ s) t x l h = elim (Bool-cases (eqb (code c) 46)) [
  | inl e ↦ rw (e, cons-append, cons-append, split-encode s t x l h, cons-append, cons-append) refl
  | inr e ↦ elim (Bool-cases (eqb (code c) 97)) [
    | inl f ↦
        rw (e, f, cons-append, cons-append, split-encode s t x l h, cons-append, cons-append) refl
    | inr f ↦ rw (e, f, cons-append, e, split-encode s t x l h, cons-append) refl
  ]
]

split-dot : (s t : String) → split (encode s <> "." <> t) ≡ List.◌∷◌ (encode s) (split t)
split-dot s t =
    split-encode s ("." <> t) [] (split t)
      (ap split (cons-append dot [] t ∙ ap (dot ∷◌) (nil-append t)))
    ∙ ap (λ u. List.◌∷◌ u (split t)) (append-nil (encode s))

split-last : (s : String) → split (encode s) ≡ List.◌∷◌ (encode s) List.[]
split-last s =
    ap split (sym (append-nil (encode s)))
    ∙ split-encode s [] [] List.[] refl
    ∙ ap (λ u. List.◌∷◌ u List.[]) (append-nil (encode s))

abbrev rest_of : String → String
rest_of [] = []
rest_of (c ∷ s) = s

abbrev comma : Char
comma = ","

abbrev marshal : JwtClaims → String
marshal c = decimal c.exp <> (comma ∷ (decimal c.iat <> (comma ∷ c.sub)))

abbrev unmarshal : String → JwtClaims
unmarshal s =
    let first = read_digits 0 s in
    let second = read_digits 0 (rest_of first.rest) in
    record { sub = rest_of second.rest; exp = first.value; iat = second.value }

unmarshal-marshal : (c : JwtClaims) → unmarshal (marshal c) ≡ c
unmarshal-marshal c =
    rw
      (
        read_digits-decimal c.exp (comma ∷ (decimal c.iat <> (comma ∷ c.sub))),
        read_digits-decimal c.iat (comma ∷ c.sub),
      )
      refl

abbrev text_of : Json → String
text_of (str s) = s
text_of _ = ""

abbrev member_of : String → Members → Json
member_of key no_members = null
member_of key (member k v rest) = let later = member_of key rest in if k == key then v else later

abbrev field : String → Json → String
field key (obj m) = text_of (member_of key m)
field key _ = ""

abbrev read_login : Option Json → Answer LoginRequest
read_login none = failed "EOF"
read_login (some j) = ok (record { username = field "username" j; password = field "password" j })

abbrev pub codec : Codec
codec = record {
  encode = encode;
  decode = λ s. ok (decode_text false s);
  hmac = λ secret message. secret <> message;
  split = split;
  marshal = λ c. ok (marshal c);
  unmarshal = λ s. ok (unmarshal s);
  decode_login = read_login;
  url_path = λ url. url;
  status_text = λ status. "";
}

codec-IsCodec : IsCodec codec
codec-IsCodec = record {
  decodes = λ s. ap ok (decode-encode s);
  splits = λ a b c.
      ap split (append_assoc (encode a) ("." <> encode b) ("." <> encode c))
      ∙ ap (λ u. split (encode a <> u)) (append_assoc "." (encode b) ("." <> encode c))
      ∙ split-dot a (encode b <> "." <> encode c)
      ∙ ap (List.◌∷◌ (encode a)) (split-dot b (encode c) ∙ ap (List.◌∷◌ (encode b)) (split-last c));
  reads = λ c. (marshal c, (refl, ap ok (unmarshal-marshal c)));
}

abbrev env : Env
env = record { user = "ann"; password = "secret" }

abbrev claims : JwtClaims
claims = record { sub = "ann"; exp = 86410; iat = 10 }

verify_jwt-sign_jwt_example :
    (token : String) × ((sign_jwt codec claims "secret" ≡ ok token)
      × ((now : ℕ)
          → verify_jwt codec now token "secret"
            ≡ (if ltb 86410 now then failed "token expired" else ok claims)))
verify_jwt-sign_jwt_example = verify_jwt-sign_jwt codec claims "secret" codec-IsCodec

abbrev bare : Call
bare = record { method = get; url = "/api/v1/policies"; headers = List.[]; body = none }

abbrev empty : Server
empty call = none

jwt_auth_middleware_lem_example :
    (IsAuthorized codec env 20 bare → jwt_auth_middleware codec env 20 empty bare ≡ none)
    × (¬ IsAuthorized codec env 20 bare
        → jwt_auth_middleware codec env 20 empty bare ≡ some (write_error codec 401 "unauthorized"))
jwt_auth_middleware_lem_example =
    jwt_auth_middleware_lem codec env 20 bare empty refl refl refl refl

abbrev no_query : List.List (String × String) → String
no_query params = ""

abbrev typed : Login.State
typed = record { username = "ann"; password = "secret"; error = ""; loading = false }

codec-IsHttp : IsHttp codec (field "token")
codec-IsHttp = record {
  login_path = refl;
  check_path = refl;
  login_body = λ u p. refl;
  token_field = λ token. refl;
}

handle_submit-serve_example :
    let out =
      Login.handle_submit no_query "failed" unusable
        (field "token")
        (serve codec env empty 10)
        signed_in
        typed in
    (out.navigate ≡ some "/")
    × ((later : ℕ)
        → later ≤ 10 + 86400
        → shows_pages (effect (serve codec env empty later) out.browser initial).state ≡ true)
    × ((later : ℕ)
        → 10 + 86400 < later
        → open_to_all env ≡ false
        → ((effect (serve codec env empty later) out.browser initial).browser.token ≡ none)
          × ((effect (serve codec env empty later) out.browser initial).navigate ≡ some "/login"))
handle_submit-serve_example =
    handle_submit-serve no_query "failed" unusable (field "token") codec env empty 10 signed_in
      typed codec-IsCodec codec-IsHttp refl refl
