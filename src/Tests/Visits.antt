-- ===== src/Tests/Visits.antt =====
-- A visit of the pages, with a router that compares addresses.
use mathlib.Core.Option
use mathlib.Core.Option.{Option, none, some}
use drop_the_mic.Base.{ℕ, ◌≡◌, refl, sym, ◌∙◌, Bool, false, String, List, ◌==◌, arith}
use drop_the_mic.Api.{Json, str}
use drop_the_mic.Client.{Browser, Server, logout}
use drop_the_mic.App.Guard.{IsAccepted}
use drop_the_mic.App.Routes.{Page, dashboard, login, layout, links, moved, visit}
use drop_the_mic.App.Routes.Session.{IsRouter, seen, login-logout}
use drop_the_mic.Login
use drop_the_mic.Tests.{answer, signed_in, unusable}

abbrev equals : Bool → String → String → Bool
equals whole pattern path = pattern == path

equals-IsRouter : IsRouter equals
equals-IsRouter = record { login_fits = refl; start_fits = refl; start_is_not_login = refl }

abbrev itself : Page → Page
itself page = page

abbrev no_query : List (String × String) → String
no_query params = ""

abbrev token_of : Json → String
token_of value = "t2"

abbrev form : Login.State
form = record { username = "ann"; password = "pw"; error = ""; loading = false }

accepted : (b : Browser) → b.token ≡ some "t2" → IsAccepted (answer 200) b
accepted b e = (λ n. absurd (apart (sym e ∙ n)), (_, refl, λ u. absurd (not_401 u)))
  where
    apart : ◌≡◌ {A = Option String} (some "t2") none → ⊥
    apart q = cc

    not_401 : ◌≡◌ {A = ℕ} 200 401 → ⊥
    not_401 q = omega arith

login-logout_example :
    let out = Login.handle_submit no_query "failed" unusable token_of (answer 200) signed_in form in
    let entered = visit equals (answer 200) out.browser (moved equals "/login" out.navigate) in
    (seen equals entered itself ≡ layout (links equals "/") (some dashboard))
    × ((later : Server) (path : String)
        → seen equals (visit equals later (logout entered.browser) path) itself ≡ login)
login-logout_example =
    login-logout equals itself no_query "failed" unusable token_of (answer 200) signed_in form
      (str "token") equals-IsRouter (_, refl, omega arith, omega arith, refl)
      (accepted (record signed_in { token = some "t2" }) refl)
