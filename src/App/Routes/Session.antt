-- ===== src/App/Routes/Session.antt =====
-- What a visitor sees, from the login to the logout.
use mathlib.Core.Option
use mathlib.Core.Option.{Option, none, some}
use drop_the_mic.Base.{◌≡◌, inl, inr, refl, ap, ◌∙◌, Bool, true, false, String, List, Bool-cases}
use drop_the_mic.Api.{Json}
use drop_the_mic.Client.{Browser, Server, logout}
use drop_the_mic.App.{State, initial, Outcome, effect, shows_pages}
use drop_the_mic.App.Guard.{IsAccepted, effect_pages, effect_stays}
use drop_the_mic.App.Routes.{
  Page, dashboard, Screen, login, layout, links, page_of, screen, Visit, visit, arrived, moved,
}
use drop_the_mic.Login
use drop_the_mic.Login.Laws
use drop_the_mic.Login.Laws.{handle_submit-accepted}

module _ (matches : Bool → String → String → Bool) where
  -- What the client relies on of the matching: an address fits its own pattern, and the start page is
  -- not the login page.
  pub record IsRouter : Type 0 where
    pub login_fits : matches true "/login" "/login" ≡ true
    pub start_fits : matches true "/" "/" ≡ true
    pub start_is_not_login : matches true "/login" "/" ≡ false

  abbrev pub seen {ℓ} : {A : Type ℓ} → Visit matches → (Page → A) → Screen A
  seen v show = screen matches v.state v.path show

  module _ {ℓ} {A : Type ℓ} (show : Page → A) where
    screen-login :
        (st : State) (path : String)
        → matches true "/login" path ≡ true
        → screen matches st path show ≡ login
    unfolding screen
    screen-login st path e = rw e refl

    page_screen :
        (st : State) (path : String)
        → matches true "/login" path ≡ false
        → shows_pages st ≡ true
        → screen matches st path show
          ≡ layout (links matches path) (Option.map show (page_of matches path))
    unfolding screen
    page_screen st path e p = rw (e, p) refl

    visit_guarded :
        (server : Server) (b : Browser) (path : String)
        → matches true "/login" path ≡ false
        → visit matches server b path ≡ arrived matches path (effect server b initial)
    unfolding visit
    visit_guarded server b path e = rw e refl

    arrived_screen :
        (path : String) (out : Outcome) (to : Option String)
        → out.navigate ≡ to
        → matches true "/login" (moved matches path to) ≡ true
        → seen (arrived matches path out) show ≡ login
    arrived_screen path out to e f =
        screen-login out.state (moved matches path out.navigate)
          (ap (λ t. matches true "/login" (moved matches path t)) e ∙ f)

    arrived_page :
        (path : String) (out : Outcome)
        → matches true "/login" path ≡ false
        → out.navigate ≡ none
        → shows_pages out.state ≡ true
        → seen (arrived matches path out) show
          ≡ layout (links matches path) (Option.map show (page_of matches path))
    arrived_page path out e n p =
        ap (λ t. screen matches out.state (moved matches path t) show) n
        ∙ page_screen out.state path e p

    sent_away :
        (server : Server) (b : Browser)
        → ¬ IsAccepted server b
        → (effect server b initial).navigate ≡ some "/login"
    sent_away server b refused = elim (Bool-cases (shows_pages (effect server b initial).state)) [
      | inl p ↦ absurd (refused ((effect_pages server b).0.0 p))
      | inr p ↦ (effect_pages server b).1 p
    ]

    pub visit-screen :
        (server : Server) (b : Browser) (path : String)
        → IsRouter
        → matches true "/login" path ≡ false
        → (IsAccepted server b
            → seen (visit matches server b path) show
              ≡ layout (links matches path) (Option.map show (page_of matches path)))
          × (¬ IsAccepted server b → seen (visit matches server b path) show ≡ login)
    visit-screen server b path router e = rw (visit_guarded server b path e) (
      (λ good.
          let p = (effect_pages server b).0.1 good in
          arrived_page path (effect server b initial) e (effect_stays server b p) p),
      λ refused.
          arrived_screen path (effect server b initial) (some "/login") (sent_away server b refused)
            router.login_fits,
    )

    at_login :
        (server : Server) (b : Browser) (path : String)
        → matches true "/login" path ≡ true
        → seen (visit matches server b path) show ≡ login
    unfolding visit
    at_login server b path e = rw e (screen-login initial path e)

    no_token : (server : Server) (b : Browser) → ¬ IsAccepted server (logout b)
    unfolding logout
    no_token server b accepted = accepted.0 refl

    -- After a logout every address leads to the login page, whatever the server says.
    pub visit-logout :
        (server : Server) (b : Browser) (path : String)
        → IsRouter
        → seen (visit matches server (logout b) path) show ≡ login
    visit-logout server b path router = elim (Bool-cases (matches true "/login" path)) [
      | inl e ↦ at_login server (logout b) path e
      | inr e ↦ (visit-screen server (logout b) path router e).1 (no_token server b)
    ]

    start_page : IsRouter → page_of matches "/" ≡ some dashboard
    unfolding page_of
    start_page router = rw router.start_fits refl

    -- If the server accepts the login, and then the token that it gave, the visitor comes to the
    -- dashboard; from the logout on, every address leads to the login page, whatever the server says.
    -- The login and the start address fit their routes, and the latter is not that of the login page.
    pub login-logout :
        (query_string : List (String × String) → String) (fetch_failed : String)
        (bad_json : Option Json → String) (token_of : Json → String) (server : Server) (b : Browser)
        (st : Login.State) (value : Json)
        → IsRouter
        → Laws.IsAccepted query_string fetch_failed bad_json token_of server b st value
        → IsAccepted server (record b { token = some (token_of value) })
        → let out = Login.handle_submit query_string fetch_failed bad_json token_of server b st in
          let entered = visit matches server out.browser (moved matches "/login" out.navigate) in
          (seen entered show ≡ layout (links matches "/") (some (show dashboard)))
          × ((later : Server) (path : String)
              → seen (visit matches later (logout entered.browser) path) show ≡ login)
    login-logout query_string fetch_failed bad_json token_of server b st value router acc good =
        let given = record b { token = some (token_of value) } in
        rw
          (handle_submit-accepted query_string fetch_failed bad_json token_of server b st value acc)
          (
            ((visit-screen server given "/" router router.start_is_not_login).0 good
                ∙ ap (λ p. layout (links matches "/") (Option.map show p)) (start_page router)),
            λ later path. visit-logout later (visit matches server given "/").browser path router,
          )
