-- ===== src/App/Routes.antt =====
-- ui/src/App.tsx, the routes and the layout. `matches` stands for the matching of react-router: whether
-- the pattern of a route fits the address, as a whole or, for a link without `end`, also its beginning.
-- A route that fits is preferred to `/*`. `show` gives what the error boundary shows of a page.
pub mod Session
use mathlib.Core.Option
use mathlib.Core.Option.{Option, none, some}
use drop_the_mic.Base.{String, Bool, true, false, List, [], ◌∷◌, map, if◌then◌else◌, ◌==◌}
use drop_the_mic.Client.{Browser, Server}
use drop_the_mic.App.{State, initial, Outcome, effect, shows_pages, NavItem, nav_items}

pub data Page : Type 0 where
  dashboard policies results settings : Page

abbrev pub page_routes : List (String × Page)
page_routes =
    ("/", dashboard)
    ∷ ("/policies", policies)
    ∷ ("/results", results)
    ∷ ("/settings", settings)
    ∷ []

pub record Link : Type 0 where
  pub to : String
  pub label : String
  pub is_active : Bool

pub data Screen {ℓ} (A : Type ℓ) : Type ℓ where
  login nothing : Screen A
  layout : List Link → Option A → Screen A

module _ (matches : (whole : Bool) → (pattern path : String) → Bool) where
  abbrev pub first_fitting : String → List (String × Page) → Option Page
  first_fitting path [] = none
  first_fitting path ((pattern, page) ∷ rest) =
      let other = first_fitting path rest in if matches true pattern path then some page else other

  unfoldable pub page_of : String → Option Page
  page_of path = first_fitting path page_routes

  abbrev pub link : String → NavItem → Link
  link path item = record {
    to = item.to;
    label = item.label;
    is_active = matches (item.to == "/") item.to path;
  }

  unfoldable pub links : String → List Link
  links path = map (link path) nav_items

  -- What `App` shows at an address. The guard stands around the layout only.
  unfoldable pub screen {ℓ} : {A : Type ℓ} → State → (path : String) → (Page → A) → Screen A
  screen st path show =
      if matches true "/login" path
      then login
      else if shows_pages st
      then layout (links path) (Option.map show (page_of path))
      else nothing

  pub record Visit : Type 0 where
    pub browser : Browser
    pub path : String
    pub state : State

  abbrev pub moved : String → Option String → String
  moved path none = path
  moved path (some to) = to

  abbrev pub arrived : String → Outcome → Visit
  arrived path out = record {
    browser = out.browser;
    path = moved path out.navigate;
    state = out.state;
  }

  -- An address is opened: the effect of the guard runs where the guard stands, and the router goes
  -- where it is sent.
  unfoldable pub visit : Server → Browser → (path : String) → Visit
  visit server b path =
      if matches true "/login" path
      then record { browser = b; path = path; state = initial }
      else arrived path (effect server b initial)
