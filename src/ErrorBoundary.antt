-- ===== src/ErrorBoundary.antt =====
-- ui/src/components/ErrorBoundary.tsx, which ui/src/App.tsx puts around the pages: a page that fails while
-- it is rendered is replaced by a message and a button. What is written to the console is left out. React
-- calls `getDerivedStateFromError` with the error, and renders again.
pub mod Sticking
use mathlib.Core.Option.{Option, none, some}
use drop_the_mic.Base.{String, Bool, true, false, List, [], ◌∷◌, if◌then◌else◌}
use drop_the_mic.Base.Text.{or_else}

-- `error` is the message of the error.
pub record State : Type 0 where
  pub has_error : Bool
  pub error : Option String

abbrev pub initial : State
initial = record { has_error = false; error = none }

-- What comes of rendering a page.
pub data Rendered {ℓ} (A : Type ℓ) : Type ℓ where
  shown : A → Rendered A
  thrown : (message : String) → Rendered A

abbrev pub derived_state_from_error : String → State
derived_state_from_error message = record { has_error = true; error = some message }

pub data View {ℓ} (A : Type ℓ) : Type ℓ where
  children : A → View A
  fallback : (message : String) → View A

abbrev pub message_of : Option String → String
message_of none = "An unexpected error occurred."
message_of (some message) = or_else message "An unexpected error occurred."

-- `render`, and once more where the children throw: the state and what is shown.
unfoldable pub render {ℓ} : {A : Type ℓ} → State → Rendered A → State × View A
render st (shown page) =
    (st, if st.has_error then fallback (message_of st.error) else children page)
render st (thrown message) =
    if st.has_error
    then (st, fallback (message_of st.error))
    else (derived_state_from_error message, fallback (message_of (some message)))

-- The button `Try Again`.
abbrev pub try_again : State → State
try_again st = initial

-- The pages that are gone to, one after another, and what is shown at the end.
abbrev pub visit {ℓ} : {A : Type ℓ} → State → List (Rendered A) → State
visit st [] = st
visit st (page ∷ rest) = visit (render st page).0 rest
