-- ===== src/Tests/Parts.antt =====
-- Pages inside the error boundary.
use drop_the_mic.Base.{◌≡◌, String, List, [], ◌∷◌}
use drop_the_mic.ErrorBoundary
use drop_the_mic.ErrorBoundary.{
  Rendered, shown, thrown, View, children, fallback, render, visit, try_again,
}
use drop_the_mic.ErrorBoundary.Sticking.{first_error, view_after, visit-render}

abbrev visited : List (Rendered String)
visited = shown "dashboard" ∷ thrown "no data" ∷ shown "results" ∷ []

abbrev settings_page : String
settings_page = "settings"

visit-render_example :
    ((render (visit ErrorBoundary.initial visited) (shown settings_page)).1
      ≡ view_after (first_error visited) settings_page)
    × ((render (try_again (visit ErrorBoundary.initial visited)) (shown settings_page)).1
        ≡ children settings_page)
visit-render_example = visit-render visited settings_page
