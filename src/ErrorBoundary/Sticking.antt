-- ===== src/ErrorBoundary/Sticking.antt =====
-- What is seen of the pages after one of them has failed.
use mathlib.Core.Option.{Option, none, some}
use drop_the_mic.Base.{◌≡◌, refl, ap, ◌∙◌, String, true, List, [], ◌∷◌}
use drop_the_mic.ErrorBoundary.{
  initial, Rendered, shown, thrown, View, children, fallback, message_of, render, try_again, visit,
}

module _ {ℓ} {A : Type ℓ} where
  failed_stays :
      (error : Option String) (page : Rendered A)
      → (render (record { has_error = true; error = error }) page).0
        ≡ record { has_error = true; error = error }
  unfolding render
  failed_stays error (shown page) = refl
  failed_stays error (thrown message) = refl

  visit_failed :
      (error : Option String) (pages : List (Rendered A))
      → visit (record { has_error = true; error = error }) pages
        ≡ record { has_error = true; error = error }
  visit_failed error [] = refl
  visit_failed error (page ∷ rest) =
      ap (λ st. visit st rest) (failed_stays error page) ∙ visit_failed error rest

  abbrev pub first_error : List (Rendered A) → Option String
  first_error [] = none
  first_error (shown page ∷ rest) = first_error rest
  first_error (thrown message ∷ rest) = some message

  abbrev pub view_after : Option String → A → View A
  view_after none page = children page
  view_after (some message) page = fallback (message_of (some message))

  -- A page is shown as long as no page before it has failed. After that the message of the first
  -- error stands in place of every page that is gone to, also of those that would render, until `Try
  -- Again` is clicked: the next page is rendered then.
  pub visit-render :
      (pages : List (Rendered A)) (page : A)
      → ((render (visit initial pages) (shown page)).1 ≡ view_after (first_error pages) page)
        × ((render (try_again (visit initial pages)) (shown page)).1 ≡ children page)
  unfolding render
  visit-render [] page = (refl, refl)
  visit-render (shown p ∷ rest) page = visit-render rest page
  visit-render (thrown message ∷ rest) page =
      (ap (λ st. (render st (shown page)).1) (visit_failed (some message) rest), refl)
