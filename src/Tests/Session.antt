-- ===== src/Tests/Session.antt =====
-- Requests, the login and the guard, against servers that always give one answer.
use drop_the_mic.Base.{◌≡◌, ◌↔◌, ◌⊎◌, true, false, none, some}
use drop_the_mic.Client.{Response, err, call_of, request, Options, get}
use drop_the_mic.Client.Requests.{IsEnd, request-session}
use drop_the_mic.Tests.{answer, signed_in, unusable}
use drop_the_mic.App.{effect, initial, shows_pages}
use drop_the_mic.App.Guard
use drop_the_mic.App.Guard.{IsRejected, effect_pages, effect_token}

abbrev asking : Options
asking = record { method = get; body = none }

request-session_example :
    let Ends =
      (resp : Response) × (answer 401 (call_of signed_in "/info" asking) ≡ some resp)
      × IsEnd "/info" resp in
    (Ends
      × (request "failed" unusable (answer 401) signed_in "/info" asking
          ≡ (record { token = none; href = "/login" }, err "unauthorized")))
    ⊎ ((¬ Ends) × ((request "failed" unusable (answer 401) signed_in "/info" asking).0 ≡ signed_in))
request-session_example = request-session "failed" unusable (answer 401) signed_in "/info" asking

effect_pages_example :
    ((shows_pages (effect (answer 200) signed_in initial).state ≡ true)
      ↔ Guard.IsAccepted (answer 200) signed_in)
    × (shows_pages (effect (answer 200) signed_in initial).state ≡ false
        → (effect (answer 200) signed_in initial).navigate ≡ some "/login")
effect_pages_example = effect_pages (answer 200) signed_in
