-- ===== src/Tests/Toasts.antt =====
-- Toasts, in a session that begins with one.
use drop_the_mic.Base.{◌+◌, ◌<◌, ◌≡◌, [], arith}
use drop_the_mic.Toast.{State, initial, show_toast, success, Quietly, here}
use drop_the_mic.Toast.Vanish.{show_toast-vanish}
use drop_the_mic.Toast.Progress.{show_toast-ends, time_goes_on}

abbrev saved : State
saved = show_toast "Policy created" success initial

-- The session 3401 milliseconds later.
later : (t : State) × Quietly saved t × (t.now ≡ saved.now + 3401)
later = time_goes_on 3401 saved

is_later : initial.now + 3400 < later.0.now
unfolding show_toast
is_later = omega (arith, later.2)

show_toast-vanish_example : later.0.items ≡ []
show_toast-vanish_example = show_toast-vanish "Policy created" success here later.1 is_later

show_toast-ends_example : (u : State) × Quietly later.0 u × (u.items ≡ [])
show_toast-ends_example = show_toast-ends "Policy created" success here later.1
