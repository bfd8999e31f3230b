-- ===== src/Toast/Phases.antt =====
-- The phases of a toast on the screen, after the last one was shown.
use mathlib.Core.Option.{Option, none, some}
use drop_the_mic.Base.{ℕ, ◌+◌, ◌≤◌, ◌<◌, ◌≡◌, refl, ap, List, [], ◌∷◌, All, arith}
use drop_the_mic.Toast.{Item, run_effect, hide, appear, IsDue, IsWaiting}
use drop_the_mic.Toast.Clock.{IsWithin}

-- If the timer of the item is set, it is due at `earliest` or later.
abbrev pub IsFrom : ℕ → Option ℕ → Type 0
IsFrom earliest none = Unit
IsFrom earliest (some t) = earliest ≤ t

-- The last toast was shown at the time `from`. An item is either taken away within the next 200 ms,
-- or hidden at the time `until` that it has in common with all such items, or already hidden and
-- taken away 200 ms after that time.
pub data Fits (from until now : ℕ) (i : Item) : Type 0 where
  early :
      (d : ℕ)
      → i.done ≡ some d
      → now ≤ d
      → d ≤ from + 200
      → IsFrom (from + 3000) i.timer
      → Fits from until now i
  shown : i.done ≡ none → i.timer ≡ some until → now ≤ until → Fits from until now i
  hidden :
      i.done ≡ some (until + 200)
      → until ≤ now
      → now ≤ until + 200
      → IsFrom (until + 201) i.timer
      → Fits from until now i

-- Showing a toast begins such a period.
pub fits_of_done :
    (now : ℕ) (i : Item) (o : Option ℕ)
    → i.done ≡ o
    → IsWithin now 200 o
    → Fits now (now + 3000) now (run_effect now i)
fits_of_done now i none e w = shown e refl (omega arith)
fits_of_done now i (some d) e (l, u) = early d e l u (omega arith)

fits_later :
    (from until now : ℕ) (i : Item)
    → IsWaiting now i
    → Fits from until now i
    → Fits from until (now + 1) i
fits_later from until now i (a, b) (early d e l u f) =
    let ahead : now < d = rw e at b in early d e (omega arith) u f
fits_later from until now i (a, b) (shown e t l) =
    let ahead : now < until = rw t at a in shown e t (omega arith)
fits_later from until now i (a, b) (hidden e l u f) =
    let ahead : now < until + 200 = rw e at b in hidden e (omega arith) (omega arith) f

pub fits_all_later :
    (from until now : ℕ) (l : List Item)
    → All (IsWaiting now) l
    → All (Fits from until now) l
    → All (Fits from until (now + 1)) l
fits_all_later from until now [] w h = tt
fits_all_later from until now (i ∷ l) (a, w) (p, h) =
    (fits_later from until now i a p, fits_all_later from until now l w h)

-- A timer that is due is not one of the future.
not_due : (now earliest : ℕ) (o : Option ℕ) → now < earliest → IsFrom earliest o → IsDue now o → ⊥
not_due now earliest none h f due = due
not_due now earliest (some t) h f due = omega arith

pub fits-hide :
    (from until now : ℕ) (i : Item)
    → IsDue now i.timer
    → Fits from until now i
    → Fits from until now (hide now i)
fits-hide from until now i due (early d e l u f) =
    absurd (not_due now (from + 3000) i.timer (omega arith) f due)
fits-hide from until now i due (shown e t l) =
    let reached : until ≤ now = rw t at due in
    let same : now ≡ until = omega arith in
    hidden (ap (λ n. some (n + 200)) same) reached (omega arith) tt
fits-hide from until now i due (hidden e l u f) =
    absurd (not_due now (until + 201) i.timer (omega arith) f due)

pub fits-appear :
    (from until now : ℕ) (i : Item) → Fits from until now i → Fits from until now (appear i)
fits-appear from until now i (early d e l u f) = early d e l u f
fits-appear from until now i (shown e t l) = shown e t l
fits-appear from until now i (hidden e l u f) = hidden e l u f

-- The effect runs again before any of these items is hidden, or after all of them are.
pub fits-effect_early :
    (from until now : ℕ) (i : Item)
    → from ≤ now
    → now ≤ from + 200
    → from + 3000 ≤ until
    → Fits from until now i
    → Fits from (now + 3000) now (run_effect now i)
fits-effect_early from until now i a b c (early d e l u f) = early d e l u (omega arith)
fits-effect_early from until now i a b c (shown e t l) = shown e refl (omega arith)
fits-effect_early from until now i a b c (hidden e l u f) = absurd (too_early a b c l)
  where
    too_early : from ≤ now → now ≤ from + 200 → from + 3000 ≤ until → until ≤ now → ⊥
    too_early a b c l = omega arith

pub fits-effect_late :
    (from until now : ℕ) (i : Item)
    → from + 3000 ≤ until
    → now ≡ until + 200
    → Fits from until now i
    → Fits from until now (run_effect now i)
fits-effect_late from until now i a b (early d e l u f) = absurd (too_late a b l u)
  where
    too_late : from + 3000 ≤ until → now ≡ until + 200 → now ≤ d → d ≤ from + 200 → ⊥
    too_late a b l u = omega arith
fits-effect_late from until now i a b (shown e t l) = absurd (too_late b l)
  where
    too_late : now ≡ until + 200 → now ≤ until → ⊥
    too_late b l = omega arith
fits-effect_late from until now i a b (hidden e l u f) = hidden e l u (omega arith)

pub not_fits :
    (from until now : ℕ) (i : Item)
    → until ≤ from + 3200
    → from + 3400 < now
    → ¬ Fits from until now i
not_fits from until now i a b (early d e l u f) = omega arith
not_fits from until now i a b (shown e t l) = omega arith
not_fits from until now i a b (hidden e l u f) = omega arith
