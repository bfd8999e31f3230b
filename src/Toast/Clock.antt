-- ===== src/Toast/Clock.antt =====
-- What holds of the toasts at every time: their ids, and that no timer is late.
use mathlib.Core.Option.{Option, none, some}
use drop_the_mic.Base.{
  ℕ, ◌+◌, ◌≤◌, String, List, [], ◌∷◌, ◌++◌, map, All, arith, All-append, All-filter,
}
use drop_the_mic.Toast.{
  ToastType, Item, State, run_effect, show_toast, remove_toast, hide, appear, IsAhead, IsWaiting,
  Quiet, frame_runs, timer_fires, done_fires, time_passes, Step, shows, quiet, Reach, here, next,
}

module _ {ℓ κ} {A : Type ℓ} (P : A → Type κ) where
  pub All-split :
      (before : List A) (a : A) (after : List A)
      → All P (before ++ a ∷ after)
      → All P before × (P a × All P after)
  All-split [] a after h = (tt, h)
  All-split (b ∷ before) a after (p, h) = let (x, y) = All-split before a after h in ((p, x), y)

  -- A change of one element that keeps what holds of it.
  pub All-put :
      (before : List A) (a b : A) (after : List A)
      → (P a → P b)
      → All P (before ++ a ∷ after)
      → All P (before ++ b ∷ after)
  All-put before a b after f h =
      let (x, (p, y)) = All-split before a after h in All-append P before (b ∷ after) x (f p, y)

module _ {ℓ κ μ} {A : Type ℓ} {B : Type ℓ} (P : A → Type κ) (Q : B → Type μ) where
  pub All-image : (f : A → B) → ((a : A) → P a → Q (f a)) → (l : List A) → All P l → All Q (map f l)
  All-image f g [] h = tt
  All-image f g (a ∷ l) (p, h) = (g a p, All-image f g l h)

-- A time that is not past, and at most `delay` ahead.
abbrev pub IsWithin : ℕ → ℕ → Option ℕ → Type 0
IsWithin now delay none = Unit
IsWithin now delay (some d) = (now ≤ d) × (d ≤ now + delay)

-- No timer of the item is late, and none is set for later than its delay.
abbrev pub IsTimely : ℕ → Item → Type 0
IsTimely now i = IsWithin now 3000 i.timer × IsWithin now 200 i.done

IsTimely-effect : (now : ℕ) (i : Item) → IsTimely now i → IsTimely now (run_effect now i)
IsTimely-effect now i (p, q) = ((omega arith, omega arith), q)

later :
    (now delay : ℕ) (o : Option ℕ)
    → IsAhead now o
    → IsWithin now delay o
    → IsWithin (now + 1) delay o
later now delay none h w = tt
later now delay (some d) h (a, b) = (omega arith, omega arith)

IsTimely-later :
    (now : ℕ) (l : List Item)
    → All (IsWaiting now) l
    → All (IsTimely now) l
    → All (IsTimely (now + 1)) l
IsTimely-later now [] w h = tt
IsTimely-later now (i ∷ l) ((a, b), w) ((p, q), h) =
    ((later now 3000 i.timer a p, later now 200 i.done b q), IsTimely-later now l w h)

pub show_toast-IsTimely :
    (message : String) (kind : ToastType) (s : State)
    → All (IsTimely s.now) s.items
    → All (IsTimely s.now) (show_toast message kind s).items
unfolding show_toast
show_toast-IsTimely message kind s h =
    All-image (IsTimely s.now) (IsTimely s.now) (run_effect s.now) (IsTimely-effect s.now) _
      (All-append (IsTimely s.now) s.items _ h ((tt, tt), tt))

Quiet-IsTimely :
    {s t : State} → Quiet s t → All (IsTimely s.now) s.items → All (IsTimely t.now) t.items
unfolding remove_toast
Quiet-IsTimely {s} {t} (frame_runs before i after e f q) h =
    rw q (All-put (IsTimely s.now) before i (appear i) after (λ p. p) (rw e at h))
Quiet-IsTimely {s} {t} (timer_fires before i after e d q) h = rw q (
    All-put (IsTimely s.now) before i (hide s.now i) after (λ p. (tt, (omega arith, omega arith)))
      (rw e at h))
Quiet-IsTimely {s} {t} (done_fires before i after e d q) h = rw q (
    All-image (IsTimely s.now) (IsTimely s.now) (run_effect s.now) (IsTimely-effect s.now) _
      (All-filter (IsTimely s.now) _ s.items h))
Quiet-IsTimely {s} {t} (time_passes w q) h = rw q (IsTimely-later s.now s.items w h)

Step-IsTimely :
    {s t : State} → Step s t → All (IsTimely s.now) s.items → All (IsTimely t.now) t.items
unfolding show_toast
Step-IsTimely (shows message kind q) h = rw q (show_toast-IsTimely message kind _ h)
Step-IsTimely (quiet k) h = Quiet-IsTimely k h

-- At every time, no timer of a toast is late.
pub Reach-IsTimely : {s : State} → Reach s → All (IsTimely s.now) s.items
Reach-IsTimely here = tt
Reach-IsTimely (next r st) = Step-IsTimely st (Reach-IsTimely r)
