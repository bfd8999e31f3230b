-- ===== src/Toast/Vanish.antt =====
-- How long toasts stay: if none is shown for 3400 ms, all are gone.
use drop_the_mic.Base.{
  ℕ, ◌+◌, ◌≤◌, ◌<◌, ◌≡◌, refl, String, List, [], ◌∷◌, All, arith, All-append, All-filter,
}
use drop_the_mic.Toast.{
  ToastType, Item, State, run_effect, show_toast, remove_toast, hide, appear, IsDue, Quiet,
  frame_runs, timer_fires, done_fires, time_passes, Reach, Quietly, stay, then_step,
}
use drop_the_mic.Toast.Phases.{
  Fits, early, shown, hidden, fits_of_done, fits_all_later, fits-hide, fits-appear,
  fits-effect_early, fits-effect_late, not_fits,
}
use drop_the_mic.Toast.Clock.{All-split, All-put, All-image, IsTimely, Reach-IsTimely}

pub record IsSettling (from until : ℕ) (s : State) : Type 0 where
  pub begun : from ≤ s.now
  pub soonest : from + 3000 ≤ until
  pub latest : until ≤ from + 3200
  pub fits : All (Fits from until s.now) s.items

show_toast-IsSettling :
    (message : String) (kind : ToastType) (s : State)
    → All (IsTimely s.now) s.items
    → IsSettling s.now (s.now + 3000) (show_toast message kind s)
unfolding show_toast
show_toast-IsSettling message kind s h = record {
  begun = omega arith;
  soonest = omega arith;
  latest = omega arith;
  fits =
      All-image (IsTimely s.now) (Fits s.now (s.now + 3000) s.now) (run_effect s.now)
        (λ i p. fits_of_done s.now i i.done refl p.1) _
        (All-append (IsTimely s.now) s.items _ h ((tt, tt), tt));
}

-- When a toast is taken away, the period goes on, with the same or a later common time.
remove-IsSettling :
    (from until id : ℕ) (s : State) (i : Item)
    → IsSettling from until s
    → IsDue s.now i.done
    → Fits from until s.now i
    → (later : ℕ) × IsSettling from later (remove_toast id s)
unfolding remove_toast
remove-IsSettling from until id s i h due (early d e l u f) =
    let reached : d ≤ s.now = rw e at due in
    (
      s.now + 3000,
      record {
        begun = h.begun;
        soonest = omega (arith, h.begun);
        latest = omega arith;
        fits =
            All-image (Fits from until s.now) (Fits from (s.now + 3000) s.now) (run_effect s.now)
              (λ j p. fits-effect_early from until s.now j h.begun (omega arith) h.soonest p) _
              (All-filter (Fits from until s.now) _ s.items h.fits);
      },
    )
remove-IsSettling from until id s i h due (shown e t l) = absurd (rw e at due)
remove-IsSettling from until id s i h due (hidden e l u f) =
    let reached : until + 200 ≤ s.now = rw e at due in
    (
      until,
      record {
        begun = h.begun;
        soonest = h.soonest;
        latest = h.latest;
        fits =
            All-image (Fits from until s.now) (Fits from until s.now) (run_effect s.now)
              (λ j p. fits-effect_late from until s.now j h.soonest (omega arith) p) _
              (All-filter (Fits from until s.now) _ s.items h.fits);
      },
    )

-- With other items, the clock and the common time as they are.
with_items :
    (from until : ℕ) (s : State) (l : List Item)
    → IsSettling from until s
    → All (Fits from until s.now) l
    → IsSettling from until (record s { items = l })
with_items from until s l h k = record {
  begun = h.begun;
  soonest = h.soonest;
  latest = h.latest;
  fits = k;
}

Quiet-IsSettling :
    {s t : State} (from until : ℕ)
    → Quiet s t
    → IsSettling from until s
    → (later : ℕ) × IsSettling from later t
Quiet-IsSettling {s} {t} from until (frame_runs before i after e f q) h = rw q (
  until,
  with_items from until s _ h (
      All-put (Fits from until s.now) before i (appear i) after (fits-appear from until s.now i)
        (rw e at h.fits)),
)
Quiet-IsSettling {s} {t} from until (timer_fires before i after e d q) h = rw q (
  until,
  with_items from until s _ h (
      All-put (Fits from until s.now) before i (hide s.now i) after (fits-hide from until s.now i d)
        (rw e at h.fits)),
)
Quiet-IsSettling {s} {t} from until (done_fires before i after e d q) h =
    let fit = (All-split (Fits from until s.now) before i after (rw e at h.fits)).1.0 in
    rw q (remove-IsSettling from until i.toast.id s i h d fit)
Quiet-IsSettling {s} {t} from until (time_passes w q) h = rw q (
  until,
  record {
    begun = omega (arith, h.begun);
    soonest = h.soonest;
    latest = h.latest;
    fits = fits_all_later from until s.now s.items w h.fits;
  },
)

Quietly-IsSettling :
    {s t : State} (from until : ℕ)
    → Quietly s t
    → IsSettling from until s
    → (later : ℕ) × IsSettling from later t
Quietly-IsSettling from until stay h = (until, h)
Quietly-IsSettling from until (then_step r q) h =
    let (later, k) = Quietly-IsSettling from until r h in Quiet-IsSettling from later q k

none_left :
    (from until now : ℕ) (l : List Item)
    → until ≤ from + 3200
    → from + 3400 < now
    → All (Fits from until now) l
    → l ≡ []
none_left from until now [] a b h = refl
none_left from until now (i ∷ l) a b (p, h) = absurd (not_fits from until now i a b p)

-- From any state that can be reached: if a toast is shown and then none for more than 3400 ms, in
-- whatever order the timers fire, no toast is left.
pub show_toast-vanish :
    {s t : State} (message : String) (kind : ToastType)
    → Reach s
    → Quietly (show_toast message kind s) t
    → s.now + 3400 < t.now
    → t.items ≡ []
show_toast-vanish {s} {t} message kind r q h =
    let begun = show_toast-IsSettling message kind s (Reach-IsTimely r) in
    let (until, k) = Quietly-IsSettling s.now (s.now + 3000) q begun in
    none_left s.now until t.now t.items k.latest h k.fits
