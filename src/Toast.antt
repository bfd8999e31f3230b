-- ===== src/Toast.antt =====
-- ui/src/components/Toast.tsx: the toasts, and the timers that take them away. The clock counts
-- milliseconds, and a timer is the time at which it is due; timers of one time may fire in any order,
-- and the clock goes on when none is due. A render of the provider gives each toast a new `onDone`,
-- so that its effect runs again. Styling is left out.
pub mod Clock
pub mod Ids
pub mod Phases
pub mod Vanish
pub mod Starve
pub mod Progress
use mathlib.Core.Option.{Option, none, some}
use drop_the_mic.Base.{
  ℕ, ◌+◌, ◌≤◌, ◌<◌, ◌≡◌, String, Bool, true, false, not, List, [], ◌∷◌, ◌++◌, map, filter, eqb, All,
}

pub data ToastType : Type 0 where
  success error : ToastType

pub record Toast : Type 0 where
  pub id : ℕ
  pub message : String
  pub kind : ToastType

-- A mounted `ToastItem`. `frame`: an animation frame is requested. `timer`: when the timer of the
-- effect is due, which the cleanup clears. `done`: when `onDone` is called, which nothing clears. A
-- second call cannot be started before the first is made, since 3000 is more than 200.
pub record Item : Type 0 where
  pub toast : Toast
  pub visible : Bool
  pub frame : Bool
  pub timer : Option ℕ
  pub done : Option ℕ

pub record State : Type 0 where
  pub now : ℕ
  pub next_id : ℕ
  pub items : List Item

abbrev pub initial : State
initial = record { now = 0; next_id = 0; items = [] }

-- The effect of `ToastItem`, after the cleanup of the one before it.
abbrev pub run_effect : ℕ → Item → Item
run_effect now i = record i { frame = true; timer = some (now + 3000) }

abbrev pub mount : Toast → Item
mount toast = record { toast = toast; visible = false; frame = false; timer = none; done = none }

-- `showToast`, and the render that follows.
unfoldable pub show_toast : String → ToastType → State → State
show_toast message kind s =
    let toast : Toast = record { id = s.next_id; message = message; kind = kind } in
    record s {
      next_id = s.next_id + 1;
      items = map (run_effect s.now) (s.items ++ mount toast ∷ []);
    }

-- `removeToast`, and the render that follows.
unfoldable pub remove_toast : ℕ → State → State
remove_toast id s = record s {
  items = map (run_effect s.now) (filter (λ i. not (eqb i.toast.id id)) s.items);
}

-- The callback of the timer of the effect.
abbrev pub hide : ℕ → Item → Item
hide now i = record i { visible = false; timer = none; done = some (now + 200) }

abbrev pub appear : Item → Item
appear i = record i { visible = true; frame = false }

abbrev pub IsDue : ℕ → Option ℕ → Type 0
IsDue now none = ⊥
IsDue now (some d) = d ≤ now

abbrev pub IsAhead : ℕ → Option ℕ → Type 0
IsAhead now none = Unit
IsAhead now (some d) = now < d

-- No timer of the item is due.
abbrev pub IsWaiting : ℕ → Item → Type 0
IsWaiting now i = IsAhead now i.timer × IsAhead now i.done

-- A step that shows no toast.
pub data Quiet (s t : State) : Type 0 where
  frame_runs :
      (before : List Item) (i : Item) (after : List Item)
      → s.items ≡ before ++ i ∷ after
      → i.frame ≡ true
      → t ≡ record s { items = before ++ appear i ∷ after }
      → Quiet s t
  timer_fires :
      (before : List Item) (i : Item) (after : List Item)
      → s.items ≡ before ++ i ∷ after
      → IsDue s.now i.timer
      → t ≡ record s { items = before ++ hide s.now i ∷ after }
      → Quiet s t
  done_fires :
      (before : List Item) (i : Item) (after : List Item)
      → s.items ≡ before ++ i ∷ after
      → IsDue s.now i.done
      → t ≡ remove_toast i.toast.id s
      → Quiet s t
  time_passes : All (IsWaiting s.now) s.items → t ≡ record s { now = s.now + 1 } → Quiet s t

pub data Step (s t : State) : Type 0 where
  shows : (message : String) (kind : ToastType) → t ≡ show_toast message kind s → Step s t
  quiet : Quiet s t → Step s t

pub data Reach : State → Type 0 where
  here : Reach initial
  next : {s t : State} → Reach s → Step s t → Reach t

-- Steps none of which shows a toast.
pub data Quietly (s : State) : State → Type 0 where
  stay : Quietly s s
  then_step : {t u : State} → Quietly s t → Quiet t u → Quietly s u
