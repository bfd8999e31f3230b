-- ===== src/Dialog.antt =====
-- ui/src/components/Modal.tsx: the dialog that the forms stand in. Styling is left out. The window's
-- listener is there while the dialog is open, and it sees each key that is pressed on the page, since
-- no component of the client stops one.
use mathlib.Core.Option.{Option, none, some}
use drop_the_mic.Base.{String, Bool, false, if◌then◌else◌, ◌&&◌, ◌==◌}

-- Where a click lands.
pub data Place : Type 0 where
  backdrop content close_button : Place

pub data Event : Type 0 where
  press : (key : String) → Event
  click : Place → Event

-- Whether an event reaches `onClose`. A click on the content or on the button does not go on to the
-- backdrop.
unfoldable pub closes : (is_open : Bool) → Event → Bool
closes is_open (press key) = is_open && key == "Escape"
closes is_open (click backdrop) = is_open
closes is_open (click content) = false
closes is_open (click close_button) = is_open

-- `on_close` is that of the component which the dialog stands in.
unfoldable pub handle {ℓ} : {S : Type ℓ} → (on_close : S → S) → (is_open : Bool) → Event → S → S
unfolding closes
handle on_close is_open event st = if closes is_open event then on_close st else st

pub record View {ℓ} (A : Type ℓ) : Type ℓ where
  pub label : String
  pub content : A

unfoldable pub view {ℓ} : {A : Type ℓ} → (is_open : Bool) → (title : String) → A → Option (View A)
view is_open title children =
    if is_open then some (record { label = title; content = children }) else none
