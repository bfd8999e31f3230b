-- ===== src/Tooltip.antt =====
-- ui/src/components/HelpTooltip.tsx: the question mark and its tooltip. Distances are whole pixels from
-- the top and the left of the window; `rect` stands for `getBoundingClientRect`, whose width is even.
-- Styling is left out.
pub mod Placing
use mathlib.Core.Option.{Option, none, some}
use drop_the_mic.Base.{ℕ, ◌+◌, ◌-◌, ◌/◌, Bool, true, false, String, if◌then◌else◌, ltb}
use drop_the_mic.Base.Num.{ℤ, pos, sub_ℕ, ◌-ℤ◌, ltb_ℤ}

pub record Rect : Type 0 where
  pub top : ℕ
  pub bottom : ℕ
  pub left : ℕ
  pub width : ℕ

pub record Position : Type 0 where
  pub top : ℤ
  pub left : ℕ

pub record State : Type 0 where
  pub show : Bool
  pub pos : Option Position

abbrev pub initial : State
initial = record { show = false; pos = none }

-- `none`: the icon is not on the page.
unfoldable pub update_pos : Option Rect → State → State
update_pos none st = st
update_pos (some rect) st = record st {
  pos = some (
      if ltb rect.top 80
      then record { top = pos (rect.bottom + 6); left = rect.left + rect.width / 2 }
      else record { top = sub_ℕ rect.top 6; left = rect.left + rect.width / 2 });
}

unfoldable pub handle_show : Option Rect → State → State
unfolding update_pos
handle_show rect st = record (update_pos rect st) { show = true }

-- `enter` and `click` come with the place of the icon at that moment. A click outside is seen while the
-- tooltip is shown.
pub data Event : Type 0 where
  enter click : Option Rect → Event
  leave mouse_down_outside : Event

unfoldable pub handle : State → Event → State
unfolding handle_show
handle st (enter rect) = handle_show rect st
handle st leave = record st { show = false }
handle st (click rect) = if st.show then record st { show = false } else handle_show rect st
handle st mouse_down_outside = if st.show then record st { show = false } else st

-- How the box is fixed to the window: `top` is the distance of its top edge from that of the window, and
-- `bottom` the distance of its bottom edge from that of the window.
pub data Edge : Type 0 where
  top bottom : ℤ → Edge

pub record Box : Type 0 where
  pub edge : Edge
  pub center : ℤ

abbrev pub max_ℤ : ℤ → ℤ → ℤ
max_ℤ a b = if ltb_ℤ a b then b else a

abbrev pub min_ℤ : ℤ → ℤ → ℤ
min_ℤ a b = if ltb_ℤ b a then b else a

abbrev pub top_of : Option Rect → ℕ
top_of none = 0
top_of (some rect) = rect.top

abbrev pub place : (width height : ℕ) → Option Rect → Position → Box
place width height rect p = record {
  edge = if ltb_ℤ p.top (pos (top_of rect)) then top p.top else bottom (pos height -ℤ p.top);
  center = min_ℤ (max_ℤ (pos p.left) (pos 170)) (sub_ℕ width 170);
}

-- What is shown next to the icon; `width` and `height` are those of the window.
unfoldable pub view :
    (text : String) → (width height : ℕ) → Option Rect → State → Option (Box × String)
view text width height rect st = elim st.pos [
  | none ↦ none
  | some p ↦ if st.show then some (place width height rect p, text) else none
]
