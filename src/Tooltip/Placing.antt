-- ===== src/Tooltip/Placing.antt =====
-- Where the tooltip stands, next to the icon that it belongs to.
use mathlib.Core.Option.{Option, none, some}
use mathlib.Core.Option.{some-injective}
use drop_the_mic.Base.{
  subst, ℕ, ◌+◌, ◌/◌, ◌≤◌, ◌<◌, ◌≡◌, refl, Bool, true, false, String, if◌then◌else◌, ltb, arith,
  ◌&&◌,
}
use drop_the_mic.Base.Num.{ℤ, pos, sub_ℕ, ◌-ℤ◌, ltb_ℤ, pos_part, neg_part}
use drop_the_mic.Tooltip.{
  Rect, Position, State, update_pos, handle_show, enter, handle, Edge, top, bottom, Box, place,
  view,
}

-- Whether a box of the height `size` that is fixed so has a line in common with the icon.
abbrev pub covers : (window size : ℕ) → Rect → Edge → Bool
covers window size rect (top y) = ltb_ℤ y (pos rect.bottom) && ltb_ℤ (pos rect.top -ℤ y) (pos size)
covers window size rect (bottom y) =
    let line = pos window -ℤ y in
    ltb_ℤ (pos rect.top) line && ltb_ℤ (line -ℤ pos rect.bottom) (pos size)

-- The positions that `update_pos` chooses from.
abbrev chosen : Rect → Position
chosen rect =
    if ltb rect.top 80
    then record { top = pos (rect.bottom + 6); left = rect.left + rect.width / 2 }
    else record { top = sub_ℕ rect.top 6; left = rect.left + rect.width / 2 }

place-covers :
    (width height size : ℕ) (rect : Rect)
    → rect.top < rect.bottom
    → 6 < size
    → covers height size rect (place width height (some rect) (chosen rect)).edge ≡ true
place-covers width height size rect h i = ground arith

-- A box at most 320 pixels wide around this line has ten free pixels or more on either side.
abbrev pub IsInside : (width : ℕ) → ℤ → Type 0
IsInside width center =
    (neg_part center ≡ 0) × (170 ≤ pos_part center) × (pos_part center + 170 ≤ width)

place-IsInside :
    (width height : ℕ) (rect : Option Rect) (p : Position)
    → 340 ≤ width
    → IsInside width (place width height rect p).center
place-IsInside width height rect p h = (ground arith, ground arith, ground arith)

IsInside-of_shown :
    (text : String) (width height : ℕ) (rect : Option Rect) (show : Bool) (p : Option Position)
    (shown : Box × String)
    → 340 ≤ width
    → view text width height rect (record { show = show; pos = p }) ≡ some shown
    → IsInside width shown.0.center
unfolding view
IsInside-of_shown text width height rect true (some p) shown h e =
    subst (λ s. IsInside width s.0.center) (some-injective _ shown e)
      (place-IsInside width height rect p h)
IsInside-of_shown text width height rect false (some p) shown h e = cc
IsInside-of_shown text width height rect show none shown h e = cc

-- In a window at least 340 pixels wide, a tooltip that is shown lies within the window's width, also
-- after the icon or the page has moved under it.
pub view-IsInside :
    (text : String) (width height : ℕ) (rect : Option Rect) (st : State) (shown : Box × String)
    → 340 ≤ width
    → view text width height rect st ≡ some shown
    → IsInside width shown.0.center
view-IsInside text width height rect st shown =
    IsInside-of_shown text width height rect st.show st.pos shown

-- The pointer on the icon shows the tooltip, and the tooltip covers a line of the icon, where there is
-- room above the icon and where there is not. The icon has a height, and the tooltip one of more than
-- 6 pixels.
pub view-covers :
    (text : String) (width height size : ℕ) (rect : Rect) (st : State)
    → rect.top < rect.bottom
    → 6 < size
    → (box : Box) × (view text width height (some rect) (handle st (enter (some rect)))
        ≡ some (box, text))
      × (covers height size rect box.edge ≡ true)
unfolding view handle handle_show update_pos
view-covers text width height size rect st h i = (_, refl, place-covers width height size rect h i)
