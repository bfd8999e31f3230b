-- ===== src/HealthRing.antt =====
-- ui/src/components/HealthRing.tsx: the ring on the dashboard. Lengths on the circle are fractions of its
-- circumference: `len` counts parts of `total`, and `offset` parts of 4 · total. The code computes the
-- same numbers in floating point. Styling is left out.
pub mod Segments
pub mod Percent
use mathlib.Core.Option.{Option, none, some}
use drop_the_mic.Base.{
  ℕ, ◌+◌, ◌-◌, ◌*◌, ◌/◌, String, Bool, true, false, List, [], ◌∷◌, filter, if◌then◌else◌, ltb, eqb,
}
use drop_the_mic.Base.Num.{ℤ, sub_ℕ}
use drop_the_mic.Base.Text.{◌<>◌}
use drop_the_mic.Base.Text.Decimal.{decimal}

pub record Segment : Type 0 where
  pub len : ℕ
  pub color : String
  pub offset : ℤ

-- `offset` starts at a quarter of the circle before its beginning.
unfoldable pub segments : (pass warn fail : ℕ) → List Segment
segments pass warn fail =
    let total = pass + warn + fail in
    filter (λ s. ltb 0 s.len)
      (record { len = pass; color = "var(--success)"; offset = sub_ℕ 0 total }
        ∷ record { len = warn; color = "var(--warning)"; offset = sub_ℕ (4 * pass) total }
        ∷ record { len = fail; color = "var(--danger)"; offset = sub_ℕ (4 * (pass + warn)) total }
        ∷ [])

-- `Math.round((pass / total) * 100)`: a half is rounded up.
unfoldable pub pct : (pass total : ℕ) → ℕ
pct pass total = (200 * pass + total) / (2 * total)

-- The dashes of a circle: the part that is drawn, and the gap; then where the dashes begin.
pub record Arc : Type 0 where
  pub color : String
  pub dash : ℕ
  pub gap : ℕ
  pub offset : ℤ

abbrev pub arcs : (total : ℕ) → List Segment → List Arc
arcs total [] = []
arcs total (s ∷ rest) =
    record { color = s.color; dash = s.len; gap = total - s.len; offset = s.offset }
    ∷ arcs total rest

pub data View : Type 0 where
  not_available : View
  ring : (label : String) → List Arc → (text : String) → View

unfoldable pub view : (pass warn fail : ℕ) → View
unfolding segments pct
view pass warn fail =
    let total = pass + warn + fail in
    let percent = decimal (pct pass total) in
    if eqb total 0
    then not_available
    else ring
        ("Health: "
          <> percent
          <> "% passing, "
          <> decimal pass
          <> " pass, "
          <> decimal warn
          <> " warn, "
          <> decimal fail
          <> " fail")
        (arcs total (segments pass warn fail)) (percent <> "%")
