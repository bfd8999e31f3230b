-- ===== src/HealthRing/Percent.antt =====
-- The percentage in the middle of the ring.
use native.Mathlib.Nat.{mul-div-le, lt-mul-div-succ, le-div_iff_mul-le, div-lt_iff_lt-mul}
use drop_the_mic.Base.{ℕ, ◌+◌, ◌*◌, ◌≤◌, ◌<◌, ◌≡◌, ◌↔◌, arith}
use drop_the_mic.HealthRing.{pct}

-- It is the quotient rounded to the nearest whole number.
pub pct_nearest :
    (pass total : ℕ)
    → 0 < total
    → (2 * total * pct pass total ≤ 200 * pass + total)
      × (200 * pass + total < 2 * total * (pct pass total + 1))
unfolding pct
pct_nearest pass total h = (
  mul-div-le (200 * pass + total) (2 * total),
  lt-mul-div-succ (200 * pass + total) (omega arith),
)

-- 100% is shown exactly where at most one check in 200 does not pass, and so also where some check
-- does not; 0% exactly where less than one in 200 passes. There is a check.
pub pct_extremes :
    (pass warn fail : ℕ)
    → let total = pass + warn + fail in
      0 < total
      → ((pct pass total ≡ 100) ↔ (200 * (warn + fail) ≤ total))
        × ((pct pass total ≡ 0) ↔ (200 * pass < total))
unfolding pct
pct_extremes pass warn fail h =
    let total = pass + warn + fail in
    let (full₀, full₁) =
      le-div_iff_mul-le {k = 2 * total} {x = 100} {y = 200 * pass + total} (omega arith) in
    let (over₀, over₁) =
      div-lt_iff_lt-mul {k = 2 * total} {x = 200 * pass + total} {y = 101} (omega arith) in
    let (none₀, none₁) =
      div-lt_iff_lt-mul {k = 2 * total} {x = 200 * pass + total} {y = 1} (omega arith) in
    let under = over₁ (omega arith) in
    (
      (
        λ e. let got = full₀ (omega arith) in omega arith,
        λ k. let got = full₁ (omega arith) in omega arith,
      ),
      (
        λ e. let got = none₀ (omega arith) in omega arith,
        λ k. let got = none₁ (omega arith) in omega arith,
      ),
    )
