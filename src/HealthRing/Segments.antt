-- ===== src/HealthRing/Segments.antt =====
-- How the segments of the ring lie on the circle.
use drop_the_mic.Base.{
  ℕ, ◌+◌, ◌*◌, ◌<◌, ◌≡◌, refl, sym, ◌∙◌, List, [], ◌∷◌, arith, Bool-cases, inl, inr, ltb, ltb→lt,
  subst, String, filter, false,
}
use drop_the_mic.Base.Num.{sub_ℕ}
use drop_the_mic.HealthRing.{Segment, segments}

-- Each segment has a length, begins where the one before it ends, and stays on the circle: `from` and
-- `to` count parts of `total` from the top of the circle.
abbrev pub Chain : (total from to : ℕ) → List Segment → Type 0
Chain total from to [] = from ≡ to
Chain total from to (s ∷ rest) =
    (0 < s.len) × (s.offset ≡ sub_ℕ (4 * from) total) × Chain total (from + s.len) to rest

len_zero : (from len : ℕ) → ltb 0 len ≡ false → from + len ≡ from
len_zero from len p = ground arith

zero_add : (n : ℕ) → 0 + n ≡ n
zero_add n = omega arith

-- A segment without length is left out.
Chain-filter :
    (total from next to len : ℕ) (color : String) (rest : List Segment)
    → from + len ≡ next
    → Chain total next to (filter (λ x. ltb 0 x.len) rest)
    → Chain total from to (
        filter
          (λ x. ltb 0 x.len)
          (record { len = len; color = color; offset = sub_ℕ (4 * from) total } ∷ rest))
Chain-filter total from next to len color rest e h = elim (Bool-cases (ltb 0 len)) [
  | inl p ↦ rw p (
    ltb→lt 0 len p,
    refl,
    subst (λ k. Chain total k to (filter (λ x. ltb 0 x.len) rest)) (sym e) h,
  )
  | inr p ↦ rw p (
      subst (λ k. Chain total k to (filter (λ x. ltb 0 x.len) rest)) (sym e ∙ len_zero from len p)
        h)
]

-- The segments lie one after another, without a gap or an overlap, and fill the circle from its top.
pub segments-Chain :
    (pass warn fail : ℕ)
    → let total = pass + warn + fail in Chain total 0 total (segments pass warn fail)
unfolding segments
segments-Chain pass warn fail =
    let total = pass + warn + fail in
    let last =
      record { len = fail; color = "var(--danger)"; offset = sub_ℕ (4 * (pass + warn)) total }
      ∷ [] in
    let rest =
      record { len = warn; color = "var(--warning)"; offset = sub_ℕ (4 * pass) total } ∷ last in
    Chain-filter total 0 pass total pass "var(--success)" rest (zero_add pass) (
      Chain-filter total pass (pass + warn) total warn "var(--warning)" last refl
        (Chain-filter total (pass + warn) total total fail "var(--danger)" [] refl refl))
