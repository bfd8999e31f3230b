-- ===== src/Engine/Summaries.antt =====
-- The summary of a scan: `computeSummary` counts the verdicts.
use drop_the_mic.Base.{
  ℕ, suc, ◌+◌, ◌≤◌, ◌<◌, ◌≡◌, refl, ap, ◌∙◌, String, false, List, [], ◌∷◌, length, arith, ◌==◌,
  eq_iff, ◌⊎◌, inl, inr, Bool-cases, filter,
}
use drop_the_mic.Base.Num.{ℤ, pos}
use drop_the_mic.Alerts.{next_int32}
use drop_the_mic.Engine.{
  CheckResult, ScanSummary, compute_summary, count_verdict, count_verdicts, to_int32,
}

-- How many results have a verdict.
abbrev pub number_of : String → List CheckResult → ℕ
number_of verdict results = length (filter (λ (r : CheckResult). r.verdict == verdict) results)

next_int32-pos : (n : ℕ) → n < 2147483647 → next_int32 (pos n) ≡ pos (suc n)
next_int32-pos n h = ground arith

to_int32-small : (n : ℕ) → n < 2147483648 → to_int32 n ≡ pos n
to_int32-small n h = ground arith

abbrev counts : (total : ℤ) → (pass warn fail : ℕ) → ScanSummary
counts total pass warn fail = record {
  total = total;
  pass = pos pass;
  warn = pos warn;
  fail = pos fail;
}

which :
    (v : String)
    → (v ≡ "PASS")
      ⊎ ((v ≡ "WARN")
          ⊎ ((v ≡ "FAIL")
              ⊎ (((v == "PASS") ≡ false) × (((v == "WARN") ≡ false) × ((v == "FAIL") ≡ false)))))
which v = elim (Bool-cases (v == "PASS")) [
  | inl p ↦ inl ((eq_iff v "PASS").0 p)
  | inr p ↦ elim (Bool-cases (v == "WARN")) [
    | inl w ↦ inr (inl ((eq_iff v "WARN").0 w))
    | inr w ↦ elim (Bool-cases (v == "FAIL")) [
      | inl f ↦ inr (inr (inl ((eq_iff v "FAIL").0 f)))
      | inr f ↦ inr (inr (inr (p, (w, f))))
    ]
  ]
]

module _ (total : ℤ) (p w f : ℕ) where
  -- One result adds to the count of its verdict.
  abbrev counts_with : CheckResult → ScanSummary
  counts_with r =
      counts total (number_of "PASS" (r ∷ []) + p) (number_of "WARN" (r ∷ []) + w)
        (number_of "FAIL" (r ∷ []) + f)

  count_verdict-counts :
      (r : CheckResult)
      → p + w + f < 2147483647
      → count_verdict (counts total p w f) r.verdict ≡ counts_with r
  count_verdict-counts r h = elim (which r.verdict) [
    | inl e ↦ rw (e, next_int32-pos p (omega arith)) (ground arith)
    | inr (inl e) ↦ rw (e, next_int32-pos w (omega arith)) (ground arith)
    | inr (inr (inl e)) ↦ rw (e, next_int32-pos f (omega arith)) (ground arith)
    | inr (inr (inr (a, (b, c)))) ↦ rw (a, b, c) (ground arith)
  ]

number_of-cons :
    (v : String) (r : CheckResult) (rest : List CheckResult)
    → number_of v (r ∷ rest) ≡ number_of v (r ∷ []) + number_of v rest
number_of-cons v r rest = ground arith

single :
    (r : CheckResult)
    → number_of "PASS" (r ∷ []) + number_of "WARN" (r ∷ []) + number_of "FAIL" (r ∷ []) ≤ 1
single r = elim (which r.verdict) [
  | inl e ↦ rw e (omega arith)
  | inr (inl e) ↦ rw e (omega arith)
  | inr (inr (inl e)) ↦ rw e (omega arith)
  | inr (inr (inr (a, (b, c)))) ↦ rw (a, b, c) (omega arith)
]

move : (n a p : ℕ) → n + (a + p) ≡ a + n + p
move n a p = omega arith

-- What all the results make of the counts.
count_verdicts-counts :
    (total : ℤ) (results : List CheckResult) (p w f : ℕ)
    → p + w + f + length results < 2147483648
    → count_verdicts (counts total p w f) results
      ≡ counts total
          (number_of "PASS" results + p)
          (number_of "WARN" results + w)
          (number_of "FAIL" results + f)
count_verdicts-counts total [] p w f h = ground arith
count_verdicts-counts total (r ∷ rest) p w f h =
    ap (λ s. count_verdicts s rest) (count_verdict-counts total p w f r (omega arith))
    ∙ count_verdicts-counts total rest (one "PASS" + p) (one "WARN" + w) (one "FAIL" + f)
        (omega (arith, single r))
    ∙ rw
        (
          number_of-cons "PASS" r rest,
          number_of-cons "WARN" r rest,
          number_of-cons "FAIL" r rest,
          move (number_of "PASS" rest),
          move (number_of "WARN" rest),
          move (number_of "FAIL" rest),
        )
        refl
  where
    one : String → ℕ
    one v = number_of v (r ∷ [])

-- With fewer than 2^31 results nothing wraps around: the summary has their number, and how many there are of
-- each verdict.
pub compute_summary_lem :
    (results : List CheckResult)
    → length results < 2147483648
    → compute_summary results
      ≡ counts
          (pos (length results))
          (number_of "PASS" results)
          (number_of "WARN" results)
          (number_of "FAIL" results)
compute_summary_lem results h =
    count_verdicts-counts (to_int32 (length results)) results 0 0 0 (omega arith)
    ∙ rw (to_int32-small (length results) h) (ground arith)
