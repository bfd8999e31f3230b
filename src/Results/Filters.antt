-- ===== src/Results/Filters.antt =====
-- Which results the filters of the list let through.
use mathlib.Core.Option.{some-injective}
use drop_the_mic.Base.{
  ◌≡◌, subst, sym, ◌≢◌, ◌↔◌, ◌⊎◌, ◌<◌, inl, inr, refl, String, true, false, ◌||◌, some, List, [],
  ◌∷◌, map, if◌then◌else◌, ltb, ◌==◌, eq_iff, arith, Option-cases,
}
use drop_the_mic.Base.Text.{includes}
use drop_the_mic.Api.{Summary, ChecklistResult}
use drop_the_mic.Results.{State, summary_passes, matches_verdict}

-- What the label of each choice of the verdict filter promises: "All Pass", "Has Warnings" and
-- "Has Failures".
pub record HasVerdict (v : String) (s : Summary) : Type 0 where
  pub all_pass : v ≡ "PASS" → (s.warn ≡ 0) × (s.fail ≡ 0)
  pub has_warnings : v ≡ "WARN" → (0 < s.warn) × (s.fail ≡ 0)
  pub has_failures : v ≡ "FAIL" → 0 < s.fail

-- The values of the filter's options, without the empty one.
abbrev pub IsChoice : String → Type 0
IsChoice v = (v ≡ "PASS") ⊎ ((v ≡ "WARN") ⊎ (v ≡ "FAIL"))

-- A result is wanted if it fits each filter that is set.
pub record IsWanted (lower : String → String) (st : State) (r : ChecklistResult) : Type 0 where
  pub found :
      st.search ≢ ""
      → (includes (lower r.metadata.name) (lower st.search) ≡ true)
        ⊎ (includes (lower r.spec.policy_ref) (lower st.search) ≡ true)
  pub of_policy : st.filter_policy ≢ "" → r.spec.policy_ref ≡ st.filter_policy
  pub of_type : st.filter_type ≢ "" → r.spec.scan_type ≡ st.filter_type
  pub of_verdict :
      IsChoice st.filter_verdict
      → (s : Summary) × (r.spec.summary ≡ some s) × HasVerdict st.filter_verdict s

summary_passes_iff :
    (v : String) (s : Summary) → IsChoice v → (summary_passes v s ≡ true) ↔ HasVerdict v s
unfolding summary_passes
summary_passes_iff v s h = ground (
  arith,
  eq_iff v "PASS",
  eq_iff v "WARN",
  eq_iff v "FAIL",
  eq_iff "PASS" "WARN",
  eq_iff "PASS" "FAIL",
  eq_iff "WARN" "FAIL",
)

is_choice : (v : String) → IsChoice v → (v == "PASS" || v == "FAIL" || v == "WARN") ≡ true
is_choice v h = ground (arith, eq_iff v "PASS", eq_iff v "WARN", eq_iff v "FAIL")

-- Each choice of the verdict filter keeps the results that have a summary as its label says.
pub matches_verdict_iff :
    (v : String) (r : ChecklistResult)
    → IsChoice v
    → (matches_verdict v r ≡ true) ↔ ((s : Summary) × (r.spec.summary ≡ some s) × HasVerdict v s)
unfolding matches_verdict
matches_verdict_iff v r h = rw (is_choice v h) (elim (Option-cases r.spec.summary) [
  | inl e ↦ rw e ((λ t. cc), (λ (s, q, w). cc))
  | inr (s, e) ↦ rw e (
    (λ t. (s, refl, (summary_passes_iff v s h).0 t)),
    (λ (s', q, w).
        (summary_passes_iff v s h).1 (subst (HasVerdict v) (sym (some-injective s s' q)) w)),
  )
])

-- A result with a summary is shown under exactly one of the three choices of the verdict filter.
pub matches_verdict_split :
    (r : ChecklistResult) (s : Summary)
    → r.spec.summary ≡ some s
    → map (λ v. matches_verdict v r) ("PASS" ∷ "WARN" ∷ "FAIL" ∷ []) ≡ (
        if ltb 0 s.fail
        then false ∷ false ∷ true ∷ []
        else if ltb 0 s.warn
        then false ∷ true ∷ false ∷ []
        else true ∷ false ∷ false ∷ [])
unfolding matches_verdict
matches_verdict_split r s e = rw e (ground arith)
