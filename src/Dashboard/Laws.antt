-- ===== src/Dashboard/Laws.antt =====
-- The totals of the dashboard.
use drop_the_mic.Base.{
  ℕ, ◌+◌, ◌≡◌, refl, ap, ◌∙◌, String, false, Option, none, some, List, [], ◌∷◌, ◌++◌, arith, length,
  Bool-cases, ◌⊎◌, inl, inr, eqb, eqb_iff, All, ◌<◌, ltb, ltb→lt,
}
use mathlib.Core.List.{append-nil}
use native.Mathlib.Nat.{zero-add, add-zero, add_assoc}
use drop_the_mic.Api.{Summary, ChecklistPolicy}
use drop_the_mic.Policies.{of_status}
use drop_the_mic.Results.View.{count}
use drop_the_mic.Dashboard.{
  Aggregate, add_summary, aggregate, total_checks, zeros, progress_bar, bar_part,
}

-- The sum of a number of each policy.
abbrev pub sum_of : (ChecklistPolicy → ℕ) → List ChecklistPolicy → ℕ
sum_of f [] = 0
sum_of f (p ∷ rest) = f p + sum_of f rest

-- A count of the summary of a policy, 0 where the policy was not scanned.
abbrev pub counted : (Summary → ℕ) → ChecklistPolicy → ℕ
counted field p = count field (of_status (λ s. s.summary) p)

abbrev pub added : Aggregate → List ChecklistPolicy → Aggregate
added acc policies = record {
  pass = acc.pass + sum_of (counted (λ s. s.pass)) policies;
  warn = acc.warn + sum_of (counted (λ s. s.warn)) policies;
  fail = acc.fail + sum_of (counted (λ s. s.fail)) policies;
}

add_first :
    (acc : Aggregate) (o : Option Summary) (a b c : ℕ)
    → ◌≡◌ {A = Aggregate}
        (record {
          pass = (add_summary acc o).pass + a;
          warn = (add_summary acc o).warn + b;
          fail = (add_summary acc o).fail + c;
        })
        (record {
          pass = acc.pass + (count (λ s. s.pass) o + a);
          warn = acc.warn + (count (λ s. s.warn) o + b);
          fail = acc.fail + (count (λ s. s.fail) o + c);
        })
add_first acc none a b c = simp zero-add
add_first acc (some s) a b c = simp add_assoc

aggregate-added :
    (acc : Aggregate) (policies : List ChecklistPolicy)
    → aggregate acc policies ≡ added acc policies
unfolding aggregate
aggregate-added acc [] = simp add-zero
aggregate-added acc (p ∷ rest) =
    aggregate-added (add_summary acc (of_status (λ s. s.summary) p)) rest
    ∙ add_first acc (of_status (λ s. s.summary) p) (sum_of (counted (λ s. s.pass)) rest)
        (sum_of (counted (λ s. s.warn)) rest) (sum_of (counted (λ s. s.fail)) rest)

total_checks-sum :
    (sum : ℕ) (policies : List ChecklistPolicy)
    → total_checks sum policies ≡ sum + sum_of (λ p. length p.spec.checks) policies
unfolding total_checks
total_checks-sum sum [] = omega arith
total_checks-sum sum (p ∷ rest) = omega (arith, total_checks-sum (sum + length p.spec.checks) rest)

-- The totals are the sums over the policies: of the checks that they list, and of the counts of
-- their last scan, where a policy that was not scanned counts nothing.
pub totals_lem :
    (policies : List ChecklistPolicy)
    → ((aggregate zeros policies).pass ≡ sum_of (counted (λ s. s.pass)) policies)
      × ((aggregate zeros policies).warn ≡ sum_of (counted (λ s. s.warn)) policies)
      × ((aggregate zeros policies).fail ≡ sum_of (counted (λ s. s.fail)) policies)
      × (total_checks 0 policies ≡ sum_of (λ p. length p.spec.checks) policies)
totals_lem policies =
    let e = aggregate-added zeros policies in
    (
      ap (λ a. a.pass) e ∙ zero-add _,
      ap (λ a. a.warn) e ∙ zero-add _,
      ap (λ a. a.fail) e ∙ zero-add _,
      total_checks-sum 0 policies ∙ zero-add _,
    )

-- The sum of the parts of a bar, in the unit of which each is a fraction.
abbrev pub parts_sum : List ((ℕ × ℕ) × String) → ℕ
parts_sum [] = 0
parts_sum (part ∷ rest) = part.0.0 + parts_sum rest

abbrev pub IsPart : ℕ → (ℕ × ℕ) × String → Type 0
IsPart total part = (0 < part.0.0) × (part.0.1 ≡ total)

parts_sum-bar_part :
    (n total : ℕ) (color : String) (rest : List ((ℕ × ℕ) × String))
    → parts_sum (bar_part n total color ++ rest) ≡ n + parts_sum rest
parts_sum-bar_part n total color rest = elim (Bool-cases (ltb 0 n)) [
  | inl e ↦ rw e refl
  | inr e ↦ rw e (omega (arith, is_zero e))
]
  where
    is_zero : ltb 0 n ≡ false → n ≡ 0
    is_zero h = ground arith

All-bar_part :
    (n total : ℕ) (color : String) (rest : List ((ℕ × ℕ) × String))
    → All (IsPart total) rest
    → All (IsPart total) (bar_part n total color ++ rest)
All-bar_part n total color rest h = elim (Bool-cases (ltb 0 n)) [
  | inl e ↦ rw e ((ltb→lt 0 n e, refl), h)
  | inr e ↦ rw e h
]

sum_of_parts :
    (pass warn fail total : ℕ)
    → parts_sum (
        bar_part pass total "var(--success)"
        ++ (bar_part warn total "var(--warning)" ++ bar_part fail total "var(--danger)"))
      ≡ pass + warn + fail
sum_of_parts pass warn fail total = omega (
  arith,
  parts_sum-bar_part pass total "var(--success)"
      (bar_part warn total "var(--warning)" ++ bar_part fail total "var(--danger)"),
  parts_sum-bar_part warn total "var(--warning)" (bar_part fail total "var(--danger)"),
  last_part,
)
  where
    last_part : parts_sum (bar_part fail total "var(--danger)") ≡ fail
    last_part = ground arith

All-parts :
    (pass warn fail total : ℕ)
    → All (IsPart total) (
        bar_part pass total "var(--success)"
        ++ (bar_part warn total "var(--warning)" ++ bar_part fail total "var(--danger)"))
All-parts pass warn fail total = All-bar_part pass total "var(--success)" _ (
    All-bar_part warn total "var(--warning)" _
      (rw append-nil at (All-bar_part fail total "var(--danger)" [] tt)))

-- The bar of a policy is missing only where nothing was counted. Otherwise its parts are positive
-- fractions of the total, and add up to the whole bar.
pub progress_bar_lem :
    (pass warn fail : ℕ)
    → ((progress_bar pass warn fail ≡ none) × (pass + warn + fail ≡ 0))
      ⊎ ((parts : List ((ℕ × ℕ) × String)) × (progress_bar pass warn fail ≡ some parts)
          × (parts_sum parts ≡ pass + warn + fail)
          × All (IsPart (pass + warn + fail)) parts)
unfolding progress_bar
progress_bar_lem pass warn fail = elim (Bool-cases (eqb (pass + warn + fail) 0)) [
  | inl e ↦ rw e (inl (refl, (eqb_iff _ _).0 e))
  | inr e ↦ rw e (inr (_, refl, sum_of_parts pass warn fail _, All-parts pass warn fail _))
]
