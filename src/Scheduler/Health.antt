-- ===== src/Scheduler/Health.antt =====
-- What ui/src/pages/Policies.tsx shows of a policy after a scan, from the conditions that the scheduler sets.
use drop_the_mic.Base.{
  ℕ, ◌<◌, ◌≡◌, refl, sym, ap, ◌∙◌, subst, String, Bool, true, false, List, [], ◌∷◌, map, length,
  find, arith, if◌then◌else◌, eqb, leb, ◌==◌, eq_iff, inl, inr, Bool-cases, Option, none, some,
}
use drop_the_mic.Base.Num.{pos}
use drop_the_mic.Base.Sets.{IsDistinct, has}
use drop_the_mic.Base.Text.{◌<>◌}
use drop_the_mic.Base.Text.Decimal.{decimal}
use drop_the_mic.Api.{Condition, ChecklistPolicy}
use drop_the_mic.Policies.{conditions_of, is_true, error, healthy, health, health_of}
use drop_the_mic.Engine.{CheckResult, ScanSummary, ResultSpec, Policy, compute_summary}
use drop_the_mic.Engine.Summaries.{number_of, compute_summary_lem}
use drop_the_mic.Scheduler.{Cluster, PolicyStatus, is_positive, summary_text, summary_or_zero}
use drop_the_mic.Scheduler.Status.{scanned, condition, new_status}

-- The types of a policy's conditions differ (`listMapKey=type`).
abbrev pub IsKinded : List Condition → Type 0
IsKinded l = IsDistinct (map (λ (c : Condition). c.kind) l)

abbrev pub of_kind : String → List Condition → Option Condition
of_kind kind = find (λ (c : Condition). c.kind == kind)

abbrev pub Says : Condition → Option Condition → Type 0
Says c none = ⊥
Says c (some c') = (c'.status ≡ c.status) × ((c'.reason ≡ c.reason) × (c'.message ≡ c.message))

-- What apimachinery documents of `SetStatusCondition`: it adds the condition, or updates the one of its type, whose time
-- changes only with its status; it leaves those of other types as they are.
pub record IsSetter (set : Condition → List Condition → List Condition) : Type 0 where
  pub kinded : (c : Condition) (l : List Condition) → IsKinded l → IsKinded (set c l)
  pub says : (c : Condition) (l : List Condition) → IsKinded l → Says c (of_kind c.kind (set c l))
  pub others :
      (c : Condition) (l : List Condition) (kind : String)
      → IsKinded l
      → (c.kind == kind) ≡ false
      → of_kind kind (set c l) ≡ of_kind kind l

abbrev where_true : Option Condition → Option Condition
where_true none = none
where_true (some c) = if c.status == "True" then some c else none

find-absent :
    (kind : String) (l : List Condition)
    → has (map (λ (c : Condition). c.kind) l) kind ≡ false
    → find (is_true kind) l ≡ none
find-absent kind [] h = refl
find-absent kind (c ∷ l) h = ground (arith, find-absent kind l, h)

-- Where the types differ, only the condition of a type can be true for it.
find-is_true :
    (kind : String) (l : List Condition)
    → IsKinded l
    → find (is_true kind) l ≡ where_true (of_kind kind l)
find-is_true kind [] d = refl
find-is_true kind (c ∷ l) (e, d) = elim (Bool-cases (c.kind == kind)) [
  | inl k ↦
      rw k (kept (c.status == "True") (find-absent kind l (rw ((eq_iff c.kind kind).0 k) at e)))
  | inr k ↦ rw k (find-is_true kind l d)
]
  where
    kept :
        (b : Bool)
        → find (is_true kind) l ≡ none
        → (if b then some c else find (is_true kind) l) ≡ (if b then some c else none)
    kept true h = refl
    kept false h = h

-- The health of a policy by its conditions of the two types.
shown :
    (p : ChecklistPolicy) (degraded available : Condition)
    → IsKinded (conditions_of p)
    → of_kind "Degraded" (conditions_of p) ≡ some degraded
    → of_kind "Available" (conditions_of p) ≡ some available
    → health p ≡ health_of (where_true (some degraded)) (where_true (some available))
unfolding health
shown p degraded available k d a = rw (nonempty (conditions_of p) d) (ap2 d a)
  where
    nonempty :
        (l : List Condition) → of_kind "Degraded" l ≡ some degraded → eqb (length l) 0 ≡ false
    nonempty [] h = cc
    nonempty (c ∷ l) h = ground arith

    ap2 :
        of_kind "Degraded" (conditions_of p) ≡ some degraded
        → of_kind "Available" (conditions_of p) ≡ some available
        → health_of
            (find (is_true "Degraded") (conditions_of p))
            (find (is_true "Available") (conditions_of p))
          ≡ health_of (where_true (some degraded)) (where_true (some available))
    ap2 h h' = λ i.
        health_of ((find-is_true "Degraded" (conditions_of p) k ∙ ap where_true h) i)
          ((find-is_true "Available" (conditions_of p) k ∙ ap where_true h') i)

module _ (set : Condition → List Condition → List Condition) (h : IsSetter set) where
  -- Two conditions of different types are both there once they are set.
  both_set :
      (first second : Condition) (old : List Condition)
      → (second.kind == first.kind) ≡ false
      → IsKinded old
      → IsKinded (set second (set first old))
        × (Says first (of_kind first.kind (set second (set first old)))
            × Says second (of_kind second.kind (set second (set first old))))
  both_set first second old n k = (
    h.kinded second (set first old) (h.kinded first old k),
    (
      subst (Says first) (sym (h.others second (set first old) first.kind (h.kinded first old k) n))
          (h.says first old k),
      h.says second (set first old) (h.kinded first old k),
    ),
  )

Says-some :
    (c : Condition) (o : Option Condition)
    → Says c o
    → (c' : Condition) × ((o ≡ some c')
        × ((c'.status ≡ c.status) × ((c'.reason ≡ c.reason) × (c'.message ≡ c.message))))
Says-some c (some c') s = (c', (refl, s))
Says-some c none s = absurd s

error_shown :
    (d : Condition) (available : Option Condition)
    → d.status ≡ "True"
    → health_of (where_true (some d)) available ≡ error d.reason d.message d.last_transition_time
error_shown d available e = rw e refl

healthy_shown :
    (d a : Condition)
    → d.status ≡ "False"
    → a.status ≡ "True"
    → health_of (where_true (some d)) (where_true (some a))
      ≡ healthy a.message a.last_transition_time
healthy_shown d a e e' = rw (e, e') refl

module _ (p : ChecklistPolicy) (d a : Condition) (k : IsKinded (conditions_of p)) where
  failing_health :
      d.status ≡ "True"
      → Says d (of_kind "Degraded" (conditions_of p))
      → Says a (of_kind "Available" (conditions_of p))
      → (since : Option String) × (health p ≡ error d.reason d.message since)
  failing_health e sd sa =
      let (d', (fd, (td, (rd, md)))) = Says-some d _ sd in
      let (a', (fa, more)) = Says-some a _ sa in
      (
        d'.last_transition_time,
        shown p d' a' k fd fa
            ∙ error_shown d' (where_true (some a')) (td ∙ e)
            ∙ (λ i. error (rd i) (md i) d'.last_transition_time),
      )

  healthy_health :
      d.status ≡ "False"
      → a.status ≡ "True"
      → Says d (of_kind "Degraded" (conditions_of p))
      → Says a (of_kind "Available" (conditions_of p))
      → (since : Option String) × (health p ≡ healthy a.message since)
  healthy_health e e' sd sa =
      let (d', (fd, (td, more))) = Says-some d _ sd in
      let (a', (fa, (ta, (ra, ma)))) = Says-some a _ sa in
      (
        a'.last_transition_time,
        shown p d' a' k fd fa
            ∙ healthy_shown d' a' (td ∙ e) (ta ∙ e')
            ∙ (λ i. healthy (ma i) a'.last_transition_time),
      )

module _ {W : Type 0} (io : Cluster W) (policy : Policy) (s : ScanSummary) (t₁ t₂ : ℕ)
    (old : List Condition) (p : ChecklistPolicy) where
  -- The health that the conditions after a scan make, whichever were there.
  health-scanned :
      IsSetter io.set_condition
      → IsKinded old
      → conditions_of p ≡ scanned io policy s t₁ t₂ old
      → (since : Option String) × (health p ≡ (
          if is_positive s.fail
          then error "ChecksFailed" (summary_text s) since
          else healthy (summary_text s) since))
  health-scanned h k e = elim (Bool-cases (is_positive s.fail)) [
    | inl f ↦
        let a = cond "Available" "False" "ChecksFailed" t₂ in
        let d = cond "Degraded" "True" "ChecksFailed" t₁ in
        let (kk, (sd, sa)) =
          subst (λ l. IsKinded l × (Says d (of_kind "Degraded" l) × Says a (of_kind "Available" l)))
            (sym (e ∙ rw f refl)) (both_set io.set_condition h d a old refl k) in
        rw f (failing_health p d a kk refl sd sa)
    | inr f ↦
        let d = cond "Degraded" "False" "ScanCompleted" t₂ in
        let a = cond "Available" "True" "ScanCompleted" t₁ in
        let (kk, (sa, sd)) =
          subst (λ l. IsKinded l × (Says a (of_kind "Available" l) × Says d (of_kind "Degraded" l)))
            (sym (e ∙ rw f refl)) (both_set io.set_condition h a d old refl k) in
        rw f (healthy_health p d a kk refl refl sd sa)
  ]
    where
      cond : (kind status reason : String) → ℕ → Condition
      cond kind status reason now = condition io policy kind status reason (summary_text s) now

abbrev pub counts_text : List CheckResult → String
counts_text results =
    "Last scan: "
    <> decimal (number_of "PASS" results)
    <> " pass, "
    <> decimal (number_of "WARN" results)
    <> " warn, "
    <> decimal (number_of "FAIL" results)
    <> " fail"

summary_shown :
    (results : List CheckResult)
    → length results < 2147483648
    → (since : Option String)
    → (if is_positive (compute_summary results).fail
        then error "ChecksFailed" (summary_text (compute_summary results)) since
        else healthy (summary_text (compute_summary results)) since)
      ≡ (if leb 1 (number_of "FAIL" results)
          then error "ChecksFailed" (counts_text results) since
          else healthy (counts_text results) since)
summary_shown results h since = rw (compute_summary_lem results h) (
    ap
      (λ b.
        if b
        then error "ChecksFailed" (counts_text results) since
        else healthy (counts_text results) since)
      (test (number_of "FAIL" results)))
  where
    test : (n : ℕ) → is_positive (pos n) ≡ leb 1 n
    test n = ground arith

module _ {W : Type 0} (io : Cluster W) (policy : Policy) where
  -- Where `SetStatusCondition` does what is documented, and the types of the conditions differ that the policy has: with the
  -- status that the scheduler writes after a scan of less than 2^31 checks, the detail in the client shows
  -- the error "ChecksFailed" exactly if a verdict is FAIL, and otherwise that the policy is healthy, with the
  -- number of results of each verdict.
  pub health-new_status :
      (results : List CheckResult) (spec : ResultSpec) (now t₁ t₂ : ℕ) (name : String)
      (status : PolicyStatus) (p : ChecklistPolicy)
      → IsSetter io.set_condition
      → IsKinded status.conditions
      → length results < 2147483648
      → spec.summary ≡ some (compute_summary results)
      → conditions_of p ≡ (new_status io policy spec now t₁ t₂ name status).conditions
      → (since : Option String) × (health p ≡ (
          if leb 1 (number_of "FAIL" results)
          then error "ChecksFailed" (counts_text results) since
          else healthy (counts_text results) since))
  health-new_status results spec now t₁ t₂ name status p h k n e c =
      let (since, shows) =
        health-scanned io policy (compute_summary results) t₁ t₂ status.conditions p h k
          (c ∙ ap (λ s. scanned io policy (summary_or_zero s) t₁ t₂ status.conditions) e) in
      (since, shows ∙ summary_shown results n since)
