-- ===== src/Policies/Conditions.antt =====
-- The condition that the list of policies shows, and the health that the detail shows.
use drop_the_mic.Base.{
  suc, ◌≡◌, refl, subst, Bool, true, false, Option, none, some, List, [], ◌∷◌, find, length, eqb,
  if◌then◌else◌, eq_iff, arith, Bool-cases, inl, inr,
}
use mathlib.Core.Option.{some-injective}
use drop_the_mic.Api.{Condition, ChecklistPolicy}
use drop_the_mic.Badge.{Variant}
use drop_the_mic.Policies.{
  conditions_of, is_true, or_option, first, latest_condition, ConditionBadge, badge_of,
  condition_badge, Health, pending, error, healthy, nothing, health_of, health,
}

-- The badge of the list says what the card of the detail says: a dash where the card says that no
-- scan was made, "Error" where it shows an error, "Healthy" where it says so, and a neutral badge
-- where there is no card.
abbrev pub Agrees : Health → Option ConditionBadge → Type 0
Agrees pending none = Unit
Agrees (error reason message since) (some b) =
    (b.badge ≡ record { variant = Variant.fail; text = "Error" }) × (b.title ≡ some message)
Agrees (healthy message since) (some b) =
    b.badge ≡ record { variant = Variant.pass; text = "Healthy" }
Agrees nothing (some b) = b.badge.variant ≡ Variant.neutral
Agrees _ _ = ⊥

find-passes :
    (p : Condition → Bool) (l : List Condition) (c : Condition) → find p l ≡ some c → p c ≡ true
find-passes p [] c e = cc
find-passes p (d ∷ l) c e = elim (Bool-cases (p d)) [
  | inl h ↦ subst (λ x. p x ≡ true) (some-injective d c (rw h at e)) h
  | inr h ↦ find-passes p l c (rw h at e)
]

degraded_badge :
    (c : Condition)
    → is_true "Degraded" c ≡ true
    → Agrees (error c.reason c.message c.last_transition_time) (some (badge_of c))
degraded_badge c e = rw e (refl, refl)

not_degraded : (c : Condition) → is_true "Available" c ≡ true → is_true "Degraded" c ≡ false
not_degraded c e =
    ground
      (arith, eq_iff c.kind "Available", eq_iff c.kind "Degraded", eq_iff "Available" "Degraded")

available_badge :
    (c : Condition)
    → is_true "Available" c ≡ true
    → Agrees (healthy c.message c.last_transition_time) (some (badge_of c))
available_badge c e = rw (not_degraded c e, e) refl

find-none-head :
    (p : Condition → Bool) (c : Condition) (l : List Condition)
    → find p (c ∷ l) ≡ none
    → p c ≡ false
find-none-head p c l e = elim (Bool-cases (p c)) [
  | inl h ↦ absurd (some_is_not_none (rw h at e))
  | inr h ↦ h
]
  where
    some_is_not_none : some c ≡ none → ⊥
    some_is_not_none q = cc

neutral_badge :
    (c : Condition)
    → is_true "Degraded" c ≡ false
    → is_true "Available" c ≡ false
    → Agrees nothing (some (badge_of c))
neutral_badge c d a = rw (d, a) refl

abbrev shown : Option Condition → Option ConditionBadge
shown o = elim o [ none ↦ none | some c ↦ some (badge_of c) ]

views :
    (degraded available : Option Condition) (c : Condition)
    → ((d : Condition) → degraded ≡ some d → is_true "Degraded" d ≡ true)
    → ((a : Condition) → available ≡ some a → is_true "Available" a ≡ true)
    → (degraded ≡ none → is_true "Degraded" c ≡ false)
    → (available ≡ none → is_true "Available" c ≡ false)
    → Agrees
        (health_of degraded available)
        (shown (or_option degraded (or_option available (some c))))
views (some d) available c p q r s = degraded_badge d (p d refl)
views none (some a) c p q r s = available_badge a (q a refl)
views none none c p q r s = neutral_badge c (r refl) (s refl)

agree :
    (l : List Condition)
    → Agrees
        (if eqb (length l) 0
          then pending
          else health_of (find (is_true "Degraded") l) (find (is_true "Available") l))
        (shown (
          or_option
            (find (is_true "Degraded") l)
            (or_option (find (is_true "Available") l) (first l))))
agree [] = tt
agree (c ∷ l) =
    let not_empty : eqb (suc (length l)) 0 ≡ false = ground arith in
    rw not_empty (
      views (find (is_true "Degraded") (c ∷ l)) (find (is_true "Available") (c ∷ l)) c
        (find-passes (is_true "Degraded") (c ∷ l)) (find-passes (is_true "Available") (c ∷ l))
        (find-none-head (is_true "Degraded") c l) (find-none-head (is_true "Available") c l))

-- The list and the detail never disagree on the condition of a policy.
pub condition_badge-health : (p : ChecklistPolicy) → Agrees (health p) (condition_badge p)
unfolding condition_badge health latest_condition
condition_badge-health p = agree (conditions_of p)
