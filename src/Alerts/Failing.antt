-- ===== src/Alerts/Failing.antt =====
-- `FailedChecks`, from what was observed. `IsKeyed`: each map of a policy holds a check once, as a Go map does.
use mathlib.Core.Option.{none, some}
use drop_the_mic.Base.{
  ℕ, zero, suc, ◌≤◌, ◌≡◌, refl, sym, ap, subst, ◌∙◌, String, Bool, true, false, List, [], ◌∷◌,
  arith, if◌then◌else◌, ◌==◌, eq_iff, leb,
}
use drop_the_mic.Base.Maps.{Map, lookup, store, keys_of, lookup-store, IsDistinct-keys_of-store}
use drop_the_mic.Base.Sets.{IsDistinct, has}
use drop_the_mic.Base.Num.{ℤ, pos, negsuc}
use drop_the_mic.Alerts.{
  CheckState, Store, get_or_create, write, or_fresh, states_in, new_store, is_failing, failing_of,
  failed_checks,
}
use drop_the_mic.Alerts.History.{Observation, after, observe-write}
use drop_the_mic.Alerts.States.{fails, state_for, get_or_create-after}

abbrev IsKeyed : Store → Type 0
IsKeyed s = (policy : String) → IsDistinct (keys_of (states_in (lookup policy s.checks)))

IsKeyed-new_store : (n : ℤ) → IsKeyed (new_store n)
unfolding new_store
IsKeyed-new_store (pos zero) policy = tt
IsKeyed-new_store (pos (suc n)) policy = tt
IsKeyed-new_store (negsuc n) policy = tt

IsKeyed-write :
    (policy check : String) (c : CheckState) (s : Store)
    → IsKeyed s
    → IsKeyed (write policy check c s)
unfolding write
IsKeyed-write policy check c s h policy' =
    subst (λ m. IsDistinct (keys_of (states_in m)))
      (sym
        (lookup-store policy policy' (store check c (states_in (lookup policy s.checks))) s.checks))
      (either (policy == policy'))
  where
    either :
        (b : Bool)
        → IsDistinct (
            keys_of (
              states_in (
                if b
                then some (store check c (states_in (lookup policy s.checks)))
                else lookup policy' s.checks)))
    either true = IsDistinct-keys_of-store check c _ (h policy)
    either false = h policy'

IsKeyed-after : (history : List Observation) (s : Store) → IsKeyed s → IsKeyed (after history s)
IsKeyed-after [] s h = h
IsKeyed-after (o ∷ earlier) s h =
    subst IsKeyed (sym (observe-write o (after earlier s)))
      (IsKeyed-write _ _ _ _ (IsKeyed-after earlier s h))

has-failing_of-absent :
    (check : String) (m : Map CheckState)
    → has (keys_of m) check ≡ false
    → has (failing_of m) check ≡ false
has-failing_of-absent check [] h = refl
has-failing_of-absent check ((id, c) ∷ m) h = ground (arith, has-failing_of-absent check m)

lookup-absent :
    (check : String) (m : Map CheckState) → has (keys_of m) check ≡ false → lookup check m ≡ none
lookup-absent check [] h = refl
lookup-absent check ((id, c) ∷ m) h =
    ground (arith, lookup-absent check m, eq_iff id check, eq_iff check id)

has-failing_of :
    (check : String) (m : Map CheckState)
    → IsDistinct (keys_of m)
    → has (failing_of m) check ≡ is_failing (or_fresh (lookup check m)).state
has-failing_of check [] d = refl
has-failing_of check ((id, c) ∷ m) (e, d) = ground (
  arith,
  has-failing_of check m d,
  has-failing_of-absent check m,
  eq_iff id check,
  eq_iff check id,
)

IsDistinct-failing_of : (m : Map CheckState) → IsDistinct (keys_of m) → IsDistinct (failing_of m)
IsDistinct-failing_of [] d = tt
IsDistinct-failing_of ((id, c) ∷ m) (e, d) =
    ground (arith, IsDistinct-failing_of m d, has-failing_of-absent id m e)

is_failing-state_for :
    (threshold n : ℕ) (before : Bool) → is_failing (state_for threshold n before) ≡ leb 1 n
is_failing-state_for threshold zero true = refl
is_failing-state_for threshold zero false = refl
is_failing-state_for threshold (suc n) before = ground arith

-- In a store that is new, with a positive threshold, after any observations: the failing checks of a policy
-- are listed without repetition, and they are those whose last observation is a failure.
pub has-failed_checks-after :
    (policy check : String) (history : List Observation) (threshold : ℕ)
    → 1 ≤ threshold
    → threshold ≤ 2147483647
    → (has (failed_checks policy (after history (new_store (pos threshold)))) check
        ≡ leb 1 (fails policy check history))
      × IsDistinct (failed_checks policy (after history (new_store (pos threshold))))
unfolding failed_checks get_or_create
has-failed_checks-after policy check history threshold lo hi = (
  has-failing_of check _ (keyed policy)
      ∙ ap is_failing (get_or_create-after policy check history threshold lo hi).0
      ∙ is_failing-state_for threshold _ _,
  IsDistinct-failing_of _ (keyed policy),
)
  where
    keyed : IsKeyed (after history (new_store (pos threshold)))
    keyed = IsKeyed-after history _ (IsKeyed-new_store (pos threshold))
