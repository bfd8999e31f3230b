-- ===== src/Alerts/Lifecycle.antt =====
-- The transitions of one check, in the order in which they are sent (the newest first).
use mathlib.Core.Option.{Option, none, some}
use drop_the_mic.Base.{
  ℕ, ◌≡◌, refl, sym, subst, String, Bool, true, false, not, ◌&&◌, List, [], ◌∷◌, if◌then◌else◌,
  ◌==◌, Bool-cases, inl, inr,
}
use drop_the_mic.Base.Num.{ℤ, pos, ltb_ℤ}
use drop_the_mic.Alerts.{
  AlertState, unknown, firing, resolved, escalated, CheckState, Store, Transition, transition,
  get_or_create, on_fail, on_pass, new_store, next_int32, retried, on_fail_in, is_failing,
}
use drop_the_mic.Alerts.History.{
  Observation, outcome, observe, after, concerns, moved, outcome_lem, get_or_create-concerns,
  get_or_create-observe, get_or_create-new_store,
}

-- The lifecycle of an alert.
pub data Moves : AlertState → AlertState → Type 0 where
  fires : Moves unknown firing
  returns : Moves resolved firing
  escalates : Moves firing escalated
  recovers : Moves firing resolved
  calms : Moves escalated resolved

pub data IsTrail : AlertState → AlertState → List Transition → Type 0 where
  start : {a : AlertState} → IsTrail a a []
  then_sent :
      {a : AlertState} {ts : List Transition} (t : Transition)
      → IsTrail a t.from ts
      → Moves t.from t.to
      → t.state.state ≡ t.to
      → IsTrail a t.to (t ∷ ts)

abbrev pub keep_sent :
    (policy check : String) → Option Transition → List Transition → List Transition
keep_sent policy check none ts = ts
keep_sent policy check (some t) ts =
    if t.policy_ref == policy && t.check_id == check then t ∷ ts else ts

abbrev pub sent : (policy check : String) → List Observation → Store → List Transition
sent policy check [] s = []
sent policy check (o ∷ earlier) s =
    keep_sent policy check (outcome o (after earlier s)).1 (sent policy check earlier s)

data IsMove (old : AlertState) : CheckState × Option AlertState → Type 0 where
  stays : (c : CheckState) → c.state ≡ old → IsMove old (c, none)
  moves : (c : CheckState) (to : AlertState) → Moves old to → c.state ≡ to → IsMove old (c, some to)

IsMove-retried :
    (threshold now : ℕ) (c : CheckState)
    → c.state ≡ firing
    → IsMove firing (retried threshold now c)
IsMove-retried threshold now c e = either (not (ltb_ℤ c.retry_count (pos threshold)))
  where
    either :
        (b : Bool)
        → IsMove firing (if b then (record c { state = escalated }, some escalated) else (c, none))
    either true = moves _ escalated escalates refl
    either false = stays c e

IsMove-on_fail_in :
    (a : AlertState) (threshold now : ℕ) (c : CheckState)
    → c.state ≡ a
    → IsMove a (on_fail_in a threshold now c)
IsMove-on_fail_in unknown threshold now c e = moves _ firing fires refl
IsMove-on_fail_in resolved threshold now c e = moves _ firing returns refl
IsMove-on_fail_in firing threshold now c e =
    IsMove-retried threshold now
      (record c { retry_count = next_int32 c.retry_count; last_updated = now }) e
IsMove-on_fail_in escalated threshold now c e = stays _ e

IsMove-passed :
    (a : AlertState) (now : ℕ) (c : CheckState)
    → c.state ≡ a
    → IsMove a (
        if is_failing a
        then (record c { state = resolved; retry_count = pos 0; last_updated = now }, some resolved)
        else (c, none))
IsMove-passed unknown now c e = stays c e
IsMove-passed resolved now c e = stays c e
IsMove-passed firing now c e = moves _ resolved recovers refl
IsMove-passed escalated now c e = moves _ resolved calms refl

IsMove-moved :
    (threshold : ℕ) (o : Observation) (c : CheckState) → IsMove c.state (moved threshold o c)
unfolding on_fail on_pass
IsMove-moved threshold o c = either o.failed
  where
    either : (b : Bool) → IsMove c.state (if b then on_fail threshold o.now c else on_pass o.now c)
    either true = IsMove-on_fail_in c.state threshold o.now c refl
    either false = IsMove-passed c.state o.now c refl

module _ (policy check : String) {a : AlertState} {ts : List Transition} where
  -- What a call about the check adds to its trail.
  IsTrail-keep_sent :
      (policy' check' : String) (old : AlertState) (step : CheckState × Option AlertState)
      → (policy' == policy && check' == check) ≡ true
      → IsMove old step
      → IsTrail a old ts
      → IsTrail a step.0.state (keep_sent policy check (transition policy' check' old step) ts)
  IsTrail-keep_sent policy' check' old _ same (stays c e) h = subst (λ k. IsTrail a k ts) (sym e) h
  IsTrail-keep_sent policy' check' old _ same (moves c to m e) h =
      rw same (subst (λ k. IsTrail a k (t ∷ ts)) (sym e) (then_sent t h m e))
    where
      t : Transition
      t = record { check_id = check'; policy_ref = policy'; from = old; to = to; state = c }

keep_sent-transition :
    (policy check policy' check' : String) (old : AlertState)
    (step : CheckState × Option AlertState) (ts : List Transition)
    → (policy' == policy && check' == check) ≡ false
    → keep_sent policy check (transition policy' check' old step) ts ≡ ts
keep_sent-transition policy check policy' check' old (c, none) ts h = refl
keep_sent-transition policy check policy' check' old (c, some to) ts h = rw h refl

-- What is sent for a call, whichever check it is about.
module _ (policy check : String) {a : AlertState} {ts : List Transition} where
  IsTrail-observe :
      (o : Observation) (s : Store)
      → IsTrail a (get_or_create policy check s).state ts
      → IsTrail a
          (get_or_create policy check (observe o s)).state
          (keep_sent policy check (outcome o s).1 ts)
  IsTrail-observe o s h = elim (Bool-cases (concerns policy check o)) [
    | inl e ↦
        rw
          (
            get_or_create-observe policy check o s,
            outcome_lem o s,
            get_or_create-concerns policy check o s e,
            e,
          )
          (IsTrail-keep_sent policy check o.policy o.check _ _ e
            (IsMove-moved s.escalation_threshold o (get_or_create policy check s)) h)
    | inr e ↦
        rw (get_or_create-observe policy check o s, outcome_lem o s, e)
          (subst (IsTrail a _) (sym (keep_sent-transition policy check o.policy o.check _ _ ts e))
            h)
  ]

-- For a new store with any threshold: the transitions that were sent for a check are a trail of steps of the
-- lifecycle from UNKNOWN to the state that the check is in.
pub IsTrail-sent :
    (policy check : String) (history : List Observation) (threshold : ℤ)
    → IsTrail unknown
        (get_or_create policy check (after history (new_store threshold))).state
        (sent policy check history (new_store threshold))
IsTrail-sent policy check [] threshold =
    subst (λ (c : CheckState). IsTrail unknown c.state [])
      (sym (get_or_create-new_store policy check threshold)) start
IsTrail-sent policy check (o ∷ earlier) threshold =
    IsTrail-observe policy check o (after earlier (new_store threshold))
      (IsTrail-sent policy check earlier threshold)
