-- ===== src/Alerts/History.antt =====
-- What a history of calls makes of the store, one check at a time. A history has the newest observation first.
use mathlib.Core.Option.{Option, some}
use drop_the_mic.Base.{
  ℕ, zero, suc, ◌≡◌, refl, ap, ◌∙◌, String, Bool, true, false, ◌&&◌, List, [], ◌∷◌, arith,
  if◌then◌else◌, ◌==◌, eq_iff,
}
use drop_the_mic.Base.Num.{ℤ, pos, negsuc}
use drop_the_mic.Alerts.{
  AlertState, CheckState, Store, Transition, recorded, get_or_create, write, get_state, record_fail,
  record_pass, on_fail, on_pass, or_fresh, fresh, new_store,
}
use drop_the_mic.Alerts.Single.{get_state-write}

pub record Observation : Type 0 where
  pub policy : String
  pub check : String
  pub failed : Bool
  pub now : ℕ

abbrev pub outcome : Observation → Store → Store × Option Transition
outcome o s =
    if o.failed then record_fail o.policy o.check o.now s else record_pass o.policy o.check o.now s

abbrev pub observe : Observation → Store → Store
observe o s = (outcome o s).0

-- The store after a history.
abbrev pub after : List Observation → Store → Store
after [] s = s
after (o ∷ earlier) s = observe o (after earlier s)

abbrev pub concerns : String → String → Observation → Bool
concerns policy check o = o.policy == policy && o.check == check

get_or_create-write :
    (policy check policy' check' : String) (c : CheckState) (s : Store)
    → get_or_create policy' check' (write policy check c s)
      ≡ (if policy == policy' && check == check' then c else get_or_create policy' check' s)
unfolding get_or_create get_state
get_or_create-write policy check policy' check' c s =
    ap or_fresh (get_state-write policy check policy' check' c s)
    ∙ inside (policy == policy' && check == check')
  where
    inside :
        (b : Bool)
        → or_fresh (if b then some c else get_state policy' check' s)
          ≡ (if b then c else get_or_create policy' check' s)
    inside true = refl
    inside false = refl

-- What an observation makes of the state of any check.
abbrev pub moved : (threshold : ℕ) → Observation → CheckState → CheckState × Option AlertState
moved threshold o c = if o.failed then on_fail threshold o.now c else on_pass o.now c

abbrev pub observed : (threshold : ℕ) → Observation → CheckState → CheckState
observed threshold o c = (moved threshold o c).0

pub outcome_lem :
    (o : Observation) (s : Store)
    → outcome o s
      ≡ recorded o.policy o.check s
          (get_or_create o.policy o.check s)
          (moved s.escalation_threshold o (get_or_create o.policy o.check s))
unfolding record_fail record_pass
outcome_lem o s = either o.failed
  where
    old : CheckState
    old = get_or_create o.policy o.check s

    either :
        (b : Bool)
        → (if b then record_fail o.policy o.check o.now s else record_pass o.policy o.check o.now s)
          ≡ recorded o.policy o.check s old
              (if b then on_fail s.escalation_threshold o.now old else on_pass o.now old)
    either true = refl
    either false = refl

pub observe-write :
    (o : Observation) (s : Store)
    → observe o s
      ≡ write o.policy o.check
          (observed s.escalation_threshold o (get_or_create o.policy o.check s))
          s
observe-write o s = ap (λ (r : Store × Option Transition). r.0) (outcome_lem o s)

observe-escalation_threshold :
    (o : Observation) (s : Store) → (observe o s).escalation_threshold ≡ s.escalation_threshold
unfolding write
observe-escalation_threshold o s = ap (λ (t : Store). t.escalation_threshold) (observe-write o s)

pub after-escalation_threshold :
    (history : List Observation) (s : Store)
    → (after history s).escalation_threshold ≡ s.escalation_threshold
after-escalation_threshold [] s = refl
after-escalation_threshold (o ∷ earlier) s =
    observe-escalation_threshold o (after earlier s) ∙ after-escalation_threshold earlier s

pub get_or_create-concerns :
    (policy check : String) (o : Observation) (s : Store)
    → concerns policy check o ≡ true
    → get_or_create o.policy o.check s ≡ get_or_create policy check s
get_or_create-concerns policy check o s e =
    both (o.policy == policy) (o.check == check) e (λ p. (eq_iff o.policy policy).0 p)
      (λ c. (eq_iff o.check check).0 c)
  where
    both :
        (b b' : Bool)
        → (b && b') ≡ true
        → (b ≡ true → o.policy ≡ policy)
        → (b' ≡ true → o.check ≡ check)
        → get_or_create o.policy o.check s ≡ get_or_create policy check s
    both true true h p c =
        ap (λ k. get_or_create k o.check s) (p refl) ∙ ap (λ k. get_or_create policy k s) (c refl)
    both true false h p c = ground (arith, h)
    both false b' h p c = ground (arith, h)

pub get_or_create-observe :
    (policy check : String) (o : Observation) (s : Store)
    → get_or_create policy check (observe o s) ≡ (
        if concerns policy check o
        then observed s.escalation_threshold o (get_or_create policy check s)
        else get_or_create policy check s)
get_or_create-observe policy check o s =
    ap (get_or_create policy check) (observe-write o s)
    ∙ get_or_create-write o.policy o.check policy check _ s
    ∙ one (concerns policy check o) (get_or_create-concerns policy check o s)
  where
    one :
        (b : Bool)
        → (b ≡ true → get_or_create o.policy o.check s ≡ get_or_create policy check s)
        → (if b
            then observed s.escalation_threshold o (get_or_create o.policy o.check s)
            else get_or_create policy check s)
          ≡ (if b
              then observed s.escalation_threshold o (get_or_create policy check s)
              else get_or_create policy check s)
    one true h = ap (observed s.escalation_threshold o) (h refl)
    one false h = refl

pub get_or_create-new_store :
    (policy check : String) (n : ℤ) → get_or_create policy check (new_store n) ≡ fresh
unfolding get_or_create new_store
get_or_create-new_store policy check (pos zero) = refl
get_or_create-new_store policy check (pos (suc n)) = refl
get_or_create-new_store policy check (negsuc n) = refl
