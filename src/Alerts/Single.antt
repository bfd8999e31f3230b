-- ===== src/Alerts/Single.antt =====
-- A call concerns one check of one policy, and no other.
use mathlib.Core.Option.{Option, some}
use drop_the_mic.Base.{
  ◌≡◌, refl, sym, ap, ◌∙◌, String, Bool, true, false, ◌&&◌, if◌then◌else◌, ◌==◌, eq_iff,
}
use drop_the_mic.Base.Maps.{Map, lookup, store, lookup-store}
use drop_the_mic.Alerts.{CheckState, Store, write, get_state, states_in}

lookup-states_in :
    (here : Bool) (check other : String) (c : CheckState) (old : Option (Map CheckState))
    (rest : Option (Map CheckState))
    → (here ≡ true → rest ≡ old)
    → lookup other (states_in (if here then some (store check c (states_in old)) else rest))
      ≡ (if here && check == other then some c else lookup other (states_in rest))
lookup-states_in true check other c old rest e =
    lookup-store check other c (states_in old)
    ∙ ap
        (λ (r : Option (Map CheckState)).
          if check == other then some c else lookup other (states_in r))
        (sym (e refl))
lookup-states_in false check other c old rest e = refl

-- What is written for a check of a policy is found there, and what is found elsewhere does not change.
pub get_state-write :
    (policy check policy' check' : String) (c : CheckState) (s : Store)
    → get_state policy' check' (write policy check c s)
      ≡ (if policy == policy' && check == check' then some c else get_state policy' check' s)
unfolding get_state write
get_state-write policy check policy' check' c s =
    ap (λ o. lookup check' (states_in o))
      (lookup-store policy policy' (store check c (states_in (lookup policy s.checks))) s.checks)
    ∙ lookup-states_in (policy == policy') check check' c (lookup policy s.checks)
        (lookup policy' s.checks)
        (λ e. ap (λ k. lookup k s.checks) (sym ((eq_iff policy policy').0 e)))
