-- ===== src/Alerts.antt =====
-- operator/internal/state/store.go: the alert state of every check of every policy, and the transitions
-- for which a notification is sent. `now` is `time.Now()` in a call; 0 is the zero time. The mutex makes
-- each call one step. A pointer into the map is read and written back.
pub mod Single
pub mod History
pub mod States
pub mod Lifecycle
pub mod Failing
use mathlib.Core.Option.{Option, none, some}
use drop_the_mic.Base.{
  ℕ, zero, suc, ◌+◌, String, Bool, true, false, not, ◌||◌, List, [], ◌∷◌, if◌then◌else◌, eqb,
}
use drop_the_mic.Base.Num.{ℤ, pos, negsuc, ltb_ℤ}
use drop_the_mic.Base.Maps.{Map, lookup, store}

pub data AlertState : Type 0 where
  unknown firing resolved escalated : AlertState

pub record CheckState : Type 0 where
  pub state : AlertState
  pub failed_since : ℕ
  pub retry_count : ℤ
  pub last_updated : ℕ

pub record Transition : Type 0 where
  pub check_id : String
  pub policy_ref : String
  pub from : AlertState
  pub to : AlertState
  pub state : CheckState

pub record Store : Type 0 where
  pub checks : Map (Map CheckState)
  pub escalation_threshold : ℕ

-- The threshold is positive from here on, and so kept as a natural number.
unfoldable pub new_store : ℤ → Store
new_store (pos zero) = record { checks = []; escalation_threshold = 5 }
new_store (pos (suc n)) = record { checks = []; escalation_threshold = suc n }
new_store (negsuc n) = record { checks = []; escalation_threshold = 5 }

-- `++` on an `int32`, which wraps around.
abbrev pub next_int32 : ℤ → ℤ
next_int32 (pos n) = if eqb n 2147483647 then negsuc 2147483647 else pos (n + 1)
next_int32 (negsuc zero) = pos 0
next_int32 (negsuc (suc n)) = negsuc n

abbrev pub fresh : CheckState
fresh = record { state = unknown; failed_since = 0; retry_count = pos 0; last_updated = 0 }

abbrev pub states_in : Option (Map CheckState) → Map CheckState
states_in none = []
states_in (some m) = m

abbrev pub or_fresh : Option CheckState → CheckState
or_fresh none = fresh
or_fresh (some c) = c

-- `getOrCreate`: the state that the pointer shows, and what is left when it is written.
unfoldable pub get_or_create : (policy check : String) → Store → CheckState
get_or_create policy check s = or_fresh (lookup check (states_in (lookup policy s.checks)))

unfoldable pub write : (policy check : String) → CheckState → Store → Store
write policy check c s = record s {
  checks = store policy (store check c (states_in (lookup policy s.checks))) s.checks;
}

-- The body of `RecordFail`: the state that it leaves, and the one that it moves to.
abbrev pub retried : (threshold now : ℕ) → CheckState → CheckState × Option AlertState
retried threshold now c =
    if not (ltb_ℤ c.retry_count (pos threshold))
    then (record c { state = escalated }, some escalated)
    else (c, none)

abbrev pub on_fail_in :
    AlertState → (threshold now : ℕ) → CheckState → CheckState × Option AlertState
on_fail_in firing threshold now c =
    retried threshold now (record c { retry_count = next_int32 c.retry_count; last_updated = now })
on_fail_in escalated threshold now c =
    (record c { retry_count = next_int32 c.retry_count; last_updated = now }, none)
on_fail_in _ threshold now c = (
  record { state = firing; failed_since = now; retry_count = pos 0; last_updated = now },
  some firing,
)

unfoldable pub on_fail : (threshold now : ℕ) → CheckState → CheckState × Option AlertState
on_fail threshold now c = on_fail_in c.state threshold now c

abbrev pub is_failing : AlertState → Bool
is_failing firing = true
is_failing escalated = true
is_failing _ = false

unfoldable pub on_pass : (now : ℕ) → CheckState → CheckState × Option AlertState
on_pass now c =
    if is_failing c.state
    then (record c { state = resolved; retry_count = pos 0; last_updated = now }, some resolved)
    else (c, none)

abbrev pub transition :
    (policy check : String) → AlertState → CheckState × Option AlertState → Option Transition
transition policy check from (c, none) = none
transition policy check from (c, some to) =
    some (record { check_id = check; policy_ref = policy; from = from; to = to; state = c })

abbrev pub recorded :
    (policy check : String)
    → Store
    → CheckState
    → CheckState × Option AlertState
    → Store × Option Transition
recorded policy check s old step =
    (write policy check step.0 s, transition policy check old.state step)

unfoldable pub record_fail : (policy check : String) → (now : ℕ) → Store → Store × Option Transition
unfolding on_fail
record_fail policy check now s =
    let old = get_or_create policy check s in
    recorded policy check s old (on_fail s.escalation_threshold now old)

unfoldable pub record_pass : (policy check : String) → (now : ℕ) → Store → Store × Option Transition
unfolding on_pass
record_pass policy check now s =
    let old = get_or_create policy check s in recorded policy check s old (on_pass now old)

-- `GetState`
unfoldable pub get_state : (policy check : String) → Store → Option CheckState
get_state policy check s = lookup check (states_in (lookup policy s.checks))

abbrev pub failing_of : Map CheckState → List String
failing_of [] = []
failing_of ((id, c) ∷ m) = let rest = failing_of m in if is_failing c.state then id ∷ rest else rest

-- `FailedChecks`
unfoldable pub failed_checks : (policy : String) → Store → List String
failed_checks policy s = failing_of (states_in (lookup policy s.checks))

-- `RestoreFromFailedSince`
unfoldable pub restore_from_failed_since :
    (policy check : String) → (failed_since now : ℕ) → Store → Store
restore_from_failed_since policy check failed_since now s =
    write policy check
      (record (get_or_create policy check s) {
        state = firing;
        failed_since = failed_since;
        last_updated = now;
      })
      s
