-- ===== src/Policies/Deletion.antt =====
-- Which policies a session on the page deletes.
use mathlib.Core.List.{Memᴰ}
use mathlib.Core.List.Memᴰ
use drop_the_mic.Base.{
  ◌≡◌, ◌∙◌, subst, String, Option, none, some, List, [], ◌∷◌, Option-cases, inl, inr, ◌⊎◌,
}
use drop_the_mic.Client.Endpoints.{Endpoint, delete_policy, run_now}
use drop_the_mic.Policies.{
  State, initial, Action, select, back, new, close_create, close_delete, confirm_delete, ask_delete,
  run, act,
}

abbrev pub add_call : Option Endpoint → List Endpoint → List Endpoint
add_call none calls = calls
add_call (some e) calls = e ∷ calls

-- The calls that a session makes, in their order.
abbrev pub calls_of : State → List Action → List Endpoint
calls_of st [] = []
calls_of st (a ∷ rest) = add_call (act st a).1 (calls_of (act st a).0 rest)

abbrev IsAsked : String → String → State → List Action → Type 0
IsAsked ns name st actions =
    (st.delete_target ≡ some (ns, name)) ⊎ Memᴰ (ask_delete ns name) actions

later :
    (st : State) {ns name : String} {a : Action} {rest : List Action}
    → IsAsked ns name st rest
    → IsAsked ns name st (a ∷ rest)
later st (inl e) = inl e
later st (inr m) = inr (Memᴰ.tail m)

ask_of_target :
    (ns name n m : String)
    → ◌≡◌ {A = Option (String × String)} (some (n, m)) (some (ns, name))
    → ask_delete ns name ≡ ask_delete n m
ask_of_target ns name n m e = cc

run_is_not_delete : {ns name n m : String} → delete_policy ns name ≡ run_now n m → ⊥
run_is_not_delete e = cc

target_of_call :
    (ns name n m : String)
    → delete_policy ns name ≡ delete_policy n m
    → ◌≡◌ {A = Option (String × String)} (some (n, m)) (some (ns, name))
target_of_call ns name n m e = cc

none_is_not_some :
    {target : String × String} → ◌≡◌ {A = Option (String × String)} none (some target) → ⊥
none_is_not_some e = cc

confirm_none : (st : State) → st.delete_target ≡ none → act st confirm_delete ≡ (st, none)
unfolding act
confirm_none st e = rw e

confirm_some :
    (st : State) (target : String × String)
    → st.delete_target ≡ some target
    → act st confirm_delete
      ≡ (record st { delete_target = none }, some (delete_policy target.0 target.1))
unfolding act
confirm_some st target e = rw e

-- Every deletion that is called was asked for in the session, or stood in the dialog at its start.
asked :
    (actions : List Action) (st : State) (ns name : String)
    → Memᴰ (delete_policy ns name) (calls_of st actions)
    → IsAsked ns name st actions
unfolding act
asked [] st ns name m = elim m [ ]
asked (select p ∷ rest) st ns name m = later st (asked rest _ ns name m)
asked (back ∷ rest) st ns name m = later st (asked rest _ ns name m)
asked (new ∷ rest) st ns name m = later st (asked rest _ ns name m)
asked (close_create ∷ rest) st ns name m = later st (asked rest _ ns name m)
asked (close_delete ∷ rest) st ns name m = elim (asked rest _ ns name m) [
  | inl e ↦ absurd (none_is_not_some e)
  | inr k ↦ inr (Memᴰ.tail k)
]
asked (ask_delete n k ∷ rest) st ns name m = elim (asked rest _ ns name m) [
  | inl e ↦ inr (Memᴰ.head (ask_of_target ns name n k e))
  | inr l ↦ inr (Memᴰ.tail l)
]
asked (run n k ∷ rest) st ns name m = elim (Memᴰ.cases_cons m) [
  | inl e ↦ absurd (run_is_not_delete e)
  | inr l ↦ later st (asked rest st ns name l)
]
asked (confirm_delete ∷ rest) st ns name m = elim (Option-cases st.delete_target) [
  | inl e ↦ later st (
      asked rest st ns name (
        subst (λ r. Memᴰ (delete_policy ns name) (add_call r.1 (calls_of r.0 rest)))
          (confirm_none st e) m))
  | inr ((n, k), e) ↦
      elim (Memᴰ.cases_cons (
        subst (λ r. Memᴰ (delete_policy ns name) (add_call r.1 (calls_of r.0 rest)))
          (confirm_some st (n, k) e) m)) [
            | inl q ↦ inl (e ∙ target_of_call ns name n k q)
            | inr l ↦ elim (asked rest _ ns name l) [
              | inl q ↦ absurd (none_is_not_some q)
              | inr j ↦ inr (Memᴰ.tail j)
            ]
          ]
]

-- A policy is deleted only if the user asked to delete it, by its namespace and name.
pub calls_of-delete_policy :
    (actions : List Action) (ns name : String)
    → Memᴰ (delete_policy ns name) (calls_of initial actions)
    → Memᴰ (ask_delete ns name) actions
calls_of-delete_policy actions ns name m = elim (asked actions initial ns name m) [
  | inl e ↦ absurd (none_is_not_some e)
  | inr k ↦ k
]
