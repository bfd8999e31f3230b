-- ===== src/Policies/Opened/Again.antt =====
-- How often the scan of one policy can be started before an answer comes.
use drop_the_mic.Base.{ℕ, zero, suc, ◌≡◌, refl, ap, Bool, true, false, List, [], ◌∷◌}
use drop_the_mic.Api.{ChecklistPolicy}
use drop_the_mic.Client.Endpoints.{Endpoint, run_now}
use drop_the_mic.Policies.Deletion.{add_call}
use drop_the_mic.Policies.Opened.{Opened, opened, click_run_now}

-- The clicks on the button of one detail that stays open, and the calls that they send.
abbrev clicks : ℕ → Opened → List Endpoint
clicks zero o = []
clicks (suc n) o = add_call (click_run_now o).1 (clicks n (click_run_now o).0)

-- The same clicks, with the policy closed and opened again after each.
abbrev visits : ℕ → ChecklistPolicy → List Endpoint
visits zero policy = []
visits (suc n) policy = add_call (click_run_now (opened policy)).1 (visits n policy)

abbrev same_calls : ℕ → ChecklistPolicy → List Endpoint
same_calls zero policy = []
same_calls (suc n) policy =
    run_now policy.metadata.namespace policy.metadata.name ∷ same_calls n policy

clicks_busy :
    (n : ℕ) (policy : ChecklistPolicy) (show_edit : Bool)
    → clicks n (record { policy = policy; show_edit = show_edit; running = true }) ≡ []
unfolding click_run_now
clicks_busy zero policy show_edit = refl
clicks_busy (suc n) policy show_edit = clicks_busy n policy show_edit

-- In one detail, a second scan is not started before the first is answered, however often the button is
-- clicked. If the policy is closed and opened again in between, each click starts another one.
clicks-visits :
    (n : ℕ) (policy : ChecklistPolicy)
    → (clicks (suc n) (opened policy) ≡ same_calls 1 policy)
      × (visits n policy ≡ same_calls n policy)
unfolding click_run_now
clicks-visits n policy =
    let call = run_now policy.metadata.namespace policy.metadata.name in
    (ap (call ∷◌) (clicks_busy n policy false), again n policy)
  where
    again : (n : ℕ) (policy : ChecklistPolicy) → visits n policy ≡ same_calls n policy
    again zero policy = refl
    again (suc n) policy =
        ap (run_now policy.metadata.namespace policy.metadata.name ∷◌) (again n policy)
