-- ===== src/PolicyForm/RoundTrip.antt =====
-- Opening a policy in the form and saving it.
use drop_the_mic.Base.{
  ◌<◌, ◌≡◌, ◌≢◌, ◌↔◌, refl, ap, sym, ◌∙◌, String, true, false, Option, none, some, List, [], ◌∷◌,
  length, eqb, ◌==◌, eq_iff, arith, Bool-cases, inl, inr, All, filter-All,
}
use drop_the_mic.Base.Text.{truthy, trim}
use drop_the_mic.Api.{CheckItem, PolicySpec, ChecklistPolicy}
use drop_the_mic.Client.Endpoints.{update_policy}
use drop_the_mic.PolicyForm.{
  Form, text_or, prefill, is_valid, valid_checks, non_empty, non_empty_list, submitted_spec,
  handle_submit, reset_form, initial, render,
}

-- A policy that the form can show as it is: its optional fields are absent rather than empty, its
-- name is not blank, it has checks, and each check has an id and a description.
pub record IsShowable (p : ChecklistPolicy) : Type 0 where
  pub named : truthy (trim p.metadata.name) ≡ true
  pub model : p.spec.llm.model ≢ some ""
  pub rescan : p.spec.schedule.failed_rescan ≢ some ""
  pub targets : p.spec.target_namespaces ≢ some []
  pub some_check : 0 < length p.spec.checks
  pub valid : All (λ c. is_valid c ≡ true) p.spec.checks

-- The specification without the fields for which the form has no input.
abbrev pub shown_part : PolicySpec → PolicySpec
shown_part s = record s {
  llm = record {
    provider = s.llm.provider;
    model = s.llm.model;
    secret_ref = record { name = s.llm.secret_ref.name; key = none };
  };
  notification = none;
  escalation_threshold = none;
}

non_empty-text_or : (o : Option String) → o ≢ some "" → non_empty (text_or "" o) ≡ o
non_empty-text_or none h = refl
non_empty-text_or (some s) h = elim (Bool-cases (s == "")) [
  | inl e ↦ absurd (h (ap some ((eq_iff s "").0 e)))
  | inr e ↦ rw e
]

non_empty_list-text_or :
    (o : Option (List String)) → o ≢ some [] → non_empty_list (text_or [] o) ≡ o
non_empty_list-text_or none h = refl
non_empty_list-text_or (some []) h = absurd (h refl)
non_empty_list-text_or (some (x ∷ xs)) h = ground arith

submitted_spec-prefill :
    (p : ChecklistPolicy) (form : Form)
    → IsShowable p
    → submitted_spec (prefill p form) ≡ shown_part p.spec
unfolding submitted_spec prefill valid_checks
submitted_spec-prefill p form h = simp (
  non_empty-text_or p.spec.llm.model h.model,
  non_empty-text_or p.spec.schedule.failed_rescan h.rescan,
  non_empty_list-text_or p.spec.target_namespaces h.targets,
  filter-All is_valid p.spec.checks h.valid,
)

valid_checks-All :
    (checks : List CheckItem) → All (λ c. is_valid c ≡ true) checks → valid_checks checks ≡ checks
unfolding valid_checks
valid_checks-All checks h = filter-All is_valid checks h

update_sent :
    (default_ns : String) (form : Form)
    → truthy (trim form.name) ≡ true
    → eqb (length (valid_checks form.checks)) 0 ≡ false
    → handle_submit default_ns true form
      ≡ some (update_policy form.namespace form.name (submitted_spec form))
unfolding handle_submit
update_sent default_ns form t e = rw (t, e)

-- Saving a policy that was opened and not changed updates that policy, with its own specification
-- but for the fields that the form has no input for: the key of the secret, the notification and
-- the escalation threshold are sent as absent.
pub handle_submit-prefill :
    (default_ns : String) (p : ChecklistPolicy) (form : Form)
    → IsShowable p
    → handle_submit default_ns true (prefill p form)
      ≡ some (update_policy p.metadata.namespace p.metadata.name (shown_part p.spec))
unfolding prefill
handle_submit-prefill default_ns p form h =
    update_sent default_ns (prefill p form) h.named has_checks
    ∙ ap (λ s. some (update_policy p.metadata.namespace p.metadata.name s))
        (submitted_spec-prefill p form h)
  where
    has_checks : eqb (length (valid_checks p.spec.checks)) 0 ≡ false
    has_checks = rw (valid_checks-All p.spec.checks h.valid) (ground arith)

-- So saving without a change keeps the specification exactly if none of these fields is set.
pub shown_part-eq_iff :
    (s : PolicySpec)
    → (shown_part s ≡ s)
      ↔ ((s.llm.secret_ref.key ≡ none) × (s.notification ≡ none) × (s.escalation_threshold ≡ none))
shown_part-eq_iff s = (
  λ e. (
    sym (ap (λ t. t.llm.secret_ref.key) e),
    sym (ap (λ t. t.notification) e),
    sym (ap (λ t. t.escalation_threshold) e),
  ),
  λ k i. record s {
    llm = record {
      provider = s.llm.provider;
      model = s.llm.model;
      secret_ref = record { name = s.llm.secret_ref.name; key = sym k.0 i };
    };
    notification = sym k.1 i;
    escalation_threshold = sym k.2 i;
  },
)

update_inj :
    (ns name : String) (s t : PolicySpec)
    → some (update_policy ns name s) ≡ some (update_policy ns name t)
    → s ≡ t
update_inj ns name s t e = cc

-- Opening a policy and saving it without a change sends the policy's own specification exactly if
-- the policy has no key of its secret, no notification and no escalation threshold, where the
-- policy is one that the form can show.
pub handle_submit-prefill_iff :
    (default_ns : String) (p : ChecklistPolicy) (form : Form)
    → IsShowable p
    → (handle_submit default_ns true (prefill p form)
        ≡ some (update_policy p.metadata.namespace p.metadata.name p.spec))
      ↔ ((p.spec.llm.secret_ref.key ≡ none)
          × (p.spec.notification ≡ none)
          × (p.spec.escalation_threshold ≡ none))
handle_submit-prefill_iff default_ns p form h =
    let sent = handle_submit-prefill default_ns p form h in
    (
      λ e. (shown_part-eq_iff p.spec).0 (update_inj _ _ _ _ (sym sent ∙ e)),
      λ k.
          sent
          ∙ ap (λ s. some (update_policy p.metadata.namespace p.metadata.name s))
              ((shown_part-eq_iff p.spec).1 k),
    )

-- Where the form is closed, by "Cancel" or after saving, and opened again on a policy, it shows that
-- policy and nothing of what was typed before; a further render changes nothing.
pub render-reset_form :
    (p : ChecklistPolicy) (form : Form)
    → (render (some p) true (reset_form form) ≡ prefill p initial)
      × (render (some p) true (prefill p form) ≡ prefill p form)
unfolding render reset_form prefill
render-reset_form p form = (refl, refl)
