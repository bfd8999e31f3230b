-- ===== src/PolicyForm/Submit.antt =====
-- What the policy form sends, and that its preview shows it.
use drop_the_mic.Base.{
  ℕ, suc, ◌≡◌, ◌↔◌, ◌⊎◌, inl, inr, refl, ◌∙◌, sym, String, Bool, true, false, not, ◌&&◌, Option,
  none, some, List, [], ◌∷◌, length, if◌then◌else◌, eqb, ◌==◌, eq_iff, arith, Bool-cases, All,
}
use drop_the_mic.Base.Text.{truthy, or_else, trim, trim-eq-nil_iff, IsBlank}
use drop_the_mic.Api.{CheckItem}
use drop_the_mic.Client.Endpoints.{Endpoint, create_policy, update_policy}
use drop_the_mic.PolicyForm.{Form, is_valid, valid_checks, build_cr, submitted_spec, handle_submit}

-- A check that the form leaves out: its id or its description is blank.
abbrev pub IsLeftOut : CheckItem → Type 0
IsLeftOut c = IsBlank c.id ⊎ IsBlank c.description

truthy-trim_iff : (s : String) → (truthy (trim s) ≡ false) ↔ IsBlank s
truthy-trim_iff s = (
  λ e. (trim-eq-nil_iff s).0 ((eq_iff _ _).0 (not_false _ e)),
  λ b. false_of_not _ ((eq_iff _ _).1 ((trim-eq-nil_iff s).1 b)),
)
  where
    not_false : (b : Bool) → not b ≡ false → b ≡ true
    not_false b e = ground arith

    false_of_not : (b : Bool) → b ≡ true → not b ≡ false
    false_of_not b e = ground arith

and_false_iff : (a b : Bool) → ((a && b) ≡ false) ↔ ((a ≡ false) ⊎ (b ≡ false))
and_false_iff a b = ground arith

is_valid_iff : (c : CheckItem) → (is_valid c ≡ false) ↔ IsLeftOut c
unfolding is_valid
is_valid_iff c = (
  λ e. elim ((and_false_iff _ _).0 e) [
    | inl p ↦ inl ((truthy-trim_iff c.id).0 p)
    | inr p ↦ inr ((truthy-trim_iff c.description).0 p)
  ],
  λ k. (and_false_iff _ _).1 (elim k [
    | inl b ↦ inl ((truthy-trim_iff c.id).1 b)
    | inr b ↦ inr ((truthy-trim_iff c.description).1 b)
  ]),
)

false_is_not_true : ◌≡◌ {A = Bool} false true → ⊥
false_is_not_true e = cc

valid_checks_nil_iff :
    (checks : List CheckItem) → (eqb (length (valid_checks checks)) 0 ≡ true) ↔ All IsLeftOut checks
unfolding valid_checks
valid_checks_nil_iff [] = (λ e. tt, λ h. refl)
valid_checks_nil_iff (c ∷ cs) = elim (Bool-cases (is_valid c)) [
  | inl e ↦ rw e (
    λ q. absurd (not_zero (length (valid_checks cs)) q),
    λ h. absurd (false_is_not_true (sym ((is_valid_iff c).1 h.0) ∙ e)),
  )
  | inr e ↦ rw e (
    λ q. ((is_valid_iff c).0 e, (valid_checks_nil_iff cs).0 q),
    λ h. (valid_checks_nil_iff cs).1 h.1,
  )
]
  where
    not_zero : (n : ℕ) → eqb (suc n) 0 ≡ true → ⊥
    not_zero n q = ground arith

nothing_sent_iff :
    (blank empty edit : Bool) (u c : Endpoint)
    → ((if not (not blank) then none else if empty then none else if edit then some u else some c)
        ≡ none)
      ↔ ((not blank ≡ false) ⊎ (empty ≡ true))
nothing_sent_iff blank empty edit u c = ground arith

-- A click on the button sends nothing exactly if the name is blank, or every check has a blank id or
-- a blank description.
pub handle_submit-none_iff :
    (default_ns : String) (is_edit : Bool) (form : Form)
    → (handle_submit default_ns is_edit form ≡ none)
      ↔ (IsBlank form.name ⊎ All IsLeftOut form.checks)
unfolding handle_submit
handle_submit-none_iff default_ns is_edit form =
    let nothing =
      nothing_sent_iff (trim form.name == "") (eqb (length (valid_checks form.checks)) 0) is_edit
        (update_policy form.namespace form.name (submitted_spec form))
        (create_policy form.name (or_else form.namespace default_ns) (submitted_spec form)) in
    (
      λ e. elim (nothing.0 e) [
        | inl p ↦ inl ((truthy-trim_iff form.name).0 p)
        | inr p ↦ inr ((valid_checks_nil_iff form.checks).0 p)
      ],
      λ k. nothing.1 (elim k [
        | inl b ↦ inl ((truthy-trim_iff form.name).1 b)
        | inr h ↦ inr ((valid_checks_nil_iff form.checks).1 h)
      ]),
    )

truthy_of_trim : (s : String) → truthy (trim s) ≡ true → truthy s ≡ true
truthy_of_trim s h = elim (Bool-cases (s == "")) [
  | inl e ↦ absurd (false_is_not_true (sym ((truthy-trim_iff s).1 (blank ((eq_iff s "").0 e))) ∙ h))
  | inr e ↦ rw e
]
  where
    blank : s ≡ "" → IsBlank s
    blank q = rw q tt

none_is_not_some : {sent : Endpoint} → ◌≡◌ {A = Option Endpoint} none (some sent) → ⊥
none_is_not_some q = cc

created_only :
    (empty : Bool) (sent c : Endpoint)
    → ◌≡◌ {A = Option Endpoint} (if empty then none else some c) (some sent)
    → sent ≡ c
created_only empty sent c e = ground arith

-- What is created is what the preview shows: whenever the form sends a creation, its name, namespace
-- and specification are those of the preview.
pub handle_submit-build_cr :
    (default_ns : String) (form : Form) (sent : Endpoint)
    → handle_submit default_ns false form ≡ some sent
    → let shown = build_cr default_ns form in
      sent ≡ create_policy shown.name shown.namespace shown.spec
unfolding handle_submit build_cr submitted_spec
handle_submit-build_cr default_ns form sent e = elim (Bool-cases (truthy (trim form.name))) [
  | inl t ↦
      rw (truthy_of_trim form.name t)
        (created_only (eqb (length (valid_checks form.checks)) 0) sent _ (rw t at e))
  | inr f ↦ absurd (none_is_not_some (rw f at e))
]
