-- ===== src/PolicyForm/Modal/Session.antt =====
-- The calls of a policy form that are in flight.
use mathlib.Core.Option.{Option, none, some}
use drop_the_mic.Base.{
  ℕ, suc, ◌≤◌, length, length-append, arith, ◌≡◌, refl, sym, ap, String, Bool, true, false, List,
  [], ◌∷◌, ◌++◌, ◌⊎◌, inl, inr, if◌then◌else◌, ◌||◌, not, subst, Bool-cases,
}
use drop_the_mic.Base.Text.{truthy, trim}
use drop_the_mic.Client.Flight.{
  IsSingle, add_call, IsSingle-start, IsSingle-answer, length-IsSingle, length-answer,
}
use drop_the_mic.Client.{Result, ok, err}
use drop_the_mic.Client.Endpoints.{Endpoint}
use drop_the_mic.Api.{ChecklistPolicy}
use drop_the_mic.PolicyForm.{render, handle_submit}
use drop_the_mic.PolicyForm.Modal.{
  State, closed, Input, typed, handle_close, is_pending, submit_disabled, start, click_submit,
  settled, settled_left,
}

-- The states that a form comes to, with the calls that are not answered yet: those of the form that
-- stands now, and those that were left behind by `n` forms before it. Going from the list to a detail or
-- back, or to another page, takes the form away; the next one, of the list or of a detail, starts with an idle
-- mutation. The calls may be answered in any order, and at any time: also after the form was closed or
-- left, when a success may still close the form that stands now.
pub data Reach (default_ns : String)
    : (is_edit : Bool) → State → (calls left : List Endpoint) → (n : ℕ) → Type 0 where
  here : (is_edit : Bool) → Reach default_ns is_edit closed [] [] 0
  opens :
      {is_edit : Bool} {st : State} {calls left : List Endpoint} {n : ℕ}
      → Reach default_ns is_edit st calls left n
      → Reach default_ns is_edit (record st { is_open = true }) calls left n
  renders :
      {is_edit : Bool} {st : State} {calls left : List Endpoint} {n : ℕ}
      → (policy : Option ChecklistPolicy) → Reach default_ns is_edit st calls left n
      → Reach default_ns is_edit
          (record st { form = render policy st.is_open st.form })
          calls
          left
          n
  types :
      {is_edit : Bool} {st : State} {calls left : List Endpoint} {n : ℕ}
      → (input : Input) → Reach default_ns is_edit st calls left n
      → Reach default_ns is_edit (record st { form = typed input st.form }) calls left n
  closes :
      {is_edit : Bool} {st : State} {calls left : List Endpoint} {n : ℕ}
      → Reach default_ns is_edit st calls left n
      → Reach default_ns is_edit (handle_close st) calls left n
  submits :
      {is_edit : Bool} {st : State} {calls left : List Endpoint} {n : ℕ}
      → Reach default_ns is_edit st calls left n
      → Reach default_ns is_edit
          (click_submit default_ns is_edit st).0
          (add_call (click_submit default_ns is_edit st).1 calls)
          left
          n
  answers :
      {is_edit : Bool} {st : State} {calls left : List Endpoint} {n : ℕ}
      → (result : Result) (before : List Endpoint) (call : Endpoint) (after : List Endpoint)
      → Reach default_ns is_edit st calls left n
      → calls ≡ before ++ call ∷ after
      → Reach default_ns is_edit (settled is_edit result st).0 (before ++ after) left n
  remounts :
      {is_edit : Bool} {st : State} {calls left : List Endpoint} {n : ℕ}
      → (is_next_edit : Bool) → Reach default_ns is_edit st calls left n
      → Reach default_ns is_next_edit closed [] (calls ++ left) (suc n)
  answers_left :
      {is_edit : Bool} {st : State} {calls left : List Endpoint} {n : ℕ}
      → (is_same_page : Bool) (result : Result) (before : List Endpoint) (call : Endpoint)
        (after : List Endpoint)
      → Reach default_ns is_edit st calls left n
      → left ≡ before ++ call ∷ after
      → Reach default_ns is_edit (settled_left is_same_page result st) calls (before ++ after) n

IsSingle-branch :
    (busy : Bool) (st : State) (sent : Option Endpoint) (calls : List Endpoint)
    → IsSingle (is_pending st.status) calls
    → (is_pending st.status ≡ false) ⊎ (busy ≡ true)
    → let (next, call) = if busy then (st, none) else start st sent in
      IsSingle (is_pending next.status) (add_call call calls)
IsSingle-branch true st sent calls h g = h
IsSingle-branch false st none calls h g = h
IsSingle-branch false st (some call) calls h (inl e) =
    IsSingle-start (some call) calls (subst (λ b. IsSingle b calls) e h)
IsSingle-branch false st (some call) calls h (inr e) = cc

-- A click does nothing while a call is in flight, since the button is disabled then.
IsSingle-click_submit :
    (default_ns : String) (is_edit : Bool) (st : State) (calls : List Endpoint)
    → IsSingle (is_pending st.status) calls
    → let (next, call) = click_submit default_ns is_edit st in
      IsSingle (is_pending next.status) (add_call call calls)
unfolding click_submit submit_disabled
IsSingle-click_submit default_ns is_edit st calls h =
    IsSingle-branch (submit_disabled st) st (handle_submit default_ns is_edit st.form) calls h
      (elim (Bool-cases (is_pending st.status)) [
        | inl e ↦ inr (ap (λ s. s || not (truthy (trim st.form.name))) e)
        | inr e ↦ inl e
      ])

settled-is_pending :
    (is_edit : Bool) (result : Result) (st : State)
    → is_pending (settled is_edit result st).0.status ≡ false
unfolding settled
settled-is_pending is_edit (ok value) st = refl
settled-is_pending is_edit (err message) st = refl

settled_left-status :
    (is_same_page : Bool) (result : Result) (st : State)
    → (settled_left is_same_page result st).status ≡ st.status
unfolding settled_left
settled_left-status true (ok value) st = refl
settled_left-status true (err message) st = refl
settled_left-status false result st = refl

-- Whatever is done with the forms, and whenever their calls are answered: the form that stands now has
-- at most one call in flight, and its button is busy exactly while that one is; and of the forms before
-- it, no more calls are in flight than forms were left.
pub Reach-IsSingle :
    (default_ns : String) {is_edit : Bool} {st : State} {calls left : List Endpoint} {n : ℕ}
    → Reach default_ns is_edit st calls left n
    → IsSingle (is_pending st.status) calls × (length left ≤ n)
unfolding handle_close
Reach-IsSingle default_ns (here is_edit) = (inl (refl, refl), omega arith)
Reach-IsSingle default_ns (opens r) = Reach-IsSingle default_ns r
Reach-IsSingle default_ns (renders policy r) = Reach-IsSingle default_ns r
Reach-IsSingle default_ns (types input r) = Reach-IsSingle default_ns r
Reach-IsSingle default_ns (closes r) = Reach-IsSingle default_ns r
Reach-IsSingle default_ns (submits {is_edit} {st} {calls} r) =
    let (h, l) = Reach-IsSingle default_ns r in
    (IsSingle-click_submit default_ns is_edit st calls h, l)
Reach-IsSingle default_ns (answers {is_edit} {st} {calls} result before call after r e) =
    let (h, l) = Reach-IsSingle default_ns r in
    (
      subst (λ b. IsSingle b (before ++ after)) (sym (settled-is_pending is_edit result st))
          (IsSingle-answer (is_pending st.status) before call after calls e h),
      l,
    )
Reach-IsSingle default_ns (remounts {is_edit} {st} {calls} {left} is_next_edit r) =
    let (h, l) = Reach-IsSingle default_ns r in
    (
      inl (refl, refl),
      omega (arith, length-append calls left, length-IsSingle (is_pending st.status) calls h, l),
    )
Reach-IsSingle default_ns
      (answers_left {st = st} {calls} {left} is_same_page result before call after r e) =
    let (h, l) = Reach-IsSingle default_ns r in
    (
      subst (λ s. IsSingle (is_pending s) calls) (sym (settled_left-status is_same_page result st))
          h,
      omega (arith, length-answer before call after left e, l),
    )
