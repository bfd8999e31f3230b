-- ===== src/PolicyForm/Modal/Success.antt =====
-- The policy form, from the click on its button to the answer of a server that accepts its call.
use mathlib.Core.Option.{Option, none, some}
use drop_the_mic.Base.{
  ◌≡◌, refl, ap, ◌∙◌, ◌≤◌, ◌<◌, String, Bool, true, false, List, if◌then◌else◌, Bool-cases, inl,
  inr,
}
use drop_the_mic.Base.Text.{truthy, trim}
use drop_the_mic.Api.{Json}
use drop_the_mic.Client.{Browser, Server, Response, call_of}
use drop_the_mic.Client.Endpoints.{Endpoint, api, path_of, options_of}
use drop_the_mic.Client.Requests.{request-ok_iff}
use drop_the_mic.PolicyForm.{Form, reset_form, handle_submit}
use drop_the_mic.PolicyForm.Modal.{
  State, pending, success, closed, is_pending, submit_disabled, start, click_submit, settled,
  handle_close,
}

-- A form that has a call to send has a name.
pub named :
    (default_ns : String) (is_edit : Bool) (form : Form) (call : Endpoint)
    → handle_submit default_ns is_edit form ≡ some call
    → truthy (trim form.name) ≡ true
unfolding handle_submit
named default_ns is_edit form call e = elim (Bool-cases (truthy (trim form.name))) [
  | inl t ↦ t
  | inr f ↦ cc (rw f at e)
]

pub enabled :
    (st : State)
    → is_pending st.status ≡ false
    → truthy (trim st.form.name) ≡ true
    → submit_disabled st ≡ false
unfolding submit_disabled
enabled st p t = rw (p, t) refl

pub sent_form :
    (default_ns : String) (is_edit : Bool) (st : State) (call : Endpoint)
    → is_pending st.status ≡ false
    → handle_submit default_ns is_edit st.form ≡ some call
    → click_submit default_ns is_edit st ≡ (record st { status = pending }, some call)
unfolding click_submit
sent_form default_ns is_edit st call p e =
    ap (λ b. if b then (st, none) else start st (handle_submit default_ns is_edit st.form))
      (enabled st p (named default_ns is_edit st.form call e))
    ∙ ap (start st) e

-- A click sends the call of the form, if it has one and waits for no other; and if the server accepts
-- the call, with a status from 200 to 299 and a JSON body, the form is closed and as it is at the start,
-- and a toast says what was done.
pub click_submit-settled :
    (default_ns : String) (is_edit : Bool) (st : State) (call : Endpoint)
    (query_string : List (String × String) → String) (fetch_failed : String)
    (bad_json : Option Json → String) (server : Server) (b : Browser) (resp : Response)
    (value : Json)
    → is_pending st.status ≡ false
    → handle_submit default_ns is_edit st.form ≡ some call
    → server (call_of b (path_of query_string call) (options_of query_string call)) ≡ some resp
    → 200 ≤ resp.status
    → resp.status < 300
    → resp.json ≡ some value
    → let sent = click_submit default_ns is_edit st in
      let result = (api query_string fetch_failed bad_json server b call).1 in
      (sent.1 ≡ some call)
      × (settled is_edit result sent.0 ≡ (
        record closed { status = success },
        some (if is_edit then "Policy updated" else "Policy created"),
      ))
unfolding api settled handle_close reset_form
click_submit-settled default_ns is_edit st call query_string fetch_failed bad_json server b resp
      value p e r lo hi j =
    let sent = sent_form default_ns is_edit st call p e in
    let accepted =
      (request-ok_iff fetch_failed bad_json server b (path_of query_string call)
          (options_of query_string call) value).1
        (resp, r, lo, hi, j) in
    (ap (λ s. s.1) sent, rw (sent, accepted) refl)
