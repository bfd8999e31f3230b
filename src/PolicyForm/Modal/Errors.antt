-- ===== src/PolicyForm/Modal/Errors.antt =====
-- What the policy form shows after its call has failed, and what it keeps.
use mathlib.Core.Option.{Option, none, some}
use drop_the_mic.Base.{◌≡◌, refl, String, Bool, true, false, List, eqb}
use drop_the_mic.Base.Text.{◌<>◌}
use drop_the_mic.Api.{Json}
use drop_the_mic.Client.{Browser, Server, Response, err, call_of, is_ok, error_message}
use drop_the_mic.Client.Endpoints.{Endpoint, api, path_of, options_of}
use drop_the_mic.PolicyForm.{initial, reset_form, handle_submit}
use drop_the_mic.Client.Requests.{request_refused}
use drop_the_mic.PolicyForm.Modal.{
  State, error, pending, is_pending, submit_disabled, handle_close, click_submit, settled, View,
  view,
}
use drop_the_mic.PolicyForm.Modal.Success.{named, enabled, sent_form}

-- An error stays on the form after it was closed: opened again for another new policy, the form is empty
-- and shows the error of the last call.
pub handle_close-error :
    (default_ns : String) (is_edit : Bool) (st : State) (message : String)
    → let again = record (handle_close (settled is_edit (err message) st).0) { is_open = true } in
      (again.form ≡ initial)
      × ((shown : View) × (view default_ns is_edit again ≡ some shown)
          × (shown.error ≡ some ("Error: " <> message)))
unfolding handle_close settled view reset_form
handle_close-error default_ns is_edit st message = (refl, (_, refl, refl))

-- The form as it stands after an error: it is open, it shows the message, and a click on its button sends
-- the call of its inputs.
refused-view :
    (default_ns : String) (is_edit : Bool) (st : State) (call : Endpoint) (message : String)
    → st.is_open ≡ true
    → handle_submit default_ns is_edit st.form ≡ some call
    → let after : State = record st { status = error message } in
      ((shown : View) × (view default_ns is_edit after ≡ some shown)
        × (shown.error ≡ some ("Error: " <> message))
        × (shown.submit_disabled ≡ false))
      × (click_submit default_ns is_edit after ≡ (record st { status = pending }, some call))
unfolding view submit_disabled
refused-view default_ns is_edit st call message o e = (
  rw o (
    _,
    refl,
    refl,
    enabled (record st { status = error message }) refl (named default_ns is_edit st.form call e),
  ),
  sent_form default_ns is_edit (record st { status = error message }) call refl e,
)

-- An open form waits for no call and has one to send; its button is clicked, and before anything else
-- happens in the form the server refuses the call, with an error that is not a 401. Then the browser's
-- session stays, no toast is shown, the form keeps what was typed, stays open and shows the message of
-- the answer, and its button can be clicked again and then sends the same call.
pub settled-refused :
    (default_ns : String) (is_edit : Bool) (st : State) (call : Endpoint)
    (query_string : List (String × String) → String) (fetch_failed : String)
    (bad_json : Option Json → String) (server : Server) (b : Browser) (resp : Response)
    → st.is_open ≡ true
    → is_pending st.status ≡ false
    → handle_submit default_ns is_edit st.form ≡ some call
    → server (call_of b (path_of query_string call) (options_of query_string call)) ≡ some resp
    → is_ok resp.status ≡ false
    → eqb resp.status 401 ≡ false
    → let sent = click_submit default_ns is_edit st in
      let answer = api query_string fetch_failed bad_json server b call in
      let (after, toast) = settled is_edit answer.1 sent.0 in
      (answer.0 ≡ b)
      × (toast ≡ none)
      × (after.form ≡ st.form)
      × ((shown : View) × (view default_ns is_edit after ≡ some shown)
          × (shown.error ≡ some ("Error: " <> error_message bad_json resp))
          × (shown.submit_disabled ≡ false))
      × (click_submit default_ns is_edit after ≡ (sent.0, some call))
unfolding api settled
settled-refused default_ns is_edit st call query_string fetch_failed bad_json server b resp o p e r
      n u =
    let answer =
      request_refused fetch_failed bad_json server b (path_of query_string call)
        (options_of query_string call) resp r n u in
    let sent = sent_form default_ns is_edit st call p e in
    let (shown, again) =
      refused-view default_ns is_edit st call (error_message bad_json resp) o e in
    rw (answer, sent) (refl, refl, refl, shown, again)
