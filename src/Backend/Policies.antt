-- ===== src/Backend/Policies.antt =====
-- operator/server/handler/policies.go and operator/server/handler/run.go: the requests about policies. `W` is the
-- state of the cluster; `Spec` is the specification that the body of an update is decoded to, and
-- `with_spec` puts one into a policy. A missing map of annotations is the empty one.
pub mod RunNow
use drop_the_mic.Base.{ℕ, String, Option, none, some, List, if◌then◌else◌}
use drop_the_mic.Base.Maps.{store}
use drop_the_mic.Base.Text.{◌<>◌}
use drop_the_mic.Api.{Json, str, obj, member, no_members}
use drop_the_mic.Client.{Response}
use drop_the_mic.Engine.{Answer, ok, failed}
use drop_the_mic.Controller.{Error, Reply, found, broken, Policy}
use drop_the_mic.Backend.{Codec, write_json, write_error}

pub record Objects (W Spec : Type 0) : Type 0 where
  pub codec : Codec
  pub list : (namespace : String) → W → Reply (List Policy) × W
  pub get : (namespace name : String) → W → Reply Policy × W
  pub create : Policy → W → Reply Policy × W
  pub update : Policy → W → Reply Policy × W
  pub delete : (namespace name : String) → W → Option Error × W
  pub decode_policy : Option Json → Answer Policy
  pub decode_spec : Option Json → Answer Spec
  pub with_spec : Spec → Policy → Policy
  pub policy_json : Policy → Json
  pub list_json : List Policy → Json
  pub time_text : W → String × W

module _ {W Spec : Type 0} (io : Objects W Spec) where
  abbrev pub status_json : String → Json
  status_json s = obj (member "status" (str s) no_members)

  abbrev pub error_of : (status : ℕ) → (doing : String) → Error → Response
  error_of status doing e = write_error io.codec status (doing <> ": " <> e.text)

  abbrev pub listed : Reply (List Policy) → Response
  listed (broken e) = error_of 500 "listing policies" e
  listed (found l) = write_json io.codec 200 (io.list_json l)

  abbrev pub list_policies : (namespace : String) → W → Response × W
  list_policies namespace w = let got = io.list namespace w in (listed got.0, got.1)

  abbrev pub gotten : Reply Policy → Response
  gotten (broken e) = error_of 404 "policy not found" e
  gotten (found p) = write_json io.codec 200 (io.policy_json p)

  abbrev pub get_policy : (namespace name : String) → W → Response × W
  get_policy namespace name w = let got = io.get namespace name w in (gotten got.0, got.1)

  -- A write gives back the object as the server of Kubernetes has it.
  abbrev pub stored : (status : ℕ) → (doing : String) → Reply Policy × W → Response × W
  stored status doing (broken e, w) = (error_of 500 doing e, w)
  stored status doing (found p, w) = (write_json io.codec status (io.policy_json p), w)

  abbrev pub create_decoded : Answer Policy → W → Response × W
  create_decoded (failed e) w = (write_error io.codec 400 ("invalid request body: " <> e), w)
  create_decoded (ok p) w = stored 201 "creating policy" (io.create p w)

  abbrev pub create_policy : (body : Option Json) → W → Response × W
  create_policy body w = create_decoded (io.decode_policy body) w

  abbrev pub update_decoded : Policy → Answer Spec → W → Response × W
  update_decoded existing (failed e) w =
      (write_error io.codec 400 ("invalid request body: " <> e), w)
  update_decoded existing (ok spec) w =
      stored 200 "updating policy" (io.update (io.with_spec spec existing) w)

  abbrev pub update_found : (body : Option Json) → Reply Policy × W → Response × W
  update_found body (broken e, w) = (error_of 404 "policy not found" e, w)
  update_found body (found existing, w) = update_decoded existing (io.decode_spec body) w

  abbrev pub update_policy : (namespace name : String) → (body : Option Json) → W → Response × W
  update_policy namespace name body w = update_found body (io.get namespace name w)

  abbrev pub deleted : Option Error × W → Response × W
  deleted (some e, w) = (error_of 500 "deleting policy" e, w)
  deleted (none, w) = (write_json io.codec 200 (status_json "deleted"), w)

  abbrev pub delete_policy : (namespace name : String) → W → Response × W
  delete_policy namespace name w = deleted (io.delete namespace name w)

  abbrev pub with_run_now : (time : String) → Policy → Policy
  with_run_now time p = record p { annotations = store "dtm.io/run-now" time p.annotations }

  abbrev pub triggered : Reply Policy × W → Response × W
  triggered (broken e, w) = (error_of 500 "triggering run" e, w)
  triggered (found p, w) = (write_json io.codec 200 (status_json "triggered"), w)

  abbrev pub run_found : Reply Policy × W → Response × W
  run_found (broken e, w) = (error_of 404 "policy not found" e, w)
  run_found (found p, w) =
      let time = io.time_text w in triggered (io.update (with_run_now time.0 p) time.1)

  -- `RunNow`
  unfoldable pub run_now : (namespace name : String) → W → Response × W
  run_now namespace name w = run_found (io.get namespace name w)
