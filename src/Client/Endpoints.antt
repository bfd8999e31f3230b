-- ===== src/Client/Endpoints.antt =====
-- The functions of `api` in ui/src/api/client.ts: for each, the path, the method and the body that
-- it hands to `request`. Namespaces and names are put into the path as they are. `query_string`
-- stands for `URLSearchParams(…).toString()`.
pub mod Paths
use drop_the_mic.Base.{String, Option, none, some, List, [], ◌∷◌, ◌++◌, if◌then◌else◌}
use drop_the_mic.Base.Text.{◌<>◌, truthy}
use drop_the_mic.Api.{Json, str, obj, member, no_members, PolicySpec}
use drop_the_mic.Client.{Method, get, post, put, delete, Options, Browser, Server, Result, request}
use drop_the_mic.Client.Encode.{spec_json, new_policy_json}

-- An argument that may be left out is an empty text where it is left out.
pub data Endpoint : Type 0 where
  login : (username password : String) → Endpoint
  auth_check get_info list_namespaces get_settings : Endpoint
  list_resources list_policies : (namespace : String) → Endpoint
  get_policy delete_policy get_result run_now : (namespace name : String) → Endpoint
  create_policy : (name namespace : String) → PolicySpec → Endpoint
  update_policy : (namespace name : String) → PolicySpec → Endpoint
  list_results : (namespace policy : String) → Endpoint
  update_settings : Json → Endpoint

abbrev suffix : String → String → String
suffix prefix value = if truthy value then prefix <> value else ""

abbrev result_params : String → String → List (String × String)
result_params namespace policy =
    (if truthy namespace then ("namespace", namespace) ∷ [] else [])
    ++ (if truthy policy then ("policy", policy) ∷ [] else [])

module _ (query_string : List (String × String) → String) where
  unfoldable pub path_of : Endpoint → String
  path_of (login username password) = "/login"
  path_of auth_check = "/auth/check"
  path_of get_info = "/info"
  path_of list_namespaces = "/cluster/namespaces"
  path_of (list_resources ns) = "/cluster/resources" <> suffix "?ns=" ns
  path_of (list_policies ns) = "/policies" <> suffix "?namespace=" ns
  path_of (get_policy ns name) = "/policies/" <> ns <> "/" <> name
  path_of (create_policy name ns spec) = "/policies"
  path_of (update_policy ns name spec) = "/policies/" <> ns <> "/" <> name
  path_of (delete_policy ns name) = "/policies/" <> ns <> "/" <> name
  path_of (list_results ns policy) =
      "/results" <> suffix "?" (query_string (result_params ns policy))
  path_of (get_result ns name) = "/results/" <> ns <> "/" <> name
  path_of (run_now ns name) = "/run/" <> ns <> "/" <> name
  path_of get_settings = "/settings"
  path_of (update_settings settings) = "/settings"

  unfoldable pub method_of : Endpoint → Method
  method_of (login username password) = post
  method_of (create_policy name ns spec) = post
  method_of (run_now ns name) = post
  method_of (update_policy ns name spec) = put
  method_of (update_settings settings) = put
  method_of (delete_policy ns name) = delete
  method_of _ = get

  unfoldable pub body_of : Endpoint → Option Json
  body_of (login username password) =
      some (obj (member "username" (str username) (member "password" (str password) no_members)))
  body_of (create_policy name ns spec) = some (new_policy_json name ns spec)
  body_of (update_policy ns name spec) = some (spec_json spec)
  body_of (update_settings settings) = some settings
  body_of _ = none

  unfoldable pub options_of : Endpoint → Options
  unfolding method_of body_of
  options_of e = record { method = method_of e; body = body_of e }

  unfoldable pub api :
      (fetch_failed : String)
      → (bad_json : Option Json → String) → Server
      → Browser
      → Endpoint
      → Browser × Result
  api fetch_failed bad_json server b e =
      request fetch_failed bad_json server b (path_of e) (options_of e)
