-- ===== src/Backend/Settings.antt =====
-- operator/server/handler/settings.go: the settings of the server, which are kept as a text in a ConfigMap. `W` is the
-- state of the cluster, and the operations of the Kubernetes client and of encoding/json are an interface. A handler
-- that panics gives no response.
pub mod Laws
use mathlib.Core.Option.{Option, none, some}
use drop_the_mic.Base.{ℕ, String, Bool, List, [], ◌∷◌, if◌then◌else◌}
use drop_the_mic.Base.Maps.{Map, lookup, store}
use drop_the_mic.Base.Text.{◌<>◌}
use drop_the_mic.Api.{Json, obj, no_members}
use drop_the_mic.Client.{Response}
use drop_the_mic.Engine.{Answer, ok, failed}
use drop_the_mic.Controller.{Error, Reply, found, broken}
use drop_the_mic.Backend.{Codec, write_json, write_error}

-- The data of a ConfigMap is a map that may be nil.
abbrev pub ConfigMap : Type 0
ConfigMap = Option (Map String)

pub record Store (W : Type 0) : Type 0 where
  pub codec : Codec
  pub get : W → Reply ConfigMap × W
  pub create : ConfigMap → W → Option Error × W
  pub update : ConfigMap → W → Option Error × W
  pub decode : Option Json → Answer Json
  pub marshal : Json → Answer String
  pub unmarshal : String → Answer Json

abbrev pub settings_key : String
settings_key = "settings.json"

abbrev pub setting_text : ConfigMap → Option String
setting_text none = none
setting_text (some m) = lookup settings_key m

module _ {W : Type 0} (io : Store W) where
  abbrev pub parsed : Answer Json → Response
  parsed (failed e) = write_error io.codec 500 ("parsing settings: " <> e)
  parsed (ok settings) = write_json io.codec 200 settings

  abbrev pub shown : Option String → Response
  shown none = write_json io.codec 200 (obj no_members)
  shown (some text) = parsed (io.unmarshal text)

  abbrev pub read_settings : Reply ConfigMap → Response
  read_settings (broken e) =
      if e.not_found
      then write_json io.codec 200 (obj no_members)
      else write_error io.codec 500 ("getting settings: " <> e.text)
  read_settings (found cm) = shown (setting_text cm)

  -- `GetSettings`
  unfoldable pub get_settings : W → Response × W
  get_settings w = let got = io.get w in (read_settings got.0, got.1)

  abbrev pub written : (doing : String) → Json → Option Error × W → Option Response × W
  written doing settings (some e, w) =
      (some (write_error io.codec 500 (doing <> " settings: " <> e.text)), w)
  written doing settings (none, w) = (some (write_json io.codec 200 settings), w)

  abbrev pub write_settings : Json → (text : String) → Reply ConfigMap × W → Option Response × W
  write_settings settings text (broken e, w) =
      if e.not_found
      then written "creating" settings (io.create (some ((settings_key, text) ∷ [])) w)
      else (some (write_error io.codec 500 ("getting settings: " <> e.text)), w)
  write_settings settings text (found none, w) = (none, w)
  write_settings settings text (found (some m), w) =
      written "updating" settings (io.update (some (store settings_key text m)) w)

  abbrev pub marshaled : Json → Answer String → W → Option Response × W
  marshaled settings (failed e) w =
      (some (write_error io.codec 500 ("marshaling settings: " <> e)), w)
  marshaled settings (ok text) w = write_settings settings text (io.get w)

  abbrev pub decoded : Answer Json → W → Option Response × W
  decoded (failed e) w = (some (write_error io.codec 400 ("invalid request body: " <> e)), w)
  decoded (ok settings) w = marshaled settings (io.marshal settings) w

  -- `UpdateSettings`
  unfoldable pub update_settings : (body : Option Json) → W → Option Response × W
  update_settings body w = decoded (io.decode body) w
