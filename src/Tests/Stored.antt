-- ===== src/Tests/Stored.antt =====
-- A ConfigMap that is kept as it is written, with settings that are a single text.
use drop_the_mic.Base.{◌≡◌, refl, ap, String, true, Option, none, some, []}
use drop_the_mic.Api.{Json, null, bool, num, str, arr, obj}
use drop_the_mic.Engine.{Answer, ok, failed}
use drop_the_mic.Controller.{Error, Reply, found, broken}
use drop_the_mic.Backend.{write_json}
use drop_the_mic.Backend.Settings.{ConfigMap, Store, get_settings, update_settings}
use drop_the_mic.Backend.Settings.Laws.{IsStore, get_settings-update_settings}
use drop_the_mic.Tests.Sessions.{codec}

abbrev missing : Error
missing = record { text = "not found"; not_found = true }

abbrev get : Option ConfigMap → Reply ConfigMap
get none = broken missing
get (some cm) = found cm

abbrev text_body : Option Json → Answer Json
text_body none = failed "EOF"
text_body (some j) = ok j

abbrev marshal : Json → Answer String
marshal (str s) = ok s
marshal _ = failed "unsupported value"

abbrev io : Store (Option ConfigMap)
io = record {
  codec = codec;
  get = λ w. (get w, w);
  create = λ cm w. (none, some cm);
  update = λ cm w. (none, some cm);
  decode = text_body;
  marshal = marshal;
  unmarshal = λ text. ok (str text);
}

reads : (settings : Json) (text : String) → marshal settings ≡ ok text → ok (str text) ≡ ok settings
reads (str s) text e = cc
reads null text e = cc
reads (bool b) text e = cc
reads (num n) text e = cc
reads (arr l) text e = cc
reads (obj m) text e = cc

kept :
    (cm : ConfigMap) (w w' : Option ConfigMap)
    → ◌≡◌ {A = Option Error × Option ConfigMap} (none, some cm) (none, w')
    → get w' ≡ found cm
kept cm w w' e = rw⁻¹ (ap (λ (r : Option Error × Option ConfigMap). r.1) e) refl

io-IsStore : IsStore io
io-IsStore = record { created = kept; updated = kept; reads = reads }

saved :
    (update_settings io (some (str "on")) (some (some []))).0
    ≡ some (write_json codec 200 (str "on"))
unfolding update_settings
saved = refl

get_settings-update_settings_example :
    ((get_settings io (update_settings io (some (str "on")) (some (some []))).1).0
      ≡ write_json codec 200 (str "on"))
    × ((write_json codec 200 (str "on")).json ≡ some (str "on"))
get_settings-update_settings_example =
    get_settings-update_settings io (some (str "on")) (str "on") (some (some []))
      (write_json codec 200 (str "on")) io-IsStore refl saved refl
