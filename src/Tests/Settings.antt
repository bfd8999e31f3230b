-- ===== src/Tests/Settings.antt =====
-- The settings page, with settings that have a field which the form does not show.
use mathlib.Core.Option.{Option, none, some}
use drop_the_mic.Base.{◌+◌, ◌≡◌, ◌≢◌, refl, String, [], ◌∷◌}
use drop_the_mic.Api.{Json, str, obj, Members, no_members, member}
use drop_the_mic.Api.Objects.{field, or_json}
use drop_the_mic.Client.Endpoints.{update_settings}
use drop_the_mic.Settings.{
  json, initial, initial_general, initial_notif, seed, part_of, save, fire_timers,
}
use drop_the_mic.Settings.Saving.{AreSettings, save_form-seed}
use drop_the_mic.Settings.Messages.{run, types, chooses, saves, run-fire_timers}

abbrev general : Members
general = member "defaultModel" (str "m") no_members

abbrev notification : Members
notification = member "slack" (obj (member "channel" (str "#ops") no_members)) no_members

abbrev settings : Members
settings =
    member "general" (obj general)
      (member "notification" (obj notification) (member "audit" (str "on") no_members))

abbrev printed : Members → String
printed sent = "settings"

abbrev read : String → Option Json
read text = some (obj settings)

settings-AreSettings : AreSettings settings general notification
settings-AreSettings = record {
  has_general = refl;
  has_notification = refl;
  general_keys = (refl, tt);
  notification_keys = (refl, tt);
}

save_form-seed_example :
    (body : Members) × ((save read 7 (seed printed settings initial)).1
      ≡ some (update_settings (obj body)))
    × ((key : String)
        → field key (part_of "general" body)
          ≡ or_json (field key general) (field key initial_general))
    × ((key : String)
        → field key (part_of "notification" body)
          ≡ or_json (field key notification) (field key initial_notif))
    × ((key : String) → key ≢ "general" → key ≢ "notification" → field key body ≡ none)
save_form-seed_example =
    save_form-seed printed read 7 settings general notification settings-AreSettings

run-fire_timers_example :
    let session = types "{" ∷ chooses json ∷ saves ∷ [] in
    (fire_timers
      ((run printed read (0, initial) session).0 + 4000)
      (run printed read (0, initial) session).1).message
    ≡ none
run-fire_timers_example = run-fire_timers printed read (types "{" ∷ chooses json ∷ saves ∷ [])
