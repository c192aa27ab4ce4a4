-- ===== src/Examples/Naming.antt =====
-- Two devices with a tool of one name, lib/mcp/tool-registry.js.
use countinghouse.Prelude.{◌≡◌, ◌↔◌, String, true, false, [], ◌∷◌, none, some}
use countinghouse.Prelude.Text.{Text, codes, text_eq}
use countinghouse.Prelude.Dict.{Dict}
use countinghouse.Auth.FileProvider.{Entry, FileAuthProvider, authenticate, list_devices}
use countinghouse.Tools.{Action, Spec, Target, reserved_names, build_tool_targets, filter_targets}
use countinghouse.Tools.Names.{AreDistinct, names_onto, build_tool_targets-AreDistinct}
use countinghouse.Tools.Shown.{Has, filter_targets-authenticate}

-- `toLowerCase` of texts in lower case.
abbrev lower : Text → Text
lower t = t

abbrev switch_on : Action
switch_on = record { name = codes "on"; description = some (codes "on"); output_schema = none }

abbrev lamp : Spec
lamp = record {
  friendly_name = some (codes "lamp");
  services = some ((codes "urn:power", some (switch_on ∷ [])) ∷ []);
}

abbrev lamps : Dict String Spec
lamps = ("hall", lamp) ∷ ("attic", lamp) ∷ []

abbrev hall : Target
hall = record {
  name = codes "lamp_power_on";
  device_id = "hall";
  service_id = codes "urn:power";
  action = switch_on;
  description = codes "on";
}

abbrev attic : Target
attic = record hall { name = codes "lamp_power_on_2"; device_id = "attic" }

abbrev bob : Entry
bob = record {
  user_name = some "bob";
  devices = some ("hall" ∷ []);
  admin = false;
  runs_modules = none;
}

abbrev provider : FileAuthProvider
provider = record { env_key = none; config = ("key", some bob) ∷ [] }

build_tool_targets-AreDistinct_example :
    AreDistinct (names_onto (build_tool_targets lower lamps) reserved_names)
build_tool_targets-AreDistinct_example = build_tool_targets-AreDistinct lower lamps

filter_targets-authenticate_example :
    Has hall
      (filter_targets false (some "key") (list_devices (some "key") provider) (hall ∷ attic ∷ []))
    ↔ (Has hall (hall ∷ attic ∷ [])
        × ((authenticate (some "key") (some "hall") provider).ok ≡ true))
filter_targets-authenticate_example =
    filter_targets-authenticate provider "key" (hall ∷ attic ∷ []) hall
