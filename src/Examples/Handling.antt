-- ===== src/Examples/Handling.antt =====
-- A module with one service of one action, lib/handler-map.js.
use countinghouse.Prelude.{true, false, [], ◌∷◌, none, some, if◌then◌else◌}
use countinghouse.Prelude.Text.{codes, same}
use countinghouse.HandlerMap.{ServiceList, Inherited, Exported, object}

abbrev specs : ServiceList
specs = (codes "urn:a-com:serviceID:echo", some (some (codes "say") ∷ [])) ∷ []

abbrev exported : Exported
exported = object ((codes "echo", some ((codes "say", true) ∷ [])) ∷ [])

-- Of what a plain object inherits, `toString` alone.
abbrev inherited : Inherited
inherited = record {
  service = λ short. if same short (codes "toString") then some (λ n. false) else none;
  action = λ n. same n (codes "toString");
}
