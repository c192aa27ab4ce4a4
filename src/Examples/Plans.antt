-- ===== src/Examples/Plans.antt =====
-- A plan for lib/plan-validator.js.
use countinghouse.Prelude.{◌≡◌, ◌↔◌, String, [], ◌∷◌, none, some}
use countinghouse.Prelude.Text.{Text, codes}
use countinghouse.Permissions.Parse.{given}
use countinghouse.Plan.{PlanDoc, validate_plan}
use countinghouse.Plan.Valid.{IsValidPlan, validate_plan_iff}

abbrev lower : Text → Text
lower t = t

abbrev one_id : Text → String
one_id name = "id"

abbrev plan : PlanDoc
plan = record {
  device = some (codes "lamp");
  services = some (
      record {
        name = some (codes "power");
        actions = some (record { name = some (codes "on"); description = some (codes "on") } ∷ []);
      }
      ∷ []);
  calls = given (some (codes "hall/power.on") ∷ []);
}

validate_plan_iff_example :
    ((validate_plan lower one_id plan [] none).0 ≡ []) ↔ IsValidPlan lower one_id [] none plan
validate_plan_iff_example = validate_plan_iff lower one_id [] none plan
