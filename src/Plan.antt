-- ===== src/Plan.antt =====
-- lib/plan-validator.js: the check of a proposed module before any file exists. A problem is a
-- constructor with what its message names; the indices in the messages are left out. The hash
-- of `deviceIDForName` is a parameter, and so is `toLowerCase`.
pub mod Valid
use countinghouse.Prelude.{
  String, Bool, true, false, ◌&&◌, ◌||◌, not, List, [], ◌∷◌, ◌++◌, Option, none, some, map, any,
  contains, is_some, ℕ_eq, if◌then◌else◌, ◌==◌,
}
use countinghouse.Prelude.Text.{Text, text_eq, codes, same}
use countinghouse.Prelude.Dict.{Dict}
use countinghouse.Permissions.Parse.{Field, absent, mistyped, given}
use countinghouse.CallAddress.{Address, Services, label_of, is_blank, parse_address}
use countinghouse.Tools.{slugify}

pub data Problem : Type 0 where
  calls_not_an_array : Problem
  not_an_address : Problem
  call_twice unresolved : Text → Problem
  no_device no_services : Problem
  service_unnamed : Problem
  service_twice no_actions : Text → Problem
  action_unnamed : Problem
  action_twice no_description : Text → Text → Problem
  tool_taken : Text → Problem

pub record PlanAction : Type 0 where
  pub name : Option Text
  pub description : Option Text

pub record PlanService : Type 0 where
  pub name : Option Text
  pub actions : Option (List PlanAction)

-- A plan; one that is null has no field. A value of the wrong type is `none`.
pub record PlanDoc : Type 0 where
  pub device : Option Text
  pub services : Option (List PlanService)
  pub calls : Field (List (Option Text))

-- The problems, and the names of the tools.
abbrev pub Checked : Type 0
Checked = List Problem × List Text

abbrev pub both : Checked → Checked → Checked
both (p, t) (q, u) = (p ++ q, t ++ u)

abbrev pub problem_if : Bool → Problem → List Problem
problem_if true p = p ∷ []
problem_if false p = []

-- A non-empty string.
abbrev pub filled : Option Text → Option Text
filled none = none
filled (some t) = if is_blank t then none else some t

-- `seen[name] = true` on a plain object, which keeps no entry for `__proto__`.
abbrev pub mark : Text → List Text → List Text
mark n seen = if same n (codes "__proto__") then seen else n ∷ seen

-- The loops over calls, services and actions: an item with no name is one problem and nothing else;
-- a name that was seen is one; then comes what the item's own check finds.
module _ {A : Type 0} (unnamed : Problem) (twice : Text → Problem) (name : A → Option Text)
    (check : Text → A → Checked) where
  abbrev pub check_item : Option Text → A → (List Text → Checked) → List Text → Checked
  check_item none a rest seen = both (unnamed ∷ [], []) (rest seen)
  check_item (some n) a rest seen =
      both (problem_if (contains n seen) (twice n), []) (both (check n a) (rest (mark n seen)))

  unfoldable pub check_each : List Text → List A → Checked
  check_each seen [] = ([], [])
  check_each seen (a ∷ items) = check_item (name a) a (λ seen'. check_each seen' items) seen

-- A service of a loaded specification answers to the address.
abbrev pub matches_service : Address → Text × Option (List Text) → Bool
matches_service a (urn, none) = false
matches_service a (urn, some actions) = same (label_of urn) a.service && contains a.action actions

abbrev pub matches_services : Address → Option Services → Bool
matches_services a none = false
matches_services a (some services) = any (matches_service a) services

-- An address that parses.
abbrev pub address_text : Option Text → Option Text
address_text none = none
address_text (some t) = if is_some (parse_address (some t)) then some t else none

module _ (lower : Text → Text) (device_id_for_name : Text → String) where
  -- The services of the loaded devices by their ids, if they are given.
  abbrev pub resolves : Option (String → Option Services) → Option Address → Bool
  resolves none a = true
  resolves (some specs) none = false
  resolves (some specs) (some a) = matches_services a (specs (device_id_for_name a.device))

  unfoldable pub calls_problems :
      Option (String → Option Services) → Field (List (Option Text)) → List Problem
  calls_problems specs absent = []
  calls_problems specs mistyped = calls_not_an_array ∷ []
  calls_problems specs (given calls) =
      (check_each not_an_address call_twice address_text
        (λ t c. (problem_if (not (resolves specs (parse_address (some t)))) (unresolved t), [])) []
        calls).0

  unfoldable pub predicted_tool_name : Text → Text → Text → Text
  predicted_tool_name device service action =
      slugify lower device ++ (b'_' ∷ (slugify lower service ++ (b'_' ∷ slugify lower action)))

  abbrev pub check_action : List Text → Text → Text → Text → PlanAction → Checked
  check_action existing device service n a =
      let tool = predicted_tool_name device service n in
      (
        problem_if (not (is_some (filled a.description))) (no_description service n)
            ++ problem_if (contains tool existing) (tool_taken tool),
        tool ∷ [],
      )

  abbrev pub check_actions : List Text → Text → Text → Option (List PlanAction) → Checked
  check_actions existing device service none = (no_actions service ∷ [], [])
  check_actions existing device service (some []) = (no_actions service ∷ [], [])
  check_actions existing device service (some (a ∷ actions)) =
      check_each action_unnamed (action_twice service) (λ x. filled x.name)
        (check_action existing device service) [] (a ∷ actions)

  abbrev pub check_services : List Text → Text → Option (List PlanService) → Checked
  check_services existing device none = (no_services ∷ [], [])
  check_services existing device (some []) = (no_services ∷ [], [])
  check_services existing device (some (s ∷ services)) =
      check_each service_unnamed service_twice (λ x. filled x.name)
        (λ n x. check_actions existing device n x.actions) [] (s ∷ services)

  abbrev pub check_device : List Text → Option Text → Option (List PlanService) → Checked
  check_device existing none services = (no_device ∷ [], [])
  check_device existing (some device) services = check_services existing device services

  -- `validatePlan`: `ok` is that there are no problems.
  unfoldable pub validate_plan : PlanDoc → List Text → Option (String → Option Services) → Checked
  validate_plan plan existing specs =
      both (calls_problems specs plan.calls, [])
        (check_device existing (filled plan.device) plan.services)
