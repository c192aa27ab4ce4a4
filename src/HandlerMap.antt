-- ===== src/HandlerMap.antt =====
-- lib/handler-map.js: the handlers that a module exports, checked against its specification in both
-- directions. A problem is a constructor in place of its message. What a plain
-- object inherits is a parameter. `loadConventionHandlers` reads files and is left out.
pub mod Assembled
use countinghouse.Prelude.{
  ℕ, zero, suc, Bool, true, false, ◌&&◌, not, List, [], ◌∷◌, ◌++◌, Option, none, some, map, all,
  contains, is_some, or_else, length, if◌then◌else◌,
}
use countinghouse.Prelude.Text.{Text, codes, starts_with, text_eq}
use countinghouse.Prelude.Dict.{Dict, get, put, values, keys}
use countinghouse.Permissions.Parse.{somes}
use countinghouse.Broker.Namespace.{drop}

-- `SERVICE_URN_SEP`
abbrev pub service_urn_sep : Text
service_urn_sep = codes ":serviceID:"

-- `shortNameOf`: what follows the last separator.
abbrev pub after_sep : Option Text → Text → Option Text
after_sep (some later) s = some later
after_sep none s =
    if starts_with service_urn_sep s then some (drop (length service_urn_sep) s) else none

unfoldable pub short_name_of : Text → Option Text
short_name_of [] = none
short_name_of (c ∷ s) = after_sep (short_name_of s) (c ∷ s)

-- `serviceList`: the actions of each URN, `none` where there is no list; a name that is no string is
-- `none`.
abbrev pub ServiceList : Type 0
ServiceList = Dict Text (Option (List (Option Text)))

abbrev pub Index : Type 0
Index = Dict Text (List Text)

abbrev pub add_urn : Text → Option Text → Index → Index
add_urn urn none index = index
add_urn urn (some short) index = put short (or_else (get short index) [] ++ urn ∷ []) index

-- The loop of `buildServiceIndex`.
unfoldable pub build_service_index : ServiceList → Index → Index
build_service_index [] index = index
build_service_index ((urn, actions) ∷ services) index =
    build_service_index services (add_urn urn (short_name_of urn) index)

abbrev pub action_names_of : Option (List (Option Text)) → List Text
action_names_of none = []
action_names_of (some names) = somes names

-- The handlers of a service, by the names of the actions; `false` for one that is no function.
abbrev pub Handlers : Type 0
Handlers = Dict Text Bool

-- What a module exports: no plain object, or one, with `none` for a service that is no plain object.
pub data Exported : Type 0 where
  no_object : Exported
  object : Dict Text (Option Handlers) → Exported

abbrev pub are_functions : Option Handlers → Bool
are_functions none = false
are_functions (some handlers) = all (λ b. b) (values handlers)

abbrev pub is_filled : Dict Text (Option Handlers) → Bool
is_filled [] = false
is_filled (s ∷ services) = true

-- `isHandlerMap`
abbrev pub is_handler_map : Dict Text (Option Handlers) → Bool
is_handler_map services = is_filled services && all are_functions (values services)

pub data Problem : Type 0 where
  no_handler_map : Problem
  unknown_service ambiguous_service : Text → Problem
  unknown_action missing_action : Text → Text → Problem
  no_short_name : Text → Problem
  missing_service : Text → Problem

abbrev pub problem_unless : Bool → Problem → List Problem
problem_unless true p = []
problem_unless false p = p ∷ []

-- The inner loop of the first direction.
unfoldable pub check_handlers : Text → List Text → List Text → List Problem
check_handlers short declared [] = []
check_handlers short declared (name ∷ names) =
    problem_unless (contains name declared) (unknown_action short name)
    ++ check_handlers short declared names

abbrev pub check_key : ServiceList → Text → List Text → Option (List Text) → List Problem
check_key specs short names none = unknown_service short ∷ []
check_key specs short names (some []) = unknown_service short ∷ []
check_key specs short names (some (urn ∷ [])) =
    check_handlers short (action_names_of (or_else (get urn specs) none)) names
check_key specs short names (some (urn ∷ v ∷ urns)) = ambiguous_service short ∷ []

abbrev pub handler_names : Option Handlers → List Text
handler_names none = []
handler_names (some handlers) = keys handlers

-- Direction 1.
unfoldable pub check_keys : ServiceList → Index → Dict Text (Option Handlers) → List Problem
check_keys specs index [] = []
check_keys specs index ((short, handlers) ∷ services) =
    check_key specs short (handler_names handlers) (get short index)
    ++ check_keys specs index services

-- What a lookup by a name that is no key of a plain object finds: as a service, what its own lookups
-- find to be functions; as an action, whether it is a function.
pub record Inherited : Type 0 where
  pub service : Text → Option (Text → Bool)
  pub action : Text → Bool

abbrev pub has_function : Inherited → Handlers → Text → Bool
has_function inherited handlers name = or_else (get name handlers) (inherited.action name)

-- The inner loop of the second direction.
unfoldable pub check_declared : Text → (Text → Bool) → List Text → List Problem
check_declared short has [] = []
check_declared short has (name ∷ names) =
    problem_unless (has name) (missing_action short name) ++ check_declared short has names

abbrev pub check_service : Text → List Text → Option (Text → Bool) → List Problem
check_service short declared none = missing_service short ∷ []
check_service short declared (some has) = check_declared short has declared

-- `handlerMap[short]`, by what its lookups find to be functions. A service that is no plain object
-- does not come here.
abbrev pub actions_of : Inherited → Text → Option (Option Handlers) → Option (Text → Bool)
actions_of inherited short (some (some handlers)) = some (has_function inherited handlers)
actions_of inherited short (some none) = none
actions_of inherited short none = inherited.service short

abbrev pub check_urn :
    Inherited → Dict Text (Option Handlers) → Text → List Text → Option Text → List Problem
check_urn inherited services urn declared none = no_short_name urn ∷ []
check_urn inherited services urn declared (some short) =
    check_service short declared (actions_of inherited short (get short services))

-- Direction 2.
unfoldable pub check_urns : Inherited → Dict Text (Option Handlers) → ServiceList → List Problem
check_urns inherited services [] = []
check_urns inherited services ((urn, actions) ∷ specs) =
    check_urn inherited services urn (action_names_of actions) (short_name_of urn)
    ++ check_urns inherited services specs

abbrev pub validate_object : Inherited → ServiceList → Dict Text (Option Handlers) → List Problem
validate_object inherited specs services =
    if is_handler_map services
    then check_keys specs (build_service_index specs []) services
      ++ check_urns inherited services specs
    else no_handler_map ∷ []

unfoldable pub validate_handler_map : Inherited → ServiceList → Exported → List Problem
validate_handler_map inherited specs no_object = no_handler_map ∷ []
validate_handler_map inherited specs (object services) = validate_object inherited specs services
