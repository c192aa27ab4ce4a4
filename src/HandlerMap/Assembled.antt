-- ===== src/HandlerMap/Assembled.antt =====
-- When lib/handler-map.js finds no problem.
use countinghouse.Prelude.{
  ◌≡◌, ◌⊎◌, Bool, true, List, [], ◌∷◌, Option, none, some, contains, or_else, All,
}
use countinghouse.Prelude.Text.{Text, text_eq}
use countinghouse.Prelude.Dict.{Dict, get}
use countinghouse.HandlerMap.{
  short_name_of, ServiceList, Index, build_service_index, action_names_of, Handlers, Exported,
  no_object, object, is_handler_map, handler_names, Inherited,
}

-- A key of the handlers names one service, and each handler one of its actions.
abbrev pub IsKnown : ServiceList → Index → Text × Option Handlers → Type 0
IsKnown specs index (short, handlers) =
    (urn : Text) × (get short index ≡ some (urn ∷ []))
    × All (λ n. contains n (action_names_of (or_else (get urn specs) none)) ≡ true)
        (handler_names handlers)

module _ (inherited : Inherited) where
  -- The handlers have a function of that name, or none of their own and one that they inherit.
  abbrev pub HasHandler : Handlers → Text → Type 0
  HasHandler handlers n =
      (get n handlers ≡ some true) ⊎ ((get n handlers ≡ none) × (inherited.action n ≡ true))

  -- The service of that name handles the actions; or there is none, and what the map inherits
  -- under its name has a function for each of them.
  abbrev pub HasService : Dict Text (Option Handlers) → List Text → Text → Type 0
  HasService services declared short =
      ((handlers : Handlers) × (get short services ≡ some (some handlers))
        × All (HasHandler handlers) declared)
      ⊎ ((get short services ≡ none)
          × ((has : Text → Bool) × (inherited.service short ≡ some has)
              × All (λ n. has n ≡ true) declared))

  -- A service has a short name, under which each of its actions has a function.
  abbrev pub IsHandled : Dict Text (Option Handlers) → Text × Option (List (Option Text)) → Type 0
  IsHandled services (urn, actions) =
      (short : Text) × (short_name_of urn ≡ some short)
      × HasService services (action_names_of actions) short

  -- The two sides agree.
  abbrev pub IsAssembled : ServiceList → Exported → Type 0
  IsAssembled specs no_object = ⊥
  IsAssembled specs (object services) =
      (is_handler_map services ≡ true)
      × All (IsKnown specs (build_service_index specs [])) services
      × All (IsHandled services) specs
