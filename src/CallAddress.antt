-- ===== src/CallAddress.antt =====
-- lib/call-address.js: an address `<module>/<service>.<action>` of a composition, and the service of
-- the target's specification that it names. The UUID that `deviceIDForName` hashes is left out.
pub mod Split
pub mod Format
pub mod Resolve
use countinghouse.Prelude.{
  ℕ_eq, Bool, true, false, ◌||◌, not, List, [], ◌∷◌, ◌++◌, Option, none, some, contains, keep, map,
  if◌then◌else◌,
}
use countinghouse.Prelude.Text.{Text, codes, same, text_eq, split}
use countinghouse.Prelude.Dict.{Dict, get, keys}

pub record Address : Type 0 where
  pub device : Text
  pub service : Text
  pub action : Text

abbrev pub is_blank : Text → Bool
is_blank [] = true
is_blank (c ∷ s) = false

abbrev pub read_service : Text → List Text → Option Address
read_service device (service ∷ action ∷ []) =
    if is_blank device || is_blank service || is_blank action
    then none
    else if contains b'.' device
    then none
    else some (record { device = device; service = service; action = action })
read_service device _ = none

abbrev pub read_device : List Text → Option Address
read_device (device ∷ rest ∷ []) = read_service device (split b'.' rest)
read_device _ = none

-- `none` is an address that is no string.
unfoldable pub parse_address : Option Text → Option Address
parse_address none = none
parse_address (some address) = read_device (split b'/' address)

-- What `resolveAddress` answers: the service's URN, or an error with what its message lists.
pub data Resolution : Type 0 where
  not_an_address declares_no_services : Resolution
  no_such_service : List Text → Resolution
  ambiguous_label : List Text → Resolution
  no_such_action : List Text → Resolution
  resolved : Text → Resolution

-- `serviceList`: for each URN the names of its `actionList`, `none` if that is no array.
abbrev pub Services : Type 0
Services = Dict Text (Option (List Text))

abbrev pub last_of : List Text → Text
last_of [] = []
last_of (t ∷ []) = t
last_of (t ∷ u ∷ ts) = last_of (u ∷ ts)

-- `urn.split(':').pop()`
unfoldable pub label_of : Text → Text
label_of urn = last_of (split b':' urn)

-- The names of the actions of a service.
abbrev pub actions_in : Option (Option (List Text)) → List Text
actions_in (some (some actions)) = actions
actions_in _ = []

abbrev pub resolve_match : Services → Address → List Text → Resolution
resolve_match services parsed [] = no_such_service (map label_of (keys services))
resolve_match services parsed (urn ∷ []) =
    if not (contains parsed.action (actions_in (get urn services)))
    then no_such_action (actions_in (get urn services))
    else resolved urn
resolve_match services parsed (urn ∷ other ∷ more) = ambiguous_label (urn ∷ other ∷ more)

unfoldable pub resolve_address : Option Services → Option Address → Resolution
resolve_address services none = not_an_address
resolve_address none (some parsed) = declares_no_services
resolve_address (some services) (some parsed) =
    resolve_match services parsed (keep (λ urn. same (label_of urn) parsed.service) (keys services))
