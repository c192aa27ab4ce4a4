-- ===== src/Tools.antt =====
-- lib/mcp/tool-name.js and lib/mcp/tool-registry.js: the MCP tools that the loaded devices give, and
-- those that a caller is shown. A specification is the part that the registry reads; `toLowerCase`
-- is a parameter, `trim` is the test that a description is blank. The names in use are a list.
pub mod Slugs
pub mod Names
pub mod Shown
use countinghouse.Prelude.{
  ℕ, zero, suc, ◌+◌, String, string_eq, Bool, true, false, ◌&&◌, ◌||◌, not, List, [], ◌∷◌, ◌++◌,
  Option, none, some, contains, keep, length, leb, nat_eq, or_else, if◌then◌else◌, ◌==◌,
}
use countinghouse.Prelude.Text.{Text, codes, text_eq, split}
use countinghouse.Prelude.Decimal.{decimal}
use countinghouse.Prelude.Dict.{Dict}
use countinghouse.CallAddress.{last_of}

-- `[a-z0-9]`
unfoldable pub is_slug_unit : ℕ → Bool
is_slug_unit c = leb b'a' c && leb c b'z' || leb b'0' c && leb c b'9'

-- `.replace(/[^a-z0-9]+/g, '_')`; the flag says that a run of other units is under way.
unfoldable pub squash : Bool → Text → Text
squash in_run [] = []
squash in_run (c ∷ s) =
    let kept = c ∷ squash false s in
    let run = squash true s in if is_slug_unit c then kept else if in_run then run else b'_' ∷ run

-- `.replace(/^_+/, '')`
unfoldable pub trim_start : Text → Text
trim_start [] = []
trim_start (c ∷ s) = let rest = trim_start s in if nat_eq c b'_' then rest else c ∷ s

abbrev pub drop_blank : ℕ → Text → Text
drop_blank c [] = if nat_eq c b'_' then [] else c ∷ []
drop_blank c (d ∷ s) = c ∷ d ∷ s

-- `.replace(/_+$/, '')`
unfoldable pub trim_end : Text → Text
trim_end [] = []
trim_end (c ∷ s) = drop_blank c (trim_end s)

abbrev pub or_x : Text → Text
or_x [] = codes "x"
or_x (c ∷ s) = c ∷ s

module _ (lower : Text → Text) where
  unfoldable pub slugify : Text → Text
  slugify s = or_x (trim_end (trim_start (squash false (lower s))))

  unfoldable pub service_label : Text → Text
  service_label urn = slugify (last_of (split b':' urn))

-- `${name}_${n}`
unfoldable pub numbered : Text → ℕ → Text
numbered name n = name ++ (b'_' ∷ decimal n)

-- The `while` loop of `dedupeName`, for the rounds that are left.
unfoldable pub first_free : ℕ → Text → ℕ → List Text → Text
first_free zero name n used = numbered name n
first_free (suc rounds) name n used =
    let next = first_free rounds name (suc n) used in
    if contains (numbered name n) used then next else numbered name n

-- The name that `dedupeName` returns, and adds to those in use. One of the first `length used + 1`
-- numbers is free.
unfoldable pub dedupe_name : List Text → Text → Text
dedupe_name used name =
    if not (contains name used) then name else first_free (length used + 1) name 2 used

-- An action of a specification: `none` for a description that is no string or is blank.
pub record Action : Type 0 where
  pub name : Text
  pub description : Option Text
  pub output_schema : Option Text

-- A device's `friendlyName` (`none` also for an empty one), and its `serviceList` with the `actionList` of each service.
pub record Spec : Type 0 where
  pub friendly_name : Option Text
  pub services : Option (Dict Text (Option (List Action)))

pub record Target : Type 0 where
  pub name : Text
  pub device_id : String
  pub service_id : Text
  pub action : Action
  pub description : Text

-- `PLATFORM_TOOL_NAMES` and `AUTHORING_TOOL_NAMES`
abbrev pub reserved_names : List Text
reserved_names =
    codes "countinghouse_check_balance"
    ∷ codes "countinghouse_validate_plan"
    ∷ codes "countinghouse_validate_module"
    ∷ codes "countinghouse_load_module"
    ∷ codes "countinghouse_call_tool"
    ∷ []

-- Where the loop of `buildToolTargets` is: the names in use, and the targets so far.
abbrev pub Built : Type 0
Built = List Text × List Target

module _ (lower : Text → Text) where
  abbrev pub tool_name : Text → Text → Text → Text
  tool_name device service action =
      slugify lower device
      ++ (b'_' ∷ (service_label lower service ++ (b'_' ∷ slugify lower action)))

  abbrev pub add_target : String → Text → Text → Action → Option Text → Built → Built
  add_target device_id device service a none built = built
  add_target device_id device service a (some description) (used, targets) =
      let name = dedupe_name used (tool_name device service a.name) in
      (
        name ∷ used,
        targets
            ++ record {
              name = name;
              device_id = device_id;
              service_id = service;
              action = a;
              description = description;
            }
              ∷ [],
      )

  unfoldable pub add_actions : String → Text → Text → List Action → Built → Built
  add_actions device_id device service [] built = built
  add_actions device_id device service (a ∷ actions) built =
      add_actions device_id device service actions
        (add_target device_id device service a a.description built)

  unfoldable pub add_services : String → Text → Dict Text (Option (List Action)) → Built → Built
  add_services device_id device [] built = built
  add_services device_id device ((service, actions) ∷ services) built =
      add_services device_id device services
        (add_actions device_id device service (or_else actions []) built)

  unfoldable pub add_devices : Dict String Spec → Built → Built
  add_devices [] built = built
  add_devices ((device_id, spec) ∷ specs) built = add_devices specs (
      add_services device_id (or_else spec.friendly_name (codes device_id))
        (or_else spec.services []) built)

  unfoldable pub build_tool_targets : Dict String Spec → List Target
  build_tool_targets specs = (add_devices specs (reserved_names, [])).1

-- `filterTargetsByAuth`: the devices are those that the provider lists for the key.
unfoldable pub filter_targets : Bool → Option String → List String → List Target → List Target
filter_targets debug key devices targets = if debug then targets else elim key [
  | none ↦ []
  | some k ↦
      if contains "*" devices then targets else keep (λ t. contains t.device_id devices) targets
]
