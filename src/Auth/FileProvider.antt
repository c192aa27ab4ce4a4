-- ===== src/Auth/FileProvider.antt =====
-- lib/auth/file-provider.js. A value that the code tests with `typeof`, `Array.isArray` or
-- `=== true` is an `Option` or a `Bool` that says how the test comes out.
use countinghouse.Prelude.{
  String, Bool, true, false, ◌||◌, List, [], ◌∷◌, Option, none, some, contains, ◌==◌, string_eq,
  or_else, if◌then◌else◌,
}
use countinghouse.Prelude.Dict.{Dict, get}

pub record Entry : Type 0 where
  pub user_name : Option String
  pub devices : Option (List String)
  pub admin : Bool
  pub runs_modules : Option (List String)

-- The parsed auth.json; an entry may be `null`.
abbrev pub Config : Type 0
Config = Dict String (Option Entry)

pub record FileAuthProvider : Type 0 where
  pub env_key : Option String
  pub config : Config

-- The file as `_load` meets it.
pub data AuthFile : Type 0 where
  missing unreadable not_json : AuthFile
  parsed : Config → AuthFile

-- `_generateDemoConfig`, for the random key.
abbrev pub demo_config : String → Config
demo_config demo_key =
    (
      demo_key,
      some (record {
        user_name = some "demo";
        devices = some ("*" ∷ []);
        admin = false;
        runs_modules = none;
      }),
    )
    ∷ []

unfoldable pub load : Option String → String → AuthFile → FileAuthProvider
load (some key) demo_key missing = record { env_key = some key; config = [] }
load none demo_key missing = record { env_key = none; config = demo_config demo_key }
load env_key demo_key unreadable = record { env_key = env_key; config = [] }
load env_key demo_key not_json = record { env_key = env_key; config = [] }
load env_key demo_key (parsed config) = record { env_key = env_key; config = config }

pub data AuthError : Type 0 where
  unknown_user user_has_no_device userdb_not_available : AuthError

pub record Identity : Type 0 where
  pub user_name : String
  pub devices : List String
  pub admin : Bool

-- `safeEqual`: false unless both are strings.
unfoldable pub safe_equal : Option String → Option String → Bool
safe_equal (some a) (some b) = a == b
safe_equal _ _ = false

abbrev pub identity_of : String → Option (Option Entry) → Option Identity
identity_of key none = none
identity_of key (some none) = none
identity_of key (some (some e)) = some (record {
  user_name = or_else e.user_name key;
  devices = or_else e.devices [];
  admin = e.admin;
})

abbrev pub env_identity : Identity
env_identity = record { user_name = "env-key-user"; devices = "*" ∷ []; admin = true }

-- `_lookup`; a key that is no string is `none`.
unfoldable pub lookup : Option String → FileAuthProvider → Option Identity
unfolding safe_equal
lookup none p = none
lookup (some key) p =
    if safe_equal (some key) p.env_key
    then some env_identity
    else identity_of key (get key p.config)

pub record Verdict : Type 0 where
  pub ok : Bool
  pub user_name : Option String
  pub is_admin : Bool
  pub err : Option AuthError

abbrev pub covers : List String → String → Bool
covers devices device = contains "*" devices || contains device devices

abbrev pub accepted : Identity → Verdict
accepted who = record {
  ok = true;
  user_name = some who.user_name;
  is_admin = who.admin;
  err = none;
}

abbrev pub judge : Option Identity → Option String → Verdict
judge none device = record {
  ok = false;
  user_name = none;
  is_admin = false;
  err = some unknown_user;
}
judge (some who) none = accepted who
judge (some who) (some device) = if covers who.devices device then accepted who else record {
  ok = false;
  user_name = some who.user_name;
  is_admin = who.admin;
  err = some user_has_no_device;
}

unfoldable pub authenticate : Option String → Option String → FileAuthProvider → Verdict
unfolding lookup
authenticate key device p = judge (lookup key p) device

unfoldable pub list_devices : Option String → FileAuthProvider → List String
unfolding lookup
list_devices key p = elim (lookup key p) [ none ↦ [] | some who ↦ who.devices ]

abbrev pub claims : String → Option Entry → Bool
claims name none = false
claims name (some e) = contains name (or_else e.runs_modules [])

-- The loop of `identityForModule`.
unfoldable pub claimants : String → Config → List String
claimants name [] = []
claimants name ((key, e) ∷ config) =
    let rest = claimants name config in if claims name e then key ∷ rest else rest

pub record ModuleIdentity : Type 0 where
  pub api_key : Option String
  pub conflicts : Option (List String)

abbrev pub identity_from : List String → ModuleIdentity
identity_from [] = record { api_key = none; conflicts = none }
identity_from (key ∷ []) = record { api_key = some key; conflicts = none }
identity_from (key ∷ more) = record { api_key = none; conflicts = some (key ∷ more) }

unfoldable pub identity_for_module : String → FileAuthProvider → ModuleIdentity
identity_for_module name p = identity_from (claimants name p.config)
