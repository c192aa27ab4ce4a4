-- ===== src/Examples/Keys.antt =====
-- Keys at lib/auth/file-provider.js and lib/user-auth.js.
use countinghouse.Prelude.{
  ◌≡◌, ◌↔◌, refl, String, string_eq, true, false, [], ◌∷◌, Option, none, some,
}
use countinghouse.Prelude.Dict.{get}
use countinghouse.Auth.FileProvider.{Entry, FileAuthProvider, authenticate, safe_equal}
use countinghouse.Auth.UserAuth.{Options, Session, user_auth}
use countinghouse.Auth.Permits.{Permits, authenticate_iff, user_auth-Permits}

abbrev alice : Entry
alice = record {
  user_name = some "alice";
  devices = some ("lamp" ∷ []);
  admin = true;
  runs_modules = some ("scan" ∷ []);
}

abbrev provider : FileAuthProvider
provider = record { env_key = none; config = ("key", some alice) ∷ [] }

abbrev given : Option String
given = some "key"

abbrev served : Options
served = record { debug = false; debug_key = none }

abbrev session : Session
session = record {
  user_name = some "alice";
  app_key = some "key";
  device_id = some "lamp";
  is_admin = true;
}

authenticate_iff_example :
    ((authenticate (some "key") (some "lamp") provider).ok ≡ true) ↔ Permits provider "key" "lamp"
authenticate_iff_example = authenticate_iff provider "key" "lamp"

user_auth-Permits_example :
    (k : String) × (given ≡ some k)
    × Permits provider k "lamp"
    × (session.app_key ≡ some k)
    × (session.device_id ≡ some "lamp")
unfolding user_auth authenticate get safe_equal
user_auth-Permits_example = user_auth-Permits served provider given "lamp" session refl refl
