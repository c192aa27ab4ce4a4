-- ===== src/Auth/UserAuth.antt =====
-- lib/user-auth.js, over any provider. A session has the fields that the callers read.
use countinghouse.Prelude.{String, Bool, true, Option, none, some, or_else, if◌then◌else◌}
use countinghouse.Auth.FileProvider.{
  FileAuthProvider, AuthError, unknown_user, userdb_not_available, Verdict, authenticate,
  safe_equal,
}

pub record Options : Type 0 where
  pub debug : Bool
  pub debug_key : Option String

pub record Session : Type 0 where
  pub user_name : Option String
  pub app_key : Option String
  pub device_id : Option String
  pub is_admin : Bool

-- What a provider's `authenticate` calls back with: an error of its own, or a verdict.
pub data Answer : Type 0 where
  failed : Answer
  judged : Verdict → Answer

abbrev pub Provider : Type 0
Provider = Option String → Option String → Answer

pub data Auth : Type 0 where
  denied : AuthError → Auth
  granted : Session → Auth

abbrev pub debug_session : Option String → Option String → Session
debug_session app_key device = record {
  user_name = some "debug";
  app_key = app_key;
  device_id = device;
  is_admin = true;
}

abbrev pub conclude : Option String → Option String → Answer → Auth
conclude app_key device failed = denied userdb_not_available
conclude app_key device (judged v) =
    if v.ok
    then granted (record {
      user_name = v.user_name;
      app_key = app_key;
      device_id = device;
      is_admin = v.is_admin;
    })
    else denied (or_else v.err unknown_user)

unfoldable pub user_auth : Options → Provider → Option String → Option String → Auth
user_auth o provider device none =
    if o.debug
    then elim o.debug_key [
      | none ↦ granted (debug_session none device)
      | some k ↦ denied unknown_user
    ]
    else denied unknown_user
user_auth o provider device (some key) =
    if o.debug
    then elim o.debug_key [
      | none ↦ granted (debug_session (some key) device)
      | some k ↦
          if safe_equal (some key) (some k)
          then granted (debug_session (some key) device)
          else denied unknown_user
    ]
    else conclude (some key) device (provider (some key) device)

-- The provider that is configured by default.
abbrev pub file_provider : FileAuthProvider → Provider
file_provider p key device = judged (authenticate key device p)
