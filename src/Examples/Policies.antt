-- ===== src/Examples/Policies.antt =====
-- A policy for a module, lib/module-permissions.js.
use countinghouse.Prelude.{string_eq, ℕ_eq, true, false, [], ◌∷◌, none, some}
use countinghouse.Prelude.Text.{Text, codes}
use countinghouse.Permissions.{r, NetGrant, Limits, Declared}
use countinghouse.Permissions.Hosts.{Wanted}
use countinghouse.Permissions.Narrow.{Policy, narrow, no_limits}
use countinghouse.Permissions.Safety.{IsWithin, narrow-IsWithin}

abbrev unchanged : Text → Text
unchanged t = t

abbrev wild : NetGrant
wild = record { host = codes "*.example.org"; ports = some (443 ∷ []) }

abbrev declared : Declared
declared = record {
  fs = record { path = codes "/srv"; access = r } ∷ [];
  net = wild ∷ [];
  env = "TOKEN" ∷ [];
  limits = no_limits;
}

abbrev wanted : Wanted
wanted = record { host = some (codes "api.example.org"); ports = some (443 ∷ []) }

abbrev policy : Policy
policy = record {
  as_declared = false;
  fs = record { path = some (codes "/srv/data"); access = some r } ∷ [];
  net = wanted ∷ [];
  env = ("TOKEN", none) ∷ ("HOME", none) ∷ [];
  limits = no_limits;
}

abbrev ceilings : Limits
ceilings k = some 512

abbrev requested : Limits
requested k = some 1024

narrow-IsWithin_example :
    IsWithin unchanged unchanged declared
      (narrow unchanged unchanged declared (some policy) ceilings true)
narrow-IsWithin_example = narrow-IsWithin unchanged unchanged declared (some policy) ceilings true
