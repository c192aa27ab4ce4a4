-- ===== src/Examples/Grants.antt =====
-- A grant of lib/peer-channel-broker.js, for a key that passes the check for one device.
use countinghouse.Prelude.{◌≡◌, refl, String, string_eq, ◌==◌, [], ◌∷◌, none, some, if◌then◌else◌}
use countinghouse.Prelude.Dict.{Dict, get}
use countinghouse.Peer.Broker.{
  Broker, new_broker, UserAuth, Entry, handle_request, grant_key, grant_of, recheck_grants,
  answer_all, check_answered,
}
use countinghouse.Peer.Broker.Revocation.{AllAllowed, recheck-allowed}

abbrev auth : UserAuth
auth device key = if device == "lamp" then none else some "UNKNOWN_USER"

abbrev devices : Dict String String
devices = ("lamp", "2") ∷ []

abbrev missing : String → String
missing device = "DEVICE_NOT_FOUND"

abbrev asked : Broker
asked = (handle_request auth devices missing (some "lamp") (some "key") "1" new_broker).0

abbrev entry : Entry
entry = record {
  serial = 0;
  caller = "1";
  callee = "2";
  grants = (grant_key (some "key") "lamp", grant_of (some "key") "lamp") ∷ [];
}

abbrev opened : Broker
opened = record { registry = ("1:2", entry) ∷ []; next_serial = 1; recheck_in_flight = 0 }

recheck-allowed_example : (get "1:2" opened.registry ≡ some entry) × AllAllowed auth entry.grants
unfolding get recheck_grants answer_all check_answered
recheck-allowed_example = recheck-allowed auth opened "1:2" entry refl refl
