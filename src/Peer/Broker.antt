-- ===== src/Peer/Broker.antt =====
-- lib/peer-channel-broker.js: which workers are connected, under which grants. A worker is named by
-- its `workerId`, in decimal; an entry of the registry is an object that `closeRevoked` compares by
-- identity, `serial`. The check of lib/user-auth.js is a parameter of the definitions that make it:
-- the code of its error, or `none`. A message to a worker is an effect.
pub mod Revocation
pub mod Invalidation
use Prim.Native.String
use countinghouse.Prelude.{
  ℕ, ◌+◌, ◌-◌, String, Bool, true, false, ◌&&◌, ◌||◌, not, List, [], ◌∷◌, ◌++◌, Option, none, some,
  length, map, ltb, ◌==◌, string_eq, ℕ_eq, is_some, if◌then◌else◌,
}
use countinghouse.Prelude.Dict.{Dict, get, put, del}

pub record Grant : Type 0 where
  pub app_key : Option String
  pub device_id : String

pub record Entry : Type 0 where
  pub serial : ℕ
  pub caller : String
  pub callee : String
  pub grants : Dict String Grant

abbrev pub Registry : Type 0
Registry = Dict String Entry

pub record Broker : Type 0 where
  pub registry : Registry
  pub next_serial : ℕ
  pub recheck_in_flight : ℕ

abbrev pub new_broker : Broker
new_broker = record { registry = []; next_serial = 0; recheck_in_flight = 0 }

pub data Effect : Type 0 where
  -- to the caller: the device, and the code of the error
  deny : String → String → String → Effect
  -- to the caller: the device, the callee, and whether a new port goes along
  grant_sent : String → String → String → Bool → Effect
  -- to the callee: the caller and the device; it acknowledges
  allow_sent : String → String → String → Effect
  -- to the callee: the caller, the key and the device, with its port
  open_sent : String → String → Option String → String → Effect
  -- to a worker: the other one
  invalidate_sent : String → String → Effect

abbrev pub UserAuth : Type 0
UserAuth = String → Option String → Option String

-- A template puts `null` for a key that is null.
abbrev pub shown : Option String → String
shown none = "null"
shown (some key) = key

unfoldable pub grant_key : Option String → String → String
grant_key app_key device = String.◌++◌ (shown app_key) (String.◌++◌ "\0" device)

unfoldable pub pair_key : String → String → String
pair_key caller callee = String.◌++◌ caller (String.◌++◌ ":" callee)

abbrev pub grant_of : Option String → String → Grant
grant_of app_key device = record { app_key = app_key; device_id = device }

grant_on : Option Entry → String → Option String → String → String → Broker → Broker × List Effect
grant_on (some e) device app_key caller callee b = (
  record b {
    registry =
        put (pair_key caller callee)
          (record e { grants = put (grant_key app_key device) (grant_of app_key device) e.grants })
          b.registry;
  },
  allow_sent callee caller device ∷ [],
)
grant_on none device app_key caller callee b = (
  record b {
    registry =
        put (pair_key caller callee)
          (record {
            serial = b.next_serial;
            caller = caller;
            callee = callee;
            grants = put (grant_key app_key device) (grant_of app_key device) [];
          })
          b.registry;
    next_serial = b.next_serial + 1;
  },
  open_sent callee caller app_key device ∷ grant_sent caller device callee true ∷ [],
)

unfoldable pub grant : String → Option String → String → String → Broker → Broker × List Effect
unfolding grant_on
grant device app_key caller callee b =
    grant_on (get (pair_key caller callee) b.registry) device app_key caller callee b

-- The callee's acknowledgement of `allow_sent`, or the code of its error.
unfoldable pub allow_acknowledged : String → String → String → Option String → List Effect
allow_acknowledged device caller callee none = grant_sent caller device callee false ∷ []
allow_acknowledged device caller callee (some code) = deny caller device code ∷ []

-- `handleRequest` once the target is known: `host` is `deviceMap[target]`, and `missing` the code of
-- `missingDeviceError(target)`.
request_to :
    UserAuth
    → Option String
    → String
    → String
    → Option String
    → String
    → Broker
    → Broker × List Effect
request_to auth none missing device app_key caller b =
    if missing == "DEVICE_NOT_FOUND"
    then (b, deny caller device "DEVICE_NOT_FOUND" ∷ [])
    else elim (auth device app_key) [
      | none ↦ (b, deny caller device missing ∷ [])
      | some code ↦ (b, deny caller device code ∷ [])
    ]
request_to auth (some callee) missing device app_key caller b =
    if callee == caller
    then (b, deny caller device "PEER_SELF_TARGET" ∷ [])
    else elim (auth device app_key) [
      | none ↦ grant device app_key caller callee b
      | some code ↦ (b, deny caller device code ∷ [])
    ]

-- A target that is no string is `none`.
unfoldable pub handle_request :
    UserAuth
    → Dict String String
    → (String → String)
    → Option String
    → Option String
    → String
    → Broker
    → Broker × List Effect
unfolding request_to
handle_request auth device_map missing none app_key caller b = (b, [])
handle_request auth device_map missing (some device) app_key caller b =
    request_to auth (get device device_map) (missing device) device app_key caller b

-- What `recheckGrants` asks for: a grant of an entry.
pub record Check : Type 0 where
  pub pair : String
  pub serial : ℕ
  pub grant : Grant

abbrev pub checks_of : String → ℕ → Dict String Grant → List Check
checks_of pair serial [] = []
checks_of pair serial ((k, g) ∷ gs) =
    record { pair = pair; serial = serial; grant = g } ∷ checks_of pair serial gs

abbrev pub all_checks : Registry → List Check
all_checks [] = []
all_checks ((pair, e) ∷ es) = checks_of pair e.serial e.grants ++ all_checks es

-- `recheckGrants`: the checks that it starts, unless some are still under way.
unfoldable pub recheck_grants : Broker → Broker × List Check
recheck_grants b =
    if ltb 0 b.recheck_in_flight
    then (b, [])
    else (record b { recheck_in_flight = length (all_checks b.registry) }, all_checks b.registry)

abbrev pub closed_effects : Entry → List Effect
closed_effects e = invalidate_sent e.caller e.callee ∷ invalidate_sent e.callee e.caller ∷ []

close_found : Option Entry → Check → Broker → Broker × List Effect
close_found none c b = (b, [])
close_found (some e) c b =
    if e.serial == c.serial
    then (record b { registry = del c.pair b.registry }, closed_effects e)
    else (b, [])

unfoldable pub close_revoked : Check → Broker → Broker × List Effect
unfolding close_found
close_revoked c b = close_found (get c.pair b.registry) c b

-- The answer to a check.
unfoldable pub check_answered : Check → Option String → Broker → Broker × List Effect
check_answered c none b = (record b { recheck_in_flight = b.recheck_in_flight - 1 }, [])
check_answered c (some code) b =
    close_revoked c (record b { recheck_in_flight = b.recheck_in_flight - 1 })

-- All the answers of a pass, in order.
unfoldable pub answer_all : UserAuth → List Check → Broker → Broker
answer_all auth [] b = b
answer_all auth (c ∷ cs) b =
    answer_all auth cs (check_answered c (auth c.grant.device_id c.grant.app_key) b).0

abbrev pub involves : String → Entry → Bool
involves worker e = e.caller == worker || e.callee == worker

-- The message to the other party of an entry.
abbrev pub tell_other : String → Entry → List Effect
tell_other worker e =
    let other = if e.caller == worker then e.callee else e.caller in
    if not (other == worker) then invalidate_sent other worker ∷ [] else []

-- The loop of `invalidateWorker`: the keys to remove, and the messages.
unfoldable pub involved_pairs : String → Registry → List String × List Effect
involved_pairs worker [] = ([], [])
involved_pairs worker ((pair, e) ∷ es) =
    let (pairs, effects) = involved_pairs worker es in
    if involves worker e then (pair ∷ pairs, tell_other worker e ++ effects) else (pairs, effects)

unfoldable pub del_all : List String → Registry → Registry
del_all [] d = d
del_all (pair ∷ pairs) d = del_all pairs (del pair d)

unfoldable pub invalidate_worker : String → Broker → Broker × List Effect
invalidate_worker worker b =
    let (pairs, effects) = involved_pairs worker b.registry in
    (record b { registry = del_all pairs b.registry }, effects)
