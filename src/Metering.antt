-- ===== src/Metering.antt =====
-- lib/metering/redis-provider.js: what a call costs. The account of an API key is a hash in Redis
-- that one script reads and writes in one step; a failure of Redis itself is left out. Money is
-- counted in the least unit of the balance, a signed integer.
pub mod ToolKey
pub mod Charges
use countinghouse.Prelude.{
  ℕ, zero, suc, nat_eq, String, Bool, true, false, ◌&&◌, List, [], ◌∷◌, ◌++◌, Option, none, some,
  is_some, or_else, find, if◌then◌else◌, ◌==◌,
}
use countinghouse.Prelude.Int.{ℤ, pos, ◌-ℤ◌}
use countinghouse.Prelude.Dict.{Dict, get, put}
use countinghouse.Prelude.Text.{Text, codes, text_eq, push_front, same}

-- `LEGACY_TOOL_DELIMITER`
abbrev pub delimiter : Text
delimiter = codes ":::"

-- `deviceID`, `serviceID` and `actionName`
pub record LegacyTool : Type 0 where
  pub device_id : Text
  pub service_id : Text
  pub action_name : Text

unfoldable pub encode_legacy_tool : LegacyTool → Text
encode_legacy_tool t = t.device_id ++ (delimiter ++ (t.service_id ++ (delimiter ++ t.action_name)))

abbrev pub is_colon : ℕ → Bool
is_colon c = nat_eq c b':'

-- `tool.split(':::')`: from the left, without overlaps
unfoldable pub split_delimiter : Text → List Text
split_delimiter (a ∷ b ∷ c ∷ s) =
    let after = split_delimiter s in
    let rest = split_delimiter (b ∷ c ∷ s) in
    if is_colon a && is_colon b && is_colon c then [] ∷ after else push_front a rest
split_delimiter s = s ∷ []

abbrev pub legacy_of : List Text → Option LegacyTool
legacy_of (d ∷ s ∷ a ∷ []) = some (record { device_id = d; service_id = s; action_name = a })
legacy_of _ = none

unfoldable pub decode_legacy_tool : Text → Option LegacyTool
decode_legacy_tool tool = legacy_of (split_delimiter tool)

-- An entry's free calls: `none` for a count that is not there or is no number over 0.
pub record Entry : Type 0 where
  pub count : Option ℕ

-- The field `toolPriceRecord`.
pub data PriceRecord : Type 0 where
  unset malformed : PriceRecord
  table : Dict Text Entry → PriceRecord

-- A device of the field `devices`, with the counts of its services' actions.
pub record LegacyDevice : Type 0 where
  pub device_id : Text
  pub price_record : Dict Text (Dict Text Entry)

pub record Account : Type 0 where
  pub prices : PriceRecord
  pub balance : ℤ
  -- `none` if the field is absent or no JSON.
  pub devices : Option (List LegacyDevice)

pub data Reply : Type 0 where
  free : (balance : ℤ) → (remaining : ℕ) → Reply
  charged : (cost : ℤ) → (balance : ℤ) → Reply
  failed : Reply

abbrev pub count_of : Option (Dict Text Entry) → Text → Option Entry
count_of none action = none
count_of (some actions) action = get action actions

abbrev pub seed_of : Option LegacyDevice → LegacyTool → Option Entry
seed_of none t = none
seed_of (some d) t = count_of (get t.service_id d.price_record) t.action_name

abbrev pub seed_for : Option (List LegacyDevice) → Option LegacyTool → Option Entry
seed_for (some devices) (some t) = seed_of (find (λ d. same d.device_id t.device_id) devices) t
seed_for _ _ = none

-- The free-call count that `recordCall` seeds for a tool from `devices`.
unfoldable pub legacy_seed : Account → Text → Option Entry
legacy_seed account tool = seed_for account.devices (decode_legacy_tool tool)

abbrev pub priced : Account → PriceRecord → ℤ → Account
priced account prices balance = record {
  prices = prices;
  balance = balance;
  devices = account.devices;
}

-- The entry that the script finds: that of the record, or else the seed.
abbrev pub found : Option Entry → Option Entry → Option Entry
found (some e) seed = some e
found none seed = seed

abbrev pub free_calls : Option Entry → ℕ
free_calls none = 0
free_calls (some e) = or_else e.count 0

-- The script from the entry on, with the record it was found in.
abbrev pub charge : Account → Dict Text Entry → Text → ℤ → ℕ → Account × Reply
charge account record_ tool cost zero = (
  priced account account.prices (account.balance -ℤ cost),
  charged cost (account.balance -ℤ cost),
)
charge account record_ tool cost (suc n) = (
  priced account (table (put tool (record { count = some n }) record_)) account.balance,
  free account.balance n,
)

-- `RECORD_CALL_SCRIPT`
abbrev pub run_script : Account → PriceRecord → Text → ℤ → Option Entry → Account × Reply
run_script account malformed tool cost seed = (account, failed)
run_script account unset tool cost seed = charge account [] tool cost (free_calls seed)
run_script account (table prices) tool cost seed =
    charge account prices tool cost (free_calls (found (get tool prices) seed))

unfoldable pub record_call : Account → Text → ℤ → Account × Reply
record_call account tool cost =
    run_script account account.prices tool cost (legacy_seed account tool)

-- `checkBalance`
abbrev pub check_balance : Account → ℤ
check_balance account = account.balance
