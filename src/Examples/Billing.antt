-- ===== src/Examples/Billing.antt =====
-- Calls of an account with one free call, lib/metering/redis-provider.js.
use countinghouse.Prelude.{◌+◌, ◌≡◌, refl, List, [], ◌∷◌, none, some}
use countinghouse.Prelude.Int.{pos, ◌+ℤ◌}
use countinghouse.Prelude.Text.{codes}
use countinghouse.Metering.{Account, table, LegacyTool, encode_legacy_tool, decode_legacy_tool}
use countinghouse.Metering.Charges.{
  Call, allowance, record_calls, total_freed, total_cost, record_calls-accounts,
}
use countinghouse.Metering.ToolKey.{decode-encode_legacy_tool}

abbrev account : Account
account = record {
  prices = table ((codes "scan", record { count = some 1 }) ∷ []);
  balance = pos 10;
  devices = none;
}

abbrev call : Call
call = record { tool = codes "scan"; cost = pos 3 }

abbrev calls : List Call
calls = call ∷ call ∷ record { tool = codes "other"; cost = pos 1 } ∷ []

record_calls-accounts_example :
    (allowance account (codes "scan")
      ≡ total_freed (codes "scan") (record_calls account calls).1
        + allowance (record_calls account calls).0 (codes "scan"))
    × (pos 10 ≡ (record_calls account calls).0.balance +ℤ total_cost (record_calls account calls).1)
record_calls-accounts_example = record_calls-accounts account calls (codes "scan")

abbrev tool : LegacyTool
tool = record {
  device_id = codes "d1";
  service_id = codes "urn:x:files";
  action_name = codes "list";
}

decode-encode_legacy_tool_example : decode_legacy_tool (encode_legacy_tool tool) ≡ some tool
decode-encode_legacy_tool_example =
    decode-encode_legacy_tool tool refl
      (refl, (refl, (refl, (refl, (refl, (refl, (refl, (refl, (refl, refl)))))))))
      (refl, (refl, tt))
