-- ===== src/Metering/ToolKey.antt =====
-- The tool keys that lib/metering/redis-provider.js encodes and decodes.
use countinghouse.Prelude.{◌≡◌, refl, false, ◌&&◌, [], ◌∷◌, ◌++◌, some, arith}
use countinghouse.Prelude.Text.{Text}
use countinghouse.Metering.{
  delimiter, LegacyTool, encode_legacy_tool, is_colon, split_delimiter, decode_legacy_tool,
}

-- A text that the delimiter can follow: no three colons in a row, none at the end.
abbrev pub IsPlain : Text → Type 0
IsPlain [] = Unit
IsPlain (a ∷ []) = is_colon a ≡ false
IsPlain (a ∷ b ∷ []) = is_colon b ≡ false
IsPlain (a ∷ b ∷ c ∷ s) = ((is_colon a && is_colon b && is_colon c) ≡ false) × IsPlain (b ∷ c ∷ s)

abbrev pub LacksDelimiter : Text → Type 0
LacksDelimiter (a ∷ b ∷ c ∷ s) =
    ((is_colon a && is_colon b && is_colon c) ≡ false) × LacksDelimiter (b ∷ c ∷ s)
LacksDelimiter _ = Unit

split-plain :
    (t s : Text) → IsPlain t → split_delimiter (t ++ (delimiter ++ s)) ≡ t ∷ split_delimiter s
unfolding split_delimiter
split-plain [] s h = refl
split-plain (a ∷ []) s h = rw h refl
split-plain (a ∷ b ∷ []) s h = ground (arith, h)
split-plain (a ∷ b ∷ c ∷ t) s h = rw (h.0, split-plain (b ∷ c ∷ t) s h.1) refl

split-lacking : (t : Text) → LacksDelimiter t → split_delimiter t ≡ t ∷ []
unfolding split_delimiter
split-lacking [] h = refl
split-lacking (a ∷ []) h = refl
split-lacking (a ∷ b ∷ []) h = refl
split-lacking (a ∷ b ∷ c ∷ t) h = rw (h.0, split-lacking (b ∷ c ∷ t) h.1) refl

-- A tool key decodes to the device, service and action it was encoded from, if no part holds three
-- colons in a row and the device and the service do not end in a colon.
pub decode-encode_legacy_tool :
    (t : LegacyTool)
    → IsPlain t.device_id
    → IsPlain t.service_id
    → LacksDelimiter t.action_name
    → decode_legacy_tool (encode_legacy_tool t) ≡ some t
unfolding decode_legacy_tool encode_legacy_tool
decode-encode_legacy_tool t d s a =
    rw
      (
        split-plain t.device_id (t.service_id ++ (delimiter ++ t.action_name)) d,
        split-plain t.service_id t.action_name s,
        split-lacking t.action_name a,
      )
      refl
