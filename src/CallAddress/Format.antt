-- ===== src/CallAddress/Format.antt =====
-- Which texts `parseAddress` of lib/call-address.js reads, and as what.
use mathlib.Core.Path.{subst}
use countinghouse.Prelude.{
  ℕ, ℕ_eq, ◌≡◌, ◌↔◌, refl, sym, ap, ◌∙◌, false, ◌||◌, List, [], ◌∷◌, ◌++◌, some, arith, contains,
  All,
}
use countinghouse.Prelude.Text.{Text, split}
use countinghouse.CallAddress.{Address, is_blank, read_service, read_device, parse_address}
use countinghouse.CallAddress.Split.{
  join, join-split, Lacks, split-Lacks, split-lacking, split-append,
}

-- `<module>/<service>.<action>`
abbrev pub format : Address → Text
format a = a.device ++ (b'/' ∷ (a.service ++ (b'.' ∷ a.action)))

-- A part of an address: not empty, and without a slash and a dot.
pub record IsPart (t : Text) : Type 0 where
  pub filled : is_blank t ≡ false
  pub slashless : Lacks b'/' t
  pub dotless : Lacks b'.' t

pub record IsAddress (a : Address) : Type 0 where
  pub device : IsPart a.device
  pub service : IsPart a.service
  pub action : IsPart a.action

lacks-append : (c : ℕ) (s t : Text) → contains c (s ++ t) ≡ (contains c s || contains c t)
lacks-append c [] t = refl
lacks-append c (a ∷ s) t = ground (arith, lacks-append c s t)

read_service_sound :
    (device : Text) (parts : List Text) (a : Address)
    → read_service device parts ≡ some a
    → (device ≡ a.device)
      × (parts ≡ a.service ∷ a.action ∷ [])
      × (is_blank a.device ≡ false)
      × (is_blank a.service ≡ false)
      × (is_blank a.action ≡ false)
      × (contains b'.' a.device ≡ false)
read_service_sound device [] a h = cc
read_service_sound device (s ∷ []) a h = cc
read_service_sound device (s ∷ t ∷ []) a h = ground arith
read_service_sound device (s ∷ t ∷ u ∷ ts) a h = cc

-- What is read of the parts between the dots, once the address is split at its slash.
abbrev IsRead : Address → Text → Text → Type 0
IsRead a device rest =
    (device ≡ a.device)
    × (split b'.' rest ≡ a.service ∷ a.action ∷ [])
    × (is_blank a.device ≡ false)
    × (is_blank a.service ≡ false)
    × (is_blank a.action ≡ false)
    × (contains b'.' a.device ≡ false)

address_of_parts :
    (device rest : Text) (a : Address)
    → All (Lacks b'/') (device ∷ rest ∷ [])
    → IsRead a device rest
    → (device ++ (b'/' ∷ rest) ≡ format a) × IsAddress a
address_of_parts device rest a slashes (e, parts, filled, filled_service, filled_action, dotless) =
    let dots : All (Lacks b'.') (a.service ∷ a.action ∷ []) =
      subst (All (Lacks b'.')) parts (split-Lacks b'.' rest) in
    let whole : rest ≡ a.service ++ (b'.' ∷ a.action) =
      sym (join-split b'.' rest) ∙ ap (join b'.') parts in
    let clear : (contains b'/' a.service || contains b'/' (b'.' ∷ a.action)) ≡ false =
      sym (lacks-append b'/' a.service (b'.' ∷ a.action))
      ∙ subst (λ r. contains b'/' r ≡ false) whole slashes.1.0 in
    (
      rw (e, whole) refl,
      record {
        device = record {
          filled = filled;
          slashless = subst (Lacks b'/') e slashes.0;
          dotless = dotless;
        };
        service = record { filled = filled_service; slashless = ground arith; dotless = dots.0 };
        action = record { filled = filled_action; slashless = ground arith; dotless = dots.1.0 };
      },
    )

read_device_sound :
    (parts : List Text) (a : Address)
    → All (Lacks b'/') parts
    → read_device parts ≡ some a
    → (join b'/' parts ≡ format a) × IsAddress a
read_device_sound [] a slashes h = cc
read_device_sound (d ∷ []) a slashes h = cc
read_device_sound (d ∷ r ∷ []) a slashes h =
    address_of_parts d r a slashes (read_service_sound d (split b'.' r) a h)
read_device_sound (d ∷ r ∷ s ∷ ts) a slashes h = cc

parse_address_sound :
    (t : Text) (a : Address) → parse_address (some t) ≡ some a → (t ≡ format a) × IsAddress a
unfolding parse_address
parse_address_sound t a h =
    let (e, ok) = read_device_sound (split b'/' t) a (split-Lacks b'/' t) h in
    (sym (join-split b'/' t) ∙ e, ok)

parse_address-format : (a : Address) → IsAddress a → parse_address (some (format a)) ≡ some a
unfolding parse_address
parse_address-format a ok =
    let lacks : Lacks b'/' (a.service ++ (b'.' ∷ a.action)) =
      rw (lacks-append b'/' a.service (b'.' ∷ a.action))
        (ground (arith, ok.service.slashless, ok.action.slashless)) in
    rw
      (
        split-append b'/' a.device (a.service ++ (b'.' ∷ a.action)) ok.device.slashless,
        split-lacking b'/' (a.service ++ (b'.' ∷ a.action)) lacks,
        split-append b'.' a.service a.action ok.service.dotless,
        split-lacking b'.' a.action ok.action.dotless,
        ok.device.filled,
        ok.service.filled,
        ok.action.filled,
        ok.device.dotless,
      )
      refl

-- A text is read as an address exactly if it is that address written out and the address is one:
-- its module, service and action are not empty and hold no slash and no dot. So no other text is
-- read, and each is read in one way.
pub parse_address_iff :
    (t : Text) (a : Address) → (parse_address (some t) ≡ some a) ↔ ((t ≡ format a) × IsAddress a)
parse_address_iff t a = (
  parse_address_sound t a,
  λ (e, ok). subst (λ u. parse_address (some u) ≡ some a) (sym e) (parse_address-format a ok),
)
