-- ===== src/Examples/Addresses.antt =====
-- An address, and the service it names, lib/call-address.js.
use countinghouse.Prelude.{◌≡◌, ◌↔◌, refl, ℕ_eq, true, [], ◌∷◌, none, some, contains, All}
use countinghouse.Prelude.Text.{codes, text_eq, split}
use countinghouse.Prelude.Dict.{get, keys}
use countinghouse.CallAddress.{
  Address, parse_address, Services, resolve_address, label_of, actions_in,
}
use countinghouse.CallAddress.Format.{format, IsAddress, parse_address_iff}
use countinghouse.CallAddress.Resolve.{IsOnly, resolve_address-resolves}

abbrev address : Address
address = record { device = codes "scan"; service = codes "files"; action = codes "list" }

parse_address_iff_example :
    (parse_address (some (codes "scan/files.list")) ≡ some address)
    ↔ ((codes "scan/files.list" ≡ format address) × IsAddress address)
parse_address_iff_example = parse_address_iff (codes "scan/files.list") address

abbrev services : Services
services = (codes "urn:x:files", some (codes "list" ∷ [])) ∷ (codes "urn:x:jobs", none) ∷ []

resolve_address-resolves_example :
    (label_of (codes "urn:x:files") ≡ codes "files")
    × (contains (codes "urn:x:files") (keys services) ≡ true)
    × All (IsOnly (codes "files") (codes "urn:x:files")) (keys services)
    × (contains (codes "list") (actions_in (get (codes "urn:x:files") services)) ≡ true)
unfolding resolve_address label_of split get
resolve_address-resolves_example =
    resolve_address-resolves services address (codes "urn:x:files") refl
