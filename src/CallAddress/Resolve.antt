-- ===== src/CallAddress/Resolve.antt =====
-- What `resolveAddress` of lib/call-address.js resolves an address to.
use mathlib.Core.Path.{subst}
use countinghouse.Prelude.{
  ◌≡◌, sym, ap, ◌∙◌, true, List, [], ◌∷◌, some, arith, contains, keep, Bool-cases, inl, inr, All,
}
use countinghouse.Prelude.Text.{Text, same, same_iff, text_eq}
use countinghouse.Prelude.Dict.{get, keys}
use countinghouse.CallAddress.{
  Address, Services, resolved, label_of, actions_in, resolve_match, resolve_address,
}

-- A service with the label that the address names, if there is one, is `urn`.
abbrev pub IsOnly : Text → Text → Text → Type 0
IsOnly label urn other = label_of other ≡ label → other ≡ urn

-- The URNs that carry a label.
abbrev labelled : Text → List Text → List Text
labelled label urns = keep (λ u. same (label_of u) label) urns

no_labelled :
    (label urn : Text) (urns : List Text) → labelled label urns ≡ [] → All (IsOnly label urn) urns
no_labelled label urn [] h = tt
no_labelled label urn (u ∷ us) h = elim (Bool-cases (same (label_of u) label)) [
  | inl e ↦ ground (arith, e)
  | inr e ↦
      let rest : labelled label us ≡ [] = rw e at h in
      (λ k. ground (arith, (same_iff (label_of u) label).1 k), no_labelled label urn us rest)
]

IsOnly-labelled :
    (label urn : Text) (urns : List Text)
    → labelled label urns ≡ urn ∷ []
    → (label_of urn ≡ label) × (contains urn urns ≡ true) × All (IsOnly label urn) urns
IsOnly-labelled label urn [] h = cc
IsOnly-labelled label urn (u ∷ us) h = elim (Bool-cases (same (label_of u) label)) [
  | inl e ↦
      let both : u ∷ labelled label us ≡ urn ∷ [] = rw e at h in
      let here : u ≡ urn = cc in
      let rest : labelled label us ≡ [] = cc in
      (
        ap label_of (sym here) ∙ (same_iff (label_of u) label).0 e,
        ground (arith, (same_iff urn u).1 (sym here)),
        ((λ k. here), no_labelled label urn us rest),
      )
  | inr e ↦
      let later : labelled label us ≡ urn ∷ [] = rw e at h in
      let (a, b, c) = IsOnly-labelled label urn us later in
      (a, ground arith, ((λ k. ground (arith, (same_iff (label_of u) label).1 k)), c))
]

resolve_match-resolves :
    (services : Services) (parsed : Address) (matches : List Text) (urn : Text)
    → resolve_match services parsed matches ≡ resolved urn
    → (matches ≡ urn ∷ []) × (contains parsed.action (actions_in (get urn services)) ≡ true)
resolve_match-resolves services parsed [] urn h = cc
resolve_match-resolves services parsed (u ∷ []) urn h =
    elim (Bool-cases (contains parsed.action (actions_in (get u services)))) [
      | inl e ↦
          let same_urn : u ≡ urn = ground arith in
          (
            ap (λ x. x ∷ []) same_urn,
            subst (λ x. contains parsed.action (actions_in (get x services)) ≡ true) same_urn e,
          )
      | inr e ↦ ground arith
    ]
resolve_match-resolves services parsed (u ∷ v ∷ more) urn h = cc

-- An address resolves to a URN only if the specification declares that service, with the label that
-- the address names, it is the only service with that label, and it has the action.
pub resolve_address-resolves :
    (services : Services) (parsed : Address) (urn : Text)
    → resolve_address (some services) (some parsed) ≡ resolved urn
    → (label_of urn ≡ parsed.service)
      × (contains urn (keys services) ≡ true)
      × All (IsOnly parsed.service urn) (keys services)
      × (contains parsed.action (actions_in (get urn services)) ≡ true)
unfolding resolve_address
resolve_address-resolves services parsed urn h =
    let (only, action) = resolve_match-resolves services parsed _ urn h in
    let (a, b, c) = IsOnly-labelled parsed.service urn (keys services) only in (a, b, c, action)
