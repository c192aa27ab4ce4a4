-- ===== src/Peer/Broker/Revocation.antt =====
-- A grant that is gone closes its channel: lib/peer-channel-broker.js.
use mathlib.Core.Path.{subst}
use countinghouse.Prelude.{
  ◌≡◌, refl, sym, ap, ◌∙◌, ◌≢◌, inl, inr, String, Bool, false, ◌&&◌, ◌||◌, List, [], ◌∷◌, ◌++◌,
  Option, none, some, arith, length, any, ltb, is_some, ◌==◌, string_eq, ℕ_eq, All, beq_refl,
  Bool-cases, if◌then◌else◌,
}
use countinghouse.Prelude.Dict.{Dict, get, get-del}
use countinghouse.Peer.Broker.{
  Grant, Entry, Registry, Broker, UserAuth, grant, request_to, handle_request, Check, checks_of,
  all_checks, recheck_grants, close_found, close_revoked, check_answered, answer_all,
}

module _ (auth : UserAuth) where
  -- The user behind the grant may still use its device.
  abbrev pub IsAllowed : Grant → Type 0
  IsAllowed g = auth g.device_id g.app_key ≡ none

  abbrev pub AllAllowed : Dict String Grant → Type 0
  AllAllowed gs = All (λ g. IsAllowed g.1) gs

  -- The check closes the entry that stands under the key.
  abbrev closes : String → Entry → Check → Bool
  closes pair e c =
      c.pair == pair && (c.serial == e.serial) && is_some (auth c.grant.device_id c.grant.app_key)

  abbrev survives : String → List Check → Option Entry → Option Entry
  survives pair cs none = none
  survives pair cs (some e) = if any (closes pair e) cs then none else some e

  survives-answer :
      (pair : String) (c : Check) (b : Broker) (v : Option String) (found : Option Entry)
      → auth c.grant.device_id c.grant.app_key ≡ v
      → get c.pair b.registry ≡ found
      → get pair (check_answered c v b).0.registry ≡ survives pair (c ∷ []) (get pair b.registry)
  unfolding check_answered close_revoked close_found
  survives-answer pair c b none found ev e = ground arith
  survives-answer pair c b (some code) none ev e = ground (arith, string_eq.beq_iff c.pair pair)
  survives-answer pair c b (some code) (some x) ev e =
      ground (arith, get-del c.pair pair b.registry, string_eq.beq_iff c.pair pair)

  survives-append :
      (pair : String) (c : Check) (cs : List Check) (o : Option Entry)
      → survives pair cs (survives pair (c ∷ []) o) ≡ survives pair (c ∷ cs) o
  survives-append pair c cs none = refl
  survives-append pair c cs (some e) = ground arith

  get-answer_all :
      (pair : String) (cs : List Check) (b : Broker)
      → get pair (answer_all auth cs b).registry ≡ survives pair cs (get pair b.registry)
  unfolding answer_all
  get-answer_all pair [] b = ground arith
  get-answer_all pair (c ∷ cs) b =
      let v = auth c.grant.device_id c.grant.app_key in
      let b' = (check_answered c v b).0 in
      get-answer_all pair cs b'
      ∙ ap (survives pair cs) (survives-answer pair c b v (get c.pair b.registry) refl refl)
      ∙ survives-append pair c cs (get pair b.registry)

  any-append : (p : Check → Bool) (xs ys : List Check) → any p (xs ++ ys) ≡ any p xs || any p ys
  any-append p [] ys = refl
  any-append p (x ∷ xs) ys = ground (arith, any-append p xs ys)

  allowed-checks_of :
      (pair : String) (e : Entry) (gs : Dict String Grant)
      → any (closes pair e) (checks_of pair e.serial gs) ≡ false
      → AllAllowed gs
  allowed-checks_of pair e [] h = tt
  allowed-checks_of pair e ((k, g) ∷ gs) h =
      ground (arith, beq_refl pair, ℕ_eq.beq_iff e.serial e.serial, allowed-checks_of pair e gs)

  allowed-all_checks :
      (pair : String) (d : Registry) (e : Entry)
      → get pair d ≡ some e
      → any (closes pair e) (all_checks d) ≡ false
      → AllAllowed e.grants
  unfolding get
  allowed-all_checks pair [] e found h = cc
  allowed-all_checks pair ((k, x) ∷ d) e found h =
      let split = any-append (closes pair e) (checks_of k x.serial x.grants) (all_checks d) in
      elim (Bool-cases (k == pair)) [
        | inl here ↦
            let same : x ≡ e = ground arith in
            let first : any (closes pair e) (checks_of k x.serial x.grants) ≡ false =
              ground arith in
            allowed-checks_of pair e e.grants (
              subst (λ y. any (closes pair e) (checks_of pair y.serial y.grants) ≡ false) same
                (subst (λ j. any (closes pair e) (checks_of j x.serial x.grants) ≡ false)
                  ((string_eq.beq_iff k pair).0 here) first))
        | inr later ↦ allowed-all_checks pair d e (rw later at found) (ground arith)
      ]

  -- The registry after a pass of `recheckGrants` whose checks have all been answered.
  abbrev pub rechecked : Broker → Broker
  rechecked b = let (b', cs) = recheck_grants b in answer_all auth cs b'

  survives-some :
      (pair : String) (cs : List Check) (o : Option Entry) (e : Entry)
      → survives pair cs o ≡ some e
      → (o ≡ some e) × (any (closes pair e) cs ≡ false)
  survives-some pair cs none e h = cc
  survives-some pair cs (some x) e h = elim (Bool-cases (any (closes pair x) cs)) [
    | inl gone ↦ absurd (ground arith)
    | inr left ↦
        let same : x ≡ e = ground arith in
        (ap some same, subst (λ y. any (closes pair y) cs ≡ false) same left)
  ]

  -- After a pass over the open channels, with none under way before, a channel that is still open
  -- was open with the same entry, and every grant behind it passes the check.
  pub recheck-allowed :
      (b : Broker) (pair : String) (e : Entry)
      → b.recheck_in_flight ≡ 0
      → get pair (rechecked b).registry ≡ some e
      → (get pair b.registry ≡ some e) × AllAllowed e.grants
  unfolding recheck_grants
  recheck-allowed b pair e idle h =
      let begun = record b { recheck_in_flight = length (all_checks b.registry) } in
      let enter : ltb 0 b.recheck_in_flight ≡ false = ground arith in
      let h' : get pair (answer_all auth (all_checks b.registry) begun).registry ≡ some e =
        rw enter at h in
      let (was, passed) =
        survives-some pair (all_checks b.registry) (get pair b.registry) e
          (sym (get-answer_all pair (all_checks b.registry) begun) ∙ h') in
      (was, allowed-all_checks pair b.registry e was passed)

  -- Every channel of the registry was opened under grants that pass the check.
  pub record IsAuthorized (b : Broker) : Type 0 where
    pub channels : (pair : String) (e : Entry) → get pair b.registry ≡ some e → AllAllowed e.grants

  request_to-denied :
      (found : Option String) (missing device : String) (key : Option String) (caller : String)
      (b : Broker) (v : Option String)
      → auth device key ≡ v
      → v ≢ none
      → (request_to auth found missing device key caller b).0 ≡ b
  unfolding request_to grant
  request_to-denied none missing device key caller b v e h = ground arith
  request_to-denied (some callee) missing device key caller b (some code) e h = ground arith
  request_to-denied (some callee) missing device key caller b none e h = absurd (h refl)

  -- A request whose key does not pass the check for its device leaves the registry as it was.
  handle_request-denied :
      (devices : Dict String String) (missing : String → String) (device : String)
      (key : Option String) (caller : String) (b : Broker)
      → auth device key ≢ none
      → (handle_request auth devices missing (some device) key caller b).0 ≡ b
  unfolding handle_request
  handle_request-denied devices missing device key caller b h =
      request_to-denied (get device devices) (missing device) device key caller b (auth device key)
        refl h
