-- ===== src/Permissions/Hosts.antt =====
-- Which hosts a grant of lib/module-permissions.js admits, and that narrowing adds none.
use mathlib.Core.Path.{subst}
use countinghouse.Prelude.{
  ℕ, ◌≡◌, refl, sym, inl, inr, Bool, true, false, ◌&&◌, ◌||◌, not, List, [], ◌∷◌, Option, none,
  some, arith, any, all, contains, ◌==◌, ℕ_eq, Bool-cases, if◌then◌else◌,
}
use countinghouse.Prelude.Text.{Text, same, same_iff}
use countinghouse.Permissions.{NetGrant}

-- `host.slice(0, host.length - suffix.length)` if `host.endsWith(suffix)`
unfoldable pub strip_suffix : Text → Text → Option Text
strip_suffix suffix [] = if same suffix [] then some [] else none
strip_suffix suffix (c ∷ host) =
    let longer = elim (strip_suffix suffix host) as (λ o. Option Text) [
      | none ↦ none
      | some label ↦ some (c ∷ label)
    ] in
    if same suffix (c ∷ host) then some [] else longer

abbrev pub is_label : Option Text → Bool
is_label none = false
is_label (some []) = false
is_label (some (c ∷ cs)) = not (contains b'.' (c ∷ cs))

-- `pattern.startsWith('*.')`
abbrev pub is_wildcard : Text → Bool
is_wildcard (a ∷ b ∷ s) = a == b'*' && b == b'.'
is_wildcard _ = false

-- `pattern.slice(1)`
abbrev pub rest_of : Text → Text
rest_of [] = []
rest_of (a ∷ s) = s

unfoldable pub host_matches : Text → Text → Bool
unfolding strip_suffix
host_matches pattern host =
    if not (is_wildcard pattern)
    then same pattern host
    else is_label (strip_suffix (rest_of pattern) host)

abbrev pub admits_port : Option (List ℕ) → ℕ → Bool
admits_port none port = true
admits_port (some ports) port = contains port ports

abbrev pub admits : NetGrant → Text → ℕ → Bool
admits e host port = host_matches e.host host && admits_port e.ports port

unfoldable pub host_allowed : (Text → Text) → List NetGrant → Text → ℕ → Bool
host_allowed lower net hostname port = any (λ e. admits e (lower hostname) port) net

-- An item of a policy's `net`: `none` for a host that is no string or ports that are no array.
pub record Wanted : Type 0 where
  pub host : Option Text
  pub ports : Option (List ℕ)

-- The test of `narrowNet` for one declared grant.
abbrev pub within_ports : Option (List ℕ) → Option (List ℕ) → Bool
within_ports none ports = true
within_ports (some declared) none = false
within_ports (some declared) (some ports) = all (λ p. contains p declared) ports

abbrev pub is_narrower : List NetGrant → Text → Option (List ℕ) → Bool
is_narrower declared host ports =
    not (is_wildcard host)
    && any (λ d. host_matches d.host host && within_ports d.ports ports) declared

unfoldable pub narrow_host :
    (Text → Text) → List NetGrant → Option Text → Option (List ℕ) → Option NetGrant
narrow_host lower declared none ports = none
narrow_host lower declared (some h) ports =
    if is_narrower declared (lower h) ports
    then some (record { host = lower h; ports = ports })
    else none

abbrev pub cons_some {ℓ} : {A : Type ℓ} → Option A → List A → List A
cons_some none xs = xs
cons_some (some x) xs = x ∷ xs

-- `narrowNet`: the grants; the others are reported as ignored.
unfoldable pub narrow_net : (Text → Text) → List NetGrant → List Wanted → List NetGrant
narrow_net lower declared [] = []
narrow_net lower declared (w ∷ ws) =
    cons_some (narrow_host lower declared w.host w.ports) (narrow_net lower declared ws)

contains-all :
    (declared ports : List ℕ) (port : ℕ)
    → all (λ p. contains p declared) ports ≡ true
    → contains port ports ≡ true
    → contains port declared ≡ true
contains-all declared [] port h k = cc
contains-all declared (p ∷ ps) port h k = elim (Bool-cases (port == p)) [
  | inl e ↦ subst (λ x. contains x declared ≡ true) (sym ((ℕ_eq.beq_iff port p).0 e)) (ground arith)
  | inr e ↦ contains-all declared ps port (ground arith) (rw e at k)
]

within_ports_sound :
    (declared ports : Option (List ℕ)) (port : ℕ)
    → within_ports declared ports ≡ true
    → admits_port ports port ≡ true
    → admits_port declared port ≡ true
within_ports_sound none ports port h k = refl
within_ports_sound (some d) none port h k = cc
within_ports_sound (some d) (some ps) port h k = contains-all d ps port h k

-- A host pattern without a wildcard admits itself alone.
exact_host :
    (pattern host : Text)
    → is_wildcard pattern ≡ false
    → host_matches pattern host ≡ true
    → pattern ≡ host
unfolding host_matches
exact_host pattern host w h = (same_iff pattern host).0 (rw w at h)

is_narrower_sound :
    (declared : List NetGrant) (host : Text) (ports : Option (List ℕ)) (port : ℕ)
    → any (λ d. host_matches d.host host && within_ports d.ports ports) declared ≡ true
    → admits_port ports port ≡ true
    → any (λ d. admits d host port) declared ≡ true
is_narrower_sound [] host ports port h k = cc
is_narrower_sound (d ∷ ds) host ports port h k =
    ground (arith, is_narrower_sound ds host ports port, within_ports_sound d.ports ports port)

module _ (lower : Text → Text) (declared : List NetGrant) (host : Text) (port : ℕ) where
  narrow_host_sound :
      (wanted : Option Text) (ports : Option (List ℕ)) (rest : List NetGrant)
      → (any (λ e. admits e host port) rest ≡ true → any (λ d. admits d host port) declared ≡ true)
      → any (λ e. admits e host port) (cons_some (narrow_host lower declared wanted ports) rest)
        ≡ true
      → any (λ d. admits d host port) declared ≡ true
  unfolding narrow_host
  narrow_host_sound none ports rest ih h = ih h
  narrow_host_sound (some w) ports rest ih h =
      elim (Bool-cases (is_narrower declared (lower w) ports)) [
        | inr wide ↦ ih (rw wide at h)
        | inl fine ↦
            let kept : admits (record { host = lower w; ports = ports }) host port
                  || any (λ e. admits e host port) rest
                ≡ true =
              rw fine at h in
            elim (Bool-cases (admits (record { host = lower w; ports = ports }) host port)) [
              | inr other ↦ ih (rw other at kept)
              | inl here ↦
                  let exact = exact_host (lower w) host (ground arith) (ground arith) in
                  is_narrower_sound declared host ports port
                    (subst
                      (λ x.
                        any (λ d. host_matches d.host x && within_ports d.ports ports) declared
                        ≡ true)
                      exact (ground arith))
                    (ground arith)
            ]
      ]

  narrow_net_sound :
      (ws : List Wanted)
      → any (λ e. admits e host port) (narrow_net lower declared ws) ≡ true
      → any (λ d. admits d host port) declared ≡ true
  unfolding narrow_net
  narrow_net_sound [] h = cc
  narrow_net_sound (w ∷ ws) h =
      narrow_host_sound w.host w.ports (narrow_net lower declared ws) (narrow_net_sound ws) h

-- A policy's narrowed network grants allow no host and port that the declaration does not allow,
-- whatever the policy asks for.
pub host_allowed-narrow_net :
    (lower : Text → Text) (declared : List NetGrant) (wanted : List Wanted) (host : Text) (port : ℕ)
    → host_allowed lower (narrow_net lower declared wanted) host port ≡ true
    → host_allowed lower declared host port ≡ true
unfolding host_allowed
host_allowed-narrow_net lower declared wanted host port h =
    narrow_net_sound lower declared (lower host) port wanted h
