-- ===== src/Auth/Permits.antt =====
-- What the file provider and the gate in front of it let through, stated over the configuration.
use mathlib.Core.Path.{subst}
use countinghouse.Prelude.{
  ◌≡◌, refl, sym, ap, beq_refl, ◌↔◌, ◌⊎◌, inl, inr, String, true, false, List, [], ◌∷◌, Option,
  none, some, arith, contains, ◌==◌, string_eq, Any, Bool-cases, Option-cases,
}
use countinghouse.Prelude.Dict.{get}
use countinghouse.Auth.FileProvider.{
  Entry, FileAuthProvider, safe_equal, identity_of, lookup, covers, judge, authenticate,
}
use countinghouse.Auth.UserAuth.{Options, Session, granted, user_auth, file_provider, conclude}

-- The key has an entry of its own in the file, which lists the device or `*`.
pub record Listed (p : FileAuthProvider) (key device : String) : Type 0 where
  pub entry : Entry
  pub devices : List String
  pub own : get key p.config ≡ some (some entry)
  pub list : entry.devices ≡ some devices
  pub covered : Any (λ d. (d ≡ "*") ⊎ (d ≡ device)) devices

-- Either the key is that of the environment, or the file lists the device for it.
abbrev pub Permits : FileAuthProvider → String → String → Type 0
Permits p key device = (p.env_key ≡ some key) ⊎ Listed p key device

module _ (device : String) where
  abbrev Covers : String → Type 0
  Covers d = (d ≡ "*") ⊎ (d ≡ device)

  Covers-Any : (a : String) (xs : List String) → Covers a → contains a xs ≡ true → Any Covers xs
  Covers-Any a [] c h = cc
  Covers-Any a (x ∷ xs) c h = elim (Bool-cases (a == x)) [
    | inl e ↦ inl (subst Covers ((string_eq.beq_iff a x).0 e) c)
    | inr e ↦ inr (Covers-Any a xs c (rw e at h))
  ]

  covers_sound : (xs : List String) → covers xs device ≡ true → Any Covers xs
  covers_sound xs h = elim (Bool-cases (contains "*" xs)) [
    | inl wild ↦ Covers-Any "*" xs (inl refl) wild
    | inr e ↦ Covers-Any device xs (inr refl) (rw e at h)
  ]

  covers_complete : (xs : List String) → Any Covers xs → covers xs device ≡ true
  covers_complete [] h = absurd h
  covers_complete (x ∷ xs) (inl (inl e)) = ground (arith, string_eq.beq_iff "*" x)
  covers_complete (x ∷ xs) (inl (inr e)) = ground (arith, string_eq.beq_iff device x)
  covers_complete (x ∷ xs) (inr later) = ground (arith, covers_complete xs later)

env_sound : (key : String) (env : Option String) → safe_equal (some key) env ≡ true → env ≡ some key
unfolding safe_equal
env_sound key none h = cc
env_sound key (some k) h = ap some (sym ((string_eq.beq_iff key k).0 h))

module _ (p : FileAuthProvider) (key device : String) where
  own-Listed :
      (found : Option (Option Entry))
      → get key p.config ≡ found
      → (judge (identity_of key found) (some device)).ok ≡ true
      → Listed p key device
  own-Listed none e h = cc
  own-Listed (some none) e h = cc
  own-Listed (some (some entry)) e h = elim (Option-cases entry.devices) [
    | inl none_there ↦ absurd (ground arith)
    | inr (devices, list) ↦ record {
      entry = entry;
      devices = devices;
      own = e;
      list = list;
      covered = covers_sound device devices (ground arith);
    }
  ]

  own-admin :
      (found : Option (Option Entry))
      → get key p.config ≡ found
      → (judge (identity_of key found) (some device)).is_admin ≡ true
      → (e : Entry) × (get key p.config ≡ some (some e)) × (e.admin ≡ true)
  own-admin none e h = cc
  own-admin (some none) e h = cc
  own-admin (some (some entry)) e h = (entry, e, ground arith)

  authenticate_sound : (authenticate (some key) (some device) p).ok ≡ true → Permits p key device
  unfolding lookup authenticate
  authenticate_sound h = elim (Bool-cases (safe_equal (some key) p.env_key)) [
    | inl env ↦ inl (env_sound key p.env_key env)
    | inr e ↦ inr (own-Listed (get key p.config) refl (rw e at h))
  ]

  authenticate_complete : Permits p key device → (authenticate (some key) (some device) p).ok ≡ true
  unfolding authenticate lookup safe_equal
  authenticate_complete (inl env) =
      let e : safe_equal (some key) p.env_key ≡ true = rw env (beq_refl key) in rw e refl
  authenticate_complete (inr l) = elim (Bool-cases (safe_equal (some key) p.env_key)) [
    | inl env ↦ rw env refl
    | inr e ↦ rw e (ground (arith, l.own, l.list, covers_complete device l.devices l.covered))
  ]

  -- The file provider accepts a key for a device exactly if the key is that of the environment, or
  -- has an entry of its own in the file that lists the device or `*`.
  pub authenticate_iff :
      ((authenticate (some key) (some device) p).ok ≡ true) ↔ Permits p key device
  authenticate_iff = (authenticate_sound, authenticate_complete)

  -- The verdict says admin only for the key of the environment, or for one whose own entry says it.
  authenticate-admin :
      (authenticate (some key) (some device) p).is_admin ≡ true
      → (p.env_key ≡ some key)
        ⊎ ((e : Entry) × (get key p.config ≡ some (some e)) × (e.admin ≡ true))
  unfolding authenticate lookup
  authenticate-admin h = elim (Bool-cases (safe_equal (some key) p.env_key)) [
    | inl env ↦ inl (env_sound key p.env_key env)
    | inr e ↦ inr (own-admin (get key p.config) refl (rw e at h))
  ]

-- A session that is made without --debug is for a key that the file provider permits for the
-- device, and is of that key and device.
pub user_auth-Permits :
    (o : Options) (p : FileAuthProvider) (key : Option String) (device : String) (s : Session)
    → o.debug ≡ false
    → user_auth o (file_provider p) (some device) key ≡ granted s
    → (k : String) × (key ≡ some k)
      × Permits p k device
      × (s.app_key ≡ some k)
      × (s.device_id ≡ some device)
unfolding user_auth
user_auth-Permits o p none device s d h = ground arith
user_auth-Permits o p (some k) device s d h =
    let v = authenticate (some k) (some device) p in
    let c : conclude (some k) (some device) (file_provider p (some k) (some device)) ≡ granted s =
      ground arith in
    elim (Bool-cases v.ok) [
      | inl ok ↦ (k, refl, authenticate_sound p k device ok, ground arith, ground arith)
      | inr bad ↦ absurd (ground arith)
    ]

-- A session that is made without --debug is an admin's only if its key is the environment's, or the
-- configuration says that the key's owner is one.
pub user_auth-admin :
    (o : Options) (p : FileAuthProvider) (k device : String) (s : Session)
    → o.debug ≡ false
    → user_auth o (file_provider p) (some device) (some k) ≡ granted s
    → s.is_admin ≡ true
    → (p.env_key ≡ some k) ⊎ ((e : Entry) × (get k p.config ≡ some (some e)) × (e.admin ≡ true))
unfolding user_auth
user_auth-admin o p k device s d h admin =
    let v = authenticate (some k) (some device) p in
    let c : conclude (some k) (some device) (file_provider p (some k) (some device)) ≡ granted s =
      ground arith in
    elim (Bool-cases v.ok) [
      | inl ok ↦ authenticate-admin p k device (ground arith)
      | inr bad ↦ absurd (ground arith)
    ]
