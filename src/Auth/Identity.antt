-- ===== src/Auth/Identity.antt =====
-- The identity that lib/auth/file-provider.js gives a module that composes.
use countinghouse.Prelude.{
  ◌≡◌, refl, sym, ◌↔◌, ◌⊎◌, inl, inr, String, true, List, [], ◌∷◌, none, some, arith, length,
  string_eq, Bool-cases, ◌≤◌,
}
use countinghouse.Auth.FileProvider.{
  Config, FileAuthProvider, ModuleIdentity, claims, claimants, identity_from, identity_for_module,
}

-- The file has an entry with that key which names the module.
abbrev pub Claims : String → String → Config → Type 0
Claims name key [] = ⊥
Claims name key ((k, e) ∷ config) = ((k ≡ key) × (claims name e ≡ true)) ⊎ Claims name key config

abbrev pub Listed : String → List String → Type 0
Listed key [] = ⊥
Listed key (k ∷ ks) = (k ≡ key) ⊎ Listed key ks

claimants_complete :
    (name key : String) (c : Config) → Claims name key c → Listed key (claimants name c)
unfolding claimants
claimants_complete name key [] h = absurd h
claimants_complete name key ((k, e) ∷ c) (inl (same, claimed)) = rw claimed (inl same)
claimants_complete name key ((k, e) ∷ c) (inr later) = elim (Bool-cases (claims name e)) [
  | inl claimed ↦ rw claimed (inr (claimants_complete name key c later))
  | inr other ↦ rw other (claimants_complete name key c later)
]

claimants_sound :
    (name key : String) (c : Config) → Listed key (claimants name c) → Claims name key c
unfolding claimants
claimants_sound name key [] h = absurd h
claimants_sound name key ((k, e) ∷ c) h = elim (Bool-cases (claims name e)) [
  | inl claimed ↦
      let split : Listed key (k ∷ claimants name c) = rw claimed at h in
      elim split [
        | inl same ↦ inl (same, claimed)
        | inr later ↦ inr (claimants_sound name key c later)
      ]
  | inr other ↦ inr (claimants_sound name key c (rw other at h))
]

-- No entry of the file names the module.
abbrev pub IsUnclaimed : String → Config → ModuleIdentity → Type 0
IsUnclaimed name c r =
    ((key : String) → ¬ Claims name key c) × (r.api_key ≡ none) × (r.conflicts ≡ none)

-- One entry does, and its key is the answer.
abbrev pub IsUnique : String → Config → ModuleIdentity → Type 0
IsUnique name c r =
    (key : String) × Claims name key c
    × ((k : String) → Claims name k c → k ≡ key)
    × (r.api_key ≡ some key)
    × (r.conflicts ≡ none)

-- More entries do, their keys are reported, and no key is the answer.
abbrev pub IsConflict : String → Config → ModuleIdentity → Type 0
IsConflict name c r =
    (ks : List String) × (2 ≤ length ks)
    × ((k : String) → Listed k ks ↔ Claims name k c)
    × (r.api_key ≡ none)
    × (r.conflicts ≡ some ks)

only : (key k : String) → Listed k (key ∷ []) → k ≡ key
only key k (inl e) = sym e
only key k (inr h) = absurd h

identity_from_lem :
    (name : String) (c : Config) (ks : List String)
    → ((k : String) → Listed k ks ↔ Claims name k c)
    → IsUnclaimed name c (identity_from ks)
      ⊎ IsUnique name c (identity_from ks)
      ⊎ IsConflict name c (identity_from ks)
identity_from_lem name c [] l = inl (λ key h. (l key).1 h, refl, refl)
identity_from_lem name c (key ∷ []) l =
    inr (inl (key, (l key).0 (inl refl), λ k h. only key k ((l k).1 h), refl, refl))
identity_from_lem name c (key ∷ k ∷ ks) l = inr (inr (key ∷ k ∷ ks, omega arith, l, refl, refl))

-- The identity of a module depends on the file alone: no key if no entry names the module, the key
-- if one does, and if more do their keys as conflicts and no key. The key of the environment is
-- never the answer by itself.
identity_for_module_lem :
    (name : String) (p : FileAuthProvider)
    → IsUnclaimed name p.config (identity_for_module name p)
      ⊎ IsUnique name p.config (identity_for_module name p)
      ⊎ IsConflict name p.config (identity_for_module name p)
unfolding identity_for_module
identity_for_module_lem name p =
    identity_from_lem name p.config (claimants name p.config)
      (λ k. (claimants_sound name k p.config, claimants_complete name k p.config))
