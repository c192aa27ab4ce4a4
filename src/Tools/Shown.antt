-- ===== src/Tools/Shown.antt =====
-- Which of the tools of lib/mcp/tool-registry.js a caller is shown, with the devices that
-- lib/auth/file-provider.js lists for its key.
use mathlib.Core.Path.{subst}
use countinghouse.Prelude.{
  ◌≡◌, ◌↔◌, refl, sym, ap, ◌∙◌, ◌⊎◌, inl, inr, String, string_eq, Bool, true, false, List, [], ◌∷◌,
  Option, none, some, arith, contains, keep, Any, Bool-cases,
}
use countinghouse.Tools.{Target, filter_targets}
use countinghouse.Auth.FileProvider.{
  FileAuthProvider, Identity, lookup, covers, judge, authenticate, list_devices,
}

-- The target is in the list.
abbrev pub Has : Target → List Target → Type 0
Has t ts = Any (λ u. u ≡ t) ts

module _ (p : Target → Bool) where
  keep_sound : (ts : List Target) (t : Target) → Has t (keep p ts) → Has t ts × (p t ≡ true)
  keep_sound [] t h = absurd h
  keep_sound (u ∷ ts) t h = elim (Bool-cases (p u)) [
    | inl e ↦
        let split : (u ≡ t) ⊎ Has t (keep p ts) = rw e at h in
        elim split [
          | inl here ↦ (inl here, ap p (sym here) ∙ e)
          | inr later ↦ let (a, b) = keep_sound ts t later in (inr a, b)
        ]
    | inr e ↦ let (a, b) = keep_sound ts t (rw e at h) in (inr a, b)
  ]

  keep_complete : (ts : List Target) (t : Target) → Has t ts → p t ≡ true → Has t (keep p ts)
  keep_complete [] t h k = absurd h
  keep_complete (u ∷ ts) t (inl here) k = rw (ap p here ∙ k) (inl here)
  keep_complete (u ∷ ts) t (inr later) k = elim (Bool-cases (p u)) [
    | inl e ↦ rw e (inr (keep_complete ts t later k))
    | inr e ↦ rw e (keep_complete ts t later k)
  ]

filter_targets-Has :
    (key : String) (devices : List String) (ts : List Target) (t : Target)
    → Has t (filter_targets false (some key) devices ts)
      ↔ (Has t ts × (covers devices t.device_id ≡ true))
unfolding filter_targets
filter_targets-Has key devices ts t = elim (Bool-cases (contains "*" devices)) [
  | inl e ↦ rw e (λ h. (h, refl), λ (h, k). h)
  | inr e ↦ rw e (keep_sound _ ts t, λ (h, k). keep_complete _ ts t h k)
]

judge_ok :
    (who : Option Identity) (device : String)
    → (judge who (some device)).ok ≡ covers (elim who [ none ↦ [] | some w ↦ w.devices ]) device
judge_ok none device = refl
judge_ok (some w) device = ground arith

-- Without --debug, a caller is shown a tool exactly if it is one of the loaded devices' and the file
-- provider accepts the caller's key for the tool's device: so each tool that is listed can be
-- called, and none that can be called is left out.
pub filter_targets-authenticate :
    (p : FileAuthProvider) (key : String) (ts : List Target) (t : Target)
    → Has t (filter_targets false (some key) (list_devices (some key) p) ts)
      ↔ (Has t ts × ((authenticate (some key) (some t.device_id) p).ok ≡ true))
unfolding list_devices authenticate
filter_targets-authenticate p key ts t =
    subst
      (λ b.
        Has t (filter_targets false (some key) (list_devices (some key) p) ts)
        ↔ (Has t ts × (b ≡ true)))
      (sym (judge_ok (lookup (some key) p) t.device_id))
      (filter_targets-Has key (list_devices (some key) p) ts t)
