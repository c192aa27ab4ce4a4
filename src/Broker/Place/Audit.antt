-- ===== src/Broker/Place/Audit.antt =====
-- lib/fs-broker/broker.js under `audit`: nothing is refused, and what `enforce` would refuse is
-- reported.
use countinghouse.Prelude.{
  ℕ, ◌≡◌, refl, inl, inr, Bool, true, false, ◌&&◌, not, [], ◌∷◌, Option, Bool-cases,
}
use countinghouse.Prelude.Text.{Text}
use countinghouse.Broker.Namespace.{
  Root, Namespace, Resolution, at_root, ancestor, outside, resolve,
}
use countinghouse.Broker.Place.{
  enforce, audit, Want, is_writing, enoent_code, erofs, Host, Cache, Checked, within, escape,
  check_thrown, Ident, Outcome, refused, State, report, check_host, finish, decide, place_at, place,
}
use countinghouse.Broker.Place.Reports.{nothing_reported}

-- A refusal by the sandbox, as against an error of the host.
abbrev pub is_refusal : Outcome → Bool
is_refusal (refused enoent_code) = true
is_refusal (refused erofs) = true
is_refusal _ = false

abbrev pub is_silent : State → Bool
is_silent s = elim s.reporting.calls [ [] ↦ true | _ ∷ _ ↦ false ]

abbrev pub new_state : Cache → State
new_state c = record { reporting = nothing_reported; cache = c }

abbrev IsForetold : State × Outcome → State × Outcome → Type 0
IsForetold a e = (is_refusal a.1 ≡ false) × (is_refusal e.1 ≡ not (is_silent a.0))

abbrev pub is_above : Resolution → Bool
is_above (ancestor v children) = true
is_above _ = false

module _ (want : Want) where
  finish-IsForetold :
      (res : Resolution) (v path : Text) (r : Root) (ident : Option Ident) (c : Cache)
      → IsForetold
          (finish audit want res v path r ident (new_state c))
          (finish enforce want res v path r ident (new_state c))
  unfolding report
  finish-IsForetold res v path r ident c = elim (Bool-cases (is_writing want && not r.writable)) [
    | inl e ↦ rw e (refl, refl)
    | inr e ↦ rw e (refl, refl)
  ]

  decide-IsForetold :
      (res : Resolution) (v path : Text) (r : Root) (k : Checked) (c : Cache)
      → IsForetold
          (decide audit want res v path r k (new_state c))
          (decide enforce want res v path r k (new_state c))
  unfolding report
  decide-IsForetold res v path r (within q ident) c = finish-IsForetold res v path q ident c
  decide-IsForetold res v path r check_thrown c = (refl, refl)
  decide-IsForetold res v path r escape c = elim (Bool-cases (is_writing want && not r.writable)) [
    | inl e ↦ rw e (refl, refl)
    | inr e ↦ rw e (refl, refl)
  ]

  place_at-IsForetold :
      (check : (v path : Text) → Root → Cache → Cache × Checked) (res : Resolution) (c : Cache)
      → is_above res ≡ false
      → IsForetold
          (place_at audit want check res (new_state c))
          (place_at enforce want check res (new_state c))
  unfolding report
  place_at-IsForetold check (at_root v path r) c h =
      let (kept, checked) = check v path r c in
      decide-IsForetold (at_root v path r) v path r checked kept
  place_at-IsForetold check (ancestor v children) c h = cc
  place_at-IsForetold check (outside v) c h = (refl, refl)

-- For a path that is not above the roots, `place` under `audit` refuses nothing, and a broker that
-- has not reported before makes a report exactly if `place` under `enforce` refuses the path.
pub place-IsForetold :
    (dirname basename : Text → Text) (join : Text → Text → Text) (host : Host) (now : ℕ)
    (n : Namespace) (want : Want) (follow : Bool) (path : Text) (c : Cache)
    → is_above (resolve n path) ≡ false
    → (is_refusal (place dirname basename join host now n audit want follow path (new_state c)).1
        ≡ false)
      × (is_refusal
            (place dirname basename join host now n enforce want follow path (new_state c)).1
          ≡ not (
              is_silent
                (place dirname basename join host now n audit want follow path (new_state c)).0))
unfolding place
place-IsForetold dirname basename join host now n want follow path c h =
    place_at-IsForetold want
      (λ v path r. check_host dirname basename join host now n v path r follow) (resolve n path) c h
