-- ===== src/Broker/Place/Reports.antt =====
-- What the file broker of lib/fs-broker/broker.js reports, over any sequence of problems.
use mathlib.Core.Path.{subst}
use countinghouse.Prelude.{
  suc, ◌≤◌, ◌≡◌, refl, sym, ap, ◌⊎◌, inl, inr, Bool, true, false, ◌||◌, List, [], ◌∷◌, arith,
  length, any, ltb, nat_eq_iff, All, All-weaken, Bool-cases,
}
use countinghouse.Prelude.Text.{Text, same_refl}
use countinghouse.Broker.Place.{
  Mode, is_off, Rule, suppressed, rule_number, Entry, same_entry, Reporting, max_reports, told,
  report,
}

abbrev pub nothing_reported : Reporting
nothing_reported = record { reported = []; calls = [] }

-- The problems of a run, the last first.
abbrev pub report_all : Mode → List Entry → Reporting
report_all mode [] = nothing_reported
report_all mode ((rule, target) ∷ es) = report mode rule target (report_all mode es)

abbrev pub AreDifferent : List Entry → Type 0
AreDifferent [] = Unit
AreDifferent (e ∷ es) = (any (same_entry e) es ≡ false) × AreDifferent es

-- Each problem has been reported, or the last call said that the rest is suppressed.
abbrev pub AreTold : List Entry → Reporting → Type 0
AreTold es s =
    ((s.calls ≡ s.reported)
      × (length s.reported ≤ max_reports)
      × All (λ e. any (same_entry e) s.reported ≡ true) es)
    ⊎ ((rest : List Entry) × (s.calls ≡ (suppressed, []) ∷ rest)
        × (length rest ≡ max_reports)
        × (length s.reported ≡ suc max_reports))

same_entry_refl : (e : Entry) → same_entry e e ≡ true
same_entry_refl (r, t) = ground (arith, nat_eq_iff (rule_number r) (rule_number r), same_refl t)

seen_later :
    (e f : Entry) (es : List Entry)
    → any (same_entry e) es ≡ true
    → any (same_entry e) (f ∷ es) ≡ true
seen_later e f es h = ground (arith)

module _ (mode : Mode) (on : is_off mode ≡ false) where
  abbrev is_done : Rule → Text → Reporting → Bool
  is_done rule target s =
      is_off mode
      || any (same_entry (rule, target)) s.reported
      || ltb max_reports (length s.reported)

  report-done :
      (rule : Rule) (target : Text) (s : Reporting)
      → is_done rule target s ≡ true
      → report mode rule target s ≡ s
  unfolding report
  report-done rule target s h = rw h refl

  report-new :
      (rule : Rule) (target : Text) (s : Reporting) (c : Entry)
      → is_done rule target s ≡ false
      → told (rule, target) ((rule, target) ∷ s.reported) ≡ c
      → report mode rule target s
        ≡ record { reported = (rule, target) ∷ s.reported; calls = c ∷ s.calls }
  unfolding report
  report-new rule target s c h e = rw (h, e) refl

  keep_told :
      (e : Entry) (es : List Entry) {s s' : Reporting}
      → s ≡ s'
      → AreDifferent s.reported × AreTold (e ∷ es) s
      → AreDifferent s'.reported × AreTold (e ∷ es) s'
  keep_told e es p = subst (λ x. AreDifferent x.reported × AreTold (e ∷ es) x) p

  report-AreTold :
      (rule : Rule) (target : Text) (es : List Entry) (s : Reporting)
      → AreDifferent s.reported × AreTold es s
      → AreDifferent (report mode rule target s).reported
        × AreTold ((rule, target) ∷ es) (report mode rule target s)
  report-AreTold rule target es s (different, inr (rest, called, full, over)) =
      keep_told (rule, target) es (sym (report-done rule target s (ground arith)))
        (different, inr (rest, called, full, over))
  report-AreTold rule target es s (different, inl (called, few, told_all)) =
      elim (Bool-cases (any (same_entry (rule, target)) s.reported)) [
        | inl old ↦
            keep_told (rule, target) es (sym (report-done rule target s (ground arith)))
              (different, inl (called, few, (old, told_all)))
        | inr new ↦ elim (Bool-cases (ltb max_reports (suc (length s.reported)))) [
          | inl last ↦
              let fresh = report-new rule target s (suppressed, []) (ground arith) (rw last refl) in
              keep_told (rule, target) es (sym fresh)
                ((new, different), inr (s.calls, refl, ground arith, ground arith))
          | inr more ↦
              let fresh = report-new rule target s (rule, target) (ground arith) (rw more refl) in
              let all = All-weaken (λ e. seen_later e (rule, target) s.reported) es told_all in
              let here : any (same_entry (rule, target)) ((rule, target) ∷ s.reported) ≡ true =
                ground (arith, same_entry_refl (rule, target)) in
              keep_told (rule, target) es (sym fresh)
                (
                  (new, different),
                  inl (ap (λ l. (rule, target) ∷ l) called, ground arith, (here, all)),
                )
        ]
      ]

  -- However many problems a broker that is not off meets, no problem is reported twice; and either
  -- each of them has been reported, in at most 100 calls of the report function, or the function
  -- has been called 101 times, the last time with `suppressed`.
  pub report_all-AreTold :
      (es : List Entry)
      → AreDifferent (report_all mode es).reported × AreTold es (report_all mode es)
  report_all-AreTold [] = (tt, inl (refl, omega arith, tt))
  report_all-AreTold ((rule, target) ∷ es) =
      report-AreTold rule target es (report_all mode es) (report_all-AreTold es)
