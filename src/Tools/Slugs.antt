-- ===== src/Tools/Slugs.antt =====
-- What the slugs of lib/mcp/tool-name.js look like.
use mathlib.Core.Path.{subst}
use countinghouse.Prelude.{
  ℕ, ◌≡◌, refl, sym, ap, ◌∙◌, ◌↔◌, inl, inr, Bool, true, false, ◌&&◌, not, [], ◌∷◌, arith, nat_eq,
  nat_eq_iff, Bool-cases, if◌then◌else◌,
}
use countinghouse.Prelude.Text.{Text}
use countinghouse.Tools.{is_slug_unit, squash, trim_start, drop_blank, trim_end, or_x, slugify}

-- Letters and digits, with single underscores between them: the flag says that an underscore may
-- come next.
unfoldable pub is_joined : Bool → Text → Bool
is_joined may [] = true
is_joined may (c ∷ s) =
    let unit = is_joined true s in
    let blank = is_joined false s in
    if is_slug_unit c then unit else (nat_eq c b'_' && may) && blank

unfoldable pub ends_open : Text → Bool
ends_open [] = true
ends_open (c ∷ []) = is_slug_unit c
ends_open (c ∷ d ∷ s) = ends_open (d ∷ s)

-- A slug: not empty, letters and digits with single underscores between them.
unfoldable pub is_slug : Text → Bool
is_slug [] = false
is_slug (c ∷ s) = is_joined false (c ∷ s) && ends_open (c ∷ s)

underscore : is_slug_unit b'_' ≡ false
unfolding is_slug_unit
underscore = refl

-- `squash` leaves no two underscores in a row.
squash-joined : (in_run : Bool) (s : Text) → is_joined (not in_run) (squash in_run s) ≡ true
unfolding squash is_joined
squash-joined in_run [] = refl
squash-joined true (c ∷ s) = elim (Bool-cases (is_slug_unit c)) [
  | inl e ↦ rw (e, e) (squash-joined false s)
  | inr e ↦ rw e (squash-joined true s)
]
squash-joined false (c ∷ s) = elim (Bool-cases (is_slug_unit c)) [
  | inl e ↦ rw (e, e) (squash-joined false s)
  | inr e ↦ rw (e, underscore) (squash-joined true s)
]

-- Fewer starts are joined where an underscore may not come first.
is_joined_weaken : (s : Text) → is_joined false s ≡ true → is_joined true s ≡ true
unfolding is_joined
is_joined_weaken [] h = refl
is_joined_weaken (c ∷ s) h = ground arith

trim_start-joined : (s : Text) → is_joined true s ≡ true → is_joined false (trim_start s) ≡ true
unfolding trim_start is_joined
trim_start-joined [] h = refl
trim_start-joined (c ∷ s) h = elim (Bool-cases (nat_eq c b'_')) [
  | inl e ↦
      let blank : c ≡ b'_' = (nat_eq_iff c b'_').0 e in
      let dull : is_slug_unit c ≡ false =
        subst (λ x. is_slug_unit x ≡ false) (sym blank) underscore in
      rw e (trim_start-joined s (is_joined_weaken s (ground (arith, dull, e, h))))
  | inr e ↦ rw e (ground (arith, e, h))
]

drop_blank_lem :
    (may : Bool) (c : ℕ) (s t : Text)
    → is_joined may (c ∷ s) ≡ true
    → (is_joined true s ≡ true → is_joined true t ≡ true)
    → (is_joined false s ≡ true → is_joined false t ≡ true)
    → ends_open t ≡ true
    → (is_joined may (drop_blank c t) ≡ true) × (ends_open (drop_blank c t) ≡ true)
unfolding is_joined ends_open
drop_blank_lem may c s [] h f g k = ground arith
drop_blank_lem may c s (d ∷ t) h f g k = ground arith

is_joined_tail :
    (may : Bool) (c : ℕ) (s : Text) → is_joined may (c ∷ s) ≡ true → is_joined true s ≡ true
unfolding is_joined
is_joined_tail may c s h = ground (arith, is_joined_weaken s)

trim_end_lem :
    (may : Bool) (s : Text)
    → is_joined may s ≡ true
    → (is_joined may (trim_end s) ≡ true) × (ends_open (trim_end s) ≡ true)
unfolding trim_end is_joined ends_open
trim_end_lem may [] h = (refl, refl)
trim_end_lem may (c ∷ s) h =
    drop_blank_lem may c s (trim_end s) h (λ k. (trim_end_lem true s k).0)
      (λ k. (trim_end_lem false s k).0) (trim_end_lem true s (is_joined_tail may c s h)).1

or_x_lem : (t : Text) → is_joined false t ≡ true → ends_open t ≡ true → is_slug (or_x t) ≡ true
unfolding is_slug is_joined ends_open is_slug_unit
or_x_lem [] h k = refl
or_x_lem (c ∷ t) h k = ground (arith, h, k)

slugify_slug : (lower : Text → Text) (s : Text) → is_slug (slugify lower s) ≡ true
unfolding slugify
slugify_slug lower s =
    let start = trim_start-joined (squash false (lower s)) (squash-joined false (lower s)) in
    let (a, b) = trim_end_lem false (trim_start (squash false (lower s))) start in
    or_x_lem (trim_end (trim_start (squash false (lower s)))) a b

squash_fixed : (in_run : Bool) (s : Text) → is_joined (not in_run) s ≡ true → squash in_run s ≡ s
unfolding squash is_joined
squash_fixed in_run [] h = refl
squash_fixed true (c ∷ s) h = elim (Bool-cases (is_slug_unit c)) [
  | inl e ↦ rw e (ap (λ t. c ∷ t) (squash_fixed false s (rw e at h)))
  | inr e ↦ ground (arith, e, h)
]
squash_fixed false (c ∷ s) h = elim (Bool-cases (is_slug_unit c)) [
  | inl e ↦ rw e (ap (λ t. c ∷ t) (squash_fixed false s (rw e at h)))
  | inr e ↦
      let blank : c ≡ b'_' = ground (arith, e, h, nat_eq_iff c b'_') in
      let rest : is_joined false s ≡ true = ground (arith, e, h) in
      rw e (ap (λ t. b'_' ∷ t) (squash_fixed true s rest) ∙ ap (λ x. x ∷ s) (sym blank))
]

unit_ne : (c : ℕ) → is_slug_unit c ≡ true → nat_eq c b'_' ≡ false
unfolding is_slug_unit
unit_ne c h = ground arith

trim_end_fixed : (s : Text) → ends_open s ≡ true → trim_end s ≡ s
unfolding trim_end ends_open
trim_end_fixed [] h = refl
trim_end_fixed (c ∷ []) h = rw (unit_ne c h) refl
trim_end_fixed (c ∷ d ∷ s) h = rw (trim_end_fixed (d ∷ s) h) refl

slugify_fixed :
    (lower : Text → Text) (s : Text) → lower s ≡ s → is_slug s ≡ true → slugify lower s ≡ s
unfolding slugify is_slug is_joined trim_start
slugify_fixed lower [] e h = cc
slugify_fixed lower (c ∷ s) e h =
    let joined : is_joined true s ≡ true = is_joined_tail false c s (ground (arith, h)) in
    let unit : is_slug_unit c ≡ true = ground (arith, h) in
    rw
      (
        e,
        squash_fixed false (c ∷ s) (ground (arith, unit, joined)),
        unit_ne c unit,
        trim_end_fixed (c ∷ s) (ground (arith, h)),
      )
      refl

-- A text that `toLowerCase` leaves alone is its own slug exactly if it is a slug: not empty, of
-- letters and digits with single underscores between them.
slugify_iff :
    (lower : Text → Text) (s : Text) → lower s ≡ s → (slugify lower s ≡ s) ↔ (is_slug s ≡ true)
slugify_iff lower s e =
    (λ h. subst (λ t. is_slug t ≡ true) h (slugify_slug lower s), slugify_fixed lower s e)
