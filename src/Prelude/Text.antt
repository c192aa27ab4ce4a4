-- ===== src/Prelude/Text.antt =====
-- Texts that the program walks (paths, hosts, addresses) as lists of code points.
use Prim.Native.Char.{code}
use Prim.Native.String.{String}
use countinghouse.Prelude.Tests.{Eq, nat_eq, nat_eq_iff, if◌then◌else◌}
use Prim.Native.Nat.{ℕ}
use mathlib.Core.Path.{◌≡◌, refl}
use mathlib.Core.Logic.{◌↔◌}
use mathlib.Core.Bool.{Bool, true, false, ◌&&◌}
use mathlib.Core.List.{List, [], ◌∷◌}
use native.Mathlib.Omega.{arith}

abbrev pub Text : Type 0
Text = List ℕ

-- The code points of a literal.
abbrev pub codes : String → Text
codes String.[] = []
codes (String.◌∷◌ c s) = code c ∷ codes s

abbrev pub same : Text → Text → Bool
same [] [] = true
same (a ∷ s) (b ∷ t) = nat_eq a b && same s t
same _ _ = false

pub same_sound : (s t : Text) → same s t ≡ true → s ≡ t
same_sound [] [] h = refl
same_sound (a ∷ s) (b ∷ t) h = ground (arith, nat_eq_iff a b, same_sound s t)
same_sound _ _ h = cc

pub same_refl : (s : Text) → same s s ≡ true
same_refl [] = refl
same_refl (a ∷ s) = ground (arith, nat_eq_iff a a, same_refl s)

pub same_iff : (s t : Text) → (same s t ≡ true) ↔ (s ≡ t)
same_iff s t = (same_sound s t, λ e. ground (arith, same_refl s))

instance abbrev pub text_eq : Eq Text
text_eq = record { beq = same; beq_iff = same_iff }

-- `s.startsWith(t)`
abbrev pub starts_with : Text → Text → Bool
starts_with [] s = true
starts_with (a ∷ t) [] = false
starts_with (a ∷ t) (b ∷ s) = nat_eq a b && starts_with t s

-- `s.split(c)`
abbrev pub push_front : ℕ → List Text → List Text
push_front a [] = (a ∷ []) ∷ []
push_front a (t ∷ ts) = (a ∷ t) ∷ ts

unfoldable pub split : ℕ → Text → List Text
split c [] = [] ∷ []
split c (a ∷ s) = let parts = split c s in if nat_eq a c then [] ∷ parts else push_front a parts

-- `s.endsWith(c)`, for one character
abbrev pub ends_with : ℕ → Text → Bool
ends_with c [] = false
ends_with c (a ∷ []) = nat_eq a c
ends_with c (a ∷ b ∷ s) = ends_with c (b ∷ s)
