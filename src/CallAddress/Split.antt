-- ===== src/CallAddress/Split.antt =====
-- Splitting a text at a character and joining it again, for the addresses of lib/call-address.js.
use countinghouse.Prelude.{
  ℕ, inl, inr, ◌≡◌, refl, nat_eq, nat_eq_iff, false, List, [], ◌∷◌, ◌++◌, arith, contains, ℕ_eq,
  Bool-cases, All,
}
use countinghouse.Prelude.Text.{Text, split, push_front}

abbrev pub join : ℕ → List Text → Text
join c [] = []
join c (t ∷ []) = t
join c (t ∷ u ∷ ts) = t ++ c ∷ join c (u ∷ ts)

abbrev Filled : List Text → Type 0
Filled [] = ⊥
Filled (t ∷ ts) = Unit

push_front-Filled : (a : ℕ) (ts : List Text) → Filled (push_front a ts)
push_front-Filled a [] = tt
push_front-Filled a (t ∷ ts) = tt

split-Filled : (c : ℕ) (s : Text) → Filled (split c s)
unfolding split
split-Filled c [] = tt
split-Filled c (a ∷ s) = elim (Bool-cases (nat_eq a c)) [
  | inl e ↦ rw e tt
  | inr e ↦ rw e (push_front-Filled a (split c s))
]

join-push_front : (c a : ℕ) (ts : List Text) → Filled ts → join c (push_front a ts) ≡ a ∷ join c ts
join-push_front c a [] h = elim h [ ]
join-push_front c a (t ∷ []) h = refl
join-push_front c a (t ∷ u ∷ ts) h = refl

join_blank : (c : ℕ) (ts : List Text) → Filled ts → join c ([] ∷ ts) ≡ c ∷ join c ts
join_blank c [] h = elim h [ ]
join_blank c (t ∷ ts) h = refl

-- Joining the parts that a text splits into gives the text.
pub join-split : (c : ℕ) (s : Text) → join c (split c s) ≡ s
unfolding split
join-split c [] = refl
join-split c (a ∷ s) = elim (Bool-cases (nat_eq a c)) [
  | inl e ↦
      rw (e, join_blank c (split c s) (split-Filled c s), join-split c s, (nat_eq_iff a c).0 e) refl
  | inr e ↦ rw (e, join-push_front c a (split c s) (split-Filled c s), join-split c s) refl
]

abbrev pub Lacks : ℕ → Text → Type 0
Lacks c t = contains c t ≡ false

push_front-Lacks :
    (c a : ℕ) (ts : List Text)
    → nat_eq a c ≡ false
    → All (Lacks c) ts
    → All (Lacks c) (push_front a ts)
push_front-Lacks c a [] e h = (ground (arith, nat_eq_iff a c, nat_eq_iff c a), tt)
push_front-Lacks c a (t ∷ ts) e h = (ground (arith, h.0, nat_eq_iff a c, nat_eq_iff c a), h.1)

pub split-Lacks : (c : ℕ) (s : Text) → All (Lacks c) (split c s)
unfolding split
split-Lacks c [] = (refl, tt)
split-Lacks c (a ∷ s) = elim (Bool-cases (nat_eq a c)) [
  | inl e ↦ rw e (refl, split-Lacks c s)
  | inr e ↦ rw e (push_front-Lacks c a (split c s) e (split-Lacks c s))
]

pub split-lacking : (c : ℕ) (t : Text) → Lacks c t → split c t ≡ t ∷ []
unfolding split
split-lacking c [] h = refl
split-lacking c (a ∷ t) h = ground (arith, split-lacking c t, nat_eq_iff a c, nat_eq_iff c a)

pub split-append : (c : ℕ) (t s : Text) → Lacks c t → split c (t ++ c ∷ s) ≡ t ∷ split c s
unfolding split
split-append c [] s h = ground (arith, nat_eq_iff c c)
split-append c (a ∷ t) s h = ground (arith, split-append c t s, nat_eq_iff a c, nat_eq_iff c a)
