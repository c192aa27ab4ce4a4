-- ===== src/Prelude/Dict.antt =====
-- A JavaScript object or Map as the list of its entries in insertion order: an assignment to a
-- present key replaces its value in place, one to a new key appends.
use countinghouse.Prelude.Tests.{Eq, ◌==◌, if◌then◌else◌}
use mathlib.Core.Path.{◌≡◌, refl}
use mathlib.Core.Option.{Option, none, some}
use mathlib.Core.List.{List, [], ◌∷◌}
use mathlib.Core.Path.{sym}
use mathlib.Core.Logic.{inl, inr}
use Prim.Native.Nat.{◌+◌, ◌≤◌}
use countinghouse.Prelude.Tests.{Bool-cases, eq_of_beq}
use countinghouse.Prelude.Lists.{All, length}
use native.Mathlib.Omega.{arith}

abbrev pub Dict {ℓ κ} : Type ℓ → Type κ → Type (ℓ ⊔ κ)
Dict K V = List (K × V)

abbrev pub keys {ℓ κ} : {K : Type ℓ} {V : Type κ} → Dict K V → List K
keys [] = []
keys ((k, v) ∷ d) = k ∷ keys d

abbrev pub values {ℓ κ} : {K : Type ℓ} {V : Type κ} → Dict K V → List V
values [] = []
values ((k, v) ∷ d) = v ∷ values d

module _ {ℓ κ} {K : Type ℓ} {V : Type κ} ⦃e : Eq K⦄ where
  unfoldable pub get : K → Dict K V → Option V
  get k [] = none
  get k ((j, v) ∷ d) = let rest = get k d in if j == k then some v else rest

  unfoldable pub put : K → V → Dict K V → Dict K V
  put k v [] = (k, v) ∷ []
  put k v ((j, w) ∷ d) = let rest = put k v d in if j == k then (j, v) ∷ d else (j, w) ∷ rest

  unfoldable pub del : K → Dict K V → Dict K V
  del k [] = []
  del k ((j, w) ∷ d) = let rest = del k d in if j == k then rest else (j, w) ∷ rest

  pub get-put :
      (k j : K) (v : V) (d : Dict K V) → get j (put k v d) ≡ (if k == j then some v else get j d)
  unfolding get put
  get-put k j v [] = refl
  get-put k j v ((i, w) ∷ d) =
      ground (arith, e.beq_iff k j, e.beq_iff i k, e.beq_iff i j, get-put k j v d)

  pub get-del : (k j : K) (d : Dict K V) → get j (del k d) ≡ (if k == j then none else get j d)
  unfolding get del
  get-del k j [] = ground arith
  get-del k j ((i, w) ∷ d) =
      ground (arith, e.beq_iff k j, e.beq_iff i k, e.beq_iff i j, get-del k j d)

  pub get-put_self : (k : K) (v : V) (d : Dict K V) → get k (put k v d) ≡ some v
  get-put_self k v d = ground (arith, get-put k k v d, e.beq_iff k k)

  pub length-put : (k : K) (v : V) (d : Dict K V) → length (put k v d) ≤ length d + 1
  unfolding put
  length-put k v [] = omega arith
  length-put k v ((j, w) ∷ d) = ground (arith, length-put k v d)

  pub length-del : (k : K) (d : Dict K V) → length (del k d) ≤ length d
  unfolding del
  length-del k [] = omega arith
  length-del k ((j, w) ∷ d) = ground (arith, length-del k d)

  module _ (P : K × V → Type 0) where
    pub All-put : (k : K) (v : V) (d : Dict K V) → P (k, v) → All P d → All P (put k v d)
    unfolding put
    All-put k v [] h all = (h, tt)
    All-put k v ((j, w) ∷ d) h all = elim (Bool-cases (j == k)) [
      | inl e ↦
          let same_key : k ≡ j = sym (eq_of_beq j k e) in
          let here : P (j, v) = rw (sym same_key) h in rw e (here, all.1)
      | inr e ↦ rw e (all.0, All-put k v d h all.1)
    ]

    pub All-del : (k : K) (d : Dict K V) → All P d → All P (del k d)
    unfolding del
    All-del k [] all = tt
    All-del k ((j, w) ∷ d) all = elim (Bool-cases (j == k)) [
      | inl e ↦ rw e (All-del k d all.1)
      | inr e ↦ rw e (all.0, All-del k d all.1)
    ]

    pub get-All : (k : K) (v : V) (d : Dict K V) → All P d → get k d ≡ some v → P (k, v)
    unfolding get
    get-All k v [] all h = cc
    get-All k v ((j, w) ∷ d) all h = elim (Bool-cases (j == k)) [
      | inl e ↦
          let same_key : k ≡ j = sym (eq_of_beq j k e) in
          let same_value : some w ≡ some v = rw e at h in
          let here : w ≡ v = cc in rw (same_key, sym here) (all.0)
      | inr e ↦ let later : get k d ≡ some v = rw e at h in get-All k v d all.1 later
    ]
