-- ===== src/Tools/Names.antt =====
-- The names that lib/mcp/tool-registry.js gives its tools are free when they are given.
use mathlib.Core.Path.{subst}
use countinghouse.Prelude.{
  ℕ, zero, suc, String, ◌+◌, ◌≤◌, ◌<◌, ◌≡◌, ◌≢◌, refl, sym, ap, ◌∙◌, inl, inr, true, false, ◌||◌,
  not, List, [], ◌∷◌, ◌++◌, Option, none, some, arith, contains, keep, length, or_else, Bool-cases,
  if◌then◌else◌, ◌==◌, beq_ne,
}
use countinghouse.Prelude.Text.{Text, text_eq, codes}
use countinghouse.Prelude.Decimal.{decimal, decimal_injective}
use countinghouse.Prelude.Dict.{Dict}
use countinghouse.Tools.{
  numbered, first_free, dedupe_name, Action, Spec, Target, reserved_names, Built, tool_name,
  add_target, add_actions, add_services, add_devices, build_tool_targets,
}

append_cancel : (s t u : Text) → s ++ t ≡ s ++ u → t ≡ u
append_cancel [] t u e = e
append_cancel (a ∷ s) t u e = append_cancel s t u (let e' : s ++ t ≡ s ++ u = cc in e')

numbered_injective : (name : Text) (m n : ℕ) → numbered name m ≡ numbered name n → m ≡ n
unfolding numbered
numbered_injective name m n e =
    let tails : b'_' ∷ decimal m ≡ b'_' ∷ decimal n = append_cancel name _ _ e in
    let digits : decimal m ≡ decimal n = cc in decimal_injective m n digits

-- The names other than one.
without : Text → List Text → List Text
without t used = keep (λ u. not (t == u)) used

length-without : (t : Text) (used : List Text) → length (without t used) ≤ length used
unfolding without
length-without t [] = omega arith
length-without t (u ∷ used) = ground (arith, length-without t used)

length-without_used :
    (t : Text) (used : List Text) → contains t used ≡ true → length (without t used) < length used
unfolding without
length-without_used t [] h = cc
length-without_used t (u ∷ used) h =
    ground (arith, length-without_used t used, length-without t used)

contains-without :
    (t s : Text) (used : List Text) → t ≢ s → contains s (without t used) ≡ contains s used
unfolding without
contains-without t s [] h = refl
contains-without t s (u ∷ used) h = elim (Bool-cases (t == u)) [
  | inl e ↦
      let other : (s == u) ≡ false = beq_ne s u (λ k. h ((text_eq.beq_iff t u).0 e ∙ sym k)) in
      rw e (rw other (contains-without t s used h))
  | inr e ↦ rw e (ap (λ b. (s == u) || b) (contains-without t s used h))
]

-- The search sees of the names in use only those with its number and later ones.
first_free-agrees :
    (rounds n : ℕ) (name : Text) (used used' : List Text)
    → ((m : ℕ) → n ≤ m → contains (numbered name m) used ≡ contains (numbered name m) used')
    → first_free rounds name n used ≡ first_free rounds name n used'
unfolding first_free
first_free-agrees zero n name used used' h = refl
first_free-agrees (suc rounds) n name used used' h = rw (h n (omega arith)) (
    ap (λ x. if contains (numbered name n) used' then x else numbered name n)
      (first_free-agrees rounds (suc n) name used used' (λ m k. h m (omega (arith, k)))))

first_free-numbered :
    (rounds n : ℕ) (name : Text) (used : List Text)
    → (m : ℕ) × (n ≤ m) × (first_free rounds name n used ≡ numbered name m)
unfolding first_free
first_free-numbered zero n name used = (n, omega arith, refl)
first_free-numbered (suc rounds) n name used = elim (Bool-cases (contains (numbered name n) used)) [
  | inl e ↦
      let (m, le, eq) = first_free-numbered rounds (suc n) name used in
      (m, omega (arith, le), rw e eq)
  | inr e ↦ (n, omega arith, rw e refl)
]

first_free_lem :
    (rounds n : ℕ) (name : Text) (used : List Text)
    → length used < rounds
    → contains (first_free rounds name n used) used ≡ false
unfolding first_free
first_free_lem zero n name used h = elim h [ ]
first_free_lem (suc rounds) n name used h = elim (Bool-cases (contains (numbered name n) used)) [
  | inr e ↦ rw (e, e) refl
  | inl e ↦
      let t = numbered name n in
      let fewer = without t used in
      let apart : (m : ℕ) → suc n ≤ m → t ≢ numbered name m =
        λ m k eq. ground (arith, numbered_injective name n m eq, k) in
      let agrees =
        first_free-agrees rounds (suc n) name used fewer
          (λ m k. sym (contains-without t (numbered name m) used (apart m k))) in
      let rec =
        first_free_lem rounds (suc n) name fewer (omega (arith, length-without_used t used e, h)) in
      let (m, le, eq) = first_free-numbered rounds (suc n) name fewer in
      let here : contains (numbered name m) used ≡ false =
        sym (contains-without t (numbered name m) used (apart m le))
        ∙ subst (λ x. contains x fewer ≡ false) eq rec in
      rw e (subst (λ x. contains x used ≡ false) (sym (agrees ∙ eq)) here)
]

-- The loop of `dedupeName` ends within one round more than there are names in use, and the name it
-- returns is none of them.
dedupe_name-free : (used : List Text) (name : Text) → contains (dedupe_name used name) used ≡ false
unfolding dedupe_name
dedupe_name-free used name = elim (Bool-cases (contains name used)) [
  | inl e ↦ rw e (first_free_lem (length used + 1) 2 name used (omega arith))
  | inr e ↦ rw (e, e) refl
]

-- No name stands twice.
abbrev pub AreDistinct : List Text → Type 0
AreDistinct [] = Unit
AreDistinct (t ∷ ts) = (contains t ts ≡ false) × AreDistinct ts

-- The names of tools, the last first, before those in `names`.
abbrev pub names_onto : List Target → List Text → List Text
names_onto [] names = names
names_onto (t ∷ ts) names = names_onto ts (t.name ∷ names)

names_onto-append :
    (ts : List Target) (t : Target) (names : List Text)
    → names_onto (ts ++ t ∷ []) names ≡ t.name ∷ names_onto ts names
names_onto-append [] t names = refl
names_onto-append (u ∷ ts) t names = names_onto-append ts t (u.name ∷ names)

record IsNamed (built : Built) : Type 0 where
  pub named : built.0 ≡ names_onto built.1 reserved_names
  pub distinct : AreDistinct built.0

module _ (lower : Text → Text) where
  add_target-IsNamed :
      (device_id : String) (device service : Text) (a : Action) (description : Option Text)
      (built : Built)
      → IsNamed built
      → IsNamed (add_target lower device_id device service a description built)
  add_target-IsNamed device_id device service a none built v = v
  add_target-IsNamed device_id device service a (some d) (used, targets) v = record {
    named =
        rw (names_onto-append targets _ reserved_names)
          (ap (λ l. dedupe_name used (tool_name lower device service a.name) ∷ l) v.named);
    distinct = (dedupe_name-free used _, v.distinct);
  }

  add_actions-IsNamed :
      (device_id : String) (device service : Text) (actions : List Action) (built : Built)
      → IsNamed built
      → IsNamed (add_actions lower device_id device service actions built)
  unfolding add_actions
  add_actions-IsNamed device_id device service [] built v = v
  add_actions-IsNamed device_id device service (a ∷ actions) built v =
      add_actions-IsNamed device_id device service actions _
        (add_target-IsNamed device_id device service a a.description built v)

  add_services-IsNamed :
      (device_id : String) (device : Text) (services : Dict Text (Option (List Action)))
      (built : Built)
      → IsNamed built
      → IsNamed (add_services lower device_id device services built)
  unfolding add_services
  add_services-IsNamed device_id device [] built v = v
  add_services-IsNamed device_id device ((service, actions) ∷ services) built v =
      add_services-IsNamed device_id device services _
        (add_actions-IsNamed device_id device service (or_else actions []) built v)

  add_devices-IsNamed :
      (specs : Dict String Spec) (built : Built)
      → IsNamed built
      → IsNamed (add_devices lower specs built)
  unfolding add_devices
  add_devices-IsNamed [] built v = v
  add_devices-IsNamed ((device_id, spec) ∷ specs) built v = add_devices-IsNamed specs _ (
      add_services-IsNamed device_id (or_else spec.friendly_name (codes device_id))
        (or_else spec.services []) built v)

  -- Whatever the loaded devices are called, the names of their tools are distinct, from each other
  -- and from the reserved ones.
  pub build_tool_targets-AreDistinct :
      (specs : Dict String Spec)
      → AreDistinct (names_onto (build_tool_targets lower specs) reserved_names)
  unfolding build_tool_targets
  build_tool_targets-AreDistinct specs =
      let v =
        add_devices-IsNamed specs (reserved_names, [])
          (record { named = refl; distinct = (refl, (refl, (refl, (refl, (refl, tt))))) }) in
      subst AreDistinct v.named v.distinct
