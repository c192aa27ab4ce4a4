-- ===== src/Broker/Namespace/Deepest.antt =====
-- The root that lib/fs-broker/namespace.js resolves a path in is the deepest one.
use mathlib.Core.Path.{subst}
use countinghouse.Prelude.{
  ◌≤◌, ◌≡◌, refl, sym, ap, ◌∙◌, inl, inr, Bool, true, false, List, [], ◌∷◌, ◌++◌, Option, none,
  some, arith, find, length, leb, All, All-weaken, Bool-cases, nat_eq_iff,
}
use countinghouse.Prelude.Text.{Text, codes, same, same_iff, starts_with}
use countinghouse.Broker.Namespace.{
  Root, Namespace, inside, insert_longest, longest_first, drop, at_root, outside, resolve_below,
  resolve_in, by_vroot, resolve,
}

starts_with-drop : (t s : Text) → starts_with t s ≡ true → s ≡ t ++ drop (length t) s
starts_with-drop [] s h = refl
starts_with-drop (a ∷ t) [] h = cc
starts_with-drop (a ∷ t) (b ∷ s) h = ground (arith, nat_eq_iff a b, starts_with-drop t s)

starts_with-append : (t u s : Text) → starts_with (t ++ u) s ≡ true → starts_with t s ≡ true
starts_with-append [] u s h = refl
starts_with-append (a ∷ t) u [] h = cc
starts_with-append (a ∷ t) u (b ∷ s) h = ground (arith, starts_with-append t u s)

starts_with_self : (t : Text) → starts_with t t ≡ true
starts_with_self [] = refl
starts_with_self (a ∷ t) = ground (arith, nat_eq_iff a a, starts_with_self t)

-- A path inside a root is the root and a rest.
inside_starts : (p root : Text) → inside p root ≡ true → starts_with root p ≡ true
unfolding inside
inside_starts p root h = elim (Bool-cases (same p root)) [
  | inl e ↦ subst (λ x. starts_with x p ≡ true) ((same_iff p root).0 e) (starts_with_self p)
  | inr e ↦ elim (Bool-cases (same root (codes "/"))) [
    | inl top ↦
        let slash : root ≡ codes "/" = (same_iff root (codes "/")).0 top in
        let below : starts_with (codes "/") p ≡ true = rw (e, top) at h in
        subst (λ x. starts_with x p ≡ true) (sym slash) below
    | inr other ↦
        let below : starts_with (root ++ codes "/") p ≡ true = rw (e, other) at h in
        starts_with-append root (codes "/") p below
  ]
]

module _ (text : Root → Text) where
  abbrev IsShorter : Root → Root → Type 0
  IsShorter r s = length (text s) ≤ length (text r)

  abbrev IsDescending : List Root → Type 0
  IsDescending [] = Unit
  IsDescending (r ∷ roots) = All (IsShorter r) roots × IsDescending roots

  module _ (P : Root → Type 0) where
    pub All-insert_longest :
        (r : Root) (roots : List Root) → P r → All P roots → All P (insert_longest text r roots)
    unfolding insert_longest
    All-insert_longest r [] h k = (h, tt)
    All-insert_longest r (s ∷ roots) h k =
        elim (Bool-cases (leb (length (text s)) (length (text r)))) [
          | inl e ↦ rw e (h, k)
          | inr e ↦ rw e (k.0, All-insert_longest r roots h k.1)
        ]

    All-of_insert_longest :
        (r : Root) (roots : List Root) → All P (insert_longest text r roots) → P r × All P roots
    unfolding insert_longest
    All-of_insert_longest r [] h = h
    All-of_insert_longest r (s ∷ roots) h =
        elim (Bool-cases (leb (length (text s)) (length (text r)))) [
          | inl e ↦ rw e at h
          | inr e ↦
              let split : P s × All P (insert_longest text r roots) = rw e at h in
              let (a, b) = All-of_insert_longest r roots split.1 in (a, (split.0, b))
        ]

    All-of_longest_first : (roots : List Root) → All P (longest_first text roots) → All P roots
    unfolding longest_first
    All-of_longest_first [] h = tt
    All-of_longest_first (r ∷ roots) h =
        let (a, b) = All-of_insert_longest r (longest_first text roots) h in
        (a, All-of_longest_first roots b)

  insert_longest-IsDescending :
      (r : Root) (roots : List Root)
      → IsDescending roots
      → IsDescending (insert_longest text r roots)
  unfolding insert_longest
  insert_longest-IsDescending r [] h = (tt, tt)
  insert_longest-IsDescending r (s ∷ roots) h =
      elim (Bool-cases (leb (length (text s)) (length (text r)))) [
        | inl e ↦ rw e (
          (
            ground (arith, e),
            All-weaken {P = IsShorter s} {Q = IsShorter r} (λ q k. ground (arith, e, k)) roots h.0,
          ),
          h,
        )
        | inr e ↦ rw e (
          All-insert_longest (IsShorter s) r roots (ground (arith, e)) h.0,
          insert_longest-IsDescending r roots h.1,
        )
      ]

  longest_first-IsDescending : (roots : List Root) → IsDescending (longest_first text roots)
  unfolding longest_first
  longest_first-IsDescending [] = tt
  longest_first-IsDescending (r ∷ roots) =
      insert_longest-IsDescending r (longest_first text roots) (longest_first-IsDescending roots)

-- The first hit in a list that descends.
found_longest :
    (text : Root → Text) (p : Root → Bool) (roots : List Root) (r : Root)
    → IsDescending text roots
    → find p roots ≡ some r
    → (p r ≡ true) × All (λ s. p s ≡ true → length (text s) ≤ length (text r)) roots
found_longest text p [] r d h = cc
found_longest text p (s ∷ roots) r d h = elim (Bool-cases (p s)) [
  | inl e ↦
      let first : s ≡ r = ground (arith, e) in
      subst
        (λ x. (p x ≡ true) × All (λ s. p s ≡ true → length (text s) ≤ length (text x)) (s ∷ roots))
        first
        (e, ((λ k. omega arith), All-weaken {P = IsShorter text s} (λ q short k. short) roots d.0))
  | inr e ↦
      let (hit, longest) = found_longest text p roots r d.1 (rw e at h) in
      (hit, ((λ k. ground (arith, e, k)), longest))
]

found_none :
    (p : Root → Bool) (roots : List Root) → find p roots ≡ none → All (λ s. p s ≡ false) roots
found_none p [] h = tt
found_none p (s ∷ roots) h = elim (Bool-cases (p s)) [
  | inl e ↦ ground (arith, e)
  | inr e ↦ (e, found_none p roots (rw e at h))
]

-- A root that holds the path is no deeper.
abbrev pub IsDeepest : Text → Root → Root → Type 0
IsDeepest v r s = inside v s.vroot ≡ true → length s.vroot ≤ length r.vroot

no_root_below :
    (v : Text) (below : List Root) (v' host : Text) (r : Root)
    → ¬ (resolve_below v below ≡ at_root v' host r)
no_root_below v [] v' host r h = cc
no_root_below v (s ∷ below) v' host r h = cc

resolve_in-root :
    (v : Text) (roots : List Root) (found : Option Root) (v' host : Text) (r : Root)
    → resolve_in v roots found ≡ at_root v' host r
    → (found ≡ some r) × (v' ≡ v) × (host ≡ r.host ++ drop (length r.vroot) v)
resolve_in-root v roots (some s) v' host r h =
    let root : s ≡ r = cc in
    let virtual : v' ≡ v = cc in
    let file : s.host ++ drop (length s.vroot) v ≡ host = cc in
    (ap (λ x. some x) root, virtual, sym file ∙ ap (λ x. x.host ++ drop (length x.vroot) v) root)
resolve_in-root v roots none v' host r h = absurd (no_root_below v _ v' host r h)

-- A path that resolves in a root is the root's virtual path and a rest, its host path is the root's
-- host path and the same rest, the root is one that holds the path, and no root that holds it is
-- deeper.
pub resolve-IsDeepest :
    (n : Namespace) (v v' host : Text) (r : Root)
    → resolve n v ≡ at_root v' host r
    → (v' ≡ v)
      × (inside v r.vroot ≡ true)
      × (v ≡ r.vroot ++ drop (length r.vroot) v)
      × (host ≡ r.host ++ drop (length r.vroot) v)
      × All (IsDeepest v r) n.roots
unfolding resolve
resolve-IsDeepest n v v' host r h =
    let (found, virtual, file) = resolve_in-root v (by_vroot n) _ v' host r h in
    let (hit, longest) =
      found_longest (λ r. r.vroot) (λ r. inside v r.vroot) (by_vroot n) r
        (longest_first-IsDescending (λ r. r.vroot) n.roots) found in
    (
      virtual,
      hit,
      starts_with-drop r.vroot v (inside_starts v r.vroot hit),
      file,
      All-of_longest_first (λ r. r.vroot) (IsDeepest v r) n.roots longest,
    )

-- Nothing of the path's is in the namespace: no root holds it.
abbrev pub IsApart : Text → Root → Type 0
IsApart v r = inside v r.vroot ≡ false

resolve_in-outside :
    (v : Text) (roots : List Root) (found : Option Root) (v' : Text)
    → resolve_in v roots found ≡ outside v'
    → found ≡ none
resolve_in-outside v roots (some s) v' h = cc
resolve_in-outside v roots none v' h = refl

-- A path that resolves outside is inside no root.
resolve-outside : (n : Namespace) (v v' : Text) → resolve n v ≡ outside v' → All (IsApart v) n.roots
unfolding resolve
resolve-outside n v v' h =
    All-of_longest_first (λ r. r.vroot) (IsApart v) n.roots
      (found_none (λ r. inside v r.vroot) (by_vroot n) (resolve_in-outside v (by_vroot n) _ v' h))
