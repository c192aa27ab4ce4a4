-- ===== src/Broker/Namespace/Protected.antt =====
-- The roots of lib/fs-broker/namespace.js keep clear of the protected paths.
use countinghouse.Prelude.{
  ◌≡◌, refl, inl, inr, false, ◌||◌, List, [], ◌∷◌, Option, none, some, arith, map, All, Bool-cases,
}
use countinghouse.Prelude.Text.{Text}
use countinghouse.Broker.Namespace.{
  FileType, Root, declared, Declared, Config, inside, overlap, clash, root_of, sort_declared,
  keep_declared, prepare,
}

module _ (real_of : Text → Text) (type_of : Text → FileType) where
  -- No protected path is inside the path or holds it, neither as they are written nor in their real
  -- forms.
  abbrev pub IsClear : List Text → Text → Type 0
  IsClear protected_paths path =
      All
        (λ p.
          (inside p path ≡ false)
          × (inside path p ≡ false)
          × (inside (real_of p) (real_of path) ≡ false)
          × (inside (real_of path) (real_of p) ≡ false))
        protected_paths

  no_clash : (ps : List Text) (path : Text) → clash real_of type_of ps path ≡ none → IsClear ps path
  unfolding clash
  no_clash [] path h = tt
  no_clash (p ∷ ps) path h =
      elim (Bool-cases (overlap p path || overlap (real_of p) (real_of path))) [
        | inl e ↦ ground (arith, e)
        | inr e ↦ (ground (arith, e), no_clash ps path (rw e at h))
      ]

  sort_declared-IsClear :
      (ps : List Text) (d : Declared) (found : Option Text)
      (rest : List Declared × List (Text × Text))
      → clash real_of type_of ps d.path ≡ found
      → All (λ k. IsClear ps k.path) rest.0
      → All (λ k. IsClear ps k.path) (sort_declared real_of type_of found d rest).0
  sort_declared-IsClear ps d none rest e h = (no_clash ps d.path e, h)
  sort_declared-IsClear ps d (some p) rest e h = h

  keep_declared-IsClear :
      (ps : List Text) (ds : List Declared)
      → All (λ k. IsClear ps k.path) (keep_declared real_of type_of ps ds).0
  unfolding keep_declared
  keep_declared-IsClear ps [] = tt
  keep_declared-IsClear ps (d ∷ ds) =
      sort_declared-IsClear ps d _ (keep_declared real_of type_of ps ds) refl
        (keep_declared-IsClear ps ds)

  -- A root that stands for a declared path is clear; those of the module itself are fixed.
  abbrev pub IsOpen : Config → Root → Type 0
  IsOpen cfg r = r.name ≡ declared → IsClear cfg.protected_paths r.host

  roots-IsOpen :
      (cfg : Config) (kept : List Declared)
      → All (λ k. IsClear cfg.protected_paths k.path) kept
      → All
          (IsOpen cfg)
          (map (λ d. root_of real_of type_of d.path d.path d.writable false declared) kept)
  roots-IsOpen cfg [] h = tt
  roots-IsOpen cfg (d ∷ ds) h = ((λ e. h.0), roots-IsOpen cfg ds h.1)

  -- Once prepared, no root of a declared path overlaps a protected path of the server, in either
  -- direction, neither as it is written nor in its real form.
  pub prepare-IsOpen : (cfg : Config) → All (IsOpen cfg) (prepare real_of type_of cfg).roots
  unfolding prepare
  prepare-IsOpen cfg = (
    (λ e. cc e),
    (
      (λ e. cc e),
      ((λ e. cc e), roots-IsOpen cfg _ (keep_declared-IsClear cfg.protected_paths cfg.declared)),
    ),
  )
