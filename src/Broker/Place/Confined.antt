-- ===== src/Broker/Place/Confined.antt =====
-- Where lib/fs-broker/broker.js lets an operation land under `enforce`.
use mathlib.Core.Path.{subst}
use countinghouse.Prelude.{
  ℕ, ◌≡◌, refl, sym, ◌⊎◌, inl, inr, Bool, true, false, ◌&&◌, ◌||◌, not, Option, none, some,
  Bool-cases, if◌then◌else◌, if-cases,
}
use countinghouse.Prelude.Text.{Text, same}
use countinghouse.Broker.Namespace.{
  Root, Namespace, Resolution, inside, at_root, ancestor, outside, resolve, root_for_real,
}
use countinghouse.Broker.Place.{
  Checked, within, escape, check_thrown, Mode, enoent_code, erofs, escape_rule, readonly_rule,
  is_off, is_enforce, with_report, enforce, Want, is_writing, reading, writing, Host, Ident,
  Location, located, no_parent, thrown, Placed, Outcome, placed, refused, State, locate, held_by,
  judge, check_host, finish, decide, place_above, place_at, place,
}
use countinghouse.Broker.Place.Cache.{IsSound}
use countinghouse.Broker.Place.Located.{
  IsRooted, IsOneOf, root_for_real-holds, IsSeen, IsNowhere, IsFit, locate-IsFound,
}

module _ (dirname basename : Text → Text) (join : Text → Text → Text) (hosts : ℕ → Host)
    (now : ℕ) where
  -- Whether links are followed: by the operation, or because the path is a root itself.
  abbrev pub follows : Bool → Resolution → Bool
  follows follow (at_root v path r) = follow || same v r.vroot
  follows follow _ = follow

  module _ (n : Namespace) (want : Want) (follow : Bool) where
    -- The path's real location is inside a root of the namespace, which may be written if the
    -- operation writes; or the parent of the path does not exist.
    abbrev IsLanded : (followed : Bool) → Text → Root → Option Ident → Type 0
    IsLanded followed path r none = IsNowhere dirname basename join hosts now path
    IsLanded followed path r (some ident) =
        (loc : Text) × IsSeen dirname basename join hosts now followed path loc
        × IsOneOf n.roots r
        × (inside loc r.real ≡ true)

    abbrev IsAllowed : Root → Type 0
    IsAllowed r = is_writing want && not r.writable ≡ false

    abbrev pub IsConfined : Placed → Type 0
    IsConfined p =
        ((p.host ≡ none) × (want ≡ reading))
        ⊎ ((path : Text) × (r : Root) × (p.host ≡ some path)
            × (p.root ≡ some r)
            × IsRooted p.res
            × IsAllowed r
            × IsLanded (follows follow p.res) path r p.ident)

    abbrev IsOk : Outcome → Type 0
    IsOk (placed p) = IsConfined p
    IsOk (refused e) = Unit

    finish-IsOk :
        (res : Resolution) (v path : Text) (r : Root) (ident : Option Ident) (s : State)
        → IsRooted res
        → IsLanded (follows follow res) path r ident
        → IsOk (finish enforce want res v path r ident s).1
    finish-IsOk res v path r ident s rooted h =
        elim (Bool-cases (is_writing want && not r.writable)) [
          | inl e ↦ rw e tt
          | inr e ↦ rw e (inr (path, r, refl, refl, rooted, e, h))
        ]

    held-IsOk :
        (res : Resolution) (v path loc : Text) (r : Root) (ident : Ident) (s : State)
        (o : Option Root)
        → IsRooted res
        → root_for_real n loc ≡ o
        → IsSeen dirname basename join hosts now (follows follow res) path loc
        → IsOk
            (decide enforce want res v path r
              (held_by dirname basename join (hosts now) now ident o)
              s).1
    held-IsOk res v path loc r ident s none rooted e h = tt
    held-IsOk res v path loc r ident s (some q) rooted e h =
        let (one, within_it) = root_for_real-holds n loc q e in
        finish-IsOk res v path q (some ident) s rooted (loc, h, one, within_it)

    judge-IsOk :
        (res : Resolution) (v path : Text) (r : Root) (l : Location) (s : State)
        → IsRooted res
        → IsFit dirname basename join hosts now (follows follow res) path l
        → IsOk
            (decide enforce want res v path r
              (judge dirname basename join (hosts now) now n r l)
              s).1
    judge-IsOk res v path r (located loc ident) s rooted h =
        held-IsOk res v path loc r ident s (root_for_real n loc) rooted refl h
    judge-IsOk res v path r no_parent s rooted h = finish-IsOk res v path r none s rooted h
    judge-IsOk res v path r thrown s rooted h = tt

    place_above-IsOk :
        (w : Want) (res : Resolution) (v : Text) → w ≡ want → IsOk (place_above enforce w res v)
    place_above-IsOk reading res v e = inl (refl, sym e)
    place_above-IsOk writing res v e = tt

    place_at-IsOk :
        (res : Resolution) (s : State)
        → IsSound hosts now s.cache
        → IsOk
            (place_at enforce want
              (λ v path r. check_host dirname basename join (hosts now) now n v path r follow)
              res
              s).1
    unfolding check_host
    place_at-IsOk (at_root v path r) s sound =
        let asked =
          locate dirname basename join (hosts now) now (same v r.vroot) follow path s.cache in
        judge-IsOk (at_root v path r) v path r asked.1 (record s { cache = asked.0 }) tt
          (locate-IsFound dirname basename join hosts now (same v r.vroot) follow path s.cache
            sound).1
    place_at-IsOk (ancestor v children) s sound = place_above-IsOk want (ancestor v children) v refl
    place_at-IsOk (outside v) s sound = tt

    -- Under `enforce`, whatever `place` lets through is a directory above the roots that is only
    -- read; or it is resolved in a root, and its real location is inside the real path of a root of
    -- the namespace, and that root is writable if the operation writes; or the path's parent has no
    -- real path, and the root of its virtual path is writable if the operation writes. The real
    -- location is the path's own real path, or its name in the real path of its parent, which the
    -- system gives or has given less than 1000 ms ago; where the operation follows links or the path
    -- is a root, the latter only if the name is no symbolic link or leads to nothing.
    pub place-IsConfined :
        (path : Text) (s : State) (p : Placed)
        → IsSound hosts now s.cache
        → (place dirname basename join (hosts now) now n enforce want follow path s).1 ≡ placed p
        → IsConfined p
    unfolding place
    place-IsConfined path s p sound e = subst IsOk e (place_at-IsOk (resolve n path) s sound)

  module _ (mode : Mode) (want : Want) where
    finish-cache :
        (res : Resolution) (v path : Text) (r : Root) (ident : Option Ident) (s : State)
        → (finish mode want res v path r ident s).0.cache ≡ s.cache
    finish-cache res v path r ident s =
        let fine : Outcome =
          placed
            (record { res = res; virtual = v; host = some path; root = some r; ident = ident }) in
        let told = with_report mode readonly_rule v s in
        if-cases (λ (x : State × Outcome). x.0.cache ≡ s.cache) (is_writing want && not r.writable)
          (told, if is_enforce mode then refused erofs else fine) (s, fine) (λ e. refl) (λ e. refl)

    decide-cache :
        (res : Resolution) (v path : Text) (r : Root) (k : Checked) (s : State)
        → (decide mode want res v path r k s).0.cache ≡ s.cache
    decide-cache res v path r (within q ident) s = finish-cache res v path q ident s
    decide-cache res v path r check_thrown s = refl
    decide-cache res v path r escape s =
        let told = with_report mode escape_rule v s in
        if-cases (λ (x : State × Outcome). x.0.cache ≡ s.cache) (is_enforce mode)
          (told, refused enoent_code) (finish mode want res v path r none told) (λ e. refl)
          (λ e. finish-cache res v path r none told)

    place_at-IsSound :
        (n : Namespace) (follow : Bool) (res : Resolution) (s : State)
        → IsSound hosts now s.cache
        → IsSound hosts now
            (place_at mode want
              (λ v path r. check_host dirname basename join (hosts now) now n v path r follow)
              res
              s).0.cache
    unfolding check_host
    place_at-IsSound n follow (at_root v path r) s sound =
        let asked =
          locate dirname basename join (hosts now) now (same v r.vroot) follow path s.cache in
        let (kept, fit) =
          locate-IsFound dirname basename join hosts now (same v r.vroot) follow path s.cache
            sound in
        let checked = judge dirname basename join (hosts now) now n r asked.1 in
        let s' : State = record s { cache = asked.0 } in
        if-cases (λ (x : State × Outcome). IsSound hosts now x.0.cache) (is_off mode)
          (
            s,
            placed (record {
              res = at_root v path r;
              virtual = v;
              host = some path;
              root = some r;
              ident = none;
            }),
          )
          (decide mode want (at_root v path r) v path r checked s') (λ e. sound)
          (λ e.
            subst (λ c. IsSound hosts now c)
              (sym (decide-cache (at_root v path r) v path r checked s')) kept)
    place_at-IsSound n follow (ancestor v children) s sound = sound
    place_at-IsSound n follow (outside v) s sound = sound

    -- `place` keeps the cache sound, in every mode.
    pub place-IsSound :
        (n : Namespace) (follow : Bool) (path : Text) (s : State)
        → IsSound hosts now s.cache
        → IsSound hosts now
            (place dirname basename join (hosts now) now n mode want follow path s).0.cache
    unfolding place
    place-IsSound n follow path s sound = place_at-IsSound n follow (resolve n path) s sound
