-- ===== src/Broker/Place/Located.antt =====
-- Where lib/fs-broker/broker.js finds a path on the host: the location that `checkHost` tests.
use mathlib.Core.Path.{subst}
use countinghouse.Prelude.{
  ℕ, ◌≡◌, refl, ◌⊎◌, inl, inr, Bool, true, false, ◌||◌, List, [], ◌∷◌, some, find, All, Any,
  All-weaken, arith, Bool-cases, if-cases,
}
use countinghouse.Prelude.Text.{Text}
use countinghouse.Broker.Namespace.{
  Root, Namespace, Resolution, inside, longest_first, at_root, root_for_real,
}
use countinghouse.Broker.Namespace.Deepest.{All-insert_longest}
use countinghouse.Broker.Place.{
  inode, Answer, found, enoent, failed, Stat, Host, Cache, Location, located, no_parent, thrown,
  cached_realpath, at_parent, via_parent, stat_real, by_realpath, follow_path, name_in, follow_name,
  locate,
}
use countinghouse.Broker.Place.Cache.{IsSound, IsRecent, cached_realpath-IsRecent}

-- Resolved in a root.
abbrev pub IsRooted : Resolution → Type 0
IsRooted (at_root v path r) = Unit
IsRooted _ = ⊥

abbrev pub IsOneOf : List Root → Root → Type 0
IsOneOf roots r = Any (λ q. q ≡ r) roots

All-in : (roots : List Root) → All (IsOneOf roots) roots
All-in [] = tt
All-in (r ∷ roots) = (inl refl, All-weaken (λ q h. inr h) roots (All-in roots))

module _ (P : Root → Type 0) where
  All-longest_first :
      (text : Root → Text) (roots : List Root) → All P roots → All P (longest_first text roots)
  unfolding longest_first
  All-longest_first text [] h = tt
  All-longest_first text (r ∷ roots) h =
      All-insert_longest text P r (longest_first text roots) h.0 (All-longest_first text roots h.1)

  found-All :
      (p : Root → Bool) (roots : List Root) (r : Root)
      → All P roots
      → find p roots ≡ some r
      → P r × (p r ≡ true)
  found-All p [] r all h = cc
  found-All p (s ∷ roots) r all h = elim (Bool-cases (p s)) [
    | inl e ↦
        let first : s ≡ r = ground (arith, e) in subst (λ x. P x × (p x ≡ true)) first (all.0, e)
    | inr e ↦ found-All p roots r all.1 (rw e at h)
  ]

-- The root that holds a real path is one of the namespace's, and holds it.
pub root_for_real-holds :
    (n : Namespace) (path : Text) (r : Root)
    → root_for_real n path ≡ some r
    → IsOneOf n.roots r × (inside path r.real ≡ true)
unfolding root_for_real
root_for_real-holds n path r h =
    found-All (IsOneOf n.roots) (λ s. inside path s.real) (longest_first (λ s. s.real) n.roots) r
      (All-longest_first (IsOneOf n.roots) (λ s. s.real) n.roots (All-in n.roots)) h

module _ (dirname basename : Text → Text) (join : Text → Text → Text) (hosts : ℕ → Host)
    (now : ℕ) where
  -- The name of the path itself is what the operation acts on: it follows no link, or the path has
  -- no real path, or what that leads to is gone.
  abbrev pub IsLeaf : (followed : Bool) → Text → Type 0
  IsLeaf followed path =
      (followed ≡ false)
      ⊎ ((hosts now).realpath path ≡ enoent)
      ⊎ ((real : Text) × ((hosts now).realpath path ≡ found real)
          × ((hosts now).stat real ≡ enoent))

  -- There is nothing at the location, or no symbolic link.
  abbrev pub IsNoLink : Text → Type 0
  IsNoLink loc =
      ((hosts now).lstat loc ≡ enoent)
      ⊎ ((st : Stat) × ((hosts now).lstat loc ≡ found st) × (st.is_link ≡ false))

  -- The real location of a path: its own real path, or its name in the real path of its parent; the
  -- latter, when links are followed, only where the name is no link, or one that leads to nothing.
  abbrev pub IsSeen : (followed : Bool) → Text → Text → Type 0
  IsSeen followed path loc =
      ((hosts now).realpath path ≡ found loc)
      ⊎ ((real : Text) × IsRecent hosts now (dirname path) (found real)
          × (loc ≡ join real (basename path))
          × (IsLeaf followed path ⊎ IsNoLink loc))

  -- The parent has no real path.
  abbrev pub IsNowhere : Text → Type 0
  IsNowhere path =
      IsRecent hosts now (dirname path) enoent ⊎ IsRecent hosts now (dirname path) failed

  abbrev pub IsFit : (followed : Bool) → Text → Location → Type 0
  IsFit followed path (located loc ident) = IsSeen followed path loc
  IsFit followed path no_parent = IsNowhere path
  IsFit followed path thrown = Unit

  abbrev pub IsFound : (followed : Bool) → Text → Cache × Location → Type 0
  IsFound followed path r = IsSound hosts now r.0 × IsFit followed path r.1

  at_parent-IsFound :
      (followed follow : Bool) (path : Text) (c : Cache) (a : Answer Text)
      → IsSound hosts now c
      → IsRecent hosts now (dirname path) a
      → IsLeaf followed path
      → IsFound followed path (at_parent dirname basename join (hosts now) now follow path (c, a))
  at_parent-IsFound followed follow path c (found real) sound h leaf =
      (sound, inr (real, h, refl, inl leaf))
  at_parent-IsFound followed follow path c enoent sound h leaf = (sound, inl h)
  at_parent-IsFound followed follow path c failed sound h leaf = (sound, inr h)

  via_parent-IsFound :
      (followed follow : Bool) (path : Text) (c : Cache)
      → IsSound hosts now c
      → IsLeaf followed path
      → IsFound followed path (via_parent dirname basename join (hosts now) now follow path c)
  unfolding via_parent
  via_parent-IsFound followed follow path c sound leaf =
      let asked = cached_realpath (hosts now) now (dirname path) c in
      let (kept, recent) = cached_realpath-IsRecent hosts now (dirname path) c sound in
      at_parent-IsFound followed follow path asked.0 asked.1 kept recent leaf

  stat_real-IsFound :
      (followed follow : Bool) (path real : Text) (c : Cache) (a : Answer Stat)
      → IsSound hosts now c
      → (hosts now).realpath path ≡ found real
      → (hosts now).stat real ≡ a
      → IsFound followed path (stat_real dirname basename join (hosts now) now follow path real c a)
  stat_real-IsFound followed follow path real c (found st) sound e g = (sound, inl e)
  stat_real-IsFound followed follow path real c enoent sound e g =
      via_parent-IsFound followed follow path c sound (inr (inr (real, e, g)))
  stat_real-IsFound followed follow path real c failed sound e g = (sound, tt)

  by_realpath-IsFound :
      (followed follow : Bool) (path : Text) (c : Cache) (a : Answer Text)
      → IsSound hosts now c
      → (hosts now).realpath path ≡ a
      → IsFound followed path (by_realpath dirname basename join (hosts now) now follow path c a)
  by_realpath-IsFound followed follow path c (found real) sound e =
      stat_real-IsFound followed follow path real c ((hosts now).stat real) sound e refl
  by_realpath-IsFound followed follow path c enoent sound e =
      via_parent-IsFound followed follow path c sound (inr (inl e))
  by_realpath-IsFound followed follow path c failed sound e = (sound, tt)

  follow_path-IsFound :
      (followed follow : Bool) (path : Text) (c : Cache)
      → IsSound hosts now c
      → IsFound followed path (follow_path dirname basename join (hosts now) now follow path c)
  unfolding follow_path
  follow_path-IsFound followed follow path c sound =
      by_realpath-IsFound followed follow path c ((hosts now).realpath path) sound refl

  name_in-IsFound :
      (path real : Text) (c : Cache) (a : Answer Stat)
      → IsSound hosts now c
      → IsRecent hosts now (dirname path) (found real)
      → (hosts now).lstat (join real (basename path)) ≡ a
      → IsFound true path
          (name_in dirname basename join (hosts now) now path real (join real (basename path)) c a)
  name_in-IsFound path real c enoent sound h e = (sound, inr (real, h, refl, inr (inl e)))
  name_in-IsFound path real c failed sound h e = follow_path-IsFound true true path c sound
  name_in-IsFound path real c (found st) sound h e =
      if-cases (IsFound true path) st.is_link
        (follow_path dirname basename join (hosts now) now true path c)
        (c, located (join real (basename path)) (inode st.dev st.ino))
        (λ l. follow_path-IsFound true true path c sound)
        (λ l. (sound, inr (real, h, refl, inr (inr (st, e, l)))))

  follow_name-IsFound :
      (path : Text) (c : Cache) (a : Answer Text)
      → IsSound hosts now c
      → IsRecent hosts now (dirname path) a
      → IsFound true path (follow_name dirname basename join (hosts now) now path (c, a))
  follow_name-IsFound path c (found real) sound h =
      name_in-IsFound path real c ((hosts now).lstat (join real (basename path))) sound h refl
  follow_name-IsFound path c enoent sound h = follow_path-IsFound true true path c sound
  follow_name-IsFound path c failed sound h = follow_path-IsFound true true path c sound

  pub locate-IsFound :
      (is_root follow : Bool) (path : Text) (c : Cache)
      → IsSound hosts now c
      → IsFound
          (follow || is_root)
          path
          (locate dirname basename join (hosts now) now is_root follow path c)
  unfolding locate
  locate-IsFound true true path c sound = follow_path-IsFound true true path c sound
  locate-IsFound true false path c sound = follow_path-IsFound true false path c sound
  locate-IsFound false true path c sound =
      let asked = cached_realpath (hosts now) now (dirname path) c in
      let (kept, recent) = cached_realpath-IsRecent hosts now (dirname path) c sound in
      follow_name-IsFound path asked.0 asked.1 kept recent
  locate-IsFound false false path c sound = via_parent-IsFound false false path c sound (inl refl)
