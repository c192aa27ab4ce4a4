-- ===== src/Broker/Place/Cache.antt =====
-- The cache of real paths of lib/fs-broker/broker.js over time: `hosts t` is what the operating
-- system answers at time `t`.
use countinghouse.Prelude.{
  ℕ, ◌+◌, ◌-◌, ◌≤◌, ◌<◌, ◌≡◌, refl, inl, inr, [], ◌∷◌, Option, none, some, arith, length, leb, ltb,
  All, Bool-cases,
}
use countinghouse.Prelude.Dict.{get, All-put, get-All, length-put}
use countinghouse.Prelude.Text.{Text, text_eq}
use countinghouse.Broker.Place.{
  Answer, found, enoent, failed, Host, Hit, Cache, cache_ms, cache_max, make_room, remember,
  use_hit, cached_realpath,
}

module _ (hosts : ℕ → Host) where
  -- An entry is the real path that the system gave at the entry's time.
  abbrev pub IsTrue : ℕ → Text × Hit → Type 0
  IsTrue now (dir, hit) = (hit.at ≤ now) × ((hosts hit.at).realpath dir ≡ found hit.real)

  abbrev pub IsSound : ℕ → Cache → Type 0
  IsSound now c = All (IsTrue now) c × (length c ≤ cache_max)

  -- The system's answer less than a second ago.
  abbrev pub IsRecent : ℕ → Text → Answer Text → Type 0
  IsRecent now dir a = (t : ℕ) × (t ≤ now) × (now < t + cache_ms) × ((hosts t).realpath dir ≡ a)

  make_room-lem :
      (P : Text × Hit → Type 0) (c : Cache)
      → All P c
      → length c ≤ cache_max
      → All P (make_room c) × (length (make_room c) + 1 ≤ cache_max)
  make_room-lem P [] all h = (tt, omega arith)
  make_room-lem P (e ∷ c) all h = elim (Bool-cases (leb cache_max (length (e ∷ c)))) [
    | inl full ↦ rw full (all.1, omega arith)
    | inr free ↦ rw free (all, ground arith)
  ]

  remember-IsSound :
      (now : ℕ) (dir : Text) (a : Answer Text) (c : Cache)
      → (hosts now).realpath dir ≡ a
      → IsSound now c
      → IsSound now (remember now dir a c).0 × IsRecent now dir (remember now dir a c).1
  remember-IsSound now dir (found real) c e (all, small) =
      let (kept, room) = make_room-lem (IsTrue now) c all small in
      let hit : Hit = record { real = real; at = now } in
      (
        (
          All-put (IsTrue now) dir hit (make_room c) (omega arith, e) kept,
          omega (arith, length-put dir hit (make_room c)),
        ),
        (now, omega arith, omega arith, e),
      )
  remember-IsSound now dir enoent c e sound = (sound, (now, omega arith, omega arith, e))
  remember-IsSound now dir failed c e sound = (sound, (now, omega arith, omega arith, e))

  use_hit-IsSound :
      (now : ℕ) (dir : Text) (o : Option Hit) (c : Cache)
      → get dir c ≡ o
      → IsSound now c
      → IsSound now (use_hit (hosts now) now dir o c).0
        × IsRecent now dir (use_hit (hosts now) now dir o c).1
  use_hit-IsSound now dir none c e sound =
      remember-IsSound now dir ((hosts now).realpath dir) c refl sound
  use_hit-IsSound now dir (some hit) c e sound = elim (Bool-cases (ltb (now - hit.at) cache_ms)) [
    | inl young ↦
        let (before, told) = get-All (IsTrue now) dir hit c sound.0 e in
        rw young (sound, (hit.at, before, ground arith, told))
    | inr old ↦ rw old (remember-IsSound now dir ((hosts now).realpath dir) c refl sound)
  ]

  -- A cache whose entries are answers that the system has given, and that has room for 1024 of
  -- them, stays such a cache, and what `cachedRealpath` answers is what the system answers, or has
  -- answered less than 1000 ms ago.
  pub cached_realpath-IsRecent :
      (now : ℕ) (dir : Text) (c : Cache)
      → IsSound now c
      → IsSound now (cached_realpath (hosts now) now dir c).0
        × IsRecent now dir (cached_realpath (hosts now) now dir c).1
  unfolding cached_realpath
  cached_realpath-IsRecent now dir c sound = use_hit-IsSound now dir (get dir c) c refl sound
