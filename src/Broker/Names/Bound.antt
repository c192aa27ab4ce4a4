-- ===== src/Broker/Names/Bound.antt =====
-- Names that lib/fs-broker/broker.js makes under `enforce` stay within one root.
use countinghouse.Prelude.{
  ℕ, ◌≤◌, ◌≡◌, refl, ◌⊎◌, inl, inr, Bool, true, false, ◌&&◌, ◌||◌, not, List, [], ◌∷◌, ◌++◌, Option,
  none, some, is_some, arith, All-weaken, if-cases, if◌then◌else◌,
}
use countinghouse.Prelude.Int.{ℤ, pos}
use countinghouse.Prelude.Text.{Text}
use countinghouse.Broker.Namespace.{Root, Namespace, Resolution, at_root, ancestor, outside, inside}
use countinghouse.Broker.Quota.{Quota, Report, reserve}
use countinghouse.Broker.Place.{
  Host, Want, reading, writing, enforce, Placed, Outcome, placed, refused, Code, State, place,
}
use countinghouse.Broker.Place.Cache.{IsSound}
use countinghouse.Broker.Place.Located.{IsRooted}
use countinghouse.Broker.Place.Confined.{IsConfined, place-IsConfined, place-IsSound}
use countinghouse.Broker.Names.{
  Node, Call, rename_call, link_call, symlink_call, Broker, Result, done, failed, not_placed, busy,
  exdev, eperm, host_failed, root_at, is_root, same_root, both_rooted, either_rooted, is_writable,
  reserved, counted_with, counted, release_with, release, release_replaced, replaced, then_placed,
  rename_placed, rename, link_placed, link, leaves_root, symlink_placed, symlink, quota_root,
}

-- At most one call is made, and it is a good one.
abbrev pub Asks : (Call → Type 0) → Broker → Broker × Result → Type 0
Asks Good b r = (r.0.calls ≡ b.calls) ⊎ ((c : Call) × (r.0.calls ≡ b.calls ++ c ∷ []) × Good c)

module _ (Good : Call → Type 0) where
  Asks-counted :
      (p : Placed) (bytes entries : ℤ) (c : Call) (ok : Bool) (b : Broker)
      → Good c
      → Asks Good b (counted p bytes entries c ok b)
  unfolding counted
  Asks-counted p bytes entries c ok b good = go (quota_root p) b.quota
    where
      reserved_asks :
          (r : Option (Quota × List Report)) (ok : Bool)
          → Asks Good b (reserved bytes entries c ok r b)
      reserved_asks none ok = inl refl
      reserved_asks (some (q, rs)) true = inr (c, refl, good)
      reserved_asks (some (q, rs)) false = inr (c, refl, good)

      go :
          (counts : Bool) (q : Option Quota)
          → Asks Good b (counted_with bytes entries c ok counts q b)
      go true (some q) = reserved_asks (reserve bytes entries q) ok
      go true none = inr (c, refl, good)
      go false q = inr (c, refl, good)

release-calls :
    (to : Placed) (freed : Option ℕ) (b : Broker) → (release_replaced to freed b).calls ≡ b.calls
unfolding release
release-calls to none b = refl
release-calls to (some bytes) b = go (quota_root to) b.quota
  where
    go : (counts : Bool) (q : Option Quota) → (release_with counts q bytes 1 b).calls ≡ b.calls
    go true (some q) = refl
    go true none = refl
    go false q = refl

then_placed-cases :
    (P : Broker × Result → Type 0) (o : State × Outcome) (b : Broker)
    (next : Placed → Broker → Broker × Result)
    → ((c : Code) → P (record b { state = o.0 }, failed (not_placed c)))
    → ((p : Placed) → o.1 ≡ placed p → P (next p (record b { state = o.0 })))
    → P (then_placed o b next)
then_placed-cases P (s, placed p) b next f g = g p refl
then_placed-cases P (s, refused c) b next f g = f c

rooted-is_some : (p : Placed) → IsRooted p.res → is_some (root_at p) ≡ true
rooted-is_some p h = go p.res h
  where
    go : (res : Resolution) → IsRooted res → is_some (root_at (record p { res = res })) ≡ true
    go (at_root v path r) h = refl
    go (ancestor v children) h = absurd h
    go (outside v) h = absurd h

module _ (dirname basename : Text → Text) (join : Text → Text → Text) (hosts : ℕ → Host)
    (n : Namespace) (now later : ℕ) (order : now ≤ later) where
  -- Placed where it may be, by Broker/Place.
  abbrev pub IsPlaced : Want → ℕ → Placed → Type 0
  IsPlaced want t p = IsConfined dirname basename join hosts t n want false p

  writing-IsRooted : (t : ℕ) (p : Placed) → IsPlaced writing t p → IsRooted p.res
  writing-IsRooted t p (inl (no_host, not_writing)) = cc
  writing-IsRooted t p (inr (path, r, file, root, rooted, allowed, landed)) = rooted

  abbrev pub at_first : Want → Bool → Text → State → State × Outcome
  at_first want follow path s =
      place dirname basename join (hosts now) now n enforce want follow path s

  abbrev pub at_second : Want → Bool → Text → State → State × Outcome
  at_second want follow path s =
      place dirname basename join (hosts later) later n enforce want follow path s

  kept_later :
      (want : Want) (path : Text) (s : State)
      → IsSound hosts now s.cache
      → IsSound hosts later (at_first want false path s).0.cache
  kept_later want path s sound =
      let (all, few) =
        place-IsSound dirname basename join hosts now enforce want n false path s sound in
      (All-weaken (λ e h. (omega (arith, h.0, order), h.1)) _ all, few)

  -- Two paths placed, one after the other.
  two_placed :
      (Good : Call → Type 0) (want : Want) (old new : Text) (b : Broker)
      (next : Placed → Placed → Broker → Broker × Result)
      → IsSound hosts now b.state.cache
      → ((from to : Placed) (s : State)
          → IsPlaced want now from
          → IsPlaced writing later to
          → Asks Good (record b { state = s }) (next from to (record b { state = s })))
      → Asks Good b (
          then_placed
            (at_first want false old b.state)
            b
            (λ from b'. then_placed (at_second writing false new b'.state) b' (next from)))
  two_placed Good want old new b next sound f =
      let o = at_first want false old b.state in
      then_placed-cases (Asks Good b) o b
        (λ from b'. then_placed (at_second writing false new b'.state) b' (next from))
        (λ c. inl refl)
        (λ from e.
          then_placed-cases (Asks Good b) (at_second writing false new o.0)
            (record b { state = o.0 }) (next from) (λ c. inl refl)
            (λ to e'.
              f from to (at_second writing false new o.0).0
                (place-IsConfined dirname basename join hosts now n want false old b.state from
                  sound e)
                (place-IsConfined dirname basename join hosts later n writing false new o.0 to
                  (kept_later want old b.state sound) e')))

  -- A renaming is within one root, and of no root.
  abbrev pub IsBoundRename : Call → Type 0
  IsBoundRename (rename_call from to) =
      IsPlaced writing now from
      × IsPlaced writing later to
      × (is_root from || is_root to ≡ false)
      × (same_root from.root to.root ≡ true)
  IsBoundRename _ = ⊥

  -- A hard link is within one root, which may be written.
  abbrev pub IsBoundLink : Call → Type 0
  IsBoundLink (link_call from to) =
      IsPlaced reading now from
      × IsPlaced writing later to
      × (same_root from.root to.root ≡ true)
      × (is_writable to.root ≡ true)
  IsBoundLink _ = ⊥

  module _ (lstat : Placed → Option Node) (ok : Bool) where
    rename_placed-Asks :
        (from to : Placed) (b : Broker)
        → IsPlaced writing now from
        → IsPlaced writing later to
        → Asks IsBoundRename b (rename_placed at_first at_second lstat ok from to b)
    rename_placed-Asks from to b f t =
        let from_rooted = rooted-is_some from (writing-IsRooted now from f) in
        let to_rooted = rooted-is_some to (writing-IsRooted later to t) in
        let b' = record b { calls = b.calls ++ rename_call from to ∷ [] } in
        let freed = release_replaced to (replaced (lstat from) (lstat to)) b' in
        if-cases (Asks IsBoundRename b) (is_root from || is_root to) (b, failed busy)
          (if both_rooted from to && not (same_root from.root to.root)
            then (b, failed exdev)
            else if ok
            then (freed, done)
            else (b', failed host_failed))
          (λ e. inl refl)
          (λ outer.
            if-cases (Asks IsBoundRename b)
              (both_rooted from to && not (same_root from.root to.root)) (b, failed exdev)
              (if ok then (freed, done) else (b', failed host_failed)) (λ e. inl refl)
              (λ inner.
                let same : same_root from.root to.root ≡ true =
                  ground (arith, from_rooted, to_rooted, inner) in
                let good : IsBoundRename (rename_call from to) = (f, t, outer, same) in
                if-cases (Asks IsBoundRename b) ok (freed, done) (b', failed host_failed)
                  (λ e. inr (
                    rename_call from to,
                    release-calls to (replaced (lstat from) (lstat to)) b',
                    good,
                  ))
                  (λ e. inr (rename_call from to, refl, good))))

    link_placed-Asks :
        (from to : Placed) (b : Broker)
        → IsPlaced reading now from
        → IsPlaced writing later to
        → Asks IsBoundLink b (link_placed at_first at_second lstat ok from to b)
    link_placed-Asks from to b f t =
        let to_rooted = rooted-is_some to (writing-IsRooted later to t) in
        if-cases (Asks IsBoundLink b)
          (either_rooted from to
            && not (both_rooted from to && same_root from.root to.root && is_writable to.root))
          (b, failed eperm) (counted to (pos 0) (pos 1) (link_call from to) ok b) (λ e. inl refl)
          (λ e.
            Asks-counted IsBoundLink to (pos 0) (pos 1) (link_call from to) ok b
              (f, t, ground (arith, to_rooted, e), ground (arith, to_rooted, e)))

    module _ (resolved : Text → Text → Text) (is_absolute : Text → Bool) where
      -- A link that is relative and whose target is in the root that it stands in.
      abbrev pub IsBoundSymlink : Call → Type 0
      IsBoundSymlink (symlink_call target at) =
          IsPlaced writing now at
          × (is_absolute target ≡ false)
          × ((r : Root) × (root_at at ≡ some r)
              × (inside (resolved at.virtual target) r.vroot ≡ true))
      IsBoundSymlink _ = ⊥

      stays :
          (target : Text) (at : Placed) (o : Option Root)
          → root_at at ≡ o
          → is_some o ≡ true
          → leaves_root at_first at_second lstat ok resolved is_absolute target at o ≡ false
          → (is_absolute target ≡ false)
            × ((r : Root) × (root_at at ≡ some r)
                × (inside (resolved at.virtual target) r.vroot ≡ true))
      stays target at none e some_root h = cc
      stays target at (some r) e some_root h =
          let relative : is_absolute target ≡ false = ground (arith, h) in
          let within_it : inside (resolved at.virtual target) r.vroot ≡ true = ground (arith, h) in
          (relative, (r, e, within_it))

      symlink_placed-Asks :
          (target : Text) (at : Placed) (b : Broker)
          → IsPlaced writing now at
          → Asks IsBoundSymlink b
              (symlink_placed at_first at_second lstat ok resolved is_absolute target at b)
      symlink_placed-Asks target at b f =
          let rooted = rooted-is_some at (writing-IsRooted now at f) in
          if-cases (Asks IsBoundSymlink b)
            (leaves_root at_first at_second lstat ok resolved is_absolute target at (root_at at))
            (b, failed eperm) (counted at (pos 0) (pos 1) (symlink_call target at) ok b)
            (λ e. inl refl)
            (λ e.
              let (relative, root) = stays target at (root_at at) refl rooted e in
              Asks-counted IsBoundSymlink at (pos 0) (pos 1) (symlink_call target at) ok b
                (f, relative, root))

      -- Under `enforce`, `rename`, `link` and `symlink` each ask the host for one thing at most. A
      -- renaming is of two paths that `place` lets be written, in one root, neither of them the
      -- root itself; a hard link is made within one root, which is writable, at a path that `place`
      -- lets be written; and a symbolic link is relative, at a path that `place` lets be written,
      -- and its target resolves inside the root in which it stands.
      pub names-AreBound :
          (old new target : Text) (b : Broker)
          → IsSound hosts now b.state.cache
          → Asks IsBoundRename b (rename at_first at_second lstat ok old new b)
            × Asks IsBoundLink b (link at_first at_second lstat ok old new b)
            × Asks IsBoundSymlink b
                (symlink at_first at_second lstat ok resolved is_absolute target new b)
      unfolding rename link symlink
      names-AreBound old new target b sound =
          let o = at_first writing false new b.state in
          (
            two_placed IsBoundRename writing old new b (rename_placed at_first at_second lstat ok)
                sound (λ from to s f t. rename_placed-Asks from to (record b { state = s }) f t),
            two_placed IsBoundLink reading old new b (link_placed at_first at_second lstat ok) sound
                (λ from to s f t. link_placed-Asks from to (record b { state = s }) f t),
            then_placed-cases (Asks IsBoundSymlink b) o b
                (symlink_placed at_first at_second lstat ok resolved is_absolute target)
                (λ c. inl refl)
                (λ at e.
                  symlink_placed-Asks target at (record b { state = o.0 })
                    (place-IsConfined dirname basename join hosts now n writing false new b.state at
                      sound e)),
          )
