-- ===== src/Broker/Names.antt =====
-- lib/fs-broker/broker.js: the operations that give a file another name (`rename`, `link` and
-- `symlink`), with what they count. The two placings of an operation are parameters, since time
-- goes on between them, and so is what the host answers. The host's own calls are in a list.
pub mod Bound
use countinghouse.Prelude.{
  ℕ, ◌+◌, Bool, true, false, ◌&&◌, ◌||◌, not, List, [], ◌∷◌, ◌++◌, Option, none, some, is_some,
  nat_eq, if◌then◌else◌,
}
use countinghouse.Prelude.Int.{ℤ, pos, ◌-ℤ◌}
use countinghouse.Prelude.Text.{Text, same}
use countinghouse.Broker.Namespace.{Root, Resolution, at_root, ancestor, outside, inside}
use countinghouse.Broker.Quota.{Quota, Report, reserve, settle}
use countinghouse.Broker.Place.{
  Want, reading, writing, Placed, Outcome, placed, refused, Code, State,
}

-- The error of an operation: one of `place`, or the codes of the operations themselves.
pub data Failure : Type 0 where
  not_placed : Code → Failure
  busy exdev eperm no_space host_failed : Failure

-- What `lstat` tells of a path, if it succeeds.
pub record Node : Type 0 where
  pub dev : ℕ
  pub ino : ℕ
  pub is_file : Bool
  pub nlink : ℕ
  pub size : ℕ

-- What the host is asked to do, with the placed paths.
pub data Call : Type 0 where
  rename_call : Placed → Placed → Call
  link_call : Placed → Placed → Call
  symlink_call : (target : Text) → Placed → Call

pub record Broker : Type 0 where
  pub state : State
  pub quota : Option Quota
  pub reports : List Report
  pub calls : List Call

pub data Result : Type 0 where
  done : Result
  failed : Failure → Result

-- `res.kind === 'root'`, with the root of the virtual path.
abbrev pub root_at : Placed → Option Root
root_at p = elim p.res [ at_root v path r ↦ some r | _ ↦ none ]

abbrev pub is_vroot : Text → Option Root → Bool
is_vroot v none = false
is_vroot v (some r) = same v r.vroot

abbrev pub is_root : Placed → Bool
is_root p = is_vroot p.virtual (root_at p)

abbrev pub has_quota : Option Root → Bool
has_quota none = false
has_quota (some r) = r.quota

-- `quotaRoot`
abbrev pub quota_root : Placed → Bool
quota_root p = has_quota (root_at p)

-- `from.root === to.root`: the roots of a namespace have different virtual paths.
abbrev pub same_root : Option Root → Option Root → Bool
same_root none none = true
same_root (some r) (some s) = same r.vroot s.vroot
same_root _ _ = false

abbrev pub both_rooted : Placed → Placed → Bool
both_rooted p q = is_some (root_at p) && is_some (root_at q)

abbrev pub either_rooted : Placed → Placed → Bool
either_rooted p q = is_some (root_at p) || is_some (root_at q)

abbrev pub is_writable : Option Root → Bool
is_writable none = false
is_writable (some r) = r.writable

abbrev pub with_quota : Quota × List Report → Broker → Broker
with_quota (q, rs) b = record b { quota = some q; reports = b.reports ++ rs }

-- The end of `counted`: the call is made and answers whether it succeeded.
abbrev pub settled : Quota → (bytes entries : ℤ) → Call → Bool → Broker → Broker × Result
settled q bytes entries c true b = (
  with_quota (settle bytes entries bytes entries q) (record b { calls = b.calls ++ c ∷ [] }),
  done,
)
settled q bytes entries c false b = (
  with_quota (settle bytes entries (pos 0) (pos 0) q) (record b { calls = b.calls ++ c ∷ [] }),
  failed host_failed,
)

abbrev pub reserved :
    (bytes entries : ℤ) → Call → Bool → Option (Quota × List Report) → Broker → Broker × Result
reserved bytes entries c ok none b = (b, failed no_space)
reserved bytes entries c ok (some (q, rs)) b = settled q bytes entries c ok (with_quota (q, rs) b)

abbrev pub uncounted : Call → Bool → Broker → Broker × Result
uncounted c ok b = (record b { calls = b.calls ++ c ∷ [] }, if ok then done else failed host_failed)

abbrev pub counted_with :
    (bytes entries : ℤ) → Call → Bool → Bool → Option Quota → Broker → Broker × Result
counted_with bytes entries c ok true (some q) b =
    reserved bytes entries c ok (reserve bytes entries q) b
counted_with bytes entries c ok _ _ b = uncounted c ok b

-- `counted` without an `actual`.
unfoldable pub counted : Placed → (bytes entries : ℤ) → Call → Bool → Broker → Broker × Result
counted p bytes entries c ok b = counted_with bytes entries c ok (quota_root p) b.quota b

abbrev pub release_with : Bool → Option Quota → (bytes entries : ℕ) → Broker → Broker
release_with true (some q) bytes entries b =
    with_quota (settle (pos 0) (pos 0) (pos 0 -ℤ pos bytes) (pos 0 -ℤ pos entries) q) b
release_with _ _ bytes entries b = b

-- `release`, where something was freed.
unfoldable pub release : Placed → (bytes entries : ℕ) → Broker → Broker
release p bytes entries b = release_with (quota_root p) b.quota bytes entries b

abbrev pub same_node : Option Node → Node → Bool
same_node none n = false
same_node (some m) n = nat_eq m.dev n.dev && nat_eq m.ino n.ino

-- `replaced` of `rename`: the bytes of the file that the new name stood for.
abbrev pub replaced : Option Node → Option Node → Option ℕ
replaced src none = none
replaced src (some dst) =
    if same_node src dst
    then none
    else some (if dst.is_file && nat_eq dst.nlink 1 then dst.size else 0)

abbrev pub release_replaced : Placed → Option ℕ → Broker → Broker
release_replaced to none b = b
release_replaced to (some bytes) b = release to bytes 1 b

-- How the paths of an operation are placed, first and second.
abbrev pub Placing : Type 0
Placing = Want → (follow : Bool) → Text → State → State × Outcome

abbrev pub then_placed :
    State × Outcome → Broker → (Placed → Broker → Broker × Result) → Broker × Result
then_placed (s, placed p) b next = next p (record b { state = s })
then_placed (s, refused c) b next = (record b { state = s }, failed (not_placed c))

-- `lstat` of the placed paths, and whether the host's own call succeeds.
module _ (first second : Placing) (lstat : Placed → Option Node) (ok : Bool) where
  abbrev pub rename_placed : Placed → Placed → Broker → Broker × Result
  rename_placed from to b =
      let b' = record b { calls = b.calls ++ rename_call from to ∷ [] } in
      let freed = release_replaced to (replaced (lstat from) (lstat to)) b' in
      if is_root from || is_root to
      then (b, failed busy)
      else if both_rooted from to && not (same_root from.root to.root)
      then (b, failed exdev)
      else if ok
      then (freed, done)
      else (b', failed host_failed)

  unfoldable pub rename : Text → Text → Broker → Broker × Result
  rename old new b =
      then_placed (first writing false old b.state) b
        (λ from b'. then_placed (second writing false new b'.state) b' (rename_placed from))

  abbrev pub link_placed : Placed → Placed → Broker → Broker × Result
  link_placed from to b =
      let run = counted to (pos 0) (pos 1) (link_call from to) ok b in
      if either_rooted from to
        && not (both_rooted from to && same_root from.root to.root && is_writable to.root)
      then (b, failed eperm)
      else run

  unfoldable pub link : Text → Text → Broker → Broker × Result
  link old new b =
      then_placed (first reading false old b.state) b
        (λ from b'. then_placed (second writing false new b'.state) b' (link_placed from))

  -- `posix.resolve(posix.dirname(at.virtual), target)` and `posix.isAbsolute(target)`.
  module _ (resolved : Text → Text → Text) (is_absolute : Text → Bool) where
    abbrev pub leaves_root : Text → Placed → Option Root → Bool
    leaves_root target at none = false
    leaves_root target at (some r) =
        is_absolute target || not (inside (resolved at.virtual target) r.vroot)

    abbrev pub symlink_placed : Text → Placed → Broker → Broker × Result
    symlink_placed target at b =
        let run = counted at (pos 0) (pos 1) (symlink_call target at) ok b in
        if leaves_root target at (root_at at) then (b, failed eperm) else run

    unfoldable pub symlink : Text → Text → Broker → Broker × Result
    symlink target new b = then_placed (first writing false new b.state) b (symlink_placed target)
