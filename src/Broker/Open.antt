-- ===== src/Broker/Open.antt =====
-- lib/fs-broker/broker.js: opening a file, the check after it, and the table of descriptors. What the
-- host answers to one opening is a parameter. The calls to the host are a list. An opening is
-- `begin_open`, up to the test of the table, and `end_open`, between which it awaits the host.
pub mod Flags
pub mod Verified
pub mod Table
pub mod UnderWay
use countinghouse.Broker.Open.Flags.{
  Flag, is_trunc, is_creat, is_append, FlagArg, numeric_flags, writes,
}
use countinghouse.Prelude.{
  ℕ, ◌+◌, Bool, true, false, ◌&&◌, ◌||◌, not, List, [], ◌∷◌, ◌++◌, Option, none, some, any, keep,
  length, leb, ltb, nat_eq, ℕ_eq, if◌then◌else◌,
}
use countinghouse.Prelude.Int.{pos, ◌-ℤ◌}
use countinghouse.Prelude.Text.{Text, codes, same, text_eq}
use countinghouse.Prelude.Dict.{Dict, get, put, del}
use countinghouse.Broker.Namespace.{Root, Namespace, root_for_real}
use countinghouse.Broker.Quota.{Quota, Report, reserve, settle}
use countinghouse.Broker.Place.{
  Mode, is_enforce, Answer, found, enoent, failed, Ident, inode, parent, Want, reading, writing,
  Placed, Outcome, placed, refused, Code, State, special_rule, escape_rule, with_report,
}
use countinghouse.Broker.Names.{root_at, quota_root}

pub data NodeType : Type 0 where
  regular directory special : NodeType

abbrev pub is_special : NodeType → Bool
is_special special = true
is_special _ = false

abbrev pub is_regular : NodeType → Bool
is_regular regular = true
is_regular _ = false

-- An opened file: its `stat`, and what /proc/self/fd says of it, if it can be read.
pub record Opened : Type 0 where
  pub dev : ℕ
  pub ino : ℕ
  pub size : ℕ
  pub type : NodeType
  pub link : Option Text

-- What the host answers: whether the name is there before, the opened file, then the real path of the
-- path's parent, and whether truncating succeeds. `linux` is the platform.
pub record Answers : Type 0 where
  pub before : Bool
  pub opened : Option Opened
  pub parent_real : Answer Text
  pub truncates : Bool
  pub linux : Bool

pub data Call : Type 0 where
  open_call : Placed → List Flag → Call
  close_call truncate_call : Opened → Call

pub data Failure : Type 0 where
  not_placed : Code → Failure
  einval eisdir emfile no_space escaped eperm host_failed : Failure

-- An entry of `fds`.
pub record FdEntry : Type 0 where
  pub fh : Opened
  pub at : Placed
  pub appends : Bool
  pub counts : Bool

pub record Broker : Type 0 where
  pub state : State
  pub quota : Option Quota
  pub reports : List Report
  pub fds : Dict ℕ FdEntry
  pub next_fd : ℕ
  pub calls : List Call

pub data Result : Type 0 where
  opened_as : ℕ → Result
  failed_with : Failure → Result

abbrev pub call : Call → Broker → Broker
call c b = record b { calls = b.calls ++ c ∷ [] }

abbrev pub with_quota : Quota × List Report → Broker → Broker
with_quota (q, rs) b = record b { quota = some q; reports = b.reports ++ rs }

abbrev pub is_found : Text → Answer Text → Bool
is_found real (found t) = same real t
is_found real _ = false

abbrev pub is_ident : Ident → Answers → Opened → Bool
is_ident (parent real) a o = is_found real a.parent_real
is_ident (inode dev ino) a o = nat_eq o.dev dev && nat_eq o.ino ino

abbrev pub same_vroot : Root → Option Root → Bool
same_vroot r none = false
same_vroot r (some s) = same r.vroot s.vroot

abbrev pub is_held : Option Root → Bool → Option Root → Bool
is_held root to_write none = false
is_held root to_write (some holder) = not to_write || same_vroot holder root

abbrev pub link_fits : Namespace → Option Root → Bool → Option Text → Bool
link_fits n root to_write none = true
link_fits n root to_write (some link) = is_held root to_write (root_for_real n link)

abbrev pub ident_fits : Namespace → Placed → Bool → Answers → Opened → Option Ident → Bool
ident_fits n p to_write a o none = true
ident_fits n p to_write a o (some i) =
    is_ident i a o && (not a.linux || link_fits n p.root to_write o.link)

-- The test of `verifyOpened`; a path that is not in a root has no identity.
unfoldable pub verify_opened : Namespace → Mode → Placed → Bool → Answers → Opened → Bool
verify_opened n mode p to_write a o = not (is_enforce mode) || ident_fits n p to_write a o p.ident

-- `MAX_FDS`
abbrev pub max_fds : ℕ
max_fds = 256

module _ (n : Namespace) (mode : Mode) (fs : List Flag) (a : Answers) where
  abbrev pub counts : Option Quota → Placed → Bool
  counts none p = false
  counts (some q) p = quota_root p

  abbrev pub add_entry : Placed → Opened → Broker → Broker × Result
  add_entry p o b = (
    record b {
      fds =
          put b.next_fd
            (record { fh = o; at = p; appends = any is_append fs; counts = counts b.quota p })
            b.fds;
      next_fd = b.next_fd + 1;
    },
    opened_as b.next_fd,
  )

  abbrev pub give_back : Placed → ℕ → Option Quota → Broker → Broker
  give_back p size none b = b
  give_back p size (some q) b =
      if quota_root p && ltb 0 size
      then with_quota (settle (pos 0) (pos 0) (pos 0 -ℤ pos size) (pos 0) q) b
      else b

  abbrev pub truncate_opened : Placed → Opened → Broker → Broker × Result
  truncate_opened p o b =
      let b' = call (truncate_call o) b in
      let added = add_entry p o (give_back p o.size b.quota b') in
      if a.truncates then added else (b', failed_with host_failed)

  abbrev pub after_special : Placed → Opened → Broker → Broker × Result
  after_special p o b =
      let truncated = truncate_opened p o b in
      let kept = add_entry p o b in if any is_trunc fs && is_regular o.type then truncated else kept

  abbrev pub after_verify : Placed → Opened → Broker → Broker × Result
  after_verify p o b =
      let b' = record b { state = with_report mode special_rule p.virtual b.state } in
      let refused_special : Broker × Result = (call (close_call o) b', failed_with eperm) in
      let audited = after_special p o b' in
      let plain = after_special p o b in
      if is_special o.type then if is_enforce mode then refused_special else audited else plain

  abbrev pub after_open : Placed → Option Opened → Bool → Broker → Broker × Result
  after_open p none new_entry b =
      let settled : Broker = elim b.quota [
        | none ↦ b
        | some q ↦ with_quota (settle (pos 0) (pos 1) (pos 0) (pos 0) q) b
      ] in
      (if new_entry then settled else b, failed_with host_failed)
  after_open p (some o) new_entry b =
      let escape =
        call (close_call o) (record b { state = with_report mode escape_rule p.virtual b.state }) in
      let verified = after_verify p o b in
      if verify_opened n mode p (writes fs) a o then verified else (escape, failed_with escaped)

  abbrev pub host_open : Placed → Bool → Broker → Broker × Result
  host_open p new_entry b =
      after_open p a.opened new_entry (call (open_call p (keep (λ f. not (is_trunc f)) fs)) b)

  abbrev pub reserve_entry : Placed → Option (Quota × List Report) → Broker → Broker × Result
  reserve_entry p none b = (b, failed_with no_space)
  reserve_entry p (some (q, rs)) b = host_open p true (with_quota (q, rs) b)

  abbrev pub new_entry : Placed → Option Quota → Broker → Broker × Result
  new_entry p none b = host_open p false b
  new_entry p (some q) b =
      let counted = reserve_entry p (reserve (pos 0) (pos 1) q) b in
      let free = host_open p false b in
      if quota_root p && not a.before && any is_creat fs then counted else free

abbrev pub want_of : List Flag → Want
want_of fs = if writes fs then writing else reading

-- An opening that has passed the test of the table, and waits for the host; or one that has failed.
pub data Begun : Type 0 where
  opening : List Flag → Placed → Begun
  refused_with : Failure → Begun

abbrev pub open_host : List Flag → Placed → Option Text → Broker → Begun
open_host fs p none b = refused_with eisdir
open_host fs p (some path) b =
    if leb max_fds (length b.fds) then refused_with emfile else opening fs p

abbrev pub open_placed : List Flag → State × Outcome → Broker → Broker × Begun
open_placed fs (s, placed p) b = (record b { state = s }, open_host fs p p.host b)
open_placed fs (s, refused c) b = (record b { state = s }, refused_with (not_placed c))

abbrev pub open_with :
    (Want → State → State × Outcome) → Option (List Flag) → Broker → Broker × Begun
open_with place_path none b = (b, refused_with einval)
open_with place_path (some fs) b = open_placed fs (place_path (want_of fs) b.state) b

-- `open` up to the test of `fds.size`, where `place_path` places the path.
unfoldable pub begin_open : (Want → State → State × Outcome) → FlagArg → Broker → Broker × Begun
begin_open place_path arg b = open_with place_path (numeric_flags arg) b

-- The rest of `open`, all of it at the time of its end, which is when the table gets the entry. In
-- between, other operations may run.
unfoldable pub end_open : Namespace → Mode → Answers → List Flag → Placed → Broker → Broker × Result
end_open n mode a fs p b = new_entry n mode fs a p b.quota b

abbrev pub end_begun : Namespace → Mode → Answers → Broker × Begun → Broker × Result
end_begun n mode a (b, opening fs p) = end_open n mode a fs p b
end_begun n mode a (b, refused_with f) = (b, failed_with f)

-- `open`, with nothing in between.
unfoldable pub open_file :
    (Want → State → State × Outcome)
    → Namespace
    → Mode
    → Answers
    → FlagArg
    → Broker
    → Broker × Result
open_file place_path n mode a arg b = end_begun n mode a (begin_open place_path arg b)

-- `close`: whether there is the descriptor; `none` is EBADF.
abbrev pub close_entry : ℕ → Option FdEntry → Broker → Option Broker
close_entry fd none b = none
close_entry fd (some e) b = some (call (close_call e.fh) (record b { fds = del fd b.fds }))

unfoldable pub close : ℕ → Broker → Option Broker
close fd b = close_entry fd (get fd b.fds) b
