-- ===== src/Broker/Open/Verified.antt =====
-- What lib/fs-broker/broker.js knows of a file that it has opened under `enforce`.
use mathlib.Core.Path.{subst}
use countinghouse.Prelude.{
  ℕ, ◌≡◌, refl, sym, ap, ◌∙◌, ◌⊎◌, inl, inr, Bool, true, false, ◌&&◌, not, List, Option, none, some,
  any, arith, ℕ_eq, length, leb, keep, if-cases, if◌then◌else◌, Option-cases,
}
use countinghouse.Prelude.Text.{Text}
use countinghouse.Prelude.Dict.{get, get-put_self}
use countinghouse.Broker.Namespace.{Root, Namespace, inside, root_for_real}
use countinghouse.Broker.Quota.{Quota, Report, reserve}
use countinghouse.Broker.Place.{
  Mode, enforce, is_enforce, Ident, Want, Placed, Outcome, placed, refused, State, special_rule,
  escape_rule, with_report,
}
use countinghouse.Prelude.Int.{pos}
use countinghouse.Broker.Names.{quota_root}
use countinghouse.Broker.Place.Located.{IsOneOf, root_for_real-holds}
use countinghouse.Broker.Open.Flags.{
  Flag, FlagArg, numeric_flags, writes, is_trunc, is_creat, is_append,
}
use countinghouse.Broker.Open.{
  Opened, is_special, is_regular, Answers, open_call, close_call, truncate_call, emfile, escaped,
  eperm, host_failed, FdEntry, Broker, Result, opened_as, failed_with, call, with_quota, same_vroot,
  is_held, link_fits, ident_fits, verify_opened, max_fds, counts, add_entry, give_back,
  truncate_opened, after_special, after_verify, after_open, host_open, reserve_entry, new_entry,
  open_host, open_placed, opening, refused_with, begin_open, end_open, end_begun, want_of,
  open_with, open_file,
}

module _ (n : Namespace) (mode : Mode) (fs : List Flag) (a : Answers) where
  -- The entry of the new descriptor: the path as placed, and a file that passed the check.
  IsGivenBy : Placed → Result → Broker → Type 0
  IsGivenBy p (failed_with f) b = Unit
  IsGivenBy p (opened_as fd) b =
      (e : FdEntry) × (get fd b.fds ≡ some e)
      × (e.at ≡ p)
      × (verify_opened n mode p (writes fs) a e.fh ≡ true)

  abbrev IsGiven : Placed → Broker × Result → Type 0
  IsGiven p r = IsGivenBy p r.1 r.0

  add_entry-IsGiven :
      (p : Placed) (o : Opened) (b : Broker)
      → verify_opened n mode p (writes fs) a o ≡ true
      → IsGiven p (add_entry n mode fs a p o b)
  unfolding IsGivenBy
  add_entry-IsGiven p o b h =
      let e : FdEntry = record {
        fh = o;
        at = p;
        appends = any is_append fs;
        counts = counts n mode fs a b.quota p;
      } in
      (e, get-put_self b.next_fd e b.fds, refl, h)

  after_special-IsGiven :
      (p : Placed) (o : Opened) (b : Broker)
      → verify_opened n mode p (writes fs) a o ≡ true
      → IsGiven p (after_special n mode fs a p o b)
  unfolding IsGivenBy
  after_special-IsGiven p o b h =
      let b' = call (truncate_call o) b in
      let given = give_back n mode fs a p o.size b.quota b' in
      if-cases (IsGiven p) (any is_trunc fs && is_regular o.type)
        (truncate_opened n mode fs a p o b) (add_entry n mode fs a p o b)
        (λ e.
          if-cases (IsGiven p) a.truncates (add_entry n mode fs a p o given)
            (b', failed_with host_failed) (λ e. add_entry-IsGiven p o given h) (λ e. tt))
        (λ e. add_entry-IsGiven p o b h)

  after_verify-IsGiven :
      (p : Placed) (o : Opened) (b : Broker)
      → verify_opened n mode p (writes fs) a o ≡ true
      → IsGiven p (after_verify n mode fs a p o b)
  unfolding IsGivenBy
  after_verify-IsGiven p o b h =
      let b' = record b { state = with_report mode special_rule p.virtual b.state } in
      let refused_special : Broker × Result = (call (close_call o) b', failed_with eperm) in
      let audited = after_special n mode fs a p o b' in
      if-cases (IsGiven p) (is_special o.type)
        (if is_enforce mode then refused_special else audited) (after_special n mode fs a p o b)
        (λ e.
          if-cases (IsGiven p) (is_enforce mode) refused_special audited (λ e. tt)
            (λ e. after_special-IsGiven p o b' h))
        (λ e. after_special-IsGiven p o b h)

  after_open-IsGiven :
      (p : Placed) (o : Option Opened) (entry : Bool) (b : Broker)
      → IsGiven p (after_open n mode fs a p o entry b)
  unfolding IsGivenBy
  after_open-IsGiven p none entry b = tt
  after_open-IsGiven p (some o) entry b =
      let escape =
        call (close_call o) (record b { state = with_report mode escape_rule p.virtual b.state }) in
      if-cases (IsGiven p) (verify_opened n mode p (writes fs) a o) (after_verify n mode fs a p o b)
        (escape, failed_with escaped) (λ e. after_verify-IsGiven p o b e) (λ e. tt)

  host_open-IsGiven :
      (p : Placed) (entry : Bool) (b : Broker) → IsGiven p (host_open n mode fs a p entry b)
  host_open-IsGiven p entry b =
      after_open-IsGiven p a.opened entry (call (open_call p (keep (λ f. not (is_trunc f)) fs)) b)

  reserve_entry-IsGiven :
      (p : Placed) (r : Option (Quota × List Report)) (b : Broker)
      → IsGiven p (reserve_entry n mode fs a p r b)
  unfolding IsGivenBy
  reserve_entry-IsGiven p none b = tt
  reserve_entry-IsGiven p (some (q, rs)) b = host_open-IsGiven p true (with_quota (q, rs) b)

  new_entry-IsGiven :
      (p : Placed) (q : Option Quota) (b : Broker) → IsGiven p (new_entry n mode fs a p q b)
  new_entry-IsGiven p none b = host_open-IsGiven p false b
  new_entry-IsGiven p (some q) b =
      if-cases (IsGiven p) (quota_root p && not a.before && any is_creat fs)
        (reserve_entry n mode fs a p (reserve (pos 0) (pos 1) q) b)
        (host_open n mode fs a p false b)
        (λ e. reserve_entry-IsGiven p (reserve (pos 0) (pos 1) q) b)
        (λ e. host_open-IsGiven p false b)

  open_host-IsGiven :
      (p : Placed) (host : Option Text) (b c : Broker)
      → IsGiven p (end_begun n mode a (c, open_host fs p host b))
  unfolding IsGivenBy end_open
  open_host-IsGiven p none b c = tt
  open_host-IsGiven p (some path) b c =
      if-cases (λ begun. IsGiven p (end_begun n mode a (c, begun))) (leb max_fds (length b.fds))
        (refused_with emfile) (opening fs p) (λ e. tt) (λ e. new_entry-IsGiven p c.quota c)

  open_placed-IsGiven :
      (o : State × Outcome) (b b' : Broker) (fd : ℕ)
      → end_begun n mode a (open_placed fs o b) ≡ (b', opened_as fd)
      → (p : Placed) × (o.1 ≡ placed p) × IsGivenBy p (opened_as fd) b'
  open_placed-IsGiven (s, placed p) b b' fd e =
      (p, refl, subst (IsGiven p) e (open_host-IsGiven p p.host b (record b { state = s })))
  open_placed-IsGiven (s, refused c) b b' fd e = cc

-- Where the file really is: in a root of the namespace, and for a file that is written in the root
-- in which its path was placed.
abbrev pub IsInside : Namespace → Placed → Text → Type 0
IsInside n p link =
    (holder : Root) × (root_for_real n link ≡ some holder)
    × IsOneOf n.roots holder
    × (inside link holder.real ≡ true)
    × (same_vroot holder p.root ≡ true)

held-IsInside :
    (n : Namespace) (p : Placed) (link : Text) (o : Option Root)
    → root_for_real n link ≡ o
    → is_held p.root true o ≡ true
    → IsInside n p link
held-IsInside n p link none e h = cc
held-IsInside n p link (some holder) e h =
    let (one, within_it) = root_for_real-holds n link holder e in (holder, e, one, within_it, h)

verified-IsInside :
    (n : Namespace) (p : Placed) (a : Answers) (o : Opened) (ident : Option Ident) (link : Text)
    → a.linux ≡ true
    → o.link ≡ some link
    → ident_fits n p true a o ident ≡ true
    → (ident ≡ none) ⊎ IsInside n p link
verified-IsInside n p a o none link on known h = inl refl
verified-IsInside n p a o (some i) link on known h =
    let fits : link_fits n p.root true o.link ≡ true = ground (arith, h, on) in
    inr (held-IsInside n p link (root_for_real n link) refl (rw known at fits))

-- On Linux under `enforce`, a descriptor that `open` gives for writing is of a path as `place` has
-- placed it; and unless the path had no identity, its parent not being there when it was placed, or
-- the host does not tell where the file is, the file really is inside a root of the namespace, the
-- one in which the path was placed, whatever the host's names have become since.
pub open_file-IsInside :
    (n : Namespace) (place_path : Want → State → State × Outcome) (a : Answers) (arg : FlagArg)
    (fs : List Flag) (b b' : Broker) (fd : ℕ)
    → a.linux ≡ true
    → numeric_flags arg ≡ some fs
    → writes fs ≡ true
    → open_file place_path n enforce a arg b ≡ (b', opened_as fd)
    → (e : FdEntry) × (get fd b'.fds ≡ some e)
      × ((place_path (want_of fs) b.state).1 ≡ placed e.at)
      × ((e.at.ident ≡ none)
          ⊎ (e.fh.link ≡ none)
          ⊎ ((link : Text) × (e.fh.link ≡ some link) × IsInside n e.at link))
unfolding open_file begin_open verify_opened IsGivenBy
open_file-IsInside n place_path a arg fs b b' fd on flags writing h =
    let run : end_begun n enforce a (open_with place_path (some fs) b) ≡ (b', opened_as fd) =
      subst (λ o. end_begun n enforce a (open_with place_path o b) ≡ (b', opened_as fd)) flags h in
    let (p, at_p, given) =
      open_placed-IsGiven n enforce fs a (place_path (want_of fs) b.state) b b' fd run in
    let (e, entry, same_place, verified) = given in
    let fits : ident_fits n p true a e.fh p.ident ≡ true =
      subst (λ t. ident_fits n p t a e.fh p.ident ≡ true) writing verified in
    let here : p ≡ e.at = sym same_place in
    let placed_here : (place_path (want_of fs) b.state).1 ≡ placed e.at =
      at_p ∙ ap (λ x. placed x) here in
    (
      e,
      entry,
      placed_here,
      elim (Option-cases e.fh.link) [
        | inl unknown ↦ inr (inl unknown)
        | inr (link, known) ↦
            let inside_it =
              verified-IsInside n e.at a e.fh e.at.ident link on known
                (subst (λ x. ident_fits n x true a e.fh x.ident ≡ true) here fits) in
            elim inside_it [ inl no_ident ↦ inl no_ident | inr it ↦ inr (inr (link, known, it)) ]
      ],
    )
