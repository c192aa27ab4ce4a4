-- ===== src/Session.antt =====
-- lib/session.js and lib/timer.js: how a session answers its caller, once, and meters a call. The
-- log of a call (`logAPICall`) is left out. `E` are the errors and `D` what an action returns.
pub mod Once
pub mod Metered
use countinghouse.Prelude.{
  ℕ, ◌+◌, Bool, true, false, not, List, [], ◌∷◌, ◌++◌, Option, none, some, is_some, contains, ℕ_eq,
  keep, ◌==◌, if◌then◌else◌,
}
use countinghouse.Prelude.Text.{Text}

-- What the caller gets: `failed_local` is the new error that carries only the message, `failure`
-- the status 500 with or without `fault`, `success` the status 200; `crash` is the exception that
-- an expired timer and no error would throw.
pub data Effect (E D : Type 0) : Type 0 where
  to_local : Option E → Option D → Effect E D
  failed_local : E → Effect E D
  failure : E → Option D → Effect E D
  success : Option D → Effect E D
  record_call : (app_key tool : Text) → Effect E D
  crash : Effect E D

-- A timer is its number; `pending` are the timers whose timeout is not cleared, and `called` is
-- the mark that `once` keeps.
pub record Session (E D : Type 0) : Type 0 where
  pub app_key : Option Text
  pub is_local : Bool
  pub metered_tool : Option Text
  pub timer : Option ℕ
  pub expired : List ℕ
  pub pending : List ℕ
  pub next : ℕ
  pub called : Bool
  pub effects : List (Effect E D)

-- What can happen to a session.
pub data Event (E D : Type 0) : Type 0 where
  timer_set : Event E D
  timer_fires : ℕ → Event E D
  device_answers : Option E → Option D → Event E D

module _ {E D : Type 0} where
  abbrev pub emit : Effect E D → Session E D → Session E D
  emit e s = record s { effects = s.effects ++ (e ∷ []) }

  unfoldable pub new_session : Option Text → Bool → Option Text → Session E D
  new_session app_key is_local metered_tool = record {
    app_key = app_key;
    is_local = is_local;
    metered_tool = metered_tool;
    timer = none;
    expired = [];
    pending = [];
    next = 0;
    called = false;
    effects = [];
  }

  abbrev pub clear_timeout : ℕ → Session E D → Session E D
  clear_timeout id s = record s { pending = keep (λ t. not (t == id)) s.pending }

  abbrev pub clear_found : Option ℕ → Session E D → Session E D
  clear_found none s = s
  clear_found (some id) s = record (clear_timeout id s) { timer = none }

  unfoldable pub clear_device_timer : Session E D → Session E D
  clear_device_timer s = clear_found s.timer s

  abbrev pub record_with : Option Text → Option Text → Session E D → Session E D
  record_with (some tool) (some app_key) s =
      emit (record_call app_key tool) (record s { metered_tool = none })
  record_with _ _ s = s

  -- `recording`: there is an interface with a `recordCall`.
  unfoldable pub record_metered_call : Bool → Session E D → Session E D
  record_metered_call recording s = if recording then record_with s.metered_tool s.app_key s else s

  unfoldable pub response : Bool → Option E → Option D → Session E D → Session E D
  response recording (some err) value s = emit (failure err value) s
  response recording none value s = emit (success value) (record_metered_call recording s)

  abbrev pub expire_reply : Bool → Option E → Effect E D
  expire_reply is_local none = crash
  expire_reply true (some err) = failed_local err
  expire_reply false (some err) = failure err none

  abbrev pub reply_with : Bool → Option E → Option D → Session E D → Session E D
  reply_with recording err value s =
      let http = response recording err value s in
      if s.is_local then emit (to_local err value) s else http

  abbrev pub callback_with : Bool → Option E → Option D → Option ℕ → Session E D → Session E D
  callback_with recording err value none s = s
  callback_with recording err value (some id) s =
      let late = emit (expire_reply s.is_local err) (record s { timer = none }) in
      let timely = reply_with recording err value (clear_device_timer s) in
      if contains id s.expired then late else timely

  -- `this.callback`, which `once` wraps.
  unfoldable pub callback : Bool → Option E → Option D → Session E D → Session E D
  callback recording err value s =
      let first = callback_with recording err value s.timer (record s { called = true }) in
      if s.called then s else first

  unfoldable pub callback_without_timer : Bool → Option E → Option D → Session E D → Session E D
  callback_without_timer recording err value s = reply_with recording err value s

  -- `setDeviceTimer`: a new timer takes the place of an old one.
  unfoldable pub install_timer : Session E D → Session E D
  install_timer s = record s {
    timer = some s.next;
    pending = s.next ∷ s.pending;
    next = s.next + 1;
  }

  -- `Timer.prototype.expire` and the listener of `installTimer`; `late` is DEVICE_NOT_RESPONDING.
  unfoldable pub expire : Bool → E → ℕ → Session E D → Session E D
  expire recording late id s =
      let fired =
        callback recording (some late) none
          (clear_timeout id (record s { expired = id ∷ s.expired })) in
      if contains id s.pending then fired else s

  abbrev pub step : Bool → E → Event E D → Session E D → Session E D
  step recording late timer_set s = install_timer s
  step recording late (timer_fires id) s = expire recording late id s
  step recording late (device_answers err value) s = callback recording err value s

  -- The events, the last first.
  abbrev pub run : Bool → E → List (Event E D) → Session E D → Session E D
  run recording late [] s = s
  run recording late (e ∷ es) s = step recording late e (run recording late es s)
