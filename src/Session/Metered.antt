-- ===== src/Session/Metered.antt =====
-- What a session of lib/session.js has metered: `recordMeteredCall`, over any sequence of events.
use mathlib.Core.Path.{subst}
use countinghouse.Prelude.{
  ℕ, ◌≡◌, refl, sym, ◌∙◌, ◌⊎◌, inl, inr, Bool, true, false, List, [], ◌∷◌, ◌++◌, Option, none, some,
  All, contains, ℕ_eq, if-cases,
}
use countinghouse.Prelude.Text.{Text}
use countinghouse.Session.Once.{callback_with-called}
use countinghouse.Session.{
  Effect, to_local, success, record_call, Session, emit, new_session, clear_timeout, clear_found,
  clear_device_timer, record_metered_call, response, expire_reply, reply_with, callback_with,
  callback, install_timer, expire, Event, timer_set, timer_fires, device_answers, step, run,
}

module _ {E D : Type 0} where
  -- Neither a charge nor an answer with the status 200.
  abbrev pub IsFree : Effect E D → Type 0
  IsFree (success value) = ⊥
  IsFree (record_call app_key tool) = ⊥
  IsFree _ = Unit

  expire_reply-IsFree :
      (is_local : Bool) (err : Option E) (reply : Effect E D)
      → expire_reply is_local err ≡ reply
      → IsFree reply
  expire_reply-IsFree is_local none reply e = subst IsFree e tt
  expire_reply-IsFree true (some err) reply e = subst IsFree e tt
  expire_reply-IsFree false (some err) reply e = subst IsFree e tt

  module _ (recording is_local : Bool) (app_key tool : Text) where
    -- Nothing is charged and nothing succeeds; or the session is one of HTTP and has one success,
    -- with one charge right before it where there is an interface that records.
    abbrev pub IsPaid : List (Effect E D) → Type 0
    IsPaid effects =
        All IsFree effects
        ⊎ (is_local ≡ false)
          × (((recording ≡ true)
                × ((value : Option D) × (effects ≡ record_call app_key tool ∷ success value ∷ [])))
              ⊎ ((recording ≡ false) × ((value : Option D) × (effects ≡ success value ∷ []))))

    record IsUnpaid (s : Session E D) : Type 0 where
      key : s.app_key ≡ some app_key
      metered : s.metered_tool ≡ some tool
      silent : s.effects ≡ []
      asked_by : s.is_local ≡ is_local

    record-IsPaid :
        (b : Bool) (value : Option D) (s : Session E D)
        → recording ≡ b
        → IsUnpaid s
        → is_local ≡ false
        → IsPaid (emit (success value) (record_metered_call b s)).effects
    unfolding record_metered_call
    record-IsPaid true value s r u l =
        inr (l, inl (r, (value, rw (u.metered, u.key, u.silent) refl)))
    record-IsPaid false value s r u l = inr (l, inr (r, (value, rw u.silent refl)))

    response-IsPaid :
        (err : Option E) (value : Option D) (s : Session E D)
        → IsUnpaid s
        → is_local ≡ false
        → IsPaid (response recording err value s).effects
    unfolding response
    response-IsPaid (some err) value s u l = rw u.silent (inl (tt, tt))
    response-IsPaid none value s u l = record-IsPaid recording value s refl u l

    clear_found-IsUnpaid :
        (t : Option ℕ) (s : Session E D) → IsUnpaid s → IsUnpaid (clear_found t s)
    clear_found-IsUnpaid none s u = u
    clear_found-IsUnpaid (some id) s u = record {
      key = u.key;
      metered = u.metered;
      silent = u.silent;
      asked_by = u.asked_by;
    }

    reply_with-IsPaid :
        (err : Option E) (value : Option D) (s : Session E D)
        → IsUnpaid s
        → IsPaid (reply_with recording err value s).effects
    reply_with-IsPaid err value s u =
        if-cases (λ x. IsPaid x.effects) s.is_local (emit (to_local err value) s)
          (response recording err value s)
          (λ e.
            inl (subst (λ l. All IsFree (l ++ (to_local err value ∷ []))) (sym u.silent) (tt, tt)))
          (λ e. response-IsPaid err value s u (sym u.asked_by ∙ e))

    callback_with-IsPaid :
        (err : Option E) (value : Option D) (t : Option ℕ) (s : Session E D)
        → IsUnpaid s
        → IsPaid (callback_with recording err value t s).effects
    unfolding clear_device_timer
    callback_with-IsPaid err value none s u = inl (rw u.silent tt)
    callback_with-IsPaid err value (some id) s u =
        let reply = expire_reply s.is_local err in
        let free : IsFree reply = expire_reply-IsFree s.is_local err reply refl in
        if-cases (λ x. IsPaid x.effects) (contains id s.expired)
          (emit reply (record s { timer = none }))
          (reply_with recording err value (clear_device_timer s))
          (λ e. inl (subst (λ l. All IsFree (l ++ (reply ∷ []))) (sym u.silent) (free, tt)))
          (λ e.
            reply_with-IsPaid err value (clear_found s.timer s) (clear_found-IsUnpaid s.timer s u))

    -- Once `callback` has been called nothing more is done.
    abbrev IsMetered : Session E D → Type 0
    IsMetered s = IsUnpaid s ⊎ (s.called ≡ true) × IsPaid s.effects

    callback-IsMetered :
        (err : Option E) (value : Option D) (s : Session E D)
        → IsMetered s
        → IsMetered (callback recording err value s)
    unfolding callback
    callback-IsMetered err value s h =
        let s' : Session E D = record s { called = true } in
        let first = callback_with recording err value s.timer s' in
        if-cases IsMetered s.called s first (λ e. h)
          (λ e. elim h [
            | inr (c, paid) ↦ cc
            | inl u ↦ inr (
              callback_with-called recording err value s.timer s',
              callback_with-IsPaid err value s.timer s' (record {
                key = u.key;
                metered = u.metered;
                silent = u.silent;
                asked_by = u.asked_by;
              }),
            )
          ])

    with_timers :
        (s s' : Session E D)
        → s'.app_key ≡ s.app_key
        → s'.metered_tool ≡ s.metered_tool
        → s'.called ≡ s.called
        → s'.is_local ≡ s.is_local
        → s'.effects ≡ s.effects
        → IsMetered s
        → IsMetered s'
    with_timers s s' key metered called kind effects (inl u) = inl (record {
      key = key ∙ u.key;
      metered = metered ∙ u.metered;
      silent = effects ∙ u.silent;
      asked_by = kind ∙ u.asked_by;
    })
    with_timers s s' key metered called kind effects (inr (c, paid)) =
        inr (called ∙ c, subst IsPaid (sym effects) paid)

    module _ (late : E) where
      step-IsMetered :
          (e : Event E D) (s : Session E D) → IsMetered s → IsMetered (step recording late e s)
      unfolding install_timer expire
      step-IsMetered timer_set s h = with_timers s (install_timer s) refl refl refl refl refl h
      step-IsMetered (device_answers err value) s h = callback-IsMetered err value s h
      step-IsMetered (timer_fires id) s h =
          let s' = clear_timeout id (record s { expired = id ∷ s.expired }) in
          if-cases IsMetered (contains id s.pending) (callback recording (some late) none s') s
            (λ e.
              callback-IsMetered (some late) none s' (with_timers s s' refl refl refl refl refl h))
            (λ e. h)

      run-IsMetered :
          (es : List (Event E D))
          → IsMetered (run recording late es (new_session (some app_key) is_local (some tool)))
      unfolding new_session
      run-IsMetered [] = inl (record { key = refl; metered = refl; silent = refl; asked_by = refl })
      run-IsMetered (e ∷ es) =
          step-IsMetered e (run recording late es (new_session (some app_key) is_local (some tool)))
            (run-IsMetered es)

      -- After any sequence of timers set, timeouts and answers of the device, a session with an API
      -- key and a metered tool has had no charge and no answer with the status 200; or it is a
      -- session of HTTP and has had exactly one answer, with the status 200, with exactly one
      -- charge, of its tool to its key, right before it where there is an interface with a
      -- `recordCall`, and no charge where there is none. So a local session is never charged.
      pub run-IsPaid :
          (es : List (Event E D))
          → IsPaid (run recording late es (new_session (some app_key) is_local (some tool))).effects
      run-IsPaid es = elim (run-IsMetered es) [
        | inl u ↦ inl (subst (λ l. All IsFree l) (sym u.silent) tt)
        | inr (c, paid) ↦ paid
      ]
