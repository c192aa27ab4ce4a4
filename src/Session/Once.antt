-- ===== src/Session/Once.antt =====
-- A session of lib/session.js answers at most once, and an unanswered one has its timer.
use mathlib.Core.Path.{subst}
use countinghouse.Prelude.{
  ℕ, ◌+◌, ◌≤◌, ◌≡◌, refl, sym, ap, ◌∙◌, ◌⊎◌, inl, inr, Bool, true, false, List, [], ◌∷◌, ◌++◌,
  Option, none, some, arith, contains, ℕ_eq, if-cases, nat_eq_iff,
}
use countinghouse.Prelude.Text.{Text}
use countinghouse.Session.{
  Effect, crash, to_local, failure, success, record_call, Session, emit, new_session, clear_timeout,
  clear_found, clear_device_timer, record_with, record_metered_call, response, expire_reply,
  reply_with, callback_with, callback, install_timer, expire, Event, timer_set, timer_fires,
  device_answers, step, run,
}

unexpired-contains : (id : ℕ) (ids : List ℕ) → ids ≡ [] → contains id ids ≡ false
unexpired-contains id ids e = rw e refl

module _ {E D : Type 0} where
  abbrev pub is_reply : Effect E D → ℕ
  is_reply (record_call app_key tool) = 0
  is_reply crash = 0
  is_reply _ = 1

  -- How often the caller has been answered.
  abbrev pub replies : List (Effect E D) → ℕ
  replies [] = 0
  replies (e ∷ es) = is_reply e + replies es

  replies-append : (xs ys : List (Effect E D)) → replies (xs ++ ys) ≡ replies xs + replies ys
  replies-append [] ys = omega arith
  replies-append (x ∷ xs) ys = omega (arith, replies-append xs ys)

  replies-emit :
      (e : Effect E D) (s : Session E D)
      → replies (emit e s).effects ≡ replies s.effects + is_reply e
  replies-emit e s = omega (arith, replies-append s.effects (e ∷ []))

  record_with-replies :
      (tool app_key : Option Text) (s : Session E D)
      → replies (record_with tool app_key s).effects ≡ replies s.effects
  record_with-replies none app_key s = refl
  record_with-replies (some tool) none s = refl
  record_with-replies (some tool) (some app_key) s =
      omega (arith, replies-append s.effects (record_call app_key tool ∷ []))

  record-replies :
      (recording : Bool) (s : Session E D)
      → replies (record_metered_call recording s).effects ≡ replies s.effects
  unfolding record_metered_call
  record-replies false s = refl
  record-replies true s = record_with-replies s.metered_tool s.app_key s

  response-replies :
      (recording : Bool) (err : Option E) (value : Option D) (s : Session E D)
      → replies (response recording err value s).effects ≡ replies s.effects + 1
  unfolding response
  response-replies recording (some err) value s = replies-emit (failure err value) s
  response-replies recording none value s =
      let s' = record_metered_call recording s in
      omega (arith, replies-emit (success value) s', record-replies recording s)

  reply_with-replies :
      (recording : Bool) (err : Option E) (value : Option D) (s : Session E D)
      → replies (reply_with recording err value s).effects ≡ replies s.effects + 1
  reply_with-replies recording err value s =
      if-cases (λ x. replies x.effects ≡ replies s.effects + 1) s.is_local
        (emit (to_local err value) s) (response recording err value s)
        (λ e. replies-emit (to_local err value) s) (λ e. response-replies recording err value s)

  expire_reply-counts :
      (is_local : Bool) (err : E) (reply : Effect E D)
      → expire_reply is_local (some err) ≡ reply
      → is_reply reply ≡ 1
  expire_reply-counts true err reply e = rw (sym e) refl
  expire_reply-counts false err reply e = rw (sym e) refl

  expire_reply-few :
      (is_local : Bool) (err : Option E) (reply : Effect E D)
      → expire_reply is_local err ≡ reply
      → is_reply reply ≤ 1
  expire_reply-few is_local none reply e = rw (sym e) (omega arith)
  expire_reply-few is_local (some err) reply e =
      omega (arith, expire_reply-counts is_local err reply e)

  clear_found-effects : (t : Option ℕ) (s : Session E D) → (clear_found t s).effects ≡ s.effects
  clear_found-effects none s = refl
  clear_found-effects (some id) s = refl

  clear-effects : (s : Session E D) → (clear_device_timer s).effects ≡ s.effects
  unfolding clear_device_timer
  clear-effects s = clear_found-effects s.timer s

  -- The timer has not expired, or there is an error to tell.
  abbrev IsTold : ℕ → Option E → Session E D → Type 0
  IsTold id err s = (contains id s.expired ≡ false) ⊎ ((e : E) × (err ≡ some e))

  timely-replies :
      (recording : Bool) (err : Option E) (value : Option D) (s : Session E D)
      → replies (reply_with recording err value (clear_device_timer s)).effects
        ≡ replies s.effects + 1
  timely-replies recording err value s = omega (
    arith,
    reply_with-replies recording err value (clear_device_timer s),
    ap replies (clear-effects s),
  )

  late-replies :
      (err : Option E) (id : ℕ) (s : Session E D)
      → IsTold id err s
      → contains id s.expired ≡ true
      → replies (emit (expire_reply s.is_local err) (record s { timer = none })).effects
        ≡ replies s.effects + 1
  late-replies err id s (inl timely) e = absurd (cc (timely, e))
  late-replies err id s (inr (e', told)) e =
      let reply = expire_reply s.is_local (some e') in
      let one : is_reply reply ≡ 1 = expire_reply-counts s.is_local e' reply refl in
      rw told (omega (arith, replies-append s.effects (reply ∷ []), one))

  callback_with-replies :
      (recording : Bool) (err : Option E) (value : Option D) (id : ℕ) (s : Session E D)
      → IsTold id err s
      → replies (callback_with recording err value (some id) s).effects ≡ replies s.effects + 1
  callback_with-replies recording err value id s told =
      if-cases (λ x. replies x.effects ≡ replies s.effects + 1) (contains id s.expired)
        (emit (expire_reply s.is_local err) (record s { timer = none }))
        (reply_with recording err value (clear_device_timer s)) (λ e. late-replies err id s told e)
        (λ e. timely-replies recording err value s)

  callback_with-few :
      (recording : Bool) (err : Option E) (value : Option D) (id : ℕ) (s : Session E D)
      → replies (callback_with recording err value (some id) s).effects ≤ replies s.effects + 1
  callback_with-few recording err value id s =
      let reply = expire_reply s.is_local err in
      let few = expire_reply-few s.is_local err reply refl in
      if-cases (λ x. replies x.effects ≤ replies s.effects + 1) (contains id s.expired)
        (emit reply (record s { timer = none }))
        (reply_with recording err value (clear_device_timer s))
        (λ e. omega (arith, replies-append s.effects (reply ∷ []), few))
        (λ e. omega (arith, timely-replies recording err value s))

  -- Not answered yet: no timer has expired, and the one that is set, if there is one, still runs.
  pub record IsOpen (s : Session E D) : Type 0 where
    pub called : s.called ≡ false
    pub silent : replies s.effects ≡ 0
    pub unexpired : s.expired ≡ []
    pub timed : (s.timer ≡ none) ⊎ ((id : ℕ) × (s.timer ≡ some id) × (contains id s.pending ≡ true))

  pub record IsClosed (s : Session E D) : Type 0 where
    pub called : s.called ≡ true
    pub once : replies s.effects ≤ 1

  callback-some :
      (recording : Bool) (err : Option E) (value : Option D) (id : ℕ) (s : Session E D)
      → s.called ≡ false
      → replies s.effects ≡ 0
      → s.timer ≡ some id
      → IsTold id err s
      → replies (callback recording err value s).effects ≡ 1
  unfolding callback
  callback-some recording err value id s called silent timer told =
      let s' : Session E D = record s { called = true } in
      let first = callback_with recording err value s.timer s' in
      let count : replies first.effects ≡ 1 =
        subst (λ t. replies (callback_with recording err value t s').effects ≡ 1) (sym timer)
          (omega (arith, callback_with-replies recording err value id s' told, silent)) in
      if-cases (λ x. replies x.effects ≡ 1) s.called s first (λ e. cc) (λ e. count)

  record_with-called :
      (tool app_key : Option Text) (s : Session E D)
      → (record_with tool app_key s).called ≡ s.called
  record_with-called none app_key s = refl
  record_with-called (some tool) none s = refl
  record_with-called (some tool) (some app_key) s = refl

  record-called :
      (recording : Bool) (s : Session E D) → (record_metered_call recording s).called ≡ s.called
  unfolding record_metered_call
  record-called false s = refl
  record-called true s = record_with-called s.metered_tool s.app_key s

  response-called :
      (recording : Bool) (err : Option E) (value : Option D) (s : Session E D)
      → (response recording err value s).called ≡ s.called
  unfolding response
  response-called recording (some err) value s = refl
  response-called recording none value s = record-called recording s

  clear_found-called : (t : Option ℕ) (s : Session E D) → (clear_found t s).called ≡ s.called
  clear_found-called none s = refl
  clear_found-called (some id) s = refl

  reply_with-called :
      (recording : Bool) (err : Option E) (value : Option D) (s : Session E D)
      → (reply_with recording err value (clear_device_timer s)).called ≡ s.called
  unfolding clear_device_timer
  reply_with-called recording err value s =
      let s' = clear_found s.timer s in
      let same = clear_found-called s.timer s in
      if-cases (λ x. x.called ≡ s.called) s'.is_local (emit (to_local err value) s')
        (response recording err value s') (λ e. same)
        (λ e. response-called recording err value s' ∙ same)

  pub callback_with-called :
      (recording : Bool) (err : Option E) (value : Option D) (t : Option ℕ) (s : Session E D)
      → (callback_with recording err value t s).called ≡ s.called
  callback_with-called recording err value none s = refl
  callback_with-called recording err value (some id) s =
      if-cases (λ x. x.called ≡ s.called) (contains id s.expired)
        (emit (expire_reply s.is_local err) (record s { timer = none }))
        (reply_with recording err value (clear_device_timer s)) (λ e. refl)
        (λ e. reply_with-called recording err value s)

  callback_with-once :
      (recording : Bool) (err : Option E) (value : Option D) (t : Option ℕ) (s : Session E D)
      → replies s.effects ≡ 0
      → replies (callback_with recording err value t s).effects ≤ 1
  callback_with-once recording err value none s h = omega (arith, h)
  callback_with-once recording err value (some id) s h =
      omega (arith, callback_with-few recording err value id s, h)

  callback-IsClosed :
      (recording : Bool) (err : Option E) (value : Option D) (s : Session E D)
      → (s.called ≡ true) × (replies s.effects ≤ 1) ⊎ (s.called ≡ false) × (replies s.effects ≡ 0)
      → IsClosed (callback recording err value s)
  unfolding callback
  callback-IsClosed recording err value s h =
      let s' : Session E D = record s { called = true } in
      let first = callback_with recording err value s.timer s' in
      if-cases IsClosed s.called s first
        (λ e. record { called = e; once = elim h [ inl (c, few) ↦ few | inr (c, silent) ↦ cc ] })
        (λ e. record {
          called = callback_with-called recording err value s.timer s';
          once =
              callback_with-once recording err value s.timer s'
                (elim h [ inl (c, few) ↦ cc | inr (c, silent) ↦ silent ]);
        })

  abbrev IsServed : Session E D → Type 0
  IsServed s = IsOpen s ⊎ IsClosed s

  module _ (recording : Bool) (late : E) where
    step-IsServed :
        (e : Event E D) (s : Session E D) → IsServed s → IsServed (step recording late e s)
    unfolding install_timer expire
    step-IsServed timer_set s (inl o) =
        let pending : contains s.next (s.next ∷ s.pending) ≡ true =
          ground (arith, nat_eq_iff s.next s.next) in
        inl (record {
          called = o.called;
          silent = o.silent;
          unexpired = o.unexpired;
          timed = inr (s.next, refl, pending);
        })
    step-IsServed timer_set s (inr c) = inr (record { called = c.called; once = c.once })
    step-IsServed (device_answers err value) s (inl o) =
        inr (callback-IsClosed recording err value s (inr (o.called, o.silent)))
    step-IsServed (device_answers err value) s (inr c) =
        inr (callback-IsClosed recording err value s (inl (c.called, c.once)))
    step-IsServed (timer_fires id) s h =
        let s' = clear_timeout id (record s { expired = id ∷ s.expired }) in
        if-cases IsServed (contains id s.pending) (callback recording (some late) none s') s
          (λ e. inr (
            callback-IsClosed recording (some late) none s'
              (elim h [ inl o ↦ inr (o.called, o.silent) | inr c ↦ inl (c.called, c.once) ])))
          (λ e. h)

    run-IsServed :
        (es : List (Event E D)) (app_key : Option Text) (is_local : Bool) (tool : Option Text)
        → IsServed (run recording late es (new_session app_key is_local tool))
    unfolding new_session
    run-IsServed [] app_key is_local tool =
        inl (record { called = refl; silent = refl; unexpired = refl; timed = inl refl })
    run-IsServed (e ∷ es) app_key is_local tool =
        step-IsServed e (run recording late es (new_session app_key is_local tool))
          (run-IsServed es app_key is_local tool)

    expire-some :
        (id : ℕ) (s : Session E D)
        → s.called ≡ false
        → replies s.effects ≡ 0
        → s.timer ≡ some id
        → contains id s.pending ≡ true
        → replies (expire recording late id s).effects ≡ 1
    unfolding expire
    expire-some id s called silent timer pending =
        let s' = clear_timeout id (record s { expired = id ∷ s.expired }) in
        if-cases (λ x. replies x.effects ≡ 1) (contains id s.pending)
          (callback recording (some late) none s') s
          (λ e.
            callback-some recording (some late) none id s' called silent timer (inr (late, refl)))
          (λ e. cc)

    -- After any sequence of timers set, timeouts and answers of the device the caller has been
    -- answered at most once; and unless `callback` has been called or no timer was set, the
    -- timeout of the session's timer answers the caller exactly once, and so does the device's next
    -- answer, with or without an error. An exception is no answer.
    pub run-answers :
        (es : List (Event E D)) (app_key : Option Text) (is_local : Bool) (tool : Option Text)
        (err : Option E) (value : Option D) (s : Session E D)
        → run recording late es (new_session app_key is_local tool) ≡ s
        → (replies s.effects ≤ 1)
          × ((s.called ≡ true)
              ⊎ (s.timer ≡ none)
              ⊎ ((id : ℕ) × (s.timer ≡ some id)
                  × (replies (expire recording late id s).effects ≡ 1)
                  × (replies (callback recording err value s).effects ≡ 1)))
    run-answers es app_key is_local tool err value s e =
        elim (subst IsServed e (run-IsServed es app_key is_local tool)) [
          | inr c ↦ (c.once, inl c.called)
          | inl o ↦ (
            omega (arith, o.silent),
            elim o.timed [
              | inl none_set ↦ inr (inl none_set)
              | inr (id, timer, pending) ↦ inr (
                  inr (
                    id,
                    timer,
                    expire-some id s o.called o.silent timer pending,
                    callback-some recording err value id s o.called o.silent timer
                        (inl (unexpired-contains id s.expired o.unexpired)),
                  ))
            ],
          )
        ]
