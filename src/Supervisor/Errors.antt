-- ===== src/Supervisor/Errors.antt =====
-- What lib/module-supervisor.js answers for the devices of a module that does not run.
use countinghouse.Prelude.{
  ◌≡◌, refl, ◌≢◌, ◌⊎◌, inl, inr, String, Bool, ◌||◌, [], ◌∷◌, none, some, arith, not, is_some, ◌==◌,
  string_eq, true, false, Option, All, Any, if-cases, Bool-cases, if◌then◌else◌,
}
use countinghouse.Prelude.Dict.{Dict, get, put, get-put}
use countinghouse.Supervisor.{
  State, running, restarting, suspended, serves, error_of, Record, Supervisor, Specs,
  module_suspended, module_restarting, ModuleError, is_running, is_suspended, error_in,
  error_for_device, assign, retained_in, retained_specs,
}

abbrev has : String → Specs → Bool
has device specs = is_some (get device specs)

has-put : (k d v : String) (specs : Specs) → has d (put k v specs) ≡ (k == d) || has d specs
has-put k d v specs = ground (arith, get-put k d v specs)

has-assign : (d : String) (out specs : Specs) → has d (assign out specs) ≡ has d specs || has d out
unfolding assign get
has-assign d out [] = refl
has-assign d out ((k, v) ∷ specs) =
    ground (arith, has-assign d (put k v out) specs, has-put k d v out)

is_some-cases :
    {A : Type 0} (o : Option A) → (is_some o ≡ true → o ≢ none) × (is_some o ≡ false → o ≡ none)
is_some-cases none = ((λ h. cc h), λ h. refl)
is_some-cases (some a) = ((λ h e. cc e), λ h. cc h)

code-state :
    (st : State)
    → is_running st ≡ false
    → ((st ≡ suspended)
        × ((if is_suspended st then module_suspended else module_restarting) ≡ module_suspended))
      ⊎ ((st ≡ restarting)
          × ((if is_suspended st then module_suspended else module_restarting) ≡ module_restarting))
code-state running h = cc h
code-state restarting h = inr (refl, refl)
code-state suspended h = inl (refl, refl)

running-is : (st : State) → is_running st ≡ true → st ≡ running
running-is running h = refl
running-is restarting h = cc h
running-is suspended h = cc h

module _ (inherited : String → Bool) where
  has-retained_in :
      (d : String) (out : Specs) (rs : Dict String Record)
      → inherited d ≡ false
      → has d (retained_in out rs) ≡ has d out || is_some (error_in inherited d rs)
  unfolding retained_in error_in
  has-retained_in d out [] h = ground arith
  has-retained_in d out ((name, r) ∷ rs) h = ground (
    arith,
    h,
    has-retained_in d out rs h,
    has-retained_in d (assign out r.specs) rs h,
    has-assign d out r.specs,
  )

  -- A device whose id no plain object inherits has a retained spec exactly when a call to it is
  -- answered with an error of its module.
  retained-iff-error :
      (d : String) (s : Supervisor)
      → inherited d ≡ false
      → is_some (get d (retained_specs s)) ≡ is_some (error_for_device inherited d s)
  unfolding retained_specs error_for_device get
  retained-iff-error d s h = has-retained_in d [] s.records h

  -- The record is one that the error tells of: its module does not run, it served the device or the
  -- device's id is a name that every object inherits, and the code says whether it is suspended.
  abbrev pub Explains : String → ModuleError → String × Record → Type 0
  Explains d err (name, r) =
      (err.module_name ≡ name)
      × (err.reason ≡ r.last_reason)
      × (err.retry_at ≡ r.next_restart_at)
      × ((get d r.specs ≢ none) ⊎ (inherited d ≡ true))
      × (((r.state ≡ suspended) × (err.code ≡ module_suspended))
          ⊎ ((r.state ≡ restarting) × (err.code ≡ module_restarting)))

  -- The record gives no error for the device: its module runs, or it has not served the device.
  abbrev pub IsQuiet : String → String × Record → Type 0
  IsQuiet d (name, r) = (r.state ≡ running) ⊎ ((get d r.specs ≡ none) × (inherited d ≡ false))

  abbrev pub Answers : String → Dict String Record → Option ModuleError → Type 0
  Answers d rs none = All (IsQuiet d) rs
  Answers d rs (some err) = Any (Explains d err) rs

  get-cases :
      (d : String) (specs : Specs)
      → (is_some (get d specs) ≡ true → get d specs ≢ none)
        × (is_some (get d specs) ≡ false → get d specs ≡ none)
  get-cases d specs = is_some-cases (get d specs)

  error_of-Explains :
      (d name : String) (r : Record)
      → (is_running r.state || not (serves inherited d r)) ≡ false
      → Explains d (error_of name r) (name, r)
  error_of-Explains d name r h =
      let given : (get d r.specs ≢ none) ⊎ (inherited d ≡ true) =
        elim (Bool-cases (is_some (get d r.specs))) [
          | inl e ↦ inl ((get-cases d r.specs).0 e)
          | inr e ↦ inr (ground (arith, h, e))
        ] in
      (refl, refl, refl, given, code-state r.state (ground (arith, h)))

  found-IsQuiet :
      (d name : String) (r : Record)
      → (is_running r.state || not (serves inherited d r)) ≡ true
      → IsQuiet d (name, r)
  found-IsQuiet d name r h = elim (Bool-cases (is_running r.state)) [
    | inl e ↦ inl (running-is r.state e)
    | inr e ↦ inr ((get-cases d r.specs).1 (ground (arith, h, e)), ground (arith, h, e))
  ]

  push-Answers :
      (d name : String) (r : Record) (rs : Dict String Record) (found : Option ModuleError)
      → IsQuiet d (name, r)
      → Answers d rs found
      → Answers d ((name, r) ∷ rs) found
  push-Answers d name r rs none q h = (q, h)
  push-Answers d name r rs (some err) q h = inr h

  error_in-Answers : (d : String) (rs : Dict String Record) → Answers d rs (error_in inherited d rs)
  unfolding error_in
  error_in-Answers d [] = tt
  error_in-Answers d ((name, r) ∷ rs) =
      if-cases (Answers d ((name, r) ∷ rs)) (is_running r.state || not (serves inherited d r))
        (error_in inherited d rs) (some (error_of name r))
        (λ e.
          push-Answers d name r rs (error_in inherited d rs) (found-IsQuiet d name r e)
            (error_in-Answers d rs))
        (λ e. inl (error_of-Explains d name r e))

  -- An error for a device comes from a record of a module that does not run and served the device,
  -- or of any that does not run when the id is a name that every object inherits, with that record's
  -- name, reason and restart time, and the code of its state. There is no error only when each
  -- module runs or has not served the device.
  pub error_for_device-Answers :
      (d : String) (s : Supervisor) → Answers d s.records (error_for_device inherited d s)
  unfolding error_for_device
  error_for_device-Answers d s = error_in-Answers d s.records
