-- ===== src/Plan/Valid.antt =====
-- Which plans lib/plan-validator.js finds no problem with.
use mathlib.Core.Path.{subst}
use countinghouse.Prelude.{
  append_empty, ◌≡◌, ◌≢◌, ◌↔◌, refl, sym, ap, ◌∙◌, inl, inr, ◌&&◌, Any, any, arith, Bool-cases,
  if◌then◌else◌, String, Bool, true, false, not, List, [], ◌∷◌, Option, none, some, map, contains,
  is_some, All,
}
use countinghouse.Prelude.Text.{Text, text_eq, codes, same, same_iff}
use countinghouse.Permissions.Parse.{Field, absent, mistyped, given, somes}
use countinghouse.CallAddress.{Address, Services, label_of, parse_address}
use countinghouse.Plan.{
  Problem, PlanAction, PlanService, PlanDoc, Checked, problem_if, filled, mark, check_item,
  check_each, address_text, matches_service, matches_services, resolves, calls_problems,
  predicted_tool_name, check_action, check_actions, check_services, check_device, validate_plan,
  not_an_address, call_twice, unresolved, service_unnamed, service_twice, action_unnamed,
  action_twice,
}

problem_if_none : (b : Bool) (p : Problem) → (problem_if b p ≡ []) ↔ (b ≡ false)
problem_if_none true p = (λ h. cc, λ h. cc)
problem_if_none false p = (λ h. refl, λ h. refl)

-- No name stands twice, and none is among those seen; but `__proto__` may.
abbrev pub AreFresh : List Text → List Text → Type 0
AreFresh seen [] = Unit
AreFresh seen (n ∷ ns) =
    (contains n seen ≡ false) × AreFresh (if same n (codes "__proto__") then seen else n ∷ seen) ns

-- A name that is given and not empty.
abbrev pub IsNamed : Option Text → Text → Type 0
IsNamed o n = (o ≡ some n) × (n ≢ [])

filled_iff : (o : Option Text) (n : Text) → (filled o ≡ some n) ↔ IsNamed o n
filled_iff none n = (λ h. cc h, λ h. cc (h.0))
filled_iff (some []) n = (λ h. cc h, λ (e, full). absurd (full (cc e)))
filled_iff (some (c ∷ t)) n = (λ h. (h, λ e. cc (h, e)), λ h. h.0)

filled_some : (o : Option Text) → (is_some (filled o) ≡ true) ↔ ((n : Text) × IsNamed o n)
filled_some none = (λ h. cc h, λ (n, (e, full)). cc e)
filled_some (some []) = (λ h. cc h, λ (n, (e, full)). absurd (full (cc e)))
filled_some (some (c ∷ t)) = (λ h. (c ∷ t, (refl, λ e. cc e)), λ h. refl)

somes-same :
    (o : Option Text) (xs ys : List (Option Text))
    → somes xs ≡ somes ys
    → somes (o ∷ xs) ≡ somes (o ∷ ys)
somes-same none xs ys h = h
somes-same (some n) xs ys h = ap (λ ns. n ∷ ns) h

-- Two ways to name the items that agree on each of them.
same_names :
    {A : Type 0} (f g : A → Option Text) (xs : List A)
    → All (λ x. f x ≡ g x) xs
    → somes (map f xs) ≡ somes (map g xs)
same_names f g [] h = refl
same_names f g (x ∷ xs) h =
    somes-same (f x) (map f xs) (map g xs) (same_names f g xs h.1)
    ∙ ap (λ o. somes (o ∷ map g xs)) h.0

Fresh-same :
    {A : Type 0} (f g : A → Option Text) (xs : List A)
    → All (λ x. f x ≡ g x) xs
    → AreFresh [] (somes (map f xs)) ↔ AreFresh [] (somes (map g xs))
Fresh-same f g xs h =
    let same = same_names f g xs h in (subst (AreFresh []) same, subst (AreFresh []) (sym same))

All-map :
    {A : Type 0} (P Q : A → Type 0) → ((a : A) → P a → Q a) → (xs : List A) → All P xs → All Q xs
All-map P Q f [] h = tt
All-map P Q f (x ∷ xs) h = (f x h.0, All-map P Q f xs h.1)

module _ {A : Type 0} (unnamed : Problem) (twice : Text → Problem) (name : A → Option Text)
    (check : Text → A → Checked) where
  -- The item has a name, and its own check finds nothing.
  abbrev pub IsGood : A → Type 0
  IsGood a = (n : Text) × (name a ≡ some n) × ((check n a).0 ≡ [])

  abbrev names_of : List A → List Text
  names_of items = somes (map name items)

  check_item_iff :
      (o : Option Text) (a : A) (items : List A) (rest : List Text → Checked) (seen : List Text)
      → name a ≡ o
      → ((seen' : List Text)
          → ((rest seen').0 ≡ []) ↔ (All IsGood items × AreFresh seen' (names_of items)))
      → ((check_item unnamed twice name check o a rest seen).0 ≡ [])
        ↔ ((IsGood a × All IsGood items) × AreFresh seen (somes (o ∷ map name items)))
  check_item_iff none a items rest seen e ih = (λ h. cc, λ ((good, all), fresh). cc (e, good.1))
  check_item_iff (some n) a items rest seen e ih = (
    λ h.
        let (first, more) = (append_empty _ _).0 h in
        let (checked, later) = (append_empty _ _).0 more in
        let (all, fresh) = (ih (mark n seen)).0 later in
        (((n, e, checked), all), ((problem_if_none _ _).0 first, fresh)),
    λ ((good, all), (new, fresh)).
        let same_name : good.0 ≡ n = cc (e, good.1) in
        (append_empty _ _).1 (
          (problem_if_none _ _).1 new,
          (append_empty _ _).1
              (subst (λ m. (check m a).0 ≡ []) same_name good.2, (ih (mark n seen)).1 (all, fresh)),
        ),
  )

  check_each_iff :
      (seen : List Text) (items : List A)
      → ((check_each unnamed twice name check seen items).0 ≡ [])
        ↔ (All IsGood items × AreFresh seen (names_of items))
  unfolding check_each
  check_each_iff seen [] = (λ h. (tt, tt), λ h. refl)
  check_each_iff seen (a ∷ items) =
      check_item_iff (name a) a items (λ seen'. check_each unnamed twice name check seen' items)
        seen refl (λ seen'. check_each_iff seen' items)

All-iff :
    {A : Type 0} (P Q : A → Type 0) → ((a : A) → P a ↔ Q a) → (xs : List A) → All P xs ↔ All Q xs
All-iff P Q f [] = (λ h. tt, λ h. tt)
All-iff P Q f (x ∷ xs) =
    let (a, b) = All-iff P Q f xs in (λ h. ((f x).0 h.0, a h.1), λ h. ((f x).1 h.0, b h.1))

module _ (lower : Text → Text) (device_id_for_name : Text → String) (existing : List Text)
    (specs : Option (String → Option Services)) where
  -- An action has a name and a description, and its tool's name is not taken.
  abbrev pub IsGoodAction : Text → Text → PlanAction → Type 0
  IsGoodAction device service a =
      (n : Text) × IsNamed a.name n
      × ((d : Text) × IsNamed a.description d)
      × (contains (predicted_tool_name lower device_id_for_name device service n) existing ≡ false)

  abbrev pub AreGoodActions : Text → Text → Option (List PlanAction) → Type 0
  AreGoodActions device service none = ⊥
  AreGoodActions device service (some []) = ⊥
  AreGoodActions device service (some (a ∷ actions)) =
      All (IsGoodAction device service) (a ∷ actions)
      × AreFresh [] (somes (map (λ x. x.name) (a ∷ actions)))

  -- A service has a name, and actions with different names.
  abbrev pub IsGoodService : Text → PlanService → Type 0
  IsGoodService device s = (n : Text) × IsNamed s.name n × AreGoodActions device n s.actions

  abbrev pub AreGoodServices : Text → Option (List PlanService) → Type 0
  AreGoodServices device none = ⊥
  AreGoodServices device (some []) = ⊥
  AreGoodServices device (some (s ∷ services)) =
      All (IsGoodService device) (s ∷ services)
      × AreFresh [] (somes (map (λ x. x.name) (s ∷ services)))

  -- A loaded service has the name and the action of the address.
  abbrev pub Serves : Address → Text × Option (List Text) → Type 0
  Serves a (urn, none) = ⊥
  Serves a (urn, some actions) = (label_of urn ≡ a.service) × (contains a.action actions ≡ true)

  -- Where specifications are given, the device of the address is loaded with such a service.
  abbrev pub IsResolved : Option (String → Option Services) → Address → Type 0
  IsResolved none a = Unit
  IsResolved (some loaded) a =
      (services : Services) × (loaded (device_id_for_name a.device) ≡ some services)
      × Any (Serves a) services

  -- A call is an address, and resolves where specifications are given.
  abbrev pub IsGoodCall : Option Text → Type 0
  IsGoodCall c =
      (t : Text) × (c ≡ some t)
      × ((a : Address) × (parse_address (some t) ≡ some a) × IsResolved specs a)

  abbrev pub AreGoodCalls : Field (List (Option Text)) → Type 0
  AreGoodCalls absent = Unit
  AreGoodCalls mistyped = ⊥
  AreGoodCalls (given calls) = All IsGoodCall calls × AreFresh [] (somes (map (λ c. c) calls))

  pub record IsValidPlan (plan : PlanDoc) : Type 0 where
    pub device : Text
    pub named : IsNamed plan.device device
    pub services : AreGoodServices device plan.services
    pub calls : AreGoodCalls plan.calls

  not-false : (b : Bool) → (not b ≡ false) ↔ (b ≡ true)
  not-false true = (λ h. refl, λ h. refl)
  not-false false = (λ h. cc, λ h. cc)

  action_iff :
      (device service n : Text) (a : PlanAction)
      → ((check_action lower device_id_for_name existing device service n a).0 ≡ []) ↔ (
          (is_some (filled a.description) ≡ true)
          × (contains (predicted_tool_name lower device_id_for_name device service n) existing
              ≡ false))
  action_iff device service n a = (
    λ h.
        let (d, t) = (append_empty _ _).0 h in
        ((not-false _).0 ((problem_if_none _ _).0 d), (problem_if_none _ _).0 t),
    λ (d, t).
        (append_empty _ _).1
          ((problem_if_none _ _).1 ((not-false _).1 d), (problem_if_none _ _).1 t),
  )

  actions_iff :
      (device service : Text) (actions : Option (List PlanAction))
      → ((check_actions lower device_id_for_name existing device service actions).0 ≡ [])
        ↔ AreGoodActions device service actions
  actions_iff device service none = (λ h. cc, λ h. absurd h)
  actions_iff device service (some []) = (λ h. cc, λ h. absurd h)
  actions_iff device service (some (a ∷ actions)) =
      let check = check_action lower device_id_for_name existing device service in
      let name = λ (x : PlanAction). filled x.name in
      let each = check_each_iff action_unnamed (action_twice service) name check [] (a ∷ actions) in
      let good : (x : PlanAction)
          → IsGood action_unnamed (action_twice service) name check x
            ↔ IsGoodAction device service x =
        λ x. (
          λ (n, e, h).
              let (d, t) = (action_iff device service n x).0 h in
              (n, (filled_iff x.name n).0 e, (filled_some x.description).0 d, t),
          λ (n, e, d, t). (
            n,
            (filled_iff x.name n).1 e,
            (action_iff device service n x).1 ((filled_some x.description).1 d, t),
          ),
        ) in
      let plain : (xs : List PlanAction)
          → All (IsGoodAction device service) xs
          → All (λ (x : PlanAction). filled x.name ≡ x.name) xs =
        All-map (IsGoodAction device service) (λ x. filled x.name ≡ x.name)
          (λ x (n, e, d, t). (filled_iff x.name n).1 e ∙ sym e.0) in
      let all =
        All-iff (IsGood action_unnamed (action_twice service) name check)
          (IsGoodAction device service) good (a ∷ actions) in
      (
        λ h.
            let (xs, fresh) = each.0 h in
            let good_ones = all.0 xs in
            (
              good_ones,
              (Fresh-same name (λ x. x.name) (a ∷ actions) (plain (a ∷ actions) good_ones)).0 fresh,
            ),
        λ (xs, fresh). each.1 (
          all.1 xs,
          (Fresh-same name (λ x. x.name) (a ∷ actions) (plain (a ∷ actions) xs)).1 fresh,
        ),
      )

  services_iff :
      (device : Text) (services : Option (List PlanService))
      → ((check_services lower device_id_for_name existing device services).0 ≡ [])
        ↔ AreGoodServices device services
  services_iff device none = (λ h. cc, λ h. absurd h)
  services_iff device (some []) = (λ h. cc, λ h. absurd h)
  services_iff device (some (s ∷ services)) =
      let check = λ (n : Text) (x : PlanService).
        check_actions lower device_id_for_name existing device n x.actions in
      let name = λ (x : PlanService). filled x.name in
      let each = check_each_iff service_unnamed service_twice name check [] (s ∷ services) in
      let good : (x : PlanService)
          → IsGood service_unnamed service_twice name check x ↔ IsGoodService device x =
        λ x. (
          λ (n, e, h). (n, (filled_iff x.name n).0 e, (actions_iff device n x.actions).0 h),
          λ (n, e, h). (n, (filled_iff x.name n).1 e, (actions_iff device n x.actions).1 h),
        ) in
      let plain : (xs : List PlanService)
          → All (IsGoodService device) xs
          → All (λ (x : PlanService). filled x.name ≡ x.name) xs =
        All-map (IsGoodService device) (λ x. filled x.name ≡ x.name)
          (λ x (n, e, more). (filled_iff x.name n).1 e ∙ sym e.0) in
      let all =
        All-iff (IsGood service_unnamed service_twice name check) (IsGoodService device) good
          (s ∷ services) in
      (
        λ h.
            let (xs, fresh) = each.0 h in
            let good_ones = all.0 xs in
            (
              good_ones,
              (Fresh-same name (λ x. x.name) (s ∷ services) (plain (s ∷ services) good_ones)).0
                  fresh,
            ),
        λ (xs, fresh). each.1 (
          all.1 xs,
          (Fresh-same name (λ x. x.name) (s ∷ services) (plain (s ∷ services) xs)).1 fresh,
        ),
      )

  Serves-any :
      (a : Address) (services : Services)
      → (any (matches_service a) services ≡ true) ↔ Any (Serves a) services
  Serves-any a [] = (λ h. cc h, λ h. absurd h)
  Serves-any a ((urn, none) ∷ services) =
      let (f, g) = Serves-any a services in
      (λ h. inr (f h), λ k. elim k [ inl h ↦ absurd h | inr h ↦ g h ])
  Serves-any a ((urn, some actions) ∷ services) =
      let (f, g) = Serves-any a services in
      let (l, m) = same_iff (label_of urn) a.service in
      (
        λ h. elim (Bool-cases (same (label_of urn) a.service && contains a.action actions)) [
          | inl e ↦ inl (l (ground (arith, e)), ground (arith, e))
          | inr e ↦ inr (f (rw e at h))
        ],
        λ k. elim k [
          | inl (e, c) ↦ let labelled = m e in ground (arith, labelled, c)
          | inr later ↦ let rest = g later in ground (arith, rest)
        ],
      )

  matches_iff :
      (a : Address) (o : Option Services)
      → (matches_services a o ≡ true)
        ↔ ((services : Services) × (o ≡ some services) × Any (Serves a) services)
  matches_iff a none = (λ h. cc h, λ (s, e, h). cc e)
  matches_iff a (some services) =
      let (f, g) = Serves-any a services in
      (
        λ h. (services, refl, f h),
        λ (s, e, h). let same_ones : s ≡ services = cc e in g (subst (Any (Serves a)) same_ones h),
      )

  resolves_iff :
      (loaded : Option (String → Option Services)) (a : Address)
      → (resolves lower device_id_for_name loaded (some a) ≡ true) ↔ IsResolved loaded a
  resolves_iff none a = (λ h. tt, λ h. refl)
  resolves_iff (some loaded) a = matches_iff a (loaded (device_id_for_name a.device))

  address_text-some :
      (c : Option Text) (t : Text) (a : Address)
      → c ≡ some t
      → parse_address (some t) ≡ some a
      → address_text c ≡ some t
  address_text-some c t a e f = rw (e, f) refl

  parsed_call :
      (t : Text) (o : Option Address)
      → parse_address (some t) ≡ o
      → (if is_some o then some t else none) ≡ some t
      → resolves lower device_id_for_name specs o ≡ true
      → (a : Address) × (parse_address (some t) ≡ some a) × IsResolved specs a
  parsed_call t none f e h = cc e
  parsed_call t (some a) f e h = (a, f, (resolves_iff specs a).0 h)

  call_sound :
      (c : Option Text) (t : Text)
      → address_text c ≡ some t
      → resolves lower device_id_for_name specs (parse_address (some t)) ≡ true
      → IsGoodCall c
  call_sound none t e h = cc e
  call_sound (some u) t e h = elim (Bool-cases (is_some (parse_address (some u)))) [
    | inl p ↦
        let same_text : u ≡ t = ground (arith, p) in
        let e' = subst (λ x. address_text (some x) ≡ some t) same_text e in
        (t, ap (λ x. some x) same_text, parsed_call t (parse_address (some t)) refl e' h)
    | inr p ↦ absurd (ground (arith, p))
  ]

  calls_iff :
      (calls : Field (List (Option Text)))
      → (calls_problems lower device_id_for_name specs calls ≡ []) ↔ AreGoodCalls calls
  unfolding calls_problems
  calls_iff absent = (λ h. tt, λ h. refl)
  calls_iff mistyped = (λ h. cc, λ h. absurd h)
  calls_iff (given calls) =
      let check : Text → Option Text → Checked = λ t c. (
        problem_if (not (resolves lower device_id_for_name specs (parse_address (some t))))
            (unresolved t),
        [],
      ) in
      let each = check_each_iff not_an_address call_twice address_text check [] calls in
      let good : (c : Option Text)
          → IsGood not_an_address call_twice address_text check c ↔ IsGoodCall c =
        λ c. (
          λ (t, e, h). call_sound c t e ((not-false _).0 ((problem_if_none _ _).0 h)),
          λ (t, e, (a, f, r)). (
            t,
            address_text-some c t a e f,
            (problem_if_none _ _).1 ((not-false _).1 (rw f ((resolves_iff specs a).1 r))),
          ),
        ) in
      let plain : (xs : List (Option Text))
          → All IsGoodCall xs
          → All (λ (c : Option Text). address_text c ≡ c) xs =
        All-map IsGoodCall (λ c. address_text c ≡ c)
          (λ c (t, e, (a, f, r)). address_text-some c t a e f ∙ sym e) in
      let all =
        All-iff (IsGood not_an_address call_twice address_text check) IsGoodCall good calls in
      (
        λ h.
            let (xs, fresh) = each.0 h in
            let good_ones = all.0 xs in
            (good_ones, (Fresh-same address_text (λ c. c) calls (plain calls good_ones)).0 fresh),
        λ (xs, fresh).
            each.1 (all.1 xs, (Fresh-same address_text (λ c. c) calls (plain calls xs)).1 fresh),
      )

  device_iff :
      (device : Option Text) (services : Option (List PlanService))
      → ((check_device lower device_id_for_name existing device services).0 ≡ [])
        ↔ ((d : Text) × (device ≡ some d) × AreGoodServices d services)
  device_iff none services = (λ h. cc, λ (d, e, h). cc)
  device_iff (some device) services = (
    λ h. (device, refl, (services_iff device services).0 h),
    λ (d, e, h).
        (services_iff device services).1
          (subst (λ x. AreGoodServices x services) (let e' : d ≡ device = cc in e') h),
  )

  -- `validatePlan` finds no problem with a plan exactly if the plan is valid: it names a device;
  -- it has services, each with a name and with actions, each of these with a name, a description
  -- and a tool name that is not taken, no two services and no two actions of a service with one
  -- name, save the name `__proto__`; and its calls, if it has any, are addresses, each once, that
  -- resolve where loaded specifications are given.
  pub validate_plan_iff :
      (plan : PlanDoc)
      → ((validate_plan lower device_id_for_name plan existing specs).0 ≡ []) ↔ IsValidPlan plan
  unfolding validate_plan
  validate_plan_iff plan = (
    λ h.
        let (calls, rest) = (append_empty _ _).0 h in
        let (d, e, services) = (device_iff (filled plan.device) plan.services).0 rest in
        record {
          device = d;
          named = (filled_iff plan.device d).0 e;
          services = services;
          calls = (calls_iff plan.calls).0 calls;
        },
    λ v. (append_empty _ _).1 (
      (calls_iff plan.calls).1 v.calls,
      (device_iff (filled plan.device) plan.services).1
          (v.device, (filled_iff plan.device v.device).1 v.named, v.services),
    ),
  )
