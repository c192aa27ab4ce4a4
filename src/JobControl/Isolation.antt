-- ===== src/JobControl/Isolation.antt =====
-- A caller of lib/job-control.js reaches no job and no scheduler of another.
use mathlib.Core.Path.{subst}
use countinghouse.Prelude.{
  ◌≡◌, ◌≢◌, refl, ap, ◌⊎◌, inl, inr, String, string_eq, Bool, true, false, [], ◌∷◌, ◌++◌, Option,
  none, some, arith, length, Bool-cases,
}
use countinghouse.Prelude.Text.{Text, codes, same}
use countinghouse.JobControl.{
  is_admin, legacy_name, AuthCtx, internal, tenant, Job, ok, scheduler_id, owns_job, is_key,
  is_anonymous, show_found, get_job, Answer, answered, rejected, has_ended, settled, show_in,
  Removal, remove_it, remove_scheduler, remove_found, remove_with, remove_job,
}

append_injective : (a b s t : Text) → length a ≡ length b → a ++ s ≡ b ++ t → a ≡ b
append_injective [] [] s t h e = refl
append_injective [] (y ∷ b) s t h e = absurd (ground (arith, h))
append_injective (x ∷ a) [] s t h e = absurd (ground (arith, h))
append_injective (x ∷ a) (y ∷ b) s t h e =
    let head : x ≡ y = cc in
    let tail : a ++ s ≡ b ++ t = cc in
    let rest = append_injective a b s t (omega (arith, h)) tail in cc (head, rest)

-- Callers with different hashes, which are of one length, never share a scheduler, whatever the
-- names of their jobs.
scheduler_id-differs :
    (hash : String → Text) (key other : String) (admin also_admin : Bool) (name name' : Text)
    → length (hash key) ≡ length (hash other)
    → hash key ≢ hash other
    → scheduler_id hash (tenant (some key) admin) name
      ≢ scheduler_id hash (tenant (some other) also_admin) name'
unfolding scheduler_id
scheduler_id-differs hash key other admin also_admin name name' h d e =
    d (append_injective (hash key) (hash other) (codes ":" ++ name) (codes ":" ++ name') h e)

-- The caller is the server itself, an admin, or the owner of the job.
abbrev pub MayReach : AuthCtx → Job → Type 0
MayReach internal job = Unit
MayReach (tenant none admin) job = ⊥
MayReach (tenant (some key) admin) job = (admin ≡ true) ⊎ (job.data_.api_key ≡ some key)

is_key_sound : (key : String) (k : Option String) → is_key key k ≡ true → k ≡ some key
is_key_sound key none h = cc
is_key_sound key (some k) h = ap (λ x. some x) ((string_eq.beq_iff k key).0 h)

pub owns_job-MayReach :
    (auth : AuthCtx) (job : Job) → owns_job auth job.data_ ≡ true → MayReach auth job
unfolding owns_job
owns_job-MayReach internal job h = tt
owns_job-MayReach (tenant none admin) job h = cc
owns_job-MayReach (tenant (some key) true) job h = inl refl
owns_job-MayReach (tenant (some key) false) job h = inr (is_key_sound key job.data_.api_key h)

-- Whoever may reach a job owns it.
pub MayReach-owns_job :
    (auth : AuthCtx) (job : Job) → MayReach auth job → owns_job auth job.data_ ≡ true
unfolding owns_job
MayReach-owns_job internal job h = refl
MayReach-owns_job (tenant none admin) job h = absurd h
MayReach-owns_job (tenant (some key) admin) job (inl h) = rw h refl
MayReach-owns_job (tenant (some key) admin) job (inr h) =
    let same_key = (string_eq.beq_iff key key).1 refl in rw (h, same_key) (ground (arith, same_key))

-- The job that is fetched again is owned by whom the job was owned by. The queue never changes
-- the data of a job on its own.
abbrev pub KeepsOwner : Answer (Option Job) → Answer (Option Job) → Type 0
KeepsOwner (answered (some job)) (answered (some fresh)) = fresh.data_.api_key ≡ job.data_.api_key
KeepsOwner found again = Unit

MayReach-same_owner :
    (auth : AuthCtx) (job fresh : Job)
    → fresh.data_.api_key ≡ job.data_.api_key
    → MayReach auth job
    → MayReach auth fresh
MayReach-same_owner internal job fresh e h = tt
MayReach-same_owner (tenant none admin) job fresh e h = h
MayReach-same_owner (tenant (some key) admin) job fresh e (inl h) = inl h
MayReach-same_owner (tenant (some key) admin) job fresh e (inr h) = inr (cc (e, h))

settled-MayReach :
    (hash : String → Text) (threads : Bool) (auth : AuthCtx) (job : Job) (state : Text)
    (again : Answer (Option Job)) (shown : Job) (told : Text)
    → KeepsOwner (answered (some job)) again
    → MayReach auth job
    → settled hash threads job state again ≡ ok (shown, told)
    → MayReach auth shown
settled-MayReach hash threads auth job state rejected shown told k m h = cc h
settled-MayReach hash threads auth job state (answered none) shown told k m h =
    let same_job : job ≡ shown = cc h in subst (MayReach auth) same_job m
settled-MayReach hash threads auth job state (answered (some fresh)) shown told k m h =
    let same_job : fresh ≡ shown = cc h in
    subst (MayReach auth) same_job (MayReach-same_owner auth job fresh k m)

show_in-MayReach :
    (hash : String → Text) (threads : Bool) (auth : AuthCtx) (job : Job) (state : Answer Text)
    (again : Answer (Option Job)) (shown : Job) (told : Text)
    → KeepsOwner (answered (some job)) again
    → MayReach auth job
    → show_in hash threads job state again ≡ ok (shown, told)
    → MayReach auth shown
show_in-MayReach hash threads auth job rejected again shown told k m h = cc h
show_in-MayReach hash threads auth job (answered state) again shown told k m h =
    elim (Bool-cases (has_ended state)) [
      | inl e ↦ settled-MayReach hash threads auth job state again shown told k m (rw e at h)
      | inr e ↦
          settled-MayReach hash threads auth job state (answered (some job)) shown told refl m
            (rw e at h)
    ]

show_found-MayReach :
    (hash : String → Text) (threads : Bool) (auth : AuthCtx) (found : Answer (Option Job))
    (state : Answer Text) (again : Answer (Option Job)) (shown : Job) (told : Text)
    → KeepsOwner found again
    → show_found hash threads auth found state again ≡ ok (shown, told)
    → MayReach auth shown
show_found-MayReach hash threads auth rejected state again shown told k h = cc h
show_found-MayReach hash threads auth (answered none) state again shown told k h = cc h
show_found-MayReach hash threads auth (answered (some j)) state again shown told k h =
    elim (Bool-cases (owns_job auth j.data_)) [
      | inl e ↦
          show_in-MayReach hash threads auth j state again shown told k (owns_job-MayReach auth j e)
            (rw e at h)
      | inr e ↦ absurd (ground (arith, e))
    ]

-- The job that `getJob` hands out, the one it fetched again when the job has ended, is one that the
-- caller may reach, where the queue answers with a job of the same owner when it is asked again.
pub get_job-MayReach :
    (hash : String → Text) (threads : Bool) (auth : AuthCtx) (found : Answer (Option Job))
    (state : Answer Text) (again : Answer (Option Job)) (shown : Job) (told : Text)
    → KeepsOwner found again
    → get_job hash threads auth found state again ≡ ok (shown, told)
    → MayReach auth shown
unfolding get_job
get_job-MayReach hash threads auth found state again shown told k h = elim (Bool-cases threads) [
  | inl e ↦ show_found-MayReach hash threads auth found state again shown told k (rw e at h)
  | inr e ↦ absurd (ground (arith, e))
]

module _ (hash : String → Text) (threads : Bool) where
  -- The id of the scheduler of that name: the bare name for the server itself, and the hash of the
  -- caller's key before the name for a caller.
  abbrev pub IsOwnScheduler : AuthCtx → Text → Text → Type 0
  IsOwnScheduler internal name id = id ≡ name
  IsOwnScheduler (tenant none admin) name id = ⊥
  IsOwnScheduler (tenant (some key) admin) name id = id ≡ hash key ++ (codes ":" ++ name)

  -- What a caller may have the queue remove: a job that it may reach, and the scheduler of the name
  -- it asked for with an id that is made of its own key, with the one of the bare name behind it for
  -- an admin only.
  abbrev pub MayRemove : AuthCtx → Option Text → Removal → Type 0
  MayRemove auth asked (remove_it job) = MayReach auth job
  MayRemove auth asked (remove_scheduler id legacy) =
      (name : Text) × (asked ≡ some name)
      × IsOwnScheduler auth name id
      × ((legacy ≡ none)
          ⊎ ((legacy ≡ some name) × ((key : Option String) × (auth ≡ tenant key true))))

  remove_found-MayRemove :
      (auth : AuthCtx) (name : Option Text) (found : Option Job) (r : Removal)
      → remove_found hash threads auth found ≡ ok r
      → MayRemove auth name r
  remove_found-MayRemove auth name none r h = cc
  remove_found-MayRemove auth name (some j) r h = elim (Bool-cases (owns_job auth j.data_)) [
    | inl e ↦
        let same_job : remove_it j ≡ r = ground (arith, e) in
        subst (MayRemove auth name) same_job (owns_job-MayReach auth j e)
    | inr e ↦ absurd (ground (arith, e))
  ]

  is_admin-tenant :
      (auth : AuthCtx) → is_admin auth ≡ true → (key : Option String) × (auth ≡ tenant key true)
  is_admin-tenant internal h = cc h
  is_admin-tenant (tenant key admin) h = (key, ap (tenant key) h)

  legacy_name-admin :
      (auth : AuthCtx) (name : Text)
      → (legacy_name hash threads auth name ≡ none)
        ⊎ ((legacy_name hash threads auth name ≡ some name)
            × ((key : Option String) × (auth ≡ tenant key true)))
  legacy_name-admin auth name = elim (Bool-cases (is_admin auth)) [
    | inr e ↦ inl (rw e refl)
    | inl e ↦ elim (Bool-cases (same (scheduler_id hash auth name) name)) [
      | inl f ↦ inl (rw (e, f) refl)
      | inr f ↦ inr (rw (e, f) refl, is_admin-tenant auth e)
    ]
  ]

  scheduler_id-IsOwnScheduler :
      (auth : AuthCtx) (name : Text)
      → is_anonymous auth ≡ false
      → IsOwnScheduler auth name (scheduler_id hash auth name)
  unfolding scheduler_id
  scheduler_id-IsOwnScheduler internal name h = refl
  scheduler_id-IsOwnScheduler (tenant none admin) name h = cc h
  scheduler_id-IsOwnScheduler (tenant (some key) admin) name h = refl

  remove_with-MayRemove :
      (auth : AuthCtx) (name : Option Text) (is_repeat : Option Bool) (found : Option Job)
      (r : Removal)
      → is_anonymous auth ≡ false
      → remove_with hash threads auth name is_repeat found ≡ ok r
      → MayRemove auth name r
  remove_with-MayRemove auth none is_repeat found r n h = cc h
  remove_with-MayRemove auth (some name) none found r n h = cc h
  remove_with-MayRemove auth (some name) (some false) found r n h =
      remove_found-MayRemove auth (some name) found r h
  remove_with-MayRemove auth (some name) (some true) found r n h =
      let asked : remove_scheduler (scheduler_id hash auth name)
            (legacy_name hash threads auth name)
          ≡ r =
        ground arith in
      subst (MayRemove auth (some name)) asked
        (name, refl, scheduler_id-IsOwnScheduler auth name n, legacy_name-admin auth name)

  -- What `removeJob` asks the queue to remove is what the caller may remove: a job that it may
  -- reach, or the scheduler of the name asked for with the id that the caller's own key gives, with
  -- the one of the bare name behind it for an admin only.
  pub remove_job-MayRemove :
      (auth : AuthCtx) (name : Option Text) (is_repeat : Option Bool) (found : Option Job)
      (r : Removal)
      → remove_job hash threads auth name is_repeat found ≡ ok r
      → MayRemove auth name r
  unfolding remove_job
  remove_job-MayRemove auth name is_repeat found r h = elim (Bool-cases threads) [
    | inr e ↦ absurd (ground (arith, e))
    | inl e ↦ elim (Bool-cases (is_anonymous auth)) [
      | inl nobody ↦ absurd (ground (arith, e, nobody))
      | inr known ↦ remove_with-MayRemove auth name is_repeat found r known (rw (e, known) at h)
    ]
  ]
