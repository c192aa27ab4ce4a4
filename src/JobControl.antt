-- ===== src/JobControl.antt =====
-- lib/job-control.js: who may add, see and remove a job. The queue is the bullmq package's: what it
-- answers is an argument, and what it is asked for is a result. `createHash('sha256')`, cut to 16
-- digits, is a parameter. An item of the history is a record whose text is already parsed.
pub mod Isolation
pub mod History
use countinghouse.Prelude.{
  ℕ, suc, String, string_eq, Bool, true, false, ◌&&◌, ◌||◌, not, List, [], ◌∷◌, ◌++◌, Option, none,
  some, contains, keep, leb, ◌==◌, if◌then◌else◌,
}
use countinghouse.Prelude.Text.{Text, text_eq, codes, same}

-- `authCtx`; one that is null, or has no key, is `tenant none false`.
pub data AuthCtx : Type 0 where
  internal : AuthCtx
  tenant : Option String → Bool → AuthCtx

pub record JobData : Type 0 where
  pub device_id : String
  pub service_id : String
  pub action_name : String
  pub input : String
  pub api_key : Option String

pub record Job : Type 0 where
  pub id : Text
  pub name : Text
  pub data_ : JobData

pub data JobError : Type 0 where
  not_multi_threaded no_options no_name no_repeat_flag unknown_job : JobError
  unknown_user job_access_denied queue_failed : JobError

pub data Outcome {ℓ} (A : Type ℓ) : Type ℓ where
  ok : A → Outcome A
  failed : JobError → Outcome A

-- How a promise of the queue ends.
pub data Answer {ℓ} (A : Type ℓ) : Type ℓ where
  answered : A → Answer A
  rejected : Answer A

abbrev pub has_ended : Text → Bool
has_ended state = same state (codes "completed") || same state (codes "failed")

module _ (hash : String → Text) where
  unfoldable pub scheduler_id : AuthCtx → Text → Text
  scheduler_id internal name = name
  scheduler_id (tenant none admin) name = name
  scheduler_id (tenant (some key) admin) name = hash key ++ (codes ":" ++ name)

abbrev pub is_key : String → Option String → Bool
is_key key none = false
is_key key (some k) = k == key

unfoldable pub owns_job : AuthCtx → JobData → Bool
owns_job internal d = true
owns_job (tenant none admin) d = false
owns_job (tenant (some key) admin) d = admin || is_key key d.api_key

abbrev pub denied : AuthCtx → JobError
denied internal = unknown_user
denied (tenant none admin) = unknown_user
denied (tenant (some key) admin) = job_access_denied

abbrev pub is_anonymous : AuthCtx → Bool
is_anonymous internal = false
is_anonymous (tenant none admin) = true
is_anonymous (tenant (some key) admin) = false

abbrev pub key_of : AuthCtx → Option String
key_of internal = none
key_of (tenant key admin) = key

-- What `addJob` reads of `jobOpts`.
pub record JobOptions : Type 0 where
  pub name : Option Text
  pub repeats : Bool

-- What `addJob` asks the queue for.
pub data Addition : Type 0 where
  add_once : (name : Text) → JobData → Addition
  upsert_scheduler : (id name : Text) → JobData → Addition

abbrev pub job_data : AuthCtx → String → String → String → String → JobData
job_data auth device service action input = record {
  device_id = device;
  service_id = service;
  action_name = action;
  input = input;
  api_key = key_of auth;
}

-- What `removeJob` asks the queue for: a job's removal, or that of a scheduler and, if that is not
-- there, of the one with the bare name.
pub data Removal : Type 0 where
  remove_it : Job → Removal
  remove_scheduler : (id : Text) → (legacy : Option Text) → Removal

abbrev pub is_admin : AuthCtx → Bool
is_admin internal = false
is_admin (tenant key admin) = admin

module _ (hash : String → Text) (multi_threaded : Bool) where
  abbrev pub add_named :
      AuthCtx → Option Text → Bool → String → String → String → String → Outcome Addition
  add_named auth none repeats device service action input = failed no_name
  add_named auth (some name) repeats device service action input =
      if repeats
      then ok (
          upsert_scheduler (scheduler_id hash auth name) name
            (job_data auth device service action input))
      else ok (add_once name (job_data auth device service action input))

  abbrev pub add_with :
      AuthCtx → Option JobOptions → String → String → String → String → Outcome Addition
  add_with auth none device service action input = failed no_options
  add_with auth (some o) device service action input =
      add_named auth o.name o.repeats device service action input

  unfoldable pub add_job :
      AuthCtx → Option JobOptions → String → String → String → String → Outcome Addition
  add_job auth opts device service action input =
      if not multi_threaded
      then failed not_multi_threaded
      else if is_anonymous auth
      then failed (denied auth)
      else add_with auth opts device service action input

  -- The job as it was found, or as it is when it is fetched again once it has ended.
  abbrev pub settled : Job → (state : Text) → Answer (Option Job) → Outcome (Job × Text)
  settled job state (answered none) = ok (job, state)
  settled job state (answered (some fresh)) = ok (fresh, state)
  settled job state rejected = failed queue_failed

  abbrev pub show_in : Job → Answer Text → Answer (Option Job) → Outcome (Job × Text)
  show_in job rejected again = failed queue_failed
  show_in job (answered state) again =
      settled job state (if has_ended state then again else answered (some job))

  abbrev pub show_found :
      AuthCtx → Answer (Option Job) → Answer Text → Answer (Option Job) → Outcome (Job × Text)
  show_found auth rejected state again = failed queue_failed
  show_found auth (answered none) state again = failed unknown_job
  show_found auth (answered (some job)) state again =
      if owns_job auth job.data_ then show_in job state again else failed (denied auth)

  -- `found` and `again` are what the queue answers for the job's id, first and when it is asked
  -- once more, and `state` is what it tells of the job in between.
  unfoldable pub get_job :
      AuthCtx → Answer (Option Job) → Answer Text → Answer (Option Job) → Outcome (Job × Text)
  get_job auth found state again =
      if not multi_threaded then failed not_multi_threaded else show_found auth found state again

  abbrev pub remove_found : AuthCtx → Option Job → Outcome Removal
  remove_found auth none = failed unknown_job
  remove_found auth (some job) =
      if owns_job auth job.data_ then ok (remove_it job) else failed (denied auth)

  abbrev pub legacy_name : AuthCtx → Text → Option Text
  legacy_name auth name =
      if is_admin auth && not (same (scheduler_id hash auth name) name) then some name else none

  abbrev pub remove_named : AuthCtx → Text → Option Bool → Option Job → Outcome Removal
  remove_named auth name none found = failed no_repeat_flag
  remove_named auth name (some false) found = remove_found auth found
  remove_named auth name (some true) found =
      ok (remove_scheduler (scheduler_id hash auth name) (legacy_name auth name))

  abbrev pub remove_with : AuthCtx → Option Text → Option Bool → Option Job → Outcome Removal
  remove_with auth none is_repeat found = failed no_name
  remove_with auth (some name) is_repeat found = remove_named auth name is_repeat found

  -- `found` is what the queue answers for the job's id; a flag that is no Boolean is `none`.
  unfoldable pub remove_job : AuthCtx → Option Text → Option Bool → Option Job → Outcome Removal
  remove_job auth name is_repeat found =
      if not multi_threaded
      then failed not_multi_threaded
      else if is_anonymous auth
      then failed (denied auth)
      else remove_with auth name is_repeat found

-- The loop of `getJobHistory`, with `keyList`, whose size is `cap`.
unfoldable pub history : AuthCtx → ℕ → List Text → List Job → List Job
history auth cap seen [] = []
history auth cap seen (j ∷ js) =
    let passed = history auth cap seen js in
    let taken = j ∷ history auth (suc cap) (j.id ∷ seen) js in
    if leb 20 cap
    then []
    else if not (owns_job auth j.data_) || contains j.id seen
    then passed
    else taken

unfoldable pub get_job_history : AuthCtx → List Job → Outcome (List Job)
get_job_history auth items =
    if is_anonymous auth then failed (denied auth) else ok (history auth 0 [] items)
