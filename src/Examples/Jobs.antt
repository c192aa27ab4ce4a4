-- ===== src/Examples/Jobs.antt =====
-- Two tenants and their jobs, lib/job-control.js.
use countinghouse.Prelude.{
  refl, String, string_eq, true, false, [], ◌∷◌, none, some, ◌==◌, if◌then◌else◌,
}
use countinghouse.Prelude.Text.{Text, text_eq, codes}
use countinghouse.JobControl.{
  AuthCtx, tenant, Job, job_data, scheduler_id, owns_job, get_job, answered, remove_job, Removal,
  remove_scheduler, get_job_history, history,
}
use countinghouse.JobControl.Isolation.{MayReach, MayRemove, get_job-MayReach, remove_job-MayRemove}
use countinghouse.JobControl.History.{Shows, get_job_history-Shows}

-- Of two units, in place of 16.
abbrev hash : String → Text
hash key = if key == "a" then 0 ∷ 1 ∷ [] else 1 ∷ 1 ∷ []

abbrev alice : AuthCtx
alice = tenant (some "a") false

abbrev bob : AuthCtx
bob = tenant (some "b") false

abbrev hers : Job
hers = record { id = codes "1"; name = codes "scan"; data_ = job_data alice "d" "s" "x" "{}" }

abbrev his : Job
his = record { id = codes "2"; name = codes "scan"; data_ = job_data bob "d" "s" "x" "{}" }

-- The job once it has ended, as it is fetched again.
abbrev ended : Job
ended = record hers { name = codes "scanned" }

get_job-MayReach_example : MayReach alice ended
unfolding get_job owns_job
get_job-MayReach_example =
    get_job-MayReach hash true alice (answered (some hers)) (answered (codes "completed"))
      (answered (some ended)) ended (codes "completed") refl refl

abbrev removal : Removal
removal = remove_scheduler (scheduler_id hash alice (codes "scan")) none

remove_job-MayRemove_example : MayRemove hash true alice (some (codes "scan")) removal
unfolding remove_job
remove_job-MayRemove_example =
    remove_job-MayRemove hash true alice (some (codes "scan")) (some true) none removal refl

get_job_history-Shows_example : Shows alice 0 [] (his ∷ hers ∷ hers ∷ []) (hers ∷ [])
unfolding get_job_history history owns_job
get_job_history-Shows_example =
    get_job_history-Shows alice (his ∷ hers ∷ hers ∷ []) (hers ∷ []) refl
