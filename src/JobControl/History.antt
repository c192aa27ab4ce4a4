-- ===== src/JobControl/History.antt =====
-- What the history of lib/job-control.js shows a caller.
use mathlib.Core.Path.{subst}
use countinghouse.Prelude.{
  ℕ, suc, ◌+◌, ◌≤◌, ◌≡◌, refl, ◌⊎◌, inl, inr, true, false, ◌||◌, not, List, [], ◌∷◌, arith,
  contains, length, leb, All, All-weaken, Bool-cases,
}
use countinghouse.Prelude.Text.{Text, text_eq}
use countinghouse.JobControl.Isolation.{MayReach, owns_job-MayReach, MayReach-owns_job}
use countinghouse.JobControl.{AuthCtx, Job, owns_job, history, ok, get_job_history, is_anonymous}

abbrev pub ids : List Job → List Text
ids [] = []
ids (j ∷ js) = j.id ∷ ids js

-- No id twice, and none of `seen`.
abbrev pub IsFresh : List Text → List Job → Type 0
IsFresh seen [] = Unit
IsFresh seen (j ∷ js) = (contains j.id seen ≡ false) × IsFresh (j.id ∷ seen) js

-- The job is shown, or was seen, or the list is full.
abbrev pub IsShown : AuthCtx → ℕ → List Text → List Job → Job → Type 0
IsShown auth cap seen shown j =
    MayReach auth j
    → (contains j.id seen ≡ true) ⊎ (contains j.id (ids shown) ≡ true) ⊎ (20 ≤ cap + length shown)

-- What is shown of a history, after `cap` jobs with the ids `seen`.
pub record Shows (auth : AuthCtx) (cap : ℕ) (seen : List Text) (items shown : List Job)
    : Type 0 where
  pub own : All (MayReach auth) shown
  pub fresh : IsFresh seen shown
  pub few : cap ≤ 20 → cap + length shown ≤ 20
  pub complete : All (IsShown auth cap seen shown) items

All-full :
    (auth : AuthCtx) (cap : ℕ) (seen : List Text) (js : List Job)
    → leb 20 cap ≡ true
    → All (IsShown auth cap seen []) js
All-full auth cap seen [] h = tt
All-full auth cap seen (j ∷ js) h = ((λ o. ground (arith, h)), All-full auth cap seen js h)

history-Shows :
    (auth : AuthCtx) (cap : ℕ) (seen : List Text) (items : List Job)
    → Shows auth cap seen items (history auth cap seen items)
unfolding history
history-Shows auth cap seen [] = record {
  own = tt;
  fresh = tt;
  few = λ h. omega (arith, h);
  complete = tt;
}
history-Shows auth cap seen (j ∷ js) = elim (Bool-cases (leb 20 cap)) [
  | inl full ↦ rw full (record {
    own = tt;
    fresh = tt;
    few = λ h. omega (arith, h);
    complete = All-full auth cap seen (j ∷ js) full;
  })
  | inr room ↦ elim (Bool-cases (not (owns_job auth j.data_) || contains j.id seen)) [
    | inl skip ↦
        rw (room, skip)
          (let v = history-Shows auth cap seen js in
            record {
              own = v.own;
              fresh = v.fresh;
              few = v.few;
              complete = (
                (λ m. let o = MayReach-owns_job auth j m in ground (arith, skip, o)),
                v.complete,
              );
            })
    | inr take ↦
        rw (room, take)
          (let v = history-Shows auth (suc cap) (j.id ∷ seen) js in
            record {
              own = (owns_job-MayReach auth j (ground (arith, take)), v.own);
              fresh = (ground (arith, take), v.fresh);
              few = λ h. ground (arith, room, v.few (ground (arith, room)), h);
              complete = (
                (λ o. inr (inl (ground (arith, (text_eq.beq_iff j.id j.id).1 refl)))),
                All-weaken
                    {P = IsShown auth (suc cap) (j.id ∷ seen)
                      (history auth (suc cap) (j.id ∷ seen) js)}
                    {Q = IsShown auth cap seen (j ∷ history auth (suc cap) (j.id ∷ seen) js)}
                    (λ k sees m. let saw = sees m in ground (arith, saw)) js v.complete,
              );
            })
  ]
]

-- What a caller is shown of a history: only jobs that it may reach, as the server itself, an admin
-- or the owner of the job, none twice, at most 20; and each job of the history that it may reach is
-- shown, as far as there are no more than 20.
pub get_job_history-Shows :
    (auth : AuthCtx) (items shown : List Job)
    → get_job_history auth items ≡ ok shown
    → Shows auth 0 [] items shown
unfolding get_job_history
get_job_history-Shows auth items shown h = elim (Bool-cases (is_anonymous auth)) [
  | inl e ↦ ground (arith, e)
  | inr e ↦
      let same_list : history auth 0 [] items ≡ shown = ground (arith, e) in
      subst (Shows auth 0 [] items) same_list (history-Shows auth 0 [] items)
]
