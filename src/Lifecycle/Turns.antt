-- ===== src/Lifecycle/Turns.antt =====
-- The tasks of one name in lib/module-lifecycle.js run one at a time, in order.
use mathlib.Core.Path.{subst}
use countinghouse.Prelude.{
  ℕ, ◌≡◌, refl, sym, ap, ◌∙◌, inl, inr, String, string_eq, ℕ_eq, true, ◌&&◌, List, [], ◌∷◌, Option,
  none, some, arith, All, All-weaken, Bool-cases, if-cases, eq_of_beq, ◌==◌,
}
use countinghouse.Prelude.Dict.{get, put, del, get-put, get-del}
use countinghouse.Lifecycle.{
  waiting, Task, ModuleLifecycle, new_lifecycle, run, is_done_in, start, finish, is_last, clean,
  Event, runs, starts, finishes, cleans, after_events,
}
use countinghouse.Lifecycle.Chained.{
  all_done, newest, AreInTurn, IsBefore, Follows, AreChained, prior-Follows, chained-AreInTurn,
  Advances, IsBefore-same, Follows-kept, chained_kept, start-Advances, finish-Advances,
}

record IsSound (l : ModuleLifecycle) : Type 0 where
  chained : AreChained l.tasks
  before : All (IsBefore l.next) l.tasks
  chains : (name : String) → Follows (get name l.chains) name l.tasks

run-IsSound : (name : String) (l : ModuleLifecycle) → IsSound l → IsSound (run name l)
unfolding run IsBefore
run-IsSound name l s =
    let t : Task = record {
      id = l.next;
      name = name;
      after = get name l.chains;
      status = waiting;
    } in
    record {
      chained = (inl refl, s.chains name, s.before, s.chained);
      before = (omega arith, All-weaken (λ u h. omega (arith, h)) l.tasks s.before);
      chains = λ m. elim (Bool-cases (name == m)) [
        | inl same ↦
            let found : get m (put name l.next l.chains) ≡ some l.next =
              get-put name m l.next l.chains ∙ rw same refl in
            let last : newest m (t ∷ l.tasks) ≡ some l.next = rw same refl in inl (found ∙ sym last)
        | inr other ↦
            let found : get m (put name l.next l.chains) ≡ get m l.chains =
              get-put name m l.next l.chains ∙ rw other refl in
            let last : newest m (t ∷ l.tasks) ≡ newest m l.tasks = rw other refl in
            let all : all_done m (t ∷ l.tasks) ≡ all_done m l.tasks = rw other refl in
            elim (s.chains m) [
              | inl e ↦ inl (found ∙ e ∙ sym last)
              | inr (e, finished_all) ↦ inr (found ∙ e, all ∙ finished_all)
            ]
      ];
    }

advanced-IsSound :
    (l : ModuleLifecycle) (ts : List Task)
    → Advances l.tasks ts
    → IsSound l
    → IsSound (record l { tasks = ts })
advanced-IsSound l ts h s = record {
  chained = chained_kept l.tasks ts h s.chained;
  before = IsBefore-same l.next l.tasks ts h s.before;
  chains = λ m. Follows-kept (get m l.chains) m l.tasks ts h (s.chains m);
}

is_last-some : (id : ℕ) (o : Option ℕ) → is_last id o ≡ true → o ≡ some id
is_last-some id none e = cc
is_last-some id (some k) e = ap (λ x. some x) (eq_of_beq k id e)

clean-IsSound :
    (id : ℕ) (name : String) (l : ModuleLifecycle) → IsSound l → IsSound (clean id name l)
unfolding clean
clean-IsSound id name l s =
    if-cases IsSound (is_done_in id l.tasks && is_last id (get name l.chains))
      (record l { chains = del name l.chains }) l
      (λ e.
        let last : get name l.chains ≡ some id =
          is_last-some id (get name l.chains) (ground (arith, e)) in
        let over : is_done_in id l.tasks ≡ true = ground (arith, e) in
        let all : all_done name l.tasks ≡ true =
          sym (
            prior-Follows (some id) name l.tasks s.chained
              (subst (λ o. Follows o name l.tasks) last (s.chains name)))
          ∙ over in
        record {
          chained = s.chained;
          before = s.before;
          chains = λ m. elim (Bool-cases (name == m)) [
            | inl same ↦
                let gone : get m (del name l.chains) ≡ none =
                  get-del name m l.chains ∙ rw same refl in
                let equal : name ≡ m = eq_of_beq name m same in
                inr (gone, subst (λ k. all_done k l.tasks ≡ true) equal all)
            | inr other ↦
                let found : get m (del name l.chains) ≡ get m l.chains =
                  get-del name m l.chains ∙ rw other refl in
                elim (s.chains m) [
                  | inl e ↦ inl (found ∙ e)
                  | inr (e, finished_all) ↦ inr (found ∙ e, finished_all)
                ]
          ];
        })
      (λ e. s)

after_events-IsSound : (es : List Event) → IsSound (after_events es)
unfolding new_lifecycle get
after_events-IsSound [] = record { chained = tt; before = tt; chains = λ m. inl refl }
after_events-IsSound (runs name ∷ es) = run-IsSound name (after_events es) (after_events-IsSound es)
after_events-IsSound (starts id ∷ es) =
    let s = after_events-IsSound es in
    let l = after_events es in
    advanced-IsSound l (start id l.tasks) (start-Advances id l.tasks s.chained) s
after_events-IsSound (finishes id ∷ es) =
    let s = after_events-IsSound es in
    let l = after_events es in
    advanced-IsSound l (finish id l.tasks) (finish-Advances id l.tasks s.chained) s
after_events-IsSound (cleans id name ∷ es) =
    clean-IsSound id name (after_events es) (after_events-IsSound es)

-- In any order of calls of `run`, starts, ends and clean-ups, each task that has started came after
-- all earlier tasks of its name were done, so that no two of them run at once, and a task may start
-- exactly when all earlier tasks of its name are done.
pub after_events-AreInTurn : (es : List Event) → AreInTurn (after_events es).tasks
after_events-AreInTurn es =
    chained-AreInTurn (after_events es).tasks (after_events-IsSound es).chained
