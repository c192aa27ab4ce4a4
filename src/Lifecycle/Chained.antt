-- ===== src/Lifecycle/Chained.antt =====
-- The chains of lib/module-lifecycle.js: what a task follows, and how the tasks go on.
use mathlib.Core.Path.{subst}
use countinghouse.Prelude.{
  ℕ, ◌<◌, ◌≡◌, refl, sym, ◌∙◌, ◌⊎◌, inl, inr, String, string_eq, ℕ_eq, Bool, true, false, ◌&&◌,
  List, [], ◌∷◌, Option, none, some, arith, All, Bool-cases, if-cases, nat_eq_iff, eq_of_beq,
  beq_refl, if◌then◌else◌, ◌==◌,
}
use countinghouse.Lifecycle.{
  Status, waiting, running, done, is_done, Task, prior_done, started, finished, start, finish,
}

-- All tasks of a name are done.
abbrev pub all_done : String → List Task → Bool
all_done name [] = true
all_done name (t ∷ ts) =
    let rest = all_done name ts in if t.name == name then is_done t.status && rest else rest

-- The last task of a name.
abbrev pub newest : String → List Task → Option ℕ
newest name [] = none
newest name (t ∷ ts) = let rest = newest name ts in if t.name == name then some t.id else rest

-- Only a task whose earlier ones of its name are done has started, and it may start exactly if they
-- are.
abbrev pub AreInTurn : List Task → Type 0
AreInTurn [] = Unit
AreInTurn (t ∷ ts) =
    ((t.status ≡ waiting) ⊎ (all_done t.name ts ≡ true))
    × (prior_done t.after ts ≡ all_done t.name ts)
    × AreInTurn ts

unfoldable pub IsBefore : ℕ → Task → Type 0
IsBefore id t = t.id < id

-- What a task, or a chain, follows.
abbrev pub Follows : Option ℕ → String → List Task → Type 0
Follows o name ts = (o ≡ newest name ts) ⊎ (o ≡ none) × (all_done name ts ≡ true)

abbrev pub AreChained : List Task → Type 0
AreChained [] = Unit
AreChained (t ∷ ts) =
    ((t.status ≡ waiting) ⊎ (all_done t.name ts ≡ true))
    × Follows t.after t.name ts
    × All (IsBefore t.id) ts
    × AreChained ts

newest_before :
    (b k : ℕ) (name : String) (ts : List Task)
    → All (IsBefore b) ts
    → newest name ts ≡ some k
    → k < b
unfolding IsBefore
newest_before b k name [] all e = cc
newest_before b k name (t ∷ ts) all e = elim (Bool-cases (t.name == name)) [
  | inl same ↦
      let here : some t.id ≡ some k = rw same at e in
      let number : t.id ≡ k = cc in rw (sym number) (all.0)
  | inr other ↦
      let later : newest name ts ≡ some k = rw other at e in newest_before b k name ts all.1 later
]

skips :
    (t : Task) (o : Option ℕ) (name : String) (ts : List Task)
    → All (IsBefore t.id) ts
    → newest name ts ≡ o
    → prior_done o (t ∷ ts) ≡ prior_done o ts
skips t none name ts all e = refl
skips t (some k) name ts all e =
    let before : k < t.id = newest_before t.id k name ts all e in
    let different : (t.id == k) ≡ false = ground (arith, nat_eq_iff t.id k, before) in
    rw different refl

prior_newest :
    (name : String) (ts : List Task)
    → AreChained ts
    → prior_done (newest name ts) ts ≡ all_done name ts
prior_newest name [] c = refl
prior_newest name (t ∷ ts) (turn, follows, before, c) = elim (Bool-cases (t.name == name)) [
  | inl same ↦
      let equal : t.name ≡ name = eq_of_beq t.name name same in
      let itself : (t.id == t.id) ≡ true = beq_refl t.id in
      let end : is_done t.status ≡ (is_done t.status && all_done name ts) = elim turn [
        | inl waits ↦ rw waits refl
        | inr all ↦
            let all' : all_done name ts ≡ true = subst (λ m. all_done m ts ≡ true) equal all in
            ground (arith, all')
      ] in
      rw (same, itself) end
  | inr other ↦ rw other (skips t (newest name ts) name ts before refl ∙ prior_newest name ts c)
]

pub prior-Follows :
    (o : Option ℕ) (name : String) (ts : List Task)
    → AreChained ts
    → Follows o name ts
    → prior_done o ts ≡ all_done name ts
prior-Follows o name ts c (inl e) = rw e (prior_newest name ts c)
prior-Follows o name ts c (inr (e, all)) = rw (e, all) refl

pub chained-AreInTurn : (ts : List Task) → AreChained ts → AreInTurn ts
chained-AreInTurn [] c = tt
chained-AreInTurn (t ∷ ts) (turn, follows, before, c) =
    (turn, prior-Follows t.after t.name ts c follows, chained-AreInTurn ts c)

-- The same tasks, of which some have gone on.
abbrev pub Advances : List Task → List Task → Type 0
Advances [] [] = Unit
Advances (t ∷ ts) (t' ∷ ts') =
    (t'.id ≡ t.id)
    × (t'.name ≡ t.name)
    × (t'.after ≡ t.after)
    × ((is_done t.status ≡ false) ⊎ (is_done t'.status ≡ true))
    × ((t'.status ≡ waiting) ⊎ (all_done t.name ts ≡ true))
    × Advances ts ts'
Advances _ _ = ⊥

newest_same :
    (name : String) (ts ts' : List Task) → Advances ts ts' → newest name ts' ≡ newest name ts
newest_same name [] [] h = refl
newest_same name [] (t ∷ ts) h = absurd h
newest_same name (t ∷ ts) [] h = absurd h
newest_same name (t ∷ ts) (t' ∷ ts') (id, same, after, kept, turn, h) =
    rw (id, same, newest_same name ts ts' h) refl

pub IsBefore-same :
    (b : ℕ) (ts ts' : List Task) → Advances ts ts' → All (IsBefore b) ts → All (IsBefore b) ts'
unfolding IsBefore
IsBefore-same b [] [] h all = tt
IsBefore-same b [] (t ∷ ts) h all = absurd h
IsBefore-same b (t ∷ ts) [] h all = absurd h
IsBefore-same b (t ∷ ts) (t' ∷ ts') (id, same, after, kept, turn, h) all =
    (omega (arith, id, all.0), IsBefore-same b ts ts' h all.1)

all_done_kept :
    (name : String) (ts ts' : List Task)
    → Advances ts ts'
    → all_done name ts ≡ true
    → all_done name ts' ≡ true
all_done_kept name [] [] h all = refl
all_done_kept name [] (t ∷ ts) h all = absurd h
all_done_kept name (t ∷ ts) [] h all = absurd h
all_done_kept name (t ∷ ts) (t' ∷ ts') (id, same, after, kept, turn, h) all =
    elim (Bool-cases (t.name == name)) [
      | inl here ↦
          let both : (is_done t.status && all_done name ts) ≡ true = rw here at all in
          let rest : all_done name ts' ≡ true =
            all_done_kept name ts ts' h (ground (arith, both)) in
          let own : is_done t'.status ≡ true = elim kept [
            | inl not_done ↦ ground (arith, both, not_done)
            | inr d ↦ d
          ] in
          rw (same, here, own, rest) refl
      | inr other ↦
          let later : all_done name ts ≡ true = rw other at all in
          rw (same, other) (all_done_kept name ts ts' h later)
    ]

pub Follows-kept :
    (o : Option ℕ) (name : String) (ts ts' : List Task)
    → Advances ts ts'
    → Follows o name ts
    → Follows o name ts'
Follows-kept o name ts ts' h (inl e) = inl (e ∙ sym (newest_same name ts ts' h))
Follows-kept o name ts ts' h (inr (e, all)) = inr (e, all_done_kept name ts ts' h all)

pub chained_kept : (ts ts' : List Task) → Advances ts ts' → AreChained ts → AreChained ts'
chained_kept [] [] h c = tt
chained_kept [] (t ∷ ts) h c = absurd h
chained_kept (t ∷ ts) [] h c = absurd h
chained_kept (t ∷ ts) (t' ∷ ts') (id, same, after, kept, turn, h) (old, follows, before, c) = (
  elim turn [ inl waits ↦ inl waits | inr all ↦ inr (rw same (all_done_kept t.name ts ts' h all)) ],
  rw (after, same) (Follows-kept t.after t.name ts ts' h follows),
  rw id (IsBefore-same t.id ts ts' h before),
  chained_kept ts ts' h c,
)

stays : (ts : List Task) → AreChained ts → Advances ts ts
stays [] c = tt
stays (t ∷ ts) (turn, follows, before, c) = (
  refl,
  refl,
  refl,
  elim (Bool-cases (is_done t.status)) [ inl e ↦ inr e | inr e ↦ inl e ],
  turn,
  stays ts c,
)

started_lem :
    (b : Bool) (s : Status)
    → ((is_done s ≡ false) ⊎ (is_done (started b s) ≡ true)) × ((started b s ≡ s) ⊎ (b ≡ true))
started_lem true waiting = (inl refl, inr refl)
started_lem true running = (inl refl, inl refl)
started_lem true done = (inr refl, inl refl)
started_lem false waiting = (inl refl, inl refl)
started_lem false running = (inl refl, inl refl)
started_lem false done = (inr refl, inl refl)

finished_lem :
    (s : Status)
    → ((is_done s ≡ false) ⊎ (is_done (finished s) ≡ true)) × ((finished s ≡ s) ⊎ (s ≡ running))
finished_lem waiting = (inl refl, inl refl)
finished_lem running = (inl refl, inr refl)
finished_lem done = (inr refl, inl refl)

pub start-Advances : (id : ℕ) (ts : List Task) → AreChained ts → Advances ts (start id ts)
unfolding start
start-Advances id [] c = tt
start-Advances id (t ∷ ts) (turn, follows, before, c) =
    let b = prior_done t.after ts in
    let (kept, moved) = started_lem b t.status in
    if-cases (Advances (t ∷ ts)) (t.id == id) (record t { status = started b t.status } ∷ ts)
      (t ∷ start id ts)
      (λ e. (
        refl,
        refl,
        refl,
        kept,
        elim moved [
          | inl same ↦ elim turn [ inl waits ↦ inl (same ∙ waits) | inr all ↦ inr all ]
          | inr free ↦ inr (sym (prior-Follows t.after t.name ts c follows) ∙ free)
        ],
        stays ts c,
      ))
      (λ e. (
        refl,
        refl,
        refl,
        elim (Bool-cases (is_done t.status)) [ inl d ↦ inr d | inr d ↦ inl d ],
        turn,
        start-Advances id ts c,
      ))

pub finish-Advances : (id : ℕ) (ts : List Task) → AreChained ts → Advances ts (finish id ts)
unfolding finish
finish-Advances id [] c = tt
finish-Advances id (t ∷ ts) (turn, follows, before, c) =
    let (kept, moved) = finished_lem t.status in
    if-cases (Advances (t ∷ ts)) (t.id == id) (record t { status = finished t.status } ∷ ts)
      (t ∷ finish id ts)
      (λ e. (
        refl,
        refl,
        refl,
        kept,
        elim moved [
          | inl same ↦ elim turn [ inl waits ↦ inl (same ∙ waits) | inr all ↦ inr all ]
          | inr runs_now ↦ elim turn [ inl waits ↦ cc | inr all ↦ inr all ]
        ],
        stays ts c,
      ))
      (λ e. (
        refl,
        refl,
        refl,
        elim (Bool-cases (is_done t.status)) [ inl d ↦ inr d | inr d ↦ inl d ],
        turn,
        finish-Advances id ts c,
      ))
