-- ===== src/Mu/Sched/Tests.antt =====
-- The calls of the scheduler on one in which tasks of all kinds wait.
use toy_tstat.Mu.Sched.Example.{busy, busy-IsValid}
use toy_tstat.Mu.Spsc.Refine.{gap}
use toy_tstat.Common.{
  All, Bool-cases, inl, inr, ◌==◌, ℕ, List, ◌∷◌, map, refl, ◌≡◌, [], if◌then◌else◌, arith,
}
use toy_tstat.Mu.Deferred.{err_none}
use toy_tstat.Mu.Sched.{Sched, init}
use toy_tstat.Mu.Sched.Select.{IsValid, waiting}
use toy_tstat.Mu.Sched.Session.{Call, Event, called, stepped, answered, ran, sched_play, list_play}
use toy_tstat.Mu.Sched.Promise.{limits, Keeps, play-Keeps}
use toy_tstat.Mu.Sched.Served.{irqs_served, irq_overtakes}
use toy_tstat.Mu.Sched.Due.{IsAsap, deferred_served}
use toy_tstat.Mu.Time.{precedes}
use toy_tstat.Mu.Sched.Api.{init-waiting}

init_example : IsValid (init 9 busy) × (waiting (init 9 busy) ≡ ([], [], []))
init_example = init-waiting 9 busy (omega arith) (omega arith) (omega arith)

-- Task 3 has task 8 run soon and defers task 1 again; task 8 takes task 2 out.
abbrev script : ℕ → List Call
script task =
    if task == 3
    then Call.asap 8 ∷ Call.defer_until 1 40 ∷ []
    else if task == 8
    then Call.remove 2 ∷ []
    else []

abbrev events : List Event
events = called (Call.from_isr 7) ∷ stepped 25 ∷ stepped 25 ∷ stepped 31 ∷ stepped 31 ∷ []

play_example :
    let (outcomes, s') = sched_play script busy events in
    let (outcomes', w') = list_play script (limits busy) (waiting busy) events in
    (outcomes ≡ outcomes') × Keeps (limits busy) w' s'
play_example =
    play-Keeps script events {l = limits busy} {w = waiting busy} {s = busy}
      (record { valid = busy-IsValid; same_limits = refl; same_tasks = refl })

irqs_example : (sched_play script busy (map stepped (25 ∷ []))).0 ≡ map ran (waiting busy).0
unfolding gap
irqs_example = irqs_served script busy (25 ∷ []) busy-IsValid refl

-- No interrupt has scheduled a task.
abbrev uninterrupted : Sched
uninterrupted = record busy { irq_tasks = record busy.irq_tasks { head = 0; tail = 0 } }

uninterrupted-IsValid : IsValid uninterrupted
uninterrupted-IsValid = record {
  irq_valid = record {
    bits = 2;
    size = refl;
    fits = omega arith;
    head_in = omega arith;
    tail_in = omega arith;
  };
  asap_valid = busy-IsValid.asap_valid;
  asap_quiet = busy-IsValid.asap_quiet;
  deferred_valid = busy-IsValid.deferred_valid;
}

-- Task 2 has task 8 run soon.
abbrev soon : ℕ → List Call
soon task = if task == 2 then Call.asap 8 ∷ [] else []

soon-IsAsap : (task : ℕ) → All IsAsap (soon task)
soon-IsAsap task = elim (Bool-cases (task == 2)) [ inl e ↦ rw e (tt, tt) | inr e ↦ rw e tt ]

deferred_example :
    (sched_play soon uninterrupted (map stepped (25 ∷ 30 ∷ []))).0
    ≡ map (λ d. ran d.task) (waiting uninterrupted).1
unfolding gap precedes
deferred_example =
    deferred_served soon uninterrupted (25 ∷ 30 ∷ []) uninterrupted-IsValid soon-IsAsap refl
      (ground arith)

overtakes_example :
    (sched_play script uninterrupted
      (called (Call.asap 1) ∷ called (Call.from_isr 2) ∷ stepped 25 ∷ [])).0
    ≡ answered err_none ∷ answered err_none ∷ ran 2 ∷ []
unfolding gap
overtakes_example =
    irq_overtakes script uninterrupted 25 1 2 uninterrupted-IsValid refl (omega arith) (omega arith)
