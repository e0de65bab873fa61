-- ===== src/Mu/Sched/Due.antt =====
-- Deferred tasks whose time has come are served.
use toy_tstat.Common.{
  ℕ, ◌≡◌, ◌≢◌, refl, ap₂, ◌∙◌, inl, inr, false, List, [], ◌∷◌, map, All, ◌==◌, ==_ne, Bool-cases,
}
use toy_tstat.Mu.Time.{precedes}
use toy_tstat.Mu.Deferred.{Deferred}
use toy_tstat.Mu.Deferred.Order.{due}
use toy_tstat.Mu.Sched.{Sched}
use toy_tstat.Mu.Sched.Select.{IsValid, Waiting, waiting, pick}
use toy_tstat.Mu.Sched.Session.{
  Call, stepped, Outcome, ran, Limits, do_calls, play, list_call, list_step, sched_play, list_play,
}
use toy_tstat.Mu.Sched.Promise.{limits, play-Keeps}

-- `mu_sched_asap`
abbrev pub IsAsap : Call → Type 0
IsAsap (Call.asap task) = Unit
IsAsap (Call.from_isr task) = ⊥
IsAsap (Call.remove task) = ⊥
IsAsap (Call.defer_until task at) = ⊥

-- The tasks of interrupts and the deferred tasks are these.
abbrev Waits : List ℕ → List Deferred → Waiting → Type 0
Waits irqs ds w = (w.0 ≡ irqs) × (w.1 ≡ ds)

-- A step at each of these times finds the next task due.
abbrev pub Come : List ℕ → List Deferred → Type 0
Come [] [] = Unit
Come (now ∷ nows) (d ∷ ds) = (precedes now d.at ≡ false) × (d.task ≢ 0) × Come nows ds
Come _ _ = ⊥

module _ (script : ℕ → List Call) (soon : (task : ℕ) → All IsAsap (script task)) (l : Limits) where
  do_calls-Waits :
      (cs : List Call) (irqs : List ℕ) (ds : List Deferred) (w : Waiting)
      → All IsAsap cs
      → Waits irqs ds w
      → Waits irqs ds (do_calls (list_call l) w cs)
  unfolding do_calls list_call
  do_calls-Waits [] irqs ds w a h = h
  do_calls-Waits (Call.asap task ∷ cs) irqs ds w (_, a) h =
      do_calls-Waits cs irqs ds (list_call l w (Call.asap task)).1 a h
  do_calls-Waits (Call.from_isr task ∷ cs) irqs ds w (bad, a) h = absurd bad
  do_calls-Waits (Call.remove task ∷ cs) irqs ds w (bad, a) h = absurd bad
  do_calls-Waits (Call.defer_until task at ∷ cs) irqs ds w (bad, a) h = absurd bad

  -- A step whose choice is known.
  list_step-Waits :
      (now task : ℕ) (irqs : List ℕ) (ds : List Deferred) (w rest : Waiting)
      → pick now l.idle w ≡ (task, rest)
      → Waits irqs ds rest
      → ((list_step script l now w).0 ≡ task) × Waits irqs ds (list_step script l now w).1
  unfolding list_step
  list_step-Waits now task irqs ds w rest e h = rw e (
    refl,
    elim (Bool-cases (task == 0)) [
      | inl z ↦ rw z h
      | inr z ↦ rw z (do_calls-Waits (script task) irqs ds rest (soon task) h)
    ],
  )

  pick-due :
      (now : ℕ) (d : Deferred) (ds : List Deferred) (w : Waiting)
      → precedes now d.at ≡ false
      → d.task ≢ 0
      → Waits [] (d ∷ ds) w
      → pick now l.idle w ≡ (d.task, ([], ds, w.2))
  unfolding pick due
  pick-due now d ds w come ne (irqs, later) =
      ap₂ (λ (is : List ℕ) (es : List Deferred). pick now l.idle (is, es, w.2)) irqs later
      ∙ rw come (rw (==_ne d.task 0 ne) refl)

  list_play-due :
      (nows : List ℕ) (ds : List Deferred) (w : Waiting)
      → Come nows ds
      → Waits [] ds w
      → (list_play script l w (map stepped nows)).0 ≡ map (λ d. ran d.task) ds
  unfolding play
  list_play-due [] [] w c h = refl
  list_play-due [] (d ∷ ds) w c h = absurd c
  list_play-due (now ∷ nows) [] w c h = absurd c
  list_play-due (now ∷ nows) (d ∷ ds) w (come, ne, c) h =
      let (first, h') =
        list_step-Waits now d.task [] ds w ([], ds, w.2) (pick-due now d ds w come ne h)
          (refl, refl) in
      ap₂ (λ (x : ℕ) (xs : List Outcome). ran x ∷ xs) first
        (list_play-due nows ds (list_step script l now w).1 c h')

-- On a valid scheduler with no tasks of interrupts, where the functions of tasks schedule others at most to
-- run soon: as many steps as there are deferred tasks run just these, in the order in which they wait, if
-- at each the time of the next of them has come, whatever else waits to run soon.
pub deferred_served :
    (script : ℕ → List Call) (s : Sched) (nows : List ℕ)
    → IsValid s
    → ((task : ℕ) → All IsAsap (script task))
    → (waiting s).0 ≡ []
    → Come nows (waiting s).1
    → (sched_play script s (map stepped nows)).0 ≡ map (λ d. ran d.task) (waiting s).1
deferred_served script s nows v soon none_of c =
    (play-Keeps script (map stepped nows)
      (record { valid = v; same_limits = refl; same_tasks = refl })).0
    ∙ list_play-due script soon (limits s) nows (waiting s).1 (waiting s) c (none_of, refl)
