-- ===== src/Mu/Timer/Stepped.antt =====
-- A periodic timer on the scheduler: steps of mu_sched.c in which the function of the timer's task is
-- `mu_timer_fn`, over whatever the clock shows at each.
use toy_tstat.Common.{
  ℕ, ◌≡◌, ◌≢◌, refl, sym, ap, ap₂, ◌∙◌, inl, inr, Bool, true, false, List, [], ◌∷◌, ◌==◌, ==_iff,
  ==_ne, if◌then◌else◌, Bool-cases,
}
use mathlib.Core.Path.{subst}
use toy_tstat.Mu.Time
use toy_tstat.Mu.Time.{precedes}
use toy_tstat.Mu.Deferred.Order.{insert, due}
use toy_tstat.Mu.Sched.{Sched, select, defer_until}
use toy_tstat.Mu.Sched.Select.{Waiting, pick, pick_asap}
use toy_tstat.Mu.Sched.Session.{Limits, Call, sched_call, list_call}
use toy_tstat.Mu.Sched.Promise.{Keeps, select-Keeps, reset-Keeps, call-Keeps}
use toy_tstat.Mu.Task
use toy_tstat.Mu.Timer.{Timer, state_running, System, timer_fn}
use toy_tstat.Mu.Timer.Runs.{timer_fn_running, expire_periodic}

-- No task is running.
abbrev calm : System → System
calm (t, s) = (t, record s { curr_task = 0 })

-- What the functions of the other tasks do.
module _ (invoke : ℕ → System → System) where
  -- `mu_task_call` of the task at an address.
  unfoldable pub run_task : ℕ → System → System
  run_task task ts =
      let timer = timer_fn invoke ts in
      let other = invoke task ts in if task == ts.0.address then timer else other

  -- `mu_sched_step` when the clock shows `now`: whether it was the timer's turn, and the system then.
  unfoldable pub step : ℕ → System → Bool × System
  unfolding run_task
  step now (t, s) =
      let chosen = select (λ fn. now) s in
      (chosen.curr_task == t.address, calm (Task.call_with run_task chosen.curr_task (t, chosen)))

  unfoldable pub play : List ℕ → System → List Bool × System
  play [] ts = ([], ts)
  play (now ∷ nows) ts =
      let (fired, ts') = step now ts in let (more, end) = play nows ts' in (fired ∷ more, end)

-- The promise of a timer, alone: a time, which the clock must reach, and which then moves on by a period.
unfoldable pub beats : (ℕ → ℕ) → ℕ → List ℕ → List Bool × ℕ
beats next due_at [] = ([], due_at)
beats next due_at (now ∷ nows) =
    let (waits, at) = beats next due_at nows in
    let (goes_on, at') = beats next (next due_at) nows in
    if precedes now due_at then (false ∷ waits, at) else (true ∷ goes_on, at')

-- The functions of other tasks leave the timer and the waiting tasks as they are.
pub record Leaves (invoke : ℕ → System → System) : Type 0 where
  pub timer : (task : ℕ) (ts : System) → (invoke task ts).0 ≡ ts.0
  pub tasks :
      (task : ℕ) (l : Limits) (w : Waiting) (ts : System)
      → Keeps l w ts.1
      → Keeps l w (invoke task ts).1

abbrev pub alone : ℕ → ℕ → Waiting
alone task at = ([], record { at = at; task = task } ∷ [], [])

-- The timer runs, and its entry is the only task that waits.
pub record Beating (l : Limits) (t : Timer) (at : ℕ) (ts : System) : Type 0 where
  pub same_timer : ts.0 ≡ record t { delay_until = at }
  pub keeps : Keeps l (alone t.address at) ts.1

pick-due :
    (now idle task at : ℕ)
    → task ≢ 0
    → precedes now at ≡ false
    → pick now idle (alone task at) ≡ (task, ([], [], []))
unfolding pick due
pick-due now idle task at ne e = rw e (rw (==_ne task 0 ne) refl)

pick-early :
    (now idle task at : ℕ)
    → precedes now at ≡ true
    → pick now idle (alone task at) ≡ (idle, alone task at)
unfolding pick due pick_asap
pick-early now idle task at e = rw e refl

module _ {invoke : ℕ → System → System} (leaves : Leaves invoke) where
  called :
      (task : ℕ) (l : Limits) (w : Waiting) (ts : System)
      → Keeps l w ts.1
      → ((Task.call_with invoke task ts).0 ≡ ts.0) × Keeps l w (Task.call_with invoke task ts).1
  unfolding Task.call_with
  called task l w ts k = elim (Bool-cases (task == 0)) [
    | inl e ↦ rw e (refl, k)
    | inr e ↦ rw e (leaves.timer task ts, leaves.tasks task l w ts k)
  ]

  own_turn :
      (task : ℕ) (ts : System)
      → task ≡ ts.0.address
      → task ≢ 0
      → Task.call_with (run_task invoke) task ts ≡ timer_fn invoke ts
  unfolding Task.call_with run_task
  own_turn task ts e ne = rw (==_ne task 0 ne, (==_iff task ts.0.address).1 e) refl

  other_turn :
      (task : ℕ) (ts : System)
      → task ≢ ts.0.address
      → Task.call_with (run_task invoke) task ts ≡ Task.call_with invoke task ts
  unfolding Task.call_with run_task
  other_turn task ts ne = rw (==_ne task ts.0.address ne) refl

  -- The timer's function on a scheduler in which nothing waits.
  expired :
      (l : Limits) (t : Timer) (at : ℕ) (s : Sched)
      → t.state ≡ state_running
      → t.periodic ≡ true
      → Keeps l ([], [], []) s
      → Beating l t
          (Time.offset at t.delay_tics)
          (timer_fn invoke (record t { delay_until = at }, s))
  unfolding sched_call list_call insert
  expired l t at s running periodic k =
      let u : Timer = record t { delay_until = at } in
      let next = Time.offset at t.delay_tics in
      let again : System = (record u { delay_until = next }, (defer_until s t.address next).1) in
      let (err, k') = call-Keeps (Call.defer_until t.address next) k in
      let (same, k'') = called t.on_completion l (alone t.address next) again k' in
      let whole =
        timer_fn_running invoke u s running
        ∙ ap (Task.call_with invoke t.on_completion) (expire_periodic u s periodic) in
      subst (Beating l t next) (sym whole) (record { same_timer = same; keeps = k'' })

  -- A step where the timer's time has come, and one where it has not.
  module _ (l : Limits) (t : Timer) (running : t.state ≡ state_running)
      (periodic : t.periodic ≡ true) (some_task : t.address ≢ 0)
      (not_idle : l.idle ≢ t.address) where
    calm-Beating : {at : ℕ} {ts : System} → Beating l t at ts → Beating l t at (calm ts)
    calm-Beating b = record { same_timer = b.same_timer; keeps = reset-Keeps b.keeps }

    step_due :
        (now at : ℕ) (s : Sched)
        → Keeps l (alone t.address at) s
        → precedes now at ≡ false
        → let (fired, ts) = step invoke now (record t { delay_until = at }, s) in
          (fired ≡ true) × Beating l t (Time.offset at t.delay_tics) ts
    unfolding step
    step_due now at s k e =
        let u : Timer = record t { delay_until = at } in
        let chosen = select (λ fn. now) s in
        let (turn, k') =
          subst (λ p. (chosen.curr_task ≡ p.0) × Keeps l p.1 chosen)
            (pick-due now l.idle t.address at some_task e) (select-Keeps now k) in
        let own = own_turn chosen.curr_task (u, chosen) turn (λ z. some_task (sym turn ∙ z)) in
        (
          (==_iff chosen.curr_task t.address).1 turn,
          calm-Beating (
              subst (Beating l t (Time.offset at t.delay_tics)) (sym own)
                (expired l t at chosen running periodic k')),
        )

    step_early :
        (now at : ℕ) (s : Sched)
        → Keeps l (alone t.address at) s
        → precedes now at ≡ true
        → let (fired, ts) = step invoke now (record t { delay_until = at }, s) in
          (fired ≡ false) × Beating l t at ts
    unfolding step
    step_early now at s k e =
        let u : Timer = record t { delay_until = at } in
        let chosen = select (λ fn. now) s in
        let (turn, k') =
          subst (λ p. (chosen.curr_task ≡ p.0) × Keeps l p.1 chosen)
            (pick-early now l.idle t.address at e) (select-Keeps now k) in
        let ne = λ (z : chosen.curr_task ≡ t.address). not_idle (sym turn ∙ z) in
        let (same, k'') = called chosen.curr_task l (alone t.address at) (u, chosen) k' in
        (
          ==_ne chosen.curr_task t.address ne,
          calm-Beating (
              subst (Beating l t at) (sym (other_turn chosen.curr_task (u, chosen) ne))
                (record { same_timer = same; keeps = k'' })),
        )

    -- A periodic timer whose entry is the only task that waits, on a valid scheduler, where the functions
    -- of other tasks leave it and the waiting tasks alone: whatever the clock shows at each of the steps, it
    -- is the timer's turn exactly where the time that it is to run at has come, and that time then moves on by the
    -- period, however late the step was.
    pub play-beats :
        (nows : List ℕ) (at : ℕ) (ts : System)
        → Beating l t at ts
        → let (fired, ts') = play invoke nows ts in
          let (fired', at') = beats (λ time. Time.offset time t.delay_tics) at nows in
          (fired ≡ fired') × Beating l t at' ts'
    unfolding play beats
    play-beats [] at ts b = (refl, b)
    play-beats (now ∷ nows) at ts b = elim (Bool-cases (precedes now at)) [
      | inl early ↦
          let (f, b') =
            subst
              (λ u.
                let (fired, ts') = step invoke now (u, ts.1) in
                (fired ≡ false) × Beating l t at ts')
              (sym b.same_timer) (step_early now at ts.1 b.keeps early) in
          let (more, end) = play-beats nows at (step invoke now ts).1 b' in
          rw early (ap₂ (λ (x : Bool) (xs : List Bool). x ∷ xs) f more, end)
      | inr come ↦
          let next = Time.offset at t.delay_tics in
          let (f, b') =
            subst
              (λ u.
                let (fired, ts') = step invoke now (u, ts.1) in
                (fired ≡ true) × Beating l t next ts')
              (sym b.same_timer) (step_due now at ts.1 b.keeps come) in
          let (more, end) = play-beats nows next (step invoke now ts).1 b' in
          rw come (ap₂ (λ (x : Bool) (xs : List Bool). x ∷ xs) f more, end)
    ]
