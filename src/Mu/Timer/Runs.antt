-- ===== src/Mu/Timer/Runs.antt =====
-- How a timer starts, stops and expires: a running timer has one entry among the deferred tasks, and a
-- stopped one has none.
use toy_tstat.Common.{
  ℕ, ◌<◌, ◌≡◌, refl, sym, ap, ap₂, ◌∙◌, inl, inr, Bool, true, false, List, [], ◌∷◌, ◌==◌,
  if◌then◌else◌, Bool-cases, arith,
}
use toy_tstat.Common.Ints.{ℤ}
use toy_tstat.Mu.Time
use toy_tstat.Mu.Deferred.{Deferred, max_deferred}
use toy_tstat.Mu.Deferred.Order.{pending, insert}
use toy_tstat.Mu.Deferred.Removal.{without, has_task, without_none}
use toy_tstat.Mu.Sched.{Sched, remove_deferred_task, defer_until, get_clock_source}
use toy_tstat.Mu.Sched.Select.{waiting}
use toy_tstat.Mu.Sched.Select
use toy_tstat.Mu.Sched.Api.{remove_deferred_task_refines, defer_until_refines}
use toy_tstat.Mu.Task
use toy_tstat.Mu.Timer.{
  Timer, state_idle, state_running, state_error, System, is_running, is_stopped, stop, start,
  expire, timer_fn,
}

-- A valid scheduler, with no entry of a timer that does not run.
pub record IsValid (ts : System) : Type 0 where
  pub sched_valid : Select.IsValid ts.1
  pub no_entry : is_running ts.0 ≡ false → has_task ts.0.address (pending ts.1.deferred) ≡ false

has_task-without : (task : ℕ) (ds : List Deferred) → has_task task (without task ds) ≡ false
unfolding has_task without
has_task-without task [] = refl
has_task-without task (d ∷ ds) = elim (Bool-cases (d.task == task)) [
  | inl e ↦ rw e (has_task-without task ds)
  | inr e ↦ rw (e, e) (has_task-without task ds)
]

-- `mu_timer_stop` on a valid system: the timer is stopped and without an entry; the other entries wait as before.
pub stop_cancels :
    (t : Timer) (s : Sched)
    → IsValid (t, s)
    → let (t', s') = stop (t, s) in
      let (irqs, later, asaps) = waiting s in
      (is_stopped t' ≡ true)
      × (waiting s' ≡ (irqs, without t.address later, asaps))
      × (has_task t.address (pending s'.deferred) ≡ false)
      × IsValid (t', s')
unfolding stop is_stopped is_running
stop_cancels t s v = elim (Bool-cases (is_running t)) [
  | inl e ↦
      let (answer, group, ok) = remove_deferred_task_refines s t.address v.sched_valid in
      let gone =
        ap (has_task t.address) (ap (λ (w : Select.Waiting). w.1) group)
        ∙ has_task-without t.address (pending s.deferred) in
      rw e (refl, group, gone, record { sched_valid = ok; no_entry = λ h. gone })
  | inr e ↦
      let gone = v.no_entry e in
      rw e (
        refl,
        ap (λ (ds : List Deferred). let (irqs, later, asaps) = waiting s in (irqs, ds, asaps))
            (sym (without_none t.address (pending s.deferred) gone)),
        gone,
        record { sched_valid = v.sched_valid; no_entry = λ h. gone },
      )
]

-- The waiting tasks with a new entry.
abbrev entered : ℕ → ℕ → Select.Waiting → Select.Waiting
entered task at (irqs, later, asaps) = (irqs, insert (record { at = at; task = task }) later, asaps)

clock-stop : (t : Timer) (s : Sched) → get_clock_source (stop (t, s)).1 ≡ get_clock_source s
unfolding stop remove_deferred_task get_clock_source
clock-stop t s = elim (Bool-cases (is_running t)) [ inl e ↦ rw e | inr e ↦ rw e ]

-- `mu_timer_start` on a valid system with a slot free once the timer is stopped: the timer runs, and
-- its only entry is that for `delay_tics` from now; the other entries wait as before.
pub start_schedules :
    (clock : ℕ → ℕ) (t : Timer) (s : Sched) (delay_tics : ℤ) (periodic : Bool) (on_completion : ℕ)
    → IsValid (t, s)
    → (stop (t, s)).1.deferred.count < max_deferred
    → let (t', s') = start clock (t, s) delay_tics periodic on_completion in
      let (irqs, later, asaps) = waiting s in
      let at = Time.offset (clock (get_clock_source s)) delay_tics in
      (is_running t' ≡ true)
      × (waiting s'
          ≡ (irqs, insert (record { at = at; task = t.address }) (without t.address later), asaps))
      × IsValid (t', s')
unfolding start is_running
start_schedules clock t s delay_tics periodic on_completion v room =
    let (stopped, group, gone, ok) = stop_cancels t s v in
    let now = ap (λ c. Time.offset (clock c) delay_tics) (clock-stop t s) in
    let (okd, done) =
      defer_until_refines (stop (t, s)).1 t.address
        (Time.offset (clock (get_clock_source (stop (t, s)).1)) delay_tics) ok.sched_valid in
    elim done [
      | inl (full, e, same) ↦ absurd (omega (arith, full))
      | inr (free, e, grown) ↦ (
        refl,
        grown ∙ ap₂ (entered t.address) now group,
        record { sched_valid = okd; no_entry = λ h. let bad : true ≡ false = h in cc },
      )
    ]

-- If the schedule is full, `mu_timer_start` of a stopped timer schedules nothing, and the timer is
-- marked as running all the same.
pub start_full :
    (clock : ℕ → ℕ) (t : Timer) (s : Sched) (delay_tics : ℤ) (periodic : Bool) (on_completion : ℕ)
    → IsValid (t, s)
    → is_running t ≡ false
    → s.deferred.count ≡ max_deferred
    → let (t', s') = start clock (t, s) delay_tics periodic on_completion in
      (is_running t' ≡ true) × (s' ≡ s) × (has_task t.address (pending s'.deferred) ≡ false)
unfolding start is_running stop
start_full clock t s delay_tics periodic on_completion v idle full =
    elim (defer_until_refines s t.address (Time.offset (clock (get_clock_source s)) delay_tics)
      v.sched_valid).1 [
        | inl (all, e, same) ↦ rw idle (
          refl,
          same,
          ap (λ (r : Sched). has_task t.address (pending r.deferred)) same ∙ v.no_entry idle,
        )
        | inr (free, e, grown) ↦ absurd (omega (arith, free, full))
      ]

pub timer_fn_running :
    (invoke : ℕ → System → System) (t : Timer) (s : Sched)
    → t.state ≡ state_running
    → timer_fn invoke (t, s) ≡ Task.call_with invoke t.on_completion (expire (t, s))
unfolding timer_fn
timer_fn_running invoke t s = ap (λ state. elim state as (λ x. System) [
  | state_idle ↦ (t, s)
  | state_running ↦ Task.call_with invoke t.on_completion (expire (t, s))
  | state_error ↦ (t, s)
])

pub expire_periodic :
    (t : Timer) (s : Sched)
    → t.periodic ≡ true
    → let next = Time.offset t.delay_until t.delay_tics in
      expire (t, s) ≡ (record t { delay_until = next }, (defer_until s t.address next).1)
unfolding expire
expire_periodic t s =
    let next = Time.offset t.delay_until t.delay_tics in
    ap (λ (b : Bool).
      let deferred : System = (record t { delay_until = next }, (defer_until s t.address next).1) in
      let stopped : System = (record t { state = state_idle }, s) in
      if b then deferred else stopped)

-- When a periodic timer expires on a valid scheduler with a slot free, `mu_timer_fn` defers it by the
-- period from the time it was due, and then calls the completion task.
pub timer_fn_periodic :
    (invoke : ℕ → System → System) (t : Timer) (s : Sched)
    → Select.IsValid s
    → t.state ≡ state_running
    → t.periodic ≡ true
    → s.deferred.count < max_deferred
    → let next = Time.offset t.delay_until t.delay_tics in
      let (irqs, later, asaps) = waiting s in
      (s' : Sched) × (waiting s'
        ≡ (irqs, insert (record { at = next; task = t.address }) later, asaps))
      × Select.IsValid s'
      × (timer_fn invoke (t, s)
          ≡ Task.call_with invoke t.on_completion (record t { delay_until = next }, s'))
timer_fn_periodic invoke t s v running periodic room =
    let next = Time.offset t.delay_until t.delay_tics in
    let (ok, done) = defer_until_refines s t.address next v in
    elim done [
      | inl (full, e, same) ↦ absurd (omega (arith, full))
      | inr (free, e, grown) ↦ (
        (defer_until s t.address next).1,
        grown,
        ok,
        timer_fn_running invoke t s running
            ∙ ap (Task.call_with invoke t.on_completion) (expire_periodic t s periodic),
      )
    ]
