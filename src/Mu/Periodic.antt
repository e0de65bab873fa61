-- ===== src/Mu/Periodic.antt =====
-- mulib/mulib/laboratory/mu_periodic.c: a timer that calls its target task at once and then in every
-- period. The file is written for an earlier mu_task.h, where a task had a context: here, as there, the
-- function of the timer's task gets the timer. The address of a `mu_periodic_t` is that of its task.
pub mod Stopped
mod Tests
use toy_tstat.Common.{ℕ, Bool, true, false, not, if◌then◌else◌}
use toy_tstat.Common.Ints.{ℤ, pos, eq_ℤ}
use toy_tstat.Mu.Time
use toy_tstat.Mu.Sched
use toy_tstat.Mu.Sched.{Sched}
use toy_tstat.Mu.Task

-- `mu_periodic_t`, with its address.
pub record Periodic : Type 0 where
  pub address : ℕ
  pub target_task : ℕ
  pub period : ℤ
  pub trigger_at : ℕ

-- The timer and the scheduler.
abbrev pub System : Type 0
System = Periodic × Sched

pub init : Periodic → Periodic
init t = record t { target_task = 0; period = pos 0 }

pub is_running : Periodic → Bool
is_running t = not (eq_ℤ t.period (pos 0))

pub stop : System → Bool × System
unfolding is_running
stop (t, s) =
    let s' = (Sched.remove_deferred_task s t.address).1 in
    if not (is_running t) then (false, (t, s)) else (true, (record t { period = pos 0 }, s'))

-- `invoke` is what the function of a task does. The answer of `mu_sched_defer_until` is dropped, here
-- and in `timer_fn`.
pub start : (ℕ → System → System) → (ℕ → ℕ) → System → ℤ → ℕ → Bool × System
unfolding is_running
start invoke clock (t, s) period target_task =
    let now = clock (Sched.get_clock_source s) in
    let armed : Periodic = record t {
      target_task = target_task;
      period = period;
      trigger_at = Time.offset now period;
    } in
    let (t1, s1) = Task.call_with invoke target_task (armed, s) in
    let deferred : System = (t1, (Sched.defer_until s1 t1.address t1.trigger_at).1) in
    if is_running t then (false, (t, s)) else (true, deferred)

pub timer_fn : (ℕ → System → System) → System → System
unfolding is_running
timer_fn invoke (t, s) =
    let (t1, s1) = Task.call_with invoke t.target_task (t, s) in
    let at = Time.offset t1.trigger_at t1.period in
    let again : System = (record t1 { trigger_at = at }, (Sched.defer_until s1 t1.address at).1) in
    if is_running t then again else (t, s)
