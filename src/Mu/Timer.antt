-- ===== src/Mu/Timer.antt =====
-- mulib/mulib/core/mu_timer.c: a timer is a task that defers itself on the scheduler. The address of a
-- `mu_timer_t` is that of the task inside it.
pub mod Runs
pub mod Stepped
mod Tests
use toy_tstat.Common.{ℕ, Bool, true, false, not, if◌then◌else◌}
use toy_tstat.Common.Ints.{ℤ}
use toy_tstat.Mu.Time
use toy_tstat.Mu.Sched
use toy_tstat.Mu.Sched.{Sched}
use toy_tstat.Mu.Task.{Task}
use toy_tstat.Mu.Task

-- `mu_timer_state_t`
pub data TimerState : Type 0 where
  state_idle state_running state_error : TimerState

-- `mu_timer_t`, with its address.
pub record Timer : Type 0 where
  pub address : ℕ
  pub task : Task
  pub state : TimerState
  pub on_completion : ℕ
  pub delay_tics : ℤ
  pub delay_until : ℕ
  pub periodic : Bool

-- The timer and the scheduler.
abbrev pub System : Type 0
System = Timer × Sched

-- `fn` is the address of `mu_timer_fn`. The task's state is set, the timer's own is left.
pub init : Timer → ℕ → Timer
init t fn = record t { task = Task.init t.task fn 0 0 }

pub is_running : Timer → Bool
is_running t = elim t.state [ state_idle ↦ false | state_running ↦ true | state_error ↦ false ]

pub is_stopped : Timer → Bool
unfolding is_running
is_stopped t = not (is_running t)

pub stop : System → System
unfolding is_running
stop (t, s) =
    let s' = (Sched.remove_deferred_task s t.address).1 in
    (record t { state = state_idle }, if is_running t then s' else s)

-- The answer of `mu_sched_defer_until` is dropped, here and in `timer_fn`.
pub start : (ℕ → ℕ) → System → ℤ → Bool → ℕ → System
unfolding stop
start clock ts delay_tics periodic on_completion =
    let (t, s) = stop ts in
    let delay_until = Time.offset (clock (Sched.get_clock_source s)) delay_tics in
    (
      record t {
        delay_tics = delay_tics;
        delay_until = delay_until;
        periodic = periodic;
        state = state_running;
        on_completion = on_completion;
      },
      (Sched.defer_until s t.address delay_until).1,
    )

-- What happens to a running timer when its time has come, up to the call of `on_completion`.
pub expire : System → System
expire (t, s) =
    let next = Time.offset t.delay_until t.delay_tics in
    if t.periodic
    then (record t { delay_until = next }, (Sched.defer_until s t.address next).1)
    else (record t { state = state_idle }, s)

-- `invoke` is what the function of the task to call does.
pub timer_fn : (ℕ → System → System) → System → System
unfolding expire
timer_fn invoke (t, s) = elim t.state [
  | state_idle ↦ (t, s)
  | state_running ↦ Task.call_with invoke t.on_completion (expire (t, s))
  | state_error ↦ (t, s)
]
