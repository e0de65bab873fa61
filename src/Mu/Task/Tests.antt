-- ===== src/Mu/Task/Tests.antt =====
-- A task that yields on a busy scheduler.
use toy_tstat.Common.{◌≡◌, refl}
use toy_tstat.Mu.Fifo.{offer}
use toy_tstat.Mu.Sched.Select.{IsValid, waiting}
use toy_tstat.Mu.Sched.Api.{refusal}
use toy_tstat.Mu.Sched.Example.{busy, busy-IsValid}
use toy_tstat.Mu.Task.{World, Code, get_state, yield}
use toy_tstat.Mu.Task.State.{yield_refines}

-- Functions that do nothing, but for a hook that puts the task back to state 0.
abbrev code : Code
code = record {
  run_call_hook = λ fn task w. w;
  run_fn = λ fn task arg w. w;
  run_set_state_hook =
      λ fn task prev state w. record w { tasks = λ a. record { fn = 1; state = 0; user_info = 0 } };
}

abbrev world : World
world = record {
  tasks = λ a. record { fn = 1; state = a; user_info = 0 };
  call_hook = 0;
  set_state_hook = 0;
  sched = busy;
}

yield_example :
    let (err, w') = yield code world 8 3 in
    let (irqs, later, asaps) = waiting busy in
    let (done, asaps') = offer 20 asaps 8 in
    (err ≡ refusal done)
    × (waiting w'.sched ≡ (irqs, later, asaps'))
    × IsValid w'.sched
    × (get_state w' 8 ≡ 3)
yield_example = yield_refines code world 8 3 refl busy-IsValid
