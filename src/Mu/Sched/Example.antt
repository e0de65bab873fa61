-- ===== src/Mu/Sched/Example.antt =====
-- A scheduler in which an interrupt's task, two deferred tasks and two others wait.
use toy_tstat.Common.{ℕ, [], ◌∷◌, refl, replicate, arith}
use toy_tstat.Mu.Deferred.{unset}
use toy_tstat.Mu.Sched.{Sched}
use toy_tstat.Mu.Sched.Select.{IsValid}

abbrev pub busy : Sched
busy = record {
  irq_tasks = record { mask = 7; head = 7; tail = 0; store = 0 ∷ 0 ∷ 0 ∷ 0 ∷ 0 ∷ 0 ∷ 0 ∷ 3 ∷ [] };
  asap_tasks = record {
    storage = 4 ∷ 5 ∷ replicate 18 0;
    capacity = 20;
    count = 2;
    index = 2;
    on_put = 0;
    on_get = 0;
  };
  deferred = record {
    tasks = record { at = 30; task = 1 } ∷ record { at = 20; task = 2 } ∷ replicate 18 unset;
    count = 2;
  };
  curr_task = 0;
  clock_fn = 9;
  idle_task = 6;
}

pub busy-IsValid : IsValid busy
busy-IsValid = record {
  irq_valid = record {
    bits = 2;
    size = refl;
    fits = omega arith;
    head_in = omega arith;
    tail_in = omega arith;
  };
  asap_valid = record {
    storage_fits = omega arith;
    addressable = omega arith;
    some_room = omega arith;
    count_in = omega arith;
    index_in = omega arith;
  };
  asap_quiet = (refl, refl);
  deferred_valid = record { array_fits = omega arith; count_in = omega arith };
}

-- The clock says 25.
abbrev pub clock : ℕ → ℕ
clock fn = 25

-- A function that does nothing to the scheduler.
abbrev pub nothing : ℕ → Sched → Sched
nothing task s = s
