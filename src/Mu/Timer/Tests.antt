-- ===== src/Mu/Timer/Tests.antt =====
-- A timer that is one of the deferred tasks of a busy scheduler, and one that has not been started.
use toy_tstat.Mu.Timer.Stepped.{Leaves, Beating, play, beats, play-beats}
use toy_tstat.Mu.Sched.Promise.{limits}
use toy_tstat.Mu.Deferred.{unset}
use toy_tstat.Mu.Time.{precedes}
use toy_tstat.Mu.Spsc.Refine.{gap}
use toy_tstat.Common.{ℕ, ◌≡◌, refl, true, false, List, [], ◌∷◌, replicate, arith}
use toy_tstat.Common.Ints.{pos}
use toy_tstat.Mu.Time
use toy_tstat.Mu.Deferred.Order.{insert}
use toy_tstat.Mu.Deferred.Removal.{without, has_task}
use toy_tstat.Mu.Sched.{Sched, get_clock_source}
use toy_tstat.Mu.Sched.Select.{waiting}
use toy_tstat.Mu.Sched.Example.{busy, busy-IsValid, clock}
use toy_tstat.Mu.Timer.{Timer, state_idle, state_running, is_running, stop, start}
use toy_tstat.Mu.Timer.Runs.{IsValid, start_schedules}

abbrev ticking : Timer
ticking = record {
  address = 2;
  task = record { fn = 7; state = 0; user_info = 0 };
  state = state_running;
  on_completion = 5;
  delay_tics = pos 10;
  delay_until = 20;
  periodic = true;
}

abbrev fresh : Timer
fresh = record ticking { address = 11; state = state_idle }

fresh-busy-IsValid : IsValid (fresh, busy)
unfolding has_task
fresh-busy-IsValid = record { sched_valid = busy-IsValid; no_entry = λ h. refl }

start_example :
    let (t', s') = start clock (fresh, busy) (pos 3) false 5 in
    let (irqs, later, asaps) = waiting busy in
    let at = Time.offset 25 (pos 3) in
    (is_running t' ≡ true)
    × (waiting s' ≡ (irqs, insert (record { at = at; task = 11 }) (without 11 later), asaps))
    × IsValid (t', s')
unfolding get_clock_source stop is_running
start_example = start_schedules clock fresh busy (pos 3) false 5 fresh-busy-IsValid (omega arith)

-- Only the timer waits, for 20, with a period of 10.
abbrev lonely : Sched
lonely = record {
  irq_tasks = record busy.irq_tasks { head = 0; tail = 0 };
  asap_tasks = record busy.asap_tasks { count = 0 };
  deferred = record { tasks = record { at = 20; task = 2 } ∷ replicate 19 unset; count = 1 };
  curr_task = 0;
  clock_fn = 9;
  idle_task = 6;
}

lonely-Beating : Beating (limits lonely) ticking 20 (ticking, lonely)
unfolding gap
lonely-Beating = record {
  same_timer = refl;
  keeps = record {
    valid = record {
      irq_valid = record {
        bits = 2;
        size = refl;
        fits = omega arith;
        head_in = omega arith;
        tail_in = omega arith;
      };
      asap_valid = record {
        storage_fits = omega arith;
        addressable = omega arith;
        some_room = omega arith;
        count_in = omega arith;
        index_in = omega arith;
      };
      asap_quiet = (refl, refl);
      deferred_valid = record { array_fits = omega arith; count_in = omega arith };
    };
    same_limits = refl;
    same_tasks = refl;
  };
}

still-Leaves : Leaves (λ task ts. ts)
still-Leaves = record { timer = λ task ts. refl; tasks = λ task l w ts k. k }

-- The steps at 33 and 34 make up for two times; the one at 35 comes too soon.
abbrev readings : List ℕ
readings = 19 ∷ 33 ∷ 34 ∷ 35 ∷ 41 ∷ []

beats_at_readings :
    beats (λ time. Time.offset time (pos 10)) 20 readings
    ≡ (false ∷ true ∷ true ∷ false ∷ true ∷ [], 50)
unfolding beats Time.precedes Time.offset
beats_at_readings = refl

play-beats_example :
    let (fired, ts') = play (λ task ts. ts) readings (ticking, lonely) in
    let (fired', at') = beats (λ time. Time.offset time (pos 10)) 20 readings in
    (fired ≡ fired') × Beating (limits lonely) ticking at' ts'
play-beats_example =
    play-beats still-Leaves (limits lonely) ticking refl refl (λ e. omega (arith, e))
      (λ e. omega (arith, e)) readings 20 (ticking, lonely) lonely-Beating
