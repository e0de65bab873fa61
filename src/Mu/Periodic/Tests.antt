-- ===== src/Mu/Periodic/Tests.antt =====
-- A timer whose period is 10, and whose target stops it.
use toy_tstat.Common.{◌≡◌, refl, false, arith}
use toy_tstat.Common.Ints.{pos}
use toy_tstat.Mu.Time
use toy_tstat.Mu.Deferred.Order.{insert}
use toy_tstat.Mu.Deferred.Removal.{without}
use toy_tstat.Mu.Sched.Select.{waiting}
use toy_tstat.Mu.Sched.Example.{busy, busy-IsValid}
use toy_tstat.Mu.Periodic.{Periodic, is_running, timer_fn}
use toy_tstat.Mu.Periodic.Stopped.{stops, stopped_waits}

abbrev ticking : Periodic
ticking = record { address = 2; target_task = 5; period = pos 10; trigger_at = 20 }

stopped_example :
    let (t', s') = timer_fn stops (ticking, busy) in
    let (irqs, later, asaps) = waiting busy in
    let at = Time.offset 20 (pos 0) in
    (is_running t' ≡ false)
    × (waiting s' ≡ (irqs, insert (record { at = at; task = 2 }) (without 2 later), asaps))
unfolding is_running
stopped_example = stopped_waits ticking busy busy-IsValid (omega arith) refl (omega arith)
