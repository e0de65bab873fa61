-- ===== src/Mu/Periodic/Stopped.antt =====
-- A target that stops its timer.
use toy_tstat.Common.{
  ℕ, ◌≤◌, ◌<◌, ◌≡◌, ◌≢◌, refl, ap, ◌∙◌, inl, inr, Bool, true, false, List, [], ◌∷◌, length, ==_ne,
  arith,
}
use toy_tstat.Common.Ints.{pos}
use toy_tstat.Mu.Time
use toy_tstat.Mu.Deferred.{Deferred, max_deferred}
use toy_tstat.Mu.Deferred.Order.{insert, pending}
use toy_tstat.Mu.Deferred.Removal.{without}
use toy_tstat.Mu.Sched.{Sched, defer_until, remove_deferred_task}
use toy_tstat.Mu.Sched.Api.{defer_until_refines, remove_deferred_task_refines}
use toy_tstat.Mu.Sched.Promise.{length-pending_of}
use toy_tstat.Mu.Sched.Select as Select
use toy_tstat.Mu.Sched.Select.{waiting}
use toy_tstat.Mu.Task
use toy_tstat.Mu.Periodic.{Periodic, System, is_running, stop, timer_fn}

-- The function of a target that stops the timer.
abbrev pub stops : ℕ → System → System
stops task ts = (stop ts).1

length-without : (task : ℕ) (ds : List Deferred) → length (without task ds) ≤ length ds
unfolding without
length-without task [] = omega arith
length-without task (d ∷ ds) = ground (arith, length-without task ds)

stop-running :
    (t : Periodic) (s : Sched)
    → is_running t ≡ true
    → stop (t, s) ≡ (true, (record t { period = pos 0 }, (remove_deferred_task s t.address).1))
unfolding stop
stop-running t s running = rw running refl

call-stops :
    (t : Periodic) (s : Sched)
    → t.target_task ≢ 0
    → is_running t ≡ true
    → Task.call_with stops t.target_task (t, s)
      ≡ (record t { period = pos 0 }, (remove_deferred_task s t.address).1)
unfolding Task.call_with
call-stops t s some running =
    rw (==_ne t.target_task 0 some) (ap (λ (r : Bool × System). r.1) (stop-running t s running))

timer_fn-running :
    (invoke : ℕ → System → System) (t : Periodic) (s : Sched)
    → is_running t ≡ true
    → timer_fn invoke (t, s) ≡ (
        let (t1, s1) = Task.call_with invoke t.target_task (t, s) in
        let at = Time.offset t1.trigger_at t1.period in
        (record t1 { trigger_at = at }, (defer_until s1 t1.address at).1))
unfolding timer_fn
timer_fn-running invoke t s running = rw running refl

-- If the target of a running timer stops it, on a valid scheduler with a slot free: the timer is stopped,
-- but its task waits once more, for the time at which it was due.
pub stopped_waits :
    (t : Periodic) (s : Sched)
    → Select.IsValid s
    → t.target_task ≢ 0
    → is_running t ≡ true
    → s.deferred.count < max_deferred
    → let (t', s') = timer_fn stops (t, s) in
      let (irqs, later, asaps) = waiting s in
      let at = Time.offset t.trigger_at (pos 0) in
      (is_running t' ≡ false)
      × (waiting s'
          ≡ (irqs, insert (record { at = at; task = t.address }) (without t.address later), asaps))
unfolding is_running
stopped_waits t s v some running room =
    let (answer, w, v1) = remove_deferred_task_refines s t.address v in
    let at = Time.offset t.trigger_at (pos 0) in
    let s1 = (remove_deferred_task s t.address).1 in
    let (v2, done) = defer_until_refines s1 t.address at v1 in
    rw (timer_fn-running stops t s running, call-stops t s some running)
      (
        refl,
        elim done [
          | inl (full, e, same) ↦ absurd (
              omega (
                arith,
                full,
                length-pending_of s.deferred.tasks s.deferred.count,
                length-pending_of s1.deferred.tasks s1.deferred.count,
                ap (λ (q : Select.Waiting). length q.1) w,
                length-without t.address (pending s.deferred),
              ))
          | inr (free, e, grown) ↦
              grown
              ∙ ap
                  (λ (q : Select.Waiting).
                    let waits : Select.Waiting =
                      (q.0, insert (record { at = at; task = t.address }) q.1, q.2) in
                    waits)
                  w
        ],
      )
