-- ===== src/Mu/Queue/Tests.antt =====
-- A queue of two items, with its head at address 1 and its tail at address 2.
use toy_tstat.Common.{◌≡◌, refl, [], ◌∷◌, arith, ◌==◌, if◌then◌else◌}
use toy_tstat.Mu.Links.{Memory}
use toy_tstat.Mu.Links.Chain.{IsList}
use toy_tstat.Mu.Queue.Drain.{reset_ends}
use toy_tstat.Mu.Queue.{Queue, reset, append, delete}
use toy_tstat.Mu.Queue.Fifo.{IsQueue, last_from}
use toy_tstat.Mu.Queue.Lost.{delete-append_lost}

abbrev memory : Memory
memory a = if a == 1 then 10 else if a == 2 then 11 else if a == 10 then 11 else 0

abbrev queue : Queue
queue = record { head = 1; tail = 2 }

two : IsQueue memory queue (10 ∷ 11 ∷ [])
unfolding last_from
two = record {
  items = record {
    header = omega arith;
    chain = (refl, omega arith, (refl, omega arith, refl));
    apart = omega arith;
    distinct = omega arith;
  };
  tail_field = omega arith;
  tail_apart = omega arith;
  tail_last = refl;
}

lost_example : IsList (append (delete 3 memory queue 11).1 queue 12) 1 (10 ∷ [])
lost_example =
    delete-append_lost 3 memory queue (10 ∷ []) 11 12 two (omega arith) (omega arith) (omega arith)
      (omega arith)

reset_example :
    IsQueue (reset 5 memory queue) queue [] × (reset 5 memory queue ≡ reset 2 memory queue)
reset_example = reset_ends 5 memory queue (10 ∷ 11 ∷ []) two (omega arith)
