-- ===== src/Mu/Spsc/Tests.antt =====
-- A queue of four slots, three in use, whose tail has gone round.
use toy_tstat.Common.{
  ◌≤◌, ◌++◌, length, ℕ, ◌≡◌, refl, List, [], ◌∷◌, none, some, true, false, arith,
}
use toy_tstat.Mu.Fifo.{Op}
use toy_tstat.Mu.Fifo
use toy_tstat.Mu.Spsc.{next_tail, Spsc, put, get}
use toy_tstat.Mu.Spsc.Inv.{IsValid}
use toy_tstat.Mu.Spsc.Interleaved.{
  Producer, written, Consumer, fetched, Machine, write_item, advance_tail, put_tests, put_writes,
  put_ends, get_tests, get_reads, Reach, here, next, started,
}
use toy_tstat.Mu.Spsc.Interleaved.Safe.{interleaved_in_order}
use toy_tstat.Mu.Spsc.Observed.{held, held-IsEquiv}
use mathlib.Core.Equiv.{IsEquiv}
use toy_tstat.Mu.Spsc.Refine.{contents, run, run_refines}

abbrev store : List ℕ
store = 7 ∷ 0 ∷ 5 ∷ 6 ∷ []

abbrev full : Spsc
full = record { mask = 3; head = 2; tail = 1; store = store }

full-IsValid : IsValid full
full-IsValid = record {
  bits = 1;
  size = refl;
  fits = omega arith;
  head_in = omega arith;
  tail_in = omega arith;
}

abbrev script : List Op
script = Op.put 9 ∷ Op.get ∷ Op.put 8 ∷ Op.get ∷ Op.get ∷ Op.get ∷ Op.get ∷ []

run-script :
    run full script
    ≡ (false, none)
      ∷ (true, some 5)
      ∷ (true, none)
      ∷ (true, some 6)
      ∷ (true, some 7)
      ∷ (true, some 8)
      ∷ (false, none)
      ∷ []
unfolding run put get
run-script = refl

spsc_run_example : run full script ≡ Fifo.run 3 (contents full) script
spsc_run_example = run_refines script full-IsValid

abbrev empty : Spsc
empty = record { mask = 3; head = 2; tail = 2; store = store }

empty-IsValid : IsValid empty
empty-IsValid = record {
  bits = 1;
  size = refl;
  fits = omega arith;
  head_in = omega arith;
  tail_in = omega arith;
}

-- The machine after 9 has been put, and while it is fetched and 8 is put.
abbrev after_put : Machine
after_put = record {
  q = record { mask = 3; head = 2; tail = 3; store = 7 ∷ 0 ∷ 9 ∷ 6 ∷ [] };
  producer = Producer.outside;
  consumer = Consumer.outside;
  accepted = 9 ∷ [];
  delivered = [];
}

abbrev overlapping : Machine
overlapping = record after_put {
  q = record { mask = 3; head = 2; tail = 3; store = 7 ∷ 0 ∷ 9 ∷ 8 ∷ [] };
  producer = written 8;
  consumer = fetched 9;
}

reach_put : Reach (started empty) after_put
unfolding next_tail write_item advance_tail
reach_put =
    next
      (next (next here (put_tests (started empty) 9 refl (omega arith)))
        (put_writes (record (started empty) { producer = Producer.tested 9 }) 9 refl))
      (put_ends (record (started empty) { q = write_item empty 9; producer = written 9 }) 9 refl)

reach_overlapping : Reach (started empty) overlapping
unfolding next_tail write_item
reach_overlapping =
    let testing : Machine = record after_put { consumer = Consumer.tested } in
    let both : Machine = record testing { producer = Producer.tested 8 } in
    let reading : Machine = record both { consumer = fetched 9 } in
    next
      (next
        (next (next reach_put (get_tests after_put refl (omega arith)))
          (put_tests testing 8 refl (omega arith)))
        (get_reads both refl))
      (put_writes reading 8 refl)

interleaved_example :
    (overlapping.accepted ≡ overlapping.delivered ++ contents overlapping.q)
    × IsValid overlapping.q
    × (length (contents overlapping.q) ≤ 3)
interleaved_example = interleaved_in_order empty-IsValid refl reach_overlapping

held_example : IsEquiv (held 1)
held_example = held-IsEquiv 1
