-- ===== src/Mu/Mqueue/Tests.antt =====
-- A queue of three slots with two items, the older one at the end of the store.
use toy_tstat.Common.{ℕ, ◌≡◌, refl, [], ◌∷◌, arith}
use toy_tstat.Mu.Fifo.{offer}
use toy_tstat.Mu.Mqueue.{Mqueue, put}
use toy_tstat.Mu.Mqueue.Inv.{IsValid}
use toy_tstat.Mu.Mqueue.Refine.{contents, IsQuiet, put_refines}

abbrev queue : Mqueue
queue = record {
  storage = 6 ∷ 0 ∷ 5 ∷ [];
  capacity = 3;
  count = 2;
  index = 1;
  on_put = 0;
  on_get = 0;
}

queue-IsValid : IsValid queue
queue-IsValid = record {
  storage_fits = omega arith;
  addressable = omega arith;
  some_room = omega arith;
  count_in = omega arith;
  index_in = omega arith;
}

abbrev idle : ℕ → Mqueue → Mqueue
idle task q = q

contents-queue : contents queue ≡ 5 ∷ 6 ∷ []
contents-queue = refl

mqueue_put_example :
    let (done, q') = put idle queue 7 in
    ((done, contents q') ≡ offer 3 (contents queue) 7) × IsValid q' × IsQuiet q' × (q'.capacity ≡ 3)
mqueue_put_example = put_refines idle 7 queue-IsValid (refl, refl)
