-- ===== src/Mu/Spsc/Interleaved.antt =====
-- An interrupt may come between any two accesses of `mu_spsc_get` to the queue, and the foreground may
-- go on between any two of `mu_spsc_put`. Here each call is the sequence of its accesses in program
-- order, and the calls of the one producer and the one consumer interleave in any way.
pub mod Accesses
pub mod Safe
use toy_tstat.Common.{ℕ, ◌+◌, ◌≡◌, ◌≢◌, List, [], ◌∷◌, ◌++◌, get_or, set}
use Prim.Native.Nat.{bit_and}
use toy_tstat.Mu.Spsc.{Spsc, next_tail}

-- Where the producer is in `mu_spsc_put`: outside, behind the test with the item to put, or behind the
-- write to the store.
pub data Producer : Type 0 where
  outside : Producer
  tested written : ℕ → Producer

-- Where the consumer is in `mu_spsc_get`: outside, behind the test, or behind the read of the item.
pub data Consumer : Type 0 where
  outside tested : Consumer
  fetched : ℕ → Consumer

-- The queue, both sides, the items that puts have accepted, and those that gets have delivered.
pub record Machine : Type 0 where
  pub q : Spsc
  pub producer : Producer
  pub consumer : Consumer
  pub accepted : List ℕ
  pub delivered : List ℕ

unfoldable pub write_item : Spsc → ℕ → Spsc
write_item q x = record q { store = set q.store q.tail x }

unfoldable pub advance_tail : Spsc → Spsc
unfolding next_tail
advance_tail q = record q { tail = next_tail q }

unfoldable pub advance_head : Spsc → Spsc
advance_head q = record q { head = bit_and (q.head + 1) q.mask }

-- A call that answers FULL or EMPTY changes nothing and is no step.
pub data Step : Machine → Machine → Type 0 where
  put_tests :
      (m : Machine) (x : ℕ)
      → m.producer ≡ Producer.outside
      → next_tail m.q ≢ m.q.head
      → Step m (record m { producer = Producer.tested x })
  put_writes :
      (m : Machine) (x : ℕ)
      → m.producer ≡ Producer.tested x
      → Step m (record m { q = write_item m.q x; producer = written x })
  put_ends :
      (m : Machine) (x : ℕ)
      → m.producer ≡ written x
      → Step m (record m {
        q = advance_tail m.q;
        producer = Producer.outside;
        accepted = m.accepted ++ x ∷ [];
      })
  get_tests :
      (m : Machine)
      → m.consumer ≡ Consumer.outside
      → m.q.head ≢ m.q.tail
      → Step m (record m { consumer = Consumer.tested })
  get_reads :
      (m : Machine)
      → m.consumer ≡ Consumer.tested
      → Step m (record m { consumer = fetched (get_or m.q.store m.q.head 0) })
  get_ends :
      (m : Machine) (x : ℕ)
      → m.consumer ≡ fetched x
      → Step m (record m {
        q = advance_head m.q;
        consumer = Consumer.outside;
        delivered = m.delivered ++ x ∷ [];
      })

pub data Reach (s : Machine) : Machine → Type 0 where
  here : Reach s s
  next : {t u : Machine} → Reach s t → Step t u → Reach s u

-- Both sides outside a queue, before any call.
abbrev pub started : Spsc → Machine
started q = record {
  q = q;
  producer = Producer.outside;
  consumer = Consumer.outside;
  accepted = [];
  delivered = [];
}
