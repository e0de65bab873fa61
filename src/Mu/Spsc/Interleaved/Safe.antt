-- ===== src/Mu/Spsc/Interleaved/Safe.antt =====
-- However the calls of producer and consumer interleave, no item is lost, doubled or out of order.
use toy_tstat.Common.{
  ℕ, ◌≤◌, ◌≡◌, ◌≢◌, refl, sym, ap, ◌∙◌, [], ◌∷◌, ◌++◌, append_assoc, length, get_or,
  get_or-set_self, get_or-set_ne, arith,
}
use mathlib.Core.Path.{subst}
use toy_tstat.Mu.Spsc.{Spsc, next_tail}
use toy_tstat.Mu.Spsc.Inv.{IsValid}
use toy_tstat.Mu.Spsc.Refine.{contents, length-contents, contents_start, gap-le}
use toy_tstat.Mu.Spsc.Interleaved.Accesses.{
  write_item-IsValid, advance_tail-IsValid, advance_head-IsValid, contents-write_item,
  contents-advance_tail, contents-advance_head, next_tail-apart,
}
use toy_tstat.Mu.Spsc.Interleaved.{
  Producer, written, Consumer, fetched, Machine, write_item, advance_tail, advance_head, Step,
  put_tests, put_writes, put_ends, get_tests, get_reads, get_ends, Reach, here, next, started,
}

-- What holds of a queue while the producer, or the consumer, is at a place in its call.
IsAhead : Producer → Spsc → Type 0
IsAhead Producer.outside q = Unit
IsAhead (Producer.tested x) q = next_tail q ≢ q.head
IsAhead (written x) q = (next_tail q ≢ q.head) × (get_or q.store q.tail 0 ≡ x)

IsBehind : Consumer → Spsc → Type 0
IsBehind Consumer.outside q = Unit
IsBehind Consumer.tested q = q.head ≢ q.tail
IsBehind (fetched x) q = (q.head ≢ q.tail) × (get_or q.store q.head 0 ≡ x)

record IsSafe (m : Machine) : Type 0 where
  valid : IsValid m.q
  passed : m.accepted ≡ m.delivered ++ contents m.q
  ahead : IsAhead m.producer m.q
  behind : IsBehind m.consumer m.q

-- Each side's accesses keep what the other side knows.
write_item-IsBehind : (c : Consumer) (q : Spsc) (x : ℕ) → IsBehind c q → IsBehind c (write_item q x)
unfolding write_item IsBehind
write_item-IsBehind Consumer.outside q x b = b
write_item-IsBehind Consumer.tested q x b = b
write_item-IsBehind (fetched y) q x (ne, e) =
    (ne, get_or-set_ne q.store q.tail q.head x 0 (λ p. ne (sym p)) ∙ e)

advance_tail-IsBehind :
    (c : Consumer) (q : Spsc) → next_tail q ≢ q.head → IsBehind c q → IsBehind c (advance_tail q)
unfolding advance_tail IsBehind
advance_tail-IsBehind Consumer.outside q room b = b
advance_tail-IsBehind Consumer.tested q room b = λ e. room (sym e)
advance_tail-IsBehind (fetched y) q room (ne, e) = (λ p. room (sym p), e)

advance_head-IsAhead :
    (p : Producer) (q : Spsc)
    → IsValid q
    → q.head ≢ q.tail
    → IsAhead p q
    → IsAhead p (advance_head q)
unfolding advance_head IsAhead next_tail
advance_head-IsAhead Producer.outside q v ne a = a
advance_head-IsAhead (Producer.tested x) q v ne a = next_tail-apart v ne
advance_head-IsAhead (written x) q v ne (room, e) = (next_tail-apart v ne, e)

write_item-IsAhead :
    {q : Spsc} (x : ℕ) → IsValid q → next_tail q ≢ q.head → IsAhead (written x) (write_item q x)
unfolding write_item IsAhead next_tail
write_item-IsAhead {q} x v room =
    (room, get_or-set_self q.store q.tail x 0 (omega (arith, v.tail_in, v.fits)))

started-IsSafe : {q : Spsc} → IsValid q → q.head ≡ q.tail → IsSafe (started q)
unfolding IsAhead IsBehind
started-IsSafe v empty = record {
  valid = v;
  passed = sym (contents_start v empty);
  ahead = tt;
  behind = tt;
}

Step-IsSafe : {m m' : Machine} → Step m m' → IsSafe m → IsSafe m'
unfolding IsAhead IsBehind
Step-IsSafe (put_tests m x out room) s = record {
  valid = s.valid;
  passed = s.passed;
  ahead = room;
  behind = s.behind;
}
Step-IsSafe (put_writes m x tests) s =
    let room = subst (λ p. IsAhead p m.q) tests s.ahead in
    record {
      valid = write_item-IsValid s.valid x;
      passed = s.passed ∙ ap (λ xs. m.delivered ++ xs) (sym (contents-write_item s.valid room x));
      ahead = write_item-IsAhead x s.valid room;
      behind = write_item-IsBehind m.consumer m.q x s.behind;
    }
Step-IsSafe (put_ends m x writes) s =
    let (room, stands) = subst (λ p. IsAhead p m.q) writes s.ahead in
    record {
      valid = advance_tail-IsValid s.valid;
      passed =
          ap (λ xs. xs ++ x ∷ []) s.passed
          ∙ append_assoc m.delivered (contents m.q) (x ∷ [])
          ∙ ap (λ xs. m.delivered ++ xs)
              (ap (λ y. contents m.q ++ y ∷ []) (sym stands)
                ∙ sym (contents-advance_tail s.valid room));
      ahead = tt;
      behind = advance_tail-IsBehind m.consumer m.q room s.behind;
    }
Step-IsSafe (get_tests m out ne) s = record {
  valid = s.valid;
  passed = s.passed;
  ahead = s.ahead;
  behind = ne;
}
Step-IsSafe (get_reads m tests) s = record {
  valid = s.valid;
  passed = s.passed;
  ahead = s.ahead;
  behind = (subst (λ c. IsBehind c m.q) tests s.behind, refl);
}
Step-IsSafe (get_ends m x fetches) s =
    let (ne, stands) = subst (λ c. IsBehind c m.q) fetches s.behind in
    record {
      valid = advance_head-IsValid s.valid;
      passed =
          s.passed
          ∙ ap (λ xs. m.delivered ++ xs)
              (contents-advance_head s.valid ne ∙ ap (λ y. y ∷ contents (advance_head m.q)) stands)
          ∙ sym (append_assoc m.delivered (x ∷ []) (contents (advance_head m.q)));
      ahead = advance_head-IsAhead m.producer m.q s.valid ne s.ahead;
      behind = tt;
    }

Reach-IsSafe : {s m : Machine} → IsSafe s → Reach s m → IsSafe m
Reach-IsSafe h here = h
Reach-IsSafe h (next r step) = Step-IsSafe step (Reach-IsSafe h r)

-- From a valid, empty queue, whatever accesses have been made in whatever order by one producer and one
-- consumer: the items delivered, and then those in the queue, are the items accepted, in their order;
-- the queue is valid and holds at most `mask` items.
pub interleaved_in_order :
    {q : Spsc} {m : Machine}
    → IsValid q
    → q.head ≡ q.tail
    → Reach (started q) m
    → (m.accepted ≡ m.delivered ++ contents m.q) × IsValid m.q × (length (contents m.q) ≤ m.q.mask)
interleaved_in_order {m = m} v empty r =
    let safe = Reach-IsSafe (started-IsSafe v empty) r in
    (
      safe.passed,
      safe.valid,
      omega (arith, length-contents m.q, gap-le safe.valid.head_in safe.valid.tail_in),
    )
