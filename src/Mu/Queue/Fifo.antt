-- ===== src/Mu/Queue/Fifo.antt =====
-- A queue of mu_queue.c behaves as a FIFO: items go in behind or in front, and come out in front.
use toy_tstat.Common.{ℕ, ◌≡◌, ◌≢◌, refl, sym, ap, ◌∙◌, true, List, [], ◌∷◌, ◌++◌, if◌then◌else◌}
use mathlib.Core.Path.{subst}
use toy_tstat.Mu.Links
use toy_tstat.Mu.Links.{Memory, write}
use toy_tstat.Mu.Links.Chain.{
  NotIn-snoc, NoDup-snoc, Chain, NotIn, NoDup, IsList, write_here, write_other, Chain-write,
}
use toy_tstat.Mu.Links.Laws.{push_eq, push_lem, pop_lem, pop_none}
use toy_tstat.Mu.Links.Laws.{is_empty-nil, is_empty-cons}
use toy_tstat.Mu.Links.Reverse.{IsList-frame}
use toy_tstat.Mu.Queue.{Queue, append, prepend, remove}

-- The last of `xs`, or `d`.
unfoldable pub last_from : ℕ → List ℕ → ℕ
last_from d [] = d
last_from d (x ∷ xs) = last_from x xs

-- The list from the head has the elements `xs`, and the tail points at the last one.
pub record IsQueue (h : Memory) (q : Queue) (xs : List ℕ) : Type 0 where
  pub items : IsList h q.head xs
  pub tail_field : q.tail ≢ 0
  pub tail_apart : NotIn q.tail (q.head ∷ xs)
  pub tail_last : h q.tail ≡ last_from 0 xs

pub last-snoc : (d : ℕ) (xs : List ℕ) (e : ℕ) → last_from d (xs ++ e ∷ []) ≡ e
unfolding last_from
last-snoc d [] e = refl
last-snoc d (x ∷ xs) e = last-snoc x xs e

-- What is in none of the places is not the last of them.
NotIn-last : (a p : ℕ) (xs : List ℕ) → NotIn a (p ∷ xs) → a ≢ last_from p xs
unfolding last_from
NotIn-last a p [] out = out.0
NotIn-last a p (x ∷ xs) out = NotIn-last a x xs out.1

Chain-end : (h : Memory) (p : ℕ) (xs : List ℕ) → Chain h p xs → h (last_from p xs) ≡ 0
unfolding last_from
Chain-end h p [] c = c
Chain-end h p (x ∷ xs) c = Chain-end h x xs c.2

some-last : (h : Memory) (p : ℕ) (xs : List ℕ) → p ≢ 0 → Chain h p xs → last_from p xs ≢ 0
unfolding last_from
some-last h p [] some_p c = some_p
some-last h p (x ∷ xs) some_p c = some-last h x xs c.1 c.2

-- A write behind the last element.
Chain-snoc :
    (h : Memory) (p : ℕ) (xs : List ℕ) (e : ℕ)
    → Chain h p xs
    → NotIn p xs
    → NoDup xs
    → NotIn e (p ∷ xs)
    → e ≢ 0
    → h e ≡ 0
    → Chain (write h (last_from p xs) e) p (xs ++ e ∷ [])
unfolding last_from
Chain-snoc h p [] e c apart d out some_e end =
    (write_here h p e, some_e, write_other h p e e out.0 ∙ end)
Chain-snoc h p (x ∷ xs) e c apart d out some_e end = (
  write_other h (last_from x xs) e p (NotIn-last p x xs apart) ∙ c.0,
  c.1,
  Chain-snoc h x xs e c.2 d.0 d.1 out.1 some_e end,
)

-- `mu_list_push` behind the last element.
push-last :
    (h : Memory) (p : ℕ) (xs : List ℕ) (e : ℕ)
    → IsList h p xs
    → e ≢ 0
    → NotIn e (p ∷ xs)
    → IsList (Links.push h (last_from p xs) e) p (xs ++ e ∷ [])
push-last h p xs e v some_e out =
    subst (λ g. IsList g p (xs ++ e ∷ []))
      (sym (push_eq h (last_from p xs) e (some-last h p xs v.header v.chain)))
      (record {
        header = v.header;
        chain =
            Chain-snoc h1 p xs e (Chain-write h p xs e (h (last_from p xs)) out.0 out.1 v.chain)
              v.apart v.distinct out some_e
              (write_here h e (h (last_from p xs)) ∙ Chain-end h p xs v.chain);
        apart = NotIn-snoc p xs e v.apart (λ q. out.0 (sym q));
        distinct = NoDup-snoc xs e v.distinct out.1;
      })
  where
    h1 : Memory
    h1 = write h e (h (last_from p xs))

-- The node that `mu_queue_append` puts the item behind.
append_eq :
    (h : Memory) (q : Queue) (xs : List ℕ) (e : ℕ)
    → IsQueue h q xs
    → e ≢ q.tail
    → append h q e ≡ write (Links.push (write h e 0) (last_from q.head xs) e) q.tail e
unfolding append last_from
append_eq h q [] e v ne =
    let none : Links.is_empty (write h e 0) q.tail ≡ true =
      is_empty-nil (write h e 0) q.tail
        (write_other h e 0 q.tail (λ r. ne (sym r)) ∙ v.tail_last) in
    rw none
append_eq h q (x ∷ xs) e v ne =
    let at : write h e 0 q.tail ≡ last_from x xs =
      write_other h e 0 q.tail (λ r. ne (sym r)) ∙ v.tail_last in
    rw
      (is_empty-cons (write h e 0) q.tail (last_from x xs) v.tail_field at
        (some-last h x xs v.items.chain.1 v.items.chain.2))
      (ap (λ l. write (Links.push (write h e 0) l e) q.tail e) at)

-- `mu_queue_append` puts an item that is in none of the places behind the others.
pub append_refines :
    (h : Memory) (q : Queue) (xs : List ℕ) (e : ℕ)
    → IsQueue h q xs
    → e ≢ 0
    → NotIn e (q.tail ∷ q.head ∷ xs)
    → IsQueue (append h q e) q (xs ++ e ∷ [])
append_refines h q xs e v some_e out =
    subst (λ g. IsQueue g q (xs ++ e ∷ [])) (sym (append_eq h q xs e v out.0))
      (record {
        items = record {
          header = v.items.header;
          chain = Chain-write h2 q.head (xs ++ e ∷ []) q.tail e apart.0 apart.1 pushed.chain;
          apart = pushed.apart;
          distinct = pushed.distinct;
        };
        tail_field = v.tail_field;
        tail_apart = apart;
        tail_last = write_here h2 q.tail e ∙ sym (last-snoc 0 xs e);
      })
  where
    h2 : Memory
    h2 = Links.push (write h e 0) (last_from q.head xs) e

    cleared : IsList (write h e 0) q.head xs
    cleared = IsList-frame e e v.items out.1 out.1 (λ a ne ne'. write_other h e 0 a ne)

    pushed : IsList h2 q.head (xs ++ e ∷ [])
    pushed = push-last (write h e 0) q.head xs e cleared some_e out.1

    apart : NotIn q.tail (q.head ∷ (xs ++ e ∷ []))
    apart = (v.tail_apart.0, NotIn-snoc q.tail xs e v.tail_apart.1 (λ r. out.0 (sym r)))

-- `mu_queue_prepend` puts it in front of them.
pub prepend_refines :
    (h : Memory) (q : Queue) (xs : List ℕ) (e : ℕ)
    → IsQueue h q xs
    → e ≢ 0
    → NotIn e (q.tail ∷ q.head ∷ xs)
    → IsQueue (prepend h q e) q (e ∷ xs)
unfolding prepend last_from
prepend_refines h q [] e v some_e out =
    let (pushed, frame) = push_lem h q.head e [] v.items some_e out.1.0 tt in
    let h1 = Links.push h q.head e in
    rw (is_empty-nil h1 q.tail (frame q.tail v.tail_apart.0 (λ r. out.0 (sym r)) ∙ v.tail_last))
      (record {
        items = record {
          header = v.items.header;
          chain =
              Chain-write h1 q.head (e ∷ []) q.tail e v.tail_apart.0 ((λ r. out.0 (sym r)), tt)
                pushed.chain;
          apart = pushed.apart;
          distinct = pushed.distinct;
        };
        tail_field = v.tail_field;
        tail_apart = (v.tail_apart.0, ((λ r. out.0 (sym r)), tt));
        tail_last = write_here h1 q.tail e;
      })
prepend_refines h q (x ∷ xs) e v some_e out =
    let (pushed, frame) = push_lem h q.head e (x ∷ xs) v.items some_e out.1.0 out.1.1 in
    let h1 = Links.push h q.head e in
    let at = frame q.tail v.tail_apart.0 (λ r. out.0 (sym r)) ∙ v.tail_last in
    rw
      (is_empty-cons h1 q.tail (last_from x xs) v.tail_field at
        (some-last h x xs v.items.chain.1 v.items.chain.2))
      (record {
        items = pushed;
        tail_field = v.tail_field;
        tail_apart = (v.tail_apart.0, ((λ r. out.0 (sym r)), v.tail_apart.1));
        tail_last = at;
      })

abbrev pub first_or : ℕ → List ℕ → ℕ
first_or d [] = d
first_or d (x ∷ xs) = x

abbrev pub rest_of : List ℕ → List ℕ
rest_of [] = []
rest_of (x ∷ xs) = xs

-- The last item has gone, and the tail field is cleared.
emptied :
    (h : Memory) (q : Queue)
    → IsList h q.head []
    → q.tail ≢ 0
    → NotIn q.tail (q.head ∷ [])
    → IsQueue (if Links.is_empty h q.head then write h q.tail 0 else h) q []
unfolding last_from
emptied h q v field apart = rw (is_empty-nil h q.head v.chain) (record {
  items = IsList-frame q.tail q.tail v apart apart (λ a ne ne'. write_other h q.tail 0 a ne);
  tail_field = field;
  tail_apart = apart;
  tail_last = write_here h q.tail 0;
})

-- `mu_queue_remove` takes the first item out and answers it, or NULL if there is none.
pub queue_remove_refines :
    (h : Memory) (q : Queue) (xs : List ℕ)
    → IsQueue h q xs
    → ((remove h q).0 ≡ first_or 0 xs) × IsQueue (remove h q).1 q (rest_of xs)
unfolding remove last_from
queue_remove_refines h q [] v =
    rw (pop_none h q.head v.items.chain) (refl, emptied h q v.items v.tail_field v.tail_apart)
queue_remove_refines h q (x ∷ []) v =
    let (popped, left, gone, frame) = pop_lem h q.head x [] v.items in
    (popped, emptied (Links.pop h q.head).1 q left v.tail_field (v.tail_apart.0, tt))
queue_remove_refines h q (x ∷ y ∷ ys) v =
    let (popped, left, gone, frame) = pop_lem h q.head x (y ∷ ys) v.items in
    rw (is_empty-cons (Links.pop h q.head).1 q.head y v.items.header left.chain.0 left.chain.1) (
      popped,
      record {
        items = left;
        tail_field = v.tail_field;
        tail_apart = (v.tail_apart.0, v.tail_apart.1.1);
        tail_last = frame q.tail v.tail_apart.0 v.tail_apart.1.0 ∙ v.tail_last;
      },
    )
