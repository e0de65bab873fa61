-- ===== src/Mu/Queue/Lost.antt =====
-- `mu_queue_delete` does not look at the tail field: what happens when the last item is deleted.
use toy_tstat.Common.{ℕ, ◌<◌, ◌≡◌, ◌≢◌, sym, ap, ◌∙◌, List, [], ◌∷◌, ◌++◌, length, ==_ne, ==_self}
use mathlib.Core.Path.{subst}
use toy_tstat.Mu.Links
use toy_tstat.Mu.Links.{Memory, write}
use toy_tstat.Mu.Links.Chain.{NotIn, NoDup, IsList, write_other}
use toy_tstat.Mu.Links.Laws.{push_eq}
use toy_tstat.Mu.Links.Search.{remove, delete_lem}
use toy_tstat.Mu.Links.Laws.{is_empty-cons}
use toy_tstat.Mu.Links.Reverse.{IsList-frame}
use toy_tstat.Mu.Queue.{Queue, append, delete}
use toy_tstat.Mu.Queue.Fifo.{IsQueue, last-snoc}

NotIn-end : (x e : ℕ) (xs : List ℕ) → NotIn x (xs ++ e ∷ []) → x ≢ e
NotIn-end x e [] out = out.0
NotIn-end x e (y ∷ ys) out = NotIn-end x e ys out.1

NotIn-start : (a e : ℕ) (xs : List ℕ) → NotIn a (xs ++ e ∷ []) → NotIn a xs
NotIn-start a e [] out = tt
NotIn-start a e (x ∷ xs) out = (out.0, NotIn-start a e xs out.1)

last_NotIn : (e : ℕ) (xs : List ℕ) → NoDup (xs ++ e ∷ []) → NotIn e xs
last_NotIn e [] d = tt
last_NotIn e (x ∷ xs) d = ((λ r. NotIn-end x e xs d.0 (sym r)), last_NotIn e xs d.1)

remove-snoc : (e : ℕ) (xs : List ℕ) → NoDup (xs ++ e ∷ []) → remove e (xs ++ e ∷ []) ≡ xs
unfolding remove
remove-snoc e [] d = rw (==_self e)
remove-snoc e (x ∷ xs) d =
    rw (==_ne x e (NotIn-end x e xs d.0)) (ap (λ t. x ∷ t) (remove-snoc e xs d.1))

-- `mu_queue_append` behind a tail that is no longer in the list changes no field of the list.
append_stale :
    (h : Memory) (q : Queue) (xs : List ℕ) (e f : ℕ)
    → IsList h q.head xs
    → q.tail ≢ 0
    → NotIn q.tail (q.head ∷ xs)
    → h q.tail ≡ e
    → e ≢ 0
    → NotIn e (q.head ∷ xs)
    → f ≢ q.tail
    → NotIn f (q.head ∷ xs)
    → IsList (append h q f) q.head xs
unfolding append
append_stale h q xs e f v field apart at some_e out_e ne out_f =
    let h1 = write h f 0 in
    let at1 : h1 q.tail ≡ e = write_other h f 0 q.tail (λ r. ne (sym r)) ∙ at in
    rw (is_empty-cons h1 q.tail e field at1 some_e, at1, push_eq h1 e f some_e)
      (IsList-frame q.tail q.tail
        (IsList-frame f e (IsList-frame f f v out_f out_f (λ a d d'. write_other h f 0 a d)) out_f
          out_e (λ a d d'. write_other (write h1 f (h1 e)) e f a d' ∙ write_other h1 f (h1 e) a d))
        apart apart (λ a d d'. write_other (write (write h1 f (h1 e)) e f) q.tail f a d))

-- After the last item is deleted, the next one that is appended is lost: the list is without it.
pub delete-append_lost :
    (fuel : ℕ) (h : Memory) (q : Queue) (xs : List ℕ) (e f : ℕ)
    → IsQueue h q (xs ++ e ∷ [])
    → length (xs ++ e ∷ []) < fuel
    → e ≢ 0
    → f ≢ q.tail
    → NotIn f (q.head ∷ xs)
    → IsList (append (delete fuel h q e).1 q f) q.head xs
unfolding delete
delete-append_lost fuel h q xs e f v enough some_e ne out =
    let (answer, left, frame) = delete_lem some_e fuel h q.head (xs ++ e ∷ []) v.items enough in
    let h1 = (Links.delete fuel h q.head e).1 in
    let left' : IsList h1 q.head xs =
      subst (IsList h1 q.head) (remove-snoc e xs v.items.distinct) left in
    append_stale h1 q xs e f left' v.tail_field
      (v.tail_apart.0, NotIn-start q.tail e xs v.tail_apart.1)
      (frame q.tail v.tail_apart ∙ v.tail_last ∙ last-snoc 0 xs e) some_e
      ((λ r. NotIn-end q.head e xs v.items.apart (sym r)), last_NotIn e xs v.items.distinct) ne out
