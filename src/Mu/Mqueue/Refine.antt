-- ===== src/Mu/Mqueue/Refine.antt =====
-- A valid message queue behaves as the bounded FIFO of the `count` pointers before `index`.
use toy_tstat.Common.{
  ℕ, suc, ◌+◌, ◌-◌, ◌%◌, ◌<◌, ◌≡◌, ◌≢◌, refl, sym, ap, ap₂, ◌∙◌, ◌⊎◌, inl, inr, true, false, none,
  some, List, [], ◌∷◌, ◌++◌, length, get_or, set, arith, dec_lt, ℕ_discrete, ==_iff, ==_ne,
  if◌then◌else◌,
}
use native.Mathlib.Nat.{mod-eq_of_lt, mod_self, add-mod_right, mod-eq-sub-mod}
use toy_tstat.Mu.Ring.{slots, length-slots, slots-cons, slots-mod, slots-set}
use toy_tstat.Mu.Fifo.{offer, poll, offer-full, offer-room}
use toy_tstat.Common.Ints.{add_size}
use toy_tstat.Mu.Mqueue.{Mqueue, init, oldest, stored, removed, notify, put, get, peek}
use toy_tstat.Mu.Mqueue.Inv.{IsValid, stored-IsValid, removed-IsValid}

abbrev start : Mqueue → ℕ
start q = q.index + q.capacity - q.count

abbrev pub contents : Mqueue → List ℕ
contents q = slots q.storage q.capacity (start q) q.count

pub length-contents : (q : Mqueue) → length (contents q) ≡ q.count
length-contents q = length-slots q.storage q.capacity (start q) q.count

module _ {q : Mqueue} (v : IsValid q) where
  start-oldest : start q % q.capacity ≡ oldest q
  unfolding oldest
  start-oldest = ground (
    arith,
    mod-eq_of_lt {n = start q} {m = q.capacity},
    mod-eq-sub-mod {n = start q} {m = q.capacity},
    mod-eq_of_lt {n = start q - q.capacity} {m = q.capacity},
  )

  index_behind : (start q + q.count) % q.capacity ≡ q.index
  index_behind =
      ap (λ k. k % q.capacity) sum ∙ add-mod_right q.index q.capacity ∙ mod-eq_of_lt v.index_in
    where
      sum : start q + q.count ≡ q.index + q.capacity
      sum = omega (arith, v.count_in)

  index_next :
      ((q.index + 1 < q.capacity) × (add_size q.index 1 % q.capacity ≡ q.index + 1))
      ⊎ ((q.index + 1 ≡ q.capacity) × (add_size q.index 1 % q.capacity ≡ 0))
  index_next =
      let plain : add_size q.index 1 ≡ q.index + 1 = omega arith in
      elim (dec_lt (q.index + 1) q.capacity) [
        | yes p ↦ inl (p, rw plain (mod-eq_of_lt p))
        | no p ↦
            let last : q.index + 1 ≡ q.capacity = omega arith in
            inr (last, rw (plain, last) (mod_self q.capacity))
      ]

  count_next : q.count ≢ q.capacity → add_size q.count 1 ≡ suc q.count
  count_next ne = omega arith

  -- After a write the items start where they did.
  start-stored :
      (x : ℕ) → q.count ≢ q.capacity → start (stored q x) % q.capacity ≡ start q % q.capacity
  unfolding stored
  start-stored x ne = elim index_next [
    | inl (p, e) ↦
        let same : start (stored q x) ≡ start q = omega (arith, e, count_next ne) in
        ap (λ k. k % q.capacity) same
    | inr (p, e) ↦
        let behind : start q ≡ start (stored q x) + q.capacity = omega (arith, e, count_next ne) in
        sym (ap (λ k. k % q.capacity) behind ∙ add-mod_right (start (stored q x)) q.capacity)
  ]

  contents-stored : (x : ℕ) → q.count ≢ q.capacity → contents (stored q x) ≡ contents q ++ x ∷ []
  unfolding stored
  contents-stored x ne =
      sym (slots-mod _ q.capacity (start (stored q x)) (stored q x).count)
      ∙ ap₂ (λ (h n : ℕ). slots (stored q x).storage q.capacity h n) (start-stored x ne) grown
      ∙ slots-mod _ q.capacity (start q) (suc q.count)
      ∙ ap (λ i. slots (set q.storage i x) q.capacity (start q) (suc q.count)) (sym index_behind)
      ∙ slots-set q.storage q.capacity x (start q) q.count v.storage_fits (omega arith)
    where
      grown : (stored q x).count ≡ suc q.count
      grown = count_next ne

  contents-removed : q.count ≢ 0 → contents q ≡ get_or q.storage (oldest q) 0 ∷ contents (removed q)
  unfolding removed
  contents-removed ne =
      ap (slots q.storage q.capacity (start q)) fewer
      ∙ slots-cons q.storage q.capacity (start q) (q.count - 1)
      ∙ ap₂ (λ (i h : ℕ). get_or q.storage i 0 ∷ slots q.storage q.capacity h (q.count - 1))
          start-oldest later
    where
      fewer : q.count ≡ suc (q.count - 1)
      fewer = omega arith

      later : start q + 1 ≡ start (removed q)
      later = omega (arith, v.count_in)

  pub contents-empty : q.count ≡ 0 → contents q ≡ []
  contents-empty e = ap (slots q.storage q.capacity (start q)) e

  -- `mu_mqueue_peek` on a valid queue stores the oldest item, if there is one, and leaves the queue as it is.
  pub peek_lem :
      (invoke : ℕ → Mqueue → Mqueue)
      → let (done, out, q') = peek invoke q in
        (q' ≡ q) × ((if done then some out else none) ≡ (poll (contents q)).0)
  unfolding peek poll
  peek_lem invoke = elim (ℕ_discrete q.count 0) [
    | yes e ↦ rw ((==_iff q.count 0).1 e) (refl, rw (contents-empty e))
    | no ne ↦ rw (==_ne q.count 0 ne) (refl, rw (contents-removed ne))
  ]

  -- `mu_mqueue_put` with room left adds the item behind the others, and calls `on_put` only then, on
  -- the finished queue.
  pub put-room :
      (invoke : ℕ → Mqueue → Mqueue) (x : ℕ)
      → q.count ≢ q.capacity
      → (put invoke q x ≡ (true, notify invoke q.on_put (stored q x)))
        × (contents (stored q x) ≡ contents q ++ x ∷ [])
  unfolding put
  put-room invoke x ne = (rw (==_ne q.count q.capacity ne), contents-stored x ne)

  put-full :
      (invoke : ℕ → Mqueue → Mqueue) (x : ℕ) → q.count ≡ q.capacity → put invoke q x ≡ (false, q)
  unfolding put
  put-full invoke x e = rw ((==_iff q.count q.capacity).1 e)

  -- `mu_mqueue_get` on a queue that is not empty stores the oldest item, drops it, and then calls
  -- `on_get` on the queue of the others.
  pub get-some :
      (invoke : ℕ → Mqueue → Mqueue)
      → q.count ≢ 0
      → (get invoke q ≡ (true, get_or q.storage (oldest q) 0, notify invoke q.on_get (removed q)))
        × (contents q ≡ get_or q.storage (oldest q) 0 ∷ contents (removed q))
  unfolding get
  get-some invoke ne = (rw (==_ne q.count 0 ne), contents-removed ne)

  get-empty : (invoke : ℕ → Mqueue → Mqueue) → q.count ≡ 0 → get invoke q ≡ (false, 0, q)
  unfolding get
  get-empty invoke e = rw ((==_iff q.count 0).1 e)

-- A queue with no tasks to call, such as the scheduler's.
abbrev pub IsQuiet : Mqueue → Type 0
IsQuiet q = (q.on_put ≡ 0) × (q.on_get ≡ 0)

pub init-IsQuiet : (q : Mqueue) (storage : List ℕ) (cap : ℕ) → IsQuiet (init q storage cap 0 0)
unfolding init
init-IsQuiet q storage cap = (refl, refl)

module _ (invoke : ℕ → Mqueue → Mqueue) where
  notify_null : (task : ℕ) (q : Mqueue) → task ≡ 0 → notify invoke task q ≡ q
  unfolding notify
  notify_null task q e = rw ((==_iff task 0).1 e)

  -- `mu_mqueue_put` on a valid, quiet queue is the enqueue of the bounded FIFO of its contents; the
  -- queue stays valid, quiet and of its capacity.
  pub put_refines :
      {q : Mqueue} (x : ℕ)
      → IsValid q
      → IsQuiet q
      → let (done, q') = put invoke q x in
        ((done, contents q') ≡ offer q.capacity (contents q) x)
        × IsValid q'
        × IsQuiet q'
        × (q'.capacity ≡ q.capacity)
  put_refines {q} x v quiet = elim (ℕ_discrete q.count q.capacity) [
    | yes e ↦
        rw (put-full v invoke x e)
          (sym (offer-full q.capacity (contents q) x (length-contents q ∙ e)), v, quiet, refl)
    | no ne ↦
        let (step, after) = put-room v invoke x ne in
        rw (step ∙ ap (λ q'. (true, q')) (notify_null q.on_put (stored q x) quiet.0)) (
          ap (λ xs. (true, xs)) after
              ∙ sym (
                  offer-room q.capacity (contents q) x
                    (omega (arith, length-contents q, v.count_in))),
          stored-IsValid x v ne,
          unfold stored in quiet,
          unfold stored in refl,
        )
  ]

  -- `mu_mqueue_get` on a valid, quiet queue hands out and removes the oldest item, or answers false
  -- where there is none; the queue stays valid, quiet and of its capacity.
  pub get_refines :
      {q : Mqueue}
      → IsValid q
      → IsQuiet q
      → let (done, out, q') = get invoke q in
        ((if done then some out else none, contents q') ≡ poll (contents q))
        × IsValid q'
        × IsQuiet q'
        × (q'.capacity ≡ q.capacity)
  get_refines {q} v quiet = elim (ℕ_discrete q.count 0) [
    | yes e ↦
        rw (get-empty v invoke e) (rw (contents-empty v e) (unfold poll in refl), v, quiet, refl)
    | no ne ↦
        let (step, before) = get-some v invoke ne in
        rw
          (step
            ∙ ap (λ q'. (true, get_or q.storage (oldest q) 0, q'))
                (notify_null q.on_get (removed q) quiet.1))
          (
            sym (ap poll before ∙ unfold poll in refl),
            removed-IsValid v,
            unfold removed in quiet,
            unfold removed in refl,
          )
  ]
