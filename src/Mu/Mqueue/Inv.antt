-- ===== src/Mu/Mqueue/Inv.antt =====
-- The representation invariant of `mu_mqueue_t`, for a queue whose tasks leave it alone while they
-- run (or that has none).
use toy_tstat.Common.{
  ℕ, ◌^◌, ◌≤◌, ◌<◌, ◌≡◌, ◌≢◌, inl, inr, List, length, length-set, arith, ◌==◌, ==_iff, ==_ne,
  Bool-cases, ℕ_discrete,
}
use toy_tstat.Common.Ints.{add_size}
use toy_tstat.Mu.Mqueue.{Mqueue, init, oldest, stored, removed, notify, put, get}
use native.Mathlib.Nat.{mod-lt}

pub record IsValid (q : Mqueue) : Type 0 where
  pub storage_fits : q.capacity ≤ length q.storage
  pub addressable : q.capacity ≤ 2 ^ 62
  pub some_room : 0 < q.capacity
  pub count_in : q.count ≤ q.capacity
  pub index_in : q.index < q.capacity

-- An `init` with a storage of `capacity` pointers makes a valid, empty queue.
pub init-IsValid :
    (q : Mqueue) (storage : List ℕ) (cap on_put on_get : ℕ)
    → cap ≤ length storage
    → 0 < cap
    → cap ≤ 2 ^ 62
    → IsValid (init q storage cap on_put on_get) × ((init q storage cap on_put on_get).count ≡ 0)
unfolding init
init-IsValid q storage cap on_put on_get h p s = omega arith

-- The read of `mu_mqueue_get` and `mu_mqueue_peek` stays in the storage.
pub oldest-lt : {q : Mqueue} → IsValid q → oldest q < q.capacity
unfolding oldest
oldest-lt v = ground arith

pub stored-IsValid : {q : Mqueue} (x : ℕ) → IsValid q → q.count ≢ q.capacity → IsValid (stored q x)
unfolding stored
stored-IsValid {q} x v ne =
    ground (arith, length-set q.storage q.index x, mod-lt (add_size q.index 1) {m = q.capacity})

pub removed-IsValid : {q : Mqueue} → IsValid q → IsValid (removed q)
unfolding removed
removed-IsValid v = omega arith

-- Tasks that keep queues valid.
abbrev pub Keeps : (ℕ → Mqueue → Mqueue) → Type 0
Keeps invoke = (task : ℕ) (q : Mqueue) → IsValid q → IsValid (invoke task q)

module _ (invoke : ℕ → Mqueue → Mqueue) (keeps : Keeps invoke) where
  notify-IsValid : (task : ℕ) (q : Mqueue) → IsValid q → IsValid (notify invoke task q)
  unfolding notify
  notify-IsValid task q v = elim (Bool-cases (task == 0)) [
    | inl e ↦ rw e v
    | inr e ↦ rw e (keeps task q v)
  ]

  pub put-IsValid : (q : Mqueue) (x : ℕ) → IsValid q → IsValid (put invoke q x).1
  unfolding put
  put-IsValid q x v = elim (ℕ_discrete q.count q.capacity) [
    | yes e ↦ rw ((==_iff q.count q.capacity).1 e) v
    | no ne ↦
        rw (==_ne q.count q.capacity ne)
          (notify-IsValid q.on_put (stored q x) (stored-IsValid x v ne))
  ]

  pub get-IsValid : (q : Mqueue) → IsValid q → IsValid (get invoke q).2
  unfolding get
  get-IsValid q v = elim (Bool-cases (q.count == 0)) [
    | inl e ↦ rw e v
    | inr e ↦ rw e (notify-IsValid q.on_get (removed q) (removed-IsValid v))
  ]
