-- ===== src/Mu/Access.antt =====
-- mulib/mulib/laboratory/mu_access_mgr.c: one task at a time owns a resource, others wait for it. The
-- queue of those that wait, mu_pqueue.h, is not in the repository: its calls are an interface, with
-- what a queue of pointers promises as laws.
pub mod Owner
pub mod Cascade
mod Tests
use toy_tstat.Common.{
  ℕ, zero, suc, ◌≡◌, ◌⊎◌, Bool, true, false, not, List, [], ◌∷◌, ◌++◌, ◌==◌, if◌then◌else◌,
}
use toy_tstat.Mu.Links.Search.{member, remove}

-- `put` and `delete` answer whether they return a pointer other than NULL; `get` answers the pointer.
pub record Pqueue (P : Type 0) : Type 0 where
  pub get : P → ℕ × P
  pub put : P → ℕ → Bool × P
  pub contains : P → ℕ → Bool
  pub delete : P → ℕ → Bool × P

abbrev pub polled : List ℕ → ℕ × List ℕ
polled [] = (0, [])
polled (x ∷ xs) = (x, xs)

-- The items of a queue, oldest first, and what the calls do to them. A put may be refused.
pub record Laws {P : Type 0} (o : Pqueue P) (items : P → List ℕ) : Type 0 where
  pub get_oldest : (p : P) → let (x, p') = o.get p in (x, items p') ≡ polled (items p)
  pub put_behind :
      (p : P) (x : ℕ)
      → let (done, p') = o.put p x in items p' ≡ (if done then items p ++ x ∷ [] else items p)
  pub contains_member : (p : P) (x : ℕ) → o.contains p x ≡ member x (items p)
  pub delete_member :
      (p : P) (x : ℕ)
      → let (found, p') = o.delete p x in
        (found ≡ member x (items p)) × (items p' ≡ remove x (items p))

-- `mu_access_mgr_err_t`
pub data Err : Type 0 where
  err_none err_bad_param err_task_unavailable err_not_pending err_already_pending : Err
  err_already_owner : Err

-- `mu_access_mgr_t`; `pending` is what the pointer names.
pub record AccessMgr (P : Type 0) : Type 0 where
  pub owner : ℕ
  pub pending : P

pub init : {P : Type 0} → AccessMgr P → P → AccessMgr P
init m pending = record { owner = 0; pending = pending }

pub has_ownership : {P : Type 0} → AccessMgr P → ℕ → Bool
has_ownership m task = task == m.owner

-- `invoke` is what the function of a task does to the manager, which it may use again.
module _ {P : Type 0} (o : Pqueue P) (invoke : ℕ → AccessMgr P → AccessMgr P) where
  -- `mu_task_call`: NULL is ignored.
  pub task_call : ℕ → AccessMgr P → AccessMgr P
  task_call task m = if task == 0 then m else invoke task m

  -- The loop of `mu_access_mgr_reset`, for at most `fuel` rounds.
  pub reset_from : ℕ → AccessMgr P → AccessMgr P
  unfolding task_call
  reset_from zero m = m
  reset_from (suc fuel) m =
      let (task, pending) = o.get m.pending in
      let m' = record m { pending = pending } in
      let rest = reset_from fuel (task_call task m') in if task == 0 then m' else rest

  pub reset : ℕ → AccessMgr P → AccessMgr P
  unfolding reset_from
  reset fuel m = reset_from fuel (record m { owner = 0 })

  pub request_ownership : AccessMgr P → ℕ → Err × AccessMgr P
  unfolding task_call
  request_ownership m task =
      let (done, pending) = o.put m.pending task in
      let granted = task_call task (record m { owner = task }) in
      if m.owner == 0
      then (err_none, granted)
      else if m.owner == task
      then (err_already_owner, m)
      else if o.contains m.pending task
      then (err_already_pending, m)
      else if not done
      then (err_task_unavailable, record m { pending = pending })
      else (err_none, record m { pending = pending })

  pub release_ownership : AccessMgr P → ℕ → Err × AccessMgr P
  unfolding task_call
  release_ownership m task =
      let (next, waiting) = o.get m.pending in
      let (found, left) = o.delete m.pending task in
      let handed = task_call next (record m { owner = next; pending = waiting }) in
      if task == m.owner
      then (err_none, handed)
      else if not found
      then (err_not_pending, record m { pending = left })
      else (err_none, record m { pending = left })
