-- ===== src/Mu/Mqueue.antt =====
-- mulib/mulib/core/mu_mqueue.c: a queue of pointers in a caller's store, that may call a task when
-- an item goes in and another when one comes out. A pointer is a number, NULL is 0. `size_t` has 64
-- bits, and its arithmetic wraps.
pub mod Inv
pub mod Refine
mod Tests
use toy_tstat.Common.Ints.{add_size, sub_size}
use toy_tstat.Common.{
  ℕ, ◌+◌, ◌-◌, ◌%◌, ◌^◌, Bool, true, false, not, List, leb, ◌==◌, if◌then◌else◌, get_or, set,
}

-- `mu_mqueue_t`; `storage` is the array that the field points at, `on_put` and `on_get` are tasks.
pub record Mqueue : Type 0 where
  pub storage : List ℕ
  pub capacity : ℕ
  pub count : ℕ
  pub index : ℕ
  pub on_put : ℕ
  pub on_get : ℕ

pub reset : Mqueue → Mqueue
reset q = record q { count = 0; index = 0 }

pub init : Mqueue → List ℕ → ℕ → ℕ → ℕ → Mqueue
unfolding reset
init q storage capacity on_put on_get =
    reset (record q { storage = storage; capacity = capacity; on_put = on_put; on_get = on_get })

pub capacity : Mqueue → ℕ
capacity q = q.capacity

pub count : Mqueue → ℕ
count q = q.count

pub is_empty : Mqueue → Bool
is_empty q = q.count == 0

pub is_full : Mqueue → Bool
is_full q = q.count == q.capacity

-- The item that the next `get` hands out stands here.
pub oldest : Mqueue → ℕ
oldest q =
    let idx = sub_size (add_size q.capacity q.index) q.count in
    if leb q.capacity idx then idx - q.capacity else idx

-- The writes of `mu_mqueue_put`, up to the call of `on_put`. A write outside the storage would
-- change nothing; `IsValid` rules it out.
pub stored : Mqueue → ℕ → Mqueue
stored q element = record q {
  storage = set q.storage q.index element;
  index = add_size q.index 1 % q.capacity;
  count = add_size q.count 1;
}

-- The write of a fetch, up to the call of `on_get`; it runs only where `count` is not 0.
pub removed : Mqueue → Mqueue
removed q = record q { count = q.count - 1 }

-- What `mu_task_call` of a task that is not NULL does to the queue, by its function: the function
-- may use the queue again.
module _ (invoke : ℕ → Mqueue → Mqueue) where
  -- `mu_task_call`: NULL is ignored.
  pub notify : ℕ → Mqueue → Mqueue
  notify task q = if task == 0 then q else invoke task q

  pub put : Mqueue → ℕ → Bool × Mqueue
  unfolding is_full
  put q element = if not (is_full q) then (true, notify q.on_put (stored q element)) else (false, q)

  -- The number is what is stored through `element`.
  pub access_queue : Mqueue → Bool → Bool × ℕ × Mqueue
  unfolding is_empty
  access_queue q fetch =
      if not (is_empty q)
      then (true, get_or q.storage (oldest q) 0, if fetch then notify q.on_get (removed q) else q)
      else (false, 0, q)

  pub get : Mqueue → Bool × ℕ × Mqueue
  unfolding access_queue
  get q = access_queue q true

  pub peek : Mqueue → Bool × ℕ × Mqueue
  unfolding access_queue
  peek q = access_queue q false
