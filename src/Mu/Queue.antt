-- ===== src/Mu/Queue.antt =====
-- mulib/mulib/laboratory/mu_queue.c: a queue as a list with a pointer to its last element. The fields
-- `head` and `tail` are `mu_list_t`s at two addresses.
pub mod Fifo
pub mod Lost
pub mod Drain
mod Tests
use toy_tstat.Common.{ℕ, zero, suc, Bool, true, false, if◌then◌else◌}
use toy_tstat.Mu.Links
use toy_tstat.Mu.Links.{Memory, write}

-- The addresses of the two fields of a `mu_queue_t`.
pub record Queue : Type 0 where
  pub head : ℕ
  pub tail : ℕ

unfoldable pub init : Memory → Queue → Memory
init h q = Links.init (Links.init h q.head) q.tail

pub list : Memory → Queue → ℕ
list h q = Links.rest h q.head

unfoldable pub append : Memory → Queue → ℕ → Memory
append h q item =
    let h1 = write h item 0 in
    let h2 =
      if Links.is_empty h1 q.tail
      then Links.push h1 q.head item
      else Links.push h1 (h1 q.tail) item in
    write h2 q.tail item

unfoldable pub prepend : Memory → Queue → ℕ → Memory
prepend h q item =
    let h1 = Links.push h q.head item in
    if Links.is_empty h1 q.tail then write h1 q.tail item else h1

-- The number is the item, or NULL.
unfoldable pub remove : Memory → Queue → ℕ × Memory
remove h q =
    let (item, h1) = Links.pop h q.head in
    (item, if Links.is_empty h1 q.head then write h1 q.tail 0 else h1)

unfoldable pub delete : ℕ → Memory → Queue → ℕ → ℕ × Memory
delete fuel h q item = Links.delete fuel h q.head item

pub is_empty : Memory → Queue → Bool
is_empty h q = Links.is_empty h q.head

-- The loop of `mu_queue_reset`, for at most `fuel` rounds.
unfoldable pub reset : ℕ → Memory → Queue → Memory
unfolding is_empty
reset zero h q = h
reset (suc fuel) h q = let rest = reset fuel (remove h q).1 q in if is_empty h q then h else rest

pub contains : ℕ → Memory → Queue → ℕ → Bool
contains fuel h q item = Links.contains fuel h q.head item

pub length : ℕ → Memory → Queue → ℕ
length fuel h q = Links.length_from fuel h q.head 0
