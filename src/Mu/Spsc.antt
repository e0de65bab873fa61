-- ===== src/Mu/Spsc.antt =====
-- mulib/mulib/core/mu_spsc.c: a queue of pointers from an interrupt (the producer) to the foreground
-- (the consumer), over a store whose size is a power of two. A pointer is a number, NULL is 0.
-- Indices are uint16_t; `head + 1` is computed as an `int`, so nothing wraps before the mask.
pub mod Inv
pub mod Refine
pub mod Interleaved
pub mod Observed
mod Tests
use Prim.Native.Nat.{bit_and}
use toy_tstat.Common.{ℕ, ◌+◌, ◌-◌, Bool, not, ◌||◌, List, ltb, ◌==◌, if◌then◌else◌, get_or, set}

-- `mu_spsc_err_t`
pub data Err : Type 0 where
  err_none err_empty err_full err_size : Err

-- `mu_spsc_t`; `store` is the array that the field points at.
pub record Spsc : Type 0 where
  pub mask : ℕ
  pub head : ℕ
  pub tail : ℕ
  pub store : List ℕ

-- The macro IS_POWER_OF_TWO.
pub is_power_of_two : ℕ → Bool
is_power_of_two n = bit_and n (n - 1) == 0

pub reset : Spsc → Err × Spsc
reset q = (err_none, record q { head = 0; tail = 0 })

pub init : Spsc → List ℕ → ℕ → Err × Spsc
unfolding reset is_power_of_two
init q store capacity =
    if ltb capacity 2 || not (is_power_of_two capacity)
    then (err_size, q)
    else reset (record q { mask = capacity - 1; store = store })

pub capacity : Spsc → ℕ
capacity q = q.mask

pub next_tail : Spsc → ℕ
next_tail q = bit_and (q.tail + 1) q.mask

-- A write out of the store's range would change nothing; `IsValid` rules it out.
pub put : Spsc → ℕ → Err × Spsc
unfolding next_tail
put q item =
    if next_tail q == q.head
    then (err_full, q)
    else (err_none, record q { store = set q.store q.tail item; tail = next_tail q })

-- The number is what is stored through `item`.
pub get : Spsc → Err × ℕ × Spsc
get q =
    if q.head == q.tail
    then (err_empty, 0, q)
    else (err_none, get_or q.store q.head 0, record q { head = bit_and (q.head + 1) q.mask })
