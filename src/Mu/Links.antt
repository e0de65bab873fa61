-- ===== src/Mu/Links.antt =====
-- mulib/mulib/laboratory/mu_list.c: singly linked lists in the memory. A `mu_list_t` is an address at
-- which the address of the next one stands; NULL is 0. A list is named by its header, which is not an
-- element of it.
pub mod Chain
pub mod Laws
pub mod Search
pub mod Reverse
mod Tests
use toy_tstat.Common.{ℕ, zero, suc, ◌+◌, Bool, true, false, not, if◌then◌else◌, ◌==◌}

-- The `next` field of the `mu_list_t` at each address.
abbrev pub Memory : Type 0
Memory = ℕ → ℕ

-- `p->next = v`
unfoldable pub write : Memory → ℕ → ℕ → Memory
write h p v a = if a == p then v else h a

unfoldable pub init : Memory → ℕ → Memory
init h p = write h p 0

unfoldable pub is_empty : Memory → ℕ → Bool
is_empty h p = if p == 0 then true else h p == 0

pub rest : Memory → ℕ → ℕ
rest h p = if p == 0 then 0 else h p

-- The loop of `mu_list_length`, for at most `fuel` rounds.
unfoldable pub length_from : ℕ → Memory → ℕ → ℕ → ℕ
length_from zero h p count = count
length_from (suc fuel) h p count =
    let more = length_from fuel h (h p) (count + 1) in
    if p == 0 then count else if h p == 0 then count else more

unfoldable pub push : Memory → ℕ → ℕ → Memory
push h p element = if p == 0 then h else write (write h element (h p)) p element

-- The number is the element, or NULL.
unfoldable pub pop : Memory → ℕ → ℕ × Memory
pop h p =
    let element = h p in
    if p == 0
    then (0, h)
    else if h p == 0
    then (0, h)
    else (element, write (write h p (h element)) element 0)

-- The loop of `mu_list_traverse`: `fn` may change the memory, and the walk goes on from there.
unfoldable pub traverse : (ℕ → Memory → ℕ × Memory) → ℕ → Memory → ℕ → ℕ × Memory
traverse fn zero h p = (0, h)
traverse fn (suc fuel) h p =
    let (result, h') = fn p h in
    let more = traverse fn fuel h' (h' p) in
    if p == 0 then (0, h) else if result == 0 then more else (result, h')

unfoldable pub find_aux : ℕ → ℕ → Memory → ℕ × Memory
find_aux arg p h = if h p == arg then (arg, h) else (0, h)

unfoldable pub delete_aux : ℕ → ℕ → Memory → ℕ × Memory
delete_aux arg p h = let popped = pop h p in if h p == arg then popped else (0, h)

unfoldable pub find : ℕ → Memory → ℕ → ℕ → ℕ × Memory
find fuel h p element = traverse (find_aux element) fuel h p

unfoldable pub contains : ℕ → Memory → ℕ → ℕ → Bool
contains fuel h p element = not ((find fuel h p element).0 == 0)

unfoldable pub delete : ℕ → Memory → ℕ → ℕ → ℕ × Memory
delete fuel h p element = traverse (delete_aux element) fuel h p

-- The loop of `mu_list_reverse`; `reversed` is the address of its local variable.
unfoldable pub reverse_from : ℕ → Memory → ℕ → ℕ → Memory
reverse_from zero h p reversed = h
reverse_from (suc fuel) h p reversed =
    let (element, h') = pop h p in
    let more = reverse_from fuel (push h' reversed element) p reversed in
    if is_empty h p then h else more

unfoldable pub reverse : ℕ → Memory → ℕ → ℕ → Memory
reverse fuel h p reversed =
    let h' = reverse_from fuel (init h reversed) p reversed in
    if p == 0 then h else write h' p (h' reversed)
