-- ===== src/Mu/Spsc/Refine.antt =====
-- A valid queue behaves as the bounded FIFO of the pointers between its indices.
use toy_tstat.Common.{
  ℕ, suc, ◌+◌, ◌-◌, ◌%◌, ◌≤◌, ◌<◌, ◌≡◌, ◌≢◌, refl, ap, ap₂, ◌∙◌, ◌⊎◌, inl, inr, Bool, true, false,
  Option, none, some, List, [], ◌∷◌, ◌++◌, leb, if◌then◌else◌, length, get_or, set, arith, dec_lt,
  ℕ_discrete, sym,
}
use native.Mathlib.Nat.{mod-eq_of_lt, mod_self, add-mod_right}
use toy_tstat.Mu.Ring.{slots, length-slots, slots-cons, slots-mod, slots-set}
use toy_tstat.Mu.Fifo.{Op, Reply, offer, poll, is_some, offer-full, offer-room}
use toy_tstat.Mu.Fifo
use toy_tstat.Mu.Spsc.{Err, err_none, err_empty, err_full, err_size, Spsc, put, get}
use toy_tstat.Mu.Spsc.Inv.{IsValid, bit_and-mod, put-IsValid, get-IsValid}

-- The number of steps from `head` round to `tail`.
unfoldable pub gap : ℕ → ℕ → ℕ → ℕ
gap mask head tail = if leb head tail then tail - head else tail + (mask + 1) - head

abbrev pub count : Spsc → ℕ
count q = gap q.mask q.head q.tail

abbrev pub contents : Spsc → List ℕ
contents q = slots q.store (q.mask + 1) q.head (count q)

pub length-contents : (q : Spsc) → length (contents q) ≡ count q
length-contents q = length-slots q.store (q.mask + 1) q.head (count q)

abbrev pub accepted : Err → Bool
accepted err_none = true
accepted err_empty = false
accepted err_full = false
accepted err_size = false

abbrev pub fetched : Err → ℕ → Option ℕ
fetched err_none x = some x
fetched err_empty x = none
fetched err_full x = none
fetched err_size x = none

-- An index moves on by one, or goes round to 0.
pub advance :
    (x mask : ℕ)
    → x ≤ mask
    → ((x < mask) × ((x + 1) % (mask + 1) ≡ x + 1)) ⊎ ((x ≡ mask) × ((x + 1) % (mask + 1) ≡ 0))
advance x mask h = elim (dec_lt x mask) [
  | yes p ↦ inl (p, mod-eq_of_lt (omega arith))
  | no p ↦
      let e : x ≡ mask = omega arith in
      inr (e, ap (λ k. (k + 1) % (mask + 1)) e ∙ mod_self (mask + 1))
]

module _ {mask head tail : ℕ} (h : head ≤ mask) (t : tail ≤ mask) where
  -- The producer's slot stands just behind the contents.
  pub tail-gap : (head + gap mask head tail) % (mask + 1) ≡ tail
  unfolding gap
  tail-gap = ground (arith, mod-eq_of_lt {n = tail} {m = mask + 1}, add-mod_right tail (mask + 1))

  gap-full : (tail + 1) % (mask + 1) ≡ head → gap mask head tail ≡ mask
  unfolding gap
  gap-full e = ground (arith, advance tail mask t)

  pub gap-put :
      (tail + 1) % (mask + 1) ≢ head
      → (gap mask head ((tail + 1) % (mask + 1)) ≡ suc (gap mask head tail))
        × (gap mask head tail < mask)
  unfolding gap
  gap-put e = ground (arith, advance tail mask t)

  pub gap-le : gap mask head tail ≤ mask
  unfolding gap
  gap-le = ground arith

  gap-empty : head ≡ tail → gap mask head tail ≡ 0
  unfolding gap
  gap-empty e = ground arith

  gap-get : head ≢ tail → gap mask head tail ≡ suc (gap mask ((head + 1) % (mask + 1)) tail)
  unfolding gap
  gap-get e = ground (arith, advance head mask h)

pub contents_start : {q : Spsc} → IsValid q → q.head ≡ q.tail → contents q ≡ []
contents_start {q} v e = ap (slots q.store (q.mask + 1) q.head) (gap-empty v.head_in v.tail_in e)

put-full :
    {q : Spsc} (x : ℕ) → IsValid q → (q.tail + 1) % (q.mask + 1) ≡ q.head → put q x ≡ (err_full, q)
unfolding put
put-full {q} x v e = ground (arith, bit_and-mod (q.tail + 1) v)

put-room :
    {q : Spsc} (x : ℕ)
    → IsValid q
    → (q.tail + 1) % (q.mask + 1) ≢ q.head
    → put q x
      ≡ (err_none, record q { store = set q.store q.tail x; tail = (q.tail + 1) % (q.mask + 1) })
unfolding put
put-room {q} x v e = ground (arith, bit_and-mod (q.tail + 1) v)

-- Writing the producer's slot adds the item to the contents.
contents-put :
    {q : Spsc} (x : ℕ)
    → IsValid q
    → (q.tail + 1) % (q.mask + 1) ≢ q.head
    → slots
        (set q.store q.tail x)
        (q.mask + 1)
        q.head
        (gap q.mask q.head ((q.tail + 1) % (q.mask + 1)))
      ≡ contents q ++ x ∷ []
contents-put {q} x v e = rw (gap-put v.head_in v.tail_in e).0 (
    ap (λ t. slots (set q.store t x) (q.mask + 1) q.head (suc (count q)))
      (sym (tail-gap v.head_in v.tail_in))
    ∙ slots-set q.store (q.mask + 1) x q.head (count q) (omega (arith, v.fits))
        (omega (arith, (gap-put v.head_in v.tail_in e).1)))

-- `mu_spsc_put` accepts an item exactly if fewer than `mask` are held, and then adds it behind them;
-- otherwise nothing changes.
pub put_refines :
    {q : Spsc} (x : ℕ)
    → IsValid q
    → let (e, q') = put q x in (accepted e, contents q') ≡ offer q.mask (contents q) x
put_refines {q} x v = elim (ℕ_discrete ((q.tail + 1) % (q.mask + 1)) q.head) [
  | yes e ↦
      rw (put-full x v e) (
        sym (offer-full q.mask (contents q) x (length-contents q ∙ gap-full v.head_in v.tail_in e)))
  | no ne ↦ rw (put-room x v ne) (
      ap (λ xs. (true, xs)) (contents-put x v ne)
      ∙ sym (
          offer-room q.mask (contents q) x
            (omega (arith, length-contents q, (gap-put v.head_in v.tail_in ne).1))))
]

get-empty : {q : Spsc} → q.head ≡ q.tail → get q ≡ (err_empty, 0, q)
unfolding get
get-empty {q} e = ground arith

get-some :
    {q : Spsc}
    → IsValid q
    → q.head ≢ q.tail
    → get q ≡ (err_none, get_or q.store q.head 0, record q { head = (q.head + 1) % (q.mask + 1) })
unfolding get
get-some {q} v e = ground (arith, bit_and-mod (q.head + 1) v)

pub contents-get :
    {q : Spsc}
    → IsValid q
    → q.head ≢ q.tail
    → contents q
      ≡ get_or q.store q.head 0 ∷ contents (record q { head = (q.head + 1) % (q.mask + 1) })
contents-get {q} v e =
    ap (slots q.store (q.mask + 1) q.head) (gap-get v.head_in v.tail_in e)
    ∙ slots-cons q.store (q.mask + 1) q.head rest
    ∙ ap₂ (λ (i : ℕ) (xs : List ℕ). get_or q.store i 0 ∷ xs)
        (mod-eq_of_lt {n = q.head} {m = q.mask + 1} (omega (arith, v.head_in)))
        (sym (slots-mod q.store (q.mask + 1) (q.head + 1) rest))
  where
    rest : ℕ
    rest = gap q.mask ((q.head + 1) % (q.mask + 1)) q.tail

-- `mu_spsc_get` hands out the oldest item and keeps the others; on an empty queue it stores NULL
-- and nothing changes.
pub get_refines :
    {q : Spsc}
    → IsValid q
    → let (e, out, q') = get q in (fetched e out, contents q') ≡ poll (contents q)
unfolding poll
get_refines {q} v = elim (ℕ_discrete q.head q.tail) [
  | yes e ↦ rw (get-empty {q = q} e) (rw (contents_start v e))
  | no ne ↦ rw (get-some v ne) (ap poll (sym (contents-get v ne)))
]

pub mask-put : (q : Spsc) (x : ℕ) → (put q x).1.mask ≡ q.mask
unfolding put
mask-put q x = ground arith

pub mask-get : (q : Spsc) → (get q).2.mask ≡ q.mask
unfolding get
mask-get q = ground arith

-- The calls of a client, in order, with what each answers.
unfoldable pub run : Spsc → List Op → List Reply
run q [] = []
run q (Op.put x ∷ ops) = let (e, q') = put q x in (accepted e, none) ∷ run q' ops
run q (Op.get ∷ ops) = let (e, out, q') = get q in (accepted e, fetched e out) ∷ run q' ops

is_some-fetched : (e : Err) (x : ℕ) → is_some (fetched e x) ≡ accepted e
is_some-fetched err_none x = refl
is_some-fetched err_empty x = refl
is_some-fetched err_full x = refl
is_some-fetched err_size x = refl

-- No sequence of calls tells a valid queue from the FIFO of its contents that holds `mask` items.
pub run_refines :
    (ops : List Op) {q : Spsc} → IsValid q → run q ops ≡ Fifo.run q.mask (contents q) ops
unfolding run Fifo.run
run_refines [] v = refl
run_refines (Op.put x ∷ ops) {q} v =
    rw (run_refines ops (put-IsValid x v), ← put_refines x v, mask-put q x)
run_refines (Op.get ∷ ops) {q} v =
    rw (run_refines ops (get-IsValid v), ← get_refines v, mask-get q, is_some-fetched)
