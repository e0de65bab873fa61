-- ===== src/Mu/Spsc/Interleaved/Accesses.antt =====
-- What the single accesses of a put and a get do to a valid queue.
use toy_tstat.Common.{
  ℕ, ◌+◌, ◌%◌, ◌≡◌, ◌≢◌, refl, sym, ap, ◌∙◌, [], ◌∷◌, ◌++◌, length-set, get_or, set, ==_ne, arith,
}
use Prim.Native.Nat.{bit_and}
use toy_tstat.Mu.Ring.{slots, slots-set_after}
use toy_tstat.Mu.Spsc.{Spsc, next_tail, put, get, err_none}
use toy_tstat.Mu.Spsc.Inv.{IsValid, bit_and-mod, bit_and-le}
use toy_tstat.Mu.Spsc.Refine.{contents, count, tail-gap, gap-put, contents-get, advance}
use toy_tstat.Mu.Spsc.Interleaved.{write_item, advance_tail, advance_head}

-- The accesses of a call, one after the other, are the call.
pub put-accesses :
    (q : Spsc) (x : ℕ) → next_tail q ≢ q.head → put q x ≡ (err_none, advance_tail (write_item q x))
unfolding put next_tail advance_tail write_item
put-accesses q x ne = rw (==_ne _ _ ne) refl

pub get-accesses :
    (q : Spsc) → q.head ≢ q.tail → get q ≡ (err_none, get_or q.store q.head 0, advance_head q)
unfolding get advance_head
get-accesses q ne = rw (==_ne _ _ ne) refl

module _ {q : Spsc} (v : IsValid q) where
  pub next_tail-mod : next_tail q ≡ (q.tail + 1) % (q.mask + 1)
  unfolding next_tail
  next_tail-mod = bit_and-mod (q.tail + 1) v

  pub write_item-IsValid : (x : ℕ) → IsValid (write_item q x)
  unfolding write_item
  write_item-IsValid x = record {
    bits = v.bits;
    size = v.size;
    fits = omega (arith, length-set q.store q.tail x, v.fits);
    head_in = v.head_in;
    tail_in = v.tail_in;
  }

  pub advance_tail-IsValid : IsValid (advance_tail q)
  unfolding advance_tail next_tail
  advance_tail-IsValid = record {
    bits = v.bits;
    size = v.size;
    fits = v.fits;
    head_in = v.head_in;
    tail_in = bit_and-le (q.tail + 1) v;
  }

  pub advance_head-IsValid : IsValid (advance_head q)
  unfolding advance_head
  advance_head-IsValid = record {
    bits = v.bits;
    size = v.size;
    fits = v.fits;
    head_in = bit_and-le (q.head + 1) v;
    tail_in = v.tail_in;
  }

  module _ (room : next_tail q ≢ q.head) where
    room_mod : (q.tail + 1) % (q.mask + 1) ≢ q.head
    room_mod e = room (next_tail-mod ∙ e)

    -- The write to the producer's slot is not seen.
    pub contents-write_item : (x : ℕ) → contents (write_item q x) ≡ contents q
    unfolding write_item
    contents-write_item x =
        ap (λ t. slots (set q.store t x) (q.mask + 1) q.head (count q))
          (sym (tail-gap v.head_in v.tail_in))
        ∙ slots-set_after q.store (q.mask + 1) x q.head (count q) (count q) (omega arith)
            (omega (arith, (gap-put v.head_in v.tail_in room_mod).1))

    -- Moving the tail publishes what stands in the producer's slot.
    pub contents-advance_tail :
        contents (advance_tail q) ≡ contents q ++ get_or q.store q.tail 0 ∷ []
    unfolding advance_tail
    contents-advance_tail =
        rw (next_tail-mod, (gap-put v.head_in v.tail_in room_mod).0, tail-gap v.head_in v.tail_in)
          refl

  -- Moving the head drops what stands there.
  pub contents-advance_head :
      q.head ≢ q.tail → contents q ≡ get_or q.store q.head 0 ∷ contents (advance_head q)
  unfolding advance_head
  contents-advance_head ne =
      contents-get v ne
      ∙ ap (λ h. get_or q.store q.head 0 ∷ contents (record q { head = h }))
          (sym (bit_and-mod (q.head + 1) v))

  -- The indices differ still when both have moved on.
  pub next_tail-apart : q.head ≢ q.tail → next_tail q ≢ bit_and (q.head + 1) q.mask
  next_tail-apart ne e = ground (
    arith,
    next_tail-mod,
    bit_and-mod (q.head + 1) v,
    advance q.head q.mask v.head_in,
    advance q.tail q.mask v.tail_in,
  )
