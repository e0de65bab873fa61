-- ===== src/App/Coms/Receive.antt =====
-- What the loop of coms_mgr.c takes from the driver, and where it puts it.
use toy_tstat.Common.{
  ℕ, zero, suc, ◌+◌, ◌≤◌, ◌<◌, ◌≡◌, refl, sym, ap, ◌∙◌, inl, inr, true, Option, none, some, [], ◌∷◌,
  ◌++◌, append_assoc, append-nil, length, length-set, take, take-set_last, set, ltb, ◌==◌,
  if◌then◌else◌, Bool-cases, Option-cases, lt→ltb, arith,
}
use toy_tstat.Common.Chars.{Bytes}
use toy_tstat.App.Coms.{ComsMgr, read_loop}

-- The bytes of a message: up to the first NUL, which belongs to it, and at most `room`.
unfoldable pub message : ℕ → Bytes → Bytes
message zero xs = []
message (suc room) [] = []
message (suc room) (c ∷ cs) = let rest = message room cs in c ∷ (if c == 0 then [] else rest)

unfoldable pub last_or : ℕ → Bytes → ℕ
last_or d [] = d
last_or d (c ∷ cs) = last_or c cs

-- The driver hands out the bytes that wait in its ring, in order.
pub record IsRing {D : Type 0} (usart_read : D → Option (ℕ × D)) (pending : D → Bytes)
    : Type 0 where
  pub empty : (d : D) → usart_read d ≡ none → pending d ≡ []
  pub next : (d : D) (c : ℕ) (d' : D) → usart_read d ≡ some (c, d') → pending d ≡ c ∷ pending d'

module _ {D : Type 0} {usart_read : D → Option (ℕ × D)} {pending : D → Bytes}
    (ring : IsRing usart_read pending) where
  -- What the loop has done after taking the bytes `got`.
  pub record Received (got : Bytes) (ch : ℕ) (self : ComsMgr) (d : D) (r : ℕ × ComsMgr × D)
      : Type 0 where
    pub last : r.0 ≡ last_or ch got
    pub count : r.1.bytes_received ≡ self.bytes_received + length got
    pub stored : take r.1.bytes_received r.1.buf ≡ take self.bytes_received self.buf ++ got
    pub same_length : length r.1.buf ≡ length self.buf
    pub same_capacity : r.1.capacity ≡ self.capacity
    pub same_completion : r.1.on_completion ≡ self.on_completion
    pub same_error : r.1.had_error ≡ self.had_error
    pub left : pending d ≡ got ++ pending r.2

  nothing : (ch : ℕ) (self : ComsMgr) (d : D) → Received [] ch self d (ch, self, d)
  unfolding last_or
  nothing ch self d = record {
    last = refl;
    count = omega arith;
    stored = sym (append-nil _);
    same_length = refl;
    same_capacity = refl;
    same_completion = refl;
    same_error = refl;
    left = refl;
  }

  abbrev stored_byte : ComsMgr → ℕ → ComsMgr
  stored_byte self byte = record self {
    buf = set self.buf self.bytes_received byte;
    bytes_received = self.bytes_received + 1;
  }

  one_more :
      (got : Bytes) (ch byte : ℕ) (self : ComsMgr) (d d' : D) (r : ℕ × ComsMgr × D)
      → self.bytes_received < length self.buf
      → usart_read d ≡ some (byte, d')
      → Received got byte (stored_byte self byte) d' r
      → Received (byte ∷ got) ch self d r
  unfolding last_or
  one_more got ch byte self d d' r fits read v = record {
    last = v.last;
    count = omega (arith, v.count);
    stored =
        v.stored
        ∙ ap (λ xs. xs ++ got)
            (ap (λ n. take n (set self.buf self.bytes_received byte)) up
              ∙ take-set_last self.buf self.bytes_received byte fits)
        ∙ append_assoc (take self.bytes_received self.buf) (byte ∷ []) got;
    same_length = v.same_length ∙ length-set self.buf self.bytes_received byte;
    same_capacity = v.same_capacity;
    same_completion = v.same_completion;
    same_error = v.same_error;
    left = ring.next d byte d' read ∙ ap (λ xs. byte ∷ xs) v.left;
  }
    where
      up : self.bytes_received + 1 ≡ suc self.bytes_received
      up = omega arith

  -- The loop takes one message, or what there is of it, or what fits, and stores it behind the bytes
  -- that were received before.
  pub read_loop_lem :
      (room ch : ℕ) (self : ComsMgr) (d : D)
      → self.bytes_received + room ≡ self.capacity
      → self.capacity ≤ length self.buf
      → Received (message room (pending d)) ch self d (read_loop usart_read room ch self d)
  unfolding message read_loop
  read_loop_lem zero ch self d free fits = nothing ch self d
  read_loop_lem (suc room) ch self d free fits =
      let some_room : ltb self.bytes_received self.capacity ≡ true = lt→ltb _ _ (omega arith) in
      elim (Option-cases (usart_read d)) [
        | inl none_left ↦
            rw (ring.empty d none_left)
              (rw (some_room, read_loop) (rw (none_left, read_loop) (nothing ch self d)))
        | inr ((byte, d'), read) ↦ rw (ring.next d byte d' read) (
            rw (some_room, read_loop)
              (rw (read, read_loop)
                (elim (Bool-cases (byte == 0)) [
                  | inl nul ↦ rw nul (
                      one_more [] ch byte self d d' _ (omega arith) read
                        (nothing byte (stored_byte self byte) d'))
                  | inr other ↦ rw other (
                      one_more (message room (pending d')) ch byte self d d' _ (omega arith) read (
                        read_loop_lem room byte (stored_byte self byte) d' (omega arith)
                          (omega (arith, length-set self.buf self.bytes_received byte))))
                ])))
      ]
