-- ===== src/Tstat/Dump/Buffer.antt =====
-- The dump stays in the caller's buffer: what does not fit is cut off, and a NUL ends the text.
use toy_tstat.Common.{
  ℕ, zero, suc, ◌+◌, ◌-◌, ◌^◌, ◌≤◌, ◌<◌, ◌≡◌, refl, sym, ap, ap₂, ◌∙◌, inl, inr, false, [], ◌∷◌,
  ◌++◌, append_assoc, append-nil, length, length-set, take, take-set_last, drop, drop-get_or, set,
  get_or, get_or-set_self, get_or-set_ne, min, ltb, ltb→lt, arith, Bool-cases,
}
use toy_tstat.Common.Ints.{sub_size}
use toy_tstat.Common.Chars.{Bytes}
use toy_tstat.Jems.{Jems, Level, Doubles}
use toy_tstat.Jems.Feed.{feed}
use toy_tstat.Tstat.Model.{Model}
use toy_tstat.Tstat.Dump.{WriterState, jems_writer, dump_json}
use toy_tstat.Tstat.Dump.Text.{IntsExact, IsStored, dump_text, dump_fields_arg}

take-set_after : (xs : Bytes) (n i v : ℕ) → n ≤ i → take n (set xs i v) ≡ take n xs
take-set_after xs zero i v h = refl
take-set_after [] (suc n) i v h = refl
take-set_after (x ∷ xs) (suc n) zero v h = absurd (omega arith)
take-set_after (x ∷ xs) (suc n) (suc i) v h =
    ap (λ t. x ∷ t) (take-set_after xs n i v (omega arith))

-- What the writer has done to its state when it has been handed `text`.
record Wrote (text : Bytes) (w w' : WriterState) : Type 0 where
  same_len : length w'.buf ≡ length w.buf
  at_end : w'.written ≡ min w.buflen (w.written + length text)
  content : take w'.written w'.buf ≡ take w.written w.buf ++ take (w.buflen - w.written) text
  outside : (j : ℕ) → w.buflen ≤ j → get_or w'.buf j 0 ≡ get_or w.buf j 0

take-nil : (n : ℕ) → take {A = ℕ} n [] ≡ []
take-nil zero = refl
take-nil (suc n) = refl

take-pos : (n c : ℕ) (cs : Bytes) → 0 < n → take n (c ∷ cs) ≡ c ∷ take (n - 1) cs
take-pos zero c cs h = absurd (omega arith)
take-pos (suc n) c cs h = ap (λ k. c ∷ take k cs) (omega arith)

-- The state after one more character.
next : ℕ → WriterState → WriterState
next c w = record w { buf = set w.buf w.written c; written = w.written + 1 }

module _ (c : ℕ) (cs : Bytes) (w : WriterState) (fits : w.buflen ≤ length w.buf) where
  Wrote-room :
      {w' : WriterState} → w.written < w.buflen → Wrote cs (next c w) w' → Wrote (c ∷ cs) w w'
  unfolding next
  Wrote-room {w'} h r = record {
    same_len = r.same_len ∙ length-set w.buf w.written c;
    at_end = omega (arith, r.at_end);
    content =
        r.content
        ∙ ap₂ ◌++◌ one_more left
        ∙ append_assoc (take w.written w.buf) (c ∷ []) (take (w.buflen - w.written - 1) cs)
        ∙ ap (λ t. take w.written w.buf ++ t)
            (sym (take-pos (w.buflen - w.written) c cs (omega arith)));
    outside = λ j p. r.outside j p ∙ get_or-set_ne w.buf w.written j c 0 (λ e. omega arith);
  }
    where
      one_more : take (w.written + 1) (set w.buf w.written c) ≡ take w.written w.buf ++ c ∷ []
      one_more =
          ap (λ n. take n (set w.buf w.written c)) {y = suc w.written} (omega arith)
          ∙ take-set_last w.buf w.written c (omega arith)

      left : take (w.buflen - (w.written + 1)) cs ≡ take (w.buflen - w.written - 1) cs
      left = ap (λ n. take n cs) (omega arith)

Wrote-full : (text : Bytes) (w : WriterState) → w.written ≡ w.buflen → Wrote text w w
Wrote-full text w e = record {
  same_len = refl;
  at_end = omega arith;
  content = sym (ap (λ n. take w.written w.buf ++ take n text) none_left ∙ append-nil _);
  outside = λ j p. refl;
}
  where
    none_left : w.buflen - w.written ≡ 0
    none_left = omega arith

-- A full buffer takes nothing more.
feed-full : (text : Bytes) (w : WriterState) → w.written ≡ w.buflen → feed jems_writer text w ≡ w
unfolding feed jems_writer
feed-full [] w e = refl
feed-full (c ∷ cs) w e =
    let full : ltb w.written w.buflen ≡ false = ground arith in rw full (feed-full cs w e)

Wrote-nil : (w : WriterState) → w.written ≤ w.buflen → Wrote [] w w
Wrote-nil w h = record {
  same_len = refl;
  at_end = omega arith;
  content =
      sym (ap (λ t. take w.written w.buf ++ t) (take-nil (w.buflen - w.written)) ∙ append-nil _);
  outside = λ j p. refl;
}

feed-Wrote :
    (text : Bytes) (w : WriterState)
    → w.written ≤ w.buflen
    → w.buflen ≤ length w.buf
    → Wrote text w (feed jems_writer text w)
unfolding feed jems_writer next
feed-Wrote [] w h fits = Wrote-nil w h
feed-Wrote (c ∷ cs) w h fits = elim (Bool-cases (ltb w.written w.buflen)) [
  | inl room ↦ rw room (
      Wrote-room c cs w fits (ltb→lt _ _ room) (
        feed-Wrote cs (next c w) (omega (arith, ltb→lt _ _ room))
          (omega (arith, length-set w.buf w.written c))))
  | inr full ↦
      let e : w.written ≡ w.buflen = ground arith in
      rw (full, feed-full cs w e) (Wrote-full (c ∷ cs) w e)
]

-- In a buffer of `buflen` bytes, not 0, the dump leaves the first `buflen - 1` bytes of the model's
-- JSON, or all of it if it is shorter, and a NUL behind; the buffer from `buflen` on is as before.
pub dump_json_fits :
    (d : Doubles) (l0 l1 l2 : Level) (jems : Jems WriterState) (m : Model) (buf : Bytes)
    (buflen : ℕ)
    → IntsExact d
    → IsStored m
    → 0 < buflen
    → buflen ≤ length buf
    → buflen < 2 ^ 64
    → let out = dump_json d (l0 ∷ l1 ∷ l2 ∷ []) jems m buf buflen in
      let len = min (buflen - 1) (length (dump_text m)) in
      (take len out ≡ take (buflen - 1) (dump_text m))
      × (get_or out len 1 ≡ 0)
      × (length out ≡ length buf)
      × (drop buflen out ≡ drop buflen buf)
unfolding dump_json
dump_json_fits d l0 l1 l2 jems m buf buflen exact v pos fits small =
    rw (plain, dump_fields_arg jems_writer d exact l0 l1 l2 jems m start v)
      (
        cut ∙ r.content ∙ ap (λ n. take n (dump_text m)) whole,
        nul,
        length-set _ _ 0 ∙ r.same_len,
        drop-get_or buflen (set done.buf done.written 0) buf 0
            (length-set done.buf done.written 0 ∙ r.same_len)
            (λ j p.
              get_or-set_ne done.buf done.written j 0 0 (λ e. omega (arith, r.at_end))
              ∙ r.outside j (omega arith)),
      )
  where
    plain : sub_size buflen 1 ≡ buflen - 1
    plain = omega arith

    start : WriterState
    start = record { buf = buf; buflen = buflen - 1; written = 0 }

    done : WriterState
    done = feed jems_writer (dump_text m) start

    r : Wrote (dump_text m) start done
    r = feed-Wrote (dump_text m) start (omega arith) (omega arith)

    whole : buflen - 1 - 0 ≡ buflen - 1
    whole = omega arith

    at : done.written ≡ min (buflen - 1) (length (dump_text m))
    at = omega (arith, r.at_end)

    cut :
        take (min (buflen - 1) (length (dump_text m))) (set done.buf done.written 0)
        ≡ take done.written done.buf
    cut = rw (← at) (take-set_after done.buf done.written done.written 0 (omega arith))

    nul : get_or (set done.buf done.written 0) (min (buflen - 1) (length (dump_text m))) 1 ≡ 0
    nul =
        rw (← at) (get_or-set_self done.buf done.written 0 1 (omega (arith, r.at_end, r.same_len)))
