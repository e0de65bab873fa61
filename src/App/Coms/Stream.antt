-- ===== src/App/Coms/Stream.antt =====
-- A message that comes from the driver in pieces, each with an event of its own.
use toy_tstat.Common.{
  ℕ, suc, ◌+◌, ◌-◌, ◌≤◌, ◌≡◌, ◌≢◌, refl, sym, ap, ◌∙◌, inl, Bool, true, false, ◌||◌, Option, List,
  [], ◌∷◌, ◌++◌, append_assoc, length, length-append, take, All, ◌==◌, ==_ne, ==_iff, arith,
}
use mathlib.Core.Path.{subst}
use toy_tstat.Common.Chars.{Bytes}
use toy_tstat.Mu.Task.{Code, get_state, sched_from_isr}
use toy_tstat.App.Coms.{System, read_threshold_reached, state_idle, state_await_rqst, run, rx_cb}
use toy_tstat.App.Coms.Receive.{IsRing, message, last_or}
use toy_tstat.App.Coms.Machine.{Handled, run_receives}
use toy_tstat.App.Coms.Pieces.{
  NoNul, joined, message-NoNul, message-last, last_or-NoNul, last_or-last, append_left,
}

module _ {D : Type 0} (usart_read : D → Option (ℕ × D)) (code : Code)
    (coms_task coms_fn info continuation : ℕ) where
  -- One run of the task, and the driver's interrupt for new bytes.
  abbrev pub run_once : ℕ → System D → System D
  run_once ch0 s = run usart_read code coms_task coms_fn info continuation ch0 s

  abbrev interrupt : System D → System D
  interrupt s = rx_cb usart_read code coms_task coms_fn info continuation s read_threshold_reached

  -- `arrive` puts bytes into the driver.
  module _ (arrive : Bytes → D → D) where
    abbrev arrived : Bytes → System D → System D
    arrived bytes s = record s { usart = arrive bytes s.usart }

    -- Bytes that came, the interrupt for them and a run of the task; `ch0` is what its local variable
    -- holds then.
    abbrev pub receive : ℕ → Bytes → System D → System D
    receive ch0 bytes s = run_once ch0 (interrupt (arrived bytes s))

    unfoldable pub play : List (ℕ × Bytes) → System D → System D
    play [] s = s
    play ((ch0, bytes) ∷ pieces) s = play pieces (receive ch0 bytes s)

    module _ {pending : D → Bytes} (ring : IsRing usart_read pending)
        (arrives : (bytes : Bytes) (d : D) → pending (arrive bytes d) ≡ pending d ++ bytes) where
      -- The task waits, the driver is empty, and there is room for `n` bytes.
      pub record Awaits (n : ℕ) (s : System D) : Type 0 where
        pub awaits : get_state s.world coms_task ≡ state_await_rqst
        pub empty : pending s.usart ≡ []
        pub room : s.self.bytes_received + n ≤ s.self.capacity
        pub fits : s.self.capacity ≤ length s.self.buf

      -- What the task is after it took `bytes`.
      abbrev Took : Bytes → Bool → System D → System D → Type 0
      Took bytes complete s s' =
          Handled usart_read code coms_task coms_fn info continuation pending bytes complete s s'

      abbrev complete : ℕ → Bytes → System D → Bool
      complete ch0 bytes s =
          last_or ch0 bytes == 0 || s.self.bytes_received + length bytes == s.self.capacity

      receive-Took :
          (n ch0 : ℕ) (bytes : Bytes) (s : System D)
          → Awaits n s
          → message (s.self.capacity - s.self.bytes_received) bytes ≡ bytes
          → Took bytes (complete ch0 bytes s) (arrived bytes s) (receive ch0 bytes s)
      unfolding rx_cb sched_from_isr get_state
      receive-Took n ch0 bytes s a whole =
          let s1 = interrupt (arrived bytes s) in
          let there : pending (arrive bytes s.usart) ≡ bytes =
            arrives bytes s.usart ∙ ap (λ xs. xs ++ bytes) a.empty in
          let taken = ap (message (s.self.capacity - s.self.bytes_received)) there ∙ whole in
          let v : Took bytes (complete ch0 bytes s) s1 (receive ch0 bytes s) =
            subst (λ g. Took g (complete ch0 g s) s1 (receive ch0 bytes s)) taken
              (run_receives usart_read code coms_task coms_fn info continuation ring ch0 s1 a.awaits
                (inl refl) (omega (arith, a.room)) a.fits) in
          record {
            stored = v.stored;
            count = v.count;
            same_length = v.same_length;
            same_capacity = v.same_capacity;
            left = v.left;
            state = v.state;
            error = v.error;
          }

      drained :
          (bytes : Bytes) (d d' : D)
          → pending d ≡ []
          → pending (arrive bytes d) ≡ bytes ++ pending d'
          → pending d' ≡ []
      drained bytes d d' e left =
          append_left bytes (pending d') (sym (arrives bytes d ∙ ap (λ xs. xs ++ bytes) e) ∙ left)

      -- A piece without a NUL that leaves room is taken, and the task waits for more.
      receive-piece :
          (n ch0 : ℕ) (bytes : Bytes) (s : System D)
          → Awaits (length bytes + suc n) s
          → bytes ≢ []
          → NoNul bytes
          → Took bytes false (arrived bytes s) (receive ch0 bytes s)
            × Awaits (suc n) (receive ch0 bytes s)
      receive-piece n ch0 bytes s a ne nn =
          let more : complete ch0 bytes s ≡ false =
            let other : (last_or ch0 bytes == 0) ≡ false =
              ==_ne _ 0 (last_or-NoNul ch0 bytes ne nn) in
            let free =
              ==_ne (s.self.bytes_received + length bytes) s.self.capacity
                (λ e. omega (arith, e, a.room)) in
            rw (other, free) refl in
          let v : Took bytes false (arrived bytes s) (receive ch0 bytes s) =
            subst (λ c. Took bytes c (arrived bytes s) (receive ch0 bytes s)) more
              (receive-Took _ ch0 bytes s a (message-NoNul _ bytes (omega (arith, a.room)) nn)) in
          (
            v,
            record {
              awaits = v.state;
              empty = drained bytes s.usart _ a.empty v.left;
              room = omega (arith, v.count, v.same_capacity, a.room);
              fits = omega (arith, v.same_capacity, v.same_length, a.fits);
            },
          )

      Awaits-less : (n m : ℕ) (s : System D) → Awaits n s → m ≤ n → Awaits m s
      Awaits-less n m s a le = record {
        awaits = a.awaits;
        empty = a.empty;
        room = omega (arith, a.room);
        fits = a.fits;
      }

      -- The reception of `text` behind what the buffer of `s` held has ended.
      pub record Received (text : Bytes) (s s' : System D) : Type 0 where
        pub stored :
            take s'.self.bytes_received s'.self.buf ≡ take s.self.bytes_received s.self.buf ++ text
        pub state : get_state s'.world coms_task ≡ state_idle
        pub no_error : s'.self.had_error ≡ false
        pub empty : pending s'.usart ≡ []

      receive-last :
          (ch0 : ℕ) (last : Bytes) (s : System D)
          → Awaits (suc (length last)) s
          → NoNul last
          → Received (last ++ 0 ∷ []) s (receive ch0 (last ++ 0 ∷ []) s)
      receive-last ch0 last s a nn =
          let text = last ++ 0 ∷ [] in
          let all : complete ch0 text s ≡ true =
            let nul = (==_iff (last_or ch0 text) 0).1 (last_or-last ch0 last) in rw nul refl in
          let v : Took text true (arrived text s) (receive ch0 text s) =
            subst (λ c. Took text c (arrived text s) (receive ch0 text s)) all
              (receive-Took _ ch0 text s a (message-last _ last (omega (arith, a.room)) nn)) in
          record {
            stored = v.stored;
            state = v.state;
            no_error = v.error;
            empty = drained text s.usart _ a.empty v.left;
          }

      pub play-Received :
          (pieces : List (ℕ × Bytes)) (ch0 : ℕ) (last : Bytes) (s : System D)
          → Awaits (length (joined pieces) + suc (length last)) s
          → All (λ p. (p.1 ≢ []) × NoNul p.1) pieces
          → NoNul last
          → Received
              (joined pieces ++ (last ++ 0 ∷ []))
              s
              (receive ch0 (last ++ 0 ∷ []) (play pieces s))
      unfolding play
      play-Received [] ch0 last s a ps nn =
          receive-last ch0 last s (Awaits-less _ _ s a (omega arith)) nn
      play-Received ((ch, bytes) ∷ pieces) ch0 last s a ((ne, n), ps) nn =
          let (v, a') =
            receive-piece (length (joined pieces) + length last) ch bytes s
              (Awaits-less _ _ s a (omega (arith, length-append bytes (joined pieces)))) ne n in
          let r =
            play-Received pieces ch0 last (receive ch bytes s) (Awaits-less _ _ _ a' (omega arith))
              ps nn in
          record {
            stored =
                r.stored
                ∙ ap (λ xs. xs ++ (joined pieces ++ (last ++ 0 ∷ []))) v.stored
                ∙ append_assoc (take s.self.bytes_received s.self.buf) bytes
                    (joined pieces ++ (last ++ 0 ∷ []))
                ∙ ap (λ xs. take s.self.bytes_received s.self.buf ++ xs)
                    (sym (append_assoc bytes (joined pieces) (last ++ 0 ∷ [])));
            state = r.state;
            no_error = r.no_error;
            empty = r.empty;
          }
