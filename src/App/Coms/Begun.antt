-- ===== src/App/Coms/Begun.antt =====
-- A reception, from coms_mgr_recv to its end.
use toy_tstat.Common.{
  ℕ, suc, ◌+◌, ◌≤◌, ◌≡◌, ◌≢◌, refl, sym, ap, ◌∙◌, false, Option, List, [], ◌∷◌, ◌++◌, length, take,
  All, arith,
}
use mathlib.Core.Path.{subst}
use toy_tstat.Common.Chars.{Bytes}
use toy_tstat.Mu.Task.{Code, get_state}
use toy_tstat.App.Coms.{System, state_idle, state_await_rqst, state_start_rqst, run, recv, wait}
use toy_tstat.Mu.Task.State.{wait-get_state, yield-get_state}
use toy_tstat.App.Coms.Receive.{IsRing}
use toy_tstat.App.Coms.Pieces.{NoNul, joined}
use toy_tstat.App.Coms.Stream.{run_once, receive, play, Awaits, play-Received}

module _ {D : Type 0} (usart_read : D → Option (ℕ × D)) (code : Code)
    (coms_task coms_fn info continuation : ℕ) (arrive : Bytes → D → D) where
  abbrev once : ℕ → System D → System D
  once = run_once usart_read code coms_task coms_fn info continuation

  abbrev deliver : ℕ → Bytes → System D → System D
  deliver = receive usart_read code coms_task coms_fn info continuation arrive

  abbrev deliver_all : List (ℕ × Bytes) → System D → System D
  deliver_all = play usart_read code coms_task coms_fn info continuation arrive

  -- `coms_mgr_recv` and the run of the task that it schedules.
  abbrev pub begun : ℕ → System D → Bytes → ℕ → ℕ → System D
  begun ch s buf capacity on_completion =
      once ch
        (recv usart_read code coms_task coms_fn info continuation s buf capacity on_completion)

  run-start :
      (ch : ℕ) (s : System D)
      → get_state s.world coms_task ≡ state_start_rqst
      → once ch s ≡ wait usart_read code coms_task coms_fn info continuation s
  unfolding run
  run-start ch s e = rw e refl

  begun-wait :
      (ch : ℕ) (s : System D) (buf : Bytes) (capacity on_completion : ℕ)
      → begun ch s buf capacity on_completion
        ≡ wait usart_read code coms_task coms_fn info continuation
            (recv usart_read code coms_task coms_fn info continuation s buf capacity on_completion)
  unfolding recv
  begun-wait ch s buf capacity on_completion =
      run-start ch _ (yield-get_state code s.world coms_task state_start_rqst)

  none_received :
      (s : System D) (buf : Bytes) (capacity on_completion : ℕ)
      → (wait usart_read code coms_task coms_fn info continuation (
          recv usart_read code coms_task coms_fn info continuation s buf capacity
            on_completion)).self.bytes_received
        ≡ 0
  unfolding recv wait
  none_received s buf capacity on_completion = refl

  module _ {pending : D → Bytes} (ring : IsRing usart_read pending)
      (arrives : (bytes : Bytes) (d : D) → pending (arrive bytes d) ≡ pending d ++ bytes) where
    wait-Awaits :
        (n : ℕ) (s : System D) (buf : Bytes) (capacity on_completion : ℕ)
        → pending s.usart ≡ []
        → n ≤ capacity
        → capacity ≤ length buf
        → Awaits usart_read code coms_task coms_fn info continuation arrive ring arrives n (
            wait usart_read code coms_task coms_fn info continuation (
              recv usart_read code coms_task coms_fn info continuation s buf capacity
                on_completion))
    unfolding recv wait
    wait-Awaits n s buf capacity on_completion e room fits = record {
      awaits = wait-get_state code _ coms_task state_await_rqst;
      empty = e;
      room = omega (arith, room);
      fits = fits;
    }

    -- After coms_mgr_recv with a buffer of the capacity, and the run that it schedules, where the driver
    -- is empty: a message with no NUL but the one at its end, that fits the buffer, is what the buffer
    -- begins with after the last of the pieces in which it came, however it was cut into pieces that
    -- are not empty, each with an interrupt and a run of the task; the reception has then ended without an
    -- error, and the driver is empty.
    pub recv-play-Received :
        (ch : ℕ) (s : System D) (buf : Bytes) (capacity on_completion : ℕ)
        → (pieces : List (ℕ × Bytes)) (ch0 : ℕ) (last : Bytes) → pending s.usart ≡ []
        → length (joined pieces) + suc (length last) ≤ capacity
        → capacity ≤ length buf
        → All (λ p. (p.1 ≢ []) × NoNul p.1) pieces
        → NoNul last
        → let s' =
            deliver ch0
              (last ++ 0 ∷ [])
              (deliver_all pieces (begun ch s buf capacity on_completion)) in
          (take s'.self.bytes_received s'.self.buf ≡ joined pieces ++ (last ++ 0 ∷ []))
          × (get_state s'.world coms_task ≡ state_idle)
          × (s'.self.had_error ≡ false)
          × (pending s'.usart ≡ [])
    recv-play-Received ch s buf capacity on_completion pieces ch0 last e room fits ps nn =
        let w =
          wait usart_read code coms_task coms_fn info continuation (
            recv usart_read code coms_task coms_fn info continuation s buf capacity
              on_completion) in
        let a = wait-Awaits _ s buf capacity on_completion e room fits in
        let r =
          play-Received usart_read code coms_task coms_fn info continuation arrive ring arrives
            pieces ch0 last w a ps nn in
        let start = ap (λ n. take n w.self.buf) (none_received s buf capacity on_completion) in
        let text = joined pieces ++ (last ++ 0 ∷ []) in
        subst
          (λ b.
            let s' = deliver ch0 (last ++ 0 ∷ []) (deliver_all pieces b) in
            (take s'.self.bytes_received s'.self.buf ≡ text)
            × (get_state s'.world coms_task ≡ state_idle)
            × (s'.self.had_error ≡ false)
            × (pending s'.usart ≡ []))
          (sym (begun-wait ch s buf capacity on_completion))
          (r.stored ∙ ap (λ xs. xs ++ text) start, r.state, r.no_error, r.empty)
