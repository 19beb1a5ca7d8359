-- ===== src/Queue/Outbox.antt =====
-- The outbox, and the write that is in flight.
use libsfp.Base.{
  ℕ, zero, suc, ◌+◌, ◌≤◌, List, [], ◌∷◌, ◌++◌, ◌≡◌, refl, sym, ap, ◌∙◌, subst, Bool, true, false,
  not, if◌then◌else◌, ◌==◌, length, length_zero, arith,
}
use libsfp.Errors.{ErrorCode, network_down, is_error, is_aborted}
use libsfp.Queue.{
  ReceiveQueue, ByteStream, SendHandler, user_send, continue_read_pump, handshake_flushed,
  keepalive_sent, keepalive_waited, SendData, MessageQueue,
}
use libsfp.Queue.Pumps.{
  complete, void_receives, read_pump, stop_read_pump, resume, call_handler, pop_and_call, void_loop,
  void_outbox, begin_write, write_pump,
}
use libsfp.Queue.Quiet.{
  Quiet, Quiet-refl, Quiet-trans, Quiet-if, wait_timer-Quiet, void_receives-Quiet, close-Quiet,
  resume-Quiet, handshake_error-Quiet, keepalive_error-Quiet, handshake_after_flush-Quiet,
}
use libsfp.Queue.Accounts.{Accounts, Quiet-Accounts, pop-Holding, call_handler-Accounts}

-- The front of the outbox, if there is one.
abbrev pub fronts : List SendData → List (List ℕ)
fronts [] = []
fronts (d ∷ ds) = d.buffer ∷ []

pub is_filled : (d : SendData) (ds : List SendData) → not (length (d ∷ ds) == 0) ≡ true
is_filled d ds = grind arith

module _ {H Q S : Type 0} where
  pub record Still (q r : MessageQueue H Q S) : Type 0 where
    pub same_outbox : r.outbox ≡ q.outbox
    pub same_writing : r.writing ≡ q.writing

  pub Quiet-Still : {q r : MessageQueue H Q S} → Quiet q r → Still q r
  Quiet-Still k = record { same_outbox = k.same_outbox; same_writing = k.same_writing }

  Still-if :
      (b : Bool) {q r s : MessageQueue H Q S} → Still q r → Still q s → Still q (if b then r else s)
  Still-if true k l = k
  Still-if false k l = l

  pub record IsSound (issued : List ℕ) (q : MessageQueue H Q S) : Type 0 where
    pub accounts : Accounts issued q
    pub in_flight : q.writing ≡ fronts q.outbox

  pub Quiet-IsSound :
      {issued : List ℕ} {q r : MessageQueue H Q S} → Quiet q r → IsSound issued q → IsSound issued r
  Quiet-IsSound k s = record {
    accounts = Quiet-Accounts k s.accounts;
    in_flight = k.same_writing ∙ s.in_flight ∙ ap fronts (sym k.same_outbox);
  }

  pub IsSound-if :
      {issued : List ℕ} (b : Bool) {q r : MessageQueue H Q S}
      → IsSound issued q
      → IsSound issued r
      → IsSound issued (if b then q else r)
  IsSound-if true k l = k
  IsSound-if false k l = l

module _ {H Q S : Type 0} ⦃rq : ReceiveQueue Q⦄ ⦃bs : ByteStream S⦄ where
  pub read_pump-Still : (q : MessageQueue H Q S) → Still q (read_pump q)
  unfolding read_pump
  read_pump-Still q = by_stream (bs.is_open q.stream)
    where
      voided : MessageQueue H Q S
      voided = void_receives network_down q

      by_stream :
          (b : Bool)
          → Still q (
              if b
              then record q { reading = q.reading + 1 }
              else record voided { read_pump_running = false; read_pump_error = network_down })
      by_stream true = record { same_outbox = refl; same_writing = refl }
      by_stream false =
          let k = void_receives-Quiet network_down q in
          record { same_outbox = k.same_outbox; same_writing = k.same_writing }

  pub stop_read_pump-Still :
      (ec : ErrorCode) (q : MessageQueue H Q S) → Still q (stop_read_pump ec q)
  unfolding stop_read_pump
  stop_read_pump-Still ec q =
      let k =
        Quiet-trans (void_receives-Quiet ec q)
          (Quiet-if (not (is_aborted ec)) (close-Quiet (void_receives ec q)) (Quiet-refl _)) in
      record { same_outbox = k.same_outbox; same_writing = k.same_writing }

  pub call_handler-Still :
      (handler : SendHandler) (ec : ErrorCode) (q : MessageQueue H Q S)
      → Still q (call_handler handler ec q)
  unfolding call_handler complete
  call_handler-Still (user_send h) ec q = record { same_outbox = refl; same_writing = refl }
  call_handler-Still continue_read_pump ec q =
      Still-if (not (is_error ec)) (read_pump-Still q) (stop_read_pump-Still ec q)
  call_handler-Still (handshake_flushed h n) ec q = Quiet-Still (
      Quiet-trans (resume-Quiet ec q) (
        Quiet-if (not (is_error (resume ec q).1)) (handshake_after_flush-Quiet h n _)
          (handshake_error-Quiet h _ _)))
  call_handler-Still (keepalive_sent h) ec q = Quiet-Still (
      Quiet-trans (resume-Quiet ec q) (
        Quiet-if (not (is_error (resume ec q).1)) (wait_timer-Quiet (keepalive_waited h) _)
          (keepalive_error-Quiet h _ _)))

  -- The front popped and called.
  pub pop_and_call-front :
      {issued : List ℕ} (ec : ErrorCode) (q : MessageQueue H Q S) (d : SendData)
      (ds : List SendData)
      → q.outbox ≡ d ∷ ds
      → Accounts issued q
      → let r = pop_and_call (d ∷ ds) ec q in
        Accounts issued r × (r.outbox ≡ ds) × (r.writing ≡ q.writing)
  unfolding pop_and_call
  pop_and_call-front ec q d ds e a =
      let still = call_handler-Still d.handler ec (record q { outbox = ds }) in
      (
        call_handler-Accounts d.handler ec _ (pop-Holding q d ds e a),
        still.same_outbox,
        still.same_writing,
      )

  void_loop-empty :
      {issued : List ℕ} (fuel : ℕ) (ec : ErrorCode) (q : MessageQueue H Q S)
      → length q.outbox ≤ fuel
      → Accounts issued q
      → let r = void_loop fuel ec q in Accounts issued r × (r.outbox ≡ []) × (r.writing ≡ q.writing)
  unfolding void_loop
  void_loop-empty zero ec q le a = (a, length_zero q.outbox le, refl)
  void_loop-empty {issued} (suc fuel) ec q le a =
      by_outbox q.outbox refl (λ r. void_loop-empty fuel ec r)
    where
      Emptied : MessageQueue H Q S → Type 0
      Emptied r = Accounts issued r × (r.outbox ≡ []) × (r.writing ≡ q.writing)

      by_outbox :
          (ds : List SendData)
          → q.outbox ≡ ds
          → ((r : MessageQueue H Q S)
              → length r.outbox ≤ fuel
              → Accounts issued r
              → Accounts issued (void_loop fuel ec r)
                × ((void_loop fuel ec r).outbox ≡ [])
                × ((void_loop fuel ec r).writing ≡ r.writing))
          → Emptied (if not (length ds == 0) then void_loop fuel ec (pop_and_call ds ec q) else q)
      by_outbox [] e ih = (a, e, refl)
      by_outbox (d ∷ ds) e ih =
          let popped = pop_and_call-front ec q d ds e a in
          let rest =
            ih (pop_and_call (d ∷ ds) ec q) (omega (arith, ap length popped.1, ap length e, le))
              popped.0 in
          subst (λ b. Emptied (if b then void_loop fuel ec (pop_and_call (d ∷ ds) ec q) else q))
            (sym (is_filled d ds)) (rest.0, rest.1, rest.2 ∙ popped.2)

  -- `voidOutbox` empties the outbox, and calls every handler in it.
  pub void_outbox-empty :
      {issued : List ℕ} (ec : ErrorCode) (q : MessageQueue H Q S)
      → Accounts issued q
      → let r = void_outbox ec q in Accounts issued r × (r.outbox ≡ []) × (r.writing ≡ q.writing)
  unfolding void_outbox
  void_outbox-empty ec q a = void_loop-empty (length q.outbox) ec q (omega arith) a

  pub void_outbox-IsSound :
      {issued : List ℕ} (ec : ErrorCode) (q : MessageQueue H Q S)
      → q.writing ≡ []
      → Accounts issued q
      → IsSound issued (void_outbox ec q)
  void_outbox-IsSound ec q idle a =
      let voided = void_outbox-empty ec q a in
      record { accounts = voided.0; in_flight = voided.2 ∙ idle ∙ ap fronts (sym voided.1) }

  pub write_pump-IsSound :
      {issued : List ℕ} (q : MessageQueue H Q S)
      → q.writing ≡ []
      → Accounts issued q
      → IsSound issued (write_pump q)
  unfolding write_pump begin_write
  write_pump-IsSound {issued} q idle a = by_outbox q.outbox refl
    where
      begun :
          (d : SendData) (ds : List SendData)
          → q.outbox ≡ d ∷ ds
          → IsSound issued (begin_write (d ∷ ds) q)
      begun d ds e = record {
        accounts = record { once = a.once; pump = a.pump };
        in_flight = ap (λ w. w ++ d.buffer ∷ []) idle ∙ ap fronts (sym e);
      }

      by_outbox :
          (ds : List SendData)
          → q.outbox ≡ ds
          → IsSound issued (
              if not (length ds == 0)
              then (if bs.is_open q.stream then begin_write ds q else void_outbox network_down q)
              else q)
      by_outbox [] e = record { accounts = a; in_flight = idle ∙ ap fronts (sym e) }
      by_outbox (d ∷ ds) e =
          subst
            (λ b. IsSound issued (
              if b
              then (if bs.is_open q.stream
                  then begin_write (d ∷ ds) q
                  else void_outbox network_down q)
              else q))
            (sym (is_filled d ds))
            (IsSound-if (bs.is_open q.stream) (begun d ds e)
              (void_outbox-IsSound network_down q idle a))
