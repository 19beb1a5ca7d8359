-- ===== src/Queue/Writes.antt =====
-- The methods that push to the outbox and pop from it: `flushWriteBuffer` and `handleWrite`.
use libsfp.Base.{
  ℕ, List, [], ◌∷◌, ◌++◌, ◌≡◌, refl, sym, ap, ◌∙◌, subst, false, not, if◌then◌else◌, ◌==◌, length,
  length-append, arith,
}
use libsfp.Errors.{ErrorCode, no_error, is_error, is_aborted}
use libsfp.Queue.{
  ReceiveQueue, ByteStream, SendHandler, SendData, assertion_failed, undefined, MessageQueue,
}
use libsfp.Queue.Pumps.{
  call_handler, pop_and_call, write_pump, flush_write_buffer, check_written, handle_written,
  handle_write,
}
use libsfp.Queue.Quiet.{Quiet, Quiet-refl, Quiet-if, close-Quiet, complete-Quiet}
use libsfp.Queue.Accounts.{
  count-append, user_of, users-append, pumps-append, Accounts, Holding, Quiet-Accounts,
  call_handler-Accounts,
}
use libsfp.Queue.Outbox.{
  fronts, call_handler-Still, IsSound, Quiet-IsSound, IsSound-if, pop_and_call-front,
  void_outbox-IsSound, write_pump-IsSound,
}

is_longer : (d e : SendData) (ds : List SendData) → (length (d ∷ ds ++ e ∷ []) == 1) ≡ false
is_longer d e ds = grind (arith, length-append ds (e ∷ []))

module _ {H Q S : Type 0} ⦃rq : ReceiveQueue Q⦄ ⦃bs : ByteStream S⦄ where
  pushed-Accounts :
      {issued : List ℕ} (octets left : List ℕ) (handler : SendHandler) (q : MessageQueue H Q S)
      → Holding handler issued q
      → Accounts issued (record q {
        outbox = q.outbox ++ record { buffer = octets; handler = handler } ∷ [];
        write_buffer = left;
      })
  pushed-Accounts octets left handler q a =
      let d : SendData = record { buffer = octets; handler = handler } in
      record {
        once = λ h. omega (
          arith,
          a.once h,
          users-append h q.outbox (d ∷ []),
          count-append h (user_of handler) [],
        );
        pump = omega (arith, a.pump, pumps-append q.outbox (d ∷ []));
      }

  pub called-IsSound :
      {issued : List ℕ} (handler : SendHandler) (ec : ErrorCode) (q : MessageQueue H Q S)
      → Holding handler issued q
      → q.writing ≡ fronts q.outbox
      → IsSound issued (call_handler handler ec q)
  called-IsSound handler ec q a in_flight =
      let still = call_handler-Still handler ec q in
      record {
        accounts = call_handler-Accounts handler ec q a;
        in_flight = still.same_writing ∙ in_flight ∙ ap fronts (sym still.same_outbox);
      }

  -- A handler in hand is called at once, or waits for a write.
  pub flush-IsSound :
      {issued : List ℕ} (handler : SendHandler) (q : MessageQueue H Q S)
      → Holding handler issued q
      → q.writing ≡ fronts q.outbox
      → IsSound issued (flush_write_buffer handler q)
  unfolding flush_write_buffer
  flush-IsSound {issued} handler q a in_flight =
      IsSound-if (length q.write_buffer == 0) (called-IsSound handler no_error q a in_flight)
        (by_outbox q.outbox refl)
    where
      d : SendData
      d = record { buffer = q.write_buffer; handler = handler }

      pushed : MessageQueue H Q S
      pushed = record q { outbox = q.outbox ++ d ∷ []; write_buffer = [] }

      with_it : Accounts issued pushed
      with_it = pushed-Accounts q.write_buffer [] handler q a

      by_outbox :
          (ds : List SendData)
          → q.outbox ≡ ds
          → IsSound issued (if length (ds ++ d ∷ []) == 1 then write_pump pushed else pushed)
      by_outbox [] e = write_pump-IsSound pushed (in_flight ∙ ap fronts e) with_it
      by_outbox (f ∷ ds) e =
          subst (λ b. IsSound issued (if b then write_pump pushed else pushed))
            (sym (is_longer f d ds))
            (record {
              accounts = with_it;
              in_flight = in_flight ∙ ap fronts e ∙ ap (λ o. fronts (o ++ d ∷ [])) (sym e);
            })

  pub check_written-Quiet :
      (ds : List SendData) (n : ℕ) (q : MessageQueue H Q S) → Quiet q (check_written ds n q)
  unfolding check_written
  check_written-Quiet [] n q = complete-Quiet undefined q refl
  check_written-Quiet (d ∷ ds) n q =
      Quiet-if (length d.buffer == n) (Quiet-refl q) (complete-Quiet assertion_failed q refl)

  handle_written-IsSound :
      {issued : List ℕ} (n : ℕ) (q : MessageQueue H Q S) (d : SendData) (ds : List SendData)
      → q.outbox ≡ d ∷ ds
      → q.writing ≡ []
      → Accounts issued q
      → IsSound issued (handle_written (λ x. x) n q)
  unfolding handle_written
  handle_written-IsSound {issued} n q d ds e idle a =
      write_pump-IsSound (pop_and_call checked.outbox no_error checked)
        (ap (λ o. (pop_and_call o no_error checked).writing) front
          ∙ popped.2
          ∙ k.same_writing
          ∙ idle)
        (subst (λ o. Accounts issued (pop_and_call o no_error checked)) (sym front) popped.0)
    where
      checked : MessageQueue H Q S
      checked = check_written q.outbox n q

      k : Quiet q checked
      k = check_written-Quiet q.outbox n q

      front : checked.outbox ≡ d ∷ ds
      front = k.same_outbox ∙ e

      popped :
          Accounts issued (pop_and_call (d ∷ ds) no_error checked)
          × ((pop_and_call (d ∷ ds) no_error checked).outbox ≡ ds)
          × ((pop_and_call (d ∷ ds) no_error checked).writing ≡ checked.writing)
      popped = pop_and_call-front no_error checked d ds front (Quiet-Accounts k a)

  -- The write in flight is over, with or without an error.
  pub handle_write-IsSound :
      {issued : List ℕ} (ec : ErrorCode) (n : ℕ) (q : MessageQueue H Q S) (d : SendData)
      (ds : List SendData)
      → q.outbox ≡ d ∷ ds
      → q.writing ≡ []
      → Accounts issued q
      → IsSound issued (handle_write ec n q)
  unfolding handle_write
  handle_write-IsSound ec n q d ds e idle a =
      let voided = void_outbox-IsSound ec q idle a in
      IsSound-if (not (is_error ec)) (handle_written-IsSound n q d ds e idle a)
        (IsSound-if (not (is_aborted ec)) (Quiet-IsSound (close-Quiet _) voided) voided)
