-- ===== src/Queue/Soundness.antt =====
-- What holds of a message queue after any steps, put together.
use libsfp.Base.{
  ℕ, suc, ◌+◌, List, [], ◌∷◌, ◌++◌, ◌≡◌, refl, sym, ap, ◌∙◌, Bool, true, false, not, if◌then◌else◌,
  length, arith, length_zero,
}
use libsfp.State.{RingBuffer, Packet}
use libsfp.Api
use libsfp.Errors.{ErrorCode, no_error, operation_aborted, is_error}
use libsfp.Queue.{
  ReceiveQueue, ByteStream, receive, SendHandler, user_send, continue_read_pump, handshake_flushed,
  keepalive_sent, WaitHandler, handshake_waited, handshake_settled, keepalive_waited, received,
  handshaken, MessageQueue, SendData,
}
use libsfp.Queue.Pumps.{
  on_context, void_receives, get_read_pump_error, read_pump, start_read_pump, stop_read_pump,
  resume, handle_write, deliver_asserted, deliver_read, handle_read,
}
use libsfp.Queue.Operations.{
  init_context, assert_complete, async_send, async_receive, handshake_attempt, async_handshake,
  async_keepalive, after_wait, wait_error, handle_wait,
}
use libsfp.Queue.Quiet.{
  sends_done, Quiet, Quiet-refl, Quiet-trans, Quiet-if, complete-Quiet, wait_timer-Quiet,
  assert_complete-Quiet, consume-Quiet, on_context-Quiet, void_receives-Quiet,
  keepalive_error-Quiet, get_error-Quiet, close-Quiet, resume-Quiet, handshake_error-Quiet,
}
use libsfp.Queue.Accounts.{
  count, count-append, user_of, pump_of, users, pumps, Accounts, Holding, Quiet-Holding, owed,
  read_pump-Accounts, stop_read_pump-Accounts,
}
use libsfp.Queue.Outbox.{
  fronts, IsSound, Quiet-IsSound, IsSound-if, read_pump-Still, stop_read_pump-Still, Still,
}
use libsfp.Queue.Writes.{called-IsSound, flush-IsSound, handle_write-IsSound}
use libsfp.Queue.Steps.{
  Step, sends, receives, handshakes, keeps_alive, closes, writes, write_fails, reads, read_fails,
  expires, cancels, IsFresh, Reach, fresh, step,
}

module _ {H Q S : Type 0} ⦃rb : RingBuffer H⦄ ⦃rq : ReceiveQueue Q⦄ ⦃bs : ByteStream S⦄ where
  fresh-IsSound : (q : MessageQueue H Q S) → IsFresh q → IsSound [] q
  fresh-IsSound q f = record {
    accounts = record {
      once = λ h. omega (
        arith,
        ap (λ c. count h (sends_done c)) f.no_completion,
        ap (λ o. count h (users o)) f.no_outbox,
      );
      pump = omega (arith, f.no_read, ap pumps f.no_outbox, ap owed f.not_running);
    };
    in_flight = f.no_write ∙ ap fronts (sym f.no_outbox);
  }

  -- A handler that is new and is not the read pump's.
  new-Holding :
      {issued : List ℕ} (handler : SendHandler) {q : MessageQueue H Q S}
      → pump_of handler ≡ 0
      → Accounts issued q
      → Holding handler (user_of handler ++ issued) q
  new-Holding {issued} handler no_pump a = record {
    once = λ h. omega (arith, a.once h, count-append h (user_of handler) issued);
    pump = omega (arith, a.pump, no_pump);
  }

  async_send-IsSound :
      {issued : List ℕ} (p : Packet) (handler : SendHandler) (q : MessageQueue H Q S)
      → pump_of handler ≡ 0
      → IsSound issued q
      → IsSound (user_of handler ++ issued) (async_send p handler q)
  unfolding async_send
  async_send-IsSound {issued} p handler q no_pump s =
      IsSound-if (is_error (get_read_pump_error (assert_complete q)).1)
        (called-IsSound handler _ checked (new-Holding handler no_pump t.accounts) t.in_flight)
        (flush-IsSound handler _ (new-Holding handler no_pump u.accounts) u.in_flight)
    where
      checked : MessageQueue H Q S
      checked = (get_read_pump_error (assert_complete q)).0

      t : IsSound issued checked
      t = Quiet-IsSound (Quiet-trans (assert_complete-Quiet q) (get_error-Quiet _)) s

      u : IsSound issued (on_context (λ c. (Api.write_packet p c).0) checked)
      u = Quiet-IsSound (on_context-Quiet _ checked) t

  handshake_attempt-IsSound :
      {issued : List ℕ} (h tries : ℕ) (q : MessageQueue H Q S)
      → IsSound issued q
      → IsSound issued (handshake_attempt h tries q)
  unfolding handshake_attempt
  handshake_attempt-IsSound h tries q s =
      let t = Quiet-IsSound (on_context-Quiet Api.connect q) s in
      IsSound-if _ (Quiet-IsSound (complete-Quiet _ q refl) s) (
        flush-IsSound _ _ (new-Holding (handshake_flushed h (tries + 1)) refl t.accounts)
          t.in_flight)

  start_read_pump-IsSound :
      {issued : List ℕ} (q : MessageQueue H Q S)
      → IsSound issued q
      → IsSound issued (start_read_pump q)
  unfolding start_read_pump
  start_read_pump-IsSound {issued} q s = by_running q.read_pump_running refl
    where
      starting : MessageQueue H Q S
      starting = record q { read_pump_running = true; read_pump_error = no_error }

      by_running :
          (b : Bool)
          → q.read_pump_running ≡ b
          → IsSound issued (if b then q else read_pump starting)
      by_running true e = s
      by_running false e =
          let still = read_pump-Still starting in
          record {
            accounts = read_pump-Accounts starting (record {
              once = λ h. omega (arith, s.accounts.once h);
              pump = omega (arith, s.accounts.pump, ap owed e);
            });
            in_flight = still.same_writing ∙ s.in_flight ∙ ap fronts (sym still.same_outbox);
          }

  async_handshake-IsSound :
      {issued : List ℕ} (w d this h : ℕ) (q : MessageQueue H Q S)
      → IsSound issued q
      → IsSound issued (async_handshake w d this h q)
  unfolding async_handshake
  async_handshake-IsSound {issued} w d this h q s =
      IsSound-if (not (is_error (resume no_error q).1))
        (handshake_attempt-IsSound h 0 _ (start_read_pump-IsSound _ cleared))
        (Quiet-IsSound (handshake_error-Quiet h _ resumed) t)
    where
      resumed : MessageQueue H Q S
      resumed = (resume no_error q).0

      t : IsSound issued resumed
      t = Quiet-IsSound (resume-Quiet no_error q) s

      incomplete : MessageQueue H Q S
      incomplete = record resumed { handshake_complete = false }

      v : IsSound issued (void_receives operation_aborted incomplete)
      v = Quiet-IsSound (void_receives-Quiet operation_aborted incomplete) (record {
        accounts = record { once = t.accounts.once; pump = t.accounts.pump };
        in_flight = t.in_flight;
      })

      voided : MessageQueue H Q S
      voided = record (void_receives operation_aborted incomplete) { write_buffer = [] }

      cleared : IsSound issued (on_context (init_context w d this) voided)
      cleared = Quiet-IsSound (on_context-Quiet (init_context w d this) voided) (record {
        accounts = record { once = v.accounts.once; pump = v.accounts.pump };
        in_flight = v.in_flight;
      })

  async_keepalive-IsSound :
      {issued : List ℕ} (h : ℕ) (q : MessageQueue H Q S)
      → IsSound issued q
      → IsSound issued (async_keepalive h q)
  unfolding async_keepalive
  async_keepalive-IsSound h q s =
      let resumed = (resume no_error (assert_complete q)).0 in
      Quiet-IsSound
        (Quiet-trans (Quiet-trans (assert_complete-Quiet q) (resume-Quiet no_error _)) (
          Quiet-if _ (wait_timer-Quiet (keepalive_waited h) resumed)
            (keepalive_error-Quiet h _ resumed)))
        s

  async_receive-IsSound :
      {issued : List ℕ} (size h : ℕ) (q : MessageQueue H Q S)
      → IsSound issued q
      → IsSound issued (async_receive size h q)
  unfolding async_receive
  async_receive-IsSound size h q s =
      let checked = (get_read_pump_error (assert_complete q)).0 in
      Quiet-IsSound
        (Quiet-trans (Quiet-trans (assert_complete-Quiet q) (get_error-Quiet _)) (
          Quiet-if _ (complete-Quiet (received h _ []) checked refl)
            (consume-Quiet (receive size h) checked)))
        s

  after_wait-IsSound :
      {issued : List ℕ} (handler : WaitHandler) (q : MessageQueue H Q S)
      → IsSound issued q
      → IsSound issued (after_wait handler q)
  unfolding after_wait
  after_wait-IsSound (handshake_waited h tries) q s =
      IsSound-if (Api.is_connected q.context)
        (Quiet-IsSound (wait_timer-Quiet (handshake_settled h tries) q) s)
        (handshake_attempt-IsSound h tries q s)
  after_wait-IsSound (handshake_settled h tries) q s =
      IsSound-if (Api.is_connected q.context)
        (Quiet-IsSound (complete-Quiet (handshaken h no_error) _ refl) (record {
          accounts = record { once = s.accounts.once; pump = s.accounts.pump };
          in_flight = s.in_flight;
        }))
        (handshake_attempt-IsSound h tries q s)
  after_wait-IsSound (keepalive_waited h) q s = async_send-IsSound [] (keepalive_sent h) q refl s

  wait_error-IsSound :
      {issued : List ℕ} (handler : WaitHandler) (ec : ErrorCode) (q : MessageQueue H Q S)
      → IsSound issued q
      → IsSound issued (wait_error handler ec q)
  unfolding wait_error
  wait_error-IsSound (handshake_waited h tries) ec q s =
      Quiet-IsSound (handshake_error-Quiet h ec q) s
  wait_error-IsSound (handshake_settled h tries) ec q s =
      Quiet-IsSound (handshake_error-Quiet h ec q) s
  wait_error-IsSound (keepalive_waited h) ec q s = Quiet-IsSound (keepalive_error-Quiet h ec q) s

  handle_wait-IsSound :
      {issued : List ℕ} (handler : WaitHandler) (ec : ErrorCode) (q : MessageQueue H Q S)
      → IsSound issued q
      → IsSound issued (handle_wait handler ec q)
  unfolding handle_wait
  handle_wait-IsSound handler ec q s =
      let t = Quiet-IsSound (resume-Quiet ec q) s in
      IsSound-if (not (is_error (resume ec q).1)) (after_wait-IsSound handler _ t)
        (wait_error-IsSound handler _ _ t)

  deliver_read-Quiet : (octets : List ℕ) (q : MessageQueue H Q S) → Quiet q (deliver_read octets q)
  unfolding deliver_read
  deliver_read-Quiet [] q = Quiet-refl q
  deliver_read-Quiet (octet ∷ octets) q =
      Quiet-trans (on_context-Quiet (deliver_asserted octet) q) (deliver_read-Quiet octets _)

  -- The read in flight is over, with or without an error: the read pump is in hand.
  handle_read-IsSound :
      {issued : List ℕ} (ec : ErrorCode) (octets : List ℕ) (others : ℕ) (q : MessageQueue H Q S)
      → q.reading ≡ suc others
      → IsSound issued q
      → IsSound issued (handle_read ec octets (record q { reading = others }))
  unfolding handle_read
  handle_read-IsSound {issued} ec octets others q e s =
      IsSound-if (not (is_error ec))
        (flush-IsSound continue_read_pump _ (Quiet-Holding k held)
          (k.same_writing ∙ s.in_flight ∙ ap fronts (sym k.same_outbox)))
        (record {
          accounts = stop_read_pump-Accounts ec read held;
          in_flight = still.same_writing ∙ s.in_flight ∙ ap fronts (sym still.same_outbox);
        })
    where
      read : MessageQueue H Q S
      read = record q { reading = others }

      held : Holding continue_read_pump issued read
      held = record {
        once = λ h. omega (arith, s.accounts.once h);
        pump = omega (arith, s.accounts.pump, e);
      }

      k : Quiet read (deliver_read octets read)
      k = deliver_read-Quiet octets read

      still : Still read (stop_read_pump ec read)
      still = stop_read_pump-Still ec read

  pub write-IsSound :
      {issued : List ℕ} (ec : ErrorCode) (n : ℕ) (octets : List ℕ) (others : List (List ℕ))
      (q : MessageQueue H Q S)
      → q.writing ≡ octets ∷ others
      → IsSound issued q
      → IsSound issued (handle_write ec n (record q { writing = others }))
  write-IsSound {issued} ec n octets others q e s = by_outbox q.outbox refl
    where
      by_outbox :
          (ds : List SendData)
          → q.outbox ≡ ds
          → IsSound issued (handle_write ec n (record q { writing = others }))
      by_outbox [] f = absurd (omega (arith, ap length (sym e ∙ s.in_flight ∙ ap fronts f)))
      by_outbox (d ∷ ds) f =
          handle_write-IsSound ec n (record q { writing = others }) d ds f
            (length_zero others (omega (arith, ap length (sym e ∙ s.in_flight ∙ ap fronts f))))
            (record { once = s.accounts.once; pump = s.accounts.pump })

  step-IsSound :
      {issued now : List ℕ} {q r : MessageQueue H Q S}
      → Step q now r
      → IsSound issued q
      → IsSound (now ++ issued) r
  step-IsSound (sends p h q) s = async_send-IsSound p (user_send h) q refl s
  step-IsSound (receives size h q) s = async_receive-IsSound size h q s
  step-IsSound (handshakes w d this h q) s = async_handshake-IsSound w d this h q s
  step-IsSound (keeps_alive h q) s = async_keepalive-IsSound h q s
  step-IsSound (closes q) s = Quiet-IsSound (close-Quiet q) s
  step-IsSound (writes octets others q e) s = write-IsSound no_error _ octets others q e s
  step-IsSound (write_fails ec n octets others q bad e) s = write-IsSound ec n octets others q e s
  step-IsSound (reads octets others q le e) s = handle_read-IsSound no_error octets others q e s
  step-IsSound (read_fails ec octets others q bad e) s = handle_read-IsSound ec octets others q e s
  step-IsSound (expires h others q e) s =
      handle_wait-IsSound h no_error (record q { timer_waits = others })
        (record {
          accounts = record { once = s.accounts.once; pump = s.accounts.pump };
          in_flight = s.in_flight;
        })
  step-IsSound (cancels h others q e) s =
      handle_wait-IsSound h operation_aborted (record q { cancelled_waits = others })
        (record {
          accounts = record { once = s.accounts.once; pump = s.accounts.pump };
          in_flight = s.in_flight;
        })

  pub Reach-IsSound : {issued : List ℕ} {q : MessageQueue H Q S} → Reach issued q → IsSound issued q
  Reach-IsSound (fresh q f) = fresh-IsSound q f
  Reach-IsSound (step reach s) = step-IsSound s (Reach-IsSound reach)
