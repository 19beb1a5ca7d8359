-- ===== src/Queue/Nested.antt =====
-- A handler of a send that sends: `handleWrite` calls it after the pop and before `writePump`.
use libsfp.Base.{
  ℕ, List, [], ◌∷◌, ◌++◌, ◌≡◌, refl, ap, ◌∙◌, true, false, not, if◌then◌else◌, length, arith, ◌==◌,
  append_assoc,
}
use libsfp.State.{Packet, RingBuffer}
use libsfp.Api
use libsfp.Errors.{ErrorCode, no_error, network_down, is_error}
use libsfp.Queue.{
  ReceiveQueue, ByteStream, SendHandler, user_send, SendData, sent, assertion_failed, MessageQueue,
}
use libsfp.Queue.Pumps.{
  complete, on_context, get_read_pump_error, call_handler, pop_and_call, void_outbox, begin_write,
  write_pump, flush_write_buffer, check_written, handle_written,
}
use libsfp.Queue.Operations.{assert_complete, async_send}
use libsfp.Queue.Quiet.{Quiet, on_context-Quiet}
use libsfp.Queue.Outbox.{is_filled}
use libsfp.Queue.Callbacks.{on_context-stream}
use libsfp.Queue.Receives.{IsReady, get_error-ready}

pub is_same : (n : ℕ) → (n == n) ≡ true
is_same n = grind arith

module _ {H Q S : Type 0} ⦃rq : ReceiveQueue Q⦄ ⦃bs : ByteStream S⦄ where
  write_pump-open :
      (q : MessageQueue H Q S) (d : SendData) (ds : List SendData)
      → q.outbox ≡ d ∷ ds
      → bs.is_open q.stream ≡ true
      → write_pump q ≡ record q { writing = q.writing ++ d.buffer ∷ [] }
  unfolding write_pump begin_write
  write_pump-open q d ds e is_open =
      ap
        (λ o.
          if not (length o == 0)
          then (if bs.is_open q.stream then begin_write o q else void_outbox network_down q)
          else q)
        e
      ∙ ap
          (λ b.
            if b
            then (if bs.is_open q.stream
                then begin_write (d ∷ ds) q
                else void_outbox network_down q)
            else q)
          (is_filled d ds)
      ∙ ap (λ b. if b then begin_write (d ∷ ds) q else void_outbox network_down q) is_open

  pub flush-open :
      (handler : SendHandler) (q : MessageQueue H Q S)
      → q.outbox ≡ []
      → (length q.write_buffer == 0) ≡ false
      → bs.is_open q.stream ≡ true
      → flush_write_buffer handler q ≡ record q {
        outbox = q.outbox ++ record { buffer = q.write_buffer; handler = handler } ∷ [];
        write_buffer = [];
        writing = q.writing ++ q.write_buffer ∷ [];
      }
  unfolding flush_write_buffer
  flush-open handler q e full is_open =
      ap
        (λ b.
          if b
          then call_handler handler no_error q
          else (if length pushed.outbox == 1 then write_pump pushed else pushed))
        full
      ∙ ap (λ o. if length (o ++ d ∷ []) == 1 then write_pump pushed else pushed) e
      ∙ write_pump-open pushed d [] (ap (λ o. o ++ d ∷ []) e) is_open
    where
      d : SendData
      d = record { buffer = q.write_buffer; handler = handler }

      pushed : MessageQueue H Q S
      pushed = record q { outbox = q.outbox ++ d ∷ []; write_buffer = [] }

module _ {H Q S : Type 0} ⦃rb : RingBuffer H⦄ ⦃rq : ReceiveQueue Q⦄ ⦃bs : ByteStream S⦄ where
  -- The queue once the context has written a packet.
  unfoldable pub after_packet : Packet → MessageQueue H Q S → MessageQueue H Q S
  unfolding on_context
  after_packet p q =
      on_context (λ c. (Api.write_packet p c).0) (record q { read_pump_error = no_error })

  pub async_send-ready :
      (p : Packet) (handler : SendHandler) (q : MessageQueue H Q S)
      → IsReady q
      → async_send p handler q ≡ flush_write_buffer handler (after_packet p q)
  unfolding async_send assert_complete is_error after_packet
  async_send-ready p handler q r =
      let go : MessageQueue H Q S × ErrorCode → MessageQueue H Q S = λ s.
        if is_error s.1
        then call_handler handler s.1 s.0
        else flush_write_buffer handler (on_context (λ c. (Api.write_packet p c).0) s.0) in
      ap (λ b. go (get_read_pump_error (if b then q else complete assertion_failed q))) r.completed
      ∙ ap go (get_error-ready q r)

  checked-same :
      (q : MessageQueue H Q S) (d : SendData)
      → q.outbox ≡ d ∷ []
      → check_written q.outbox (length d.buffer) q ≡ q
  unfolding check_written
  checked-same q d e =
      ap (λ o. check_written o (length d.buffer) q) e
      ∙ ap (λ b. if b then q else complete assertion_failed q) (is_same (length d.buffer))

  nested_send-pumps :
      (p : Packet) (k : ℕ) (r : MessageQueue H Q S)
      → IsReady r
      → r.outbox ≡ []
      → (length (after_packet p r).write_buffer == 0) ≡ false
      → (write_pump (async_send p (user_send k) r)).writing
        ≡ r.writing ++ (after_packet p r).write_buffer ∷ (after_packet p r).write_buffer ∷ []
  unfolding after_packet
  nested_send-pumps p k r ready empty full =
      ap (λ s. (write_pump s).writing) (async_send-ready p (user_send k) r ready ∙ flushed)
      ∙ ap (λ s. s.writing) (write_pump-open pushed d [] (ap (λ o. o ++ d ∷ []) outbox) is_open)
      ∙ append_assoc after.writing (after.write_buffer ∷ []) (after.write_buffer ∷ [])
      ∙ ap (λ t. t ++ after.write_buffer ∷ after.write_buffer ∷ []) quiet.same_writing
    where
      cleared : MessageQueue H Q S
      cleared = record r { read_pump_error = no_error }

      after : MessageQueue H Q S
      after = after_packet p r

      quiet : Quiet cleared after
      quiet = on_context-Quiet (λ c. (Api.write_packet p c).0) cleared

      outbox : after.outbox ≡ []
      outbox = quiet.same_outbox ∙ empty

      is_open : bs.is_open after.stream ≡ true
      is_open =
          ap bs.is_open (on_context-stream (λ c. (Api.write_packet p c).0) cleared)
          ∙ ready.open_stream

      d : SendData
      d = record { buffer = after.write_buffer; handler = user_send k }

      pushed : MessageQueue H Q S
      pushed = record after {
        outbox = after.outbox ++ d ∷ [];
        write_buffer = [];
        writing = after.writing ++ after.write_buffer ∷ [];
      }

      flushed : flush_write_buffer (user_send k) after ≡ pushed
      flushed = flush-open (user_send k) after outbox full is_open

  -- When the handshake is complete, the stream is open and the read pump has no error, if the only element
  -- of the outbox was written, and the user's handler of that send sends a packet for which the context
  -- writes at least an octet, then the queue begins two writes of that packet's octets at once: the one
  -- of the handler's `asyncSend` and that of `handleWrite`.
  pub nested_send_writes_twice :
      (p : Packet) (h k : ℕ) (q : MessageQueue H Q S) (d : SendData)
      → q.outbox ≡ d ∷ []
      → d.handler ≡ user_send h
      → q.writing ≡ []
      → IsReady q
      → let octets =
          (after_packet p (complete (sent h no_error) (record q { outbox = [] }))).write_buffer in
        (length octets == 0) ≡ false
        → (handle_written (async_send p (user_send k)) (length d.buffer) q).writing
          ≡ octets ∷ octets ∷ []
  unfolding handle_written pop_and_call call_handler complete
  nested_send_writes_twice p h k q d e user idle ready full =
      let popped = complete (sent h no_error) (record q { outbox = [] }) in
      ap (λ s. (write_pump (async_send p (user_send k) (pop_and_call s.outbox no_error s))).writing)
        (checked-same q d e)
      ∙ ap (λ o. (write_pump (async_send p (user_send k) (pop_and_call o no_error q))).writing) e
      ∙ ap
          (λ f.
            (write_pump (
              async_send p (user_send k)
                (call_handler f no_error (record q { outbox = [] })))).writing)
          user
      ∙ nested_send-pumps p k popped
          (record {
            completed = ready.completed;
            no_pump_error = ready.no_pump_error;
            open_stream = ready.open_stream;
          })
          refl full
      ∙ ap
          (λ t.
            t ++ (after_packet p popped).write_buffer ∷ (after_packet p popped).write_buffer ∷ [])
          idle
