-- ===== src/Queue/Operations.antt =====
-- The public methods of `MessageQueueImpl`, and the operations that the timer resumes:
-- `HandshakeOperation` and `KeepaliveOperation`. `makeOperation` runs an operation until it waits,
-- and calls its handler with its result when it ends; each constructor of a handler with the name
-- of an operation is one of its `yield`s.
use libsfp.Base.{ℕ, ◌+◌, [], true, false, some, not, ltb, if◌then◌else◌}
use libsfp.State.{Context, RingBuffer, Packet}
use libsfp.Api
use libsfp.Errors.{
  ErrorCode, no_error, operation_aborted, is_error, handshake_failed, make_error_code,
}
use libsfp.Queue.{
  max_handshake_attempts, ReceiveQueue, ByteStream, receive, SendHandler, handshake_flushed,
  keepalive_sent, WaitHandler, handshake_waited, handshake_settled, keepalive_waited, received,
  handshaken, assertion_failed, MessageQueue,
}
use libsfp.Queue.Pumps.{
  complete, wait_timer, on_context, consume_received, void_receives, get_read_pump_error,
  start_read_pump, resume, handshake_error, keepalive_error, call_handler, flush_write_buffer,
}

-- The context after `sfpInit`, with the callbacks of the queue; the numbers stand for the
-- addresses of the two callbacks and of the queue.
unfoldable pub init_context : {H : Type 0} (write deliver this : ℕ) → Context H → Context H
init_context write deliver this c =
    Api.set_deliver_callback (some deliver) this
      (Api.set_write_callback (some write) this (Api.init c))

module _ {H Q S : Type 0} where
  -- `assert(mHandshakeComplete && ...)`.
  unfoldable pub assert_complete : MessageQueue H Q S → MessageQueue H Q S
  assert_complete q = if q.handshake_complete then q else complete assertion_failed q

module _ {H Q S : Type 0} ⦃rb : RingBuffer H⦄ ⦃rq : ReceiveQueue Q⦄ ⦃bs : ByteStream S⦄ where
  -- `asyncSend`, with any handler: the user's, or `KeepaliveOperation`.
  unfoldable pub async_send : Packet → SendHandler → MessageQueue H Q S → MessageQueue H Q S
  async_send buffer handler q =
      let (checked, ec) = get_read_pump_error (assert_complete q) in
      if is_error ec
      then call_handler handler ec checked
      else flush_write_buffer handler (on_context (λ c. (Api.write_packet buffer c).0) checked)

  -- `asyncReceive`, with the size of the destination and the user's handler.
  unfoldable pub async_receive : (size handler : ℕ) → MessageQueue H Q S → MessageQueue H Q S
  async_receive size handler q =
      let (checked, ec) = get_read_pump_error (assert_complete q) in
      if is_error ec
      then complete (received handler ec []) checked
      else consume_received (receive size handler) checked

  -- The head of the loop of `HandshakeOperation`.
  unfoldable pub handshake_attempt : (handler tries : ℕ) → MessageQueue H Q S → MessageQueue H Q S
  handshake_attempt handler tries q =
      if ltb max_handshake_attempts tries
      then complete (handshaken handler (make_error_code handshake_failed)) q
      else flush_write_buffer (handshake_flushed handler (tries + 1)) (on_context Api.connect q)

  -- `HandshakeOperation` from its beginning.
  unfoldable pub async_handshake :
      (write deliver this : ℕ) → (handler : ℕ) → MessageQueue H Q S → MessageQueue H Q S
  unfolding handshake_attempt init_context
  async_handshake write deliver this handler q =
      let (resumed, ec) = resume no_error q in
      let incomplete = record resumed { handshake_complete = false } in
      let voided = record (void_receives operation_aborted incomplete) { write_buffer = [] } in
      let started = start_read_pump (on_context (init_context write deliver this) voided) in
      if not (is_error ec)
      then handshake_attempt handler 0 started
      else handshake_error handler ec resumed

  -- `KeepaliveOperation` from its beginning.
  unfoldable pub async_keepalive : (handler : ℕ) → MessageQueue H Q S → MessageQueue H Q S
  async_keepalive handler q =
      let (resumed, ec) = resume no_error (assert_complete q) in
      if not (is_error ec)
      then wait_timer (keepalive_waited handler) resumed
      else keepalive_error handler ec resumed

  -- What the operations do once a wait for the timer is over, if there is no error.
  unfoldable pub after_wait : WaitHandler → MessageQueue H Q S → MessageQueue H Q S
  unfolding handshake_attempt async_send
  after_wait (handshake_waited handler tries) q =
      if Api.is_connected q.context
      then wait_timer (handshake_settled handler tries) q
      else handshake_attempt handler tries q
  after_wait (handshake_settled handler tries) q =
      if Api.is_connected q.context
      then complete (handshaken handler no_error) (record q { handshake_complete = true })
      else handshake_attempt handler tries q
  after_wait (keepalive_waited handler) q = async_send [] (keepalive_sent handler) q

  unfoldable pub wait_error : WaitHandler → ErrorCode → MessageQueue H Q S → MessageQueue H Q S
  wait_error (handshake_waited handler tries) ec q = handshake_error handler ec q
  wait_error (handshake_settled handler tries) ec q = handshake_error handler ec q
  wait_error (keepalive_waited handler) ec q = keepalive_error handler ec q

  -- The call of an operation that has been waiting for the timer, with an error code.
  unfoldable pub handle_wait : WaitHandler → ErrorCode → MessageQueue H Q S → MessageQueue H Q S
  unfolding after_wait wait_error
  handle_wait handler ec q =
      let (resumed, e) = resume ec q in
      if not (is_error e) then after_wait handler resumed else wait_error handler e resumed
