-- ===== src/Queue/Pumps.antt =====
-- The private methods of `MessageQueueImpl`: the callbacks of the context, the two pumps, and what
-- they do when the stream fails. `flushWriteBuffer` ends in `call_handler`, the call of a handler.
use libsfp.Base.{
  ℕ, zero, suc, ◌+◌, List, [], ◌∷◌, ◌++◌, true, false, ◌&&◌, ◌||◌, not, ◌==◌, if◌then◌else◌, length,
  take, drop, none,
}
use libsfp.State.{
  Context, RingBuffer, Packet, Effect, wrote, delivered, locked, unlocked, assert_failed,
}
use libsfp.Receive.{deliver_octet}
use libsfp.Node.{has_succeeded}
use libsfp.Api.{is_connected}
use libsfp.State.{assert}
use libsfp.Errors.{
  ErrorCode, no_error, operation_aborted, network_down, message_size, is_error, is_aborted,
}
use libsfp.Queue.{
  ReceiveQueue, ByteStream, Consumer, receive, discard, Call, is_negative, is_positive, magnitude,
  StreamKind, plain, socket, SendHandler, user_send, continue_read_pump, handshake_flushed,
  keepalive_sent, WaitHandler, handshake_waited, handshake_settled, keepalive_waited, SendData,
  Completion, sent, received, handshaken, kept_alive, assertion_failed, undefined, MessageQueue,
}

-- The lambda of `asyncReceive`, and the one of `voidReceives`, which only logs.
unfoldable pub consumed : Call → List Completion
consumed (receive size handler, ec, source) =
    let copied = take size source in
    let fits = if length copied == length source then no_error else message_size in
    if is_error ec then received handler ec [] ∷ [] else received handler fits copied ∷ []
consumed (discard, ec, source) = []

unfoldable pub consumed_all : List Call → List Completion
unfolding consumed
consumed_all [] = []
consumed_all (call ∷ calls) = consumed call ++ consumed_all calls

module _ {H Q S : Type 0} where
  unfoldable pub complete : Completion → MessageQueue H Q S → MessageQueue H Q S
  complete done q = record q { completions = q.completions ++ done ∷ [] }

  -- `mSfpTimer.cancel`, and `expires_from_now`, which cancels as well: the waits are called back
  -- with `operation_aborted`.
  unfoldable pub cancel_timer : MessageQueue H Q S → MessageQueue H Q S
  cancel_timer q = record q {
    timer_waits = [];
    cancelled_waits = q.cancelled_waits ++ q.timer_waits;
  }

  -- `expires_from_now` and `async_wait`.
  unfoldable pub wait_timer : WaitHandler → MessageQueue H Q S → MessageQueue H Q S
  unfolding cancel_timer
  wait_timer handler q =
      let expires = cancel_timer q in
      record expires { timer_waits = expires.timer_waits ++ handler ∷ [] }

  unfoldable pub write_callback : List ℕ → MessageQueue H Q S → MessageQueue H Q S
  write_callback octets q = record q { write_buffer = q.write_buffer ++ octets }

module _ {H Q S : Type 0} ⦃rq : ReceiveQueue Q⦄ where
  -- `mReceiveQueue.produce`, with the calls that it makes.
  unfoldable pub produce_received : ErrorCode → Packet → MessageQueue H Q S → MessageQueue H Q S
  unfolding consumed_all
  produce_received ec p q =
      let (queue, calls) = rq.produce ec p q.receive_queue in
      record q { receive_queue = queue; completions = q.completions ++ consumed_all calls }

  unfoldable pub consume_received : Consumer → MessageQueue H Q S → MessageQueue H Q S
  unfolding consumed_all
  consume_received c q =
      let (queue, calls) = rq.consume c q.receive_queue in
      record q { receive_queue = queue; completions = q.completions ++ consumed_all calls }

  unfoldable pub deliver_callback : Packet → MessageQueue H Q S → MessageQueue H Q S
  unfolding produce_received
  deliver_callback p q = produce_received no_error p q

  -- The callbacks that the context has called, in order. The lock's callbacks are NULL.
  unfoldable pub call_back : List Effect → MessageQueue H Q S → MessageQueue H Q S
  unfolding write_callback deliver_callback complete
  call_back [] q = q
  call_back (wrote f d octets ∷ es) q = call_back es (write_callback octets q)
  call_back (delivered f d p ∷ es) q = call_back es (deliver_callback p q)
  call_back (locked f d ∷ es) q = call_back es q
  call_back (unlocked f d ∷ es) q = call_back es q
  call_back (assert_failed ∷ es) q = call_back es (complete assertion_failed q)

  -- A call into the context, with the callbacks that it makes, which are what it adds to the trace. They
  -- touch neither the context nor what it goes on with, so they stand after the call.
  unfoldable pub on_context : (Context H → Context H) → MessageQueue H Q S → MessageQueue H Q S
  unfolding call_back
  on_context f q =
      let c = f q.context in
      call_back (drop (length q.context.trace) c.trace) (record q { context = c })

  -- `while (mReceiveQueue.depth() < 0)` of `voidReceives`, with fuel.
  unfoldable pub void_waiting : ℕ → ErrorCode → MessageQueue H Q S → MessageQueue H Q S
  unfolding produce_received
  void_waiting zero ec q = q
  void_waiting (suc fuel) ec q =
      let rest = void_waiting fuel ec (produce_received ec [] q) in
      if is_negative (rq.depth q.receive_queue) then rest else q

  -- `while (mReceiveQueue.depth() > 0)` of `voidReceives`, with fuel.
  unfoldable pub discard_stored : ℕ → MessageQueue H Q S → MessageQueue H Q S
  unfolding consume_received
  discard_stored zero q = q
  discard_stored (suc fuel) q =
      let rest = discard_stored fuel (consume_received discard q) in
      if is_positive (rq.depth q.receive_queue) then rest else q

  -- The fuel is the depth: each round of a loop takes it one nearer to 0.
  unfoldable pub void_receives : ErrorCode → MessageQueue H Q S → MessageQueue H Q S
  void_receives ec q =
      let voided = void_waiting (magnitude (rq.depth q.receive_queue)) ec q in
      discard_stored (magnitude (rq.depth voided.receive_queue)) voided

module _ {S : Type 0} ⦃bs : ByteStream S⦄ where
  -- `StreamWrapper::close`; `lEc` keeps an error of `shutdown` unless `close` sets another.
  unfoldable pub close_wrapper : StreamKind → S → S × ErrorCode
  close_wrapper plain s = bs.close_stream s
  close_wrapper socket s =
      let (stopped, stop_ec) = bs.shutdown s in
      let (closed, close_ec) = bs.close_stream stopped in
      let shutdown_ec = if is_error stop_ec then stop_ec else no_error in
      (closed, if is_error close_ec then close_ec else shutdown_ec)

module _ {H Q S : Type 0} ⦃rq : ReceiveQueue Q⦄ ⦃bs : ByteStream S⦄ where
  -- The result is `ec`.
  unfoldable pub close : MessageQueue H Q S → MessageQueue H Q S × ErrorCode
  unfolding cancel_timer
  close q =
      let cancelled = cancel_timer q in
      let (closed, ec) = close_wrapper cancelled.stream_kind cancelled.stream in
      (record cancelled { stream = closed; read_pump_error = operation_aborted }, ec)

  unfoldable pub get_read_pump_error : MessageQueue H Q S → MessageQueue H Q S × ErrorCode
  get_read_pump_error q =
      let ec = q.read_pump_error in
      (
        record q { read_pump_error = no_error },
        if not (is_error ec) && not (bs.is_open q.stream) then network_down else ec,
      )

  unfoldable pub read_pump : MessageQueue H Q S → MessageQueue H Q S
  unfolding void_receives
  read_pump q =
      let voided = void_receives network_down q in
      if bs.is_open q.stream
      then record q { reading = q.reading + 1 }
      else record voided { read_pump_running = false; read_pump_error = network_down }

  unfoldable pub start_read_pump : MessageQueue H Q S → MessageQueue H Q S
  unfolding read_pump
  start_read_pump q =
      let started = read_pump (record q { read_pump_running = true; read_pump_error = no_error }) in
      if q.read_pump_running then q else started

  -- `stopReadPump` of `handleRead`.
  unfoldable pub stop_read_pump : ErrorCode → MessageQueue H Q S → MessageQueue H Q S
  unfolding void_receives close
  stop_read_pump ec q =
      let voided = void_receives ec q in
      let stopped = if not (is_aborted ec) then (close voided).0 else voided in
      record stopped { read_pump_running = false; read_pump_error = ec }

  -- How `operator()` of both operations begins: what it goes on with, and `ec`.
  unfoldable pub resume : ErrorCode → MessageQueue H Q S → MessageQueue H Q S × ErrorCode
  unfolding get_read_pump_error
  resume ec q = if not (is_error ec) || is_aborted ec then get_read_pump_error q else (q, ec)

  -- The branch of `HandshakeOperation` that is taken on an error, and its completion with `rc_`.
  unfoldable pub handshake_error : ℕ → ErrorCode → MessageQueue H Q S → MessageQueue H Q S
  unfolding close complete
  handshake_error handler ec q =
      if not (is_aborted ec)
      then complete (handshaken handler ec) (close q).0
      else complete (handshaken handler operation_aborted) q

  unfoldable pub keepalive_error : ℕ → ErrorCode → MessageQueue H Q S → MessageQueue H Q S
  unfolding complete
  keepalive_error handler ec q =
      complete (kept_alive handler (if not (is_aborted ec) then ec else operation_aborted)) q

  -- `HandshakeOperation` after its `flushWriteBuffer`: it waits for the timer in both cases.
  unfoldable pub handshake_after_flush : ℕ → ℕ → MessageQueue H Q S → MessageQueue H Q S
  unfolding wait_timer
  handshake_after_flush handler tries q =
      if not (is_connected q.context)
      then wait_timer (handshake_waited handler tries) q
      else wait_timer (handshake_settled handler tries) q

  -- The call of a handler that has been waiting for a write, with an error code.
  unfoldable pub call_handler : SendHandler → ErrorCode → MessageQueue H Q S → MessageQueue H Q S
  unfolding complete read_pump stop_read_pump resume handshake_error handshake_after_flush
      keepalive_error wait_timer
  call_handler (user_send handler) ec q = complete (sent handler ec) q
  call_handler continue_read_pump ec q =
      if not (is_error ec) then read_pump q else stop_read_pump ec q
  call_handler (handshake_flushed handler tries) ec q =
      let (resumed, e) = resume ec q in
      if not (is_error e)
      then handshake_after_flush handler tries resumed
      else handshake_error handler e resumed
  call_handler (keepalive_sent handler) ec q =
      let (resumed, e) = resume ec q in
      if not (is_error e)
      then wait_timer (keepalive_waited handler) resumed
      else keepalive_error handler e resumed

  -- `mOutbox.front()`, `pop()` and the call of the handler.
  unfoldable pub pop_and_call : List SendData → ErrorCode → MessageQueue H Q S → MessageQueue H Q S
  unfolding call_handler complete
  pop_and_call [] ec q = complete undefined q
  pop_and_call (d ∷ ds) ec q = call_handler d.handler ec (record q { outbox = ds })

  -- `while (mOutbox.size())` of `voidOutbox`, with fuel.
  unfoldable pub void_loop : ℕ → ErrorCode → MessageQueue H Q S → MessageQueue H Q S
  unfolding pop_and_call
  void_loop zero ec q = q
  void_loop (suc fuel) ec q =
      let rest = void_loop fuel ec (pop_and_call q.outbox ec q) in
      if not (length q.outbox == 0) then rest else q

  -- The fuel is the size of the outbox: each round removes an element.
  unfoldable pub void_outbox : ErrorCode → MessageQueue H Q S → MessageQueue H Q S
  unfolding void_loop
  void_outbox ec q = void_loop (length q.outbox) ec q

  -- `async_write` of the front of the outbox.
  unfoldable pub begin_write : List SendData → MessageQueue H Q S → MessageQueue H Q S
  unfolding complete
  begin_write [] q = complete undefined q
  begin_write (d ∷ ds) q = record q { writing = q.writing ++ d.buffer ∷ [] }

  unfoldable pub write_pump : MessageQueue H Q S → MessageQueue H Q S
  unfolding begin_write void_outbox
  write_pump q =
      if not (length q.outbox == 0)
      then (if bs.is_open q.stream then begin_write q.outbox q else void_outbox network_down q)
      else q

  unfoldable pub flush_write_buffer : SendHandler → MessageQueue H Q S → MessageQueue H Q S
  unfolding call_handler write_pump
  flush_write_buffer handler q =
      let pushed = record q {
        outbox = q.outbox ++ record { buffer = q.write_buffer; handler = handler } ∷ [];
        write_buffer = [];
      } in
      if length q.write_buffer == 0
      then call_handler handler no_error q
      else (if length pushed.outbox == 1 then write_pump pushed else pushed)

  -- `assert(mOutbox.front().buffer.size() == nWritten)`.
  unfoldable pub check_written : List SendData → ℕ → MessageQueue H Q S → MessageQueue H Q S
  unfolding complete
  check_written [] written q = complete undefined q
  check_written (d ∷ ds) written q =
      if length d.buffer == written then q else complete assertion_failed q

  -- The branch of `handleWrite` without an error. The function is what the handler, once it is called,
  -- does to the queue by calls of its own.
  unfoldable pub handle_written :
      (MessageQueue H Q S → MessageQueue H Q S) → ℕ → MessageQueue H Q S → MessageQueue H Q S
  unfolding check_written pop_and_call write_pump
  handle_written react written q =
      let checked = check_written q.outbox written q in
      write_pump (react (pop_and_call checked.outbox no_error checked))

  -- `handleWrite`, with a handler that makes no calls of its own.
  unfoldable pub handle_write : ErrorCode → ℕ → MessageQueue H Q S → MessageQueue H Q S
  unfolding handle_written void_outbox close
  handle_write ec written q =
      let voided = void_outbox ec q in
      let closed = if not (is_aborted ec) then (close voided).0 else voided in
      if not (is_error ec) then handle_written (λ x. x) written q else closed

-- `sfpDeliverOctet` of `handleRead`, and `assert(-1 != rc)`.
unfoldable pub deliver_asserted : {H : Type 0} ⦃rb : RingBuffer H⦄ → ℕ → Context H → Context H
deliver_asserted octet c =
    let (taken, rc) = deliver_octet none octet c in assert (has_succeeded rc) taken

module _ {H Q S : Type 0} ⦃rb : RingBuffer H⦄ ⦃rq : ReceiveQueue Q⦄ ⦃bs : ByteStream S⦄ where
  -- The loop of `handleRead`.
  unfoldable pub deliver_read : List ℕ → MessageQueue H Q S → MessageQueue H Q S
  unfolding on_context deliver_asserted
  deliver_read [] q = q
  deliver_read (octet ∷ octets) q = deliver_read octets (on_context (deliver_asserted octet) q)

  unfoldable pub handle_read : ErrorCode → List ℕ → MessageQueue H Q S → MessageQueue H Q S
  unfolding deliver_read flush_write_buffer stop_read_pump
  handle_read ec octets q =
      if not (is_error ec)
      then flush_write_buffer continue_read_pump (deliver_read octets q)
      else stop_read_pump ec q
