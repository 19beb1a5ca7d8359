-- ===== src/Queue/Attempts.antt =====
-- `HandshakeOperation` with an other end that does not answer.
use libsfp.Base.{
  ℕ, ◌+◌, ◌≤◌, List, [], ◌∷◌, ◌++◌, ◌≡◌, refl, ap, ◌∙◌, Bool, true, false, not, ◌&&◌, if◌then◌else◌,
  length, arith, ltb,
}
use libsfp.State.{
  Context, RingBuffer, Effect, wrote, delivered, locked, unlocked, assert_failed, syn,
}
use libsfp.Frame.{make_header, encode_frame}
use libsfp.Transmit.Frames.{IsIdle}
use libsfp.Api
use libsfp.Trace.{written}
use libsfp.Link.Calls.{connect-grows, connect-written}
use libsfp.Link.Greeting.{connect-Greets}
use libsfp.Errors.{
  ErrorCode, no_error, network_down, is_error, is_aborted, handshake_failed, make_error_code,
}
use libsfp.Queue.{
  ReceiveQueue, ByteStream, SendData, handshake_flushed, WaitHandler, handshake_waited,
  handshake_settled, handshaken, assertion_failed, MessageQueue, max_handshake_attempts,
}
use libsfp.Queue.Pumps.{
  complete, cancel_timer, wait_timer, write_callback, produce_received, deliver_callback, call_back,
  on_context, get_read_pump_error, resume, handshake_error, handshake_after_flush, call_handler,
  pop_and_call, write_pump, flush_write_buffer, check_written, handle_written, handle_write,
}
use libsfp.Queue.Operations.{handshake_attempt, after_wait, wait_error, handle_wait}
use libsfp.Queue.Quiet.{on_context-Quiet}
use libsfp.Queue.Callbacks.{on_context-stream, on_context-write_buffer, on_context_lem}
use libsfp.Queue.Nested.{flush-open, is_same}
use libsfp.Queue.Sending.{encode_frame-filled}
use libsfp.Queue.Promises.{finish_write}

not_over : (n : ℕ) → n ≤ max_handshake_attempts → ltb max_handshake_attempts n ≡ false
not_over n le = ground arith

module _ {H : Type 0} ⦃rb : RingBuffer H⦄ where
  connect-waits : (c : Context H) → IsIdle c → Api.is_connected (Api.connect c) ≡ false
  unfolding Api.is_connected Api.state_is_connected
  connect-waits c idle = ap Api.state_is_connected (connect-Greets c idle).state_is

module _ {H Q S : Type 0} ⦃rq : ReceiveQueue Q⦄ where
  call_back-others :
      (es : List Effect) (q : MessageQueue H Q S)
      → ((call_back es q).timer_waits ≡ q.timer_waits)
        × ((call_back es q).read_pump_error ≡ q.read_pump_error)
  unfolding call_back write_callback deliver_callback produce_received complete
  call_back-others [] q = (refl, refl)
  call_back-others (wrote f d octets ∷ es) q = call_back-others es (write_callback octets q)
  call_back-others (delivered f d p ∷ es) q = call_back-others es (deliver_callback p q)
  call_back-others (locked f d ∷ es) q = call_back-others es q
  call_back-others (unlocked f d ∷ es) q = call_back-others es q
  call_back-others (assert_failed ∷ es) q = call_back-others es (complete assertion_failed q)

module _ {H Q S : Type 0} ⦃rb : RingBuffer H⦄ ⦃rq : ReceiveQueue Q⦄ ⦃bs : ByteStream S⦄ where
  -- A queue that has nothing under way, with an open stream, no error of the read pump, and a context that
  -- can send.
  pub record Rests (q : MessageQueue H Q S) : Type 0 where
    pub no_outbox : q.outbox ≡ []
    pub no_write : q.writing ≡ []
    pub no_waits : q.timer_waits ≡ []
    pub no_octets : q.write_buffer ≡ []
    pub no_pump_error : q.read_pump_error ≡ no_error
    pub open_stream : bs.is_open q.stream ≡ true
    pub idle : IsIdle q.context

  -- The timer expires for the first of these operations.
  unfoldable pub expire : List WaitHandler → MessageQueue H Q S → MessageQueue H Q S
  expire [] q = q
  expire (h ∷ hs) q = handle_wait h no_error (record q { timer_waits = hs })

  -- The write in flight is over without an error, and the timer expires, with nothing read.
  unfoldable pub silent_round : MessageQueue H Q S → MessageQueue H Q S
  unfolding finish_write expire
  silent_round q =
      let flushed = finish_write q.writing no_error q in expire flushed.timer_waits flushed

  -- The queue once `sfpConnect` has written its frame.
  abbrev pub greeting : MessageQueue H Q S → MessageQueue H Q S
  greeting q = record (on_context Api.connect q) {
    outbox = [];
    writing = [];
    timer_waits = [];
    read_pump_error = no_error;
    context = Api.connect q.context;
    write_buffer = encode_frame (make_header syn 0) [];
  }

  greeting_lem : (q : MessageQueue H Q S) → Rests q → on_context Api.connect q ≡ greeting q
  greeting_lem q r =
      let after = on_context Api.connect q in
      let quiet = on_context-Quiet Api.connect q in
      let grown = (connect-grows q.context).1 in
      let becomes = on_context_lem Api.connect q (connect-grows q.context).0 grown in
      let others = call_back-others (connect-grows q.context).0 q in
      let with : List SendData
          → List (List ℕ)
          → List WaitHandler
          → ErrorCode
          → Context H
          → List ℕ
          → MessageQueue H Q S =
        λ o w t e c b. record after {
          outbox = o;
          writing = w;
          timer_waits = t;
          read_pump_error = e;
          context = c;
          write_buffer = b;
        } in
      ap
        (λ o.
          with o after.writing after.timer_waits after.read_pump_error after.context
            after.write_buffer)
        (quiet.same_outbox ∙ r.no_outbox)
      ∙ ap (λ w. with [] w after.timer_waits after.read_pump_error after.context after.write_buffer)
          (quiet.same_writing ∙ r.no_write)
      ∙ ap (λ t. with [] [] t after.read_pump_error after.context after.write_buffer)
          (ap (λ k. k.timer_waits) becomes ∙ others.0 ∙ r.no_waits)
      ∙ ap (λ e. with [] [] [] e after.context after.write_buffer)
          (ap (λ k. k.read_pump_error) becomes ∙ others.1 ∙ r.no_pump_error)
      ∙ ap (λ c. with [] [] [] no_error c after.write_buffer) (ap (λ k. k.context) becomes)
      ∙ ap (λ b. with [] [] [] no_error (Api.connect q.context) b)
          (on_context-write_buffer Api.connect q (connect-grows q.context).0 grown
            ∙ ap (λ b. b ++ written (connect-grows q.context).0) r.no_octets
            ∙ connect-written q.context r.idle)

  -- The queue while the frame is written; and while the handshake waits for the timer.
  abbrev greeted : (handler tries : ℕ) → MessageQueue H Q S → MessageQueue H Q S
  greeted handler tries q =
      let frame = encode_frame (make_header syn 0) [] in
      record (greeting q) {
        outbox = record { buffer = frame; handler = handshake_flushed handler tries } ∷ [];
        writing = frame ∷ [];
        write_buffer = [];
      }

  abbrev waiting : (handler tries : ℕ) → MessageQueue H Q S → MessageQueue H Q S
  waiting handler tries q = record (greeting q) {
    write_buffer = [];
    cancelled_waits = (greeting q).cancelled_waits ++ [];
    timer_waits = handshake_waited handler tries ∷ [];
  }

  greeting-open : (q : MessageQueue H Q S) → Rests q → bs.is_open (greeting q).stream ≡ true
  greeting-open q r = ap bs.is_open (on_context-stream Api.connect q) ∙ r.open_stream

  pub attempt-greets :
      (handler tries : ℕ) (q : MessageQueue H Q S)
      → Rests q
      → tries ≤ max_handshake_attempts
      → handshake_attempt handler tries q ≡ greeted handler (tries + 1) q
  unfolding handshake_attempt
  attempt-greets handler tries q r le =
      ap
        (λ b.
          if b
          then complete (handshaken handler (make_error_code handshake_failed)) q
          else flush_write_buffer (handshake_flushed handler (tries + 1))
              (on_context Api.connect q))
        (not_over tries le)
      ∙ ap (flush_write_buffer (handshake_flushed handler (tries + 1))) (greeting_lem q r)
      ∙ flush-open (handshake_flushed handler (tries + 1)) (greeting q) refl
          (encode_frame-filled (make_header syn 0) []) (greeting-open q r)

  -- An operation that is resumed without an error goes on, if the read pump has none.
  resume-open :
      (q : MessageQueue H Q S)
      → q.read_pump_error ≡ no_error
      → bs.is_open q.stream ≡ true
      → resume no_error q ≡ (record q { read_pump_error = no_error }, no_error)
  unfolding resume get_read_pump_error is_error is_aborted
  resume-open q no_pump_error is_open =
      ap
        (λ e. (
          record q { read_pump_error = no_error },
          if not (is_error e) && not (bs.is_open q.stream) then network_down else e,
        ))
        no_pump_error
      ∙ ap
          (λ b. (record q { read_pump_error = no_error }, if not b then network_down else no_error))
          is_open

  greeted-waits :
      (handler tries : ℕ) (q : MessageQueue H Q S)
      → Rests q
      → finish_write (greeted handler tries q).writing no_error (greeted handler tries q)
        ≡ waiting handler tries q
  unfolding finish_write handle_write handle_written check_written pop_and_call call_handler
      handshake_after_flush wait_timer cancel_timer write_pump is_error
  greeted-waits handler tries q r =
      ap (λ b. let c = checked b in write_pump (pop_and_call c.outbox no_error c))
        (is_same (length (encode_frame (make_header syn 0) [])))
      ∙ ap
          (λ p. write_pump (
            if not (is_error p.1)
            then handshake_after_flush handler tries p.0
            else handshake_error handler p.1 p.0))
          (resume-open popped refl (greeting-open q r))
      ∙ ap
          (λ b. write_pump (
            if not b
            then wait_timer (handshake_waited handler tries) popped
            else wait_timer (handshake_settled handler tries) popped))
          (connect-waits q.context r.idle)
    where
      flushed : MessageQueue H Q S
      flushed = record (greeted handler tries q) { writing = [] }

      checked : Bool → MessageQueue H Q S
      checked b = if b then flushed else complete assertion_failed flushed

      popped : MessageQueue H Q S
      popped = record flushed { outbox = [] }

  -- The queue at the next attempt.
  abbrev pub next : MessageQueue H Q S → MessageQueue H Q S
  next q = record (greeting q) {
    write_buffer = [];
    cancelled_waits = (greeting q).cancelled_waits ++ [];
  }

  pub next-Rests : (q : MessageQueue H Q S) → Rests q → Rests (next q)
  next-Rests q r = record {
    no_outbox = refl;
    no_write = refl;
    no_waits = refl;
    no_octets = refl;
    no_pump_error = refl;
    open_stream = greeting-open q r;
    idle = record {
      has_writer = (connect-Greets q.context r.idle).idle.has_writer;
      flushed = (connect-Greets q.context r.idle).idle.flushed;
    };
  }

  waiting-attempts :
      (handler tries : ℕ) (q : MessageQueue H Q S)
      → Rests q
      → expire (waiting handler tries q).timer_waits (waiting handler tries q)
        ≡ handshake_attempt handler tries (next q)
  unfolding expire handle_wait after_wait is_error
  waiting-attempts handler tries q r =
      ap
        (λ p.
          if not (is_error p.1)
          then after_wait (handshake_waited handler tries) p.0
          else wait_error (handshake_waited handler tries) p.1 p.0)
        (resume-open (next q) refl (greeting-open q r))
      ∙ ap
          (λ b.
            if b
            then wait_timer (handshake_settled handler tries) (next q)
            else handshake_attempt handler tries (next q))
          (connect-waits q.context r.idle)

  pub silent_round-attempts :
      (handler tries : ℕ) (q : MessageQueue H Q S)
      → Rests q
      → tries ≤ max_handshake_attempts
      → silent_round (handshake_attempt handler tries q)
        ≡ handshake_attempt handler (tries + 1) (next q)
  unfolding silent_round
  silent_round-attempts handler tries q r le =
      ap silent_round (attempt-greets handler tries q r le)
      ∙ ap (λ f. expire f.timer_waits f) (greeted-waits handler (tries + 1) q r)
      ∙ waiting-attempts handler (tries + 1) q r
