-- ===== src/Queue/Quiet.antt =====
-- The methods of the queue that do not touch the outbox.
use libsfp.Base.{
  ℕ, zero, suc, List, [], ◌∷◌, ◌++◌, ◌≡◌, refl, ap, ◌∙◌, Bool, true, false, not, ◌||◌,
  if◌then◌else◌, append-nil, length, drop,
}
use libsfp.State.{Context, Effect, Packet, wrote, delivered, locked, unlocked, assert_failed}
use libsfp.Api.{is_connected}
use libsfp.Errors.{ErrorCode, no_error, operation_aborted, is_error, is_aborted}
use libsfp.Queue.{
  ReceiveQueue, ByteStream, Consumer, receive, discard, Call, is_negative, is_positive, WaitHandler,
  handshake_waited, handshake_settled, Completion, sent, received, handshaken, kept_alive,
  assertion_failed, undefined, MessageQueue,
}
use libsfp.Queue.Pumps.{
  consumed, consumed_all, complete, cancel_timer, wait_timer, write_callback, produce_received,
  consume_received, deliver_callback, call_back, on_context, void_waiting, discard_stored,
  void_receives, close, get_read_pump_error, resume, handshake_error, keepalive_error,
  handshake_after_flush,
}
use libsfp.Queue.Operations.{assert_complete}

-- The handlers of sends that have been called, in order.
abbrev pub sends_done : List Completion → List ℕ
sends_done [] = []
sends_done (sent handler ec ∷ cs) = handler ∷ sends_done cs
sends_done (received handler ec p ∷ cs) = sends_done cs
sends_done (handshaken handler ec ∷ cs) = sends_done cs
sends_done (kept_alive handler ec ∷ cs) = sends_done cs
sends_done (assertion_failed ∷ cs) = sends_done cs
sends_done (undefined ∷ cs) = sends_done cs

pub sends_done-append :
    (xs ys : List Completion) → sends_done (xs ++ ys) ≡ sends_done xs ++ sends_done ys
sends_done-append [] ys = refl
sends_done-append (sent handler ec ∷ xs) ys = ap (λ t. handler ∷ t) (sends_done-append xs ys)
sends_done-append (received handler ec p ∷ xs) ys = sends_done-append xs ys
sends_done-append (handshaken handler ec ∷ xs) ys = sends_done-append xs ys
sends_done-append (kept_alive handler ec ∷ xs) ys = sends_done-append xs ys
sends_done-append (assertion_failed ∷ xs) ys = sends_done-append xs ys
sends_done-append (undefined ∷ xs) ys = sends_done-append xs ys

abbrev if_received : (b : Bool) (handler : ℕ) (e f : ErrorCode) (p q : Packet) → List Completion
if_received b handler e f p q = if b then received handler e p ∷ [] else received handler f q ∷ []

sends_done-if_received :
    (b : Bool) (handler : ℕ) (e f : ErrorCode) (p q : Packet)
    → sends_done (if_received b handler e f p q) ≡ []
sends_done-if_received true handler e f p q = refl
sends_done-if_received false handler e f p q = refl

sends_done-consumed : (call : Call) → sends_done (consumed call) ≡ []
unfolding consumed
sends_done-consumed (receive size handler, ec, p) =
    sends_done-if_received (is_error ec) handler _ _ _ _
sends_done-consumed (discard, ec, p) = refl

sends_done-consumed_all : (calls : List Call) → sends_done (consumed_all calls) ≡ []
unfolding consumed_all
sends_done-consumed_all [] = refl
sends_done-consumed_all (call ∷ calls) =
    sends_done-append (consumed call) (consumed_all calls)
    ∙ ap (λ t. t ++ sends_done (consumed_all calls)) (sends_done-consumed call)
    ∙ sends_done-consumed_all calls

module _ {H Q S : Type 0} where
  pub record Quiet (q r : MessageQueue H Q S) : Type 0 where
    pub same_outbox : r.outbox ≡ q.outbox
    pub same_writing : r.writing ≡ q.writing
    pub same_sends : sends_done r.completions ≡ sends_done q.completions
    pub same_reading : r.reading ≡ q.reading
    pub same_running : r.read_pump_running ≡ q.read_pump_running

  pub Quiet-refl : (q : MessageQueue H Q S) → Quiet q q
  Quiet-refl q = record {
    same_outbox = refl;
    same_writing = refl;
    same_sends = refl;
    same_reading = refl;
    same_running = refl;
  }

  pub Quiet-trans : {q r s : MessageQueue H Q S} → Quiet q r → Quiet r s → Quiet q s
  Quiet-trans k l = record {
    same_outbox = l.same_outbox ∙ k.same_outbox;
    same_writing = l.same_writing ∙ k.same_writing;
    same_sends = l.same_sends ∙ k.same_sends;
    same_reading = l.same_reading ∙ k.same_reading;
    same_running = l.same_running ∙ k.same_running;
  }

  pub Quiet-if :
      (b : Bool) {q r s : MessageQueue H Q S} → Quiet q r → Quiet q s → Quiet q (if b then r else s)
  Quiet-if true k l = k
  Quiet-if false k l = l

  -- More completions, none of them of a send, and other fields that do not matter.
  pub completing :
      (q r : MessageQueue H Q S) (cs : List Completion)
      → sends_done cs ≡ []
      → r.outbox ≡ q.outbox
      → r.writing ≡ q.writing
      → r.completions ≡ q.completions ++ cs
      → r.reading ≡ q.reading
      → r.read_pump_running ≡ q.read_pump_running
      → Quiet q r
  completing q r cs none outbox writing completions reading running = record {
    same_outbox = outbox;
    same_writing = writing;
    same_sends =
        ap sends_done completions
        ∙ sends_done-append q.completions cs
        ∙ ap (λ t. sends_done q.completions ++ t) none
        ∙ append-nil _;
    same_reading = reading;
    same_running = running;
  }

  pub complete-Quiet :
      (c : Completion) (q : MessageQueue H Q S) → sends_done (c ∷ []) ≡ [] → Quiet q (complete c q)
  unfolding complete
  complete-Quiet c q none = completing q _ (c ∷ []) none refl refl refl refl refl

  pub cancel_timer-Quiet : (q : MessageQueue H Q S) → Quiet q (cancel_timer q)
  unfolding cancel_timer
  cancel_timer-Quiet q = record {
    same_outbox = refl;
    same_writing = refl;
    same_sends = refl;
    same_reading = refl;
    same_running = refl;
  }

  pub wait_timer-Quiet : (h : WaitHandler) (q : MessageQueue H Q S) → Quiet q (wait_timer h q)
  unfolding wait_timer cancel_timer
  wait_timer-Quiet h q = record {
    same_outbox = refl;
    same_writing = refl;
    same_sends = refl;
    same_reading = refl;
    same_running = refl;
  }

  pub assert_complete-Quiet : (q : MessageQueue H Q S) → Quiet q (assert_complete q)
  unfolding assert_complete
  assert_complete-Quiet q =
      Quiet-if q.handshake_complete (Quiet-refl q) (complete-Quiet assertion_failed q refl)

module _ {H Q S : Type 0} ⦃rq : ReceiveQueue Q⦄ where
  pub produce-Quiet :
      (ec : ErrorCode) (p : Packet) (q : MessageQueue H Q S) → Quiet q (produce_received ec p q)
  unfolding produce_received
  produce-Quiet ec p q =
      completing q _ (consumed_all (rq.produce ec p q.receive_queue).1)
        (sends_done-consumed_all (rq.produce ec p q.receive_queue).1) refl refl refl refl refl

  pub consume-Quiet : (c : Consumer) (q : MessageQueue H Q S) → Quiet q (consume_received c q)
  unfolding consume_received
  consume-Quiet c q =
      completing q _ (consumed_all (rq.consume c q.receive_queue).1)
        (sends_done-consumed_all (rq.consume c q.receive_queue).1) refl refl refl refl refl

  call_back-Quiet : (es : List Effect) (q : MessageQueue H Q S) → Quiet q (call_back es q)
  unfolding call_back deliver_callback write_callback
  call_back-Quiet [] q = Quiet-refl q
  call_back-Quiet (wrote f d octets ∷ es) q =
      Quiet-trans
        (record {
          same_outbox = refl;
          same_writing = refl;
          same_sends = refl;
          same_reading = refl;
          same_running = refl;
        })
        (call_back-Quiet es _)
  call_back-Quiet (delivered f d p ∷ es) q =
      Quiet-trans (produce-Quiet no_error p q) (call_back-Quiet es _)
  call_back-Quiet (locked f d ∷ es) q = call_back-Quiet es q
  call_back-Quiet (unlocked f d ∷ es) q = call_back-Quiet es q
  call_back-Quiet (assert_failed ∷ es) q =
      Quiet-trans (complete-Quiet assertion_failed q refl) (call_back-Quiet es _)

  pub on_context-Quiet :
      (f : Context H → Context H) (q : MessageQueue H Q S) → Quiet q (on_context f q)
  unfolding on_context
  on_context-Quiet f q =
      Quiet-trans
        (record {
          same_outbox = refl;
          same_writing = refl;
          same_sends = refl;
          same_reading = refl;
          same_running = refl;
        })
        (call_back-Quiet (drop (length q.context.trace) (f q.context).trace) _)

  void_waiting-Quiet :
      (n : ℕ) (ec : ErrorCode) (q : MessageQueue H Q S) → Quiet q (void_waiting n ec q)
  unfolding void_waiting
  void_waiting-Quiet zero ec q = Quiet-refl q
  void_waiting-Quiet (suc n) ec q =
      Quiet-if (is_negative (rq.depth q.receive_queue))
        (Quiet-trans (produce-Quiet ec [] q) (void_waiting-Quiet n ec _)) (Quiet-refl q)

  discard_stored-Quiet : (n : ℕ) (q : MessageQueue H Q S) → Quiet q (discard_stored n q)
  unfolding discard_stored
  discard_stored-Quiet zero q = Quiet-refl q
  discard_stored-Quiet (suc n) q =
      Quiet-if (is_positive (rq.depth q.receive_queue))
        (Quiet-trans (consume-Quiet discard q) (discard_stored-Quiet n _)) (Quiet-refl q)

  pub void_receives-Quiet : (ec : ErrorCode) (q : MessageQueue H Q S) → Quiet q (void_receives ec q)
  unfolding void_receives
  void_receives-Quiet ec q = Quiet-trans (void_waiting-Quiet _ ec q) (discard_stored-Quiet _ _)

module _ {H Q S : Type 0} ⦃rq : ReceiveQueue Q⦄ ⦃bs : ByteStream S⦄ where
  pub handshake_after_flush-Quiet :
      (h n : ℕ) (q : MessageQueue H Q S) → Quiet q (handshake_after_flush h n q)
  unfolding handshake_after_flush
  handshake_after_flush-Quiet h n q =
      Quiet-if (not (is_connected q.context)) (wait_timer-Quiet (handshake_waited h n) q)
        (wait_timer-Quiet (handshake_settled h n) q)

  pub keepalive_error-Quiet :
      (h : ℕ) (ec : ErrorCode) (q : MessageQueue H Q S) → Quiet q (keepalive_error h ec q)
  unfolding keepalive_error
  keepalive_error-Quiet h ec q = complete-Quiet _ q refl

  pub get_error-Quiet : (q : MessageQueue H Q S) → Quiet q (get_read_pump_error q).0
  unfolding get_read_pump_error
  get_error-Quiet q = record {
    same_outbox = refl;
    same_writing = refl;
    same_sends = refl;
    same_reading = refl;
    same_running = refl;
  }

  pub close-Quiet : (q : MessageQueue H Q S) → Quiet q (close q).0
  unfolding close cancel_timer
  close-Quiet q = record {
    same_outbox = refl;
    same_writing = refl;
    same_sends = refl;
    same_reading = refl;
    same_running = refl;
  }

  pub resume-Quiet : (ec : ErrorCode) (q : MessageQueue H Q S) → Quiet q (resume ec q).0
  unfolding resume
  resume-Quiet ec q = by_error (not (is_error ec) || is_aborted ec)
    where
      by_error :
          (b : Bool)
          → let r : MessageQueue H Q S × ErrorCode = if b then get_read_pump_error q else (q, ec) in
            Quiet q r.0
      by_error true = get_error-Quiet q
      by_error false = Quiet-refl q

  pub handshake_error-Quiet :
      (h : ℕ) (ec : ErrorCode) (q : MessageQueue H Q S) → Quiet q (handshake_error h ec q)
  unfolding handshake_error
  handshake_error-Quiet h ec q =
      Quiet-if (not (is_aborted ec))
        (Quiet-trans (close-Quiet q) (complete-Quiet (handshaken h ec) _ refl))
        (complete-Quiet (handshaken h operation_aborted) q refl)
