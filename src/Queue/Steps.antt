-- ===== src/Queue/Steps.antt =====
-- The message queue as a state machine: the calls of its methods, and what the stream and the timer
-- call back, in any order.
use libsfp.Base.{ℕ, suc, ◌≤◌, List, [], ◌∷◌, ◌++◌, ◌≡◌, true, false, length}
use libsfp.State.{RingBuffer, Packet}
use libsfp.Errors.{ErrorCode, no_error, operation_aborted, is_error}
use libsfp.Queue.{ReceiveQueue, ByteStream, user_send, WaitHandler, MessageQueue}
use libsfp.Queue.Pumps.{close, handle_write, handle_read}
use libsfp.Queue.Operations.{
  async_send, async_receive, async_handshake, async_keepalive, handle_wait,
}

-- The size of the buffer of `startReadPump`.
abbrev pub read_size : ℕ
read_size = 1024

module _ {H Q S : Type 0} ⦃rb : RingBuffer H⦄ ⦃rq : ReceiveQueue Q⦄ ⦃bs : ByteStream S⦄ where
  -- One call: of a method, by the user; or of a handler, by the service, once a write or a read is
  -- over, the timer has expired, or a wait for it was cancelled. The numbers are those of the handlers of
  -- sends that are issued with it.
  pub data Step : MessageQueue H Q S → List ℕ → MessageQueue H Q S → Type 0 where
    sends :
        (p : Packet) (h : ℕ) (q : MessageQueue H Q S)
        → Step q (h ∷ []) (async_send p (user_send h) q)
    receives : (size h : ℕ) (q : MessageQueue H Q S) → Step q [] (async_receive size h q)
    handshakes :
        (w d this h : ℕ) (q : MessageQueue H Q S) → Step q [] (async_handshake w d this h q)
    keeps_alive : (h : ℕ) (q : MessageQueue H Q S) → Step q [] (async_keepalive h q)
    closes : (q : MessageQueue H Q S) → Step q [] (close q).0
    writes :
        (octets : List ℕ) (others : List (List ℕ)) (q : MessageQueue H Q S)
        → q.writing ≡ octets ∷ others
        → Step q [] (handle_write no_error (length octets) (record q { writing = others }))
    write_fails :
        (ec : ErrorCode) (written : ℕ) (octets : List ℕ) (others : List (List ℕ))
        (q : MessageQueue H Q S)
        → is_error ec ≡ true
        → q.writing ≡ octets ∷ others
        → Step q [] (handle_write ec written (record q { writing = others }))
    reads :
        (octets : List ℕ) (others : ℕ) (q : MessageQueue H Q S)
        → length octets ≤ read_size
        → q.reading ≡ suc others
        → Step q [] (handle_read no_error octets (record q { reading = others }))
    read_fails :
        (ec : ErrorCode) (octets : List ℕ) (others : ℕ) (q : MessageQueue H Q S)
        → is_error ec ≡ true
        → q.reading ≡ suc others
        → Step q [] (handle_read ec octets (record q { reading = others }))
    expires :
        (h : WaitHandler) (others : List WaitHandler) (q : MessageQueue H Q S)
        → q.timer_waits ≡ h ∷ others
        → Step q [] (handle_wait h no_error (record q { timer_waits = others }))
    cancels :
        (h : WaitHandler) (others : List WaitHandler) (q : MessageQueue H Q S)
        → q.cancelled_waits ≡ h ∷ others
        → Step q [] (handle_wait h operation_aborted (record q { cancelled_waits = others }))

  -- A queue that has nothing under way and has called nothing: a new one is such a queue.
  pub record IsFresh (q : MessageQueue H Q S) : Type 0 where
    pub no_outbox : q.outbox ≡ []
    pub not_running : q.read_pump_running ≡ false
    pub no_write : q.writing ≡ []
    pub no_read : q.reading ≡ 0
    pub no_completion : q.completions ≡ []

  pub data Reach : List ℕ → MessageQueue H Q S → Type 0 where
    fresh : (q : MessageQueue H Q S) → IsFresh q → Reach [] q
    step :
        {issued now : List ℕ} {q r : MessageQueue H Q S}
        → Reach issued q
        → Step q now r
        → Reach (now ++ issued) r
