-- ===== src/Queue/Accounts.antt =====
-- Who is still to be called: the handlers of sends in the outbox, and the read pump.
use libsfp.Base.{
  ℕ, ◌+◌, ◌≤◌, List, [], ◌∷◌, ◌++◌, ◌≡◌, refl, ap, Bool, true, false, not, if◌then◌else◌, ◌==◌,
  arith,
}
use libsfp.Errors.{ErrorCode, network_down, is_error, is_aborted}
use libsfp.Queue.{
  ReceiveQueue, ByteStream, SendHandler, user_send, continue_read_pump, handshake_flushed,
  keepalive_sent, keepalive_waited, SendData, sent, MessageQueue,
}
use libsfp.Queue.Pumps.{
  complete, void_receives, read_pump, stop_read_pump, resume, handshake_error,
  handshake_after_flush, call_handler,
}
use libsfp.Queue.Quiet.{
  sends_done, sends_done-append, Quiet, Quiet-refl, Quiet-trans, Quiet-if, wait_timer-Quiet,
  void_receives-Quiet, close-Quiet, resume-Quiet, handshake_error-Quiet, keepalive_error-Quiet,
  handshake_after_flush-Quiet,
}

-- How often a number is in a list.
abbrev pub count : ℕ → List ℕ → ℕ
count n [] = 0
count n (x ∷ xs) = (if x == n then 1 else 0) + count n xs

pub count-append : (n : ℕ) (xs ys : List ℕ) → count n (xs ++ ys) ≡ count n xs + count n ys
count-append n [] ys = omega arith
count-append n (x ∷ xs) ys = omega (arith, count-append n xs ys)

-- The user's handler that a handler is, if it is one; and whether it continues the read pump.
abbrev pub user_of : SendHandler → List ℕ
user_of (user_send handler) = handler ∷ []
user_of continue_read_pump = []
user_of (handshake_flushed handler tries) = []
user_of (keepalive_sent handler) = []

abbrev pub pump_of : SendHandler → ℕ
pump_of (user_send handler) = 0
pump_of continue_read_pump = 1
pump_of (handshake_flushed handler tries) = 0
pump_of (keepalive_sent handler) = 0

abbrev pub users : List SendData → List ℕ
users [] = []
users (d ∷ ds) = user_of d.handler ++ users ds

abbrev pub pumps : List SendData → ℕ
pumps [] = 0
pumps (d ∷ ds) = pump_of d.handler + pumps ds

pub users-append :
    (n : ℕ) (ds es : List SendData)
    → count n (users (ds ++ es)) ≡ count n (users ds) + count n (users es)
users-append n [] es = omega arith
users-append n (d ∷ ds) es = omega (
  arith,
  count-append n (user_of d.handler) (users (ds ++ es)),
  count-append n (user_of d.handler) (users ds),
  users-append n ds es,
)

pub pumps-append : (ds es : List SendData) → pumps (ds ++ es) ≡ pumps ds + pumps es
pumps-append [] es = omega arith
pumps-append (d ∷ ds) es = omega (arith, pumps-append ds es)

abbrev pub owed : Bool → ℕ
owed b = if b then 1 else 0

pub owed-le : (b : Bool) → owed b ≤ 1
owed-le true = omega arith
owed-le false = omega arith

module _ {H Q S : Type 0} where
  -- Of the handlers `issued` every one has been called or waits in the outbox, as often as it was
  -- issued; of the read pump there is one if it runs, and none otherwise.
  pub record Accounts (issued : List ℕ) (q : MessageQueue H Q S) : Type 0 where
    pub once :
        (h : ℕ) → count h (sends_done q.completions) + count h (users q.outbox) ≡ count h issued
    pub pump : q.reading + pumps q.outbox ≡ owed q.read_pump_running

  -- The same with one more handler in hand, which is still to be called.
  pub record Holding (handler : SendHandler) (issued : List ℕ) (q : MessageQueue H Q S)
      : Type 0 where
    pub once :
        (h : ℕ)
        → count h (sends_done q.completions)
            + (count h (user_of handler) + count h (users q.outbox))
          ≡ count h issued
    pub pump : q.reading + (pump_of handler + pumps q.outbox) ≡ owed q.read_pump_running

  pub Quiet-Accounts :
      {issued : List ℕ} {q r : MessageQueue H Q S}
      → Quiet q r
      → Accounts issued q
      → Accounts issued r
  Quiet-Accounts k a = record {
    once = λ h. rw (k.same_sends, k.same_outbox) (a.once h);
    pump = rw (k.same_reading, k.same_outbox, k.same_running) (a.pump);
  }

  pub Quiet-Holding :
      {handler : SendHandler} {issued : List ℕ} {q r : MessageQueue H Q S}
      → Quiet q r
      → Holding handler issued q
      → Holding handler issued r
  Quiet-Holding k a = record {
    once = λ h. rw (k.same_sends, k.same_outbox) (a.once h);
    pump = rw (k.same_reading, k.same_outbox, k.same_running) (a.pump);
  }

  pub Accounts-if :
      {issued : List ℕ} (b : Bool) {q r : MessageQueue H Q S}
      → Accounts issued q
      → Accounts issued r
      → Accounts issued (if b then q else r)
  Accounts-if true k l = k
  Accounts-if false k l = l

  -- The read pump that was in hand has stopped.
  stopped-Accounts :
      {issued : List ℕ} {q r s : MessageQueue H Q S}
      → Quiet q r
      → Holding continue_read_pump issued q
      → s.outbox ≡ r.outbox
      → s.completions ≡ r.completions
      → s.reading ≡ r.reading
      → s.read_pump_running ≡ false
      → Accounts issued s
  stopped-Accounts {q} k a outbox completions reading running = record {
    once = λ h. rw (outbox, completions, k.same_sends, k.same_outbox) (omega (arith, a.once h));
    pump =
        rw (outbox, reading, running, k.same_outbox, k.same_reading)
          (omega (arith, a.pump, owed-le q.read_pump_running));
  }

  -- A handler that is no send of the user's and not the read pump's, after what it does.
  resumed-Accounts :
      {issued : List ℕ} {q r : MessageQueue H Q S} (handler : SendHandler)
      → user_of handler ≡ []
      → pump_of handler ≡ 0
      → Quiet q r
      → Holding handler issued q
      → Accounts issued r
  resumed-Accounts handler no_user no_pump k a = Quiet-Accounts k (record {
    once = λ h. omega (arith, a.once h, ap (count h) no_user);
    pump = omega (arith, a.pump, no_pump);
  })

  -- A handler popped from the outbox is in hand.
  pub pop-Holding :
      {issued : List ℕ} (q : MessageQueue H Q S) (d : SendData) (ds : List SendData)
      → q.outbox ≡ d ∷ ds
      → Accounts issued q
      → Holding d.handler issued (record q { outbox = ds })
  pop-Holding q d ds e a = record {
    once = λ h. omega (
      arith,
      a.once h,
      ap (λ o. count h (users o)) e,
      count-append h (user_of d.handler) (users ds),
    );
    pump = omega (arith, a.pump, ap pumps e);
  }

module _ {H Q S : Type 0} ⦃rq : ReceiveQueue Q⦄ ⦃bs : ByteStream S⦄ where
  pub read_pump-Accounts :
      {issued : List ℕ} (q : MessageQueue H Q S)
      → Holding continue_read_pump issued q
      → Accounts issued (read_pump q)
  unfolding read_pump
  read_pump-Accounts {issued} q a = by_stream (bs.is_open q.stream)
    where
      voided : MessageQueue H Q S
      voided = void_receives network_down q

      by_stream :
          (b : Bool)
          → Accounts issued (
              if b
              then record q { reading = q.reading + 1 }
              else record voided { read_pump_running = false; read_pump_error = network_down })
      by_stream true = record { once = λ h. omega (arith, a.once h); pump = omega (arith, a.pump) }
      by_stream false = stopped-Accounts (void_receives-Quiet network_down q) a refl refl refl refl

  pub stop_read_pump-Accounts :
      {issued : List ℕ} (ec : ErrorCode) (q : MessageQueue H Q S)
      → Holding continue_read_pump issued q
      → Accounts issued (stop_read_pump ec q)
  unfolding stop_read_pump
  stop_read_pump-Accounts ec q a =
      stopped-Accounts
        (Quiet-trans (void_receives-Quiet ec q)
          (Quiet-if (not (is_aborted ec)) (close-Quiet _) (Quiet-refl _)))
        a refl refl refl refl

  -- A handler in hand, once it has been called.
  pub call_handler-Accounts :
      {issued : List ℕ} (handler : SendHandler) (ec : ErrorCode) (q : MessageQueue H Q S)
      → Holding handler issued q
      → Accounts issued (call_handler handler ec q)
  unfolding call_handler complete
  call_handler-Accounts (user_send h) ec q a = record {
    once = λ k. omega (
      arith,
      a.once k,
      ap (count k) (sends_done-append q.completions (sent h ec ∷ [])),
      count-append k (sends_done q.completions) (h ∷ []),
    );
    pump = omega (arith, a.pump);
  }
  call_handler-Accounts continue_read_pump ec q a =
      Accounts-if (not (is_error ec)) (read_pump-Accounts q a) (stop_read_pump-Accounts ec q a)
  call_handler-Accounts {issued} (handshake_flushed h n) ec q a =
      by_error (not (is_error (resume ec q).1))
    where
      resumed : MessageQueue H Q S
      resumed = (resume ec q).0

      by_error :
          (b : Bool)
          → Accounts issued (
              if b
              then handshake_after_flush h n resumed
              else handshake_error h (resume ec q).1 resumed)
      by_error b =
          resumed-Accounts (handshake_flushed h n) refl refl
            (Quiet-trans (resume-Quiet ec q) (
              Quiet-if b (handshake_after_flush-Quiet h n resumed)
                (handshake_error-Quiet h _ resumed)))
            a
  call_handler-Accounts (keepalive_sent h) ec q a =
      resumed-Accounts (keepalive_sent h) refl refl
        (Quiet-trans (resume-Quiet ec q) (
          Quiet-if (not (is_error (resume ec q).1)) (wait_timer-Quiet (keepalive_waited h) _)
            (keepalive_error-Quiet h _ _)))
        a
