-- ===== src/Queue/Messages.antt =====
-- From `asyncSend` at one end to the handlers of `asyncReceive` at the other.
use libsfp.Base.{
  ℕ, ◌+◌, List, [], ◌∷◌, ◌++◌, ◌≡◌, refl, sym, ap, ◌∙◌, true, false, if◌then◌else◌, length, ◌==◌,
  append-nil, All, inr, flatten, arith,
}
use libsfp.State.{Packet, RingBuffer, usr}
use libsfp.Frame.{make_header, encode_frame, same_type}
use libsfp.History.Resend.{frames_from}
use libsfp.Transmit.Frames.{IsIdle}
use libsfp.Link.Accept.{IsUser}
use libsfp.Link.Delivery.{IsListening, FitsFrame}
use libsfp.Errors.{no_error, network_down, is_error}
use libsfp.Queue.{ReceiveQueue, ByteStream, SendHandler, continue_read_pump, MessageQueue}
use libsfp.Queue.Pumps.{
  produce_received, deliver_callback, void_receives, read_pump, call_handler, write_pump,
  flush_write_buffer, handle_read,
}
use libsfp.Queue.Operations.{async_send}
use libsfp.Queue.Receives.{arrivals, requests, matched, as_consumers, IsReady, serve, serve-Sides}
use libsfp.Queue.Receiving.{arrive_all, with_context, deliver_read-frames}
use libsfp.Queue.Sending.{async_send-writes_frame}

arrivals-arrive_all : (ps : List Packet) → arrivals (arrive_all ps) ≡ ps
arrivals-arrive_all [] = refl
arrivals-arrive_all (p ∷ ps) = ap (λ t. p ∷ t) (arrivals-arrive_all ps)

requests-arrive_all : (ps : List Packet) → requests (arrive_all ps) ≡ []
requests-arrive_all [] = refl
requests-arrive_all (p ∷ ps) = requests-arrive_all ps

module _ {H Q S : Type 0} ⦃rb : RingBuffer H⦄ ⦃rq : ReceiveQueue Q⦄ ⦃bs : ByteStream S⦄ where
  -- Deliveries touch neither the write buffer nor the stream, and start no read.
  serve-others :
      (ps : List Packet) (q : MessageQueue H Q S)
      → let r = serve (arrive_all ps) q in
        (r.write_buffer ≡ q.write_buffer) × (r.stream ≡ q.stream) × (r.reading ≡ q.reading)
  unfolding serve deliver_callback produce_received
  serve-others [] q = (refl, refl, refl)
  serve-others (p ∷ ps) q = serve-others ps (deliver_callback p q)

  -- The read pump goes on at once when there is nothing to be written.
  flush-continues :
      (q : MessageQueue H Q S)
      → q.write_buffer ≡ []
      → bs.is_open q.stream ≡ true
      → flush_write_buffer continue_read_pump q ≡ record q { reading = q.reading + 1 }
  unfolding flush_write_buffer call_handler read_pump is_error
  flush-continues q none is_open =
      let pushed : MessageQueue H Q S = record q {
        outbox = q.outbox ++ record { buffer = q.write_buffer; handler = continue_read_pump } ∷ [];
        write_buffer = [];
      } in
      ap
        (λ w.
          if length w == 0
          then call_handler continue_read_pump no_error q
          else (if length pushed.outbox == 1 then write_pump pushed else pushed))
        none
      ∙ ap
          (λ b.
            if b
            then record q { reading = q.reading + 1 }
            else record (void_receives network_down q) {
              read_pump_running = false;
              read_pump_error = network_down;
            })
          is_open

  -- When the handshake is complete, the stream is open, the read pump has no error, the context listens,
  -- no message is stored and nothing is to be written, and what was read are user frames from the expected
  -- one on, with payloads of at most 254 octets, then `handleRead` gives the payloads to the receives
  -- that wait, in order, as far as there are both, and begins one more read.
  pub handle_read-frames :
      (ps : List Packet) (rs : List (ℕ × ℕ)) (q : MessageQueue H Q S)
      → IsReady q
      → IsListening q.context
      → All FitsFrame ps
      → rq.waiting q.receive_queue ≡ as_consumers rs
      → rq.stored q.receive_queue ≡ []
      → q.write_buffer ≡ []
      → let r = handle_read no_error (frames_from usr q.context.rx.seq ps) q in
        (r.completions ≡ q.completions ++ matched rs ps) × (r.reading ≡ q.reading + 1)
  unfolding handle_read is_error
  handle_read-frames ps rs q ready on fits waits stores none =
      let (c, reads) = deliver_read-frames usr ps q is_user on fits in
      let served = serve (arrive_all ps) q in
      let others = serve-others ps q in
      let goes_on =
        ap (flush_write_buffer continue_read_pump) reads
        ∙ flush-continues (with_context c served) (others.0 ∙ none)
            (ap bs.is_open others.1 ∙ ready.open_stream) in
      (
        ap (λ r. r.completions) goes_on
            ∙ serve-Sides (arrive_all ps) rs [] q.completions q (inr refl)
                (record { ready = ready; waits = waits; stores = stores; seen = refl })
            ∙ ap (λ t. q.completions ++ matched (rs ++ t) (arrivals (arrive_all ps)))
                (requests-arrive_all ps)
            ∙ ap (λ t. q.completions ++ matched t (arrivals (arrive_all ps))) (append-nil rs)
            ∙ ap (λ t. q.completions ++ matched rs t) (arrivals-arrive_all ps),
        ap (λ r. r.reading) goes_on ∙ ap (λ n. n + 1) others.2,
      )
    where
      is_user : IsUser usr
      is_user = unfold same_type in refl

  -- Two queues with complete handshakes, open streams and no errors of their read pumps: if the sender's
  -- context has a write callback and nothing waits to be written, the receiver's context listens for the
  -- sender's next frame, a receive waits, no message is stored and nothing is to be written, then a
  -- packet of at most 254 octets that is sent with `asyncSend` comes to the handler of that receive when
  -- the receiver reads the octets of the write: whole and without an error if it fits the destination, and
  -- else as far as it fits, with `message_size`.
  pub sent_message-received :
      (p : Packet) (handler : SendHandler) (size k : ℕ) (q r : MessageQueue H Q S)
      → IsReady q
      → IsIdle q.context
      → q.write_buffer ≡ []
      → q.outbox ≡ []
      → q.writing ≡ []
      → IsReady r
      → IsListening r.context
      → r.context.rx.seq ≡ q.context.tx.seq
      → rq.waiting r.receive_queue ≡ as_consumers ((size, k) ∷ [])
      → rq.stored r.receive_queue ≡ []
      → r.write_buffer ≡ []
      → FitsFrame p
      → let octets = flatten (async_send p handler q).writing in
        (handle_read no_error octets r).completions
        ≡ r.completions ++ matched ((size, k) ∷ []) (p ∷ [])
  unfolding frames_from flatten
  sent_message-received p handler size k q r ready idle none empty no_write ready2 on seq waits
        stores none2 fits =
      let frame = encode_frame (make_header usr q.context.tx.seq) p in
      let sent =
        async_send-writes_frame p handler q ready idle (omega (arith, fits)) none empty no_write in
      ap (λ w. (handle_read no_error (flatten w) r).completions) sent.0
      ∙ ap (λ s. (handle_read no_error (encode_frame (make_header usr s) p ++ []) r).completions)
          (sym seq)
      ∙ (handle_read-frames (p ∷ []) ((size, k) ∷ []) r ready2 on (fits, tt) waits stores none2).0
