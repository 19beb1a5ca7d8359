-- ===== src/Queue/Sending.antt =====
-- `asyncSend` down to the octets that are written to the stream.
use libsfp.Base.{ℕ, [], ◌∷◌, ◌++◌, ◌≡◌, ap, ◌∙◌, false, length, arith, ◌==◌, append-nil}
use libsfp.State.{Packet, RingBuffer, usr}
use libsfp.Frame.{make_header, encode_frame}
use libsfp.Api.{write_packet}
use libsfp.Trace.{written, trace_laws}
use libsfp.Transmit.Sends.{writes}
use libsfp.Transmit.Frames.{IsIdle}
use libsfp.Transmit.Locked.{lock_calls, unlock_calls}
use libsfp.Link.Sending.{FitsPacket, write_packet-Writes}
use libsfp.Errors.{no_error}
use libsfp.Queue.{ReceiveQueue, ByteStream, SendHandler, MessageQueue}
use libsfp.Queue.Operations.{async_send}
use libsfp.Queue.Quiet.{Quiet, on_context-Quiet}
use libsfp.Queue.Callbacks.{on_context-stream, on_context-write_buffer}
use libsfp.Queue.Receives.{IsReady}
use libsfp.Queue.Nested.{after_packet, async_send-ready, flush-open}

pub encode_frame-filled : (header : ℕ) (p : Packet) → (length (encode_frame header p) == 0) ≡ false
unfolding encode_frame
encode_frame-filled header p = grind arith

module _ {H Q S : Type 0} ⦃rb : RingBuffer H⦄ ⦃rq : ReceiveQueue Q⦄ ⦃bs : ByteStream S⦄ where
  pub after_packet-write_buffer :
      (p : Packet) (q : MessageQueue H Q S)
      → IsIdle q.context
      → FitsPacket p
      → q.write_buffer ≡ []
      → (after_packet p q).write_buffer ≡ encode_frame (make_header usr q.context.tx.seq) p
  unfolding after_packet
  after_packet-write_buffer p q idle fits none =
      let w = (write_packet-Writes q.context p idle fits).0 in
      on_context-write_buffer (λ c. (write_packet p c).0) (record q { read_pump_error = no_error })
        _ (ap (λ d. d.trace) w.becomes)
      ∙ ap
          (λ t.
            t
            ++ written
                (lock_calls q.context ++ (writes q.context w.chunks ++ unlock_calls q.context)))
          none
      ∙ simp (trace_laws, append-nil) w.whole

  -- When the handshake is complete, the stream is open, the read pump has no error, the context has a write
  -- callback, nothing waits to be written and the packet has at most 256 octets, `asyncSend` begins one
  -- write: of the user frame of the packet, with the next sequence number; its handler waits for it.
  pub async_send-writes_frame :
      (p : Packet) (handler : SendHandler) (q : MessageQueue H Q S)
      → IsReady q
      → IsIdle q.context
      → FitsPacket p
      → q.write_buffer ≡ []
      → q.outbox ≡ []
      → q.writing ≡ []
      → let frame = encode_frame (make_header usr q.context.tx.seq) p in
        let r = async_send p handler q in
        (r.writing ≡ frame ∷ [])
        × (r.outbox ≡ record { buffer = frame; handler = handler } ∷ [])
        × (r.write_buffer ≡ [])
  unfolding after_packet
  async_send-writes_frame p handler q ready idle fits none empty no_write = (
    ap (λ r. r.writing) sent
        ∙ ap (λ t. t ++ after.write_buffer ∷ []) (quiet.same_writing ∙ no_write)
        ∙ ap (λ t. t ∷ []) octets,
    ap (λ r. r.outbox) sent
        ∙ ap (λ t. t ++ record { buffer = after.write_buffer; handler = handler } ∷ [])
            (quiet.same_outbox ∙ empty)
        ∙ ap (λ t. record { buffer = t; handler = handler } ∷ []) octets,
    ap (λ r. r.write_buffer) sent,
  )
    where
      cleared : MessageQueue H Q S
      cleared = record q { read_pump_error = no_error }

      after : MessageQueue H Q S
      after = after_packet p q

      octets : after.write_buffer ≡ encode_frame (make_header usr q.context.tx.seq) p
      octets = after_packet-write_buffer p q idle fits none

      quiet : Quiet cleared after
      quiet = on_context-Quiet (λ c. (write_packet p c).0) cleared

      sent : async_send p handler q ≡ record after {
        outbox = after.outbox ++ record { buffer = after.write_buffer; handler = handler } ∷ [];
        write_buffer = [];
        writing = after.writing ++ after.write_buffer ∷ [];
      }
      sent =
          async_send-ready p handler q ready
          ∙ flush-open handler after (quiet.same_outbox ∙ empty)
              (ap (λ t. length t == 0) octets
                ∙ encode_frame-filled (make_header usr q.context.tx.seq) p)
              (ap bs.is_open (on_context-stream (λ c. (write_packet p c).0) cleared)
                ∙ ready.open_stream)
