-- ===== src/Link/Refuse.antt =====
-- A user frame that is not the expected one.
use libsfp.Base.{
  ℕ, ◌<◌, List, [], ◌++◌, ◌≡◌, ◌≢◌, refl, sym, ap, subst, ◌∙◌, is_some, append-nil, if◌then◌else◌,
}
use libsfp.State.{Context, RingBuffer, Effect, Packet, usr, nak, new, crc_good}
use libsfp.Frame.{get_frame_type, get_frame_seq, make_header, encode_frame, same_type}
use libsfp.Frame.Header.{get_frame_type-make_header}
use libsfp.Transmit.{with_lock, transmit_nak, transmit_control}
use libsfp.Transmit.Frames.{IsIdle}
use libsfp.Transmit.Locked.{lock_calls, unlock_calls, calling, Replies, with_lock_control-Replies}
use libsfp.Handle.{handle_usr, handle_by_type, reset_receiver}
use libsfp.Receive.{deliver_octets}
use libsfp.Receive.Destuff.{with_payload}
use libsfp.Receive.Whole.{with_frame, deliver_octets-encode_frame}
use libsfp.Trace.{written, deliveries, trace_laws}
use libsfp.Link.Accept.{IsUser, handle_usr-connected, accept_usr-unexpected}
use libsfp.Link.Delivery.{IsListening, FitsFrame, handle_by_type-user}

module _ {H : Type 0} where
  -- `d` is `c` after it put these octets on the wire and delivered nothing: it waits for a frame, and
  -- what it expects and the state of the connection are what they were.
  pub record Answers (c : Context H) (octets : List ℕ) (d : Context H) : Type 0 where
    pub writes_octets : written d.trace ≡ written c.trace ++ octets
    pub delivers_none : deliveries d.trace ≡ deliveries c.trace
    pub waits : d.rx.frame_state ≡ new
    pub same_seq : d.rx.seq ≡ c.rx.seq
    pub same_deliver : d.rx.deliver ≡ c.rx.deliver
    pub same_state : d.connect_state ≡ c.connect_state
    pub idle : IsIdle d

  pub Answers-IsListening :
      {c d : Context H} {os : List ℕ} → Answers c os d → IsListening c → IsListening d
  Answers-IsListening a on = record {
    up = a.same_state ∙ on.up;
    waits = a.waits;
    has_deliver = ap is_some a.same_deliver ∙ on.has_deliver;
    seq_lt = rw a.same_seq on.seq_lt;
  }

  -- A control frame that goes out under the lock, in answer to a frame, seen from the wire.
  pub Replies-Answers :
      (c : Context H) (taken crc : ℕ) (payload : Packet) (calls : List Effect)
      → {d : Context H} {header : ℕ} → IsIdle c
      → written calls ≡ []
      → deliveries calls ≡ []
      → Replies (calling (with_payload c taken crc payload) calls) header [] d
      → Answers c (encode_frame header []) (reset_receiver d)
  unfolding reset_receiver
  Replies-Answers c taken crc payload calls idle no_octets none_delivered r =
      let b : Context H = calling (with_payload c taken crc payload) calls in
      record {
        writes_octets =
            ap (λ x. written x.trace) r.becomes
            ∙ simp (trace_laws, no_octets, append-nil) (ap (λ x. written c.trace ++ x) r.whole);
        delivers_none =
            ap (λ x. deliveries x.trace) r.becomes ∙ simp (trace_laws, none_delivered, append-nil);
        waits = refl;
        same_seq = ap (λ x. x.rx.seq) r.becomes;
        same_deliver = ap (λ x. x.rx.deliver) r.becomes;
        same_state = ap (λ x. x.connect_state) r.becomes;
        idle = record {
          has_writer = ap (λ x. is_some x.tx.write) r.becomes ∙ idle.has_writer;
          flushed = ap (λ x. x.tx.writebuf) r.becomes;
        };
      }

  refused-Answers :
      (c : Context H) (s : ℕ) (payload : Packet)
      → IsListening c
      → IsIdle c
      → s < 64
      → s ≢ c.rx.seq
      → Answers c
          (encode_frame (make_header nak c.rx.seq) [])
          (reset_receiver (handle_usr (with_frame c (make_header usr s) payload)).0)
  refused-Answers c s payload on idle lt other = rw refuses (
      Replies-Answers c (make_header usr s) crc_good payload calls idle (simp trace_laws)
        (simp trace_laws)
        (with_lock_control-Replies nak c.rx.seq asked
          (record { has_writer = idle.has_writer; flushed = idle.flushed })))
    where
      framed : Context H
      framed = with_frame c (make_header usr s) payload

      calls : List Effect
      calls = lock_calls framed ++ unlock_calls framed

      asked : Context H
      asked = calling framed calls

      fields : (get_frame_type (make_header usr s) ≡ usr) × (get_frame_seq (make_header usr s) ≡ s)
      fields = get_frame_type-make_header usr s lt

      nak_sent :
          (if same_type usr (get_frame_type (make_header usr s))
            then with_lock (transmit_nak c.rx.seq) asked
            else asked)
          ≡ with_lock (transmit_control nak c.rx.seq) asked
      nak_sent = rw fields.0 (unfold same_type transmit_nak in refl)

      user : IsUser (get_frame_type (make_header usr s))
      user = rw fields.0 (unfold same_type in refl)

      refuses : (handle_usr framed).0 ≡ with_lock (transmit_control nak c.rx.seq) asked
      refuses =
          ap (λ x. x.0)
            (handle_usr-connected framed on.up user
              ∙ accept_usr-unexpected asked (λ e. other (sym fields.1 ∙ e)))
          ∙ nak_sent

module _ {H : Type 0} ⦃rb : RingBuffer H⦄ where
  -- A connected receiver with a write and a deliver callback and an empty write buffer waits for a
  -- frame. A new user frame with a payload of at most 254 octets and another sequence number than the
  -- expected one is not delivered: a NAK for the expected one is the answer.
  pub deliver_octets-unexpected :
      (c : Context H) (s : ℕ) (payload : Packet)
      → IsListening c
      → IsIdle c
      → FitsFrame payload
      → s < 64
      → s ≢ c.rx.seq
      → Answers c
          (encode_frame (make_header nak c.rx.seq) [])
          (deliver_octets (encode_frame (make_header usr s) payload) c)
  deliver_octets-unexpected c s payload on idle fits lt other =
      subst (Answers c (encode_frame (make_header nak c.rx.seq) [])) (sym handled)
        (refused-Answers c s payload on idle lt other)
    where
      framed : Context H
      framed = with_frame c (make_header usr s) payload

      handled :
          deliver_octets (encode_frame (make_header usr s) payload) c
          ≡ reset_receiver (handle_usr framed).0
      handled =
          deliver_octets-encode_frame c (make_header usr s) payload on.waits fits
          ∙ ap (λ t. reset_receiver (handle_by_type t framed).0)
              (get_frame_type-make_header usr s lt).0
          ∙ ap (λ x. reset_receiver x.0) (handle_by_type-user usr framed (unfold same_type in refl))
