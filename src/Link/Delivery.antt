-- ===== src/Link/Delivery.antt =====
-- Consecutive user frames at a connected receiver.
use libsfp.Base.{
  ℕ, ◌+◌, ◌≤◌, ◌<◌, List, [], ◌∷◌, ◌++◌, ◌≡◌, refl, sym, ap, ◌∙◌, true, is_some, length,
  append_assoc, append-nil, All,
}
use libsfp.State.{
  Context, RingBuffer, Packet, FrameType, usr, rtx, nak, syn, connected, new, normal, delivered,
  crc_size, crc_preset, max_packet_size,
}
use libsfp.Frame.{get_frame_type, get_frame_seq, next_seq, make_header, encode_frame, same_type}
use libsfp.Frame.Header.{get_frame_type-make_header, next_seq-lt}
use libsfp.Transmit.Locked.{lock_calls, unlock_calls, calling, lock_calls-tx, unlock_calls-tx}
use libsfp.Handle.{handle_usr, handle_by_type, reset_receiver}
use libsfp.Receive.{deliver_octets}
use libsfp.Receive.Destuff.{deliver_octets-append}
use libsfp.Receive.Whole.{with_frame, deliver_octets-encode_frame}
use libsfp.History.Resend.{frames_from, seq_after}
use libsfp.Trace.{written, deliveries, trace_laws}
use libsfp.Link.Accept.{IsUser, delivery_calls, handle_usr-connected, accept_usr-expected}

-- The payload fits the receiver's packet buffer together with its CRC.
abbrev pub FitsFrame : Packet → Type 0
FitsFrame p = length p + crc_size ≤ max_packet_size

-- A connected context between two frames, with a deliver callback.
pub record IsListening {H : Type 0} (c : Context H) : Type 0 where
  pub up : c.connect_state ≡ connected
  pub waits : c.rx.frame_state ≡ new
  pub has_deliver : is_some c.rx.deliver ≡ true
  pub seq_lt : c.rx.seq < 64

module _ {H : Type 0} where
  -- The context after it took a user frame.
  abbrev pub received : Context H → ℕ → Packet → Context H
  received c header payload = record c {
    rx = record c.rx {
      seq = next_seq c.rx.seq;
      crc = crc_preset;
      escape_state = normal;
      frame_state = new;
      header = header;
      packet = [];
    };
    trace = c.trace ++ delivery_calls c payload;
  }

  handle_usr-expected :
      (c : Context H) (t : FrameType) (payload : Packet)
      → IsUser t
      → IsListening c
      → reset_receiver (handle_usr (with_frame c (make_header t c.rx.seq) payload)).0
        ≡ received c (make_header t c.rx.seq) payload
  unfolding reset_receiver
  handle_usr-expected c t payload user on =
      ap (λ x. reset_receiver x.0)
        (handle_usr-connected framed on.up (rw fields.0 user)
          ∙ accept_usr-expected (calling framed (lock_calls framed ++ unlock_calls framed)) fields.1
              on.has_deliver)
      ∙ ap (λ t. record (received c header payload) { trace = t }) calls
    where
      header : ℕ
      header = make_header t c.rx.seq

      framed : Context H
      framed = with_frame c header payload

      fields : (get_frame_type header ≡ t) × (get_frame_seq header ≡ c.rx.seq)
      fields = get_frame_type-make_header t c.rx.seq on.seq_lt

      calls :
          (c.trace ++ (lock_calls framed ++ unlock_calls framed))
            ++ delivered c.rx.deliver c.rx.deliver_data payload ∷ []
          ≡ c.trace ++ delivery_calls c payload
      calls = rw (lock_calls-tx framed c refl, unlock_calls-tx framed c refl) (simp append_assoc)

module _ {H : Type 0} ⦃rb : RingBuffer H⦄ where
  pub handle_by_type-user :
      (t : FrameType) (c : Context H) → IsUser t → handle_by_type t c ≡ handle_usr c
  unfolding handle_by_type same_type
  handle_by_type-user usr c user = refl
  handle_by_type-user rtx c user = refl
  handle_by_type-user nak c user = cc
  handle_by_type-user syn c user = cc

  -- A user frame, new or retransmitted, with the expected sequence number and a payload of at most 254
  -- octets, at a connected receiver that waits for a frame and has a deliver callback: the lock is taken
  -- and given back, the payload is delivered, the receiver waits for a frame, and expects the next;
  -- nothing else is changed but the header it saw last.
  pub deliver_octets-expected :
      (c : Context H) (t : FrameType) (payload : Packet)
      → IsUser t
      → IsListening c
      → FitsFrame payload
      → deliver_octets (encode_frame (make_header t c.rx.seq) payload) c
        ≡ received c (make_header t c.rx.seq) payload
  deliver_octets-expected c t payload user on fits =
      deliver_octets-encode_frame c header payload on.waits fits
      ∙ ap (λ x. reset_receiver (handle_by_type x (with_frame c header payload)).0)
          (get_frame_type-make_header t c.rx.seq on.seq_lt).0
      ∙ ap (λ x. reset_receiver x.0) (handle_by_type-user t (with_frame c header payload) user)
      ∙ handle_usr-expected c t payload user on
    where
      header : ℕ
      header = make_header t c.rx.seq

  -- `d` is `c` after it delivered `ps` to its user, in order, and nothing else: it listens, expects
  -- the frame behind them, has put nothing on the wire, and its transmitter is as it was.
  pub record Receives (c : Context H) (ps : List Packet) (d : Context H) : Type 0 where
    pub listens : IsListening d
    pub seq_is : d.rx.seq ≡ seq_after c.rx.seq ps
    pub same_tx : d.tx ≡ c.tx
    pub delivers : deliveries d.trace ≡ deliveries c.trace ++ ps
    pub silent : written d.trace ≡ written c.trace

  pub received-IsListening :
      (c : Context H) (header : ℕ) (p : Packet) → IsListening c → IsListening (received c header p)
  received-IsListening c header p on = record {
    up = on.up;
    waits = refl;
    has_deliver = on.has_deliver;
    seq_lt = next_seq-lt c.rx.seq;
  }

  received-deliveries :
      (c : Context H) (header : ℕ) (p : Packet)
      → (deliveries (received c header p).trace ≡ deliveries c.trace ++ p ∷ [])
        × (written (received c header p).trace ≡ written c.trace)
  unfolding deliveries written
  received-deliveries c header p = (simp trace_laws, simp (trace_laws, append-nil))

  Receives-cons :
      {c d : Context H} (header : ℕ) {p : Packet} {ps : List Packet}
      → Receives (received c header p) ps d
      → Receives c (p ∷ ps) d
  Receives-cons {c} header {p} {ps} rest = record {
    listens = rest.listens;
    seq_is = rest.seq_is ∙ unfold seq_after in refl;
    same_tx = rest.same_tx;
    delivers =
        rest.delivers
        ∙ ap (λ x. x ++ ps) (received-deliveries c header p).0
        ∙ append_assoc (deliveries c.trace) (p ∷ []) ps;
    silent = rest.silent ∙ (received-deliveries c header p).1;
  }

  -- Consecutive user frames, new or retransmitted, from the expected one on, with payloads of at most
  -- 254 octets, at a connected receiver that waits for a frame and has a deliver callback: all the
  -- payloads are delivered, once each and in order, nothing is sent, and the receiver listens for
  -- the frame after them.
  pub deliver_octets-frames :
      (t : FrameType) (ps : List Packet) (c : Context H)
      → IsUser t
      → IsListening c
      → All FitsFrame ps
      → Receives c ps (deliver_octets (frames_from t c.rx.seq ps) c)
  deliver_octets-frames t [] c user on fits = rw none_left (record {
    listens = on;
    seq_is = unfold seq_after in refl;
    same_tx = refl;
    delivers = sym (append-nil _);
    silent = refl;
  })
    where
      none_left : deliver_octets (frames_from t c.rx.seq []) c ≡ c
      none_left = unfold frames_from deliver_octets in refl
  deliver_octets-frames t (p ∷ ps) c user on fits = rw one_more (
      Receives-cons header (
        deliver_octets-frames t ps (received c header p) user (received-IsListening c header p on)
          fits.1))
    where
      header : ℕ
      header = make_header t c.rx.seq

      one_more :
          deliver_octets (frames_from t c.rx.seq (p ∷ ps)) c
          ≡ deliver_octets (frames_from t (next_seq c.rx.seq) ps) (received c header p)
      one_more =
          unfold frames_from in
          deliver_octets-append (encode_frame header p) (frames_from t (next_seq c.rx.seq) ps) c
          ∙ ap (deliver_octets (frames_from t (next_seq c.rx.seq) ps))
              (deliver_octets-expected c t p user on fits.0)
