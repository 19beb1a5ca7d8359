-- ===== src/Link/Damage.antt =====
-- Frames that the wire damaged, and frames that are too short.
use libsfp.Base.{
  ℕ, ◌+◌, ◌-◌, ◌≤◌, ◌<◌, List, [], ◌∷◌, ◌++◌, ◌≡◌, ◌≢◌, ◌⊎◌, refl, sym, ap, subst, ◌∙◌, false,
  length, arith, append-nil, length-append, ltb, ◌==◌, AreOctets, take,
}
use libsfp.State.{
  Context, RingBuffer, Packet, nak, new, flag, crc_good, crc_preset, crc_size, max_packet_size,
}
use libsfp.Crc.{crc_over, crc_trailer}
use libsfp.Crc.Residue.{crc_over-trailer}
use libsfp.Crc.Burst.{crc_over_burst}
use libsfp.Frame.{make_header, encode_frame, frame_body, stuff}
use libsfp.Transmit.{with_lock, transmit_nak, transmit_control}
use libsfp.Transmit.Frames.{IsIdle}
use libsfp.Transmit.Locked.{Replies, with_lock_control-Replies}
use libsfp.Handle.{handle_frame, reset_receiver}
use libsfp.Receive.{deliver_octets}
use libsfp.Receive.Destuff.{with_payload}
use libsfp.Receive.Whole.{deliver_octets-body}
use libsfp.Trace.{written, deliveries}
use libsfp.Link.Delivery.{FitsFrame}
use libsfp.Link.Refuse.{Answers, Replies-Answers}

body_length :
    (header : ℕ) (payload before after : List ℕ)
    → frame_body header payload ≡ before ++ after
    → length payload + 3 ≡ length before + length after
body_length header payload before after e = omega (
  arith,
  ap length e,
  length-append payload (crc_trailer (crc_over crc_preset (header ∷ payload))),
  length-append before after,
)

module _ {H : Type 0} ⦃rb : RingBuffer H⦄ (c : Context H) (idle : IsIdle c) where
  -- The NAK for the expected frame, sent with a frame in the packet buffer that was not accepted.
  pub nak-Answers :
      (h k : ℕ) (rest : Packet)
      → Answers c
          (encode_frame (make_header nak c.rx.seq) [])
          (reset_receiver (with_lock (transmit_nak c.rx.seq) (with_payload c h k rest)))
  unfolding transmit_nak
  nak-Answers h k rest =
      Replies-Answers c h k rest [] idle (unfold written in refl) (unfold deliveries in refl) (
        subst
          (λ t.
            Replies (record (with_payload c h k rest) { trace = t }) (make_header nak c.rx.seq) []
              (with_lock (transmit_control nak c.rx.seq) (with_payload c h k rest)))
          (sym (append-nil c.trace))
          (with_lock_control-Replies nak c.rx.seq (with_payload c h k rest)
            (record { has_writer = idle.has_writer; flushed = idle.flushed })))

  handle_frame-mismatch :
      (h k : ℕ) (rest : Packet)
      → crc_size ≤ length rest
      → k ≢ crc_good
      → (handle_frame (with_payload c h k rest)).0
        ≡ with_lock
            (transmit_nak c.rx.seq)
            (with_payload c h k (take (length rest - crc_size) rest))
  unfolding handle_frame
  handle_frame-mismatch h k rest long bad = rw (is_long, is_bad) refl
    where
      is_long : ltb (length rest) crc_size ≡ false
      is_long = ground arith

      is_bad : (k == crc_good) ≡ false
      is_bad = ground (arith, bad)

  mismatch-Answers :
      (h : ℕ) (rest : Packet)
      → c.rx.frame_state ≡ new
      → length rest ≤ max_packet_size
      → crc_size ≤ length rest
      → crc_over crc_preset (h ∷ rest) ≢ crc_good
      → Answers c
          (encode_frame (make_header nak c.rx.seq) [])
          (deliver_octets (flag ∷ stuff (h ∷ rest) ++ flag ∷ []) c)
  mismatch-Answers h rest waits fits long bad =
      subst (Answers c (encode_frame (make_header nak c.rx.seq) []))
        (sym (
          deliver_octets-body c h rest waits fits
          ∙ ap reset_receiver
              (handle_frame-mismatch h (crc_over crc_preset (h ∷ rest)) rest long bad)))
        (nak-Answers h (crc_over crc_preset (h ∷ rest)) (take (length rest - crc_size) rest))

  damaged-mismatch :
      (header : ℕ) (payload before after : List ℕ) (a b z w : ℕ)
      → AreOctets after
      → (a < 256) × (b < 256) × (z < 256) × (w < 256)
      → (a ≢ b) ⊎ (z ≢ w)
      → frame_body header payload ≡ before ++ a ∷ z ∷ after
      → crc_over crc_preset (before ++ b ∷ w ∷ after) ≢ crc_good
  damaged-mismatch header payload before after a b z w are lt differ body e =
      crc_over_burst before after crc_preset a b z w are (omega arith) lt.0 lt.1 lt.2 lt.3 differ (
        ap (crc_over crc_preset) (sym body)
        ∙ crc_over-trailer crc_preset (header ∷ payload) (omega arith)
        ∙ sym e)

  -- A receiver with a write callback and an empty write buffer waits for a frame. A frame with a
  -- payload of at most 254 octets in which one or both of two neighbouring octets arrive changed into
  -- other octets, header and CRC included, before they are stuffed, is not delivered: it is answered
  -- by a NAK for the expected frame, and the receiver waits as before.
  pub deliver_octets-damaged :
      (header : ℕ) (payload before after : List ℕ) (a b z w : ℕ)
      → c.rx.frame_state ≡ new
      → FitsFrame payload
      → AreOctets after
      → (a < 256) × (b < 256) × (z < 256) × (w < 256)
      → (a ≢ b) ⊎ (z ≢ w)
      → frame_body header payload ≡ before ++ a ∷ z ∷ after
      → Answers c
          (encode_frame (make_header nak c.rx.seq) [])
          (deliver_octets (flag ∷ stuff (before ++ b ∷ w ∷ after) ++ flag ∷ []) c)
  deliver_octets-damaged header payload [] after a b z w waits fits are lt differ body =
      mismatch-Answers b (w ∷ after) waits (omega (arith, same_length, fits))
        (omega (arith, same_length))
        (damaged-mismatch header payload [] after a b z w are lt differ body)
    where
      same_length : length payload + 2 ≡ length (z ∷ after)
      same_length = omega (arith, body_length header payload [] (a ∷ z ∷ after) body)
  deliver_octets-damaged header payload (x ∷ before) after a b z w waits fits are lt differ body =
      mismatch-Answers x (before ++ b ∷ w ∷ after) waits
        (omega (arith, same_length, length-append before (b ∷ w ∷ after), fits))
        (omega (arith, length-append before (b ∷ w ∷ after)))
        (damaged-mismatch header payload (x ∷ before) after a b z w are lt differ body)
    where
      same_length : length payload + 2 ≡ length before + length (a ∷ z ∷ after)
      same_length = omega (
        arith,
        body_length header payload (x ∷ before) (a ∷ z ∷ after) body,
        length-append before (a ∷ z ∷ after),
      )
