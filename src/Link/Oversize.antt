-- ===== src/Link/Oversize.antt =====
-- Packets that `sfpWritePacket` accepts and no receiver can take: with its CRC the frame is longer
-- than the packet buffer.
use libsfp.Base.{
  ℕ, ◌≤◌, ◌<◌, List, [], ◌∷◌, ◌++◌, ◌≡◌, refl, sym, ap, subst, ◌∙◌, true, length, ◌⊎◌, inl, inr,
  arith, append_assoc, length-append, none, ltb, low_bits, complement16, shr,
}
use libsfp.State.{
  Context, RingBuffer, Packet, new, nak, flag, crc_preset, crc_size, max_packet_size,
}
use libsfp.Crc.{crc_over, crc_trailer}
use libsfp.Frame.{encode_frame, make_header}
use libsfp.Transmit.{with_lock, transmit_nak}
use libsfp.Transmit.Frames.{IsIdle}
use libsfp.Trace.{deliveries}
use libsfp.Link.Refuse.{Answers}
use libsfp.Link.Damage.{nak-Answers}
use libsfp.Handle.{handle_frame, reset_receiver}
use libsfp.Receive.{deliver_octet, deliver_octets, take_octet}
use libsfp.Receive.Destuff.{with_payload, take_octets, take_octets-body, take_octets-append}
use libsfp.Receive.Whole.{deliver_octets-wrapped, first_flag, last_flag}

module _ {H : Type 0} ⦃rb : RingBuffer H⦄ where
  abbrev pub with_header : Context H → ℕ → Context H
  with_header c header = record c { rx = record c.rx { header = header } }

  -- An octet that does not fit resets the receiver.
  take_octet-full :
      (o : ℕ) (c : Context H) (h k : ℕ) (p : Packet)
      → length p ≡ max_packet_size
      → take_octet o (with_payload c h k p) ≡ reset_receiver (with_header c h)
  unfolding take_octet reset_receiver
  take_octet-full o c h k p full = ground (arith, full)

  take_octets-nil : (c : Context H) → take_octets [] c ≡ c
  unfolding take_octets
  take_octets-nil c = refl

  handle_frame-short :
      (c : Context H) (h k : ℕ) (rest : Packet)
      → length rest < crc_size
      → (handle_frame (with_payload c h k rest)).0
        ≡ with_lock (transmit_nak c.rx.seq) (with_payload c h k rest)
  unfolding handle_frame
  handle_frame-short c h k rest short = rw is_short refl
    where
      is_short : ltb (length rest) crc_size ≡ true
      is_short = ground arith

  -- So a full packet buffer and one more octet lose the frame.
  take_octets-full :
      (header o : ℕ) (payload more : List ℕ) (c : Context H)
      → length payload ≡ max_packet_size
      → take_octets (header ∷ payload ++ o ∷ more) (reset_receiver c)
        ≡ take_octets more (reset_receiver (with_header c header))
  take_octets-full header o payload more c full =
      take_octets-append (header ∷ payload) (o ∷ more) (reset_receiver c)
      ∙ ap (take_octets (o ∷ more)) (take_octets-body header payload c (omega arith))
      ∙ unfold take_octets in
        ap (take_octets more)
          (take_octet-full o c header (crc_over crc_preset (header ∷ payload)) payload full)

  module _ (c : Context H) (waits : c.rx.frame_state ≡ new) (header : ℕ) (payload : Packet) where
    abbrev trailer : List ℕ
    trailer = crc_trailer (crc_over crc_preset (header ∷ payload))

    abbrev last_octet : ℕ
    last_octet = low_bits (shr (complement16 (crc_over crc_preset (header ∷ payload))) 8) 8

    -- The second octet of the CRC is lost: the last flag ends an empty frame.
    deliver_octets-255 :
        length payload ≡ 255
        → deliver_octets (encode_frame header payload) c ≡ reset_receiver (with_header c header)
    unfolding encode_frame
    deliver_octets-255 len =
        deliver_octets-wrapped c (header ∷ payload ++ trailer) waits
        ∙ ap (λ x. (deliver_octet none flag x).0)
            (ap (λ x. take_octets (header ∷ x) (reset_receiver c))
                (sym (
                  append_assoc payload
                    (low_bits (complement16 (crc_over crc_preset (header ∷ payload))) 8 ∷ [])
                    (last_octet ∷ [])))
              ∙ take_octets-full header last_octet
                  (payload
                    ++ low_bits (complement16 (crc_over crc_preset (header ∷ payload))) 8 ∷ [])
                  [] c
                  (omega (
                    arith,
                    len,
                    length-append payload
                        (low_bits (complement16 (crc_over crc_preset (header ∷ payload))) 8 ∷ []),
                  ))
              ∙ take_octets-nil _)
        ∙ first_flag (reset_receiver (with_header c header)) (unfold reset_receiver in refl)
        ∙ unfold reset_receiver in refl

    -- The first octet of the CRC is lost, and the second is taken for a header.
    deliver_octets-256 :
        length payload ≡ 256
        → deliver_octets (encode_frame header payload) c
          ≡ reset_receiver
              (handle_frame
                (with_payload c last_octet (crc_over crc_preset (last_octet ∷ [])) [])).0
    unfolding encode_frame
    deliver_octets-256 len =
        deliver_octets-wrapped c (header ∷ payload ++ trailer) waits
        ∙ ap (λ x. (deliver_octet none flag x).0)
            (take_octets-full header _ payload (last_octet ∷ []) c len
              ∙ take_octets-body last_octet [] (with_header c header) (omega arith))
        ∙ last_flag _ refl

    nak_at_256 :
        IsIdle c
        → length payload ≡ 256
        → Answers c
            (encode_frame (make_header nak c.rx.seq) [])
            (deliver_octets (encode_frame header payload) c)
    nak_at_256 idle len =
        subst (Answers c (encode_frame (make_header nak c.rx.seq) []))
          (sym (
            deliver_octets-256 len
            ∙ ap reset_receiver (
                handle_frame-short c last_octet (crc_over crc_preset (last_octet ∷ [])) []
                  (omega arith))))
          (nak-Answers c idle last_octet (crc_over crc_preset (last_octet ∷ [])) [])

    -- A frame with a payload of 255 octets, whatever its header, vanishes at a receiver that waits for a
    -- frame: it makes no call at all, so it sends no NAK and delivers nothing, and it goes on expecting
    -- the same frame in the same state of the connection.
    pub deliver_octets-255_silent :
        length payload ≡ 255
        → let d = deliver_octets (encode_frame header payload) c in
          (d.trace ≡ c.trace) × (d.rx.seq ≡ c.rx.seq) × (d.connect_state ≡ c.connect_state)
    deliver_octets-255_silent len =
        let same = deliver_octets-255 len in
        (
          ap (λ x. x.trace) same ∙ unfold reset_receiver in refl,
          ap (λ x. x.rx.seq) same ∙ unfold reset_receiver in refl,
          ap (λ x. x.connect_state) same ∙ unfold reset_receiver in refl,
        )

    -- A frame with a payload of 255 or 256 octets, which `sfpWritePacket` accepts, is not delivered at a
    -- receiver that waits for a frame and has a write callback and an empty write buffer, whatever the
    -- frame's header; and the receiver goes on expecting the same frame.
    pub oversize_frame-lost :
        IsIdle c
        → 255 ≤ length payload
        → length payload ≤ max_packet_size
        → let d = deliver_octets (encode_frame header payload) c in
          (deliveries d.trace ≡ deliveries c.trace) × (d.rx.seq ≡ c.rx.seq)
    oversize_frame-lost idle low high = by_length sizes
      where
        sizes : (length payload ≡ 255) ⊎ (length payload ≡ 256)
        sizes = grind arith

        by_length :
            (length payload ≡ 255) ⊎ (length payload ≡ 256)
            → let d = deliver_octets (encode_frame header payload) c in
              (deliveries d.trace ≡ deliveries c.trace) × (d.rx.seq ≡ c.rx.seq)
        by_length (inl e) =
            let silent = deliver_octets-255_silent e in (ap deliveries silent.0, silent.1)
        by_length (inr e) = let asks = nak_at_256 idle e in (asks.delivers_none, asks.same_seq)
