-- ===== src/Link/Recovery.antt =====
-- The two ends of a connected link together: from `sfpWritePacket` to the deliver callback, with and
-- without the loss of frames.
use libsfp.Base.{
  ℕ, ◌+◌, ◌%◌, ◌≤◌, ◌<◌, List, [], ◌∷◌, ◌++◌, ◌≡◌, refl, sym, ap, ◌∙◌, length, arith, All,
  append-nil, length-append,
}
use libsfp.State.{Context, RingBuffer, Packet, usr, rtx, nak, connected, new, history_capacity}
use libsfp.Frame.{make_header, encode_frame, same_type}
use libsfp.Transmit.Frames.{IsIdle}
use libsfp.History.Resend.{frames_from, frames_from-append, seq_after, seq_after_lem}
use libsfp.Receive.{deliver_octets}
use libsfp.Trace.{written, deliveries}
use libsfp.Link.Delivery.{IsListening, FitsFrame, Receives, deliver_octets-frames}
use libsfp.Link.Sending.{write_packets, WritesAll, write_packets-WritesAll, FitsPacket}
use libsfp.Link.Kept.{write_packets-history}
use libsfp.Link.Refuse.{Answers, Answers-IsListening, deliver_octets-unexpected}
use libsfp.Link.Control.{wire, wire_lem}
use libsfp.Link.Resync.{deliver_octets-nak}

fits_packets : (ps : List Packet) → All FitsFrame ps → All FitsPacket ps
fits_packets [] fits = tt
fits_packets (p ∷ ps) fits = (omega arith, fits_packets ps fits.1)

module _ {H : Type 0} ⦃rb : RingBuffer H⦄ (a b : Context H) (ready : IsIdle a) (on : IsListening b)
    (in_step : a.tx.seq ≡ b.rx.seq) where
  -- One end has a write callback and an empty write buffer; the other is connected, has a deliver
  -- callback, waits for a frame, and expects the number that the first sends next, below 64. Then
  -- the packets that the first writes, each of at most 254 octets, are delivered at the other from the
  -- octets that were written, once each and in order; nothing is sent back, the other goes on
  -- listening, and it expects the number that the first sends next.
  pub write_packets-delivered :
      (ps : List Packet)
      → All FitsFrame ps
      → let c = write_packets ps a in
        let d = deliver_octets (wire a c) b in
        (deliveries d.trace ≡ deliveries b.trace ++ ps)
        × (written d.trace ≡ written b.trace)
        × (c.tx.seq ≡ d.rx.seq)
        × IsListening d
  write_packets-delivered ps fits = rw octets (got.delivers, got.silent, same, got.listens)
    where
      sent : WritesAll a ps (write_packets ps a)
      sent = write_packets-WritesAll ps a ready (fits_packets ps fits)

      octets : wire a (write_packets ps a) ≡ frames_from usr b.rx.seq ps
      octets =
          wire_lem a (write_packets ps a) (frames_from usr a.tx.seq ps) sent.writes_frames
          ∙ ap (λ s. frames_from usr s ps) in_step

      got : Receives b ps (deliver_octets (frames_from usr b.rx.seq ps) b)
      got = deliver_octets-frames usr ps b (unfold same_type in refl) on fits

      same : (write_packets ps a).tx.seq ≡ (deliver_octets (frames_from usr b.rx.seq ps) b).rx.seq
      same = sent.seq_is ∙ ap (λ s. seq_after s ps) in_step ∙ sym got.seq_is

  module _ (up : a.connect_state ≡ connected) (waits : a.rx.frame_state ≡ new) (b_ready : IsIdle b)
      (lost : List Packet) (p : Packet) (some_lost : 0 < length lost)
      (held : length lost + 1 ≤ history_capacity) (fits : All FitsFrame (lost ++ p ∷ [])) where
    -- The sender after all the packets, and the frame of the last one, which alone arrives.
    abbrev sender : Context H
    sender = write_packets (lost ++ p ∷ []) a

    abbrev arrives : List ℕ
    arrives = encode_frame (make_header usr (seq_after a.tx.seq lost)) p

    abbrev asks : Context H
    asks = deliver_octets arrives b

    abbrev resends : Context H
    resends = deliver_octets (wire b asks) sender

    abbrev receiver : Context H
    receiver = deliver_octets (wire sender resends) asks

    sent : WritesAll a (lost ++ p ∷ []) sender
    sent = write_packets-WritesAll (lost ++ p ∷ []) a ready (fits_packets (lost ++ p ∷ []) fits)

    ahead : seq_after a.tx.seq lost ≡ (b.rx.seq + length lost) % 64
    ahead = ap (λ s. seq_after s lost) in_step ∙ seq_after_lem lost b.rx.seq on.seq_lt

    refusal : Answers b (encode_frame (make_header nak b.rx.seq) []) asks
    refusal =
        deliver_octets-unexpected b (seq_after a.tx.seq lost) p on b_ready (last_fits lost fits)
          (omega (arith, ahead)) (λ e. omega (arith, ahead, on.seq_lt, e))
      where
        last_fits : (ps : List Packet) → All FitsFrame (ps ++ p ∷ []) → FitsFrame p
        last_fits [] f = f.0
        last_fits (q ∷ ps) f = last_fits ps f.1

    refusal_wire : wire b asks ≡ encode_frame (make_header nak b.rx.seq) []
    refusal_wire = wire_lem b asks _ refusal.writes_octets

    window : sender.tx.seq ≡ (b.rx.seq + length (lost ++ p ∷ [])) % 64
    window =
        sent.seq_is
        ∙ ap (λ s. seq_after s (lost ++ p ∷ [])) in_step
        ∙ seq_after_lem (lost ++ p ∷ []) b.rx.seq on.seq_lt

    answer :
        let d = deliver_octets (encode_frame (make_header nak b.rx.seq) []) sender in
        Answers sender (frames_from rtx b.rx.seq (lost ++ p ∷ [])) d
        × (d.tx.seq ≡ sender.tx.seq)
        × (rb.to_list d.tx.history ≡ lost ++ p ∷ [])
    answer =
        let kept =
          write_packets-history (lost ++ p ∷ []) (rb.to_list a.tx.history) [] a ready
            (fits_packets (lost ++ p ∷ []) fits) (sym (append-nil _))
            (omega (arith, length-append lost (p ∷ []), held)) in
        deliver_octets-nak sender b.rx.seq kept.0 (lost ++ p ∷ []) (sent.same_state ∙ up)
          (ap (λ r. r.frame_state) sent.same_rx ∙ waits) sent.idle kept.1
          (omega (arith, length-append lost (p ∷ []))) on.seq_lt window

    resent_wire : wire sender resends ≡ frames_from rtx asks.rx.seq (lost ++ p ∷ [])
    resent_wire =
        wire_lem sender resends (frames_from rtx b.rx.seq (lost ++ p ∷ []))
          (rw refusal_wire (answer.0.writes_octets))
        ∙ ap (λ s. frames_from rtx s (lost ++ p ∷ [])) (sym refusal.same_seq)

    recovered : Receives asks (lost ++ p ∷ []) receiver
    recovered = rw resent_wire (
        deliver_octets-frames rtx (lost ++ p ∷ []) asks (unfold same_type in refl)
          (Answers-IsListening refusal on) fits)

    -- Recovery from loss. Both ends are connected, have a write callback and an empty write buffer, and
    -- wait for a frame; the second has a deliver callback, and expects the number that the first
    -- sends next, below 64. The first writes two packets or more of at most 254 octets, no more than
    -- the history holds. Their frames go out one after another, and only the last arrives. When the
    -- second has taken it, the first what the second wrote then, and the second what the first wrote
    -- then, all the packets have been delivered, once each and in order; the second listens, and
    -- expects the number that the first sends next.
    pub lost_frames-recovered :
        (wire a sender ≡ frames_from usr a.tx.seq lost ++ arrives)
        × (deliveries receiver.trace ≡ deliveries b.trace ++ (lost ++ p ∷ []))
        × (resends.tx.seq ≡ receiver.rx.seq)
        × IsListening receiver
    lost_frames-recovered = (
      wire_lem a sender _ sent.writes_frames
          ∙ frames_from-append usr lost (p ∷ []) a.tx.seq
          ∙ ap (λ x. frames_from usr a.tx.seq lost ++ x) (unfold frames_from in append-nil arrives),
      recovered.delivers ∙ ap (λ x. x ++ (lost ++ p ∷ [])) refusal.delivers_none,
      rw refusal_wire (answer.1)
          ∙ sent.seq_is
          ∙ ap (λ s. seq_after s (lost ++ p ∷ [])) (in_step ∙ sym refusal.same_seq)
          ∙ sym recovered.seq_is,
      recovered.listens,
    )
