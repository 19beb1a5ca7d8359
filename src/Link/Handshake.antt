-- ===== src/Link/Handshake.antt =====
-- The handshake: what the two ends make of `sfpConnect` at one of them.
use libsfp.Base.{[], ◌≡◌, sym, ap, ◌∙◌, true, is_some, arith, subst}
use libsfp.State.{Context, RingBuffer, sent_syn0, sent_syn1, connected, syn, new}
use libsfp.Frame.{make_header, encode_frame}
use libsfp.Transmit.Frames.{IsIdle}
use libsfp.Receive.{deliver_octets}
use libsfp.Api.{connect}
use libsfp.Trace.{deliveries}
use libsfp.Link.Delivery.{IsListening}
use libsfp.Link.Control.{wire, wire_lem}
use libsfp.Link.Greeting.{Greets, connect-Greets}
use libsfp.Link.Syns.{syn0-Greets, syn1-Greets, syn2-Greets}

module _ {H : Type 0} ⦃rb : RingBuffer H⦄ (a b : Context H) (a_ready : IsIdle a)
    (b_ready : IsIdle b) (a_deliver : is_some a.rx.deliver ≡ true)
    (b_deliver : is_some b.rx.deliver ≡ true) (b_waits : b.rx.frame_state ≡ new) where
  -- The two ends as the frames pass: SYN0 to `b`, SYN1 to `a`, SYN2 to `b`.
  abbrev begins : Context H
  begins = connect a

  abbrev answers : Context H
  answers = deliver_octets (wire a begins) b

  abbrev confirms : Context H
  confirms = deliver_octets (wire b answers) begins

  abbrev finishes : Context H
  finishes = deliver_octets (wire begins confirms) answers

  begun : Greets a (encode_frame (make_header syn 0) []) sent_syn0 new begins
  begun = connect-Greets a a_ready

  answered : Greets b (encode_frame (make_header syn 1) []) sent_syn1 new answers
  answered =
      subst
        (λ os. Greets b (encode_frame (make_header syn 1) []) sent_syn1 new (deliver_octets os b))
        (sym (wire_lem a begins _ begun.quiet.writes_octets)) (syn0-Greets b b_ready b_waits)

  confirmed : Greets begins (encode_frame (make_header syn 2) []) connected new confirms
  confirmed =
      subst
        (λ os.
          Greets begins (encode_frame (make_header syn 2) []) connected new
            (deliver_octets os begins))
        (sym (wire_lem b answers _ answered.quiet.writes_octets))
        (syn1-Greets begins begun.idle begun.frame_is begun.state_is begun.tx_seq begun.rx_seq)

  finished : Greets answers [] connected new finishes
  finished =
      subst (λ os. Greets answers [] connected new (deliver_octets os answers))
        (sym (wire_lem begins confirms _ confirmed.quiet.writes_octets))
        (syn2-Greets answers answered.idle answered.frame_is answered.state_is answered.tx_seq
          answered.rx_seq)

  -- The handshake. Both ends have a write and a deliver callback and empty write buffers, and `b`
  -- waits for a frame; whatever else is in their contexts. After `sfpConnect` at `a`, and each end taking
  -- the octets that the other has written, three times in turn, both are connected and listen, each
  -- sends with the number that the other expects, nothing has been delivered, and no octets are left
  -- that have not been taken.
  pub connect-connects :
      IsListening confirms
      × IsListening finishes
      × (confirms.tx.seq ≡ finishes.rx.seq)
      × (finishes.tx.seq ≡ confirms.rx.seq)
      × (deliveries confirms.trace ≡ deliveries a.trace)
      × (deliveries finishes.trace ≡ deliveries b.trace)
      × (wire answers finishes ≡ [])
      × IsIdle confirms
      × IsIdle finishes
  connect-connects = (
    record {
      up = confirmed.state_is;
      waits = confirmed.frame_is;
      has_deliver = ap is_some (confirmed.same_deliver ∙ begun.same_deliver) ∙ a_deliver;
      seq_lt = omega (arith, confirmed.rx_seq);
    },
    record {
      up = finished.state_is;
      waits = finished.frame_is;
      has_deliver = ap is_some (finished.same_deliver ∙ answered.same_deliver) ∙ b_deliver;
      seq_lt = omega (arith, finished.rx_seq);
    },
    confirmed.tx_seq ∙ sym finished.rx_seq,
    finished.tx_seq ∙ sym confirmed.rx_seq,
    confirmed.quiet.delivers_none ∙ begun.quiet.delivers_none,
    finished.quiet.delivers_none ∙ answered.quiet.delivers_none,
    wire_lem answers finishes [] finished.quiet.writes_octets,
    confirmed.idle,
    finished.idle,
  )
