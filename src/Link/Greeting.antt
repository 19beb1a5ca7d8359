-- ===== src/Link/Greeting.antt =====
-- What a step of the handshake does, `sfpConnect` first: the frame it sends, the state it comes to.
use libsfp.Base.{ℕ, ◌<◌, List, [], ◌++◌, ◌≡◌, refl, sym, ap, ◌∙◌, is_some, subst}
use libsfp.State.{
  Context, RingBuffer, Effect, ConnectState, sent_syn0, FrameState, syn, new, initial_seq,
}
use libsfp.Frame.{make_header, encode_frame}
use libsfp.Transmit.{with_lock, transmit_syn0, transmit_control}
use libsfp.Transmit.Sends.{writes, with_wire}
use libsfp.Transmit.Frames.{IsIdle}
use libsfp.Transmit.Locked.{lock_calls, calling, transmit_control-SendsFrame}
use libsfp.History.{clear_history}
use libsfp.Handle.{handle_syn, reset_receiver}
use libsfp.Receive.{deliver_octets}
use libsfp.Receive.Whole.{with_frame}
use libsfp.Api.{connect, start_handshake}
use libsfp.Trace.{written, deliveries, written-writes, deliveries-writes}
use libsfp.Link.Control.{Quiet, with_lock-Quiet, with_lock-fields, deliver_octets-syn}

module _ {H : Type 0} where
  -- `d` is `c` after a step of the handshake that put these octets on the wire and came to this state:
  -- nothing is delivered, and both sequence numbers are the initial one.
  pub record Greets (c : Context H) (octets : List ℕ) (s : ConnectState) (f : FrameState)
      (d : Context H) : Type 0 where
    pub quiet : Quiet c octets d
    pub state_is : d.connect_state ≡ s
    pub tx_seq : d.tx.seq ≡ initial_seq
    pub rx_seq : d.rx.seq ≡ initial_seq
    pub frame_is : d.rx.frame_state ≡ f
    pub same_deliver : d.rx.deliver ≡ c.rx.deliver
    pub idle : IsIdle d

  Greets-reset :
      {c d : Context H} {os : List ℕ} {s : ConnectState} {f : FrameState}
      → Greets c os s f d
      → Greets c os s new (reset_receiver d)
  unfolding reset_receiver
  Greets-reset g = record {
    quiet = record { writes_octets = g.quiet.writes_octets; delivers_none = g.quiet.delivers_none };
    state_is = g.state_is;
    tx_seq = g.tx_seq;
    rx_seq = g.rx_seq;
    frame_is = refl;
    same_deliver = g.same_deliver;
    idle = record { has_writer = g.idle.has_writer; flushed = g.idle.flushed };
  }

  -- A body that runs under the lock and makes these calls, seen by its result.
  pub with_lock-Greets :
      (body : Context H → Context H) (c e : Context H) (calls : List Effect) (octets : List ℕ)
      → body (calling c (lock_calls c)) ≡ e
      → e.trace ≡ (c.trace ++ lock_calls c) ++ calls
      → written calls ≡ octets
      → deliveries calls ≡ []
      → e.tx.seq ≡ initial_seq
      → e.rx.seq ≡ initial_seq
      → e.rx.deliver ≡ c.rx.deliver
      → IsIdle e
      → Greets c octets e.connect_state e.rx.frame_state (with_lock body c)
  with_lock-Greets body c e calls octets ends trace octets_are none_delivered tx_seq rx_seq deliver
        idle =
      let same = with_lock-fields body c in
      let tx = same.0 ∙ ap (λ x. x.tx) ends in
      let rx = same.1 ∙ ap (λ x. x.rx) ends in
      record {
        quiet =
            with_lock-Quiet body c calls octets (ap (λ x. x.trace) ends ∙ trace) octets_are
              none_delivered;
        state_is = same.2 ∙ ap (λ x. x.connect_state) ends;
        tx_seq = ap (λ t. t.seq) tx ∙ tx_seq;
        rx_seq = ap (λ r. r.seq) rx ∙ rx_seq;
        frame_is = ap (λ r. r.frame_state) rx;
        same_deliver = ap (λ r. r.deliver) rx ∙ deliver;
        idle = record {
          has_writer = ap (λ t. is_some t.write) tx ∙ idle.has_writer;
          flushed = ap (λ t. t.writebuf) tx ∙ idle.flushed;
        };
      }

  -- A body that sends one control frame from `y`, and comes to the state `s`.
  pub control-Greets :
      (body : Context H → Context H) (c y : Context H) (seq : ℕ) (s : ConnectState)
      → IsIdle y
      → body (calling c (lock_calls c)) ≡ record (transmit_control syn seq y) { connect_state = s }
      → y.trace ≡ c.trace ++ lock_calls c
      → y.tx.seq ≡ initial_seq
      → y.rx.seq ≡ initial_seq
      → y.rx.deliver ≡ c.rx.deliver
      → Greets c (encode_frame (make_header syn seq) []) s y.rx.frame_state (with_lock body c)
  control-Greets body c y seq s idle is trace tx_seq rx_seq deliver =
      let sent = transmit_control-SendsFrame syn seq y idle in
      let calls = writes y sent.chunks in
      with_lock-Greets body c (record (with_wire y sent.crc [] calls) { connect_state = s }) calls
        (encode_frame (make_header syn seq) [])
        (is ∙ ap {A = Context H} (λ x. record x { connect_state = s }) sent.becomes)
        (ap (λ t. t ++ calls) trace)
        (written-writes y.tx.write y.tx.write_data sent.chunks ∙ sent.whole)
        (deliveries-writes y.tx.write y.tx.write_data sent.chunks) tx_seq rx_seq deliver
        (record { has_writer = idle.has_writer; flushed = refl })

module _ {H : Type 0} ⦃rb : RingBuffer H⦄ where
  -- `sfpConnect`, from any state.
  pub connect-Greets :
      (c : Context H)
      → IsIdle c
      → Greets c (encode_frame (make_header syn 0) []) sent_syn0 new (connect c)
  unfolding connect start_handshake transmit_syn0 clear_history reset_receiver
  connect-Greets c idle = renamed (
      control-Greets start_handshake begun y 0 sent_syn0
        (record { has_writer = idle.has_writer; flushed = idle.flushed }) refl refl refl refl refl)
    where
      begun : Context H
      begun = record (reset_receiver c) { rx = record (reset_receiver c).rx { seq = initial_seq } }

      y : Context H
      y =
          clear_history (record (calling begun (lock_calls begun)) {
            tx = record begun.tx { seq = initial_seq };
          })

      renamed :
          {os : List ℕ} {s : ConnectState} {f : FrameState} {d : Context H}
          → Greets begun os s f d
          → Greets c os s f d
      renamed g = record {
        quiet = record {
          writes_octets = g.quiet.writes_octets;
          delivers_none = g.quiet.delivers_none;
        };
        state_is = g.state_is;
        tx_seq = g.tx_seq;
        rx_seq = g.rx_seq;
        frame_is = g.frame_is;
        same_deliver = g.same_deliver;
        idle = g.idle;
      }

  -- A SYN frame whose handler does this to the context of the frame, under the lock.
  pub syn-Greets :
      (c : Context H) (seq : ℕ) {os : List ℕ} {s : ConnectState} {f : FrameState}
      → seq < 64
      → c.rx.frame_state ≡ new
      → Greets
          (with_frame c (make_header syn seq) [])
          os
          s
          f
          (with_lock handle_syn (with_frame c (make_header syn seq) []))
      → Greets c os s new (deliver_octets (encode_frame (make_header syn seq) []) c)
  syn-Greets c seq {os} {s} {f} lt waits g =
      subst (Greets c os s new) (sym (deliver_octets-syn seq c lt waits)) (
        Greets-reset (record {
          quiet = record {
            writes_octets = g.quiet.writes_octets;
            delivers_none = g.quiet.delivers_none;
          };
          state_is = g.state_is;
          tx_seq = g.tx_seq;
          rx_seq = g.rx_seq;
          frame_is = g.frame_is;
          same_deliver = g.same_deliver;
          idle = g.idle;
        }))
