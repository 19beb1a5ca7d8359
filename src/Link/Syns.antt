-- ===== src/Link/Syns.antt =====
-- What an end does with each SYN frame of the handshake.
use libsfp.Base.{[], ◌++◌, ◌≡◌, refl, sym, ap, ◌∙◌, true, is_some, append-nil, arith}
use libsfp.State.{Context, RingBuffer, sent_syn0, sent_syn1, connected, syn, new, initial_seq}
use libsfp.Frame.{make_header, encode_frame}
use libsfp.Transmit.{transmit_syn1, transmit_syn2, transmit_control}
use libsfp.Transmit.Frames.{IsIdle, SendsFrame}
use libsfp.Transmit.Locked.{lock_calls, calling, transmit_control-SendsFrame}
use libsfp.History.{clear_history}
use libsfp.Handle.{
  handle_syn, handle_syn0, handle_syn1, handle_syn2, syn_by_seq, syn1_by_state, syn2_by_state,
  resend_all, reset_receiver,
}
use libsfp.Receive.{deliver_octets}
use libsfp.Receive.Whole.{with_frame}
use libsfp.Trace.{written, deliveries}
use libsfp.Link.Control.{handle_syn_lem}
use libsfp.Link.Greeting.{Greets, with_lock-Greets, control-Greets, syn-Greets}

module _ {H : Type 0} ⦃rb : RingBuffer H⦄ where
  -- SYN0, in any state.
  pub syn0-Greets :
      (c : Context H)
      → IsIdle c
      → c.rx.frame_state ≡ new
      → Greets c
          (encode_frame (make_header syn 1) [])
          sent_syn1
          new
          (deliver_octets (encode_frame (make_header syn 0) []) c)
  syn0-Greets c idle waits = syn-Greets c 0 (omega arith) waits (
      control-Greets handle_syn framed y 1 sent_syn1 (record { has_writer = has; flushed = empty })
        handled trace_is tx_zero rx_zero deliver_is)
    where
      framed : Context H
      framed = with_frame c (make_header syn 0) []

      inside : Context H
      inside = calling framed (lock_calls framed)

      reset : Context H
      reset = reset_receiver inside

      y : Context H
      y = clear_history (record reset {
        rx = record reset.rx { seq = initial_seq };
        tx = record reset.tx { seq = initial_seq };
      })

      has : is_some y.tx.write ≡ true
      has = unfold clear_history reset_receiver in idle.has_writer

      empty : y.tx.writebuf ≡ []
      empty = unfold clear_history reset_receiver in idle.flushed

      handled : handle_syn inside ≡ record (transmit_control syn 1 y) { connect_state = sent_syn1 }
      handled =
          handle_syn_lem 0 inside (omega arith) refl
          ∙ unfold syn_by_seq handle_syn0 transmit_syn1 in refl

      trace_is : y.trace ≡ framed.trace ++ lock_calls framed
      trace_is = unfold clear_history reset_receiver in refl

      tx_zero : y.tx.seq ≡ initial_seq
      tx_zero = unfold clear_history in refl

      rx_zero : y.rx.seq ≡ initial_seq
      rx_zero = unfold clear_history in refl

      deliver_is : y.rx.deliver ≡ c.rx.deliver
      deliver_is = unfold clear_history reset_receiver in refl

  -- With the initial sequence number there is nothing to send again.
  resend_all-initial : (c : Context H) → c.tx.seq ≡ initial_seq → resend_all c ≡ c
  unfolding resend_all
  resend_all-initial c e = rw e refl

  -- SYN1, for an end that has sent SYN0.
  pub syn1-Greets :
      (c : Context H)
      → IsIdle c
      → c.rx.frame_state ≡ new
      → c.connect_state ≡ sent_syn0
      → c.tx.seq ≡ initial_seq
      → c.rx.seq ≡ initial_seq
      → Greets c
          (encode_frame (make_header syn 2) [])
          connected
          new
          (deliver_octets (encode_frame (make_header syn 1) []) c)
  syn1-Greets c idle waits state tx_zero rx_zero = syn-Greets c 1 (omega arith) waits (
      control-Greets handle_syn framed inside 2 connected
        (record { has_writer = idle.has_writer; flushed = idle.flushed }) handled refl tx_zero
        rx_zero refl)
    where
      framed : Context H
      framed = with_frame c (make_header syn 1) []

      inside : Context H
      inside = calling framed (lock_calls framed)

      sent : SendsFrame inside (make_header syn 2) [] (transmit_control syn 2 inside)
      sent =
          transmit_control-SendsFrame syn 2 inside
            (record { has_writer = idle.has_writer; flushed = idle.flushed })

      quiet : resend_all (transmit_control syn 2 inside) ≡ transmit_control syn 2 inside
      quiet = resend_all-initial _ (ap (λ x. x.tx.seq) sent.becomes ∙ tx_zero)

      by_state :
          syn1_by_state sent_syn0 inside
          ≡ record (transmit_control syn 2 inside) { connect_state = connected }
      by_state =
          unfold syn1_by_state transmit_syn2 in
          ap {A = Context H} (λ x. record x { connect_state = connected }) quiet

      by_seq : syn_by_seq 1 inside ≡ syn1_by_state inside.connect_state inside
      by_seq = unfold syn_by_seq handle_syn1 in refl

      handled :
          handle_syn inside ≡ record (transmit_control syn 2 inside) { connect_state = connected }
      handled =
          handle_syn_lem 1 inside (omega arith) refl
          ∙ by_seq
          ∙ ap (λ s. syn1_by_state s inside) state
          ∙ by_state

  -- SYN2, for an end that has sent SYN1.
  pub syn2-Greets :
      (c : Context H)
      → IsIdle c
      → c.rx.frame_state ≡ new
      → c.connect_state ≡ sent_syn1
      → c.tx.seq ≡ initial_seq
      → c.rx.seq ≡ initial_seq
      → Greets c [] connected new (deliver_octets (encode_frame (make_header syn 2) []) c)
  syn2-Greets c idle waits state tx_zero rx_zero = syn-Greets c 2 (omega arith) waits (
      with_lock-Greets handle_syn framed (record inside { connect_state = connected }) [] [] handled
        (sym (append-nil _)) (unfold written in refl) (unfold deliveries in refl) tx_zero rx_zero
        refl (record { has_writer = idle.has_writer; flushed = idle.flushed }))
    where
      framed : Context H
      framed = with_frame c (make_header syn 2) []

      inside : Context H
      inside = calling framed (lock_calls framed)

      by_state : syn2_by_state sent_syn1 inside ≡ record inside { connect_state = connected }
      by_state =
          unfold syn2_by_state in
          ap {A = Context H} (λ x. record x { connect_state = connected })
            (resend_all-initial inside tx_zero)

      by_seq : syn_by_seq 2 inside ≡ syn2_by_state inside.connect_state inside
      by_seq = unfold syn_by_seq handle_syn2 in refl

      handled : handle_syn inside ≡ record inside { connect_state = connected }
      handled =
          handle_syn_lem 2 inside (omega arith) refl
          ∙ by_seq
          ∙ ap (λ s. syn2_by_state s inside) state
          ∙ by_state
