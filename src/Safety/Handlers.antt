-- ===== src/Safety/Handlers.antt =====
-- The bounds of the transmitter, under the handlers of frames.
use libsfp.Base.{
  List, ℕ, zero, suc, refl, Bool, true, false, not, if◌then◌else◌, is_some, arith, ◌==◌,
}
use libsfp.State.{
  Context, RingBuffer, FrameType, usr, rtx, nak, syn, emit, Effect, initial_seq, delivered,
  ConnectState, disconnected, sent_syn0, sent_syn1, connected, seq_syn_dis, seq_syn0, seq_syn1,
  seq_syn2,
}
use libsfp.Frame.{get_frame_seq, get_frame_type, same_type, next_seq}
use libsfp.Frame.Header.{get_frame_seq-lt}
use libsfp.Transmit.{
  with_lock, transmit_nak, transmit_dis, transmit_syn0, transmit_syn1, transmit_syn2,
}
use libsfp.History.{clear_history}
use libsfp.Handle.{
  reset_receiver, accept_usr, usr_by_state, handle_usr, handle_syn0, handle_syn1, handle_syn2,
  syn1_by_state, syn2_by_state, syn_by_seq, handle_syn, resend_all, nak_by_state, handle_nak,
  handle_by_type,
}
use libsfp.Safety.Bounds.{
  SendsBounded, WritesFit, emit-Bounded, Bounded-if, same-Bounded, assert-Bounded,
  transmit_control-Bounded, with_lock-Bounded, transmit_history_from_seq-Bounded,
}

module _ {H : Type 0} {start : List Effect} where
  nak-Bounded :
      (seq : ℕ) (c : Context H) → SendsBounded start c → SendsBounded start (transmit_nak seq c)
  unfolding transmit_nak
  nak-Bounded seq c = transmit_control-Bounded nak seq c

  dis-Bounded : (c : Context H) → SendsBounded start c → SendsBounded start (transmit_dis c)
  unfolding transmit_dis
  dis-Bounded c = transmit_control-Bounded syn seq_syn_dis c

  pub syn0-Bounded : (c : Context H) → SendsBounded start c → SendsBounded start (transmit_syn0 c)
  unfolding transmit_syn0
  syn0-Bounded c = transmit_control-Bounded syn seq_syn0 c

  syn1-Bounded : (c : Context H) → SendsBounded start c → SendsBounded start (transmit_syn1 c)
  unfolding transmit_syn1
  syn1-Bounded c = transmit_control-Bounded syn seq_syn1 c

  syn2-Bounded : (c : Context H) → SendsBounded start c → SendsBounded start (transmit_syn2 c)
  unfolding transmit_syn2
  syn2-Bounded c = transmit_control-Bounded syn seq_syn2 c

  pub refused-Bounded :
      (c : Context H)
      → SendsBounded start c
      → SendsBounded start (with_lock (transmit_nak c.rx.seq) c)
  refused-Bounded c k = with_lock-Bounded (transmit_nak c.rx.seq) c (nak-Bounded c.rx.seq) k

  accept_usr-Bounded : (c : Context H) → SendsBounded start c → SendsBounded start (accept_usr c).0
  unfolding accept_usr WritesFit
  accept_usr-Bounded c k = by_tests (get_frame_seq c.rx.header == c.rx.seq)
    where
      refused : Context H
      refused =
          if same_type usr (get_frame_type c.rx.header)
          then with_lock (transmit_nak c.rx.seq) c
          else c

      handed : Context H
      handed =
          if is_some c.rx.deliver
          then emit (delivered c.rx.deliver c.rx.deliver_data c.rx.packet) c
          else c

      handed-Bounded : SendsBounded start handed
      handed-Bounded =
          Bounded-if (is_some c.rx.deliver)
            (emit-Bounded (delivered c.rx.deliver c.rx.deliver_data c.rx.packet) c tt k) k

      by_tests :
          (same : Bool)
          → let r : Context H × Bool = if not same then (refused, false) else (
            record handed { rx = record handed.rx { seq = next_seq handed.rx.seq } },
            true,
          ) in
            SendsBounded start r.0
      by_tests true = same-Bounded handed-Bounded refl refl refl
      by_tests false =
          Bounded-if (same_type usr (get_frame_type c.rx.header)) (refused-Bounded c k) k

  usr_by_state-Bounded :
      (s : ConnectState) (c : Context H)
      → SendsBounded start c
      → SendsBounded start (usr_by_state s c).0
  unfolding usr_by_state
  usr_by_state-Bounded disconnected c k = with_lock-Bounded transmit_dis c dis-Bounded k
  usr_by_state-Bounded sent_syn0 c k = with_lock-Bounded transmit_syn0 c syn0-Bounded k
  usr_by_state-Bounded sent_syn1 c k = with_lock-Bounded transmit_syn1 c syn1-Bounded k
  usr_by_state-Bounded connected c k =
      accept_usr-Bounded _ (with_lock-Bounded (λ x. x) c (λ d l. l) k)

  handle_usr-Bounded : (c : Context H) → SendsBounded start c → SendsBounded start (handle_usr c).0
  unfolding handle_usr
  handle_usr-Bounded c k = usr_by_state-Bounded _ _ (assert-Bounded _ c k)

module _ {H : Type 0} {start : List Effect} ⦃rb : RingBuffer H⦄ where
  resend_all-Bounded : (c : Context H) → SendsBounded start c → SendsBounded start (resend_all c)
  unfolding resend_all
  resend_all-Bounded c k =
      Bounded-if (not (c.tx.seq == initial_seq))
        (transmit_history_from_seq-Bounded initial_seq c (omega arith) k) k

  syn1_by_state-Bounded :
      (s : ConnectState) (c : Context H)
      → SendsBounded start c
      → SendsBounded start (syn1_by_state s c)
  unfolding syn1_by_state
  syn1_by_state-Bounded disconnected c k = dis-Bounded c k
  syn1_by_state-Bounded sent_syn0 c k =
      same-Bounded (resend_all-Bounded _ (syn2-Bounded c k)) refl refl refl
  syn1_by_state-Bounded sent_syn1 c k =
      same-Bounded (resend_all-Bounded _ (syn2-Bounded c k)) refl refl refl
  syn1_by_state-Bounded connected c k =
      same-Bounded (resend_all-Bounded _ (syn2-Bounded c k)) refl refl refl

  syn2_by_state-Bounded :
      (s : ConnectState) (c : Context H)
      → SendsBounded start c
      → SendsBounded start (syn2_by_state s c)
  unfolding syn2_by_state
  syn2_by_state-Bounded disconnected c k = dis-Bounded c k
  syn2_by_state-Bounded sent_syn0 c k = syn0-Bounded c k
  syn2_by_state-Bounded sent_syn1 c k = same-Bounded (resend_all-Bounded c k) refl refl refl
  syn2_by_state-Bounded connected c k = same-Bounded (resend_all-Bounded c k) refl refl refl

  syn_by_seq-Bounded :
      (n : ℕ) (c : Context H) → SendsBounded start c → SendsBounded start (syn_by_seq n c)
  unfolding syn_by_seq handle_syn0 handle_syn1 handle_syn2 clear_history reset_receiver
  syn_by_seq-Bounded zero c k =
      same-Bounded
        (syn1-Bounded _ (record {
          seq_lt = omega arith;
          fits = k.fits;
          calls = k.calls;
          goes_on = k.goes_on;
          writes_fit = k.writes_fit;
        }))
        refl refl refl
  syn_by_seq-Bounded (suc zero) c k = syn1_by_state-Bounded c.connect_state c k
  syn_by_seq-Bounded (suc (suc zero)) c k = syn2_by_state-Bounded c.connect_state c k
  syn_by_seq-Bounded (suc (suc (suc zero))) c k = same-Bounded k refl refl refl
  syn_by_seq-Bounded (suc (suc (suc (suc n)))) c k = k

  handle_syn-Bounded : (c : Context H) → SendsBounded start c → SendsBounded start (handle_syn c)
  unfolding handle_syn
  handle_syn-Bounded c k = syn_by_seq-Bounded _ _ (assert-Bounded _ c k)

  nak_by_state-Bounded :
      (s : ConnectState) (c : Context H)
      → SendsBounded start c
      → SendsBounded start (nak_by_state s c)
  unfolding nak_by_state
  nak_by_state-Bounded disconnected c k = dis-Bounded c k
  nak_by_state-Bounded sent_syn0 c k = syn0-Bounded c k
  nak_by_state-Bounded sent_syn1 c k = syn1-Bounded c k
  nak_by_state-Bounded connected c k =
      Bounded-if (not (get_frame_seq c.rx.header == c.tx.seq))
        (transmit_history_from_seq-Bounded _ c (get_frame_seq-lt c.rx.header) k) k

  handle_nak-Bounded : (c : Context H) → SendsBounded start c → SendsBounded start (handle_nak c)
  unfolding handle_nak
  handle_nak-Bounded c k = nak_by_state-Bounded _ _ (assert-Bounded _ c k)

  pub handle_by_type-Bounded :
      (t : FrameType) (c : Context H)
      → SendsBounded start c
      → SendsBounded start (handle_by_type t c).0
  unfolding handle_by_type
  handle_by_type-Bounded usr c k = handle_usr-Bounded c k
  handle_by_type-Bounded rtx c k = handle_usr-Bounded c k
  handle_by_type-Bounded nak c k = with_lock-Bounded handle_nak c handle_nak-Bounded k
  handle_by_type-Bounded syn c k = with_lock-Bounded handle_syn c handle_syn-Bounded k
