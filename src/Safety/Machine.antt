-- ===== src/Safety/Machine.antt =====
-- The state machine of the connection: the handlers of every frame type, sequence number and state.
use libsfp.Base.{
  ℕ, zero, suc, [], ◌∷◌, ◌≡◌, refl, sym, ap, ◌∙◌, Bool, true, false, ◌&&◌, ◌||◌, not, append-nil,
  if◌then◌else◌, ◌==◌,
}
use libsfp.State.{
  Context, RingBuffer, FrameType, usr, rtx, nak, syn, ConnectState, disconnected, sent_syn0,
  sent_syn1, connected, assert_failed, emit, assert, initial_seq,
}
use libsfp.Frame.{frame_code, same_type, next_seq, get_frame_type, get_frame_seq}
use libsfp.Transmit.Locked.{lock_calls, calling}
use libsfp.History.{clear_history}
use libsfp.Handle.{
  reset_receiver, usr_by_state, handle_usr, handle_syn0, handle_syn1, handle_syn2, syn1_by_state,
  syn2_by_state, syn_by_seq, handle_syn, resend_all, nak_by_state, handle_nak, handle_by_type,
}
use libsfp.Api.{state_is_connected}
use libsfp.Trace.{deliveries}
use libsfp.Safety.Keeps.{
  Keeps, Keeps-refl, Keeps-trans, Keeps-if, assert-Keeps, with_lock-Keeps, transmit_dis-Keeps,
  transmit_syn0-Keeps, transmit_syn1-Keeps, transmit_syn2-Keeps, transmit_history_from_seq-Keeps,
}
use libsfp.Safety.Outcome.{
  Outcome, next_state, is_taken, next_expected, Keeps-Outcome, with_lock-Outcome,
  usr_by_state-Outcome, Outcome-calling,
}

module _ {H : Type 0} where
  handle_usr-Outcome :
      (c : Context H)
      → let taken = state_is_connected c.connect_state && (get_frame_seq c.rx.header == c.rx.seq) in
        Outcome c c.connect_state taken
          (if taken then next_seq c.rx.seq else c.rx.seq)
          (handle_usr c)
  unfolding handle_usr
  handle_usr-Outcome c =
      checked
        (same_type usr (get_frame_type c.rx.header) || same_type rtx (get_frame_type c.rx.header))
    where
      checked :
          (b : Bool)
          → let taken =
              state_is_connected c.connect_state && (get_frame_seq c.rx.header == c.rx.seq) in
            Outcome c c.connect_state taken
              (if taken then next_seq c.rx.seq else c.rx.seq)
              (usr_by_state (assert b c).connect_state (assert b c))
      checked true = usr_by_state-Outcome c.connect_state c
      checked false =
          Outcome-calling (assert_failed ∷ []) (unfold deliveries in refl)
            (usr_by_state-Outcome c.connect_state (emit assert_failed c))

module _ {H : Type 0} ⦃rb : RingBuffer H⦄ where
  resend_all-Keeps : (c : Context H) → Keeps c (resend_all c)
  unfolding resend_all
  resend_all-Keeps c =
      Keeps-if (not (c.tx.seq == initial_seq)) (transmit_history_from_seq-Keeps initial_seq c)
        (Keeps-refl c)

  -- Sending, and then another state of the connection.
  changed-Outcome :
      {c d : Context H} (s : ConnectState)
      → Keeps c d
      → Outcome c s false c.rx.seq (record d { connect_state = s }, false)
  changed-Outcome s k =
      let o = Keeps-Outcome k in
      record {
        state_is = refl;
        delivers = o.delivers;
        result_is = refl;
        seq_is = o.seq_is;
        packet_is = o.packet_is;
        grows = o.grows;
      }

  kept-Outcome :
      {c d : Context H} {s : ConnectState}
      → c.connect_state ≡ s
      → Keeps c d
      → Outcome c s false c.rx.seq (d, false)
  kept-Outcome e k =
      let o = Keeps-Outcome k in
      record {
        state_is = o.state_is ∙ e;
        delivers = o.delivers;
        result_is = refl;
        seq_is = o.seq_is;
        packet_is = o.packet_is;
        grows = o.grows;
      }

  syn1-Outcome :
      (s : ConnectState) (c : Context H)
      → c.connect_state ≡ s
      → Outcome c (next_state syn 1 s) false c.rx.seq (syn1_by_state s c, false)
  unfolding syn1_by_state
  syn1-Outcome disconnected c e = kept-Outcome e (transmit_dis-Keeps c)
  syn1-Outcome sent_syn0 c e =
      changed-Outcome connected (Keeps-trans (transmit_syn2-Keeps c) (resend_all-Keeps _))
  syn1-Outcome sent_syn1 c e =
      changed-Outcome connected (Keeps-trans (transmit_syn2-Keeps c) (resend_all-Keeps _))
  syn1-Outcome connected c e =
      changed-Outcome connected (Keeps-trans (transmit_syn2-Keeps c) (resend_all-Keeps _))

  syn2-Outcome :
      (s : ConnectState) (c : Context H)
      → c.connect_state ≡ s
      → Outcome c (next_state syn 2 s) false c.rx.seq (syn2_by_state s c, false)
  unfolding syn2_by_state
  syn2-Outcome disconnected c e = kept-Outcome e (transmit_dis-Keeps c)
  syn2-Outcome sent_syn0 c e = kept-Outcome e (transmit_syn0-Keeps c)
  syn2-Outcome sent_syn1 c e = changed-Outcome connected (resend_all-Keeps c)
  syn2-Outcome connected c e = changed-Outcome connected (resend_all-Keeps c)

  syn0-Outcome : (c : Context H) → Outcome c sent_syn1 false initial_seq (handle_syn0 c, false)
  unfolding handle_syn0 reset_receiver clear_history
  syn0-Outcome c =
      let k = transmit_syn1-Keeps started in
      record {
        state_is = refl;
        delivers = k.same_deliveries ∙ sym (append-nil _);
        result_is = refl;
        seq_is = ap (λ r. r.seq) k.same_rx;
        packet_is = λ e. cc;
        grows = k.grows;
      }
    where
      reset : Context H
      reset = reset_receiver c

      started : Context H
      started = clear_history (record reset {
        rx = record reset.rx { seq = initial_seq };
        tx = record reset.tx { seq = initial_seq };
      })

  syn_by_seq-Outcome :
      (n : ℕ) (c : Context H)
      → Outcome c
          (next_state syn n c.connect_state)
          false
          (next_expected syn n c.connect_state c.rx.seq)
          (syn_by_seq n c, false)
  unfolding syn_by_seq same_type frame_code handle_syn1 handle_syn2
  syn_by_seq-Outcome zero c = syn0-Outcome c
  syn_by_seq-Outcome (suc zero) c = syn1-Outcome c.connect_state c refl
  syn_by_seq-Outcome (suc (suc zero)) c = syn2-Outcome c.connect_state c refl
  syn_by_seq-Outcome (suc (suc (suc zero))) c = changed-Outcome disconnected (Keeps-refl c)
  syn_by_seq-Outcome (suc (suc (suc (suc n)))) c = Keeps-Outcome (Keeps-refl c)

  handle_syn-Outcome :
      (c : Context H)
      → let n = get_frame_seq c.rx.header in
        Outcome c
          (next_state syn n c.connect_state)
          false
          (next_expected syn n c.connect_state c.rx.seq)
          (handle_syn c, false)
  unfolding handle_syn
  handle_syn-Outcome c = checked (same_type syn (get_frame_type c.rx.header))
    where
      n : ℕ
      n = get_frame_seq c.rx.header

      checked :
          (b : Bool)
          → Outcome c
              (next_state syn n c.connect_state)
              false
              (next_expected syn n c.connect_state c.rx.seq)
              (syn_by_seq n (assert b c), false)
      checked true = syn_by_seq-Outcome n c
      checked false =
          Outcome-calling (assert_failed ∷ []) (unfold deliveries in refl)
            (syn_by_seq-Outcome n (emit assert_failed c))

  nak_by_state-Keeps : (s : ConnectState) (c : Context H) → Keeps c (nak_by_state s c)
  unfolding nak_by_state
  nak_by_state-Keeps disconnected c = transmit_dis-Keeps c
  nak_by_state-Keeps sent_syn0 c = transmit_syn0-Keeps c
  nak_by_state-Keeps sent_syn1 c = transmit_syn1-Keeps c
  nak_by_state-Keeps connected c =
      Keeps-if (not (get_frame_seq c.rx.header == c.tx.seq))
        (transmit_history_from_seq-Keeps (get_frame_seq c.rx.header) c) (Keeps-refl c)

  handle_nak-Keeps : (c : Context H) → Keeps c (handle_nak c)
  unfolding handle_nak
  handle_nak-Keeps c =
      Keeps-trans (assert-Keeps (same_type nak (get_frame_type c.rx.header)) c)
        (nak_by_state-Keeps _ _)

  -- A frame of type `t` whose header carries the number `n`, handled in the state `s`: the state of
  -- the connection is then the one of the table, and the packet is taken, and handed to the deliver
  -- callback if there is one, just if the frame carries a packet, the link is connected and the
  -- number is the expected one; the number expected next is the next one then, the initial one after
  -- SYN0, and the same otherwise. The trace only goes on.
  pub handle_by_type-Outcome :
      (t : FrameType) (c : Context H)
      → let n = get_frame_seq c.rx.header in
        let s = c.connect_state in
        Outcome c
          (next_state t n s)
          (is_taken t n s c.rx.seq)
          (next_expected t n s c.rx.seq)
          (handle_by_type t c)
  unfolding handle_by_type same_type frame_code
  handle_by_type-Outcome usr c = handle_usr-Outcome c
  handle_by_type-Outcome rtx c = handle_usr-Outcome c
  handle_by_type-Outcome nak c = Keeps-Outcome (with_lock-Keeps handle_nak c handle_nak-Keeps)
  handle_by_type-Outcome syn c =
      with_lock-Outcome handle_syn c (handle_syn-Outcome (calling c (lock_calls c)))
