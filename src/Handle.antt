-- ===== src/Handle.antt =====
-- The handlers of received frames in src/serial_framing_protocol.cpp, `sfpHandleFrame` and below.
use libsfp.Base.{
  ℕ, zero, suc, ◌-◌, [], ◌∷◌, ◌++◌, Bool, true, false, ◌||◌, not, ltb, leb, ◌==◌, if◌then◌else◌,
  length, take, is_some,
}
use libsfp.State.{
  Context, RingBuffer, FrameType, usr, rtx, nak, syn, normal, new, ConnectState, disconnected,
  sent_syn0, sent_syn1, connected, delivered, emit, assert, crc_size, crc_preset, crc_good,
  max_packet_size, initial_seq,
}
use libsfp.Frame.{same_type, next_seq, get_frame_type, get_frame_seq}
use libsfp.Transmit.{
  transmit_nak, transmit_dis, transmit_syn0, transmit_syn1, transmit_syn2, with_lock,
}
use libsfp.History.{clear_history, transmit_history_from_seq}

module _ {H : Type 0} where
  unfoldable pub reset_receiver : Context H → Context H
  reset_receiver c = record c {
    rx = record c.rx { crc = crc_preset; escape_state = normal; frame_state = new; packet = [] };
  }

  unfoldable pub buffer_octet : ℕ → Context H → Context H
  unfolding reset_receiver
  buffer_octet octet c =
      if leb max_packet_size (length c.rx.packet)
      then reset_receiver c
      else record c { rx = record c.rx { packet = c.rx.packet ++ octet ∷ [] } }

  -- The end of `sfpHandleUSR`, on a connected link.
  unfoldable pub accept_usr : Context H → Context H × Bool
  accept_usr c =
      let refused = with_lock (transmit_nak c.rx.seq) c in
      let handed =
        if is_some c.rx.deliver
        then emit (delivered c.rx.deliver c.rx.deliver_data c.rx.packet) c
        else c in
      if not (get_frame_seq c.rx.header == c.rx.seq)
      then (if same_type usr (get_frame_type c.rx.header) then refused else c, false)
      else (record handed { rx = record handed.rx { seq = next_seq handed.rx.seq } }, true)

  -- `switch (ctx->connectState)` of `sfpHandleUSR`, in the scope of its lock.
  unfoldable pub usr_by_state : ConnectState → Context H → Context H × Bool
  usr_by_state disconnected c = (with_lock transmit_dis c, false)
  usr_by_state sent_syn0 c = (with_lock transmit_syn0 c, false)
  usr_by_state sent_syn1 c = (with_lock transmit_syn1 c, false)
  usr_by_state connected c = accept_usr (with_lock (λ x. x) c)

  unfoldable pub handle_usr : Context H → Context H × Bool
  unfolding usr_by_state
  handle_usr c =
      let type = get_frame_type c.rx.header in
      let checked = assert (same_type usr type || same_type rtx type) c in
      usr_by_state checked.connect_state checked

module _ {H : Type 0} ⦃rb : RingBuffer H⦄ where
  unfoldable pub handle_syn0 : Context H → Context H
  unfolding reset_receiver
  handle_syn0 c =
      let reset = reset_receiver c in
      let started = record reset {
        rx = record reset.rx { seq = initial_seq };
        tx = record reset.tx { seq = initial_seq };
      } in
      record (transmit_syn1 (clear_history started)) { connect_state = sent_syn1 }

  -- The retransmission that both `sfpHandleSYN1` and `sfpHandleSYN2` end with.
  unfoldable pub resend_all : Context H → Context H
  resend_all c =
      let resent = transmit_history_from_seq initial_seq c in
      if not (c.tx.seq == initial_seq) then resent else c

  unfoldable pub syn1_by_state : ConnectState → Context H → Context H
  unfolding resend_all
  syn1_by_state disconnected c = transmit_dis c
  syn1_by_state _ c = record (resend_all (transmit_syn2 c)) { connect_state = connected }

  unfoldable pub handle_syn1 : Context H → Context H
  unfolding syn1_by_state
  handle_syn1 c = syn1_by_state c.connect_state c

  unfoldable pub syn2_by_state : ConnectState → Context H → Context H
  unfolding resend_all
  syn2_by_state disconnected c = transmit_dis c
  syn2_by_state sent_syn0 c = transmit_syn0 c
  syn2_by_state _ c = record (resend_all c) { connect_state = connected }

  unfoldable pub handle_syn2 : Context H → Context H
  unfolding syn2_by_state
  handle_syn2 c = syn2_by_state c.connect_state c

  -- `switch (seq)` of `sfpHandleSYN`.
  unfoldable pub syn_by_seq : ℕ → Context H → Context H
  syn_by_seq zero c = handle_syn0 c
  syn_by_seq (suc zero) c = handle_syn1 c
  syn_by_seq (suc (suc zero)) c = handle_syn2 c
  syn_by_seq (suc (suc (suc zero))) c = record c { connect_state = disconnected }
  syn_by_seq (suc (suc (suc (suc n)))) c = c

  unfoldable pub handle_syn : Context H → Context H
  unfolding syn_by_seq
  handle_syn c =
      syn_by_seq (get_frame_seq c.rx.header) (assert (same_type syn (get_frame_type c.rx.header)) c)

  -- `switch (ctx->connectState)` of `sfpHandleNAK`, and what follows it.
  unfoldable pub nak_by_state : ConnectState → Context H → Context H
  nak_by_state disconnected c = transmit_dis c
  nak_by_state sent_syn0 c = transmit_syn0 c
  nak_by_state sent_syn1 c = transmit_syn1 c
  nak_by_state connected c =
      let resent = transmit_history_from_seq (get_frame_seq c.rx.header) c in
      if not (get_frame_seq c.rx.header == c.tx.seq) then resent else c

  unfoldable pub handle_nak : Context H → Context H
  unfolding nak_by_state
  handle_nak c =
      let checked = assert (same_type nak (get_frame_type c.rx.header)) c in
      nak_by_state checked.connect_state checked

  -- `switch (type)` of `sfpHandleFrame`.
  unfoldable pub handle_by_type : FrameType → Context H → Context H × Bool
  handle_by_type usr c = handle_usr c
  handle_by_type rtx c = handle_usr c
  handle_by_type nak c = (with_lock handle_nak c, false)
  handle_by_type syn c = (with_lock handle_syn c, false)

  -- The result is 1 or 0 in the source.
  unfoldable pub handle_frame : Context H → Context H × Bool
  handle_frame c =
      let short = with_lock (transmit_nak c.rx.seq) c in
      let rewound = record c {
        rx = record c.rx { packet = take (length c.rx.packet - crc_size) c.rx.packet };
      } in
      let mismatch = with_lock (transmit_nak rewound.rx.seq) rewound in
      if ltb (length c.rx.packet) crc_size
      then (short, false)
      else (if not (c.rx.crc == crc_good)
          then (mismatch, false)
          else handle_by_type (get_frame_type rewound.rx.header) rewound)
