-- ===== src/Api.antt =====
-- The entry points of src/serial_framing_protocol.cpp that the user calls, `sfpDeliverOctet` apart.
use libsfp.Base.{ℕ, [], Bool, true, false, none, leb, length}
use libsfp.State.{
  Context, RingBuffer, Packet, Pointer, ConnectState, disconnected, sent_syn0, sent_syn1, connected,
  assert, crc_preset, max_packet_size, initial_seq,
}
use libsfp.Transmit.{transmit_syn0, transmit_usr, lock_transmitter, unlock_transmitter, with_lock}
use libsfp.History.{clear_history}
use libsfp.Handle.{reset_receiver}

unfoldable pub state_is_connected : ConnectState → Bool
state_is_connected disconnected = false
state_is_connected sent_syn0 = false
state_is_connected sent_syn1 = false
state_is_connected connected = true

module _ {H : Type 0} where
  unfoldable pub set_deliver_callback : Pointer → ℕ → Context H → Context H
  set_deliver_callback cbfun userdata c = record c {
    rx = record c.rx { deliver = cbfun; deliver_data = userdata };
  }

  unfoldable pub set_write_callback : Pointer → ℕ → Context H → Context H
  set_write_callback cbfun userdata c = record c {
    tx = record c.tx { write = cbfun; write_data = userdata };
  }

  unfoldable pub set_lock_callback : Pointer → ℕ → Context H → Context H
  set_lock_callback cbfun userdata c = record c {
    tx = record c.tx { lock = cbfun; lock_data = userdata };
  }

  unfoldable pub set_unlock_callback : Pointer → ℕ → Context H → Context H
  set_unlock_callback cbfun userdata c = record c {
    tx = record c.tx { unlock = cbfun; unlock_data = userdata };
  }

  -- The argument is the memory before the call; the history is not touched.
  unfoldable pub init : Context H → Context H
  unfolding reset_receiver set_deliver_callback set_write_callback set_lock_callback
      set_unlock_callback
  init c =
      let unconnected = record c { connect_state = disconnected } in
      let first = record unconnected { rx = record unconnected.rx { seq = initial_seq } } in
      let received = set_deliver_callback none 0 (reset_receiver first) in
      let sent = record received {
        tx = record received.tx { seq = initial_seq; crc = crc_preset; writebuf = [] };
      } in
      set_unlock_callback none 0 (set_lock_callback none 0 (set_write_callback none 0 sent))

  unfoldable pub is_connected : Context H → Bool
  unfolding state_is_connected
  is_connected c = state_is_connected c.connect_state

module _ {H : Type 0} ⦃rb : RingBuffer H⦄ where
  -- The part of `sfpConnect` in the scope of its lock.
  unfoldable pub start_handshake : Context H → Context H
  start_handshake c =
      let started = record c { tx = record c.tx { seq = initial_seq } } in
      record (transmit_syn0 (clear_history started)) { connect_state = sent_syn0 }

  unfoldable pub connect : Context H → Context H
  connect c =
      let reset = reset_receiver c in
      with_lock start_handshake (record reset { rx = record reset.rx { seq = initial_seq } })

  -- The result is `*outlen`.
  unfoldable pub write_packet : Packet → Context H → Context H × ℕ
  write_packet buf c =
      let checked = assert (leb (length buf) max_packet_size) c in
      let (sent, outlen) = transmit_usr buf (lock_transmitter checked) in
      (unlock_transmitter sent, outlen)
