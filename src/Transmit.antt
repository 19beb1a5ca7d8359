-- ===== src/Transmit.antt =====
-- The transmitter of src/serial_framing_protocol.cpp, from the write buffer up to the frames.
-- A function that takes `size_t *outlen` returns the number that it stores there.
pub mod Sends
pub mod Writing
pub mod Frames
pub mod Locked
use libsfp.Base.{
  ℕ, ◌+◌, List, [], ◌∷◌, ◌++◌, Bool, true, false, ◌&&◌, Option, none, some, bit_xor, low_bits, shr,
  complement16, leb, if◌then◌else◌, length, is_some,
}
use libsfp.State.{
  Context, RingBuffer, Transmitter, Packet, FrameType, usr, rtx, nak, syn, wrote, locked, unlocked,
  emit, assert, esc, flag, esc_flip_bit, crc_preset, writebuf_size, seq_syn0, seq_syn1, seq_syn2,
  seq_syn_dis,
}
use libsfp.Crc.{crc_ccitt_update}
use libsfp.Frame.{is_reserved_octet, next_seq, make_header}

module _ {H : Type 0} where
  unfoldable pub flush_write_buffer : Context H → Context H
  flush_write_buffer c =
      let called = emit (wrote c.tx.write c.tx.write_data c.tx.writebuf) c in
      record called { tx = record called.tx { writebuf = [] } }

  unfoldable pub buffered_write : ℕ → Context H → Context H × ℕ
  unfolding flush_write_buffer
  buffered_write octet c =
      let checked = assert (is_some c.tx.write) c in
      let room =
        if leb writebuf_size (length checked.tx.writebuf)
        then flush_write_buffer checked
        else checked in
      (record room { tx = record room.tx { writebuf = room.tx.writebuf ++ octet ∷ [] } }, 1)

  unfoldable pub write_no_crc : ℕ → Context H → Context H × ℕ
  write_no_crc octet c =
      let flipped : Context H × ℕ =
        let (escaped, n) = buffered_write esc c in
        let (written, m) = buffered_write (bit_xor octet esc_flip_bit) escaped in
        (written, n + m) in
      if is_reserved_octet octet then flipped else buffered_write octet c

  unfoldable pub write : ℕ → Context H → Context H × ℕ
  write octet c =
      write_no_crc octet (record c { tx = record c.tx { crc = crc_ccitt_update c.tx.crc octet } })

  -- `for (i = 0; i < packet->len; ++i)` of `sfpTransmitFrameWithHeader`, with `*outlen` so far.
  unfoldable pub write_payload : Packet → Context H × ℕ → Context H × ℕ
  write_payload [] (c, n) = (c, n)
  write_payload (o ∷ os) (c, n) = let (d, m) = write o c in write_payload os (d, n + m)

  -- A NULL packet is the empty list: both write no payload.
  unfoldable pub transmit_frame_with_header : ℕ → Packet → Context H → Context H × ℕ
  transmit_frame_with_header header packet c =
      let start = record c { tx = record c.tx { crc = crc_preset } } in
      let (begun, n_begun) = buffered_write flag start in
      let (headed, n_headed) = write header begun in
      let (paid, n_paid) = write_payload packet (headed, n_begun + n_headed) in
      let crc = complement16 paid.tx.crc in
      let (low, n_low) = write_no_crc (low_bits crc 8) paid in
      let (high, n_high) = write_no_crc (low_bits (shr crc 8) 8) low in
      let (ended, n_ended) = buffered_write flag high in
      (flush_write_buffer ended, n_paid + n_low + n_high + n_ended)

  unfoldable pub transmit_control : FrameType → ℕ → Context H → Context H
  transmit_control type seq c = (transmit_frame_with_header (make_header type seq) [] c).0

  unfoldable pub transmit_nak : ℕ → Context H → Context H
  transmit_nak seq c = transmit_control nak seq c

  unfoldable pub transmit_dis : Context H → Context H
  transmit_dis c = transmit_control syn seq_syn_dis c

  unfoldable pub transmit_syn0 : Context H → Context H
  transmit_syn0 c = transmit_control syn seq_syn0 c

  unfoldable pub transmit_syn1 : Context H → Context H
  transmit_syn1 c = transmit_control syn seq_syn1 c

  unfoldable pub transmit_syn2 : Context H → Context H
  transmit_syn2 c = transmit_control syn seq_syn2 c

  unfoldable pub is_transmitter_lockable : Context H → Bool
  is_transmitter_lockable c = is_some c.tx.lock && is_some c.tx.unlock

  unfoldable pub lock_transmitter : Context H → Context H
  unfolding is_transmitter_lockable
  lock_transmitter c =
      if is_transmitter_lockable c then emit (locked c.tx.lock c.tx.lock_data) c else c

  unfoldable pub unlock_transmitter : Context H → Context H
  unfolding is_transmitter_lockable
  unlock_transmitter c =
      if is_transmitter_lockable c then emit (unlocked c.tx.unlock c.tx.unlock_data) c else c

  -- The scope of a `TransmitterLock`.
  unfoldable pub with_lock : (Context H → Context H) → Context H → Context H
  with_lock body c = unlock_transmitter (body (lock_transmitter c))

module _ {H : Type 0} ⦃rb : RingBuffer H⦄ where
  -- `sfpTransmitFrameImpl`, whose last argument tells whether the packet comes from the history.
  unfoldable pub transmit_frame_impl : Packet → Bool → Context H → Context H × ℕ
  transmit_frame_impl packet retransmit c =
      let header = make_header (if retransmit then rtx else usr) c.tx.seq in
      let kept =
        if retransmit
        then c
        else record c { tx = record c.tx { history = rb.push_back c.tx.history packet } } in
      let (sent, n) = transmit_frame_with_header header packet kept in
      (record sent { tx = record sent.tx { seq = next_seq sent.tx.seq } }, n)

  unfoldable pub transmit_usr : Packet → Context H → Context H × ℕ
  unfolding transmit_frame_impl
  transmit_usr packet c = transmit_frame_impl packet false c

  unfoldable pub transmit_rtx : Packet → Context H → Context H
  unfolding transmit_frame_impl
  transmit_rtx packet c = (transmit_frame_impl packet true c).0
