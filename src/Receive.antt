-- ===== src/Receive.antt =====
-- The receiver of src/serial_framing_protocol.cpp: `sfpDeliverOctet`, which takes one octet from
-- the wire.
pub mod Destuff
pub mod Whole
use libsfp.Base.{
  ℕ, List, [], ◌∷◌, Bool, true, false, Option, none, some, bit_xor, ltb, ◌==◌, if◌then◌else◌,
  length,
}
use libsfp.State.{
  Context, RingBuffer, Receiver, Packet, EscapeState, normal, escaping, FrameState, new, receiving,
  esc, flag, esc_flip_bit,
}
use libsfp.Crc.{crc_ccitt_update}
use libsfp.Handle.{reset_receiver, buffer_octet, handle_frame}

-- `sfpDeliverOctet` returns -1, 0 or 1; with 1, and a buffer that is not NULL, a packet and its
-- length are copied out.
pub data Returned : Type 0 where
  failed : Returned
  unavailable : Returned
  available : Option Packet → Returned

unfoldable pub unescape : EscapeState → ℕ → ℕ
unescape normal octet = octet
unescape escaping octet = bit_xor octet esc_flip_bit

module _ {H : Type 0} where
  -- The buffer is given by its size.
  unfoldable pub copy_out_packet : Context H → ℕ → Returned
  copy_out_packet c len =
      if ltb len (length c.rx.packet) then failed else available (some c.rx.packet)

  -- What follows `sfpHandleFrame` in `sfpDeliverOctet`, with its result; NULL is `none`.
  unfoldable pub copy_if_any : Option ℕ → Context H × Bool → Context H × Returned
  unfolding copy_out_packet
  copy_if_any buf (c, false) = (c, unavailable)
  copy_if_any none (c, true) = (c, available none)
  copy_if_any (some len) (c, true) = (c, copy_out_packet c len)

  -- The octet is the header of a new frame, or a part of the payload.
  unfoldable pub store_octet : FrameState → ℕ → Context H → Context H
  unfolding buffer_octet
  store_octet new octet c = record c {
    rx = record c.rx { header = octet; frame_state = receiving };
  }
  store_octet receiving octet c = buffer_octet octet c

  -- The branch of the octets that are not control octets.
  unfoldable pub take_octet : ℕ → Context H → Context H
  unfolding unescape store_octet
  take_octet octet c =
      let plain = unescape c.rx.escape_state octet in
      store_octet c.rx.frame_state plain (record c {
        rx = record c.rx { escape_state = normal; crc = crc_ccitt_update c.rx.crc plain };
      })

module _ {H : Type 0} ⦃rb : RingBuffer H⦄ where
  -- The branch of SFP_FLAG.
  unfoldable pub flag_by_state : FrameState → Option ℕ → Context H → Context H × Returned
  unfolding copy_if_any
  flag_by_state new buf c = (c, unavailable)
  flag_by_state receiving buf c = copy_if_any buf (handle_frame c)

  unfoldable pub take_flag : Option ℕ → Context H → Context H × Returned
  unfolding flag_by_state reset_receiver
  take_flag buf c =
      let (handled, ret) = flag_by_state c.rx.frame_state buf c in (reset_receiver handled, ret)

  unfoldable pub deliver_octet : Option ℕ → ℕ → Context H → Context H × Returned
  unfolding take_octet take_flag
  deliver_octet buf octet c =
      let escaped = record c { rx = record c.rx { escape_state = escaping } } in
      if octet == flag
      then take_flag buf c
      else (if octet == esc then (escaped, unavailable) else (take_octet octet c, unavailable))

  -- The octets of a chunk, one by one, with no buffer: the loop of `handleRead` in
  -- include/sfp/asio/messagequeue.hpp, and `sfp::Context::input` for each octet.
  unfoldable pub deliver_octets : List ℕ → Context H → Context H
  deliver_octets [] c = c
  deliver_octets (o ∷ os) c = deliver_octets os (deliver_octet none o c).0
