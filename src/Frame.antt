-- ===== src/Frame.antt =====
-- Octets and headers of frames: `isReservedOctet`, `nextSeq`, `getFrameType`, `getFrameSeq` of
-- src/serial_framing_protocol.cpp, and the headers that the transmitter composes.
pub mod Header
pub mod Stuffing
use libsfp.Base.{
  ℕ, zero, suc, ◌+◌, List, [], ◌∷◌, ◌++◌, Bool, true, false, ◌||◌, bit_or, bit_xor, uint8, shl, shr,
  low_bits, ◌==◌, if◌then◌else◌,
}
use libsfp.State.{FrameType, usr, rtx, nak, syn, esc, flag, esc_flip_bit, crc_preset}
use libsfp.Crc.{crc_over, crc_trailer}

unfoldable pub is_reserved_octet : ℕ → Bool
is_reserved_octet octet = octet == esc || octet == flag

unfoldable pub next_seq : ℕ → ℕ
next_seq seq = low_bits (seq + 1) 6

-- The enumerators of `SFPframetype`, and the cast back from two bits.
unfoldable pub frame_code : FrameType → ℕ
frame_code usr = 0
frame_code rtx = 1
frame_code nak = 2
frame_code syn = 3

-- Enumerators are compared as the numbers that they are.
unfoldable pub same_type : FrameType → FrameType → Bool
unfolding frame_code
same_type t u = frame_code t == frame_code u

unfoldable pub frame_type_of : ℕ → FrameType
frame_type_of zero = usr
frame_type_of (suc zero) = rtx
frame_type_of (suc (suc zero)) = nak
frame_type_of (suc (suc (suc n))) = syn

unfoldable pub get_frame_type : ℕ → FrameType
unfolding frame_type_of
get_frame_type header = frame_type_of (low_bits (shr header 6) 2)

unfoldable pub get_frame_seq : ℕ → ℕ
get_frame_seq header = low_bits (shr header 0) 6

-- `header = seq << SFP_FIRST_SEQ_BIT; header |= type << SFP_FIRST_CONTROL_BIT;`
unfoldable pub make_header : FrameType → ℕ → ℕ
unfolding frame_code
make_header type seq = uint8 (bit_or (uint8 (shl seq 0)) (shl (frame_code type) 6))

-- What the octets of a frame look like on the wire: the specification of the transmitter.
unfoldable pub stuff : List ℕ → List ℕ
unfolding is_reserved_octet
stuff [] = []
stuff (o ∷ os) =
    (if is_reserved_octet o then esc ∷ bit_xor o esc_flip_bit ∷ [] else o ∷ []) ++ stuff os

-- The octets between the flags before they are stuffed: header, payload, CRC.
abbrev pub frame_body : ℕ → List ℕ → List ℕ
frame_body header payload = header ∷ payload ++ crc_trailer (crc_over crc_preset (header ∷ payload))

unfoldable pub encode_frame : ℕ → List ℕ → List ℕ
encode_frame header payload = flag ∷ stuff (frame_body header payload) ++ flag ∷ []
