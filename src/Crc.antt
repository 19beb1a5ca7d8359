-- ===== src/Crc.antt =====
-- `_crc_ccitt_update` of src/serial_framing_protocol.cpp, and its run over a list of octets.
pub mod Residue
pub mod Mixing
pub mod Burst
pub mod Bits
use libsfp.Base.{ℕ, List, [], ◌∷◌, bit_or, bit_xor, uint8, uint16, shl, shr, low_bits, complement16}

-- What the update does with the octet once the low byte of the CRC is folded into it.
unfoldable pub crc_mix : ℕ → ℕ → ℕ
crc_mix high octet =
    let folded = bit_xor octet (uint8 (shl octet 4)) in
    uint16 (bit_xor (bit_xor (bit_or (shl folded 8) high) (uint8 (shr folded 4))) (shl folded 3))

unfoldable pub crc_ccitt_update : ℕ → ℕ → ℕ
unfolding crc_mix
crc_ccitt_update crc octet = crc_mix (low_bits (shr crc 8) 8) (bit_xor octet (low_bits crc 8))

-- The CRC rolled over a list of octets, in order.
unfoldable pub crc_over : ℕ → List ℕ → ℕ
crc_over crc [] = crc
crc_over crc (o ∷ os) = crc_over (crc_ccitt_update crc o) os

-- The two octets that end a frame: the complement of the CRC, low octet first.
abbrev pub crc_trailer : ℕ → List ℕ
crc_trailer crc = low_bits (complement16 crc) 8 ∷ low_bits (shr (complement16 crc) 8) 8 ∷ []
