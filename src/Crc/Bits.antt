-- ===== src/Crc/Bits.antt =====
-- `_crc_ccitt_update` against its definition bit by bit: a register of sixteen bits that is shifted
-- with the feedback of the CCITT polynomial.
use libsfp.Base.{
  ℕ, ◌+◌, ◌*◌, ◌/◌, ◌%◌, ◌^◌, ◌<◌, List, [], ◌∷◌, ◌≡◌, refl, ap, ◌∙◌, arith, bit_xor, ◌==◌,
  if◌then◌else◌, holds_below, table_pairs_eq, AreOctets,
}
use libsfp.Crc.{crc_mix, crc_ccitt_update, crc_over}
use libsfp.Crc.Residue.{crc_ccitt_update-lt}
use libsfp.Crc.Mixing.{xor_octets-lt}

-- x^16 + x^12 + x^5 + 1, with the bits in the order in which they are sent: lowest first.
abbrev ccitt_polynomial : ℕ
ccitt_polynomial = 0x8408

-- One bit leaves the register; if it is set, the polynomial is fed back.
abbrev shift_bit : ℕ → ℕ
shift_bit register =
    if register % 2 == 1 then bit_xor (register / 2) ccitt_polynomial else register / 2

abbrev shift_octet : ℕ → ℕ
shift_octet r =
    shift_bit (shift_bit (shift_bit (shift_bit (shift_bit (shift_bit (shift_bit (shift_bit r)))))))

-- The octet is added to the low half of the register, which is then shifted eight times.
unfoldable pub add_octet : ℕ → ℕ → ℕ
add_octet register octet = shift_octet (register / 256 * 256 + bit_xor octet (register % 256))

unfoldable pub crc_of_bits : ℕ → List ℕ → ℕ
unfolding add_octet
crc_of_bits register [] = register
crc_of_bits register (o ∷ os) = crc_of_bits (add_octet register o) os

crc_mix-shifts : (h x : ℕ) → h < 256 → x < 256 → crc_mix h x ≡ shift_octet (h * 256 + x)
unfolding holds_below crc_mix
crc_mix-shifts = table_pairs_eq 256 256 crc_mix (λ h x. shift_octet (h * 256 + x)) refl

crc_ccitt_update-bits : (c o : ℕ) → c < 2 ^ 16 → o < 256 → crc_ccitt_update c o ≡ add_octet c o
unfolding crc_ccitt_update add_octet
crc_ccitt_update-bits c o hc ho =
    let high : c / 256 % 256 ≡ c / 256 = omega arith in
    ap (λ h. crc_mix h (bit_xor o (c % 256))) high
    ∙ crc_mix-shifts (c / 256) (bit_xor o (c % 256)) (omega arith)
        (xor_octets-lt o (c % 256) ho (omega arith))

-- The CRC of any octets, from any register of sixteen bits, is that of the shift register of the CCITT
-- polynomial, fed with their bits one by one, lowest first.
pub crc_over-bits :
    (os : List ℕ) (c : ℕ) → c < 2 ^ 16 → AreOctets os → crc_over c os ≡ crc_of_bits c os
unfolding crc_over crc_of_bits
crc_over-bits [] c hc octets = refl
crc_over-bits (o ∷ os) c hc octets =
    crc_over-bits os (crc_ccitt_update c o) (crc_ccitt_update-lt c o) octets.1
    ∙ ap (λ r. crc_of_bits r os) (crc_ccitt_update-bits c o hc octets.0)
