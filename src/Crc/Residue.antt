-- ===== src/Crc/Residue.antt =====
-- The residue of the CRC: what is left when it is updated over its own complement, low octet
-- first. This is the receiver's test, `SFP_CRC_GOOD`.
use libsfp.Base.{
  ℕ, ◌-◌, ◌/◌, ◌%◌, ◌^◌, ◌<◌, List, [], ◌∷◌, ◌++◌, ◌≡◌, refl, arith, bit_xor, table_eq, holds_below,
  AreOctets, complement16,
}
use libsfp.Crc.{crc_mix, crc_ccitt_update, crc_over, crc_trailer}

xor_complement : (x : ℕ) → x < 256 → bit_xor (255 - x) x ≡ 255
unfolding holds_below
xor_complement = table_eq 256 (λ x. bit_xor (255 - x) x) (λ x. 255) refl

second_octet : (h : ℕ) → h < 256 → crc_ccitt_update (crc_mix h 255) (255 - h) ≡ 0xf0b8
unfolding holds_below crc_ccitt_update
second_octet = table_eq 256 (λ h. crc_ccitt_update (crc_mix h 255) (255 - h)) (λ h. 0xf0b8) refl

first_octet :
    (c : ℕ) → c < 2 ^ 16 → crc_ccitt_update c (complement16 c % 256) ≡ crc_mix (c / 256) 255
unfolding crc_ccitt_update
first_octet c h =
    let low : complement16 c % 256 ≡ 255 - c % 256 = omega arith in
    let high : c / 256 % 256 ≡ c / 256 = omega arith in
    rw (low, high, xor_complement (c % 256) (omega arith))

pub crc_ccitt_update-lt : (c o : ℕ) → crc_ccitt_update c o < 2 ^ 16
unfolding crc_ccitt_update
crc_ccitt_update-lt c o = omega arith

pub crc_over-lt : (os : List ℕ) (c : ℕ) → c < 2 ^ 16 → crc_over c os < 2 ^ 16
unfolding crc_over
crc_over-lt [] c h = h
crc_over-lt (o ∷ os) c h = crc_over-lt os (crc_ccitt_update c o) (crc_ccitt_update-lt c o)

pub crc_over-append : (xs ys : List ℕ) (c : ℕ) → crc_over c (xs ++ ys) ≡ crc_over (crc_over c xs) ys
unfolding crc_over
crc_over-append [] ys c = refl
crc_over-append (x ∷ xs) ys c = crc_over-append xs ys (crc_ccitt_update c x)

pub trailer-AreOctets : (c : ℕ) → AreOctets (crc_trailer c)
trailer-AreOctets c = omega arith

-- Whatever octets the CRC was rolled over, from any 16-bit start, rolling it on over its own
-- trailer ends at `SFP_CRC_GOOD`.
pub crc_over-trailer :
    (c : ℕ) (os : List ℕ) → c < 2 ^ 16 → crc_over c (os ++ crc_trailer (crc_over c os)) ≡ 0xf0b8
unfolding crc_over
crc_over-trailer c os h =
    rw (crc_over-append os (crc_trailer (crc_over c os)) c) (ends _ (crc_over-lt os c h))
  where
    ends : (d : ℕ) → d < 2 ^ 16 → crc_over d (crc_trailer d) ≡ 0xf0b8
    ends d h =
        let high : complement16 d / 256 % 256 ≡ 255 - d / 256 = omega arith in
        rw (first_octet d h, high) (second_octet (d / 256) (omega arith))
