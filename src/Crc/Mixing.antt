-- ===== src/Crc/Mixing.antt =====
-- The mixing step of the CRC, and how its arguments are had back from its result.
use libsfp.Base.{
  ℕ, ◌+◌, ◌*◌, ◌/◌, ◌%◌, ◌^◌, ◌<◌, ◌≡◌, refl, sym, ap, ◌∙◌, arith, bit_xor, ltb, ◌==◌, ◌||◌, not,
  true, holds_below, holds_below_pairs, table_pairs_eq,
}
use libsfp.Crc.Residue.{crc_ccitt_update-lt}
use libsfp.Crc.{crc_mix, crc_ccitt_update}

abbrev top : ℕ → ℕ
top x = crc_mix 0 x / 256

abbrev bottom : ℕ → ℕ
bottom x = crc_mix 0 x % 256

crc_mix_parts : (h x : ℕ) → h < 256 → x < 256 → crc_mix h x ≡ top x * 256 + bit_xor h (bottom x)
unfolding holds_below crc_mix
crc_mix_parts = table_pairs_eq 256 256 crc_mix (λ h x. top x * 256 + bit_xor h (bottom x)) refl

pub xor_octets-lt : (x y : ℕ) → x < 256 → y < 256 → bit_xor x y < 256
unfolding holds_below
xor_octets-lt x y hx hy =
    ground (arith, holds_below_pairs 256 256 (λ x y. ltb (bit_xor x y) 256) x y refl hx hy)

xor_twice : (x y : ℕ) → x < 256 → y < 256 → bit_xor (bit_xor x y) y ≡ x
unfolding holds_below
xor_twice = table_pairs_eq 256 256 (λ x y. bit_xor (bit_xor x y) y) (λ x y. x) refl

top_injective : (x y : ℕ) → x < 256 → y < 256 → top x ≡ top y → x ≡ y
top_injective x y hx hy e = ground (
  arith,
  holds_below_pairs 256 256 (λ x y. not (top x == top y) || (x == y)) x y tops_table hx hy,
)
  where
    tops_table :
        holds_below 256 (λ x. holds_below 256 (λ y. not (top x == top y) || (x == y))) ≡ true
    tops_table = unfold holds_below crc_mix in refl

crc_mix_injective :
    (h x k y : ℕ)
    → h < 256
    → x < 256
    → k < 256
    → y < 256
    → crc_mix h x ≡ crc_mix k y
    → (h ≡ k) × (x ≡ y)
crc_mix_injective h x k y hh hx hk hy e =
    let parts : top x * 256 + bit_xor h (bottom x) ≡ top y * 256 + bit_xor k (bottom y) =
      sym (crc_mix_parts h x hh hx) ∙ e ∙ crc_mix_parts k y hk hy in
    let low_h = xor_octets-lt h (bottom x) hh (omega arith) in
    let low_k = xor_octets-lt k (bottom y) hk (omega arith) in
    let x≡y = top_injective x y hx hy (omega arith) in
    let lows : bit_xor h (bottom x) ≡ bit_xor k (bottom y) = omega arith in
    (
      sym (xor_twice h (bottom x) hh (omega arith))
          ∙ ap (λ t. bit_xor t (bottom x)) lows
          ∙ ap (λ t. bit_xor (bit_xor k (bottom y)) (bottom t)) x≡y
          ∙ xor_twice k (bottom y) hk (omega arith),
      x≡y,
    )

-- Two updates that agree started from the same high byte, and folded the same octet in.
pub crc_ccitt_update-parts :
    (c d a b : ℕ)
    → c < 2 ^ 16
    → d < 2 ^ 16
    → a < 256
    → b < 256
    → crc_ccitt_update c a ≡ crc_ccitt_update d b
    → (c / 256 ≡ d / 256) × (bit_xor a (c % 256) ≡ bit_xor b (d % 256))
unfolding crc_ccitt_update
crc_ccitt_update-parts c d a b hc hd ha hb e =
    let folded =
      crc_mix_injective (c / 256 % 256) (bit_xor a (c % 256)) (d / 256 % 256) (bit_xor b (d % 256))
        (omega arith) (xor_octets-lt a (c % 256) ha (omega arith)) (omega arith)
        (xor_octets-lt b (d % 256) hb (omega arith)) e in
    (omega (arith, folded.0), folded.1)

xor_cancel_right : (a b z : ℕ) → a < 256 → b < 256 → z < 256 → bit_xor a z ≡ bit_xor b z → a ≡ b
xor_cancel_right a b z ha hb hz e =
    sym (xor_twice a z ha hz) ∙ ap (λ t. bit_xor t z) e ∙ xor_twice b z hb hz

xor_cancel_left : (z a b : ℕ) → z < 256 → a < 256 → b < 256 → bit_xor z a ≡ bit_xor z b → a ≡ b
xor_cancel_left z a b hz ha hb e =
    xor_cancel_right a b z ha hb hz (xor_comm a z ha hz ∙ e ∙ xor_comm z b hz hb)
  where
    xor_comm : (x y : ℕ) → x < 256 → y < 256 → bit_xor x y ≡ bit_xor y x
    xor_comm =
        unfold holds_below in table_pairs_eq 256 256 (λ x y. bit_xor x y) (λ x y. bit_xor y x) refl

-- The same octet taken into different CRCs leaves different CRCs.
pub crc_ccitt_update-crc_injective :
    (c d o : ℕ)
    → c < 2 ^ 16
    → d < 2 ^ 16
    → o < 256
    → crc_ccitt_update c o ≡ crc_ccitt_update d o
    → c ≡ d
crc_ccitt_update-crc_injective c d o hc hd ho e =
    let parts = crc_ccitt_update-parts c d o o hc hd ho ho e in
    let lows = xor_cancel_left o (c % 256) (d % 256) ho (omega arith) (omega arith) parts.1 in
    omega (arith, parts.0, lows)

crc_ccitt_update-high : (c a : ℕ) → a < 256 → crc_ccitt_update c a / 256 ≡ top (bit_xor a (c % 256))
unfolding crc_ccitt_update
crc_ccitt_update-high c a ha =
    let x_lt = xor_octets-lt a (c % 256) ha (omega arith) in
    let low_lt =
      xor_octets-lt (c / 256 % 256) (bottom (bit_xor a (c % 256))) (omega arith) (omega arith) in
    omega (arith, crc_mix_parts (c / 256 % 256) (bit_xor a (c % 256)) (omega arith) x_lt)

-- Two octets taken into the same CRC can be had back from the result.
pub crc_ccitt_update-octets_injective :
    (c a b z w : ℕ)
    → c < 2 ^ 16
    → a < 256
    → b < 256
    → z < 256
    → w < 256
    → crc_ccitt_update (crc_ccitt_update c a) z ≡ crc_ccitt_update (crc_ccitt_update c b) w
    → (a ≡ b) × (z ≡ w)
crc_ccitt_update-octets_injective c a b z w hc ha hb hz hw e =
    let parts =
      crc_ccitt_update-parts (crc_ccitt_update c a) (crc_ccitt_update c b) z w
        (crc_ccitt_update-lt c a) (crc_ccitt_update-lt c b) hz hw e in
    let low_lt : c % 256 < 256 = omega arith in
    let tops : top (bit_xor a (c % 256)) ≡ top (bit_xor b (c % 256)) =
      sym (crc_ccitt_update-high c a ha) ∙ parts.0 ∙ crc_ccitt_update-high c b hb in
    let a≡b = xor_cancel_right a b (c % 256) ha hb low_lt (
      top_injective _ _ (xor_octets-lt a (c % 256) ha low_lt) (xor_octets-lt b (c % 256) hb low_lt)
        tops) in
    let same : crc_ccitt_update c a % 256 ≡ crc_ccitt_update c b % 256 =
      ap (λ t. crc_ccitt_update c t % 256) a≡b in
    (
      a≡b,
      xor_cancel_right z w (crc_ccitt_update c b % 256) hz hw (omega arith)
          (sym (ap (bit_xor z) same) ∙ parts.1),
    )
