-- ===== src/Crc/Burst.antt =====
-- What the CRC detects: any damage that is confined to two neighbouring octets.
use libsfp.Base.{ℕ, ◌^◌, ◌<◌, List, [], ◌∷◌, ◌++◌, ◌≡◌, sym, ◌∙◌, ◌≢◌, ◌⊎◌, inl, inr, AreOctets}
use libsfp.Crc.{crc_over}
use libsfp.Crc.Residue.{crc_ccitt_update-lt, crc_over-lt, crc_over-append}
use libsfp.Crc.Mixing.{crc_ccitt_update-crc_injective, crc_ccitt_update-octets_injective}

-- The same octets after different CRCs leave different CRCs.
crc_over-crc_injective :
    (os : List ℕ) (c d : ℕ)
    → AreOctets os
    → c < 2 ^ 16
    → d < 2 ^ 16
    → crc_over c os ≡ crc_over d os
    → c ≡ d
unfolding crc_over
crc_over-crc_injective [] c d are hc hd e = e
crc_over-crc_injective (o ∷ os) c d are hc hd e =
    crc_ccitt_update-crc_injective c d o hc hd are.0
      (crc_over-crc_injective os _ _ are.1 (crc_ccitt_update-lt c o) (crc_ccitt_update-lt d o) e)

-- Two frames that agree but for two neighbouring octets, at least one of which differs, have
-- different CRCs, from any 16-bit start.
pub crc_over_burst :
    (before after : List ℕ) (c a b z w : ℕ)
    → AreOctets after
    → c < 2 ^ 16
    → a < 256
    → b < 256
    → z < 256
    → w < 256
    → (a ≢ b) ⊎ (z ≢ w)
    → crc_over c (before ++ a ∷ z ∷ after) ≢ crc_over c (before ++ b ∷ w ∷ after)
unfolding crc_over
crc_over_burst before after c a b z w are hc ha hb hz hw differ e = refuted differ
  where
    start : ℕ
    start = crc_over c before

    both : (a ≡ b) × (z ≡ w)
    both = crc_ccitt_update-octets_injective start a b z w (crc_over-lt before c hc) ha hb hz hw (
        crc_over-crc_injective after _ _ are (crc_ccitt_update-lt _ z) (crc_ccitt_update-lt _ w) (
          sym (crc_over-append before (a ∷ z ∷ after) c)
          ∙ e
          ∙ crc_over-append before (b ∷ w ∷ after) c))

    refuted : (a ≢ b) ⊎ (z ≢ w) → ⊥
    refuted (inl ne) = ne both.0
    refuted (inr ne) = ne both.1
