-- ===== src/Receive/Destuff.antt =====
-- Stuffed octets at the receiver.
use mathlib.Core.Option.{none}
use libsfp.Base.{
  ℕ, ◌+◌, ◌≤◌, ◌<◌, List, [], ◌∷◌, ◌++◌, ◌≡◌, refl, sym, ap, ◌∙◌, inl, inr, Bool-cases, true, false,
  append-nil, append_assoc, arith, bit_xor, length, length-append,
}
use libsfp.State.{
  Context, RingBuffer, esc, esc_flip_bit, normal, new, receiving, FrameState, max_packet_size,
  crc_preset,
}
use libsfp.Crc.{crc_over, crc_ccitt_update}
use libsfp.Frame.{stuff, is_reserved_octet}
use libsfp.Frame.Stuffing.{stuff-append}
use libsfp.Handle.{reset_receiver}
use libsfp.Receive.{deliver_octet, deliver_octets, take_octet, store_octet}

module _ {H : Type 0} where
  -- The receiver in the middle of a frame, with this header and CRC and these octets after them.
  abbrev pub with_payload : Context H → ℕ → ℕ → List ℕ → Context H
  with_payload c header crc packet = record c {
    rx = record c.rx {
      crc = crc;
      escape_state = normal;
      frame_state = receiving;
      header = header;
      packet = packet;
    };
  }

module _ {H : Type 0} ⦃rb : RingBuffer H⦄ where
  pub deliver_octets-append :
      (xs ys : List ℕ) (c : Context H)
      → deliver_octets (xs ++ ys) c ≡ deliver_octets ys (deliver_octets xs c)
  unfolding deliver_octets
  deliver_octets-append [] ys c = refl
  deliver_octets-append (x ∷ xs) ys c = deliver_octets-append xs ys (deliver_octet none x c).0

  deliver_plain :
      (o : ℕ) (c : Context H)
      → is_reserved_octet o ≡ false
      → (deliver_octet none o c).0 ≡ take_octet o c
  unfolding is_reserved_octet
  deliver_plain o c h = unfold deliver_octet in ground arith

  deliver_escaped :
      (o : ℕ) (c : Context H)
      → is_reserved_octet o ≡ true
      → c.rx.escape_state ≡ normal
      → (deliver_octet none (bit_xor o esc_flip_bit) (deliver_octet none esc c).0).0
        ≡ take_octet o c
  unfolding is_reserved_octet deliver_octet
  deliver_escaped o c h e = ground (arith, e)

  deliver_octets-stuff_one :
      (o : ℕ) (c : Context H)
      → c.rx.escape_state ≡ normal
      → deliver_octets (stuff (o ∷ [])) c ≡ take_octet o c
  unfolding stuff deliver_octets
  deliver_octets-stuff_one o c e = elim (Bool-cases (is_reserved_octet o)) [
    | inl reserved ↦ rw reserved (deliver_escaped o c reserved e)
    | inr plain ↦ rw plain (deliver_plain o c plain)
  ]

  store_octet-normal :
      (s : FrameState) (o : ℕ) (c : Context H)
      → c.rx.escape_state ≡ normal
      → (store_octet s o c).rx.escape_state ≡ normal
  unfolding store_octet
  store_octet-normal new o c e = e
  store_octet-normal receiving o c e = ground arith

  pub take_octet-normal : (o : ℕ) (c : Context H) → (take_octet o c).rx.escape_state ≡ normal
  unfolding take_octet
  take_octet-normal o c = store_octet-normal c.rx.frame_state _ _ refl

  -- The octets of a frame once their stuffing is gone.
  unfoldable pub take_octets : List ℕ → Context H → Context H
  take_octets [] c = c
  take_octets (o ∷ os) c = take_octets os (take_octet o c)

  pub take_octets-append :
      (xs ys : List ℕ) (c : Context H)
      → take_octets (xs ++ ys) c ≡ take_octets ys (take_octets xs c)
  unfolding take_octets
  take_octets-append [] ys c = refl
  take_octets-append (x ∷ xs) ys c = take_octets-append xs ys (take_octet x c)

  -- A receiver that is not escaping takes stuffed octets, whatever octets they stand for, as it would
  -- take those octets, one by one.
  pub deliver_octets-stuff :
      (os : List ℕ) (c : Context H)
      → c.rx.escape_state ≡ normal
      → deliver_octets (stuff os) c ≡ take_octets os c
  unfolding take_octets
  deliver_octets-stuff [] c e = unfold stuff deliver_octets in refl
  deliver_octets-stuff (o ∷ os) c e =
      ap (λ x. deliver_octets x c) (stuff-append (o ∷ []) os)
      ∙ deliver_octets-append (stuff (o ∷ [])) (stuff os) c
      ∙ ap (deliver_octets (stuff os)) (deliver_octets-stuff_one o c e)
      ∙ deliver_octets-stuff os (take_octet o c) (take_octet-normal o c)

  take_octet-payload :
      (o : ℕ) (c : Context H) (h k : ℕ) (p : List ℕ)
      → length p < max_packet_size
      → take_octet o (with_payload c h k p) ≡ with_payload c h (crc_ccitt_update k o) (p ++ o ∷ [])
  unfolding take_octet
  take_octet-payload o c h k p lt = ground arith

  take_octets-payload :
      (os : List ℕ) (c : Context H) (h k : ℕ) (p : List ℕ)
      → length p + length os ≤ max_packet_size
      → take_octets os (with_payload c h k p) ≡ with_payload c h (crc_over k os) (p ++ os)
  unfolding take_octets crc_over
  take_octets-payload [] c h k p le = ap (with_payload c h k) (sym (append-nil p))
  take_octets-payload (o ∷ os) c h k p le =
      ap (take_octets os) (take_octet-payload o c h k p (omega arith))
      ∙ take_octets-payload os c h (crc_ccitt_update k o) (p ++ o ∷ [])
          (omega (arith, length-append p (o ∷ [])))
      ∙ ap (with_payload c h (crc_over (crc_ccitt_update k o) os)) (append_assoc p (o ∷ []) os)

  -- After a reset the first octet is the header, and as many as the packet buffer holds follow.
  pub take_octets-body :
      (header : ℕ) (rest : List ℕ) (c : Context H)
      → length rest ≤ max_packet_size
      → take_octets (header ∷ rest) (reset_receiver c)
        ≡ with_payload c header (crc_over crc_preset (header ∷ rest)) rest
  unfolding take_octets take_octet reset_receiver crc_over
  take_octets-body header rest c le =
      take_octets-payload rest c header (crc_ccitt_update crc_preset header) [] (omega arith)
