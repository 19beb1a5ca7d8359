-- ===== src/Receive/Whole.antt =====
-- A whole frame at the receiver.
use libsfp.Base.{
  ℕ, ◌+◌, ◌-◌, ◌≤◌, List, [], ◌∷◌, ◌++◌, ◌≡◌, refl, ap, ◌∙◌, Bool, true, false, arith, length,
  length-append, take, take_append, Option, none, some, ltb,
}
use libsfp.State.{
  Context, RingBuffer, flag, new, receiving, crc_good, crc_preset, crc_size, max_packet_size,
  Packet,
}
use libsfp.Crc.{crc_over, crc_trailer}
use libsfp.Crc.Residue.{crc_over-trailer}
use libsfp.Frame.{stuff, encode_frame, get_frame_type}
use libsfp.Handle.{reset_receiver, handle_frame, handle_by_type}
use libsfp.Receive.{copy_if_any, flag_by_state, deliver_octet, deliver_octets}
use libsfp.Receive.Destuff.{
  deliver_octets-append, deliver_octets-stuff, take_octets, take_octets-body, with_payload,
}

module _ {H : Type 0} where
  -- The receiver that has checked a frame: the header and the payload are in, the CRC is good.
  abbrev pub with_frame : Context H → ℕ → Packet → Context H
  with_frame c header payload = with_payload c header crc_good payload

module _ {H : Type 0} ⦃rb : RingBuffer H⦄ where
  pub first_flag :
      (c : Context H) → c.rx.frame_state ≡ new → (deliver_octet none flag c).0 ≡ reset_receiver c
  unfolding deliver_octet
  first_flag c e = rw e

  copy_if_any-context : (buf : Option ℕ) (r : Context H × Bool) → (copy_if_any buf r).0 ≡ r.0
  unfolding copy_if_any
  copy_if_any-context buf (c, false) = refl
  copy_if_any-context none (c, true) = refl
  copy_if_any-context (some len) (c, true) = refl

  pub last_flag :
      (c : Context H)
      → c.rx.frame_state ≡ receiving
      → (deliver_octet none flag c).0 ≡ reset_receiver (handle_frame c).0
  unfolding deliver_octet
  last_flag c e =
      ap (λ s. reset_receiver (flag_by_state s none c).0) e
      ∙ ap reset_receiver (copy_if_any-context none (handle_frame c))

  handle_frame-good :
      (c : Context H) (header : ℕ) (payload trailer : Packet)
      → length trailer ≡ crc_size
      → handle_frame (with_frame c header (payload ++ trailer))
        ≡ handle_by_type (get_frame_type header) (with_frame c header payload)
  unfolding handle_frame
  handle_frame-good c header payload trailer e = rw (long, taken) refl
    where
      long : ltb (length (payload ++ trailer)) crc_size ≡ false
      long = ground (arith, length-append payload trailer)

      taken : take (length (payload ++ trailer) - crc_size) (payload ++ trailer) ≡ payload
      taken = take_append payload trailer _ (omega (arith, length-append payload trailer))

  -- Whatever stands between two flags is taken octet by octet, and the last flag ends it.
  pub deliver_octets-wrapped :
      (c : Context H) (body : List ℕ)
      → c.rx.frame_state ≡ new
      → deliver_octets (flag ∷ stuff body ++ flag ∷ []) c
        ≡ (deliver_octet none flag (take_octets body (reset_receiver c))).0
  deliver_octets-wrapped c body waits =
      split_frame
      ∙ ap (λ x. (deliver_octet none flag (deliver_octets (stuff body) x)).0) (first_flag c waits)
      ∙ ap (λ x. (deliver_octet none flag x).0)
          (deliver_octets-stuff body (reset_receiver c) (unfold reset_receiver in refl))
    where
      split_frame :
          deliver_octets (flag ∷ stuff body ++ flag ∷ []) c
          ≡ (deliver_octet none flag (deliver_octets (stuff body) (deliver_octet none flag c).0)).0
      split_frame =
          unfold deliver_octets in
          deliver_octets-append (stuff body) (flag ∷ []) (deliver_octet none flag c).0

  -- If it fits the packet buffer it is handled as a header and what follows it.
  pub deliver_octets-body :
      (c : Context H) (header : ℕ) (rest : List ℕ)
      → c.rx.frame_state ≡ new
      → length rest ≤ max_packet_size
      → deliver_octets (flag ∷ stuff (header ∷ rest) ++ flag ∷ []) c
        ≡ reset_receiver
            (handle_frame (with_payload c header (crc_over crc_preset (header ∷ rest)) rest)).0
  deliver_octets-body c header rest waits fits =
      deliver_octets-wrapped c (header ∷ rest) waits
      ∙ ap (λ x. (deliver_octet none flag x).0) (take_octets-body header rest c fits)
      ∙ last_flag _ refl

  -- A frame that arrives whole at a receiver that waits for one, and fits its packet buffer with
  -- its CRC, is handled with the header and the payload that were sent, and the receiver waits
  -- for the next.
  pub deliver_octets-encode_frame :
      (c : Context H) (header : ℕ) (payload : Packet)
      → c.rx.frame_state ≡ new
      → length payload + crc_size ≤ max_packet_size
      → deliver_octets (encode_frame header payload) c
        ≡ reset_receiver (handle_by_type (get_frame_type header) (with_frame c header payload)).0
  unfolding encode_frame
  deliver_octets-encode_frame c header payload waits fits =
      deliver_octets-body c header (payload ++ trailer) waits
        (omega (arith, length-append payload trailer))
      ∙ ap (λ k. reset_receiver (handle_frame (with_payload c header k (payload ++ trailer))).0)
          (crc_over-trailer crc_preset (header ∷ payload) (omega arith))
      ∙ ap (λ x. reset_receiver x.0) (handle_frame-good c header payload trailer refl)
    where
      trailer : List ℕ
      trailer = crc_trailer (crc_over crc_preset (header ∷ payload))
