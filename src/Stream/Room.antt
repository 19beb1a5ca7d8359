-- ===== src/Stream/Room.antt =====
-- The buffer that `deliver_input_sequence` has packets copied to: its room, and that of the context.
use libsfp.Base.{
  ℕ, zero, suc, ◌-◌, ◌≤◌, List, [], ◌∷◌, ◌≡◌, refl, sym, ap, ◌∙◌, Bool, true, false, ◌&&◌, Option,
  some, none, ◌==◌, if◌then◌else◌, length, take, ltb, arith,
}
use libsfp.State.{
  Context, RingBuffer, Effect, Packet, FrameState, new, receiving, max_packet_size, flag, esc,
  escaping,
}
use libsfp.Handle.{handle_frame, reset_receiver}
use libsfp.Receive.{
  Returned, failed, unavailable, available, deliver_octet, take_flag, flag_by_state, take_octet,
}
use libsfp.Node.{has_succeeded}
use libsfp.Safety.Octet.{
  deliver_octet-Result, copied, payload_of, ends_frame, takes_packet, copy_if_any_lem,
}
use libsfp.Safety.Reach.{IsBounded}

length-take_le : (n : ℕ) (xs : Packet) → length (take n xs) ≤ length xs
length-take_le zero xs = omega arith
length-take_le (suc n) [] = omega arith
length-take_le (suc n) (x ∷ xs) = omega (arith, length-take_le n xs)

copied-succeeds :
    (taken : Bool) (p : Packet)
    → length p ≤ max_packet_size
    → has_succeeded (if taken then copied (some max_packet_size) p else unavailable) ≡ true
unfolding has_succeeded
copied-succeeds false p le = refl
copied-succeeds true p le = roomy (ltb max_packet_size (length p)) refl
  where
    roomy :
        (small : Bool)
        → ltb max_packet_size (length p) ≡ small
        → has_succeeded (if small then failed else available (some p)) ≡ true
    roomy false e = refl
    roomy true e = absurd (ground (arith, le, e))

module _ {H : Type 0} ⦃rb : RingBuffer H⦄ where
  flag_by_state-buffer :
      (fs : FrameState) (buf : Option ℕ) (c : Context H)
      → (flag_by_state fs buf c).0 ≡ (flag_by_state fs none c).0
  unfolding flag_by_state
  flag_by_state-buffer new buf c = refl
  flag_by_state-buffer receiving buf c =
      (copy_if_any_lem buf (handle_frame c)).0 ∙ sym (copy_if_any_lem none (handle_frame c)).0

  take_flag-buffer : (buf : Option ℕ) (c : Context H) → (take_flag buf c).0 ≡ (take_flag none c).0
  unfolding take_flag
  take_flag-buffer buf c = ap reset_receiver (flag_by_state-buffer c.rx.frame_state buf c)

  -- The buffer makes no difference to the context.
  pub deliver_octet-buffer :
      (buf : Option ℕ) (o : ℕ) (c : Context H)
      → (deliver_octet buf o c).0 ≡ (deliver_octet none o c).0
  unfolding deliver_octet
  deliver_octet-buffer buf o c = by_octet (o == flag) (o == esc)
    where
      branch : Bool → Bool → Option ℕ → Context H × Returned
      branch is_flag is_esc b =
          if is_flag
          then take_flag b c
          else (if is_esc
              then (record c { rx = record c.rx { escape_state = escaping } }, unavailable)
              else (take_octet o c, unavailable))

      by_octet :
          (is_flag is_esc : Bool) → (branch is_flag is_esc buf).0 ≡ (branch is_flag is_esc none).0
      by_octet true is_esc = take_flag-buffer buf c
      by_octet false true = refl
      by_octet false false = refl

  -- The packet of a bounded context fits.
  pub succeeds :
      {start : List Effect} (o : ℕ) (c : Context H)
      → IsBounded start c
      → has_succeeded (deliver_octet (some max_packet_size) o c).1 ≡ true
  succeeds o c k =
      ap has_succeeded (deliver_octet-Result (some max_packet_size) o c).returns
      ∙ copied-succeeds (ends_frame o c && takes_packet c) (payload_of c)
          (omega (arith, length-take_le (length c.rx.packet - 2) c.rx.packet, k.packet_fits))
