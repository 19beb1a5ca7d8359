-- ===== src/Link/Kept.antt =====
-- The history after packets were written.
use libsfp.Base.{
  ◌+◌, ◌≤◌, ◌<◌, List, [], ◌∷◌, ◌++◌, ◌≡◌, sym, ap, ◌∙◌, Bool-cases, inl, inr, length, arith,
  append_assoc, append-nil, All, ltb, length-append, tail,
}
use libsfp.State.{Context, RingBuffer, Packet, history_capacity}
use libsfp.Transmit.Frames.{IsIdle}
use libsfp.Api.{write_packet}
use libsfp.Link.Sending.{FitsPacket, write_packet-Writes, Writes-IsIdle, write_packets}

module _ {H : Type 0} ⦃rb : RingBuffer H⦄ where
  push_back-keeps :
      (older newer : List Packet) (p : Packet) (h : H)
      → rb.to_list h ≡ older ++ newer
      → length newer < history_capacity
      → (before : List Packet) × (rb.to_list (rb.push_back h p) ≡ before ++ (newer ++ p ∷ []))
  push_back-keeps older newer p h e lt =
      elim (Bool-cases (ltb (length (rb.to_list h)) history_capacity)) [
        | inl room ↦ (
          older,
          rb.to_list-push_back h p
              ∙ rw room (ap (λ x. x ++ p ∷ []) e ∙ append_assoc older newer (p ∷ [])),
        )
        | inr full ↦
            let pushed : rb.to_list (rb.push_back h p) ≡ tail (older ++ newer) ++ p ∷ [] =
              rb.to_list-push_back h p ∙ rw full (ap (λ x. tail x ++ p ∷ []) e) in
            displaces older (ground (arith, ap length e)) pushed
      ]
    where
      displaces :
          (xs : List Packet)
          → history_capacity ≤ length (xs ++ newer)
          → rb.to_list (rb.push_back h p) ≡ tail (xs ++ newer) ++ p ∷ []
          → (before : List Packet) × (rb.to_list (rb.push_back h p) ≡ before ++ (newer ++ p ∷ []))
      displaces [] le pushed = absurd (omega arith)
      displaces (x ∷ xs) le pushed = (xs, pushed ∙ append_assoc xs newer (p ∷ []))

  -- Packets of at most 256 octets are written one after another, with a write callback and an empty
  -- write buffer. The newest packets that were in the history before, together with the new ones,
  -- are the newest in it, in order, if they are no more than it has room for.
  pub write_packets-history :
      (ps older newer : List Packet) (c : Context H)
      → IsIdle c
      → All FitsPacket ps
      → rb.to_list c.tx.history ≡ older ++ newer
      → length newer + length ps ≤ history_capacity
      → (before : List Packet) × (rb.to_list (write_packets ps c).tx.history
          ≡ before ++ (newer ++ ps))
  unfolding write_packets
  write_packets-history [] older newer c idle fits e le =
      (older, e ∙ ap (λ x. older ++ x) (sym (append-nil newer)))
  write_packets-history (p ∷ ps) older newer c idle fits e le =
      let first = write_packet-Writes c p idle fits.0 in
      let pushed = push_back-keeps older newer p c.tx.history e (omega arith) in
      let rest =
        write_packets-history ps pushed.0 (newer ++ p ∷ []) (write_packet p c).0
          (Writes-IsIdle first.0 idle) fits.1
          (ap (λ x. rb.to_list x.tx.history) first.0.becomes ∙ pushed.1)
          (omega (arith, length-append newer (p ∷ []))) in
      (rest.0, rest.1 ∙ ap (λ x. rest.0 ++ x) (append_assoc newer (p ∷ []) ps))
