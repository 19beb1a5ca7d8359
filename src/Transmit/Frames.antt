-- ===== src/Transmit/Frames.antt =====
-- `sfpTransmitFrameWithHeader`: one frame on the wire, whole and flushed.
use libsfp.Base.{
  ℕ, ◌+◌, List, [], ◌∷◌, ◌++◌, ◌≡◌, refl, sym, ap, subst, ◌∙◌, true, length, append-nil,
  append_assoc, flatten, arith, is_some, All, low_bits, shr, complement16,
}
use libsfp.State.{Context, flag, crc_preset, Packet}
use libsfp.Crc.{crc_over, crc_ccitt_update}
use libsfp.Frame.{stuff, encode_frame}
use libsfp.Frame.Stuffing.{stuff-append}
use libsfp.Transmit.{
  flush_write_buffer, buffered_write, write_no_crc, write, write_payload,
  transmit_frame_with_header,
}
use libsfp.Transmit.Sends.{
  Sends, Puts, CanSend, Puts-trans, Sends-trans, Sends-CanSend, with_wire, writes, Fits,
}
use libsfp.Transmit.Writing.{
  buffered_write-Puts, write_no_crc-Puts, write-Puts, write_payload-Puts, flush-Sends,
}

-- Between two calls of the library: a write callback is set, and the write buffer is empty.
pub record IsIdle {H : Type 0} (c : Context H) : Type 0 where
  pub has_writer : is_some c.tx.write ≡ true
  pub flushed : c.tx.writebuf ≡ []

-- `d` is `c` after the frame was handed to the write callback, whole, in chunks of at most
-- `writebuf_size` octets; nothing else but the rolling CRC is changed.
pub record SendsFrame {H : Type 0} (c : Context H) (header : ℕ) (payload : Packet) (d : Context H)
    : Type 0 where
  pub chunks : List (List ℕ)
  pub crc : ℕ
  pub becomes : d ≡ with_wire c crc [] (writes c chunks)
  pub whole : flatten chunks ≡ encode_frame header payload
  pub chunks_fit : All Fits chunks

module _ {H : Type 0} (header : ℕ) (payload : Packet) (c : Context H) (idle : IsIdle c) where
  abbrev start : Context H
  start = record c { tx = record c.tx { crc = crc_preset } }

  start-CanSend : CanSend start crc_preset
  start-CanSend = record {
    has_writer = idle.has_writer;
    fits = rw (idle.flushed) (omega arith);
    crc_is = refl;
  }

  abbrev body_crc : ℕ
  body_crc = crc_over crc_preset (header ∷ payload)

  abbrev begun : Context H × ℕ
  begun = buffered_write flag start

  begun-Puts : Puts start crc_preset (flag ∷ []) begun
  begun-Puts = buffered_write-Puts crc_preset flag start start-CanSend

  abbrev headed : Context H × ℕ
  headed = let (d, m) = write header begun.0 in (d, begun.1 + m)

  headed-Puts : Puts start (crc_ccitt_update crc_preset header) (flag ∷ stuff (header ∷ [])) headed
  headed-Puts =
      Puts-trans begun-Puts
        (write-Puts header crc_preset begun.0 (Sends-CanSend begun-Puts.0 start-CanSend))

  paid-Puts : Puts start body_crc (flag ∷ stuff (header ∷ payload)) (write_payload payload headed)
  unfolding crc_over
  paid-Puts = rw (stuff-append (header ∷ []) payload) (
      write_payload-Puts payload (flag ∷ stuff (header ∷ [])) _ headed.1 _ start headed.0
        start-CanSend headed-Puts)

  abbrev paid : Context H × ℕ
  paid = write_payload payload headed

  paid-CanSend : CanSend paid.0 body_crc
  paid-CanSend = Sends-CanSend paid-Puts.0 start-CanSend

  abbrev low : Context H × ℕ
  low = write_no_crc (low_bits (complement16 paid.0.tx.crc) 8) paid.0

  low_octet : List ℕ
  low_octet = stuff (low_bits (complement16 body_crc) 8 ∷ [])

  low-Puts :
      Puts start body_crc ((flag ∷ stuff (header ∷ payload)) ++ low_octet) (low.0, paid.1 + low.1)
  unfolding low_octet
  low-Puts = Puts-trans paid-Puts (
      subst (λ x. Puts paid.0 body_crc (stuff (low_bits (complement16 x) 8 ∷ [])) low)
        paid-CanSend.crc_is
        (write_no_crc-Puts body_crc (low_bits (complement16 paid.0.tx.crc) 8) paid.0 paid-CanSend))

  abbrev high : Context H × ℕ
  high = write_no_crc (low_bits (shr (complement16 paid.0.tx.crc) 8) 8) low.0

  high_octet : List ℕ
  high_octet = stuff (low_bits (shr (complement16 body_crc) 8) 8 ∷ [])

  high-Puts :
      Puts start body_crc
        (((flag ∷ stuff (header ∷ payload)) ++ low_octet) ++ high_octet)
        (high.0, paid.1 + low.1 + high.1)
  unfolding high_octet
  high-Puts = Puts-trans low-Puts (
      subst (λ x. Puts low.0 body_crc (stuff (low_bits (shr (complement16 x) 8) 8 ∷ [])) high)
        paid-CanSend.crc_is
        (write_no_crc-Puts body_crc (low_bits (shr (complement16 paid.0.tx.crc) 8) 8) low.0
          (Sends-CanSend low-Puts.0 start-CanSend)))

  frame_octets :
      ((((flag ∷ stuff (header ∷ payload)) ++ low_octet) ++ high_octet) ++ flag ∷ [])
      ≡ encode_frame header payload
  unfolding low_octet high_octet encode_frame
  frame_octets =
      ap (λ x. flag ∷ (x ++ flag ∷ []))
        (joined (low_bits (complement16 body_crc) 8) (low_bits (shr (complement16 body_crc) 8) 8))
    where
      joined :
          (l h : ℕ)
          → (stuff (header ∷ payload) ++ stuff (l ∷ [])) ++ stuff (h ∷ [])
            ≡ stuff (header ∷ payload ++ l ∷ h ∷ [])
      joined l h =
          append_assoc (stuff (header ∷ payload)) (stuff (l ∷ [])) (stuff (h ∷ []))
          ∙ ap (λ x. stuff (header ∷ payload) ++ x) (sym (stuff-append (l ∷ []) (h ∷ [])))
          ∙ sym (stuff-append (header ∷ payload) (l ∷ h ∷ []))

  abbrev ended : Context H × ℕ
  ended = let (d, m) = buffered_write flag high.0 in (d, paid.1 + low.1 + high.1 + m)

  ended-Puts : Puts start body_crc (encode_frame header payload) ended
  ended-Puts =
      subst (λ x. Puts start body_crc x ended) frame_octets
        (Puts-trans high-Puts
          (buffered_write-Puts body_crc flag high.0 (Sends-CanSend high-Puts.0 start-CanSend)))

  flushed-Sends : Sends start body_crc (encode_frame header payload) (flush_write_buffer ended.0)
  flushed-Sends =
      subst (λ x. Sends start body_crc x (flush_write_buffer ended.0)) (append-nil _)
        (Sends-trans ended-Puts.0
          (flush-Sends body_crc ended.0 (Sends-CanSend ended-Puts.0 start-CanSend)))

  emptied : flushed-Sends.buf ≡ []
  emptied = sym (ap (λ x. x.tx.writebuf) flushed-Sends.becomes) ∙ unfold flush_write_buffer in refl

  -- With a write callback and an empty write buffer, one frame goes out whole, in chunks that fit the
  -- write buffer, which is empty again; nothing else but the rolling CRC is changed, and `*outlen` is
  -- the number of the frame's octets on the wire.
  pub transmit_frame-SendsFrame :
      SendsFrame c header payload (transmit_frame_with_header header payload c).0
      × ((transmit_frame_with_header header payload c).1 ≡ length (encode_frame header payload))
  unfolding transmit_frame_with_header
  transmit_frame-SendsFrame = (
    record {
      chunks = flushed-Sends.chunks;
      crc = body_crc;
      becomes =
          flushed-Sends.becomes
          ∙ ap (λ x. with_wire c body_crc x (writes c flushed-Sends.chunks)) emptied;
      whole =
          sym (append-nil (flatten flushed-Sends.chunks))
          ∙ ap (λ x. flatten flushed-Sends.chunks ++ x) (sym emptied)
          ∙ flushed-Sends.no_loss
          ∙ ap (λ x. x ++ encode_frame header payload) idle.flushed;
      chunks_fit = flushed-Sends.chunks_fit;
    },
    ended-Puts.1,
  )
