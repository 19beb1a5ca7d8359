-- ===== src/Transmit/Writing.antt =====
-- `sfpBufferedWrite`, `sfpWriteNoCRC`, `sfpWrite` and the payload loop: what each puts on the wire,
-- and the count that it reports.
use libsfp.Base.{
  ℕ, ◌+◌, List, [], ◌∷◌, ◌++◌, ◌≡◌, refl, sym, ap, ◌∙◌, true, false, inl, inr, Bool-cases, leb,
  length, length-append, append-nil, append_assoc, flatten, arith, bit_xor,
}
use libsfp.State.{Context, writebuf_size, esc, esc_flip_bit}
use libsfp.Crc.{crc_over, crc_ccitt_update}
use libsfp.Frame.{is_reserved_octet, stuff}
use libsfp.Frame.Stuffing.{stuff-nil, stuff-append}
use libsfp.Transmit.{flush_write_buffer, buffered_write, write_no_crc, write, write_payload}
use libsfp.Transmit.Sends.{Sends, Puts, Puts-trans, CanSend, Sends-CanSend}

module _ {H : Type 0} (k : ℕ) where
  buffered_write-full :
      (o : ℕ) (c : Context H)
      → CanSend c k
      → leb writebuf_size (length c.tx.writebuf) ≡ true
      → Sends c k (o ∷ []) (buffered_write o c).0
  unfolding buffered_write flatten
  buffered_write-full o c r full = record {
    chunks = c.tx.writebuf ∷ [];
    buf = o ∷ [];
    becomes = ground (arith, r.has_writer, r.crc_is);
    no_loss = rw append-nil;
    chunks_fit = (r.fits, tt);
    buf_fits = omega arith;
  }

  buffered_write-room :
      (o : ℕ) (c : Context H)
      → CanSend c k
      → leb writebuf_size (length c.tx.writebuf) ≡ false
      → Sends c k (o ∷ []) (buffered_write o c).0
  unfolding buffered_write flatten
  buffered_write-room o c r room = record {
    chunks = [];
    buf = c.tx.writebuf ++ o ∷ [];
    becomes = ground (arith, r.has_writer, r.crc_is, append-nil c.trace);
    no_loss = refl;
    chunks_fit = tt;
    buf_fits = ground (arith, length-append c.tx.writebuf (o ∷ []));
  }

  pub buffered_write-Puts :
      (o : ℕ) (c : Context H) → CanSend c k → Puts c k (o ∷ []) (buffered_write o c)
  buffered_write-Puts o c r = elim (Bool-cases (leb writebuf_size (length c.tx.writebuf))) [
    | inl full ↦ (buffered_write-full o c r full, unfold buffered_write in refl)
    | inr room ↦ (buffered_write-room o c r room, unfold buffered_write in refl)
  ]

  pub flush-Sends : (c : Context H) → CanSend c k → Sends c k [] (flush_write_buffer c)
  unfolding flush_write_buffer flatten
  flush-Sends c r = record {
    chunks = c.tx.writebuf ∷ [];
    buf = [];
    becomes = ground (arith, r.crc_is);
    no_loss = append-nil _;
    chunks_fit = (r.fits, tt);
    buf_fits = omega arith;
  }

  -- An octet outside the CRC goes on the wire stuffed, and the CRC stays.
  pub write_no_crc-Puts :
      (o : ℕ) (c : Context H) → CanSend c k → Puts c k (stuff (o ∷ [])) (write_no_crc o c)
  unfolding write_no_crc stuff
  write_no_crc-Puts o c r = elim (Bool-cases (is_reserved_octet o)) [
    | inl reserved ↦
        let first = buffered_write-Puts esc c r in
        rw reserved (
          Puts-trans first (
            buffered_write-Puts (bit_xor o esc_flip_bit) (buffered_write esc c).0
              (Sends-CanSend first.0 r)))
    | inr plain ↦ rw plain (buffered_write-Puts o c r)
  ]

module _ {H : Type 0} where
  -- An octet goes on the wire stuffed, and is taken into the rolling CRC.
  pub write-Puts :
      (o k : ℕ) (c : Context H)
      → CanSend c k
      → Puts c (crc_ccitt_update k o) (stuff (o ∷ [])) (write o c)
  unfolding write
  write-Puts o k c r =
      let taken = record c { tx = record c.tx { crc = crc_ccitt_update c.tx.crc o } } in
      let puts = write_no_crc-Puts (crc_ccitt_update k o) o taken (record {
        has_writer = r.has_writer;
        fits = r.fits;
        crc_is = ap (λ x. crc_ccitt_update x o) r.crc_is;
      }) in
      (
        record {
          chunks = puts.0.chunks;
          buf = puts.0.buf;
          becomes = puts.0.becomes;
          no_loss = puts.0.no_loss;
          chunks_fit = puts.0.chunks_fit;
          buf_fits = puts.0.buf_fits;
        },
        puts.1,
      )

  -- So does a payload, octet by octet; the count goes on from where it was.
  pub write_payload-Puts :
      (p os : List ℕ) (k n l : ℕ) (b c : Context H)
      → CanSend b l
      → Puts b k os (c, n)
      → Puts b (crc_over k p) (os ++ stuff p) (write_payload p (c, n))
  unfolding write_payload crc_over
  write_payload-Puts [] os k n l b c r puts = rw (stuff-nil, append-nil) puts
  write_payload-Puts (o ∷ p) os k n l b c r puts =
      let here = write-Puts o k c (Sends-CanSend puts.0 r) in
      let order : (os ++ stuff (o ∷ [])) ++ stuff p ≡ os ++ stuff (o ∷ p) =
        append_assoc os (stuff (o ∷ [])) (stuff p) ∙ ap (◌++◌ os) (sym (stuff-append (o ∷ []) p)) in
      rw (← order) (
        write_payload-Puts p (os ++ stuff (o ∷ [])) (crc_ccitt_update k o) (n + (write o c).1) l b
          (write o c).0 r (Puts-trans puts here))
