-- ===== src/Safety/Bounds.antt =====
-- The bounds of the transmitter, under each operation that sends: its sequence number, its write
-- buffer, and what the write callback is handed.
use libsfp.Base.{
  ℕ, zero, suc, ◌+◌, ◌<◌, ◌≤◌, [], ◌∷◌, ◌++◌, ◌≡◌, refl, Bool, true, false, if◌then◌else◌, is_some,
  leb, ltb, length, length-append, bit_xor, arith, List, append_assoc, ap, ◌∙◌,
}
use libsfp.State.{
  Context, RingBuffer, FrameType, usr, rtx, Packet, esc, flag, crc_preset, esc_flip_bit,
  writebuf_size, assert, emit, Effect, wrote, delivered, locked, unlocked, assert_failed,
}
use libsfp.Frame.{is_reserved_octet, make_header}
use libsfp.Frame.Header.{next_seq-lt}
use libsfp.Transmit.{
  flush_write_buffer, buffered_write, write_no_crc, write, write_payload,
  transmit_frame_with_header, transmit_control, is_transmitter_lockable, lock_transmitter,
  unlock_transmitter, with_lock, transmit_frame_impl, transmit_rtx,
}
use libsfp.History.{
  transmit_from, transmit_history, transmit_history_from_seq, fast_forward, pop_count,
}

-- No call of the write callback is handed more octets than the write buffer has room for.
unfoldable pub WritesFit : List Effect → Type 0
WritesFit [] = Unit
WritesFit (wrote f d octets ∷ es) = (length octets ≤ writebuf_size) × WritesFit es
WritesFit (delivered f d p ∷ es) = WritesFit es
WritesFit (locked f d ∷ es) = WritesFit es
WritesFit (unlocked f d ∷ es) = WritesFit es
WritesFit (assert_failed ∷ es) = WritesFit es

WritesFit-append : (xs ys : List Effect) → WritesFit xs → WritesFit ys → WritesFit (xs ++ ys)
unfolding WritesFit
WritesFit-append [] ys k l = l
WritesFit-append (wrote f d octets ∷ es) ys k l = (k.0, WritesFit-append es ys k.1 l)
WritesFit-append (delivered f d p ∷ es) ys k l = WritesFit-append es ys k l
WritesFit-append (locked f d ∷ es) ys k l = WritesFit-append es ys k l
WritesFit-append (unlocked f d ∷ es) ys k l = WritesFit-append es ys k l
WritesFit-append (assert_failed ∷ es) ys k l = WritesFit-append es ys k l

module _ {H : Type 0} where
  -- The trace has gone on from `start`.
  pub record SendsBounded (start : List Effect) (c : Context H) : Type 0 where
    pub seq_lt : c.tx.seq < 64
    pub fits : length c.tx.writebuf ≤ writebuf_size
    pub calls : List Effect
    pub goes_on : c.trace ≡ start ++ calls
    pub writes_fit : WritesFit calls

module _ {H : Type 0} {start : List Effect} where
  pub Bounded-if :
      (b : Bool) {c d : Context H}
      → SendsBounded start c
      → SendsBounded start d
      → SendsBounded start (if b then c else d)
  Bounded-if true k l = k
  Bounded-if false k l = l

  Bounded-if_pair :
      {A : Type 0} (b : Bool) (c d : Context H × A)
      → SendsBounded start c.0
      → SendsBounded start d.0
      → SendsBounded start (if b then c else d).0
  Bounded-if_pair true c d k l = k
  Bounded-if_pair false c d k l = l

  -- The bounds say nothing of the other fields.
  pub same-Bounded :
      {c d : Context H}
      → SendsBounded start c
      → d.tx.seq ≡ c.tx.seq
      → d.tx.writebuf ≡ c.tx.writebuf
      → d.trace ≡ c.trace
      → SendsBounded start d
  same-Bounded k seq buf trace = record {
    seq_lt = rw seq (k.seq_lt);
    fits = rw buf (k.fits);
    calls = k.calls;
    goes_on = trace ∙ k.goes_on;
    writes_fit = k.writes_fit;
  }

  pub emit-Bounded :
      (e : Effect) (c : Context H)
      → WritesFit (e ∷ [])
      → SendsBounded start c
      → SendsBounded start (emit e c)
  emit-Bounded e c fit k = record {
    seq_lt = k.seq_lt;
    fits = k.fits;
    calls = k.calls ++ e ∷ [];
    goes_on = ap (λ t. t ++ e ∷ []) k.goes_on ∙ append_assoc start k.calls (e ∷ []);
    writes_fit = WritesFit-append k.calls (e ∷ []) k.writes_fit fit;
  }

  pub assert-Bounded :
      (b : Bool) (c : Context H) → SendsBounded start c → SendsBounded start (assert b c)
  unfolding WritesFit
  assert-Bounded true c k = k
  assert-Bounded false c k = emit-Bounded assert_failed c tt k

  flush-Bounded : (c : Context H) → SendsBounded start c → SendsBounded start (flush_write_buffer c)
  unfolding flush_write_buffer WritesFit
  flush-Bounded c k =
      let called = emit-Bounded (wrote c.tx.write c.tx.write_data c.tx.writebuf) c (k.fits, tt) k in
      record {
        seq_lt = k.seq_lt;
        fits = omega arith;
        calls = called.calls;
        goes_on = called.goes_on;
        writes_fit = called.writes_fit;
      }

  buffered_write-Bounded :
      (o : ℕ) (c : Context H) → SendsBounded start c → SendsBounded start (buffered_write o c).0
  unfolding buffered_write
  buffered_write-Bounded o c k = stored (leb writebuf_size (length checked.tx.writebuf)) refl
    where
      checked : Context H
      checked = assert (is_some c.tx.write) c

      bounded : SendsBounded start checked
      bounded = assert-Bounded (is_some c.tx.write) c k

      room :
          leb writebuf_size (length checked.tx.writebuf) ≡ false
          → length checked.tx.writebuf < writebuf_size
      room e = ground arith

      stored :
          (full : Bool)
          → leb writebuf_size (length checked.tx.writebuf) ≡ full
          → let room = if full then flush_write_buffer checked else checked in
            SendsBounded start
              (record room { tx = record room.tx { writebuf = room.tx.writebuf ++ o ∷ [] } })
      stored true e =
          let flushed = flush-Bounded checked bounded in
          record {
            seq_lt = flushed.seq_lt;
            fits = unfold flush_write_buffer in omega arith;
            calls = flushed.calls;
            goes_on = flushed.goes_on;
            writes_fit = flushed.writes_fit;
          }
      stored false e = record {
        seq_lt = bounded.seq_lt;
        fits = omega (arith, length-append checked.tx.writebuf (o ∷ []), room e);
        calls = bounded.calls;
        goes_on = bounded.goes_on;
        writes_fit = bounded.writes_fit;
      }

  write_no_crc-Bounded :
      (o : ℕ) (c : Context H) → SendsBounded start c → SendsBounded start (write_no_crc o c).0
  unfolding write_no_crc
  write_no_crc-Bounded o c k =
      Bounded-if_pair (is_reserved_octet o) _ _
        (buffered_write-Bounded (bit_xor o esc_flip_bit) _ (buffered_write-Bounded esc c k))
        (buffered_write-Bounded o c k)

  write-Bounded : (o : ℕ) (c : Context H) → SendsBounded start c → SendsBounded start (write o c).0
  unfolding write
  write-Bounded o c k = write_no_crc-Bounded o _ (same-Bounded k refl refl refl)

  write_payload-Bounded :
      (os : Packet) (c : Context H) (n : ℕ)
      → SendsBounded start c
      → SendsBounded start (write_payload os (c, n)).0
  unfolding write_payload
  write_payload-Bounded [] c n k = k
  write_payload-Bounded (o ∷ os) c n k =
      write_payload-Bounded os (write o c).0 (n + (write o c).1) (write-Bounded o c k)

  pub transmit_frame-Bounded :
      (header : ℕ) (p : Packet) (c : Context H)
      → SendsBounded start c
      → SendsBounded start (transmit_frame_with_header header p c).0
  unfolding transmit_frame_with_header
  transmit_frame-Bounded header p c k = flush-Bounded _ (
      buffered_write-Bounded flag _ (
        write_no_crc-Bounded _ _ (
          write_no_crc-Bounded _ _ (
            write_payload-Bounded p _ _ (
              write-Bounded header _ (
                buffered_write-Bounded flag _ (
                  same-Bounded {d = record c { tx = record c.tx { crc = crc_preset } }} k refl refl
                    refl)))))))

  pub transmit_control-Bounded :
      (t : FrameType) (seq : ℕ) (c : Context H)
      → SendsBounded start c
      → SendsBounded start (transmit_control t seq c)
  unfolding transmit_control
  transmit_control-Bounded t seq c = transmit_frame-Bounded (make_header t seq) [] c

  pub lock-Bounded :
      (c : Context H) → SendsBounded start c → SendsBounded start (lock_transmitter c)
  unfolding lock_transmitter WritesFit
  lock-Bounded c k =
      Bounded-if (is_transmitter_lockable c) (emit-Bounded (locked c.tx.lock c.tx.lock_data) c tt k)
        k

  pub unlock-Bounded :
      (c : Context H) → SendsBounded start c → SendsBounded start (unlock_transmitter c)
  unfolding unlock_transmitter WritesFit
  unlock-Bounded c k =
      Bounded-if (is_transmitter_lockable c)
        (emit-Bounded (unlocked c.tx.unlock c.tx.unlock_data) c tt k) k

  pub with_lock-Bounded :
      (body : Context H → Context H) (c : Context H)
      → ((d : Context H) → SendsBounded start d → SendsBounded start (body d))
      → SendsBounded start c
      → SendsBounded start (with_lock body c)
  unfolding with_lock
  with_lock-Bounded body c keeps k = unlock-Bounded _ (keeps _ (lock-Bounded c k))

module _ {H : Type 0} {start : List Effect} ⦃rb : RingBuffer H⦄ where
  pub transmit_impl-Bounded :
      (p : Packet) (again : Bool) (c : Context H)
      → SendsBounded start c
      → SendsBounded start (transmit_frame_impl p again c).0
  unfolding transmit_frame_impl
  transmit_impl-Bounded p true c k =
      let sent = transmit_frame-Bounded (make_header rtx c.tx.seq) p c k in
      record {
        seq_lt = next_seq-lt _;
        fits = sent.fits;
        calls = sent.calls;
        goes_on = sent.goes_on;
        writes_fit = sent.writes_fit;
      }
  transmit_impl-Bounded p false c k =
      let kept = record c { tx = record c.tx { history = rb.push_back c.tx.history p } } in
      let sent =
        transmit_frame-Bounded (make_header usr c.tx.seq) p kept (same-Bounded k refl refl refl) in
      record {
        seq_lt = next_seq-lt _;
        fits = sent.fits;
        calls = sent.calls;
        goes_on = sent.goes_on;
        writes_fit = sent.writes_fit;
      }

  transmit_from-Bounded :
      (n i : ℕ) (c : Context H) → SendsBounded start c → SendsBounded start (transmit_from n i c)
  unfolding transmit_from transmit_rtx
  transmit_from-Bounded zero i c k = k
  transmit_from-Bounded (suc n) i c k =
      transmit_from-Bounded n (i + 1) _ (transmit_impl-Bounded (rb.at c.tx.history i) true c k)

  pub transmit_history_from_seq-Bounded :
      (seq : ℕ) (c : Context H)
      → seq < 64
      → SendsBounded start c
      → SendsBounded start (transmit_history_from_seq seq c)
  unfolding transmit_history_from_seq transmit_history
  transmit_history_from_seq-Bounded seq c lt k =
      transmit_from-Bounded _ 0 _ (starts (ltb fast (rb.size c.tx.history)))
    where
      fast : ℕ
      fast = fast_forward seq c.tx.seq (rb.size c.tx.history)

      forwarded : Bool → Context H
      forwarded b =
          if b then record c { tx = record c.tx { history = pop_count fast c.tx.history } } else c

      starts :
          (b : Bool)
          → SendsBounded start (record (forwarded b) { tx = record (forwarded b).tx { seq = seq } })
      starts true = record {
        seq_lt = lt;
        fits = k.fits;
        calls = k.calls;
        goes_on = k.goes_on;
        writes_fit = k.writes_fit;
      }
      starts false = record {
        seq_lt = lt;
        fits = k.fits;
        calls = k.calls;
        goes_on = k.goes_on;
        writes_fit = k.writes_fit;
      }
