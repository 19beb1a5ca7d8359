-- ===== src/Safety/Keeps.antt =====
-- What sending has to do with the receiver, the connection and the user.
use libsfp.Base.{
  ℕ, zero, suc, ◌+◌, [], ◌∷◌, ◌++◌, ◌≡◌, refl, ap, ◌∙◌, Bool, true, false, append-nil,
  if◌then◌else◌, is_some, leb, ltb, length, bit_xor,
}
use libsfp.State.{
  Context, RingBuffer, Effect, FrameType, Packet, wrote, locked, unlocked, assert_failed, emit,
  assert, usr, rtx, flag, crc_preset, esc, esc_flip_bit, writebuf_size,
}
use libsfp.Crc.{crc_ccitt_update}
use libsfp.Frame.{is_reserved_octet, make_header}
use libsfp.State.{nak, syn, seq_syn_dis, seq_syn0, seq_syn1, seq_syn2}
use libsfp.Transmit.{transmit_nak, transmit_dis, transmit_syn0, transmit_syn1, transmit_syn2}
use libsfp.Transmit.{
  flush_write_buffer, buffered_write, write_no_crc, write, write_payload,
  transmit_frame_with_header, transmit_control, is_transmitter_lockable, lock_transmitter,
  unlock_transmitter, with_lock, transmit_frame_impl, transmit_rtx,
}
use libsfp.History.{
  transmit_from, transmit_history, transmit_history_from_seq, clear_history, fast_forward,
  pop_count,
}
use libsfp.Trace.{deliveries, deliveries-append, Grows, Grows-refl, Grows-trans}

module _ {H : Type 0} where
  -- `d` is `c` after it may have sent something.
  pub record Keeps (c d : Context H) : Type 0 where
    pub same_rx : d.rx ≡ c.rx
    pub same_state : d.connect_state ≡ c.connect_state
    pub same_deliveries : deliveries d.trace ≡ deliveries c.trace
    pub grows : Grows c.trace d.trace

  pub Keeps-refl : (c : Context H) → Keeps c c
  Keeps-refl c = record {
    same_rx = refl;
    same_state = refl;
    same_deliveries = refl;
    grows = Grows-refl _;
  }

  pub Keeps-trans : {c d e : Context H} → Keeps c d → Keeps d e → Keeps c e
  Keeps-trans k l = record {
    same_rx = l.same_rx ∙ k.same_rx;
    same_state = l.same_state ∙ k.same_state;
    same_deliveries = l.same_deliveries ∙ k.same_deliveries;
    grows = Grows-trans _ k.grows l.grows;
  }

  pub Keeps-if :
      (b : Bool) {c d e : Context H} → Keeps c d → Keeps c e → Keeps c (if b then d else e)
  Keeps-if true k l = k
  Keeps-if false k l = l

  pub Keeps-if_pair :
      {A : Type 0} (b : Bool) {c : Context H} (d e : Context H × A)
      → Keeps c d.0
      → Keeps c e.0
      → Keeps c (if b then d else e).0
  Keeps-if_pair true d e k l = k
  Keeps-if_pair false d e k l = l

  pub emit-Keeps : (e : Effect) (c : Context H) → deliveries (e ∷ []) ≡ [] → Keeps c (emit e c)
  emit-Keeps e c none_delivered = record {
    same_rx = refl;
    same_state = refl;
    same_deliveries =
        deliveries-append c.trace (e ∷ [])
        ∙ ap (λ t. deliveries c.trace ++ t) none_delivered
        ∙ append-nil _;
    grows = (e ∷ [], refl);
  }

  pub assert-Keeps : (b : Bool) (c : Context H) → Keeps c (assert b c)
  assert-Keeps true c = Keeps-refl c
  assert-Keeps false c = emit-Keeps assert_failed c (unfold deliveries in refl)

  flush-Keeps : (c : Context H) → Keeps c (flush_write_buffer c)
  unfolding flush_write_buffer
  flush-Keeps c =
      let k =
        emit-Keeps (wrote c.tx.write c.tx.write_data c.tx.writebuf) c (unfold deliveries in refl) in
      record {
        same_rx = k.same_rx;
        same_state = k.same_state;
        same_deliveries = k.same_deliveries;
        grows = k.grows;
      }

  buffered_write-Keeps : (o : ℕ) (c : Context H) → Keeps c (buffered_write o c).0
  unfolding buffered_write
  buffered_write-Keeps o c =
      let checked = assert (is_some c.tx.write) c in
      let k = Keeps-trans (assert-Keeps (is_some c.tx.write) c) (
        Keeps-if (leb writebuf_size (length checked.tx.writebuf)) (flush-Keeps checked)
          (Keeps-refl checked)) in
      record {
        same_rx = k.same_rx;
        same_state = k.same_state;
        same_deliveries = k.same_deliveries;
        grows = k.grows;
      }

  write_no_crc-Keeps : (o : ℕ) (c : Context H) → Keeps c (write_no_crc o c).0
  unfolding write_no_crc
  write_no_crc-Keeps o c =
      let escaped = (buffered_write esc c).0 in
      Keeps-if_pair (is_reserved_octet o) _ _
        (Keeps-trans (buffered_write-Keeps esc c)
          (buffered_write-Keeps (bit_xor o esc_flip_bit) escaped))
        (buffered_write-Keeps o c)

  write-Keeps : (o : ℕ) (c : Context H) → Keeps c (write o c).0
  unfolding write
  write-Keeps o c =
      let k =
        write_no_crc-Keeps o
          (record c { tx = record c.tx { crc = crc_ccitt_update c.tx.crc o } }) in
      record {
        same_rx = k.same_rx;
        same_state = k.same_state;
        same_deliveries = k.same_deliveries;
        grows = k.grows;
      }

  write_payload-Keeps : (os : Packet) (c : Context H) (n : ℕ) → Keeps c (write_payload os (c, n)).0
  unfolding write_payload
  write_payload-Keeps [] c n = Keeps-refl c
  write_payload-Keeps (o ∷ os) c n =
      Keeps-trans (write-Keeps o c) (write_payload-Keeps os (write o c).0 (n + (write o c).1))

  pub transmit_frame-Keeps :
      (header : ℕ) (p : Packet) (c : Context H) → Keeps c (transmit_frame_with_header header p c).0
  unfolding transmit_frame_with_header
  transmit_frame-Keeps header p c =
      let k = Keeps-trans (buffered_write-Keeps flag start) (
        Keeps-trans (write-Keeps header _) (
          Keeps-trans (write_payload-Keeps p _ _) (
            Keeps-trans (write_no_crc-Keeps _ _) (
              Keeps-trans (write_no_crc-Keeps _ _)
                (Keeps-trans (buffered_write-Keeps flag _) (flush-Keeps _)))))) in
      record {
        same_rx = k.same_rx;
        same_state = k.same_state;
        same_deliveries = k.same_deliveries;
        grows = k.grows;
      }
    where
      start : Context H
      start = record c { tx = record c.tx { crc = crc_preset } }

  pub transmit_control-Keeps :
      (t : FrameType) (seq : ℕ) (c : Context H) → Keeps c (transmit_control t seq c)
  unfolding transmit_control
  transmit_control-Keeps t seq c = transmit_frame-Keeps (make_header t seq) [] c

  pub transmit_dis-Keeps : (c : Context H) → Keeps c (transmit_dis c)
  unfolding transmit_dis
  transmit_dis-Keeps c = transmit_control-Keeps syn seq_syn_dis c

  pub transmit_syn0-Keeps : (c : Context H) → Keeps c (transmit_syn0 c)
  unfolding transmit_syn0
  transmit_syn0-Keeps c = transmit_control-Keeps syn seq_syn0 c

  pub transmit_syn1-Keeps : (c : Context H) → Keeps c (transmit_syn1 c)
  unfolding transmit_syn1
  transmit_syn1-Keeps c = transmit_control-Keeps syn seq_syn1 c

  pub transmit_syn2-Keeps : (c : Context H) → Keeps c (transmit_syn2 c)
  unfolding transmit_syn2
  transmit_syn2-Keeps c = transmit_control-Keeps syn seq_syn2 c

  pub transmit_nak-Keeps : (seq : ℕ) (c : Context H) → Keeps c (transmit_nak seq c)
  unfolding transmit_nak
  transmit_nak-Keeps seq c = transmit_control-Keeps nak seq c

  pub lock-Keeps : (c : Context H) → Keeps c (lock_transmitter c)
  unfolding lock_transmitter
  lock-Keeps c =
      Keeps-if (is_transmitter_lockable c)
        (emit-Keeps (locked c.tx.lock c.tx.lock_data) c (unfold deliveries in refl)) (Keeps-refl c)

  pub unlock-Keeps : (c : Context H) → Keeps c (unlock_transmitter c)
  unfolding unlock_transmitter
  unlock-Keeps c =
      Keeps-if (is_transmitter_lockable c)
        (emit-Keeps (unlocked c.tx.unlock c.tx.unlock_data) c (unfold deliveries in refl))
        (Keeps-refl c)

  pub with_lock-Keeps :
      (body : Context H → Context H) (c : Context H)
      → ((d : Context H) → Keeps d (body d))
      → Keeps c (with_lock body c)
  unfolding with_lock
  with_lock-Keeps body c keeps =
      Keeps-trans (lock-Keeps c)
        (Keeps-trans (keeps (lock_transmitter c)) (unlock-Keeps (body (lock_transmitter c))))

module _ {H : Type 0} ⦃rb : RingBuffer H⦄ where
  pub transmit_impl-Keeps :
      (p : Packet) (again : Bool) (c : Context H) → Keeps c (transmit_frame_impl p again c).0
  unfolding transmit_frame_impl
  transmit_impl-Keeps p true c =
      let k = transmit_frame-Keeps (make_header rtx c.tx.seq) p c in
      record {
        same_rx = k.same_rx;
        same_state = k.same_state;
        same_deliveries = k.same_deliveries;
        grows = k.grows;
      }
  transmit_impl-Keeps p false c =
      let kept = record c { tx = record c.tx { history = rb.push_back c.tx.history p } } in
      let k = transmit_frame-Keeps (make_header usr c.tx.seq) p kept in
      record {
        same_rx = k.same_rx;
        same_state = k.same_state;
        same_deliveries = k.same_deliveries;
        grows = k.grows;
      }

  transmit_from-Keeps : (n i : ℕ) (c : Context H) → Keeps c (transmit_from n i c)
  unfolding transmit_from transmit_rtx
  transmit_from-Keeps zero i c = Keeps-refl c
  transmit_from-Keeps (suc n) i c =
      Keeps-trans (transmit_impl-Keeps (rb.at c.tx.history i) true c)
        (transmit_from-Keeps n (i + 1) _)

  pub transmit_history_from_seq-Keeps :
      (seq : ℕ) (c : Context H) → Keeps c (transmit_history_from_seq seq c)
  unfolding transmit_history_from_seq transmit_history
  transmit_history_from_seq-Keeps seq c =
      Keeps-trans (starts (ltb fast (rb.size c.tx.history))) (transmit_from-Keeps _ 0 _)
    where
      fast : ℕ
      fast = fast_forward seq c.tx.seq (rb.size c.tx.history)

      forwarded : Bool → Context H
      forwarded b =
          if b then record c { tx = record c.tx { history = pop_count fast c.tx.history } } else c

      starts :
          (b : Bool) → Keeps c (record (forwarded b) { tx = record (forwarded b).tx { seq = seq } })
      starts true = record {
        same_rx = refl;
        same_state = refl;
        same_deliveries = refl;
        grows = Grows-refl _;
      }
      starts false = record {
        same_rx = refl;
        same_state = refl;
        same_deliveries = refl;
        grows = Grows-refl _;
      }

  pub clear_history-Keeps : (c : Context H) → Keeps c (clear_history c)
  unfolding clear_history
  clear_history-Keeps c = record {
    same_rx = refl;
    same_state = refl;
    same_deliveries = refl;
    grows = Grows-refl _;
  }
