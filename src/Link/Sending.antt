-- ===== src/Link/Sending.antt =====
-- `sfpWritePacket` on an idle transmitter.
use libsfp.Base.{
  ℕ, ◌≤◌, List, [], ◌∷◌, ◌++◌, ◌≡◌, refl, sym, ap, ◌∙◌, true, is_some, length, arith, append_assoc,
  append-nil, All, flatten, leb,
}
use libsfp.State.{Context, RingBuffer, Packet, usr, max_packet_size, assert}
use libsfp.Frame.{next_seq, make_header, encode_frame}
use libsfp.Transmit.{is_transmitter_lockable, lock_transmitter, unlock_transmitter, transmit_usr}
use libsfp.Transmit.Sends.{writes}
use libsfp.Transmit.Frames.{IsIdle, transmit_frame-SendsFrame}
use libsfp.Transmit.Locked.{
  lock_calls, unlock_calls, calling, lock_transmitter_lem, unlock_transmitter_lem,
}
use libsfp.History.Resend.{frames_from, seq_after}
use libsfp.Trace.{written, trace_laws}
use libsfp.Api.{write_packet}

-- What `sfpWritePacket` accepts.
abbrev pub FitsPacket : Packet → Type 0
FitsPacket p = length p ≤ max_packet_size

module _ {H : Type 0} ⦃rb : RingBuffer H⦄ where
  -- `d` is `c` after a packet was written: one user frame went out under the lock, the packet is the
  -- newest of the history, and the sequence number has advanced.
  pub record Writes (c : Context H) (p : Packet) (d : Context H) : Type 0 where
    pub chunks : List (List ℕ)
    pub crc : ℕ
    pub becomes : d ≡ record c {
      tx = record c.tx {
        seq = next_seq c.tx.seq;
        crc = crc;
        history = rb.push_back c.tx.history p;
        writebuf = [];
      };
      trace = c.trace ++ (lock_calls c ++ (writes c chunks ++ unlock_calls c));
    }
    pub whole : flatten chunks ≡ encode_frame (make_header usr c.tx.seq) p

  -- The same of `sfpTransmitUSR`, outside the lock, with its count.
  abbrev pub TransmitsUsr : Context H → Packet → Context H × ℕ → Type 0
  TransmitsUsr c p r =
      (chunks : List (List ℕ)) × (crc : ℕ) × (r.0 ≡ record c {
        tx = record c.tx {
          seq = next_seq c.tx.seq;
          crc = crc;
          history = rb.push_back c.tx.history p;
          writebuf = [];
        };
        trace = c.trace ++ writes c chunks;
      })
      × (flatten chunks ≡ encode_frame (make_header usr c.tx.seq) p)
      × (r.1 ≡ length (encode_frame (make_header usr c.tx.seq) p))

  transmit_usr-TransmitsUsr :
      (c : Context H) (p : Packet) → IsIdle c → TransmitsUsr c p (transmit_usr p c)
  unfolding transmit_usr
  transmit_usr-TransmitsUsr c p idle =
      let kept = record c { tx = record c.tx { history = rb.push_back c.tx.history p } } in
      let sent =
        transmit_frame-SendsFrame (make_header usr c.tx.seq) p kept
          (record { has_writer = idle.has_writer; flushed = idle.flushed }) in
      (
        sent.0.chunks,
        sent.0.crc,
        ap {A = Context H} (λ x. record x { tx = record x.tx { seq = next_seq x.tx.seq } })
            sent.0.becomes,
        sent.0.whole,
        sent.1,
      )

  -- `sfpWritePacket`, with a write callback, an empty write buffer and a packet of at most 256 octets:
  -- one user frame goes out whole, under the lock; the packet is pushed to the history, the sequence
  -- number advances, nothing else but the rolling CRC is changed, and `*outlen` is the number of
  -- the frame's octets.
  pub write_packet-Writes :
      (c : Context H) (p : Packet)
      → IsIdle c
      → FitsPacket p
      → Writes c p (write_packet p c).0
        × ((write_packet p c).1 ≡ length (encode_frame (make_header usr c.tx.seq) p))
  unfolding write_packet
  write_packet-Writes c p idle fits = (
    record {
      chunks = sent.0;
      crc = sent.1;
      becomes =
          ap (λ x. unlock_transmitter (transmit_usr p x).0) entered
          ∙ ap unlock_transmitter sent.2
          ∙ unlock_transmitter_lem after
          ∙ ap (λ t. record after { trace = t }) calls;
      whole = sent.3;
    },
    ap (λ x. (transmit_usr p x).1) entered ∙ sent.4,
  )
    where
      small : leb (length p) max_packet_size ≡ true
      small = ground arith

      entered :
          lock_transmitter (assert (leb (length p) max_packet_size) c) ≡ calling c (lock_calls c)
      entered = rw small (lock_transmitter_lem c)

      sent : TransmitsUsr (calling c (lock_calls c)) p (transmit_usr p (calling c (lock_calls c)))
      sent =
          transmit_usr-TransmitsUsr (calling c (lock_calls c)) p
            (record { has_writer = idle.has_writer; flushed = idle.flushed })

      after : Context H
      after = record c {
        tx = record c.tx {
          seq = next_seq c.tx.seq;
          crc = sent.1;
          history = rb.push_back c.tx.history p;
          writebuf = [];
        };
        trace = (c.trace ++ lock_calls c) ++ writes c sent.0;
      }

      same_unlock : unlock_calls after ≡ unlock_calls c
      same_unlock = unfold unlock_calls is_transmitter_lockable in refl

      calls :
          ((c.trace ++ lock_calls c) ++ writes c sent.0) ++ unlock_calls after
          ≡ c.trace ++ (lock_calls c ++ (writes c sent.0 ++ unlock_calls c))
      calls =
          ap (λ x. ((c.trace ++ lock_calls c) ++ writes c sent.0) ++ x) same_unlock
          ∙ append_assoc (c.trace ++ lock_calls c) (writes c sent.0) (unlock_calls c)
          ∙ append_assoc c.trace (lock_calls c) (writes c sent.0 ++ unlock_calls c)

  pub Writes-IsIdle : {c d : Context H} {p : Packet} → Writes c p d → IsIdle c → IsIdle d
  Writes-IsIdle w idle = record {
    has_writer = ap (λ x. is_some x.tx.write) w.becomes ∙ idle.has_writer;
    flushed = ap (λ x. x.tx.writebuf) w.becomes;
  }

  Writes-written :
      {c d : Context H} {p : Packet}
      → Writes c p d
      → written d.trace ≡ written c.trace ++ encode_frame (make_header usr c.tx.seq) p
  Writes-written {c} w =
      ap (λ x. written x.trace) w.becomes
      ∙ simp (trace_laws, append-nil) (ap (λ x. written c.trace ++ x) w.whole)

  -- A user's calls of `sfpWritePacket`, one after the other.
  unfoldable pub write_packets : List Packet → Context H → Context H
  write_packets [] c = c
  write_packets (p ∷ ps) c = write_packets ps (write_packet p c).0

  -- `d` is `c` after the packets `ps` were written: they went out as consecutive user frames.
  pub record WritesAll (c : Context H) (ps : List Packet) (d : Context H) : Type 0 where
    pub idle : IsIdle d
    pub seq_is : d.tx.seq ≡ seq_after c.tx.seq ps
    pub same_rx : d.rx ≡ c.rx
    pub same_state : d.connect_state ≡ c.connect_state
    pub writes_frames : written d.trace ≡ written c.trace ++ frames_from usr c.tx.seq ps

  WritesAll-cons :
      {c d e : Context H} {p : Packet} {ps : List Packet}
      → Writes c p d
      → WritesAll d ps e
      → WritesAll c (p ∷ ps) e
  WritesAll-cons {c} {d} {p} {ps} w rest = record {
    idle = rest.idle;
    seq_is = rest.seq_is ∙ unfold seq_after in ap (λ x. seq_after x.tx.seq ps) w.becomes;
    same_rx = rest.same_rx ∙ ap (λ x. x.rx) w.becomes;
    same_state = rest.same_state ∙ ap (λ x. x.connect_state) w.becomes;
    writes_frames =
        rest.writes_frames
        ∙ ap (λ x. x ++ frames_from usr d.tx.seq ps) (Writes-written w)
        ∙ ap (λ x. (written c.trace ++ frame) ++ frames_from usr x.tx.seq ps) w.becomes
        ∙ append_assoc (written c.trace) frame (frames_from usr (next_seq c.tx.seq) ps)
        ∙ unfold frames_from in refl;
  }
    where
      frame : List ℕ
      frame = encode_frame (make_header usr c.tx.seq) p

  -- Packets of at most 256 octets that are written one after another, with a write callback and an
  -- empty write buffer, go out as consecutive user frames from the transmitter's number on; the write
  -- buffer is empty again, the number has advanced past them, and the receiver and the state of the
  -- connection are what they were.
  pub write_packets-WritesAll :
      (ps : List Packet) (c : Context H)
      → IsIdle c
      → All FitsPacket ps
      → WritesAll c ps (write_packets ps c)
  unfolding write_packets
  write_packets-WritesAll [] c idle fits = record {
    idle = idle;
    seq_is = unfold seq_after in refl;
    same_rx = refl;
    same_state = refl;
    writes_frames = unfold frames_from in sym (append-nil _);
  }
  write_packets-WritesAll (p ∷ ps) c idle fits =
      let first = write_packet-Writes c p idle fits.0 in
      WritesAll-cons first.0
        (write_packets-WritesAll ps (write_packet p c).0 (Writes-IsIdle first.0 idle) fits.1)
