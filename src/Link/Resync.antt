-- ===== src/Link/Resync.antt =====
-- A NAK at a connected sender that still has the frames.
use libsfp.Base.{
  ℕ, ◌+◌, ◌%◌, ◌≤◌, ◌<◌, List, [], ◌++◌, ◌≡◌, ◌≢◌, refl, sym, ap, ◌∙◌, true, false, is_some, length,
  arith, append-nil, if◌then◌else◌, length-append, not, ◌==◌,
}
use libsfp.State.{Context, RingBuffer, Packet, rtx, nak, connected, new, history_capacity}
use libsfp.Frame.{get_frame_type, get_frame_seq, make_header, encode_frame, same_type}
use libsfp.Frame.Header.{get_frame_type-make_header}
use libsfp.Transmit.{with_lock}
use libsfp.Transmit.Sends.{writes}
use libsfp.Transmit.Frames.{IsIdle}
use libsfp.Transmit.Locked.{lock_calls, unlock_calls, calling, with_lock_lem}
use libsfp.History.{transmit_history_from_seq}
use libsfp.History.Resend.{frames_from}
use libsfp.History.Window.{Retransmits, transmit_history_from_seq-Retransmits}
use libsfp.Handle.{handle_nak, nak_by_state, handle_by_type, reset_receiver}
use libsfp.Receive.{deliver_octets}
use libsfp.Receive.Whole.{with_frame, deliver_octets-encode_frame}
use libsfp.Trace.{written, deliveries, trace_laws}
use libsfp.Link.Refuse.{Answers}

module _ {H : Type 0} ⦃rb : RingBuffer H⦄ where
  handle_nak-connected :
      (c : Context H)
      → c.connect_state ≡ connected
      → get_frame_type c.rx.header ≡ nak
      → get_frame_seq c.rx.header ≢ c.tx.seq
      → handle_nak c ≡ transmit_history_from_seq (get_frame_seq c.rx.header) c
  unfolding handle_nak
  handle_nak-connected c up is_nak other = rw checked (
      ap (λ s. nak_by_state s c) up
      ∙ ap (λ b. if not b then transmit_history_from_seq (get_frame_seq c.rx.header) c else c)
          differs)
    where
      checked : same_type nak (get_frame_type c.rx.header) ≡ true
      checked = rw is_nak (unfold same_type in refl)

      differs : (get_frame_seq c.rx.header == c.tx.seq) ≡ false
      differs = ground (arith, other)

  module _ (c : Context H) (seq : ℕ) (older lost : List Packet) (up : c.connect_state ≡ connected)
      (waits : c.rx.frame_state ≡ new) (idle : IsIdle c)
      (in_history : rb.to_list c.tx.history ≡ older ++ lost) (some_lost : 0 < length lost)
      (seq_lt : seq < 64) (window : c.tx.seq ≡ (seq + length lost) % 64) where
    abbrev framed : Context H
    framed = with_frame c (make_header nak seq) []

    abbrev inside : Context H
    inside = calling framed (lock_calls framed)

    fields :
        (get_frame_type (make_header nak seq) ≡ nak) × (get_frame_seq (make_header nak seq) ≡ seq)
    fields = get_frame_type-make_header nak seq seq_lt

    few_lost : length lost ≤ history_capacity
    few_lost = omega (
      arith,
      rb.size-le c.tx.history,
      rb.size_lem c.tx.history,
      ap length in_history,
      length-append older lost,
    )

    resends : Retransmits inside seq lost (handle_nak inside)
    resends =
        rw (handle_nak-connected inside up fields.0 (λ e. other (sym fields.1 ∙ e)), fields.1)
          (transmit_history_from_seq-Retransmits inside seq older lost
            (record { has_writer = idle.has_writer; flushed = idle.flushed }) in_history some_lost
            seq_lt window)
      where
        other : seq ≢ c.tx.seq
        other e = absurd (omega (arith, few_lost))

    abbrev handled : Context H
    handled = reset_receiver (with_lock handle_nak framed)

    answered : deliver_octets (encode_frame (make_header nak seq) []) c ≡ handled
    answered =
        deliver_octets-encode_frame c (make_header nak seq) [] waits (omega arith)
        ∙ ap (λ t. reset_receiver (handle_by_type t framed).0) fields.0
        ∙ unfold handle_by_type in refl

    becomes :
        handled ≡ reset_receiver (calling (handle_nak inside) (unlock_calls (handle_nak inside)))
    becomes = ap reset_receiver (with_lock_lem handle_nak framed)

    abbrev resent_all : Context H
    resent_all = record inside {
      tx = record inside.tx { crc = resends.crc; writebuf = []; history = resends.history };
      trace = inside.trace ++ writes inside resends.chunks;
    }

    ends :
        deliver_octets (encode_frame (make_header nak seq) []) c
        ≡ reset_receiver (calling resent_all (unlock_calls resent_all))
    ends =
        answered ∙ becomes ∙ ap (λ x. reset_receiver (calling x (unlock_calls x))) resends.becomes

    -- A NAK arrives at a connected sender that waits for a frame and has a write callback and an empty
    -- write buffer. It asks for the first of the newest packets of the history, one at least, and
    -- the sender's next number is the one after those. Then it is answered by those packets, as
    -- retransmissions under the sequence numbers that they had; the packets before them leave the
    -- history, and the next number is what it was.
    pub deliver_octets-nak :
        let d = deliver_octets (encode_frame (make_header nak seq) []) c in
        Answers c (frames_from rtx seq lost) d
        × (d.tx.seq ≡ c.tx.seq)
        × (rb.to_list d.tx.history ≡ lost)
    unfolding reset_receiver
    deliver_octets-nak = (
      record {
        writes_octets =
            ap (λ x. written x.trace) ends
            ∙ simp (trace_laws, append-nil) (ap (λ x. written c.trace ++ x) resends.whole);
        delivers_none = ap (λ x. deliveries x.trace) ends ∙ simp (trace_laws, append-nil);
        waits = ap (λ x. x.rx.frame_state) ends;
        same_seq = ap (λ x. x.rx.seq) ends;
        same_deliver = ap (λ x. x.rx.deliver) ends;
        same_state = ap (λ x. x.connect_state) ends;
        idle = record {
          has_writer = ap (λ x. is_some x.tx.write) ends ∙ idle.has_writer;
          flushed = ap (λ x. x.tx.writebuf) ends;
        };
      },
      ap (λ x. x.tx.seq) ends,
      ap (λ x. rb.to_list x.tx.history) ends ∙ resends.kept,
    )
