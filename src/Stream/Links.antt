-- ===== src/Stream/Links.antt =====
-- What `deliver_input_sequence` has to do with the state of the connection.
use libsfp.Base.{
  ℕ, ◌+◌, List, [], ◌∷◌, ◌++◌, ◌≡◌, refl, sym, ap, ◌∙◌, Bool, true, false, ◌&&◌, not, some, none,
  Option, ◌==◌, if◌then◌else◌, length, drop,
}
use libsfp.State.{
  Context, RingBuffer, Packet, FrameType, usr, rtx, nak, syn, ConnectState, disconnected, sent_syn0,
  sent_syn1, connected, assert, max_packet_size,
}
use libsfp.Api
use libsfp.Frame.{get_frame_type, get_frame_seq, same_type, frame_code}
use libsfp.Receive.{Returned, failed, unavailable, available, deliver_octet}
use libsfp.Node.{has_succeeded}
use libsfp.Safety.Outcome.{next_state, is_taken}
use libsfp.Safety.Octet.{deliver_octet-Result, copied, payload_of, ends_frame, takes_packet}
use libsfp.Stream.{
  Stream, unless_thrown, commit_writes, keep_writes, input_loop, deliver_input_sequence,
  is_available, packet_after,
}
use libsfp.Stream.Operations.{Session, on_stream, start_write, consume_written, feed}

-- A packet is only taken on a connected link, which it leaves as it is.
taken-connected :
    (t : FrameType) (n : ℕ) (s : ConnectState) (expected : ℕ)
    → is_taken t n s expected ≡ true
    → Api.state_is_connected (next_state t n s) ≡ true
unfolding same_type frame_code Api.state_is_connected
taken-connected usr n connected expected taken = refl
taken-connected usr n disconnected expected taken = cc
taken-connected usr n sent_syn0 expected taken = cc
taken-connected usr n sent_syn1 expected taken = cc
taken-connected rtx n connected expected taken = refl
taken-connected rtx n disconnected expected taken = cc
taken-connected rtx n sent_syn0 expected taken = cc
taken-connected rtx n sent_syn1 expected taken = cc
taken-connected nak n s expected taken = cc
taken-connected syn n s expected taken = cc

and_both : (a b : Bool) → (a && b) ≡ true → (a ≡ true) × (b ≡ true)
and_both true true e = (refl, refl)
and_both true false e = cc
and_both false b e = cc

-- What is returned for a frame that is not taken has no packet.
unavailable-not : is_available unavailable ≡ false
unfolding is_available
unavailable-not = refl

packet_after-none : (rc : Returned) (p : Packet) → is_available rc ≡ false → packet_after rc p ≡ p
unfolding packet_after is_available
packet_after-none failed p e = refl
packet_after-none unavailable p e = refl
packet_after-none (available none) p e = refl
packet_after-none (available (some q)) p e = cc

pub negated_true : (b : Bool) → not b ≡ true → b ≡ false
negated_true false e = refl
negated_true true e = cc

pub negated_false : (b : Bool) → not b ≡ false → b ≡ true
negated_false true e = refl
negated_false false e = cc

module _ {H : Type 0} ⦃rb : RingBuffer H⦄ where
  available-connected :
      (buf : Option ℕ) (o : ℕ) (c : Context H)
      → is_available (deliver_octet buf o c).1 ≡ true
      → Api.is_connected (deliver_octet buf o c).0 ≡ true
  unfolding Api.is_connected
  available-connected buf o c e =
      let both =
        and_both (ends_frame o c) (takes_packet c)
          (taken (ends_frame o c && takes_packet c) refl) in
      ap Api.state_is_connected (
        (deliver_octet-Result buf o c).state_is
        ∙ ap
            (λ b.
              if b
              then next_state (get_frame_type c.rx.header) (get_frame_seq c.rx.header)
                  c.connect_state
              else c.connect_state)
            both.0)
      ∙ taken-connected (get_frame_type c.rx.header) (get_frame_seq c.rx.header) c.connect_state
          c.rx.seq both.1
    where
      taken :
          (b : Bool)
          → (ends_frame o c && takes_packet c) ≡ b
          → (ends_frame o c && takes_packet c) ≡ true
      taken true f = f
      taken false f =
          let bad : true ≡ false =
            sym e
            ∙ ap is_available (
                (deliver_octet-Result buf o c).returns
                ∙ ap (λ b. if b then copied buf (payload_of c) else unavailable) f)
            ∙ unavailable-not in
          cc

  pub assert-connected :
      (b : Bool) (c : Context H) → Api.is_connected (assert b c) ≡ Api.is_connected c
  unfolding Api.is_connected
  assert-connected true c = refl
  assert-connected false c = refl

  -- A packet that is not empty leaves the loop on a connected link.
  input_loop-connected :
      (octets : List ℕ) (c : Context H) (pkt : Packet)
      → (length pkt == 0) ≡ true
      → let r = input_loop octets c pkt in (length r.1 == 0) ≡ false → Api.is_connected r.0 ≡ true
  unfolding input_loop
  input_loop-connected [] c pkt empty some_left = cc
  input_loop-connected (o ∷ os) c pkt was_empty some_left =
      by_tests (is_available rc) (length p == 0) refl refl (input_loop-connected os d p) some_left
    where
      rc : Returned
      rc = (deliver_octet (some max_packet_size) o c).1

      d : Context H
      d = assert (has_succeeded rc) (deliver_octet (some max_packet_size) o c).0

      p : Packet
      p = packet_after rc pkt

      by_tests :
          (one empty : Bool)
          → is_available rc ≡ one
          → (length p == 0) ≡ empty
          → ((length p == 0) ≡ true
              → (length (input_loop os d p).1 == 0) ≡ false
              → Api.is_connected (input_loop os d p).0 ≡ true)
          → let r : Context H × Packet × ℕ =
              if one && not empty
              then (d, p, 1)
              else ((input_loop os d p).0, (input_loop os d p).1, 1 + (input_loop os d p).2) in
            (length r.1 == 0) ≡ false → Api.is_connected r.0 ≡ true
      by_tests true false e f ih left =
          assert-connected (has_succeeded rc) _ ∙ available-connected (some max_packet_size) o c e
      by_tests true true e f ih left = ih f left
      by_tests false empty e f ih left =
          ih (ap (λ t. length t == 0) (packet_after-none rc pkt e) ∙ was_empty) left

  unfoldable pub connects : Session H → Bool
  connects s = Api.is_connected s.stream.sfp_context

  -- A packet is there only on a connected link.
  unfoldable pub HasLink : Session H → Type 0
  HasLink s = (length s.stream.sfp_packet == 0) ≡ false → connects s ≡ true

  keep_writes-HasLink :
      (c : Context H) (t u : Stream H)
      → keep_writes c t ≡ some u
      → (u.sfp_context ≡ t.sfp_context) × (u.sfp_packet ≡ t.sfp_packet)
  unfolding keep_writes
  keep_writes-HasLink c t u e =
      by_commit (commit_writes (drop (length c.trace) t.sfp_context.trace) t.write_buffer) e
    where
      by_commit :
          (r : Option (List ℕ))
          → unless_thrown none r (λ b. some (record t { write_buffer = b })) ≡ some u
          → (u.sfp_context ≡ t.sfp_context) × (u.sfp_packet ≡ t.sfp_packet)
      by_commit none g = cc
      by_commit (some b) g =
          let same : record t { write_buffer = b } ≡ u = cc in
          (ap (λ v. v.sfp_context) (sym same), ap (λ v. v.sfp_packet) (sym same))

  pub on_stream-stream :
      (f : Stream H → Option (Stream H)) (s t : Session H)
      → on_stream f s ≡ some t
      → f s.stream ≡ some t.stream
  unfolding on_stream
  on_stream-stream f s t e = by_result (f s.stream) e
    where
      by_result :
          (r : Option (Stream H))
          → unless_thrown none r (λ u. some (record s { stream = u })) ≡ some t
          → r ≡ some t.stream
      by_result none g = cc
      by_result (some u) g =
          let same : record s { stream = u } ≡ t = cc in ap (λ v. some v.stream) same

  pub feed-HasLink :
      (octets : List ℕ) (s t : Session H)
      → feed octets s ≡ some t
      → HasLink (consume_written (start_write t))
  unfolding HasLink connects feed deliver_input_sequence start_write consume_written
  feed-HasLink octets s t e left =
      let read = s.stream.read_buffer ++ octets in
      let fed =
        on_stream-stream deliver_input_sequence
          (record s { stream = record s.stream { read_buffer = read } }) t e in
      let same = keep_writes-HasLink s.stream.sfp_context _ t.stream fed in
      ap Api.is_connected same.0
      ∙ input_loop-connected read s.stream.sfp_context [] refl
          (ap (λ p. length p == 0) (sym same.1) ∙ left)
