-- ===== src/Stream/Answer.antt =====
-- `handshake_op` with an other end that answers.
use libsfp.Base.{
  ℕ, List, [], ◌∷◌, ◌++◌, ◌≡◌, refl, sym, ap, ◌∙◌, ◌⊎◌, inl, inr, Bool, true, false, ◌&&◌, not,
  ◌==◌, if◌then◌else◌, length, append-nil, some, ◌<◌, arith, ◌+◌, ◌≤◌, ltb, none, Option,
  append_assoc, length-append,
}
use libsfp.State.{Context, RingBuffer, Effect, assert, syn, new, sent_syn0, connected}
use libsfp.Frame.{make_header, encode_frame, stuff}
use libsfp.Crc.{crc_over, crc_ccitt_update}
use libsfp.Trace.{written, written-append, same_suffix}
use libsfp.Receive.Destuff.{deliver_octets-append}
use libsfp.Stream.{Stream, unless_thrown, buffer_limit, deliver_input_sequence}
use libsfp.Receive.{deliver_octets}
use libsfp.Api
use libsfp.Transmit.Frames.{IsIdle}
use libsfp.Link.Greeting.{Greets, connect-Greets}
use libsfp.Link.Calls.{connect-grows, connect-written}
use libsfp.Link.Syns.{syn1-Greets}
use libsfp.Safety.Reachable.{
  Reachable, Reachable-IsBounded, initialized, by_connect, by_write_callback,
}
use libsfp.Errors.{no_error, timed_out, is_error}
use libsfp.Stream.Commits.{keep_writes_lem}
use libsfp.Stream.Feed.{deliver_input_sequence_lem, Delivers, deliver_octets-grows}
use libsfp.Stream.Operations.{
  Session, Round, Progress, waits, completes, throws, ends_well, after_timed, settled, reached,
  has_packet, is_timed_out, on_stream, start_write, consume_written, consume_read, feed,
  begin_handshake, read_until, read_until_connected, read_until_delivery, settle, handshake,
}
use libsfp.Stream.Links.{connects, HasLink, feed-HasLink, assert-connected}
use libsfp.Stream.Handshake.{handshake-links}

module _ {H : Type 0} ⦃rb : RingBuffer H⦄ where
  -- A connected session settles when its time is over.
  settle-ends : (s : Session H) → connects s ≡ true → (settle [] s).1 ≡ completes no_error
  unfolding settle read_until_delivery read_until connects after_timed settled is_timed_out is_error
  settle-ends s up = by_packet (has_packet s)
    where
      idle : Bool
      idle = (length s.stream.sfp_packet == 0) && (length s.stream.read_buffer == 0)

      checked : Session H
      checked = record s {
        stream = record s.stream { sfp_context = assert idle s.stream.sfp_context };
      }

      by_packet :
          (b : Bool)
          → (if b
              then (s, completes no_error)
              else after_timed (checked, if b then completes no_error else waits) settled).1
            ≡ completes no_error
      by_packet true = refl
      by_packet false =
          ap (λ c. completes (if c then no_error else timed_out))
            (assert-connected idle s.stream.sfp_context ∙ up)

  on_stream-result :
      (f : Stream H → Option (Stream H)) (s : Session H) (t : Stream H)
      → f s.stream ≡ some t
      → on_stream f s ≡ some (record s { stream = t })
  unfolding on_stream
  on_stream-result f s t e = ap (λ r. unless_thrown none r (λ u. some (record s { stream = u }))) e

  -- What is written while only a first part of the SYN1 frame is fed, is not more than the SYN2 frame.
  answer_written :
      (c : Context H) (taken rest : List ℕ) (calls : List Effect)
      → Greets c
          (encode_frame (make_header syn 2) [])
          connected
          new
          (deliver_octets (encode_frame (make_header syn 1) []) c)
      → encode_frame (make_header syn 1) [] ≡ taken ++ rest
      → (deliver_octets taken c).trace ≡ c.trace ++ calls
      → length (written calls) ≤ buffer_limit
  unfolding encode_frame stuff make_header crc_over crc_ccitt_update
  answer_written c taken rest calls greets parts makes =
      let more = deliver_octets-grows rest (deliver_octets taken c) in
      let all_calls : (deliver_octets (encode_frame (make_header syn 1) []) c).trace
          ≡ c.trace ++ (calls ++ more.0) =
        ap (λ l. (deliver_octets l c).trace) parts
        ∙ ap (λ d. d.trace) (deliver_octets-append taken rest c)
        ∙ more.1
        ∙ ap (λ t. t ++ more.0) makes
        ∙ append_assoc c.trace calls more.0 in
      let all_written : written (calls ++ more.0) ≡ encode_frame (make_header syn 2) [] =
        same_suffix (written c.trace) (written (calls ++ more.0))
          (encode_frame (make_header syn 2) [])
          (sym (written-append c.trace (calls ++ more.0))
            ∙ ap written (sym all_calls)
            ∙ greets.quiet.writes_octets) in
      let bound : length (encode_frame (make_header syn 2) []) ≤ buffer_limit = omega arith in
      omega (
        arith,
        bound,
        ap length (sym (written-append calls more.0) ∙ all_written),
        length-append (written calls) (written more.0),
      )

  module _ (write this : ℕ) (s : Session H) where
    -- The context before `sfpConnect`, and the session once the frame of that is written.
    abbrev initial : Context H
    initial = Api.set_write_callback (some write) this (Api.init s.stream.sfp_context)

    abbrev answer : Round
    answer = record {
      read_ec = no_error;
      octets = encode_frame (make_header syn 1) [];
      write_ec = no_error;
    }

    abbrev greeting : List ℕ
    greeting = encode_frame (make_header syn 0) []

    abbrev greeted : Stream H
    greeted = record s.stream {
      sfp_context = Api.connect initial;
      write_buffer = s.stream.write_buffer ++ greeting;
    }

    abbrev flushed : Session H
    flushed = record {
      stream = record greeted { write_buffer = [] };
      writes = s.writes ++ greeted.write_buffer ∷ [];
    }

    ready : IsIdle initial
    unfolding Api.init Api.set_write_callback
    ready = record { has_writer = refl; flushed = refl }

    begun : Greets initial greeting sent_syn0 new (Api.connect initial)
    begun = connect-Greets initial ready

    begun_lem :
        length s.stream.write_buffer + length greeting ≤ buffer_limit
        → begin_handshake write this s.stream ≡ some greeted
    unfolding begin_handshake
    begun_lem room =
        keep_writes_lem initial (record s.stream { sfp_context = Api.connect initial })
          (connect-grows initial).0 (connect-grows initial).1 (omega (arith, room))
        ∙ ap
            (λ (l : List ℕ).
              if ltb buffer_limit (length s.stream.write_buffer + length l)
              then none
              else some (record s.stream {
                sfp_context = Api.connect initial;
                write_buffer = s.stream.write_buffer ++ l;
              }))
            (connect-written initial ready)
        ∙ ap (λ b. if b then none else some greeted) fits
      where
        fits : ltb buffer_limit (length s.stream.write_buffer + length greeting) ≡ false
        fits = ground (arith, room)

    -- The stream once the answer is fed.
    answered :
        (t : Stream H) × (feed answer.octets (consume_read flushed)
          ≡ some (record flushed { stream = t }))
        × (Api.is_connected t.sfp_context ≡ true)
    unfolding feed consume_read HasLink connects start_write consume_written Api.is_connected
        Api.state_is_connected
    answered = (t, fed, by_stop d.stops)
      where
        filled : Stream H
        filled = record flushed.stream { read_buffer = [] ++ answer.octets }

        connecting : Reachable s.stream.sfp_context (Api.connect initial)
        connecting = by_connect (by_write_callback (some write) this initialized)

        d : Delivers filled (deliver_input_sequence filled)
        d = deliver_input_sequence_lem filled (Reachable-IsBounded connecting) (omega arith)

        confirmed :
            Greets
              (Api.connect initial)
              (encode_frame (make_header syn 2) [])
              connected
              new
              (deliver_octets answer.octets (Api.connect initial))
        confirmed =
            syn1-Greets (Api.connect initial) begun.idle begun.frame_is begun.state_is begun.tx_seq
              begun.rx_seq

        t : Stream H
        t = record {
          read_buffer = d.rest;
          write_buffer = [] ++ written d.calls;
          sfp_context = deliver_octets d.taken (Api.connect initial);
          sfp_packet = d.packet;
        }

        fits : ltb buffer_limit (0 + length (written d.calls)) ≡ false
        fits = ground (
          arith,
          answer_written (Api.connect initial) d.taken d.rest d.calls confirmed d.parts d.makes,
        )

        fed : feed answer.octets (consume_read flushed) ≡ some (record flushed { stream = t })
        fed =
            on_stream-result deliver_input_sequence (record flushed { stream = filled }) t
              (d.result_is ∙ ap (λ b. if b then none else some t) fits)

        by_stop :
            (d.rest ≡ []) ⊎ (0 < length d.packet)
            → Api.is_connected (deliver_octets d.taken (Api.connect initial)) ≡ true
        by_stop (inl all_fed) =
            let all_taken : d.taken ≡ answer.octets =
              sym (append-nil d.taken) ∙ ap (λ l. d.taken ++ l) (sym all_fed) ∙ sym d.parts in
            ap Api.is_connected (ap (λ l. deliver_octets l (Api.connect initial)) all_taken)
            ∙ ap Api.state_is_connected confirmed.state_is
        by_stop (inr lt) =
            feed-HasLink answer.octets (consume_read flushed) (record flushed { stream = t }) fed
              (ground (arith, lt))

    flushed-waits : connects flushed ≡ false
    unfolding connects Api.is_connected Api.state_is_connected
    flushed-waits = ap Api.state_is_connected begun.state_is

    -- If the write buffer has room for the SYN0 frame, the first read of `handshake_op` is the SYN1 frame
    -- with which the other end answers, its writes have no errors and its time to settle is over with
    -- nothing more read, then it completes without an error and throws nothing, and the context is
    -- connected; from any state of the stream.
    pub handshake-answered :
        length s.stream.write_buffer + length (encode_frame (make_header syn 0) []) ≤ buffer_limit
        → let r = handshake write this no_error (answer ∷ []) [] s in
          (r.1 ≡ completes no_error) × (Api.is_connected r.0.stream.sfp_context ≡ true)
    unfolding handshake read_until_connected read_until connects is_error start_write
        consume_written after_timed reached ends_well
    handshake-answered room = (
      ends,
      unfold connects in handshake-links write this no_error (answer ∷ []) [] s (ap ends_well ends),
    )
      where
        after : Session H
        after = consume_written (start_write (record flushed { stream = answered.0 }))

        next : Session H → Session H × Progress
        next fed = read_until connects [] (consume_written (start_write fed))

        reads : read_until connects (answer ∷ []) flushed ≡ (after, completes no_error)
        reads =
            ap
              (λ b.
                if b
                then (flushed, completes no_error)
                else unless_thrown (consume_read flushed, throws)
                    (feed answer.octets (consume_read flushed)) next)
              flushed-waits
            ∙ ap (λ f. unless_thrown (consume_read flushed, throws) f next) answered.1
            ∙ ap (λ c. (after, if c then completes no_error else waits)) answered.2

        connecting : Session H → Session H × Progress
        connecting t =
            let written_on = consume_written (start_write t) in
            if not (connects written_on)
            then after_timed (read_until connects (answer ∷ []) written_on) (reached [])
            else settle [] written_on

        ends : (handshake write this no_error (answer ∷ []) [] s).1 ≡ completes no_error
        ends =
            ap (λ o. (unless_thrown (s, throws) o connecting).1)
              (on_stream-result (begin_handshake write this) s greeted (begun_lem room))
            ∙ ap
                (λ b.
                  (if not b
                    then after_timed (read_until connects (answer ∷ []) flushed) (reached [])
                    else settle [] flushed).1)
                flushed-waits
            ∙ ap (λ r. (after_timed r (reached [])).1) reads
            ∙ settle-ends after answered.2
