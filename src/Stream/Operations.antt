-- ===== src/Stream/Operations.antt =====
-- The asynchronous operations of `sfp::stream`. Each is run with the results of the reads and the writes
-- that it starts, in order, until it completes or they are used up: it waits then, or its time is over.
-- The write phaser lets no other operation in while one of them feeds octets or sends. An exception of
-- `on_sfp_write` leaves an operation, whose handler is not called then; of the session that stands beside
-- `throws` nothing is said but that it is the one before the call that threw.
use libsfp.Base.{
  ℕ, List, [], ◌∷◌, ◌++◌, Bool, true, false, ◌&&◌, ◌||◌, not, some, none, Option, ◌==◌,
  if◌then◌else◌, length,
}
use libsfp.State.{RingBuffer, Packet, assert}
use libsfp.Api
use libsfp.Errors.{ErrorCode, no_error, timed_out, is_error}
use libsfp.Stream.{Stream, unless_thrown, keep_writes, deliver_input_sequence}

-- `writes` is what `async_write` was called with, in order.
pub record Session (H : Type 0) : Type 0 where
  pub stream : Stream H
  pub writes : List (List ℕ)

-- The results of one round of a loop: of its read, with the octets, and of its write.
pub record Round : Type 0 where
  pub read_ec : ErrorCode
  pub octets : List ℕ
  pub write_ec : ErrorCode

pub data Progress : Type 0 where
  waits : Progress
  completes : ErrorCode → Progress
  throws : Progress

-- Whether an operation has completed without an error.
unfoldable pub ends_well : Progress → Bool
ends_well waits = false
ends_well (completes ec) = not (is_error ec)
ends_well throws = false

unfoldable pub is_timed_out : ErrorCode → Bool
is_timed_out timed_out = true
is_timed_out _ = false

module _ {H : Type 0} where
  abbrev pub has_packet : Session H → Bool
  has_packet s = not (length s.stream.sfp_packet == 0)

  -- What follows an operation under `composed::timed`, which completes, or whose time is over.
  unfoldable pub after_timed :
      Session H × Progress → (Session H → ErrorCode → Session H × Progress) → Session H × Progress
  after_timed (s, waits) next = next s timed_out
  after_timed (s, completes ec) next = next s ec
  after_timed (s, throws) next = (s, throws)

  unfoldable pub on_stream : (Stream H → Option (Stream H)) → Session H → Option (Session H)
  on_stream f s = unless_thrown none (f s.stream) (λ t. some (record s { stream = t }))

  -- `async_write` of the write buffer, and `consume`.
  unfoldable pub start_write : Session H → Session H
  start_write s = record s { writes = s.writes ++ s.stream.write_buffer ∷ [] }

  unfoldable pub consume_written : Session H → Session H
  consume_written s = record s { stream = record s.stream { write_buffer = [] } }

  -- `read_buffer.consume(read_buffer.size())`.
  unfoldable pub consume_read : Session H → Session H
  consume_read s = record s { stream = record s.stream { read_buffer = [] } }

  -- The end of `read_op`: the octets that it copies to its destination, and how it completes.
  unfoldable pub finish_read : ErrorCode → Session H → Session H × Progress × Packet
  finish_read flush_ec s = (
    record s { stream = record s.stream { sfp_packet = [] } },
    completes flush_ec,
    s.stream.sfp_packet,
  )

  -- The assertion of `async_read` and of `async_write`.
  unfoldable pub assert_connected : Session H → Session H
  assert_connected s =
      let c = s.stream.sfp_context in
      record s { stream = record s.stream { sfp_context = assert (Api.is_connected c) c } }

module _ {H : Type 0} ⦃rb : RingBuffer H⦄ where
  -- `sfpInit`, `sfpSetWriteCallback` and `sfpConnect` of `handshake_op`; the numbers stand for the
  -- addresses of the callback and of the stream.
  unfoldable pub begin_handshake : (write this : ℕ) → Stream H → Option (Stream H)
  unfolding keep_writes
  begin_handshake write this t =
      let ready = Api.set_write_callback (some write) this (Api.init t.sfp_context) in
      keep_writes ready (record t { sfp_context = Api.connect ready })

  -- `read_buffer.commit` after the read, and `deliver_input_sequence`.
  unfoldable pub feed : List ℕ → Session H → Option (Session H)
  unfolding on_stream
  feed octets s =
      on_stream deliver_input_sequence
        (record s { stream = record s.stream { read_buffer = s.stream.read_buffer ++ octets } })

  -- The loops of `read_until_connected_op` and of `read_until_delivery_op`, which differ in their tests.
  unfoldable pub read_until : (Session H → Bool) → List Round → Session H → Session H × Progress
  unfolding feed start_write consume_written consume_read
  read_until done [] s = (s, if done s then completes no_error else waits)
  read_until done (r ∷ rs) s =
      let cleared = consume_read s in
      let fed_on =
        unless_thrown (cleared, throws) (feed r.octets cleared)
          (λ fed.
            let written = start_write fed in
            let rest = read_until done rs (consume_written written) in
            if is_error r.write_ec then (written, completes r.write_ec) else rest) in
      if done s
      then (s, completes no_error)
      else (if is_error r.read_ec then (cleared, completes r.read_ec) else fed_on)

  unfoldable pub read_until_connected : List Round → Session H → Session H × Progress
  unfolding read_until
  read_until_connected rs s = read_until (λ t. Api.is_connected t.stream.sfp_context) rs s

  unfoldable pub read_until_delivery : List Round → Session H → Session H × Progress
  unfolding read_until
  read_until_delivery rs s =
      let idle = (length s.stream.sfp_packet == 0) && (length s.stream.read_buffer == 0) in
      let checked = record s {
        stream = record s.stream { sfp_context = assert idle s.stream.sfp_context };
      } in
      read_until has_packet rs checked

  -- The end of `handshake_op`, with `settle_ec`.
  unfoldable pub settled : Session H → ErrorCode → Session H × Progress
  settled s settle_ec =
      let connected = Api.is_connected s.stream.sfp_context in
      let ec = if is_timed_out settle_ec && connected then no_error else settle_ec in
      let checked = record s {
        stream = record s.stream {
          sfp_context = assert (connected || is_error ec) s.stream.sfp_context;
        };
      } in
      (checked, completes ec)

  -- `handshake_op` once it is connected.
  unfoldable pub settle : List Round → Session H → Session H × Progress
  unfolding read_until_delivery after_timed settled
  settle rs s =
      if has_packet s
      then (s, completes no_error)
      else after_timed (read_until_delivery rs s) settled

  -- `handshake_op` with the result of its first loop.
  unfoldable pub reached : List Round → Session H → ErrorCode → Session H × Progress
  unfolding settle
  reached settle_rs s ec = if is_error ec then (s, completes ec) else settle settle_rs s

  -- `handshake_op`, with the result of its write, and the rounds of its two loops.
  unfoldable pub handshake :
      (write this : ℕ) → ErrorCode → List Round → List Round → Session H → Session H × Progress
  unfolding on_stream start_write consume_written read_until_connected reached
  handshake write this write_ec rs settle_rs s =
      unless_thrown (s, throws) (on_stream (begin_handshake write this) s)
        (λ greeted.
          let begun = start_write greeted in
          let flushed = consume_written begun in
          if is_error write_ec
          then (begun, completes write_ec)
          else (if not (Api.is_connected flushed.stream.sfp_context)
              then after_timed (read_until_connected rs flushed) (reached settle_rs)
              else settle settle_rs flushed))

  -- `deliver_input_sequence` and the write of what it wrote, if it wrote anything; the error code is
  -- `flush_ec`.
  unfoldable pub feed_and_flush : List ℕ → ErrorCode → Session H → Option (Session H × ErrorCode)
  unfolding feed start_write consume_written
  feed_and_flush octets write_ec s = unless_thrown none (feed octets s) (λ fed.
      if not (length fed.stream.write_buffer == 0)
      then some (consume_written (start_write fed), write_ec)
      else some (fed, no_error))

  -- The loop of `read_op`.
  unfoldable pub read_loop : ErrorCode → List Round → Session H → Session H × Progress × Packet
  unfolding feed_and_flush consume_read finish_read
  read_loop flush_ec [] s =
      if not (is_error flush_ec) && not (has_packet s)
      then (s, waits, [])
      else finish_read flush_ec s
  read_loop flush_ec (r ∷ rs) s =
      let cleared = consume_read s in
      let fed_on =
        unless_thrown (cleared, throws, []) (feed_and_flush r.octets r.write_ec cleared)
          (λ flushed. read_loop flushed.1 rs flushed.0) in
      if not (is_error flush_ec) && not (has_packet s)
      then (if is_error r.read_ec then (cleared, completes r.read_ec, []) else fed_on)
      else finish_read flush_ec s

  -- `read_op`, with the result of the write that drains the read buffer, if there is one, and the rounds
  -- of the loop.
  unfoldable pub read_message : ErrorCode → List Round → Session H → Session H × Progress × Packet
  unfolding read_loop
  read_message drain_ec rs s =
      if not (has_packet s) && not (length s.stream.read_buffer == 0)
      then unless_thrown (s, throws, []) (feed_and_flush [] drain_ec s)
          (λ drained. read_loop drained.1 rs drained.0)
      else read_loop no_error rs s

  -- `write_op`, with the result of its write.
  unfoldable pub write_message : Packet → ErrorCode → Session H → Session H × Progress
  unfolding on_stream start_write consume_written
  write_message p write_ec s =
      let sent = λ (t : Stream H).
        keep_writes t.sfp_context
          (record t { sfp_context = (Api.write_packet p t.sfp_context).0 }) in
      unless_thrown (s, throws) (on_stream sent s)
        (λ filled.
          let written = start_write filled in
          if is_error write_ec
          then (written, completes write_ec)
          else (consume_written written, completes no_error))

  unfoldable pub async_read : ErrorCode → List Round → Session H → Session H × Progress × Packet
  async_read drain_ec rs s = read_message drain_ec rs (assert_connected s)

  unfoldable pub async_write : Packet → ErrorCode → Session H → Session H × Progress
  async_write p write_ec s = write_message p write_ec (assert_connected s)
