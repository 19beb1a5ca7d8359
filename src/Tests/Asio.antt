-- ===== src/Tests/Asio.antt =====
-- The theorems on the message queue, at concrete inputs.
use libsfp.Base.{
  List, [], ◌∷◌, ◌++◌, ◌≡◌, refl, ap, ◌∙◌, false, Bool, arith, length, flatten, ◌≤◌, ◌+◌, ◌==◌,
}
use libsfp.State.{Packet, usr}
use libsfp.Frame.{make_header, encode_frame}
use libsfp.History.Resend.{frames_from}
use libsfp.Errors.{no_error, network_down, is_error}
use libsfp.Queue.{user_send, sent, received, MessageQueue}
use libsfp.Queue.Pumps.{void_receives, handle_written, handle_read, complete}
use libsfp.Queue.Operations.{async_send, handshake_attempt}
use libsfp.Queue.Silence.{handshakes_done, silent_rounds, verdict, silent_handshake-fails}
use libsfp.Queue.Quiet.{sends_done}
use libsfp.Queue.Accounts.{count, users}
use libsfp.Queue.Outbox.{fronts}
use libsfp.Queue.Steps.{Reach, fresh, step, sends}
use libsfp.Queue.Promises.{one_write_in_flight, sends_accounted, sends_finish, finish_writes}
use libsfp.Queue.Voided.{void_receives-interrupts}
use libsfp.Queue.Receives.{arrives, asks, Traffic, serve, matched, serve-matched}
use libsfp.Queue.Nested.{after_packet, nested_send_writes_twice}
use libsfp.Queue.Sending.{async_send-writes_frame, after_packet-write_buffer, encode_frame-filled}
use libsfp.Queue.Messages.{handle_read-frames, sent_message-received}
use libsfp.Tests.Buffer.{Bounded, list_buffer}
use libsfp.Tests.Contexts.{up_end-IsIdle, up_end-IsListening}
use libsfp.Tests.Queues.{
  Items, stored, waiting, list_queue, gate, idle_queue, asking_queue, written_send, written_queue,
  idle_queue-IsFresh, idle_queue-Rests, idle_queue-IsReady, asking_queue-IsReady,
  written_queue-IsReady,
}

abbrev packet : Packet
packet = 2 ∷ 3 ∷ []

abbrev sent_queue : MessageQueue Bounded Items Bool
sent_queue = async_send packet (user_send 4) idle_queue

sent_queue-Reach : Reach (4 ∷ []) sent_queue
sent_queue-Reach = step (fresh idle_queue idle_queue-IsFresh) (sends packet 4 idle_queue)

sent_queue-outbox : length sent_queue.outbox ≤ 1
sent_queue-outbox =
    let sent_once =
      async_send-writes_frame packet (user_send 4) idle_queue idle_queue-IsReady up_end-IsIdle
        (omega arith) refl refl refl in
    omega (arith, ap length sent_once.1)

one_write_in_flight_example :
    (sent_queue.writing ≡ fronts sent_queue.outbox) × (sent_queue.reading ≤ 1)
one_write_in_flight_example = one_write_in_flight sent_queue-Reach

sends_accounted_example :
    count 4 (sends_done sent_queue.completions) + count 4 (users sent_queue.outbox)
    ≡ count 4 (4 ∷ [])
sends_accounted_example = sends_accounted sent_queue-Reach 4

sends_finish_example :
    let r = finish_writes (network_down ∷ []) sent_queue in
    (r.writing ≡ []) × (r.outbox ≡ []) × (count 4 (sends_done r.completions) ≡ count 4 (4 ∷ []))
sends_finish_example = sends_finish (network_down ∷ []) sent_queue-Reach sent_queue-outbox 4

void_receives-interrupts_example :
    let r = void_receives network_down asking_queue in
    (stored r.receive_queue ≡ [])
    × (waiting r.receive_queue ≡ [])
    × (r.completions ≡ received 5 network_down [] ∷ [])
unfolding list_queue stored waiting is_error
void_receives-interrupts_example = void_receives-interrupts network_down asking_queue refl

abbrev traffic : List Traffic
traffic = arrives packet ∷ asks 8 5 ∷ asks 1 6 ∷ arrives packet ∷ []

serve-matched_example :
    (serve traffic idle_queue).completions
    ≡ [] ++ matched ((8, 5) ∷ (1, 6) ∷ []) (packet ∷ packet ∷ [])
unfolding list_queue stored waiting
serve-matched_example = serve-matched traffic idle_queue idle_queue-IsReady refl refl

nested_octets :
    (length
        (after_packet packet
          (complete (sent 3 no_error) (record written_queue { outbox = [] }))).write_buffer
      == 0)
    ≡ false
unfolding complete
nested_octets =
    ap (λ t. length t == 0)
      (after_packet-write_buffer packet
        (complete (sent 3 no_error) (record written_queue { outbox = [] })) up_end-IsIdle
        (omega arith) refl)
    ∙ encode_frame-filled (make_header usr 0) packet

nested_send_writes_twice_example :
    let octets =
      (after_packet packet
        (complete (sent 3 no_error) (record written_queue { outbox = [] }))).write_buffer in
    (handle_written
      (async_send packet (user_send 4))
      (length written_send.buffer)
      written_queue).writing
    ≡ octets ∷ octets ∷ []
nested_send_writes_twice_example =
    nested_send_writes_twice packet 3 4 written_queue written_send refl refl refl
      written_queue-IsReady nested_octets

async_send-writes_frame_example :
    let frame = encode_frame (make_header usr 0) packet in
    (sent_queue.writing ≡ frame ∷ [])
    × (sent_queue.outbox ≡ record { buffer = frame; handler = user_send 4 } ∷ [])
    × (sent_queue.write_buffer ≡ [])
async_send-writes_frame_example =
    async_send-writes_frame packet (user_send 4) idle_queue idle_queue-IsReady up_end-IsIdle
      (omega arith) refl refl refl

handle_read-frames_example :
    let r = handle_read no_error (frames_from usr 0 (packet ∷ packet ∷ [])) asking_queue in
    (r.completions ≡ [] ++ matched ((8, 5) ∷ []) (packet ∷ packet ∷ [])) × (r.reading ≡ 0 + 1)
unfolding list_queue stored waiting
handle_read-frames_example =
    handle_read-frames (packet ∷ packet ∷ []) ((8, 5) ∷ []) asking_queue asking_queue-IsReady
      up_end-IsListening (omega arith) refl refl refl

sent_message-received_example :
    (handle_read no_error (flatten sent_queue.writing) asking_queue).completions
    ≡ [] ++ matched ((8, 5) ∷ []) (packet ∷ [])
unfolding list_queue stored waiting
sent_message-received_example =
    sent_message-received packet (user_send 4) 8 5 idle_queue asking_queue idle_queue-IsReady
      up_end-IsIdle refl refl refl asking_queue-IsReady up_end-IsListening refl refl refl refl
      (omega arith)

silent_handshake-fails_example :
    handshakes_done (silent_rounds 51 (handshake_attempt 7 0 idle_queue)).completions
    ≡ [] ++ verdict 7 51
silent_handshake-fails_example =
    silent_handshake-fails 51 7 idle_queue idle_queue-Rests (omega arith)
