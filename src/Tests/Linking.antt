-- ===== src/Tests/Linking.antt =====
-- The theorems on the two ends of a link, at concrete inputs.
use libsfp.Base.{ℕ, zero, suc, List, [], ◌∷◌, ◌++◌, ◌≡◌, refl, arith, length, inr}
use libsfp.State.{Packet, usr, rtx, nak, flag, connected}
use libsfp.Crc.{crc_over, crc_trailer}
use libsfp.Frame.{make_header, encode_frame, stuff, same_type}
use libsfp.Transmit.Frames.{IsIdle}
use libsfp.History.Resend.{frames_from, seq_after}
use libsfp.Receive.{deliver_octets}
use libsfp.Api.{connect, write_packet}
use libsfp.Trace.{written, deliveries}
use libsfp.Link.Accept.{IsUser}
use libsfp.Link.Delivery.{IsListening, Receives, deliver_octets-frames}
use libsfp.Link.Sending.{
  Writes, WritesAll, write_packets, write_packet-Writes, write_packets-WritesAll,
}
use libsfp.Link.Kept.{write_packets-history}
use libsfp.Link.Refuse.{Answers, deliver_octets-unexpected}
use libsfp.Link.Damage.{deliver_octets-damaged}
use libsfp.Link.Oversize.{oversize_frame-lost, deliver_octets-255_silent}
use libsfp.Link.Control.{wire}
use libsfp.Link.Resync.{deliver_octets-nak}
use libsfp.Link.Recovery.{write_packets-delivered, lost_frames-recovered}
use libsfp.Link.Handshake.{connect-connects}
use libsfp.Tests.Buffer.{list_buffer}
use libsfp.Tests.Contexts.{
  up_end, down_end, used_end, up_end-IsIdle, down_end-IsIdle, used_end-IsIdle, used_end-history,
  up_end-IsListening,
}

abbrev first : Packet
first = 0x7e ∷ []

abbrev second : Packet
second = 2 ∷ 3 ∷ []

abbrev both : List Packet
both = first ∷ second ∷ []

abbrev filled : ℕ → Packet
filled zero = []
filled (suc n) = 9 ∷ filled n

usr-IsUser : IsUser usr
usr-IsUser = unfold same_type in refl

deliver_octets-frames_example :
    Receives up_end both (deliver_octets (frames_from usr 0 both) up_end)
deliver_octets-frames_example =
    deliver_octets-frames usr both up_end usr-IsUser up_end-IsListening (omega arith)

deliver_octets-unexpected_example :
    Answers up_end
      (encode_frame (make_header nak 0) [])
      (deliver_octets (encode_frame (make_header usr 5) second) up_end)
deliver_octets-unexpected_example =
    deliver_octets-unexpected up_end 5 second up_end-IsListening up_end-IsIdle (omega arith)
      (omega arith) (λ e. omega (arith, e))

deliver_octets-damaged_example : Answers up_end (encode_frame (make_header nak 0) []) (
    deliver_octets
      (flag ∷ stuff (0 ∷ [] ++ 2 ∷ 7 ∷ crc_trailer (crc_over 0xffff (0 ∷ second))) ++ flag ∷ [])
      up_end)
deliver_octets-damaged_example =
    deliver_octets-damaged up_end up_end-IsIdle 0 second (0 ∷ [])
      (crc_trailer (crc_over 0xffff (0 ∷ second))) 2 2 3 7 refl (omega arith) (omega arith)
      (omega arith) (inr (λ e. omega (arith, e))) refl

deliver_octets-nak_example :
    let d = deliver_octets (encode_frame (make_header nak 1) []) used_end in
    Answers used_end (frames_from rtx 1 (second ∷ [])) d
    × (d.tx.seq ≡ 2)
    × (list_buffer.to_list d.tx.history ≡ second ∷ [])
deliver_octets-nak_example =
    deliver_octets-nak used_end 1 (first ∷ []) (second ∷ []) refl refl used_end-IsIdle
      used_end-history (omega arith) (omega arith) (omega arith)

write_packet-Writes_example :
    Writes up_end second (write_packet second up_end).0
    × ((write_packet second up_end).1 ≡ length (encode_frame (make_header usr 0) second))
write_packet-Writes_example = write_packet-Writes up_end second up_end-IsIdle (omega arith)

write_packets-WritesAll_example : WritesAll up_end both (write_packets both up_end)
write_packets-WritesAll_example = write_packets-WritesAll both up_end up_end-IsIdle (omega arith)

write_packets-history_example :
    (before : List Packet) × (list_buffer.to_list (write_packets both used_end).tx.history
      ≡ before ++ (second ∷ [] ++ both))
write_packets-history_example =
    write_packets-history both (first ∷ []) (second ∷ []) used_end used_end-IsIdle (omega arith)
      used_end-history (omega arith)

oversize_frame-lost_example :
    let d = deliver_octets (encode_frame 0 (filled 256)) up_end in
    (deliveries d.trace ≡ deliveries up_end.trace) × (d.rx.seq ≡ 0)
oversize_frame-lost_example =
    oversize_frame-lost up_end refl 0 (filled 256) up_end-IsIdle (omega arith) (omega arith)

deliver_octets-255_silent_example :
    let d = deliver_octets (encode_frame 0 (filled 255)) up_end in
    (d.trace ≡ []) × (d.rx.seq ≡ 0) × (d.connect_state ≡ connected)
deliver_octets-255_silent_example =
    deliver_octets-255_silent up_end refl 0 (filled 255) (omega arith)

write_packets-delivered_example :
    let c = write_packets both up_end in
    let d = deliver_octets (wire up_end c) up_end in
    (deliveries d.trace ≡ deliveries up_end.trace ++ both)
    × (written d.trace ≡ written up_end.trace)
    × (c.tx.seq ≡ d.rx.seq)
    × IsListening d
write_packets-delivered_example =
    write_packets-delivered up_end up_end up_end-IsIdle up_end-IsListening refl both (omega arith)

lost_frames-recovered_example :
    let sender = write_packets both up_end in
    let arrives = encode_frame (make_header usr (seq_after 0 (first ∷ []))) second in
    let asks = deliver_octets arrives up_end in
    let resends = deliver_octets (wire up_end asks) sender in
    let receiver = deliver_octets (wire sender resends) asks in
    (wire up_end sender ≡ frames_from usr 0 (first ∷ []) ++ arrives)
    × (deliveries receiver.trace ≡ deliveries up_end.trace ++ both)
    × (resends.tx.seq ≡ receiver.rx.seq)
    × IsListening receiver
lost_frames-recovered_example =
    lost_frames-recovered up_end up_end up_end-IsIdle up_end-IsListening refl refl refl
      up_end-IsIdle (first ∷ []) second (omega arith) (omega arith) (omega arith)

connect-connects_example :
    let begins = connect down_end in
    let answers = deliver_octets (wire down_end begins) down_end in
    let confirms = deliver_octets (wire down_end answers) begins in
    let finishes = deliver_octets (wire begins confirms) answers in
    IsListening confirms
    × IsListening finishes
    × (confirms.tx.seq ≡ finishes.rx.seq)
    × (finishes.tx.seq ≡ confirms.rx.seq)
    × (deliveries confirms.trace ≡ deliveries down_end.trace)
    × (deliveries finishes.trace ≡ deliveries down_end.trace)
    × (wire answers finishes ≡ [])
    × IsIdle confirms
    × IsIdle finishes
connect-connects_example =
    connect-connects down_end down_end down_end-IsIdle down_end-IsIdle refl refl refl
