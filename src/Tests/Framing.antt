-- ===== src/Tests/Framing.antt =====
-- The theorems on frames, the CRC and the history, at concrete inputs.
use libsfp.Base.{ℕ, ◌++◌, List, [], ◌∷◌, ◌≡◌, ◌≢◌, refl, inl, arith, length}
use libsfp.State.{syn}
use libsfp.Crc.{crc_over, crc_trailer}
use libsfp.Crc.Residue.{crc_over-trailer}
use libsfp.Crc.Burst.{crc_over_burst}
use libsfp.Crc.Bits.{crc_of_bits, crc_over-bits}
use libsfp.Frame.{get_frame_type, get_frame_seq, make_header, stuff, encode_frame}
use libsfp.Frame.Header.{get_frame_type-make_header}
use libsfp.Transmit.{transmit_frame_with_header}
use libsfp.Transmit.Frames.{SendsFrame, transmit_frame-SendsFrame}
use libsfp.History.{clear_history, transmit_history_from_seq}
use libsfp.History.Resend.{clear_history-empty}
use libsfp.History.Window.{Retransmits, transmit_history_from_seq-Retransmits}
use libsfp.Handle.{handle_by_type, reset_receiver}
use libsfp.Receive.{deliver_octets}
use libsfp.Receive.Destuff.{take_octets, deliver_octets-stuff}
use libsfp.Receive.Whole.{with_frame, deliver_octets-encode_frame}
use libsfp.Tests.Buffer.{list_buffer}
use libsfp.Tests.Contexts.{up_end, used_end, up_end-IsIdle, used_end-IsIdle, used_end-history}

abbrev octets : List ℕ
octets = 0x7d ∷ 0x31 ∷ 0x7e ∷ []

crc_over-trailer_example : crc_over 0xffff (octets ++ crc_trailer (crc_over 0xffff octets)) ≡ 0xf0b8
crc_over-trailer_example = crc_over-trailer 0xffff octets (omega arith)

crc_over-bits_example : crc_over 0xffff octets ≡ crc_of_bits 0xffff octets
crc_over-bits_example = crc_over-bits octets 0xffff (omega arith) (omega arith)

crc_over_burst_example :
    crc_over 0xffff (1 ∷ [] ++ 5 ∷ 7 ∷ 9 ∷ []) ≢ crc_over 0xffff (1 ∷ [] ++ 6 ∷ 7 ∷ 9 ∷ [])
crc_over_burst_example =
    crc_over_burst (1 ∷ []) (9 ∷ []) 0xffff 5 6 7 7 (omega arith) (omega arith) (omega arith)
      (omega arith) (omega arith) (omega arith) (inl (λ e. omega (arith, e)))

get_frame_type-make_header_example :
    (get_frame_type (make_header syn 3) ≡ syn) × (get_frame_seq (make_header syn 3) ≡ 3)
get_frame_type-make_header_example = get_frame_type-make_header syn 3 (omega arith)

transmit_frame-SendsFrame_example :
    SendsFrame up_end 5 octets (transmit_frame_with_header 5 octets up_end).0
    × ((transmit_frame_with_header 5 octets up_end).1 ≡ length (encode_frame 5 octets))
transmit_frame-SendsFrame_example = transmit_frame-SendsFrame 5 octets up_end up_end-IsIdle

clear_history-empty_example : list_buffer.to_list (clear_history used_end).tx.history ≡ []
clear_history-empty_example = clear_history-empty used_end

transmit_history_from_seq-Retransmits_example :
    Retransmits used_end 1 ((2 ∷ 3 ∷ []) ∷ []) (transmit_history_from_seq 1 used_end)
transmit_history_from_seq-Retransmits_example =
    transmit_history_from_seq-Retransmits used_end 1 ((0x7e ∷ []) ∷ []) ((2 ∷ 3 ∷ []) ∷ [])
      used_end-IsIdle used_end-history (omega arith) (omega arith) (omega arith)

deliver_octets-stuff_example : deliver_octets (stuff octets) up_end ≡ take_octets octets up_end
deliver_octets-stuff_example = deliver_octets-stuff octets up_end refl

deliver_octets-encode_frame_example :
    deliver_octets (encode_frame 0 octets) up_end
    ≡ reset_receiver (handle_by_type (get_frame_type 0) (with_frame up_end 0 octets)).0
deliver_octets-encode_frame_example = deliver_octets-encode_frame up_end 0 octets refl (omega arith)
