-- ===== src/Tests/Running.antt =====
-- The theorems on single octets, on handlers and on the C++ class, at concrete inputs.
use libsfp.Base.{arith, ◌++◌, [], ◌∷◌, ◌≡◌, some, true}
use libsfp.State.{Context, syn, flag}
use libsfp.Frame.{get_frame_seq, stuff, frame_body}
use libsfp.Handle.{handle_by_type}
use libsfp.Receive.{deliver_octet, deliver_octets}
use libsfp.Receive.Destuff.{take_octets}
use libsfp.Api.{connect, init, write_packet}
use libsfp.Safety.Reach.{IsBounded}
use libsfp.Safety.Reachable.{Reachable, initialized, by_connect, by_write, Reachable-IsBounded}
use libsfp.Node
use libsfp.Node.{is_connected, initialize}
use libsfp.Node.Slots.{inputs, inputs_lem, initialize-connects}
use libsfp.Link.Control.{wire}
use libsfp.Link.Delivery.{IsListening}
use libsfp.Safety.Outcome.{Outcome, next_state, is_taken, next_expected}
use libsfp.Safety.Machine.{handle_by_type-Outcome}
use libsfp.Safety.Octet.{Result, ends_frame, deliver_octet-Result}
use libsfp.Stream.{Stream, deliver_input_sequence}
use libsfp.Stream.Feed.{deliver_input_sequence_lem, Delivers}
use libsfp.Tests.Buffer.{Bounded, list_buffer}
use libsfp.Tests.Contexts.{up_end, down_end, used_end}

-- A connected end that has all of a user frame but the last FLAG.
abbrev almost : Context Bounded
almost = take_octets (frame_body 0 (2 ∷ 3 ∷ [])) up_end

deliver_octet-Result_example :
    Result almost (some 1) (ends_frame flag almost) (deliver_octet (some 1) flag almost)
deliver_octet-Result_example = deliver_octet-Result (some 1) flag almost

handle_by_type-Outcome_example :
    let n = get_frame_seq down_end.rx.header in
    let s = down_end.connect_state in
    Outcome down_end
      (next_state syn n s)
      (is_taken syn n s 0)
      (next_expected syn n s 0)
      (handle_by_type syn down_end)
handle_by_type-Outcome_example = handle_by_type-Outcome syn down_end

inputs_lem_example :
    inputs (flag ∷ stuff (frame_body 0 (2 ∷ []))) up_end
    ≡ deliver_octets (flag ∷ stuff (frame_body 0 (2 ∷ []))) up_end
inputs_lem_example = inputs_lem (flag ∷ stuff (frame_body 0 (2 ∷ []))) up_end

initialize-connects_example :
    let one = initialize 11 12 13 14 1 true used_end in
    let two = initialize 11 12 13 14 2 true up_end in
    let begins = Node.connect one in
    let answers = inputs (wire one begins) two in
    let confirms = inputs (wire two answers) begins in
    let finishes = inputs (wire begins confirms) answers in
    IsListening confirms
    × IsListening finishes
    × (confirms.tx.seq ≡ finishes.rx.seq)
    × (finishes.tx.seq ≡ confirms.rx.seq)
    × (is_connected confirms ≡ true)
    × (is_connected finishes ≡ true)
initialize-connects_example = initialize-connects 11 12 13 14 1 2 true used_end up_end

Reachable-IsBounded_example :
    IsBounded used_end.trace (write_packet (2 ∷ []) (connect (init used_end))).0
Reachable-IsBounded_example = Reachable-IsBounded (by_write (2 ∷ []) (by_connect initialized))

-- A frame, and the first octet of another, have been read.
abbrev has_read : Stream Bounded
has_read = record {
  read_buffer = flag ∷ stuff (frame_body 0 (2 ∷ [])) ++ flag ∷ 5 ∷ [];
  write_buffer = [];
  sfp_context = connect (init up_end);
  sfp_packet = [];
}

has_read-Reachable : Reachable up_end has_read.sfp_context
has_read-Reachable = by_connect initialized

deliver_input_sequence_lem_example : Delivers has_read (deliver_input_sequence has_read)
deliver_input_sequence_lem_example =
    deliver_input_sequence_lem has_read (Reachable-IsBounded has_read-Reachable) (omega arith)
