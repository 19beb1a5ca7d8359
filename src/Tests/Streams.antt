-- ===== src/Tests/Streams.antt =====
-- The theorems on the operations of `sfp::stream`, at concrete inputs.
use libsfp.Base.{List, [], ◌∷◌, ◌≡◌, true, false, ◌⊎◌, ◌+◌, ◌≤◌, length, arith}
use libsfp.State.{syn}
use libsfp.Frame.{make_header, encode_frame, stuff}
use libsfp.Crc.{crc_over, crc_ccitt_update}
use libsfp.Stream.{buffer_limit}
use libsfp.Api
use libsfp.Safety.Reachable.{Reachable}
use libsfp.Errors.{no_error}
use libsfp.Stream.Operations.{Session, Round, ends_well, completes, handshake}
use libsfp.Stream.Reads.{Reads}
use libsfp.Stream.Handshake.{handshake-connects}
use libsfp.Stream.Answer.{handshake-answered}
use libsfp.Tests.Buffer.{Bounded, list_buffer}
use libsfp.Tests.Contexts.{up_end, down_end}

-- A session that has read two octets; and the reads of an octet and of a frame.
abbrev session : Session Bounded
session = record {
  stream = record {
    read_buffer = 1 ∷ 2 ∷ [];
    sfp_context = Api.connect (Api.init up_end);
    sfp_packet = [];
    write_buffer = [];
  };
  writes = [];
}

abbrev reads : List Round
reads = record { read_ec = no_error; octets = 0x7e ∷ []; write_ec = no_error } ∷ []

-- A session before the handshake, and the answer of the other end.
abbrev fresh_session : Session Bounded
fresh_session = record {
  stream = record { read_buffer = []; sfp_context = down_end; sfp_packet = []; write_buffer = [] };
  writes = [];
}

abbrev answer : List Round
answer =
    record { read_ec = no_error; octets = encode_frame (make_header syn 1) []; write_ec = no_error }
    ∷ []

handshake-connects_example :
    let r = handshake 1 2 no_error answer [] fresh_session in
    (ends_well r.1 ≡ false) ⊎ (Api.is_connected r.0.stream.sfp_context ≡ true)
handshake-connects_example = handshake-connects 1 2 no_error answer [] fresh_session

has_room :
    length fresh_session.stream.write_buffer + length (encode_frame (make_header syn 0) [])
    ≤ buffer_limit
unfolding encode_frame stuff make_header crc_over crc_ccitt_update
has_room = omega arith

handshake-answered_example :
    let r = handshake 1 2 no_error answer [] fresh_session in
    (r.1 ≡ completes no_error) × (Api.is_connected r.0.stream.sfp_context ≡ true)
handshake-answered_example = handshake-answered 1 2 fresh_session has_room
