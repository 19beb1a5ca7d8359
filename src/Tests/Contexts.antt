-- ===== src/Tests/Contexts.antt =====
-- A connected context with every callback, and what it takes to be one end of a link.
use libsfp.Base.{[], ◌∷◌, ◌≡◌, refl, some, arith}
use libsfp.State.{Context, disconnected, connected, normal, new}
use libsfp.Transmit.Frames.{IsIdle}
use libsfp.Link.Delivery.{IsListening}
use libsfp.Tests.Buffer.{Bounded, list_buffer, pushed}

abbrev pub up_end : Context Bounded
up_end = record {
  tx = record {
    seq = 0;
    crc = 0xffff;
    history = list_buffer.fresh;
    writebuf = [];
    write = some 1;
    write_data = 10;
    lock = some 2;
    lock_data = 20;
    unlock = some 3;
    unlock_data = 30;
  };
  rx = record {
    seq = 0;
    crc = 0xffff;
    escape_state = normal;
    frame_state = new;
    header = 0;
    packet = [];
    deliver = some 4;
    deliver_data = 40;
  };
  connect_state = connected;
  trace = [];
}

-- The same before the handshake, and one whose history holds two packets.
abbrev pub down_end : Context Bounded
down_end = record up_end { connect_state = disconnected }

abbrev pub used_end : Context Bounded
used_end = record up_end {
  tx = record up_end.tx {
    seq = 2;
    history =
        list_buffer.push_back (list_buffer.push_back list_buffer.fresh (0x7e ∷ [])) (2 ∷ 3 ∷ []);
  };
}

pub up_end-IsIdle : IsIdle up_end
up_end-IsIdle = record { has_writer = refl; flushed = refl }

pub down_end-IsIdle : IsIdle down_end
down_end-IsIdle = record { has_writer = refl; flushed = refl }

pub used_end-IsIdle : IsIdle used_end
used_end-IsIdle = record { has_writer = refl; flushed = refl }

pub up_end-IsListening : IsListening up_end
up_end-IsListening = record { up = refl; waits = refl; has_deliver = refl; seq_lt = omega arith }

pub used_end-history : list_buffer.to_list used_end.tx.history ≡ (0x7e ∷ []) ∷ (2 ∷ 3 ∷ []) ∷ []
unfolding list_buffer pushed
used_end-history = refl
