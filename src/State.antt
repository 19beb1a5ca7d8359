-- ===== src/State.antt =====
-- The types of include/sfp/serial_framing_protocol.h: packets, enumerations, the transmitter, the
-- receiver and the context; and the trace of the calls that the library makes of its callbacks.
-- The ring buffer of the history is not the repository's code: it is an interface here.
use libsfp.Base.{
  ℕ, ◌≤◌, List, [], ◌∷◌, ◌++◌, ◌≡◌, Bool, Option, some, ltb, if◌then◌else◌, length, tail, get_elem?,
  ◌==◌,
}

-- SFP_CONFIG_HISTORY_CAPACITY, SFP_CONFIG_MAX_PACKET_SIZE, SFP_CONFIG_WRITEBUF_SIZE.
abbrev pub history_capacity : ℕ
history_capacity = 8

abbrev pub max_packet_size : ℕ
max_packet_size = 256

abbrev pub writebuf_size : ℕ
writebuf_size = 512

abbrev pub esc : ℕ
esc = 0x7d

abbrev pub flag : ℕ
flag = 0x7e

abbrev pub esc_flip_bit : ℕ
esc_flip_bit = 32

-- sizeof(SFPcrc).
abbrev pub crc_size : ℕ
crc_size = 2

abbrev pub crc_preset : ℕ
crc_preset = 0xffff

abbrev pub crc_good : ℕ
crc_good = 0xf0b8

abbrev pub seq_range : ℕ
seq_range = 64

abbrev pub initial_seq : ℕ
initial_seq = 0

abbrev pub seq_syn0 : ℕ
seq_syn0 = 0

abbrev pub seq_syn1 : ℕ
seq_syn1 = 1

abbrev pub seq_syn2 : ℕ
seq_syn2 = 2

abbrev pub seq_syn_dis : ℕ
seq_syn_dis = 3

-- The first `len` octets of `buf`; no code reads beyond them.
abbrev pub Packet : Type 0
Packet = List ℕ

pub data FrameType : Type 0 where
  usr rtx nak syn : FrameType

pub data EscapeState : Type 0 where
  normal escaping : EscapeState

pub data FrameState : Type 0 where
  new receiving : FrameState

pub data ConnectState : Type 0 where
  disconnected sent_syn0 sent_syn1 connected : ConnectState

-- A pointer to a function of the user's; `none` is NULL.
abbrev pub Pointer : Type 0
Pointer = Option ℕ

-- What the world outside sees, in order: each call of a callback with its arguments (the last
-- `ℕ` or the one before the octets is the user's data), and each assertion that failed.
pub data Effect : Type 0 where
  wrote : Pointer → ℕ → List ℕ → Effect
  delivered : Pointer → ℕ → Packet → Effect
  locked : Pointer → ℕ → Effect
  unlocked : Pointer → ℕ → Effect
  assert_failed : Effect

-- `util::PotRingbuffer<SFPpacket, SFP_CONFIG_HISTORY_CAPACITY>`, by what it holds, oldest first.
pub record RingBuffer (H : Type 0) : Type 0 where
  pub fresh : H
  pub size : H → ℕ
  pub is_empty : H → Bool
  pub push_back : H → Packet → H
  pub pop_front : H → H
  pub at : H → ℕ → Packet
  pub to_list : H → List Packet
  pub to_list-fresh : to_list fresh ≡ []
  pub size_lem : (h : H) → size h ≡ length (to_list h)
  pub size-le : (h : H) → size h ≤ history_capacity
  pub is_empty_lem : (h : H) → is_empty h ≡ (length (to_list h) == 0)
  pub to_list-pop_front : (h : H) → to_list (pop_front h) ≡ tail (to_list h)
  pub at_lem : (h : H) (i : ℕ) (p : Packet) → get_elem? (to_list h) i ≡ some p → at h i ≡ p
  -- A push into a full buffer displaces the oldest packet.
  pub to_list-push_back :
      (h : H) (p : Packet)
      → to_list (push_back h p)
        ≡ (if ltb (length (to_list h)) history_capacity then to_list h else tail (to_list h))
          ++ p ∷ []

pub record Transmitter (H : Type 0) : Type 0 where
  pub seq : ℕ
  pub crc : ℕ
  pub history : H
  -- The first `writebufn` octets of `writebuf`; no code reads beyond them.
  pub writebuf : List ℕ
  pub write : Pointer
  pub write_data : ℕ
  pub lock : Pointer
  pub lock_data : ℕ
  pub unlock : Pointer
  pub unlock_data : ℕ

pub record Receiver : Type 0 where
  pub seq : ℕ
  pub crc : ℕ
  pub escape_state : EscapeState
  pub frame_state : FrameState
  pub header : ℕ
  pub packet : Packet
  pub deliver : Pointer
  pub deliver_data : ℕ

pub record Context (H : Type 0) : Type 0 where
  pub tx : Transmitter H
  pub rx : Receiver
  pub connect_state : ConnectState
  -- Not a field of the source's: what its callbacks have been called with so far.
  pub trace : List Effect

module _ {H : Type 0} where
  abbrev pub emit : Effect → Context H → Context H
  emit e c = record c { trace = c.trace ++ e ∷ [] }

  -- `assert`: a failure is recorded in the trace.
  abbrev pub assert : Bool → Context H → Context H
  assert b c = if b then c else emit assert_failed c
