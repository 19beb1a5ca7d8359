-- ===== src/Stream.antt =====
-- `sfp::stream` of include/sfp/stream.hpp: how it feeds the octets it has read to the context, and
-- keeps the octets that the context writes. Its asynchronous operations stand in Stream/Operations.
pub mod Commits
pub mod Messages
pub mod Room
pub mod Feed
pub mod Operations
pub mod Links
pub mod Loops
pub mod Flush
pub mod Reads
pub mod Reading
pub mod Handshake
pub mod Answer
use libsfp.Base.{
  ℕ, ◌+◌, List, [], ◌∷◌, ◌++◌, Bool, true, false, ◌&&◌, not, Option, some, none, ◌==◌,
  if◌then◌else◌, length, drop, ltb,
}
use libsfp.State.{
  Context, RingBuffer, Packet, Effect, wrote, delivered, locked, unlocked, assert_failed, assert,
  max_packet_size,
}
use libsfp.Receive.{Returned, failed, unavailable, available, deliver_octet}
use libsfp.Node.{has_succeeded}

-- The limit that the two buffers are constructed with.
abbrev pub buffer_limit : ℕ
buffer_limit = 1024

pub record Stream (H : Type 0) : Type 0 where
  pub read_buffer : List ℕ
  pub write_buffer : List ℕ
  pub sfp_context : Context H
  pub sfp_packet : Packet

-- What follows a call that may throw: `a` if it has thrown.
abbrev pub unless_thrown : {A B : Type 0} → A → Option B → (B → A) → A
unless_thrown a none next = a
unless_thrown a (some b) next = next b

-- The result is the write buffer and `*outlen`. `prepare` makes room for all the octets, or throws
-- `std::length_error`, which is `none`.
unfoldable pub on_sfp_write : List ℕ → List ℕ → Option (List ℕ × ℕ)
on_sfp_write octets write_buffer =
    if ltb buffer_limit (length write_buffer + length octets)
    then none
    else some (write_buffer ++ octets, length octets)

-- The calls of `on_sfp_write` that the context made.
unfoldable pub commit_writes : List Effect → List ℕ → Option (List ℕ)
unfolding on_sfp_write
commit_writes [] buffer = some buffer
commit_writes (wrote f d octets ∷ es) buffer =
    unless_thrown none (on_sfp_write octets buffer) (λ r. commit_writes es r.0)
commit_writes (delivered f d p ∷ es) buffer = commit_writes es buffer
commit_writes (locked f d ∷ es) buffer = commit_writes es buffer
commit_writes (unlocked f d ∷ es) buffer = commit_writes es buffer
commit_writes (assert_failed ∷ es) buffer = commit_writes es buffer

module _ {H : Type 0} where
  -- The stream after calls into its context, which was `before`, with what they have written, call by
  -- call. If one of these throws, the exception leaves there, and the stream is lost: `none`, whatever
  -- the context would have done after it.
  unfoldable pub keep_writes : Context H → Stream H → Option (Stream H)
  unfolding commit_writes
  keep_writes before t =
      unless_thrown none
        (commit_writes (drop (length before.trace) t.sfp_context.trace) t.write_buffer)
        (λ buffer. some (record t { write_buffer = buffer }))

-- `rc == 1`.
unfoldable pub is_available : Returned → Bool
is_available failed = false
is_available unavailable = false
is_available (available p) = true

-- What `pkt` holds after the call that returned this.
unfoldable pub packet_after : Returned → Packet → Packet
packet_after (available (some p)) pkt = p
packet_after (available none) pkt = pkt
packet_after unavailable pkt = pkt
packet_after failed pkt = pkt

module _ {H : Type 0} ⦃rb : RingBuffer H⦄ where
  -- The loop of `deliver_input_sequence`, with `pkt`; the number is how many rounds it makes.
  unfoldable pub input_loop : List ℕ → Context H → Packet → Context H × Packet × ℕ
  unfolding is_available packet_after
  input_loop [] c pkt = (c, pkt, 0)
  input_loop (octet ∷ octets) c pkt =
      let (handled, rc) = deliver_octet (some max_packet_size) octet c in
      let d = assert (has_succeeded rc) handled in
      let p = packet_after rc pkt in
      let (last, message, more) = input_loop octets d p in
      if is_available rc && not (length p == 0) then (d, p, 1) else (last, message, 1 + more)

  unfoldable pub deliver_input_sequence : Stream H → Option (Stream H)
  unfolding input_loop keep_writes
  deliver_input_sequence s =
      let (c, pkt, fed) = input_loop s.read_buffer s.sfp_context [] in
      keep_writes s.sfp_context
        (record s { sfp_context = c; sfp_packet = pkt; read_buffer = drop fed s.read_buffer })
