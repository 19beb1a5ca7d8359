-- ===== src/Stream/Feed.antt =====
-- What `deliver_input_sequence` comes to.
use libsfp.Base.{
  ℕ, ◌+◌, ◌<◌, ◌≤◌, List, [], ◌∷◌, ◌++◌, ◌≡◌, refl, sym, ap, ◌∙◌, subst, ◌⊎◌, inl, inr, Bool, true,
  false, ◌&&◌, not, Option, some, none, ◌==◌, if◌then◌else◌, length, drop, drop-append, ltb, arith,
  append-nil, length_zero,
}
use libsfp.State.{Context, RingBuffer, Effect, Packet, assert, max_packet_size}
use libsfp.Receive.{Returned, deliver_octet, deliver_octets}
use libsfp.Node.{has_succeeded}
use libsfp.Stream.{
  Stream, buffer_limit, input_loop, deliver_input_sequence, is_available, packet_after,
}
use libsfp.Trace.{written, Grows, Grows-refl, Grows-trans}
use libsfp.Safety.Octet.{deliver_octet-Result}
use libsfp.Stream.Messages.{messages, message_of, no_message, packet_after-empty}
use libsfp.Stream.Commits.{keep_writes_lem}
use libsfp.Safety.Reach.{IsBounded, deliver_octet-Bounded}
use libsfp.Stream.Room.{deliver_octet-buffer, succeeds}

module _ {H : Type 0} ⦃rb : RingBuffer H⦄ where
  pub deliver_octets-grows :
      (os : List ℕ) (c : Context H) → Grows c.trace (deliver_octets os c).trace
  unfolding deliver_octets
  deliver_octets-grows [] c = Grows-refl c.trace
  deliver_octets-grows (o ∷ os) c =
      Grows-trans c.trace (deliver_octet-Result none o c).grows (deliver_octets-grows os _)

  -- What the loop comes to, from `octets` and `c`.
  pub record Feeds (octets : List ℕ) (c : Context H) (r : Context H × Packet × ℕ) : Type 0 where
    pub taken : List ℕ
    pub rest : List ℕ
    pub parts : octets ≡ taken ++ rest
    pub counts : r.2 ≡ length taken
    pub feeds : r.0 ≡ deliver_octets taken c
    pub stops : (rest ≡ []) ⊎ (0 < length r.1)
    pub hands : messages taken c ≡ message_of r.1

  input_loop-Feeds :
      {start : List Effect} (octets : List ℕ) (c : Context H) (pkt : Packet)
      → pkt ≡ []
      → IsBounded start c
      → Feeds octets c (input_loop octets c pkt)
  unfolding input_loop deliver_octets messages
  input_loop-Feeds [] c pkt none_left k = record {
    taken = [];
    rest = [];
    parts = refl;
    counts = refl;
    feeds = refl;
    stops = inl refl;
    hands = ap message_of (sym none_left);
  }
  input_loop-Feeds {start} (o ∷ os) c pkt none_left k =
      split_at (is_available rc) (length p == 0) refl refl (λ e. input_loop-Feeds os d p e bounded)
    where
      rc : Returned
      rc = (deliver_octet (some max_packet_size) o c).1

      d : Context H
      d = assert (has_succeeded rc) (deliver_octet (some max_packet_size) o c).0

      p : Packet
      p = packet_after rc pkt

      same : d ≡ (deliver_octet none o c).0
      same =
          ap (λ b. assert b (deliver_octet (some max_packet_size) o c).0) (succeeds o c k)
          ∙ deliver_octet-buffer (some max_packet_size) o c

      bounded : IsBounded start d
      bounded = subst (IsBounded start) (sym same) (deliver_octet-Bounded none o c k)

      only : packet_after rc [] ≡ p
      only = sym (packet_after-empty rc pkt none_left)

      go_on :
          p ≡ []
          → Feeds os d (input_loop os d p)
          → Feeds
              (o ∷ os)
              c
              ((input_loop os d p).0, (input_loop os d p).1, 1 + (input_loop os d p).2)
      go_on e f = record {
        taken = o ∷ f.taken;
        rest = f.rest;
        parts = ap (◌∷◌ o) f.parts;
        counts = omega (arith, f.counts);
        feeds = f.feeds ∙ ap (deliver_octets f.taken) same;
        stops = f.stops;
        hands =
            ap (λ q. message_of q ++ messages f.taken (deliver_octet none o c).0) (only ∙ e)
            ∙ ap (messages f.taken) (sym same)
            ∙ f.hands;
      }

      split_at :
          (one empty : Bool)
          → is_available rc ≡ one
          → (length p == 0) ≡ empty
          → (p ≡ [] → Feeds os d (input_loop os d p))
          → let r : Context H × Packet × ℕ =
              if one && not empty
              then (d, p, 1)
              else ((input_loop os d p).0, (input_loop os d p).1, 1 + (input_loop os d p).2) in
            Feeds (o ∷ os) c r
      split_at true false a e f = record {
        taken = o ∷ [];
        rest = os;
        parts = refl;
        counts = refl;
        feeds = same;
        stops = inr (ground (arith, e));
        hands = append-nil (message_of (packet_after rc [])) ∙ ap message_of only;
      }
      split_at true true a e f =
          let nothing : p ≡ [] = length_zero p (ground (arith, e)) in go_on nothing (f nothing)
      split_at false empty a e f =
          let nothing : p ≡ [] = no_message rc pkt none_left a in go_on nothing (f nothing)

  -- What `deliver_input_sequence` comes to: it feeds `taken`, and stops with `packet`; `calls` are those
  -- that the context makes of its callbacks.
  pub record Delivers (s : Stream H) (result : Option (Stream H)) : Type 0 where
    pub taken : List ℕ
    pub rest : List ℕ
    pub packet : Packet
    pub calls : List Effect
    pub parts : s.read_buffer ≡ taken ++ rest
    pub stops : (rest ≡ []) ⊎ (0 < length packet)
    pub hands : messages taken s.sfp_context ≡ message_of packet
    pub makes : (deliver_octets taken s.sfp_context).trace ≡ s.sfp_context.trace ++ calls
    pub result_is : result ≡ (
        if ltb buffer_limit (length s.write_buffer + length (written calls))
        then none
        else some (record {
          read_buffer = rest;
          write_buffer = s.write_buffer ++ written calls;
          sfp_context = deliver_octets taken s.sfp_context;
          sfp_packet = packet;
        }))

  -- `deliver_input_sequence`, with a context within its bounds and a write buffer within its limit. A
  -- first part of what was read is handled by the context, the assertion in the loop does not fail, and
  -- the rest stays in the read buffer. The packets that are not empty and that the context hands out for
  -- the first part are the one in `sfp_packet`, or none if that is empty, so that no packet takes another
  -- one's place; it is empty only if nothing is left to read. What the context writes is put behind what
  -- the write buffer holds; an exception is thrown if that would be more than 1024 octets, and only then.
  pub deliver_input_sequence_lem :
      {start : List Effect} (s : Stream H)
      → IsBounded start s.sfp_context
      → length s.write_buffer ≤ buffer_limit
      → Delivers s (deliver_input_sequence s)
  unfolding deliver_input_sequence
  deliver_input_sequence_lem s k le = record {
    taken = f.taken;
    rest = f.rest;
    packet = looped.1;
    calls = grows.0;
    parts = f.parts;
    stops = f.stops;
    hands = f.hands;
    makes = grows.1;
    result_is =
        keep_writes_lem s.sfp_context ended grows.0 (ap (λ c. c.trace) f.feeds ∙ grows.1) le
        ∙ ap
            (λ t.
              if ltb buffer_limit (length s.write_buffer + length (written grows.0))
              then none
              else some t)
            same;
  }
    where
      looped : Context H × Packet × ℕ
      looped = input_loop s.read_buffer s.sfp_context []

      f : Feeds s.read_buffer s.sfp_context looped
      f = input_loop-Feeds s.read_buffer s.sfp_context [] refl k

      ended : Stream H
      ended = record s {
        sfp_context = looped.0;
        sfp_packet = looped.1;
        read_buffer = drop looped.2 s.read_buffer;
      }

      grows : Grows s.sfp_context.trace (deliver_octets f.taken s.sfp_context).trace
      grows = deliver_octets-grows f.taken s.sfp_context

      same : record ended { write_buffer = s.write_buffer ++ written grows.0 } ≡ record {
        read_buffer = f.rest;
        write_buffer = s.write_buffer ++ written grows.0;
        sfp_context = deliver_octets f.taken s.sfp_context;
        sfp_packet = looped.1;
      }
      same = λ i. record {
        read_buffer = (ap (drop looped.2) f.parts ∙ drop-append f.taken f.rest looped.2 f.counts) i;
        write_buffer = s.write_buffer ++ written grows.0;
        sfp_context = f.feeds i;
        sfp_packet = looped.1;
      }
