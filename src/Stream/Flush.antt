-- ===== src/Stream/Flush.antt =====
-- What `read_op` does with the octets of one read: it feeds them, and writes what that wrote.
use libsfp.Base.{
  ℕ, ◌<◌, ◌≤◌, List, [], ◌∷◌, ◌++◌, ◌≡◌, refl, sym, ap, ◌∙◌, subst, none, ◌⊎◌, Bool, true, false,
  not, ◌==◌, if◌then◌else◌, length, arith, length-append, ltb, Option, some, ◌+◌,
}
use libsfp.State.{Context, RingBuffer, Effect}
use libsfp.Receive.{deliver_octets}
use libsfp.Safety.Reach.{IsBounded, deliver_octet-Bounded}
use libsfp.Errors.{ErrorCode, no_error}
use libsfp.Trace.{written}
use libsfp.Stream.{Stream, buffer_limit, unless_thrown, deliver_input_sequence}
use libsfp.Stream.Links.{on_stream-stream}
use libsfp.Stream.Feed.{deliver_input_sequence_lem, Delivers}
use libsfp.Stream.Messages.{messages, message_of}
use libsfp.Stream.Operations.{Session, start_write, consume_written, feed, feed_and_flush}

module _ {H : Type 0} ⦃rb : RingBuffer H⦄ where
  pub deliver_octets-Bounded :
      {start : List Effect} (os : List ℕ) (c : Context H)
      → IsBounded start c
      → IsBounded start (deliver_octets os c)
  unfolding deliver_octets
  deliver_octets-Bounded [] c k = k
  deliver_octets-Bounded (o ∷ os) c k =
      deliver_octets-Bounded os _ (deliver_octet-Bounded none o c k)

  -- Either every octet that was read was fed, or a packet is there.
  abbrev pub Drained : Session H → Type 0
  Drained s = (s.stream.read_buffer ≡ []) ⊎ (0 < length s.stream.sfp_packet)

  -- What was fed of the read buffer of `s` and of some octets, and what is there then.
  pub record Fed (octets : List ℕ) (s t : Session H) : Type 0 where
    pub taken : List ℕ
    pub parts : s.stream.read_buffer ++ octets ≡ taken ++ t.stream.read_buffer
    pub context_is : t.stream.sfp_context ≡ deliver_octets taken s.stream.sfp_context
    pub hands : messages taken s.stream.sfp_context ≡ message_of t.stream.sfp_packet
    pub drained : Drained t
    pub within : length t.stream.write_buffer ≤ buffer_limit

  feed-Fed :
      {start : List Effect} (octets : List ℕ) (s t : Session H)
      → IsBounded start s.stream.sfp_context
      → length s.stream.write_buffer ≤ buffer_limit
      → feed octets s ≡ some t
      → Fed octets s t
  unfolding feed
  feed-Fed octets s t k le e =
      by_room (ltb buffer_limit (length s.stream.write_buffer + length (written d.calls))) refl (
        sym d.result_is
        ∙ on_stream-stream deliver_input_sequence (record s { stream = filled }) t e)
    where
      filled : Stream H
      filled = record s.stream { read_buffer = s.stream.read_buffer ++ octets }

      d : Delivers filled (deliver_input_sequence filled)
      d = deliver_input_sequence_lem filled k le

      left : Stream H
      left = record {
        read_buffer = d.rest;
        write_buffer = s.stream.write_buffer ++ written d.calls;
        sfp_context = deliver_octets d.taken s.stream.sfp_context;
        sfp_packet = d.packet;
      }

      by_room :
          (over : Bool)
          → ltb buffer_limit (length s.stream.write_buffer + length (written d.calls)) ≡ over
          → (if over then none else some left) ≡ some t.stream
          → Fed octets s t
      by_room true f g = cc
      by_room false f g =
          let same : left ≡ t.stream = cc in
          record {
            taken = d.taken;
            parts = d.parts ∙ ap (λ u. d.taken ++ u.read_buffer) same;
            context_is = ap (λ u. u.sfp_context) (sym same);
            hands = d.hands ∙ ap (λ u. message_of u.sfp_packet) same;
            drained =
                subst (λ (u : Stream H). (u.read_buffer ≡ []) ⊎ (0 < length u.sfp_packet)) same
                  d.stops;
            within =
                subst (λ (u : Stream H). length u.write_buffer ≤ buffer_limit) same
                  (ground (arith, f, length-append s.stream.write_buffer (written d.calls)));
          }

  pub feed_and_flush-Fed :
      {start : List Effect} (octets : List ℕ) (ec : ErrorCode) (s : Session H)
      (r : Session H × ErrorCode)
      → IsBounded start s.stream.sfp_context
      → length s.stream.write_buffer ≤ buffer_limit
      → feed_and_flush octets ec s ≡ some r
      → Fed octets s r.0
  unfolding feed_and_flush start_write consume_written
  feed_and_flush-Fed octets ec s r k le e = by_feed (feed octets s) refl e
    where
      by_test :
          (b : Bool) (t : Session H)
          → Fed octets s t
          → (if b then some (consume_written (start_write t), ec) else some (t, no_error)) ≡ some r
          → Fed octets s r.0
      by_test true t f g =
          let same : consume_written (start_write t) ≡ r.0 = cc in
          subst (Fed octets s) same (record {
            taken = f.taken;
            parts = f.parts;
            context_is = f.context_is;
            hands = f.hands;
            drained = f.drained;
            within = omega arith;
          })
      by_test false t f g = let same : t ≡ r.0 = cc in subst (Fed octets s) same f

      by_feed :
          (f : Option (Session H))
          → feed octets s ≡ f
          → unless_thrown none f (λ fed.
            if not (length fed.stream.write_buffer == 0)
            then some (consume_written (start_write fed), ec)
            else some (fed, no_error))
            ≡ some r
          → Fed octets s r.0
      by_feed none g h = cc
      by_feed (some t) g h =
          by_test (not (length t.stream.write_buffer == 0)) t (feed-Fed octets s t k le g) h

  -- Nothing but the feeding throws.
  pub unflushed :
      (octets : List ℕ) (ec : ErrorCode) (s : Session H)
      → feed_and_flush octets ec s ≡ none
      → feed octets s ≡ none
  unfolding feed_and_flush
  unflushed octets ec s e = by_feed (feed octets s) e
    where
      by_test :
          (b : Bool) (u v : Session H × ErrorCode)
          → ◌≡◌ {A = Option (Session H × ErrorCode)} (if b then some u else some v) none
          → ⊥
      by_test true u v g = cc
      by_test false u v g = cc

      by_feed :
          (f : Option (Session H))
          → unless_thrown {A = Option (Session H × ErrorCode)} none f (λ fed.
            if not (length fed.stream.write_buffer == 0)
            then some (consume_written (start_write fed), ec)
            else some (fed, no_error))
            ≡ none
          → f ≡ none
      by_feed none g = refl
      by_feed (some t) g = absurd (by_test (not (length t.stream.write_buffer == 0)) _ _ g)
