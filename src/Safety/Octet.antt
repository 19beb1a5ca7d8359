-- ===== src/Safety/Octet.antt =====
-- What `sfpDeliverOctet` does, for any octet and from any context.
use libsfp.Base.{
  ℕ, ◌-◌, [], ◌∷◌, ◌++◌, ◌≡◌, refl, sym, ap, ◌∙◌, Bool, true, false, ◌&&◌, not, append-nil, Option,
  none, some, if◌then◌else◌, is_some, ◌==◌, ltb, leb, length, take,
}
use libsfp.State.{
  Context, RingBuffer, Packet, FrameState, new, receiving, FrameType, flag, esc, escaping, crc_size,
  crc_good, max_packet_size,
}
use libsfp.Frame.{get_frame_type, get_frame_seq}
use libsfp.Transmit.{with_lock, transmit_nak}
use libsfp.Handle.{reset_receiver, handle_by_type, handle_frame, buffer_octet}
use libsfp.Receive.{
  Returned, failed, unavailable, available, copy_out_packet, copy_if_any, flag_by_state, take_flag,
  deliver_octet, take_octet, store_octet,
}
use libsfp.Trace.{Grows, deliveries}
use libsfp.Safety.Keeps.{Keeps, with_lock-Keeps, transmit_nak-Keeps}
use libsfp.Safety.Outcome.{Outcome, next_state, is_taken, next_expected, Keeps-Outcome}
use libsfp.Safety.Machine.{handle_by_type-Outcome}

-- What is returned for a packet that was taken: it is copied out if there is a buffer, and that
-- fails just if the buffer is too small.
abbrev pub copied : Option ℕ → Packet → Returned
copied none p = available none
copied (some len) p = if ltb len (length p) then failed else available (some p)

abbrev pub is_receiving : FrameState → Bool
is_receiving new = false
is_receiving receiving = true

module _ {H : Type 0} where
  -- The frame in the packet buffer holds a CRC, and it is right.
  abbrev pub is_whole : Context H → Bool
  is_whole c = not (ltb (length c.rx.packet) crc_size) && (c.rx.crc == crc_good)

  abbrev pub payload_of : Context H → Packet
  payload_of c = take (length c.rx.packet - crc_size) c.rx.packet

  -- Whether the octet ends a frame that is whole, and what the frame is then.
  abbrev pub ends_frame : ℕ → Context H → Bool
  ends_frame octet c = (octet == flag) && (is_receiving c.rx.frame_state && is_whole c)

  abbrev pub takes_packet : Context H → Bool
  takes_packet c =
      is_taken (get_frame_type c.rx.header) (get_frame_seq c.rx.header) c.connect_state c.rx.seq

  abbrev rewound : Context H → Context H
  rewound c = record c { rx = record c.rx { packet = payload_of c } }

  -- The context and what is returned, from `c`, after an octet that ends a whole frame or does not.
  pub record Result (c : Context H) (buf : Option ℕ) (ends : Bool) (r : Context H × Returned)
      : Type 0 where
    pub state_is : r.0.connect_state ≡ (
        if ends
        then next_state (get_frame_type c.rx.header) (get_frame_seq c.rx.header) c.connect_state
        else c.connect_state)
    pub delivers :
        deliveries r.0.trace
        ≡ deliveries c.trace
          ++ (if ends && takes_packet c && is_some c.rx.deliver then payload_of c ∷ [] else [])
    pub seq_is : r.0.rx.seq ≡ (
        if ends
        then next_expected
            (get_frame_type c.rx.header)
            (get_frame_seq c.rx.header)
            c.connect_state
            c.rx.seq
        else c.rx.seq)
    pub returns : r.1 ≡ (if ends && takes_packet c then copied buf (payload_of c) else unavailable)
    pub grows : Grows c.trace r.0.trace

  -- Nothing but the receiver is changed, and it expects the same frame.
  Silent : Context H → Context H → Type 0
  Silent c d = (d.connect_state ≡ c.connect_state) × (d.trace ≡ c.trace) × (d.rx.seq ≡ c.rx.seq)

  Silent-Result :
      {c d : Context H} (buf : Option ℕ) → Silent c d → Result c buf false (d, unavailable)
  unfolding Silent
  Silent-Result buf s = record {
    state_is = s.0;
    delivers = ap deliveries s.1 ∙ sym (append-nil _);
    seq_is = s.2;
    grows = ([], s.1 ∙ sym (append-nil _));
    returns = refl;
  }

  buffer_octet-Silent : (o : ℕ) (c : Context H) → Silent c (buffer_octet o c)
  unfolding Silent buffer_octet reset_receiver
  buffer_octet-Silent o c = by_room (leb max_packet_size (length c.rx.packet))
    where
      by_room :
          (b : Bool)
          → Silent c (
              if b
              then reset_receiver c
              else record c { rx = record c.rx { packet = c.rx.packet ++ o ∷ [] } })
      by_room true = (refl, refl, refl)
      by_room false = (refl, refl, refl)

  store_octet-Silent : (fs : FrameState) (o : ℕ) (c : Context H) → Silent c (store_octet fs o c)
  unfolding Silent store_octet
  store_octet-Silent new o c = (refl, refl, refl)
  store_octet-Silent receiving o c = buffer_octet-Silent o c

  take_octet-Silent : (o : ℕ) (c : Context H) → Silent c (take_octet o c)
  unfolding Silent take_octet
  take_octet-Silent o c = store_octet-Silent c.rx.frame_state _ _

module _ {H : Type 0} ⦃rb : RingBuffer H⦄ where
  handle_frame-Outcome :
      (c : Context H)
      → let n = get_frame_seq c.rx.header in
        let t = get_frame_type c.rx.header in
        Outcome
          (rewound c)
          (if is_whole c then next_state t n c.connect_state else c.connect_state)
          (is_whole c && takes_packet c)
          (if is_whole c then next_expected t n c.connect_state c.rx.seq else c.rx.seq)
          (handle_frame c)
  unfolding handle_frame
  handle_frame-Outcome c = by_tests (ltb (length c.rx.packet) crc_size) (c.rx.crc == crc_good)
    where
      n : ℕ
      n = get_frame_seq c.rx.header

      t : FrameType
      t = get_frame_type c.rx.header

      refused :
          (d : Context H)
          → Keeps (rewound c) d
          → Outcome (rewound c) c.connect_state false c.rx.seq (d, false)
      refused d k = Keeps-Outcome k

      short : Keeps c (with_lock (transmit_nak c.rx.seq) c)
      short = with_lock-Keeps (transmit_nak c.rx.seq) c (transmit_nak-Keeps c.rx.seq)

      short-Outcome :
          Outcome
            (rewound c)
            c.connect_state
            false
            c.rx.seq
            (with_lock (transmit_nak c.rx.seq) c, false)
      short-Outcome =
          let o = Keeps-Outcome short in
          record {
            state_is = o.state_is;
            delivers = o.delivers;
            result_is = refl;
            seq_is = o.seq_is;
            packet_is = λ e. cc;
            grows = o.grows;
          }

      by_tests :
          (is_short good : Bool)
          → Outcome
              (rewound c)
              (if not is_short && good then next_state t n c.connect_state else c.connect_state)
              ((not is_short && good) && takes_packet c)
              (if not is_short && good
                then next_expected t n c.connect_state c.rx.seq
                else c.rx.seq)
              (if is_short
                then (with_lock (transmit_nak c.rx.seq) c, false)
                else (if not good
                    then (with_lock (transmit_nak c.rx.seq) (rewound c), false)
                    else handle_by_type t (rewound c)))
      by_tests true good = short-Outcome
      by_tests false false =
          refused _
            (with_lock-Keeps (transmit_nak c.rx.seq) (rewound c) (transmit_nak-Keeps c.rx.seq))
      by_tests false true = handle_by_type-Outcome t (rewound c)

  pub copy_if_any_lem :
      (buf : Option ℕ) (r : Context H × Bool)
      → ((copy_if_any buf r).0 ≡ r.0)
        × ((copy_if_any buf r).1 ≡ (if r.1 then copied buf r.0.rx.packet else unavailable))
  unfolding copy_if_any copy_out_packet
  copy_if_any_lem buf (d, false) = (refl, refl)
  copy_if_any_lem none (d, true) = (refl, refl)
  copy_if_any_lem (some len) (d, true) = (refl, refl)

  flag_by_state-Result :
      (fs : FrameState) (buf : Option ℕ) (c : Context H)
      → Result c buf (is_receiving fs && is_whole c) (flag_by_state fs buf c)
  unfolding flag_by_state
  flag_by_state-Result new buf c = Silent-Result buf (unfold Silent in (refl, refl, refl))
  flag_by_state-Result receiving buf c =
      let o = handle_frame-Outcome c in
      let copy = copy_if_any_lem buf (handle_frame c) in
      record {
        state_is = ap (λ x. x.connect_state) copy.0 ∙ o.state_is;
        delivers = ap (λ x. deliveries x.trace) copy.0 ∙ o.delivers;
        seq_is = ap (λ x. x.rx.seq) copy.0 ∙ o.seq_is;
        grows = (o.grows.0, ap (λ x. x.trace) copy.0 ∙ o.grows.1);
        returns =
            copy.1
            ∙ ap (λ b. if b then copied buf (handle_frame c).0.rx.packet else unavailable)
                o.result_is
            ∙ same_packet (is_whole c && takes_packet c) o.packet_is;
      }
    where
      same_packet :
          (taken : Bool)
          → (taken ≡ true → (handle_frame c).0.rx.packet ≡ payload_of c)
          → (if taken then copied buf (handle_frame c).0.rx.packet else unavailable)
            ≡ (if taken then copied buf (payload_of c) else unavailable)
      same_packet true e = ap (copied buf) (e refl)
      same_packet false e = refl

  take_flag-Result :
      (buf : Option ℕ) (c : Context H)
      → Result c buf (is_receiving c.rx.frame_state && is_whole c) (take_flag buf c)
  unfolding take_flag reset_receiver
  take_flag-Result buf c =
      let r = flag_by_state-Result c.rx.frame_state buf c in
      record {
        state_is = r.state_is;
        delivers = r.delivers;
        seq_is = r.seq_is;
        grows = r.grows;
        returns = r.returns;
      }

  -- One octet from the wire, at any context. The state of the connection, what has been delivered
  -- and the number expected next change only if it is a FLAG that ends a frame with two octets or
  -- more after its header and a right CRC. The connection then goes to the state of the table; the
  -- packet is handed to the deliver callback, if there is one, just if it is a user frame with the
  -- expected number on a connected link; the number expected next is the following one then, and the
  -- initial one after SYN0; and what is returned is 0 but for such a packet, for which it is 1, or -1
  -- with a buffer that is too small. The trace only goes on.
  pub deliver_octet-Result :
      (buf : Option ℕ) (octet : ℕ) (c : Context H)
      → Result c buf (ends_frame octet c) (deliver_octet buf octet c)
  unfolding deliver_octet
  deliver_octet-Result buf octet c = by_octet (octet == flag) (octet == esc)
    where
      by_octet :
          (is_flag is_esc : Bool)
          → Result c buf (is_flag && (is_receiving c.rx.frame_state && is_whole c)) (
              if is_flag
              then take_flag buf c
              else (if is_esc
                  then (record c { rx = record c.rx { escape_state = escaping } }, unavailable)
                  else (take_octet octet c, unavailable)))
      by_octet true is_esc = take_flag-Result buf c
      by_octet false true = Silent-Result buf (unfold Silent in (refl, refl, refl))
      by_octet false false = Silent-Result buf (take_octet-Silent octet c)
