-- ===== src/Safety/Reach.antt =====
-- The bounds of the transmitter and of the receiver, in every context that the entry points come to.
use libsfp.Base.{
  List, ℕ, zero, suc, ◌-◌, ◌<◌, ◌≤◌, [], ◌∷◌, ◌++◌, ◌≡◌, refl, sym, ap, subst, Bool, true, false,
  not, Option, if◌then◌else◌, leb, ltb, length, length-append, arith, ◌==◌, take,
}
use libsfp.State.{
  Context, RingBuffer, Effect, FrameType, usr, rtx, nak, syn, esc, flag, escaping, FrameState, new,
  receiving, ConnectState, crc_size, crc_good, max_packet_size,
}
use libsfp.Frame.{get_frame_seq, get_frame_type, next_seq}
use libsfp.Frame.Header.{next_seq-lt}
use libsfp.Transmit.{with_lock, transmit_nak}
use libsfp.Handle.{reset_receiver, buffer_octet, handle_by_type, handle_frame}
use libsfp.Receive.{
  Returned, unavailable, flag_by_state, take_flag, deliver_octet, take_octet, store_octet,
}
use libsfp.Safety.Bounds.{SendsBounded, same-Bounded}
use libsfp.Safety.Handlers.{handle_by_type-Bounded, refused-Bounded}
use libsfp.Safety.Outcome.{next_expected, is_taken}
use libsfp.Safety.Octet.{deliver_octet-Result, ends_frame, copy_if_any_lem}

next_expected-lt :
    (t : FrameType) (n : ℕ) (s : ConnectState) (e : ℕ) → e < 64 → next_expected t n s e < 64
next_expected-lt t n s e lt = by_type t n
  where
    chosen : (b : Bool) → (if b then next_seq e else e) < 64
    chosen true = next_seq-lt e
    chosen false = lt

    by_type : (t : FrameType) (n : ℕ) → next_expected t n s e < 64
    by_type usr n = chosen (is_taken usr n s e)
    by_type rtx n = chosen (is_taken rtx n s e)
    by_type nak n = chosen (is_taken nak n s e)
    by_type syn zero = omega arith
    by_type syn (suc n) = chosen (is_taken syn (suc n) s e)

module _ {H : Type 0} where
  -- What the machine types and the arrays of the source have room for, and what the write callback was
  -- handed since the trace was `start`.
  pub record IsBounded (start : List Effect) (c : Context H) : Type 0 where
    pub sends : SendsBounded start c
    pub expected_lt : c.rx.seq < 64
    pub packet_fits : length c.rx.packet ≤ max_packet_size

  buffer_octet-fits :
      (o : ℕ) (c : Context H)
      → length c.rx.packet ≤ max_packet_size
      → length (buffer_octet o c).rx.packet ≤ max_packet_size
  unfolding buffer_octet reset_receiver
  buffer_octet-fits o c le = by_room (leb max_packet_size (length c.rx.packet)) refl
    where
      by_room :
          (full : Bool)
          → leb max_packet_size (length c.rx.packet) ≡ full
          → length
              (if full
                then reset_receiver c
                else record c { rx = record c.rx { packet = c.rx.packet ++ o ∷ [] } }).rx.packet
            ≤ max_packet_size
      by_room true e = omega arith
      by_room false e =
          let free : length c.rx.packet < max_packet_size = ground arith in
          omega (arith, length-append c.rx.packet (o ∷ []), free)

  store_octet-fits :
      (fs : FrameState) (o : ℕ) (c : Context H)
      → length c.rx.packet ≤ max_packet_size
      → length (store_octet fs o c).rx.packet ≤ max_packet_size
  unfolding store_octet
  store_octet-fits new o c le = le
  store_octet-fits receiving o c le = buffer_octet-fits o c le

  store_octet-tx : (fs : FrameState) (o : ℕ) (c : Context H) → (store_octet fs o c).tx ≡ c.tx
  unfolding store_octet buffer_octet reset_receiver
  store_octet-tx new o c = refl
  store_octet-tx receiving o c = by_room (leb max_packet_size (length c.rx.packet))
    where
      by_room :
          (full : Bool)
          → (if full
              then reset_receiver c
              else record c { rx = record c.rx { packet = c.rx.packet ++ o ∷ [] } }).tx
            ≡ c.tx
      by_room true = refl
      by_room false = refl

  store_octet-trace :
      (fs : FrameState) (o : ℕ) (c : Context H) → (store_octet fs o c).trace ≡ c.trace
  unfolding store_octet buffer_octet reset_receiver
  store_octet-trace new o c = refl
  store_octet-trace receiving o c = by_room (leb max_packet_size (length c.rx.packet))
    where
      by_room :
          (full : Bool)
          → (if full
              then reset_receiver c
              else record c { rx = record c.rx { packet = c.rx.packet ++ o ∷ [] } }).trace
            ≡ c.trace
      by_room true = refl
      by_room false = refl

  expected-lt :
      (c : Context H) (b : Bool)
      → c.rx.seq < 64
      → (if b
          then next_expected
              (get_frame_type c.rx.header)
              (get_frame_seq c.rx.header)
              c.connect_state
              c.rx.seq
          else c.rx.seq)
        < 64
  expected-lt c true lt = next_expected-lt _ _ _ _ lt
  expected-lt c false lt = lt

module _ {H : Type 0} {start : List Effect} ⦃rb : RingBuffer H⦄ where
  handle_frame-Bounded :
      (c : Context H) → SendsBounded start c → SendsBounded start (handle_frame c).0
  unfolding handle_frame
  handle_frame-Bounded c k = by_tests (ltb (length c.rx.packet) crc_size) (c.rx.crc == crc_good)
    where
      rewound : Context H
      rewound = record c {
        rx = record c.rx { packet = take (length c.rx.packet - crc_size) c.rx.packet };
      }

      by_tests :
          (short good : Bool)
          → let r : Context H × Bool =
              if short
              then (with_lock (transmit_nak c.rx.seq) c, false)
              else (if not good
                  then (with_lock (transmit_nak rewound.rx.seq) rewound, false)
                  else handle_by_type (get_frame_type rewound.rx.header) rewound) in
            SendsBounded start r.0
      by_tests true good = refused-Bounded c k
      by_tests false false = refused-Bounded rewound (same-Bounded k refl refl refl)
      by_tests false true = handle_by_type-Bounded _ rewound (same-Bounded k refl refl refl)

  flag_by_state-Bounded :
      (fs : FrameState) (buf : Option ℕ) (c : Context H)
      → SendsBounded start c
      → SendsBounded start (flag_by_state fs buf c).0
  unfolding flag_by_state
  flag_by_state-Bounded new buf c k = k
  flag_by_state-Bounded receiving buf c k =
      subst (SendsBounded start) (sym (copy_if_any_lem buf (handle_frame c)).0)
        (handle_frame-Bounded c k)

  take_flag-Bounded :
      (buf : Option ℕ) (c : Context H)
      → SendsBounded start c
      → SendsBounded start (take_flag buf c).0
        × (length (take_flag buf c).0.rx.packet ≤ max_packet_size)
  unfolding take_flag reset_receiver
  take_flag-Bounded buf c k =
      (same-Bounded (flag_by_state-Bounded c.rx.frame_state buf c k) refl refl refl, omega arith)

  take_octet-Bounded :
      (o : ℕ) (c : Context H)
      → IsBounded start c
      → SendsBounded start (take_octet o c) × (length (take_octet o c).rx.packet ≤ max_packet_size)
  unfolding take_octet
  take_octet-Bounded o c k =
      let tx = store_octet-tx c.rx.frame_state _ _ in
      (
        same-Bounded k.sends (ap (λ t. t.seq) tx) (ap (λ t. t.writebuf) tx)
            (store_octet-trace c.rx.frame_state _ _),
        store_octet-fits c.rx.frame_state _ _ k.packet_fits,
      )

  -- One octet from the wire, in or out of a frame, keeps the bounds.
  pub deliver_octet-Bounded :
      (buf : Option ℕ) (o : ℕ) (c : Context H)
      → IsBounded start c
      → IsBounded start (deliver_octet buf o c).0
  unfolding deliver_octet
  deliver_octet-Bounded buf o c k =
      let both = by_octet (o == flag) (o == esc) in
      record {
        sends = both.0;
        expected_lt =
            subst (λ n. n < 64) (sym (deliver_octet-Result buf o c).seq_is)
              (expected-lt c (ends_frame o c) k.expected_lt);
        packet_fits = both.1;
      }
    where
      by_octet :
          (is_flag is_esc : Bool)
          → let r : Context H × Returned =
              if is_flag
              then take_flag buf c
              else (if is_esc
                  then (record c { rx = record c.rx { escape_state = escaping } }, unavailable)
                  else (take_octet o c, unavailable)) in
            SendsBounded start r.0 × (length r.0.rx.packet ≤ max_packet_size)
      by_octet true is_esc = take_flag-Bounded buf c k.sends
      by_octet false true = (same-Bounded k.sends refl refl refl, k.packet_fits)
      by_octet false false = take_octet-Bounded o c k
