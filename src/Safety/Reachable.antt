-- ===== src/Safety/Reachable.antt =====
-- The contexts that the entry points come to, in any order and with any arguments.
use libsfp.Base.{List, sym, append-nil, [], ℕ, false, ◌∙◌, ◌≡◌, refl, arith, Option, length, leb}
use libsfp.State.{Context, RingBuffer, Effect, Packet, Pointer, max_packet_size, initial_seq}
use libsfp.Transmit.{transmit_usr, with_lock}
use libsfp.History.{clear_history}
use libsfp.Handle.{reset_receiver}
use libsfp.Receive.{deliver_octet}
use libsfp.Api.{
  init, connect, start_handshake, write_packet, set_deliver_callback, set_write_callback,
  set_lock_callback, set_unlock_callback,
}
use libsfp.Link.Control.{with_lock-fields}
use libsfp.Safety.Keeps.{
  Keeps-trans, assert-Keeps, transmit_impl-Keeps, transmit_syn0-Keeps, lock-Keeps, unlock-Keeps,
}
use libsfp.Safety.Bounds.{
  SendsBounded, WritesFit, same-Bounded, assert-Bounded, lock-Bounded, unlock-Bounded,
  with_lock-Bounded, transmit_impl-Bounded,
}
use libsfp.Safety.Handlers.{syn0-Bounded}
use libsfp.Safety.Reach.{IsBounded, deliver_octet-Bounded}

module _ {H : Type 0} ⦃rb : RingBuffer H⦄ where
  pub data Reachable (memory : Context H) : Context H → Type 0 where
    initialized : Reachable memory (init memory)
    by_connect : {c : Context H} → Reachable memory c → Reachable memory (connect c)
    by_write :
        {c : Context H} (p : Packet) → Reachable memory c → Reachable memory (write_packet p c).0
    by_octet :
        {c : Context H} (buf : Option ℕ) (octet : ℕ)
        → Reachable memory c
        → Reachable memory (deliver_octet buf octet c).0
    by_deliver_callback :
        {c : Context H} (f : Pointer) (d : ℕ)
        → Reachable memory c
        → Reachable memory (set_deliver_callback f d c)
    by_write_callback :
        {c : Context H} (f : Pointer) (d : ℕ)
        → Reachable memory c
        → Reachable memory (set_write_callback f d c)
    by_lock_callback :
        {c : Context H} (f : Pointer) (d : ℕ)
        → Reachable memory c
        → Reachable memory (set_lock_callback f d c)
    by_unlock_callback :
        {c : Context H} (f : Pointer) (d : ℕ)
        → Reachable memory c
        → Reachable memory (set_unlock_callback f d c)

  init-Bounded : (memory : Context H) → IsBounded memory.trace (init memory)
  unfolding init reset_receiver WritesFit
  init-Bounded memory = record {
    sends = record {
      seq_lt = omega arith;
      fits = omega arith;
      calls = [];
      goes_on = sym (append-nil memory.trace);
      writes_fit = tt;
    };
    expected_lt = omega arith;
    packet_fits = omega arith;
  }

  start-rx : (c : Context H) → (start_handshake c).rx ≡ c.rx
  unfolding start_handshake clear_history
  start-rx c = (transmit_syn0-Keeps _).same_rx

module _ {H : Type 0} {start : List Effect} ⦃rb : RingBuffer H⦄ where
  start-Bounded : (c : Context H) → SendsBounded start c → SendsBounded start (start_handshake c)
  unfolding start_handshake clear_history
  start-Bounded c k =
      same-Bounded
        (syn0-Bounded _ (record {
          seq_lt = omega arith;
          fits = k.fits;
          calls = k.calls;
          goes_on = k.goes_on;
          writes_fit = k.writes_fit;
        }))
        refl refl refl

  connect-Bounded : (c : Context H) → IsBounded start c → IsBounded start (connect c)
  unfolding connect reset_receiver
  connect-Bounded c k = record {
    sends =
        with_lock-Bounded start_handshake begun start-Bounded (same-Bounded k.sends refl refl refl);
    expected_lt = rw rx (omega arith);
    packet_fits = rw rx (omega arith);
  }
    where
      reset : Context H
      reset = reset_receiver c

      begun : Context H
      begun = record reset { rx = record reset.rx { seq = initial_seq } }

      rx : (with_lock start_handshake begun).rx ≡ begun.rx
      rx = (with_lock-fields start_handshake begun).1 ∙ start-rx _

  write_packet-Bounded :
      (p : Packet) (c : Context H) → IsBounded start c → IsBounded start (write_packet p c).0
  unfolding write_packet transmit_usr
  write_packet-Bounded p c k =
      let checked = leb (length p) max_packet_size in
      let kept = Keeps-trans (assert-Keeps checked c) (
        Keeps-trans (lock-Keeps _)
          (Keeps-trans (transmit_impl-Keeps p false _) (unlock-Keeps _))) in
      record {
        sends =
            unlock-Bounded _
              (transmit_impl-Bounded p false _ (lock-Bounded _ (assert-Bounded checked c k.sends)));
        expected_lt = rw (kept.same_rx) (k.expected_lt);
        packet_fits = rw (kept.same_rx) (k.packet_fits);
      }

  same-IsBounded :
      {c d : Context H}
      → IsBounded start c
      → d.tx.seq ≡ c.tx.seq
      → d.tx.writebuf ≡ c.tx.writebuf
      → d.rx.seq ≡ c.rx.seq
      → d.rx.packet ≡ c.rx.packet
      → d.trace ≡ c.trace
      → IsBounded start d
  same-IsBounded k seq buf expected packet trace = record {
    sends = same-Bounded k.sends seq buf trace;
    expected_lt = rw expected (k.expected_lt);
    packet_fits = rw packet (k.packet_fits);
  }

module _ {H : Type 0} ⦃rb : RingBuffer H⦄ where
  -- Whatever the entry points are called with, and in whatever order, from `sfpInit` in any memory
  -- on: whenever one returns, both sequence numbers are below 64 and the packet buffer holds no more
  -- than its array; and each call of the write callback since `sfpInit` was handed at most 512 octets,
  -- the size of the write buffer, however long and however stuffed the frames were.
  pub Reachable-IsBounded : {memory c : Context H} → Reachable memory c → IsBounded memory.trace c
  unfolding set_deliver_callback set_write_callback set_lock_callback set_unlock_callback
  Reachable-IsBounded {memory} initialized = init-Bounded memory
  Reachable-IsBounded (by_connect r) = connect-Bounded _ (Reachable-IsBounded r)
  Reachable-IsBounded (by_write p r) = write_packet-Bounded p _ (Reachable-IsBounded r)
  Reachable-IsBounded (by_octet buf o r) = deliver_octet-Bounded buf o _ (Reachable-IsBounded r)
  Reachable-IsBounded (by_deliver_callback f d r) =
      same-IsBounded (Reachable-IsBounded r) refl refl refl refl refl
  Reachable-IsBounded (by_write_callback f d r) =
      same-IsBounded (Reachable-IsBounded r) refl refl refl refl refl
  Reachable-IsBounded (by_lock_callback f d r) =
      same-IsBounded (Reachable-IsBounded r) refl refl refl refl refl
  Reachable-IsBounded (by_unlock_callback f d r) =
      same-IsBounded (Reachable-IsBounded r) refl refl refl refl refl
