-- ===== src/Node/Slots.antt =====
-- The slots of `sfp::Context`, and two fresh objects that are connected.
use libsfp.Base.{
  ℕ, ◌+◌, List, [], ◌∷◌, ◌++◌, ◌≡◌, refl, ap, ◌∙◌, Bool, true, false, ◌&&◌, none, if◌then◌else◌,
  length, is_some, append_assoc, append-nil, arith,
}
use libsfp.State.{connected, Context, RingBuffer, Packet, new, disconnected, assert}
use libsfp.Transmit.Frames.{IsIdle}
use libsfp.Receive.{unavailable, deliver_octet, deliver_octets}
use libsfp.Handle.{reset_receiver}
use libsfp.Api
use libsfp.Node.{connect, is_connected, initialize, input, has_succeeded, write_loop, static_write}
use libsfp.Link.Control.{wire}
use libsfp.Link.Delivery.{IsListening}
use libsfp.Link.Handshake.{connect-connects}
use libsfp.Safety.Octet.{deliver_octet-Result, ends_frame, takes_packet, payload_of, copied}

-- `staticWrite` raises `output` with every octet, in order, and counts them all.
static_write_lem : (octets : List ℕ) → static_write octets ≡ (octets, length octets)
unfolding static_write
static_write_lem octets = loop octets [] 0 ∙ ap (λ n. (octets, n)) (omega arith)
  where
    loop : (os output : List ℕ) (i : ℕ) → write_loop os (output, i) ≡ (output ++ os, i + length os)
    loop [] output i =
        unfold write_loop in simp (append-nil output) (ap (λ n. (output, n)) (omega arith))
    loop (o ∷ os) output i =
        (unfold write_loop in loop os (output ++ o ∷ []) (i + 1))
        ∙ ap (λ xs. (xs, i + 1 + length os)) (append_assoc output (o ∷ []) os)
        ∙ ap (λ n. (output ++ o ∷ os, n)) (omega arith)

returned :
    (taken : Bool) (p : Packet)
    → has_succeeded (if taken then copied none p else unavailable) ≡ true
unfolding has_succeeded
returned true p = refl
returned false p = refl

module _ {H : Type 0} ⦃rb : RingBuffer H⦄ where
  -- The slot, raised with one octet after another.
  unfoldable pub inputs : List ℕ → Context H → Context H
  inputs [] c = c
  inputs (o ∷ os) c = inputs os (input o c)

  pub input_lem : (octet : ℕ) (c : Context H) → input octet c ≡ (deliver_octet none octet c).0
  unfolding input
  input_lem octet c = ap (λ b. assert b (deliver_octet none octet c).0) succeeds
    where
      taken : Bool
      taken = ends_frame octet c && takes_packet c

      succeeds : has_succeeded (deliver_octet none octet c).1 ≡ true
      succeeds =
          ap has_succeeded (deliver_octet-Result none octet c).returns
          ∙ returned taken (payload_of c)

  -- The assertion of `input`, that `sfpDeliverOctet` does not fail, never fails: for any octets and
  -- from any context, raising the slot with them one by one is what the receiver does with them.
  pub inputs_lem : (octets : List ℕ) (c : Context H) → inputs octets c ≡ deliver_octets octets c
  unfolding inputs deliver_octets
  inputs_lem [] c = refl
  inputs_lem (o ∷ os) c = ap (inputs os) (input_lem o c) ∙ inputs_lem os _

  connected_lem : (c : Context H) → c.connect_state ≡ connected → Api.is_connected c ≡ true
  connected_lem c e = unfold Api.is_connected Api.state_is_connected in rw e refl

  -- `initialize` in any memory gives an object that can send and waits for a frame.
  initialize-ready :
      (deliver write lock unlock this : ℕ) (threadsafe : Bool) (memory : Context H)
      → let c = initialize deliver write lock unlock this threadsafe memory in
        IsIdle c
        × (is_some c.rx.deliver ≡ true)
        × (c.rx.frame_state ≡ new)
        × (c.connect_state ≡ disconnected)
  unfolding initialize reset_receiver
  initialize-ready deliver write lock unlock this true memory =
      (record { has_writer = refl; flushed = refl }, refl, refl, refl)
  initialize-ready deliver write lock unlock this false memory =
      (record { has_writer = refl; flushed = refl }, refl, refl, refl)

  module _ (deliver write lock unlock this that : ℕ) (threadsafe : Bool)
      (memory other : Context H) where
    abbrev one : Context H
    one = initialize deliver write lock unlock this threadsafe memory

    abbrev two : Context H
    two = initialize deliver write lock unlock that threadsafe other

    -- Two objects that were initialized, in any memory, connect: after `connect` at one of them, and
    -- when each has been given what the other has output, in three turns, both listen on a
    -- connected link, each sends with the number that the other expects, and `isConnected` is true at
    -- both.
    pub initialize-connects :
        let begins = connect one in
        let answers = inputs (wire one begins) two in
        let confirms = inputs (wire two answers) begins in
        let finishes = inputs (wire begins confirms) answers in
        IsListening confirms
        × IsListening finishes
        × (confirms.tx.seq ≡ finishes.rx.seq)
        × (finishes.tx.seq ≡ confirms.rx.seq)
        × (is_connected confirms ≡ true)
        × (is_connected finishes ≡ true)
    unfolding connect is_connected
    initialize-connects =
        let ready = initialize-ready deliver write lock unlock this threadsafe memory in
        let other_ready = initialize-ready deliver write lock unlock that threadsafe other in
        let all =
          connect-connects one two ready.0 other_ready.0 ready.1 other_ready.1 other_ready.2 in
        simp inputs_lem
          (all.0, all.1, all.2, all.3, connected_lem _ all.0.up, connected_lem _ all.1.up)
