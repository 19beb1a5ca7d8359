-- ===== src/Link/Calls.antt =====
-- The calls of the callbacks that `sfpConnect` makes.
use libsfp.Base.{[], ◌≡◌, sym, ap, ◌∙◌}
use libsfp.State.{Context, RingBuffer, syn}
use libsfp.Frame.{make_header, encode_frame}
use libsfp.Transmit.{with_lock}
use libsfp.Transmit.Frames.{IsIdle}
use libsfp.History.{clear_history}
use libsfp.Handle.{reset_receiver}
use libsfp.Api
use libsfp.Trace.{written, written-append, Grows, Grows-trans, same_suffix}
use libsfp.Link.Greeting.{connect-Greets}
use libsfp.Safety.Keeps.{lock-Keeps, unlock-Keeps, transmit_syn0-Keeps}

module _ {H : Type 0} ⦃rb : RingBuffer H⦄ where
  pub connect-grows : (c : Context H) → Grows c.trace (Api.connect c).trace
  unfolding Api.connect Api.start_handshake with_lock clear_history reset_receiver
  connect-grows c =
      Grows-trans c.trace (lock-Keeps _).grows
        (Grows-trans _ (transmit_syn0-Keeps _).grows (unlock-Keeps _).grows)

  -- What `sfpConnect` writes.
  pub connect-written :
      (c : Context H) → IsIdle c → written (connect-grows c).0 ≡ encode_frame (make_header syn 0) []
  connect-written c idle =
      same_suffix (written c.trace) (written (connect-grows c).0)
        (encode_frame (make_header syn 0) [])
        (sym (written-append c.trace (connect-grows c).0)
          ∙ ap written (sym (connect-grows c).1)
          ∙ (connect-Greets c idle).quiet.writes_octets)
