-- ===== src/Stream/Handshake.antt =====
-- `handshake_op`: what it means that it completes without an error.
use libsfp.Base.{
  ℕ, List, ◌≡◌, refl, sym, ap, ◌∙◌, ◌⊎◌, inl, inr, Bool, true, false, ◌&&◌, not, ◌==◌,
  if◌then◌else◌, length, Option, none, some,
}
use libsfp.State.{RingBuffer, assert}
use libsfp.Api
use libsfp.Errors.{ErrorCode, no_error, timed_out, is_error}
use libsfp.Stream.{unless_thrown}
use libsfp.Stream.Operations.{
  Session, Round, Progress, waits, completes, throws, after_timed, settled, reached, ends_well,
  has_packet, is_timed_out, on_stream, start_write, consume_written, begin_handshake, read_until,
  read_until_connected, read_until_delivery, settle, handshake,
}
use libsfp.Stream.Links.{
  connects, HasLink, feed-HasLink, assert-connected, negated_true, negated_false,
}
use libsfp.Stream.Loops.{read_until-ends}

excused :
    (ec : ErrorCode) (up : Bool)
    → not (is_error (if is_timed_out ec && up then no_error else ec)) ≡ true
    → (up ≡ true) ⊎ (not (is_error ec) ≡ true)
excused ec true ok = inl refl
excused ec false ok = inr (by_time (is_timed_out ec) ok)
  where
    by_time :
        (b : Bool)
        → not (is_error (if b && false then no_error else ec)) ≡ true
        → not (is_error ec) ≡ true
    by_time true g = g
    by_time false g = g

module _ {H : Type 0} ⦃rb : RingBuffer H⦄ where
  -- If it ends without an error, it is connected.
  abbrev Ends : Session H × Progress → Type 0
  Ends r = ends_well r.1 ≡ true → connects r.0 ≡ true

  settled-Ends :
      (s : Session H) (settle_ec : ErrorCode)
      → (not (is_error settle_ec) ≡ true → connects s ≡ true)
      → Ends (settled s settle_ec)
  unfolding settled ends_well connects
  settled-Ends s settle_ec linked ok =
      assert-connected _ s.stream.sfp_context
      ∙ by_excuse (excused settle_ec (Api.is_connected s.stream.sfp_context) ok)
    where
      by_excuse :
          (connects s ≡ true) ⊎ (not (is_error settle_ec) ≡ true)
          → Api.is_connected s.stream.sfp_context ≡ true
      by_excuse (inl up) = up
      by_excuse (inr fine) = linked fine

  after_timed-Ends :
      (r : Session H × Progress) (next : Session H → ErrorCode → Session H × Progress)
      → ((ec : ErrorCode) → (not (is_error ec) ≡ true → ends_well r.1 ≡ true) → Ends (next r.0 ec))
      → Ends (after_timed r next)
  unfolding after_timed ends_well is_error
  after_timed-Ends (s, waits) next ends = ends timed_out (λ e. absurd_code e)
    where
      absurd_code : false ≡ true → false ≡ true
      absurd_code e = e
  after_timed-Ends (s, completes ec) next ends = ends ec (λ e. e)
  after_timed-Ends (s, throws) next ends = λ ok. absurd_end ok
    where
      absurd_end : false ≡ true → connects s ≡ true
      absurd_end ok = cc

  settle-connected :
      (rs : List Round) (s : Session H)
      → (has_packet s ≡ true → connects s ≡ true)
      → Ends (settle rs s)
  unfolding settle read_until_delivery connects HasLink
  settle-connected rs s linked = by_packet (has_packet s) refl
    where
      idle : Bool
      idle = (length s.stream.sfp_packet == 0) && (length s.stream.read_buffer == 0)

      checked : Session H
      checked = record s {
        stream = record s.stream { sfp_context = assert idle s.stream.sfp_context };
      }

      initial : HasLink checked
      initial left = assert-connected idle s.stream.sfp_context ∙ linked (ap not left)

      ended : Session H × Progress
      ended = read_until has_packet rs checked

      reads : ends_well ended.1 ≡ true → connects ended.0 ≡ true
      reads ok =
          let ends =
            read_until-ends HasLink has_packet (λ octets t u e. feed-HasLink octets t u e) rs
              checked initial ok in
          ends.1 (negated_true (length ended.0.stream.sfp_packet == 0) ends.0)

      by_packet :
          (b : Bool)
          → has_packet s ≡ b
          → Ends (if b then (s, completes no_error) else after_timed ended settled)
      by_packet true f = λ ok. linked f
      by_packet false f =
          after_timed-Ends ended settled (λ ec fine. settled-Ends ended.0 ec (λ e. reads (fine e)))

  reached-Ends :
      (rs : List Round) (s : Session H) (ec : ErrorCode)
      → (not (is_error ec) ≡ true → connects s ≡ true)
      → Ends (reached rs s ec)
  unfolding reached ends_well
  reached-Ends rs s ec up = by_error (is_error ec) refl
    where
      by_error : (b : Bool) → is_error ec ≡ b → Ends (if b then (s, completes ec) else settle rs s)
      by_error true e = λ ok. let bad : false ≡ true = ap not (sym e) ∙ ok in cc
      by_error false e = settle-connected rs s (λ left. up (ap not e))

  pub handshake-links :
      (write this : ℕ) (write_ec : ErrorCode) (rs settle_rs : List Round) (s : Session H)
      → Ends (handshake write this write_ec rs settle_rs s)
  unfolding handshake read_until_connected connects ends_well
  handshake-links write this write_ec rs settle_rs s =
      by_greeting (on_stream (begin_handshake write this) s)
    where
      by_greeting :
          (greeted : Option (Session H))
          → Ends (
              unless_thrown
                (s, throws)
                greeted
                (λ t.
                  let begun = start_write t in
                  let flushed = consume_written begun in
                  if is_error write_ec
                  then (begun, completes write_ec)
                  else (if not (Api.is_connected flushed.stream.sfp_context)
                      then after_timed (read_until_connected rs flushed) (reached settle_rs)
                      else settle settle_rs flushed)))
      by_greeting none = λ ok. let bad : false ≡ true = ok in cc
      by_greeting (some t) = by_write (is_error write_ec) refl (not (connects flushed)) refl
        where
          flushed : Session H
          flushed = consume_written (start_write t)

          reads : Session H × Progress
          reads = read_until connects rs flushed

          up : ends_well reads.1 ≡ true → connects reads.0 ≡ true
          up ok = (read_until-ends (λ t. Unit) connects (λ octets t u e. tt) rs flushed tt ok).0

          by_write :
              (b : Bool)
              → is_error write_ec ≡ b
              → (c : Bool) → not (connects flushed) ≡ c
              → Ends (
                  if b
                  then (start_write t, completes write_ec)
                  else (if c
                      then after_timed reads (reached settle_rs)
                      else settle settle_rs flushed))
          by_write true f c g = λ ok. let bad : false ≡ true = ap not (sym f) ∙ ok in cc
          by_write false f true g =
              after_timed-Ends reads (reached settle_rs)
                (λ ec fine. reached-Ends settle_rs reads.0 ec (λ e. up (fine e)))
          by_write false f false g =
              settle-connected settle_rs flushed (λ left. negated_false (connects flushed) g)

  -- `handshake_op` leaves the context connected unless it ends with an error or an exception: whatever
  -- was read, however it was cut into reads, whatever time ran out, and from any state of the stream.
  pub handshake-connects :
      (write this : ℕ) (write_ec : ErrorCode) (rs settle_rs : List Round) (s : Session H)
      → let r = handshake write this write_ec rs settle_rs s in
        (ends_well r.1 ≡ false) ⊎ (Api.is_connected r.0.stream.sfp_context ≡ true)
  unfolding connects
  handshake-connects write this write_ec rs settle_rs s = by_end (ends_well r.1) refl
    where
      r : Session H × Progress
      r = handshake write this write_ec rs settle_rs s

      by_end :
          (b : Bool)
          → ends_well r.1 ≡ b
          → (ends_well r.1 ≡ false) ⊎ (Api.is_connected r.0.stream.sfp_context ≡ true)
      by_end false e = inl e
      by_end true e = inr (handshake-links write this write_ec rs settle_rs s e)
