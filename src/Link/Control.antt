-- ===== src/Link/Control.antt =====
-- Control frames of the handshake that go out under the lock, with the changes of state around them.
use libsfp.Base.{
  ℕ, ◌<◌, List, [], ◌++◌, ◌≡◌, refl, ap, ◌∙◌, length, drop, drop-append, true, append-nil, arith,
}
use libsfp.State.{Context, RingBuffer, Effect, syn, new}
use libsfp.Frame.{get_frame_type, get_frame_seq, make_header, encode_frame, same_type}
use libsfp.Frame.Header.{get_frame_type-make_header}
use libsfp.Transmit.{with_lock}
use libsfp.Transmit.Locked.{lock_calls, unlock_calls, calling, with_lock_lem}
use libsfp.Handle.{handle_syn, syn_by_seq, handle_by_type, reset_receiver}
use libsfp.Receive.{deliver_octets}
use libsfp.Receive.Whole.{with_frame, deliver_octets-encode_frame}
use libsfp.Trace.{written, deliveries, trace_laws}

module _ {H : Type 0} where
  -- The calls of a body in the scope of the lock, seen from the wire.
  pub record Quiet (c : Context H) (octets : List ℕ) (d : Context H) : Type 0 where
    pub writes_octets : written d.trace ≡ written c.trace ++ octets
    pub delivers_none : deliveries d.trace ≡ deliveries c.trace

  -- The octets that `d` has put on the wire since it was `c`.
  abbrev pub wire : Context H → Context H → List ℕ
  wire c d = drop (length (written c.trace)) (written d.trace)

  pub wire_lem :
      (c d : Context H) (os : List ℕ) → written d.trace ≡ written c.trace ++ os → wire c d ≡ os
  wire_lem c d os e =
      ap (drop (length (written c.trace))) e
      ∙ drop-append (written c.trace) os (length (written c.trace)) refl

  pub with_lock-Quiet :
      (body : Context H → Context H) (c : Context H) (calls : List Effect) (octets : List ℕ)
      → (body (calling c (lock_calls c))).trace ≡ (c.trace ++ lock_calls c) ++ calls
      → written calls ≡ octets
      → deliveries calls ≡ []
      → Quiet c octets (with_lock body c)
  with_lock-Quiet body c calls octets made octets_are none_delivered = record {
    writes_octets = ap (λ t. written t) trace ∙ simp (trace_laws, octets_are, append-nil);
    delivers_none = ap (λ t. deliveries t) trace ∙ simp (trace_laws, none_delivered, append-nil);
  }
    where
      inside : Context H
      inside = body (calling c (lock_calls c))

      trace : (with_lock body c).trace ≡ ((c.trace ++ lock_calls c) ++ calls) ++ unlock_calls inside
      trace = ap (λ x. x.trace) (with_lock_lem body c) ∙ ap (λ t. t ++ unlock_calls inside) made

  -- Only the trace tells that a body ran under the lock.
  pub with_lock-fields :
      (body : Context H → Context H) (c : Context H)
      → let inside = body (calling c (lock_calls c)) in
        ((with_lock body c).tx ≡ inside.tx)
        × ((with_lock body c).rx ≡ inside.rx)
        × ((with_lock body c).connect_state ≡ inside.connect_state)
  with_lock-fields body c =
      let e = with_lock_lem body c in
      (ap (λ x. x.tx) e, ap (λ x. x.rx) e, ap (λ x. x.connect_state) e)

module _ {H : Type 0} ⦃rb : RingBuffer H⦄ where
  -- A SYN frame is handled under the lock, by its sequence number.
  pub deliver_octets-syn :
      (s : ℕ) (c : Context H)
      → s < 64
      → c.rx.frame_state ≡ new
      → deliver_octets (encode_frame (make_header syn s) []) c
        ≡ reset_receiver (with_lock handle_syn (with_frame c (make_header syn s) []))
  deliver_octets-syn s c lt waits =
      deliver_octets-encode_frame c (make_header syn s) [] waits (omega arith)
      ∙ ap (λ t. reset_receiver (handle_by_type t (with_frame c (make_header syn s) [])).0)
          (get_frame_type-make_header syn s lt).0
      ∙ unfold handle_by_type in refl

  pub handle_syn_lem :
      (s : ℕ) (c : Context H)
      → s < 64
      → c.rx.header ≡ make_header syn s
      → handle_syn c ≡ syn_by_seq s c
  unfolding handle_syn
  handle_syn_lem s c lt e =
      rw checked
        (ap (λ n. syn_by_seq n c) (ap get_frame_seq e ∙ (get_frame_type-make_header syn s lt).1))
    where
      checked : same_type syn (get_frame_type c.rx.header) ≡ true
      checked =
          ap (λ h. same_type syn (get_frame_type h)) e
          ∙ ap (same_type syn) (get_frame_type-make_header syn s lt).0
          ∙ unfold same_type in refl
