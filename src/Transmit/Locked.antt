-- ===== src/Transmit/Locked.antt =====
-- Frames that are sent in the scope of a `TransmitterLock`, and the calls of the lock's callbacks.
use libsfp.Base.{
  ℕ, List, [], ◌∷◌, ◌++◌, ◌≡◌, refl, ap, ◌∙◌, append-nil, append_assoc, arith, All, flatten,
  if◌then◌else◌,
}
use libsfp.State.{Context, Effect, FrameType, Packet, locked, unlocked}
use libsfp.Frame.{make_header, encode_frame}
use libsfp.Transmit.{
  is_transmitter_lockable, lock_transmitter, unlock_transmitter, with_lock, transmit_control,
}
use libsfp.Transmit.Sends.{with_wire, writes, Fits}
use libsfp.Transmit.Frames.{IsIdle, SendsFrame, transmit_frame-SendsFrame}

module _ {H : Type 0} where
  unfoldable pub lock_calls : Context H → List Effect
  lock_calls c = if is_transmitter_lockable c then locked c.tx.lock c.tx.lock_data ∷ [] else []

  unfoldable pub unlock_calls : Context H → List Effect
  unlock_calls c =
      if is_transmitter_lockable c then unlocked c.tx.unlock c.tx.unlock_data ∷ [] else []

  pub lock_calls-tx : (c d : Context H) → c.tx ≡ d.tx → lock_calls c ≡ lock_calls d
  unfolding lock_calls is_transmitter_lockable
  lock_calls-tx c d e = rw e

  pub unlock_calls-tx : (c d : Context H) → c.tx ≡ d.tx → unlock_calls c ≡ unlock_calls d
  unfolding unlock_calls is_transmitter_lockable
  unlock_calls-tx c d e = rw e

  -- More calls made, and nothing else changed.
  abbrev pub calling : Context H → List Effect → Context H
  calling c calls = record c { trace = c.trace ++ calls }

  pub lock_transmitter_lem : (c : Context H) → lock_transmitter c ≡ calling c (lock_calls c)
  unfolding lock_transmitter lock_calls
  lock_transmitter_lem c = ground (arith, append-nil c.trace)

  pub unlock_transmitter_lem : (c : Context H) → unlock_transmitter c ≡ calling c (unlock_calls c)
  unfolding unlock_transmitter unlock_calls
  unlock_transmitter_lem c = ground (arith, append-nil c.trace)

  pub with_lock_lem :
      (body : Context H → Context H) (c : Context H)
      → let inside = body (calling c (lock_calls c)) in
        with_lock body c ≡ calling inside (unlock_calls inside)
  unfolding with_lock
  with_lock_lem body c =
      unlock_transmitter_lem _
      ∙ ap (λ x. calling (body x) (unlock_calls (body x))) (lock_transmitter_lem c)

  -- A lock that is taken and given back at once.
  pub with_lock-nothing :
      (c : Context H) → with_lock (λ x. x) c ≡ calling c (lock_calls c ++ unlock_calls c)
  with_lock-nothing c =
      with_lock_lem (λ x. x) c
      ∙ ap (λ u. calling (calling c (lock_calls c)) u) same
      ∙ ap (λ t. record c { trace = t }) (append_assoc c.trace (lock_calls c) (unlock_calls c))
    where
      same : unlock_calls (calling c (lock_calls c)) ≡ unlock_calls c
      same = unfold unlock_calls is_transmitter_lockable in refl

  -- `d` is `c` after one frame went out whole in the scope of the lock; nothing but the rolling CRC
  -- is changed.
  pub record Replies (c : Context H) (header : ℕ) (payload : Packet) (d : Context H) : Type 0 where
    pub chunks : List (List ℕ)
    pub crc : ℕ
    pub becomes : d ≡ with_wire c crc [] (lock_calls c ++ (writes c chunks ++ unlock_calls c))
    pub whole : flatten chunks ≡ encode_frame header payload
    pub chunks_fit : All Fits chunks

  pub with_lock-Replies :
      (c : Context H) (body : Context H → Context H) (header : ℕ) (payload : Packet)
      → SendsFrame (calling c (lock_calls c)) header payload (body (calling c (lock_calls c)))
      → Replies c header payload (with_lock body c)
  with_lock-Replies c body header payload sent = record {
    chunks = sent.chunks;
    crc = sent.crc;
    becomes =
        with_lock_lem body c
        ∙ ap (λ x. calling x (unlock_calls x)) sent.becomes
        ∙ ap (λ t. record (with_wire c sent.crc [] []) { trace = t }) calls;
    whole = sent.whole;
    chunks_fit = sent.chunks_fit;
  }
    where
      before : List Effect
      before = c.trace ++ lock_calls c

      same_lock :
          unlock_calls (with_wire (calling c (lock_calls c)) sent.crc [] (writes c sent.chunks))
          ≡ unlock_calls c
      same_lock = unfold unlock_calls is_transmitter_lockable in refl

      calls :
          (before ++ writes c sent.chunks)
            ++ unlock_calls
                (with_wire (calling c (lock_calls c)) sent.crc [] (writes c sent.chunks))
          ≡ c.trace ++ (lock_calls c ++ (writes c sent.chunks ++ unlock_calls c))
      calls =
          ap (λ x. (before ++ writes c sent.chunks) ++ x) same_lock
          ∙ append_assoc before (writes c sent.chunks) (unlock_calls c)
          ∙ append_assoc c.trace (lock_calls c) (writes c sent.chunks ++ unlock_calls c)

  pub transmit_control-SendsFrame :
      (t : FrameType) (seq : ℕ) (c : Context H)
      → IsIdle c
      → SendsFrame c (make_header t seq) [] (transmit_control t seq c)
  unfolding transmit_control
  transmit_control-SendsFrame t seq c idle =
      (transmit_frame-SendsFrame (make_header t seq) [] c idle).0

  -- The lock's callbacks leave the transmitter as ready as it was.
  pub with_lock_control-Replies :
      (t : FrameType) (seq : ℕ) (c : Context H)
      → IsIdle c
      → Replies c (make_header t seq) [] (with_lock (transmit_control t seq) c)
  with_lock_control-Replies t seq c idle =
      with_lock-Replies c (transmit_control t seq) (make_header t seq) [] (
        transmit_control-SendsFrame t seq (calling c (lock_calls c))
          (record { has_writer = idle.has_writer; flushed = idle.flushed }))
