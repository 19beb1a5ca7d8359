-- ===== src/History/Resend.antt =====
-- Emptying the history, and the requests for an earlier frame.
use libsfp.Base.{
  ℕ, zero, suc, ◌+◌, ◌%◌, ◌≤◌, ◌<◌, List, [], ◌∷◌, ◌++◌, ◌≡◌, refl, sym, ap, ◌∙◌, Bool-cases, inl,
  inr, append-nil, append_assoc, arith, All, All-append, flatten, flatten-append, map-append,
  length, length-append, drop, drop-suc, length_zero, length-tail, get_elem?-append, ==_iff,
  is_some,
}
use libsfp.State.{Context, RingBuffer, Effect, Packet, wrote, rtx, FrameType}
use libsfp.Frame.{make_header, encode_frame, next_seq}
use libsfp.Frame.Header.{next_seq-lt, next_seq_lem}
use libsfp.Transmit.{transmit_rtx}
use libsfp.Transmit.Sends.{writes, Fits}
use libsfp.Transmit.Frames.{IsIdle, transmit_frame-SendsFrame}
use libsfp.History.{pop_all, pop_count, clear_history, transmit_from, transmit_history}

-- Consecutive frames of one type, from a sequence number on.
unfoldable pub frames_from : FrameType → ℕ → List Packet → List ℕ
frames_from t s [] = []
frames_from t s (p ∷ ps) = encode_frame (make_header t s) p ++ frames_from t (next_seq s) ps

unfoldable pub seq_after : ℕ → List Packet → ℕ
seq_after s [] = s
seq_after s (p ∷ ps) = seq_after (next_seq s) ps

pub seq_after_lem : (ps : List Packet) (s : ℕ) → s < 64 → seq_after s ps ≡ (s + length ps) % 64
unfolding seq_after
seq_after_lem [] s h = omega arith
seq_after_lem (p ∷ ps) s h =
    omega (arith, seq_after_lem ps (next_seq s) (next_seq-lt s), next_seq_lem s)

pub frames_from-append :
    (t : FrameType) (ps qs : List Packet) (s : ℕ)
    → frames_from t s (ps ++ qs) ≡ frames_from t s ps ++ frames_from t (seq_after s ps) qs
unfolding frames_from seq_after
frames_from-append t [] qs s = refl
frames_from-append t (p ∷ ps) qs s =
    ap (λ x. encode_frame (make_header t s) p ++ x) (frames_from-append t ps qs (next_seq s))
    ∙ sym (append_assoc (encode_frame (make_header t s) p) _ _)

module _ {H : Type 0} where
  -- The context with another sequence number and CRC, an empty write buffer, and more calls made.
  abbrev pub resent : Context H → ℕ → ℕ → List Effect → Context H
  resent c seq crc calls = record c {
    tx = record c.tx { seq = seq; crc = crc; writebuf = [] };
    trace = c.trace ++ calls;
  }

module _ {H : Type 0} ⦃rb : RingBuffer H⦄ where
  pub to_list-pop_count : (n : ℕ) (h : H) → rb.to_list (pop_count n h) ≡ drop n (rb.to_list h)
  unfolding pop_count
  to_list-pop_count zero h = refl
  to_list-pop_count (suc n) h =
      to_list-pop_count n (rb.pop_front h)
      ∙ ap (drop n) (rb.to_list-pop_front h)
      ∙ sym (drop-suc n (rb.to_list h))

  to_list-pop_all :
      (fuel : ℕ) (h : H) → length (rb.to_list h) ≤ fuel → rb.to_list (pop_all fuel h) ≡ []
  unfolding pop_all
  to_list-pop_all zero h le = length_zero (rb.to_list h) le
  to_list-pop_all (suc fuel) h le = elim (Bool-cases (rb.is_empty h)) [
    | inl done ↦ rw done (
        length_zero (rb.to_list h)
          (ground (arith, ==_iff (length (rb.to_list h)) 0, rb.is_empty_lem h)))
    | inr more ↦ rw more (
        to_list-pop_all fuel (rb.pop_front h)
          (rw (rb.to_list-pop_front h) (omega (arith, length-tail (rb.to_list h)))))
  ]

  -- The loop of `sfpClearHistory` ends, and leaves the history empty.
  pub clear_history-empty : (c : Context H) → rb.to_list (clear_history c).tx.history ≡ []
  unfolding clear_history
  clear_history-empty c =
      to_list-pop_all (rb.size c.tx.history) c.tx.history (omega (arith, rb.size_lem c.tx.history))

  -- `d` is `c` after the packets `ps` went out as retransmissions, from the sequence number of the
  -- transmitter on, which has advanced past them; nothing else but the rolling CRC is changed.
  pub record Resends (c : Context H) (ps : List Packet) (d : Context H) : Type 0 where
    pub chunks : List (List ℕ)
    pub crc : ℕ
    pub becomes : d ≡ resent c (seq_after c.tx.seq ps) crc (writes c chunks)
    pub whole : flatten chunks ≡ frames_from rtx c.tx.seq ps
    pub chunks_fit : All Fits chunks

  Resends-nil : (c : Context H) → IsIdle c → Resends c [] c
  Resends-nil c idle = record {
    chunks = [];
    crc = c.tx.crc;
    becomes = unfold seq_after in ground (arith, idle.flushed, append-nil c.trace);
    whole = unfold frames_from flatten in refl;
    chunks_fit = tt;
  }

  transmit_rtx-Resends :
      (p : Packet) (c : Context H) → IsIdle c → Resends c (p ∷ []) (transmit_rtx p c)
  unfolding transmit_rtx seq_after frames_from
  transmit_rtx-Resends p c idle =
      let sent = transmit_frame-SendsFrame (make_header rtx c.tx.seq) p c idle in
      record {
        chunks = sent.0.chunks;
        crc = sent.0.crc;
        becomes =
            ap {A = Context H} (λ x. record x { tx = record x.tx { seq = next_seq x.tx.seq } })
              sent.0.becomes;
        whole = sent.0.whole ∙ sym (append-nil _);
        chunks_fit = sent.0.chunks_fit;
      }

  Resends-cons :
      {c d e : Context H} {p : Packet} {ps : List Packet}
      → Resends c (p ∷ []) d
      → Resends d ps e
      → Resends c (p ∷ ps) e
  unfolding seq_after frames_from
  Resends-cons {c} {d} {p} {ps} r s = record {
    chunks = r.chunks ++ s.chunks;
    crc = s.crc;
    becomes =
        s.becomes
        ∙ ap (λ x. resent x (seq_after x.tx.seq ps) s.crc (writes x s.chunks)) r.becomes
        ∙ ap (λ t. record (resent c (seq_after (next_seq c.tx.seq) ps) s.crc []) { trace = t })
            (append_assoc c.trace (writes c r.chunks) (writes c s.chunks)
              ∙ ap (λ t. c.trace ++ t)
                  (sym (map-append (wrote c.tx.write c.tx.write_data) r.chunks s.chunks)));
    whole =
        flatten-append r.chunks s.chunks
        ∙ ap (λ x. x ++ flatten s.chunks) (r.whole ∙ append-nil _)
        ∙ ap (λ x. encode_frame (make_header rtx c.tx.seq) p ++ x)
            (s.whole ∙ ap (λ x. frames_from rtx x.tx.seq ps) r.becomes);
    chunks_fit = All-append Fits s.chunks r.chunks (r.chunks_fit, s.chunks_fit);
  }

  Resends-IsIdle : {c d : Context H} {ps : List Packet} → Resends c ps d → IsIdle c → IsIdle d
  Resends-IsIdle r idle = record {
    has_writer = ap (λ x. is_some x.tx.write) r.becomes ∙ idle.has_writer;
    flushed = ap (λ x. x.tx.writebuf) r.becomes;
  }

  transmit_from-Resends :
      (ps sent : List Packet) (i : ℕ) (c : Context H)
      → IsIdle c
      → rb.to_list c.tx.history ≡ sent ++ ps
      → i ≡ length sent
      → Resends c ps (transmit_from (length ps) i c)
  unfolding transmit_from
  transmit_from-Resends [] sent i c idle e len = Resends-nil c idle
  transmit_from-Resends (p ∷ ps) sent i c idle e len = Resends-cons first (
      transmit_from-Resends ps (sent ++ p ∷ []) (i + 1) _ (Resends-IsIdle first idle)
        (ap (λ x. rb.to_list x.tx.history) first.becomes ∙ e ∙ sym (append_assoc sent (p ∷ []) ps))
        (omega (arith, length-append sent (p ∷ []))))
    where
      found : rb.at c.tx.history i ≡ p
      found = rb.at_lem c.tx.history i p (rw (e, len) (get_elem?-append sent p ps))

      first : Resends c (p ∷ []) (transmit_rtx (rb.at c.tx.history i) c)
      first = rw found (transmit_rtx-Resends p c idle)

  -- `sfpTransmitHistory` sends the whole history, oldest first, from the transmitter's sequence number on.
  pub transmit_history-Resends :
      (c : Context H) → IsIdle c → Resends c (rb.to_list c.tx.history) (transmit_history c)
  unfolding transmit_history
  transmit_history-Resends c idle =
      rw (rb.size_lem c.tx.history)
        (transmit_from-Resends (rb.to_list c.tx.history) [] 0 c idle refl refl)
