-- ===== src/History/Window.antt =====
-- A request for an earlier frame that is still in the history: `sfpTransmitHistoryFromSeq` drops what
-- was acknowledged by it and sends the rest again.
use libsfp.Base.{
  ℕ, ◌+◌, ◌%◌, ◌≤◌, ◌<◌, List, ◌++◌, ◌≡◌, refl, sym, ap, subst, ◌∙◌, true, ltb, arith, All, flatten,
  length, length-append, drop, drop-append,
}
use libsfp.State.{Context, RingBuffer, Packet, rtx, history_capacity}
use libsfp.Transmit.Sends.{writes, Fits}
use libsfp.Transmit.Frames.{IsIdle}
use libsfp.History.{pop_count, transmit_history, transmit_history_from_seq, fast_forward}
use libsfp.History.Resend.{
  frames_from, seq_after, seq_after_lem, resent, Resends, to_list-pop_count,
  transmit_history-Resends,
}

-- The distance of `seq` behind the oldest packet, when it is in the history.
fast_forward-window :
    (seq tx_seq older lost : ℕ)
    → seq < 64
    → older + lost ≤ history_capacity
    → tx_seq ≡ (seq + lost) % 64
    → fast_forward seq tx_seq (older + lost) ≡ older
unfolding fast_forward
fast_forward-window seq tx_seq older lost hs fits e = omega arith

module _ {H : Type 0} ⦃rb : RingBuffer H⦄ where
  -- `d` is `c` after a request for the frames from `seq` on was answered by all of `lost`, as
  -- retransmissions from `seq` on, which are what is left in the history; the transmitter's sequence
  -- number is what it was.
  pub record Retransmits (c : Context H) (seq : ℕ) (lost : List Packet) (d : Context H)
      : Type 0 where
    pub chunks : List (List ℕ)
    pub crc : ℕ
    pub history : H
    pub becomes : d ≡ record (resent c c.tx.seq crc (writes c chunks)) {
      tx = record (resent c c.tx.seq crc (writes c chunks)).tx { history = history };
    }
    pub kept : rb.to_list history ≡ lost
    pub whole : flatten chunks ≡ frames_from rtx seq lost
    pub chunks_fit : All Fits chunks

  -- With a write callback and an empty write buffer, a request for the first of the newest packets of
  -- the history, one at least, when the transmitter's number is the one after those: they go out as
  -- retransmissions from the requested number on, the packets before them leave the history, and
  -- the transmitter's number is what it was.
  pub transmit_history_from_seq-Retransmits :
      (c : Context H) (seq : ℕ) (older lost : List Packet)
      → IsIdle c
      → rb.to_list c.tx.history ≡ older ++ lost
      → 0 < length lost
      → seq < 64
      → c.tx.seq ≡ (seq + length lost) % 64
      → Retransmits c seq lost (transmit_history_from_seq seq c)
  transmit_history_from_seq-Retransmits c seq older lost idle e some_lost seq_lt window = record {
    chunks = resends.chunks;
    crc = resends.crc;
    history = popped;
    becomes =
        forwards
        ∙ resends.becomes
        ∙ ap (λ s. resent at_seq s resends.crc (writes c resends.chunks)) same_seq;
    kept = popped-lost;
    whole = resends.whole;
    chunks_fit = resends.chunks_fit;
  }
    where
      size_is : rb.size c.tx.history ≡ length older + length lost
      size_is = rb.size_lem c.tx.history ∙ ap length e ∙ length-append older lost

      popped : H
      popped = pop_count (length older) c.tx.history

      at_seq : Context H
      at_seq = record c { tx = record c.tx { history = popped; seq = seq } }

      popped-lost : rb.to_list popped ≡ lost
      popped-lost =
          to_list-pop_count (length older) c.tx.history
          ∙ ap (drop (length older)) e
          ∙ drop-append older lost (length older) refl

      distance : fast_forward seq c.tx.seq (rb.size c.tx.history) ≡ length older
      distance =
          ap (fast_forward seq c.tx.seq) size_is
          ∙ fast_forward-window seq c.tx.seq (length older) (length lost) seq_lt
              (omega (arith, size_is, rb.size-le c.tx.history)) window

      in_history : ltb (length older) (rb.size c.tx.history) ≡ true
      in_history = ground (arith, size_is)

      forwards : transmit_history_from_seq seq c ≡ transmit_history at_seq
      forwards = unfold transmit_history_from_seq in rw (distance, in_history) refl

      resends : Resends at_seq lost (transmit_history at_seq)
      resends =
          subst (λ ps. Resends at_seq ps (transmit_history at_seq)) popped-lost
            (transmit_history-Resends at_seq
              (record { has_writer = idle.has_writer; flushed = idle.flushed }))

      same_seq : seq_after seq lost ≡ c.tx.seq
      same_seq = seq_after_lem lost seq seq_lt ∙ sym window
