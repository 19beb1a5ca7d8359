-- ===== src/History.antt =====
-- The history of sent packets, in src/serial_framing_protocol.cpp: `sfpClearHistory`,
-- `sfpTransmitHistory`, `sfpTransmitHistoryFromSeq`.
pub mod Resend
pub mod Window
use libsfp.Base.{ℕ, zero, suc, ◌+◌, ◌-◌, ◌^◌, ◌%◌, Bool, ltb, if◌then◌else◌, low_bits}
use libsfp.State.{Context, RingBuffer, Packet}
use libsfp.Transmit.{transmit_rtx}

-- `seq - (ctx->tx.seq - ctx->tx.history.size())` is unsigned arithmetic, which wraps, and its low
-- six bits are kept: 2 ^ 32 is added before each subtraction since `-` on ℕ stops at 0.
unfoldable pub fast_forward : ℕ → ℕ → ℕ → ℕ
fast_forward seq tx_seq size =
    low_bits ((seq + 2 ^ 32 - (tx_seq + 2 ^ 32 - size) % 2 ^ 32) % 2 ^ 32) 6

module _ {H : Type 0} ⦃rb : RingBuffer H⦄ where
  -- `while (!history.empty()) history.popFront();`, with fuel.
  unfoldable pub pop_all : ℕ → H → H
  pop_all zero h = h
  pop_all (suc fuel) h =
      let rest = pop_all fuel (rb.pop_front h) in if rb.is_empty h then h else rest

  -- The fuel is the size of the history: each round removes a packet.
  unfoldable pub clear_history : Context H → Context H
  unfolding pop_all
  clear_history c = record c {
    tx = record c.tx { history = pop_all (rb.size c.tx.history) c.tx.history };
  }

  -- `for (i = 0; i < n; ++i) history.popFront();`
  unfoldable pub pop_count : ℕ → H → H
  pop_count zero h = h
  pop_count (suc n) h = pop_count n (rb.pop_front h)

  -- `for (i = 0; i < reTxCount; ++i)`, with the rounds left and the index.
  unfoldable pub transmit_from : ℕ → ℕ → Context H → Context H
  transmit_from zero i c = c
  transmit_from (suc left) i c = transmit_from left (i + 1) (transmit_rtx (rb.at c.tx.history i) c)

  unfoldable pub transmit_history : Context H → Context H
  transmit_history c = transmit_from (rb.size c.tx.history) 0 c

  unfoldable pub transmit_history_from_seq : ℕ → Context H → Context H
  unfolding fast_forward
  transmit_history_from_seq seq c =
      let fastforward = fast_forward seq c.tx.seq (rb.size c.tx.history) in
      let forwarded =
        if ltb fastforward (rb.size c.tx.history)
        then record c { tx = record c.tx { history = pop_count fastforward c.tx.history } }
        else c in
      transmit_history (record forwarded { tx = record forwarded.tx { seq = seq } })
