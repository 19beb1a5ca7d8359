-- ===== src/Transmit/Sends.antt =====
-- What every function of the transmitter that only puts octets on the wire has in common, and how
-- two of them in sequence make a third.
use mathlib.Core.Path.{◌≡⟨◌⟩◌, ◌∎}
use libsfp.Base.{
  ℕ, ◌+◌, ◌≤◌, List, [], ◌++◌, ◌≡◌, sym, ap, subst, ◌∙◌, true, map, length, All, All-append,
  append_assoc, map-append, is_some, flatten, flatten-append, length-append, arith,
}
use libsfp.State.{Context, Effect, wrote, writebuf_size}

abbrev pub Fits : List ℕ → Type 0
Fits chunk = length chunk ≤ writebuf_size

module _ {H : Type 0} where
  -- The context with another CRC and write buffer and more calls made, and nothing else changed.
  abbrev pub with_wire : Context H → ℕ → List ℕ → List Effect → Context H
  with_wire c crc buf calls = record c {
    tx = record c.tx { crc = crc; writebuf = buf };
    trace = c.trace ++ calls;
  }

  -- The calls that hand these chunks to the write callback.
  abbrev pub writes : Context H → List (List ℕ) → List Effect
  writes c chunks = map (wrote c.tx.write c.tx.write_data) chunks

  -- `d` is `c` with the CRC `crc` after `octets` were put on the wire: what was in the buffer and
  -- these went, in order and none lost, to the write callback in chunks of at most
  -- `writebuf_size` octets, but for what the buffer holds now.
  pub record Sends (c : Context H) (crc : ℕ) (octets : List ℕ) (d : Context H) : Type 0 where
    pub chunks : List (List ℕ)
    pub buf : List ℕ
    pub becomes : d ≡ with_wire c crc buf (writes c chunks)
    pub no_loss : flatten chunks ++ buf ≡ c.tx.writebuf ++ octets
    pub chunks_fit : All Fits chunks
    pub buf_fits : Fits buf

  -- A context whose transmitter can be used: it has a callback, its buffer is within its size, and
  -- its rolling CRC is `crc`.
  pub record CanSend (c : Context H) (crc : ℕ) : Type 0 where
    pub has_writer : is_some c.tx.write ≡ true
    pub fits : Fits c.tx.writebuf
    pub crc_is : c.tx.crc ≡ crc

  pub Sends-CanSend :
      {c d : Context H} {k l : ℕ} {os : List ℕ} → Sends c l os d → CanSend c k → CanSend d l
  Sends-CanSend s r = record {
    has_writer = ap (λ x. is_some x.tx.write) s.becomes ∙ r.has_writer;
    fits = subst Fits (sym (ap (λ x. x.tx.writebuf) s.becomes)) s.buf_fits;
    crc_is = ap (λ x. x.tx.crc) s.becomes;
  }

  pub Sends-trans :
      {c d e : Context H} {k l : ℕ} {os ps : List ℕ}
      → Sends c k os d
      → Sends d l ps e
      → Sends c l (os ++ ps) e
  Sends-trans {c} {d} {l} {os} {ps} s t = record {
    chunks = s.chunks ++ t.chunks;
    buf = t.buf;
    becomes =
        t.becomes
        ∙ ap (λ x. with_wire x l t.buf (writes x t.chunks)) s.becomes
        ∙ ap (λ x. record (with_wire c l t.buf []) { trace = x }) traces;
    no_loss =
        flatten (s.chunks ++ t.chunks) ++ t.buf
        ≡⟨ ap (λ x. x ++ t.buf) (flatten-append s.chunks t.chunks) ⟩
          (flatten s.chunks ++ flatten t.chunks) ++ t.buf
        ≡⟨ append_assoc (flatten s.chunks) (flatten t.chunks) t.buf ⟩
          flatten s.chunks ++ (flatten t.chunks ++ t.buf)
        ≡⟨ ap (λ x. flatten s.chunks ++ x) t.no_loss ⟩ flatten s.chunks ++ (d.tx.writebuf ++ ps)
        ≡⟨ ap (λ x. flatten s.chunks ++ (x.tx.writebuf ++ ps)) s.becomes ⟩
          flatten s.chunks ++ (s.buf ++ ps)
        ≡⟨ sym (append_assoc (flatten s.chunks) s.buf ps) ⟩ (flatten s.chunks ++ s.buf) ++ ps
        ≡⟨ ap (λ x. x ++ ps) s.no_loss ⟩ (c.tx.writebuf ++ os) ++ ps
        ≡⟨ append_assoc c.tx.writebuf os ps ⟩ c.tx.writebuf ++ (os ++ ps) ∎;
    chunks_fit = All-append Fits t.chunks s.chunks (s.chunks_fit, t.chunks_fit);
    buf_fits = t.buf_fits;
  }
    where
      traces :
          (c.trace ++ writes c s.chunks) ++ writes c t.chunks
          ≡ c.trace ++ writes c (s.chunks ++ t.chunks)
      traces = simp (append_assoc, map-append)

  -- The same of a function that also counts the octets that it puts on the wire.
  abbrev pub Puts : Context H → ℕ → List ℕ → Context H × ℕ → Type 0
  Puts c crc octets r = Sends c crc octets r.0 × (r.1 ≡ length octets)

  pub Puts-trans :
      {c d e : Context H} {k l n m : ℕ} {os ps : List ℕ}
      → Puts c k os (d, n)
      → Puts d l ps (e, m)
      → Puts c l (os ++ ps) (e, n + m)
  Puts-trans {os} {ps} p q = (Sends-trans p.0 q.0, omega (arith, p.1, q.1, length-append os ps))
