-- ===== src/Stream/Reads.antt =====
-- What a run of `read_op` comes to, and the runs that it is made of.
use libsfp.Base.{
  ℕ, ◌<◌, ◌≤◌, List, [], ◌∷◌, ◌++◌, ◌≡◌, refl, sym, ap, ◌∙◌, none, ◌⊎◌, inl, inr, Bool, true, false,
  ◌&&◌, not, ◌==◌, if◌then◌else◌, length, append-nil, append_assoc, arith, length_zero,
}
use libsfp.State.{RingBuffer, Packet}
use libsfp.Receive.{deliver_octets}
use libsfp.Receive.Destuff.{deliver_octets-append}
use libsfp.Errors.{ErrorCode, is_error}
use libsfp.Stream.Flush.{Drained, Fed}
use libsfp.Stream.Messages.{messages, messages-append, message_of}
use libsfp.Stream.Operations.{
  feed, Session, Round, Progress, waits, completes, throws, ends_well, has_packet, consume_read,
  finish_read,
}

-- The octets of the reads that had no error.
abbrev pub octets_of : List Round → List ℕ
octets_of [] = []
octets_of (r ∷ rs) = (if is_error r.read_ec then [] else r.octets) ++ octets_of rs

pub not_empty : (b : Bool) (n : ℕ) → (not b && not (not (n == 0))) ≡ false → b ≡ false → 0 < n
not_empty true n e f = cc
not_empty false n e f = ground arith

pub is_empty : (b : Bool) (n : ℕ) → (not b && not (not (n == 0))) ≡ true → n ≡ 0
is_empty true n e = cc
is_empty false n e = ground arith

octets_of-append : (rs qs : List Round) → octets_of (rs ++ qs) ≡ octets_of rs ++ octets_of qs
octets_of-append [] qs = refl
octets_of-append (r ∷ rs) qs =
    ap (λ l. (if is_error r.read_ec then [] else r.octets) ++ l) (octets_of-append rs qs)
    ∙ sym (append_assoc (if is_error r.read_ec then [] else r.octets) (octets_of rs) (octets_of qs))

pub full_lt : (n : ℕ) → not (n == 0) ≡ true → 0 < n
full_lt n e = ground arith

pub zero_le : (n : ℕ) → (n == 0) ≡ true → n ≤ 0
zero_le n e = ground arith

-- Whether an exception has left the operation.
abbrev pub is_thrown : Progress → Bool
is_thrown throws = true
is_thrown waits = false
is_thrown (completes ec) = false

module _ {H : Type 0} ⦃rb : RingBuffer H⦄ where
  -- What a read comes to, from a stream: the rounds that it has used; the octets that it has fed, of the
  -- read buffer and of those rounds, in order; the rest, which is in the buffer; the messages that the
  -- context has handed out, of which there is at most one, and which the destination has then; if it
  -- completes without an error, that one is not empty; and if an exception has left it, all this is so
  -- before the call that threw, in which the write buffer has no room for what `octets` make the context
  -- write.
  pub record Reads (rs : List Round) (s : Session H) (r : Session H × Progress × Packet)
      : Type 0 where
    pub used : List Round
    pub unused : List Round
    pub taken : List ℕ
    pub rounds : rs ≡ used ++ unused
    pub keeps : s.stream.read_buffer ++ octets_of used ≡ taken ++ r.0.stream.read_buffer
    pub feeds : r.0.stream.sfp_context ≡ deliver_octets taken s.stream.sfp_context
    pub hands :
        message_of s.stream.sfp_packet ++ messages taken s.stream.sfp_context ≡ message_of r.2
    pub full : (ends_well r.1 ≡ false) ⊎ (0 < length r.2)
    pub leaves : (is_thrown r.1 ≡ false) ⊎ ((octets : List ℕ) × (feed octets r.0 ≡ none))

  pub nothing_read :
      (rs : List Round) (s : Session H) (r : Session H × Progress × Packet)
      → r.0.stream.read_buffer ≡ s.stream.read_buffer
      → r.0.stream.sfp_context ≡ s.stream.sfp_context
      → s.stream.sfp_packet ≡ r.2
      → (ends_well r.1 ≡ false) ⊎ (0 < length r.2)
      → (is_thrown r.1 ≡ false) ⊎ ((octets : List ℕ) × (feed octets r.0 ≡ none))
      → Reads rs s r
  unfolding deliver_octets messages
  nothing_read rs s r same_buffer same_context same_packet full leaves = record {
    used = [];
    unused = rs;
    taken = [];
    rounds = refl;
    keeps = append-nil _ ∙ sym same_buffer;
    feeds = same_context;
    hands = append-nil _ ∙ ap message_of same_packet;
    full = full;
    leaves = leaves;
  }

  -- What was fed first, of the buffer and of some rounds.
  pub after_first :
      (before : List Round) {rs : List Round} (s t : Session H) {q : Session H × Progress × Packet}
      → s.stream.sfp_packet ≡ []
      → Fed (octets_of before) s t
      → Reads rs t q
      → Reads (before ++ rs) s q
  after_first before s t {q} none_left fed rest = record {
    used = before ++ rest.used;
    unused = rest.unused;
    taken = fed.taken ++ rest.taken;
    rounds = ap (λ l. before ++ l) rest.rounds ∙ sym (append_assoc before rest.used rest.unused);
    keeps =
        ap (λ l. s.stream.read_buffer ++ l) (octets_of-append before rest.used)
        ∙ sym (append_assoc s.stream.read_buffer (octets_of before) (octets_of rest.used))
        ∙ ap (λ l. l ++ octets_of rest.used) fed.parts
        ∙ append_assoc fed.taken t.stream.read_buffer (octets_of rest.used)
        ∙ ap (λ l. fed.taken ++ l) rest.keeps
        ∙ sym (append_assoc fed.taken rest.taken q.0.stream.read_buffer);
    feeds =
        rest.feeds
        ∙ ap (deliver_octets rest.taken) fed.context_is
        ∙ sym (deliver_octets-append fed.taken rest.taken s.stream.sfp_context);
    hands =
        ap (λ p. message_of p ++ messages (fed.taken ++ rest.taken) s.stream.sfp_context) none_left
        ∙ messages-append fed.taken rest.taken s.stream.sfp_context
        ∙ ap (λ l. l ++ messages rest.taken (deliver_octets fed.taken s.stream.sfp_context))
            fed.hands
        ∙ ap (λ c. message_of t.stream.sfp_packet ++ messages rest.taken c) (sym fed.context_is)
        ∙ rest.hands;
    full = rest.full;
    leaves = rest.leaves;
  }

  pub finish-Reads :
      (rs : List Round) (flush_ec : ErrorCode) (s : Session H)
      → (is_error flush_ec ≡ false → 0 < length s.stream.sfp_packet)
      → Reads rs s (finish_read flush_ec s)
  unfolding finish_read ends_well
  finish-Reads rs flush_ec s full =
      nothing_read rs s (finish_read flush_ec s) refl refl refl (by_error (is_error flush_ec) refl)
        (inl refl)
    where
      by_error :
          (b : Bool)
          → is_error flush_ec ≡ b
          → (not (is_error flush_ec) ≡ false) ⊎ (0 < length s.stream.sfp_packet)
      by_error true e = inl (ap not e)
      by_error false e = inr (full e)

  -- Why the loop ends: without an error, because a packet is there.
  pub packet_left :
      (ec : ErrorCode) (s : Session H)
      → (not (is_error ec) && not (has_packet s)) ≡ false
      → is_error ec ≡ false
      → 0 < length s.stream.sfp_packet
  packet_left ec s e ok = not_empty (is_error ec) (length s.stream.sfp_packet) e ok

  pub no_packet :
      (ec : ErrorCode) (s : Session H)
      → (not (is_error ec) && not (has_packet s)) ≡ true
      → s.stream.sfp_packet ≡ []
  no_packet ec s e =
      length_zero s.stream.sfp_packet
        (omega (arith, is_empty (is_error ec) (length s.stream.sfp_packet) e))

  pub buffer_empty :
      (ec : ErrorCode) (s : Session H)
      → (not (is_error ec) && not (has_packet s)) ≡ true
      → Drained s
      → s.stream.read_buffer ≡ []
  buffer_empty ec s e (inl none_left) = none_left
  buffer_empty ec s e (inr lt) =
      absurd (omega (arith, lt, is_empty (is_error ec) (length s.stream.sfp_packet) e))

  -- The octets of one round, fed to a stream whose read buffer was empty.
  pub one_round :
      (r : Round) (s t : Session H)
      → is_error r.read_ec ≡ false
      → s.stream.read_buffer ≡ []
      → Fed r.octets (consume_read s) t
      → Fed (octets_of (r ∷ [])) s t
  unfolding consume_read
  one_round r s t ok empty fed = record {
    taken = fed.taken;
    parts =
        ap (λ b. b ++ ((if is_error r.read_ec then [] else r.octets) ++ [])) empty
        ∙ ap (λ b. (if b then [] else r.octets) ++ []) ok
        ∙ append-nil r.octets
        ∙ fed.parts;
    context_is = fed.context_is;
    hands = fed.hands;
    drained = fed.drained;
    within = fed.within;
  }

  pub failed_read :
      (r : Round) (rs : List Round) (s : Session H)
      → is_error r.read_ec ≡ true
      → s.stream.read_buffer ≡ []
      → s.stream.sfp_packet ≡ []
      → Reads (r ∷ rs) s (consume_read s, completes r.read_ec, [])
  unfolding consume_read ends_well deliver_octets messages
  failed_read r rs s f empty none_left = record {
    used = r ∷ [];
    unused = rs;
    taken = [];
    rounds = refl;
    keeps =
        ap (λ b. b ++ ((if is_error r.read_ec then [] else r.octets) ++ [])) empty
        ∙ ap (λ b. (if b then [] else r.octets) ++ []) f;
    feeds = refl;
    hands = append-nil _ ∙ ap message_of none_left;
    full = inl (ap not f);
    leaves = inl refl;
  }
